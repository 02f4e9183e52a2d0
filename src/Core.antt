-- ===== src/Core.antt =====
-- nps-core/src: the wire format, the frame registry and the anchor cache.
pub mod Error
pub mod Frames
pub mod Registry
pub mod Cache
pub mod Json
pub mod Codec
mod Examples
