-- ===== src/Core/Frames.antt =====
-- nps-core/src/frames.rs: frame types, encoding tiers and the frame header. A byte is a number
-- below 256, and a wire is a list of bytes.
pub mod Wire
use Prim.Native.Nat.{bit_and, bit_or}
use nps_sdk_rust.Common.{
  ℕ, ◌+◌, ◌*◌, ◌/◌, ◌%◌, Bool, true, false, not, List, [], ◌∷◌, ok, err, ◌>>=◌, ltb, ◌==◌,
  if◌then◌else◌,
}
use nps_sdk_rust.Core.Error.{NpsResult, frame, lit, hex}

pub data FrameType : Type 0 where
  anchor diff stream caps hello nop : FrameType
  query action : FrameType
  ident trust revoke : FrameType
  announce resolve graph : FrameType
  task delegate sync align_stream : FrameType
  error : FrameType

unfoldable pub from_u8 : ℕ → NpsResult FrameType
from_u8 v =
    if v == 0x01
    then ok anchor
    else if v == 0x02
    then ok diff
    else if v == 0x03
    then ok stream
    else if v == 0x04
    then ok caps
    else if v == 0x06
    then ok hello
    else if v == 0x07
    then ok nop
    else if v == 0x10
    then ok query
    else if v == 0x11
    then ok action
    else if v == 0x20
    then ok ident
    else if v == 0x21
    then ok trust
    else if v == 0x22
    then ok revoke
    else if v == 0x30
    then ok announce
    else if v == 0x31
    then ok resolve
    else if v == 0x32
    then ok graph
    else if v == 0x40
    then ok task
    else if v == 0x41
    then ok delegate
    else if v == 0x42
    then ok sync
    else if v == 0x43
    then ok align_stream
    else if v == 0xFE
    then ok error
    else err (frame (lit "unknown frame type: 0x" ∷ hex v ∷ []))

unfoldable pub as_u8 : FrameType → ℕ
as_u8 anchor = 0x01
as_u8 diff = 0x02
as_u8 stream = 0x03
as_u8 caps = 0x04
as_u8 hello = 0x06
as_u8 nop = 0x07
as_u8 query = 0x10
as_u8 action = 0x11
as_u8 ident = 0x20
as_u8 trust = 0x21
as_u8 revoke = 0x22
as_u8 announce = 0x30
as_u8 resolve = 0x31
as_u8 graph = 0x32
as_u8 task = 0x40
as_u8 delegate = 0x41
as_u8 sync = 0x42
as_u8 align_stream = 0x43
as_u8 error = 0xFE

pub data EncodingTier : Type 0 where
  json msg_pack binary_vector reserved : EncodingTier

-- `tier as u8`
abbrev pub tier_u8 : EncodingTier → ℕ
tier_u8 json = 0
tier_u8 msg_pack = 1
tier_u8 binary_vector = 2
tier_u8 reserved = 3

pub record FrameHeader : Type 0 where
  pub frame_type : FrameType
  pub flags : ℕ
  pub payload_length : ℕ
  pub is_extended : Bool

-- `flags & mask != 0`
abbrev pub has_bit : ℕ → ℕ → Bool
has_bit flags mask = not (bit_and flags mask == 0)

unfoldable pub new : FrameType → EncodingTier → Bool → ℕ → FrameHeader
new frame_type tier is_final payload_length = record {
  frame_type = frame_type;
  flags = if is_extended then bit_or final_flags 0x80 else final_flags;
  payload_length = payload_length;
  is_extended = is_extended;
}
  where
    is_extended : Bool
    is_extended = ltb 0xFFFF payload_length

    tier_flags : ℕ
    tier_flags = bit_and (tier_u8 tier) 0x03

    final_flags : ℕ
    final_flags = if is_final then bit_or tier_flags 0x04 else tier_flags

unfoldable pub encoding_tier : FrameHeader → EncodingTier
encoding_tier h =
    if bit_and h.flags 0x03 == 0
    then json
    else if bit_and h.flags 0x03 == 1
    then msg_pack
    else if bit_and h.flags 0x03 == 2
    then binary_vector
    else reserved

unfoldable pub is_final : FrameHeader → Bool
is_final h = has_bit h.flags 0x04

unfoldable pub header_size : FrameHeader → ℕ
header_size h = if h.is_extended then 8 else 4

-- `u16::from_be_bytes` and `u32::from_be_bytes`, and their inverses.
abbrev pub u16_from_be : ℕ → ℕ → ℕ
u16_from_be a b = a * 256 + b

abbrev pub u32_from_be : ℕ → ℕ → ℕ → ℕ → ℕ
u32_from_be a b c d = ((a * 256 + b) * 256 + c) * 256 + d

abbrev pub u16_to_be : ℕ → List ℕ
u16_to_be n = (n / 256 % 256) ∷ (n % 256) ∷ []

abbrev pub u32_to_be : ℕ → List ℕ
u32_to_be n = (n / 16777216 % 256) ∷ (n / 65536 % 256) ∷ (n / 256 % 256) ∷ (n % 256) ∷ []

-- The branches of `parse`, on a wire of at least four bytes: `tail` is what follows them.
parse_body : FrameType → ℕ → ℕ → ℕ → List ℕ → NpsResult FrameHeader
parse_body frame_type flags l0 l1 (b4 ∷ b5 ∷ b6 ∷ b7 ∷ rest) =
    if has_bit flags 0x80
    then ok (record {
      frame_type = frame_type;
      flags = flags;
      payload_length = u32_from_be b4 b5 b6 b7;
      is_extended = true;
    })
    else ok (record {
      frame_type = frame_type;
      flags = flags;
      payload_length = u16_from_be l0 l1;
      is_extended = false;
    })
parse_body frame_type flags l0 l1 _ =
    if has_bit flags 0x80
    then err (frame (lit "buffer too small for extended header" ∷ []))
    else ok (record {
      frame_type = frame_type;
      flags = flags;
      payload_length = u16_from_be l0 l1;
      is_extended = false;
    })

unfoldable pub parse : List ℕ → NpsResult FrameHeader
unfolding parse_body from_u8
parse (b0 ∷ flags ∷ l0 ∷ l1 ∷ tail) =
    from_u8 b0 >>= λ frame_type. parse_body frame_type flags l0 l1 tail
parse _ = err (frame (lit "buffer too small for header" ∷ []))

-- `payload_length as u32` and `as u16` keep the low bits, which `u32_to_be` and `u16_to_be` do.
unfoldable pub to_bytes : FrameHeader → List ℕ
unfolding as_u8
to_bytes h =
    if h.is_extended
    then as_u8 h.frame_type ∷ h.flags ∷ 0 ∷ 0 ∷ u32_to_be h.payload_length
    else as_u8 h.frame_type ∷ h.flags ∷ u16_to_be h.payload_length
