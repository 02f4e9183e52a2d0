-- ===== src/Core/Codec.antt =====
-- nps-core/src/codec.rs: frames as bytes. serde_json, rmp_serde and the machine's floats are the
-- section's `Serde`: their functions, with no law.
pub mod Formats
pub mod Stored
pub mod Extract
pub mod Restore
pub mod Framing
pub mod RoundTrip
pub mod Narrowed
pub mod Vectors
use nps_sdk_rust.Common.{
  ℕ, ◌+◌, ◌*◌, String, Bool, true, false, List, [], ◌∷◌, ◌++◌, Option, none, some, ok, err, Result,
  ◌>>=◌, ◌>>◌, guard, leb, length, take, drop,
}
use nps_sdk_rust.Core.Error.{NpsError, NpsResult, Message, codec, frame, lit, dec, hex}
use nps_sdk_rust.Core.Json.{Value, Fields, object}
use nps_sdk_rust.Core.Frames
use nps_sdk_rust.Core.Frames.{
  FrameType, as_u8, EncodingTier, FrameHeader, encoding_tier, header_size, parse, to_bytes,
}
use nps_sdk_rust.Core.Registry.{FrameRegistry, is_registered}
use Formats.{Serde, map_codec}
use Extract.{encode_binary_vector}
use Restore.{decode_binary_vector}

abbrev pub default_max_payload : ℕ
default_max_payload = 10 * 1024 * 1024

pub record NpsFrameCodec : Type 0 where
  pub registry : FrameRegistry
  pub max_payload : ℕ

unfoldable pub new : FrameRegistry → NpsFrameCodec
new registry = record { registry = registry; max_payload = default_max_payload }

unfoldable pub with_max_payload : NpsFrameCodec → ℕ → NpsFrameCodec
with_max_payload c max_payload = record c { max_payload = max_payload }

module _ {N F32 F64 : Type 0} (x : Serde N F32 F64) where
  unfoldable pub encode_json : Fields N → NpsResult (List ℕ)
  encode_json dict = map_codec (x.json_to_vec dict)

  unfoldable pub encode_msgpack : Fields N → NpsResult (List ℕ)
  encode_msgpack dict = map_codec (x.msgpack_to_vec (object dict))

  abbrev pub as_object : Message → Value N → NpsResult (Fields N)
  as_object m (object dict) = ok dict
  as_object m _ = err (codec m)

  unfoldable pub decode_json : List ℕ → NpsResult (Fields N)
  decode_json payload = do
    v ← map_codec (x.json_from_slice payload)
    as_object (lit "expected JSON object" ∷ []) v

  unfoldable pub decode_msgpack : List ℕ → NpsResult (Fields N)
  decode_msgpack payload = do
    v ← map_codec (x.msgpack_from_slice payload)
    as_object (lit "expected MsgPack map" ∷ []) v

  -- The `match` on the tier in `encode`, and the one in `decode`.
  unfoldable pub encode_payload : EncodingTier → Fields N → NpsResult (List ℕ)
  unfolding encode_json encode_msgpack
  encode_payload EncodingTier.json dict = encode_json dict
  encode_payload EncodingTier.msg_pack dict = encode_msgpack dict
  encode_payload EncodingTier.binary_vector dict = encode_binary_vector x dict
  encode_payload EncodingTier.reserved dict = err (codec (lit "reserved encoding tier 0x03" ∷ []))

  unfoldable pub decode_payload : EncodingTier → List ℕ → NpsResult (Fields N)
  unfolding decode_json decode_msgpack
  decode_payload EncodingTier.json payload = decode_json payload
  decode_payload EncodingTier.msg_pack payload = decode_msgpack payload
  decode_payload EncodingTier.binary_vector payload = decode_binary_vector x payload
  decode_payload EncodingTier.reserved payload =
      err (codec (lit "reserved encoding tier 0x03" ∷ []))

  unfoldable pub encode :
      NpsFrameCodec → FrameType → Fields N → EncodingTier → Bool → NpsResult (List ℕ)
  encode c frame_type dict tier is_final = do
    payload ← encode_payload tier dict
    guard (leb (length payload) c.max_payload) (
        codec
          (lit "payload " ∷ dec (length payload) ∷ lit " exceeds max " ∷ dec c.max_payload ∷ []))
    ok (to_bytes (Frames.new frame_type tier is_final (length payload)) ++ payload)

  unfoldable pub decode : NpsFrameCodec → List ℕ → NpsResult (FrameType × Fields N)
  decode c wire = do
    header ← parse wire
    guard (leb (header_size header + header.payload_length) (length wire))
        (codec (lit "wire too short for declared payload" ∷ []))
    dict ←
        decode_payload (encoding_tier header)
          (take header.payload_length (drop (header_size header) wire))
    guard (is_registered c.registry header.frame_type)
        (frame (lit "unregistered frame type 0x" ∷ hex (as_u8 header.frame_type) ∷ []))
    ok (header.frame_type, dict)

unfoldable pub peek_header : List ℕ → NpsResult FrameHeader
unfolding parse
peek_header wire = parse wire
