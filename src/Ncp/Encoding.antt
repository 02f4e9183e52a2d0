-- ===== src/Ncp/Encoding.antt =====
-- nps-ncp/src/encoding_policy.rs, and the policies that the two ends of nps-ncp/src/transport.rs
-- take from a negotiation.
pub mod Laws
use nps_sdk_rust.Common.{
  ◌++◌, ℕ, String, Bool, true, false, ◌&&◌, ◌||◌, List, [], ◌∷◌, Option, none, some, ok, err, ◌==◌,
  contains, str_eq, if◌then◌else◌,
}
use nps_sdk_rust.Core.Error.{NpsResult, Part, codec, lit, hex}
use nps_sdk_rust.Core.Frames.{
  FrameType, query, as_u8, EncodingTier, json, msg_pack, binary_vector, reserved, tier_u8,
  FrameHeader, encoding_tier,
}
use nps_sdk_rust.Ncp.Handshake.{NcpHandshakeDecision, vector_token}

pub record NcpEncodingPolicy : Type 0 where
  pub default_tier : EncodingTier
  pub binary_vector_enabled : Bool

unfoldable pub new : EncodingTier → NcpEncodingPolicy
new tier = record { default_tier = tier; binary_vector_enabled = false }

unfoldable pub with_binary_vector : EncodingTier → Bool → NcpEncodingPolicy
with_binary_vector tier enabled = record { default_tier = tier; binary_vector_enabled = enabled }

unfoldable pub encoding_token : EncodingTier → String
encoding_token json = "json"
encoding_token msg_pack = "msgpack"
encoding_token binary_vector = vector_token
encoding_token reserved = "unknown:3"

unfoldable pub enabled_encodings : NcpEncodingPolicy → List String
unfolding encoding_token
enabled_encodings p =
    if p.binary_vector_enabled
    then encoding_token p.default_tier ∷ vector_token ∷ []
    else encoding_token p.default_tier ∷ []

unfoldable pub is_binary_vector_frame : FrameType → Bool
unfolding as_u8
is_binary_vector_frame frame_type = as_u8 frame_type == as_u8 query

-- `==` on tiers compares their numbers.
abbrev pub tier_eq : EncodingTier → EncodingTier → Bool
tier_eq a b = tier_u8 a == tier_u8 b

unfoldable pub allows : NcpEncodingPolicy → EncodingTier → FrameType → Bool
unfolding is_binary_vector_frame
allows p tier frame_type =
    tier_eq tier p.default_tier
    || (tier_eq tier binary_vector
        && (p.binary_vector_enabled && is_binary_vector_frame frame_type))

-- `join(", ")` of the tokens, as the pieces of the message.
joined : List String → List String
joined [] = []
joined (t ∷ []) = t ∷ []
joined (t ∷ ts) = t ∷ ", " ∷ joined ts

pieces : List String → List Part
pieces [] = []
pieces (t ∷ ts) = lit t ∷ pieces ts

unfoldable pub ensure_allows : NcpEncodingPolicy → FrameHeader → NpsResult (Unit {0})
unfolding allows encoding_tier as_u8 encoding_token enabled_encodings joined pieces
ensure_allows p header =
    if allows p (encoding_tier header) header.frame_type
    then ok tt
    else err (
        codec (
          lit "Frame type 0x"
          ∷ hex (as_u8 header.frame_type)
          ∷ lit " used "
          ∷ lit (encoding_token (encoding_tier header))
          ∷ lit ", but the negotiated session policy allows "
          ∷ (pieces (joined (enabled_encodings p)) ++ (lit "." ∷ []))))

abbrev pub mentions_vectors : Option (List String) → Bool
mentions_vectors none = false
mentions_vectors (some tokens) = contains tokens vector_token

-- The client's policy: the tier of the Caps header, and the tokens that the Caps frame lists.
unfoldable pub from_enabled_encodings : EncodingTier → Option (List String) → NcpEncodingPolicy
from_enabled_encodings tier tokens = record {
  default_tier = tier;
  binary_vector_enabled = mentions_vectors tokens;
}

abbrev is_msgpack : Option String → Bool
is_msgpack none = false
is_msgpack (some t) = str_eq t "msgpack"

-- The server's policy in `NcpServerConnection::accept`.
unfoldable pub server_policy : NcpHandshakeDecision → NcpEncodingPolicy
unfolding with_binary_vector
server_policy d =
    with_binary_vector (if is_msgpack d.negotiated_encoding then msg_pack else json)
      (mentions_vectors d.enabled_encodings)
