-- ===== src/Ncp/Handshake.antt =====
-- nps-ncp/src/handshake_profile.rs, with `HelloFrame` of nps-ncp/src/lib.rs: admission and
-- negotiation of a native connection. A duration is a number of milliseconds. The session version
-- is kept as the two numbers that `format!` joins by a dot.
mod Decision
unfoldable pub use Decision.*
pub mod Laws
pub mod Agreement
use Prim.Native.Nat.{bit_and}
use nps_sdk_rust.Common.{
  ℕ, ◌≤◌, ◌<◌, min, String, Bool, true, false, not, ◌&&◌, ◌||◌, List, [], ◌∷◌, ◌++◌, Option, none,
  some, ok, err, Result, ◌>>=◌, ◌>>◌, guard, ok_or, ltb, leb, ◌==◌, if◌then◌else◌, length, take,
  contains, any, find, str_eq,
}
use nps_sdk_rust.Core.Frames.{
  FrameHeader, FrameType, hello, EncodingTier, json, encoding_tier, has_bit, as_u8, tier_u8,
}
use nps_sdk_rust.Ncp.Preamble.{preamble_length, bytes, slice_eq}
use nps_sdk_rust.Ncp.Version.{Version, parse_version, version_le, version_max, version_min}

-- `!timeout.is_zero() && elapsed >= timeout`
abbrev pub timed_out : ℕ → ℕ → Bool
timed_out elapsed timeout = not (timeout == 0) && leb timeout elapsed

unfoldable pub evaluate_preamble : List ℕ → ℕ → ℕ → NcpHandshakeDecision
unfolding slice_eq
evaluate_preamble received elapsed timeout =
    if timed_out elapsed timeout
    then with_action silent_close
    else if ltb (length received) preamble_length
    then with_action continue
    else if not (slice_eq (take preamble_length received) bytes)
    then (let d = with_action silent_close in
        record d { diagnostic_error = some "NCP-PREAMBLE-INVALID" })
    else with_action continue

unfoldable pub evaluate_hello_header : FrameHeader → ℕ → ℕ → ℕ → NcpHandshakeDecision
unfolding as_u8 encoding_tier
evaluate_hello_header header elapsed timeout max_hello_payload =
    if timed_out elapsed timeout
    then with_action silent_close
    else if not (as_u8 header.frame_type == as_u8 hello)
        || (not (tier_u8 (encoding_tier header) == tier_u8 json)
            || (has_bit header.flags 0x08
                || (header.is_extended || ltb max_hello_payload header.payload_length)))
    then with_action silent_close
    else with_action continue

-- A stable encoding that the server supports: the test of `find` in `negotiate_handshake`.
abbrev pub is_stable : NcpHandshakeProfile → String → Bool
is_stable server token =
    (str_eq token "msgpack" || str_eq token "json") && contains server.supported_encodings token

-- The two `filter`s on the client's protocols: those of the server, each once.
unfoldable pub shared_protocols : List String → List String → List String → List String
shared_protocols server seen [] = []
shared_protocols server seen (t ∷ ts) =
    let keep = t ∷ shared_protocols server (t ∷ seen) ts in
    let skip = shared_protocols server seen ts in
    if contains server t && not (contains seen t) then keep else skip

abbrev pub or_else : Option String → String → String
or_else none d = d
or_else (some s) d = s

abbrev pub vector_token : String
vector_token = "binary_vector.v1"

-- The tests on the four versions, and the ends of the overlap.
unfoldable pub within :
    Version → Version → Version → Version → Result NcpHandshakeDecision (Version × Version)
within server_min server_max client_min client_max = do
  guard (version_le server_min server_max && version_le client_min client_max) version_error
  let low = version_max server_min client_min
  let high = version_min server_max client_max
  guard (version_le low high) version_error
  ok (low, high)

-- The early returns on a version that does not parse.
unfoldable pub overlap_of :
    Option Version
    → Option Version
    → Option Version
    → Option Version
    → Result NcpHandshakeDecision (Version × Version)
unfolding within
overlap_of o1 o2 o3 o4 = do
  server_min ← ok_or o1 version_error
  server_max ← ok_or o2 version_error
  client_min ← ok_or o3 version_error
  client_max ← ok_or o4 version_error
  within server_min server_max client_min client_max

abbrev pub client_low : HelloFrame → String
client_low client = or_else client.min_version client.nps_version

unfoldable pub overlap :
    NcpHandshakeProfile → HelloFrame → Result NcpHandshakeDecision (Version × Version)
unfolding overlap_of
overlap server client =
    overlap_of (parse_version server.min_version) (parse_version server.nps_version)
      (parse_version (client_low client)) (parse_version client.nps_version)

abbrev pub limits_ok : NcpHandshakeProfile → HelloFrame → List String → Bool
limits_ok server client protocols =
    contains protocols "ncp"
    && (not (client.max_frame_payload == 0)
        && (not (server.max_frame_payload == 0)
            && (not (client.max_concurrent_streams == 0)
                && not (server.max_concurrent_streams == 0))))

abbrev pub enabled : NcpHandshakeProfile → HelloFrame → String → List String
enabled server client stable =
    if contains server.supported_encodings vector_token
      && contains client.supported_encodings vector_token
    then stable ∷ vector_token ∷ []
    else stable ∷ []

-- The decision that `negotiate_handshake` returns at its end.
abbrev pub accepted :
    NcpHandshakeProfile → HelloFrame → Version → String → List String → NcpHandshakeDecision
accepted server client version stable protocols = record {
  action = accept;
  status = none;
  error = none;
  diagnostic_error = none;
  session_version = some version;
  negotiated_encoding = some stable;
  enabled_encodings = some (enabled server client stable);
  supported_protocols = some protocols;
  max_frame_payload = some (min server.max_frame_payload client.max_frame_payload);
  ext_support = some (server.ext_support && client.ext_support);
  max_concurrent_streams = some (min server.max_concurrent_streams client.max_concurrent_streams);
}

-- What follows the versions: `err` is an early return.
unfoldable pub settle :
    NcpHandshakeProfile
    → HelloFrame
    → Version
    → Option String
    → List String
    → Result NcpHandshakeDecision NcpHandshakeDecision
settle server client high found protocols = do
  stable ← ok_or found encoding_error
  guard (limits_ok server client protocols) version_error
  ok (accepted server client high stable protocols)

unfoldable pub negotiation :
    NcpHandshakeProfile → HelloFrame → Result NcpHandshakeDecision NcpHandshakeDecision
unfolding overlap shared_protocols settle
negotiation server client = do
  (low, high) ← overlap server client
  settle server client high (find (is_stable server) client.supported_encodings)
      (shared_protocols server.supported_protocols [] client.supported_protocols)

abbrev pub returned : Result NcpHandshakeDecision NcpHandshakeDecision → NcpHandshakeDecision
returned (ok d) = d
returned (err d) = d

unfoldable pub negotiate_handshake : NcpHandshakeProfile → HelloFrame → NcpHandshakeDecision
unfolding negotiation
negotiate_handshake server client = returned (negotiation server client)
