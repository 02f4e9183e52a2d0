-- ===== src/Ncp/Examples.antt =====
-- Runs of the native handshake and of a session's policy.
use nps_sdk_rust.Common.{
  ℕ, ◌≡◌, refl, inr, true, false, [], ◌∷◌, Option, none, some, arith, split, parse_u64,
}
use nps_sdk_rust.Core.Frames.{FrameHeader, query, caps, msg_pack, encoding_tier, new}
use nps_sdk_rust.Ncp.Version.{parse_version, version_le, version_max, version_min}
use nps_sdk_rust.Ncp.Handshake.{
  HelloFrame, default_profile, accept, negotiate_handshake, overlap, shared_protocols,
}
use nps_sdk_rust.Ncp.Handshake.Laws.{Both}
use nps_sdk_rust.Ncp.Handshake.Agreement.{
  Outcome, negotiate_handshake-Outcome, negotiate_handshake_complete,
}
use nps_sdk_rust.Ncp.Encoding.{
  NcpEncodingPolicy, enabled_encodings, from_enabled_encodings, server_policy,
}
use nps_sdk_rust.Ncp.Encoding.Laws.{policies_agree}

ncp : Unit {0}
unfolding parse_version split parse_u64 version_le version_max version_min overlap shared_protocols
    negotiate_handshake
ncp = tt

abbrev client : HelloFrame
client = record {
  nps_version = "0.12";
  supported_encodings = "binary_vector.v1" ∷ "json" ∷ "msgpack" ∷ [];
  supported_protocols = "nwp" ∷ "ncp" ∷ "nwp" ∷ "xyz" ∷ [];
  min_version = some "0.2";
  agent_id = none;
  max_frame_payload = 1000;
  ext_support = true;
  max_concurrent_streams = 64;
  e2e_enc_algorithms = none;
  ping_interval_ms = 0;
}

negotiate_handshake-Outcome_example :
    Outcome default_profile client (negotiate_handshake default_profile client)
negotiate_handshake-Outcome_example = negotiate_handshake-Outcome default_profile client

runs :
    (◌≡◌ {A = Option (ℕ × ℕ)}
      (negotiate_handshake default_profile client).session_version
      (some (0, 11)))
    × ((negotiate_handshake default_profile client).supported_protocols ≡ some ("nwp" ∷ "ncp" ∷ []))
unfolding ncp
runs = (refl, refl)

shared : Both default_profile client (0, 5)
unfolding ncp
shared = (
  record {
    from = (0, 1);
    to = (0, 11);
    from_parsed = refl;
    to_parsed = refl;
    between = (refl, refl);
  },
  record {
    from = (0, 2);
    to = (0, 12);
    from_parsed = refl;
    to_parsed = refl;
    between = (refl, refl);
  },
)

negotiate_handshake_complete_example : (negotiate_handshake default_profile client).action ≡ accept
negotiate_handshake_complete_example =
    negotiate_handshake_complete default_profile client (0, 5) "json" shared (inr refl) refl refl
      refl refl (omega arith) (omega arith) (omega arith) (omega arith)

abbrev policy : NcpEncodingPolicy
policy = record { default_tier = msg_pack; binary_vector_enabled = true }

abbrev header : FrameHeader
header = record { frame_type = query; flags = 2; payload_length = 9; is_extended = false }

policies_agree_example :
    (from_enabled_encodings
        (encoding_tier (
          new caps
            (server_policy (negotiate_handshake default_profile client)).default_tier
            true
            80))
        (negotiate_handshake default_profile client).enabled_encodings
      ≡ server_policy (negotiate_handshake default_profile client))
    × ((negotiate_handshake default_profile client).enabled_encodings
        ≡ some (enabled_encodings (server_policy (negotiate_handshake default_profile client))))
unfolding ncp
policies_agree_example = policies_agree default_profile client 80 refl
