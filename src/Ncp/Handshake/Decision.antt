-- ===== src/Ncp/Handshake/Decision.antt =====
-- nps-ncp/src/handshake_profile.rs and `HelloFrame` of nps-ncp/src/lib.rs: what a peer offers, what a
-- server supports, and the decisions without terms.
use nps_sdk_rust.Common.{ℕ, String, Bool, false, List, [], ◌∷◌, Option, none, some}
use nps_sdk_rust.Ncp.Version.{Version}

pub record HelloFrame : Type 0 where
  pub nps_version : String
  pub supported_encodings : List String
  pub supported_protocols : List String
  pub min_version : Option String
  pub agent_id : Option String
  pub max_frame_payload : ℕ
  pub ext_support : Bool
  pub max_concurrent_streams : ℕ
  pub e2e_enc_algorithms : Option (List String)
  pub ping_interval_ms : ℕ

pub record NcpHandshakeProfile : Type 0 where
  pub min_version : String
  pub nps_version : String
  pub supported_encodings : List String
  pub supported_protocols : List String
  pub max_frame_payload : ℕ
  pub ext_support : Bool
  pub max_concurrent_streams : ℕ

abbrev pub default_profile : NcpHandshakeProfile
default_profile = record {
  min_version = "0.1";
  nps_version = "0.11";
  supported_encodings = "msgpack" ∷ "json" ∷ "binary_vector.v1" ∷ [];
  supported_protocols = "ncp" ∷ "nwp" ∷ "nip" ∷ "ndp" ∷ "nop" ∷ [];
  max_frame_payload = 0xFFFF;
  ext_support = false;
  max_concurrent_streams = 32;
}

pub data NcpHandshakeAction : Type 0 where
  continue accept silent_close error_close : NcpHandshakeAction

pub record NcpHandshakeDecision : Type 0 where
  pub action : NcpHandshakeAction
  pub status : Option String
  pub error : Option String
  pub diagnostic_error : Option String
  pub session_version : Option Version
  pub negotiated_encoding : Option String
  pub enabled_encodings : Option (List String)
  pub supported_protocols : Option (List String)
  pub max_frame_payload : Option ℕ
  pub ext_support : Option Bool
  pub max_concurrent_streams : Option ℕ

abbrev pub with_action : NcpHandshakeAction → NcpHandshakeDecision
with_action a = record {
  action = a;
  status = none;
  error = none;
  diagnostic_error = none;
  session_version = none;
  negotiated_encoding = none;
  enabled_encodings = none;
  supported_protocols = none;
  max_frame_payload = none;
  ext_support = none;
  max_concurrent_streams = none;
}

abbrev pub version_error : NcpHandshakeDecision
version_error =
    let d = with_action error_close in
    record d {
      status = some "NPS-PROTO-VERSION-INCOMPATIBLE";
      error = some "NCP-VERSION-INCOMPATIBLE";
    }

abbrev pub encoding_error : NcpHandshakeDecision
encoding_error =
    let d = with_action error_close in
    record d {
      status = some "NPS-SERVER-ENCODING-UNSUPPORTED";
      error = some "NCP-ENCODING-UNSUPPORTED";
    }
