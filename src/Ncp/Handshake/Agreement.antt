-- ===== src/Ncp/Handshake/Agreement.antt =====
-- The contract of the negotiation: what an accepted one fixes, and that it is accepted whenever the
-- two peers have enough in common.
use nps_sdk_rust.Common.{
  ℕ, ◌≤◌, ◌<◌, min, ◌≡◌, ◌⊎◌, refl, ◌∙◌, String, true, not, ◌&&◌, List, [], Option, none, some, ok,
  ◌==◌, contains, find, eq_iff, arith, Bool-cases, Result-cases, inl, inr,
}
use nps_sdk_rust.Ncp.Version.{Version, version_le}
use nps_sdk_rust.Ncp.Handshake.{
  HelloFrame, NcpHandshakeProfile, NcpHandshakeDecision, accept, is_stable, shared_protocols,
  overlap, limits_ok, settle, negotiate_handshake, version_error, encoding_error, accepted,
  returned, enabled,
}
use nps_sdk_rust.Ncp.Handshake.Laws.{
  Both, Distinct, overlap-Both, overlap_of_Both, overlap-err, find-some, find-total,
  contains-shared_protocols, shared_protocols-Distinct,
}

-- The smaller of two limits, and not zero.
abbrev pub IsLimit : ℕ → ℕ → Option ℕ → Type 0
IsLimit a b none = ⊥
IsLimit a b (some n) = (0 < n) × (n ≤ a) × (n ≤ b) × ((n ≡ a) ⊎ (n ≡ b))

pub record Agreed (server : NcpHandshakeProfile) (client : HelloFrame) (d : NcpHandshakeDecision)
    : Type 0 where
  pub version : Version
  pub version_chosen : d.session_version ≡ some version
  pub version_shared : Both server client version
  pub version_greatest : (v : Version) → Both server client v → version_le v version ≡ true
  pub encoding : String
  pub encoding_chosen : d.negotiated_encoding ≡ some encoding
  pub encoding_stable : (encoding ≡ "msgpack") ⊎ (encoding ≡ "json")
  pub encoding_server : contains server.supported_encodings encoding ≡ true
  pub encoding_client : contains client.supported_encodings encoding ≡ true
  pub tokens_chosen : d.enabled_encodings ≡ some (enabled server client encoding)
  pub protocols : List String
  pub protocols_chosen : d.supported_protocols ≡ some protocols
  pub protocols_shared :
      (x : String)
      → contains protocols x
        ≡ contains server.supported_protocols x && contains client.supported_protocols x
  pub protocols_once : Distinct protocols
  pub protocols_ncp : contains protocols "ncp" ≡ true
  pub payload : IsLimit server.max_frame_payload client.max_frame_payload d.max_frame_payload
  pub streams :
      IsLimit server.max_concurrent_streams client.max_concurrent_streams d.max_concurrent_streams
  pub extended : d.ext_support ≡ some (server.ext_support && client.ext_support)

min-IsLimit : (a b : ℕ) → not (a == 0) ≡ true → not (b == 0) ≡ true → IsLimit a b (some (min a b))
min-IsLimit a b h k = ground arith

module _ (server : NcpHandshakeProfile) (client : HelloFrame) where
  abbrev protocols_of : List String
  protocols_of = shared_protocols server.supported_protocols [] client.supported_protocols

  accepted-Agreed :
      (low high : Version) (stable : String)
      → overlap server client ≡ ok (low, high)
      → find (is_stable server) client.supported_encodings ≡ some stable
      → limits_ok server client protocols_of ≡ true
      → Agreed server client (accepted server client high stable protocols_of)
  accepted-Agreed low high stable eo ef el =
      let (shared, greatest) = overlap-Both server client low high eo in
      let (test, offered) = find-some (is_stable server) client.supported_encodings stable ef in
      record {
        version = high;
        version_chosen = refl;
        version_shared = shared;
        version_greatest = greatest;
        encoding = stable;
        encoding_chosen = refl;
        encoding_stable = ground (arith, eq_iff stable "msgpack", eq_iff stable "json");
        encoding_server = ground arith;
        encoding_client = offered;
        tokens_chosen = refl;
        protocols = protocols_of;
        protocols_chosen = refl;
        protocols_shared = λ x.
            contains-shared_protocols server.supported_protocols [] client.supported_protocols x
            ∙ ground arith;
        protocols_once =
            shared_protocols-Distinct server.supported_protocols [] client.supported_protocols;
        protocols_ncp = ground arith;
        payload =
            min-IsLimit server.max_frame_payload client.max_frame_payload (ground arith)
              (ground arith);
        streams =
            min-IsLimit server.max_concurrent_streams client.max_concurrent_streams (ground arith)
              (ground arith);
        extended = refl;
      }

-- The two ends of a negotiation: an agreement, or one of the two refusals, which fix nothing.
abbrev pub Outcome : NcpHandshakeProfile → HelloFrame → NcpHandshakeDecision → Type 0
Outcome server client d =
    ((d.action ≡ accept) × Agreed server client d) ⊎ ((d ≡ version_error) ⊎ (d ≡ encoding_error))

settle-Outcome :
    (server : NcpHandshakeProfile) (client : HelloFrame) (low high : Version) (o : Option String)
    → overlap server client ≡ ok (low, high)
    → find (is_stable server) client.supported_encodings ≡ o
    → Outcome server client (returned (settle server client high o (protocols_of server client)))
unfolding settle
settle-Outcome server client low high none eo ef = inr (inr refl)
settle-Outcome server client low high (some stable) eo ef =
    elim (Bool-cases (limits_ok server client (protocols_of server client))) [
      | inl e ↦ rw e (inl (refl, accepted-Agreed server client low high stable eo ef e))
      | inr e ↦ rw e (inr (inl refl))
    ]

-- A negotiation ends in an agreement that both peers' offers allow and that is the best they
-- allow, or in one of the two refusals.
pub negotiate_handshake-Outcome :
    (server : NcpHandshakeProfile) (client : HelloFrame)
    → Outcome server client (negotiate_handshake server client)
unfolding negotiate_handshake
negotiate_handshake-Outcome server client = elim (Result-cases (overlap server client)) [
  | inl ((low, high), e) ↦ rw e (
      settle-Outcome server client low high (find (is_stable server) client.supported_encodings) e
        refl)
  | inr (d, e) ↦ rw e (inr (inl (overlap-err server client d e)))
]

-- Peers whose version ranges overlap, who share a stable encoding and the protocol "ncp", and whose
-- limits are not zero, come to an agreement.
pub negotiate_handshake_complete :
    (server : NcpHandshakeProfile) (client : HelloFrame) (v : Version) (encoding : String)
    → Both server client v
    → (encoding ≡ "msgpack") ⊎ (encoding ≡ "json")
    → contains server.supported_encodings encoding ≡ true
    → contains client.supported_encodings encoding ≡ true
    → contains server.supported_protocols "ncp" ≡ true
    → contains client.supported_protocols "ncp" ≡ true
    → 0 < server.max_frame_payload
    → 0 < client.max_frame_payload
    → 0 < server.max_concurrent_streams
    → 0 < client.max_concurrent_streams
    → (negotiate_handshake server client).action ≡ accept
unfolding negotiate_handshake
negotiate_handshake_complete server client v encoding b stable se ce sp cp p1 p2 p3 p4 =
    let (r, eo) = overlap_of_Both server client v b in
    let test : is_stable server encoding ≡ true =
      ground (arith, eq_iff encoding "msgpack", eq_iff encoding "json") in
    let (u, ef) = find-total (is_stable server) client.supported_encodings encoding ce test in
    let ncp : contains (protocols_of server client) "ncp" ≡ true =
      contains-shared_protocols server.supported_protocols [] client.supported_protocols "ncp"
      ∙ ground arith in
    let limits : limits_ok server client (protocols_of server client) ≡ true = ground arith in
    rw eo (rw ef (rw limits))
