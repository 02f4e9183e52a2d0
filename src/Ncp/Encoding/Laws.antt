-- ===== src/Ncp/Encoding/Laws.antt =====
-- What a session's policy lets through, and that both ends hold the same one.
use nps_sdk_rust.Common.{
  ℕ, ◌≡◌, ◌↔◌, ◌⊎◌, refl, String, Bool, true, false, ◌&&◌, ◌||◌, [], ◌∷◌, some, ok, err, contains,
  str_eq, if◌then◌else◌, arith, is_ok, inl, inr, ap, ◌∙◌,
}
use nps_sdk_rust.Core.Error.{NpsError}
use nps_sdk_rust.Core.Frames.{
  FrameType, caps, query, EncodingTier, json, msg_pack, binary_vector, FrameHeader, encoding_tier,
  new,
}
use nps_sdk_rust.Core.Frames.Wire.{new_flags}
use nps_sdk_rust.Ncp.Handshake.{
  NcpHandshakeDecision, NcpHandshakeProfile, HelloFrame, accept, negotiate_handshake, vector_token,
}
use nps_sdk_rust.Ncp.Handshake.Agreement.{Agreed, negotiate_handshake-Outcome}
use nps_sdk_rust.Ncp.Encoding.{
  NcpEncodingPolicy, allows, ensure_allows, enabled_encodings, from_enabled_encodings,
  server_policy, mentions_vectors, tier_eq, is_binary_vector_frame,
}

or_iff : (x y : Bool) → ((x || y) ≡ true) ↔ ((x ≡ true) ⊎ (y ≡ true))
or_iff x y = ground arith

and_iff : (x y z : Bool) → ((x && (y && z)) ≡ true) ↔ ((x ≡ true) × (y ≡ true) × (z ≡ true))
and_iff x y z = ground arith

tier_eq_iff : (a b : EncodingTier) → (tier_eq a b ≡ true) ↔ (a ≡ b)
tier_eq_iff json b = ground arith
tier_eq_iff _ b = ground arith

is_query_iff : (ft : FrameType) → (is_binary_vector_frame ft ≡ true) ↔ (ft ≡ query)
unfolding is_binary_vector_frame
is_query_iff caps = ground arith
is_query_iff _ = ground arith

is_ok-if : (b : Bool) (e : NpsError) → is_ok {A = Unit {0}} (if b then ok tt else err e) ≡ b
is_ok-if true e = refl
is_ok-if false e = refl

-- A frame passes exactly when it is in the session's tier, or is a query in the vector tier of a
-- session with vectors.
pub ensure_allows_iff :
    (p : NcpEncodingPolicy) (h : FrameHeader)
    → (is_ok (ensure_allows p h) ≡ true) ↔ (
        (encoding_tier h ≡ p.default_tier)
        ⊎ ((encoding_tier h ≡ binary_vector)
            × (p.binary_vector_enabled ≡ true)
            × (h.frame_type ≡ query)))
unfolding ensure_allows
ensure_allows_iff p h =
    let t = encoding_tier h in
    let same = tier_eq_iff t p.default_tier in
    let vector = tier_eq_iff t binary_vector in
    let asks = is_query_iff h.frame_type in
    let either = or_iff (tier_eq t p.default_tier) _ in
    let all = and_iff (tier_eq t binary_vector) p.binary_vector_enabled _ in
    rw (is_ok-if (allows p t h.frame_type) _) (
      λ e. elim (either.0 e) [
        | inl a ↦ inl (same.0 a)
        | inr r ↦ let (a, b, c) = all.0 r in inr (vector.0 a, b, asks.0 c)
      ],
      elim [
        | inl a ↦ either.1 (inl (same.1 a))
        | inr (a, b, c) ↦ either.1 (inr (all.1 (vector.1 a, b, asks.1 c)))
      ],
    )

tokens_of :
    (b : Bool) (encoding : String)
    → (encoding ≡ "msgpack") ⊎ (encoding ≡ "json")
    → (if b then encoding ∷ vector_token ∷ [] else encoding ∷ [])
      ≡ enabled_encodings (record {
        default_tier = if str_eq encoding "msgpack" then msg_pack else json;
        binary_vector_enabled =
            contains (if b then encoding ∷ vector_token ∷ [] else encoding ∷ []) vector_token;
      })
unfolding enabled_encodings
tokens_of true encoding (inl e) = rw e
tokens_of true encoding (inr e) = rw e
tokens_of false encoding (inl e) = rw e
tokens_of false encoding (inr e) = rw e

Agreed-tokens :
    (server : NcpHandshakeProfile) (client : HelloFrame) (d : NcpHandshakeDecision)
    → Agreed server client d
    → d.enabled_encodings ≡ some (enabled_encodings (server_policy d))
unfolding server_policy
Agreed-tokens server client d a =
    a.tokens_chosen
    ∙ rw (a.encoding_chosen, a.tokens_chosen)
        (ap some (
          tokens_of
            (contains server.supported_encodings vector_token
              && contains client.supported_encodings vector_token)
            a.encoding a.encoding_stable))

-- After an accepted negotiation both ends of the session hold the same policy: the client reads the
-- server's off the Caps frame that the server sends in its tier, and the tokens that the frame
-- lists are those that the policy enables.
pub policies_agree :
    (server : NcpHandshakeProfile) (client : HelloFrame) (len : ℕ)
    → (negotiate_handshake server client).action ≡ accept
    → (from_enabled_encodings
          (encoding_tier
            (new caps (server_policy (negotiate_handshake server client)).default_tier true len))
          (negotiate_handshake server client).enabled_encodings
        ≡ server_policy (negotiate_handshake server client))
      × ((negotiate_handshake server client).enabled_encodings
          ≡ some (enabled_encodings (server_policy (negotiate_handshake server client))))
unfolding from_enabled_encodings server_policy
policies_agree server client len h =
    let d = negotiate_handshake server client in
    (
      ap
          (λ t. record {
            default_tier = t;
            binary_vector_enabled = mentions_vectors d.enabled_encodings;
          })
          (new_flags caps (server_policy d).default_tier true len).0,
      elim (negotiate_handshake-Outcome server client) [
        | inl (_, a) ↦ Agreed-tokens server client d a
        | inr (inl e) ↦ absurd (cc (h, e))
        | inr (inr e) ↦ absurd (cc (h, e))
      ],
    )
