-- ===== src/Ndp/Profile/Examples.antt =====
-- Announcements of one node, in and out of order.
use nps_sdk_rust.Common.{
  inr, ℕ, ◌^◌, ◌+◌, ◌≡◌, inl, refl, String, Bool, true, false, [], ◌∷◌, none, some, if◌then◌else◌,
  str_eq, arith, lookup, insert,
}
use nps_sdk_rust.Core.Json
use nps_sdk_rust.Core.Json.{Value, Fields, string, number, object, field, end}
use nps_sdk_rust.Ndp.Profile.Canonical.{ProfileOps, signed_digest, canonical_announce_json}
use nps_sdk_rust.Ndp.Profile.Body.{canonical_unsigned}
use nps_sdk_rust.Ndp.Profile.{
  Announcement, NdpRegistryProfile, accepted, admitted, reject, graph_seq_rollback, new,
  apply_announce,
}
use nps_sdk_rust.Ndp.Profile.Laws.{Call, run}
use nps_sdk_rust.Ndp.Profile.Sequence.{
  rollback_refused, apply_announce-kept, is_kept, is_rejected, has_code, run-Signed, Signed,
}

abbrev text_eq : Value ℕ → Value ℕ → Bool
text_eq (string s) (string t) = str_eq s t
text_eq _ _ = false

abbrev scalar : Value ℕ → String
scalar (string s) = s
scalar _ = "0"

-- The first second of 1970 is 2^63.
abbrev ops : ProfileOps ℕ
ops = record {
  as_u64 = some;
  number_from = λ n. n;
  value_eq = text_eq;
  to_text = scalar;
  parse_time = λ s. if str_eq s "1970-01-01T00:00:00Z" then some (2 ^ 63) else none;
  sha256_hex = λ s. s;
}

abbrev fields : ℕ → Fields ℕ
fields sequence = field "nid" (string "urn:nps:node:api.test:a") (
    field "timestamp" (string "1970-01-01T00:00:00Z")
      (field "graph_seq" (number sequence) (field "ttl" (number 60) end)))

abbrev call : ℕ → Call ops
call sequence = record {
  frame = object (fields sequence);
  signature_valid = true;
  received_at = 2 ^ 63 + 1;
}

abbrev announced : NdpRegistryProfile ℕ
announced = record {
  security_profile = "production";
  entries =
      (
        "urn:nps:node:api.test:a",
        record {
          frame = fields 5;
          signed_digest = signed_digest ops (fields 5);
          expires_at = 2 ^ 63 + 60;
        },
      )
      ∷ [];
  sequences = ("urn:nps:node:api.test:a", 5) ∷ [];
}

-- The first announcement is accepted.
first_announcement :
    apply_announce ops (new ops "production") (object (fields 5)) true (2 ^ 63 + 1)
    ≡ (admitted accepted, announced)
unfolding apply_announce new insert Json.get lookup
first_announcement = refl

abbrev old : Announcement ℕ
old = record {
  frame = fields 3;
  nid = "urn:nps:node:api.test:a";
  sequence = 3;
  ttl = 60;
  digest = signed_digest ops (fields 3);
}

rollback_refused_example :
    apply_announce ops (run ops announced (call 4 ∷ [])) (object (fields 3)) true (2 ^ 63 + 1)
    ≡ (reject graph_seq_rollback, run ops announced (call 4 ∷ []))
unfolding apply_announce lookup Json.get
rollback_refused_example =
    rollback_refused ops announced (call 4 ∷ []) old 5 (call 3) (omega arith) (omega arith) refl

apply_announce-kept_example :
    (is_kept ops (apply_announce ops announced (object (fields 5)) true (2 ^ 63 + 1)).0.decision
        ≡ true
      → (apply_announce ops announced (object (fields 5)) true (2 ^ 63 + 1)).1 ≡ announced)
    × (has_code ops
          (apply_announce ops announced (object (fields 5)) true (2 ^ 63 + 1)).0.error_code
        ≡ is_rejected ops
            (apply_announce ops announced (object (fields 5)) true (2 ^ 63 + 1)).0.decision)
apply_announce-kept_example = apply_announce-kept ops announced (call 5)

run-Signed_example :
    Signed ops "urn:nps:node:api.test:a" 5
      (signed_digest ops (fields 5))
      (run ops announced (call 5 ∷ call 7 ∷ []))
unfolding lookup
run-Signed_example =
    run-Signed ops announced (call 5 ∷ call 7 ∷ []) "urn:nps:node:api.test:a" 5
      (signed_digest ops (fields 5)) (inl (_, refl, refl, refl))

canonical_unsigned_example :
    (canonical_announce_json ops (Json.insert "last_seen" (string "now") (fields 5))
      ≡ canonical_announce_json ops (fields 5))
    × (signed_digest ops (Json.insert "last_seen" (string "now") (fields 5))
        ≡ signed_digest ops (fields 5))
canonical_unsigned_example =
    canonical_unsigned ops "last_seen" (string "now") (fields 5) (inr (inr (inr refl)))
