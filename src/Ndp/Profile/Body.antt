-- ===== src/Ndp/Profile/Body.antt =====
-- nps-ndp/src/registry_profile.rs: what the signed text of an announcement does not cover.
use nps_sdk_rust.Common.{
  ◌≡◌, ◌⊎◌, refl, ap, String, true, str_eq, codes, codes_le, eq_iff, Bool-cases, inl, inr,
}
use nps_sdk_rust.Core.Json
use nps_sdk_rust.Core.Json.{Value, Fields, end, field, object, number}
use nps_sdk_rust.Ndp.Profile.Canonical.{
  ProfileOps, is_unsigned_field, or_insert, write_canonical, keep_signed, signed_body,
  canonical_announce_json, signed_digest,
}

module _ {N : Type 0} (ops : ProfileOps N) where
  keep_signed-insert :
      (k : String) (v : Value N) (fs : Fields N)
      → is_unsigned_field ops k ≡ true
      → keep_signed ops (Json.insert k v fs) ≡ keep_signed ops fs
  unfolding keep_signed Json.insert
  keep_signed-insert k v end h = rw (h) refl
  keep_signed-insert k v (field j w fs) h = elim (Bool-cases (str_eq j k)) [
    | inl t ↦ rw (t, (eq_iff j k).0 t, h) refl
    | inr t ↦ elim (Bool-cases (codes_le (codes k) (codes j))) [
      | inl u ↦ rw (t, u, h) refl
      | inr u ↦ rw (t, u, keep_signed-insert k v fs h) refl
    ]
  ]

  liveness_field :
      (k : String)
      → (k ≡ "frame") ⊎ (k ≡ "signature") ⊎ (k ≡ "health") ⊎ (k ≡ "last_seen")
      → is_unsigned_field ops k ≡ true
  liveness_field k (inl e) = rw e refl
  liveness_field k (inr (inl e)) = rw e refl
  liveness_field k (inr (inr (inl e))) = rw e refl
  liveness_field k (inr (inr (inr e))) = rw e refl

  text-insert :
      (k : String) (v : Value N) (fs : Fields N)
      → is_unsigned_field ops k ≡ true
      → canonical_announce_json ops (Json.insert k v fs) ≡ canonical_announce_json ops fs
  unfolding canonical_announce_json signed_body
  text-insert k v fs h =
      ap
        (λ b.
          write_canonical ops
            (object (or_insert ops "heartbeat_interval_ms" (number (ops.number_from 60000)) b)))
        (keep_signed-insert k v fs h)

  -- Setting the field "signature", "frame", "health" or "last_seen" of an announcement to any value
  -- changes neither its signed text nor its digest, so a liveness beat needs no new signature.
  pub canonical_unsigned :
      (k : String) (v : Value N) (fs : Fields N)
      → (k ≡ "frame") ⊎ (k ≡ "signature") ⊎ (k ≡ "health") ⊎ (k ≡ "last_seen")
      → (canonical_announce_json ops (Json.insert k v fs) ≡ canonical_announce_json ops fs)
        × (signed_digest ops (Json.insert k v fs) ≡ signed_digest ops fs)
  canonical_unsigned k v fs h =
      let same = text-insert k v fs (liveness_field k h) in (same, ap ops.sha256_hex same)
