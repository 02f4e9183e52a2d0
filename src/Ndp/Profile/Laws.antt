-- ===== src/Ndp/Profile/Laws.antt =====
-- nps-ndp/src/registry_profile.rs: sequence numbers do not go back, and what is refused leaves no
-- trace.
use nps_sdk_rust.Common.{
  ℕ, ◌≤◌, ◌<◌, ◌≡◌, inl, inr, refl, Bool, List, [], ◌∷◌, Option, none, some, Result, ok, err, ltb,
  leb, ◌==◌, lookup, insert, remove, str_eq, eq_iff, arith, Bool-cases,
}
use nps_sdk_rust.Core.Json.{Value}
use nps_sdk_rust.Ndp.Profile.Canonical.{ProfileOps}
use nps_sdk_rust.Ndp.Profile.Readers.{same_liveness}
use nps_sdk_rust.Ndp.Profile.{
  Announcement, Entry, NdpRegistryProfile, NdpRegistryAdmission, accepted, duplicate, refreshed,
  removed, ProfileCode, reject, admitted, check_announce, unless_stale, repeat_announce,
  store_announce, by_sequence, admit, apply_announce, entry_of,
}

module _ {N : Type 0} (ops : ProfileOps N) where
  -- A call of `apply_announce`.
  pub record Call : Type 0 where
    pub frame : Value N
    pub signature_valid : Bool
    pub received_at : ℕ

  abbrev pub step : NdpRegistryProfile N → Call → NdpRegistryProfile N
  step r c = (apply_announce ops r c.frame c.signature_valid c.received_at).1

  abbrev pub run : NdpRegistryProfile N → List Call → NdpRegistryProfile N
  run r [] = r
  run r (c ∷ cs) = run (step r c) cs

  abbrev pub AtLeast : ℕ → Option ℕ → Type 0
  AtLeast n none = ⊥
  AtLeast n (some highest) = n ≤ highest

  abbrev pub Newer : NdpRegistryProfile N → Announcement N → Type 0
  Newer r a = (n : ℕ) → lookup a.nid r.sequences ≡ some n → n < a.sequence

  -- What a call can do to a registry, with its answer.
  pub data Change (r : NdpRegistryProfile N)
      : NdpRegistryAdmission × NdpRegistryProfile N → Type 0 where
    refused : (code : ProfileCode) → Change r (reject code, r)
    repeated : Change r (admitted duplicate, r)
    renewed :
        (a : Announcement N) (e current : Entry N)
        → lookup a.nid r.entries ≡ some current
        → current.signed_digest ≡ e.signed_digest
        → Change r (admitted refreshed, record r { entries = insert a.nid e r.entries })
    withdrawn :
        (a : Announcement N)
        → Newer r a
        → Change r (
          admitted removed,
          record r {
            sequences = insert a.nid a.sequence r.sequences;
            entries = remove a.nid r.entries;
          },
        )
    stored :
        (a : Announcement N) (e : Entry N)
        → Newer r a
        → Change r (
          admitted accepted,
          record r {
            sequences = insert a.nid a.sequence r.sequences;
            entries = insert a.nid e r.entries;
          },
        )

  unless_stale-Change :
      (r : NdpRegistryProfile N) (o : Option ℕ) (received_at : ℕ)
      (write : ℕ → NdpRegistryAdmission × NdpRegistryProfile N)
      → ((expires_at : ℕ) → Change r (write expires_at))
      → Change r (unless_stale ops r o received_at write)
  unless_stale-Change r none received_at write h = refused _
  unless_stale-Change r (some e) received_at write h = elim (Bool-cases (leb e received_at)) [
    | inl t ↦ rw (t) (refused _)
    | inr t ↦ rw (t) (h e)
  ]

  store_announce-Change :
      (r : NdpRegistryProfile N) (a : Announcement N) (received_at : ℕ)
      → Newer r a
      → Change r (store_announce ops r a received_at)
  unfolding store_announce
  store_announce-Change r a received_at n = elim (Bool-cases (a.ttl == 0)) [
    | inl t ↦ rw (t) (withdrawn a n)
    | inr t ↦ rw (t) (unless_stale-Change r _ received_at _ (λ e. stored a (entry_of ops a e) n))
  ]

  repeat_announce-Change :
      (r : NdpRegistryProfile N) (a : Announcement N) (received_at : ℕ) (o : Option (Entry N))
      → lookup a.nid r.entries ≡ o
      → Change r (repeat_announce ops r a received_at o)
  unfolding repeat_announce
  repeat_announce-Change r a received_at none h = repeated
  repeat_announce-Change r a received_at (some current) h =
      elim (Bool-cases (str_eq current.signed_digest a.digest)) [
        | inr t ↦ rw (t) (refused _)
        | inl t ↦ elim (Bool-cases (same_liveness ops current.frame a.frame)) [
          | inl u ↦ rw (t, u) repeated
          | inr u ↦
              rw (t, u)
                (unless_stale-Change r _ received_at _
                  (λ e. renewed a (entry_of ops a e) current h ((eq_iff _ _).0 t)))
        ]
      ]

  by_sequence-Change :
      (r : NdpRegistryProfile N) (a : Announcement N) (received_at : ℕ) (o : Option ℕ)
      → lookup a.nid r.sequences ≡ o
      → Change r (by_sequence ops r a received_at o)
  by_sequence-Change r a received_at none h = store_announce-Change r a received_at (λ n e. cc)
  by_sequence-Change r a received_at (some highest) h = elim (Bool-cases (ltb a.sequence highest)) [
    | inl t ↦ rw (t) (refused _)
    | inr t ↦ elim (Bool-cases (a.sequence == highest)) [
      | inl u ↦ rw (t, u) (repeat_announce-Change r a received_at _ refl)
      | inr u ↦ rw (t, u) (store_announce-Change r a received_at (λ n e. ground arith))
    ]
  ]

  pub apply_announce-Change :
      (r : NdpRegistryProfile N) (c : Call)
      → Change r (apply_announce ops r c.frame c.signature_valid c.received_at)
  unfolding apply_announce
  apply_announce-Change r c = go (check_announce ops r c.frame c.signature_valid c.received_at)
    where
      go : (m : Result ProfileCode (Announcement N)) → Change r (admit ops r m c.received_at)
      go (err code) = refused code
      go (ok a) = by_sequence-Change r a c.received_at _ refl
