-- ===== src/Ndp/Profile/Sequence.antt =====
-- nps-ndp/src/registry_profile.rs: what sequence numbers promise over a history of announcements.
use nps_sdk_rust.Common.{
  ℕ, suc, ◌<◌, ◌≡◌, ◌⊎◌, inl, inr, refl, ap, ◌∙◌, String, Bool, true, false, List, [], ◌∷◌, Option,
  none, some, ok, lookup, insert, str_eq, eq_iff, arith, lookup-insert, lookup-remove, Bool-cases,
  Option-cases, lt→ltb,
}
use nps_sdk_rust.Ndp.Profile.Canonical.{ProfileOps}
use nps_sdk_rust.Ndp.Profile.{
  Announcement, Entry, NdpRegistryProfile, NdpRegistryAdmission, NdpRegistryDecision, duplicate,
  rejected, ProfileCode, graph_seq_rollback, reject, check_announce, by_sequence, apply_announce,
}
use nps_sdk_rust.Ndp.Profile.Laws.{
  Call, step, run, AtLeast, Newer, Change, refused, repeated, renewed, withdrawn, stored,
  apply_announce-Change,
}

module _ {N : Type 0} (ops : ProfileOps N) where
  AtLeast-insert :
      (r : NdpRegistryProfile N) (a : Announcement N) (nid : String) (n : ℕ)
      → Newer ops r a
      → AtLeast ops n (lookup nid r.sequences)
      → AtLeast ops n (lookup nid (insert a.nid a.sequence r.sequences))
  AtLeast-insert r a nid n newer h = elim (Bool-cases (str_eq a.nid nid)) [
    | inr t ↦ rw (lookup-insert a.nid nid a.sequence r.sequences, t) h
    | inl t ↦
        rw (lookup-insert a.nid nid a.sequence r.sequences, t)
          (elim (Option-cases (lookup a.nid r.sequences)) [
            | inl e ↦ ground (arith, h, e, (eq_iff a.nid nid).0 t)
            | inr (m, e) ↦ ground (arith, h, e, newer m e, (eq_iff a.nid nid).0 t)
          ])
  ]

  Change-AtLeast :
      (r : NdpRegistryProfile N) (nid : String) (n : ℕ)
      (p : NdpRegistryAdmission × NdpRegistryProfile N)
      → Change ops r p
      → AtLeast ops n (lookup nid r.sequences)
      → AtLeast ops n (lookup nid p.1.sequences)
  Change-AtLeast r nid n p (refused code) h = h
  Change-AtLeast r nid n p repeated h = h
  Change-AtLeast r nid n p (renewed a e current l d) h = h
  Change-AtLeast r nid n p (withdrawn a newer) h = AtLeast-insert r a nid n newer h
  Change-AtLeast r nid n p (stored a e newer) h = AtLeast-insert r a nid n newer h

  run-AtLeast :
      (r : NdpRegistryProfile N) (cs : List (Call ops)) (nid : String) (n : ℕ)
      → AtLeast ops n (lookup nid r.sequences)
      → AtLeast ops n (lookup nid (run ops r cs).sequences)
  run-AtLeast r [] nid n h = h
  run-AtLeast r (c ∷ cs) nid n h =
      run-AtLeast (step ops r c) cs nid n
        (Change-AtLeast r nid n _ (apply_announce-Change ops r c) h)

  by_sequence-rollback :
      (r : NdpRegistryProfile N) (a : Announcement N) (received_at : ℕ) (n : ℕ) (o : Option ℕ)
      → AtLeast ops n o
      → a.sequence < n
      → by_sequence ops r a received_at o ≡ (reject graph_seq_rollback, r)
  by_sequence-rollback r a received_at n none h l = elim h [ ]
  by_sequence-rollback r a received_at n (some highest) h l =
      rw (lt→ltb a.sequence highest (omega arith)) refl

  -- Once a registry knows a sequence number of a NID, an announcement of that NID with a lower
  -- number that passes the tests on its fields is refused as a rollback and changes nothing,
  -- whatever calls came in between.
  pub rollback_refused :
      (r : NdpRegistryProfile N) (cs : List (Call ops)) (a : Announcement N) (n : ℕ) (c : Call ops)
      → AtLeast ops n (lookup a.nid r.sequences)
      → a.sequence < n
      → check_announce ops (run ops r cs) c.frame c.signature_valid c.received_at ≡ ok a
      → apply_announce ops (run ops r cs) c.frame c.signature_valid c.received_at
        ≡ (reject graph_seq_rollback, run ops r cs)
  unfolding apply_announce
  rollback_refused r cs a n c h l checked =
      rw (checked)
        (by_sequence-rollback (run ops r cs) a c.received_at n _ (run-AtLeast r cs a.nid n h) l)

  abbrev pub is_kept : NdpRegistryDecision → Bool
  is_kept rejected = true
  is_kept duplicate = true
  is_kept _ = false

  abbrev pub has_code : Option ProfileCode → Bool
  has_code none = false
  has_code (some code) = true

  abbrev pub is_rejected : NdpRegistryDecision → Bool
  is_rejected rejected = true
  is_rejected _ = false

  Change-kept :
      (r : NdpRegistryProfile N) (p : NdpRegistryAdmission × NdpRegistryProfile N)
      → Change ops r p
      → (is_kept p.0.decision ≡ true → p.1 ≡ r)
        × (has_code p.0.error_code ≡ is_rejected p.0.decision)
  Change-kept r p (refused code) = (λ _. refl, refl)
  Change-kept r p repeated = (λ _. refl, refl)
  Change-kept r p (renewed a e current l d) = (λ h. cc, refl)
  Change-kept r p (withdrawn a newer) = (λ h. cc, refl)
  Change-kept r p (stored a e newer) = (λ h. cc, refl)

  -- An announcement that is rejected or a duplicate leaves the registry as it was, and an answer
  -- has an error code exactly where it is a rejection.
  pub apply_announce-kept :
      (r : NdpRegistryProfile N) (c : Call ops)
      → (is_kept (apply_announce ops r c.frame c.signature_valid c.received_at).0.decision ≡ true
          → (apply_announce ops r c.frame c.signature_valid c.received_at).1 ≡ r)
        × (has_code (apply_announce ops r c.frame c.signature_valid c.received_at).0.error_code
            ≡ is_rejected (apply_announce ops r c.frame c.signature_valid c.received_at).0.decision)
  apply_announce-kept r c = Change-kept r _ (apply_announce-Change ops r c)

  -- Either a NID's entry still has digest `d` at sequence number `n`, or the number has grown.
  abbrev pub Signed : String → ℕ → String → NdpRegistryProfile N → Type 0
  Signed nid n d r =
      ((e : Entry N) × (lookup nid r.entries ≡ some e)
        × (e.signed_digest ≡ d)
        × (lookup nid r.sequences ≡ some n))
      ⊎ AtLeast ops (suc n) (lookup nid r.sequences)

  Signed-insert :
      (r : NdpRegistryProfile N) (a : Announcement N) (entries : List (String × Entry N))
      (nid : String) (n : ℕ) (d : String)
      → Newer ops r a
      → (str_eq a.nid nid ≡ false → lookup nid entries ≡ lookup nid r.entries)
      → Signed nid n d r
      → Signed nid n d
          (record r { sequences = insert a.nid a.sequence r.sequences; entries = entries })
  Signed-insert r a entries nid n d newer other (inr h) =
      inr (AtLeast-insert r a nid (suc n) newer h)
  Signed-insert r a entries nid n d newer other (inl (e, l, s, q)) =
      elim (Bool-cases (str_eq a.nid nid)) [
        | inr t ↦ inl (e, other t ∙ l, s, lookup-insert a.nid nid a.sequence r.sequences ∙ rw (t) q)
        | inl t ↦ inr (
            rw (lookup-insert a.nid nid a.sequence r.sequences, t)
              (newer n (ap (λ k. lookup k r.sequences) ((eq_iff a.nid nid).0 t) ∙ q)))
      ]

  Change-Signed :
      (r : NdpRegistryProfile N) (nid : String) (n : ℕ) (d : String)
      (p : NdpRegistryAdmission × NdpRegistryProfile N)
      → Change ops r p
      → Signed nid n d r
      → Signed nid n d p.1
  Change-Signed r nid n d p (refused code) h = h
  Change-Signed r nid n d p repeated h = h
  Change-Signed r nid n d p (renewed a e current l same) (inr h) = inr h
  Change-Signed r nid n d p (renewed a e current l same) (inl (f, k, s, q)) =
      elim (Bool-cases (str_eq a.nid nid)) [
        | inr t ↦ inl (f, lookup-insert a.nid nid e r.entries ∙ rw (t) k, s, q)
        | inl t ↦ inl (
          e,
          lookup-insert a.nid nid e r.entries ∙ rw (t) refl,
          ground (arith, same, s, l, k, (eq_iff a.nid nid).0 t),
          q,
        )
      ]
  Change-Signed r nid n d p (withdrawn a newer) h =
      Signed-insert r a _ nid n d newer (λ t. lookup-remove a.nid nid r.entries ∙ rw (t) refl) h
  Change-Signed r nid n d p (stored a e newer) h =
      Signed-insert r a _ nid n d newer (λ t. lookup-insert a.nid nid e r.entries ∙ rw (t) refl) h

  -- No equivocation: the entry that a registry holds for a NID at a sequence number keeps its
  -- signed digest through any calls, until the NID's number has grown.
  pub run-Signed :
      (r : NdpRegistryProfile N) (cs : List (Call ops)) (nid : String) (n : ℕ) (d : String)
      → Signed nid n d r
      → Signed nid n d (run ops r cs)
  run-Signed r [] nid n d h = h
  run-Signed r (c ∷ cs) nid n d h =
      run-Signed (step ops r c) cs nid n d
        (Change-Signed r nid n d _ (apply_announce-Change ops r c) h)
