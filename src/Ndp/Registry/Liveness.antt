-- ===== src/Ndp/Registry/Liveness.antt =====
-- nps-ndp/src/registry.rs: which announcements a registry serves after a history of them.
use nps_sdk_rust.Common.{
  ℕ, ◌+◌, ◌≡◌, refl, ap, sym, ◌∙◌, String, List, [], ◌∷◌, Option, none, some, ltb, ◌==◌,
  if◌then◌else◌, lookup, insert, remove, values, select, str_eq, eq_iff, eq_refl, All, arith,
  lookup-insert, lookup-remove, Unique, insert-Unique, remove-Unique, Bool-cases, inl, inr,
}
use nps_sdk_rust.Ndp.Registry.{
  AnnounceFrame, Entry, InMemoryNdpRegistry, new, announce, is_live, live_frame, get_by_nid,
  get_all, frames_of,
}

module _ {N : Type 0} where
  -- Announcements, each with the clock's reading when it arrives.
  abbrev pub run : InMemoryNdpRegistry N → List (ℕ × AnnounceFrame N) → InMemoryNdpRegistry N
  run r [] = r
  run r ((now, f) ∷ h) = run (announce r f now) h

  -- The last announcement of a NID in a history, after `last`.
  abbrev pub last_of :
      String
      → Option (ℕ × AnnounceFrame N)
      → List (ℕ × AnnounceFrame N)
      → Option (ℕ × AnnounceFrame N)
  last_of nid last [] = last
  last_of nid last ((now, f) ∷ h) = last_of nid (if str_eq f.nid nid then some (now, f) else last) h

  -- What is served of it: nothing after its time to live, nor where that is zero.
  abbrev pub served : ℕ → Option (ℕ × AnnounceFrame N) → Option (AnnounceFrame N)
  served now none = none
  served now (some (at, f)) =
      if f.ttl == 0 then none else (if ltb now (at + f.ttl) then some f else none)

  abbrev entry_of : Option (ℕ × AnnounceFrame N) → Option (Entry N)
  entry_of none = none
  entry_of (some (at, f)) =
      if f.ttl == 0 then none else some (record { frame = f; expires = at + f.ttl })

  announce-entry :
      (r : InMemoryNdpRegistry N) (f : AnnounceFrame N) (now : ℕ) (nid : String)
      (last : Option (ℕ × AnnounceFrame N))
      → lookup nid r.store ≡ entry_of last
      → lookup nid (announce r f now).store
        ≡ entry_of (if str_eq f.nid nid then some (now, f) else last)
  unfolding announce
  announce-entry r f now nid last e = ground (
    arith,
    e,
    lookup-insert f.nid nid (record { frame = f; expires = now + f.ttl }) r.store,
    lookup-remove f.nid nid r.store,
  )

  run-entry :
      (r : InMemoryNdpRegistry N) (h : List (ℕ × AnnounceFrame N)) (nid : String)
      (last : Option (ℕ × AnnounceFrame N))
      → lookup nid r.store ≡ entry_of last
      → lookup nid (run r h).store ≡ entry_of (last_of nid last h)
  run-entry r [] nid last e = e
  run-entry r ((now, f) ∷ h) nid last e =
      run-entry (announce r f now) h nid _ (announce-entry r f now nid last e)

  live-served :
      (now : ℕ) (last : Option (ℕ × AnnounceFrame N))
      → live_frame now (entry_of last) ≡ served now last
  live-served now none = refl
  live-served now (some (at, f)) = ground arith

  -- After any history of announcements, a registry serves for a NID its last announcement, until
  -- that announcement's time to live is over, and nothing where the time to live is zero.
  pub get_by_nid-run :
      (h : List (ℕ × AnnounceFrame N)) (nid : String) (now : ℕ)
      → get_by_nid (run new h) nid now ≡ served now (last_of nid none h)
  unfolding get_by_nid new lookup
  get_by_nid-run h nid now =
      ap (live_frame now) (run-entry new h nid none refl) ∙ live-served now (last_of nid none h)

  -- Each key once, and over the announcement of that NID.
  abbrev Keyed : List (String × Entry N) → Type 0
  Keyed = All (λ e. e.1.frame.nid ≡ e.0)

  insert-Keyed :
      (m : List (String × Entry N)) (e : Entry N) → Keyed m → Keyed (insert e.frame.nid e m)
  unfolding insert
  insert-Keyed [] e k = (refl, tt)
  insert-Keyed ((j, w) ∷ m) e (k, h) = ground (arith, k, h, insert-Keyed m e h)

  remove-Keyed : (nid : String) (m : List (String × Entry N)) → Keyed m → Keyed (remove nid m)
  unfolding remove
  remove-Keyed nid [] k = tt
  remove-Keyed nid ((j, w) ∷ m) (k, h) = ground (arith, k, h, remove-Keyed nid m h)

  abbrev Inv : InMemoryNdpRegistry N → Type 0
  Inv r = Unique r.store × Keyed r.store

  announce-Inv :
      (r : InMemoryNdpRegistry N) (f : AnnounceFrame N) (now : ℕ) → Inv r → Inv (announce r f now)
  unfolding announce
  announce-Inv r f now (u, k) =
      let e : Entry N = record { frame = f; expires = now + f.ttl } in
      ground (
        arith,
        insert-Unique f.nid e r.store u,
        remove-Unique f.nid r.store u,
        insert-Keyed r.store e k,
        remove-Keyed f.nid r.store k,
      )

  run-Inv : (r : InMemoryNdpRegistry N) (h : List (ℕ × AnnounceFrame N)) → Inv r → Inv (run r h)
  run-Inv r [] i = i
  run-Inv r ((now, f) ∷ h) i = run-Inv (announce r f now) h (announce-Inv r f now i)

  lookup-later :
      (k : String) (v : Entry N) (m n : List (String × Entry N))
      → lookup k m ≡ none
      → All (λ e. lookup e.0 m ≡ some e.1) n
      → All (λ e. lookup e.0 ((k, v) ∷ m) ≡ some e.1) n
  unfolding lookup
  lookup-later k v m [] f a = tt
  lookup-later k v m ((j, w) ∷ n) f (e, a) =
      (ground (arith, f, e, eq_iff k j), lookup-later k v m n f a)

  entries-lookup : (m : List (String × Entry N)) → Unique m → All (λ e. lookup e.0 m ≡ some e.1) m
  unfolding lookup
  entries-lookup [] u = tt
  entries-lookup ((k, v) ∷ m) (f, u) =
      (rw (eq_refl k) refl, lookup-later k v m m f (entries-lookup m u))

  live-lookup :
      (full m : List (String × Entry N)) (now : ℕ)
      → Keyed m
      → All (λ e. lookup e.0 full ≡ some e.1) m
      → All
          (λ f. live_frame now (lookup f.nid full) ≡ some f)
          (frames_of (select (is_live now) (values m)))
  live-lookup full [] now k a = tt
  live-lookup full ((j, w) ∷ m) now (k, ks) (e, a) = elim (Bool-cases (is_live now w)) [
    | inl t ↦ rw (t) (
      ap (λ nid. live_frame now (lookup nid full)) k ∙ rw (e, t) refl,
      live-lookup full m now ks a,
    )
    | inr t ↦ rw (t) (live-lookup full m now ks a)
  ]

  served-All :
      (h : List (ℕ × AnnounceFrame N)) (now : ℕ) (fs : List (AnnounceFrame N))
      → All (λ f. get_by_nid (run new h) f.nid now ≡ some f) fs
      → All (λ f. served now (last_of f.nid none h) ≡ some f) fs
  served-All h now [] a = tt
  served-All h now (f ∷ fs) (e, a) = (sym (get_by_nid-run h f.nid now) ∙ e, served-All h now fs a)

  -- After any history of announcements, each frame that a registry lists as live is the last
  -- announcement of its NID, and its time to live is not over.
  pub get_all-run :
      (h : List (ℕ × AnnounceFrame N)) (now : ℕ)
      → All (λ f. served now (last_of f.nid none h) ≡ some f) (get_all (run new h) now)
  unfolding get_all get_by_nid new
  get_all-run h now =
      let r = run new h in
      let i = run-Inv new h (tt, tt) in
      served-All h now (get_all r now)
        (live-lookup r.store r.store now i.1 (entries-lookup r.store i.0))
