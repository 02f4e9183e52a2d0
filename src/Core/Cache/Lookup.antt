-- ===== src/Core/Cache/Lookup.antt =====
-- What a lookup in the anchor cache gives after each call, and when a schema is refused.
use nps_sdk_rust.Common.{
  ℕ, ◌<◌, ◌&&◌, not, ◌+◌, ◌≤◌, ◌≡◌, refl, sym, String, Bool, true, false, List, [], ◌∷◌, Option,
  none, some, ok, err, ltb, if◌then◌else◌, lookup, retain, values, length, select, arith, str_eq,
  lookup-insert, lookup-retain, keep_if, Bool-cases, inl, inr, ok-injective, ==_iff, ap, ◌⊎◌, ◌↔◌,
}
use nps_sdk_rust.Core.Error.{NpsError, NpsResult}
use nps_sdk_rust.Core.Cache.{
  SchemaOps, Entry, AnchorFrameCache, Outcome, returns, panics, new, set, get, evict_expired, len,
  is_empty, compute_anchor_id, is_poison, live_schema, is_live,
}
use nps_sdk_rust.Core.Cache.Laws.{Call, AllSet, run, Addressed, run-new-Inv, run-new-Inv_any}

-- The call returns an id.
abbrev pub is_set : {A : Type 0} → Outcome A → Bool
is_set (returns (ok a)) = true
is_set (returns (err e)) = false
is_set panics = false

returned : {A : Type 0} {r s : NpsResult A} → returns r ≡ returns s → r ≡ s
returned h = cc

late_panics :
    {A : Type 0} (n last : ℕ) (r : NpsResult A)
    → ((if ltb last n then panics else returns r) ≡ panics) ↔ (last < n)
late_panics n last r = ground arith

is_set-if :
    {A : Type 0} (late poison : Bool) (e : NpsError) (a : A)
    → is_set (if late then panics else returns (if poison then err e else ok a))
      ≡ (not late && not poison)
is_set-if true poison e a = refl
is_set-if false true e a = refl
is_set-if false false e a = refl

module _ {Schema : Type 0} (ops : SchemaOps Schema) where
  live_schema-if :
      (b : Bool) (now : ℕ) (e : Entry Schema) (o : Option (Entry Schema))
      → live_schema now (if b then some e else o)
        ≡ (if b then live_schema now (some e) else live_schema now o)
  live_schema-if true now e o = refl
  live_schema-if false now e o = refl

  -- After a `set` that succeeds, the schema is found under its id until its time to live is over,
  -- and every other id gives what it gave before.
  pub get-set :
      (c d : AnchorFrameCache Schema) (schema : Schema) (ttl now : ℕ) (id j : String) (later : ℕ)
      → set ops c schema ttl now ≡ returns (ok (id, d))
      → get d j later ≡ (
          if str_eq id j
          then (if ltb later (now + ttl) then some schema else none)
          else get c j later)
  unfolding get set
  get-set c d schema ttl now id j later h =
      let key = compute_anchor_id ops schema in
      let e : Entry Schema = record { schema = schema; expires = now + ttl } in
      elim (Bool-cases (ltb ops.last_instant (now + ttl))) [
        | inl late ↦ absurd (cc (sym (rw late at h)))
        | inr fits ↦ elim (Bool-cases (is_poison ops schema now (lookup key c.store))) [
          | inl p ↦ absurd (cc (returned (rw (fits, p) at h)))
          | inr p ↦
              let q = ok-injective (returned (rw (fits, p) at h)) in
              rw (← ap (λ r. r.0) q, ← ap (λ r. r.1) q)
                (rw (lookup-insert key j e c.store)
                  (live_schema-if (str_eq key j) later e (lookup j c.store)))
        ]
      ]

  is_poison_iff :
      (o : Option (Entry Schema)) (schema : Schema) (now : ℕ)
      → (is_poison ops schema now o ≡ false)
        ↔ ((live_schema now o ≡ none) ⊎ (live_schema now o ≡ some schema))
  is_poison_iff none schema now = ground arith
  is_poison_iff (some x) schema now = ground (arith, ops.schema_eq_iff x.schema schema)

  -- `set` panics exactly when the end of the time to live is past the last reading of the clock.
  -- It succeeds exactly when that end is a reading and the cache gives no live schema under the
  -- content address of the new one, or the same schema.
  pub set-is_ok_iff :
      (c : AnchorFrameCache Schema) (schema : Schema) (ttl now : ℕ)
      → ((set ops c schema ttl now ≡ panics) ↔ (ops.last_instant < now + ttl))
        × ((is_set (set ops c schema ttl now) ≡ true) ↔ (
            (now + ttl ≤ ops.last_instant)
            × ((get c (compute_anchor_id ops schema) now ≡ none)
                ⊎ (get c (compute_anchor_id ops schema) now ≡ some schema))))
  unfolding get set
  set-is_ok_iff c schema ttl now =
      let poison = is_poison_iff (lookup (compute_anchor_id ops schema) c.store) schema now in
      (late_panics _ _ _, rw (is_set-if _ _ _ _) (ground (arith, poison)))

  live_schema_same :
      (o : Option (Entry Schema)) (schema : Schema) (now : ℕ)
      → Addressed ops
          (λ s. compute_anchor_id ops s ≡ compute_anchor_id ops schema → s ≡ schema)
          (compute_anchor_id ops schema)
          o
      → (live_schema now o ≡ none) ⊎ (live_schema now o ≡ some schema)
  live_schema_same none schema now v = inl refl
  live_schema_same (some x) schema now (v, distinct) = ground (arith, distinct v)

  -- Where no other schema that a history of calls set has the content address of a schema, and its
  -- time to live ends at a reading of the clock, the history does not lead to its refusal.
  pub set-run_ok :
      (ks : List (ℕ × Call ops)) (schema : Schema) (ttl now : ℕ)
      → AllSet ops (λ s. compute_anchor_id ops s ≡ compute_anchor_id ops schema → s ≡ schema) ks
      → now + ttl ≤ ops.last_instant
      → is_set (set ops (run ops new ks) schema ttl now) ≡ true
  unfolding get
  set-run_ok ks schema ttl now distinct fits =
      let c = run ops new ks in
      let key = compute_anchor_id ops schema in
      (set-is_ok_iff c schema ttl now).1.1 (
        fits,
        live_schema_same (lookup key c.store) schema now
            ((run-new-Inv ops _ ks distinct).addressed key),
      )

  live_schema-keep_if :
      (o : Option (Entry Schema)) (now later : ℕ)
      → now ≤ later
      → live_schema later (keep_if (is_live now) o) ≡ live_schema later o
  live_schema-keep_if none now later h = refl
  live_schema-keep_if (some e) now later h = ground arith

  length-retain :
      (p : Entry Schema → Bool) (m : List (String × Entry Schema))
      → length (retain p m) ≡ length (select p (values m))
  unfolding retain
  length-retain p [] = refl
  length-retain p ((k, e) ∷ m) = ground (arith, length-retain p m)

  -- Eviction is invisible to every lookup from then on, and leaves only the live entries.
  pub evict_expired_invisible :
      (ks : List (ℕ × Call ops)) (now later : ℕ) (id : String)
      → now ≤ later
      → (get (evict_expired (run ops new ks) now) id later ≡ get (run ops new ks) id later)
        × (length (evict_expired (run ops new ks) now).store ≡ len (run ops new ks) now)
  unfolding get evict_expired len
  evict_expired_invisible ks now later id h =
      let c = run ops new ks in
      (
        rw (lookup-retain (is_live now) id c.store (run-new-Inv_any ops ks).unique)
            (live_schema-keep_if (lookup id c.store) now later h),
        length-retain (is_live now) c.store,
      )

  live_schema-none :
      (m : List (String × Entry Schema)) (now : ℕ) (id : String)
      → length (select (is_live now) (values m)) ≡ 0
      → live_schema now (lookup id m) ≡ none
  unfolding lookup
  live_schema-none [] now id h = refl
  live_schema-none ((k, e) ∷ m) now id h = ground (arith, live_schema-none m now id)

  -- A cache that is empty at a time gives no schema at that time.
  pub is_empty-get :
      (c : AnchorFrameCache Schema) (now : ℕ) (id : String)
      → is_empty c now ≡ true
      → get c id now ≡ none
  unfolding is_empty len get
  is_empty-get c now id h = live_schema-none c.store now id ((==_iff _ 0).0 h)
