-- ===== src/Core/Cache/Laws.antt =====
-- The anchor cache is content-addressed: an invariant of every history of calls.
use nps_sdk_rust.Common.{
  ℕ, ◌+◌, ◌≡◌, refl, String, Bool, true, false, List, [], ◌∷◌, Option, none, some, ok, err,
  if◌then◌else◌, ltb, lookup, insert, arith, str_eq, eq_iff, lookup-insert, lookup-remove,
  lookup-retain, Unique, keep_if, insert-Unique, remove-Unique, retain-Unique, Bool-cases, inl, inr,
}
use nps_sdk_rust.Core.Cache.{
  SchemaOps, Entry, AnchorFrameCache, Outcome, returns, panics, new, set, get, invalidate,
  evict_expired, compute_anchor_id, is_poison, live_schema, is_live,
}

module _ {Schema : Type 0} (ops : SchemaOps Schema) where
  -- The calls that change the cache.
  pub data Call : Type 0 where
    sets : Schema → ℕ → Call
    invalidates : String → Call
    evicts : Call

  -- A `set` that is refused or panics leaves the cache as it was.
  abbrev pub after :
      AnchorFrameCache Schema → Outcome (String × AnchorFrameCache Schema) → AnchorFrameCache Schema
  after c (returns (ok (id, d))) = d
  after c (returns (err e)) = c
  after c panics = c

  unfoldable pub step : AnchorFrameCache Schema → ℕ × Call → AnchorFrameCache Schema
  step c (now, sets schema ttl) = after c (set ops c schema ttl now)
  step c (now, invalidates id) = invalidate c id
  step c (now, evicts) = evict_expired c now

  unfoldable pub run : AnchorFrameCache Schema → List (ℕ × Call) → AnchorFrameCache Schema
  unfolding step
  run c [] = c
  run c (k ∷ ks) = run (step c k) ks

  -- Every schema that the calls set has the property.
  abbrev pub AllSet : (Schema → Type 0) → List (ℕ × Call) → Type 0
  AllSet P [] = Unit {0}
  AllSet P ((now, sets schema ttl) ∷ ks) = P schema × AllSet P ks
  AllSet P ((now, invalidates id) ∷ ks) = AllSet P ks
  AllSet P ((now, evicts) ∷ ks) = AllSet P ks

  AllSet-any : (P : Schema → Type 0) → ((s : Schema) → P s) → (ks : List (ℕ × Call)) → AllSet P ks
  AllSet-any P h [] = tt
  AllSet-any P h ((now, sets schema ttl) ∷ ks) = (h schema, AllSet-any P h ks)
  AllSet-any P h ((now, invalidates id) ∷ ks) = AllSet-any P h ks
  AllSet-any P h ((now, evicts) ∷ ks) = AllSet-any P h ks

module _ {Schema : Type 0} (ops : SchemaOps Schema) (P : Schema → Type 0) where
  -- What is stored under an id has it for content address, and the property.
  abbrev pub Addressed : String → Option (Entry Schema) → Type 0
  Addressed id none = Unit {0}
  Addressed id (some e) = (compute_anchor_id ops e.schema ≡ id) × P e.schema

  pub record Inv (c : AnchorFrameCache Schema) : Type 0 where
    pub unique : Unique c.store
    pub addressed : (id : String) → Addressed id (lookup id c.store)

  Addressed-if :
      (b : Bool) (id : String) (x y : Option (Entry Schema))
      → (b ≡ true → Addressed id x)
      → Addressed id y
      → Addressed id (if b then x else y)
  Addressed-if true id x y h k = h refl
  Addressed-if false id x y h k = k

  Addressed-keep_if :
      (p : Entry Schema → Bool) (id : String) (o : Option (Entry Schema))
      → Addressed id o
      → Addressed id (keep_if p o)
  Addressed-keep_if p id none h = tt
  Addressed-keep_if p id (some e) h = Addressed-if (p e) id (some e) none (λ _. h) tt

  insert-Inv :
      (c : AnchorFrameCache Schema) (schema : Schema) (expires : ℕ)
      → P schema
      → Inv c
      → Inv (record {
        store =
            insert
              (compute_anchor_id ops schema)
              (record { schema = schema; expires = expires })
              c.store;
      })
  insert-Inv c schema expires has v =
      let key = compute_anchor_id ops schema in
      let e : Entry Schema = record { schema = schema; expires = expires } in
      record {
        unique = insert-Unique key e c.store v.unique;
        addressed = λ id. rw (lookup-insert key id e c.store) (
            Addressed-if (str_eq key id) id (some e) (lookup id c.store)
              (λ h. ((eq_iff key id).0 h, has)) (v.addressed id));
      }

  set-Inv :
      (c : AnchorFrameCache Schema) (schema : Schema) (ttl now : ℕ)
      → P schema
      → Inv c
      → Inv (after ops c (set ops c schema ttl now))
  unfolding set
  set-Inv c schema ttl now has v = elim (Bool-cases (ltb ops.last_instant (now + ttl))) [
    | inl late ↦ rw (late, after) v
    | inr fits ↦
        elim (Bool-cases
          (is_poison ops schema now (lookup (compute_anchor_id ops schema) c.store))) [
            | inl e ↦ rw (fits, e, after) v
            | inr e ↦ rw (fits, e, after) (insert-Inv c schema (now + ttl) has v)
          ]
  ]

  invalidate-Inv : (c : AnchorFrameCache Schema) (id : String) → Inv c → Inv (invalidate c id)
  unfolding invalidate
  invalidate-Inv c id v = record {
    unique = remove-Unique id c.store v.unique;
    addressed = λ j.
        rw (lookup-remove id j c.store)
          (Addressed-if (str_eq id j) j none (lookup j c.store) (λ _. tt) (v.addressed j));
  }

  evict_expired-Inv : (c : AnchorFrameCache Schema) (now : ℕ) → Inv c → Inv (evict_expired c now)
  unfolding evict_expired
  evict_expired-Inv c now v = record {
    unique = retain-Unique (is_live now) c.store v.unique;
    addressed = λ j.
        rw (lookup-retain (is_live now) j c.store v.unique)
          (Addressed-keep_if (is_live now) j (lookup j c.store) (v.addressed j));
  }

  run-Inv :
      (ks : List (ℕ × Call ops)) (c : AnchorFrameCache Schema)
      → AllSet ops P ks
      → Inv c
      → Inv (run ops c ks)
  unfolding run step
  run-Inv [] c h v = v
  run-Inv ((now, sets schema ttl) ∷ ks) c (has, h) v =
      run-Inv ks _ h (set-Inv c schema ttl now has v)
  run-Inv ((now, invalidates id) ∷ ks) c h v = run-Inv ks _ h (invalidate-Inv c id v)
  run-Inv ((now, evicts) ∷ ks) c h v = run-Inv ks _ h (evict_expired-Inv c now v)

  new-Inv : Inv new
  unfolding new lookup
  new-Inv = record { unique = tt; addressed = λ _. tt }

  pub run-new-Inv : (ks : List (ℕ × Call ops)) → AllSet ops P ks → Inv (run ops new ks)
  run-new-Inv ks h = run-Inv ks new h new-Inv

module _ {Schema : Type 0} (ops : SchemaOps Schema) where
  -- The invariant that every history of calls keeps.
  pub run-new-Inv_any : (ks : List (ℕ × Call ops)) → Inv ops (λ _. Unit {0}) (run ops new ks)
  run-new-Inv_any ks =
      run-new-Inv ops (λ _. Unit {0}) ks (AllSet-any ops (λ _. Unit {0}) (λ _. tt) ks)

  live_schema-Addressed :
      (o : Option (Entry Schema)) (id : String) (now : ℕ) (s : Schema)
      → Addressed ops (λ _. Unit {0}) id o
      → live_schema now o ≡ some s
      → compute_anchor_id ops s ≡ id
  live_schema-Addressed none id now s v h = cc
  live_schema-Addressed (some e) id now s (v, _) h = ground arith

  -- Whatever calls were made of a new cache, a lookup gives only a schema whose content address is
  -- the id that was looked up.
  pub get-run_addressed :
      (ks : List (ℕ × Call ops)) (id : String) (now : ℕ) (s : Schema)
      → get (run ops new ks) id now ≡ some s
      → compute_anchor_id ops s ≡ id
  unfolding get
  get-run_addressed ks id now s h =
      let c = run ops new ks in
      live_schema-Addressed (lookup id c.store) id now s ((run-new-Inv_any ks).addressed id) h
