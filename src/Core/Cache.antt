-- ===== src/Core/Cache.antt =====
-- nps-core/src/cache.rs: the cache of schemas under content addresses. The clock's reading is an
-- argument, in seconds. Sorting the fields, printing them as JSON and hashing the text are
-- serde_json's and sha2's work: the section's `digest`.
pub mod Laws
pub mod Lookup
mod Examples
use Prim.Native.String
use nps_sdk_rust.Common.{
  ℕ, ◌+◌, ◌≡◌, ◌↔◌, String, Bool, true, false, not, ◌&&◌, List, [], ◌∷◌, Option, none, some, ok,
  err, Result, ltb, ◌==◌, if◌then◌else◌, lookup, insert, remove, retain, values, length, select,
  ok_or,
}
use nps_sdk_rust.Core.Error.{NpsError, NpsResult, Message, lit, anchor_poison, anchor_not_found}

-- A JSON object as the cache sees it: compared for equality, and hashed. `last_instant` is the last
-- reading that the clock's type holds: `Instant + Duration` panics past it.
pub record SchemaOps (Schema : Type 0) : Type 0 where
  pub digest : Schema → String
  pub schema_eq : Schema → Schema → Bool
  pub last_instant : ℕ
  pub schema_eq_iff : (a b : Schema) → (schema_eq a b ≡ true) ↔ (a ≡ b)

pub record Entry (Schema : Type 0) : Type 0 where
  pub schema : Schema
  pub expires : ℕ

pub record AnchorFrameCache (Schema : Type 0) : Type 0 where
  pub store : List (String × Entry Schema)

-- What a call of `set` comes to: a result, or the panic of the addition of the time to live.
pub data Outcome (A : Type 0) : Type 0 where
  returns : NpsResult A → Outcome A
  panics : Outcome A

module _ {Schema : Type 0} where
  unfoldable pub new : AnchorFrameCache Schema
  new = record { store = [] }

  -- `existing.schema != schema && existing.expires > now`
  abbrev pub is_poison : SchemaOps Schema → Schema → ℕ → Option (Entry Schema) → Bool
  is_poison ops schema now none = false
  is_poison ops schema now (some e) = not (ops.schema_eq e.schema schema) && ltb now e.expires

  unfoldable pub compute_anchor_id : SchemaOps Schema → Schema → String
  compute_anchor_id ops schema = String.◌++◌ "sha256:" (ops.digest schema)

  unfoldable pub set :
      SchemaOps Schema
      → AnchorFrameCache Schema
      → Schema
      → ℕ
      → ℕ
      → Outcome (String × AnchorFrameCache Schema)
  set ops c schema ttl_secs now =
      let anchor_id = compute_anchor_id ops schema in
      let expires = now + ttl_secs in
      if ltb ops.last_instant expires
      then panics
      else returns (
          if is_poison ops schema now (lookup anchor_id c.store)
          then err (
              anchor_poison
                (lit "anchor " ∷ lit anchor_id ∷ lit " already cached with different schema" ∷ []))
          else ok (
            anchor_id,
            record {
              store = insert anchor_id (record { schema = schema; expires = expires }) c.store;
            },
          ))

  abbrev pub live_schema : ℕ → Option (Entry Schema) → Option Schema
  live_schema now none = none
  live_schema now (some e) = if ltb now e.expires then some e.schema else none

  unfoldable pub get : AnchorFrameCache Schema → String → ℕ → Option Schema
  get c anchor_id now = live_schema now (lookup anchor_id c.store)

  unfoldable pub get_required : AnchorFrameCache Schema → String → ℕ → NpsResult Schema
  unfolding get
  get_required c anchor_id now = ok_or (get c anchor_id now) (anchor_not_found (lit anchor_id ∷ []))

  unfoldable pub invalidate : AnchorFrameCache Schema → String → AnchorFrameCache Schema
  invalidate c anchor_id = record { store = remove anchor_id c.store }

  abbrev pub is_live : ℕ → Entry Schema → Bool
  is_live now e = ltb now e.expires

  unfoldable pub evict_expired : AnchorFrameCache Schema → ℕ → AnchorFrameCache Schema
  evict_expired c now = record { store = retain (is_live now) c.store }

  unfoldable pub len : AnchorFrameCache Schema → ℕ → ℕ
  len c now = length (select (is_live now) (values c.store))

  unfoldable pub is_empty : AnchorFrameCache Schema → ℕ → Bool
  unfolding len
  is_empty c now = len c now == 0
