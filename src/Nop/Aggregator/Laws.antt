-- ===== src/Nop/Aggregator/Laws.antt =====
-- nps-nop/src/aggregator.rs: what the aggregated value holds.
use nps_sdk_rust.Common.{
  ℕ, ◌+◌, ◌≡◌, refl, sym, ap, ◌∙◌, String, Bool, true, false, List, [], ◌∷◌, Option, none, some,
  if◌then◌else◌, str_eq,
}
use nps_sdk_rust.Core.Json
use nps_sdk_rust.Core.Json.{
  Value, Fields, Items, null, bool, number, string, array, object, end, field,
}
use nps_sdk_rust.Nop.Aggregator.{insert_all, merge_from, merge}

abbrev pub or_else {ℓ} : {A : Type ℓ} → Option A → Option A → Option A
or_else none b = b
or_else (some a) b = some a

or_else_assoc {ℓ} :
    {A : Type ℓ} (a b c : Option A) → or_else (or_else a b) c ≡ or_else a (or_else b c)
or_else_assoc none b c = refl
or_else_assoc (some a) b c = refl

or_else-if {ℓ} :
    {A : Type ℓ} (b : Bool) (v : A) (o : Option A)
    → (if b then some v else o) ≡ or_else (if b then some v else none) o
or_else-if true v o = refl
or_else-if false v o = refl

or_else-none {ℓ} : {A : Type ℓ} (o : Option A) → or_else o none ≡ o
or_else-none none = refl
or_else-none (some a) = refl

module _ {N : Type 0} where
  get-insert-or :
      (k j : String) (v : Value N) (fs : Fields N)
      → Json.get j (Json.insert k v fs)
        ≡ or_else (if str_eq k j then some v else none) (Json.get j fs)
  get-insert-or k j v fs = Json.get-insert k j v fs ∙ or_else-if (str_eq k j) v (Json.get j fs)

  -- The last value of a key among an object's fields.
  abbrev pub last_field : String → Fields N → Option (Value N)
  last_field k end = none
  last_field k (field j v fs) = or_else (last_field k fs) (if str_eq j k then some v else none)

  -- The object's field of a key.
  abbrev pub field_of : String → Value N → Option (Value N)
  field_of k (object fs) = Json.get k fs
  field_of k _ = none

module _ {N : Type 0} (result_key : ℕ → String) where
  -- The value that the last result with the key gives it.
  abbrev pub latest : String → ℕ → List (Value N) → Option (Value N)
  latest k i [] = none
  latest k i (object fs ∷ rs) = or_else (latest k (i + 1) rs) (last_field k fs)
  latest k i (r ∷ rs) =
      or_else (latest k (i + 1) rs) (if str_eq (result_key i) k then some r else none)

  get-insert_all :
      (k : String) (m fs : Fields N)
      → Json.get k (insert_all result_key m fs) ≡ or_else (last_field k fs) (Json.get k m)
  get-insert_all k m end = refl
  get-insert_all k m (field j v fs) =
      get-insert_all k (Json.insert j v m) fs
      ∙ ap (or_else (last_field k fs)) (get-insert-or j k v m)
      ∙ sym (or_else_assoc (last_field k fs) _ _)

  merge_from-step :
      (k : String) (i : ℕ) (m : Fields N) (r : Value N) (rs : List (Value N))
      → ((i : ℕ) (m : Fields N)
          → Json.get k (merge_from result_key i m rs) ≡ or_else (latest k i rs) (Json.get k m))
      → Json.get k (merge_from result_key (i + 1) (Json.insert (result_key i) r m) rs)
        ≡ or_else
            (or_else (latest k (i + 1) rs) (if str_eq (result_key i) k then some r else none))
            (Json.get k m)
  merge_from-step k i m r rs h =
      h (i + 1) (Json.insert (result_key i) r m)
      ∙ ap (or_else (latest k (i + 1) rs)) (get-insert-or (result_key i) k r m)
      ∙ sym (or_else_assoc (latest k (i + 1) rs) _ _)

  get-merge_from :
      (k : String) (i : ℕ) (m : Fields N) (rs : List (Value N))
      → Json.get k (merge_from result_key i m rs) ≡ or_else (latest k i rs) (Json.get k m)
  unfolding merge_from
  get-merge_from k i m [] = refl
  get-merge_from k i m (object fs ∷ rs) =
      get-merge_from k (i + 1) (insert_all result_key m fs) rs
      ∙ ap (or_else (latest k (i + 1) rs)) (get-insert_all k m fs)
      ∙ sym (or_else_assoc (latest k (i + 1) rs) _ _)
  get-merge_from k i m (r ∷ rs) = merge_from-step k i m r rs (λ j n. get-merge_from k j n rs)

  -- Under every key the merged object holds the value that the last result with the key gives it,
  -- an object's field or, under its own number's key, a result that is not an object, and nothing
  -- under a key that no result has.
  pub field_of-merge :
      (k : String) (results : List (Value N))
      → field_of k (merge result_key results) ≡ latest k 0 results
  unfolding merge Json.get
  field_of-merge k results = get-merge_from k 0 end results ∙ or_else-none (latest k 0 results)
