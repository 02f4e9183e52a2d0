-- ===== src/Common/Maps.antt =====
-- `HashMap` with text keys, as an association list.
use Prim.Native.String.{String}
use mathlib.Core.Path.{◌≡◌, refl}
use mathlib.Core.Bool.{Bool}
use mathlib.Core.List.{List, [], ◌∷◌}
use mathlib.Core.Option.{Option, none, some}
use native.Mathlib.Omega.{arith}
use text.Mathlib.Text.{◌==◌ as str_eq}
use text.Mathlib.TextEquality.{eq_iff}
use nps_sdk_rust.Common.Tests.{if◌then◌else◌}
use nps_sdk_rust.Common.Lists.{length}
use Prim.Native.Nat.{suc, ◌≤◌}

module _ {ℓ} {V : Type ℓ} where
  unfoldable pub lookup : (key : String) → List (String × V) → Option V
  lookup key [] = none
  lookup key ((k, value) ∷ rest) = if str_eq k key then some value else lookup key rest

  unfoldable pub remove : String → List (String × V) → List (String × V)
  remove k [] = []
  remove k ((j, w) ∷ m) = if str_eq j k then remove k m else (j, w) ∷ remove k m

  -- `HashMap::insert` overwrites the value of a key that is there.
  unfoldable pub insert : (key : String) → V → List (String × V) → List (String × V)
  insert key value [] = (key, value) ∷ []
  insert key value ((k, old) ∷ rest) =
      if str_eq k key then (key, value) ∷ rest else (k, old) ∷ insert key value rest

  pub lookup-insert :
      (key other : String) (value : V) (rest : List (String × V))
      → lookup other (insert key value rest)
        ≡ (if str_eq key other then some value else lookup other rest)
  unfolding lookup insert
  lookup-insert key other value [] = refl
  lookup-insert key other value ((k, old) ∷ rest) =
      ground
        (arith, eq_iff key other, eq_iff k key, eq_iff k other, lookup-insert key other value rest)

  pub lookup-remove :
      (k j : String) (m : List (String × V))
      → lookup j (remove k m) ≡ (if str_eq k j then none else lookup j m)
  unfolding lookup remove
  lookup-remove k j [] = ground arith
  lookup-remove k j ((i, w) ∷ m) =
      ground (arith, eq_iff k j, eq_iff i k, eq_iff i j, lookup-remove k j m)

  -- `HashMap::retain`.
  unfoldable pub retain : (V → Bool) → List (String × V) → List (String × V)
  retain p [] = []
  retain p ((j, w) ∷ m) = if p w then (j, w) ∷ retain p m else retain p m

  -- `HashMap::values`, in the order of the list.
  abbrev pub values : List (String × V) → List V
  values [] = []
  values ((j, w) ∷ m) = w ∷ values m

  abbrev pub keep_if : (V → Bool) → Option V → Option V
  keep_if p none = none
  keep_if p (some v) = if p v then some v else none

  -- No key twice, as in a `HashMap`.
  abbrev pub Unique : List (String × V) → Type ℓ
  Unique [] = Unit
  Unique ((k, v) ∷ m) = (lookup k m ≡ none) × Unique m

  pub insert-Unique :
      (k : String) (v : V) (m : List (String × V)) → Unique m → Unique (insert k v m)
  unfolding insert lookup
  insert-Unique k v [] u = (refl, tt)
  insert-Unique k v ((j, w) ∷ m) u =
      ground (arith, eq_iff j k, eq_iff k j, lookup-insert k j v m, insert-Unique k v m)

  pub remove-Unique : (k : String) (m : List (String × V)) → Unique m → Unique (remove k m)
  unfolding remove
  remove-Unique k [] u = tt
  remove-Unique k ((j, w) ∷ m) u =
      ground (arith, eq_iff j k, eq_iff k j, lookup-remove k j m, remove-Unique k m)

  pub lookup-retain :
      (p : V → Bool) (k : String) (m : List (String × V))
      → Unique m
      → lookup k (retain p m) ≡ keep_if p (lookup k m)
  unfolding lookup retain
  lookup-retain p k [] u = refl
  lookup-retain p k ((j, w) ∷ m) u = ground (arith, eq_iff j k, lookup-retain p k m)

  pub retain-Unique : (p : V → Bool) (m : List (String × V)) → Unique m → Unique (retain p m)
  unfolding retain
  retain-Unique p [] u = tt
  retain-Unique p ((j, w) ∷ m) u = ground (arith, lookup-retain p j m, retain-Unique p m)

module _ {ℓ} {V : Type ℓ} where
  pub length-insert-new :
      (k : String) (v : V) (m : List (String × V))
      → lookup k m ≡ none
      → length (insert k v m) ≡ suc (length m)
  unfolding lookup insert
  length-insert-new k v [] h = refl
  length-insert-new k v ((j, w) ∷ m) h = ground (arith, h, length-insert-new k v m)

  pub length-insert_le :
      (k : String) (v : V) (m : List (String × V))
      → (length m ≤ length (insert k v m)) × (length (insert k v m) ≤ suc (length m))
  unfolding insert
  length-insert_le k v [] = (omega arith, omega arith)
  length-insert_le k v ((j, w) ∷ m) =
      (ground (arith, length-insert_le k v m), ground (arith, length-insert_le k v m))
