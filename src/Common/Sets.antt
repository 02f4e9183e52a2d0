-- ===== src/Common/Sets.antt =====
-- Lists of texts as sets: `HashSet`, and sequences without repetition.
use Prim.Native.Nat.{◌≤◌, ◌<◌}
use Prim.Native.String.{String}
use mathlib.Core.Path.{◌≡◌, refl}
use mathlib.Core.Bool.{true, false, not, ◌&&◌, ◌||◌}
use mathlib.Core.List.{List, [], ◌∷◌, ◌++◌}
use native.Mathlib.Omega.{arith}
use text.Mathlib.Text.{◌==◌ as str_eq}
use text.Mathlib.TextEquality.{eq_iff}
use nps_sdk_rust.Common.Tests.{if◌then◌else◌}
use nps_sdk_rust.Common.Lists.{length, contains}

pub contains-append :
    (xs ys : List String) (k : String) → contains (xs ++ ys) k ≡ contains xs k || contains ys k
contains-append [] ys k = refl
contains-append (x ∷ xs) ys k = ground (arith, contains-append xs ys k)

-- No text stands twice.
abbrev pub Distinct : List String → Type 0
Distinct [] = Unit
Distinct (x ∷ xs) = (contains xs x ≡ false) × Distinct xs

pub Distinct-snoc :
    (xs : List String) (x : String)
    → Distinct xs
    → contains xs x ≡ false
    → Distinct (xs ++ (x ∷ []))
Distinct-snoc [] x d h = (refl, tt)
Distinct-snoc (y ∷ xs) x (f, d) h =
    ground
      (arith, f, h, eq_iff x y, eq_iff y x, contains-append xs (x ∷ []) y, Distinct-snoc xs x d)

pub Distinct-middle :
    (xs ys : List String) (x : String) → Distinct (xs ++ (x ∷ ys)) → contains xs x ≡ false
Distinct-middle [] ys x d = refl
Distinct-middle (y ∷ xs) ys x (f, d) =
    ground
      (arith, f, eq_iff y x, contains-append xs (x ∷ ys) y, Distinct-middle xs ys x d, eq_iff x y)

without : String → List String → List String
without x [] = []
without x (y ∷ ys) = let rest = without x ys in if str_eq y x then rest else y ∷ rest

contains-without :
    (x k : String) (ys : List String)
    → contains (without x ys) k ≡ contains ys k && not (str_eq k x)
unfolding without
contains-without x k [] = refl
contains-without x k (y ∷ ys) =
    ground (arith, eq_iff y x, eq_iff k x, eq_iff y k, contains-without x k ys)

length-without-le : (x : String) (ys : List String) → length (without x ys) ≤ length ys
unfolding without
length-without-le x [] = omega arith
length-without-le x (y ∷ ys) = ground (arith, length-without-le x ys)

length-without :
    (x : String) (ys : List String) → contains ys x ≡ true → length (without x ys) < length ys
unfolding without
length-without x [] h = cc
length-without x (y ∷ ys) h =
    ground (arith, h, eq_iff y x, length-without-le x ys, length-without x ys)

-- Distinct texts that all stand in `ys` are at most as many.
pub length-le_of_subset :
    (xs ys : List String)
    → Distinct xs
    → ((k : String) → contains xs k ≡ true → contains ys k ≡ true)
    → length xs ≤ length ys
length-le_of_subset [] ys d h = omega arith
length-le_of_subset (x ∷ xs) ys (f, d) h = omega (
  arith,
  length-without x ys (h x (ground (arith, eq_iff x x))),
  length-le_of_subset xs (without x ys) d
      (λ k m. ground (arith, contains-without x k ys, h k, m, f, eq_iff k x, eq_iff x k)),
)

pub Distinct-append :
    (xs ys : List String)
    → Distinct xs
    → Distinct ys
    → ((k : String) → contains ys k ≡ true → contains xs k ≡ false)
    → Distinct (xs ++ ys)
Distinct-append [] ys d e h = e
Distinct-append (x ∷ xs) ys (f, d) e h = (
  ground (arith, f, contains-append xs ys x, h x, eq_iff x x),
  Distinct-append xs ys d e (λ k m. ground (arith, h k m, eq_iff x k)),
)

pub Distinct-prefix : (xs ys : List String) → Distinct (xs ++ ys) → Distinct xs
Distinct-prefix [] ys d = tt
Distinct-prefix (x ∷ xs) ys (f, d) =
    (ground (arith, f, contains-append xs ys x), Distinct-prefix xs ys d)

pub Distinct-without :
    (xs ys : List String) (x : String)
    → Distinct (xs ++ (x ∷ ys))
    → (contains (xs ++ ys) x ≡ false) × Distinct (xs ++ ys)
Distinct-without [] ys x d = d
Distinct-without (y ∷ xs) ys x (f, d) =
    let (g, e) = Distinct-without xs ys x d in
    (
      ground (arith, f, g, contains-append xs (x ∷ ys) y, eq_iff y x, eq_iff x y),
      (ground (arith, f, contains-append xs (x ∷ ys) y, contains-append xs ys y), e),
    )
