-- ===== src/Core/Cache/Examples.antt =====
-- Runs of the anchor cache over two schemas.
use nps_sdk_rust.Common.{
  ◌+◌, ◌<◌, ◌≤◌, ℕ, ◌≡◌, ◌↔◌, ◌⊎◌, refl, Bool, true, false, not, List, [], ◌∷◌, none, some, arith,
  eq_iff, length, if◌then◌else◌, lookup, insert, remove, retain,
}
use nps_sdk_rust.Core.Cache.{
  SchemaOps, panics, new, set, get, invalidate, evict_expired, len, is_empty, compute_anchor_id,
}
use nps_sdk_rust.Core.Cache.Laws.{Call, sets, invalidates, evicts, run, get-run_addressed}
use nps_sdk_rust.Core.Cache.Lookup.{
  is_set, get-set, set-is_ok_iff, set-run_ok, evict_expired_invisible,
}

same : Bool → Bool → Bool
same true b = b
same false b = not b

same_iff : (a b : Bool) → (same a b ≡ true) ↔ (a ≡ b)
unfolding same
same_iff true b = ground arith
same_iff false b = ground arith

abbrev ops : SchemaOps Bool
ops = record {
  digest = λ b. if b then "aa" else "bb";
  schema_eq = same;
  schema_eq_iff = same_iff;
  last_instant = 1000;
}

distinct : (a : Bool) → compute_anchor_id ops a ≡ compute_anchor_id ops true → a ≡ true
unfolding compute_anchor_id
distinct true h = refl
distinct false h = absurd (cc ((eq_iff "sha256:bb" "sha256:aa").1 h))

abbrev history : List (ℕ × Call ops)
history = (0, sets true 10) ∷ (1, sets false 3) ∷ (2, invalidates "sha256:cc") ∷ (5, evicts) ∷ []

cache : Unit {0}
unfolding run set get evict_expired len is_empty compute_anchor_id new lookup insert remove retain
    invalidate same
cache = tt

get-run_addressed_example : compute_anchor_id ops true ≡ "sha256:aa"
unfolding cache
get-run_addressed_example = get-run_addressed ops history "sha256:aa" 6 true refl

get-set_example : get (run ops new ((0, sets true 10) ∷ [])) "sha256:aa" 9 ≡ some true
unfolding cache
get-set_example =
    get-set ops new (run ops new ((0, sets true 10) ∷ [])) true 10 0 "sha256:aa" "sha256:aa" 9 refl

set-is_ok_iff_example :
    ((set ops (run ops new history) true 5 6 ≡ panics) ↔ (1000 < 6 + 5))
    × ((is_set (set ops (run ops new history) true 5 6) ≡ true) ↔ (
        (6 + 5 ≤ 1000)
        × ((get (run ops new history) (compute_anchor_id ops true) 6 ≡ none)
            ⊎ (get (run ops new history) (compute_anchor_id ops true) 6 ≡ some true))))
set-is_ok_iff_example = set-is_ok_iff ops (run ops new history) true 5 6

set-run_ok_example : is_set (set ops (run ops new history) true 5 6) ≡ true
set-run_ok_example =
    set-run_ok ops history true 5 6 (distinct true, (distinct false, tt)) (omega arith)

overflows : set ops (run ops new history) true 1000 6 ≡ panics
unfolding cache
overflows = refl

evict_expired_invisible_example :
    (get (evict_expired (run ops new history) 6) "sha256:aa" 8
      ≡ get (run ops new history) "sha256:aa" 8)
    × (length (evict_expired (run ops new history) 6).store ≡ len (run ops new history) 6)
evict_expired_invisible_example = evict_expired_invisible ops history 6 8 "sha256:aa" (omega arith)
