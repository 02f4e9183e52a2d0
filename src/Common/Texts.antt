-- ===== src/Common/Texts.antt =====
-- Text as code points, for the code that walks characters, and `str::parse::<u64>`.
use Prim.Native.Nat.{ℕ, ◌+◌, ◌-◌, ◌*◌, ◌^◌}
use Prim.Native.Char.{code}
use Prim.Native.String.{String}
use mathlib.Core.Bool.{Bool, true, false, ◌&&◌, ◌||◌}
use mathlib.Core.List.{List, [], ◌∷◌, ◌++◌}
use mathlib.Core.Option.{Option, none, some}
use nps_sdk_rust.Common.Tests.{ltb, leb, ◌==◌, if◌then◌else◌}

abbrev pub codes : (text : String) → List ℕ
codes String.[] = []
codes (String.◌∷◌ first text) = code first ∷ codes text

abbrev pub is_digit : ℕ → Bool
is_digit c = leb b'0' c && leb c b'9'

-- `str::split` on one character: at least one part.
unfoldable pub split : ℕ → List ℕ → List (List ℕ)
split sep [] = [] ∷ []
split sep (c ∷ cs) =
    let rest = split sep cs in
    if c == sep then [] ∷ rest else elim rest [ [] ↦ (c ∷ []) ∷ [] | p ∷ ps ↦ (c ∷ p) ∷ ps ]

parse_digits : ℕ → List ℕ → Option ℕ
parse_digits acc [] = some acc
parse_digits acc (c ∷ cs) =
    let n = acc * 10 + (c - b'0') in
    let rest = parse_digits n cs in if is_digit c && ltb n (2 ^ 64) then rest else none

parse_unsigned : List ℕ → Option ℕ
unfolding parse_digits
parse_unsigned [] = none
parse_unsigned (c ∷ cs) = parse_digits 0 (c ∷ cs)

-- `str::parse::<u64>`: digits, behind at most one plus sign, and no overflow.
unfoldable pub parse_u64 : List ℕ → Option ℕ
unfolding parse_unsigned
parse_u64 [] = none
parse_u64 (c ∷ cs) = if c == b'+' then parse_unsigned cs else parse_unsigned (c ∷ cs)

-- `str::strip_prefix`.
unfoldable pub strip_prefix : List ℕ → List ℕ → Option (List ℕ)
strip_prefix [] s = some s
strip_prefix (p ∷ ps) [] = none
strip_prefix (p ∷ ps) (c ∷ s) = if c == p then strip_prefix ps s else none

-- What stands before the first `sep`, and what follows it: `str::split_once`, and `find` with the
-- two slices at its index.
unfoldable pub split_once : ℕ → List ℕ → Option (List ℕ × List ℕ)
split_once sep [] = none
split_once sep (c ∷ cs) =
    let rest = split_once sep cs in
    if c == sep then some ([], cs) else elim rest [ none ↦ none | some (a, b) ↦ some (c ∷ a, b) ]

-- `[&str]::join`.
unfoldable pub join : List ℕ → List (List ℕ) → List ℕ
join sep [] = []
join sep (p ∷ []) = p
join sep (p ∷ q ∷ ps) = p ++ sep ++ join sep (q ∷ ps)

-- The order of texts: `str::cmp`, which on UTF-8 is the order of the code points.
unfoldable pub codes_le : List ℕ → List ℕ → Bool
codes_le [] t = true
codes_le (a ∷ s) [] = false
codes_le (a ∷ s) (b ∷ t) =
    let rest = codes_le s t in if ltb a b then true else (if a == b then rest else false)

-- A sort by key: `sort_by` on a list of pairs.
unfoldable pub insert_sorted {ℓ} : {A : Type ℓ} → String × A → List (String × A) → List (String × A)
unfolding codes_le
insert_sorted (k, v) [] = (k, v) ∷ []
insert_sorted (k, v) ((j, w) ∷ r) =
    let rest = insert_sorted (k, v) r in
    if codes_le (codes k) (codes j) then (k, v) ∷ (j, w) ∷ r else (j, w) ∷ rest

unfoldable pub sort_by_key {ℓ} : {A : Type ℓ} → List (String × A) → List (String × A)
unfolding insert_sorted
sort_by_key [] = []
sort_by_key (e ∷ r) = insert_sorted e (sort_by_key r)

-- `char::is_whitespace`, and `trim().is_empty()`.
abbrev pub is_whitespace : ℕ → Bool
is_whitespace c =
    (leb 9 c && leb c 13)
    || (c == 32
        || (c == 0x85
            || (c == 0xA0
                || (c == 0x1680
                    || ((leb 0x2000 c && leb c 0x200A)
                        || (c == 0x2028
                            || (c == 0x2029 || (c == 0x202F || (c == 0x205F || c == 0x3000)))))))))

abbrev pub is_blank : List ℕ → Bool
is_blank [] = true
is_blank (c ∷ cs) = is_whitespace c && is_blank cs
