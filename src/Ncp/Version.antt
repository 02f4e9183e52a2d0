-- ===== src/Ncp/Version.antt =====
-- nps-ncp/src/handshake_profile.rs: protocol versions, `major.minor` in 64-bit numbers.
use nps_sdk_rust.Common.{
  ℕ, ◌≡◌, String, Bool, true, false, ◌&&◌, ◌||◌, List, [], ◌∷◌, Option, none, some, ltb, leb, ◌==◌,
  if◌then◌else◌, codes, split, parse_u64, arith,
}

abbrev pub Version : Type 0
Version = ℕ × ℕ

version_of_parts : List (List ℕ) → Option Version
version_of_parts (major ∷ minor ∷ []) = elim (parse_u64 major) [
  | none ↦ none
  | some a ↦ elim (parse_u64 minor) [ none ↦ none | some b ↦ some (a, b) ]
]
version_of_parts _ = none

unfoldable pub parse_version : String → Option Version
unfolding version_of_parts
parse_version value = version_of_parts (split b'.' (codes value))

-- The order of tuples, and `Ord::max` and `Ord::min` under it.
unfoldable pub version_le : Version → Version → Bool
version_le (a, b) (c, d) = ltb a c || (a == c && leb b d)

unfoldable pub version_max : Version → Version → Version
unfolding version_le
version_max v w = if version_le v w then w else v

unfoldable pub version_min : Version → Version → Version
unfolding version_le
version_min v w = if version_le v w then v else w

pub version_le_refl : (v : Version) → version_le v v ≡ true
unfolding version_le
version_le_refl (a, b) = ground arith

pub version_le_trans :
    (u v w : Version) → version_le u v ≡ true → version_le v w ≡ true → version_le u w ≡ true
unfolding version_le
version_le_trans (a, b) (c, d) (e, f) h k = ground arith

pub version_le_total : (v w : Version) → version_le v w ≡ false → version_le w v ≡ true
unfolding version_le
version_le_total (a, b) (c, d) h = ground arith

-- The overlap of two ranges ends below both ends, and begins above both beginnings.
pub version_min_le :
    (v w : Version)
    → (version_le (version_min v w) v ≡ true) × (version_le (version_min v w) w ≡ true)
unfolding version_min
version_min_le v w = ground (arith, version_le_refl v, version_le_refl w, version_le_total v w)

pub le-version_max :
    (v w : Version)
    → (version_le v (version_max v w) ≡ true) × (version_le w (version_max v w) ≡ true)
unfolding version_max
le-version_max v w = ground (arith, version_le_refl v, version_le_refl w, version_le_total v w)

pub le-version_min :
    (u v w : Version)
    → version_le u v ≡ true
    → version_le u w ≡ true
    → version_le u (version_min v w) ≡ true
unfolding version_min
le-version_min u v w h k = ground arith

pub version_max-le :
    (u v w : Version)
    → version_le v u ≡ true
    → version_le w u ≡ true
    → version_le (version_max v w) u ≡ true
unfolding version_max
version_max-le u v w h k = ground arith
