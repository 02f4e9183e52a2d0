-- ===== src/Ncp/Preamble.antt =====
-- nps-ncp/src/preamble.rs: the eight bytes that open a native connection.
use nps_sdk_rust.Common.{
  ℕ, ◌≡◌, ◌↔◌, refl, Bool, true, false, ◌&&◌, List, [], ◌∷◌, ◌++◌, ok, err, length, take, leb, ltb,
  ◌==◌, arith, if◌then◌else◌, is_ok, drop, sym, ap, ◌∙◌, take-append-drop,
}
use nps_sdk_rust.Core.Error.{NpsResult, frame, lit, dec}

abbrev pub bytes : List ℕ
bytes = 0x4E ∷ 0x50 ∷ 0x53 ∷ 0x2F ∷ 0x31 ∷ 0x2E ∷ 0x30 ∷ 0x0A ∷ []

abbrev pub preamble_length : ℕ
preamble_length = 8

-- `==` on byte slices.
unfoldable pub slice_eq : List ℕ → List ℕ → Bool
slice_eq [] [] = true
slice_eq (a ∷ s) (b ∷ t) = a == b && slice_eq s t
slice_eq _ _ = false

unfoldable pub matches : List ℕ → Bool
unfolding slice_eq
matches buf = leb preamble_length (length buf) && slice_eq (take preamble_length buf) bytes

unfoldable pub validate : List ℕ → NpsResult (Unit {0})
unfolding matches slice_eq
validate buf =
    if ltb (length buf) preamble_length
    then err (
        frame (
          lit "short read ("
          ∷ dec (length buf)
          ∷ lit "/"
          ∷ dec preamble_length
          ∷ lit " bytes); peer is not speaking NCP"
          ∷ []))
    else if matches buf
    then ok tt
    else if leb 4 (length buf) && slice_eq (take 4 buf) (0x4E ∷ 0x50 ∷ 0x53 ∷ 0x2F ∷ [])
    then err (
        frame (
          lit
            "future-major-version NPS preamble; close with NPS-PREAMBLE-UNSUPPORTED-VERSION diagnostic"
          ∷ []))
    else err (frame (lit "preamble mismatch; peer is not speaking NPS/1.x" ∷ []))

pub slice_eq_iff : (s t : List ℕ) → (slice_eq s t ≡ true) ↔ (s ≡ t)
unfolding slice_eq
slice_eq_iff [] [] = (λ _. refl, λ _. refl)
slice_eq_iff [] (b ∷ t) = ground arith
slice_eq_iff (a ∷ s) [] = ground arith
slice_eq_iff (a ∷ s) (b ∷ t) = ground (arith, slice_eq_iff s t)

starts-matches :
    (buf : List ℕ)
    → leb 8 (length buf) ≡ true
    → slice_eq (take 8 buf) bytes ≡ true
    → (rest : List ℕ) × (buf ≡ bytes ++ rest)
starts-matches buf long same = (
  drop 8 buf,
  sym (take-append-drop 8 buf) ∙ ap (λ l. l ++ drop 8 buf) ((slice_eq_iff _ _).0 same),
)

-- A buffer is accepted exactly when it begins with the preamble.
pub validate_iff :
    (buf : List ℕ) → (is_ok (validate buf) ≡ true) ↔ ((rest : List ℕ) × (buf ≡ bytes ++ rest))
unfolding validate matches
validate_iff buf =
    (λ h. starts-matches buf (ground arith) (ground arith), λ (rest, e). rw e (ground arith))
