-- ===== src/Core/Codec/Narrowed.antt =====
-- The entries of a vector as `f32`, and these as JSON numbers again: nps-core/src/codec.rs, the loops
-- of `extract_vector_search_vector` and `restore_vector_search_vector`.
use nps_sdk_rust.Common.{
  ◌≡◌, refl, List, [], ◌∷◌, none, some, length, arith, ◌⊎◌, All, inl, inr, Option-cases, Bool-cases,
  true,
}
use nps_sdk_rust.Core.Json.{Value, number}
use nps_sdk_rust.Core.Codec.Formats.{Serde}
use nps_sdk_rust.Core.Codec.Extract.{floats}
use nps_sdk_rust.Core.Codec.Restore.{widen_all}

module _ {N F32 F64 : Type 0} (x : Serde N F32 F64) where
  -- A finite number.
  abbrev pub IsFinite : Value N → Type 0
  IsFinite v = (n : N) × (f : F64) × (v ≡ number n) × (x.as_f64 n ≡ some f) × (x.is_finite f ≡ true)

  -- Finite numbers, and the `f32` that each is nearest to.
  pub data Narrowed : List (Value N) → List F32 → Type 0 where
    nothing : Narrowed [] []
    entry :
        {vs : List (Value N)} {v : List F32} (n : N) (f : F64)
        → x.as_f64 n ≡ some f
        → x.is_finite f ≡ true
        → Narrowed vs v
        → Narrowed (number n ∷ vs) (x.narrow f ∷ v)

  -- A `f32` that a JSON number holds.
  abbrev pub IsNumber : F32 → Type 0
  IsNumber f = (n : N) × (x.from_f64 (x.widen f) ≡ some n)

  pub data Widened : List F32 → List (Value N) → Type 0 where
    nothing_left : Widened [] []
    widened :
        {v : List F32} {vals : List (Value N)} (f : F32) (n : N)
        → x.from_f64 (x.widen f) ≡ some n
        → Widened v vals
        → Widened (f ∷ v) (number n ∷ vals)

  Narrowed-IsFinite : (vs : List (Value N)) (v : List F32) → Narrowed vs v → All IsFinite vs
  Narrowed-IsFinite [] _ nothing = tt
  Narrowed-IsFinite (_ ∷ vs) [] t = elim t [ ]
  Narrowed-IsFinite (_ ∷ vs) (_ ∷ v) (entry n f e b t) =
      ((n, f, refl, e, b), Narrowed-IsFinite vs v t)

  pub floats-cases :
      (vs : List (Value N))
      → ((v : List F32) × (floats x vs ≡ some v) × Narrowed vs v × (length v ≡ length vs))
        ⊎ ((floats x vs ≡ none) × ¬ All IsFinite vs)
  unfolding floats
  floats-cases [] = inl ([], refl, nothing, refl)
  floats-cases (number n ∷ vs) = elim (Option-cases (x.as_f64 n)) [
    | inl e ↦ inr (rw (e, floats) refl, λ a. let (m, g, same, k, _) = a.0 in cc)
    | inr (f, e) ↦ elim (Bool-cases (x.is_finite f)) [
      | inr b ↦ inr (rw (e, floats, b) refl, λ a. let (m, g, same, k, fin) = a.0 in cc)
      | inl b ↦ elim (floats-cases vs) [
        | inl (v, h, t, len) ↦
            inl (x.narrow f ∷ v, rw (e, floats, b, h) refl, entry n f e b t, omega (arith, len))
        | inr (h, never) ↦ inr (rw (e, floats, b, h) refl, λ a. never a.1)
      ]
    ]
  ]
  floats-cases (_ ∷ vs) = inr (refl, λ a. let (m, g, same, k, _) = a.0 in cc)

  pub floats-none : (vs : List (Value N)) → ¬ All IsFinite vs → floats x vs ≡ none
  floats-none vs never = elim (floats-cases vs) [
    | inl (v, _, t, _) ↦ absurd (never (Narrowed-IsFinite vs v t))
    | inr (h, _) ↦ h
  ]

  pub widen_all-cases :
      (v : List F32)
      → ((vals : List (Value N)) × (widen_all x v ≡ some vals) × Widened v vals)
        ⊎ ((widen_all x v ≡ none) × ¬ All IsNumber v)
  unfolding widen_all
  widen_all-cases [] = inl ([], refl, nothing_left)
  widen_all-cases (f ∷ v) = elim (Option-cases (x.from_f64 (x.widen f))) [
    | inl e ↦ inr (rw (e, widen_all) refl, λ a. let (n, k) = a.0 in cc)
    | inr (n, e) ↦ elim (widen_all-cases v) [
      | inl (vals, h, t) ↦ inl (number n ∷ vals, rw (e, widen_all, h) refl, widened f n e t)
      | inr (h, never) ↦ inr (rw (e, widen_all, h) refl, λ a. never a.1)
    ]
  ]
