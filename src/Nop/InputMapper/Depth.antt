-- ===== src/Nop/InputMapper/Depth.antt =====
-- nps-nop/src/input_mapper.rs: how deep `resolve` goes into the results of upstream nodes.
use nps_sdk_rust.Common.{
  ℕ, suc, ◌+◌, ◌≤◌, ◌≡◌, refl, sym, ◌∙◌, true, false, List, [], ◌∷◌, some, ok, guard-use, leb,
  length, codes, split, is_blank, strip_prefix, if◌then◌else◌, arith, Option-cases, inl, inr,
  some-injective, ok-injective,
}
use nps_sdk_rust.Core.Json.{Value, Fields, object}
use nps_sdk_rust.Nop.Models.{max_input_mapping_depth}
use nps_sdk_rust.Nop.InputMapper.{
  Context, path_empty, path_start, parts_of, has_prefix, context_get, field_get, fields_of,
  navigate, select_path, resolve,
}

module _ {N : Type 0} where
  -- The second value is found so many fields below the first.
  pub data Below : ℕ → Value N → Value N → Type 0 where
    here : (v : Value N) → Below 0 v v
    into :
        (n : ℕ) (p : List ℕ) (fs : Fields N) (w v : Value N)
        → field_get p fs ≡ some w
        → Below n w v
        → Below (suc n) (object fs) v

  context_get-fields_of :
      (part : List ℕ) (context : Context N)
      → context_get part context ≡ field_get part (fields_of context)
  unfolding context_get field_get
  context_get-fields_of part [] = refl
  context_get-fields_of part ((k, v) ∷ m) = rw (context_get-fields_of part m) refl

  navigate-field :
      (p : List ℕ) (ps : List (List ℕ)) (fs : Fields N) (w : Value N)
      → field_get p fs ≡ some w
      → navigate (object fs) (p ∷ ps) ≡ navigate w ps
  unfolding navigate
  navigate-field p ps fs w e = rw (e, navigate) refl

  navigate-Below :
      (ps : List (List ℕ)) (u v : Value N) → navigate u ps ≡ some v → Below (length ps) u v
  unfolding navigate
  navigate-Below [] u v h = rw (sym (some-injective h)) (here u)
  navigate-Below (p ∷ ps) (object fs) v h = elim (Option-cases (field_get p fs)) [
    | inl e ↦ cc
    | inr (w, e) ↦
        into (length ps) p fs w v e (navigate-Below ps w v (sym (navigate-field p ps fs w e) ∙ h))
  ]
  navigate-Below (p ∷ ps) _ v h = cc

  -- The second value is found at most so many fields below the first.
  abbrev pub Within : ℕ → Value N → Value N → Type 0
  Within m u v = (n : ℕ) × (Below n u v × n ≤ m)

  select_path-node :
      (context : Context N) (root id : List ℕ) (parts : List (List ℕ)) (w : Value N)
      → context_get id context ≡ some w
      → select_path context (root ∷ id ∷ parts) ≡ navigate w parts
  select_path-node context root id parts w e = rw (e, select_path) refl

  select_path-Within :
      (context : Context N) (parts : List (List ℕ)) (v : Value N)
      → length parts ≤ max_input_mapping_depth + 1
      → select_path context parts ≡ some v
      → Within max_input_mapping_depth (object (fields_of context)) v
  select_path-Within context [] v l h = rw (sym (some-injective h)) (0, (here _, omega arith))
  select_path-Within context (root ∷ []) v l h =
      rw (sym (some-injective h)) (0, (here _, omega arith))
  select_path-Within context (root ∷ id ∷ parts) v l h =
      elim (Option-cases (context_get id context)) [
        | inl e ↦ cc
        | inr (w, e) ↦ (
          suc (length parts),
          (
            into (length parts) id (fields_of context) w v
                (sym (context_get-fields_of id context) ∙ e)
                (navigate-Below parts w v (sym (select_path-node context root id parts w e) ∙ h)),
            omega arith,
          ),
        )
      ]

  -- A value that a path resolves to lies at most `MAX_INPUT_MAPPING_DEPTH` fields below the object
  -- of all results.
  pub resolve-Within :
      (path : List ℕ) (context : Context N) (v : Value N)
      → resolve path context ≡ ok (some v)
      → Within max_input_mapping_depth (object (fields_of context)) v
  unfolding resolve
  resolve-Within path context v h =
      guard-use (if is_blank path then false else true) path_empty _ h λ _ h.
        guard-use (has_prefix (strip_prefix (codes "$.") path)) (path_start path) _ h λ _ h.
          guard-use (leb (length (parts_of (split b'.' path))) (max_input_mapping_depth + 1)) _ _ h
            λ l h.
              select_path-Within context (parts_of (split b'.' path)) v (ground arith)
                (ok-injective h)
