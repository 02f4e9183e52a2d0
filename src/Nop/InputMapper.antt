-- ===== src/Nop/InputMapper.antt =====
-- nps-nop/src/input_mapper.rs and aggregator.rs: paths into the results of upstream nodes, and the
-- results put together. Text is kept as code points, a path's part is compared with a key's; a
-- `HashMap` gives its entries in the list's order.
pub mod Depth
use nps_sdk_rust.Common.{
  ℕ, zero, suc, ◌+◌, ◌-◌, min, String, Bool, true, false, List, [], ◌∷◌, ◌++◌, Option, none, some,
  Result, ok, err, ◌>>=◌, ◌>>◌, guard, ltb, leb, ◌==◌, if◌then◌else◌, length, take, codes, split,
  is_blank, strip_prefix, lookup, str_eq,
}
use nps_sdk_rust.Core.Json
use nps_sdk_rust.Core.Json.{
  Value, Items, Fields, null, string, array, object, nil, cons, end, field, of_list,
}
use nps_sdk_rust.Ncp.Preamble.{slice_eq}
use nps_sdk_rust.Nop.Models.{max_input_mapping_depth}

pub data MappingError : Type 0 where
  path_empty : MappingError
  path_start : (path : List ℕ) → MappingError
  path_depth : (depth : ℕ) (path : List ℕ) → MappingError

abbrev pub MappingResult {ℓ} : Type ℓ → Type ℓ
MappingResult A = Result MappingError A

abbrev pub is_part : List ℕ → Bool
is_part [] = false
is_part (c ∷ cs) = true

abbrev pub parts_of : List (List ℕ) → List (List ℕ)
parts_of [] = []
parts_of (p ∷ ps) = if is_part p then p ∷ parts_of ps else parts_of ps

abbrev pub has_prefix : Option (List ℕ) → Bool
has_prefix none = false
has_prefix (some rest) = true

abbrev pub Context : Type 0 → Type 0
Context N = List (String × Value N)

module _ {N : Type 0} where
  unfoldable pub context_get : List ℕ → Context N → Option (Value N)
  context_get part [] = none
  context_get part ((k, v) ∷ m) = if slice_eq part (codes k) then some v else context_get part m

  unfoldable pub field_get : List ℕ → Fields N → Option (Value N)
  field_get part end = none
  field_get part (field k v fs) = if slice_eq part (codes k) then some v else field_get part fs

  abbrev pub fields_of : Context N → Fields N
  fields_of [] = end
  fields_of ((k, v) ∷ m) = field k v (fields_of m)

  -- The loop over the parts behind the node's.
  unfoldable pub navigate : Value N → List (List ℕ) → Option (Value N)
  unfolding field_get
  navigate current [] = some current
  navigate (object fs) (p ∷ ps) = elim (field_get p fs) [ none ↦ none | some v ↦ navigate v ps ]
  navigate _ (p ∷ ps) = none

  abbrev pub select_path : Context N → List (List ℕ) → Option (Value N)
  select_path context [] = some (object (fields_of context))
  select_path context (root ∷ []) = some (object (fields_of context))
  select_path context (root ∷ node_id ∷ parts) = elim (context_get node_id context) [
    | none ↦ none
    | some result ↦ navigate result parts
  ]

  unfoldable pub resolve : List ℕ → Context N → MappingResult (Option (Value N))
  unfolding context_get navigate
  resolve path context =
      let parts = parts_of (split b'.' path) in
      do
        guard (if is_blank path then false else true) path_empty
        guard (has_prefix (strip_prefix (codes "$.") path)) (path_start path)
        guard (leb (length parts) (max_input_mapping_depth + 1))
            (path_depth (length parts - 1) path)
        ok (select_path context parts)

  abbrev pub or_null : Option (Value N) → Value N
  or_null none = null
  or_null (some v) = v

  abbrev pub resolve_item : Context N → Value N → MappingResult (Value N)
  resolve_item context (string s) = do found ← resolve (codes s) context; ok (or_null found)
  resolve_item context v = ok v

  unfoldable pub resolve_items : Context N → Items N → MappingResult (Items N)
  resolve_items context nil = ok nil
  resolve_items context (cons v vs) = do
    w ← resolve_item context v
    rest ← resolve_items context vs
    ok (cons w rest)

  abbrev pub resolve_element : Context N → Value N → MappingResult (Value N)
  resolve_element context (array vs) = do ws ← resolve_items context vs; ok (array ws)
  resolve_element context v = resolve_item context v

  -- The loop over the mapping's entries.
  unfoldable pub build_fields :
      Context N → Fields N → List (String × Value N) → MappingResult (Fields N)
  unfolding resolve_items
  build_fields context out [] = ok out
  build_fields context out ((name, v) ∷ m) = do
    resolved ← resolve_element context v
    build_fields context (Json.insert name resolved out) m

  unfoldable pub build_params :
      Option (List (String × Value N)) → Context N → MappingResult (Value N)
  unfolding build_fields
  build_params none context = ok (object end)
  build_params (some mapping) context = do fs ← build_fields context end mapping; ok (object fs)
