-- ===== src/Nop/Aggregator.antt =====
-- nps-nop/src/aggregator.rs: the results of subtasks put together. `format!("_result_{i}")` is the
-- section's `result_key`.
pub mod Laws
use nps_sdk_rust.Common.{
  ℕ, ◌+◌, min, String, Bool, List, [], ◌∷◌, Option, none, some, ltb, if◌then◌else◌, length, take,
  lookup, str_eq,
}
use nps_sdk_rust.Core.Json
use nps_sdk_rust.Core.Json.{Value, Fields, array, object, end, field, of_list}

module _ {N : Type 0} (result_key : ℕ → String) where
  abbrev pub insert_all : Fields N → Fields N → Fields N
  insert_all merged end = merged
  insert_all merged (field k v fs) = insert_all (Json.insert k v merged) fs

  unfoldable pub merge_from : ℕ → Fields N → List (Value N) → Fields N
  merge_from i merged [] = merged
  merge_from i merged (object fs ∷ rs) = merge_from (i + 1) (insert_all merged fs) rs
  merge_from i merged (r ∷ rs) = merge_from (i + 1) (Json.insert (result_key i) r merged) rs

  unfoldable pub merge : List (Value N) → Value N
  unfolding merge_from
  merge results = object (merge_from 0 end results)

  unfoldable pub build_array : List (Value N) → Value N
  build_array results = array (of_list results)

  unfoldable pub aggregate : String → List (Value N) → ℕ → Value N
  unfolding build_array merge
  aggregate strategy [] min_required = object end
  aggregate strategy (r ∷ rs) min_required =
      let results = r ∷ rs in
      if str_eq strategy "first"
      then r
      else if str_eq strategy "all"
      then build_array results
      else if str_eq strategy "fastest_k"
      then (let wanted = if ltb 0 min_required then min_required else length results in
          build_array (take (min wanted (length results)) results))
      else merge results

  unfoldable pub present : List String → List (String × Value N) → List (Value N)
  present [] all_results = []
  present (id ∷ ids) all_results = elim (lookup id all_results) [
    | none ↦ present ids all_results
    | some v ↦ v ∷ present ids all_results
  ]

  unfoldable pub aggregate_end_nodes : List String → List (String × Value N) → String → Value N
  unfolding aggregate present
  aggregate_end_nodes end_node_ids all_results strategy =
      aggregate strategy (present end_node_ids all_results) 0
