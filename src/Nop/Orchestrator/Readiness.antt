-- ===== src/Nop/Orchestrator/Readiness.antt =====
-- nps-nop/src/orchestrator.rs: the tests on dependencies and on what a failure cuts off.
use nps_sdk_rust.Common.{
  ℕ, zero, suc, ◌-◌, String, Bool, true, false, List, [], ◌∷◌, ◌++◌, Option, none, some, ltb, leb,
  if◌then◌else◌, length, contains, str_eq, lookup, select,
}
use nps_sdk_rust.Nop.Models.{DagNode, DagEdge}
use nps_sdk_rust.Nop.Dag.{upstreams}
use nps_sdk_rust.Nop.Store.{TaskState, completed, failed, skipped}

abbrev pub States : Type 0
States = List (String × TaskState)

-- `Some(TaskState::Completed) | Some(TaskState::Skipped)`
abbrev pub is_success : Option TaskState → Bool
is_success (some completed) = true
is_success (some skipped) = true
is_success _ = false

abbrev pub is_failure : Option TaskState → Bool
is_failure (some failed) = true
is_failure _ = false

abbrev pub successes : States → List String → ℕ
successes states deps = length (select (λ d. is_success (lookup d states)) deps)

abbrev pub failures : States → List String → ℕ
failures states deps = length (select (λ d. is_failure (lookup d states)) deps)

abbrev pub deps_done : ℕ → List String → States → Bool
deps_done k [] states = true
deps_done k (d ∷ ds) states =
    if leb k (successes states (d ∷ ds))
    then true
    else ltb (length (d ∷ ds) - failures states (d ∷ ds)) k

abbrev pub optimistic : ℕ → List String → States → Bool
optimistic k [] states = false
optimistic k (d ∷ ds) states = leb k (length (d ∷ ds) - failures states (d ∷ ds))

module _ {N : Type 0} where
  -- The number `k` of dependencies that must succeed.
  abbrev pub required : DagNode N → ℕ
  required node = if ltb 0 node.min_required then node.min_required else length (upstreams node)

  unfoldable pub are_deps_done : DagNode N → States → Bool
  are_deps_done node states = deps_done (required node) (upstreams node) states

  -- The end node is given by its entry of `all_nodes`.
  unfoldable pub can_end_node_still_succeed : DagNode N → States → Bool
  can_end_node_still_succeed node states = optimistic (required node) (upstreams node) states

-- The list that `adj` has for a node: the targets of its edges, in their order.
abbrev pub neighbors : String → List DagEdge → List String
neighbors cur [] = []
neighbors cur (e ∷ es) = if str_eq e.from cur then e.to ∷ neighbors cur es else neighbors cur es

-- The search's loop, with the rounds that may be made; nothing where they are too few.
unfoldable pub search_end :
    ℕ → List DagEdge → (end_node_id : String) → (visited queue : List String) → Option Bool
search_end rounds edges end_node_id visited [] = some false
search_end zero edges end_node_id visited (cur ∷ queue) = none
search_end (suc rounds) edges end_node_id visited (cur ∷ queue) =
    let seen = search_end rounds edges end_node_id visited queue in
    let unseen =
      search_end rounds edges end_node_id (cur ∷ visited) (queue ++ neighbors cur edges) in
    if str_eq cur end_node_id then some true else if contains visited cur then seen else unseen

abbrev pub or_false : Option Bool → Bool
or_false none = false
or_false (some b) = b

unfoldable pub can_reach_end_node : (end_node_id failed_node_id : String) → List DagEdge → Bool
unfolding search_end
can_reach_end_node end_node_id failed_node_id edges =
    or_false (search_end (suc (length edges)) edges end_node_id [] (failed_node_id ∷ []))
