-- ===== src/Nop/Orchestrator.antt =====
-- nps-nop/src/orchestrator.rs: the run of a task's graph. Nodes in flight are kept with the results
-- that they were launched on; which of them finishes next is the scheduler's choice. A node's updates
-- of the store are made when it finishes, since those of other nodes touch other records.
pub mod Readiness
pub mod Saga
pub mod Execution
pub mod Rounds
pub mod Termination
pub mod Reach
pub mod Accounts
pub mod Lifecycle
mod Examples
use nps_sdk_rust.Common.{
  ℕ, zero, suc, ◌+◌, String, Bool, true, false, not, ◌&&◌, ◌||◌, List, [], ◌∷◌, ◌++◌, Option, none,
  some, ltb, leb, if◌then◌else◌, length, contains, any, select, lookup, insert, sort_by_key,
}
use nps_sdk_rust.Core.Error.{Message, lit, dec}
use nps_sdk_rust.Core.Json.{Value}
use nps_sdk_rust.Nop.Models.{DagNode, DagEdge}
use nps_sdk_rust.Nop.Dag.{upstreams}
use nps_sdk_rust.Nop.InputMapper.{Context}
use nps_sdk_rust.Nop.Aggregator.{aggregate_end_nodes}
use nps_sdk_rust.Nop.Store.{
  TaskState, completed, failed, ErrorText, formatted, TaskFrame, SubtaskUpdate, Tasks,
  update_subtask,
}
use nps_sdk_rust.Nop.Node.{
  Surroundings, NodeOutcome, is_completed, is_failed, execute_node_with_retry,
}
use nps_sdk_rust.Nop.Orchestrator.Readiness.{
  States, is_failure, successes, required, are_deps_done, can_end_node_still_succeed,
  can_reach_end_node,
}
use nps_sdk_rust.Nop.Orchestrator.Saga.{
  SagaCompensationResult, runs_on_failure, runs_on_success, run_saga_compensation,
  compensation_failure_error_code,
}

pub record NopTaskResult (N : Type 0) : Type 0 where
  pub task_id : String
  pub final_state : TaskState
  pub aggregated_result : Option (Value N)
  pub error_code : Option String
  pub error_message : Option ErrorText
  pub node_results : Context N
  pub compensation : Option SagaCompensationResult

-- What the orchestrator is given: a node's surroundings, the scheduler's choice in each round, the
-- identifiers, the options, and the key of a result that is not an object.
pub record Orchestrator (N F : Type 0) : Type 0 where
  pub node : Surroundings N F
  pub next : (round : ℕ) → ℕ
  pub new_uuid : (purpose node_id : String) → String
  pub max_concurrent_nodes : ℕ
  pub default_aggregate_strategy : String
  pub result_key : ℕ → String

-- The state of the loop.
pub record Run (N : Type 0) : Type 0 where
  pub node_states : States
  pub node_results : Context N
  pub in_flight : List (DagNode N × Context N)
  pub tasks : Tasks N

abbrev pub not_found : Option TaskState → Bool
not_found none = true
not_found (some s) = false

-- The element at a place, the last one where there is none, and the others.
abbrev pub take_at {ℓ} : {A : Type ℓ} → ℕ → A → List A → A × List A
take_at zero a rest = (a, rest)
take_at (suc i) a [] = (a, [])
take_at (suc i) a (b ∷ bs) = let r = take_at i b bs in (r.0, a ∷ r.1)

abbrev pub has_outgoing : String → List DagEdge → Bool
has_outgoing id [] = false
has_outgoing id (e ∷ es) = contains (e.from ∷ []) id || has_outgoing id es

abbrev pub is_unsatisfiable : List String → States → ℕ → Bool
is_unsatisfiable [] states k = false
is_unsatisfiable (d ∷ ds) states k = ltb (successes states (d ∷ ds)) k

module _ {N : Type 0} where
  abbrev pub success :
      String → Option (Value N) → Context N → Option SagaCompensationResult → NopTaskResult N
  success task_id aggregated results compensation = record {
    task_id = task_id;
    final_state = completed;
    aggregated_result = aggregated;
    error_code = none;
    error_message = none;
    node_results = results;
    compensation = compensation;
  }

  abbrev pub failure : String → String → ErrorText → Option SagaCompensationResult → NopTaskResult N
  failure task_id code msg compensation = record {
    task_id = task_id;
    final_state = failed;
    aggregated_result = none;
    error_code = some code;
    error_message = some msg;
    node_results = [];
    compensation = compensation;
  }

  -- The map from ids to nodes.
  unfoldable pub all_nodes_of :
      List (DagNode N) → List (String × DagNode N) → List (String × DagNode N)
  all_nodes_of [] m = m
  all_nodes_of (n ∷ ns) m = all_nodes_of ns (insert n.id n m)

  -- The entries of the nodes without outgoing edges.
  unfoldable pub end_nodes : List DagEdge → List (String × DagNode N) → List (String × DagNode N)
  end_nodes edges [] = []
  end_nodes edges ((id, n) ∷ m) =
      if has_outgoing id edges then end_nodes edges m else (id, n) ∷ end_nodes edges m

  abbrev pub keys : List (String × DagNode N) → List String
  keys [] = []
  keys ((id, n) ∷ m) = id ∷ keys m

  abbrev pub flying : List (DagNode N × Context N) → List String
  flying [] = []
  flying ((n, c) ∷ fs) = n.id ∷ flying fs

  -- Nodes that are not started and whose dependencies are done.
  abbrev pub is_ready : Run N → DagNode N → Bool
  is_ready run n =
      (not_found (lookup n.id run.node_states) && not (contains (flying run.in_flight) n.id))
      && are_deps_done n run.node_states

  module _ {F : Type 0} (o : Orchestrator N F) (task : TaskFrame N) where
    abbrev pub dependency_update : DagNode N → States → SubtaskUpdate N
    dependency_update n states = record {
      result = none;
      error_code = some "NOP-SYNC-DEPENDENCY-FAILED";
      error_message = some (
          formatted (
            lit "Only "
            ∷ dec (successes states (upstreams n))
            ∷ lit "/"
            ∷ dec (required n)
            ∷ lit " required dependencies succeeded."
            ∷ []));
      attempt = 1;
    }

    abbrev pub fail_node : DagNode N → Run N → Run N
    fail_node n run = record run {
      node_states = insert n.id failed run.node_states;
      tasks =
          update_subtask task.task_id n.id (o.new_uuid "failed" n.id) failed
            (dependency_update n run.node_states) run.tasks;
    }

    -- The loop that fails the ready nodes whose `k` can never be met, and keeps the others.
    unfoldable pub fail_unsatisfiable : List (DagNode N) → Run N → List (DagNode N) × Run N
    fail_unsatisfiable [] run = ([], run)
    fail_unsatisfiable (n ∷ ns) run =
        let without = fail_unsatisfiable ns (fail_node n run) in
        let rest = fail_unsatisfiable ns run in
        if is_unsatisfiable (upstreams n) run.node_states (required n)
        then without
        else (n ∷ rest.0, rest.1)

    -- The loop that launches nodes.
    unfoldable pub launch : List (DagNode N) → Run N → Run N
    launch [] run = run
    launch (n ∷ ns) run =
        let more =
          launch ns (record run { in_flight = run.in_flight ++ ((n, run.node_results) ∷ []) }) in
        if leb o.max_concurrent_nodes (length run.in_flight) then run else more

    abbrev pub run_node : DagNode N × Context N → Tasks N → NodeOutcome N × Tasks N
    run_node (n, context) tasks =
        execute_node_with_retry o.node task n (o.new_uuid "subtask" n.id) (o.new_uuid "key" n.id)
          context tasks

    -- The nodes that are still in flight run to their ends.
    unfoldable pub drain : List (DagNode N × Context N) → Tasks N → Tasks N
    unfolding execute_node_with_retry
    drain [] tasks = tasks
    drain (p ∷ ps) tasks = drain ps (run_node p tasks).1

    abbrev pub with_result : String → NodeOutcome N → Context N → Context N
    with_result id out results =
        if is_completed out.state
        then elim out.result [ none ↦ results | some r ↦ insert id r results ]
        else results

    abbrev pub after_completion :
        DagNode N → List (DagNode N × Context N) → NodeOutcome N × Tasks N → Run N → Run N
    after_completion n rest r run = record {
      node_states = insert n.id ((r.0).state) run.node_states;
      node_results = with_result n.id (r.0) run.node_results;
      in_flight = rest;
      tasks = r.1;
    }

    -- An end node behind the failed one that cannot succeed any more.
    abbrev pub is_cut_off : String → States → String × DagNode N → Bool
    is_cut_off failed_id states (e, n) =
        can_reach_end_node e failed_id task.dag.edges && not (can_end_node_still_succeed n states)

    abbrev pub compensate_if :
        Bool → (topo_order : List String) → Run N → Option SagaCompensationResult × Tasks N
    compensate_if false topo_order run = (none, run.tasks)
    compensate_if true topo_order run =
        let r =
          run_saga_compensation o.node o.new_uuid task (all_nodes_of task.dag.nodes []) topo_order
            run.node_results run.node_states run.tasks in
        (some (r.0), r.1)

    abbrev pub or_code : Option String → String
    or_code none = "NOP-SYNC-DEPENDENCY-FAILED"
    or_code (some code) = code

    abbrev pub fail_task : (topo_order : List String) → Message → Run N → NopTaskResult N × Tasks N
    fail_task topo_order msg run =
        let c = compensate_if (runs_on_failure task.compensation_policy) topo_order run in
        (
          failure task.task_id
              (or_code (compensation_failure_error_code task.compensation_policy (c.0)))
              (formatted msg) (c.0),
          c.1,
        )
