-- ===== src/Nop/Orchestrator/Saga.antt =====
-- nps-nop/src/orchestrator.rs: the compensation of completed nodes; result.rs and the policies of
-- models.rs. `new_uuid` gives an identifier for each use.
use nps_sdk_rust.Common.{
  ℕ, ◌+◌, String, Bool, true, false, not, ◌&&◌, List, [], ◌∷◌, ◌++◌, Option, none, some, ltb, ◌==◌,
  if◌then◌else◌, length, codes, is_blank, lookup, str_eq,
}
use nps_sdk_rust.Nop.Models.{DagNode}
use nps_sdk_rust.Nop.InputMapper.{Context}
use nps_sdk_rust.Nop.Store.{TaskState, compensating, TaskFrame, Tasks, update_state}
use nps_sdk_rust.Nop.Node.{Surroundings, is_completed, execute_node_once}
use nps_sdk_rust.Nop.Orchestrator.Readiness.{States}

pub record SagaCompensationResult : Type 0 where
  pub attempted : ℕ
  pub succeeded : ℕ
  pub failed : ℕ
  pub failed_node_ids : List String

abbrev pub saga_result : ℕ → ℕ → ℕ → List String → SagaCompensationResult
saga_result a s f ids = record { attempted = a; succeeded = s; failed = f; failed_node_ids = ids }

abbrev pub runs_on_failure : String → Bool
runs_on_failure policy =
    if str_eq policy "best_effort"
    then true
    else if str_eq policy "strict"
    then true
    else if str_eq policy "on_failure"
    then true
    else str_eq policy "always"

abbrev pub runs_on_success : String → Bool
runs_on_success policy = str_eq policy "always"

abbrev pub is_strict : String → Bool
is_strict policy = str_eq policy "strict"

abbrev pub is_done : Option TaskState → Bool
is_done none = false
is_done (some s) = is_completed s

abbrev pub or_text : Option String → String
or_text none = ""
or_text (some s) = s

module _ {N : Type 0} where
  -- The completed ids of the order with their nodes.
  unfoldable pub completed_nodes :
      States → List (String × DagNode N) → List String → List (String × DagNode N)
  completed_nodes states all_nodes [] = []
  completed_nodes states all_nodes (id ∷ ids) =
      let rest = completed_nodes states all_nodes ids in
      if is_done (lookup id states)
      then elim (lookup id all_nodes) [ none ↦ rest | some n ↦ (id, n) ∷ rest ]
      else rest

  abbrev pub reversed : List (String × DagNode N) → List (String × DagNode N)
  reversed [] = []
  reversed (p ∷ ps) = reversed ps ++ (p ∷ [])

  abbrev pub has_action : DagNode N → Bool
  has_action node = elim node.compensate_action [ none ↦ false | some a ↦ not (is_blank (codes a)) ]

  unfoldable pub missing_ids : List (String × DagNode N) → List String
  missing_ids [] = []
  missing_ids ((id, n) ∷ ns) = if has_action n then missing_ids ns else id ∷ missing_ids ns

  unfoldable pub compensable : List (String × DagNode N) → List (String × DagNode N)
  compensable [] = []
  compensable ((id, n) ∷ ns) = if has_action n then (id, n) ∷ compensable ns else compensable ns

  abbrev pub compensation_node : DagNode N → DagNode N
  compensation_node node = record node {
    action = or_text node.compensate_action;
    input_mapping = node.compensate_params_mapping;
  }

  module _ {F : Type 0} (x : Surroundings N F)
      (new_uuid : (purpose node_id : String) → String) where
    -- The loop over the nodes: how many succeeded, and the ids of the others.
    unfoldable pub compensate :
        TaskFrame N → Context N → List (String × DagNode N) → ℕ × List String
    unfolding execute_node_once
    compensate task node_results [] = (0, [])
    compensate task node_results ((id, n) ∷ ns) =
        let o =
          execute_node_once x task (compensation_node n) (new_uuid "compensation" id)
            (new_uuid "compensation key" id) node_results 1 in
        let rest = compensate task node_results ns in
        if is_completed o.state then (rest.0 + 1, rest.1) else (rest.0, id ∷ rest.1)

    abbrev pub compensated_result : ℕ → ℕ × List String → SagaCompensationResult
    compensated_result attempted r = saga_result attempted (r.0) (length (r.1)) (r.1)

    abbrev pub run_compensation :
        TaskFrame N
        → Context N
        → List (String × DagNode N)
        → Tasks N
        → SagaCompensationResult × Tasks N
    run_compensation task node_results [] tasks = (saga_result 0 0 0 [], tasks)
    run_compensation task node_results (n ∷ ns) tasks = (
      compensated_result (length (n ∷ ns)) (compensate task node_results (n ∷ ns)),
      update_state task.task_id compensating tasks,
    )

    unfoldable pub run_saga_compensation :
        TaskFrame N
        → List (String × DagNode N)
        → (topo_order : List String) → Context N
        → States
        → Tasks N
        → SagaCompensationResult × Tasks N
    unfolding completed_nodes missing_ids compensable compensate
    run_saga_compensation task all_nodes topo_order node_results node_states tasks =
        let done = reversed (completed_nodes node_states all_nodes topo_order) in
        let missing = missing_ids done in
        if is_strict task.compensation_policy && ltb 0 (length missing)
        then (saga_result 0 0 (length missing) missing, tasks)
        else run_compensation task node_results (compensable done) tasks

-- Its policy is the task's.
abbrev pub failure_code_of : SagaCompensationResult → Option String
failure_code_of comp =
    if comp.failed == 0
    then none
    else if comp.attempted == 0
    then some "NOP-COMPENSATION-NOT-SUPPORTED"
    else some "NOP-COMPENSATION-FAILED"

unfoldable pub compensation_failure_error_code :
    (policy : String) → Option SagaCompensationResult → Option String
compensation_failure_error_code policy none = none
compensation_failure_error_code policy (some comp) =
    if is_strict policy then failure_code_of comp else none
