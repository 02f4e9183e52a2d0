-- ===== src/Nop/Orchestrator/Lifecycle.antt =====
-- nps-nop/src/orchestrator.rs: `execute`, the whole life of a task. The callback is posted to a
-- server and changes nothing here. The section's parameters are the answers to the preflight in the
-- order in which they arrive, the host parser of the callback guard, and, where the task's time is up
-- before its run has ended, the store as it stands then.
pub mod Answers
use nps_sdk_rust.Common.{
  ℕ, ◌+◌, String, Bool, true, false, not, List, [], ◌∷◌, Option, none, some, Result, ok, err, leb,
  min, if◌then◌else◌, contains, codes, lookup,
}
use nps_sdk_rust.Core.Error.{Message, lit, dec}
use nps_sdk_rust.Nop.Models.{DagNode, max_timeout_ms, max_delegate_chain_depth}
use nps_sdk_rust.Nop.InputMapper.{is_part}
use nps_sdk_rust.Nop.Dag.{
  DagCode, task_dag_invalid, task_dag_cycle, task_dag_too_large, condition_eval_error, DagFailure,
  failure, panicked, validate_dag,
}
use nps_sdk_rust.Nop.CallbackUrl.{IpAddr, UrlError, validate_callback_url}
use nps_sdk_rust.Nop.Store.{
  TaskState, pending, preflight, running, failed, cancelled, ErrorText, formatted, of_url,
  TaskFrame, NopTaskRecord, Tasks, save, get_task, update_state,
}
use nps_sdk_rust.Nop.Orchestrator
use nps_sdk_rust.Nop.Orchestrator.{NopTaskResult}
use nps_sdk_rust.Nop.Orchestrator.Execution.{run_dag}

pub record PreflightResult : Type 0 where
  pub agent_nid : String
  pub available : Bool
  pub available_cgn : Option ℕ
  pub estimated_queue_ms : Option ℕ
  pub capabilities : Option (List String)
  pub unavailable_reason : Option String

abbrev pub reason_of : Option String → String
reason_of none = "no reason given"
reason_of (some r) = r

-- The loop over the answers: the first that is unavailable.
unfoldable pub first_unavailable : List PreflightResult → Option Message
first_unavailable [] = none
first_unavailable (res ∷ rest) =
    if not res.available
    then some (
        lit "Agent '"
        ∷ lit res.agent_nid
        ∷ lit "' is unavailable: "
        ∷ lit (reason_of res.unavailable_reason)
        ∷ [])
    else first_unavailable rest

-- One probe for each agent, with the action of its first node.
unfoldable pub unique_agents :
    {N : Type 0} → (seen : List String) → List (DagNode N) → List (String × String)
unique_agents seen [] = []
unique_agents seen (n ∷ ns) =
    if contains seen n.agent
    then unique_agents seen ns
    else (n.agent, n.action) ∷ unique_agents (n.agent ∷ seen) ns

abbrev pub code_text : DagCode → String
code_text task_dag_invalid = "NOP-TASK-DAG-INVALID"
code_text task_dag_cycle = "NOP-TASK-DAG-CYCLE"
code_text task_dag_too_large = "NOP-TASK-DAG-TOO-LARGE"
code_text condition_eval_error = "NOP-CONDITION-EVAL-ERROR"

module _ {N F : Type 0} (o : Orchestrator.Orchestrator N F)
    (probe : List (String × String) → List PreflightResult) (parse_ip : List ℕ → Option IpAddr)
    (time_up : Option (Tasks N)) (task : TaskFrame N) where
  unfoldable pub run_preflight : Option Message
  unfolding first_unavailable unique_agents
  run_preflight = first_unavailable (probe (unique_agents [] task.dag.nodes))

  abbrev pub refuse : String → ErrorText → NopTaskResult N
  refuse code msg = Orchestrator.failure task.task_id code msg none

  -- The final state is written; nothing where the run does not end.
  abbrev pub finalise : Option (NopTaskResult N × Tasks N) → Option (NopTaskResult N × Tasks N)
  finalise none = none
  finalise (some r) = some (r.0, update_state task.task_id (r.0).final_state (r.1))

  unfoldable pub run_to_end :
      (topo_order : List String) → Tasks N → Option (NopTaskResult N × Tasks N)
  unfolding run_dag
  run_to_end topo_order tasks =
      finalise (run_dag o task topo_order (update_state task.task_id running tasks))

  abbrev pub after_preflight :
      (topo_order : List String) → Tasks N → Option Message → Option (NopTaskResult N × Tasks N)
  after_preflight topo_order tasks none = run_to_end topo_order tasks
  after_preflight topo_order tasks (some fail) =
      some (
        refuse "NOP-RESOURCE-INSUFFICIENT" (formatted fail),
        update_state task.task_id failed tasks,
      )

  unfoldable pub run_lifecycle :
      (topo_order : List String) → Tasks N → Option (NopTaskResult N × Tasks N)
  unfolding run_to_end run_preflight
  run_lifecycle topo_order tasks =
      if task.preflight
      then after_preflight topo_order (update_state task.task_id preflight tasks) run_preflight
      else run_to_end topo_order tasks

  -- What the time-out makes of a run.
  abbrev pub timed :
      Option (Tasks N) → Option (NopTaskResult N × Tasks N) → Option (NopTaskResult N × Tasks N)
  timed none r = r
  timed (some tasks) r = some (
    refuse "NOP-TASK-TIMEOUT" (
        formatted (
          lit "Task exceeded timeout of "
          ∷ dec (min task.timeout_ms max_timeout_ms)
          ∷ lit "ms."
          ∷ [])),
    update_state task.task_id failed tasks,
  )

  abbrev pub initial_record : (now_ms : ℕ) → NopTaskRecord N
  initial_record now_ms = record {
    task_id = task.task_id;
    frame = task;
    state = pending;
    started_at_ms = now_ms;
    completed_at_ms = none;
    subtasks = [];
  }

  -- `let _ = store.save(record)`: an error is dropped.
  abbrev pub saved : Tasks N → Result Message (Tasks N) → Tasks N
  saved tasks (ok tasks') = tasks'
  saved tasks (err e) = tasks

  abbrev pub admit :
      (topo_order : List String)
      → Tasks N
      → Option (NopTaskRecord N)
      → Option (NopTaskResult N × Tasks N)
  admit topo_order tasks (some old) = some (
    refuse "NOP-TASK-ALREADY-COMPLETED"
        (formatted (lit "Task '" ∷ lit task.task_id ∷ lit "' already exists." ∷ [])),
    tasks,
  )
  admit topo_order tasks none =
      timed time_up
        (run_lifecycle topo_order (saved tasks (save (initial_record o.node.now_ms) tasks)))

  abbrev pub check_graph :
      Tasks N → Result DagFailure (List String) → Option (NopTaskResult N × Tasks N)
  check_graph tasks (ok topo_order) = admit topo_order tasks (get_task task.task_id tasks)
  check_graph tasks (err (failure code msg)) = some (refuse (code_text code) (formatted msg), tasks)
  check_graph tasks (err panicked) = none

  abbrev pub url_error : Option UrlError
  url_error = elim task.callback_url [
    | none ↦ none
    | some url ↦ if is_part (codes url) then validate_callback_url parse_ip (codes url) else none
  ]

  abbrev pub after_url : Tasks N → Option UrlError → Option (NopTaskResult N × Tasks N)
  after_url tasks (some e) = some (refuse "NOP-TASK-DAG-INVALID" (of_url e), tasks)
  after_url tasks none = check_graph tasks (validate_dag task.dag)

  unfoldable pub execute : Tasks N → Option (NopTaskResult N × Tasks N)
  unfolding run_lifecycle validate_callback_url save validate_dag
  execute tasks =
      if leb max_delegate_chain_depth task.delegate_depth
      then some (
        refuse "NOP-DELEGATE-CHAIN-TOO-DEEP" (
            formatted (
              lit "Delegation chain depth "
              ∷ dec task.delegate_depth
              ∷ lit " exceeds the maximum of "
              ∷ dec max_delegate_chain_depth
              ∷ lit "."
              ∷ [])),
        tasks,
      )
      else after_url tasks url_error

  unfoldable pub cancel : String → Tasks N → Tasks N
  cancel task_id tasks = update_state task_id cancelled tasks
