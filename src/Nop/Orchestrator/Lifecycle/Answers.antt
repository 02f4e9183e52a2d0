-- ===== src/Nop/Orchestrator/Lifecycle/Answers.antt =====
-- nps-nop/src/orchestrator.rs: `execute` always answers.
use nps_sdk_rust.Common.{
  ℕ, ◌≡◌, refl, String, List, Option, none, some, Result, ok, err, leb, if_both,
}
use nps_sdk_rust.Core.Error.{Message}
use nps_sdk_rust.Nop.Models.{max_delegate_chain_depth}
use nps_sdk_rust.Nop.Dag.{DagFailure, failure, panicked, validate_dag}
use nps_sdk_rust.Nop.Dag.Laws.{validate_dag-ne-panicked}
use nps_sdk_rust.Nop.CallbackUrl.{IpAddr, UrlError}
use nps_sdk_rust.Nop.Store.{TaskFrame, NopTaskRecord, Tasks, running, update_state, preflight}
use nps_sdk_rust.Nop.Orchestrator
use nps_sdk_rust.Nop.Orchestrator.{NopTaskResult}
use nps_sdk_rust.Nop.Orchestrator.Termination.{run_dag-some}
use nps_sdk_rust.Nop.Orchestrator.Lifecycle.{
  PreflightResult, run_preflight, finalise, run_to_end, after_preflight, run_lifecycle, timed,
  admit, check_graph, url_error, after_url, execute,
}

-- An answer that is there.
pub data Answered {A : Type 0} : Option A → Type 0 where
  answered : (a : A) → Answered (some a)

Answered-some : {A : Type 0} (o : Option A) → (a : A) × o ≡ some a → Answered o
Answered-some o (a, e) = rw (e) (answered a)

module _ {N F : Type 0} (o : Orchestrator.Orchestrator N F)
    (probe : List (String × String) → List PreflightResult) (parse_ip : List ℕ → Option IpAddr)
    (time_up : Option (Tasks N)) (task : TaskFrame N) where
  finalise-Answered :
      (r : Option (NopTaskResult N × Tasks N))
      → Answered r
      → Answered (finalise o probe parse_ip time_up task r)
  finalise-Answered r (answered a) = answered _

  run_to_end-Answered :
      (order : List String) (tasks : Tasks N)
      → validate_dag task.dag ≡ ok order
      → Answered (run_to_end o probe parse_ip time_up task order tasks)
  unfolding run_to_end
  run_to_end-Answered order tasks v =
      finalise-Answered _
        (Answered-some _ (run_dag-some o task order (update_state task.task_id running tasks) v))

  after_preflight-Answered :
      (order : List String) (tasks : Tasks N) (fail : Option Message)
      → validate_dag task.dag ≡ ok order
      → Answered (after_preflight o probe parse_ip time_up task order tasks fail)
  after_preflight-Answered order tasks none v = run_to_end-Answered order tasks v
  after_preflight-Answered order tasks (some fail) v = answered _

  run_lifecycle-Answered :
      (order : List String) (tasks : Tasks N)
      → validate_dag task.dag ≡ ok order
      → Answered (run_lifecycle o probe parse_ip time_up task order tasks)
  unfolding run_lifecycle
  run_lifecycle-Answered order tasks v =
      if_both Answered task.preflight
        (after_preflight o probe parse_ip time_up task order
          (update_state task.task_id preflight tasks) (run_preflight o probe parse_ip time_up task))
        (run_to_end o probe parse_ip time_up task order tasks)
        (after_preflight-Answered order _ _ v) (run_to_end-Answered order tasks v)

  timed-Answered :
      (t : Option (Tasks N)) (r : Option (NopTaskResult N × Tasks N))
      → Answered r
      → Answered (timed o probe parse_ip time_up task t r)
  timed-Answered none r h = h
  timed-Answered (some tasks) r h = answered _

  admit-Answered :
      (order : List String) (tasks : Tasks N) (old : Option (NopTaskRecord N))
      → validate_dag task.dag ≡ ok order
      → Answered (admit o probe parse_ip time_up task order tasks old)
  admit-Answered order tasks (some old) v = answered _
  admit-Answered order tasks none v = timed-Answered time_up _ (run_lifecycle-Answered order _ v)

  check_graph-Answered :
      (tasks : Tasks N) (r : Result DagFailure (List String))
      → validate_dag task.dag ≡ r
      → Answered (check_graph o probe parse_ip time_up task tasks r)
  check_graph-Answered tasks (ok order) v = admit-Answered order tasks _ v
  check_graph-Answered tasks (err (failure code msg)) v = answered _
  check_graph-Answered tasks (err panicked) v = elim (validate_dag-ne-panicked task.dag v) [ ]

  after_url-Answered :
      (tasks : Tasks N) (e : Option UrlError)
      → Answered (after_url o probe parse_ip time_up task tasks e)
  after_url-Answered tasks (some e) = answered _
  after_url-Answered tasks none = check_graph-Answered tasks (validate_dag task.dag) refl

  -- The orchestrator answers every task, whatever the graph, the worker, the order in which nodes
  -- finish, the preflight and the time-out are: no index or unwrap of the validation panics, and the
  -- run of an accepted graph ends within the model's rounds.
  pub execute-Answered : (tasks : Tasks N) → Answered (execute o probe parse_ip time_up task tasks)
  unfolding execute
  execute-Answered tasks =
      if_both Answered (leb max_delegate_chain_depth task.delegate_depth) (some _)
        (after_url o probe parse_ip time_up task tasks (url_error o probe parse_ip time_up task))
        (answered _) (after_url-Answered tasks (url_error o probe parse_ip time_up task))
