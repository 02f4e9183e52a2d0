-- ===== src/Nop/Orchestrator/Examples.antt =====
-- Runs of a node and of a chain of three nodes whose first fails.
use nps_sdk_rust.Common.{
  Bool, true, ◌↔◌, ◌&&◌, not, ◌==◌, arith, List, [], ◌∷◌, ℕ, ◌≡◌, ◌↔◌, refl, String, true, false,
  [], ◌∷◌, Option, none, some, ok, lookup, codes, strip_prefix, split_once, ◌+◌, ◌*◌, arith, insert,
  if◌then◌else◌, str_eq,
}
use nps_sdk_rust.Core.Json.{Value, number}
use nps_sdk_rust.Nop.Models.{DagNode, TaskDag}
use nps_sdk_rust.Nop.Dag.Examples.{node, edge}
use nps_sdk_rust.Nop.Examples.{naturals, ascii}
use nps_sdk_rust.Nop.Store.{TaskState, pending, completed, TaskFrame, Tasks}
use nps_sdk_rust.Nop.Node.{
  AlignStreamFrame, StreamError, DelegateFrame, Reply, streamed, Surroundings,
  execute_node_with_retry,
}
use nps_sdk_rust.Nop.InputMapper.{build_params}
use nps_sdk_rust.Nop.Orchestrator.Readiness.{
  are_deps_done, can_reach_end_node, can_end_node_still_succeed,
}
use nps_sdk_rust.Nop.Orchestrator.{Orchestrator, NopTaskResult}
use nps_sdk_rust.Nop.Orchestrator.Execution.{run_dag}
use nps_sdk_rust.Nop.Orchestrator.Termination.{run_dag-some}
use nps_sdk_rust.Nop.Orchestrator.Saga.{run_saga_compensation}
use nps_sdk_rust.Nop.CallbackUrl.{IpAddr, v4, v6, is_private_ip, validate_callback_url}
use nps_sdk_rust.Nop.CallbackUrl.Laws.{is_private_ip-mapped}
use nps_sdk_rust.Nop.Orchestrator.Lifecycle.{execute}
use nps_sdk_rust.Nop.Orchestrator.Lifecycle.Answers.{Answered, execute-Answered}
use nps_sdk_rust.Ncp.Preamble.{slice_eq}
use nps_sdk_rust.Nop.Orchestrator.Accounts.{Accounted, run_saga_compensation-Accounted}
use nps_sdk_rust.Nop.Orchestrator.Reach.{Reach, can_reach_end_node_iff}
use nps_sdk_rust.Nop.Node.Laws.{
  IsRecorded, Last, execute_node_with_retry-IsRecorded, execute_node_with_retry-Last,
}
use nps_sdk_rust.Nop.Store.Laws.{HasTask}
use nps_sdk_rust.Nop.Dag.{validate_dag}

abbrev final : String → Option (Value ℕ) → Option StreamError → AlignStreamFrame ℕ
final sender data_value e = record {
  stream_id = "";
  task_id = "t";
  subtask_id = "";
  seq = 1;
  payload_ref = none;
  frame_data = data_value;
  window_size = none;
  is_final = true;
  sender_nid = sender;
  error = e;
  ack_seq = none;
  nak_seq = none;
}

abbrev down : StreamError
down = record { code = "DOWN"; message = "down"; retryable = true }

-- A worker that fails the node `a`, and gives 7 for the others.
abbrev worker : ℕ → DelegateFrame ℕ → Reply ℕ
worker attempt frame =
    if str_eq frame.node_id "a"
    then streamed (final "urn:nps:agent:w" none (some down) ∷ [])
    else streamed (final "urn:nps:agent:w" (some (number 7)) none ∷ [])

abbrev surroundings : Surroundings ℕ ℕ
surroundings = record {
  numbers = naturals;
  classes = ascii;
  delegate = worker;
  now_ms = 1000;
  print_ms = λ n. "later";
  validate_sender_nid = true;
}

abbrev orchestrator : Orchestrator ℕ ℕ
orchestrator = record {
  node = surroundings;
  next = λ n. 0;
  new_uuid = λ purpose id. purpose;
  max_concurrent_nodes = 4;
  default_aggregate_strategy = "merge";
  result_key = λ n. "_result";
}

abbrev after_node : String → String → DagNode ℕ
after_node up id = record (node id) { input_from = some (up ∷ []) }

abbrev chain_of_three : TaskDag ℕ
chain_of_three = record {
  nodes = node "a" ∷ after_node "a" "b" ∷ after_node "b" "c" ∷ [];
  edges = edge "a" "b" ∷ edge "b" "c" ∷ [];
}

abbrev task : TaskFrame ℕ
task = record {
  task_id = "t";
  dag = chain_of_three;
  timeout_ms = 1000;
  max_retries = 1;
  priority = "normal";
  callback_url = none;
  callback_secret = none;
  preflight = false;
  context = none;
  request_id = none;
  delegate_depth = 0;
  compensation_policy = "best_effort";
}

abbrev stored : Tasks ℕ
stored =
    (
      "t",
      record {
        task_id = "t";
        frame = task;
        state = pending;
        started_at_ms = 0;
        completed_at_ms = none;
        subtasks = [];
      },
    )
    ∷ []

abbrev state_of : Option (NopTaskResult ℕ × Tasks ℕ) → Option TaskState
state_of none = none
state_of (some r) = some (r.0).final_state

-- The first node fails and the last never runs, but the task is reported as completed.
failed-chain-completed :
    state_of (run_dag orchestrator task ("a" ∷ "b" ∷ "c" ∷ []) stored) ≡ some completed
unfolding run_dag lookup insert are_deps_done build_params can_reach_end_node
    can_end_node_still_succeed
failed-chain-completed = refl

chain-accepted : validate_dag chain_of_three ≡ ok ("a" ∷ "b" ∷ "c" ∷ [])
unfolding validate_dag lookup insert
chain-accepted = refl

stored-HasTask : HasTask "t" stored
unfolding lookup
stored-HasTask = (_, refl)

run_dag-some_example :
    (r : NopTaskResult ℕ × Tasks ℕ) × run_dag orchestrator task ("a" ∷ "b" ∷ "c" ∷ []) stored
      ≡ some r
run_dag-some_example = run_dag-some orchestrator task ("a" ∷ "b" ∷ "c" ∷ []) stored chain-accepted

execute_node_with_retry-IsRecorded_example :
    IsRecorded "t" "a"
      (execute_node_with_retry surroundings task (node "a") "subtask" "key" [] stored)
execute_node_with_retry-IsRecorded_example =
    execute_node_with_retry-IsRecorded surroundings task (node "a") "subtask" "key" [] stored
      stored-HasTask

execute_node_with_retry-Last_example :
    Last surroundings task
      (node "a")
      "subtask"
      "key"
      []
      1
      ((execute_node_with_retry surroundings task (node "a") "subtask" "key" [] stored).0)
execute_node_with_retry-Last_example =
    execute_node_with_retry-Last surroundings task (node "a") "subtask" "key" [] stored refl

-- The node has a compensation, which the worker refuses.
abbrev undone : DagNode ℕ
undone = record (node "a") { compensate_action = some "nwp://worker/undo" }

run_saga_compensation-Accounted_example : Accounted (("a", completed) ∷ []) task stored (
    run_saga_compensation surroundings
      (λ purpose id. purpose)
      task
      (("a", undone) ∷ [])
      ("a" ∷ "b" ∷ "c" ∷ [])
      []
      (("a", completed) ∷ [])
      stored)
run_saga_compensation-Accounted_example =
    run_saga_compensation-Accounted surroundings (λ purpose id. purpose) task (("a", undone) ∷ [])
      ("a" ∷ "b" ∷ "c" ∷ []) [] (("a", completed) ∷ []) stored

can_reach_end_node_iff_example :
    (can_reach_end_node "c" "a" chain_of_three.edges ≡ true) ↔ Reach chain_of_three.edges "a" "c"
can_reach_end_node_iff_example = can_reach_end_node_iff chain_of_three.edges "c" "a"

-- A parser of hosts that knows no address.
abbrev public_host : List ℕ → Option IpAddr
public_host host = none

execute-Answered_example : Answered (execute orchestrator (λ agents. []) public_host none task [])
execute-Answered_example = execute-Answered orchestrator (λ agents. []) public_host none task []

url-accepted : validate_callback_url public_host (codes "HTTPS://user@example.org:8443/cb") ≡ none
unfolding validate_callback_url strip_prefix split_once slice_eq
url-accepted = refl

plain : ℕ → Bool
plain c =
    not (c == b'/')
    && (not (c == b'?')
        && (not (c == b'#')
            && (not (c == b'@') && (not (c == b':') && (not (c == b'[') && not (c == b']'))))))

all_plain : List ℕ → Bool
unfolding plain
all_plain [] = true
all_plain (c ∷ cs) = plain c && all_plain cs

is_private_ip-mapped_example :
    is_private_ip (v6 0 0 0 0 0 0xffff (192 * 256 + 168) (1 * 256 + 7))
    ≡ is_private_ip (v4 192 168 1 7)
is_private_ip-mapped_example = is_private_ip-mapped 192 168 1 7 (omega arith) (omega arith)
