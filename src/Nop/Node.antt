-- ===== src/Nop/Node.antt =====
-- nps-nop/src/orchestrator.rs: the run of one node. A worker's stream is the list of the frames that
-- arrive; the section's parameters are the worker, with the time-out as one of its answers, the
-- clock's reading and the printing of a deadline, and the floats of conditions. A sleep between two
-- attempts changes nothing. Sequence numbers stay below the greatest of 64 bits.
pub mod Laws
use nps_sdk_rust.Common.{
  ℕ, zero, suc, ◌+◌, min, String, Bool, true, false, not, ◌&&◌, List, [], ◌∷◌, Option, none, some,
  ok, err, ltb, leb, ◌==◌, if◌then◌else◌, contains, str_eq, codes,
}
use nps_sdk_rust.Core.Error.{lit, dec}
use nps_sdk_rust.Core.Json.{Value, object, end}
use nps_sdk_rust.Nop.Models.{RetryPolicy, DagNode, max_timeout_ms}
use nps_sdk_rust.Nop.InputMapper.{Context, build_params, is_part}
use nps_sdk_rust.Nop.Condition.Tokens.{CharClass, Parsed}
use nps_sdk_rust.Nop.Condition.{Numbers, evaluate}
use nps_sdk_rust.Nop.Store.{
  TaskState, running, completed, failed, skipped, ErrorText, formatted, of_mapping, of_condition,
  given, TaskContext, TaskFrame, SubtaskUpdate, Tasks, default_update, update_subtask,
}

pub record StreamError : Type 0 where
  pub code : String
  pub message : String
  pub retryable : Bool

pub record AlignStreamFrame (N : Type 0) : Type 0 where
  pub stream_id : String
  pub task_id : String
  pub subtask_id : String
  pub seq : ℕ
  pub payload_ref : Option String
  pub frame_data : Option (Value N)
  pub window_size : Option ℕ
  pub is_final : Bool
  pub sender_nid : String
  pub error : Option StreamError
  pub ack_seq : Option ℕ
  pub nak_seq : Option ℕ

pub record DelegateFrame (N : Type 0) : Type 0 where
  pub parent_task_id : String
  pub subtask_id : String
  pub node_id : String
  pub target_agent_nid : String
  pub action : String
  pub params : Option (Value N)
  pub delegated_scope : Value N
  pub deadline_at : String
  pub idempotency_key : Option String
  pub priority : Option String
  pub context : Option (TaskContext N)
  pub delegate_depth : ℕ
  pub target_cluster_anchor : Option String

pub record NodeOutcome (N : Type 0) : Type 0 where
  pub state : TaskState
  pub result : Option (Value N)
  pub error_code : Option String
  pub error_message : Option ErrorText

-- What becomes of a delegation: its stream is read to the end or to a final frame, or the time is up.
pub data Reply (N : Type 0) : Type 0 where
  streamed : List (AlignStreamFrame N) → Reply N
  timed_out : Reply N

-- What a node's run takes from outside; the worker is told which attempt it is.
pub record Surroundings (N F : Type 0) : Type 0 where
  pub numbers : Numbers N F
  pub classes : CharClass
  pub delegate : (attempt : ℕ) → DelegateFrame N → Reply N
  pub now_ms : ℕ
  pub print_ms : ℕ → String
  pub validate_sender_nid : Bool

abbrev pub is_completed : TaskState → Bool
is_completed completed = true
is_completed _ = false

abbrev pub is_failed : TaskState → Bool
is_failed failed = true
is_failed _ = false

abbrev pub is_skipped : TaskState → Bool
is_skipped skipped = true
is_skipped _ = false

abbrev pub retries_on : List String → Option String → Bool
retries_on [] code = true
retries_on codes none = true
retries_on codes (some code) = contains codes code

abbrev pub retry_codes : Option RetryPolicy → List String
retry_codes none = []
retry_codes (some p) = elim p.retry_on [ none ↦ [] | some codes ↦ codes ]

unfoldable pub should_retry : Option RetryPolicy → Option String → (attempt max_retries : ℕ) → Bool
should_retry policy error_code attempt max_retries =
    if ltb max_retries attempt then false else retries_on (retry_codes policy) error_code

abbrev pub in_sequence : (seq last_seq : ℕ) → Bool
in_sequence seq last_seq =
    if seq == last_seq then true else if seq == 0 then true else seq == last_seq + 1

module _ {N : Type 0} where
  abbrev pub outcome : TaskState → Option (Value N) → Option String → NodeOutcome N
  outcome s r code = record { state = s; result = r; error_code = code; error_message = none }

  abbrev pub with_msg :
      TaskState → Option (Value N) → Option String → Option ErrorText → NodeOutcome N
  with_msg s r code msg = record { state = s; result = r; error_code = code; error_message = msg }

  -- What a final frame says.
  abbrev pub final_outcome : Option StreamError → Option (Value N) → NodeOutcome N
  final_outcome (some e) found = with_msg failed none (some e.code) (some (given e.message))
  final_outcome none found = outcome completed found none

  -- The loop over a stream's frames.
  unfoldable pub read_stream :
      (validate_sender : Bool) (agent : String) (last_seq : ℕ)
      → List (AlignStreamFrame N)
      → NodeOutcome N
  read_stream validate_sender agent last_seq [] =
      with_msg failed none (some "NOP-DELEGATE-TIMEOUT")
        (some (formatted (lit "Stream ended without final frame." ∷ [])))
  read_stream validate_sender agent last_seq (frame ∷ frames) =
      let rest = read_stream validate_sender agent frame.seq frames in
      if not (in_sequence frame.seq last_seq)
      then outcome failed none (some "NOP-STREAM-SEQ-GAP")
      else if validate_sender && not (str_eq frame.sender_nid agent)
      then outcome failed none (some "NOP-STREAM-NID-MISMATCH")
      else if frame.is_final
      then final_outcome frame.error frame.frame_data
      else rest

  abbrev pub timeout_of : DagNode N → TaskFrame N → ℕ
  timeout_of node task =
      min (elim node.timeout_ms [ none ↦ task.timeout_ms | some t ↦ t ]) max_timeout_ms

  abbrev pub context_of : TaskFrame N → Option (TaskContext N)
  context_of task = elim task.context [
    | some c ↦ some c
    | none ↦ some (record {
      session_id = none;
      trace_id = none;
      span_id = none;
      trace_flags = none;
      baggage = none;
      custom = none;
    })
  ]

  abbrev pub read_reply : Bool → DagNode N → TaskFrame N → Reply N → NodeOutcome N
  read_reply validate_sender node task (streamed frames) =
      read_stream validate_sender node.agent 0 frames
  read_reply validate_sender node task timed_out =
      with_msg failed none (some "NOP-DELEGATE-TIMEOUT") (
        some (
          formatted (
            lit "Node '"
            ∷ lit node.id
            ∷ lit "' timed out after "
            ∷ dec (timeout_of node task)
            ∷ lit "ms."
            ∷ [])))

  abbrev pub max_retries_of : DagNode N → TaskFrame N → ℕ
  max_retries_of node task = elim node.retry_policy [
    | none ↦ task.max_retries
    | some p ↦ p.max_retries
  ]

  abbrev pub condition_of : DagNode N → List ℕ
  condition_of node = elim node.condition [ none ↦ [] | some c ↦ codes c ]

  module _ {F : Type 0} (x : Surroundings N F) where
    abbrev pub delegate_frame :
        TaskFrame N → DagNode N → (subtask_id idempotency_key : String) → Value N → DelegateFrame N
    delegate_frame task node subtask_id idempotency_key params = record {
      parent_task_id = task.task_id;
      subtask_id = subtask_id;
      node_id = node.id;
      target_agent_nid = node.agent;
      action = node.action;
      params = some params;
      delegated_scope = object end;
      deadline_at = x.print_ms (x.now_ms + timeout_of node task);
      idempotency_key = some idempotency_key;
      priority = some task.priority;
      context = context_of task;
      delegate_depth = task.delegate_depth + 1;
      target_cluster_anchor = none;
    }

    unfoldable pub execute_node_once :
        TaskFrame N
        → DagNode N
        → (subtask_id idempotency_key : String) → Context N
        → (attempt : ℕ) → NodeOutcome N
    unfolding read_stream
    execute_node_once task node subtask_id idempotency_key context attempt =
        elim (build_params node.input_mapping context) [
          | err e ↦ with_msg failed none (some "NOP-INPUT-MAPPING-ERROR") (some (of_mapping e))
          | ok params ↦
              read_reply x.validate_sender_nid node task
                (x.delegate attempt (delegate_frame task node subtask_id idempotency_key params))
        ]

    -- The updates of the store in a node's run.
    abbrev pub attempt_update : ℕ → SubtaskUpdate N
    attempt_update attempt = record {
      result = none;
      error_code = none;
      error_message = none;
      attempt = attempt;
    }

    abbrev pub completed_update : NodeOutcome N → ℕ → SubtaskUpdate N
    completed_update o attempt = record {
      result = o.result;
      error_code = none;
      error_message = none;
      attempt = attempt;
    }

    abbrev pub failed_update : Option String → Option ErrorText → ℕ → SubtaskUpdate N
    failed_update code msg attempt = record {
      result = none;
      error_code = code;
      error_message = msg;
      attempt = attempt;
    }

    -- The attempts that are left, after the condition; no attempt is left behind the last retry.
    unfoldable pub attempts :
        TaskFrame N
        → DagNode N
        → (subtask_id idempotency_key : String) → Context N
        → (left attempt : ℕ) → Tasks N
        → NodeOutcome N × Tasks N
    unfolding execute_node_once should_retry
    attempts task node sid key context zero attempt tasks = (
      outcome failed none (some "NOP-DELEGATE-TIMEOUT"),
      update_subtask task.task_id node.id sid failed
          (failed_update (some "NOP-DELEGATE-TIMEOUT")
            (some (
              formatted (
                lit "Node '"
                ∷ lit node.id
                ∷ lit "' exhausted "
                ∷ dec (max_retries_of node task)
                ∷ lit " retries."
                ∷ [])))
            0)
          tasks,
    )
    attempts task node sid key context (suc left) attempt tasks =
        let tasks' =
          update_subtask task.task_id node.id sid running (attempt_update attempt) tasks in
        let o = execute_node_once task node sid key context attempt in
        let rest = attempts task node sid key context left (attempt + 1) tasks' in
        if is_completed o.state
        then (
          o,
          update_subtask task.task_id node.id sid completed (completed_update o attempt) tasks',
        )
        else if not (should_retry node.retry_policy o.error_code attempt (max_retries_of node task))
        then (
          o,
          update_subtask task.task_id node.id sid failed
              (failed_update o.error_code o.error_message attempt) tasks',
        )
        else rest

    -- What a node's condition decides before the first attempt.
    abbrev pub on_condition :
        TaskFrame N
        → DagNode N
        → (subtask_id : String) → Parsed Bool
        → Tasks N
        → NodeOutcome N × Tasks N
        → NodeOutcome N × Tasks N
    on_condition task node sid (ok true) tasks run = run
    on_condition task node sid (ok false) tasks run = (
      outcome skipped none none,
      update_subtask task.task_id node.id sid skipped default_update tasks,
    )
    on_condition task node sid (err e) tasks run = (
      outcome failed none (some "NOP-CONDITION-EVAL-ERROR"),
      update_subtask task.task_id node.id sid failed
          (failed_update (some "NOP-CONDITION-EVAL-ERROR") (some (of_condition e)) 1) tasks,
    )

    unfoldable pub execute_node_with_retry :
        TaskFrame N
        → DagNode N
        → (subtask_id idempotency_key : String) → Context N
        → Tasks N
        → NodeOutcome N × Tasks N
    unfolding attempts
    execute_node_with_retry task node sid key context tasks =
        let cond = condition_of node in
        let run = attempts task node sid key context (suc (max_retries_of node task)) 1 tasks in
        if is_part cond
        then on_condition task node sid (evaluate x.numbers x.classes cond context) tasks run
        else run
