-- ===== src/Nop/Node/Laws.antt =====
-- nps-nop/src/orchestrator.rs: a node's outcome, its attempts and the store's record of it.
use nps_sdk_rust.Common.{
  ℕ, zero, suc, ◌+◌, ◌≤◌, ◌<◌, ◌≡◌, refl, String, Bool, true, false, not, ◌&&◌, List, [], ◌∷◌,
  Option, none, some, ok, err, if◌then◌else◌, str_eq, if_both, lt→ltb, arith, Bool-cases,
  Result-cases, inl, inr,
}
use nps_sdk_rust.Nop.Models.{DagNode}
use nps_sdk_rust.Nop.InputMapper.{Context, is_part, build_params}
use nps_sdk_rust.Nop.Condition.Tokens.{Parsed}
use nps_sdk_rust.Nop.Condition.{evaluate}
use nps_sdk_rust.Nop.Store.{
  TaskState, running, completed, failed, skipped, TaskFrame, NopSubtaskRecord, Tasks,
  update_subtask, SubtaskUpdate,
}
use nps_sdk_rust.Nop.Store.Laws.{
  subtask_of, HasTask, update_subtask-HasTask, subtask_of-update_subtask,
}
use nps_sdk_rust.Nop.Node.{
  Surroundings, NodeOutcome, is_completed, should_retry, max_retries_of, condition_of,
  execute_node_once, attempt_update, attempts, on_condition, execute_node_with_retry, final_outcome,
  read_stream, read_reply, Reply, streamed, timed_out, AlignStreamFrame, StreamError, in_sequence,
  outcome, delegate_frame,
}
use nps_sdk_rust.Core.Json.{Value}

is_completed-eq : (s : TaskState) → is_completed s ≡ true → s ≡ completed
is_completed-eq completed h = refl
is_completed-eq _ h = cc

module _ {N : Type 0} where
  -- The store has the outcome's state for the node.
  unfoldable pub IsRecorded : String → String → NodeOutcome N × Tasks N → Type 0
  IsRecorded t n r =
      (sub : NopSubtaskRecord N) × ((subtask_of t n (r.1) ≡ some sub) × (sub.state ≡ (r.0).state))

  recorded :
      (t n sid : String) (o : NodeOutcome N) (s : TaskState) (u : SubtaskUpdate N) (tasks : Tasks N)
      → HasTask t tasks
      → o.state ≡ s
      → IsRecorded t n (o, update_subtask t n sid s u tasks)
  unfolding IsRecorded
  recorded t n sid o s u tasks h e = rw (e) (subtask_of-update_subtask t n sid s u tasks h)

  -- A state that an attempt ends in.
  data Ended (o : NodeOutcome N) : Type 0 where
    done : o.state ≡ completed → Ended o
    broken : o.state ≡ failed → Ended o

  Ended-failed : (o : NodeOutcome N) → Ended o → is_completed o.state ≡ false → o.state ≡ failed
  Ended-failed o (broken e) h = e
  Ended-failed o (done e) h = cc

  final_outcome-Ended : (e : Option StreamError) (v : Option (Value N)) → Ended (final_outcome e v)
  final_outcome-Ended none v = done refl
  final_outcome-Ended (some e) v = broken refl

  read_stream-Ended :
      (b : Bool) (agent : String) (last : ℕ) (frames : List (AlignStreamFrame N))
      → Ended (read_stream b agent last frames)
  unfolding read_stream
  read_stream-Ended b agent last [] = broken refl
  read_stream-Ended b agent last (frame ∷ frames) =
      if_both Ended (not (in_sequence frame.seq last))
        (outcome failed none (some "NOP-STREAM-SEQ-GAP")) _ (broken refl)
        (if_both Ended (b && not (str_eq frame.sender_nid agent))
          (outcome failed none (some "NOP-STREAM-NID-MISMATCH")) _ (broken refl)
          (if_both Ended frame.is_final (final_outcome frame.error frame.frame_data)
            (read_stream b agent frame.seq frames)
            (final_outcome-Ended frame.error frame.frame_data)
            (read_stream-Ended b agent frame.seq frames)))

  read_reply-Ended :
      (b : Bool) (node : DagNode N) (task : TaskFrame N) (r : Reply N)
      → Ended (read_reply b node task r)
  read_reply-Ended b node task (streamed frames) = read_stream-Ended b node.agent 0 frames
  read_reply-Ended b node task timed_out = broken refl

  module _ {F : Type 0} (x : Surroundings N F) where
    -- An attempt fails, or is completed.
    execute_node_once-Ended :
        (task : TaskFrame N) (node : DagNode N) (sid key : String) (context : Context N) (a : ℕ)
        → Ended (execute_node_once x task node sid key context a)
    unfolding execute_node_once
    execute_node_once-Ended task node sid key context a =
        elim (Result-cases (build_params node.input_mapping context)) [
          | inl (p, e) ↦
              rw (e, execute_node_once)
                (read_reply-Ended x.validate_sender_nid node task
                  (x.delegate a (delegate_frame x task node sid key p)))
          | inr (p, e) ↦ rw (e, execute_node_once) (broken refl)
        ]

    -- A run of attempts is recorded.
    attempts-IsRecorded :
        (task : TaskFrame N) (node : DagNode N) (sid key : String) (context : Context N)
        (left a : ℕ) (tasks : Tasks N)
        → HasTask task.task_id tasks
        → IsRecorded task.task_id node.id (attempts x task node sid key context left a tasks)
    unfolding attempts
    attempts-IsRecorded task node sid key context zero a tasks h =
        recorded task.task_id node.id sid _ failed _ tasks h refl
    attempts-IsRecorded task node sid key context (suc left) a tasks h =
        let h' =
          update_subtask-HasTask task.task_id node.id sid running (attempt_update x a) tasks h in
        elim (Bool-cases (is_completed (execute_node_once x task node sid key context a).state)) [
          | inl c ↦
              rw (c) (recorded task.task_id node.id sid _ completed _ _ h' (is_completed-eq _ c))
          | inr c ↦ rw (c) (
              if_both (IsRecorded task.task_id node.id) _ _ _
                (recorded task.task_id node.id sid _ failed _ _ h'
                  (Ended-failed _ (execute_node_once-Ended task node sid key context a) c))
                (attempts-IsRecorded task node sid key context left (a + 1) _ h'))
        ]

    on_condition-IsRecorded :
        (task : TaskFrame N) (node : DagNode N) (sid : String) (r : Parsed Bool) (tasks : Tasks N)
        (run : NodeOutcome N × Tasks N)
        → HasTask task.task_id tasks
        → IsRecorded task.task_id node.id run
        → IsRecorded task.task_id node.id (on_condition x task node sid r tasks run)
    on_condition-IsRecorded task node sid (ok true) tasks run h g = g
    on_condition-IsRecorded task node sid (ok false) tasks run h g =
        recorded task.task_id node.id sid _ skipped _ tasks h refl
    on_condition-IsRecorded task node sid (err e) tasks run h g =
        recorded task.task_id node.id sid _ failed _ tasks h refl

    -- After the run of a node of a stored task, the store has a record of the node, in the state that
    -- the run's outcome reports, whatever the condition, the mapping, the worker and the retries did.
    pub execute_node_with_retry-IsRecorded :
        (task : TaskFrame N) (node : DagNode N) (sid key : String) (context : Context N)
        (tasks : Tasks N)
        → HasTask task.task_id tasks
        → IsRecorded task.task_id node.id
            (execute_node_with_retry x task node sid key context tasks)
    unfolding execute_node_with_retry
    execute_node_with_retry-IsRecorded task node sid key context tasks h =
        let run = attempts x task node sid key context (suc (max_retries_of node task)) 1 tasks in
        let run-IsRecorded =
          attempts-IsRecorded task node sid key context (suc (max_retries_of node task)) 1 tasks
            h in
        if_both (IsRecorded task.task_id node.id) (is_part (condition_of node))
          (on_condition x task node sid (evaluate x.numbers x.classes (condition_of node) context)
            tasks run)
          run (on_condition-IsRecorded task node sid _ tasks run h run-IsRecorded) run-IsRecorded

    -- The attempt `a` failed in a way that is retried.
    abbrev pub Retried : TaskFrame N → DagNode N → String → String → Context N → ℕ → Type 0
    Retried task node sid key context a =
        (is_completed (execute_node_once x task node sid key context a).state ≡ false)
        × (should_retry node.retry_policy
              (execute_node_once x task node sid key context a).error_code a
              (max_retries_of node task)
            ≡ true)

    -- The outcome is that of an attempt from `a` to the last retry, and all before it were retried.
    pub data Last (task : TaskFrame N) (node : DagNode N) (sid key : String) (context : Context N)
        : ℕ → NodeOutcome N → Type 0 where
      last :
          (a : ℕ)
          → a ≤ max_retries_of node task + 1
          → Last task node sid key context a (execute_node_once x task node sid key context a)
      later :
          (a : ℕ) (o : NodeOutcome N)
          → Retried task node sid key context a
          → Last task node sid key context (a + 1) o
          → Last task node sid key context a o

    no_retry_behind :
        (task : TaskFrame N) (node : DagNode N) (code : Option String) (a : ℕ)
        → max_retries_of node task < a
        → should_retry node.retry_policy code a (max_retries_of node task) ≡ false
    unfolding should_retry
    no_retry_behind task node code a l = rw (lt→ltb (max_retries_of node task) a l) refl

    -- An attempt that is not retried is the last.
    attempts-stop :
        (task : TaskFrame N) (node : DagNode N) (sid key : String) (context : Context N)
        (left a : ℕ) (tasks : Tasks N)
        → a ≤ max_retries_of node task + 1
        → (Retried task node sid key context a
            → Last task node sid key context a
                ((attempts x task node sid key context (suc left) a tasks).0))
        → Last task node sid key context a
            ((attempts x task node sid key context (suc left) a tasks).0)
    unfolding attempts
    attempts-stop task node sid key context left a tasks l k =
        let o = execute_node_once x task node sid key context a in
        elim (Bool-cases (is_completed o.state)) [
          | inl c ↦ rw (c) (last a l)
          | inr c ↦
              elim (Bool-cases
                (should_retry node.retry_policy o.error_code a (max_retries_of node task))) [
                  | inr r ↦ rw (c, r) (last a l)
                  | inl r ↦ k (c, r)
                ]
        ]

    attempts-retry :
        (task : TaskFrame N) (node : DagNode N) (sid key : String) (context : Context N)
        (left a : ℕ) (tasks : Tasks N)
        → Retried task node sid key context a
        → attempts x task node sid key context (suc left) a tasks
          ≡ attempts x task node sid key context left
              (a + 1)
              (update_subtask task.task_id node.id sid running (attempt_update x a) tasks)
    unfolding attempts
    attempts-retry task node sid key context left a tasks r = rw (r.0, r.1) refl

    attempts-Last :
        (task : TaskFrame N) (node : DagNode N) (sid key : String) (context : Context N)
        (left a : ℕ) (tasks : Tasks N)
        → a + left ≡ max_retries_of node task + 1
        → Last task node sid key context a
            ((attempts x task node sid key context (suc left) a tasks).0)
    attempts-Last task node sid key context zero a tasks e =
        attempts-stop task node sid key context zero a tasks (omega arith) λ r.
          let q =
            no_retry_behind task node (execute_node_once x task node sid key context a).error_code a
              (omega arith) in
          cc (q, r.1)
    attempts-Last task node sid key context (suc left) a tasks e =
        attempts-stop task node sid key context (suc left) a tasks (omega arith) λ r. later a _ r (
          rw (attempts-retry task node sid key context (suc left) a tasks r)
            (attempts-Last task node sid key context left (a + 1) _ (omega arith)))

    -- The value of the node's condition; a node without one always runs.
    abbrev pub condition_value : DagNode N → Context N → Parsed Bool
    condition_value node context =
        if is_part (condition_of node)
        then evaluate x.numbers x.classes (condition_of node) context
        else ok true

    on_condition-true :
        (task : TaskFrame N) (node : DagNode N) (sid : String) (b : Bool) (r : Parsed Bool)
        (tasks : Tasks N) (run : NodeOutcome N × Tasks N)
        → (if b then r else ok true) ≡ ok true
        → (if b then on_condition x task node sid r tasks run else run) ≡ run
    on_condition-true task node sid true r tasks run h = rw (h) refl
    on_condition-true task node sid false r tasks run h = refl

    -- The outcome of a node whose condition holds is that of one of its attempts, from the first to
    -- the one behind the last allowed retry, and every attempt before it failed with an error that the
    -- retry policy retries; so the answer for attempts that have run out is never given.
    pub execute_node_with_retry-Last :
        (task : TaskFrame N) (node : DagNode N) (sid key : String) (context : Context N)
        (tasks : Tasks N)
        → condition_value node context ≡ ok true
        → Last task node sid key context 1
            ((execute_node_with_retry x task node sid key context tasks).0)
    unfolding execute_node_with_retry
    execute_node_with_retry-Last task node sid key context tasks h =
        rw
          (on_condition-true task node sid (is_part (condition_of node))
            (evaluate x.numbers x.classes (condition_of node) context) tasks
            (attempts x task node sid key context (suc (max_retries_of node task)) 1 tasks) h)
          (attempts-Last task node sid key context (max_retries_of node task) 1 tasks (omega arith))
