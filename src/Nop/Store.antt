-- ===== src/Nop/Store.antt =====
-- nps-nop/src/store.rs, and the task's states and frames of models.rs and orch_models.rs. The store
-- is the map behind the mutex; a depth of delegation is not negative.
pub mod Laws
use nps_sdk_rust.Common.{
  ℕ, String, Bool, true, false, List, [], ◌∷◌, Option, none, some, Result, ok, err, ltb,
  if◌then◌else◌, lookup, insert,
}
use nps_sdk_rust.Core.Error.{Message, lit}
use nps_sdk_rust.Core.Json.{Value}
use nps_sdk_rust.Nop.Models.{TaskDag}
use nps_sdk_rust.Nop.InputMapper.{MappingError}
use nps_sdk_rust.Nop.Condition.Tokens.{Stop}
use nps_sdk_rust.Nop.CallbackUrl.{UrlError}

pub data TaskState : Type 0 where
  pending preflight running waiting_sync completed failed cancelled skipped : TaskState
  compensating compensated : TaskState

-- The text of an error: formatted here, or that of a path or of a condition.
pub data ErrorText : Type 0 where
  formatted : Message → ErrorText
  of_mapping : MappingError → ErrorText
  of_condition : Stop → ErrorText
  of_url : UrlError → ErrorText
  given : String → ErrorText

pub record TaskContext (N : Type 0) : Type 0 where
  pub session_id : Option String
  pub trace_id : Option String
  pub span_id : Option String
  pub trace_flags : Option ℕ
  pub baggage : Option (List (String × String))
  pub custom : Option (Value N)

pub record TaskFrame (N : Type 0) : Type 0 where
  pub task_id : String
  pub dag : TaskDag N
  pub timeout_ms : ℕ
  pub max_retries : ℕ
  pub priority : String
  pub callback_url : Option String
  pub callback_secret : Option String
  pub preflight : Bool
  pub context : Option (TaskContext N)
  pub request_id : Option String
  pub delegate_depth : ℕ
  pub compensation_policy : String

pub record NopSubtaskRecord (N : Type 0) : Type 0 where
  pub node_id : String
  pub subtask_id : String
  pub state : TaskState
  pub result : Option (Value N)
  pub error_code : Option String
  pub error_message : Option ErrorText
  pub attempt_count : ℕ

pub record NopTaskRecord (N : Type 0) : Type 0 where
  pub task_id : String
  pub frame : TaskFrame N
  pub state : TaskState
  pub started_at_ms : ℕ
  pub completed_at_ms : Option ℕ
  pub subtasks : List (String × NopSubtaskRecord N)

pub record SubtaskUpdate (N : Type 0) : Type 0 where
  pub result : Option (Value N)
  pub error_code : Option String
  pub error_message : Option ErrorText
  pub attempt : ℕ

abbrev pub Tasks : Type 0 → Type 0
Tasks N = List (String × NopTaskRecord N)

-- `if new.is_some() { old = new }`
abbrev pub or_keep {ℓ} : {A : Type ℓ} → Option A → Option A → Option A
or_keep none old = old
or_keep (some a) old = some a

module _ {N : Type 0} where
  -- `InMemoryNopTaskStore::new`
  abbrev pub new_store : Tasks N
  new_store = []

  unfoldable pub save : NopTaskRecord N → Tasks N → Result Message (Tasks N)
  save rec tasks = elim (lookup rec.task_id tasks) [
    | some old ↦ err (lit "Task already exists: " ∷ lit rec.task_id ∷ [])
    | none ↦ ok (insert rec.task_id rec tasks)
  ]

  -- `InMemoryNopTaskStore::get`
  abbrev pub get_task : String → Tasks N → Option (NopTaskRecord N)
  get_task task_id tasks = lookup task_id tasks

  abbrev pub with_state : TaskState → NopTaskRecord N → NopTaskRecord N
  with_state s rec = record rec { state = s }

  abbrev pub default_update : SubtaskUpdate N
  default_update = record { result = none; error_code = none; error_message = none; attempt = 0 }

  unfoldable pub update_state : String → TaskState → Tasks N → Tasks N
  update_state task_id s tasks = elim (lookup task_id tasks) [
    | none ↦ tasks
    | some rec ↦ insert task_id (with_state s rec) tasks
  ]

  -- `or_insert_with`
  abbrev pub entry_of :
      String → String → TaskState → Option (NopSubtaskRecord N) → NopSubtaskRecord N
  entry_of node_id subtask_id s (some sub) = sub
  entry_of node_id subtask_id s none = record {
    node_id = node_id;
    subtask_id = subtask_id;
    state = s;
    result = none;
    error_code = none;
    error_message = none;
    attempt_count = 0;
  }

  abbrev pub change_subtask : TaskState → SubtaskUpdate N → NopSubtaskRecord N → NopSubtaskRecord N
  change_subtask s update sub = record sub {
    state = s;
    result = or_keep update.result sub.result;
    error_code = or_keep update.error_code sub.error_code;
    error_message = or_keep update.error_message sub.error_message;
    attempt_count = if ltb 0 update.attempt then update.attempt else sub.attempt_count;
  }

  abbrev pub with_subtask :
      String → String → TaskState → SubtaskUpdate N → NopTaskRecord N → NopTaskRecord N
  with_subtask node_id subtask_id s update rec = record rec {
    subtasks =
        insert node_id
          (change_subtask s update (entry_of node_id subtask_id s (lookup node_id rec.subtasks)))
          rec.subtasks;
  }

  unfoldable pub update_subtask :
      String → String → String → TaskState → SubtaskUpdate N → Tasks N → Tasks N
  update_subtask task_id node_id subtask_id s update tasks = elim (lookup task_id tasks) [
    | none ↦ tasks
    | some rec ↦ insert task_id (with_subtask node_id subtask_id s update rec) tasks
  ]
