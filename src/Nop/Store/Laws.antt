-- ===== src/Nop/Store/Laws.antt =====
-- nps-nop/src/store.rs: what a reader of the task store sees of an update.
use nps_sdk_rust.Common.{
  ◌≡◌, refl, ◌∙◌, String, Option, none, some, lookup, insert, arith, eq_iff, lookup-insert,
}
use nps_sdk_rust.Nop.Store.{
  TaskState, NopSubtaskRecord, NopTaskRecord, SubtaskUpdate, Tasks, with_subtask, entry_of,
  change_subtask, update_subtask,
}

module _ {N : Type 0} where
  -- The record of a node in a task, if both are there.
  unfoldable pub subtask_of : String → String → Tasks N → Option (NopSubtaskRecord N)
  subtask_of task_id node_id tasks = elim (lookup task_id tasks) [
    | none ↦ none
    | some rec ↦ lookup node_id rec.subtasks
  ]

  abbrev pub HasTask : String → Tasks N → Type 0
  HasTask task_id tasks = (rec : NopTaskRecord N) × lookup task_id tasks ≡ some rec

  update_subtask-some :
      (t n sid : String) (s : TaskState) (u : SubtaskUpdate N) (tasks : Tasks N)
      (rec : NopTaskRecord N)
      → lookup t tasks ≡ some rec
      → update_subtask t n sid s u tasks ≡ insert t (with_subtask n sid s u rec) tasks
  unfolding update_subtask
  update_subtask-some t n sid s u tasks rec h = rw (h, update_subtask) refl

  update_subtask-none :
      (t n sid : String) (s : TaskState) (u : SubtaskUpdate N) (tasks : Tasks N)
      → lookup t tasks ≡ none
      → update_subtask t n sid s u tasks ≡ tasks
  unfolding update_subtask
  update_subtask-none t n sid s u tasks h = rw (h, update_subtask) refl

  lookup-update_subtask :
      (t n sid : String) (s : TaskState) (u : SubtaskUpdate N) (tasks : Tasks N)
      (rec : NopTaskRecord N)
      → lookup t tasks ≡ some rec
      → lookup t (update_subtask t n sid s u tasks) ≡ some (with_subtask n sid s u rec)
  lookup-update_subtask t n sid s u tasks rec h =
      rw (update_subtask-some t n sid s u tasks rec h)
        (lookup-insert t t (with_subtask n sid s u rec) tasks ∙ ground (arith, eq_iff t t))

  pub update_subtask-HasTask :
      (t n sid : String) (s : TaskState) (u : SubtaskUpdate N) (tasks : Tasks N)
      → HasTask t tasks
      → HasTask t (update_subtask t n sid s u tasks)
  update_subtask-HasTask t n sid s u tasks (rec, h) =
      (with_subtask n sid s u rec, lookup-update_subtask t n sid s u tasks rec h)

  subtask_of-some :
      (t n : String) (tasks : Tasks N) (rec : NopTaskRecord N)
      → lookup t tasks ≡ some rec
      → subtask_of t n tasks ≡ lookup n rec.subtasks
  unfolding subtask_of
  subtask_of-some t n tasks rec h = rw (h, subtask_of) refl

  -- A subtask's update sets its state in a task that is stored.
  pub subtask_of-update_subtask :
      (t n sid : String) (s : TaskState) (u : SubtaskUpdate N) (tasks : Tasks N)
      → HasTask t tasks
      → (sub : NopSubtaskRecord N) × ((subtask_of t n (update_subtask t n sid s u tasks) ≡ some sub)
          × (sub.state ≡ s))
  subtask_of-update_subtask t n sid s u tasks (rec, h) = (
    change_subtask s u (entry_of n sid s (lookup n rec.subtasks)),
    (
      subtask_of-some t n (update_subtask t n sid s u tasks) (with_subtask n sid s u rec)
            (lookup-update_subtask t n sid s u tasks rec h)
          ∙ lookup-insert n n _ rec.subtasks
          ∙ ground (arith, eq_iff n n),
      refl,
    ),
  )
