-- ===== src/Nop/Orchestrator/Accounts.antt =====
-- nps-nop/src/orchestrator.rs: what a compensation reports, and of which nodes.
use nps_sdk_rust.Common.{
  ◌+◌, ◌<◌, ◌≡◌, refl, String, true, ◌&&◌, List, [], ◌∷◌, Option, some, ltb, length, lookup, All,
  All-append, arith, Bool-cases, Option-cases, inl, inr, if_both,
}
use nps_sdk_rust.Nop.Models.{DagNode}
use nps_sdk_rust.Nop.InputMapper.{Context}
use nps_sdk_rust.Nop.Store.{TaskState, completed, compensating, TaskFrame, Tasks, update_state}
use nps_sdk_rust.Nop.Node.{Surroundings, is_completed, execute_node_once}
use nps_sdk_rust.Nop.Orchestrator.Readiness.{States}
use nps_sdk_rust.Nop.Orchestrator.Saga.{
  SagaCompensationResult, is_strict, is_done, completed_nodes, reversed, has_action, missing_ids,
  compensable, compensation_node, compensate, run_compensation, run_saga_compensation,
}

-- The node of an id was completed.
abbrev pub WasCompleted : States → String → Type 0
WasCompleted states id = lookup id states ≡ some completed

is_done-completed : (s : Option TaskState) → is_done s ≡ true → s ≡ some completed
is_done-completed (some completed) h = refl
is_done-completed _ h = cc

module _ {N : Type 0} (states : States) where
  abbrev Entries : List (String × DagNode N) → Type 0
  Entries = All (λ p. WasCompleted states (p.0))

  completed_nodes-All :
      (all_nodes : List (String × DagNode N)) (ids : List String)
      → Entries (completed_nodes states all_nodes ids)
  unfolding completed_nodes
  completed_nodes-All all_nodes [] = tt
  completed_nodes-All all_nodes (id ∷ ids) = elim (Bool-cases (is_done (lookup id states))) [
    | inr t ↦ rw (t) (completed_nodes-All all_nodes ids)
    | inl t ↦ elim (Option-cases (lookup id all_nodes)) [
      | inl e ↦ rw (t, e) (completed_nodes-All all_nodes ids)
      | inr (n, e) ↦
          rw (t, e) (is_done-completed (lookup id states) t, completed_nodes-All all_nodes ids)
    ]
  ]

  reversed-All : (ps : List (String × DagNode N)) → Entries ps → Entries (reversed ps)
  reversed-All [] h = tt
  reversed-All (p ∷ ps) (h, hs) =
      All-append (λ q. WasCompleted states (q.0)) (reversed ps) (p ∷ []) (reversed-All ps hs)
        (h, tt)

  missing_ids-All :
      (ps : List (String × DagNode N)) → Entries ps → All (WasCompleted states) (missing_ids ps)
  unfolding missing_ids
  missing_ids-All [] h = tt
  missing_ids-All ((id, n) ∷ ps) (h, hs) = elim (Bool-cases (has_action n)) [
    | inl t ↦ rw (t) (missing_ids-All ps hs)
    | inr t ↦ rw (t) (h, missing_ids-All ps hs)
  ]

  compensable-All : (ps : List (String × DagNode N)) → Entries ps → Entries (compensable ps)
  unfolding compensable
  compensable-All [] h = tt
  compensable-All ((id, n) ∷ ps) (h, hs) = elim (Bool-cases (has_action n)) [
    | inl t ↦ rw (t) (h, compensable-All ps hs)
    | inr t ↦ rw (t) (compensable-All ps hs)
  ]

-- A compensation's report: its counts, the nodes that it names, and its mark in the store.
pub record Accounted {N : Type 0} (states : States) (task : TaskFrame N) (tasks : Tasks N)
    (r : SagaCompensationResult × Tasks N) : Type 0 where
  pub failed_counted : (r.0).failed ≡ length (r.0).failed_node_ids
  pub all_counted : 0 < (r.0).attempted → (r.0).attempted ≡ (r.0).succeeded + (r.0).failed
  pub were_completed : All (WasCompleted states) (r.0).failed_node_ids
  pub marked : 0 < (r.0).attempted → r.1 ≡ update_state task.task_id compensating tasks
  pub idle : (r.0).attempted ≡ 0 → ((r.0).succeeded ≡ 0) × (r.1 ≡ tasks)

module _ {N F : Type 0} (x : Surroundings N F) (new_uuid : String → String → String) where
  compensate-counted :
      (task : TaskFrame N) (results : Context N) (ps : List (String × DagNode N))
      → length ps
        ≡ (compensate x new_uuid task results ps).0
          + length ((compensate x new_uuid task results ps).1)
  unfolding compensate
  compensate-counted task results [] = omega arith
  compensate-counted task results ((id, n) ∷ ps) =
      elim (Bool-cases (
        is_completed
          (execute_node_once x task (compensation_node n) (new_uuid "compensation" id)
            (new_uuid "compensation key" id) results 1).state)) [
              | inl t ↦ rw (t) (omega (arith, compensate-counted task results ps))
              | inr t ↦ rw (t) (omega (arith, compensate-counted task results ps))
            ]

  compensate-All :
      (states : States) (task : TaskFrame N) (results : Context N) (ps : List (String × DagNode N))
      → Entries states ps
      → All (WasCompleted states) ((compensate x new_uuid task results ps).1)
  unfolding compensate
  compensate-All states task results [] h = tt
  compensate-All states task results ((id, n) ∷ ps) (h, hs) =
      elim (Bool-cases (
        is_completed
          (execute_node_once x task (compensation_node n) (new_uuid "compensation" id)
            (new_uuid "compensation key" id) results 1).state)) [
              | inl t ↦ rw (t) (compensate-All states task results ps hs)
              | inr t ↦ rw (t) (h, compensate-All states task results ps hs)
            ]

  run_compensation-Accounted :
      (states : States) (task : TaskFrame N) (results : Context N) (ps : List (String × DagNode N))
      (tasks : Tasks N)
      → Entries states ps
      → Accounted states task tasks (run_compensation x new_uuid task results ps tasks)
  run_compensation-Accounted states task results [] tasks h = record {
    failed_counted = refl;
    all_counted = λ l. omega arith;
    were_completed = tt;
    marked = λ l. ground arith;
    idle = λ e. (refl, refl);
  }
  run_compensation-Accounted states task results (p ∷ ps) tasks h = record {
    failed_counted = refl;
    all_counted = λ l. compensate-counted task results (p ∷ ps);
    were_completed = compensate-All states task results (p ∷ ps) h;
    marked = λ l. refl;
    idle = λ e. ground arith;
  }

  -- A compensation names as failed only nodes that were completed, and as many as it counts; where it
  -- attempts any, every attempt has succeeded or failed and the task is marked as compensating, and
  -- where it attempts none (none has an action, or a strict policy misses one) the store is untouched.
  pub run_saga_compensation-Accounted :
      (task : TaskFrame N) (all_nodes : List (String × DagNode N)) (topo_order : List String)
      (results : Context N) (states : States) (tasks : Tasks N)
      → Accounted states task tasks
          (run_saga_compensation x new_uuid task all_nodes topo_order results states tasks)
  unfolding run_saga_compensation
  run_saga_compensation-Accounted task all_nodes topo_order results states tasks =
      let entries =
        reversed-All states (completed_nodes states all_nodes topo_order)
          (completed_nodes-All states all_nodes topo_order) in
      let done = reversed (completed_nodes states all_nodes topo_order) in
      if_both (Accounted states task tasks)
        (is_strict task.compensation_policy && ltb 0 (length (missing_ids done))) _ _
        (record {
          failed_counted = refl;
          all_counted = λ l. omega arith;
          were_completed = missing_ids-All states done entries;
          marked = λ l. ground arith;
          idle = λ e. (refl, refl);
        })
        (run_compensation-Accounted states task results (compensable done) tasks
          (compensable-All states done entries))
