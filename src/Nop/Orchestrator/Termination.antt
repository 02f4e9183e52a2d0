-- ===== src/Nop/Orchestrator/Termination.antt =====
-- nps-nop/src/orchestrator.rs: `run_dag` comes to its end.
use nps_sdk_rust.Common.{
  ℕ, zero, suc, ◌+◌, ◌≤◌, ◌≡◌, refl, sym, ap, String, ◌&&◌, List, [], ◌∷◌, ◌++◌, some, ok, ltb,
  length, any, select, arith, length-insert-new, Distinct, Bool-cases, inl, inr, if_both,
}
use nps_sdk_rust.Nop.Models.{DagNode}
use nps_sdk_rust.Nop.Dag.{validate_dag}
use nps_sdk_rust.Nop.Dag.Setup.{ids_of}
use nps_sdk_rust.Nop.Dag.Laws.{validate_dag-Distinct}
use nps_sdk_rust.Nop.InputMapper.{Context}
use nps_sdk_rust.Nop.Store.{TaskFrame, Tasks}
use nps_sdk_rust.Nop.Node.{NodeOutcome, is_failed}
use nps_sdk_rust.Nop.Orchestrator.{
  Orchestrator, Run, NopTaskResult, take_at, flying, is_ready, fail_unsatisfiable, run_node,
  after_completion, is_cut_off,
}
use nps_sdk_rust.Nop.Orchestrator.Execution.{
  Progress, ended, aborted, start_round, wait, node_rounds, run_dag, abort, node_failed, ends,
  nodes, result_of, report,
}
use nps_sdk_rust.Nop.Orchestrator.Rounds.{
  AreOpen, AreOpen-nil, AreOpen-settle, AreOpen-none, all_nodes_of-length,
  fail_unsatisfiable-AreOpen, fail_unsatisfiable-in_flight, fail_unsatisfiable-length,
  launch-AreOpen, launch-node_states, ready-AreOpen,
}

-- A loop that has come to its end within its rounds.
data Halted {N : Type 0} : Progress N → Type 0 where
  halted : (run : Run N) → Halted (ended run)
  given_up : (r : NopTaskResult N × Tasks N) → Halted (aborted r)

-- The ids of what is picked and of the rest.
data Picked {N : Type 0} (ids : List String)
    : (DagNode N × Context N) × List (DagNode N × Context N) → Type 0 where
  picked :
      (t : (DagNode N × Context N) × List (DagNode N × Context N)) (xs ys : List String)
      → ids ≡ xs ++ (((t.0).0).id ∷ ys)
      → flying (t.1) ≡ xs ++ ys
      → Picked ids t

Picked-later :
    {N : Type 0} (p : DagNode N × Context N) (ids : List String)
    (t : (DagNode N × Context N) × List (DagNode N × Context N))
    → Picked ids t
    → Picked ((p.0).id ∷ ids) (t.0, p ∷ (t.1))
Picked-later p ids t (picked _ xs ys e f) =
    picked _ ((p.0).id ∷ xs) ys (ap (λ l. (p.0).id ∷ l) e) (ap (λ l. (p.0).id ∷ l) f)

take_at-Picked :
    {N : Type 0} (i : ℕ) (p : DagNode N × Context N) (ps : List (DagNode N × Context N))
    → Picked (flying (p ∷ ps)) (take_at i p ps)
take_at-Picked zero p ps = picked _ [] (flying ps) refl refl
take_at-Picked (suc i) p [] = picked _ [] [] refl refl
take_at-Picked (suc i) p (q ∷ ps) =
    Picked-later p (flying (q ∷ ps)) (take_at i q ps) (take_at-Picked i q ps)

module _ {N F : Type 0} (o : Orchestrator N F) (task : TaskFrame N) (topo_order : List String) where
  start_round-AreOpen :
      (run : Run N)
      → Distinct (ids_of task.dag.nodes)
      → AreOpen run.node_states (flying run.in_flight)
      → AreOpen
          (start_round o task topo_order run).node_states
          (flying (start_round o task topo_order run).in_flight)
  unfolding start_round
  start_round-AreOpen run d h =
      let ready = select (is_ready run) task.dag.nodes in
      let r = fail_unsatisfiable o task ready run in
      launch-AreOpen o task (r.0) (r.1) (
        rw (fail_unsatisfiable-in_flight o task ready run) (
          fail_unsatisfiable-AreOpen o task ready run (flying run.in_flight)
            (ready-AreOpen o task run task.dag.nodes d h)))

  start_round-length :
      (run : Run N)
      → length run.node_states ≤ length (start_round o task topo_order run).node_states
  unfolding start_round
  start_round-length run =
      let ready = select (is_ready run) task.dag.nodes in
      let r = fail_unsatisfiable o task ready run in
      rw (launch-node_states o task (r.0) (r.1)) (fail_unsatisfiable-length o task ready run)

  -- The state behind a completion: one more node has a state, and those in flight have none.
  after_completion-AreOpen :
      (run : Run N) (ids : List String) (t : (DagNode N × Context N) × List (DagNode N × Context N))
      (r : NodeOutcome N × Tasks N)
      → Picked ids t
      → AreOpen run.node_states ids
      → AreOpen (after_completion o task ((t.0).0) (t.1) r run).node_states (flying (t.1))
        × (length (after_completion o task ((t.0).0) (t.1) r run).node_states
            ≡ suc (length run.node_states))
  after_completion-AreOpen run ids t r (picked _ xs ys e f) h = (
    rw (f) (AreOpen-settle run.node_states xs ys ((t.0).0).id ((r.0).state) (rw (sym e) h)),
    length-insert-new ((t.0).0).id ((r.0).state) run.node_states
        (AreOpen-none run.node_states xs ys ((t.0).0).id (rw (sym e) h)),
  )

  wait-Halted :
      (next_round : Run N → Progress N) (round : ℕ) (run : Run N)
      (fs : List (DagNode N × Context N))
      → AreOpen run.node_states (flying fs)
      → ((run' : Run N)
          → AreOpen run'.node_states (flying run'.in_flight)
          → length run'.node_states ≡ suc (length run.node_states)
          → Halted (next_round run'))
      → Halted (wait o task topo_order next_round round run fs)
  unfolding wait
  wait-Halted next_round round run [] h k = halted run
  wait-Halted next_round round run (p ∷ ps) h k =
      let t = take_at (o.next round) p ps in
      let r = run_node o task (t.0) run.tasks in
      let run' = after_completion o task ((t.0).0) (t.1) r run in
      let q =
        after_completion-AreOpen run (flying (p ∷ ps)) t r (take_at-Picked (o.next round) p ps) h in
      if_both Halted
        (is_failed (r.0).state
          && any (is_cut_off o task ((t.0).0).id run'.node_states) (ends o task topo_order))
        (abort o task topo_order (node_failed o task topo_order ((t.0).0) (r.0)) (t.1) run')
        (next_round run') (given_up _) (k run' (q.0) (q.1))

  node_rounds-Halted :
      (left round : ℕ) (run : Run N)
      → Distinct (ids_of task.dag.nodes)
      → AreOpen run.node_states (flying run.in_flight)
      → length (nodes o task topo_order) ≤ left + length run.node_states
      → Halted (node_rounds o task topo_order left round run)
  unfolding node_rounds
  node_rounds-Halted zero round run d h l =
      elim (Bool-cases (ltb (length run.node_states) (length (nodes o task topo_order)))) [
        | inl t ↦ ground arith
        | inr t ↦ rw (t) (halted run)
      ]
  node_rounds-Halted (suc left) round run d h l =
      if_both Halted (ltb (length run.node_states) (length (nodes o task topo_order))) _ _
        (wait-Halted (node_rounds o task topo_order left (round + 1)) round
          (start_round o task topo_order run) (start_round o task topo_order run).in_flight
          (start_round-AreOpen run d h)
          (λ run' h' e.
            node_rounds-Halted left (round + 1) run' d h' (omega (arith, start_round-length run))))
        (halted run)

  result_of-Halted :
      (p : Progress N)
      → Halted p
      → (r : NopTaskResult N × Tasks N) × result_of o task topo_order p ≡ some r
  result_of-Halted p (halted run) = (report o task topo_order run, refl)
  result_of-Halted p (given_up r) = (r, refl)

  -- The run of a graph that the validation accepts, with the order that it gives, always comes to a
  -- result, whatever the worker answers and in whatever order the nodes finish: as many rounds as the
  -- graph has nodes are enough.
  pub run_dag-some :
      (tasks : Tasks N)
      → validate_dag task.dag ≡ ok topo_order
      → (r : NopTaskResult N × Tasks N) × run_dag o task topo_order tasks ≡ some r
  unfolding run_dag
  run_dag-some tasks v = result_of-Halted _ (
      node_rounds-Halted (length task.dag.nodes) 0 _ (validate_dag-Distinct task.dag topo_order v)
        (AreOpen-nil []) (omega (arith, all_nodes_of-length task.dag.nodes [])))
