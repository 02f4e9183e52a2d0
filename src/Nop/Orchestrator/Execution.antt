-- ===== src/Nop/Orchestrator/Execution.antt =====
-- nps-nop/src/orchestrator.rs: `run_dag`. Its loop runs on rounds, of which it needs at most one for
-- each node.
use nps_sdk_rust.Common.{
  ℕ, zero, suc, ◌+◌, String, ◌&&◌, List, [], ◌∷◌, Option, none, some, ltb, if◌then◌else◌, length,
  any, select, lookup, sort_by_key,
}
use nps_sdk_rust.Core.Error.{Message, lit}
use nps_sdk_rust.Nop.Models.{DagNode}
use nps_sdk_rust.Nop.InputMapper.{Context}
use nps_sdk_rust.Nop.Aggregator.{aggregate_end_nodes}
use nps_sdk_rust.Nop.Store.{TaskFrame, Tasks}
use nps_sdk_rust.Nop.Node.{NodeOutcome, is_failed}
use nps_sdk_rust.Nop.Orchestrator.Readiness.{States, is_failure}
use nps_sdk_rust.Nop.Orchestrator.Saga.{runs_on_success}
use nps_sdk_rust.Nop.Orchestrator.{
  NopTaskResult, Orchestrator, Run, take_at, success, all_nodes_of, end_nodes, keys, is_ready,
  fail_unsatisfiable, launch, run_node, drain, after_completion, is_cut_off, compensate_if,
  fail_task,
}

-- How the loop ends: with all nodes settled or stuck, aborted, or out of the model's rounds.
pub data Progress (N : Type 0) : Type 0 where
  ended : Run N → Progress N
  aborted : NopTaskResult N × Tasks N → Progress N
  out_of_rounds : Progress N

abbrev pub or_blank : Option String → String
or_blank none = ""
or_blank (some s) = s

-- `join(", ")`
abbrev pub joined : List (String × Unit {0}) → Message
joined [] = []
joined ((s, t) ∷ []) = lit s ∷ []
joined ((s, t) ∷ (r, u) ∷ rest) = lit s ∷ lit ", " ∷ joined ((r, u) ∷ rest)

abbrev pub failed_ids : States → List (String × Unit {0})
failed_ids [] = []
failed_ids ((id, s) ∷ states) =
    if is_failed s then (id, tt) ∷ failed_ids states else failed_ids states

module _ {N F : Type 0} (o : Orchestrator N F) (task : TaskFrame N) (topo_order : List String) where
  abbrev pub nodes : List (String × DagNode N)
  nodes = all_nodes_of task.dag.nodes []

  abbrev pub ends : List (String × DagNode N)
  ends = end_nodes task.dag.edges nodes

  -- A round up to the wait: unsatisfiable nodes fail, and ready ones are launched.
  unfoldable pub start_round : Run N → Run N
  unfolding fail_unsatisfiable launch
  start_round run =
      let r = fail_unsatisfiable o task (select (is_ready run) task.dag.nodes) run in
      launch o task (r.0) (r.1)

  abbrev pub node_failed : DagNode N → NodeOutcome N → Message
  node_failed n out =
      lit "Node '" ∷ lit n.id ∷ lit "' failed: " ∷ lit (or_blank out.error_code) ∷ []

  abbrev pub abort : Message → List (DagNode N × Context N) → Run N → Progress N
  abort msg rest run = aborted (
      fail_task o task topo_order msg
        (record run { in_flight = []; tasks = drain o task rest run.tasks }))

  -- The wait for the next completion, and what the next round makes of it.
  unfoldable pub wait :
      (next_round : Run N → Progress N) (round : ℕ)
      → Run N
      → List (DagNode N × Context N)
      → Progress N
  unfolding drain
  wait next_round round run [] = ended run
  wait next_round round run (p ∷ ps) =
      let t = take_at (o.next round) p ps in
      let r = run_node o task (t.0) run.tasks in
      let run' = after_completion o task ((t.0).0) (t.1) r run in
      let next = next_round run' in
      if is_failed (r.0).state && any (is_cut_off o task ((t.0).0).id run'.node_states) ends
      then abort (node_failed ((t.0).0) (r.0)) (t.1) run'
      else next

  -- The `while` loop.
  unfoldable pub node_rounds : ℕ → (round : ℕ) → Run N → Progress N
  unfolding start_round wait
  node_rounds zero round run =
      if ltb (length run.node_states) (length nodes) then out_of_rounds else ended run
  node_rounds (suc left) round run =
      let next =
        wait (node_rounds left (round + 1)) round (start_round run) (start_round run).in_flight in
      if ltb (length run.node_states) (length nodes) then next else ended run

  -- What follows the loop.
  unfoldable pub report : Run N → NopTaskResult N × Tasks N
  unfolding all_nodes_of end_nodes
  report run =
      let failed = failed_ids run.node_states in
      let aggregated =
        aggregate_end_nodes o.result_key (keys ends) run.node_results
          o.default_aggregate_strategy in
      let c = compensate_if o task (runs_on_success task.compensation_policy) topo_order run in
      if ltb 0 (length failed) && any (λ (e, n). is_failure (lookup e run.node_states)) ends
      then fail_task o task topo_order (lit "End node(s) failed: " ∷ joined (sort_by_key failed))
          run
      else (success task.task_id (some aggregated) run.node_results (c.0), c.1)

  abbrev pub result_of : Progress N → Option (NopTaskResult N × Tasks N)
  result_of (ended run) = some (report run)
  result_of (aborted r) = some r
  result_of out_of_rounds = none

  unfoldable pub run_dag : Tasks N → Option (NopTaskResult N × Tasks N)
  unfolding node_rounds report
  run_dag tasks = result_of (
      node_rounds (length task.dag.nodes) 0
        (record { node_states = []; node_results = []; in_flight = []; tasks = tasks }))
