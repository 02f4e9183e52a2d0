-- ===== src/Nop/Dag/Examples.antt =====
-- A graph of three nodes, and one with a cycle behind its start.
use nps_sdk_rust.Common.{
  ℕ, ◌≡◌, ◌≢◌, refl, String, [], ◌∷◌, none, ok, err, contains, Distinct, lookup, insert,
  if◌then◌else◌, str_eq, arith,
}
use nps_sdk_rust.Core.Error.{lit}
use nps_sdk_rust.Nop.Models.{DagNode, DagEdge, TaskDag}
use nps_sdk_rust.Nop.Dag.{failure, task_dag_cycle, validate_dag}
use nps_sdk_rust.Nop.Dag.Graph.{IsOrdered}
use nps_sdk_rust.Nop.Dag.Setup.{ids_of}
use nps_sdk_rust.Nop.Dag.Laws.{validate_dag_sound, validate_dag_acyclic}

abbrev pub node : String → DagNode ℕ
node id = record {
  id = id;
  action = "nwp://worker/run";
  agent = "urn:nps:agent:w";
  input_from = none;
  input_mapping = none;
  timeout_ms = none;
  retry_policy = none;
  condition = none;
  min_required = 0;
  compensate_action = none;
  compensate_params_mapping = none;
}

abbrev pub edge : String → String → DagEdge
edge u v = record { from = u; to = v }

abbrev chain : TaskDag ℕ
chain = record {
  nodes = node "c" ∷ node "a" ∷ node "b" ∷ [];
  edges = edge "a" "b" ∷ edge "b" "c" ∷ [];
}

chain-sorted : validate_dag chain ≡ ok ("a" ∷ "b" ∷ "c" ∷ [])
unfolding validate_dag lookup insert
chain-sorted = refl

abbrev looped : TaskDag ℕ
looped = record {
  nodes = node "a" ∷ node "b" ∷ node "c" ∷ node "d" ∷ [];
  edges = edge "a" "b" ∷ edge "b" "c" ∷ edge "c" "b" ∷ edge "c" "d" ∷ [];
}

looped-refused :
    validate_dag looped ≡ err (failure task_dag_cycle (lit "DAG contains a cycle." ∷ []))
unfolding validate_dag lookup insert
looped-refused = refl

validate_dag_sound_example :
    Distinct ("a" ∷ "b" ∷ "c" ∷ [])
    × ((k : String) → contains ("a" ∷ "b" ∷ "c" ∷ []) k ≡ contains (ids_of chain.nodes) k)
    × IsOrdered chain.edges [] ("a" ∷ "b" ∷ "c" ∷ [])
validate_dag_sound_example = validate_dag_sound chain ("a" ∷ "b" ∷ "c" ∷ []) chain-sorted

rank : String → ℕ
rank s = if str_eq s "a" then 0 else if str_eq s "b" then 1 else 2

validate_dag_acyclic_example :
    validate_dag chain ≢ err (failure task_dag_cycle (lit "DAG contains a cycle." ∷ []))
unfolding rank
validate_dag_acyclic_example =
    validate_dag_acyclic chain rank (lit "DAG contains a cycle." ∷ [])
      (omega arith, (omega arith, tt))
