-- ===== src/Nop/Dag.antt =====
-- nps-nop/src/validation.rs: `validate_dag`. A `HashMap` of the source is an association list over
-- the node ids in their order; nothing depends on that order.
pub mod Graph
pub mod Setup
pub mod Kahn
pub mod Sort
pub mod Order
pub mod Checks
pub mod Laws
pub mod Examples
use nps_sdk_rust.Common.{
  ℕ, zero, suc, ◌+◌, ◌-◌, String, Bool, true, false, not, ◌&&◌, List, [], ◌∷◌, ◌++◌, Option, none,
  some, Result, ok, err, ◌>>=◌, ◌>>◌, guard, ok_or, ltb, leb, ◌==◌, if◌then◌else◌, contains, any,
  all, length, lookup, insert, values, codes,
}
use nps_sdk_rust.Core.Error.{Message, lit, dec}
use nps_sdk_rust.Nop.Models.{DagNode, DagEdge, TaskDag, max_dag_nodes, max_condition_length}

pub data DagCode : Type 0 where
  task_dag_invalid task_dag_cycle task_dag_too_large condition_eval_error : DagCode

-- A failure of the validation; `panicked` stands for an `unwrap` of nothing.
pub data DagFailure : Type 0 where
  failure : (code : DagCode) (message : Message) → DagFailure
  panicked : DagFailure

abbrev pub DagResult {ℓ} : Type ℓ → Type ℓ
DagResult A = Result DagFailure A

abbrev pub invalid : Message → DagFailure
invalid = failure task_dag_invalid

unfoldable pub check_upstreams : List String → String → List String → DagResult (Unit {0})
check_upstreams ids id [] = ok tt
check_upstreams ids id (u ∷ us) = do
  guard (contains ids u) (
      invalid (
        lit "Node '"
        ∷ lit id
        ∷ lit "' references unknown upstream node '"
        ∷ lit u
        ∷ lit "' in input_from."
        ∷ []))
  check_upstreams ids id us

module _ {N : Type 0} where
  -- The set of the ids, in the nodes' order.
  unfoldable pub node_ids : List String → List (DagNode N) → DagResult (List String)
  node_ids seen [] = ok []
  node_ids seen (n ∷ ns) = do
    guard (not (contains seen n.id))
        (invalid (lit "Duplicate node ID: '" ∷ lit n.id ∷ lit "'." ∷ []))
    rest ← node_ids (n.id ∷ seen) ns
    ok (n.id ∷ rest)

  abbrev pub upstreams : DagNode N → List String
  upstreams n = elim n.input_from [ none ↦ [] | some us ↦ us ]

  unfoldable pub check_inputs : List String → List (DagNode N) → DagResult (Unit {0})
  unfolding check_upstreams
  check_inputs ids [] = ok tt
  check_inputs ids (n ∷ ns) = do check_upstreams ids n.id (upstreams n); check_inputs ids ns

  abbrev pub condition_length : DagNode N → ℕ
  condition_length n = elim n.condition [ none ↦ 0 | some c ↦ length (codes c) ]

  unfoldable pub check_conditions : List (DagNode N) → DagResult (Unit {0})
  check_conditions [] = ok tt
  check_conditions (n ∷ ns) = do
    guard (leb (condition_length n) max_condition_length) (
        failure condition_eval_error (
          lit "Node '"
          ∷ lit n.id
          ∷ lit "' condition expression exceeds "
          ∷ dec max_condition_length
          ∷ lit " characters."
          ∷ []))
    check_conditions ns

abbrev pub Adjacency : Type 0
Adjacency = List (String × List String)

abbrev pub Degrees : Type 0
Degrees = List (String × ℕ)

abbrev pub fill {ℓ} : {V : Type ℓ} → V → List String → List (String × V)
fill v [] = []
fill v (id ∷ ids) = (id, v) ∷ fill v ids

-- `get_mut(k).unwrap()`, and what is then done to the value.
abbrev pub change {ℓ} :
    {V : Type ℓ} → (V → V) → String → List (String × V) → Option V → Option (List (String × V))
change f k m none = none
change f k m (some v) = some (insert k (f v) m)

unfoldable pub add_edges :
    List String → List DagEdge → Adjacency → Degrees → DagResult (Adjacency × Degrees)
add_edges ids [] adjacency in_degree = ok (adjacency, in_degree)
add_edges ids (e ∷ es) adjacency in_degree = do
  guard (contains ids e.from)
      (invalid (lit "Edge references unknown source node: '" ∷ lit e.from ∷ lit "'." ∷ []))
  guard (contains ids e.to)
      (invalid (lit "Edge references unknown target node: '" ∷ lit e.to ∷ lit "'." ∷ []))
  adjacency' ←
      ok_or (change (λ l. l ++ (e.to ∷ [])) e.from adjacency (lookup e.from adjacency)) panicked
  in_degree' ← ok_or (change (λ d. d + 1) e.to in_degree (lookup e.to in_degree)) panicked
  add_edges ids es adjacency' in_degree'

-- The first queue: the ids without incoming edges.
unfoldable pub sources : Degrees → List String → DagResult (List String)
sources remaining [] = ok []
sources remaining (id ∷ ids) = do
  d ← ok_or (lookup id remaining) panicked
  rest ← sources remaining ids
  ok (if d == 0 then id ∷ rest else rest)

-- The inner loop: each neighbour's count goes down, and at zero it joins the queue. The source's
-- count is an `i32`; a count of zero would go below it, and not come back to zero.
unfoldable pub visit : List String → Degrees → List String → Option (Degrees × List String)
visit [] remaining queue = some (remaining, queue)
visit (v ∷ vs) remaining queue = elim (lookup v remaining) [
  | none ↦ none
  | some zero ↦ visit vs remaining queue
  | some (suc d) ↦ visit vs (insert v d remaining) (if d == 0 then queue ++ (v ∷ []) else queue)
]

abbrev pub or_empty : Option (List String) → List String
or_empty none = []
or_empty (some l) = l

-- The outer loop, with the rounds that may be made; nothing comes of it on a panic, nor where the
-- rounds are too few.
unfoldable pub kahn : ℕ → Adjacency → Degrees → List String → List String → Option (List String)
unfolding visit
kahn rounds adjacency remaining sorted [] = some sorted
kahn zero adjacency remaining sorted (current ∷ queue) = none
kahn (suc rounds) adjacency remaining sorted (current ∷ queue) =
    elim (visit (or_empty (lookup current adjacency)) remaining queue) [
      | none ↦ none
      | some (remaining', queue') ↦
          kahn rounds adjacency remaining' (sorted ++ (current ∷ [])) queue'
    ]

abbrev pub is_nil : List String → Bool
is_nil [] = true
is_nil (x ∷ xs) = false

-- What follows the checks: the order, or a cycle.
unfoldable pub topological_order : List String → Adjacency → Degrees → DagResult (List String)
unfolding kahn sources
topological_order ids adjacency in_degree = do
  queue ← sources in_degree ids
  sorted ← ok_or (kahn (length ids) adjacency in_degree [] queue) panicked
  guard (length sorted == length ids) (failure task_dag_cycle (lit "DAG contains a cycle." ∷ []))
  ok sorted

unfoldable pub check_size : ℕ → DagResult (Unit {0})
check_size n = do
  guard (not (n == 0)) (invalid (lit "DAG must contain at least one node." ∷ []))
  guard (leb n max_dag_nodes) (
      failure task_dag_too_large (
        lit "DAG contains "
        ∷ dec n
        ∷ lit " nodes, exceeding the maximum of "
        ∷ dec max_dag_nodes
        ∷ lit "."
        ∷ []))

unfoldable pub check_ends : Adjacency → Degrees → DagResult (Unit {0})
check_ends adjacency in_degree = do
  guard (any (λ d. d == 0) (values in_degree))
      (invalid (lit "DAG must have at least one start node (no incoming edges)." ∷ []))
  guard (any is_nil (values adjacency))
      (invalid (lit "DAG must have at least one end node (no outgoing edges)." ∷ []))

-- What follows the reading of the edges.
unfoldable pub checked_order :
    {N : Type 0} → List (DagNode N) → List String → Adjacency → Degrees → DagResult (List String)
unfolding check_inputs check_ends check_conditions topological_order
checked_order nodes ids adjacency in_degree = do
  check_inputs ids nodes
  check_ends adjacency in_degree
  check_conditions nodes
  topological_order ids adjacency in_degree

unfoldable pub validate_dag : {N : Type 0} → TaskDag N → DagResult (List String)
unfolding check_size node_ids add_edges checked_order
validate_dag dag = do
  check_size (length dag.nodes)
  ids ← node_ids [] dag.nodes
  (adjacency, in_degree) ← add_edges ids dag.edges (fill [] ids) (fill 0 ids)
  checked_order dag.nodes ids adjacency in_degree
