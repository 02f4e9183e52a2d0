-- ===== src/Nop/Dag/Laws.antt =====
-- nps-nop/src/validation.rs: which task graphs `validate_dag` accepts.
use nps_sdk_rust.Common.{
  ℕ, suc, ◌<◌, ◌≡◌, ◌≢◌, String, true, List, [], ok, err, ◌>>=◌, ◌>>◌, guard-case, bind-use, sym,
  bind-case, ◌==◌, ==_iff, contains, length, arith, All, Distinct, length-le_of_subset,
}
use nps_sdk_rust.Core.Error.{Message}
use nps_sdk_rust.Nop.Models.{DagEdge, TaskDag}
use nps_sdk_rust.Nop.Dag.{
  DagFailure, DagResult, panicked, failure, task_dag_cycle, task_dag_invalid, task_dag_too_large,
  condition_eval_error, Adjacency, Degrees, fill, node_ids, add_edges, check_inputs,
  check_conditions, topological_order, check_size, check_ends, checked_order, validate_dag,
}
use nps_sdk_rust.Nop.Dag.Graph.{IsOrdered}
use nps_sdk_rust.Nop.Dag.Setup.{ids_of, node_ids-Distinct, add_edges-Read}
use nps_sdk_rust.Nop.Dag.Sort.{topological_order-Finished}
use nps_sdk_rust.Nop.Dag.Order.{
  Sortable, Read-Sortable, order-known, order-Distinct, order-full, descent,
}
use nps_sdk_rust.Nop.Dag.Checks.{
  IsPlain, node_ids-IsPlain, check_inputs-IsPlain, check_conditions-IsPlain, add_edges-IsPlain,
  fill-Covers, check_size-IsPlain, check_ends-IsPlain,
}

-- A rank of the ids that grows along every edge: there is no cycle.
abbrev pub IsRanked : List DagEdge → (String → ℕ) → Type 0
IsRanked edges rank = All (λ e. rank e.from < rank e.to) edges

-- What the result of `validate_dag` says of a graph.
unfoldable pub Verdict : {N : Type 0} → TaskDag N → DagResult (List String) → Type 0
Verdict dag (ok order) =
    Distinct order
    × ((k : String) → contains order k ≡ contains (ids_of dag.nodes) k)
    × IsOrdered dag.edges [] order
Verdict dag (err (failure task_dag_cycle m)) = (rank : String → ℕ) → ¬ IsRanked dag.edges rank
Verdict dag (err panicked) = ⊥
Verdict dag (err (failure code m)) = Unit

sort-Verdict :
    {N : Type 0} (dag : TaskDag N) (ids : List String) (a : Adjacency) (d : Degrees)
    → ids ≡ ids_of dag.nodes
    → Sortable dag.edges ids a d
    → Verdict dag (topological_order ids a d)
unfolding Verdict
sort-Verdict dag ids a d named s =
    let (order, done, e) =
      topological_order-Finished dag.edges ids a d s.distinct s.listed s.within s.counted in
    let known = order-known dag.edges ids order done in
    let distinct = order-Distinct dag.edges ids order done in
    rw (e) (
      guard-case (Verdict dag) (length order == length ids) _ (ok order)
        (λ short rank grows.
          let all = λ (k : String) (m : contains ids k ≡ true).
            descent dag.edges ids order done rank grows s.known (suc (rank k)) k m (omega arith) in
          ground (
            arith,
            short,
            length-le_of_subset order ids distinct known,
            length-le_of_subset ids order s.distinct all,
          ))
        (λ same.
          let full = order-full dag.edges ids order done ((==_iff _ _).0 same) in
          (distinct, λ k. rw (← named) (ground (arith, known k, full k)), done.ordered)))

IsPlain-Verdict {ℓ} :
    {N : Type 0} {A : Type ℓ} (dag : TaskDag N) (r : DagResult A) (e : DagFailure)
    → IsPlain r
    → r ≡ err e
    → Verdict dag (err e)
unfolding Verdict
IsPlain-Verdict dag r panicked h q = rw (q) at h
IsPlain-Verdict dag r (failure task_dag_cycle m) h q = elim (rw (q) at h) [ ]
IsPlain-Verdict dag r (failure task_dag_invalid m) h q = tt
IsPlain-Verdict dag r (failure task_dag_too_large m) h q = tt
IsPlain-Verdict dag r (failure condition_eval_error m) h q = tt

-- A check that comes before what the verdict is about.
check-Verdict :
    {N : Type 0} (dag : TaskDag N) (m : DagResult (Unit {0})) (r : DagResult (List String))
    → IsPlain m
    → Verdict dag r
    → Verdict dag (m >> r)
check-Verdict dag m r plain h =
    bind-case (Verdict dag) m (λ _. r) (λ e. IsPlain-Verdict dag m e plain) (λ _ _. h)

checked_order-Verdict :
    {N : Type 0} (dag : TaskDag N) (ids : List String) (a : Adjacency) (d : Degrees)
    → ids ≡ ids_of dag.nodes
    → Sortable dag.edges ids a d
    → Verdict dag (checked_order dag.nodes ids a d)
unfolding checked_order
checked_order-Verdict dag ids a d named s =
    check-Verdict dag (check_inputs ids dag.nodes) _ (check_inputs-IsPlain ids dag.nodes) (
      check-Verdict dag (check_ends a d) _ (check_ends-IsPlain a d) (
        check-Verdict dag (check_conditions dag.nodes) (topological_order ids a d)
          (check_conditions-IsPlain dag.nodes) (sort-Verdict dag ids a d named s)))

edges-Verdict :
    {N : Type 0} (dag : TaskDag N) (ids : List String)
    → ids ≡ ids_of dag.nodes
    → Distinct ids
    → Verdict dag (
        add_edges ids dag.edges (fill [] ids) (fill 0 ids) >>= λ (a, d).
        checked_order dag.nodes ids a d)
edges-Verdict dag ids named distinct =
    let m = add_edges ids dag.edges (fill [] ids) (fill 0 ids) in
    bind-case (Verdict dag) m (λ (a, d). checked_order dag.nodes ids a d)
      (λ e. IsPlain-Verdict dag m e (
        add_edges-IsPlain ids dag.edges (fill [] ids) (fill 0 ids)
          (fill-Covers {V = List String} [] ids) (fill-Covers {V = ℕ} 0 ids)))
      λ (a, d) r. checked_order-Verdict dag ids a d named (
        Read-Sortable dag.edges ids a d distinct
          (add_edges-Read ids dag.edges (fill [] ids) a (fill 0 ids) d r))

pub validate_dag-Verdict : {N : Type 0} (dag : TaskDag N) → Verdict dag (validate_dag dag)
unfolding validate_dag
validate_dag-Verdict dag =
    check-Verdict dag (check_size (length dag.nodes)) _ (check_size-IsPlain (length dag.nodes)) (
      bind-case (Verdict dag) (node_ids [] dag.nodes) _
        (λ e. IsPlain-Verdict dag (node_ids [] dag.nodes) e (node_ids-IsPlain [] dag.nodes))
        λ ids q.
          let (named, distinct, _) = node_ids-Distinct [] dag.nodes ids q in
          edges-Verdict dag ids named distinct)

-- An order that the validation returns holds each node of the graph once and no other id, and each
-- node stands behind the sources of all edges that lead to it.
pub validate_dag_sound :
    {N : Type 0} (dag : TaskDag N) (order : List String)
    → validate_dag dag ≡ ok order
    → Distinct order
      × ((k : String) → contains order k ≡ contains (ids_of dag.nodes) k)
      × IsOrdered dag.edges [] order
unfolding Verdict
validate_dag_sound {N} dag order h = rw h at (validate_dag-Verdict {N = N} dag)

-- Where a rank of the nodes grows along every edge, so that there is no cycle, none is reported.
pub validate_dag_acyclic :
    {N : Type 0} (dag : TaskDag N) (rank : String → ℕ) (m : Message)
    → IsRanked dag.edges rank
    → validate_dag dag ≢ err (failure task_dag_cycle m)
unfolding Verdict
validate_dag_acyclic {N} dag rank m ranked h =
    (rw h at (validate_dag-Verdict {N = N} dag)) rank ranked

-- On every graph the sort ends within a round for each node, and no `unwrap` of the validation meets
-- nothing.
pub validate_dag-ne-panicked : {N : Type 0} (dag : TaskDag N) → validate_dag dag ≢ err panicked
unfolding Verdict
validate_dag-ne-panicked {N} dag h = rw h at (validate_dag-Verdict {N = N} dag)

-- The ids of an accepted graph are distinct.
pub validate_dag-Distinct :
    {N : Type 0} (dag : TaskDag N) (order : List String)
    → validate_dag dag ≡ ok order
    → Distinct (ids_of dag.nodes)
unfolding validate_dag
validate_dag-Distinct dag order h = bind-use (check_size (length dag.nodes)) _ h λ _ _ h.
    bind-use (node_ids [] dag.nodes) _ h λ ids q _.
      let (named, distinct, _) = node_ids-Distinct [] dag.nodes ids q in rw (sym named) distinct
