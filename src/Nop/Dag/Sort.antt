-- ===== src/Nop/Dag/Sort.antt =====
-- nps-nop/src/validation.rs: the sort of `validate_dag` after its checks, and that nothing panics.
use nps_sdk_rust.Common.{
  ◌≡◌, refl, String, true, ◌&&◌, List, [], ◌∷◌, some, ok, ◌>>◌, guard, ◌==◌, if◌then◌else◌,
  contains, length, lookup, eq_iff, arith, Distinct,
}
use nps_sdk_rust.Core.Error.{lit}
use nps_sdk_rust.Nop.Models.{DagEdge}
use nps_sdk_rust.Nop.Dag.{failure, task_dag_cycle, Adjacency, Degrees, sources, topological_order}
use nps_sdk_rust.Nop.Dag.Graph.{targets, pending, occurrences}
use nps_sdk_rust.Nop.Dag.Kahn.{Round, Finished, kahn-Finished}

module _ (edges : List DagEdge) where
  idle : List String → List String
  idle [] = []
  idle (v ∷ vs) = let rest = idle vs in if pending edges [] v == 0 then v ∷ rest else rest

  contains-idle :
      (vs : List String) (k : String)
      → contains (idle vs) k ≡ contains vs k && (pending edges [] k == 0)
  unfolding idle
  contains-idle [] k = refl
  contains-idle (v ∷ vs) k = ground (arith, eq_iff v k, contains-idle vs k)

  idle-Distinct : (vs : List String) → Distinct vs → Distinct (idle vs)
  unfolding idle
  idle-Distinct [] d = tt
  idle-Distinct (v ∷ vs) (f, d) = ground (arith, f, contains-idle vs v, idle-Distinct vs d)

  sources-idle :
      (remaining : Degrees) (vs : List String)
      → ((v : String) → contains vs v ≡ true → lookup v remaining ≡ some (pending edges [] v))
      → sources remaining vs ≡ ok (idle vs)
  unfolding sources idle
  sources-idle remaining [] h = refl
  sources-idle remaining (v ∷ vs) h =
      rw
        (
          h v (ground (arith, eq_iff v v)),
          sources-idle remaining vs (λ w m. h w (ground (arith, m))),
        )
        refl

  module _ (ids : List String) where
    abbrev pub Counted : Degrees → Type 0
    Counted d = (v : String) → contains ids v ≡ true → lookup v d ≡ some (pending edges [] v)

    abbrev pub Listed : Adjacency → Type 0
    Listed a = (u : String) → contains ids u ≡ true → lookup u a ≡ some (targets edges u)

    abbrev pub Within : Type 0
    Within = (u v : String) → contains (targets edges u) v ≡ true → contains ids v ≡ true

    start-Round : (d : Degrees) → Distinct ids → Counted d → Round edges ids [] (idle ids) [] d
    unfolding occurrences
    start-Round d distinct counted = record {
      counts = λ v m. ground (arith, counted v m);
      known = λ v m. ground (arith, contains-idle ids v, m);
      due = λ v m. ground (arith, contains-idle ids v, m);
      complete = λ v m z. ground (arith, contains-idle ids v, m, z);
      distinct = idle-Distinct ids distinct;
    }

    -- The sort finds an order, which it returns where it holds all ids.
    pub topological_order-Finished :
        (a : Adjacency) (d : Degrees)
        → Distinct ids
        → Listed a
        → Within
        → Counted d
        → (order : List String) × Finished edges ids order
          × (topological_order ids a d ≡ (
              guard
                (length order == length ids)
                (failure task_dag_cycle (lit "DAG contains a cycle." ∷ []))
              >> ok order))
    unfolding topological_order
    topological_order-Finished a d distinct listed within counted =
        let (order, e, done) =
          kahn-Finished edges ids a listed within (length ids) d [] (idle ids) (omega arith) tt
            (start-Round d distinct counted) in
        (order, done, rw (sources-idle d ids counted, e) refl)
