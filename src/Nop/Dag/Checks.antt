-- ===== src/Nop/Dag/Checks.antt =====
-- nps-nop/src/validation.rs: the checks before the sort do not panic, and report no cycle.
use nps_sdk_rust.Common.{
  ℕ, ◌+◌, ◌≡◌, refl, String, true, not, List, [], ◌∷◌, ◌++◌, some, ok, err, guard-case, bind-case,
  contains, lookup, insert, str_eq, arith, Bool-cases, inl, inr, lookup-insert,
}
use nps_sdk_rust.Nop.Models.{DagNode, DagEdge}
use nps_sdk_rust.Nop.Dag.{
  DagResult, panicked, failure, task_dag_cycle, Adjacency, Degrees, fill, node_ids, add_edges,
  check_upstreams, upstreams, check_inputs, check_conditions, check_size, check_ends,
}
use nps_sdk_rust.Nop.Dag.Setup.{fill-lookup}

-- Failures of the checks before the sort.
abbrev pub IsPlain {ℓ} : {A : Type ℓ} → DagResult A → Type 0
IsPlain (ok a) = Unit
IsPlain (err (failure task_dag_cycle m)) = ⊥
IsPlain (err panicked) = ⊥
IsPlain (err (failure code m)) = Unit

pub node_ids-IsPlain :
    {N : Type 0} (seen : List String) (ns : List (DagNode N)) → IsPlain (node_ids seen ns)
unfolding node_ids
node_ids-IsPlain seen [] = tt
node_ids-IsPlain seen (n ∷ ns) =
    let ih = node_ids-IsPlain (n.id ∷ seen) ns in
    guard-case IsPlain (not (contains seen n.id)) _ _ (λ _. tt)
      λ _. bind-case IsPlain (node_ids (n.id ∷ seen) ns) _ (λ e q. rw (q) at ih) (λ a q. tt)

check_upstreams-IsPlain :
    (ids : List String) (id : String) (us : List String) → IsPlain (check_upstreams ids id us)
unfolding check_upstreams
check_upstreams-IsPlain ids id [] = tt
check_upstreams-IsPlain ids id (u ∷ us) =
    guard-case IsPlain (contains ids u) _ _ (λ _. tt) (λ _. check_upstreams-IsPlain ids id us)

pub check_inputs-IsPlain :
    {N : Type 0} (ids : List String) (ns : List (DagNode N)) → IsPlain (check_inputs ids ns)
unfolding check_inputs
check_inputs-IsPlain ids [] = tt
check_inputs-IsPlain ids (n ∷ ns) =
    let one = check_upstreams-IsPlain ids n.id (upstreams n) in
    bind-case IsPlain (check_upstreams ids n.id (upstreams n)) _ (λ e q. rw (q) at one)
      (λ _ _. check_inputs-IsPlain ids ns)

pub check_conditions-IsPlain : {N : Type 0} (ns : List (DagNode N)) → IsPlain (check_conditions ns)
unfolding check_conditions
check_conditions-IsPlain [] = tt
check_conditions-IsPlain (n ∷ ns) =
    guard-case IsPlain _ _ _ (λ _. tt) (λ _. check_conditions-IsPlain ns)

-- Every id has an entry.
abbrev pub Covers {ℓ} : {V : Type ℓ} → List String → List (String × V) → Type ℓ
Covers {V} ids m = (k : String) → contains ids k ≡ true → (v : V) × (lookup k m ≡ some v)

insert-Covers {ℓ} :
    {V : Type ℓ} (ids : List String) (m : List (String × V)) (j : String) (w : V)
    → Covers ids m
    → Covers ids (insert j w m)
insert-Covers ids m j w h k c = elim (Bool-cases (str_eq j k)) [
  | inl t ↦ (w, rw (lookup-insert j k w m, t) refl)
  | inr t ↦ ((h k c).0, rw (lookup-insert j k w m, t) (h k c).1)
]

pub add_edges-IsPlain :
    (ids : List String) (es : List DagEdge) (a : Adjacency) (d : Degrees)
    → Covers ids a
    → Covers ids d
    → IsPlain (add_edges ids es a d)
unfolding add_edges
add_edges-IsPlain ids [] a d ca cd = tt
add_edges-IsPlain ids (e ∷ es) a d ca cd =
    guard-case IsPlain (contains ids e.from) _ _ (λ _. tt)
      λ kf.
        guard-case IsPlain (contains ids e.to) _ _ (λ _. tt)
          λ kt.
            let (l, el) = ca e.from kf in
            let (n, en) = cd e.to kt in
            rw (el, en)
              (add_edges-IsPlain ids es (insert e.from (l ++ (e.to ∷ [])) a) (insert e.to (n + 1) d)
                (insert-Covers ids a e.from _ ca) (insert-Covers ids d e.to _ cd))

pub fill-Covers {ℓ} : {V : Type ℓ} (v : V) (ids : List String) → Covers ids (fill v ids)
fill-Covers v ids k m = (v, rw (fill-lookup v ids k, m) refl)

pub check_size-IsPlain : (n : ℕ) → IsPlain (check_size n)
unfolding check_size
check_size-IsPlain n = ground arith

pub check_ends-IsPlain : (a : Adjacency) (d : Degrees) → IsPlain (check_ends a d)
unfolding check_ends
check_ends-IsPlain a d = ground arith
