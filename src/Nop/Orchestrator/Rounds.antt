-- ===== src/Nop/Orchestrator/Rounds.antt =====
-- nps-nop/src/orchestrator.rs: the nodes in flight have no state yet, and each round settles one.
use nps_sdk_rust.Common.{
  ◌+◌, ◌≤◌, ◌≡◌, refl, sym, ap, ◌∙◌, String, Bool, true, false, List, [], ◌∷◌, ◌++◌, append_assoc,
  Option, none, some, leb, length, contains, select, lookup, insert, str_eq, arith, eq_iff,
  lookup-insert, length-insert_le, contains-append, Distinct, Distinct-append, Distinct-prefix,
  Distinct-without, Bool-cases, inl, inr,
}
use nps_sdk_rust.Nop.Models.{DagNode}
use nps_sdk_rust.Nop.Dag.{upstreams}
use nps_sdk_rust.Nop.Dag.Setup.{ids_of}
use nps_sdk_rust.Nop.InputMapper.{Context}
use nps_sdk_rust.Nop.Store.{TaskState, TaskFrame, failed}
use nps_sdk_rust.Nop.Orchestrator.Readiness.{States, required}
use nps_sdk_rust.Nop.Orchestrator.{
  Orchestrator, Run, not_found, all_nodes_of, flying, is_ready, is_unsatisfiable, fail_node,
  fail_unsatisfiable, launch,
}

-- Distinct ids without a state.
unfoldable pub AreOpen : States → List String → Type 0
AreOpen states ids = Distinct ids × ((k : String) → contains ids k ≡ true → lookup k states ≡ none)

pub AreOpen-nil : (states : States) → AreOpen states []
unfolding AreOpen
AreOpen-nil states = (tt, λ k m. cc)

AreOpen-prefix :
    (states : States) (xs ys : List String) → AreOpen states (xs ++ ys) → AreOpen states xs
unfolding AreOpen
AreOpen-prefix states xs ys (d, h) =
    (Distinct-prefix xs ys d, λ k m. h k (ground (arith, m, contains-append xs ys k)))

-- One of them gets a state.
pub AreOpen-settle :
    (states : States) (xs ys : List String) (x : String) (s : TaskState)
    → AreOpen states (xs ++ (x ∷ ys))
    → AreOpen (insert x s states) (xs ++ ys)
unfolding AreOpen
AreOpen-settle states xs ys x s (d, h) =
    let (f, e) = Distinct-without xs ys x d in
    (
      e,
      λ k m. ground (
        arith,
        lookup-insert x k s states,
        h k,
        m,
        f,
        eq_iff x k,
        contains-append xs (x ∷ ys) k,
        contains-append xs ys k,
      ),
    )

pub AreOpen-none :
    (states : States) (xs ys : List String) (x : String)
    → AreOpen states (xs ++ (x ∷ ys))
    → lookup x states ≡ none
unfolding AreOpen
AreOpen-none states xs ys x (d, h) = h x (ground (arith, contains-append xs (x ∷ ys) x, eq_iff x x))

AreOpen-shift :
    (states : States) (xs ys : List String) (x : String)
    → AreOpen states (xs ++ (x ∷ ys))
    → AreOpen states ((xs ++ (x ∷ [])) ++ ys)
AreOpen-shift states xs ys x h = rw (append_assoc xs (x ∷ []) ys) h

AreOpen-unshift :
    (states : States) (xs ys : List String) (x : String)
    → AreOpen states ((xs ++ (x ∷ [])) ++ ys)
    → AreOpen states (xs ++ (x ∷ ys))
AreOpen-unshift states xs ys x h = rw (sym (append_assoc xs (x ∷ []) ys)) h

pub all_nodes_of-length :
    {N : Type 0} (ns : List (DagNode N)) (m : List (String × DagNode N))
    → length (all_nodes_of ns m) ≤ length m + length ns
unfolding all_nodes_of
all_nodes_of-length [] m = omega arith
all_nodes_of-length (n ∷ ns) m =
    omega (arith, all_nodes_of-length ns (insert n.id n m), length-insert_le n.id n m)

module _ {N F : Type 0} (o : Orchestrator N F) (task : TaskFrame N) where
  -- What the loop over the ready nodes keeps is open, behind any ids `xs` that are.
  pub fail_unsatisfiable-AreOpen :
      (ns : List (DagNode N)) (run : Run N) (xs : List String)
      → AreOpen run.node_states (xs ++ ids_of ns)
      → AreOpen
          ((fail_unsatisfiable o task ns run).1).node_states
          (xs ++ ids_of ((fail_unsatisfiable o task ns run).0))
  unfolding fail_unsatisfiable
  fail_unsatisfiable-AreOpen [] run xs h = h
  fail_unsatisfiable-AreOpen (n ∷ ns) run xs h =
      elim (Bool-cases (is_unsatisfiable (upstreams n) run.node_states (required n))) [
        | inl t ↦ rw (t) (
            fail_unsatisfiable-AreOpen ns (fail_node o task n run) xs
              (AreOpen-settle run.node_states xs (ids_of ns) n.id failed h))
        | inr t ↦ rw (t) (
            AreOpen-unshift _ xs _ n.id (
              fail_unsatisfiable-AreOpen ns run (xs ++ (n.id ∷ []))
                (AreOpen-shift run.node_states xs (ids_of ns) n.id h)))
      ]

  pub fail_unsatisfiable-in_flight :
      (ns : List (DagNode N)) (run : Run N)
      → ((fail_unsatisfiable o task ns run).1).in_flight ≡ run.in_flight
  unfolding fail_unsatisfiable
  fail_unsatisfiable-in_flight [] run = refl
  fail_unsatisfiable-in_flight (n ∷ ns) run =
      elim (Bool-cases (is_unsatisfiable (upstreams n) run.node_states (required n))) [
        | inl t ↦ rw (t) (fail_unsatisfiable-in_flight ns (fail_node o task n run))
        | inr t ↦ rw (t) (fail_unsatisfiable-in_flight ns run)
      ]

  pub fail_unsatisfiable-length :
      (ns : List (DagNode N)) (run : Run N)
      → length run.node_states ≤ length ((fail_unsatisfiable o task ns run).1).node_states
  unfolding fail_unsatisfiable
  fail_unsatisfiable-length [] run = omega arith
  fail_unsatisfiable-length (n ∷ ns) run =
      elim (Bool-cases (is_unsatisfiable (upstreams n) run.node_states (required n))) [
        | inl t ↦ rw (t) (
            omega (
              arith,
              fail_unsatisfiable-length ns (fail_node o task n run),
              length-insert_le n.id failed run.node_states,
            ))
        | inr t ↦ rw (t) (fail_unsatisfiable-length ns run)
      ]

  flying-snoc :
      (fs : List (DagNode N × Context N)) (n : DagNode N) (c : Context N)
      → flying (fs ++ ((n, c) ∷ [])) ≡ flying fs ++ (n.id ∷ [])
  flying-snoc [] n c = refl
  flying-snoc ((m, d) ∷ fs) n c = ap (λ l. m.id ∷ l) (flying-snoc fs n c)

  -- Launched nodes are open.
  pub launch-AreOpen :
      (ns : List (DagNode N)) (run : Run N)
      → AreOpen run.node_states (flying run.in_flight ++ ids_of ns)
      → AreOpen (launch o task ns run).node_states (flying (launch o task ns run).in_flight)
  unfolding launch
  launch-AreOpen [] run h = AreOpen-prefix run.node_states (flying run.in_flight) [] h
  launch-AreOpen (n ∷ ns) run h =
      elim (Bool-cases (leb o.max_concurrent_nodes (length run.in_flight))) [
        | inl t ↦ rw (t) (AreOpen-prefix run.node_states (flying run.in_flight) _ h)
        | inr t ↦ rw (t) (
            launch-AreOpen ns _ (
              rw (flying-snoc run.in_flight n run.node_results)
                (AreOpen-shift run.node_states (flying run.in_flight) (ids_of ns) n.id h)))
      ]

  pub launch-node_states :
      (ns : List (DagNode N)) (run : Run N) → (launch o task ns run).node_states ≡ run.node_states
  unfolding launch
  launch-node_states [] run = refl
  launch-node_states (n ∷ ns) run =
      elim (Bool-cases (leb o.max_concurrent_nodes (length run.in_flight))) [
        | inl t ↦ rw (t) refl
        | inr t ↦ rw (t) (launch-node_states ns _)
      ]

  -- The ready nodes are open, with those in flight.
  contains-ready :
      (p : DagNode N → Bool) (ns : List (DagNode N)) (k : String)
      → contains (ids_of (select p ns)) k ≡ true
      → contains (ids_of ns) k ≡ true
  contains-ready p [] k h = h
  contains-ready p (n ∷ ns) k h = ground (arith, h, contains-ready p ns k)

  pub Distinct-ready :
      (p : DagNode N → Bool) (ns : List (DagNode N))
      → Distinct (ids_of ns)
      → Distinct (ids_of (select p ns))
  Distinct-ready p [] d = tt
  Distinct-ready p (n ∷ ns) (f, d) = elim (Bool-cases (p n)) [
    | inl t ↦ rw (t) (ground (arith, f, contains-ready p ns n.id), Distinct-ready p ns d)
    | inr t ↦ rw (t) (Distinct-ready p ns d)
  ]

  not_found-none : (x : Option TaskState) → not_found x ≡ true → x ≡ none
  not_found-none none h = refl
  not_found-none (some s) h = cc

  is_ready-open :
      (run : Run N) (n : DagNode N)
      → is_ready run n ≡ true
      → (lookup n.id run.node_states ≡ none) × (contains (flying run.in_flight) n.id ≡ false)
  is_ready-open run n h =
      (not_found-none (lookup n.id run.node_states) (ground (arith, h)), ground (arith, h))

  eq_to : (a b : String) → str_eq a b ≡ true → a ≡ b
  eq_to a b h = ground (arith, h, eq_iff a b)

  pub ready-open :
      (run : Run N) (ns : List (DagNode N)) (k : String)
      → contains (ids_of (select (is_ready run) ns)) k ≡ true
      → (lookup k run.node_states ≡ none) × (contains (flying run.in_flight) k ≡ false)
  ready-open run [] k h = cc
  ready-open run (n ∷ ns) k h = elim (Bool-cases (is_ready run n)) [
    | inr t ↦ ready-open run ns k (sym (rw (t) refl) ∙ h)
    | inl t ↦ elim (Bool-cases (str_eq n.id k)) [
      | inl e ↦ rw (sym (eq_to n.id k e)) (is_ready-open run n t)
      | inr e ↦ ready-open run ns k (sym (rw (t, e) refl) ∙ h)
    ]
  ]

  pub ready-AreOpen :
      (run : Run N) (ns : List (DagNode N))
      → Distinct (ids_of ns)
      → AreOpen run.node_states (flying run.in_flight)
      → AreOpen run.node_states (flying run.in_flight ++ ids_of (select (is_ready run) ns))
  unfolding AreOpen
  ready-AreOpen run ns d (e, h) =
      let ready = ids_of (select (is_ready run) ns) in
      (
        Distinct-append (flying run.in_flight) ready e (Distinct-ready (is_ready run) ns d)
            (λ k m. (ready-open run ns k m).1),
        λ k m. elim (Bool-cases (contains ready k)) [
          | inl t ↦ (ready-open run ns k t).0
          | inr t ↦ h k (ground (arith, m, t, contains-append (flying run.in_flight) ready k))
        ],
      )
