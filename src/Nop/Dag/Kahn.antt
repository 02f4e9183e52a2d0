-- ===== src/Nop/Dag/Kahn.antt =====
-- nps-nop/src/validation.rs: the invariant of Kahn's algorithm, whose rounds are enough.
use nps_sdk_rust.Common.{
  ℕ, zero, suc, ◌+◌, ◌≡◌, inl, inr, refl, ◌∙◌, String, true, false, ◌&&◌, ◌||◌, List, [], ◌∷◌, ◌++◌,
  append_assoc, some, ◌==◌, if◌then◌else◌, contains, contains-append, length, length-append, lookup,
  insert, lookup-insert, str_eq, eq_iff, arith, Bool-cases, Distinct, Distinct-snoc,
  Distinct-middle, length-le_of_subset,
}
use nps_sdk_rust.Nop.Models.{DagEdge}
use nps_sdk_rust.Nop.Dag.{Adjacency, Degrees, visit, kahn}
use nps_sdk_rust.Nop.Dag.Graph.{
  IsOrdered, targets, pending, occurrences, pending-snoc, pending-IsReady, IsOrdered-snoc,
}

module _ (edges : List DagEdge) (ids : List String) where
  -- What is still to come for `v`, while `vs` of the current round are not visited.
  abbrev pub load : List String → List String → String → ℕ
  load seen vs v = pending edges seen v + occurrences v vs

  -- In the middle of a round: `sorted` is done, and `vs` are to be visited.
  pub record Round (sorted queue vs : List String) (remaining : Degrees) : Type 0 where
    pub counts : (v : String) → contains ids v ≡ true → lookup v remaining ≡ some (load sorted vs v)
    pub known : (v : String) → contains (sorted ++ queue) v ≡ true → contains ids v ≡ true
    pub due : (v : String) → contains (sorted ++ queue) v ≡ true → load sorted vs v ≡ 0
    pub complete :
        (v : String)
        → contains ids v ≡ true
        → load sorted vs v ≡ 0
        → contains (sorted ++ queue) v ≡ true
    pub distinct : Distinct (sorted ++ queue)

  -- A neighbour's visit.
  abbrev joined : ℕ → String → List String → List String
  joined d v queue = if d == 0 then queue ++ (v ∷ []) else queue

  load-head :
      (sorted vs : List String) (v w : String)
      → load sorted (v ∷ vs) w ≡ (if str_eq v w then load sorted vs w + 1 else load sorted vs w)
  unfolding occurrences
  load-head sorted vs v w = ground (arith, eq_iff v w)

  contains-joined :
      (d : ℕ) (sorted queue : List String) (v w : String)
      → contains (sorted ++ joined d v queue) w
        ≡ contains (sorted ++ queue) w || ((d == 0) && str_eq v w)
  contains-joined d sorted queue v w = ground (
    arith,
    contains-append sorted (queue ++ (v ∷ [])) w,
    contains-append queue (v ∷ []) w,
    contains-append sorted queue w,
  )

  fresh :
      (sorted queue vs : List String) (v : String) (remaining : Degrees)
      → Round sorted queue (v ∷ vs) remaining
      → contains (sorted ++ queue) v ≡ false
  fresh sorted queue vs v remaining r = elim (Bool-cases (contains (sorted ++ queue) v)) [
    | inl t ↦ ground (arith, load-head sorted vs v v, r.due v t, eq_iff v v)
    | inr t ↦ t
  ]

  joined-Distinct :
      (sorted queue vs : List String) (v : String) (d : ℕ) (remaining : Degrees)
      → Round sorted queue (v ∷ vs) remaining
      → Distinct (sorted ++ joined d v queue)
  joined-Distinct sorted queue vs v d remaining r = elim (Bool-cases (d == 0)) [
    | inl t ↦
        rw (t, ← append_assoc sorted queue (v ∷ []))
          (Distinct-snoc (sorted ++ queue) v r.distinct (fresh sorted queue vs v remaining r))
    | inr t ↦ rw (t) r.distinct
  ]

  visit-Round :
      (sorted queue vs : List String) (v : String) (d : ℕ) (remaining : Degrees)
      → contains ids v ≡ true
      → load sorted vs v ≡ d
      → Round sorted queue (v ∷ vs) remaining
      → Round sorted (joined d v queue) vs (insert v d remaining)
  visit-Round sorted queue vs v d remaining k e r = record {
    counts = λ w m. ground (
      arith,
      lookup-insert v w d remaining,
      eq_iff v w,
      e,
      r.counts w m,
      load-head sorted vs v w,
    );
    known = λ w m. ground (arith, contains-joined d sorted queue v w, m, k, eq_iff v w, r.known w);
    due = λ w m. ground (
      arith,
      contains-joined d sorted queue v w,
      m,
      e,
      eq_iff v w,
      r.due w,
      load-head sorted vs v w,
    );
    complete = λ w m z. ground (
      arith,
      contains-joined d sorted queue v w,
      m,
      z,
      e,
      eq_iff v w,
      r.complete w m,
      load-head sorted vs v w,
    );
    distinct = joined-Distinct sorted queue vs v d remaining r;
  }

  visit-cons :
      (v : String) (vs : List String) (d : ℕ) (remaining : Degrees) (queue : List String)
      → lookup v remaining ≡ some (suc d)
      → visit (v ∷ vs) remaining queue ≡ visit vs (insert v d remaining) (joined d v queue)
  unfolding visit
  visit-cons v vs d remaining queue e = rw (e, visit) refl

  -- The inner loop comes to its end without a panic.
  visit_all :
      (sorted vs : List String) (remaining : Degrees) (queue : List String)
      → ((v : String) → contains vs v ≡ true → contains ids v ≡ true)
      → Round sorted queue vs remaining
      → (remaining' : Degrees) × (queue' : List String) × (visit vs remaining queue
          ≡ some (remaining', queue'))
        × Round sorted queue' [] remaining'
  unfolding visit
  visit_all sorted [] remaining queue within r = (remaining, queue, refl, r)
  visit_all sorted (v ∷ vs) remaining queue within r =
      let k = within v (ground (arith, eq_iff v v)) in
      let d = load sorted vs v in
      let e : lookup v remaining ≡ some (suc d) =
        ground (arith, r.counts v k, load-head sorted vs v v, eq_iff v v) in
      let (remaining', queue', f, r') =
        visit_all sorted vs (insert v d remaining) (joined d v queue)
          (λ w m. within w (ground (arith, m)))
          (visit-Round sorted queue vs v d remaining k refl r) in
      (remaining', queue', visit-cons v vs d remaining queue e ∙ f, r')

  -- The head of the queue is done, and its targets are to be visited.
  pop-Round :
      (sorted queue : List String) (c : String) (remaining : Degrees)
      → Round sorted (c ∷ queue) [] remaining
      → Round (sorted ++ (c ∷ [])) queue (targets edges c) remaining
  unfolding occurrences
  pop-Round sorted queue c remaining r =
      let new = Distinct-middle sorted queue c r.distinct in
      let same = append_assoc sorted (c ∷ []) queue in
      let p = λ (v : String). pending-snoc edges sorted c v new in
      record {
        counts = λ v m. ground (arith, r.counts v m, p v);
        known = λ v m. r.known v (rw same at m);
        due = λ v m. ground (arith, r.due v (rw same at m), p v);
        complete = λ v m z. rw same (r.complete v m (ground (arith, z, p v)));
        distinct = rw same r.distinct;
      }

  pub record Finished (order : List String) : Type 0 where
    pub remaining : Degrees
    pub ordered : IsOrdered edges [] order
    pub final : Round order [] [] remaining

  module _ (adjacency : Adjacency)
      (listed : (u : String) → contains ids u ≡ true → lookup u adjacency ≡ some (targets edges u))
      (within : (u v : String) → contains (targets edges u) v ≡ true → contains ids v ≡ true) where
    kahn-cons :
        (rounds : ℕ) (remaining remaining' : Degrees) (sorted : List String) (c : String)
        (queue queue' : List String)
        → contains ids c ≡ true
        → visit (targets edges c) remaining queue ≡ some (remaining', queue')
        → kahn (suc rounds) adjacency remaining sorted (c ∷ queue)
          ≡ kahn rounds adjacency remaining' (sorted ++ (c ∷ [])) queue'
    unfolding kahn
    kahn-cons rounds remaining remaining' sorted c queue queue' k e = rw (listed c k, e, kahn) refl

    -- The outer loop comes to its end within a round for each id.
    pub kahn-Finished :
        (rounds : ℕ) (remaining : Degrees) (sorted queue : List String)
        → rounds + length sorted ≡ length ids
        → IsOrdered edges [] sorted
        → Round sorted queue [] remaining
        → (order : List String) × (kahn rounds adjacency remaining sorted queue ≡ some order)
          × Finished order
    unfolding kahn
    kahn-Finished zero remaining sorted [] n o r =
        (sorted, refl, record { remaining = remaining; ordered = o; final = r })
    kahn-Finished (suc rounds) remaining sorted [] n o r =
        (sorted, refl, record { remaining = remaining; ordered = o; final = r })
    kahn-Finished zero remaining sorted (c ∷ queue) n o r =
        let bound = length-le_of_subset (sorted ++ (c ∷ queue)) ids r.distinct r.known in
        absurd (omega (arith, n, bound, length-append sorted (c ∷ queue)))
    kahn-Finished (suc rounds) remaining sorted (c ∷ queue) n o r =
        let k =
          r.known c (rw (contains-append sorted (c ∷ queue) c) (ground (arith, eq_iff c c))) in
        let due =
          r.due c (rw (contains-append sorted (c ∷ queue) c) (ground (arith, eq_iff c c))) in
        let (remaining', queue', e, r') =
          visit_all (sorted ++ (c ∷ [])) (targets edges c) remaining queue (within c)
            (pop-Round sorted queue c remaining r) in
        let (order, f, done) =
          kahn-Finished rounds remaining' (sorted ++ (c ∷ [])) queue'
            (omega (arith, n, length-append sorted (c ∷ [])))
            (IsOrdered-snoc edges [] sorted c o
              (pending-IsReady edges sorted c (omega (arith, due))))
            r' in
        (order, kahn-cons rounds remaining remaining' sorted c queue queue' k e ∙ f, done)
