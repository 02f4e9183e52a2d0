-- ===== src/Nop/Orchestrator/Reach.antt =====
-- nps-nop/src/orchestrator.rs: `can_reach_end_node` searches exactly the paths of the graph.
use nps_sdk_rust.Common.{
  ℕ, zero, suc, ◌+◌, ◌≤◌, ◌≡◌, ◌≢◌, ◌↔◌, refl, sym, ap, ◌∙◌, String, Bool, true, false, ◌||◌, List,
  [], ◌∷◌, ◌++◌, some, if◌then◌else◌, length, length-append, contains, contains-append, str_eq,
  arith, eq_iff, Bool-cases, inl, inr,
}
use nps_sdk_rust.Nop.Models.{DagEdge}
use nps_sdk_rust.Nop.Orchestrator.Readiness.{neighbors, search_end, or_false, can_reach_end_node}

-- A path along the edges.
pub data Reach (edges : List DagEdge) : String → String → Type 0 where
  here : (u : String) → Reach edges u u
  step :
      (u v w : String) → contains (neighbors u edges) v ≡ true → Reach edges v w → Reach edges u w

-- The edges whose source is not visited.
abbrev open_edges : List String → List DagEdge → ℕ
open_edges visited [] = 0
open_edges visited (e ∷ es) =
    if contains visited e.from then open_edges visited es else suc (open_edges visited es)

open_edges-neighbors :
    (edges : List DagEdge) (visited : List String) (cur : String)
    → contains visited cur ≡ false
    → open_edges (cur ∷ visited) edges + length (neighbors cur edges) ≡ open_edges visited edges
open_edges-neighbors [] visited cur h = omega arith
open_edges-neighbors (e ∷ es) visited cur h =
    ground (arith, h, eq_iff e.from cur, eq_iff cur e.from, open_edges-neighbors es visited cur h)

open_edges_le : (edges : List DagEdge) → open_edges [] edges ≤ length edges
open_edges_le [] = omega arith
open_edges_le (e ∷ es) = omega (arith, open_edges_le es)

module _ (edges : List DagEdge) (end_id : String) where
  -- The rounds are enough.
  search_end-some :
      (rounds : ℕ) (visited queue : List String)
      → length queue + open_edges visited edges ≤ rounds
      → (b : Bool) × search_end rounds edges end_id visited queue ≡ some b
  unfolding search_end
  search_end-some rounds visited [] l = (false, refl)
  search_end-some zero visited (cur ∷ queue) l = ground arith
  search_end-some (suc rounds) visited (cur ∷ queue) l = elim (Bool-cases (str_eq cur end_id)) [
    | inl t ↦ rw (t) (true, refl)
    | inr t ↦ elim (Bool-cases (contains visited cur)) [
      | inl v ↦ rw (t, v) (search_end-some rounds visited queue (omega arith))
      | inr v ↦
          rw (t, v)
            (search_end-some rounds (cur ∷ visited) (queue ++ neighbors cur edges) (
              omega (
                arith,
                length-append queue (neighbors cur edges),
                open_edges-neighbors edges visited cur v,
              )))
    ]
  ]

  -- An id of the queue from which the end is reached.
  Found : List String → Type 0
  Found queue = (v : String) × ((contains queue v ≡ true) × Reach edges v end_id)

  search_end-Found :
      (rounds : ℕ) (visited queue : List String)
      → search_end rounds edges end_id visited queue ≡ some true
      → Found queue
  unfolding search_end Found
  search_end-Found rounds visited [] h = cc
  search_end-Found zero visited (cur ∷ queue) h = cc
  search_end-Found (suc rounds) visited (cur ∷ queue) h = elim (Bool-cases (str_eq cur end_id)) [
    | inl t ↦ (end_id, (ground (arith, t, eq_iff cur end_id), here end_id))
    | inr t ↦ elim (Bool-cases (contains visited cur)) [
      | inl v ↦
          let (w, (m, r)) = search_end-Found rounds visited queue (sym (rw (t, v) refl) ∙ h) in
          (w, (ground (arith, m), r))
      | inr v ↦
          let (w, (m, r)) =
            search_end-Found rounds (cur ∷ visited) (queue ++ neighbors cur edges)
              (sym (rw (t, v) refl) ∙ h) in
          elim (Bool-cases (contains queue w)) [
            | inl q ↦ (w, (ground (arith, q), r))
            | inr q ↦ (
              cur,
              (
                ground (arith, eq_iff cur cur),
                step cur w end_id
                    (ground (arith, q, m, contains-append queue (neighbors cur edges) w)) r,
              ),
            )
          ]
    ]
  ]

  -- The neighbors of visited ids are visited or in the queue, and the end is not visited.
  record Explored (visited queue : List String) : Type 0 where
    closed :
        (u v : String)
        → contains visited u ≡ true
        → contains (neighbors u edges) v ≡ true
        → contains visited v || contains queue v ≡ true
    unfinished : contains visited end_id ≡ false

  -- No path from a visited id leads to the end, where the queue is empty.
  no_path :
      (visited : List String) (u w : String)
      → Explored visited []
      → contains visited u ≡ true
      → Reach edges u w
      → w ≢ end_id
  no_path visited u w x m (here _) e = ground (arith, m, x.unfinished, sym e)
  no_path visited u w x m (step _ v _ n r) e =
      no_path visited v w x (ground (arith, x.closed u v m n)) r e

  search_end-end :
      (rounds : ℕ) (visited queue : List String) (cur : String)
      → str_eq cur end_id ≡ true
      → search_end (suc rounds) edges end_id visited (cur ∷ queue) ≡ some true
  unfolding search_end
  search_end-end rounds visited queue cur t = rw (t) refl

  search_end-unreached :
      (rounds : ℕ) (visited queue : List String)
      → search_end rounds edges end_id visited queue ≡ some false
      → Explored visited queue
      → (u : String) → contains visited u || contains queue u ≡ true
      → ¬ Reach edges u end_id
  unfolding search_end
  search_end-unreached rounds visited [] h x u m r =
      no_path visited u end_id x (ground (arith, m)) r refl
  search_end-unreached zero visited (cur ∷ queue) h x u m r = cc
  search_end-unreached (suc rounds) visited (cur ∷ queue) h x u m r =
      elim (Bool-cases (str_eq cur end_id)) [
        | inl t ↦ cc (search_end-end rounds visited queue cur t, h)
        | inr t ↦ elim (Bool-cases (contains visited cur)) [
          | inl v ↦
              search_end-unreached rounds visited queue (sym (rw (t, v) refl) ∙ h)
                (record {
                  closed = λ a b p q. ground (arith, x.closed a b p q, v, eq_iff cur b);
                  unfinished = x.unfinished;
                })
                u (ground (arith, m, v, eq_iff cur u)) r
          | inr v ↦
              search_end-unreached rounds (cur ∷ visited) (queue ++ neighbors cur edges)
                (sym (rw (t, v) refl) ∙ h)
                (record {
                  closed = λ a b p q. ground (
                    arith,
                    x.closed a b,
                    p,
                    q,
                    eq_iff cur a,
                    eq_iff cur b,
                    contains-append queue (neighbors cur edges) b,
                  );
                  unfinished = ground (arith, t, x.unfinished);
                })
                u (ground (arith, m, eq_iff cur u, contains-append queue (neighbors cur edges) u)) r
        ]
      ]

  closed_nil : (start : String) → Explored [] (start ∷ [])
  closed_nil start = record { closed = λ u v m n. cc; unfinished = refl }

  Found-one : (start : String) → Found (start ∷ []) → Reach edges start end_id
  unfolding Found
  Found-one start (v, (m, r)) = rw (eq_only start v m) r
    where
      eq_only : (start v : String) → contains (start ∷ []) v ≡ true → start ≡ v
      eq_only start v m = ground (arith, m, eq_iff start v)

  decided :
      (start : String) (rounds : ℕ) (b : Bool)
      → search_end rounds edges end_id [] (start ∷ []) ≡ some b
      → (or_false (search_end rounds edges end_id [] (start ∷ [])) ≡ true)
        ↔ Reach edges start end_id
  decided start rounds true e =
      (λ h. Found-one start (search_end-Found rounds [] (start ∷ []) e), λ r. ap or_false e)
  decided start rounds false e = (
    λ h. cc (ap or_false e, h),
    λ r.
        elim (search_end-unreached rounds [] (start ∷ []) e (closed_nil start) start
          (ground (arith, eq_iff start start)) r) [ ],
  )

  -- The search for an end node behind a failed one answers yes exactly where a path of edges leads
  -- from the failed node to the end node; its rounds, one for each edge and one more, are enough.
  pub can_reach_end_node_iff :
      (failed_id : String)
      → (can_reach_end_node end_id failed_id edges ≡ true) ↔ Reach edges failed_id end_id
  unfolding can_reach_end_node
  can_reach_end_node_iff failed_id =
      let (b, e) =
        search_end-some (suc (length edges)) [] (failed_id ∷ [])
          (omega (arith, open_edges_le edges)) in
      decided failed_id (suc (length edges)) b e
