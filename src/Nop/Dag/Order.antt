-- ===== src/Nop/Dag/Order.antt =====
-- nps-nop/src/validation.rs: the order that a finished sort has found.
use nps_sdk_rust.Common.{
  ℕ, zero, suc, ◌<◌, ◌≡◌, refl, ap, ◌∙◌, String, true, List, [], ◌∷◌, append-nil, some, contains,
  length, eq_iff, arith, All, Bool-cases, inl, inr, Distinct, length-le_of_subset,
}
use nps_sdk_rust.Nop.Models.{DagEdge}
use nps_sdk_rust.Nop.Dag.{Adjacency, Degrees, fill}
use nps_sdk_rust.Nop.Dag.Graph.{IsReady, targets, occurrences, IsReady-pending}
use nps_sdk_rust.Nop.Dag.Setup.{IsKnown, Read, fill-lookup}
use nps_sdk_rust.Nop.Dag.Kahn.{Finished}
use nps_sdk_rust.Nop.Dag.Sort.{Counted, Listed, Within}

-- What the sort is given.
pub record Sortable (edges : List DagEdge) (ids : List String) (a : Adjacency) (d : Degrees)
    : Type 0 where
  pub distinct : Distinct ids
  pub known : All (IsKnown ids) edges
  pub listed : Listed edges ids a
  pub within : Within edges ids
  pub counted : Counted edges ids d

targets-known :
    (ids : List String) (edges : List DagEdge) (u v : String)
    → All (IsKnown ids) edges
    → contains (targets edges u) v ≡ true
    → contains ids v ≡ true
unfolding targets
targets-known ids [] u v k h = cc
targets-known ids (e ∷ es) u v (k, ks) h =
    ground (arith, k, h, eq_iff e.from u, eq_iff e.to v, targets-known ids es u v ks)

pub Read-Sortable :
    (edges : List DagEdge) (ids : List String) (a : Adjacency) (d : Degrees)
    → Distinct ids
    → Read ids edges (fill [] ids) a (fill 0 ids) d
    → Sortable edges ids a d
Read-Sortable edges ids a d distinct r = record {
  distinct = distinct;
  known = r.known;
  listed = λ u m. r.adjacent u ∙ rw (fill-lookup {V = List String} [] ids u, m) refl;
  within = λ u v h. targets-known ids edges u v r.known h;
  counted = λ v m. r.degree v ∙ rw (fill-lookup {V = ℕ} 0 ids v, m) (ap some (omega arith));
}

-- The order that a finished sort has found, if it is as long as the ids.
module _ (edges : List DagEdge) (ids order : List String) (done : Finished edges ids order) where
  pub order-known : (k : String) → contains order k ≡ true → contains ids k ≡ true
  order-known k m = done.final.known k (rw (append-nil order) m)

  pub order-Distinct : Distinct order
  order-Distinct = rw (append-nil order) at done.final.distinct

  pub order-full :
      length order ≡ length ids → (k : String) → contains ids k ≡ true → contains order k ≡ true
  order-full same k m = elim (Bool-cases (contains order k)) [
    | inl t ↦ t
    | inr t ↦
        let bound =
          length-le_of_subset (k ∷ order) ids (t, order-Distinct)
            (λ j n. ground (arith, m, n, eq_iff k j, order-known j)) in
        absurd (omega (arith, bound))
  ]

  -- Where a rank grows along every edge, no id is left out.
  lower-IsReady :
      (rank : String → ℕ) (n : ℕ) (v : String) (es : List DagEdge)
      → All (λ e. rank e.from < rank e.to) es
      → All (IsKnown ids) es
      → rank v < suc n
      → ((u : String) → contains ids u ≡ true → rank u < n → contains order u ≡ true)
      → IsReady es order v
  lower-IsReady rank n v [] g k l ih = tt
  lower-IsReady rank n v (e ∷ es) (g, gs) (k, ks) l ih =
      (λ t. ih e.from k.0 (omega (arith, l, g, ap rank t)), lower-IsReady rank n v es gs ks l ih)

  pub descent :
      (rank : String → ℕ)
      → All (λ e. rank e.from < rank e.to) edges
      → All (IsKnown ids) edges
      → (n : ℕ) (v : String) → contains ids v ≡ true
      → rank v < n
      → contains order v ≡ true
  unfolding occurrences
  descent rank grows known zero v m l = absurd (omega (arith, l))
  descent rank grows known (suc n) v m l =
      let ready = lower-IsReady rank n v edges grows known l (descent rank grows known n) in
      let none_left = IsReady-pending edges order v ready in
      rw (append-nil order) at (done.final.complete v m (omega (arith, none_left)))
