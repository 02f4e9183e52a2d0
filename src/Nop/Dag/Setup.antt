-- ===== src/Nop/Dag/Setup.antt =====
-- nps-nop/src/validation.rs: what the checks of `validate_dag` have established before the sort.
use nps_sdk_rust.Common.{
  ℕ, ◌+◌, ◌≡◌, refl, sym, ap, ◌∙◌, String, true, false, not, List, [], ◌∷◌, ◌++◌, append_assoc,
  append-nil, Option, none, some, ok, guard, bind-ok, guard-ok, guard-use, ok_or-use,
  some-injective, ok-injective, if◌then◌else◌, contains, lookup, insert, lookup-insert, str_eq,
  eq_iff, arith, All, Bool-cases, inl, inr, Distinct,
}
use nps_sdk_rust.Nop.Models.{DagNode, DagEdge}
use nps_sdk_rust.Nop.Dag.{panicked, node_ids, Adjacency, Degrees, fill, change, add_edges}
use nps_sdk_rust.Nop.Dag.Graph.{targets, pending}

module _ {N : Type 0} where
  abbrev pub ids_of : List (DagNode N) → List String
  ids_of [] = []
  ids_of (n ∷ ns) = n.id ∷ ids_of ns

  pub node_ids-Distinct :
      (seen : List String) (ns : List (DagNode N)) (ids : List String)
      → node_ids seen ns ≡ ok ids
      → (ids ≡ ids_of ns)
        × Distinct ids
        × ((k : String) → contains ids k ≡ true → contains seen k ≡ false)
  unfolding node_ids
  node_ids-Distinct seen [] ids h = rw (sym (ok-injective h)) (refl, tt, λ k m. cc)
  node_ids-Distinct seen (n ∷ ns) ids h =
      let (_, g, h') = bind-ok (guard (not (contains seen n.id)) _) _ h in
      let (rest, r, q) = bind-ok (node_ids (n.id ∷ seen) ns) _ h' in
      let (e, d, f) = node_ids-Distinct (n.id ∷ seen) ns rest r in
      let new = guard-ok _ _ g in
      rw (sym (ok-injective q)) (
        ap (◌∷◌ n.id) e,
        (
          elim (Bool-cases (contains rest n.id)) [
            | inl t ↦ ground (arith, f n.id t, eq_iff n.id n.id)
            | inr t ↦ t
          ],
          d,
        ),
        λ k m. ground (arith, m, new, f k, eq_iff n.id k),
      )

-- An edge between known nodes.
abbrev pub IsKnown : List String → DagEdge → Type 0
IsKnown ids e = (contains ids e.from ≡ true) × (contains ids e.to ≡ true)

abbrev pub appended : Option (List String) → List String → Option (List String)
appended none ts = none
appended (some l) ts = some (l ++ ts)

abbrev pub added : Option ℕ → ℕ → Option ℕ
added none n = none
added (some d) n = some (d + n)

change-insert {ℓ} :
    {V : Type ℓ} (f : V → V) (k : String) (m m' : List (String × V)) (o : Option V)
    → change f k m o ≡ some m'
    → (v : V) × (o ≡ some v) × (m' ≡ insert k (f v) m)
change-insert f k m m' none h = cc
change-insert f k m m' (some v) h = (v, refl, sym (some-injective h))

pub fill-lookup {ℓ} :
    {V : Type ℓ} (v : V) (ids : List String) (k : String)
    → lookup k (fill v ids) ≡ (if contains ids k then some v else none)
unfolding lookup
fill-lookup v [] k = refl
fill-lookup v (id ∷ ids) k = ground (arith, eq_iff id k, fill-lookup v ids k)

-- The maps after the edges are read.
pub record Read (ids : List String) (es : List DagEdge) (a a' : Adjacency) (d d' : Degrees)
    : Type 0 where
  pub known : All (IsKnown ids) es
  pub adjacent : (u : String) → lookup u a' ≡ appended (lookup u a) (targets es u)
  pub degree : (v : String) → lookup v d' ≡ added (lookup v d) (pending es [] v)

appended-nil : (o : Option (List String)) → o ≡ appended o []
appended-nil none = refl
appended-nil (some l) = ap some (sym (append-nil l))

added-nil : (o : Option ℕ) → o ≡ added o 0
added-nil none = refl
added-nil (some n) = ground arith

adjacent-cons :
    (a a1 : Adjacency) (e : DagEdge) (es : List DagEdge) (l : List String) (u : String)
    → lookup e.from a ≡ some l
    → a1 ≡ insert e.from (l ++ (e.to ∷ [])) a
    → appended (lookup u a1) (targets es u) ≡ appended (lookup u a) (targets (e ∷ es) u)
unfolding targets
adjacent-cons a a1 e es l u h s = elim (Bool-cases (str_eq e.from u)) [
  | inl t ↦
      rw (s, lookup-insert e.from u (l ++ (e.to ∷ [])) a, t, ← (eq_iff e.from u).0 t, h)
        (ap some (append_assoc l (e.to ∷ []) (targets es e.from)))
  | inr t ↦ rw (s, lookup-insert e.from u (l ++ (e.to ∷ [])) a, t) refl
]

degree-cons :
    (d d1 : Degrees) (e : DagEdge) (es : List DagEdge) (n : ℕ) (v : String)
    → lookup e.to d ≡ some n
    → d1 ≡ insert e.to (n + 1) d
    → added (lookup v d1) (pending es [] v) ≡ added (lookup v d) (pending (e ∷ es) [] v)
unfolding pending
degree-cons d d1 e es n v h s = elim (Bool-cases (str_eq e.to v)) [
  | inl t ↦
      rw (s, lookup-insert e.to v (n + 1) d, t, ← (eq_iff e.to v).0 t, h) (ap some (omega arith))
  | inr t ↦ rw (s, lookup-insert e.to v (n + 1) d, t) refl
]

add_edges-cons :
    (ids : List String) (e : DagEdge) (es : List DagEdge) (a a' : Adjacency) (d d' : Degrees)
    (a1 : Adjacency) (d1 : Degrees)
    → IsKnown ids e
    → change (λ l. l ++ (e.to ∷ [])) e.from a (lookup e.from a) ≡ some a1
    → change (λ n. n + 1) e.to d (lookup e.to d) ≡ some d1
    → Read ids es a1 a' d1 d'
    → Read ids (e ∷ es) a a' d d'
add_edges-cons ids e es a a' d d' a1 d1 k ea ed r =
    let (l, la, sa) = change-insert (λ l. l ++ (e.to ∷ [])) e.from a a1 (lookup e.from a) ea in
    let (n, nd, sd) = change-insert (λ n. n + 1) e.to d d1 (lookup e.to d) ed in
    record {
      known = (k, r.known);
      adjacent = λ u. r.adjacent u ∙ adjacent-cons a a1 e es l u la sa;
      degree = λ v. r.degree v ∙ degree-cons d d1 e es n v nd sd;
    }

pub add_edges-Read :
    (ids : List String) (es : List DagEdge) (a a' : Adjacency) (d d' : Degrees)
    → add_edges ids es a d ≡ ok (a', d')
    → Read ids es a a' d d'
unfolding add_edges targets pending
add_edges-Read ids [] a a' d d' h =
    let q = ok-injective h in
    record {
      known = tt;
      adjacent = λ u. rw (sym (ap (λ p. p.0) q)) (appended-nil (lookup u a));
      degree = λ v. rw (sym (ap (λ p. p.1) q)) (added-nil (lookup v d));
    }
add_edges-Read ids (e ∷ es) a a' d d' h = guard-use (contains ids e.from) _ _ h λ from_known h0.
    guard-use (contains ids e.to) _ _ h0 λ to_known h1. ok_or-use _ panicked _ h1 λ a1 ea h2.
      ok_or-use _ panicked _ h2 λ d1 ed h3.
        add_edges-cons ids e es a a' d d' a1 d1 (from_known, to_known) ea ed
          (add_edges-Read ids es a1 a' d1 d' h3)
