-- ===== src/Nop/Dag/Graph.antt =====
-- Task graphs without the code: orders of their nodes, and counts of their edges.
use nps_sdk_rust.Common.{
  ℕ, ◌+◌, ◌≡◌, refl, String, true, false, not, ◌&&◌, List, [], ◌∷◌, ◌++◌, append-nil, append_assoc,
  if◌then◌else◌, contains, contains-append, str_eq, eq_iff, arith, All,
}
use nps_sdk_rust.Nop.Models.{DagEdge}

-- Every edge into `id` comes from one of `seen`.
abbrev pub IsReady : List DagEdge → List String → String → Type 0
IsReady edges seen id = All (λ e. e.to ≡ id → contains seen e.from ≡ true) edges

-- Every id of `order` has the sources of its edges among `seen` and the ids before it.
abbrev pub IsOrdered : List DagEdge → List String → List String → Type 0
IsOrdered edges seen [] = Unit
IsOrdered edges seen (id ∷ order) =
    IsReady edges seen id × IsOrdered edges (seen ++ (id ∷ [])) order

-- The targets of the edges from `u`.
unfoldable pub targets : List DagEdge → String → List String
targets [] u = []
targets (e ∷ es) u = let rest = targets es u in if str_eq e.from u then e.to ∷ rest else rest

-- The number of edges into `v` from outside `seen`.
unfoldable pub pending : List DagEdge → List String → String → ℕ
pending [] seen v = 0
pending (e ∷ es) seen v =
    let rest = pending es seen v in
    if str_eq e.to v && not (contains seen e.from) then rest + 1 else rest

unfoldable pub occurrences : String → List String → ℕ
occurrences v [] = 0
occurrences v (w ∷ ws) = let rest = occurrences v ws in if str_eq w v then rest + 1 else rest

-- When `c` is done, its edges are no longer pending.
pub pending-snoc :
    (edges : List DagEdge) (seen : List String) (c v : String)
    → contains seen c ≡ false
    → pending edges seen v ≡ pending edges (seen ++ (c ∷ [])) v + occurrences v (targets edges c)
unfolding pending targets occurrences
pending-snoc [] seen c v h = refl
pending-snoc (e ∷ es) seen c v h = ground (
  arith,
  h,
  eq_iff e.to v,
  eq_iff e.from c,
  eq_iff c e.from,
  contains-append seen (c ∷ []) e.from,
  pending-snoc es seen c v h,
)

pub pending-IsReady :
    (edges : List DagEdge) (seen : List String) (v : String)
    → pending edges seen v ≡ 0
    → IsReady edges seen v
unfolding pending
pending-IsReady [] seen v h = tt
pending-IsReady (e ∷ es) seen v h =
    (λ t. ground (arith, h, t, eq_iff e.to v), pending-IsReady es seen v (ground (arith, h)))

pub IsReady-pending :
    (edges : List DagEdge) (seen : List String) (v : String)
    → IsReady edges seen v
    → pending edges seen v ≡ 0
unfolding pending
IsReady-pending [] seen v h = refl
IsReady-pending (e ∷ es) seen v (k, h) =
    ground (arith, k, eq_iff e.to v, IsReady-pending es seen v h)

pub IsOrdered-snoc :
    (edges : List DagEdge) (seen order : List String) (id : String)
    → IsOrdered edges seen order
    → IsReady edges (seen ++ order) id
    → IsOrdered edges seen (order ++ (id ∷ []))
IsOrdered-snoc edges seen [] id o r = (rw (append-nil seen) at r, tt)
IsOrdered-snoc edges seen (x ∷ order) id (a, o) r = (
  a,
  IsOrdered-snoc edges (seen ++ (x ∷ [])) order id o (rw (append_assoc seen (x ∷ []) order) r),
)
