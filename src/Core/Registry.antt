-- ===== src/Core/Registry.antt =====
-- nps-core/src/registry.rs: the set of frame types that a codec accepts.
use nps_sdk_rust.Common.{
  ℕ, ◌≡◌, refl, Bool, true, false, not, ◌||◌, List, [], ◌∷◌, arith, ◌==◌, if◌then◌else◌, any,
  ==_iff, Bool-cases, inl, inr,
}
use nps_sdk_rust.Core.Frames.{
  FrameType, anchor, diff, stream, caps, hello, nop, query, action, ident, trust, revoke, announce,
  resolve, graph, task, delegate, sync, align_stream, error, as_u8,
}

pub record FrameRegistry : Type 0 where
  pub registered : List ℕ

unfoldable pub new : FrameRegistry
new = record { registered = [] }

unfoldable pub is_registered : FrameRegistry → FrameType → Bool
is_registered r ft = any (λ b. b == as_u8 ft) r.registered

-- `HashSet::insert` leaves a member as it is.
unfoldable pub register : FrameRegistry → FrameType → FrameRegistry
register r ft = record {
  registered =
      if any (λ b. b == as_u8 ft) r.registered then r.registered else as_u8 ft ∷ r.registered;
}

register_all : FrameRegistry → List FrameType → FrameRegistry
register_all r [] = r
register_all r (ft ∷ fts) = register_all (register r ft) fts

unfoldable pub create_default : FrameRegistry
unfolding register new register_all
create_default = register_all new (anchor ∷ diff ∷ stream ∷ caps ∷ hello ∷ error ∷ [])

unfoldable pub create_full : FrameRegistry
unfolding register create_default
create_full = register_all create_default (
    query ∷ action ∷ ident ∷ trust ∷ revoke ∷ announce ∷ resolve ∷ graph ∷ task ∷ delegate ∷ sync
    ∷ align_stream ∷ [])

any-insert :
    (a o : ℕ) (xs : List ℕ)
    → any (λ b. b == o) (if any (λ b. b == a) xs then xs else a ∷ xs)
      ≡ (a == o) || any (λ b. b == o) xs
any-insert a o xs = elim (Bool-cases (a == o)) [
  | inl e ↦ rw ((==_iff a o).0 e) (ground arith)
  | inr e ↦ rw e (ground arith)
]

-- Registering a type adds it and changes no other.
pub is_registered-register :
    (r : FrameRegistry) (ft other : FrameType)
    → is_registered (register r ft) other ≡ (as_u8 ft == as_u8 other) || is_registered r other
unfolding is_registered register
is_registered-register r ft other = any-insert (as_u8 ft) (as_u8 other) r.registered

abbrev pub is_keepalive : FrameType → Bool
is_keepalive nop = true
is_keepalive _ = false

abbrev pub is_ncp : FrameType → Bool
is_ncp anchor = true
is_ncp diff = true
is_ncp stream = true
is_ncp caps = true
is_ncp hello = true
is_ncp error = true
is_ncp _ = false

-- The full registry holds every frame type but the keepalive, and the default one exactly the six
-- types of NCP other than the keepalive.
pub registered_types :
    (ft : FrameType)
    → (is_registered create_full ft ≡ not (is_keepalive ft))
      × (is_registered create_default ft ≡ is_ncp ft)
unfolding is_registered create_full as_u8
registered_types anchor = (refl, refl)
registered_types _ = (refl, refl)
