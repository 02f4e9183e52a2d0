-- ===== src/Nwp/AnchorFence/Laws.antt =====
-- nps-nwp/src/anchor_fence.rs: what holds after any history of calls.
use nps_sdk_rust.Common.{
  ℕ, ◌≤◌, ◌<◌, ◌≡◌, ◌↔◌, ◌⊎◌, String, Bool, true, false, List, [], ◌∷◌, Option, some, is_ok, arith,
  All,
}
use nps_sdk_rust.Nwp.AnchorFence.{
  AnchorOwnership, standby, is_active, new, new_standby, on_inbound_frame, on_quorum_lost,
  on_quorum_restored, on_take_ownership, take_pending_events, or_one,
}

-- The calls that change an Anchor's view.
pub data Call : Type 0 where
  inbound : (epoch : Option ℕ) (sender : Option String) (is_write : Bool) → Call
  quorum_lost : (quorum_size available : ℕ) → Call
  quorum_restored drain : Call
  take_ownership : (epoch : ℕ) (reason : String) → Call

abbrev pub step : AnchorOwnership → Call → AnchorOwnership
step s (inbound epoch sender is_write) = (on_inbound_frame s epoch sender is_write).1
step s (quorum_lost n m) = (on_quorum_lost s n m).1
step s quorum_restored = on_quorum_restored s
step s drain = (take_pending_events s).1
step s (take_ownership epoch reason) = (on_take_ownership s epoch reason).1

abbrev pub run : AnchorOwnership → List Call → AnchorOwnership
run s [] = s
run s (c ∷ cs) = run (step s c) cs

-- The owner of a cluster knows of no newer epoch, and serves its streams.
abbrev pub IsValid : AnchorOwnership → Type 0
IsValid s =
    (s.own_epoch ≤ s.highest_observed_epoch)
    × (is_active s.role ≡ true → (s.own_epoch ≡ s.highest_observed_epoch) × (s.streams_open ≡ true))

step-IsValid : (s : AnchorOwnership) (c : Call) → IsValid s → IsValid (step s c)
unfolding on_inbound_frame on_quorum_lost on_quorum_restored on_take_ownership take_pending_events
step-IsValid s (inbound epoch sender is_write) (h, k) = ground arith
step-IsValid s (quorum_lost n m) (h, k) = (h, k)
step-IsValid s quorum_restored (h, k) = (h, k)
step-IsValid s drain (h, k) = (h, k)
step-IsValid s (take_ownership epoch reason) (h, k) = ground arith

run-IsValid_lem : (s : AnchorOwnership) (cs : List Call) → IsValid s → IsValid (run s cs)
run-IsValid_lem s [] v = v
run-IsValid_lem s (c ∷ cs) v = run-IsValid_lem (step s c) cs (step-IsValid s c v)

-- Whatever happens to an Anchor that started as the owner or as a standby, it never owns an epoch
-- above the highest it knows of, and while it is the active owner it owns that highest epoch and
-- its streams are open.
pub run-IsValid :
    (nid : String) (epoch : ℕ) (cs : List Call)
    → IsValid (run (new nid) cs) × IsValid (run (new_standby nid epoch) cs)
unfolding new new_standby
run-IsValid nid epoch cs = (
  run-IsValid_lem (new nid) cs (ground arith),
  run-IsValid_lem (new_standby nid epoch) cs (ground arith),
)

-- A frame is accepted exactly when it carries no newer epoch than the Anchor's own and, for a
-- topology write, the Anchor is the active owner and has its quorum; and a frame with a newer epoch
-- leaves a standby with closed streams.
pub accepts_iff :
    (s : AnchorOwnership) (epoch : Option ℕ) (sender : Option String) (is_write : Bool)
    → ((is_ok (on_inbound_frame s epoch sender is_write).0 ≡ true) ↔ (
        (or_one epoch ≤ s.own_epoch)
        × (is_write ≡ true → (is_active s.role ≡ true) × (s.degraded ≡ false))))
      × (s.own_epoch < or_one epoch
          → ((on_inbound_frame s epoch sender is_write).1.role ≡ standby)
            × ((on_inbound_frame s epoch sender is_write).1.streams_open ≡ false))
unfolding on_inbound_frame
accepts_iff s epoch sender is_write = ground arith

-- An Anchor that has met epoch `n` and does not own a later one is no owner.
abbrev Superseded : ℕ → AnchorOwnership → Type 0
Superseded n s = (n ≤ s.highest_observed_epoch) × ((is_active s.role ≡ false) ⊎ (n < s.own_epoch))

step-Superseded :
    (n : ℕ) (s : AnchorOwnership) (c : Call) → Superseded n s → Superseded n (step s c)
unfolding on_inbound_frame on_quorum_lost on_quorum_restored on_take_ownership take_pending_events
step-Superseded n s (inbound epoch sender is_write) (h, k) = ground arith
step-Superseded n s (quorum_lost q a) (h, k) = (h, k)
step-Superseded n s quorum_restored (h, k) = (h, k)
step-Superseded n s drain (h, k) = (h, k)
step-Superseded n s (take_ownership epoch reason) (h, k) = ground arith

run-Superseded :
    (n : ℕ) (s : AnchorOwnership) (cs : List Call) → Superseded n s → Superseded n (run s cs)
run-Superseded n s [] h = h
run-Superseded n s (c ∷ cs) h = run-Superseded n (step s c) cs (step-Superseded n s c h)

fenced :
    (s : AnchorOwnership) (n : ℕ) (sender : Option String) (is_write : Bool)
    → s.own_epoch < n
    → Superseded n (step s (inbound (some n) sender is_write))
unfolding on_inbound_frame
fenced s n sender is_write h = ground arith

-- Once a frame has shown an Anchor an epoch above its own, the Anchor accepts a topology write
-- again only under a still later epoch, whatever happens in between.
pub superseded_refuses :
    (s : AnchorOwnership) (n : ℕ) (sender : Option String) (is_write : Bool) (cs : List Call)
    → s.own_epoch < n
    → (epoch : Option ℕ) (writer : Option String)
    → is_ok (on_inbound_frame (run s (inbound (some n) sender is_write ∷ cs)) epoch writer true).0
      ≡ true
    → n < (run s (inbound (some n) sender is_write ∷ cs)).own_epoch
superseded_refuses s n sender is_write cs h epoch writer ok_h =
    let t = run s (inbound (some n) sender is_write ∷ cs) in
    let met =
      run-Superseded n (step s (inbound (some n) sender is_write)) cs
        (fenced s n sender is_write h) in
    ground (arith, met, accepts_iff t epoch writer true)

-- The epochs that an Anchor has owned, and those of the frames it has received, in a history.
abbrev pub call_epoch : Call → ℕ
call_epoch (inbound epoch sender is_write) = or_one epoch
call_epoch c = 0

abbrev pub met_epochs : AnchorOwnership → List Call → List ℕ
met_epochs s [] = s.own_epoch ∷ []
met_epochs s (c ∷ cs) = s.own_epoch ∷ call_epoch c ∷ met_epochs (step s c) cs

step-highest :
    (s : AnchorOwnership) (c : Call)
    → (s.highest_observed_epoch ≤ (step s c).highest_observed_epoch)
      × (call_epoch c ≤ (step s c).highest_observed_epoch)
unfolding on_inbound_frame on_quorum_lost on_quorum_restored on_take_ownership take_pending_events
step-highest s (inbound epoch sender is_write) = ground arith
step-highest s (quorum_lost q a) = ground arith
step-highest s quorum_restored = ground arith
step-highest s drain = ground arith
step-highest s (take_ownership epoch reason) = ground arith

run-highest :
    (s : AnchorOwnership) (cs : List Call)
    → s.highest_observed_epoch ≤ (run s cs).highest_observed_epoch
run-highest s [] = omega arith
run-highest s (c ∷ cs) = omega (arith, step-highest s c, run-highest (step s c) cs)

met-highest :
    (s : AnchorOwnership) (cs : List Call)
    → IsValid s
    → All (λ m. m ≤ (run s cs).highest_observed_epoch) (met_epochs s cs)
met-highest s [] v = (v.0, tt)
met-highest s (c ∷ cs) v = (
  omega (arith, v.0, run-highest s (c ∷ cs)),
  (
    omega (arith, step-highest s c, run-highest (step s c) cs),
    met-highest (step s c) cs (step-IsValid s c v),
  ),
)

below-All : (n k : ℕ) (ms : List ℕ) → All (λ m. m ≤ k) ms → k < n → All (λ m. m < n) ms
below-All n k [] h l = tt
below-All n k (m ∷ ms) (a, h) l = (omega arith, below-All n k ms h l)

-- An ownership that an Anchor takes has an epoch above every epoch that it owned or received
-- before, in any history that begins where the Anchor is valid; and the Anchor then accepts
-- topology writes under that epoch.
pub taken_epoch_new :
    (s : AnchorOwnership) (cs : List Call) (n : ℕ) (reason : String)
    → IsValid s
    → is_ok (on_take_ownership (run s cs) n reason).0 ≡ true
    → All (λ m. m < n) (met_epochs s cs)
      × ((epoch : Option ℕ) (writer : Option String)
          → or_one epoch ≤ n
          → is_ok (on_inbound_frame (on_take_ownership (run s cs) n reason).1 epoch writer true).0
            ≡ true)
unfolding on_take_ownership on_inbound_frame
taken_epoch_new s cs n reason v h =
    (below-All n _ _ (met-highest s cs v) (ground arith), λ epoch writer l. ground arith)
