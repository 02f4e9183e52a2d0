-- ===== src/Nwp/AnchorFence.antt =====
-- nps-nwp/src/anchor_fence.rs, with the two event factories of nps-nwp/src/anchor_client.rs: the
-- Anchor's view of who owns its cluster. An event's details are the arguments of its factory. The
-- two pieces of code that reach an Anchor from outside are frames and the host's consensus.
pub mod Laws
use nps_sdk_rust.Common.{
  ℕ, String, Bool, true, false, not, ◌&&◌, ◌||◌, List, [], ◌∷◌, ◌++◌, Option, none, some, Result,
  ok, err, ltb, leb, if◌then◌else◌, str_eq,
}
use nps_sdk_rust.Core.Error.{Message, lit, dec}

-- `AnchorState::failover_with` and `AnchorState::quorum_lost`, whose version is 0.
pub data TopologyEvent : Type 0 where
  anchor_failover : (successor_nid : String) (cluster_epoch : ℕ) (reason : String) → TopologyEvent
  anchor_quorum_lost : (quorum_size available : ℕ) → TopologyEvent

pub data ErrorCode : Type 0 where
  anchor_epoch_fenced anchor_not_leader : ErrorCode

pub record TopologyProtocolError : Type 0 where
  pub nwp_error_code : ErrorCode
  pub message : Message

pub data AnchorRole : Type 0 where
  active standby : AnchorRole

abbrev pub is_active : AnchorRole → Bool
is_active active = true
is_active standby = false

pub record AnchorOwnership : Type 0 where
  pub anchor_nid : String
  pub own_epoch : ℕ
  pub role : AnchorRole
  pub degraded : Bool
  pub highest_observed_epoch : ℕ
  pub pending_events : List TopologyEvent
  pub streams_open : Bool

unfoldable pub new : String → AnchorOwnership
new nid = record {
  anchor_nid = nid;
  own_epoch = 1;
  role = active;
  degraded = false;
  highest_observed_epoch = 1;
  pending_events = [];
  streams_open = true;
}

unfoldable pub new_standby : String → ℕ → AnchorOwnership
unfolding new
new_standby nid epoch =
    let s = new nid in
    record s { own_epoch = epoch; highest_observed_epoch = epoch; role = standby }

-- The events for the host to publish, and the Anchor without them.
unfoldable pub take_pending_events : AnchorOwnership → List TopologyEvent × AnchorOwnership
take_pending_events s = (s.pending_events, record s { pending_events = [] })

abbrev pub push_event : TopologyEvent → AnchorOwnership → AnchorOwnership
push_event e s = record s { pending_events = s.pending_events ++ (e ∷ []) }

abbrev pub or_one : Option ℕ → ℕ
or_one none = 1
or_one (some n) = n

abbrev pub or_empty : Option String → String
or_empty none = ""
or_empty (some s) = s

-- The first assignment of `on_inbound_frame`.
abbrev pub observe : ℕ → AnchorOwnership → AnchorOwnership
observe inbound s = record s {
  highest_observed_epoch =
      if ltb s.highest_observed_epoch inbound then inbound else s.highest_observed_epoch;
}

-- What step (a) does to an Anchor that a newer leader supersedes.
abbrev pub fence : ℕ → String → AnchorOwnership → AnchorOwnership
fence inbound sender s = record s {
  role = standby;
  pending_events = s.pending_events ++ (anchor_failover sender inbound "active_lost" ∷ []);
  streams_open = false;
}

abbrev pub fenced_error : ℕ → ℕ → TopologyProtocolError
fenced_error inbound own = record {
  nwp_error_code = anchor_epoch_fenced;
  message =
      lit "inbound cluster_epoch "
      ∷ dec inbound
      ∷ lit " supersedes this Anchor's epoch "
      ∷ dec own
      ∷ lit "; this Anchor is fenced."
      ∷ [];
}

abbrev pub not_leader_error : AnchorRole → TopologyProtocolError
not_leader_error role = record {
  nwp_error_code = anchor_not_leader;
  message =
      lit "topology writes are only accepted by the active cluster owner: "
      ∷ lit (
          if is_active role
          then "this Anchor is read-only-degraded (quorum lost)"
          else "this Anchor is a standby")
      ∷ lit "."
      ∷ [];
}

-- The answer to the frame, and the Anchor after it, which an error does not take back.
unfoldable pub on_inbound_frame :
    AnchorOwnership
    → Option ℕ
    → Option String
    → Bool
    → Result TopologyProtocolError (Unit {0}) × AnchorOwnership
on_inbound_frame self inbound_epoch sender_anchor_nid is_topology_write =
    let inbound = or_one inbound_epoch in
    let seen = observe inbound self in
    if ltb self.own_epoch inbound
    then (
      err (fenced_error inbound self.own_epoch),
      fence inbound (or_empty sender_anchor_nid) seen,
    )
    else if is_topology_write && (not (is_active self.role) || self.degraded)
    then (err (not_leader_error self.role), seen)
    else (ok tt, seen)

-- The epoch that `stamp_response` writes into a snapshot.
unfoldable pub stamp_response : AnchorOwnership → Option ℕ
stamp_response s = some s.own_epoch

unfoldable pub on_quorum_lost : AnchorOwnership → ℕ → ℕ → TopologyEvent × AnchorOwnership
on_quorum_lost s quorum_size available =
    let ev = anchor_quorum_lost quorum_size available in
    (ev, push_event ev (record s { degraded = true }))

unfoldable pub on_quorum_restored : AnchorOwnership → AnchorOwnership
on_quorum_restored s = record s { degraded = false }

abbrev pub must_increase : ℕ → ℕ → TopologyProtocolError
must_increase new_epoch highest = record {
  nwp_error_code = anchor_epoch_fenced;
  message =
      lit "cluster_epoch must strictly increase: "
      ∷ dec new_epoch
      ∷ lit " does not exceed the highest observed epoch "
      ∷ dec highest
      ∷ lit "."
      ∷ [];
}

unfoldable pub on_take_ownership :
    AnchorOwnership → ℕ → String → Result TopologyProtocolError (TopologyEvent) × AnchorOwnership
on_take_ownership self new_epoch reason =
    if leb new_epoch self.highest_observed_epoch
    then (err (must_increase new_epoch self.highest_observed_epoch), self)
    else (let ev = anchor_failover self.anchor_nid new_epoch reason in
        (
          ok ev,
          push_event ev (record self {
            own_epoch = new_epoch;
            highest_observed_epoch = new_epoch;
            role = active;
            degraded = false;
            streams_open = true;
          }),
        ))
