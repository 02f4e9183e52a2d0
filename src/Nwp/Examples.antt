-- ===== src/Nwp/Examples.antt =====
-- Runs of an Anchor that is superseded, and owns its cluster again.
use nps_sdk_rust.Common.{
  ℕ, ◌≤◌, ◌<◌, ◌≡◌, refl, String, true, false, List, [], ◌∷◌, Option, none, some, is_ok, arith, All,
}
use nps_sdk_rust.Nwp.AnchorFence.{
  AnchorOwnership, new, new_standby, on_inbound_frame, on_take_ownership, on_quorum_lost,
  take_pending_events, or_one,
}
use nps_sdk_rust.Nwp.AnchorFence.Laws.{
  Call, inbound, take_ownership, quorum_lost, drain, run, IsValid, run-IsValid, superseded_refuses,
  taken_epoch_new, met_epochs,
}

abbrev first : AnchorOwnership
unfolding new
first = new "urn:nps:node:api.test:anchor-a"

abbrev history : List Call
history =
    inbound (some 9) (some "urn:nps:node:api.test:anchor-b") false ∷ quorum_lost 3 1 ∷ drain ∷ []

run-IsValid_example :
    IsValid (run (new "urn:nps:node:api.test:anchor-a") history)
    × IsValid (run (new_standby "urn:nps:node:api.test:anchor-a" 3) history)
run-IsValid_example = run-IsValid "urn:nps:node:api.test:anchor-a" 3 history

superseded_refuses_example :
    9 < (run first (inbound (some 9) none false ∷ take_ownership 10 "planned" ∷ [])).own_epoch
unfolding on_inbound_frame on_take_ownership first
superseded_refuses_example =
    superseded_refuses first 9 none false (take_ownership 10 "planned" ∷ []) (omega arith) (some 10)
      none refl

taken_epoch_new_example :
    All (λ m. m < 10) (met_epochs first history)
    × ((epoch : Option ℕ) (writer : Option String)
        → or_one epoch ≤ 10
        → is_ok
            (on_inbound_frame
              (on_take_ownership (run first history) 10 "planned").1
              epoch
              writer
              true).0
          ≡ true)
unfolding on_inbound_frame on_take_ownership on_quorum_lost take_pending_events first
taken_epoch_new_example =
    taken_epoch_new first history 10 "planned" (omega arith, λ _. (refl, refl)) refl
