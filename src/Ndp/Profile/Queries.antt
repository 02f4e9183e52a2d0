-- ===== src/Ndp/Profile/Queries.antt =====
-- nps-ndp/src/registry_profile.rs: what a registry answers about its live entries.
use nps_sdk_rust.Common.{
  ℕ, String, Bool, true, false, not, ◌&&◌, List, [], ◌∷◌, Option, none, some, ltb, ◌==◌,
  if◌then◌else◌, contains, str_eq, max, select, sort_by_key,
}
use nps_sdk_rust.Core.Json.{Fields}
use nps_sdk_rust.Ndp.Profile.Canonical.{ProfileOps}
use nps_sdk_rust.Ndp.Profile.Readers.{string_value, number_value, strings, is_bridge}
use nps_sdk_rust.Ndp.Profile.{Entry, NdpRegistryProfile}

-- The code of a selection is that of a split, or none.
pub record NdpClusterSelection : Type 0 where
  pub nid : Option String
  pub epoch : Option ℕ
  pub is_split : Bool

module _ {N : Type 0} (ops : ProfileOps N) where
  abbrev pub is_live : ℕ → String × Entry N → Bool
  is_live now e = ltb now e.1.expires_at

  abbrev pub keys {ℓ} : {A : Type ℓ} → List (String × A) → List String
  keys [] = []
  keys ((k, v) ∷ r) = k ∷ keys r

  unfoldable pub live_nids : NdpRegistryProfile N → ℕ → List String
  unfolding sort_by_key
  live_nids r now = keys (sort_by_key (select (is_live now) r.entries))

  unfoldable pub highest_sequences : NdpRegistryProfile N → List (String × ℕ)
  unfolding sort_by_key
  highest_sequences r = sort_by_key r.sequences

  abbrev pub text_is : String → Option String → Bool
  text_is t none = false
  text_is t (some s) = str_eq s t

  abbrev pub or_one : Option ℕ → ℕ
  or_one none = 1
  or_one (some n) = n

  -- The members of a cluster, by NID, with their epochs.
  abbrev pub is_member : String → Fields N → Bool
  is_member anchor frame =
      text_is anchor (string_value ops frame "cluster_anchor")
      && contains (strings ops frame "node_roles") "anchor"

  unfoldable pub members : String → List (String × Entry N) → List (String × ℕ)
  members anchor [] = []
  members anchor ((nid, e) ∷ r) =
      let rest = members anchor r in
      if is_member anchor e.frame
      then (nid, or_one (number_value ops e.frame "cluster_epoch")) ∷ rest
      else rest

  abbrev pub top_of : List (String × ℕ) → ℕ
  top_of [] = 0
  top_of ((nid, epoch) ∷ r) = max epoch (top_of r)

  abbrev pub select_leader : ℕ → List String → NdpClusterSelection
  select_leader top (nid ∷ []) = record { nid = some nid; epoch = some top; is_split = false }
  select_leader top _ = record { nid = none; epoch = none; is_split = true }

  abbrev pub selection : List (String × ℕ) → NdpClusterSelection
  selection [] = record { nid = none; epoch = none; is_split = false }
  selection (m ∷ ms) =
      let top = top_of (m ∷ ms) in
      select_leader top (keys (sort_by_key (select (λ e. e.1 == top) (m ∷ ms))))

  unfoldable pub resolve_cluster : NdpRegistryProfile N → String → ℕ → NdpClusterSelection
  unfolding members sort_by_key
  resolve_cluster r cluster_anchor now =
      selection (members cluster_anchor (select (is_live now) r.entries))

  abbrev pub direction_field : String → Option String
  direction_field direction =
      if str_eq direction "inbound"
      then some "bridge_inbound_protocols"
      else if str_eq direction "outbound"
      then some "bridge_protocols"
      else none

  abbrev pub offers : String → String → String × Entry N → Bool
  offers key protocol e =
      not (text_is "draining" (string_value ops e.1.frame "health"))
      && (is_bridge ops e.1.frame && contains (strings ops e.1.frame key) protocol)

  unfoldable pub discover_bridges : NdpRegistryProfile N → String → String → ℕ → List String
  unfolding sort_by_key
  discover_bridges r direction protocol now = elim (direction_field direction) [
    | none ↦ []
    | some key ↦ keys (sort_by_key (select (offers key protocol) (select (is_live now) r.entries)))
  ]
