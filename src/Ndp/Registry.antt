-- ===== src/Ndp/Registry.antt =====
-- nps-ndp/src/registry.rs, with the frame of nps-ndp/src/frames.rs: announced nodes with a time to
-- live, and the election of a cluster's active Anchor. The clock's reading is an argument, in
-- seconds without bound: the panic of `Instant`'s addition on an overflow is left out.
pub mod Election
pub mod Liveness
pub mod Target
use nps_sdk_rust.Common.{
  ℕ, ◌+◌, max, String, Bool, true, false, not, ◌&&◌, ◌||◌, List, [], ◌∷◌, ◌++◌, map, Option, none,
  some, Result, ok, err, ltb, ◌==◌, if◌then◌else◌, lookup, insert, remove, values, length, select,
  find, str_eq, codes, split, strip_prefix, split_once, join, head?,
}
use nps_sdk_rust.Core.Json.{Value, Fields, string, number, get}
use nps_sdk_rust.Ncp.Preamble.{slice_eq}

pub record AnnounceFrame (N : Type 0) : Type 0 where
  pub nid : String
  pub addresses : List (Fields N)
  pub caps : List String
  pub ttl : ℕ
  pub timestamp : String
  pub signature : String
  pub node_type : Option String
  pub node_roles : Option (List String)
  pub cluster_anchor : Option String
  pub cluster_epoch : Option ℕ
  pub spawn_spec_ref : Option String
  pub bridge_protocols : Option (List String)
  pub bridge_inbound_protocols : Option (List String)
  pub activation_mode : Option String
  pub activation_endpoint : Option (Fields N)
  pub heartbeat_interval_ms : ℕ
  pub health : Option String
  pub last_seen : Option String
  pub graph_seq : Option ℕ

abbrev pub or_default : Option ℕ → ℕ → ℕ
or_default none d = d
or_default (some n) d = n

abbrev pub default_cluster_epoch : ℕ
default_cluster_epoch = 1

pub record NdpClusterSplitError : Type 0 where
  pub cluster_anchor : String
  pub epoch : ℕ

pub record ResolveResult : Type 0 where
  pub host : String
  pub port : ℕ
  pub protocol : String

-- The parts of a NID and the rest of a target, compared: the tests after the early returns.
abbrev pub path_matches : List ℕ → List ℕ → Bool
path_matches path nid_path =
    slice_eq path nid_path
    || elim (strip_prefix (nid_path ++ codes "/") path) [ none ↦ false | some rest ↦ true ]

abbrev pub target_matches : List ℕ → List (List ℕ) → Option (List ℕ) → Bool
target_matches nid_host nid_path none = false
target_matches nid_host nid_path (some rest) = elim (split_once b'/' rest) [
  | none ↦ false
  | some (authority, path) ↦
      slice_eq authority nid_host && path_matches path (join (codes "/") nid_path)
]

-- `parts` with at least five entries, of which the first three are fixed.
abbrev pub parts_match : List (List ℕ) → List ℕ → Bool
parts_match (urn ∷ nps ∷ node ∷ host ∷ segment ∷ more) target =
    (slice_eq urn (codes "urn") && (slice_eq nps (codes "nps") && slice_eq node (codes "node")))
    && target_matches host (segment ∷ more) (strip_prefix (codes "nwp://") target)
parts_match _ target = false

unfoldable pub nwp_target_matches_nid : String → String → Bool
unfolding slice_eq strip_prefix split_once join split
nwp_target_matches_nid nid target = parts_match (split b':' (codes nid)) (codes target)

module _ {N : Type 0} where
  unfoldable pub effective_cluster_epoch : AnnounceFrame N → ℕ
  effective_cluster_epoch f = or_default f.cluster_epoch default_cluster_epoch

  abbrev pub advertises : String → AnnounceFrame N → Bool
  advertises anchor f = elim f.cluster_anchor [ none ↦ false | some a ↦ str_eq a anchor ]

  -- `Iterator::max` over the members' epochs; zero stands for no members.
  unfoldable pub top_epoch : List (AnnounceFrame N) → ℕ
  unfolding effective_cluster_epoch
  top_epoch [] = 0
  top_epoch (f ∷ fs) = max (effective_cluster_epoch f) (top_epoch fs)

  -- What `resolve_cluster` returns for the members at the top epoch.
  unfoldable pub pick :
      String → ℕ → List (AnnounceFrame N) → Result NdpClusterSplitError (Option (AnnounceFrame N))
  pick anchor top leaders =
      if ltb 1 (length leaders)
      then err (record { cluster_anchor = anchor; epoch = top })
      else ok (head? leaders)

  unfoldable pub elect :
      String → List (AnnounceFrame N) → Result NdpClusterSplitError (Option (AnnounceFrame N))
  unfolding effective_cluster_epoch
  elect anchor [] = ok none
  elect anchor (f ∷ fs) =
      let top = top_epoch (f ∷ fs) in
      pick anchor top (select (λ g. effective_cluster_epoch g == top) (f ∷ fs))

  -- The default method of `NdpClusterResolution`, over the live frames.
  unfoldable pub resolve_cluster :
      List (AnnounceFrame N) → String → Result NdpClusterSplitError (Option (AnnounceFrame N))
  unfolding elect
  resolve_cluster live_frames cluster_anchor =
      if str_eq cluster_anchor ""
      then ok none
      else elect cluster_anchor (select (advertises cluster_anchor) live_frames)

pub record Entry (N : Type 0) : Type 0 where
  pub frame : AnnounceFrame N
  pub expires : ℕ

pub record InMemoryNdpRegistry (N : Type 0) : Type 0 where
  pub store : List (String × Entry N)

module _ {N : Type 0} where
  unfoldable pub new : InMemoryNdpRegistry N
  new = record { store = [] }

  unfoldable pub announce : InMemoryNdpRegistry N → AnnounceFrame N → ℕ → InMemoryNdpRegistry N
  announce r f now =
      if f.ttl == 0
      then record { store = remove f.nid r.store }
      else record { store = insert f.nid (record { frame = f; expires = now + f.ttl }) r.store }

  abbrev pub is_live : ℕ → Entry N → Bool
  is_live now e = ltb now e.expires

  abbrev pub live_frame : ℕ → Option (Entry N) → Option (AnnounceFrame N)
  live_frame now none = none
  live_frame now (some e) = if is_live now e then some e.frame else none

  unfoldable pub get_by_nid : InMemoryNdpRegistry N → String → ℕ → Option (AnnounceFrame N)
  get_by_nid r nid now = live_frame now (lookup nid r.store)

  abbrev pub frames_of : List (Entry N) → List (AnnounceFrame N)
  frames_of [] = []
  frames_of (e ∷ es) = e.frame ∷ frames_of es

  unfoldable pub get_all : InMemoryNdpRegistry N → ℕ → List (AnnounceFrame N)
  get_all r now = frames_of (select (is_live now) (values r.store))

  abbrev pub text_or : Option (Value N) → String → String
  text_or (some (string s)) d = s
  text_or _ d = d

  -- `as_u64` is serde_json's reading of a number.
  abbrev pub number_or : (N → Option ℕ) → Option (Value N) → ℕ → ℕ
  number_or as_u64 (some (number n)) d = or_default (as_u64 n) d
  number_or as_u64 _ d = d

  abbrev pub read_address : (N → Option ℕ) → Fields N → ResolveResult
  read_address as_u64 addr = record {
    host = text_or (get "host" addr) "";
    port = number_or as_u64 (get "port" addr) 17433;
    protocol = text_or (get "protocol" addr) "nwp";
  }

  abbrev pub first_address : (N → Option ℕ) → Option (AnnounceFrame N) → Option ResolveResult
  first_address as_u64 none = none
  first_address as_u64 (some f) = elim f.addresses [
    | [] ↦ none
    | addr ∷ more ↦ some (read_address as_u64 addr)
  ]

  unfoldable pub resolve :
      (N → Option ℕ) → InMemoryNdpRegistry N → String → ℕ → Option ResolveResult
  unfolding get_all nwp_target_matches_nid get
  resolve as_u64 r target now =
      first_address as_u64 (find (λ f. nwp_target_matches_nid f.nid target) (get_all r now))
