-- ===== src/Ndp/Examples.antt =====
-- Two Anchors of a cluster are announced, and a target is resolved.
use nps_sdk_rust.Common.{
  codes, ◌↔◌, true, ℕ, ◌≡◌, refl, String, List, [], ◌∷◌, Option, none, some, select, insert, All,
}
use nps_sdk_rust.Core.Json.{string, number, field, end}
use nps_sdk_rust.Ndp.Registry.{
  AnnounceFrame, nwp_target_matches_nid, advertises, resolve_cluster, get_by_nid, get_all, new,
  announce, resolve,
}
use nps_sdk_rust.Ndp.Registry.Target.{Under, nwp_target_matches_nid_iff}
use nps_sdk_rust.Ndp.Registry.Election.{Elected, resolve_cluster-Elected}
use nps_sdk_rust.Ndp.Registry.Liveness.{run, last_of, served, get_by_nid-run, get_all-run}

abbrev node : String → ℕ → Option ℕ → AnnounceFrame ℕ
node id seconds epoch = record {
  nid = id;
  addresses = field "host" (string "10.0.0.5") (field "port" (number 17434) end) ∷ [];
  caps = [];
  ttl = seconds;
  timestamp = "2026-01-01T00:00:00Z";
  signature = "";
  node_type = none;
  node_roles = none;
  cluster_anchor = some "urn:nps:cluster:c";
  cluster_epoch = epoch;
  spawn_spec_ref = none;
  bridge_protocols = none;
  bridge_inbound_protocols = none;
  activation_mode = none;
  activation_endpoint = none;
  heartbeat_interval_ms = 0;
  health = none;
  last_seen = none;
  graph_seq = none;
}

abbrev history : List (ℕ × AnnounceFrame ℕ)
history =
    (0, node "urn:nps:node:api.test:a" 60 none)
    ∷ (10, node "urn:nps:node:api.test:b" 60 (some 2))
    ∷ []

resolve_cluster-Elected_example :
    Elected "urn:nps:cluster:c"
      (select
        (advertises "urn:nps:cluster:c")
        (node "urn:nps:node:api.test:a" 60 none ∷ node "urn:nps:node:api.test:b" 60 (some 2) ∷ []))
      (resolve_cluster
        (node "urn:nps:node:api.test:a" 60 none ∷ node "urn:nps:node:api.test:b" 60 (some 2) ∷ [])
        "urn:nps:cluster:c")
resolve_cluster-Elected_example =
    resolve_cluster-Elected
      (node "urn:nps:node:api.test:a" 60 none ∷ node "urn:nps:node:api.test:b" 60 (some 2) ∷ [])
      "urn:nps:cluster:c" refl

get_by_nid-run_example :
    get_by_nid (run new history) "urn:nps:node:api.test:b" 69
    ≡ served 69 (last_of "urn:nps:node:api.test:b" none history)
get_by_nid-run_example = get_by_nid-run history "urn:nps:node:api.test:b" 69

get_all-run_example :
    All (λ f. served 65 (last_of f.nid none history) ≡ some f) (get_all (run new history) 65)
get_all-run_example = get_all-run history 65

resolve_sub_path :
    resolve some (run new history) "nwp://api.test/b/items" 65
    ≡ some (record { host = "10.0.0.5"; port = 17434; protocol = "nwp" })
unfolding resolve new announce insert
resolve_sub_path = refl

resolve_sibling : resolve some (run new history) "nwp://api.test/bc" 65 ≡ none
unfolding resolve new announce insert
resolve_sibling = refl

nwp_target_matches_nid_iff_example :
    (nwp_target_matches_nid "urn:nps:node:h:d" "nwp://h/d/x" ≡ true)
    ↔ ((codes "h" ≡ codes "h") × Under (codes "d") (codes "d/x"))
nwp_target_matches_nid_iff_example =
    nwp_target_matches_nid_iff "urn:nps:node:h:d" "nwp://h/d/x" (codes "h") (codes "d") (codes "h")
      (codes "d/x") (refl, tt) (refl, tt) (refl, tt) refl refl
