-- ===== src/Ncp/Failover/Examples.antt =====
-- A failover: the first Anchor no longer is the one that the client expects, the second is. The
-- state is the resolver's calls so far, and those of the connection.
use nps_sdk_rust.Common.{
  ℕ, zero, suc, ◌≡◌, ◌≢◌, refl, String, Result, ok, err, if◌then◌else◌, str_eq,
}
use nps_sdk_rust.Ncp.Failover.{
  NcpFailoverConnector, returns, panics, with_max_attempts, connect, is_nid_mismatch, nid_mismatch,
  attempt, rounds,
}
use nps_sdk_rust.Ncp.Failover.Laws.{Ended, connect_attempts}

resolver : ℕ × ℕ → Result String (String × ℕ) × (ℕ × ℕ)
resolver (zero, d) = (ok ("old-anchor", 17433), (1, d))
resolver (suc r, d) = (ok ("new-anchor", 17433), (suc (suc r), d))

dial : String → ℕ → ℕ × ℕ → Result String String × (ℕ × ℕ)
dial host port (r, d) = (if str_eq host "old-anchor" then err nid_mismatch else ok host, (r, suc d))

abbrev connector : NcpFailoverConnector (ℕ × ℕ) String String
connector = record {
  resolve_active = resolver;
  connect_fn = dial;
  is_failover_shaped = is_nid_mismatch;
  max_attempts = 3;
}

connect_attempts_example :
    (connector.max_attempts ≡ 3)
    × Ended connector (0, 0) (connect connector (0, 0)).0 (connect connector (0, 0)).1
    × ((connect connector (0, 0)).0 ≢ panics)
unfolding with_max_attempts
connect_attempts_example = connect_attempts resolver dial is_nid_mismatch 3 connector (0, 0) refl

reconnects : connect connector (0, 0) ≡ (returns (ok "new-anchor"), (2, 2))
unfolding connect rounds attempt resolver dial is_nid_mismatch
reconnects = refl
