-- ===== src/Ncp/Failover.antt =====
-- nps-ncp/src/failover.rs: reconnecting across an Anchor failover. The resolver, the connection and
-- the matcher are the connector's closures.
pub mod Laws
mod Examples
use nps_sdk_rust.Common.{
  ℕ, zero, suc, String, Bool, Option, none, some, Result, ok, err, ltb, if◌then◌else◌, str_eq,
}

abbrev pub default_max_attempts : ℕ
default_max_attempts = 2

pub data FailoverConfigError : Type 0 where
  max_attempts_too_small : ℕ → FailoverConfigError

pub data FailoverError (E : Type 0) : Type 0 where
  exhausted : E → FailoverError E
  resolve : E → FailoverError E

unfoldable pub into_inner : {E : Type 0} → FailoverError E → E
into_inner (exhausted e) = e
into_inner (resolve e) = e

-- The resolver and the connection may answer differently at each call, so they act on a state `W`
-- of whatever they observe and change.
pub record NcpFailoverConnector (W S E : Type 0) : Type 0 where
  pub resolve_active : W → Result E (String × ℕ) × W
  pub connect_fn : String → ℕ → W → Result E S × W
  pub is_failover_shaped : E → Bool
  pub max_attempts : ℕ

-- What a call of `connect` comes to: a result, or the panic of the `expect` at its end.
pub data Outcome (S E : Type 0) : Type 0 where
  returns : Result (FailoverError E) S → Outcome S E
  panics : Outcome S E

-- The result of one round of the loop: a return, or a failure to retry after.
pub data Round (S E : Type 0) : Type 0 where
  done : Result (FailoverError E) S → Round S E
  retry : E → Round S E

finish : {S E : Type 0} → Option E → Outcome S E
finish none = panics
finish (some e) = returns (err (exhausted e))

module _ {W S E : Type 0} where
  unfoldable pub with_max_attempts :
      (W → Result E (String × ℕ) × W)
      → (String → ℕ → W → Result E S × W)
      → (E → Bool)
      → ℕ
      → Result FailoverConfigError (NcpFailoverConnector W S E)
  with_max_attempts resolve_active connect_fn is_failover_shaped max_attempts =
      if ltb max_attempts 1
      then err (max_attempts_too_small max_attempts)
      else ok (record {
        resolve_active = resolve_active;
        connect_fn = connect_fn;
        is_failover_shaped = is_failover_shaped;
        max_attempts = max_attempts;
      })

  unfoldable pub new :
      (W → Result E (String × ℕ) × W)
      → (String → ℕ → W → Result E S × W)
      → (E → Bool)
      → Result FailoverConfigError (NcpFailoverConnector W S E)
  unfolding with_max_attempts
  new resolve_active connect_fn is_failover_shaped =
      with_max_attempts resolve_active connect_fn is_failover_shaped default_max_attempts

  judged : NcpFailoverConnector W S E → Result E S × W → Round S E × W
  judged c (ok session, w) = (done (ok session), w)
  judged c (err e, w) = (if c.is_failover_shaped e then retry e else done (err (exhausted e)), w)

  resolved : NcpFailoverConnector W S E → Result E (String × ℕ) × W → Round S E × W
  unfolding judged
  resolved c (err e, w) = (done (err (resolve e)), w)
  resolved c (ok (host, port), w) = judged c (c.connect_fn host port w)

  -- Resolving the Anchor, and connecting to what was resolved.
  unfoldable pub attempt : NcpFailoverConnector W S E → W → Round S E × W
  unfolding resolved
  attempt c w = resolved c (c.resolve_active w)

  -- The loop, with the rounds left and the last failure.
  unfoldable pub rounds : NcpFailoverConnector W S E → ℕ → Option E → W → Outcome S E × W
  unfolding finish
  rounds c zero last w = (finish last, w)
  rounds c (suc left) last w =
      let (round, v) = attempt c w in
      elim round [ done r ↦ (returns r, v) | retry e ↦ rounds c left (some e) v ]

  unfoldable pub connect : NcpFailoverConnector W S E → W → Outcome S E × W
  unfolding rounds
  connect c w = rounds c c.max_attempts none w

abbrev pub nid_mismatch : String
nid_mismatch = "NCP-NID-MISMATCH"

unfoldable pub is_nid_mismatch : String → Bool
is_nid_mismatch code = str_eq code nid_mismatch
