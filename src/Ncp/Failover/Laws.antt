-- ===== src/Ncp/Failover/Laws.antt =====
-- The connector's contract, said of the closures alone: which calls of the resolver and of the
-- connection are made, and how they decide the result.
use nps_sdk_rust.Common.{
  ℕ, zero, suc, ◌+◌, ◌<◌, ◌≡◌, ◌≢◌, ◌⊎◌, refl, ap, true, false, Bool-cases, if◌then◌else◌, Option,
  none, some, Result, ok, err, arith, inl, inr, String, Bool,
}
use nps_sdk_rust.Ncp.Failover.{
  FailoverError, exhausted, resolve, NcpFailoverConnector, Outcome, returns, panics, done, retry,
  with_max_attempts, attempt, rounds, connect,
}

Answer-cases :
    {W A E : Type 0} (p : Result E A × W)
    → ((a : A) × (v : W) × (p ≡ (ok a, v))) ⊎ ((e : E) × (v : W) × (p ≡ (err e, v)))
Answer-cases (ok a, v) = inl (a, v, refl)
Answer-cases (err e, v) = inr (e, v, refl)

module _ {W S E : Type 0} (c : NcpFailoverConnector W S E) where
  -- From `w` the resolver gives an address, and connecting to that address then ends in `v` with
  -- the result `r`.
  pub data Connects (w : W) (r : Result E S) (v : W) : Type 0 where
    to_resolved :
        (host : String) (port : ℕ) (u : W)
        → c.resolve_active w ≡ (ok (host, port), u)
        → c.connect_fn host port u ≡ (r, v)
        → Connects w r v

  -- From `w`, so many attempts that each resolved and failed in the shape of a failover lead to `v`.
  pub data Tries (w : W) : ℕ → W → Type 0 where
    no_attempt : Tries w 0 w
    again :
        {n : ℕ} {u v : W} {e : E}
        → Tries w n u
        → Connects u (err e) v
        → c.is_failover_shaped e ≡ true
        → Tries w (suc n) v

  -- How a call that starts in `w` ends: the attempt after `n` tries cannot resolve, connects, or
  -- fails otherwise, or the failure is that of the last try.
  pub data Ended (w : W) (o : Outcome S E) (v : W) : Type 0 where
    unresolved :
        (n : ℕ) (u : W) (e : E)
        → Tries w n u
        → n < c.max_attempts
        → c.resolve_active u ≡ (err e, v)
        → o ≡ returns (err (resolve e))
        → Ended w o v
    connected :
        (n : ℕ) (u : W) (s : S)
        → Tries w n u
        → n < c.max_attempts
        → Connects u (ok s) v
        → o ≡ returns (ok s)
        → Ended w o v
    refused :
        (n : ℕ) (u : W) (e : E)
        → Tries w n u
        → n < c.max_attempts
        → Connects u (err e) v
        → c.is_failover_shaped e ≡ false
        → o ≡ returns (err (exhausted e))
        → Ended w o v
    used_up :
        (n : ℕ) (u : W) (e : E)
        → Tries w n u
        → suc n ≡ c.max_attempts
        → Connects u (err e) v
        → c.is_failover_shaped e ≡ true
        → o ≡ returns (err (exhausted e))
        → Ended w o v

  rounds-done :
      (left : ℕ) (last : Option E) (u v : W) (r : Result (FailoverError E) S)
      → attempt c u ≡ (done r, v)
      → rounds c (suc left) last u ≡ (returns r, v)
  unfolding rounds
  rounds-done left last u v r h =
      ap
        (λ a. elim a.0 as (λ _. Outcome S E × W) [
          | done q ↦ (returns q, a.1)
          | retry x ↦ rounds c left (some x) a.1
        ])
        h

  rounds-retry :
      (left : ℕ) (last : Option E) (u v : W) (e : E)
      → attempt c u ≡ (retry e, v)
      → rounds c (suc left) last u ≡ rounds c left (some e) v
  unfolding rounds
  rounds-retry left last u v e h =
      ap
        (λ a. elim a.0 as (λ _. Outcome S E × W) [
          | done q ↦ (returns q, a.1)
          | retry x ↦ rounds c left (some x) a.1
        ])
        h

  attempt-unresolved :
      (u v : W) (e : E)
      → c.resolve_active u ≡ (err e, v)
      → attempt c u ≡ (done (err (resolve e)), v)
  unfolding attempt
  attempt-unresolved u v e h = rw h refl

  attempt-connected : (u v : W) (s : S) → Connects u (ok s) v → attempt c u ≡ (done (ok s), v)
  unfolding attempt
  attempt-connected u v s (to_resolved host port t h k) = rw (h, k) refl

  attempt-failed :
      (u v : W) (e : E)
      → Connects u (err e) v
      → attempt c u ≡ (if c.is_failover_shaped e then retry e else done (err (exhausted e)), v)
  unfolding attempt
  attempt-failed u v e (to_resolved host port t h k) = rw (h, k) refl

  -- One round: it ends the call, or fails in the shape of a failover and the loop goes on.
  round-Ended :
      (w : W) (n left : ℕ) (last : Option E) (u : W)
      → Tries w n u
      → n < c.max_attempts
      → ((e : E) (v : W)
          → Connects u (err e) v
          → c.is_failover_shaped e ≡ true
          → Ended w (rounds c left (some e) v).0 (rounds c left (some e) v).1)
      → Ended w (rounds c (suc left) last u).0 (rounds c (suc left) last u).1
  round-Ended w n left last u t small after = elim (Answer-cases (c.resolve_active u)) [
    | inr (e, v, h) ↦
        rw (rounds-done left last u v _ (attempt-unresolved u v e h))
          (unresolved n u e t small h refl)
    | inl ((host, port), v, h) ↦ elim (Answer-cases (c.connect_fn host port v)) [
      | inl (s, x, k) ↦
          let met = to_resolved host port v h k in
          rw (rounds-done left last u x _ (attempt-connected u x s met))
            (connected n u s t small met refl)
      | inr (e, x, k) ↦
          let met = to_resolved host port v h k in
          elim (Bool-cases (c.is_failover_shaped e)) [
            | inl y ↦
                rw (rounds-retry left last u x e (rw y at (attempt-failed u x e met)))
                  (after e x met y)
            | inr y ↦
                rw (rounds-done left last u x _ (rw y at (attempt-failed u x e met)))
                  (refused n u e t small met y refl)
          ]
    ]
  ]

  rounds-Ended :
      (w : W) (n left : ℕ) (last : Option E) (u : W)
      → Tries w n u
      → n + suc left ≡ c.max_attempts
      → Ended w (rounds c (suc left) last u).0 (rounds c (suc left) last u).1
  unfolding rounds
  rounds-Ended w n zero last u t h =
      round-Ended w n zero last u t (omega arith) λ e v k y. used_up n u e t (omega arith) k y refl
  rounds-Ended w n (suc left) last u t h =
      round-Ended w n (suc left) last u t (omega arith)
        λ e v k y. rounds-Ended w (suc n) left (some e) v (again t k y) (omega arith)

  rounds_from_start :
      (w : W) (n : ℕ)
      → n ≡ c.max_attempts
      → 0 < n
      → Ended w (rounds c n none w).0 (rounds c n none w).1
  rounds_from_start w zero h pos = elim pos [ ]
  rounds_from_start w (suc left) h pos = rounds-Ended w 0 left none w no_attempt (omega arith)

  Ended-returns : (w v : W) (o : Outcome S E) → Ended w o v → o ≢ panics
  Ended-returns w v o (unresolved _ _ _ _ _ _ e) p = cc
  Ended-returns w v o (connected _ _ _ _ _ _ e) p = cc
  Ended-returns w v o (refused _ _ _ _ _ _ _ e) p = cc
  Ended-returns w v o (used_up _ _ _ _ _ _ _ e) p = cc

-- A connector that can be built makes at most the attempts it was given. Each attempt resolves the
-- Anchor anew and connects to what it resolved; those before the last all failed in the shape of a
-- failover. The last one cannot resolve, connects, or fails otherwise, and its result is returned;
-- or it is the last allowed, fails in that shape too, and its failure is returned. There is no panic.
pub connect_attempts :
    {W S E : Type 0} (resolve_active : W → Result E (String × ℕ) × W)
    (connect_fn : String → ℕ → W → Result E S × W) (is_failover_shaped : E → Bool)
    (max_attempts : ℕ) (c : NcpFailoverConnector W S E) (w : W)
    → with_max_attempts resolve_active connect_fn is_failover_shaped max_attempts ≡ ok c
    → (c.max_attempts ≡ max_attempts)
      × Ended c w (connect c w).0 (connect c w).1
      × ((connect c w).0 ≢ panics)
unfolding with_max_attempts connect
connect_attempts resolve_active connect_fn is_failover_shaped max_attempts c w h =
    let built : (0 < max_attempts) × (c.max_attempts ≡ max_attempts) = ground arith in
    let ended = rounds_from_start c w c.max_attempts refl (omega arith) in
    (built.1, ended, Ended-returns c w _ _ ended)
