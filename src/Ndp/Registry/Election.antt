-- ===== src/Ndp/Registry/Election.antt =====
-- nps-ndp/src/registry.rs: what the election of a cluster's active Anchor promises.
use nps_sdk_rust.Common.{
  ℕ, ◌≤◌, ◌<◌, ◌≡◌, ap, inl, inr, refl, String, true, false, List, [], ◌∷◌, ◌++◌, Option, none,
  some, Result, ok, err, ltb, ◌==◌, length, select, str_eq, All, arith, Bool-cases,
}
use nps_sdk_rust.Ndp.Registry.{
  AnnounceFrame, NdpClusterSplitError, effective_cluster_epoch, advertises, top_epoch, elect, pick,
  resolve_cluster,
}

module _ {N : Type 0} where
  abbrev pub AtMost : ℕ → List (AnnounceFrame N) → Type 0
  AtMost n = All (λ f. effective_cluster_epoch f ≤ n)

  abbrev pub Below : ℕ → List (AnnounceFrame N) → Type 0
  Below n = All (λ f. effective_cluster_epoch f < n)

  -- Two announcements of `ms` at different places have epoch `n`.
  abbrev pub Tied : ℕ → List (AnnounceFrame N) → Type 0
  Tied n ms =
      (xs ys zs : List (AnnounceFrame N)) × (f g : AnnounceFrame N) × (ms
        ≡ xs ++ (f ∷ ys ++ (g ∷ zs)))
      × (effective_cluster_epoch f ≡ n)
      × (effective_cluster_epoch g ≡ n)

  -- What the result says of the members `ms` of a cluster.
  abbrev pub Elected :
      String
      → List (AnnounceFrame N)
      → Result NdpClusterSplitError (Option (AnnounceFrame N))
      → Type 0
  Elected anchor ms (ok none) = ms ≡ []
  Elected anchor ms (ok (some f)) =
      (xs ys : List (AnnounceFrame N)) × (ms ≡ xs ++ (f ∷ ys))
      × Below (effective_cluster_epoch f) xs
      × Below (effective_cluster_epoch f) ys
  Elected anchor ms (err e) = (e.cluster_anchor ≡ anchor) × AtMost e.epoch ms × Tied e.epoch ms

  -- `f` is the one announcement of `ms` with the top epoch `n`.
  abbrev Sole : ℕ → AnnounceFrame N → List (AnnounceFrame N) → Type 0
  Sole n f ms =
      (xs ys : List (AnnounceFrame N)) × (ms ≡ xs ++ (f ∷ ys))
      × (effective_cluster_epoch f ≡ n)
      × Below n xs
      × Below n ys

  abbrev leaders : ℕ → List (AnnounceFrame N) → List (AnnounceFrame N)
  leaders n ms = select (λ g. effective_cluster_epoch g == n) ms

  -- The three things that the leaders' list can be.
  data Leaders (n : ℕ) (ms : List (AnnounceFrame N)) (found : List (AnnounceFrame N)) : Type 0 where
    nobody : found ≡ [] → Below n ms → Leaders n ms found
    one : (f : AnnounceFrame N) → found ≡ f ∷ [] → Sole n f ms → Leaders n ms found
    many : ltb 1 (length found) ≡ true → Tied n ms → Leaders n ms found

  leader-found :
      (n : ℕ) (f : AnnounceFrame N) (ms : List (AnnounceFrame N))
      → effective_cluster_epoch f ≡ n
      → Leaders n ms (leaders n ms)
      → Leaders n (f ∷ ms) (f ∷ leaders n ms)
  leader-found n f ms e (nobody l b) = one f (ap (◌∷◌ f) l) ([], ms, refl, e, tt, b)
  leader-found n f ms e (one g l (xs, ys, s, eg, bx, by)) =
      many (rw (l) refl) ([], xs, ys, f, g, ap (◌∷◌ f) s, e, eg)
  leader-found n f ms e (many l (xs, ys, zs, g, h, s, eg, eh)) =
      many (ground arith) (f ∷ xs, ys, zs, g, h, ap (◌∷◌ f) s, eg, eh)

  leader-passed :
      (n : ℕ) (f : AnnounceFrame N) (ms : List (AnnounceFrame N))
      → effective_cluster_epoch f < n
      → Leaders n ms (leaders n ms)
      → Leaders n (f ∷ ms) (leaders n ms)
  leader-passed n f ms e (nobody l b) = nobody l (e, b)
  leader-passed n f ms e (one g l (xs, ys, s, eg, bx, by)) =
      one g l (f ∷ xs, ys, ap (◌∷◌ f) s, eg, (e, bx), by)
  leader-passed n f ms e (many l (xs, ys, zs, g, h, s, eg, eh)) =
      many l (f ∷ xs, ys, zs, g, h, ap (◌∷◌ f) s, eg, eh)

  leaders-Leaders :
      (n : ℕ) (ms : List (AnnounceFrame N)) → AtMost n ms → Leaders n ms (leaders n ms)
  leaders-Leaders n [] a = nobody refl tt
  leaders-Leaders n (f ∷ ms) (a, h) = elim (Bool-cases (effective_cluster_epoch f == n)) [
    | inl t ↦ rw (t) (leader-found n f ms (ground arith) (leaders-Leaders n ms h))
    | inr t ↦ rw (t) (leader-passed n f ms (ground arith) (leaders-Leaders n ms h))
  ]

  AtMost-weaken : (n k : ℕ) (ms : List (AnnounceFrame N)) → n ≤ k → AtMost n ms → AtMost k ms
  AtMost-weaken n k [] l h = tt
  AtMost-weaken n k (f ∷ ms) l (a, h) = (omega arith, AtMost-weaken n k ms l h)

  top_epoch-AtMost : (ms : List (AnnounceFrame N)) → AtMost (top_epoch ms) ms
  unfolding top_epoch
  top_epoch-AtMost [] = tt
  top_epoch-AtMost (f ∷ ms) =
      (omega arith, AtMost-weaken (top_epoch ms) _ ms (omega arith) (top_epoch-AtMost ms))

  top_epoch-Below : (n : ℕ) (ms : List (AnnounceFrame N)) → 0 < n → Below n ms → top_epoch ms < n
  unfolding top_epoch
  top_epoch-Below n [] p h = p
  top_epoch-Below n (f ∷ ms) p (a, h) = omega (arith, top_epoch-Below n ms p h)

  pick-Elected :
      (anchor : String) (n : ℕ) (ms found : List (AnnounceFrame N))
      → AtMost n ms
      → (Below n ms → ms ≡ [])
      → Leaders n ms found
      → Elected anchor ms (pick anchor n found)
  unfolding pick
  pick-Elected anchor n ms found a none_below (nobody l b) = rw (l) (none_below b)
  pick-Elected anchor n ms found a none_below (one g l (xs, ys, s, eg, bx, by)) =
      rw (l, eg) (xs, ys, s, bx, by)
  pick-Elected anchor n ms found a none_below (many l t) = rw (l) (refl, a, t)

  elect-Elected :
      (anchor : String) (ms : List (AnnounceFrame N)) → Elected anchor ms (elect anchor ms)
  unfolding elect
  elect-Elected anchor [] = refl
  elect-Elected anchor (f ∷ fs) =
      let ms = f ∷ fs in
      let n = top_epoch ms in
      pick-Elected anchor n ms (leaders n ms) (top_epoch-AtMost ms)
        (λ b. ground (arith, b.0, top_epoch-Below n ms (omega (arith, b.0)) b))
        (leaders-Leaders n ms (top_epoch-AtMost ms))

  -- For a cluster's name that is not empty, the election over any live announcements gives nobody
  -- only where no live announcement names the cluster, else the one member whose epoch is above
  -- all others, and an error only where two members have the top epoch, which the error names.
  pub resolve_cluster-Elected :
      (live_frames : List (AnnounceFrame N)) (anchor : String)
      → str_eq anchor "" ≡ false
      → Elected anchor (select (advertises anchor) live_frames) (resolve_cluster live_frames anchor)
  unfolding resolve_cluster
  resolve_cluster-Elected live_frames anchor h = rw (h) (elect-Elected anchor _)
