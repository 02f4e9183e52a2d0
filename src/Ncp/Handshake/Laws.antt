-- ===== src/Ncp/Handshake/Laws.antt =====
-- What an accepted negotiation promises to both peers, and when a negotiation is accepted.
use nps_sdk_rust.Common.{
  ◌≡◌, refl, ap, String, Bool, true, false, not, ◌&&◌, List, [], ◌∷◌, Option, none, some, ok, err,
  guard, contains, find, eq_iff, arith, bind-ok, guard-ok, ok-injective, Bool-cases, inl, inr,
}
use nps_sdk_rust.Ncp.Version.{
  Version, parse_version, version_le, version_max, version_min, version_min_le, le-version_max,
  le-version_min, version_max-le, version_le_trans,
}
use nps_sdk_rust.Ncp.Handshake.{
  HelloFrame, NcpHandshakeProfile, NcpHandshakeDecision, shared_protocols, within, overlap_of,
  client_low, overlap, version_error,
}

pub find-some :
    (p : String → Bool) (xs : List String) (t : String)
    → find p xs ≡ some t
    → (p t ≡ true) × (contains xs t ≡ true)
find-some p [] t h = absurd (cc h)
find-some p (x ∷ xs) t h = ground (arith, eq_iff x t, find-some p xs t)

pub find-total :
    (p : String → Bool) (xs : List String) (t : String)
    → contains xs t ≡ true
    → p t ≡ true
    → (u : String) × (find p xs ≡ some u)
find-total p [] t h k = absurd (cc h)
find-total p (x ∷ xs) t h k = elim (Bool-cases (p x)) [
  | inl e ↦ (x, rw e)
  | inr e ↦ let (u, f) = find-total p xs t (ground (arith, eq_iff x t)) k in (u, rw e f)
]

-- The negotiated protocols are those of both peers.
pub contains-shared_protocols :
    (server seen ts : List String) (x : String)
    → contains (shared_protocols server seen ts) x
      ≡ contains server x && (contains ts x && not (contains seen x))
unfolding shared_protocols
contains-shared_protocols server seen [] x = ground arith
contains-shared_protocols server seen (t ∷ ts) x = ground (
  arith,
  eq_iff t x,
  contains-shared_protocols server seen ts x,
  contains-shared_protocols server (t ∷ seen) ts x,
)

abbrev pub Distinct : List String → Type 0
Distinct [] = Unit {0}
Distinct (x ∷ xs) = (contains xs x ≡ false) × Distinct xs

pub shared_protocols-Distinct :
    (server seen ts : List String) → Distinct (shared_protocols server seen ts)
unfolding shared_protocols
shared_protocols-Distinct server seen [] = tt
shared_protocols-Distinct server seen (t ∷ ts) = ground (
  arith,
  eq_iff t t,
  contains-shared_protocols server (t ∷ seen) ts t,
  shared_protocols-Distinct server seen ts,
  shared_protocols-Distinct server (t ∷ seen) ts,
)

-- A version is in the range between two versions, and in the range that two texts give.
abbrev pub Between : Version → Version → Version → Type 0
Between from to v = (version_le from v ≡ true) × (version_le v to ≡ true)

pub record InRange (low high : String) (v : Version) : Type 0 where
  pub from : Version
  pub to : Version
  pub from_parsed : parse_version low ≡ some from
  pub to_parsed : parse_version high ≡ some to
  pub between : Between from to v

abbrev pub Both : NcpHandshakeProfile → HelloFrame → Version → Type 0
Both server client v =
    InRange server.min_version server.nps_version v
    × InRange (client_low client) client.nps_version v

within-Between :
    (s0 s1 c0 c1 low high : Version)
    → within s0 s1 c0 c1 ≡ ok (low, high)
    → Between s0 s1 high × Between c0 c1 high × (high ≡ version_min s1 c1)
unfolding within
within-Between s0 s1 c0 c1 low high h =
    let (_, _, h1) = bind-ok (guard (version_le s0 s1 && version_le c0 c1) version_error) _ h in
    let (_, g, h2) =
      bind-ok (guard (version_le (version_max s0 c0) (version_min s1 c1)) version_error) _ h1 in
    let e : version_min s1 c1 ≡ high = ap (λ p. p.1) (ok-injective h2) in
    let lower = guard-ok (version_le (version_max s0 c0) (version_min s1 c1)) _ g in
    let (ls, lc) = le-version_max s0 c0 in
    let (us, uc) = version_min_le s1 c1 in
    rw (← e) ((version_le_trans s0 _ _ ls lower, us), (version_le_trans c0 _ _ lc lower, uc), refl)

overlap_of-some :
    (o1 o2 o3 o4 : Option Version) (r : Version × Version)
    → overlap_of o1 o2 o3 o4 ≡ ok r
    → (a : Version) × (b : Version) × (c : Version) × (d : Version) × (o1 ≡ some a)
      × (o2 ≡ some b)
      × (o3 ≡ some c)
      × (o4 ≡ some d)
      × (within a b c d ≡ ok r)
unfolding overlap_of
overlap_of-some none o2 o3 o4 r h = absurd (cc h)
overlap_of-some (some a) none o3 o4 r h = absurd (cc h)
overlap_of-some (some a) (some b) none o4 r h = absurd (cc h)
overlap_of-some (some a) (some b) (some c) none r h = absurd (cc h)
overlap_of-some (some a) (some b) (some c) (some d) r h = (a, b, c, d, refl, refl, refl, refl, h)

InRange-le :
    (low high : String) (v to : Version)
    → InRange low high v
    → parse_version high ≡ some to
    → version_le v to ≡ true
InRange-le low high v to r p = ground (arith, r.to_parsed)

pub overlap-Both :
    (server : NcpHandshakeProfile) (client : HelloFrame) (low high : Version)
    → overlap server client ≡ ok (low, high)
    → Both server client high × ((v : Version) → Both server client v → version_le v high ≡ true)
unfolding overlap
overlap-Both server client low high h =
    let (s0, s1, c0, c1, p0, p1, p2, p3, e) = overlap_of-some _ _ _ _ (low, high) h in
    let (bs, bc, top) = within-Between s0 s1 c0 c1 low high e in
    (
      (
        record { from = s0; to = s1; from_parsed = p0; to_parsed = p1; between = bs },
        record { from = c0; to = c1; from_parsed = p2; to_parsed = p3; between = bc },
      ),
      λ v b.
          rw top (le-version_min v s1 c1 (InRange-le _ _ v s1 b.0 p1) (InRange-le _ _ v c1 b.1 p3)),
    )

pub overlap_of_Both :
    (server : NcpHandshakeProfile) (client : HelloFrame) (v : Version)
    → Both server client v
    → (r : Version × Version) × (overlap server client ≡ ok r)
unfolding overlap within
overlap_of_Both server client v (s, c) =
    let (s1, s2) = s.between in
    let (c1, c2) = c.between in
    let lower = version_max-le v s.from c.from s1 c1 in
    let upper = le-version_min v s.to c.to s2 c2 in
    (
      (version_max s.from c.from, version_min s.to c.to),
      rw (s.from_parsed, s.to_parsed, c.from_parsed, c.to_parsed, overlap_of)
          (rw (version_le_trans s.from v s.to s1 s2, version_le_trans c.from v c.to c1 c2)
            (rw (
              version_le_trans (version_max s.from c.from) v (version_min s.to c.to) lower upper))),
    )

overlap_of-err :
    (o1 o2 o3 o4 : Option Version) (d : NcpHandshakeDecision)
    → overlap_of o1 o2 o3 o4 ≡ err d
    → d ≡ version_error
unfolding overlap_of within
overlap_of-err none o2 o3 o4 d h = cc
overlap_of-err (some a) none o3 o4 d h = cc
overlap_of-err (some a) (some b) none o4 d h = cc
overlap_of-err (some a) (some b) (some c) none d h = cc
overlap_of-err (some a) (some b) (some c) (some e) d h =
    elim (Bool-cases (version_le a b && version_le c e)) [
      | inl x ↦ elim (Bool-cases (version_le (version_max a c) (version_min b e))) [
        | inl y ↦ absurd (cc (rw y at (rw x at h)))
        | inr y ↦ let k = rw y at (rw x at h) in cc k
      ]
      | inr x ↦ let k = rw x at h in cc k
    ]

-- The versions are refused with one error.
pub overlap-err :
    (server : NcpHandshakeProfile) (client : HelloFrame) (d : NcpHandshakeDecision)
    → overlap server client ≡ err d
    → d ≡ version_error
unfolding overlap
overlap-err server client d h =
    overlap_of-err (parse_version server.min_version) (parse_version server.nps_version)
      (parse_version (client_low client)) (parse_version client.nps_version) d h
