-- ===== src/Nop/CallbackUrl/Parts.antt =====
-- nps-nop/src/validation.rs: how the guard takes a URL apart.
use nps_sdk_rust.Common.{
  ℕ, ◌≡◌, ◌≢◌, refl, false, List, [], ◌∷◌, ◌++◌, Option, none, some, codes, is_blank, arith, All,
  Bool-cases, ◌==◌, ◌⊎◌, inl, inr, split_once, strip_prefix,
}
use mathlib.Core.List.{append_assoc, append-nil}
use nps_sdk_rust.Nop.CallbackUrl.{
  split_scheme, before_path, behind_userinfo, host_of, extract_host, trim_start, trim_end,
}

-- A character of a host or a port.
abbrev pub IsPlain : ℕ → Type 0
IsPlain c = (c ≢ b'/') × (c ≢ b'?') × (c ≢ b'#') × (c ≢ b'@') × (c ≢ b':') × (c ≢ b'[') × (c ≢ b']')

abbrev pub IsInside : ℕ → Type 0
IsInside c = (c ≢ b'/') × (c ≢ b'?') × (c ≢ b'#')

-- The user in front of a host, and the port behind it.
abbrev pub user_part : Option (List ℕ) → List ℕ
user_part none = []
user_part (some u) = u ++ (b'@' ∷ [])

abbrev pub port_part : Option (List ℕ) → List ℕ
port_part none = []
port_part (some p) = b':' ∷ p

-- What holds of a part, where there is one.
abbrev pub IfAny : (ℕ → Type 0) → Option (List ℕ) → Type 0
IfAny P none = Unit {0}
IfAny P (some s) = All P s

-- A path, a query or a fragment, or nothing.
abbrev pub IsTail : List ℕ → Type 0
IsTail [] = Unit {0}
IsTail (c ∷ cs) = (c ≡ b'/') ⊎ (c ≡ b'?') ⊎ (c ≡ b'#')

pub All-weaken : (P Q : ℕ → Type 0) (s : List ℕ) → ((c : ℕ) → P c → Q c) → All P s → All Q s
All-weaken P Q [] f h = tt
All-weaken P Q (c ∷ cs) f (h, hs) = (f c h, All-weaken P Q cs f hs)

All-join : (P : ℕ → Type 0) (s t : List ℕ) → All P s → All P t → All P (s ++ t)
All-join P [] t h k = k
All-join P (c ∷ cs) t (h, hs) k = (h, All-join P cs t hs k)

split_once-none : (sep : ℕ) (s : List ℕ) → All (λ c. c ≢ sep) s → split_once sep s ≡ none
unfolding split_once
split_once-none sep [] h = refl
split_once-none sep (c ∷ cs) (h, hs) = ground (arith, split_once-none sep cs hs)

split_once-found :
    (sep : ℕ) (s r : List ℕ) → All (λ c. c ≢ sep) s → split_once sep (s ++ (sep ∷ r)) ≡ some (s, r)
unfolding split_once
split_once-found sep [] r h = ground arith
split_once-found sep (c ∷ cs) r (h, hs) = ground (arith, split_once-found sep cs r hs)

split_once-some :
    (sep : ℕ) (s r : List ℕ) → (p : List ℕ × List ℕ) × (split_once sep (s ++ (sep ∷ r)) ≡ some p)
unfolding split_once
split_once-some sep [] r = (([], r), ground arith)
split_once-some sep (c ∷ cs) r = elim (Bool-cases (c == sep)) [
  | inl e ↦ (([], cs ++ (sep ∷ r)), rw (e, split_once) refl)
  | inr e ↦ let (p, q) = split_once-some sep cs r in ((c ∷ p.0, p.1), rw (e, split_once, q) refl)
]

pub is_blank-colon : (s r : List ℕ) → is_blank (s ++ (b':' ∷ r)) ≡ false
is_blank-colon [] r = refl
is_blank-colon (c ∷ cs) r = ground (arith, is_blank-colon cs r)

pub split_scheme-found :
    (s r : List ℕ) → All (λ c. c ≢ b':') s → split_scheme (s ++ (codes "://" ++ r)) ≡ some (s, r)
unfolding split_scheme strip_prefix
split_scheme-found [] r h = refl
split_scheme-found (c ∷ cs) r (h, hs) = ground (arith, split_scheme-found cs r hs)

before_path-tail : (s t : List ℕ) → All IsInside s → IsTail t → before_path (s ++ t) ≡ s
unfolding before_path
before_path-tail [] [] h k = refl
before_path-tail [] (c ∷ cs) h k = ground arith
before_path-tail (c ∷ cs) t (h, hs) k = ground (arith, before_path-tail cs t hs k)

behind_userinfo-none : (s : List ℕ) → All (λ c. c ≢ b'@') s → behind_userinfo s ≡ s
unfolding behind_userinfo
behind_userinfo-none [] h = refl
behind_userinfo-none (c ∷ cs) h = rw (behind_userinfo, split_once-none b'@' (c ∷ cs) h) refl

behind_userinfo-some :
    (u s : List ℕ) → All (λ c. c ≢ b'@') s → behind_userinfo (u ++ (b'@' ∷ s)) ≡ s
unfolding behind_userinfo
behind_userinfo-some [] s h = behind_userinfo-none s h
behind_userinfo-some (c ∷ cs) s h =
    rw (behind_userinfo, (split_once-some b'@' (c ∷ cs) s).1) (behind_userinfo-some cs s h)

pub trim_start-plain : (s : List ℕ) → All IsPlain s → trim_start s ≡ s
trim_start-plain [] h = refl
trim_start-plain (c ∷ cs) (h, hs) = ground arith

pub trim_end-plain : (s : List ℕ) → All IsPlain s → trim_end s ≡ s
trim_end-plain [] h = refl
trim_end-plain (c ∷ cs) (h, hs) = ground (arith, trim_end-plain cs hs)

-- The text of an authority.
abbrev pub authority : Option (List ℕ) → List ℕ → Option (List ℕ) → List ℕ
authority user host port = user_part user ++ (host ++ port_part port)

port_part-no_user :
    (host : List ℕ) (port : Option (List ℕ))
    → All IsPlain host
    → IfAny IsPlain port
    → All (λ c. c ≢ b'@') (host ++ port_part port)
port_part-no_user host none h k =
    All-join (λ c. c ≢ b'@') host [] (All-weaken IsPlain (λ c. c ≢ b'@') host (λ c p. p.3) h) tt
port_part-no_user host (some p) h k =
    All-join (λ c. c ≢ b'@') host (b':' ∷ p)
      (All-weaken IsPlain (λ c. c ≢ b'@') host (λ c q. q.3) h)
      (λ e. absurd (omega arith), All-weaken IsPlain (λ c. c ≢ b'@') p (λ c q. q.3) k)

behind_userinfo-authority :
    (user : Option (List ℕ)) (host : List ℕ) (port : Option (List ℕ))
    → All IsPlain host
    → IfAny IsPlain port
    → behind_userinfo (authority user host port) ≡ host ++ port_part port
behind_userinfo-authority none host port h k =
    behind_userinfo-none (host ++ port_part port) (port_part-no_user host port h k)
behind_userinfo-authority (some u) host port h k =
    rw (append_assoc u (b'@' ∷ []) (host ++ port_part port))
      (behind_userinfo-some u (host ++ port_part port) (port_part-no_user host port h k))

IsInside-plain : (s : List ℕ) → All IsPlain s → All IsInside s
IsInside-plain s h = All-weaken IsPlain IsInside s (λ c p. (p.0, p.1, p.2)) h

authority-IsInside :
    (user : Option (List ℕ)) (host : List ℕ) (port : Option (List ℕ))
    → IfAny IsInside user
    → All IsPlain host
    → IfAny IsPlain port
    → All IsInside (authority user host port)
authority-IsInside user host port u h k =
    All-join IsInside (user_part user) (host ++ port_part port) (user_inside user u)
      (All-join IsInside host (port_part port) (IsInside-plain host h) (port_inside port k))
  where
    user_inside : (user : Option (List ℕ)) → IfAny IsInside user → All IsInside (user_part user)
    user_inside none u = tt
    user_inside (some s) u =
        All-join IsInside s (b'@' ∷ []) u
          ((λ e. absurd (omega arith), λ e. absurd (omega arith), λ e. absurd (omega arith)), tt)

    port_inside : (port : Option (List ℕ)) → IfAny IsPlain port → All IsInside (port_part port)
    port_inside none k = tt
    port_inside (some s) k = (
      (λ e. absurd (omega arith), λ e. absurd (omega arith), λ e. absurd (omega arith)),
      IsInside-plain s k,
    )

host_of-unbracketed :
    (c : ℕ) (cs : List ℕ)
    → c ≢ b'['
    → host_of (c ∷ cs) ≡ elim (split_once b':' (c ∷ cs)) [ some p ↦ p.0 | none ↦ c ∷ cs ]
unfolding strip_prefix
host_of-unbracketed c cs h =
    let other : (c == b'[') ≡ false = ground arith in rw (host_of, other) refl

host_of-found :
    (host : List ℕ) (port : Option (List ℕ))
    → All IsPlain host
    → host_of (host ++ port_part port) ≡ host
unfolding strip_prefix split_once
host_of-found [] none h = refl
host_of-found [] (some p) h = refl
host_of-found (c ∷ cs) none h = rw (append-nil (c ∷ cs)) (
    rw
      (
        host_of-unbracketed c cs h.0.5,
        split_once-none b':' (c ∷ cs) (All-weaken IsPlain (λ c. c ≢ b':') (c ∷ cs) (λ c q. q.4) h),
      )
      refl)
host_of-found (c ∷ cs) (some p) h =
    rw
      (
        host_of-unbracketed c (cs ++ (b':' ∷ p)) h.0.5,
        split_once-found b':' (c ∷ cs) p
            (All-weaken IsPlain (λ c. c ≢ b':') (c ∷ cs) (λ c q. q.4) h),
      )
      refl

-- The guard finds the host of a URL whose parts are where they belong.
pub extract_host-found :
    (user : Option (List ℕ)) (host : List ℕ) (port : Option (List ℕ)) (tail : List ℕ)
    → IfAny IsInside user
    → All IsPlain host
    → IfAny IsPlain port
    → IsTail tail
    → extract_host (authority user host port ++ tail) ≡ host
unfolding extract_host
extract_host-found user host port tail u h k t =
    rw
      (
        before_path-tail (authority user host port) tail (authority-IsInside user host port u h k)
            t,
        behind_userinfo-authority user host port h k,
      )
      (host_of-found host port h)
