-- ===== src/Nop/CallbackUrl.antt =====
-- nps-nop/src/validation.rs: `validate_callback_url`, on code points. An address is what the standard
-- library's parser makes of a host, the section's parameter: four octets, or eight segments.
pub mod Parts
pub mod Laws
use nps_sdk_rust.Common.{
  ℕ, ◌+◌, ◌*◌, ◌/◌, ◌%◌, String, Bool, true, false, not, ◌&&◌, ◌||◌, List, [], ◌∷◌, ◌++◌, Option,
  none, some, ltb, leb, ◌==◌, if◌then◌else◌, codes, is_blank, split_once, strip_prefix,
}
use nps_sdk_rust.Ncp.Preamble.{slice_eq}
use nps_sdk_rust.Nop.InputMapper.{is_part}

pub data IpAddr : Type 0 where
  v4 : (a b c d : ℕ) → IpAddr
  v6 : (s0 s1 s2 s3 s4 s5 s6 s7 : ℕ) → IpAddr

-- The messages, with what they quote.
pub data UrlError : Type 0 where
  empty_url : UrlError
  not_absolute : (url : List ℕ) → UrlError
  not_https : (scheme : List ℕ) → UrlError
  private_host : (host : List ℕ) → UrlError

abbrev pub is_private_ipv4 : (a b c d : ℕ) → Bool
is_private_ipv4 a b c d =
    (a == 127)
    || ((a == 10)
        || ((a == 0)
            || (((a == 172) && (leb 16 b && leb b 31))
                || (((a == 192) && (b == 168)) || ((a == 169) && (b == 254))))))

-- `Ipv6Addr::is_loopback`
abbrev pub is_loopback : (s0 s1 s2 s3 s4 s5 s6 s7 : ℕ) → Bool
is_loopback s0 s1 s2 s3 s4 s5 s6 s7 =
    (s0 == 0)
    && ((s1 == 0)
        && ((s2 == 0) && ((s3 == 0) && ((s4 == 0) && ((s5 == 0) && ((s6 == 0) && (s7 == 1)))))))

-- The masks keep the highest ten bits, and seven, of sixteen.
abbrev pub is_private_ipv6 : (s0 s1 s2 s3 s4 s5 s6 s7 : ℕ) → Bool
is_private_ipv6 s0 s1 s2 s3 s4 s5 s6 s7 =
    if is_loopback s0 s1 s2 s3 s4 s5 s6 s7
    then true
    else (s0 / 64 == 0xfe80 / 64) || ((s0 / 64 == 0xfec0 / 64) || (s0 / 512 == 0xfc00 / 512))

-- `Ipv6Addr::to_ipv4_mapped`: an address in ::ffff:0:0/96.
abbrev pub is_mapped : (s0 s1 s2 s3 s4 s5 : ℕ) → Bool
is_mapped s0 s1 s2 s3 s4 s5 =
    (s0 == 0) && ((s1 == 0) && ((s2 == 0) && ((s3 == 0) && ((s4 == 0) && (s5 == 0xffff)))))

unfoldable pub is_private_ip : IpAddr → Bool
is_private_ip (v4 a b c d) = is_private_ipv4 a b c d
is_private_ip (v6 s0 s1 s2 s3 s4 s5 s6 s7) =
    if is_mapped s0 s1 s2 s3 s4 s5
    then is_private_ipv4 (s6 / 256) (s6 % 256) (s7 / 256) (s7 % 256)
    else is_private_ipv6 s0 s1 s2 s3 s4 s5 s6 s7

abbrev pub ascii_lower : ℕ → ℕ
ascii_lower c = if leb b'A' c && leb c b'Z' then c + 32 else c

abbrev pub lower : List ℕ → List ℕ
lower [] = []
lower (c ∷ cs) = ascii_lower c ∷ lower cs

-- `split_once("://")`
unfoldable pub split_scheme : List ℕ → Option (List ℕ × List ℕ)
unfolding strip_prefix
split_scheme [] = none
split_scheme (c ∷ cs) =
    let rest = split_scheme cs in
    elim (strip_prefix (codes "://") (c ∷ cs)) [
      | some after ↦ some ([], after)
      | none ↦ elim rest [ none ↦ none | some (scheme, after) ↦ some (c ∷ scheme, after) ]
    ]

abbrev pub is_end : ℕ → Bool
is_end c = (c == b'/') || ((c == b'?') || (c == b'#'))

-- The first part of `split(['/', '?', '#'])`
unfoldable pub before_path : List ℕ → List ℕ
before_path [] = []
before_path (c ∷ cs) = if is_end c then [] else c ∷ before_path cs

-- The first part of `rsplit('@')`
unfoldable pub behind_userinfo : List ℕ → List ℕ
unfolding split_once
behind_userinfo [] = []
behind_userinfo (c ∷ cs) =
    let rest = behind_userinfo cs in
    elim (split_once b'@' (c ∷ cs)) [ none ↦ c ∷ cs | some p ↦ rest ]

abbrev pub host_of : List ℕ → List ℕ
host_of authority = elim (strip_prefix (codes "[") authority) [
  | some stripped ↦ elim (split_once b']' stripped) [
    | some (front, after) ↦ b'[' ∷ (front ++ (b']' ∷ []))
    | none ↦ authority
  ]
  | none ↦ elim (split_once b':' authority) [ some (h, port) ↦ h | none ↦ authority ]
]

unfoldable pub extract_host : List ℕ → List ℕ
unfolding before_path behind_userinfo
extract_host rest = host_of (behind_userinfo (before_path rest))

abbrev pub trim_start : List ℕ → List ℕ
trim_start [] = []
trim_start (c ∷ cs) = let rest = trim_start cs in if c == b'[' then rest else c ∷ cs

abbrev pub trim_end : List ℕ → List ℕ
trim_end [] = []
trim_end (c ∷ cs) =
    let rest = trim_end cs in if (c == b']') && not (is_part rest) then [] else c ∷ rest

module _ (parse_ip : List ℕ → Option IpAddr) where
  unfoldable pub is_private_host : List ℕ → Bool
  unfolding is_private_ip
  is_private_host [] = true
  is_private_host (c ∷ cs) =
      if slice_eq (lower (c ∷ cs)) (codes "localhost")
      then true
      else elim (parse_ip (trim_end (trim_start (c ∷ cs)))) [
        | some ip ↦ is_private_ip ip
        | none ↦ false
      ]

  abbrev pub check_host : (url host : List ℕ) → Option UrlError
  check_host url host =
      if not (is_part host)
      then some (not_absolute url)
      else if is_private_host host
      then some (private_host host)
      else none

  abbrev pub check_parts : List ℕ → Option (List ℕ × List ℕ) → Option UrlError
  check_parts url none = some (not_absolute url)
  check_parts url (some p) =
      if not (slice_eq (lower (p.0)) (codes "https"))
      then some (not_https (lower (p.0)))
      else check_host url (extract_host (p.1))

  unfoldable pub validate_callback_url : List ℕ → Option UrlError
  unfolding is_private_host extract_host split_scheme
  validate_callback_url url =
      if is_blank url then some empty_url else check_parts url (split_scheme url)
