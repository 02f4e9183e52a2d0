-- ===== src/Ndp/Profile.antt =====
-- nps-ndp/src/registry_profile.rs: the registry that admits signed announcements by their sequence
-- numbers. An `i64` time t is kept as the number t + 2^63. A verdict on the signature is an argument
-- of the source's function too.
pub mod Canonical
pub mod Readers
pub mod Queries
pub mod Laws
pub mod Sequence
pub mod Body
mod Examples
use nps_sdk_rust.Common.{
  ℕ, ◌+◌, ◌-◌, ◌^◌, String, Bool, true, false, not, ◌&&◌, ◌||◌, List, [], ◌∷◌, Option, none, some,
  Result, ok, err, ◌>>=◌, ◌>>◌, guard, ok_or, ltb, leb, ◌==◌, if◌then◌else◌, lookup, insert, remove,
  contains, str_eq, codes, is_blank, any, values, max, select, sort_by_key,
}
use nps_sdk_rust.Core.Json
use nps_sdk_rust.Core.Json.{
  Value, Items, Fields, null, string, number, array, object, nil, cons, get, to_list,
}
use nps_sdk_rust.Ndp.Profile.Canonical.{ProfileOps, signed_digest}
use nps_sdk_rust.Ndp.Profile.Readers.{
  string_value, number_of, number_value, time_value, strings, is_bridge, bridge_shape_is_valid,
  freshness_deadline, same_liveness,
}

pub data NdpRegistryDecision : Type 0 where
  accepted duplicate refreshed removed rejected : NdpRegistryDecision

pub data ProfileCode : Type 0 where
  announce_conflict announce_profile_violation announce_signature_invalid announce_stale :
      ProfileCode
  graph_seq_rollback : ProfileCode

pub record NdpRegistryAdmission : Type 0 where
  pub decision : NdpRegistryDecision
  pub error_code : Option ProfileCode

abbrev pub admitted : NdpRegistryDecision → NdpRegistryAdmission
admitted d = record { decision = d; error_code = none }

abbrev pub reject : ProfileCode → NdpRegistryAdmission
reject code = record { decision = rejected; error_code = some code }

-- An announcement that has passed the tests on its fields, and its digest.
pub record Announcement (N : Type 0) : Type 0 where
  pub frame : Fields N
  pub nid : String
  pub sequence : ℕ
  pub ttl : ℕ
  pub digest : String

pub record Entry (N : Type 0) : Type 0 where
  pub frame : Fields N
  pub signed_digest : String
  pub expires_at : ℕ

pub record NdpRegistryProfile (N : Type 0) : Type 0 where
  pub security_profile : String
  pub entries : List (String × Entry N)
  pub sequences : List (String × ℕ)

module _ {N : Type 0} (ops : ProfileOps N) where
  unfoldable pub new : String → NdpRegistryProfile N
  new profile = record { security_profile = profile; entries = []; sequences = [] }

  abbrev pub is_local_dev : NdpRegistryProfile N → Bool
  is_local_dev r = str_eq r.security_profile "local-dev"

  abbrev pub as_object : Value N → Option (Fields N)
  as_object (object fs) = some fs
  as_object _ = none

  -- The field `graph_seq`: a number, or absent under the profile "local-dev".
  abbrev pub sequence_of : Bool → Option (Value N) → Result ProfileCode ℕ
  sequence_of local_dev none = if local_dev then ok 0 else err announce_profile_violation
  sequence_of local_dev (some v) = ok_or (number_of ops (some v)) announce_profile_violation

  -- `|received_at - timestamp| > 300`
  abbrev pub is_skewed : ℕ → ℕ → Bool
  is_skewed received_at timestamp = ltb 300 ((received_at - timestamp) + (timestamp - received_at))

  -- The tests of `apply_announce` before it looks at the registry's entries.
  unfoldable pub check_announce :
      NdpRegistryProfile N → Value N → Bool → ℕ → Result ProfileCode (Announcement N)
  unfolding bridge_shape_is_valid
  check_announce r frame signature_valid received_at = do
    guard signature_valid announce_signature_invalid
    fields ← ok_or (as_object frame) announce_profile_violation
    nid ← ok_or (string_value ops fields "nid") announce_profile_violation
    timestamp ← ok_or (time_value ops fields "timestamp") announce_profile_violation
    sequence ← sequence_of (is_local_dev r) (get "graph_seq" fields)
    ttl ← ok_or (number_value ops fields "ttl") announce_profile_violation
    guard (ltb ttl (2 ^ 32)) announce_profile_violation
    guard (bridge_shape_is_valid ops fields) announce_profile_violation
    guard (is_local_dev r || not (is_skewed received_at timestamp)) announce_signature_invalid
    ok (record {
      frame = fields;
      nid = nid;
      sequence = sequence;
      ttl = ttl;
      digest = signed_digest ops fields;
    })

  abbrev pub entry_of : Announcement N → ℕ → Entry N
  entry_of a expires_at = record {
    frame = a.frame;
    signed_digest = a.digest;
    expires_at = expires_at;
  }

  -- An entry that is written under a deadline in the future.
  abbrev pub unless_stale :
      NdpRegistryProfile N
      → Option ℕ
      → ℕ
      → (ℕ → NdpRegistryAdmission × NdpRegistryProfile N)
      → NdpRegistryAdmission × NdpRegistryProfile N
  unless_stale r none received_at write = (reject announce_stale, r)
  unless_stale r (some expires_at) received_at write =
      if leb expires_at received_at then (reject announce_stale, r) else write expires_at

  -- An announcement with the highest sequence number so far.
  unfoldable pub repeat_announce :
      NdpRegistryProfile N
      → Announcement N
      → ℕ
      → Option (Entry N)
      → NdpRegistryAdmission × NdpRegistryProfile N
  unfolding same_liveness freshness_deadline
  repeat_announce r a received_at none = (admitted duplicate, r)
  repeat_announce r a received_at (some current) =
      if not (str_eq current.signed_digest a.digest)
      then (reject announce_conflict, r)
      else if same_liveness ops current.frame a.frame
      then (admitted duplicate, r)
      else unless_stale r (freshness_deadline ops a.frame) received_at (λ expires_at.
        (admitted refreshed, record r { entries = insert a.nid (entry_of a expires_at) r.entries }))

  -- An announcement with a sequence number of its own.
  unfoldable pub store_announce :
      NdpRegistryProfile N → Announcement N → ℕ → NdpRegistryAdmission × NdpRegistryProfile N
  unfolding freshness_deadline
  store_announce r a received_at =
      if a.ttl == 0
      then (
        admitted removed,
        record r {
          sequences = insert a.nid a.sequence r.sequences;
          entries = remove a.nid r.entries;
        },
      )
      else unless_stale r (freshness_deadline ops a.frame) received_at (λ expires_at. (
        admitted accepted,
        record r {
          sequences = insert a.nid a.sequence r.sequences;
          entries = insert a.nid (entry_of a expires_at) r.entries;
        },
      ))

  abbrev pub by_sequence :
      NdpRegistryProfile N
      → Announcement N
      → ℕ
      → Option ℕ
      → NdpRegistryAdmission × NdpRegistryProfile N
  by_sequence r a received_at none = store_announce r a received_at
  by_sequence r a received_at (some highest) =
      if ltb a.sequence highest
      then (reject graph_seq_rollback, r)
      else if a.sequence == highest
      then repeat_announce r a received_at (lookup a.nid r.entries)
      else store_announce r a received_at

  abbrev pub admit :
      NdpRegistryProfile N
      → Result ProfileCode (Announcement N)
      → ℕ
      → NdpRegistryAdmission × NdpRegistryProfile N
  admit r (err code) received_at = (reject code, r)
  admit r (ok a) received_at = by_sequence r a received_at (lookup a.nid r.sequences)

  unfoldable pub apply_announce :
      NdpRegistryProfile N → Value N → Bool → ℕ → NdpRegistryAdmission × NdpRegistryProfile N
  unfolding check_announce repeat_announce store_announce
  apply_announce r frame signature_valid received_at =
      admit r (check_announce r frame signature_valid received_at) received_at

  unfoldable pub has_stale_entry : NdpRegistryProfile N → ℕ → Bool
  has_stale_entry r now = any (λ e. leb e.expires_at now) (values r.entries)
