-- ===== src/Ndp/Profile/Canonical.antt =====
-- nps-ndp/src/registry_profile.rs: the text of an announcement that its signature covers. The
-- printing of a key or a scalar, the reading of numbers and times, and the hash are the work of
-- serde_json, time and sha2.
use Prim.Native.String
use nps_sdk_rust.Common.{
  ℕ, String, Bool, true, false, ◌||◌, List, [], ◌∷◌, Option, none, some, if◌then◌else◌, str_eq,
  sort_by_key,
}
use nps_sdk_rust.Core.Json
use nps_sdk_rust.Core.Json.{
  Value, Items, Fields, null, object, array, number, string, bool, nil, cons, end, field, get,
}

pub record ProfileOps (N : Type 0) : Type 0 where
  pub as_u64 : N → Option ℕ
  pub number_from : ℕ → N
  pub value_eq : Value N → Value N → Bool
  pub to_text : Value N → String
  pub parse_time : String → Option ℕ
  pub sha256_hex : String → String

module _ {N : Type 0} (ops : ProfileOps N) where
  -- `Map::remove` of the four fields, and `retain` of those that are not null.
  abbrev pub is_unsigned_field : String → Bool
  is_unsigned_field k =
      str_eq k "frame" || (str_eq k "signature" || (str_eq k "health" || str_eq k "last_seen"))

  abbrev pub is_null : Value N → Bool
  is_null null = true
  is_null _ = false

  unfoldable pub keep_signed : Fields N → Fields N
  keep_signed end = end
  keep_signed (field k v fs) =
      let rest = keep_signed fs in if is_unsigned_field k || is_null v then rest else field k v rest

  abbrev pub or_insert : String → Value N → Fields N → Fields N
  or_insert k v fs = elim (get k fs) [ none ↦ Json.insert k v fs | some w ↦ fs ]

  unfoldable pub signed_body : Fields N → Fields N
  unfolding keep_signed
  signed_body frame =
      or_insert "heartbeat_interval_ms" (number (ops.number_from 60000)) (keep_signed frame)

  -- The fields' texts with a comma between two of them.
  abbrev pub commas : List String → String
  commas [] = ""
  commas (s ∷ []) = s
  commas (s ∷ t ∷ r) = String.◌++◌ s (String.◌++◌ "," (commas (t ∷ r)))

  abbrev pub pair_texts : List (String × String) → List String
  pair_texts [] = []
  pair_texts ((k, s) ∷ r) = String.◌++◌ (ops.to_text (string k)) (String.◌++◌ ":" s) ∷ pair_texts r

  unfoldable mutual
    pub write_canonical : Value N → String
    write_canonical (object fs) =
        String.◌++◌ "{" (String.◌++◌ (commas (pair_texts (sort_by_key (field_texts fs)))) "}")
    write_canonical (array vs) = String.◌++◌ "[" (String.◌++◌ (commas (item_texts vs)) "]")
    write_canonical null = ops.to_text null
    write_canonical (bool b) = ops.to_text (bool b)
    write_canonical (number n) = ops.to_text (number n)
    write_canonical (string s) = ops.to_text (string s)

    pub item_texts : Items N → List String
    item_texts nil = []
    item_texts (cons v vs) = write_canonical v ∷ item_texts vs

    pub field_texts : Fields N → List (String × String)
    field_texts end = []
    field_texts (field k v fs) =
        let rest = field_texts fs in
        let text = write_canonical v in if is_null v then rest else (k, text) ∷ rest

  unfoldable pub canonical_announce_json : Fields N → String
  canonical_announce_json frame = write_canonical (object (signed_body frame))

  abbrev pub signed_digest : Fields N → String
  signed_digest frame = ops.sha256_hex (canonical_announce_json frame)
