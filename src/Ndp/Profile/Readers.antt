-- ===== src/Ndp/Profile/Readers.antt =====
-- nps-ndp/src/registry_profile.rs: reading the fields of an announcement.
use nps_sdk_rust.Common.{
  ℕ, ◌+◌, ◌^◌, String, Bool, true, false, not, ◌&&◌, ◌||◌, List, [], ◌∷◌, Option, none, some, ltb,
  if◌then◌else◌, contains, str_eq, codes, is_blank,
}
use nps_sdk_rust.Core.Json.{Value, Items, Fields, string, number, array, nil, cons, get}
use nps_sdk_rust.Ndp.Profile.Canonical.{ProfileOps}

module _ {N : Type 0} (ops : ProfileOps N) where
  abbrev pub string_of : Option (Value N) → Option String
  string_of (some (string s)) = some s
  string_of _ = none

  abbrev pub string_value : Fields N → String → Option String
  string_value frame key = string_of (get key frame)

  abbrev pub number_of : Option (Value N) → Option ℕ
  number_of (some (number n)) = ops.as_u64 n
  number_of _ = none

  abbrev pub number_value : Fields N → String → Option ℕ
  number_value frame key = number_of (get key frame)

  abbrev pub time_of : Option String → Option ℕ
  time_of none = none
  time_of (some s) = ops.parse_time s

  abbrev pub time_value : Fields N → String → Option ℕ
  time_value frame key = time_of (string_value frame key)

  abbrev pub texts_of : Items N → List String
  texts_of nil = []
  texts_of (cons (string s) vs) = s ∷ texts_of vs
  texts_of (cons _ vs) = texts_of vs

  abbrev pub strings : Fields N → String → List String
  strings frame key = elim (get key frame) [ some (array items) ↦ texts_of items | _ ↦ [] ]

  abbrev pub is_bridge : Fields N → Bool
  is_bridge frame =
      contains (strings frame "node_roles") "bridge"
      || elim (string_value frame "node_type") [ none ↦ false | some t ↦ str_eq t "bridge" ]

  -- The loop over the items: each is a text that is not blank.
  unfoldable pub protocol_items : Items N → Option (List String)
  protocol_items nil = some []
  protocol_items (cons (string s) vs) =
      let rest = protocol_items vs in
      if is_blank (codes s) then none else elim rest [ none ↦ none | some r ↦ some (s ∷ r) ]
  protocol_items (cons _ vs) = none

  abbrev pub protocol_list : Fields N → String → Option (Bool × List String)
  protocol_list frame key = elim (get key frame) [
    | none ↦ some (false, [])
    | some (array items) ↦ elim (protocol_items items) [ none ↦ none | some r ↦ some (true, r) ]
    | some _ ↦ none
  ]

  abbrev pub is_nonempty : List String → Bool
  is_nonempty [] = false
  is_nonempty (s ∷ ss) = true

  abbrev pub shape_ok : Bool → Option (Bool × List String) → Option (Bool × List String) → Bool
  shape_ok bridge (some (outbound_present, outbound)) (some (inbound_present, inbound)) =
      if bridge
      then is_nonempty outbound || is_nonempty inbound
      else (not outbound_present && not inbound_present)
  shape_ok bridge _ _ = false

  unfoldable pub bridge_shape_is_valid : Fields N → Bool
  unfolding protocol_items
  bridge_shape_is_valid frame =
      shape_ok (is_bridge frame) (protocol_list frame "bridge_protocols")
        (protocol_list frame "bridge_inbound_protocols")

  abbrev pub or_zero : Option ℕ → ℕ
  or_zero none = 0
  or_zero (some n) = n

  -- `checked_add` of an `i64` that is not negative.
  abbrev pub deadline : Option ℕ → ℕ → Option ℕ
  deadline none ttl = none
  deadline (some source) ttl =
      if ltb ttl (2 ^ 63) && ltb (source + ttl) (2 ^ 64) then some (source + ttl) else none

  abbrev pub or_else : Option ℕ → Option ℕ → Option ℕ
  or_else none o = o
  or_else (some n) o = some n

  unfoldable pub freshness_deadline : Fields N → Option ℕ
  freshness_deadline frame =
      deadline (or_else (time_value frame "last_seen") (time_value frame "timestamp"))
        (or_zero (number_value frame "ttl"))

  abbrev pub option_eq : Option (Value N) → Option (Value N) → Bool
  option_eq none none = true
  option_eq (some v) (some w) = ops.value_eq v w
  option_eq _ _ = false

  -- `Value::get` on an object: an entry's frame is one.
  unfoldable pub same_liveness : Fields N → Fields N → Bool
  same_liveness left right =
      option_eq (get "health" left) (get "health" right)
      && option_eq (get "last_seen" left) (get "last_seen" right)
