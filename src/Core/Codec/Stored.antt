-- ===== src/Core/Codec/Stored.antt =====
-- The values that serde_json and rmp_serde are relied on to read back as they were written: objects
-- as a `BTreeMap` holds them, with the keys in order and each once, containers nested at most 127
-- deep, which is what `serde_json::from_slice` reads, and numbers of the given kind.
use nps_sdk_rust.Common.{
  ℕ, zero, suc, ◌≡◌, refl, Bool, true, false, not, ◌&&◌, String, some, str_eq, codes, codes_le,
  arith, eq_iff, List, [], ◌∷◌, inl, inr, Bool-cases, if_both,
}
use nps_sdk_rust.Core.Json
use nps_sdk_rust.Core.Json.{
  Value, Items, Fields, null, bool, number, string, array, object, nil, cons, end, field, get,
}

abbrev pub max_depth : ℕ
max_depth = 127

-- `a` stands before `b`.
abbrev before : String → String → Bool
before a b = codes_le (codes a) (codes b) && not (str_eq a b)

module _ {N : Type 0} where
  abbrev pub is_before_all : String → Fields N → Bool
  is_before_all k end = true
  is_before_all k (field j v fs) = before k j

  unfoldable pub is_ordered : Fields N → Bool
  is_ordered end = true
  is_ordered (field k v fs) = is_before_all k fs && is_ordered fs

module _ {N : Type 0} (exact : N → Bool) where
  unfoldable mutual
    pub is_stored : Value N → ℕ → Bool
    is_stored null d = true
    is_stored (bool b) d = true
    is_stored (string s) d = true
    is_stored (number n) d = exact n
    is_stored (array vs) zero = false
    is_stored (array vs) (suc d) = are_stored vs d
    is_stored (object fs) zero = false
    is_stored (object fs) (suc d) = is_ordered fs && fields_stored fs d

    pub are_stored : Items N → ℕ → Bool
    are_stored nil d = true
    are_stored (cons v vs) d = is_stored v d && are_stored vs d

    pub fields_stored : Fields N → ℕ → Bool
    fields_stored end d = true
    fields_stored (field k v fs) d = is_stored v d && fields_stored fs d

  pub get-stored :
      (k : String) (fs : Fields N) (d : ℕ) (v : Value N)
      → fields_stored fs d ≡ true
      → get k fs ≡ some v
      → is_stored v d ≡ true
  unfolding get fields_stored
  get-stored k end d v h e = cc
  get-stored k (field j w fs) d v h e = ground (arith, get-stored k fs d v)

  pub insert-stored :
      (k : String) (v : Value N) (fs : Fields N) (d : ℕ)
      → fields_stored fs d ≡ true
      → is_stored v d ≡ true
      → fields_stored (Json.insert k v fs) d ≡ true
  unfolding Json.insert fields_stored
  insert-stored k v end d h e = ground arith
  insert-stored k v (field j w fs) d h e = ground (arith, insert-stored k v fs d)

codes_le-total : (s t : List ℕ) → codes_le s t ≡ false → codes_le t s ≡ true
unfolding codes_le
codes_le-total [] t h = cc
codes_le-total (a ∷ s) [] h = refl
codes_le-total (a ∷ s) (b ∷ t) h = ground (arith, codes_le-total s t)

module _ {N : Type 0} where
  insert-is_before_all :
      (j k : String) (v : Value N) (fs : Fields N)
      → is_before_all j fs ≡ true
      → before j k ≡ true
      → is_before_all j (Json.insert k v fs) ≡ true
  unfolding Json.insert
  insert-is_before_all j k v end h b = b
  insert-is_before_all j k v (field i w fs) h b =
      if_both {A = Fields N} (λ r. is_before_all j r ≡ true) (str_eq i k) _ _ h
        (if_both {A = Fields N} (λ r. is_before_all j r ≡ true) (codes_le (codes k) (codes i)) _ _ b
          h)

  pub insert-is_ordered :
      (k : String) (v : Value N) (fs : Fields N)
      → is_ordered fs ≡ true
      → is_ordered (Json.insert k v fs) ≡ true
  unfolding is_ordered Json.insert
  insert-is_ordered k v end h = refl
  insert-is_ordered k v (field j w fs) h = elim (Bool-cases (str_eq j k)) [
    | inl t ↦ rw (t, Json.insert) h
    | inr t ↦ elim (Bool-cases (codes_le (codes k) (codes j))) [
      | inl u ↦ rw (t, u, Json.insert, is_ordered) (ground (arith, eq_iff j k, eq_iff k j, t, u, h))
      | inr u ↦
          let later = codes_le-total (codes k) (codes j) u in
          let tail : is_ordered fs ≡ true = ground arith in
          let head : is_before_all j fs ≡ true = ground arith in
          let distinct : before j k ≡ true = ground arith in
          let first = insert-is_before_all j k v fs head distinct in
          let rest = insert-is_ordered k v fs tail in
          rw (t, u, Json.insert, is_ordered) (ground arith)
    ]
  ]
