-- ===== src/Core/Json.antt =====
-- serde_json's values, over a type of numbers that the program only passes on: what the source
-- matches on, and an object's fields as a list in the order of the keys.
use nps_sdk_rust.Common.{
  String, ◌≡◌, refl, Bool, List, [], ◌∷◌, Option, none, some, if◌then◌else◌, str_eq, codes,
  codes_le, arith, eq_iff,
}

mutual
  pub data Value (N : Type 0) : Type 0 where
    null : Value N
    bool : Bool → Value N
    number : N → Value N
    string : String → Value N
    array : Items N → Value N
    object : Fields N → Value N

  pub data Items (N : Type 0) : Type 0 where
    nil : Items N
    cons : Value N → Items N → Items N

  pub data Fields (N : Type 0) : Type 0 where
    end : Fields N
    field : String → Value N → Fields N → Fields N

module _ {N : Type 0} where
  abbrev pub to_list : Items N → List (Value N)
  to_list nil = []
  to_list (cons v vs) = v ∷ to_list vs

  abbrev pub of_list : List (Value N) → Items N
  of_list [] = nil
  of_list (v ∷ vs) = cons v (of_list vs)

  -- `Map::get`
  unfoldable pub get : String → Fields N → Option (Value N)
  get k end = none
  get k (field j v fs) = if str_eq j k then some v else get k fs

  -- `Map::insert`: the map is a `BTreeMap`, which keeps its keys in order.
  unfoldable pub insert : String → Value N → Fields N → Fields N
  insert k v end = field k v end
  insert k v (field j w fs) =
      let rest = insert k v fs in
      if str_eq j k
      then field j v fs
      else if codes_le (codes k) (codes j)
      then field k v (field j w fs)
      else field j w rest

  pub get-insert :
      (k j : String) (v : Value N) (fs : Fields N)
      → get j (insert k v fs) ≡ (if str_eq k j then some v else get j fs)
  unfolding get insert
  get-insert k j v end = refl
  get-insert k j v (field i w fs) =
      ground (arith, eq_iff k j, eq_iff i k, eq_iff i j, get-insert k j v fs)

  pub insert-insert :
      (k : String) (v w : Value N) (fs : Fields N) → insert k v (insert k w fs) ≡ insert k v fs
  unfolding insert
  insert-insert k v w end = ground (arith, eq_iff k k)
  insert-insert k v w (field i u fs) =
      ground (arith, eq_iff k k, eq_iff i k, insert-insert k v w fs)
