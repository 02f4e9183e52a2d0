-- ===== src/Core/Codec/Vectors.antt =====
-- What the BinaryVector tier does to `vector_search.vector`.
use nps_sdk_rust.Common.{
  ℕ, ◌<◌, ◌^◌, ◌≡◌, String, refl, ap, ◌∙◌, List, [], ◌∷◌, ◌++◌, none, some, ok, length, arith,
  eq_refl, ◌>>=◌, ◌&&◌, All, inl, inr, ok_or, suc, codes_le, Bool, ==_iff, true,
}
use nps_sdk_rust.Core.Json
use nps_sdk_rust.Core.Json.{
  Value, Fields, Items, object, array, string, number, null, bool, end, get, get-insert,
  insert-insert, to_list, of_list,
}
use nps_sdk_rust.Core.Frames.{FrameType, EncodingTier}
use nps_sdk_rust.Core.Registry.{is_registered}
use nps_sdk_rust.Core.Codec.{NpsFrameCodec, encode, decode}
use nps_sdk_rust.Core.Codec.RoundTrip.{decode-encode_vectors}
use nps_sdk_rust.Core.Error.{NpsResult, codec, lit}
use nps_sdk_rust.Core.Codec.Stored.{
  is_stored, is_ordered, max_depth, get-stored, insert-stored, insert-is_ordered,
}
use nps_sdk_rust.Core.Codec.Formats.{Serde, fail, binary_vector_marker}
use nps_sdk_rust.Core.Codec.Narrowed.{
  IsFinite, Narrowed, IsNumber, Widened, floats-cases, floats-none, widen_all-cases,
}
use nps_sdk_rust.Core.Codec.Framing.{NumberLaws, MsgpackLaws}
use nps_sdk_rust.Core.Codec.Extract.{floats, marker, extract_vector_search_vector}
use nps_sdk_rust.Core.Codec.Restore.{widen_all, restore_marker, restore_vector_search_vector}

abbrev any : {A : Type 0} → A → Bool
any _ = true

both_true : {a b : Bool} → a ≡ true → b ≡ true → (a && b) ≡ true
both_true h k = rw (h, k) refl

both_true_of : {a b : Bool} → (a && b) ≡ true → (a ≡ true) × (b ≡ true)
both_true_of h = ground arith

module _ {N F32 F64 : Type 0} (x : Serde N F32 F64) where
  get-insert_self : (k : String) (v : Value N) (fs : Fields N) → get k (Json.insert k v fs) ≡ some v
  get-insert_self k v fs = rw (get-insert k k v fs, eq_refl k)

  -- What a dictionary whose `vector_search.vector` is an array comes back as.
  pub data Restored (ft : FrameType) (dict search : Fields N) (values : Items N)
      (result : NpsResult (FrameType × Fields N)) : Type 0 where
    converted :
        (v : List F32) (vals : List (Value N))
        → Narrowed x (to_list values) v
        → Widened x v vals
        → result
          ≡ ok (
            ft,
            Json.insert "vector_search"
                (object (Json.insert "vector" (array (of_list vals)) search))
                dict,
          )
        → Restored ft dict search values result
    overflowed :
        (v : List F32)
        → Narrowed x (to_list values) v
        → ¬ All (IsNumber x) v
        → result ≡ fail "binary vector values must be finite float32"
        → Restored ft dict search values result
    unconverted :
        ¬ All (IsFinite x) (to_list values)
        → result ≡ fail "binary vector marker must be an object"
        → Restored ft dict search values result

  marker-stored : (i d : ℕ) (v : List F32) → is_stored any (object (marker x i v)) (suc d) ≡ true
  unfolding is_stored is_ordered
  marker-stored i d v =
      both_true
        (insert-is_ordered "dim" _ _
          (insert-is_ordered "dtype" _ _ (insert-is_ordered binary_vector_marker _ end refl)))
        (insert-stored any "dim" _ _ d
          (insert-stored any "dtype" _ _ d
            (insert-stored any binary_vector_marker _ end d refl refl) refl)
          refl)

  -- What the encoder leaves is read back if the dictionary is.
  metadata-stored :
      (dict search : Fields N) (v : List F32) (d : ℕ)
      → is_stored any (object dict) (suc (suc (suc d))) ≡ true
      → get "vector_search" dict ≡ some (object search)
      → is_stored any
          (object (
            Json.insert "vector_search"
              (object (Json.insert "vector" (object (marker x 0 v)) search))
              dict))
          (suc (suc (suc d)))
        ≡ true
  unfolding is_stored
  metadata-stored dict search v d h e =
      let (ordered, kept) = both_true_of h in
      let (search_ordered, search_kept) =
        both_true_of (get-stored any "vector_search" dict (suc (suc d)) (object search) kept e) in
      both_true (insert-is_ordered "vector_search" _ dict ordered) (
        insert-stored any "vector_search" _ dict (suc (suc d)) kept (
          both_true (insert-is_ordered "vector" _ search search_ordered)
            (insert-stored any "vector" _ search (suc d) search_kept (marker-stored 0 d v))))

  extract_found :
      (dict search : Fields N) (values : Items N) (v : List F32)
      → get "vector_search" dict ≡ some (object search)
      → get "vector" search ≡ some (array values)
      → floats x (to_list values) ≡ some v
      → extract_vector_search_vector x dict [] ≡ (
        Json.insert "vector_search"
            (object (Json.insert "vector" (object (marker x 0 v)) search))
            dict,
        v ∷ [],
      )
  unfolding extract_vector_search_vector
  extract_found dict search values v e1 e2 e3 =
      rw (e1, extract_vector_search_vector) (rw e2 (rw e3))

  restore_own_marker :
      (metadata search : Fields N) (v : List F32)
      → NumberLaws x
      → length v < 2 ^ 64
      → restore_marker x metadata (v ∷ []) search (marker x 0 v) ≡ (
          ok_or (widen_all x v) (codec (lit "binary vector values must be finite float32" ∷ []))
          >>= λ vals. ok (
              Json.insert "vector_search"
                (object (Json.insert "vector" (array (of_list vals)) search))
                metadata))
  unfolding restore_marker Json.get Json.insert codes_le
  restore_own_marker metadata search v laws len =
      rw (laws.u64_read_back 0 (omega arith), laws.u64_read_back (length v) len)
        (rw ((==_iff (length v) (length v)).1 refl) refl)

  restore_found :
      (dict search : Fields N) (v : List F32)
      → restore_vector_search_vector x
          (Json.insert "vector_search"
            (object (Json.insert "vector" (object (marker x 0 v)) search))
            dict)
          (v ∷ [])
        ≡ restore_marker x
            (Json.insert "vector_search"
              (object (Json.insert "vector" (object (marker x 0 v)) search))
              dict)
            (v ∷ [])
            (Json.insert "vector" (object (marker x 0 v)) search)
            (marker x 0 v)
  unfolding restore_vector_search_vector
  restore_found dict search v =
      let m : Value N = object (marker x 0 v) in
      let s : Fields N = Json.insert "vector" m search in
      rw (get-insert_self "vector_search" (object s) dict, restore_vector_search_vector)
        (rw (get-insert_self "vector" m search) refl)

  -- The decoder on what the encoder leaves of an array of finite numbers.
  abbrev left_behind : (dict search : Fields N) (v : List F32) → Fields N
  left_behind dict search v =
      Json.insert "vector_search" (object (Json.insert "vector" (object (marker x 0 v)) search))
        dict

  restored-some :
      (dict search : Fields N) (v : List F32) (vals : List (Value N))
      → NumberLaws x
      → length v < 2 ^ 64
      → widen_all x v ≡ some vals
      → restore_vector_search_vector x (left_behind dict search v) (v ∷ [])
        ≡ ok (
            Json.insert "vector_search"
              (object (Json.insert "vector" (array (of_list vals)) search))
              dict)
  restored-some dict search v vals laws len e =
      let m : Value N = object (marker x 0 v) in
      let s : Fields N = Json.insert "vector" m search in
      restore_found dict search v
      ∙ (rw e at (restore_own_marker (Json.insert "vector_search" (object s) dict) s v laws len))
      ∙ ap ok (
          rw
            (insert-insert "vector_search" (object (Json.insert "vector" (array (of_list vals)) s))
              (object s) dict)
            (ap (λ f. Json.insert "vector_search" (object f) dict)
              (insert-insert "vector" (array (of_list vals)) m search)))

  restored-none :
      (dict search : Fields N) (v : List F32)
      → NumberLaws x
      → length v < 2 ^ 64
      → widen_all x v ≡ none
      → restore_vector_search_vector x (left_behind dict search v) (v ∷ [])
        ≡ fail "binary vector values must be finite float32"
  restored-none dict search v laws len e =
      let m : Value N = object (marker x 0 v) in
      let s : Fields N = Json.insert "vector" m search in
      restore_found dict search v
      ∙ (rw e at (restore_own_marker (Json.insert "vector_search" (object s) dict) s v laws len))

  -- But where the array holds an entry that is no finite number, the encoder writes a frame that
  -- the decoder refuses, for a registered type and a codec whose limit is below 4 GiB, whatever
  -- bytes follow. The dictionary's containers are nested at most 127 deep, and the keys of each
  -- object are in order and distinct.
  pub decode-encode_unconverted :
      NumberLaws x
      → MsgpackLaws x
      → (c : NpsFrameCodec) (ft : FrameType) (dict search : Fields N) (values : Items N)
        (final : Bool) (wire rest : List ℕ)
      → c.max_payload < 2 ^ 32
      → is_registered c.registry ft ≡ true
      → is_stored any (object dict) max_depth ≡ true
      → get "vector_search" dict ≡ some (object search)
      → get "vector" search ≡ some (array values)
      → ¬ All (IsFinite x) (to_list values)
      → encode x c ft dict EncodingTier.binary_vector final ≡ ok wire
      → decode x c (wire ++ rest) ≡ fail "binary vector marker must be an object"
  unfolding extract_vector_search_vector restore_vector_search_vector
  decode-encode_unconverted laws msgpack c ft dict search values final wire rest small reg stored e1
        e2 other h =
      let left : extract_vector_search_vector x dict [] ≡ (dict, []) =
        rw (e1, extract_vector_search_vector) (rw e2 (rw (floats-none x (to_list values) other))) in
      let refused : restore_vector_search_vector x dict []
          ≡ fail "binary vector marker must be an object" =
        rw (e1, restore_vector_search_vector) (rw e2) in
      decode-encode_vectors x laws msgpack c ft dict final wire rest small reg (rw left stored) h
      ∙ ap (λ p. restore_vector_search_vector x p.0 p.1 >>= λ d. ok (ft, d)) left
      ∙ ap (λ r. r >>= λ d. ok (ft, d)) refused

  restore-Restored :
      (ft : FrameType) (dict search : Fields N) (values : Items N) (v : List F32)
      (result : NpsResult (FrameType × Fields N))
      → NumberLaws x
      → length v < 2 ^ 64
      → Narrowed x (to_list values) v
      → result
        ≡ (restore_vector_search_vector x (left_behind dict search v) (v ∷ []) >>= λ d. ok (ft, d))
      → Restored ft dict search values result
  restore-Restored ft dict search values v result laws len t h = elim (widen_all-cases x v) [
    | inl (vals, e, w) ↦
        converted v vals t w
          (h ∙ ap (λ r. r >>= λ d. ok (ft, d)) (restored-some dict search v vals laws len e))
    | inr (e, never) ↦
        overflowed v t never
          (h ∙ ap (λ r. r >>= λ d. ok (ft, d)) (restored-none dict search v laws len e))
  ]

  -- A frame of the BinaryVector tier whose `vector_search.vector` is an array is decoded to the
  -- dictionary with the array's entries as `f32`, where all are finite numbers that stay finite. The
  -- decoder refuses the vector where one does not stay finite, and the frame where one is no finite
  -- number. The type is registered, the codec's limit below 4 GiB, and any bytes may follow. The
  -- dictionary's containers are nested at most 127 deep, and the keys of each object are in order
  -- and distinct.
  pub decode-encode_narrowed :
      NumberLaws x
      → MsgpackLaws x
      → (c : NpsFrameCodec) (ft : FrameType) (dict search : Fields N) (values : Items N)
        (final : Bool) (wire rest : List ℕ)
      → c.max_payload < 2 ^ 32
      → is_registered c.registry ft ≡ true
      → is_stored any (object dict) max_depth ≡ true
      → get "vector_search" dict ≡ some (object search)
      → get "vector" search ≡ some (array values)
      → length (to_list values) < 2 ^ 64
      → encode x c ft dict EncodingTier.binary_vector final ≡ ok wire
      → Restored ft dict search values (decode x c (wire ++ rest))
  decode-encode_narrowed laws msgpack c ft dict search values final wire rest small reg stored e1 e2
        short h =
      elim (floats-cases x (to_list values)) [
        | inr (_, other) ↦ unconverted other (
            decode-encode_unconverted laws msgpack c ft dict search values final wire rest small reg
              stored e1 e2 other h)
        | inl (v, e3, t, len) ↦
            let found = extract_found dict search values v e1 e2 e3 in
            restore-Restored ft dict search values v _ laws (omega (arith, len)) t (
              decode-encode_vectors x laws msgpack c ft dict final wire rest small reg
                (rw found (metadata-stored dict search v 124 stored e1)) h
              ∙ ap (λ p. restore_vector_search_vector x p.0 p.1 >>= λ d. ok (ft, d)) found)
      ]
