-- ===== src/Core/Codec/Restore.antt =====
-- nps-core/src/codec.rs, reading the BinaryVector tier. The reader's offset is the list of the
-- bytes still to read.
use nps_sdk_rust.Common.{
  ℕ, zero, suc, ◌*◌, String, Bool, false, ◌&&◌, List, [], ◌∷◌, Option, none, some, ok, err, ◌>>=◌,
  ◌>>◌, guard, ok_or, leb, ◌==◌, length, take, drop, get_elem?, str_eq,
}
use nps_sdk_rust.Core.Error.{NpsResult, codec, lit, dec}
use nps_sdk_rust.Core.Json
use nps_sdk_rust.Core.Json.{
  Value, Fields, Items, null, number, string, array, object, bool, nil, cons, end, field, get,
  to_list, of_list,
}
use nps_sdk_rust.Core.Frames.{u16_from_be, u32_from_be}
use nps_sdk_rust.Core.Codec.Formats.{Serde, map_codec, fail, binary_vector_marker}

module _ {N F32 F64 : Type 0} (x : Serde N F32 F64) where
  -- The inner loop: `dim` floats from the `dim * 4` bytes of a segment.
  unfoldable pub floats_of_bytes : List ℕ → List F32
  floats_of_bytes (a ∷ b ∷ c ∷ d ∷ rest) = x.from_le_bytes a b c d ∷ floats_of_bytes rest
  floats_of_bytes _ = []

  -- The loop over the segments, and the bytes after the last.
  unfoldable pub read_vectors : ℕ → List ℕ → NpsResult (List (List F32) × List ℕ)
  unfolding floats_of_bytes
  read_vectors zero rest = ok ([], rest)
  read_vectors (suc n) (a ∷ b ∷ c ∷ d ∷ rest) =
      let byte_len = u32_from_be a b c d * 4 in
      do
        guard (leb byte_len (length rest)) (codec (lit "binary vector segment is truncated" ∷ []))
        (vectors, after) ← read_vectors n (drop byte_len rest)
        ok (floats_of_bytes (take byte_len rest) ∷ vectors, after)
  read_vectors (suc n) _ = fail "binary vector segment missing dimension"

  abbrev pub get_u64 : String → Fields N → Option ℕ
  get_u64 k fs = elim (get k fs) [ some (number n) ↦ x.as_u64 n | _ ↦ none ]

  abbrev pub get_str : String → Fields N → Option String
  get_str k fs = elim (get k fs) [ some (string s) ↦ some s | _ ↦ none ]

  abbrev pub is_float32 : Option String → Bool
  is_float32 none = false
  is_float32 (some s) = str_eq s "float32"

  unfoldable pub widen_all : List F32 → Option (List (Value N))
  widen_all [] = some []
  widen_all (f ∷ fs) = elim (x.from_f64 (x.widen f)) [
    | none ↦ none
    | some n ↦ elim (widen_all fs) [ none ↦ none | some r ↦ some (number n ∷ r) ]
  ]

  unfoldable pub restore_marker :
      Fields N → List (List F32) → Fields N → Fields N → NpsResult (Fields N)
  unfolding widen_all
  restore_marker metadata vectors search m = do
    index ←
        ok_or (get_u64 binary_vector_marker m)
          (codec (lit "binary vector marker missing vector index" ∷ []))
    vector ← ok_or (get_elem? vectors index) (
        codec (
          lit "binary vector marker references vector "
          ∷ dec index
          ∷ lit ", but only "
          ∷ dec (length vectors)
          ∷ lit " vectors are present"
          ∷ []))
    guard (is_float32 (get_str "dtype" m))
        (codec (lit "binary vector v1 only supports dtype=float32" ∷ []))
    dim ←
        ok_or (get_u64 "dim" m)
          (codec (lit "binary vector marker dimension does not match vector segment" ∷ []))
    guard (dim == length vector)
        (codec (lit "binary vector marker dimension does not match vector segment" ∷ []))
    values ←
        ok_or (widen_all vector) (codec (lit "binary vector values must be finite float32" ∷ []))
    ok (
        Json.insert "vector_search" (object (Json.insert "vector" (array (of_list values)) search))
          metadata)

  restore_value : Fields N → List (List F32) → Fields N → Option (Value N) → NpsResult (Fields N)
  unfolding restore_marker
  restore_value metadata vectors search none = ok metadata
  restore_value metadata vectors search (some (object m)) = restore_marker metadata vectors search m
  restore_value metadata vectors search (some _) = fail "binary vector marker must be an object"

  restore_search : Fields N → List (List F32) → Option (Value N) → NpsResult (Fields N)
  unfolding restore_value
  restore_search metadata vectors (some (object search)) =
      restore_value metadata vectors search (get "vector" search)
  restore_search metadata vectors _ = ok metadata

  unfoldable pub restore_vector_search_vector : Fields N → List (List F32) → NpsResult (Fields N)
  unfolding restore_search
  restore_vector_search_vector metadata vectors =
      restore_search metadata vectors (get "vector_search" metadata)

  abbrev pub metadata_root : Value N → NpsResult (Fields N)
  metadata_root (object metadata) = ok metadata
  metadata_root _ = fail "binary vector metadata root must be a map"

  -- The part of `decode_binary_vector` behind the prefix.
  unfoldable pub decode_body : ℕ → ℕ → List ℕ → NpsResult (Fields N)
  unfolding read_vectors restore_vector_search_vector
  decode_body vector_count metadata_len body = do
    guard (leb metadata_len (length body))
        (codec (lit "binary vector metadata length exceeds payload length" ∷ []))
    v ← map_codec (x.msgpack_from_slice (take metadata_len body))
    metadata ← metadata_root v
    (vectors, after) ← read_vectors vector_count (drop metadata_len body)
    guard (length after == 0) (codec (lit "binary vector payload has trailing bytes" ∷ []))
    restore_vector_search_vector metadata vectors

  unfoldable pub decode_binary_vector : List ℕ → NpsResult (Fields N)
  unfolding decode_body
  decode_binary_vector
        (m0 ∷ m1 ∷ m2 ∷ m3 ∷ version ∷ zero0 ∷ c0 ∷ c1 ∷ l0 ∷ l1 ∷ l2 ∷ l3 ∷ r0 ∷ r1 ∷ r2 ∷ r3
          ∷ body) =
      do
        guard (m0 == 0x4E && (m1 == 0x50 && (m2 == 0x42 && m3 == 0x56)))
            (codec (lit "binary vector payload magic mismatch" ∷ []))
        guard (version == 1) (codec (lit "unsupported binary vector version: " ∷ dec version ∷ []))
        guard (zero0 == 0 && u32_from_be r0 r1 r2 r3 == 0)
            (codec (lit "binary vector reserved fields must be zero" ∷ []))
        decode_body (u16_from_be c0 c1) (u32_from_be l0 l1 l2 l3) body
  decode_binary_vector payload =
      err
        (codec (lit "binary vector payload too short: " ∷ dec (length payload) ∷ lit " bytes" ∷ []))
