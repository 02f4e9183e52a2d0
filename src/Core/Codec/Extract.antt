-- ===== src/Core/Codec/Extract.antt =====
-- nps-core/src/codec.rs, writing the BinaryVector tier: a prefix of 16 bytes, the metadata as
-- MsgPack, and the vectors as segments of 32-bit floats.
use nps_sdk_rust.Common.{
  ℕ, List, [], ◌∷◌, ◌++◌, Option, none, some, ok, ◌>>=◌, ◌>>◌, guard, leb, length, if◌then◌else◌,
}
use nps_sdk_rust.Core.Error.{NpsResult, codec, lit}
use nps_sdk_rust.Core.Json
use nps_sdk_rust.Core.Json.{
  Value, Fields, Items, null, number, string, array, object, bool, nil, cons, end, field, get,
  to_list, of_list,
}
use nps_sdk_rust.Core.Frames.{u16_to_be, u32_to_be}
use nps_sdk_rust.Core.Codec.Formats.{Serde, map_codec, binary_vector_marker}

-- The prefix: magic "NPBV", version 1, a zero byte, the counts, and four zero bytes.
abbrev pub prefix : ℕ → ℕ → List ℕ
prefix count metadata_len =
    0x4E
    ∷ 0x50
    ∷ 0x42
    ∷ 0x56
    ∷ 1
    ∷ 0
    ∷ (u16_to_be count ++ (u32_to_be metadata_len ++ (0 ∷ 0 ∷ 0 ∷ 0 ∷ [])))

module _ {N F32 F64 : Type 0} (x : Serde N F32 F64) where
  -- The loop of `extract_vector_search_vector`: none where an entry is no finite number.
  unfoldable pub floats : List (Value N) → Option (List F32)
  floats [] = some []
  floats (number n ∷ vs) = elim (x.as_f64 n) [
    | none ↦ none
    | some f ↦
        let rest = floats vs in
        if x.is_finite f then elim rest [ none ↦ none | some r ↦ some (x.narrow f ∷ r) ] else none
  ]
  floats (_ ∷ vs) = none

  abbrev pub marker : ℕ → List F32 → Fields N
  marker index vector = Json.insert "dim" (number (x.from_u64 (length vector))) (
      Json.insert "dtype" (string "float32")
        (Json.insert binary_vector_marker (number (x.from_u64 index)) end))

  -- With `vector_search` an object whose `vector` is an array of finite numbers, the array is
  -- replaced by a marker and pushed; otherwise nothing changes.
  extract_array :
      Fields N → List (List F32) → Fields N → Option (List F32) → Fields N × List (List F32)
  extract_array metadata vectors search none = (metadata, vectors)
  extract_array metadata vectors search (some vector) = (
    Json.insert "vector_search"
        (object (Json.insert "vector" (object (marker (length vectors) vector)) search)) metadata,
    vectors ++ vector ∷ [],
  )

  extract_value :
      Fields N → List (List F32) → Fields N → Option (Value N) → Fields N × List (List F32)
  unfolding extract_array floats
  extract_value metadata vectors search (some (array values)) =
      extract_array metadata vectors search (floats (to_list values))
  extract_value metadata vectors search _ = (metadata, vectors)

  extract_search : Fields N → List (List F32) → Option (Value N) → Fields N × List (List F32)
  unfolding extract_value
  extract_search metadata vectors (some (object search)) =
      extract_value metadata vectors search (get "vector" search)
  extract_search metadata vectors _ = (metadata, vectors)

  unfoldable pub extract_vector_search_vector :
      Fields N → List (List F32) → Fields N × List (List F32)
  unfolding extract_search
  extract_vector_search_vector metadata vectors =
      extract_search metadata vectors (get "vector_search" metadata)

  unfoldable pub floats_to_bytes : List F32 → List ℕ
  floats_to_bytes [] = []
  floats_to_bytes (f ∷ fs) = x.to_le_bytes f ++ floats_to_bytes fs

  unfoldable pub segments : List (List F32) → List ℕ
  unfolding floats_to_bytes
  segments [] = []
  segments (v ∷ vs) = u32_to_be (length v) ++ (floats_to_bytes v ++ segments vs)

  unfoldable pub encode_binary_vector : Fields N → NpsResult (List ℕ)
  encode_binary_vector dict =
      let (metadata, vectors) = extract_vector_search_vector dict [] in
      do
        guard (leb (length vectors) 65535)
            (codec (lit "binary vector supports at most 65535 vectors per frame" ∷ []))
        metadata_bytes ← map_codec (x.msgpack_to_vec (object metadata))
        ok (prefix (length vectors) (length metadata_bytes) ++ (metadata_bytes ++ segments vectors))
