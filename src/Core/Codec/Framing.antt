-- ===== src/Core/Codec/Framing.antt =====
-- The BinaryVector framing loses nothing: reading what was written gives the metadata and the
-- vectors that went in.
use nps_sdk_rust.Common.{
  ℕ, suc, ◌*◌, ◌<◌, ◌≤◌, ◌^◌, ◌≡◌, refl, ◌∙◌, List, [], ◌∷◌, ◌++◌, some, ok, ◌>>=◌, guard, leb,
  length, arith, All, true, not, take-append, drop-append, length-append, le→leb, leb→le, bind-ok,
  ok-injective, guard-ok,
}
use nps_sdk_rust.Core.Json.{Value, Fields, object}
use nps_sdk_rust.Core.Frames.{u32_to_be}
use nps_sdk_rust.Core.Frames.Wire.{u16_be, u32_be}
use nps_sdk_rust.Core.Codec.Stored.{is_stored, max_depth}
use nps_sdk_rust.Core.Codec.Formats.{Serde, map_codec, map_codec-ok}
use nps_sdk_rust.Core.Codec.Extract.{
  floats_to_bytes, segments, prefix, encode_binary_vector, extract_vector_search_vector,
}
use nps_sdk_rust.Core.Codec.Restore.{
  floats_of_bytes, read_vectors, decode_body, decode_binary_vector, restore_vector_search_vector,
}

-- What the formats promise: a 64-bit number is read back from a JSON number, and a float from its
-- four bytes.
pub record NumberLaws {N F32 F64 : Type 0} (x : Serde N F32 F64) : Type 0 where
  pub u64_read_back : (n : ℕ) → n < 2 ^ 64 → x.as_u64 (x.from_u64 n) ≡ some n
  pub float_bytes :
      (f : F32)
      → (a : ℕ) × (b : ℕ) × (c : ℕ) × (d : ℕ) × (x.to_le_bytes f ≡ a ∷ b ∷ c ∷ d ∷ [])
        × (x.from_le_bytes a b c d ≡ f)

-- MsgPack keeps each number in its own form, so it reads back whatever is in order and not too deep.
pub record MsgpackLaws {N F32 F64 : Type 0} (x : Serde N F32 F64) : Type 0 where
  pub msgpack_read_back :
      (v : Value N) (b : List ℕ)
      → is_stored (λ _. true) v max_depth ≡ true
      → x.msgpack_to_vec v ≡ ok b
      → x.msgpack_from_slice b ≡ ok v

-- JSON does so where no number is an `f64`: without serde_json's feature `float_roundtrip`, the
-- text of a float may be read as one of its neighbours.
pub record JsonLaws {N F32 F64 : Type 0} (x : Serde N F32 F64) : Type 0 where
  pub json_read_back :
      (fs : Fields N) (b : List ℕ)
      → is_stored (λ n. not (x.is_f64 n)) (object fs) max_depth ≡ true
      → x.json_to_vec fs ≡ ok b
      → x.json_from_slice b ≡ ok (object fs)

module _ {N F32 F64 : Type 0} (x : Serde N F32 F64) (laws : NumberLaws x) where
  length-floats_to_bytes : (v : List F32) → length (floats_to_bytes x v) ≡ length v * 4
  unfolding floats_to_bytes
  length-floats_to_bytes [] = refl
  length-floats_to_bytes (f ∷ fs) =
      let (a, b, c, d, e, _) = laws.float_bytes f in rw e (omega (arith, length-floats_to_bytes fs))

  floats_read_back : (v : List F32) → floats_of_bytes x (floats_to_bytes x v) ≡ v
  unfolding floats_of_bytes floats_to_bytes
  floats_read_back [] = refl
  floats_read_back (f ∷ fs) =
      let (a, b, c, d, e, back) = laws.float_bytes f in rw e (rw (back, floats_read_back fs))

  -- The lengths that the 32-bit fields hold.
  abbrev pub Fits : List (List F32) → Type 0
  Fits vs = All (λ v. length v < 2 ^ 32) vs

  read_one :
      (n : ℕ) (v : List F32) (rest : List ℕ)
      → length v < 2 ^ 32
      → read_vectors x (suc n) (u32_to_be (length v) ++ (floats_to_bytes x v ++ rest))
        ≡ (read_vectors x n rest >>= λ r. ok (v ∷ r.0, r.1))
  unfolding read_vectors
  read_one n v rest h =
      let bytes = floats_to_bytes x v in
      let fits : length bytes ≤ length (bytes ++ rest) = omega (arith, length-append bytes rest) in
      rw (u32_be (length v) h) (
        rw (← length-floats_to_bytes v) (
          rw (le→leb _ _ fits)
            (rw (drop-append bytes rest, take-append bytes rest, floats_read_back v))))

  pub read_vectors-segments :
      (vs : List (List F32)) → Fits vs → read_vectors x (length vs) (segments x vs) ≡ ok (vs, [])
  unfolding segments read_vectors
  read_vectors-segments [] h = refl
  read_vectors-segments (v ∷ vs) (h, hs) =
      rw (read_one (length vs) v (segments x vs) h) (rw (read_vectors-segments vs hs))

  body_read_back :
      (vs : List (List F32)) (metadata : Fields N) (bytes : List ℕ)
      → MsgpackLaws x
      → is_stored (λ _. true) (object metadata) max_depth ≡ true
      → Fits vs
      → x.msgpack_to_vec (object metadata) ≡ ok bytes
      → decode_body x (length vs) (length bytes) (bytes ++ segments x vs)
        ≡ restore_vector_search_vector x metadata vs
  unfolding decode_body
  body_read_back vs metadata bytes msgpack stored h e =
      let fits : length bytes ≤ length (bytes ++ segments x vs) =
        omega (arith, length-append bytes (segments x vs)) in
      rw (le→leb _ _ fits) (
        rw (take-append bytes (segments x vs), drop-append bytes (segments x vs))
          (rw (msgpack.msgpack_read_back (object metadata) bytes stored e)
            (rw (read_vectors-segments vs h))))

  prefix_read_back :
      (count len : ℕ) (body : List ℕ)
      → count < 2 ^ 16
      → len < 2 ^ 32
      → decode_binary_vector x (prefix count len ++ body) ≡ decode_body x count len body
  unfolding decode_binary_vector
  prefix_read_back count len body hc hl = rw (u16_be count hc, u32_be len hl)

  Fits-of_length : (vs : List (List F32)) → length (segments x vs) < 2 ^ 32 → Fits vs
  unfolding segments
  Fits-of_length [] h = tt
  Fits-of_length (v ∷ vs) h =
      let len = length-append (floats_to_bytes x v) (segments x vs) in
      (
        omega (arith, len, length-floats_to_bytes v),
        Fits-of_length vs (omega (arith, len, length-floats_to_bytes v)),
      )

  framed :
      (vs : List (List F32)) (metadata : Fields N) (bytes : List ℕ)
      → MsgpackLaws x
      → is_stored (λ _. true) (object metadata) max_depth ≡ true
      → length vs ≤ 65535
      → length (prefix (length vs) (length bytes) ++ (bytes ++ segments x vs)) < 2 ^ 32
      → x.msgpack_to_vec (object metadata) ≡ ok bytes
      → decode_binary_vector x (prefix (length vs) (length bytes) ++ (bytes ++ segments x vs))
        ≡ restore_vector_search_vector x metadata vs
  framed vs metadata bytes msgpack stored hv hl e =
      let len = length-append bytes (segments x vs) in
      prefix_read_back (length vs) (length bytes) (bytes ++ segments x vs) (omega arith)
        (omega (arith, len))
      ∙ body_read_back vs metadata bytes msgpack stored (Fits-of_length vs (omega (arith, len))) e

  -- Reading a payload of the BinaryVector tier that was written from a dictionary is putting the
  -- vectors back into the metadata, with the metadata and the vectors that writing split it into:
  -- the prefix, the lengths and the segments lose nothing. The payload is below 4 GiB, and MsgPack
  -- reads the metadata back.
  pub decode-encode_binary_vector :
      (dict : Fields N) (payload : List ℕ)
      → MsgpackLaws x
      → is_stored (λ _. true) (object (extract_vector_search_vector x dict []).0) max_depth ≡ true
      → encode_binary_vector x dict ≡ ok payload
      → length payload < 2 ^ 32
      → decode_binary_vector x payload
        ≡ restore_vector_search_vector x
            (extract_vector_search_vector x dict []).0
            (extract_vector_search_vector x dict []).1
  unfolding encode_binary_vector
  decode-encode_binary_vector dict payload msgpack stored h hl =
      let (metadata, vs) = extract_vector_search_vector x dict [] in
      let (_, few, h') = bind-ok (guard (leb (length vs) 65535) _) _ h in
      let (bytes, wrote, made) = bind-ok (map_codec (x.msgpack_to_vec (object metadata))) _ h' in
      let same = ok-injective made in
      rw (← same) (
        framed vs metadata bytes msgpack stored
          (leb→le _ _ (guard-ok (leb (length vs) 65535) _ few)) (rw (← same) at hl)
          (map_codec-ok (x.msgpack_to_vec (object metadata)) wrote))
