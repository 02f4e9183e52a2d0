-- ===== src/Core/Codec/RoundTrip.antt =====
-- Frames on the wire: what `decode` makes of the bytes that `encode` wrote.
use nps_sdk_rust.Common.{
  ℕ, ◌+◌, ◌<◌, ◌≤◌, ◌^◌, ◌≡◌, ◌≢◌, refl, sym, ap, ap₂, ◌∙◌, Bool, true, not, List, [], ◌++◌, ok,
  ◌>>=◌, guard, leb, length, take, drop, arith, take-append, drop-append, length-append, le→leb,
  leb→le, bind-ok, ok-injective, guard-ok,
}
use mathlib.Core.List.{append_assoc}
use nps_sdk_rust.Core.Json.{Fields, object}
use nps_sdk_rust.Core.Frames
use nps_sdk_rust.Core.Frames.{
  FrameType, EncodingTier, FrameHeader, encoding_tier, header_size, parse, to_bytes,
}
use nps_sdk_rust.Core.Frames.Wire.{parse-to_bytes, new-IsWellFormed, new_flags}
use nps_sdk_rust.Core.Registry.{is_registered}
use nps_sdk_rust.Core.Codec.Stored.{is_stored, max_depth}
use nps_sdk_rust.Core.Codec.Formats.{Serde, map_codec-ok}
use nps_sdk_rust.Core.Codec.Extract.{extract_vector_search_vector}
use nps_sdk_rust.Core.Codec.Restore.{restore_vector_search_vector}
use nps_sdk_rust.Core.Codec.Framing.{NumberLaws, MsgpackLaws, JsonLaws, decode-encode_binary_vector}
use nps_sdk_rust.Core.Codec.{NpsFrameCodec, encode, decode, encode_payload, decode_payload}

length-to_bytes : (h : FrameHeader) → length (to_bytes h) ≡ header_size h
unfolding to_bytes header_size
length-to_bytes h = ground arith

new-fields :
    (ft : FrameType) (tier : EncodingTier) (final : Bool) (len : ℕ)
    → ((Frames.new ft tier final len).payload_length ≡ len)
      × ((Frames.new ft tier final len).frame_type ≡ ft)
unfolding Frames.new
new-fields ft tier final len = (refl, refl)

module _ {N F32 F64 : Type 0} (x : Serde N F32 F64) where
  -- `decode` of a well-formed header, its payload and anything else.
  decode_parts :
      (c : NpsFrameCodec) (h : FrameHeader) (payload rest : List ℕ)
      → parse (to_bytes h ++ (payload ++ rest)) ≡ ok h
      → h.payload_length ≡ length payload
      → is_registered c.registry h.frame_type ≡ true
      → decode x c (to_bytes h ++ (payload ++ rest))
        ≡ (decode_payload x (encoding_tier h) payload >>= λ d. ok (h.frame_type, d))
  unfolding decode
  decode_parts c h payload rest p len reg =
      let bytes = to_bytes h in
      let fits : header_size h + h.payload_length ≤ length (bytes ++ (payload ++ rest)) = omega (
        arith,
        length-to_bytes h,
        length-append bytes (payload ++ rest),
        length-append payload rest,
      ) in
      let behind : drop (header_size h) (bytes ++ (payload ++ rest)) ≡ payload ++ rest =
        ap (λ n. drop n (bytes ++ (payload ++ rest))) (sym (length-to_bytes h))
        ∙ drop-append bytes (payload ++ rest) in
      let front : take h.payload_length (payload ++ rest) ≡ payload =
        ap (λ n. take n (payload ++ rest)) len ∙ take-append payload rest in
      rw p (rw (le→leb _ _ fits) (rw behind (rw (front, reg))))

  -- What `decode` makes of an encoded frame, whatever bytes follow it: it reads the payload by the
  -- tier that the frame was written in.
  decode-encode_any :
      (c : NpsFrameCodec) (ft : FrameType) (dict : Fields N) (tier : EncodingTier) (final : Bool)
      (wire rest : List ℕ)
      → c.max_payload < 2 ^ 32
      → is_registered c.registry ft ≡ true
      → encode x c ft dict tier final ≡ ok wire
      → (payload : List ℕ) × (encode_payload x tier dict ≡ ok payload)
        × (length payload < 2 ^ 32)
        × (decode x c (wire ++ rest) ≡ (decode_payload x tier payload >>= λ d. ok (ft, d)))
  unfolding encode
  decode-encode_any c ft dict tier final wire rest small reg h =
      let (payload, e, h') = bind-ok (encode_payload x tier dict) _ h in
      let (_, g, made) = bind-ok (guard (leb (length payload) c.max_payload) _) _ h' in
      let len : length payload < 2 ^ 32 =
        omega (arith, leb→le _ _ (guard-ok (leb (length payload) c.max_payload) _ g)) in
      let header = Frames.new ft tier final (length payload) in
      let parsed =
        parse-to_bytes header (payload ++ rest)
          (new-IsWellFormed ft tier final (length payload) len) in
      let (flen, ftype) = new-fields ft tier final (length payload) in
      let whole = decode_parts c header payload rest parsed flen (rw ftype reg) in
      let shape : wire ++ rest ≡ to_bytes header ++ (payload ++ rest) =
        ap (λ w. w ++ rest) (sym (ok-injective made))
        ∙ append_assoc (to_bytes header) payload rest in
      (
        payload,
        e,
        len,
        rw shape (
            whole
            ∙ ap₂ (λ t y. decode_payload x t payload >>= λ d. ok (y, d))
                (new_flags ft tier final (length payload)).0 ftype),
      )

  -- The numbers that a tier keeps as they are.
  abbrev pub is_exact : EncodingTier → N → Bool
  is_exact EncodingTier.json n = not (x.is_f64 n)
  is_exact _ n = true

  decode-encode_stable :
      MsgpackLaws x
      → JsonLaws x
      → (tier : EncodingTier) (dict : Fields N) (payload : List ℕ)
      → tier ≢ EncodingTier.binary_vector
      → is_stored (is_exact tier) (object dict) max_depth ≡ true
      → encode_payload x tier dict ≡ ok payload
      → decode_payload x tier payload ≡ ok dict
  unfolding encode_payload decode_payload
  decode-encode_stable msgpack json EncodingTier.json dict payload _ s e =
      rw (json.json_read_back dict payload s (map_codec-ok (x.json_to_vec dict) e))
  decode-encode_stable msgpack json EncodingTier.msg_pack dict payload _ s e = rw (
      msgpack.msgpack_read_back (object dict) payload s
        (map_codec-ok (x.msgpack_to_vec (object dict)) e))
  decode-encode_stable msgpack json EncodingTier.binary_vector dict payload other s e =
      absurd (other refl)
  decode-encode_stable msgpack json EncodingTier.reserved dict payload _ s e = absurd (cc (sym e))

  -- A frame of a registered type that is encoded in a tier other than BinaryVector is decoded to
  -- the same type and dictionary, whatever bytes follow it on the wire, by a codec whose limit is
  -- below 4 GiB. The dictionary's containers are nested at most 127 deep, the keys of each object
  -- are in order and distinct, and in the JSON tier no number is an `f64`.
  pub decode-encode :
      MsgpackLaws x
      → JsonLaws x
      → (c : NpsFrameCodec) (ft : FrameType) (dict : Fields N) (tier : EncodingTier) (final : Bool)
        (wire rest : List ℕ)
      → c.max_payload < 2 ^ 32
      → is_registered c.registry ft ≡ true
      → tier ≢ EncodingTier.binary_vector
      → is_stored (is_exact tier) (object dict) max_depth ≡ true
      → encode x c ft dict tier final ≡ ok wire
      → decode x c (wire ++ rest) ≡ ok (ft, dict)
  decode-encode msgpack json c ft dict tier final wire rest small reg other s h =
      let (payload, e, _, whole) = decode-encode_any c ft dict tier final wire rest small reg h in
      whole
      ∙ ap (λ r. r >>= λ d. ok (ft, d))
          (decode-encode_stable msgpack json tier dict payload other s e)

  -- In the BinaryVector tier the decoder puts the vectors that the encoder took out back into
  -- what the encoder left, under the same conditions on that metadata.
  pub decode-encode_vectors :
      NumberLaws x
      → MsgpackLaws x
      → (c : NpsFrameCodec) (ft : FrameType) (dict : Fields N) (final : Bool) (wire rest : List ℕ)
      → c.max_payload < 2 ^ 32
      → is_registered c.registry ft ≡ true
      → is_stored (λ _. true) (object (extract_vector_search_vector x dict []).0) max_depth ≡ true
      → encode x c ft dict EncodingTier.binary_vector final ≡ ok wire
      → decode x c (wire ++ rest) ≡ (
          restore_vector_search_vector x
            (extract_vector_search_vector x dict []).0
            (extract_vector_search_vector x dict []).1
          >>= λ d. ok (ft, d))
  unfolding encode_payload decode_payload
  decode-encode_vectors laws msgpack c ft dict final wire rest small reg s h =
      let (payload, e, len, whole) =
        decode-encode_any c ft dict EncodingTier.binary_vector final wire rest small reg h in
      whole
      ∙ ap (λ r. r >>= λ d. ok (ft, d))
          (decode-encode_binary_vector x laws dict payload msgpack s e len)
