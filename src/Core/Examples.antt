-- ===== src/Core/Examples.antt =====
-- Runs of nps-core on concrete inputs, with formats that write the values they need.
use nps_sdk_rust.Common.{
  codes_le, ℕ, ◌≡◌, refl, true, false, ◌&&◌, List, [], ◌∷◌, ◌++◌, some, ok, err, Result, str_eq,
  eq_iff, arith, if◌then◌else◌,
}
use nps_sdk_rust.Core.Error.{Message}
use nps_sdk_rust.Core.Json
use nps_sdk_rust.Core.Json.{
  Value, Fields, Items, object, number, string, array, nil, cons, end, field, to_list, of_list,
}
use nps_sdk_rust.Core.Frames
use nps_sdk_rust.Core.Frames.{
  FrameType, FrameHeader, EncodingTier, parse, to_bytes, encoding_tier, is_final, header_size,
  from_u8, as_u8, hello, query,
}
use nps_sdk_rust.Core.Frames.Wire.{parse-to_bytes}
use nps_sdk_rust.Core.Registry.{create_full, is_registered}
use nps_sdk_rust.Core.Codec
use nps_sdk_rust.Core.Codec.{NpsFrameCodec, encode, decode, decode_payload}
use nps_sdk_rust.Core.Codec.Formats.{Serde, fail}
use nps_sdk_rust.Core.Codec.Extract.{
  encode_binary_vector, floats, segments, extract_vector_search_vector,
}
use nps_sdk_rust.Core.Codec.Restore.{widen_all}
use nps_sdk_rust.Core.Codec.Stored.{is_stored, is_ordered}
use nps_sdk_rust.Core.Codec.Framing.{NumberLaws, MsgpackLaws, JsonLaws}
use nps_sdk_rust.Core.Codec.RoundTrip.{decode-encode}
use nps_sdk_rust.Core.Codec.Vectors.{Restored, decode-encode_narrowed, decode-encode_unconverted}

core : Unit {0}
unfolding parse to_bytes from_u8 as_u8 encoding_tier is_final header_size Frames.new create_full
    is_registered encode decode Codec.encode_payload Codec.decode_payload Json.get Json.insert
    codes_le floats segments widen_all extract_vector_search_vector encode_binary_vector Codec.new
core = tt

-- The values that these formats write: the empty map as MsgPack and JSON write it, the metadata of
-- one vector search by its two numbers, and a vector search with a text in it.
abbrev marked : ℕ → ℕ → Value ℕ
marked i d = object (
    field "vector_search"
      (object (
        field "vector"
          (object (
            field "$nps_binary_vector" (number i)
              (field "dim" (number d) (field "dtype" (string "float32") end))))
          end))
      end)

abbrev texts : Fields ℕ
texts = field "vector_search" (object (field "vector" (array (cons (string "x") nil)) end)) end

to_vec : Value ℕ → Result Message (List ℕ)
to_vec (object end) = ok (0x80 ∷ [])
to_vec
      (object (
        field a
          (object (
            field b
              (object (field c (number i) (field e (number n) (field d (string s) end))))
              end))
          end)) =
    if str_eq a "vector_search"
      && (str_eq b "vector"
          && (str_eq c "$nps_binary_vector"
              && (str_eq d "dtype" && (str_eq s "float32" && str_eq e "dim"))))
    then ok (i ∷ n ∷ [])
    else err []
to_vec (object (field a (object (field b (array (cons (string s) nil)) end)) end)) =
    if str_eq a "vector_search" && (str_eq b "vector" && str_eq s "x")
    then ok (1 ∷ 2 ∷ 3 ∷ [])
    else err []
to_vec _ = err []

from_slice : List ℕ → Result Message (Value ℕ)
from_slice (a ∷ []) = ok (object end)
from_slice (i ∷ n ∷ []) = ok (marked i n)
from_slice (a ∷ b ∷ c ∷ []) = ok (object texts)
from_slice _ = err []

to_json : Fields ℕ → Result Message (List ℕ)
to_json end = ok (0x7B ∷ 0x7D ∷ [])
to_json (field k (number n) end) = if str_eq k "id" then ok (n ∷ []) else err []
to_json (field _ _ _) = err []

abbrev id_only : ℕ → Fields ℕ
id_only n = field "id" (number n) end

from_json : List ℕ → Result Message (Value ℕ)
from_json (n ∷ []) = ok (object (id_only n))
from_json _ = ok (object end)

abbrev formats : Serde ℕ ℕ ℕ
formats = record {
  json_to_vec = to_json;
  json_from_slice = from_json;
  msgpack_to_vec = to_vec;
  msgpack_from_slice = from_slice;
  is_f64 = λ n. false;
  as_u64 = λ n. some n;
  from_u64 = λ n. n;
  as_f64 = λ n. some n;
  from_f64 = λ n. some n;
  is_finite = λ n. true;
  narrow = λ n. n;
  widen = λ n. n;
  to_le_bytes = λ n. n ∷ 0 ∷ 0 ∷ 0 ∷ [];
  from_le_bytes = λ a b c d. a;
}

to_vec_read_back : (v : Value ℕ) (b : List ℕ) → to_vec v ≡ ok b → from_slice b ≡ ok v
unfolding to_vec from_slice
to_vec_read_back (object end) b h = ground arith
to_vec_read_back
      (object (
        field a
          (object (
            field f
              (object (field c (number i) (field e (number n) (field d (string s) end))))
              end))
          end))
      b h =
    ground (
      arith,
      eq_iff a "vector_search",
      eq_iff f "vector",
      eq_iff c "$nps_binary_vector",
      eq_iff d "dtype",
      eq_iff s "float32",
      eq_iff e "dim",
    )
to_vec_read_back (object (field a (object (field f (array (cons (string s) nil)) end)) end)) b h =
    ground (arith, eq_iff a "vector_search", eq_iff f "vector", eq_iff s "x")
to_vec_read_back _ b h = cc

to_json_read_back : (fs : Fields ℕ) (b : List ℕ) → to_json fs ≡ ok b → from_json b ≡ ok (object fs)
unfolding to_json from_json
to_json_read_back end b h = ground arith
to_json_read_back (field k (number n) end) b h = ground (arith, eq_iff k "id")
to_json_read_back (field _ _ _) b h = cc

formats-MsgpackLaws : MsgpackLaws formats
formats-MsgpackLaws = record { msgpack_read_back = λ v b _. to_vec_read_back v b }

formats-JsonLaws : JsonLaws formats
formats-JsonLaws = record { json_read_back = λ fs b _. to_json_read_back fs b }

formats-NumberLaws : NumberLaws formats
formats-NumberLaws = record {
  u64_read_back = λ n h. refl;
  float_bytes = λ f. (f, 0, 0, 0, refl, refl);
}

abbrev short : FrameHeader
short = record { frame_type = hello; flags = 4; payload_length = 300; is_extended = false }

parse-to_bytes_example : parse (to_bytes short ++ (7 ∷ [])) ≡ ok short
parse-to_bytes_example =
    parse-to_bytes short (7 ∷ []) (record { flagged = refl; fits = omega arith })

abbrev nps_codec : NpsFrameCodec
nps_codec = Codec.new create_full

decode-encode_example :
    decode formats nps_codec (6 ∷ 4 ∷ 0 ∷ 1 ∷ 42 ∷ 9 ∷ []) ≡ ok (hello, id_only 42)
unfolding core to_json is_stored is_ordered
decode-encode_example =
    decode-encode formats formats-MsgpackLaws formats-JsonLaws nps_codec hello (id_only 42)
      EncodingTier.json true (6 ∷ 4 ∷ 0 ∷ 1 ∷ 42 ∷ []) (9 ∷ []) (omega arith) refl (λ e. cc) refl
      refl

abbrev vector_query : Fields ℕ
vector_query =
    field "vector_search"
      (object (field "vector" (array (cons (number 5) (cons (number 6) nil))) end)) end

abbrev vector_wire : List ℕ
vector_wire =
    16 ∷ 2 ∷ 0 ∷ 30 ∷ 0x4E ∷ 0x50 ∷ 0x42 ∷ 0x56 ∷ 1 ∷ 0 ∷ 0 ∷ 1 ∷ 0 ∷ 0 ∷ 0 ∷ 2 ∷ 0 ∷ 0 ∷ 0 ∷ 0 ∷ 0
    ∷ 2 ∷ 0 ∷ 0 ∷ 0 ∷ 2 ∷ 5 ∷ 0 ∷ 0 ∷ 0 ∷ 6 ∷ 0 ∷ 0 ∷ 0 ∷ []

decode-encode_narrowed_example :
    Restored formats query vector_query
      (field "vector" (array (cons (number 5) (cons (number 6) nil))) end)
      (cons (number 5) (cons (number 6) nil))
      (decode formats nps_codec (vector_wire ++ []))
unfolding core to_vec is_stored is_ordered
decode-encode_narrowed_example =
    decode-encode_narrowed formats formats-NumberLaws formats-MsgpackLaws nps_codec query
      vector_query (field "vector" (array (cons (number 5) (cons (number 6) nil))) end)
      (cons (number 5) (cons (number 6) nil)) false vector_wire [] (omega arith) refl refl refl refl
      (omega arith) refl

abbrev text_wire : List ℕ
text_wire =
    16 ∷ 2 ∷ 0 ∷ 19 ∷ 0x4E ∷ 0x50 ∷ 0x42 ∷ 0x56 ∷ 1 ∷ 0 ∷ 0 ∷ 0 ∷ 0 ∷ 0 ∷ 0 ∷ 3 ∷ 0 ∷ 0 ∷ 0 ∷ 0 ∷ 1
    ∷ 2 ∷ 3 ∷ []

decode-encode_unconverted_example :
    decode formats nps_codec (text_wire ++ []) ≡ fail "binary vector marker must be an object"
unfolding core to_vec is_stored is_ordered
decode-encode_unconverted_example =
    decode-encode_unconverted formats formats-NumberLaws formats-MsgpackLaws nps_codec query texts
      (field "vector" (array (cons (string "x") nil)) end) (cons (string "x") nil) false text_wire
      [] (omega arith) refl refl refl refl (λ a. let (n, f, same, g, _) = a.0 in cc) refl
