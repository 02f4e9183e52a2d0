-- ===== src/Core/Codec/Formats.antt =====
-- nps-core/src/codec.rs: what the codec takes from serde_json, rmp_serde and the machine's floats.
use nps_sdk_rust.Common.{ℕ, ◌≡◌, Bool, String, List, [], ◌∷◌, Option, ok, err, Result}
use nps_sdk_rust.Core.Error.{NpsResult, Message, codec, lit}
use nps_sdk_rust.Core.Json.{Value, Fields}

-- What serde_json, rmp_serde and the machine's floats compute: numbers `N`, `f32` and `f64`.
pub record Serde (N F32 F64 : Type 0) : Type 0 where
  pub json_to_vec : Fields N → Result Message (List ℕ)
  pub json_from_slice : List ℕ → Result Message (Value N)
  pub msgpack_to_vec : Value N → Result Message (List ℕ)
  pub msgpack_from_slice : List ℕ → Result Message (Value N)
  pub is_f64 : N → Bool
  pub as_u64 : N → Option ℕ
  pub from_u64 : ℕ → N
  pub as_f64 : N → Option F64
  pub from_f64 : F64 → Option N
  pub is_finite : F64 → Bool
  pub narrow : F64 → F32
  pub widen : F32 → F64
  pub to_le_bytes : F32 → List ℕ
  pub from_le_bytes : ℕ → ℕ → ℕ → ℕ → F32

abbrev pub map_codec : {A : Type 0} → Result Message A → NpsResult A
map_codec (ok a) = ok a
map_codec (err m) = err (codec m)

pub map_codec-ok : {A : Type 0} (r : Result Message A) {a : A} → map_codec r ≡ ok a → r ≡ ok a
map_codec-ok (ok b) h = cc
map_codec-ok (err m) h = cc

abbrev pub fail : {A : Type 0} → String → NpsResult A
fail s = err (codec (lit s ∷ []))

abbrev pub binary_vector_marker : String
binary_vector_marker = "$nps_binary_vector"
