-- ===== src/Core/Frames/Wire.antt =====
-- The header on the wire: parsing and printing are inverse to each other.
use nps_sdk_rust.Common.{
  ℕ, ◌<◌, ◌^◌, ◌/◌, ◌%◌, ◌≡◌, refl, sym, ◌∙◌, Bool, true, false, List, [], ◌∷◌, ◌++◌, ok, arith,
  if◌then◌else◌, Bool-cases, inl, inr,
}
use nps_sdk_rust.Core.Frames.{
  FrameType, anchor, from_u8, as_u8, FrameHeader, has_bit, parse, parse_body, to_bytes, new,
  EncodingTier, u16_from_be, u32_from_be, encoding_tier, is_final,
}

pub from_u8-as_u8 : (ft : FrameType) → from_u8 (as_u8 ft) ≡ ok ft
unfolding from_u8 as_u8
from_u8-as_u8 anchor = refl
from_u8-as_u8 _ = refl

pub as_u8-from_u8 : (v : ℕ) (ft : FrameType) → from_u8 v ≡ ok ft → as_u8 ft ≡ v
unfolding from_u8 as_u8
as_u8-from_u8 v ft h = ground arith

-- What `parse` and `new` give, and what `to_bytes` needs: the flag says whether the header is
-- extended, and the length fits the field it is written to.
pub record IsWellFormed (h : FrameHeader) : Type 0 where
  pub flagged : h.is_extended ≡ has_bit h.flags 0x80
  pub fits : h.payload_length < (if h.is_extended then 2 ^ 32 else 2 ^ 16)

abbrev header : FrameType → ℕ → ℕ → Bool → FrameHeader
header ft flags len ext = record {
  frame_type = ft;
  flags = flags;
  payload_length = len;
  is_extended = ext;
}

pub u32_be :
    (n : ℕ)
    → n < 2 ^ 32
    → u32_from_be (n / 16777216 % 256) (n / 65536 % 256) (n / 256 % 256) (n % 256) ≡ n
u32_be n h = omega arith

pub u16_be : (n : ℕ) → n < 2 ^ 16 → u16_from_be (n / 256 % 256) (n % 256) ≡ n
u16_be n h = omega arith

-- A header of the short form ignores what follows it.
parse_body_short :
    (ft : FrameType) (flags a b : ℕ) (rest : List ℕ)
    → has_bit flags 0x80 ≡ false
    → parse_body ft flags a b rest ≡ ok (header ft flags (u16_from_be a b) false)
unfolding parse_body
parse_body_short ft flags a b (_ ∷ _ ∷ _ ∷ _ ∷ _) h = rw h
parse_body_short ft flags a b [] h = rw h
parse_body_short ft flags a b (_ ∷ []) h = rw h
parse_body_short ft flags a b (_ ∷ _ ∷ []) h = rw h
parse_body_short ft flags a b (_ ∷ _ ∷ _ ∷ []) h = rw h

-- A well-formed header is read back from its bytes, whatever bytes follow them.
pub parse-to_bytes :
    (h : FrameHeader) (rest : List ℕ) → IsWellFormed h → parse (to_bytes h ++ rest) ≡ ok h
unfolding parse parse_body to_bytes
parse-to_bytes h rest w = elim (Bool-cases h.is_extended) [
  | inl e ↦
      rw
        (e, from_u8-as_u8 h.frame_type, sym w.flagged ∙ e, u32_be h.payload_length (rw e at w.fits))
  | inr e ↦
      rw (e, from_u8-as_u8 h.frame_type)
        (rw (parse_body_short h.frame_type h.flags _ _ rest (sym w.flagged ∙ e))
          (rw (u16_be h.payload_length (rw e at w.fits))))
]

-- A constructed header is well formed, for a length that 32 bits hold.
pub new-IsWellFormed :
    (ft : FrameType) (tier : EncodingTier) (final : Bool) (len : ℕ)
    → len < 2 ^ 32
    → IsWellFormed (new ft tier final len)
unfolding new
new-IsWellFormed ft EncodingTier.json true len h = ground arith
new-IsWellFormed ft _ true len h = ground arith
new-IsWellFormed ft _ false len h = ground arith

-- The tier and the end-of-stream mark of a constructed header are the ones it was given.
pub new_flags :
    (ft : FrameType) (tier : EncodingTier) (final : Bool) (len : ℕ)
    → (encoding_tier (new ft tier final len) ≡ tier) × (is_final (new ft tier final len) ≡ final)
unfolding new encoding_tier is_final
new_flags ft EncodingTier.json true len = ground arith
new_flags ft _ true len = ground arith
new_flags ft _ false len = ground arith

abbrev pub IsByte : ℕ → Type 0
IsByte b = b < 256
