-- ===== src/Nop/Condition/Tokens.antt =====
-- nps-nop/src/condition.rs: the tokenizer. Its position is the list of the characters from it on.
use nps_sdk_rust.Common.{
  ℕ, zero, suc, ◌-◌, Bool, false, not, ◌&&◌, ◌||◌, List, [], ◌∷◌, ◌++◌, Option, none, some, Result,
  ok, err, ◌>>=◌, ltb, leb, ◌==◌, if◌then◌else◌, length, codes, is_digit, is_whitespace, drop, take,
}
use nps_sdk_rust.Ncp.Preamble.{slice_eq}
use nps_sdk_rust.Nop.InputMapper.{MappingError}

pub data TokenKind : Type 0 where
  dollar_path number_literal str true_word false_word null_word gt gte lt lte eq neq and or not_op :
      TokenKind
  l_paren r_paren eof : TokenKind

pub record Token : Type 0 where
  pub token_kind : TokenKind
  pub token_raw : List ℕ

abbrev pub kind : Token → TokenKind
kind t = t.token_kind

abbrev pub raw : Token → List ℕ
raw t = t.token_raw

abbrev pub token : TokenKind → List ℕ → Token
token k s = record { token_kind = k; token_raw = s }

-- The classes of the characters beyond ASCII.
pub record CharClass : Type 0 where
  pub other_alphabetic : ℕ → Bool
  pub other_numeric : ℕ → Bool

-- The messages of `ConditionError`, less the expression that they repeat.
pub data Reason : Type 0 where
  unknown_token : (word : List ℕ) → Reason
  unexpected_char : (c position : ℕ) → Reason
  expected_paren : Reason
  invalid_number expected_value : (raw : List ℕ) → Reason
  path : MappingError → Reason

-- How a run stops without a value: an error, an index out of bounds, or the model's fuel spent.
pub data Stop : Type 0 where
  condition_error : Reason → Stop
  panicked out_of_fuel : Stop

abbrev pub Parsed {ℓ} : Type ℓ → Type ℓ
Parsed A = Result Stop A

-- The front of a list where a test holds, and the rest: a `while` over the characters.
unfoldable pub span : (ℕ → Bool) → List ℕ → List ℕ × List ℕ
span p [] = ([], [])
span p (c ∷ cs) = let (front, rest) = span p cs in if p c then (c ∷ front, rest) else ([], c ∷ cs)

abbrev pub drop_blank : List ℕ → List ℕ
drop_blank [] = []
drop_blank (c ∷ cs) = if is_whitespace c then drop_blank cs else c ∷ cs

abbrev pub reverse_onto : List ℕ → List ℕ → List ℕ
reverse_onto [] acc = acc
reverse_onto (c ∷ cs) acc = reverse_onto cs (c ∷ acc)

-- `str::trim`
abbrev pub trim : List ℕ → List ℕ
trim s = reverse_onto (drop_blank (reverse_onto (drop_blank s) [])) []

abbrev pub is_letter : ℕ → Bool
is_letter c = (leb b'a' c && leb c b'z') || (leb b'A' c && leb c b'Z')

module _ (x : CharClass) where
  abbrev pub is_alphabetic : ℕ → Bool
  is_alphabetic c = if ltb c 128 then is_letter c else x.other_alphabetic c

  abbrev pub is_alphanumeric : ℕ → Bool
  is_alphanumeric c =
      if ltb c 128 then is_letter c || is_digit c else (x.other_alphabetic c || x.other_numeric c)

  abbrev pub is_path_char : ℕ → Bool
  is_path_char c = is_alphanumeric c || (c == b'_' || (c == b'.' || c == b'$'))

  abbrev pub is_number_char : ℕ → Bool
  is_number_char c = is_digit c || c == b'.'

  -- Whether the next character passes a test.
  abbrev pub next_is : (ℕ → Bool) → List ℕ → Bool
  next_is p [] = false
  next_is p (d ∷ cs) = p d

  -- The operators of two characters: `c` and then `d`.
  abbrev pub two_chars : ℕ → List ℕ → Option TokenKind
  two_chars c cs =
      if c == b'>' && next_is (λ d. d == b'=') cs
      then some gte
      else if c == b'<' && next_is (λ d. d == b'=') cs
      then some lte
      else if c == b'=' && next_is (λ d. d == b'=') cs
      then some eq
      else if c == b'!' && next_is (λ d. d == b'=') cs
      then some neq
      else if c == b'&' && next_is (λ d. d == b'&') cs
      then some and
      else if c == b'|' && next_is (λ d. d == b'|') cs
      then some or
      else none

  abbrev pub one_char : ℕ → Option TokenKind
  one_char c =
      if c == b'>'
      then some gt
      else if c == b'<'
      then some lt
      else if c == b'!'
      then some not_op
      else if c == b'('
      then some l_paren
      else if c == b')'
      then some r_paren
      else none

  abbrev pub keyword : List ℕ → Option TokenKind
  keyword w =
      if slice_eq w (codes "true")
      then some true_word
      else if slice_eq w (codes "false")
      then some false_word
      else if slice_eq w (codes "null")
      then some null_word
      else none

  -- The tokens that one round of the loop adds, and the characters after it; `position` is the index
  -- of `c`.
  unfoldable pub next_token : (position c : ℕ) → List ℕ → Parsed (List Token × List ℕ)
  unfolding span slice_eq
  next_token position c cs =
      if is_whitespace c
      then ok ([], cs)
      else if c == b'$' && next_is (λ d. d == b'.') cs
      then (let (s, rest) = span is_path_char (c ∷ cs) in ok (token dollar_path s ∷ [], rest))
      else if c == b'"'
      then (let (s, rest) = span (λ d. not (d == b'"')) cs in ok (token str s ∷ [], drop 1 rest))
      else if is_digit c || (c == b'-' && next_is is_digit cs)
      then (let (s, rest) = span is_number_char cs in ok (token number_literal (c ∷ s) ∷ [], rest))
      else elim (two_chars c cs) [
        | some k ↦ ok (token k (c ∷ take 1 cs) ∷ [], drop 1 cs)
        | none ↦ elim (one_char c) [
          | some k ↦ ok (token k (c ∷ []) ∷ [], cs)
          | none ↦
              if is_alphabetic c
              then (let (w, rest) = span is_alphanumeric (c ∷ cs) in
                  elim (keyword w) [
                    | some k ↦ ok (token k w ∷ [], rest)
                    | none ↦ err (condition_error (Reason.unknown_token w))
                  ])
              else err (condition_error (Reason.unexpected_char c position))
        ]
      ]

  -- The loop, on fuel for its rounds; `n` is the length of the whole text.
  unfoldable pub token_loop : ℕ → ℕ → List ℕ → Parsed (List Token)
  unfolding next_token
  token_loop fuel n [] = ok (token eof [] ∷ [])
  token_loop zero n (c ∷ cs) = err out_of_fuel
  token_loop (suc fuel) n (c ∷ cs) = do
    (found, rest) ← next_token (n - length (c ∷ cs)) c cs
    more ← token_loop fuel n rest
    ok (found ++ more)

  unfoldable pub tokenize : List ℕ → Parsed (List Token)
  unfolding token_loop
  tokenize input = token_loop (length input) (length input) input
