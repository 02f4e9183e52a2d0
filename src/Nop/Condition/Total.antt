-- ===== src/Nop/Condition/Total.antt =====
-- nps-nop/src/condition.rs: the tokenizer ends, and the evaluation of a condition never panics.
use nps_sdk_rust.Common.{
  ℕ, zero, suc, ◌-◌, ◌≤◌, ◌≡◌, refl, Bool, true, false, not, ◌&&◌, ◌||◌, List, [], ◌∷◌, ◌++◌,
  Option, none, some, ok, err, ◌>>=◌, if◌then◌else◌, ◌==◌, length, drop, is_digit, is_whitespace,
  is_blank, arith, Bool-cases, inl, inr,
}
use nps_sdk_rust.Nop.InputMapper.{Context}
use nps_sdk_rust.Nop.Condition.Tokens.{
  TokenKind, Token, CharClass, condition_error, panicked, out_of_fuel, Parsed, Reason, span, trim,
  is_alphabetic, is_alphanumeric, is_path_char, is_number_char, next_is, two_chars, one_char,
  keyword, next_token, token_loop, tokenize,
}
use nps_sdk_rust.Nop.Condition.{Numbers, parse_or_expr, enough, first_of, evaluate_tokens, evaluate}
use nps_sdk_rust.Nop.Condition.Safety.{has_eof, Good, parsed, refused, parse_or_expr-Good}

span-length : (p : ℕ → Bool) (cs : List ℕ) → length (span p cs).1 ≤ length cs
unfolding span
span-length p [] = omega arith
span-length p (c ∷ cs) = ground (arith, span-length p cs)

span-cons :
    (p : ℕ → Bool) (c : ℕ) (cs : List ℕ) → p c ≡ true → length (span p (c ∷ cs)).1 ≤ length cs
unfolding span
span-cons p c cs h = ground (arith, h, span-length p cs)

drop_one-length : (cs : List ℕ) → length (drop 1 cs) ≤ length cs
drop_one-length [] = omega arith
drop_one-length (c ∷ cs) = omega arith

-- A round of the tokenizer is an error, or leaves at most `n` characters.
data Steps (n : ℕ) : Parsed (List Token × List ℕ) → Type 0 where
  step : (found : List Token) (rest : List ℕ) → length rest ≤ n → Steps n (ok (found, rest))
  stop : (e : Reason) → Steps n (err (condition_error e))

Steps-if :
    (n : ℕ) (b : Bool) (r s : Parsed (List Token × List ℕ))
    → (b ≡ true → Steps n r)
    → Steps n s
    → Steps n (if b then r else s)
Steps-if n true r s h k = h refl
Steps-if n false r s h k = k

Steps-elim :
    (n : ℕ) (o : Option TokenKind) (r : Parsed (List Token × List ℕ))
    (f : TokenKind → Parsed (List Token × List ℕ))
    → Steps n r
    → ((k : TokenKind) → Steps n (f k))
    → Steps n (elim o [ none ↦ r | some k ↦ f k ])
Steps-elim n none r f h g = h
Steps-elim n (some k) r f h g = g k

module _ (x : CharClass) where
  alphabetic-alphanumeric : (c : ℕ) → is_alphabetic x c ≡ true → is_alphanumeric x c ≡ true
  alphabetic-alphanumeric c h = ground arith

  next_token-Steps : (position c : ℕ) (cs : List ℕ) → Steps (length cs) (next_token x position c cs)
  unfolding next_token
  next_token-Steps position c cs =
      Steps-if _ (is_whitespace c) _ _ (λ _. step [] cs (omega arith))
        (Steps-if _ (c == b'$' && next_is x (λ d. d == b'.') cs) _ _
          (λ h. step _ _ (span-cons (is_path_char x) c cs (ground (arith, h))))
          (Steps-if _ (c == b'"') _ _
            (λ _. step _ _ (
              omega (
                arith,
                drop_one-length (span (λ d. not (d == b'"')) cs).1,
                span-length (λ d. not (d == b'"')) cs,
              )))
            (Steps-if _ (is_digit c || (c == b'-' && next_is x is_digit cs)) _ _
              (λ _. step _ _ (span-length (is_number_char x) cs))
              (Steps-elim _ (two_chars x c cs) _ _
                (Steps-elim _ (one_char x c) _ _
                  (Steps-if _ (is_alphabetic x c) _ _
                    (λ h.
                      Steps-elim _ (keyword x (span (is_alphanumeric x) (c ∷ cs)).0) _ _ (stop _)
                        (λ k.
                          step _ _
                            (span-cons (is_alphanumeric x) c cs (alphabetic-alphanumeric c h))))
                    (stop _))
                  (λ k. step _ cs (omega arith)))
                (λ k. step _ _ (drop_one-length cs))))))

  -- Tokens with an end token, or an error of the condition.
  pub data Ends : Parsed (List Token) → Type 0 where
    tokens : (ts : List Token) → has_eof ts ≡ true → Ends (ok ts)
    error : (e : Reason) → Ends (err (condition_error e))

  has_eof-append : (ts us : List Token) → has_eof us ≡ true → has_eof (ts ++ us) ≡ true
  has_eof-append [] us h = h
  has_eof-append (t ∷ ts) us h = ground (arith, has_eof-append ts us h)

  prefix-Ends :
      (found : List Token) (r : Parsed (List Token))
      → Ends r
      → Ends (r >>= λ more. ok (found ++ more))
  prefix-Ends found r (tokens ts h) = tokens _ (has_eof-append found ts h)
  prefix-Ends found r (error e) = error e

  round-Ends :
      (n : ℕ) (r : Parsed (List Token × List ℕ)) (f : List ℕ → Parsed (List Token))
      → Steps n r
      → ((rest : List ℕ) → length rest ≤ n → Ends (f rest))
      → Ends (r >>= λ (found, rest). f rest >>= λ more. ok (found ++ more))
  round-Ends n r f (step found rest l) h = prefix-Ends found (f rest) (h rest l)
  round-Ends n r f (stop e) h = error e

  token_loop-Ends : (fuel n : ℕ) (cs : List ℕ) → length cs ≤ fuel → Ends (token_loop x fuel n cs)
  unfolding token_loop
  token_loop-Ends zero n [] l = tokens _ refl
  token_loop-Ends (suc fuel) n [] l = tokens _ refl
  token_loop-Ends zero n (c ∷ cs) l = absurd (omega arith)
  token_loop-Ends (suc fuel) n (c ∷ cs) l =
      round-Ends (length cs) (next_token x (n - length (c ∷ cs)) c cs) (token_loop x fuel n)
        (next_token-Steps (n - length (c ∷ cs)) c cs)
        (λ rest m. token_loop-Ends fuel n rest (omega arith))

  pub tokenize-Ends : (input : List ℕ) → Ends (tokenize x input)
  unfolding tokenize
  tokenize-Ends input = token_loop-Ends (length input) (length input) input (omega arith)

-- A truth value, or an error of the condition.
abbrev pub Settles : Parsed Bool → Type 0
Settles (ok b) = Unit
Settles (err (condition_error e)) = Unit
Settles (err panicked) = ⊥
Settles (err out_of_fuel) = ⊥

module _ {N F : Type 0} (x : Numbers N F) (c : CharClass) where
  first-Settles : (m : ℕ) (r : Parsed (Bool × List Token)) → Good m r → Settles (first_of x r)
  first-Settles m r (parsed b rest h l) = tt
  first-Settles m r (refused e) = tt

  tokens-Settles :
      (context : Context N) (r : Parsed (List Token))
      → Ends c r
      → Settles (evaluate_tokens x context r)
  unfolding evaluate_tokens
  tokens-Settles context r (tokens ts h) =
      first-Settles (length ts) (parse_or_expr x (enough x ts) context ts)
        (parse_or_expr-Good x context ts h)
  tokens-Settles context r (error e) = tt

  -- Every condition text is evaluated to a truth value or to an error of the condition: no index is
  -- out of bounds, and the fuel of both loops is enough.
  pub evaluate-Settles :
      (condition : List ℕ) (context : Context N) → Settles (evaluate x c condition context)
  unfolding evaluate
  evaluate-Settles condition context = elim (Bool-cases (is_blank condition)) [
    | inl t ↦ rw (t) tt
    | inr t ↦ rw (t) (tokens-Settles context _ (tokenize-Ends c (trim condition)))
  ]
