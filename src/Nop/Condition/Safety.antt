-- ===== src/Nop/Condition/Safety.antt =====
-- nps-nop/src/condition.rs: the parser never reads behind the last token, and its fuel is enough.
use nps_sdk_rust.Common.{
  ℕ, zero, suc, ◌+◌, ◌*◌, ◌≤◌, ◌<◌, ◌≡◌, refl, Bool, true, false, ◌&&◌, ◌||◌, List, [], ◌∷◌, ok,
  err, ◌>>=◌, length, arith, Bool-cases, Option-cases, Result-cases, inl, inr,
}
use nps_sdk_rust.Nop.InputMapper.{Context, resolve}
use nps_sdk_rust.Nop.Condition.Tokens.{
  TokenKind, dollar_path, number_literal, str, true_word, false_word, null_word, gt, and, or,
  not_op, l_paren, r_paren, eof, Token, kind, raw, token, condition_error, Parsed, Reason,
}
use nps_sdk_rust.Nop.Condition.{
  Numbers, Val, resolve_path, value_of, parse_value, is_comparison_op, parse_operator, close,
  or_loop, and_loop, parse_or_expr, parse_and_expr, parse_not_expr, parse_comparison, enough,
}

abbrev pub is_eof : TokenKind → Bool
is_eof eof = true
is_eof _ = false

abbrev pub has_eof : List Token → Bool
has_eof [] = false
has_eof (t ∷ ts) = is_eof (kind t) || has_eof ts

-- An error of the condition, or a value with fewer than `m` tokens left, the end among them.
pub data Good {ℓ} {A : Type ℓ} (m : ℕ) : Parsed (A × List Token) → Type ℓ where
  parsed :
      (a : A) (rest : List Token) → has_eof rest ≡ true → length rest < m → Good m (ok (a, rest))
  refused : (e : Reason) → Good m (err (condition_error e))

Good-bind {ℓ κ} :
    {A : Type ℓ} {B : Type κ} (m k : ℕ) (r : Parsed (A × List Token))
    (f : A × List Token → Parsed (B × List Token))
    → Good m r
    → ((a : A) (rest : List Token) → has_eof rest ≡ true → length rest < m → Good k (f (a, rest)))
    → Good k (r >>= f)
Good-bind m k r f (parsed a rest h l) g = g a rest h l
Good-bind m k r f (refused e) g = refused e

Good-weaken {ℓ} : {A : Type ℓ} (m k : ℕ) (r : Parsed (A × List Token)) → m ≤ k → Good m r → Good k r
Good-weaken m k r l (parsed a rest h n) = parsed a rest h (omega arith)
Good-weaken m k r l (refused e) = refused e

comparison-not-eof : (k : TokenKind) → is_comparison_op k ≡ true → is_eof k ≡ false
comparison-not-eof eof h = cc
comparison-not-eof gt h = refl
comparison-not-eof _ h = refl

module _ {N F : Type 0} (x : Numbers N F) (context : Context N) where
  -- A value is read from any token but the end.
  value-Good :
      (k : TokenKind) (s : List ℕ) (ts : List Token)
      → has_eof (token k s ∷ ts) ≡ true
      → Good (length (token k s ∷ ts)) (parse_value x context (token k s ∷ ts))
  unfolding parse_value value_of resolve_path
  value-Good dollar_path s ts h = elim (Result-cases (resolve s context)) [
    | inl (v, e) ↦ rw (e) (parsed _ ts h (omega arith))
    | inr (m, e) ↦ rw (e) (refused _)
  ]
  value-Good number_literal s ts h = elim (Option-cases (x.parse_f64 s)) [
    | inl e ↦ rw (e) (refused _)
    | inr (v, e) ↦ rw (e) (parsed _ ts h (omega arith))
  ]
  value-Good str s ts h = parsed _ ts h (omega arith)
  value-Good true_word s ts h = parsed _ ts h (omega arith)
  value-Good false_word s ts h = parsed _ ts h (omega arith)
  value-Good null_word s ts h = parsed _ ts h (omega arith)
  value-Good _ s ts h = refused _

  parse_value-Good :
      (ts : List Token) → has_eof ts ≡ true → Good (length ts) (parse_value x context ts)
  parse_value-Good [] h = cc
  parse_value-Good (t ∷ ts) h = value-Good (kind t) (raw t) ts h

  parse_operator-Good :
      (lhs : Val F) (ts : List Token)
      → has_eof ts ≡ true
      → Good (suc (length ts)) (parse_operator x context lhs ts)
  unfolding parse_operator
  parse_operator-Good lhs [] h = cc
  parse_operator-Good lhs (t ∷ ts) h = elim (Bool-cases (is_comparison_op (kind t))) [
    | inl e ↦ rw (e) (
        Good-bind (length ts) _ (parse_value x context ts) _
          (parse_value-Good ts (ground (arith, h, comparison-not-eof (kind t) e)))
          (λ v rest g l. parsed _ rest g (omega arith)))
    | inr e ↦ rw (e) (parsed _ (t ∷ ts) h (omega arith))
  ]

  close-Good : (b : Bool) (ts : List Token) → has_eof ts ≡ true → Good (length ts) (close x b ts)
  close-Good b [] h = cc
  close-Good b (t ∷ ts) h = go (kind t) (raw t) h
    where
      go :
          (k : TokenKind) (s : List ℕ)
          → has_eof (token k s ∷ ts) ≡ true
          → Good (suc (length ts)) (close x b (token k s ∷ ts))
      go r_paren s h = parsed b ts h (omega arith)
      go eof s h = refused _
      go _ s h = refused _

  -- What the calls with fuel `f` come to, where their bound fits.
  abbrev Reads : (List Token → Parsed (Bool × List Token)) → ℕ → ℕ → Type 0
  Reads p k f =
      (ts : List Token) → has_eof ts ≡ true → 6 * length ts + k ≤ f → Good (length ts) (p ts)

  abbrev Loops : (Bool → List Token → Parsed (Bool × List Token)) → ℕ → ℕ → Type 0
  Loops p k f =
      (b : Bool) (ts : List Token)
      → has_eof ts ≡ true
      → 6 * length ts + k ≤ f
      → Good (suc (length ts)) (p b ts)

  record Descent (f : ℕ) : Type 0 where
    or_expr : Reads (parse_or_expr x f context) 4 f
    or_rest : Loops (or_loop x f context) 4 f
    and_expr : Reads (parse_and_expr x f context) 3 f
    and_rest : Loops (and_loop x f context) 3 f
    not_expr : Reads (parse_not_expr x f context) 2 f
    comparison : Reads (parse_comparison x f context) 1 f

  module _ (f : ℕ) (d : Descent f) where
    or_expr-Reads : Reads (parse_or_expr x (suc f) context) 4 (suc f)
    unfolding parse_or_expr
    or_expr-Reads ts h l =
        Good-bind (length ts) _ (parse_and_expr x f context ts) _ (d.and_expr ts h (omega arith))
          (λ b rest g m. Good-weaken _ _ _ (omega arith) (d.or_rest b rest g (omega arith)))

    and_expr-Reads : Reads (parse_and_expr x (suc f) context) 3 (suc f)
    unfolding parse_or_expr
    and_expr-Reads ts h l =
        Good-bind (length ts) _ (parse_not_expr x f context ts) _ (d.not_expr ts h (omega arith))
          (λ b rest g m. Good-weaken _ _ _ (omega arith) (d.and_rest b rest g (omega arith)))

    or_loop-kind :
        (k : TokenKind) (s : List ℕ) (b : Bool) (ts : List Token)
        → has_eof (token k s ∷ ts) ≡ true
        → 6 * suc (length ts) + 4 ≤ suc f
        → Good (suc (suc (length ts))) (or_loop x (suc f) context b (token k s ∷ ts))
    unfolding parse_or_expr
    or_loop-kind or s b ts h l =
        Good-bind (length ts) _ (parse_and_expr x f context ts) _ (d.and_expr ts h (omega arith))
          (λ c rest g m. Good-weaken _ _ _ (omega arith) (d.or_rest (b || c) rest g (omega arith)))
    or_loop-kind eof s b ts h l = parsed b _ h (omega arith)
    or_loop-kind _ s b ts h l = parsed b _ h (omega arith)

    and_loop-kind :
        (k : TokenKind) (s : List ℕ) (b : Bool) (ts : List Token)
        → has_eof (token k s ∷ ts) ≡ true
        → 6 * suc (length ts) + 3 ≤ suc f
        → Good (suc (suc (length ts))) (and_loop x (suc f) context b (token k s ∷ ts))
    unfolding parse_or_expr
    and_loop-kind and s b ts h l =
        Good-bind (length ts) _ (parse_not_expr x f context ts) _ (d.not_expr ts h (omega arith))
          (λ c rest g m. Good-weaken _ _ _ (omega arith) (d.and_rest (b && c) rest g (omega arith)))
    and_loop-kind eof s b ts h l = parsed b _ h (omega arith)
    and_loop-kind _ s b ts h l = parsed b _ h (omega arith)

    not_expr-kind :
        (k : TokenKind) (s : List ℕ) (ts : List Token)
        → has_eof (token k s ∷ ts) ≡ true
        → 6 * suc (length ts) + 2 ≤ suc f
        → Good (suc (length ts)) (parse_not_expr x (suc f) context (token k s ∷ ts))
    unfolding parse_or_expr
    not_expr-kind not_op s ts h l =
        Good-bind (length ts) _ (parse_not_expr x f context ts) _ (d.not_expr ts h (omega arith))
          (λ c rest g m. parsed _ rest g (omega arith))
    not_expr-kind eof s ts h l = d.comparison _ h (omega arith)
    not_expr-kind _ s ts h l = d.comparison _ h (omega arith)

    comparison-value :
        (t : Token) (ts : List Token)
        → has_eof (t ∷ ts) ≡ true
        → Good
            (suc (length ts))
            (parse_value x context (t ∷ ts) >>= λ (lhs, rest). parse_operator x context lhs rest)
    comparison-value t ts h =
        Good-bind (suc (length ts)) _ (parse_value x context (t ∷ ts)) _
          (parse_value-Good (t ∷ ts) h)
          (λ v rest g m. Good-weaken _ _ _ (omega arith) (parse_operator-Good v rest g))

    comparison-kind :
        (k : TokenKind) (s : List ℕ) (ts : List Token)
        → has_eof (token k s ∷ ts) ≡ true
        → 6 * suc (length ts) + 1 ≤ suc f
        → Good (suc (length ts)) (parse_comparison x (suc f) context (token k s ∷ ts))
    unfolding parse_or_expr
    comparison-kind l_paren s ts h l =
        Good-bind (length ts) _ (parse_or_expr x f context ts) _ (d.or_expr ts h (omega arith))
          (λ c rest g m. Good-weaken _ _ _ (omega arith) (close-Good c rest g))
    comparison-kind true_word s ts h l = parsed _ ts h (omega arith)
    comparison-kind false_word s ts h l = parsed _ ts h (omega arith)
    comparison-kind k s ts h l = comparison-value (token k s) ts h

    next-Descent : Descent (suc f)
    next-Descent = record {
      or_expr = or_expr-Reads;
      or_rest = λ b ts h l.
          elim ts
              as (λ ts.
                has_eof ts ≡ true
                → 6 * length ts + 4 ≤ suc f
                → Good (suc (length ts)) (or_loop x (suc f) context b ts)) [
                  | [] ↦ λ h l. cc
                  | t ∷ ts ↦ λ h l. or_loop-kind (kind t) (raw t) b ts h l
                ]
            h l;
      and_expr = and_expr-Reads;
      and_rest = λ b ts h l.
          elim ts
              as (λ ts.
                has_eof ts ≡ true
                → 6 * length ts + 3 ≤ suc f
                → Good (suc (length ts)) (and_loop x (suc f) context b ts)) [
                  | [] ↦ λ h l. cc
                  | t ∷ ts ↦ λ h l. and_loop-kind (kind t) (raw t) b ts h l
                ]
            h l;
      not_expr = λ ts h l.
          elim ts
              as (λ ts.
                has_eof ts ≡ true
                → 6 * length ts + 2 ≤ suc f
                → Good (length ts) (parse_not_expr x (suc f) context ts)) [
                  | [] ↦ λ h l. cc
                  | t ∷ ts ↦ λ h l. not_expr-kind (kind t) (raw t) ts h l
                ]
            h l;
      comparison = λ ts h l.
          elim ts
              as (λ ts.
                has_eof ts ≡ true
                → 6 * length ts + 1 ≤ suc f
                → Good (length ts) (parse_comparison x (suc f) context ts)) [
                  | [] ↦ λ h l. cc
                  | t ∷ ts ↦ λ h l. comparison-kind (kind t) (raw t) ts h l
                ]
            h l;
    }

  descent : (f : ℕ) → Descent f
  descent zero = record {
    or_expr = λ ts h l. absurd (omega arith);
    or_rest = λ b ts h l. absurd (omega arith);
    and_expr = λ ts h l. absurd (omega arith);
    and_rest = λ b ts h l. absurd (omega arith);
    not_expr = λ ts h l. absurd (omega arith);
    comparison = λ ts h l. absurd (omega arith);
  }
  descent (suc f) = next-Descent f (descent f)

  -- On every list of tokens with an end token the parser gives a value or an error of the condition:
  -- it does not read behind the list, its fuel is enough, and what it leaves has an end token.
  pub parse_or_expr-Good :
      (ts : List Token)
      → has_eof ts ≡ true
      → Good (length ts) (parse_or_expr x (enough x ts) context ts)
  parse_or_expr-Good ts h = (descent (enough x ts)).or_expr ts h (omega arith)
