-- ===== src/Nop/Condition/Parsing.antt =====
-- nps-nop/src/condition.rs: the parser computes what the grammar says of the tokens.
use nps_sdk_rust.Common.{
  ℕ, suc, ◌≡◌, refl, ap, ◌∙◌, Bool, true, false, List, ◌∷◌, ◌++◌, ok, err, ◌>>=◌, Result-cases, inl,
  inr,
}
use nps_sdk_rust.Nop.InputMapper.{Context}
use nps_sdk_rust.Nop.Condition.Tokens.{TokenKind, and, or, Token, token, Parsed, Stop}
use nps_sdk_rust.Nop.Condition.{
  Numbers, Val, parse_value, is_comparison_op, compare_vals, as_truthy, parse_operator, or_loop,
  and_loop, parse_or_expr, parse_not_expr, parse_comparison,
}
use nps_sdk_rust.Nop.Condition.Grammar.{
  Operand, path, Comparator, above, Comparison, paren, test, compared, spell_operand,
  comparator_kind, op, spell_or, spell_comparison, mean_token, leaving, is_or, is_and,
}

pub leaving-bind {ℓ κ} :
    {A : Type ℓ} {B : Type κ} (r : Parsed A) (rest : List Token)
    (f : A × List Token → Parsed (B × List Token)) (s : Parsed A → Parsed (B × List Token))
    → ((a : A) → f (a, rest) ≡ s (ok a))
    → ((e : Stop) → err e ≡ s (err e))
    → (leaving r rest >>= f) ≡ s r
leaving-bind (ok a) rest f s h k = h a
leaving-bind (err e) rest f s h k = k e

module _ {N F : Type 0} (x : Numbers N F) (context : Context N) where
  pub or_loop-stop :
      (f : ℕ) (b : Bool) (k : TokenKind) (s : List ℕ) (ts : List Token)
      → is_or k ≡ false
      → or_loop x (suc f) context b (token k s ∷ ts) ≡ ok (b, token k s ∷ ts)
  unfolding parse_or_expr
  or_loop-stop f b or s ts h = cc
  or_loop-stop f b _ s ts h = refl

  pub and_loop-stop :
      (f : ℕ) (b : Bool) (k : TokenKind) (s : List ℕ) (ts : List Token)
      → is_and k ≡ false
      → and_loop x (suc f) context b (token k s ∷ ts) ≡ ok (b, token k s ∷ ts)
  unfolding parse_or_expr
  and_loop-stop f b and s ts h = cc
  and_loop-stop f b _ s ts h = refl

  parse_value-token :
      (t : Token) (ts : List Token)
      → parse_value x context (t ∷ ts) ≡ leaving (mean_token x context t) ts
  unfolding parse_value
  parse_value-token t ts = elim (Result-cases (mean_token x context t)) [
    | inl (v, e) ↦ rw (e) refl
    | inr (v, e) ↦ rw (e) refl
  ]

  value-comparison :
      (f : ℕ) (o : Operand) (ts : List Token)
      → parse_comparison x (suc f) context (spell_operand o ∷ ts) ≡ (
          parse_value x context (spell_operand o ∷ ts) >>= λ (lhs, rest).
          parse_operator x context lhs rest)
  unfolding parse_or_expr
  value-comparison f (path s) ts = refl
  value-comparison f _ ts = refl

  pub operand-comparison :
      (f : ℕ) (o : Operand) (ts : List Token)
      → parse_comparison x (suc f) context (spell_operand o ∷ ts) ≡ (
          leaving (mean_token x context (spell_operand o)) ts >>= λ (lhs, rest).
          parse_operator x context lhs rest)
  operand-comparison f o ts =
      value-comparison f o ts
      ∙ ap (λ m. m >>= λ (lhs, rest). parse_operator x context lhs rest)
          (parse_value-token (spell_operand o) ts)

  pub not-comparison :
      (f : ℕ) (c : Comparison) (ts : List Token)
      → parse_not_expr x (suc f) context (spell_comparison c ++ ts)
        ≡ parse_comparison x f context (spell_comparison c ++ ts)
  unfolding parse_or_expr spell_or
  not-comparison f (paren e) ts = refl
  not-comparison f (Comparison.constant true) ts = refl
  not-comparison f (Comparison.constant false) ts = refl
  not-comparison f (test (path s)) ts = refl
  not-comparison f (test _) ts = refl
  not-comparison f (compared (path s) c r) ts = refl
  not-comparison f (compared _ c r) ts = refl

  pub operator-stop :
      (v : Val F) (k : TokenKind) (s : List ℕ) (ts : List Token)
      → is_comparison_op k ≡ false
      → parse_operator x context v (token k s ∷ ts) ≡ ok (as_truthy x v, token k s ∷ ts)
  unfolding parse_operator
  operator-stop v k s ts h = rw (h) refl

  pub operator-compare :
      (v : Val F) (c : Comparator) (t : Token) (ts : List Token)
      → parse_operator x context v (op (comparator_kind c) ∷ t ∷ ts)
        ≡ leaving (mean_token x context t >>= λ w. ok (compare_vals x v (comparator_kind c) w)) ts
  unfolding parse_operator
  operator-compare v c t ts =
      rw (is_comparator c, parse_value-token t ts)
        (elim (Result-cases (mean_token x context t)) [
          | inl (w, e) ↦ rw (e) refl
          | inr (w, e) ↦ rw (e) refl
        ])
    where
      is_comparator : (c : Comparator) → is_comparison_op (comparator_kind c) ≡ true
      is_comparator above = refl
      is_comparator _ = refl
