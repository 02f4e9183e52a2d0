-- ===== src/Nop/Condition/Descent.antt =====
-- nps-nop/src/condition.rs: the recursive descent, one level of its calls after another.
use nps_sdk_rust.Common.{
  ℕ, zero, suc, ◌+◌, ◌*◌, ◌≤◌, ◌≡◌, refl, ap, ◌∙◌, Bool, true, false, not, ◌&&◌, ◌||◌, List, [],
  ◌∷◌, ◌++◌, append_assoc, ok, err, ◌>>=◌, length, length-append, arith,
}
use nps_sdk_rust.Nop.InputMapper.{Context}
use nps_sdk_rust.Nop.Condition.Tokens.{and, or, r_paren, Token, kind, raw, Parsed}
use nps_sdk_rust.Nop.Condition.{
  Numbers, or_loop, and_loop, parse_or_expr, parse_and_expr, parse_not_expr, parse_comparison,
  as_truthy, compare_vals,
}
use nps_sdk_rust.Nop.Condition.Grammar.{
  OrExpr, last_or, more_or, AndExpr, last_and, more_and, NotExpr, negation, plain, Comparison,
  paren, test, compared, spell_operand, comparator_kind, spell_right, op, spell_or, spell_and,
  spell_not, spell_comparison, mean_token, mean_or, mean_and, mean_not, mean_comparison, leaving,
  EndsComparison, EndsAnd, EndsOr,
}
use nps_sdk_rust.Nop.Condition.Parsing.{
  leaving-bind, or_loop-stop, and_loop-stop, operand-comparison, not-comparison, operator-stop,
  operator-compare,
}

length-join :
    (xs ys : List Token) (t : Token) → length (xs ++ (t ∷ ys)) ≡ suc (length xs + length ys)
length-join xs ys t = omega (arith, length-append xs (t ∷ ys))

or_chain :
    (b c : Bool) (r : Parsed Bool)
    → (r >>= λ d. ok ((b || c) || d)) ≡ ((r >>= λ d. ok (c || d)) >>= λ d. ok (b || d))
or_chain true c (ok d) = refl
or_chain false c (ok d) = refl
or_chain b c (err e) = refl

and_chain :
    (b c : Bool) (r : Parsed Bool)
    → (r >>= λ d. ok ((b && c) && d)) ≡ ((r >>= λ d. ok (c && d)) >>= λ d. ok (b && d))
and_chain true c (ok d) = refl
and_chain false c (ok d) = refl
and_chain b c (err e) = refl

module _ {N F : Type 0} (x : Numbers N F) (context : Context N) where
  -- What the calls on so much fuel compute of the tokens of an expression.
  pub record Parses (f : ℕ) : Type 0 where
    pub parses_or :
        (e : OrExpr) (t : Token) (ts : List Token)
        → EndsOr (kind t)
        → 6 * length (spell_or e) + 4 ≤ f
        → parse_or_expr x f context (spell_or e ++ (t ∷ ts))
          ≡ leaving (mean_or x context e) (t ∷ ts)
    pub parses_or_loop :
        (b : Bool) (e : OrExpr) (t : Token) (ts : List Token)
        → EndsOr (kind t)
        → 6 * length (spell_or e) + 4 ≤ f
        → or_loop x f context b (op or ∷ (spell_or e ++ (t ∷ ts)))
          ≡ leaving (mean_or x context e >>= λ c. ok (b || c)) (t ∷ ts)
    pub parses_and :
        (e : AndExpr) (t : Token) (ts : List Token)
        → EndsAnd (kind t)
        → 6 * length (spell_and e) + 3 ≤ f
        → parse_and_expr x f context (spell_and e ++ (t ∷ ts))
          ≡ leaving (mean_and x context e) (t ∷ ts)
    pub parses_and_loop :
        (b : Bool) (e : AndExpr) (t : Token) (ts : List Token)
        → EndsAnd (kind t)
        → 6 * length (spell_and e) + 4 ≤ f
        → and_loop x f context b (op and ∷ (spell_and e ++ (t ∷ ts)))
          ≡ leaving (mean_and x context e >>= λ c. ok (b && c)) (t ∷ ts)
    pub parses_not :
        (e : NotExpr) (t : Token) (ts : List Token)
        → EndsComparison (kind t)
        → 6 * length (spell_not e) + 2 ≤ f
        → parse_not_expr x f context (spell_not e ++ (t ∷ ts))
          ≡ leaving (mean_not x context e) (t ∷ ts)
    pub parses_comparison :
        (e : Comparison) (t : Token) (ts : List Token)
        → EndsComparison (kind t)
        → 6 * length (spell_comparison e) + 1 ≤ f
        → parse_comparison x f context (spell_comparison e ++ (t ∷ ts))
          ≡ leaving (mean_comparison x context e) (t ∷ ts)

  or_loop-end :
      (f : ℕ) (b : Bool) (t : Token) (ts : List Token)
      → EndsOr (kind t)
      → 1 ≤ f
      → or_loop x f context b (t ∷ ts) ≡ ok (b, t ∷ ts)
  or_loop-end zero b t ts h l = ground arith
  or_loop-end (suc f) b t ts h l = or_loop-stop x context f b (kind t) (raw t) ts (h.1)

  and_loop-end :
      (f : ℕ) (b : Bool) (t : Token) (ts : List Token)
      → EndsAnd (kind t)
      → 1 ≤ f
      → and_loop x f context b (t ∷ ts) ≡ ok (b, t ∷ ts)
  and_loop-end zero b t ts h l = ground arith
  and_loop-end (suc f) b t ts h l = and_loop-stop x context f b (kind t) (raw t) ts (h.1)

  module _ (f : ℕ) (p : Parses f) where
    step-or :
        (e : OrExpr) (t : Token) (ts : List Token)
        → EndsOr (kind t)
        → 6 * length (spell_or e) + 4 ≤ suc f
        → parse_or_expr x (suc f) context (spell_or e ++ (t ∷ ts))
          ≡ leaving (mean_or x context e) (t ∷ ts)
    unfolding parse_or_expr spell_or mean_or
    step-or (last_or a) t ts h l = rw (p.parses_and a t ts (h.0) (omega arith)) (
        leaving-bind (mean_and x context a) (t ∷ ts) _ (λ r. leaving r (t ∷ ts))
          (λ b. or_loop-end f b t ts h (omega arith)) (λ _. refl))
    step-or (more_or a e) t ts h l =
        rw
          (
            append_assoc (spell_and a) (op or ∷ spell_or e) (t ∷ ts),
            p.parses_and a (op or) (spell_or e ++ (t ∷ ts)) (refl, refl)
                (omega (arith, length-join (spell_and a) (spell_or e) (op or))),
          )
          (leaving-bind (mean_and x context a) _ _
            (λ r. leaving (r >>= λ b. mean_or x context e >>= λ c. ok (b || c)) (t ∷ ts))
            (λ b.
              p.parses_or_loop b e t ts h
                (omega (arith, length-join (spell_and a) (spell_or e) (op or))))
            (λ _. refl))

    step-or_loop :
        (b : Bool) (e : OrExpr) (t : Token) (ts : List Token)
        → EndsOr (kind t)
        → 6 * length (spell_or e) + 4 ≤ suc f
        → or_loop x (suc f) context b (op or ∷ (spell_or e ++ (t ∷ ts)))
          ≡ leaving (mean_or x context e >>= λ c. ok (b || c)) (t ∷ ts)
    unfolding parse_or_expr spell_or mean_or
    step-or_loop b (last_or a) t ts h l = rw (p.parses_and a t ts (h.0) (omega arith)) (
        leaving-bind (mean_and x context a) (t ∷ ts) _
          (λ r. leaving (r >>= λ c. ok (b || c)) (t ∷ ts))
          (λ c. or_loop-end f (b || c) t ts h (omega arith)) (λ _. refl))
    step-or_loop b (more_or a e) t ts h l =
        rw
          (
            append_assoc (spell_and a) (op or ∷ spell_or e) (t ∷ ts),
            p.parses_and a (op or) (spell_or e ++ (t ∷ ts)) (refl, refl)
                (omega (arith, length-join (spell_and a) (spell_or e) (op or))),
          )
          (leaving-bind (mean_and x context a) _ _
            (λ r.
              leaving ((r >>= λ c. mean_or x context e >>= λ d. ok (c || d)) >>= λ c. ok (b || c))
                (t ∷ ts))
            (λ c.
              p.parses_or_loop (b || c) e t ts h
                (omega (arith, length-join (spell_and a) (spell_or e) (op or)))
              ∙ ap (λ r. leaving r (t ∷ ts)) (or_chain b c (mean_or x context e)))
            (λ _. refl))

    step-and :
        (e : AndExpr) (t : Token) (ts : List Token)
        → EndsAnd (kind t)
        → 6 * length (spell_and e) + 3 ≤ suc f
        → parse_and_expr x (suc f) context (spell_and e ++ (t ∷ ts))
          ≡ leaving (mean_and x context e) (t ∷ ts)
    unfolding parse_or_expr spell_or mean_or
    step-and (last_and a) t ts h l = rw (p.parses_not a t ts (h.0) (omega arith)) (
        leaving-bind (mean_not x context a) (t ∷ ts) _ (λ r. leaving r (t ∷ ts))
          (λ b. and_loop-end f b t ts h (omega arith)) (λ _. refl))
    step-and (more_and a e) t ts h l =
        rw
          (
            append_assoc (spell_not a) (op and ∷ spell_and e) (t ∷ ts),
            p.parses_not a (op and) (spell_and e ++ (t ∷ ts)) refl
                (omega (arith, length-join (spell_not a) (spell_and e) (op and))),
          )
          (leaving-bind (mean_not x context a) _ _
            (λ r. leaving (r >>= λ b. mean_and x context e >>= λ c. ok (b && c)) (t ∷ ts))
            (λ b.
              p.parses_and_loop b e t ts h
                (omega (arith, length-join (spell_not a) (spell_and e) (op and))))
            (λ _. refl))

    step-and_loop :
        (b : Bool) (e : AndExpr) (t : Token) (ts : List Token)
        → EndsAnd (kind t)
        → 6 * length (spell_and e) + 4 ≤ suc f
        → and_loop x (suc f) context b (op and ∷ (spell_and e ++ (t ∷ ts)))
          ≡ leaving (mean_and x context e >>= λ c. ok (b && c)) (t ∷ ts)
    unfolding parse_or_expr spell_or mean_or
    step-and_loop b (last_and a) t ts h l = rw (p.parses_not a t ts (h.0) (omega arith)) (
        leaving-bind (mean_not x context a) (t ∷ ts) _
          (λ r. leaving (r >>= λ c. ok (b && c)) (t ∷ ts))
          (λ c. and_loop-end f (b && c) t ts h (omega arith)) (λ _. refl))
    step-and_loop b (more_and a e) t ts h l =
        rw
          (
            append_assoc (spell_not a) (op and ∷ spell_and e) (t ∷ ts),
            p.parses_not a (op and) (spell_and e ++ (t ∷ ts)) refl
                (omega (arith, length-join (spell_not a) (spell_and e) (op and))),
          )
          (leaving-bind (mean_not x context a) _ _
            (λ r.
              leaving ((r >>= λ c. mean_and x context e >>= λ d. ok (c && d)) >>= λ c. ok (b && c))
                (t ∷ ts))
            (λ c.
              p.parses_and_loop (b && c) e t ts h
                (omega (arith, length-join (spell_not a) (spell_and e) (op and)))
              ∙ ap (λ r. leaving r (t ∷ ts)) (and_chain b c (mean_and x context e)))
            (λ _. refl))

    step-not :
        (e : NotExpr) (t : Token) (ts : List Token)
        → EndsComparison (kind t)
        → 6 * length (spell_not e) + 2 ≤ suc f
        → parse_not_expr x (suc f) context (spell_not e ++ (t ∷ ts))
          ≡ leaving (mean_not x context e) (t ∷ ts)
    unfolding parse_or_expr spell_or mean_or
    step-not (negation n) t ts h l = rw (p.parses_not n t ts h (omega arith)) (
        leaving-bind (mean_not x context n) (t ∷ ts) _
          (λ r. leaving (r >>= λ b. ok (not b)) (t ∷ ts)) (λ b. refl) (λ _. refl))
    step-not (plain c) t ts h l =
        not-comparison x context f c (t ∷ ts) ∙ p.parses_comparison c t ts h (omega arith)

    step-comparison :
        (e : Comparison) (t : Token) (ts : List Token)
        → EndsComparison (kind t)
        → 6 * length (spell_comparison e) + 1 ≤ suc f
        → parse_comparison x (suc f) context (spell_comparison e ++ (t ∷ ts))
          ≡ leaving (mean_comparison x context e) (t ∷ ts)
    unfolding parse_or_expr spell_or mean_or
    step-comparison (paren e) t ts h l =
        rw
          (
            append_assoc (spell_or e) (op r_paren ∷ []) (t ∷ ts),
            p.parses_or e (op r_paren) (t ∷ ts) ((refl, refl), refl)
                (omega (arith, length-join (spell_or e) [] (op r_paren))),
          )
          (leaving-bind (mean_or x context e) _ _ (λ r. leaving r (t ∷ ts)) (λ b. refl) (λ _. refl))
    step-comparison (Comparison.constant true) t ts h l = refl
    step-comparison (Comparison.constant false) t ts h l = refl
    step-comparison (test o) t ts h l =
        operand-comparison x context f o (t ∷ ts)
        ∙ leaving-bind (mean_token x context (spell_operand o)) (t ∷ ts) _
            (λ r. leaving (r >>= λ v. ok (as_truthy x v)) (t ∷ ts))
            (λ v. operator-stop x context v (kind t) (raw t) ts h) (λ _. refl)
    step-comparison (compared o c r) t ts h l =
        operand-comparison x context f o (op (comparator_kind c) ∷ spell_right r ∷ t ∷ ts)
        ∙ leaving-bind (mean_token x context (spell_operand o)) _ _
            (λ m.
              leaving
                (m >>= λ v. mean_token x context (spell_right r) >>= λ w.
                  ok (compare_vals x v (comparator_kind c) w))
                (t ∷ ts))
            (λ v. operator-compare x context v c (spell_right r) (t ∷ ts)) (λ _. refl)

  pub parses : (f : ℕ) → Parses f
  parses zero = record {
    parses_or = λ e t ts h l. ground arith;
    parses_or_loop = λ b e t ts h l. ground arith;
    parses_and = λ e t ts h l. ground arith;
    parses_and_loop = λ b e t ts h l. ground arith;
    parses_not = λ e t ts h l. ground arith;
    parses_comparison = λ e t ts h l. ground arith;
  }
  parses (suc f) = record {
    parses_or = step-or f (parses f);
    parses_or_loop = step-or_loop f (parses f);
    parses_and = step-and f (parses f);
    parses_and_loop = step-and_loop f (parses f);
    parses_not = step-not f (parses f);
    parses_comparison = step-comparison f (parses f);
  }
