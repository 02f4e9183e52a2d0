-- ===== src/Nop/Condition/Meaning.antt =====
-- nps-nop/src/condition.rs: `evaluate` reads one expression of the grammar at the front of the tokens.
use nps_sdk_rust.Common.{◌≡◌, refl, Bool, List, ◌∷◌, ◌++◌, ok, err, length-append, arith, ap, ◌∙◌}
use nps_sdk_rust.Nop.InputMapper.{Context}
use nps_sdk_rust.Nop.Condition.Tokens.{Token, kind, Parsed}
use nps_sdk_rust.Nop.Condition.{Numbers, first_of, evaluate_tokens, enough}
use nps_sdk_rust.Nop.Condition.Grammar.{OrExpr, spell_or, mean_or, leaving, EndsOr}
use nps_sdk_rust.Nop.Condition.Descent.{parses}

module _ {N F : Type 0} (x : Numbers N F) (context : Context N) where
  first_of-leaving : (r : Parsed Bool) (ts : List Token) → first_of x (leaving r ts) ≡ r
  first_of-leaving (ok b) ts = refl
  first_of-leaving (err e) ts = refl

  -- Of the tokens that spell an expression, before any token that goes on with no expression, the
  -- evaluator gives exactly the expression's meaning (a truth value, or the error of its first
  -- value that has one): `!` binds strongest, then comparisons, `&&` and `||`, parentheses group,
  -- and whatever stands behind that token is not looked at.
  pub evaluate_tokens-mean_or :
      (e : OrExpr) (t : Token) (ts : List Token)
      → EndsOr (kind t)
      → evaluate_tokens x context (ok (spell_or e ++ (t ∷ ts))) ≡ mean_or x context e
  unfolding evaluate_tokens
  evaluate_tokens-mean_or e t ts h =
      ap (first_of x) (
        (parses x context (enough x (spell_or e ++ (t ∷ ts)))).parses_or e t ts h
          (omega (arith, length-append (spell_or e) (t ∷ ts))))
      ∙ first_of-leaving (mean_or x context e) (t ∷ ts)
