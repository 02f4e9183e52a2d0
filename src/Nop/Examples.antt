-- ===== src/Nop/Examples.antt =====
-- nps-nop: a condition, a path into results, and results merged, with numbers as ℕ.
use nps_sdk_rust.Common.{
  ℕ, zero, suc, ◌+◌, ◌-◌, ◌*◌, ◌≡◌, refl, String, true, false, List, [], ◌∷◌, ◌++◌, Option, some,
  ok, ltb, leb, ◌==◌, codes, strip_prefix, split,
}
use nps_sdk_rust.Core.Json.{Value, number, object, field, end}
use nps_sdk_rust.Ncp.Preamble.{slice_eq}
use nps_sdk_rust.Nop.InputMapper.{resolve, fields_of}
use nps_sdk_rust.Nop.InputMapper.Depth.{Within, resolve-Within}
use nps_sdk_rust.Nop.Condition.Tokens.{CharClass, r_paren, eof}
use nps_sdk_rust.Nop.Condition.{Numbers, evaluate_tokens, evaluate}
use nps_sdk_rust.Nop.Condition.Total.{Settles, evaluate-Settles}
use nps_sdk_rust.Nop.Condition.Grammar.{
  Operand, Comparison, above, operand, last_or, more_or, last_and, negation, plain, paren, compared,
  spell_or, mean_or, op, OrExpr,
}
use nps_sdk_rust.Nop.Condition.Meaning.{evaluate_tokens-mean_or}
use nps_sdk_rust.Nop.Aggregator.{merge}
use nps_sdk_rust.Nop.Aggregator.Laws.{field_of, latest, field_of-merge}

abbrev pub digits : List ℕ → ℕ → Option ℕ
digits [] n = some n
digits (c ∷ cs) n = digits cs (10 * n + (c - 48))

abbrev pub naturals : Numbers ℕ ℕ
naturals = record {
  parse_f64 = λ s. digits s 0;
  as_f64 = λ n. some n;
  zero_f64 = 0;
  float_eq = λ m n. m == n;
  float_lt = ltb;
  float_le = leb;
  json_text = λ v. [];
}

abbrev pub ascii : CharClass
ascii = record { other_alphabetic = λ c. false; other_numeric = λ c. false }

abbrev results : List (String × Value ℕ)
results = ("a", object (field "score" (number 9) end)) ∷ []

condition-true :
    evaluate naturals ascii (codes "!($.a.score > 7) || $.a.score == 9") results ≡ ok true
unfolding evaluate resolve strip_prefix split
condition-true = refl

evaluate-Settles_example :
    Settles (evaluate naturals ascii (codes "!($.a.score > 7) || $.a.score == 9") results)
evaluate-Settles_example =
    evaluate-Settles naturals ascii (codes "!($.a.score > 7) || $.a.score == 9") results

-- What follows a truth value is not read.
rest-ignored : evaluate naturals ascii (codes "true == false") results ≡ ok true
unfolding evaluate resolve strip_prefix split
rest-ignored = refl

-- `!($.a.score > 7) || true`, and what is not an operator behind it.
abbrev condition : OrExpr
condition =
    more_or
      (last_and (
        negation (
          plain (
            paren (
              last_or (
                last_and (
                  plain (
                    compared (Operand.path (codes "$.a.score")) above
                      (operand (Operand.number (codes "7")))))))))))
      (last_or (last_and (plain (Comparison.constant true))))

evaluate_tokens-mean_or_example :
    evaluate_tokens naturals results (ok (spell_or condition ++ (op r_paren ∷ op eof ∷ [])))
    ≡ mean_or naturals results condition
evaluate_tokens-mean_or_example =
    evaluate_tokens-mean_or naturals results condition (op r_paren) (op eof ∷ [])
      ((refl, refl), refl)

resolved-score : resolve (codes "$.a.score") results ≡ ok (some (number 9))
unfolding resolve strip_prefix split slice_eq
resolved-score = refl

resolve-Within_example : Within 8 (object (fields_of results)) (number 9)
resolve-Within_example = resolve-Within (codes "$.a.score") results (number 9) resolved-score

abbrev result_key : ℕ → String
result_key zero = "_result_0"
result_key (suc n) = "_result_n"

abbrev upstream : List (Value ℕ)
upstream =
    object (field "x" (number 1) (field "y" (number 2) end))
    ∷ number 7
    ∷ object (field "x" (number 3) end)
    ∷ []

field_of-merge_example : field_of "x" (merge result_key upstream) ≡ latest result_key "x" 0 upstream
field_of-merge_example = field_of-merge result_key "x" upstream
