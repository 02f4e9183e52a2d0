-- ===== src/Nop/Condition/Grammar.antt =====
-- The grammar of conditions, as data: what an expression means, and the tokens that spell it. Both
-- sides of an operator are evaluated, as the code does.
use nps_sdk_rust.Common.{
  ℕ, ◌≡◌, Bool, true, false, not, ◌&&◌, ◌||◌, List, [], ◌∷◌, ◌++◌, ok, err, ◌>>=◌,
}
use nps_sdk_rust.Nop.InputMapper.{Context}
use nps_sdk_rust.Nop.Condition.Tokens.{
  TokenKind, dollar_path, number_literal, str, true_word, false_word, null_word, gt, gte, lt, lte,
  eq, neq, and, or, not_op, l_paren, r_paren, Token, kind, raw, token, Parsed,
}
use nps_sdk_rust.Nop.Condition.{Numbers, Val, value_of, is_comparison_op, compare_vals, as_truthy}

pub data Operand : Type 0 where
  path number text : List ℕ → Operand
  nothing : Operand

pub data Comparator : Type 0 where
  above at_least below at_most equal unequal : Comparator

-- The right side of a comparison may be a truth value, the left side may not.
pub data Right : Type 0 where
  operand : Operand → Right
  constant : Bool → Right

mutual
  pub data OrExpr : Type 0 where
    last_or : AndExpr → OrExpr
    more_or : AndExpr → OrExpr → OrExpr

  pub data AndExpr : Type 0 where
    last_and : NotExpr → AndExpr
    more_and : NotExpr → AndExpr → AndExpr

  pub data NotExpr : Type 0 where
    negation : NotExpr → NotExpr
    plain : Comparison → NotExpr

  pub data Comparison : Type 0 where
    paren : OrExpr → Comparison
    constant : Bool → Comparison
    test : Operand → Comparison
    compared : Operand → Comparator → Right → Comparison

abbrev pub kind_of : Operand → TokenKind
kind_of (path s) = dollar_path
kind_of (number s) = number_literal
kind_of (text s) = str
kind_of nothing = null_word

abbrev pub raw_of : Operand → List ℕ
raw_of (path s) = s
raw_of (number s) = s
raw_of (text s) = s
raw_of nothing = []

abbrev pub spell_operand : Operand → Token
spell_operand o = token (kind_of o) (raw_of o)

abbrev pub comparator_kind : Comparator → TokenKind
comparator_kind above = gt
comparator_kind at_least = gte
comparator_kind below = lt
comparator_kind at_most = lte
comparator_kind equal = eq
comparator_kind unequal = neq

abbrev pub bool_kind : Bool → TokenKind
bool_kind true = true_word
bool_kind false = false_word

abbrev pub spell_right : Right → Token
spell_right (operand o) = spell_operand o
spell_right (constant b) = token (bool_kind b) []

abbrev pub op : TokenKind → Token
op k = token k []

unfoldable mutual
  pub spell_or : OrExpr → List Token
  spell_or (last_or a) = spell_and a
  spell_or (more_or a e) = spell_and a ++ (op or ∷ spell_or e)

  pub spell_and : AndExpr → List Token
  spell_and (last_and n) = spell_not n
  spell_and (more_and n a) = spell_not n ++ (op and ∷ spell_and a)

  pub spell_not : NotExpr → List Token
  spell_not (negation n) = op not_op ∷ spell_not n
  spell_not (plain c) = spell_comparison c

  pub spell_comparison : Comparison → List Token
  spell_comparison (paren e) = op l_paren ∷ (spell_or e ++ (op r_paren ∷ []))
  spell_comparison (constant b) = op (bool_kind b) ∷ []
  spell_comparison (test o) = spell_operand o ∷ []
  spell_comparison (compared o c r) = spell_operand o ∷ op (comparator_kind c) ∷ spell_right r ∷ []

module _ {N F : Type 0} (x : Numbers N F) (context : Context N) where
  abbrev pub mean_token : Token → Parsed (Val F)
  mean_token t = value_of x context (kind t) (raw t)

  unfoldable mutual
    pub mean_or : OrExpr → Parsed Bool
    mean_or (last_or a) = mean_and a
    mean_or (more_or a e) = mean_and a >>= λ b. mean_or e >>= λ c. ok (b || c)

    pub mean_and : AndExpr → Parsed Bool
    mean_and (last_and n) = mean_not n
    mean_and (more_and n a) = mean_not n >>= λ b. mean_and a >>= λ c. ok (b && c)

    pub mean_not : NotExpr → Parsed Bool
    mean_not (negation n) = mean_not n >>= λ b. ok (not b)
    mean_not (plain c) = mean_comparison c

    pub mean_comparison : Comparison → Parsed Bool
    mean_comparison (paren e) = mean_or e
    mean_comparison (constant b) = ok b
    mean_comparison (test o) = mean_token (spell_operand o) >>= λ v. ok (as_truthy x v)
    mean_comparison (compared o c r) = mean_token (spell_operand o) >>= λ v.
        mean_token (spell_right r) >>= λ w. ok (compare_vals x v (comparator_kind c) w)

-- A result, and the tokens that are left.
abbrev pub leaving {ℓ} : {A : Type ℓ} → Parsed A → List Token → Parsed (A × List Token)
leaving (ok a) rest = ok (a, rest)
leaving (err e) rest = err e

abbrev pub is_or : TokenKind → Bool
is_or or = true
is_or _ = false

abbrev pub is_and : TokenKind → Bool
is_and and = true
is_and _ = false

-- Tokens that end a comparison, a conjunction and a whole expression.
abbrev pub EndsComparison : TokenKind → Type 0
EndsComparison k = is_comparison_op k ≡ false

abbrev pub EndsAnd : TokenKind → Type 0
EndsAnd k = EndsComparison k × (is_and k ≡ false)

abbrev pub EndsOr : TokenKind → Type 0
EndsOr k = EndsAnd k × (is_or k ≡ false)
