-- ===== src/Nop/Condition.antt =====
-- nps-nop/src/condition.rs: conditions on the nodes of a task graph. Text is kept as code points.
-- The parser's position is the list of the tokens from it on.
pub mod Tokens
pub mod Safety
pub mod Total
pub mod Grammar
pub mod Parsing
pub mod Descent
pub mod Meaning
use nps_sdk_rust.Common.{
  ℕ, zero, suc, ◌+◌, ◌-◌, ◌*◌, String, Bool, true, false, not, ◌&&◌, ◌||◌, List, [], ◌∷◌, ◌++◌,
  Option, none, some, Result, ok, err, ◌>>=◌, ◌>>◌, ltb, leb, ◌==◌, if◌then◌else◌, length, codes,
  codes_le, is_blank,
}
use nps_sdk_rust.Core.Json.{Value, null, bool, number, string, array, object}
use nps_sdk_rust.Ncp.Preamble.{slice_eq}
use nps_sdk_rust.Nop.InputMapper.{Context, MappingError, resolve, is_part}
use nps_sdk_rust.Nop.Condition.Tokens.{
  TokenKind, dollar_path, number_literal, str, true_word, false_word, null_word, gt, gte, lt, lte,
  eq, neq, and, or, not_op, l_paren, r_paren, eof, Token, kind, raw, CharClass, tokenize, Stop,
  condition_error, panicked, out_of_fuel, Parsed, Reason, trim,
}

-- Floats, the reading of one, and the printing of values as JSON.
pub record Numbers (N F : Type 0) : Type 0 where
  pub parse_f64 : List ℕ → Option F
  pub as_f64 : N → Option F
  pub zero_f64 : F
  pub float_eq : F → F → Bool
  pub float_lt : F → F → Bool
  pub float_le : F → F → Bool
  pub json_text : Value N → List ℕ

pub data Val (F : Type 0) : Type 0 where
  num : F → Val F
  text : List ℕ → Val F
  truth : Bool → Val F
  nothing : Val F

abbrev pub is_comparison_op : TokenKind → Bool
is_comparison_op gt = true
is_comparison_op gte = true
is_comparison_op lt = true
is_comparison_op lte = true
is_comparison_op eq = true
is_comparison_op neq = true
is_comparison_op _ = false

abbrev pub bool_eq : Bool → Bool → Bool
bool_eq true b = b
bool_eq false b = not b

module _ {N F : Type 0} (x : Numbers N F) where
  abbrev pub vals_equal : Val F → Val F → Bool
  vals_equal (num a) (num b) = x.float_eq a b
  vals_equal (text s) (text t) = slice_eq s t
  vals_equal (truth a) (truth b) = bool_eq a b
  vals_equal nothing nothing = true
  vals_equal _ _ = false

  abbrev pub as_truthy : Val F → Bool
  as_truthy (truth b) = b
  as_truthy (num d) = not (x.float_eq d x.zero_f64)
  as_truthy (text s) = is_part s
  as_truthy nothing = false

  abbrev pub compare_nums : F → TokenKind → F → Bool
  compare_nums a gt b = x.float_lt b a
  compare_nums a gte b = x.float_le b a
  compare_nums a lt b = x.float_lt a b
  compare_nums a lte b = x.float_le a b
  compare_nums a _ b = false

  abbrev pub compare_texts : List ℕ → TokenKind → List ℕ → Bool
  compare_texts s gt t = not (codes_le s t)
  compare_texts s gte t = codes_le t s
  compare_texts s lt t = not (codes_le t s)
  compare_texts s lte t = codes_le s t
  compare_texts s _ t = false

  abbrev pub compare_ordered : Val F → TokenKind → Val F → Bool
  compare_ordered (num a) op (num b) = compare_nums a op b
  compare_ordered (text s) op (text t) = compare_texts s op t
  compare_ordered _ op _ = false

  -- Nothing compares with nothing but by `==` and `!=`.
  unfoldable pub compare_vals : Val F → TokenKind → Val F → Bool
  unfolding slice_eq codes_le
  compare_vals lhs eq rhs = vals_equal lhs rhs
  compare_vals lhs neq rhs = not (vals_equal lhs rhs)
  compare_vals lhs op rhs = compare_ordered lhs op rhs

  abbrev pub or_zero : Option F → F
  or_zero none = x.zero_f64
  or_zero (some f) = f

  abbrev pub val_of : Option (Value N) → Val F
  val_of none = nothing
  val_of (some null) = nothing
  val_of (some (number n)) = num (or_zero (x.as_f64 n))
  val_of (some (string s)) = text (codes s)
  val_of (some (bool b)) = truth b
  val_of (some (array vs)) = text (x.json_text (array vs))
  val_of (some (object fs)) = text (x.json_text (object fs))

  abbrev pub resolved : Result MappingError (Option (Value N)) → Parsed (Val F)
  resolved (ok v) = ok (val_of v)
  resolved (err e) = err (condition_error (Reason.path e))

  unfoldable pub resolve_path : Context N → List ℕ → Parsed (Val F)
  resolve_path context path = resolved (resolve path context)

  abbrev pub literal_of : List ℕ → Option F → Parsed (Val F)
  literal_of s none = err (condition_error (Reason.invalid_number s))
  literal_of s (some f) = ok (num f)

  unfoldable pub value_of : Context N → TokenKind → List ℕ → Parsed (Val F)
  unfolding resolve_path
  value_of context dollar_path s = resolve_path context s
  value_of context number_literal s = literal_of s (x.parse_f64 s)
  value_of context str s = ok (text s)
  value_of context true_word s = ok (truth true)
  value_of context false_word s = ok (truth false)
  value_of context null_word s = ok nothing
  value_of context _ s = err (condition_error (Reason.expected_value s))

  -- `consume` behind the last token is an index out of bounds.
  unfoldable pub parse_value : Context N → List Token → Parsed (Val F × List Token)
  unfolding value_of
  parse_value context [] = err panicked
  parse_value context (t ∷ ts) = do v ← value_of context (kind t) (raw t); ok (v, ts)

  -- What follows the left side of a comparison.
  unfoldable pub parse_operator : Context N → Val F → List Token → Parsed (Bool × List Token)
  unfolding parse_value compare_vals
  parse_operator context lhs [] = err panicked
  parse_operator context lhs (t ∷ ts) =
      if is_comparison_op (kind t)
      then (do (rhs, rest) ← parse_value context ts; ok (compare_vals lhs (kind t) rhs, rest))
      else ok (as_truthy lhs, t ∷ ts)

  abbrev pub close : Bool → List Token → Parsed (Bool × List Token)
  close inner [] = err panicked
  close inner (t ∷ ts) = elim (kind t) [
    | r_paren ↦ ok (inner, ts)
    | _ ↦ err (condition_error Reason.expected_paren)
  ]

  abbrev pub negate : Parsed (Bool × List Token) → Parsed (Bool × List Token)
  negate m = do (b, rest) ← m; ok (not b, rest)

  -- The descent, on fuel for its calls.
  unfoldable mutual
    unfolding parse_value parse_operator

    pub parse_or_expr : ℕ → Context N → List Token → Parsed (Bool × List Token)
    parse_or_expr zero context ts = err out_of_fuel
    parse_or_expr (suc f) context ts = do
      (left, rest) ← parse_and_expr f context ts
      or_loop f context left rest

    -- The `while` of `parse_or_expr`.
    pub or_loop : ℕ → Context N → Bool → List Token → Parsed (Bool × List Token)
    or_loop zero context left ts = err out_of_fuel
    or_loop (suc f) context left [] = err panicked
    or_loop (suc f) context left (t ∷ ts) = elim (kind t) [
      | or ↦ parse_and_expr f context ts >>= λ (right, rest). or_loop f context (left || right) rest
      | _ ↦ ok (left, t ∷ ts)
    ]

    pub parse_and_expr : ℕ → Context N → List Token → Parsed (Bool × List Token)
    parse_and_expr zero context ts = err out_of_fuel
    parse_and_expr (suc f) context ts = do
      (left, rest) ← parse_not_expr f context ts
      and_loop f context left rest

    -- The `while` of `parse_and_expr`.
    pub and_loop : ℕ → Context N → Bool → List Token → Parsed (Bool × List Token)
    and_loop zero context left ts = err out_of_fuel
    and_loop (suc f) context left [] = err panicked
    and_loop (suc f) context left (t ∷ ts) = elim (kind t) [
      | and ↦
          parse_not_expr f context ts >>= λ (right, rest). and_loop f context (left && right) rest
      | _ ↦ ok (left, t ∷ ts)
    ]

    pub parse_not_expr : ℕ → Context N → List Token → Parsed (Bool × List Token)
    parse_not_expr zero context ts = err out_of_fuel
    parse_not_expr (suc f) context [] = err panicked
    parse_not_expr (suc f) context (t ∷ ts) = elim (kind t) [
      | not_op ↦ negate (parse_not_expr f context ts)
      | _ ↦ parse_comparison f context (t ∷ ts)
    ]

    pub parse_comparison : ℕ → Context N → List Token → Parsed (Bool × List Token)
    parse_comparison zero context ts = err out_of_fuel
    parse_comparison (suc f) context [] = err panicked
    parse_comparison (suc f) context (t ∷ ts) = elim (kind t) [
      | l_paren ↦ parse_or_expr f context ts >>= λ (inner, rest). close inner rest
      | true_word ↦ ok (true, ts)
      | false_word ↦ ok (false, ts)
      | _ ↦ parse_value context (t ∷ ts) >>= λ (lhs, rest). parse_operator context lhs rest
    ]

  -- Fuel for every call that a list of so many tokens can lead to.
  abbrev pub enough : List Token → ℕ
  enough ts = 6 * length ts + 6

  abbrev pub first_of : Parsed (Bool × List Token) → Parsed Bool
  first_of (ok (b, rest)) = ok b
  first_of (err e) = err e

  unfoldable pub evaluate_tokens : Context N → Parsed (List Token) → Parsed Bool
  unfolding parse_or_expr
  evaluate_tokens context (err e) = err e
  evaluate_tokens context (ok ts) = first_of (parse_or_expr (enough ts) context ts)

  unfoldable pub evaluate : CharClass → List ℕ → Context N → Parsed Bool
  unfolding evaluate_tokens tokenize
  evaluate c condition context =
      if is_blank condition then ok true else evaluate_tokens context (tokenize c (trim condition))
