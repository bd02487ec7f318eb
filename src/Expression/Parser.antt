-- ===== src/Expression/Parser.antt =====
-- ExpressionEval.go: the recursive-descent parser. Its state, the tokens and an index, is the list
-- of the tokens that are left; past the end `peek` sees the end token. A call at depth `n` of the
-- recursion, or the `n`th round of a loop, has the fuel less `n`.
pub mod Fuel
pub mod Printing
use velm.Base.{ℕ, zero, suc, ◌+◌, ◌*◌, Bool, true, false, ◌&&◌, ◌||◌, Option, none, some}
use velm.Base.{
  Result, ok, err, ◌>>=◌, List, [], ◌∷◌, if◌then◌else◌, length, Text, txt, trim, lower, ◌==◌,
}
use velm.Expression.Syntax.{Token, end, identifier, string, number, bool, empty, operator}
use velm.Expression.Syntax.{lparen, rparen, comma}
use velm.Expression.Syntax.{
  Node, text, numeral, truth, name, unary, binary, call, Args, no_args, arg,
}
use velm.Expression.Syntax.{Failure, unexpected_token, invalid_number, expected_comma_or_rparen}
use velm.Expression.Syntax.{expected_rparen, out_of_fuel}

-- the text that a token carries
unfoldable pub token_text : Token → Text
unfolding txt
token_text end = []
token_text (identifier v) = v
token_text (string v) = v
token_text (number v) = v
token_text (bool v) = v
token_text (empty v) = v
token_text (operator v) = v
token_text lparen = txt "("
token_text rparen = txt ")"
token_text comma = txt ","

unfoldable pub peek : List Token → Token
peek [] = end
peek (t ∷ ts) = t

-- consume moves past the token that `peek` shows
unfoldable pub consume : List Token → List Token
consume [] = []
consume (t ∷ ts) = ts

abbrev pub is_rparen : Token → Bool
is_rparen rparen = true
is_rparen _ = false

abbrev pub is_comma : Token → Bool
is_comma comma = true
is_comma _ = false

abbrev pub is_end : Token → Bool
is_end end = true
is_end _ = false

-- the operator that a token is
abbrev pub operator? : Token → Option Text
operator? (operator v) = some v
operator? _ = none

-- isComparisonOperator
unfoldable pub is_comparison_operator : Text → Bool
unfolding txt ◌==◌
is_comparison_operator op =
    op == txt "="
    || op == txt "=="
    || op == txt "!="
    || op == txt "<"
    || op == txt "<="
    || op == txt ">"
    || op == txt ">="

unfoldable pub is_unary_operator : Text → Bool
unfolding txt ◌==◌
is_unary_operator op = op == txt "!" || op == txt "-"

-- the tests `token.typ == expressionTokenOperator && …`
unfoldable pub operator_with : (Text → Bool) → Token → Option Text
operator_with p t = elim (operator? t) [ none ↦ none | some v ↦ if p v then some v else none ]

-- Eight levels of calls for each token are enough.
abbrev pub enough : List Token → ℕ
enough ts = 8 * length ts + 8

-- the check of parseBooleanExpression that no token is left but the end
abbrev pub whole_tree {ℓ} : {N : Type ℓ} → N × List Token → Result Failure N
whole_tree (node, ts) =
    if is_end (peek ts) then ok node else err (unexpected_token (token_text (peek ts)))

module _ {F : Type 0} (parse_float : Text → Option F) where
  -- A parsed tree and the tokens that are left.
  abbrev pub Parsed : Type 0
  Parsed = Result Failure (Node F × List Token)

  unfoldable pub number_node : Text → Option F → List Token → Parsed
  number_node v none ts = err (invalid_number v)
  number_node v (some x) ts = ok (numeral x, ts)

  abbrev close : Node F → List Token → Parsed
  close n ts = if is_rparen (peek ts) then ok (n, consume ts) else err expected_rparen

  unfoldable mutual
    unfolding trim

    pub parse_or : ℕ → List Token → Parsed
    parse_or zero ts = err out_of_fuel
    parse_or (suc f) ts = do left ← parse_and f ts; or_rounds f (left.0) (left.1)

    pub or_rounds : ℕ → Node F → List Token → Parsed
    or_rounds zero node ts = err out_of_fuel
    or_rounds (suc f) node ts = elim (operator_with (λ v. v == txt "||") (peek ts)) [
      | none ↦ ok (node, ts)
      | some op ↦ do
        right ← parse_and f (consume ts)
        or_rounds f (binary (txt "||") node (right.0)) (right.1)
    ]

    pub parse_and : ℕ → List Token → Parsed
    parse_and zero ts = err out_of_fuel
    parse_and (suc f) ts = do left ← parse_comparison f ts; and_rounds f (left.0) (left.1)

    pub and_rounds : ℕ → Node F → List Token → Parsed
    and_rounds zero node ts = err out_of_fuel
    and_rounds (suc f) node ts = elim (operator_with (λ v. v == txt "&&") (peek ts)) [
      | none ↦ ok (node, ts)
      | some op ↦ do
        right ← parse_comparison f (consume ts)
        and_rounds f (binary (txt "&&") node (right.0)) (right.1)
    ]

    pub parse_comparison : ℕ → List Token → Parsed
    parse_comparison zero ts = err out_of_fuel
    parse_comparison (suc f) ts = do
      left ← parse_unary f ts
      elim (operator_with is_comparison_operator (peek (left.1))) [
        | none ↦ ok left
        | some op ↦ do
          right ← parse_unary f (consume (left.1))
          ok (binary op (left.0) (right.0), right.1)
      ]

    pub parse_unary : ℕ → List Token → Parsed
    parse_unary zero ts = err out_of_fuel
    parse_unary (suc f) ts = elim (operator_with is_unary_operator (peek ts)) [
      | none ↦ parse_primary f ts
      | some op ↦ do operand ← parse_unary f (consume ts); ok (unary op (operand.0), operand.1)
    ]

    pub parse_primary : ℕ → List Token → Parsed
    parse_primary zero ts = err out_of_fuel
    parse_primary (suc f) [] = err (unexpected_token [])
    parse_primary (suc f) (identifier v ∷ lparen ∷ rparen ∷ ts) = ok (call v no_args, ts)
    parse_primary (suc f) (identifier v ∷ lparen ∷ ts) = do
      args ← parse_args f ts
      ok (call v (args.0), args.1)
    parse_primary (suc f) (identifier v ∷ ts) = ok (name v, ts)
    parse_primary (suc f) (string v ∷ ts) = ok (text (trim v), ts)
    parse_primary (suc f) (number v ∷ ts) = number_node v (parse_float v) ts
    parse_primary (suc f) (bool v ∷ ts) = ok (truth (lower v == txt "true"), ts)
    parse_primary (suc f) (empty v ∷ ts) = ok (text [], ts)
    parse_primary (suc f) (lparen ∷ ts) = do inner ← parse_or f ts; close (inner.0) (inner.1)
    parse_primary (suc f) (t ∷ ts) = err (unexpected_token (token_text t))

    -- the loop over the arguments of a call, up to the closing parenthesis
    pub parse_args : ℕ → List Token → Result Failure (Args F × List Token)
    parse_args zero ts = err out_of_fuel
    parse_args (suc f) ts = do
      first ← parse_or f ts
      if is_rparen (peek (first.1))
          then ok (arg (first.0) no_args, consume (first.1))
          else if is_comma (peek (first.1))
          then (do later ← parse_args f (consume (first.1)); ok (arg (first.0) (later.0), later.1))
          else err expected_comma_or_rparen

  -- the rest of parseBooleanExpression: a tree, and no token after it but the end
  unfoldable pub parse_tokens : List Token → Result Failure (Node F)
  unfolding parse_or peek consume operator_with txt ◌==◌ trim lower token_text number_node
      is_unary_operator is_comparison_operator
  parse_tokens ts = do whole ← parse_or (enough ts) ts; whole_tree whole
