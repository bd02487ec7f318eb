-- ===== src/Query/Parser.antt =====
-- tableQueryParser: recursive descent. The parser's state, the tokens and an index, is the list of the
-- tokens that are left; the last of a scanned list is the end token.
pub mod Fuel
use velm.Base.{
  ℕ, zero, suc, ◌+◌, ◌*◌, Bool, true, false, ◌&&◌, ◌||◌, if◌then◌else◌, Option, none, some, Result,
  ok, err, ◌>>=◌, List, [], ◌∷◌, ◌++◌, Text, txt, trim, ◌==◌, length, null,
}
use velm.Query.Syntax.{
  Token, end, identifier, literal, operator, lparen, rparen, Condition, Node, condition, both,
  either, Failure, unexpected_token, expected_rparen, expected_column, expected_operator,
  expected_value, out_of_fuel, is_comparison_operator, is_logical_operator,
}

unfoldable pub peek : List Token → Token
peek [] = end
peek (t ∷ ts) = t

unfoldable pub next : List Token → List Token
next [] = []
next (t ∷ ts) = ts

abbrev pub operator? : Token → Option Text
operator? (operator v) = some v
operator? _ = none

-- an identifier or a literal
abbrev pub word? : Token → Option Text
word? (identifier v) = some v
word? (literal v) = some v
word? _ = none

abbrev pub is_lparen : Token → Bool
is_lparen lparen = true
is_lparen _ = false

abbrev pub is_rparen : Token → Bool
is_rparen rparen = true
is_rparen _ = false

abbrev pub is_end : Token → Bool
is_end end = true
is_end _ = false

unfoldable pub token_value : Token → Text
unfolding txt
token_value end = []
token_value (identifier v) = v
token_value (literal v) = v
token_value (operator v) = v
token_value lparen = txt "("
token_value rparen = txt ")"

-- the tests `token.Type == tableQueryTokenOperator && …`
abbrev pub passes : (Text → Bool) → Option Text → Bool
passes p none = false
passes p (some v) = p v

unfoldable pub is_operator_with : (Text → Bool) → Token → Bool
is_operator_with p t = passes p (operator? t)

-- strings.Join by a space
unfoldable pub join_words : List Text → Text
unfolding txt
join_words [] = []
join_words (w ∷ ws) = let rest = join_words ws in if null ws then w else w ++ txt " " ++ rest

-- the loop over the words of a column's name, which ends after the word before a comparison
unfoldable pub column_parts : List Token → List Text × List Token
unfolding is_operator_with is_comparison_operator peek
column_parts [] = ([], [])
column_parts (t ∷ ts) =
    let rest = column_parts ts in
    elim (word? t) [
      | none ↦ ([], t ∷ ts)
      | some w ↦
          if is_operator_with is_comparison_operator (peek ts)
          then (w ∷ [], ts)
          else (w ∷ rest.0, rest.1)
    ]

abbrev pub with_word :
    Text → Result Failure (List Text × List Token) → Result Failure (List Text × List Token)
with_word w (err e) = err e
with_word w (ok (ws, ts)) = ok (w ∷ ws, ts)

-- the loop over the words of a value
unfoldable pub value_parts : Text → List Token → Result Failure (List Text × List Token)
unfolding is_operator_with is_logical_operator
value_parts op [] = ok ([], [])
value_parts op (t ∷ ts) =
    let rest = value_parts op ts in
    if is_end t || is_rparen t || is_operator_with is_logical_operator t
    then ok ([], t ∷ ts)
    else elim (word? t) [ none ↦ err (expected_value op) | some w ↦ with_word w rest ]

-- A parsed tree and the tokens that are left.
abbrev pub Parsed : Type 0
Parsed = Result Failure (Node × List Token)

abbrev pub with_value : Text → Text → List Text × List Token → Parsed
with_value column op (words, ts) =
    if null words
    then err (expected_value op)
    else ok
        (condition (record { column = column; operator = op; value = trim (join_words words) }), ts)

abbrev pub with_operator : Text → Option Text → List Token → Parsed
with_operator column none ts = err (expected_operator column)
with_operator column (some op) ts =
    if is_comparison_operator op
    then value_parts op ts >>= with_value column op
    else err (expected_operator column)

-- parseCondition
unfoldable pub parse_condition : List Token → Parsed
unfolding column_parts value_parts peek next join_words trim
parse_condition ts =
    let parts = column_parts ts in
    if null parts.0
    then err expected_column
    else with_operator (trim (join_words parts.0)) (operator? (peek parts.1)) (next parts.1)

abbrev pub close : Node × List Token → Parsed
close (n, ts) = if is_rparen (peek ts) then ok (n, next ts) else err expected_rparen

-- Four levels of calls for each token are enough.
abbrev pub enough : List Token → ℕ
enough ts = 4 * length ts + 4

unfoldable mutual
  pub parse_or : ℕ → List Token → Parsed
  parse_or zero ts = err out_of_fuel
  parse_or (suc f) ts = parse_and f ts >>= (λ left. or_rounds f left.0 left.1)

  pub or_rounds : ℕ → Node → List Token → Parsed
  or_rounds zero node ts = err out_of_fuel
  or_rounds (suc f) node ts = elim (is_operator_with (λ v. v == txt "||") (peek ts)) [
    | true ↦ parse_and f (next ts) >>= (λ right. or_rounds f (either node right.0) right.1)
    | false ↦ ok (node, ts)
  ]

  pub parse_and : ℕ → List Token → Parsed
  parse_and zero ts = err out_of_fuel
  parse_and (suc f) ts = parse_primary f ts >>= (λ left. and_rounds f left.0 left.1)

  pub and_rounds : ℕ → Node → List Token → Parsed
  and_rounds zero node ts = err out_of_fuel
  and_rounds (suc f) node ts = elim (is_operator_with (λ v. v == txt "&&") (peek ts)) [
    | true ↦ parse_primary f (next ts) >>= (λ right. and_rounds f (both node right.0) right.1)
    | false ↦ ok (node, ts)
  ]

  pub parse_primary : ℕ → List Token → Parsed
  parse_primary zero ts = err out_of_fuel
  parse_primary (suc f) ts = elim (is_lparen (peek ts)) [
    | true ↦ parse_or f (next ts) >>= close
    | false ↦ parse_condition ts
  ]

-- the check that no token is left but the end
abbrev pub whole_tree : Node × List Token → Result {0, 0} Failure Node
whole_tree (node, ts) =
    if is_end (peek ts) then ok node else err (unexpected_token (token_value (peek ts)))

-- parseExpression, and the check after it
unfoldable pub parse_query : List Token → Result {0, 0} Failure Node
unfolding parse_or peek next is_operator_with parse_condition txt ◌==◌ token_value
parse_query ts = parse_or (enough ts) ts >>= whole_tree
