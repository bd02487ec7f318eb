-- ===== src/Expression.antt =====
-- internal/db/ExpressionEval.go: the conditions of security rules. `Scanner` turns bytes into
-- tokens, `Parser` tokens into a tree, `Evaluator` a tree and a record into a value.
pub mod Syntax
pub mod Scanner
pub mod Parser
pub mod Values
pub mod Evaluator
pub mod Total
use velm.Base.{lookup, Bool, Result, ok, err, ◌>>=◌, List, Text}
use velm.Runtime.{GoRuntime}
use velm.Expression.Syntax.{Node, Failure}
use velm.Expression.Scanner.{scan_expression}
use velm.Expression.Parser.{parse_tokens}
use velm.Expression.Values.{
  truthy, parse_timestamp, relation?, compare_as, coerce_bool, coerce_number, coerce_time,
  raw_string,
}
use velm.Expression.Evaluator.{context, eval}

module _ (go : GoRuntime) where
  -- parseBooleanExpression
  unfoldable pub parse_boolean_expression : Text → Result Failure (Node go.Float)
  parse_boolean_expression expr = do
    tokens ← scan_expression expr
    parse_tokens go.parse_float tokens

  -- evaluateBooleanExpression; `now` is the reading of the clock
  unfoldable pub evaluate_boolean_expression :
      go.Time → Text → List (Text × Text) → Text → Result Failure Bool
  unfolding parse_boolean_expression scan_expression parse_tokens eval lookup parse_timestamp
      relation? compare_as coerce_bool coerce_number coerce_time raw_string
  evaluate_boolean_expression now expr form_data current_field = do
    node ← parse_boolean_expression expr
    value ← eval go (context go form_data current_field now) node
    ok (truthy go value)
