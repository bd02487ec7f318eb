-- ===== src/Query/Syntax.antt =====
-- table_query.go: tokens, nodes and errors.
use velm.Base.{Bool, ◌||◌, Text, txt, ◌==◌}

-- tableQueryToken
pub data Token : Type 0 where
  end : Token
  identifier : Text → Token
  literal : Text → Token
  operator : Text → Token
  lparen rparen : Token

-- tableQueryCondition
pub record Condition : Type 0 where
  pub column : Text
  pub operator : Text
  pub value : Text

-- tableQueryNode, whose kind is "condition", "and" or "or"
pub data Node : Type 0 where
  condition : Condition → Node
  both : Node → Node → Node
  either : Node → Node → Node

pub data Failure : Type 0 where
  unterminated_value : Failure
  unexpected_token : Text → Failure
  expected_rparen : Failure
  expected_column : Failure
  expected_operator : Text → Failure
  expected_value : Text → Failure
  unknown_column : Text → Failure
  not_queryable : Text → Failure
  invalid_time : Text → Failure
  invalid_number : Text → Failure
  invalid_boolean : Text → Failure
  -- the model's own: a loop was given too few rounds
  out_of_fuel : Failure

-- isComparisonOperator
unfoldable pub is_comparison_operator : Text → Bool
unfolding txt ◌==◌
is_comparison_operator v =
    v == txt "=" || v == txt "!=" || v == txt "<" || v == txt ">" || v == txt "<=" || v == txt ">="

-- isLogicalOperator
unfoldable pub is_logical_operator : Text → Bool
unfolding txt ◌==◌
is_logical_operator v = v == txt "&&" || v == txt "||"
