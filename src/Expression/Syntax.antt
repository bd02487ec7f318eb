-- ===== src/Expression/Syntax.antt =====
-- ExpressionEval.go: tokens, trees and errors. `F` is the type of float64 values.
use velm.Base.{Text, Bool}

-- expressionToken; an error message shows the token's text
pub data Token : Type 0 where
  end : Token
  identifier : Text → Token
  string : Text → Token
  number : Text → Token
  bool : Text → Token
  empty : Text → Token
  operator : Text → Token
  lparen rparen comma : Token

-- The literal nodes are `text`, `numeral` and `truth`; an identifier node is `name`. The parser trims
-- the text of a `text`, as newExpressionStringValue does.
mutual
  pub data Node (F : Type 0) : Type 0 where
    text : Text → Node F
    numeral : F → Node F
    truth : Bool → Node F
    name : Text → Node F
    unary : Text → Node F → Node F
    binary : Text → Node F → Node F → Node F
    call : Text → Args F → Node F

  pub data Args (F : Type 0) : Type 0 where
    no_args : Args F
    arg : Node F → Args F → Args F

pub data Failure : Type 0 where
  unterminated_string : Failure
  unexpected_character : Text → Failure
  unexpected_token : Text → Failure
  invalid_number : Text → Failure
  expected_comma_or_rparen : Failure
  expected_rparen : Failure
  not_numeric : Failure
  unsupported_unary : Text → Failure
  unsupported_comparison : Text → Failure
  no_boolean_order : Text → Failure
  wrong_arity : Text → Failure
  unsupported_function : Text → Failure
  -- the model's own: a loop was given too few rounds
  out_of_fuel : Failure
