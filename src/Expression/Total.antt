-- ===== src/Expression/Total.antt =====
-- When the reader of conditions ends.
use velm.Base.{Avoids-ne, ne-Avoids, Avoids-bind, ◌≢◌, err, ◌>>=◌, Text}
use velm.Runtime.{GoRuntime}
use velm.Expression.Syntax.{out_of_fuel}
use velm.Expression.Scanner.{scan_expression}
use velm.Expression.Scanner.Fuel.{scan_expression_total}
use velm.Expression.Parser.{parse_tokens}
use velm.Expression.Parser.Fuel.{parse_tokens_total}
use velm.Expression.{parse_boolean_expression}

-- Every text is read to a tree or refused with an error: neither the scanner nor the parser loops on, or
-- stops for want of rounds.
pub parse_boolean_expression_total :
    (go : GoRuntime) (expr : Text) → parse_boolean_expression go expr ≢ err out_of_fuel
parse_boolean_expression_total go expr =
    unfold parse_boolean_expression in
    Avoids-ne out_of_fuel (scan_expression expr >>= parse_tokens go.parse_float) (
      Avoids-bind out_of_fuel (scan_expression expr) (parse_tokens go.parse_float)
        (ne-Avoids out_of_fuel (scan_expression expr) (scan_expression_total expr))
        (λ ts.
          ne-Avoids out_of_fuel (parse_tokens go.parse_float ts)
            (parse_tokens_total go.parse_float ts)))
