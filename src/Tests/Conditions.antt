-- ===== src/Tests/Conditions.antt =====
-- The properties of conditions at small texts, tokens and trees.
use velm.Base.{ℕ, ◌≡◌, refl, ok, List, [], ◌∷◌, Text, txt}
use velm.Runtime.{whole_numbers}
use velm.Expression.Syntax.{Node, binary, name, numeral}
use velm.Expression.Parser.{parse_tokens}
use velm.Expression.Parser.Printing.{show, IsWritable}
use velm.Expression.Parser.Printing.RoundTrip.{parse_tokens-show}
use velm.Expression.Syntax.{unary, call, text, arg, no_args}
use velm.Base.{◌+◌, inl, inr}
use velm.Expression.Evaluator.{Context}

abbrev at_five : Context whole_numbers
at_five = record {
  form_data = (txt "status", txt "open") ∷ (txt "note", txt "a") ∷ [];
  current_field = [];
  current_time = 5;
}

abbrev other_note : List (Text × Text)
other_note = (txt "status", txt "open") ∷ (txt "note", txt "b") ∷ []

abbrev is_open : Node ℕ
is_open = binary (txt "==") (name (txt "status")) (name (txt "open"))

-- !(count == 1) && contains(note, 'a')
abbrev sample : Node ℕ
sample =
    binary (txt "&&") (unary (txt "!") (binary (txt "==") (name (txt "count")) (numeral 1)))
      (call (txt "contains") (arg (name (txt "note")) (arg (text (txt "a")) no_args)))

abbrev digit : ℕ → Text
digit n = (n + 48) ∷ []

sample-IsWritable : IsWritable whole_numbers.parse_float digit sample
unfolding IsWritable txt velm.Base.trim velm.Expression.Parser.is_unary_operator
    velm.Expression.Parser.is_comparison_operator
sample-IsWritable = (inr (inl refl), ((refl, (inr (inr refl), (tt, refl))), (tt, (refl, tt))))

parse_tokens-show_example :
    parse_tokens whole_numbers.parse_float (show digit sample []) ≡ ok sample
parse_tokens-show_example =
    parse_tokens-show whole_numbers.parse_float digit sample sample-IsWritable
