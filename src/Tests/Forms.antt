-- ===== src/Tests/Forms.antt =====
-- The properties of the schema: a form with a short title, and a literal with a quote in it.
use velm.Base.{
  ℕ, Bool, true, false, ◌≡◌, ◌≤◌, ◌↔◌, refl, arith, Option, none, some, ok, List, [], ◌∷◌, ◌++◌,
  Text, txt, ◌==◌, All, length,
}
use velm.Runtime.{whole_numbers}
use velm.Schema.DataTypes.{Column, normalize_data_type}
use velm.Schema.Identifiers.{quote_sql_literal}
use velm.Schema.Identifiers.Literals.{read_sql_literal, read-quote_sql_literal}
use velm.Schema.Validation.{Grammars, parse_max_length, validate_form_write}
use velm.Schema.Validation.Forms.{given, IsAccepted, validate_form_write_iff}
use velm.Schema.Validation.Limits.{validated_length}

-- Patterns that match only themselves, and no addresses or URLs.
abbrev plain_grammars : Grammars
plain_grammars = record {
  compile = λ pattern. some (λ value. pattern == value);
  is_address = λ value. false;
  parse_request_uri = λ value. none;
}

abbrev title : Column
title = record {
  name = txt "title";
  data_type = txt "varchar(5)";
  is_nullable = false;
  default_value = none;
  validation_regex = none;
  validation_expr = none;
  condition_expr = none;
  validation_msg = [];
  prefix = [];
  choices = [];
}

abbrev form : List (Text × Text)
form = (txt "title", txt " abc ") ∷ []

validate_form_write_iff_example :
    (validate_form_write whole_numbers plain_grammars 7 true form (title ∷ []) ≡ ok tt)
    ↔ All (IsAccepted whole_numbers plain_grammars 7 true form) (title ∷ [])
validate_form_write_iff_example =
    validate_form_write_iff whole_numbers plain_grammars 7 true form (title ∷ [])

validated_length_example :
    length (given whole_numbers plain_grammars 7 true form title)
    ≤ parse_max_length (normalize_data_type (txt "varchar(5)"))
unfolding validate_form_write parse_max_length normalize_data_type velm.Base.has_prefix
    velm.Base.◌==◌ velm.Base.trim velm.Base.lookup velm.Schema.Validation.condition_matches txt
validated_length_example =
    validated_length whole_numbers plain_grammars 7 true form [] title [] refl refl refl refl
      (omega arith)

read-quote_sql_literal_example :
    read_sql_literal (quote_sql_literal (txt "it's") ++ txt ", 1") ≡ some (txt "it's", txt ", 1")
unfolding txt
read-quote_sql_literal_example = read-quote_sql_literal (txt "it's") (txt ", 1") refl
