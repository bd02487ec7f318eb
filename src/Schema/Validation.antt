-- ===== src/Schema/Validation.antt =====
-- internal/db/Validation.go: the values of a form against its columns. The patterns that users
-- write and the grammars of mail addresses and URLs are those of Go's regexp, net/mail and net/url.
pub mod Forms
pub mod Limits
use velm.Base.{
  ℕ, Bool, true, false, not, ◌&&◌, ◌||◌, if◌then◌else◌, Option, none, some, is_some, Result, ok,
  err, ◌>>=◌, ◌>>◌, List, [], ◌∷◌, ◌++◌, Text, txt, trim, lower, ◌==◌, has_prefix, length, null,
  leb, ltb, nat_eq, lookup, every, take_while, drop_while, cut_prefix, split_on, is_digit,
}
use velm.Runtime.{GoRuntime}
use velm.Expression.{evaluate_boolean_expression}
use velm.Expression.Values.{parse_timestamp}
use velm.Schema.Numbers.{parse_int, Integer}
use velm.Schema.Identifiers.{is_valid_uuid}
use velm.Schema.DataTypes.{
  Column, normalize_data_type, base_data_type, is_data_type, is_one_of,
  normalize_auto_number_prefix, is_auto_number_prefix,
}

-- What the validator takes from the libraries: regexp.Compile with MatchString, whether
-- mail.ParseAddress has no error, and the scheme and host of url.ParseRequestURI.
pub record Grammars : Type 0 where
  pub compile : Text → Option (Text → Bool)
  pub is_address : Text → Bool
  pub parse_request_uri : Text → Option (Text × Text)

-- The messages of the errors, which also name the field.
pub data Problem : Type 0 where
  required not_integer not_number not_boolean not_uuid not_choice not_date not_timestamp not_email :
      Problem
  not_url not_phone invalid_prefix not_auto_number invalid_expression invalid_regex failed : Problem
  too_long : ℕ → Problem
  message : Text → Problem

-- (?i)^varchar\((\d+)\)$ and the Atoi of its digits, 0 where there is none
abbrev length_limit : Option Text → ℕ
length_limit none = 0
length_limit (some s) =
    let digits = take_while is_digit s in
    if drop_while is_digit s == txt ")"
    then elim (parse_int digits) [ none ↦ 0 | some n ↦ n.magnitude ]
    else 0

-- parseMaxLength of a data type in lower case
unfoldable pub parse_max_length : Text → ℕ
unfolding take_while drop_while parse_int txt ◌==◌ cut_prefix lower
parse_max_length data_type = length_limit (cut_prefix (lower data_type) (txt "varchar("))

-- the loop of looksLikePhoneNumber: the number of digits, `none` at any other character
unfoldable pub phone_digits : Text → Option ℕ
phone_digits [] = some 0
phone_digits (c ∷ s) =
    let rest = phone_digits s in
    if is_digit c
    then elim rest [ none ↦ none | some n ↦ some (ℕ.suc n) ]
    else if nat_eq c 43 || nat_eq c 45 || nat_eq c 32 || nat_eq c 40 || nat_eq c 41 || nat_eq c 46
    then rest
    else none

unfoldable pub looks_like_phone_number : Text → Bool
unfolding phone_digits
looks_like_phone_number value = elim (phone_digits value) [ none ↦ false | some n ↦ leb 6 n ]

-- the loops of validateEnum and validateChoices
unfoldable pub is_listed : Text → List Text → Bool
unfolding trim ◌==◌
is_listed value [] = false
is_listed value (item ∷ items) = trim item == value || is_listed value items

-- validateAutoNumberValue: ^PREFIX-[0-9]{6,}$ of the trimmed value
unfoldable pub is_auto_number : Text → Text → Bool
unfolding cut_prefix trim every txt
is_auto_number prefix value = elim (cut_prefix (trim value) (prefix ++ txt "-")) [
  | none ↦ false
  | some digits ↦ leb 6 (length digits) && every is_digit digits
]

abbrev check : Bool → Problem → Result Problem (Unit {0})
check b p = if b then ok tt else err p

module _ (go : GoRuntime) (grammars : Grammars) where
  -- the case of a URL
  abbrev is_url : Option (Text × Text) → Bool
  is_url none = false
  is_url (some (scheme, host)) = not (scheme == []) && not (host == [])

  -- the switch of validateDataType
  unfoldable pub validate_base_type :
      Text → Text → Text → List Text → Text → Result Problem (Unit {0})
  unfolding parse_int is_valid_uuid is_listed parse_timestamp looks_like_phone_number is_auto_number
      is_auto_number_prefix normalize_auto_number_prefix split_on cut_prefix lower txt ◌==◌
  validate_base_type base dt value choices prefix =
      if base == txt "int"
        || base == txt "integer"
        || base == txt "bigint"
        || base == txt "bigserial"
        || base == txt "serial"
      then check (is_some (parse_int value)) not_integer
      else if base == txt "float"
          || base == txt "double"
          || base == txt "decimal"
          || base == txt "numeric"
      then check (is_some (go.parse_float value)) not_number
      else if base == txt "bool" || base == txt "boolean"
      then check (lower value == txt "true" || lower value == txt "false") not_boolean
      else if base == txt "uuid" || base == txt "reference"
      then check (is_valid_uuid value) not_uuid
      else if base == txt "choice"
      then check (is_listed value choices) not_choice
      else if base == txt "date"
      then check (is_some (go.parse_time (txt "2006-01-02") value)) not_date
      else if base == txt "timestamp" || base == txt "timestamptz" || base == txt "datetime"
      then check (is_some (parse_timestamp go value)) not_timestamp
      else if base == txt "email"
      then check (grammars.is_address value) not_email
      else if base == txt "url"
      then check (is_url (grammars.parse_request_uri value)) not_url
      else if base == txt "phone"
      then check (looks_like_phone_number value) not_phone
      else if base == txt "autnumber"
      then (if is_auto_number_prefix (normalize_auto_number_prefix prefix)
          then check (is_auto_number (normalize_auto_number_prefix prefix) value) not_auto_number
          else err invalid_prefix)
      else elim (cut_prefix dt (txt "enum:")) [
        | none ↦ ok tt
        | some items ↦ check (is_listed value (split_on 124 items)) not_choice
      ]

  -- validateDataType
  unfoldable pub validate_data_type : Text → Text → List Text → Text → Result Problem (Unit {0})
  unfolding normalize_data_type base_data_type parse_max_length validate_base_type
  validate_data_type data_type value choices prefix =
      let dt = normalize_data_type data_type in
      let limit = parse_max_length dt in
      if ltb 0 limit && ltb limit (length value)
      then err (too_long limit)
      else validate_base_type (base_data_type dt) dt value choices prefix

  -- validateRegexRule
  unfoldable pub validate_regex_rule : Option Text → Text → Result Problem (Unit {0})
  unfolding trim ◌==◌
  validate_regex_rule none value = ok tt
  validate_regex_rule (some rule) value =
      if trim rule == [] then ok tt else elim (grammars.compile (trim rule)) [
        | none ↦ err invalid_regex
        | some matches ↦ check (matches value) failed
      ]

  module _ (now : go.Time) where
    -- validateExpressionRule
    unfoldable pub validate_expression_rule :
        Column → List (Text × Text) → Result Problem (Unit {0})
    unfolding trim ◌==◌ evaluate_boolean_expression
    validate_expression_rule column form = elim column.validation_expr [
      | none ↦ ok tt
      | some rule ↦
          if trim rule == []
          then ok tt
          else elim (evaluate_boolean_expression go now (trim rule) form column.name) [
            | err e ↦ err invalid_expression
            | ok b ↦ check b (
                if trim column.validation_msg == []
                then failed
                else message (trim column.validation_msg))
          ]
    ]

    -- conditionMatches: an expression that cannot be evaluated matches
    unfoldable pub condition_matches : Option Text → List (Text × Text) → Bool
    unfolding trim ◌==◌ evaluate_boolean_expression
    condition_matches none form = true
    condition_matches (some rule) form =
        if trim rule == []
        then true
        else elim (evaluate_boolean_expression go now (trim rule) form []) [
          | err e ↦ true
          | ok b ↦ b
        ]

    abbrev pub text_or_empty : Option Text → Text
    text_or_empty none = []
    text_or_empty (some s) = s

    -- whether a column must have a value, in a form that creates a record or has the field
    unfoldable pub must_have_value : Column → Bool → Bool
    unfolding is_data_type txt
    must_have_value column is_create =
        not column.is_nullable
        && not (is_some column.default_value)
        && not (is_create && is_data_type (txt "autnumber") column.data_type)

    -- the body of the loop for a column that is not the system's and whose condition matches
    unfoldable pub validate_value :
        Column → Bool → Option Text → List (Text × Text) → Result Problem (Unit {0})
    unfolding must_have_value trim ◌==◌ validate_expression_rule validate_data_type
        validate_regex_rule
    validate_value column is_create value form =
        let trimmed = trim (text_or_empty value) in
        if must_have_value column is_create && (is_create || is_some value) && trimmed == []
        then err required
        else if not (is_some value) || trimmed == []
        then validate_expression_rule column form
        else do
          validate_data_type column.data_type trimmed column.choices column.prefix
          validate_regex_rule column.validation_regex trimmed
          validate_expression_rule column form

    -- the body of the loop
    unfoldable pub validate_column : Bool → List (Text × Text) → Column → Result Problem (Unit {0})
    unfolding has_prefix txt condition_matches validate_value lookup
    validate_column is_create form column =
        if has_prefix column.name (txt "_")
        then ok tt
        else if not (condition_matches column.condition_expr form)
        then ok tt
        else validate_value column is_create (lookup column.name form) form

    -- ValidateFormWrite; an error names the column
    unfoldable pub validate_form_write :
        Bool → List (Text × Text) → List Column → Result (Text × Problem) (Unit {0})
    unfolding validate_column
    validate_form_write is_create form [] = ok tt
    validate_form_write is_create form (column ∷ columns) =
        let rest = validate_form_write is_create form columns in
        elim (validate_column is_create form column) [ err p ↦ err (column.name, p) | ok u ↦ rest ]
