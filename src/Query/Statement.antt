-- ===== src/Query/Statement.antt =====
-- table_query.go: the WHERE clause of a parsed filter, and the values of its placeholders.
pub mod Values
pub mod Shape
use velm.Base.{
  ℕ, zero, suc, ◌+◌, ◌/◌, ◌%◌, Bool, true, false, ◌&&◌, ◌||◌, if◌then◌else◌, Option, none, some,
  Result, ok, err, ◌>>=◌, List, [], ◌∷◌, ◌++◌, Text, txt, trim, lower, ◌==◌, length, ltb, nat_eq,
  null, keep, leb, is_digit, is_lower_letter, contains, insert, lookup, lower_byte, has_prefix,
}
use velm.Runtime.{GoRuntime}
use velm.Query.Syntax.{
  Token, Condition, Node, condition, both, either, Failure, unknown_column, not_queryable,
  invalid_time, invalid_number, invalid_boolean, is_comparison_operator,
}
use velm.Query.Scanner.{scan_query}
use velm.Query.Parser.{parse_query}

-- tableQueryColumn, its fields that the filter reads
pub record QueryColumn : Type 0 where
  pub name : Text
  pub label : Text
  pub is_date_like : Bool
  pub is_number : Bool
  pub is_boolean : Bool

-- the digits of a number, after at most that many divisions
unfoldable pub digits : ℕ → ℕ → Text
digits zero n = []
digits (suc f) n =
    let rest = digits f (n / 10) in if ltb n 10 then (48 + n) ∷ [] else rest ++ (48 + n % 10) ∷ []

-- fmt's %d
abbrev pub decimal_text : ℕ → Text
decimal_text n = digits (suc n) n

-- normalizeOperator
unfoldable pub normalize_operator : Text → Text
unfolding txt ◌==◌ is_comparison_operator
normalize_operator op =
    if is_comparison_operator op then (if op == txt "!=" then txt "<>" else op) else txt "="

-- normalizeQueryLookupKey
unfoldable pub lookup_key : Text → Text
unfolding keep lower trim
lookup_key raw = keep (λ c. is_lower_letter c || is_digit c) (lower (trim raw))

-- strings.ReplaceAll(value, "*", "%")
unfoldable pub wildcards : Text → Text
wildcards [] = []
wildcards (c ∷ s) = (if nat_eq c 42 then 37 else c) ∷ wildcards s

-- `CAST(column AS TEXT)`, and `$n`
unfoldable pub cast_text : Text → Text
unfolding txt
cast_text quoted = txt "CAST(" ++ quoted ++ txt " AS TEXT)"

unfoldable pub placeholder : ℕ → Text
unfolding txt digits
placeholder n = txt "$" ++ decimal_text n

module _ (go : GoRuntime) where
  -- an argument of the statement
  pub data Argument : Type 0 where
    text : Text → Argument
    number : go.Float → Argument
    truth : Bool → Argument
    instant : go.Time → Argument

  -- A piece of the statement, with all the arguments up to it.
  abbrev pub Built : Type 0
  Built = Result Failure (Text × List Argument)

  abbrev pub first_layout : Text → List Text → Option go.Time
  first_layout value [] = none
  first_layout value (layout ∷ layouts) = elim (go.parse_time layout value) [
    | some t ↦ some t
    | none ↦ first_layout value layouts
  ]

  -- parseDateLikeValue
  unfoldable pub parse_date_like_value : Text → Option go.Time
  unfolding txt trim
  parse_date_like_value raw = first_layout (trim raw) (
      txt "2006-01-02T15:04:05Z07:00"
      ∷ txt "2006-01-02T15:04"
      ∷ txt "2006-01-02 15:04"
      ∷ txt "2006-01-02"
      ∷ [])

  -- parseBoolValue
  unfoldable pub parse_bool_value : Text → Option Bool
  unfolding lower trim txt ◌==◌
  parse_bool_value raw =
      let v = lower (trim raw) in
      if v == txt "true" || v == txt "1" || v == txt "yes"
      then some true
      else if v == txt "false" || v == txt "0" || v == txt "no"
      then some false
      else none

  -- the comparison of a column as it stands with the next argument
  unfoldable pub plain_comparison : Text → Text → Argument → List Argument → Built
  unfolding normalize_operator placeholder txt
  plain_comparison quoted op value args = ok (
    quoted ++ txt " " ++ normalize_operator op ++ txt " " ++ placeholder (suc (length args)),
    args ++ value ∷ [],
  )

  -- fmt.Sprintf("LOWER(CAST(%s AS TEXT)) %s LOWER($%d)", …)
  abbrev lowered : Text → Text → ℕ → Text
  lowered quoted op n =
      txt "LOWER("
      ++ cast_text quoted
      ++ txt ") "
      ++ op
      ++ txt " LOWER("
      ++ placeholder n
      ++ txt ")"

  -- buildTextConditionSQL
  unfoldable pub text_comparison : Text → Text → Text → List Argument → Text × List Argument
  unfolding normalize_operator placeholder cast_text contains txt ◌==◌ wildcards
  text_comparison quoted op value args =
      let n = suc (length args) in
      if op == txt "=" || op == txt "!="
      then if contains value (txt "*")
        then (
          cast_text quoted
              ++ (if op == txt "!=" then txt " NOT ILIKE " else txt " ILIKE ")
              ++ placeholder n,
          args ++ text (wildcards value) ∷ [],
        )
        else (
          lowered quoted (if op == txt "!=" then txt "<>" else txt "=") n,
          args ++ text value ∷ [],
        )
      else (lowered quoted (normalize_operator op) n, args ++ text value ∷ [])

  -- the argument of a column that is not one of text, or the error
  abbrev pub typed : Failure → (Argument → Built) → Option Argument → Built
  typed failure build none = err failure
  typed failure build (some value) = build value

  abbrev pub as_argument {ℓ} : {A : Type ℓ} → (A → Argument) → Option A → Option Argument
  as_argument f none = none
  as_argument f (some a) = some (f a)

  -- the switch of buildConditionSQL
  unfoldable pub column_comparison : QueryColumn → Text → Condition → List Argument → Built
  unfolding trim parse_date_like_value parse_bool_value plain_comparison text_comparison
  column_comparison column quoted cond args =
      let value = trim cond.value in
      let plain : Argument → Built = λ v. plain_comparison quoted cond.operator v args in
      if column.is_date_like
      then typed (invalid_time column.name) plain
          (as_argument instant (parse_date_like_value value))
      else if column.is_number
      then typed (invalid_number column.name) plain (as_argument number (go.parse_float value))
      else if column.is_boolean
      then typed (invalid_boolean column.name) plain (as_argument truth (parse_bool_value value))
      else ok (text_comparison quoted cond.operator value args)

  abbrev pub known_column :
      List (Text × Text) → Condition → List Argument → Option QueryColumn → Built
  known_column quoted_columns cond args none = err (unknown_column cond.column)
  known_column quoted_columns cond args (some column) = elim (lookup column.name quoted_columns) [
    | none ↦ err (not_queryable cond.column)
    | some quoted ↦
        if quoted == []
        then err (not_queryable cond.column)
        else column_comparison column quoted cond args
  ]

  module _ (columns : List (Text × QueryColumn)) (quoted_columns : List (Text × Text)) where
    -- buildConditionSQL
    unfoldable pub condition_sql : Condition → List Argument → Built
    unfolding lookup_key column_comparison lookup ◌==◌
    condition_sql cond args =
        known_column quoted_columns cond args (lookup (lookup_key cond.column) columns)

    abbrev pub joined : Text → Text → Text × List Argument → Built
    joined word left (right, args) = ok (txt "(" ++ left ++ word ++ right ++ txt ")", args)

    -- buildStructuredQuerySQL
    unfoldable pub structured_sql : Node → List Argument → Built
    unfolding condition_sql txt
    structured_sql (condition c) args = condition_sql c args
    structured_sql (both l r) args =
        structured_sql l args >>= (λ left. structured_sql r left.1 >>= joined (txt " AND ") left.0)
    structured_sql (either l r) args =
        structured_sql l args >>= (λ left. structured_sql r left.1 >>= joined (txt " OR ") left.0)
