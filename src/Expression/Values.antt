-- ===== src/Expression/Values.antt =====
-- ExpressionEval.go: values, their coercions and the comparison operators.
pub mod Comparison
use velm.Base.{
  ℕ, Bool, true, false, not, ◌&&◌, ◌||◌, Option, none, some, Result, ok, err, if◌then◌else◌,
}
use velm.Base.{List, [], ◌∷◌, Text, txt, trim, lower, ◌==◌, text_lt}
use velm.Runtime.{GoRuntime}
use velm.Expression.Syntax.{Failure, unsupported_comparison, no_boolean_order}

-- expressionValue: its kind with the one field that the kind reads
pub data Value (F T : Type 0) : Type 0 where
  str : Text → Value F T
  num : F → Value F T
  bool : Bool → Value F T
  instant : T → Value F T

bool_text : Bool → Text
unfolding txt
bool_text true = txt "true"
bool_text false = txt "false"

-- the relations that a comparison operator stands for
pub data Relation : Type 0 where
  equal different less less_equal greater greater_equal : Relation

-- the cases of the `switch op` blocks
unfoldable pub relation? : Text → Option Relation
unfolding txt ◌==◌
relation? op =
    if op == txt "=" || op == txt "=="
    then some equal
    else if op == txt "!="
    then some different
    else if op == txt "<"
    then some less
    else if op == txt "<="
    then some less_equal
    else if op == txt ">"
    then some greater
    else if op == txt ">="
    then some greater_equal
    else none

-- `left op right` from the three answers that the operators are built of
abbrev pub decide_by : Relation → (eq lt le gt ge : Bool) → Bool
decide_by equal eq lt le gt ge = eq
decide_by different eq lt le gt ge = not eq
decide_by less eq lt le gt ge = lt
decide_by less_equal eq lt le gt ge = le
decide_by greater eq lt le gt ge = gt
decide_by greater_equal eq lt le gt ge = ge

-- `b` where `a` is given, and the pair of both
abbrev pub both {ℓ κ} : {A : Type ℓ} {B : Type κ} → Option A → Option B → Option (A × B)
both none b = none
both (some x) none = none
both (some x) (some y) = some (x, y)

module _ (go : GoRuntime) where
  abbrev pub V : Type 0
  V = Value go.Float go.Time

  -- newExpressionStringValue
  unfoldable pub string_value : Text → V
  string_value s = str (trim s)

  -- rawString
  unfoldable pub raw_string : V → Text
  unfolding bool_text txt
  raw_string (bool b) = bool_text b
  raw_string (num x) = go.format_float x
  raw_string (instant t) = go.format_time (txt "2006-01-02T15:04:05Z07:00") t
  raw_string (str s) = trim s

  -- expressionTruthy
  unfoldable pub truthy : V → Bool
  unfolding txt ◌==◌
  truthy (bool b) = b
  truthy (num x) = not (go.float_eq x (go.float_of 0))
  truthy (instant t) = not (go.time_is_zero t)
  truthy (str s) =
      let key = lower (trim (trim s)) in
      not (
        key == txt ""
        || key == txt "0"
        || key == txt "false"
        || key == txt "no"
        || key == txt "off")

  -- coerceExpressionBool
  unfoldable pub coerce_bool : V → Option Bool
  unfolding txt ◌==◌
  coerce_bool (bool b) = some b
  coerce_bool (str s) =
      let key = lower (trim s) in
      if key == txt "true" || key == txt "1" || key == txt "yes" || key == txt "on"
      then some true
      else if key == txt "false"
          || key == txt "0"
          || key == txt "no"
          || key == txt "off"
          || key == txt ""
      then some false
      else none
  coerce_bool (num x) = none
  coerce_bool (instant t) = none

  -- coerceExpressionNumber
  unfoldable pub coerce_number : V → Option go.Float
  coerce_number (num x) = some x
  coerce_number (str s) = go.parse_float (trim s)
  coerce_number (bool b) = none
  coerce_number (instant t) = none

  -- the first layout of a list by which a text can be read
  parse_layouts : List Text → Text → Option go.Time
  parse_layouts [] s = none
  parse_layouts (layout ∷ more) s = elim (go.parse_time layout s) [
    | some t ↦ some t
    | none ↦ parse_layouts more s
  ]

  -- parseTimestamp of Validation.go
  unfoldable pub parse_timestamp : Text → Option go.Time
  unfolding parse_layouts txt
  parse_timestamp =
      parse_layouts
        (txt "2006-01-02T15:04:05Z07:00" ∷ txt "2006-01-02T15:04" ∷ txt "2006-01-02 15:04:05" ∷ [])

  -- coerceExpressionTime
  unfoldable pub coerce_time : V → Option go.Time
  unfolding txt ◌==◌
  coerce_time (instant t) = some t
  coerce_time (str s) = if trim s == txt "" then none else elim (parse_timestamp (trim s)) [
    | some t ↦ some t
    | none ↦ go.parse_time (txt "2006-01-02") (trim s)
  ]
  coerce_time (num x) = none
  coerce_time (bool b) = none

  -- the answer of the first block of the comparison, for two Booleans
  compare_bools : Text → Bool × Bool → Result Failure Bool
  compare_bools op (a, b) = elim (relation? op) [
    | some equal ↦ ok ((a && b) || (not a && not b))
    | some different ↦ ok ((a && not b) || (not a && b))
    | _ ↦ err (no_boolean_order op)
  ]

  -- the other blocks; a block that does not know the operator falls through to the next
  abbrev compare_numbers : Relation → go.Float × go.Float → Bool
  compare_numbers r (a, b) =
      decide_by r (go.float_eq a b) (go.float_lt a b) (go.float_le a b) (go.float_lt b a)
        (go.float_le b a)

  abbrev compare_times : Relation → go.Time × go.Time → Bool
  compare_times r (a, b) =
      decide_by r (go.time_equal a b) (go.before a b) (go.before a b || go.time_equal a b)
        (go.before b a) (go.before b a || go.time_equal a b)

  abbrev compare_texts : Relation → Text → Text → Bool
  compare_texts r a b =
      decide_by r (a == b) (text_lt a b) (text_lt a b || a == b) (text_lt b a)
        (text_lt b a || a == b)

  unfoldable pub compare_as : Relation → V → V → Bool
  compare_as r left right = elim (both (coerce_number left) (coerce_number right)) [
    | some numbers ↦ compare_numbers r numbers
    | none ↦ elim (both (coerce_time left) (coerce_time right)) [
      | some times ↦ compare_times r times
      | none ↦ compare_texts r (raw_string left) (raw_string right)
    ]
  ]

  -- compareExpressionValues
  unfoldable pub compare_values : V → V → Text → Result Failure Bool
  unfolding compare_bools
  compare_values left right op = elim (both (coerce_bool left) (coerce_bool right)) [
    | some pair ↦ compare_bools op pair
    | none ↦ elim (relation? op) [
      | some r ↦ ok (compare_as r left right)
      | none ↦ err (unsupported_comparison op)
    ]
  ]
