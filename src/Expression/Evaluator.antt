-- ===== src/Expression/Evaluator.antt =====
-- ExpressionEval.go: the methods `eval` of the tree's nodes, and the functions that a call names.
pub mod Fields
pub mod Logic
use velm.Base.{ℕ, zero, suc, ◌+◌, Bool, true, false, not, ◌&&◌, ◌||◌, ltb, leb, Option, none, some}
use velm.Base.{Result, ok, err, ◌>>=◌, List, [], ◌∷◌, if◌then◌else◌}
use velm.Base.{Text, txt, trim, lower, upper, ◌==◌, lookup, contains, has_prefix}
use mathlib.Core.List.{reverse}
use velm.Runtime.{GoRuntime}
use velm.Expression.Syntax.{
  Node, text, numeral, truth, name, unary, binary, call, Args, no_args, arg,
}
use velm.Expression.Syntax.{
  Failure, not_numeric, unsupported_unary, wrong_arity, unsupported_function,
}
use velm.Expression.Values
use velm.Expression.Values.{Value, str, num, bool, instant, truthy, raw_string, string_value}
use velm.Expression.Values.{coerce_number, compare_values}

-- len([]rune(s)) of a valid UTF-8 text: the bytes that continue no character
unfoldable pub rune_count : Text → ℕ
rune_count [] = 0
rune_count (c ∷ s) = if leb 128 c && ltb c 192 then rune_count s else suc (rune_count s)

-- strings.HasSuffix
unfoldable pub has_suffix : Text → Text → Bool
unfolding has_prefix
has_suffix s t = has_prefix (reverse s) (reverse t)

module _ (go : GoRuntime) where
  abbrev pub V : Type 0
  V = Value go.Float go.Time

  -- expressionContext
  pub record Context : Type 0 where
    pub form_data : List (Text × Text)
    pub current_field : Text
    pub current_time : go.Time

  -- the context that evaluateBooleanExpression builds
  abbrev pub context : List (Text × Text) → Text → go.Time → Context
  context data_of field now = record {
    form_data = data_of;
    current_field = trim field;
    current_time = now;
  }

  -- `ctx.formData[ctx.currentField]`, empty for a missing key
  abbrev pub or_empty : Option Text → Text
  or_empty none = []
  or_empty (some v) = v

  -- the lookup of a name that is not `value`: as it stands, then normalised, else the name itself
  abbrev pub field_value : List (Text × Text) → Text → Text
  field_value form key = elim (lookup key form) [
    | some v ↦ v
    | none ↦
        if lower (trim key) == []
        then key
        else elim (lookup (lower (trim key)) form) [ some v ↦ v | none ↦ key ]
  ]

  -- expressionIdentifierNode.eval
  unfoldable pub eval_name : Context → Text → V
  unfolding string_value txt
  eval_name ctx n =
      let key = trim n in
      if lower key == txt "value" && not (ctx.current_field == [])
      then string_value go (or_empty (lookup ctx.current_field ctx.form_data))
      else string_value go (field_value ctx.form_data key)

  -- expressionUnaryNode.eval, after its operand
  unfoldable pub apply_unary : Text → V → Result Failure V
  unfolding truthy coerce_number txt ◌==◌
  apply_unary op v =
      if op == txt "!"
      then ok (bool (not (truthy go v)))
      else if op == txt "-"
      then elim (coerce_number go v) [ some x ↦ ok (num (go.negate x)) | none ↦ err not_numeric ]
      else err (unsupported_unary op)

  -- the functions by the number of their arguments
  abbrev no_arguments : Text → List V → V → Result Failure V
  no_arguments f [] v = ok v
  no_arguments f (a ∷ args) v = err (wrong_arity f)

  abbrev one_argument : Text → List V → (Text → V) → Result Failure V
  one_argument f (a ∷ []) g = ok (g (raw_string go a))
  one_argument f args g = err (wrong_arity f)

  abbrev two_arguments : Text → List V → (Text → Text → Bool) → Result Failure V
  two_arguments f (a ∷ b ∷ []) g = ok (bool (g (raw_string go a) (raw_string go b)))
  two_arguments f args g = err (wrong_arity f)

  -- expressionCallNode.eval, after its arguments
  unfoldable pub apply_function : Context → Text → List V → Result Failure V
  unfolding txt ◌==◌ raw_string string_value rune_count has_suffix contains has_prefix
  apply_function ctx n args =
      let f = lower (trim n) in
      if f == txt "len"
      then one_argument f args (λ s. num (go.float_of (rune_count s)))
      else if f == txt "lower"
      then one_argument f args (λ s. string_value go (lower s))
      else if f == txt "upper"
      then one_argument f args (λ s. string_value go (upper s))
      else if f == txt "trim"
      then one_argument f args (λ s. string_value go (trim s))
      else if f == txt "empty"
      then one_argument f args (λ s. bool (trim s == []))
      else if f == txt "contains"
      then two_arguments f args (λ s t. contains s t)
      else if f == txt "startswith"
      then two_arguments f args (λ s t. has_prefix s t)
      else if f == txt "endswith"
      then two_arguments f args (λ s t. has_suffix s t)
      else if f == txt "now"
      then no_arguments f args (instant ctx.current_time)
      else if f == txt "today"
      then no_arguments f args (instant (go.start_of_day ctx.current_time))
      else err (unsupported_function n)

  unfoldable mutual
    unfolding truthy eval_name apply_unary apply_function string_value compare_values txt ◌==◌

    -- eval
    pub eval : Context → Node go.Float → Result Failure V
    eval ctx (text s) = ok (str s)
    eval ctx (numeral x) = ok (num x)
    eval ctx (truth b) = ok (bool b)
    eval ctx (name n) = ok (eval_name ctx n)
    eval ctx (unary op operand) = do v ← eval ctx operand; apply_unary op v
    eval ctx (binary op left right) =
        let l = eval ctx left in
        let r = eval ctx right in
        if op == txt "&&"
        then (do
          a ← l
          if truthy go a then (do b ← r; ok (bool (truthy go b))) else ok (bool false))
        else if op == txt "||"
        then (do a ← l; if truthy go a then ok (bool true) else do b ← r; ok (bool (truthy go b)))
        else do a ← l; b ← r; matched ← compare_values go a b op; ok (bool matched)
    eval ctx (call n args) = do values ← eval_args ctx args; apply_function ctx n values

    pub eval_args : Context → Args go.Float → Result Failure (List V)
    eval_args ctx no_args = ok []
    eval_args ctx (arg first later) = do v ← eval ctx first; vs ← eval_args ctx later; ok (v ∷ vs)
