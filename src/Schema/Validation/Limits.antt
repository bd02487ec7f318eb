-- ===== src/Schema/Validation/Limits.antt =====
-- The size of the values that pass.
use velm.Base.{
  ℕ, Bool, true, false, ◌&&◌, ◌≡◌, ◌≤◌, ◌<◌, arith, Bool-cases, inl, inr, ok, List, [], ◌∷◌, ◌++◌,
  Text, txt, ◌==◌, has_prefix, length, All, ltb,
}
use velm.Runtime.{GoRuntime}
use velm.Schema.DataTypes.{Column, normalize_data_type}
use velm.Schema.Validation.{
  Grammars, parse_max_length, validate_data_type, condition_matches, validate_form_write,
}
use velm.Schema.Validation.Forms.{given, IsAccepted, validate_form_write_iff}

All-middle :
    {A : Type 0} (P : A → Type 0) (before : List A) (x : A) (after : List A)
    → All P (before ++ x ∷ after)
    → P x
All-middle P [] x after (p, h) = p
All-middle P (y ∷ before) x after (p, h) = All-middle P before x after h

not_over : (limit size : ℕ) → (ltb 0 limit && ltb limit size) ≡ false → 0 < limit → size ≤ limit
not_over limit size h pos = ground arith

module _ (go : GoRuntime) (grammars : Grammars) where
  within_limit :
      (data_type value : Text) (choices : List Text) (prefix : Text)
      → validate_data_type go grammars data_type value choices prefix ≡ ok tt
      → 0 < parse_max_length (normalize_data_type data_type)
      → length value ≤ parse_max_length (normalize_data_type data_type)
  unfolding validate_data_type
  within_limit data_type value choices prefix h pos =
      elim (Bool-cases (
        ltb 0 (parse_max_length (normalize_data_type data_type))
        && ltb (parse_max_length (normalize_data_type data_type)) (length value))) [
          | inl over ↦ cc (rw over at h)
          | inr fits ↦ not_over _ _ fits pos
        ]

  -- In a form that passes, the value that the form gives for a column, without the blanks around it, is
  -- not longer, in bytes, than the size of the column's type, if its type has a size. The column is not
  -- the system's, its condition holds, and the value is not blank. Nothing is said of the blanks.
  pub validated_length :
      (now : go.Time) (is_create : Bool) (form : List (Text × Text)) (before : List Column)
      (column : Column) (after : List Column)
      → validate_form_write go grammars now is_create form (before ++ column ∷ after) ≡ ok tt
      → has_prefix column.name (txt "_") ≡ false
      → condition_matches go grammars now column.condition_expr form ≡ true
      → (given go grammars now is_create form column == []) ≡ false
      → 0 < parse_max_length (normalize_data_type column.data_type)
      → length (given go grammars now is_create form column)
        ≤ parse_max_length (normalize_data_type column.data_type)
  validated_length now is_create form before column after h plain met filled pos =
      elim (All-middle (IsAccepted go grammars now is_create form) before column after
        ((validate_form_write_iff go grammars now is_create form (before ++ column ∷ after)).0 h)) [
          | inl system ↦ absurd (cc (system, plain))
          | inr (inl unmet) ↦ absurd (cc (unmet, met))
          | inr (inr (a, b, c)) ↦ elim b [
            | inl blank ↦ absurd (cc (blank, filled))
            | inr (typed, matched) ↦ within_limit column.data_type _ _ _ typed pos
          ]
        ]
