-- ===== src/Schema/Validation/Forms.antt =====
-- Which forms the validator lets through, and which column it complains of.
use velm.Base.{
  Bool, true, false, not, ◌&&◌, ◌||◌, if◌then◌else◌, ◌≡◌, ◌↔◌, ◌⊎◌, refl, Bool-cases, inl, inr,
  Option, none, some, is_some, Result, ok, err, ◌>>◌, List, [], ◌∷◌, Text, txt, trim, ◌==◌,
  has_prefix, lookup, All,
}
use velm.Runtime.{GoRuntime}
use velm.Schema.DataTypes.{Column}
use velm.Schema.Validation.{
  Grammars, Problem, required, validate_data_type, validate_regex_rule, validate_expression_rule,
  condition_matches, text_or_empty, must_have_value, validate_value, validate_column,
  validate_form_write,
}

done : {E : Type 0} (r : Result E (Unit {0})) → ((e : E) × (r ≡ err e)) ⊎ (r ≡ ok tt)
done (ok tt) = inr refl
done (err e) = inl (e, refl)

-- The order of the checks, over their answers.
checks :
    (missing present blank : Bool) (d p e : Result Problem (Unit {0}))
    → (present ≡ false → blank ≡ true)
    → ((if missing then err required else if not present || blank then e else d >> (p >> e))
        ≡ ok tt)
      ↔ ((missing ≡ false) × ((blank ≡ true) ⊎ ((d ≡ ok tt) × (p ≡ ok tt))) × (e ≡ ok tt))
checks true present blank d p e h = (λ q. cc, λ q. cc)
checks false present true d p e h = elim (Bool-cases present) [
  | inl q ↦ rw q (λ r. (refl, inl refl, r), λ (a, b, c). c)
  | inr q ↦ rw q (λ r. (refl, inl refl, r), λ (a, b, c). c)
]
checks false false false d p e h = cc (h refl)
checks false true false (err x) p e h = (λ q. cc, λ (a, b, c). elim b [ inl k ↦ cc | inr k ↦ cc ])
checks false true false (ok u) (err x) e h =
    (λ q. cc, λ (a, b, c). elim b [ inl k ↦ cc | inr k ↦ cc ])
checks false true false (ok u) (ok v) e h = (λ q. (refl, inr (refl, refl), q), λ (a, b, c). c)

module _ (go : GoRuntime) (grammars : Grammars) (now : go.Time) (is_create : Bool)
    (form : List (Text × Text)) where
  -- The value of a form for a column, without the space around it.
  abbrev pub given : Column → Text
  given column = trim (text_or_empty go grammars now (lookup column.name form))

  -- What a form must meet for a column: it is the system's, or its condition does not hold, or it has
  -- a value where it needs one, a value that it has is of its type and pattern, and its rule holds.
  abbrev pub IsAccepted : Column → Type 0
  IsAccepted column =
      (has_prefix column.name (txt "_") ≡ true)
      ⊎ (condition_matches go grammars now column.condition_expr form ≡ false)
      ⊎ (((must_have_value go grammars now column is_create
              && (is_create || is_some (lookup column.name form))
              && given column == [])
            ≡ false)
          × (((given column == []) ≡ true)
              ⊎ ((validate_data_type go grammars column.data_type (given column) column.choices
                      column.prefix
                    ≡ ok tt)
                  × (validate_regex_rule go grammars column.validation_regex (given column)
                      ≡ ok tt)))
          × (validate_expression_rule go grammars now column form ≡ ok tt))

  absent_is_blank :
      (v : Option Text) → is_some v ≡ false → (trim (text_or_empty go grammars now v) == []) ≡ true
  unfolding trim ◌==◌
  absent_is_blank none h = refl
  absent_is_blank (some s) h = cc

  validate_value_iff :
      (column : Column)
      → (validate_value go grammars now column is_create (lookup column.name form) form ≡ ok tt) ↔ (
          ((must_have_value go grammars now column is_create
              && (is_create || is_some (lookup column.name form))
              && given column == [])
            ≡ false)
          × (((given column == []) ≡ true)
              ⊎ ((validate_data_type go grammars column.data_type
                      (given column)
                      column.choices
                      column.prefix
                    ≡ ok tt)
                  × (validate_regex_rule go grammars column.validation_regex (given column)
                      ≡ ok tt)))
          × (validate_expression_rule go grammars now column form ≡ ok tt))
  unfolding validate_value
  validate_value_iff column =
      checks _ (is_some (lookup column.name form)) (given column == []) _ _ _
        (absent_is_blank (lookup column.name form))

  validate_column_iff :
      (column : Column)
      → (validate_column go grammars now is_create form column ≡ ok tt) ↔ IsAccepted column
  unfolding validate_column
  validate_column_iff column = elim (Bool-cases (has_prefix column.name (txt "_"))) [
    | inl system ↦ rw system (λ h. inl refl, λ h. refl)
    | inr plain ↦ elim (Bool-cases (condition_matches go grammars now column.condition_expr form)) [
      | inr unmet ↦ rw (plain, unmet) (λ h. inr (inl refl), λ h. refl)
      | inl met ↦
          rw (plain, met)
            (
              λ h. inr (inr ((validate_value_iff column).0 h)),
              λ h. elim h [
                | inl bad ↦ cc
                | inr (inl bad) ↦ cc
                | inr (inr good) ↦ (validate_value_iff column).1 good
              ],
            )
    ]
  ]

  -- A form passes exactly if each column accepts it.
  pub validate_form_write_iff :
      (columns : List Column)
      → (validate_form_write go grammars now is_create form columns ≡ ok tt)
        ↔ All IsAccepted columns
  unfolding validate_form_write
  validate_form_write_iff [] = (λ h. tt, λ h. refl)
  validate_form_write_iff (column ∷ columns) =
      elim (done (validate_column go grammars now is_create form column)) [
        | inl (p, e) ↦ rw e (λ h. cc, λ (h, k). cc (e, (validate_column_iff column).1 h))
        | inr e ↦ rw e (
          λ h. ((validate_column_iff column).0 e, (validate_form_write_iff columns).0 h),
          λ (h, k). (validate_form_write_iff columns).1 k,
        )
      ]
