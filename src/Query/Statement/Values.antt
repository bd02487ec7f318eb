-- ===== src/Query/Statement/Values.antt =====
-- The arguments of a filter's WHERE clause.
use velm.Base.{
  ◌&&◌, ◌||◌, if◌then◌else◌, ◌≡◌, refl, sym, ap, ◌∙◌, Option, none, some, Result, ok, err, ◌>>=◌,
  List, [], ◌∷◌, ◌++◌, Text, txt, trim, ◌==◌, contains, lookup, Bool-cases, inl, inr,
}
use velm.Runtime.{GoRuntime}
use velm.Query.Syntax.{
  Condition, Node, condition, both, either, Failure, invalid_time, invalid_number, invalid_boolean,
  not_queryable,
}
use velm.Query.Statement.{
  QueryColumn, lookup_key, wildcards, parse_date_like_value, parse_bool_value, Argument, text,
  number, truth, instant, plain_comparison, text_comparison, typed, as_argument, column_comparison,
  known_column, joined, structured_sql,
}

-- The conditions of a filter, in the order in which they are written.
unfoldable pub conditions : Node → List Condition
conditions (condition c) = c ∷ []
conditions (both l r) = conditions l ++ conditions r
conditions (either l r) = conditions l ++ conditions r

abbrev map_some {ℓ κ} : {A : Type ℓ} {B : Type κ} → (A → B) → Option A → Option B
map_some f none = none
map_some f (some a) = some (f a)

module _ (go : GoRuntime) where
  -- The value that a condition compares a column with: by the column's type, with % for the * of a text
  -- that is compared for equality.
  abbrev pub value_for : QueryColumn → Condition → Option (Argument go)
  value_for column c =
      let value = trim c.value in
      if column.is_date_like
      then as_argument go instant (parse_date_like_value go value)
      else if column.is_number
      then as_argument go number (go.parse_float value)
      else if column.is_boolean
      then as_argument go truth (parse_bool_value go value)
      else if (c.operator == txt "=" || c.operator == txt "!=") && contains value (txt "*")
      then some (text (wildcards value))
      else some (text value)

  module _ (columns : List (Text × QueryColumn)) (quoted_columns : List (Text × Text)) where
    abbrev value_in : Condition → Option QueryColumn → Option (Argument go)
    value_in c none = none
    value_in c (some column) = elim (lookup column.name quoted_columns) [
      | none ↦ none
      | some quoted ↦ if quoted == [] then none else value_for column c
    ]

    abbrev pub value_of : Condition → Option (Argument go)
    value_of c = value_in c (lookup (lookup_key c.column) columns)

    abbrev pub after : List (Argument go) → Option (Argument go) → Option (List (Argument go))
    after args none = none
    after args (some v) = some (args ++ v ∷ [])

    -- The values of all the conditions behind the arguments before them, if each has a value.
    unfoldable pub values : List (Argument go) → List Condition → Option (List (Argument go))
    values args [] = some args
    values args (c ∷ cs) = elim (value_of c) [ none ↦ none | some v ↦ values (args ++ v ∷ []) cs ]

    abbrev pub arguments :
        Result {0, 0} Failure (Text × List (Argument go)) → Option (List (Argument go))
    arguments (ok r) = some r.1
    arguments (err e) = none

    typed-arguments :
        (failure : Failure) (quoted op : Text) (args : List (Argument go))
        (v : Option (Argument go))
        → arguments (typed go failure (λ v. plain_comparison go quoted op v args) v) ≡ after args v
    unfolding plain_comparison
    typed-arguments failure quoted op args none = refl
    typed-arguments failure quoted op args (some v) = refl

    text_comparison-arguments :
        (quoted op value : Text) (args : List (Argument go))
        → some (text_comparison go quoted op value args).1
          ≡ after args (
              if (op == txt "=" || op == txt "!=") && contains value (txt "*")
              then some (text (wildcards value))
              else some (text value))
    unfolding text_comparison
    text_comparison-arguments quoted op value args =
        elim (Bool-cases (op == txt "=" || op == txt "!=")) [
          | inl e ↦ elim (Bool-cases (contains value (txt "*"))) [
            | inl f ↦ rw (e, f) refl
            | inr f ↦ rw (e, f) refl
          ]
          | inr e ↦ rw e refl
        ]

    column_comparison-arguments :
        (column : QueryColumn) (quoted : Text) (c : Condition) (args : List (Argument go))
        → arguments (column_comparison go column quoted c args) ≡ after args (value_for column c)
    unfolding column_comparison
    column_comparison-arguments column quoted c args = elim (Bool-cases column.is_date_like) [
      | inl e ↦ rw e (typed-arguments (invalid_time column.name) quoted c.operator args _)
      | inr e ↦ elim (Bool-cases column.is_number) [
        | inl f ↦ rw (e, f) (typed-arguments (invalid_number column.name) quoted c.operator args _)
        | inr f ↦ elim (Bool-cases column.is_boolean) [
          | inl g ↦
              rw (e, f, g) (typed-arguments (invalid_boolean column.name) quoted c.operator args _)
          | inr g ↦ rw (e, f, g) (text_comparison-arguments quoted c.operator (trim c.value) args)
        ]
      ]
    ]

    known_column-arguments :
        (c : Condition) (args : List (Argument go)) (column : Option QueryColumn)
        → arguments (known_column go quoted_columns c args column) ≡ after args (value_in c column)
    known_column-arguments c args none = refl
    known_column-arguments c args (some column) = go_on (lookup column.name quoted_columns)
      where
        go_on :
            (q : Option Text)
            → arguments (elim q [
              | none ↦ err (not_queryable c.column)
              | some quoted ↦
                  if quoted == []
                  then err (not_queryable c.column)
                  else column_comparison go column quoted c args
            ])
              ≡ after args (elim q [
                | none ↦ none
                | some quoted ↦ if quoted == [] then none else value_for column c
              ])
        go_on none = refl
        go_on (some quoted) = elim (Bool-cases (quoted == [])) [
          | inl e ↦ rw e refl
          | inr e ↦ rw e (column_comparison-arguments column quoted c args)
        ]

    values_one :
        (c : Condition) (args : List (Argument go)) → after args (value_of c) ≡ values args (c ∷ [])
    unfolding values
    values_one c args = go_on (value_of c)
      where
        go_on :
            (v : Option (Argument go))
            → after args v ≡ elim v [ none ↦ none | some v ↦ some (args ++ v ∷ []) ]
        go_on none = refl
        go_on (some v) = refl

    abbrev continued :
        (List (Argument go) → Option (List (Argument go)))
        → Option (List (Argument go))
        → Option (List (Argument go))
    continued f none = none
    continued f (some args) = f args

    values-++ :
        (args : List (Argument go)) (cs ds : List Condition)
        → values args (cs ++ ds) ≡ continued (λ more. values more ds) (values args cs)
    unfolding values
    values-++ args [] ds = refl
    values-++ args (c ∷ cs) ds = go_on (value_of c) (λ v. values-++ (args ++ v ∷ []) cs ds)
      where
        go_on :
            (v : Option (Argument go))
            → ((v : Argument go)
                → values (args ++ v ∷ []) (cs ++ ds)
                  ≡ continued (λ more. values more ds) (values (args ++ v ∷ []) cs))
            → elim v [ none ↦ none | some v ↦ values (args ++ v ∷ []) (cs ++ ds) ]
              ≡ continued
                  (λ more. values more ds)
                  (elim v [ none ↦ none | some v ↦ values (args ++ v ∷ []) cs ])
        go_on none h = refl
        go_on (some v) h = h v

    joined-arguments :
        (word left : Text) (r : Result {0, 0} Failure (Text × List (Argument go)))
        → arguments (r >>= joined go columns quoted_columns word left) ≡ arguments r
    joined-arguments word left (ok r) = refl
    joined-arguments word left (err e) = refl

    pair-arguments :
        (word : Text) (cs : List Condition) (l : Result {0, 0} Failure (Text × List (Argument go)))
        (r : List (Argument go) → Result {0, 0} Failure (Text × List (Argument go)))
        → ((more : List (Argument go)) → arguments (r more) ≡ values more cs)
        → arguments (l >>= (λ left. r left.1 >>= joined go columns quoted_columns word left.0))
          ≡ continued (λ more. values more cs) (arguments l)
    pair-arguments word cs (err e) r h = refl
    pair-arguments word cs (ok (left, more)) r h = joined-arguments word left (r more) ∙ h more

    -- A filter has a WHERE clause if and only if each of its conditions has a value: a known column that
    -- can be queried, and a value of its type. Its arguments are then the ones before it and the values
    -- of the conditions in the order of the filter, one for each.
    pub structured_sql-values :
        (node : Node) (args : List (Argument go))
        → arguments (structured_sql go columns quoted_columns node args)
          ≡ values args (conditions node)
    unfolding structured_sql conditions
    structured_sql-values (condition c) args =
        known_column-arguments c args (lookup (lookup_key c.column) columns) ∙ values_one c args
    structured_sql-values (both l r) args =
        pair-arguments (txt " AND ") (conditions r)
          (structured_sql go columns quoted_columns l args) _ (structured_sql-values r)
        ∙ ap (continued (λ more. values more (conditions r))) (structured_sql-values l args)
        ∙ sym (values-++ args (conditions l) (conditions r))
    structured_sql-values (either l r) args =
        pair-arguments (txt " OR ") (conditions r) (structured_sql go columns quoted_columns l args)
          _ (structured_sql-values r)
        ∙ ap (continued (λ more. values more (conditions r))) (structured_sql-values l args)
        ∙ sym (values-++ args (conditions l) (conditions r))
