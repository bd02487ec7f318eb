-- ===== src/Query/Filter/Total.antt =====
-- When the clause of a filter is answered.
use velm.Base.{
  Avoids, Avoids-ne, ne-Avoids, Avoids-bind, ℕ, suc, Bool, true, false, not, ◌≡◌, ◌≢◌, arith, inl,
  inr, Bool-cases, Option, none, some, Result, err, ◌>>=◌, List, [], Text, txt, trim, ◌==◌, length,
  lookup, if◌then◌else◌,
}
use velm.Runtime.{GoRuntime}
use velm.Query.Syntax.{
  Condition, Node, condition, both, either, Failure, not_queryable, out_of_fuel,
}
use velm.Query.Scanner.{scan_query}
use velm.Query.Scanner.Fuel.{has_lone_bang, scan_query-Avoids}
use velm.Query.Parser.{parse_query}
use velm.Query.Parser.Fuel.{parse_query_total}
use velm.Query.Statement.{
  QueryColumn, lookup_key, Argument, typed, plain_comparison, column_comparison, known_column,
  joined, structured_sql,
}
use velm.Query.Filter.{
  columns_by_key, looks_like_structured_query, structured_clause, table_where_clause,
}

chosen-Avoids :
    {A : Type 0} (a b : Bool) (x y z : Result {0, 0} Failure A)
    → Avoids out_of_fuel x
    → Avoids out_of_fuel y
    → Avoids out_of_fuel z
    → Avoids out_of_fuel (if a then x else if b then y else z)
chosen-Avoids true b x y z h k l = h
chosen-Avoids false true x y z h k l = k
chosen-Avoids false false x y z h k l = l

module _ (go : GoRuntime) where
  typed-Avoids :
      (failure : Failure) (quoted op : Text) (args : List (Argument go)) (v : Option (Argument go))
      → failure ≢ out_of_fuel
      → Avoids out_of_fuel (typed go failure (λ v. plain_comparison go quoted op v args) v)
  unfolding plain_comparison
  typed-Avoids failure quoted op args none h = h
  typed-Avoids failure quoted op args (some v) h = tt

  column_comparison-Avoids :
      (column : QueryColumn) (quoted : Text) (c : Condition) (args : List (Argument go))
      → Avoids out_of_fuel (column_comparison go column quoted c args)
  unfolding column_comparison
  column_comparison-Avoids column quoted c args = elim (Bool-cases column.is_date_like) [
    | inl e ↦ rw e (typed-Avoids _ quoted c.operator args _ (λ x. cc))
    | inr e ↦ elim (Bool-cases column.is_number) [
      | inl f ↦ rw (e, f) (typed-Avoids _ quoted c.operator args _ (λ x. cc))
      | inr f ↦ elim (Bool-cases column.is_boolean) [
        | inl g ↦ rw (e, f, g) (typed-Avoids _ quoted c.operator args _ (λ x. cc))
        | inr g ↦ rw (e, f, g) tt
      ]
    ]
  ]

  module _ (columns : List (Text × QueryColumn)) (quoted_columns : List (Text × Text)) where
    known_column-Avoids :
        (c : Condition) (args : List (Argument go)) (column : Option QueryColumn)
        → Avoids out_of_fuel (known_column go quoted_columns c args column)
    known_column-Avoids c args none = λ x. cc
    known_column-Avoids c args (some column) = go_on (lookup column.name quoted_columns)
      where
        go_on :
            (q : Option Text)
            → Avoids out_of_fuel (elim q [
              | none ↦ err (not_queryable c.column)
              | some quoted ↦
                  if quoted == []
                  then err (not_queryable c.column)
                  else column_comparison go column quoted c args
            ])
        go_on none = λ x. cc
        go_on (some quoted) = elim (Bool-cases (quoted == [])) [
          | inl e ↦ rw e (λ x. cc)
          | inr e ↦ rw e (column_comparison-Avoids column quoted c args)
        ]

    pair-Avoids :
        (word : Text) (l : Result {0, 0} Failure (Text × List (Argument go)))
        (r : List (Argument go) → Result {0, 0} Failure (Text × List (Argument go)))
        → Avoids out_of_fuel l
        → ((args : List (Argument go)) → Avoids out_of_fuel (r args))
        → Avoids out_of_fuel
            (l >>= (λ left. r left.1 >>= joined go columns quoted_columns word left.0))
    pair-Avoids word l r h k =
        Avoids-bind out_of_fuel l _ h
          (λ left. Avoids-bind out_of_fuel (r left.1) _ (k left.1) (λ p. tt))

    structured_sql-Avoids :
        (node : Node) (args : List (Argument go))
        → Avoids out_of_fuel (structured_sql go columns quoted_columns node args)
    unfolding structured_sql
    structured_sql-Avoids (condition c) args =
        known_column-Avoids c args (lookup (lookup_key c.column) columns)
    structured_sql-Avoids (both l r) args =
        pair-Avoids (txt " AND ") _ _ (structured_sql-Avoids l args) (structured_sql-Avoids r)
    structured_sql-Avoids (either l r) args =
        pair-Avoids (txt " OR ") _ _ (structured_sql-Avoids l args) (structured_sql-Avoids r)

  module _ (columns : List QueryColumn) (quoted_columns : List (Text × Text)) where
    structured-Avoids :
        (fuel : ℕ) (filter : Text) (by_key : List (Text × QueryColumn))
        → Avoids out_of_fuel (scan_query fuel filter)
        → Avoids out_of_fuel (
            scan_query fuel filter
            >>= parse_query
            >>= (λ root. structured_sql go by_key quoted_columns root [])
            >>= structured_clause go)
    structured-Avoids fuel filter by_key h =
        Avoids-bind out_of_fuel _ (structured_clause go)
          (Avoids-bind out_of_fuel _ (λ root. structured_sql go by_key quoted_columns root [])
            (Avoids-bind out_of_fuel (scan_query fuel filter) parse_query h
              (λ ts. ne-Avoids out_of_fuel (parse_query ts) (parse_query_total ts)))
            (λ root. structured_sql-Avoids by_key quoted_columns root []))
          (λ built. tt)

    table_where_clause-Avoids :
        (raw : Text)
        → has_lone_bang (trim raw) ≡ false
        → Avoids out_of_fuel
            (table_where_clause go (suc (length (trim raw))) raw columns quoted_columns)
    unfolding table_where_clause
    table_where_clause-Avoids raw plain =
        chosen-Avoids (trim raw == [])
          (not (looks_like_structured_query (trim raw) (columns_by_key columns []))) _ _ _ tt tt
          (structured-Avoids (suc (length (trim raw))) (trim raw) (columns_by_key columns [])
            (scan_query-Avoids (length (trim raw)) (trim raw) (omega arith) plain))

    -- The clause of a filter is built or refused with an error, for every list of columns: on a filter
    -- in which an equals sign follows each exclamation mark neither the scanner nor the parser loops on.
    pub table_where_clause_total :
        (raw : Text)
        → has_lone_bang (trim raw) ≡ false
        → table_where_clause go (suc (length (trim raw))) raw columns quoted_columns
          ≢ err out_of_fuel
    table_where_clause_total raw plain =
        Avoids-ne out_of_fuel _ (table_where_clause-Avoids raw plain)
