-- ===== src/Tests/Queries.antt =====
-- The filters of the table view on concrete inputs: a table of one column of text and one of numbers.
use velm.Base.{
  every, suc, ◌≡◌, ◌≢◌, refl, Result, ok, err, List, [], ◌∷◌, ◌++◌, Text, txt, trim, length, true,
  false,
}
use velm.Runtime.{whole_numbers}
use velm.Query.Syntax.{Node, condition, both, Failure, out_of_fuel}
use velm.Query.Scanner.{scan_query}
use velm.Query.Scanner.Stuck.{scan_query_stuck}
use velm.Query.Statement.{QueryColumn, text, number, structured_sql}
use velm.Query.Statement.Values.{arguments, values, conditions, structured_sql-values}
use velm.Query.Statement.Shape.{SameShape, structured_sql-text}
use velm.Query.Filter.{Clause, columns_by_key, table_where_clause}
use velm.Query.Filter.Total.{table_where_clause_total}

abbrev columns : List QueryColumn
columns =
    record {
      name = txt "name";
      label = txt "Full name";
      is_date_like = false;
      is_number = false;
      is_boolean = false;
    }
    ∷ record {
      name = txt "size";
      label = txt "Size";
      is_date_like = false;
      is_number = true;
      is_boolean = false;
    }
    ∷ []

abbrev by_key : List (Text × QueryColumn)
by_key = columns_by_key columns []

abbrev quoted : List (Text × Text)
quoted = (txt "name", txt "\"name\"") ∷ (txt "size", txt "\"size\"") ∷ []

abbrev named : Text → Node
named value = condition (record { column = txt "Full name"; operator = txt "="; value = value })

abbrev sized : Text → Node
sized value = condition (record { column = txt "size"; operator = txt ">="; value = value })

abbrev clause_sql : Result {0, 0} Failure (Clause whole_numbers) → Text
clause_sql (ok c) = c.sql
clause_sql (err e) = []

clause_of_filter :
    clause_sql
      (table_where_clause whole_numbers 40 (txt " Full name = ann* && size>=3 ") columns quoted)
    ≡ txt "(CAST(\"name\" AS TEXT) ILIKE $1 AND \"size\" >= $2)"
unfolding table_where_clause
clause_of_filter = refl

plain_filter :
    clause_sql (table_where_clause whole_numbers 40 (txt " ann ") columns quoted)
    ≡ txt "(CAST(\"name\" AS TEXT) ILIKE $1 OR CAST(\"size\" AS TEXT) ILIKE $1)"
unfolding table_where_clause
plain_filter = refl

abbrev built : Text
built = txt "(LOWER(CAST(\"name\" AS TEXT)) = LOWER($1) AND \"size\" >= $2)"

structured_sql-text_example : built ≡ built
unfolding structured_sql SameShape txt columns_by_key
structured_sql-text_example =
    structured_sql-text whole_numbers by_key quoted (both (named (txt "ann")) (sized (txt "3")))
      (both (named (txt "x' OR 1=1 --")) (sized (txt "7"))) [] [] (text (txt "ann") ∷ number 3 ∷ [])
      (text (txt "x' OR 1=1 --") ∷ number 7 ∷ []) built built
      ((refl, refl, refl), (refl, refl, refl)) refl refl refl

structured_sql-values_example :
    arguments whole_numbers by_key quoted
      (structured_sql whole_numbers by_key quoted (both (named (txt "ann*")) (sized (txt "x"))) [])
    ≡ values whole_numbers by_key quoted []
        (conditions (both (named (txt "ann*")) (sized (txt "x"))))
structured_sql-values_example =
    structured_sql-values whole_numbers by_key quoted (both (named (txt "ann*")) (sized (txt "x")))
      []

scan_query_stuck_example : scan_query 9 (txt "a" ++ 33 ∷ txt " b") ≡ err out_of_fuel
unfolding every txt
scan_query_stuck_example = scan_query_stuck 9 (txt "a") (txt " b") refl refl

table_where_clause_total_example :
    table_where_clause whole_numbers
      (suc (length (trim (txt " size >= 3 "))))
      (txt " size >= 3 ")
      columns
      quoted
    ≢ err out_of_fuel
unfolding trim txt
table_where_clause_total_example =
    table_where_clause_total whole_numbers columns quoted (txt " size >= 3 ") refl
