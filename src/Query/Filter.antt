-- ===== src/Query/Filter.antt =====
-- table_query.go: buildTableWhereClause, and the kinds of a column by its data type and name.
pub mod Total
use velm.Base.{
  ℕ, suc, Bool, true, false, not, ◌&&◌, ◌||◌, if◌then◌else◌, Option, none, some, Result, ok, err,
  ◌>>=◌, List, [], ◌∷◌, ◌++◌, Text, txt, trim, lower, ◌==◌, has_prefix, contains, insert, lookup,
  length, any, nat_eq, null,
}
use velm.Runtime.{GoRuntime}
use velm.Query.Syntax.{Node, Failure, Condition}
use velm.Query.Scanner.{scan_query}
use velm.Query.Parser.{parse_query}
use velm.Query.Statement.{QueryColumn, lookup_key, cast_text, structured_sql, Argument, text}

-- strings.HasSuffix
unfoldable pub has_suffix : Text → Text → Bool
unfolding ◌==◌
has_suffix [] suffix = [] == suffix
has_suffix (c ∷ s) suffix = let rest = has_suffix s suffix in (c ∷ s) == suffix || rest

-- isDateLikeDataType
unfoldable pub is_date_like_data_type : Text → Text → Bool
unfolding lower trim contains txt has_suffix
is_date_like_data_type data_type name =
    let dt = lower (trim data_type) in
    contains dt (txt "date")
    || contains dt (txt "time")
    || contains dt (txt "timestamp")
    || has_suffix (lower name) (txt "_at")

-- isNumericDataType
unfoldable pub is_numeric_data_type : Text → Text → Bool
unfolding lower trim contains txt
is_numeric_data_type data_type name =
    let dt = lower (trim data_type) in
    contains dt (txt "int")
    || contains dt (txt "numeric")
    || contains dt (txt "decimal")
    || contains dt (txt "float")
    || contains dt (txt "double")
    || contains dt (txt "serial")

-- isBooleanDataType
unfoldable pub is_boolean_data_type : Text → Text → Bool
unfolding lower trim txt ◌==◌ has_prefix
is_boolean_data_type data_type name =
    let dt = lower (trim data_type) in
    dt == txt "bool" || dt == txt "boolean" || has_prefix (lower name) (txt "is_")

-- queryInputKind
unfoldable pub query_input_kind : Text → Text → Text
unfolding is_date_like_data_type is_numeric_data_type is_boolean_data_type lower contains txt
query_input_kind data_type name =
    if is_date_like_data_type data_type name
    then if contains (lower data_type) (txt "time") then txt "datetime-local" else txt "date"
    else if is_numeric_data_type data_type name
    then txt "number"
    else if is_boolean_data_type data_type name
    then txt "boolean"
    else txt "text"

-- the columns by their names and labels; a later one takes the place of an earlier one
unfoldable pub columns_by_key :
    List QueryColumn → List (Text × QueryColumn) → List (Text × QueryColumn)
unfolding insert lower lookup_key
columns_by_key [] m = m
columns_by_key (c ∷ columns) m =
    columns_by_key columns
      (insert (lookup_key c.label) c (insert (lookup_key c.name) c (insert (lower c.name) c m)))

-- the bytes of strings.ContainsAny
abbrev is_relation_sign : ℕ → Bool
is_relation_sign c = nat_eq c 60 || nat_eq c 62 || nat_eq c 33 || nat_eq c 61

-- looksLikeStructuredQuery
unfoldable pub looks_like_structured_query : Text → List (Text × QueryColumn) → Bool
unfolding lower contains txt
looks_like_structured_query raw columns =
    let s = lower raw in
    contains s (txt "&&")
    || contains s (txt "||")
    || any (λ entry. contains s (entry.0 ++ txt "=") || contains s (entry.0 ++ txt " ")) columns
    || any is_relation_sign raw

abbrev quoted_name : Option Text → Text
quoted_name none = []
quoted_name (some q) = q

-- the loop of buildPlainTextWhereClause
unfoldable pub plain_parts : List (Text × Text) → List QueryColumn → Text
unfolding cast_text txt lookup
plain_parts quoted_columns [] = []
plain_parts quoted_columns (c ∷ columns) =
    let rest = plain_parts quoted_columns columns in
    let part = cast_text (quoted_name (lookup c.name quoted_columns)) ++ txt " ILIKE $1" in
    if null columns then part else part ++ txt " OR " ++ rest

-- buildPlainTextWhereClause
unfoldable pub plain_text_where_clause : List QueryColumn → List (Text × Text) → Text
unfolding plain_parts txt
plain_text_where_clause columns quoted_columns =
    txt "(" ++ plain_parts quoted_columns columns ++ txt ")"

module _ (go : GoRuntime) where
  -- the clause, its arguments, and whether the filter was structured
  pub record Clause : Type 0 where
    pub sql : Text
    pub args : List (Argument go)
    pub is_structured : Bool

  abbrev pub structured_clause : Text × List (Argument go) → Result Failure Clause
  structured_clause (sql, args) = ok (record { sql = sql; args = args; is_structured = true })

  -- buildTableWhereClause, with the rounds that the scanner may take
  unfoldable pub table_where_clause :
      ℕ → Text → List QueryColumn → List (Text × Text) → Result Failure Clause
  unfolding trim ◌==◌ columns_by_key looks_like_structured_query plain_text_where_clause scan_query
      parse_query structured_sql txt
  table_where_clause fuel raw columns quoted_columns =
      let filter = trim raw in
      let by_key = columns_by_key columns [] in
      if filter == []
      then ok (record { sql = []; args = []; is_structured = false })
      else if not (looks_like_structured_query filter by_key)
      then ok (record {
        sql = plain_text_where_clause columns quoted_columns;
        args = text (txt "%" ++ filter ++ txt "%") ∷ [];
        is_structured = false;
      })
      else scan_query fuel filter
        >>= parse_query
        >>= (λ root. structured_sql go by_key quoted_columns root [])
        >>= structured_clause
