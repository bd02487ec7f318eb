-- ===== src/Security/Records.antt =====
-- FilterReadableRecord, MergeRecordSnapshot and ChangedRecordFields, with comparableSnapshotValue of
-- HandleSave.go and normalizeDataType of MetadataGuards.go.
pub mod Filtering
use velm.Base.{
  ℕ, zero, suc, Bool, true, false, ◌&&◌, ◌||◌, not, if◌then◌else◌, Option, none, some, leb,
}
use velm.Base.{
  List, [], ◌∷◌, ◌++◌, Text, txt, trim, lower, ◌==◌, text_lt, has_prefix, keep, null, length,
}
use velm.Base.{sort_by, lookup, insert, take_bytes}
use velm.Runtime.{GoRuntime}
use velm.Schema.DataTypes.{Column, normalize_data_type}
use velm.Security.Model.{Evaluator, member}
use velm.Security.Decision.{Any, nil, str, boolean, integer, single, double, instant, other, Record}
use velm.Security.Access.{allows_record, allows_field}

unfoldable pub is_timestamp : Text → Bool
is_timestamp dt = dt == txt "timestamp" || dt == txt "timestamptz" || dt == txt "datetime"

module _ (go : GoRuntime) where
  -- the case of a string in comparableSnapshotValue
  unfoldable pub string_form : Text → Text → Text
  string_form dt v =
      if dt == txt "date"
      then (if leb 10 (length v) then take_bytes 10 v else v)
      else if is_timestamp dt
      then elim (go.parse_time (txt "2006-01-02T15:04:05Z07:00") v) [
        | some t ↦ go.format_time (txt "2006-01-02T15:04") t
        | none ↦ if leb 16 (length v) then take_bytes 16 v else v
      ]
      else v

  -- comparableSnapshotValue
  unfoldable pub comparable_value : Column → Any go.Float go.Time → Text
  comparable_value column nil = []
  comparable_value column (str s) = string_form (normalize_data_type column.data_type) s
  comparable_value column (boolean true) = txt "true"
  comparable_value column (boolean false) = txt "false"
  comparable_value column (integer s) = s
  comparable_value column (single x) = go.format_float32 x
  comparable_value column (double x) = go.format_float x
  comparable_value column (instant t) =
      let dt = normalize_data_type column.data_type in
      if dt == txt "date"
      then go.format_time (txt "2006-01-02") t
      else if is_timestamp dt
      then go.format_time (txt "2006-01-02T15:04") t
      else go.format_time (txt "2006-01-02T15:04:05Z07:00") t
  comparable_value column (other s) = s

  -- `m[k]` of a map of values, nil for a missing key
  abbrev pub value_or_nil : Option (Any go.Float go.Time) → Any go.Float go.Time
  value_or_nil none = nil
  value_or_nil (some v) = v

  -- the loop of comparableSnapshotValues
  unfoldable pub comparable_from : List (Text × Text) → List Column → Record go → List (Text × Text)
  comparable_from out [] snapshot = out
  comparable_from out (column ∷ columns) snapshot =
      comparable_from
        (if has_prefix column.name (txt "_")
          then out
          else insert column.name
              (comparable_value column (value_or_nil (lookup column.name snapshot))) out)
        columns snapshot

  -- comparableSnapshotValues
  unfoldable pub comparable_values : List Column → Record go → List (Text × Text)
  comparable_values = comparable_from []

  -- `currentValues[fieldName]`
  abbrev pub text_or_empty : Option Text → Text
  text_or_empty none = []
  text_or_empty (some v) = v

  -- the test of the loop of ChangedRecordFields
  unfoldable pub is_changed : List (Text × Text) → List Text → Text × Text → Bool
  is_changed current null_columns (name, submitted) =
      not (has_prefix name (txt "_"))
      && not (
          text_or_empty (lookup name current)
          == (if member name null_columns then [] else submitted))

  unfoldable pub names : List (Text × Text) → List Text
  names [] = []
  names ((k, v) ∷ m) = k ∷ names m

  -- ChangedRecordFields
  unfoldable pub changed_record_fields :
      List Column → Record go → List (Text × Text) → List Text → List Text
  changed_record_fields columns old form null_columns =
      sort_by text_lt (names (keep (is_changed (comparable_values columns old) null_columns) form))

  -- MergeRecordSnapshot; `null_columns` are the columns set in the map of that name
  unfoldable pub merge_record_snapshot : Record go → List (Text × Text) → List Text → Record go
  merge_record_snapshot base [] null_columns = base
  merge_record_snapshot base ((k, v) ∷ form) null_columns =
      merge_record_snapshot (insert k (if member k null_columns then nil else str v) base) form
        null_columns

  module _ (now : go.Time) where
    -- the loop over the filtered record
    unfoldable pub mask : Option Evaluator → Record go → Record go → Record go
    mask e whole [] = []
    mask e whole ((k, v) ∷ r) =
        (k, if allows_field go now e (txt "R") k whole then v else nil) ∷ mask e whole r

    -- FilterReadableRecord; `none` is the record that may not be read
    unfoldable pub filter_readable_record : Option Evaluator → Record go → Option (Record go)
    filter_readable_record none r = some r
    filter_readable_record (some e) r =
        if allows_record go now (some e) (txt "R") r then some (mask (some e) r r) else none
