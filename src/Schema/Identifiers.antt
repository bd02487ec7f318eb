-- ===== src/Schema/Identifiers.antt =====
-- internal/db/Identifiers.go, RecordID.go and AutoNumber.go: the names and values that go into a
-- statement's text, and utils.IsValidUUID.
pub mod Literals
use velm.Base.{
  ℕ, zero, suc, Bool, true, false, ◌&&◌, ◌||◌, if◌then◌else◌, Option, none, some, Result, ok, err,
  ◌>>=◌, List, [], ◌∷◌, ◌++◌, Text, txt, trim, lower, ◌==◌, nat_eq, null, every, is_letter,
  is_digit, is_hex,
}
use velm.Schema.Numbers.{Integer, parse_int, is_positive}

-- IsSafeIdentifier: ^[A-Za-z_][A-Za-z0-9_]*$
unfoldable pub is_safe_identifier : Text → Bool
unfolding every
is_safe_identifier [] = false
is_safe_identifier (c ∷ s) =
    (is_letter c || nat_eq c 95) && every (λ d. is_letter d || is_digit d || nat_eq d 95) s

-- QuoteIdentifier
unfoldable pub quote_identifier : Text → Option Text
unfolding is_safe_identifier
quote_identifier name = if is_safe_identifier name then some (34 ∷ name ++ 34 ∷ []) else none

-- QuoteIdentifierList
unfoldable pub quote_identifier_list : List Text → Option (List Text)
unfolding quote_identifier trim
quote_identifier_list [] = some []
quote_identifier_list (name ∷ names) =
    let rest = quote_identifier_list names in
    elim (quote_identifier (trim name)) [
      | none ↦ none
      | some q ↦ elim rest [ none ↦ none | some qs ↦ some (q ∷ qs) ]
    ]

-- strings.ReplaceAll(value, "'", "''")
unfoldable pub double_quotes : Text → Text
double_quotes [] = []
double_quotes (c ∷ s) =
    let rest = double_quotes s in if nat_eq c 39 then 39 ∷ 39 ∷ rest else c ∷ rest

-- quoteSQLLiteral
unfoldable pub quote_sql_literal : Text → Text
unfolding double_quotes
quote_sql_literal value = 39 ∷ double_quotes value ++ 39 ∷ []

-- groups of hexadecimal digits, with a dash after each but the last
unfoldable pub is_hex_groups : ℕ → List ℕ → Text → Bool
is_hex_groups zero [] [] = true
is_hex_groups zero [] (c ∷ s) = false
is_hex_groups zero (n ∷ ns) [] = false
is_hex_groups zero (n ∷ ns) (c ∷ s) = nat_eq c 45 && is_hex_groups n ns s
is_hex_groups (suc n) ns [] = false
is_hex_groups (suc n) ns (c ∷ s) = is_hex c && is_hex_groups n ns s

-- utils.IsValidUUID
unfoldable pub is_valid_uuid : Text → Bool
unfolding is_hex_groups
is_valid_uuid = is_hex_groups 8 (4 ∷ 4 ∷ 4 ∷ 12 ∷ [])

-- the value of a record's id in a statement
pub data RecordId : Type 0 where
  int_id : Integer → RecordId
  uuid_id : Text → RecordId

pub data IdFailure : Type 0 where
  id_required invalid_integer_id invalid_uuid_id : IdFailure

-- recordIDKindContext after the query: the type of the column `_id`, if the view has it
unfoldable pub record_id_kind : Option Text → Text
unfolding lower trim txt ◌==◌
record_id_kind none = txt "uuid"
record_id_kind (some data_type) =
    let dt = lower (trim data_type) in
    if dt == txt "int"
      || dt == txt "integer"
      || dt == txt "bigint"
      || dt == txt "bigserial"
      || dt == txt "serial"
    then txt "int"
    else txt "uuid"

-- ParseRecordIDValueContext, for a table whose ids are of the kind
unfoldable pub parse_record_id_value : Text → Text → Result IdFailure RecordId
unfolding trim txt ◌==◌ parse_int is_valid_uuid
parse_record_id_value kind id =
    let trimmed = trim id in
    if trimmed == []
    then err id_required
    else if kind == txt "int"
    then elim (parse_int trimmed) [
      | none ↦ err invalid_integer_id
      | some n ↦ if is_positive n then ok (int_id n) else err invalid_integer_id
    ]
    else if is_valid_uuid trimmed
    then ok (uuid_id trimmed)
    else err invalid_uuid_id

-- IsValidRecordID
unfoldable pub is_valid_record_id : Text → Text → Bool
unfolding trim txt ◌==◌ parse_record_id_value
is_valid_record_id kind id =
    if trim id == txt "new"
    then true
    else elim (parse_record_id_value kind id) [ ok v ↦ true | err e ↦ false ]
