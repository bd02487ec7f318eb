-- ===== src/Schema/DataTypes.antt =====
-- The data types of columns: internal/db/MetadataGuards.go, with Column of Types.go.
use velm.Base.{
  Bool, true, false, not, ◌&&◌, ◌||◌, if◌then◌else◌, Option, none, some, List, [], ◌∷◌, ◌++◌, Text,
  txt, trim, lower, upper, ◌==◌, has_prefix, length, null, leb, ltb, nat_eq, every, take_while,
  drop_while, drop_bytes, cut_prefix, split_on, is_digit, is_lower_letter, is_upper_letter,
}
use velm.Schema.Numbers.{decimal_value}
use velm.Schema.Identifiers.{is_safe_identifier}

-- the fields of Column that the model reads; a text that may be null is an option, and of a choice
-- its value is kept
pub record Column : Type 0 where
  pub name : Text
  pub data_type : Text
  pub is_nullable : Bool
  pub default_value : Option Text
  pub validation_regex : Option Text
  pub validation_expr : Option Text
  pub condition_expr : Option Text
  pub validation_msg : Text
  pub prefix : Text
  pub choices : List Text

-- normalizeDataType
unfoldable pub normalize_data_type : Text → Text
normalize_data_type data_type =
    let dt = lower (trim data_type) in
    let target = lower (trim (trim (drop_bytes 10 dt))) in
    let lang = trim (drop_bytes 5 dt) in
    if dt == txt "longtext" || dt == txt "long-text"
    then txt "long_text"
    else if dt == txt "rich_text" || dt == txt "rich-text"
    then txt "richtext"
    else if dt == txt "autonumber" || dt == txt "auto_number" || dt == txt "auto-number"
    then txt "autnumber"
    else if has_prefix dt (txt "reference:")
    then (if target == [] then txt "reference" else txt "reference:" ++ target)
    else if has_prefix dt (txt "code:")
    then (if lang == [] then txt "code" else txt "code:" ++ lang)
    else dt

-- CanonicalDataType is normalizeDataType; BaseDataType
unfoldable pub base_data_type : Text → Text
unfolding normalize_data_type has_prefix txt
base_data_type data_type =
    let dt = normalize_data_type data_type in
    if has_prefix dt (txt "reference:")
    then txt "reference"
    else if has_prefix dt (txt "code:")
    then txt "code"
    else dt

-- IsReferenceDataType, IsCodeDataType, IsRichTextDataType, IsAutoNumberDataType
unfoldable pub is_data_type : Text → Text → Bool
unfolding base_data_type ◌==◌
is_data_type base data_type = base_data_type data_type == base

-- DataTypeReferenceTable and DataTypeCodeLanguage
unfoldable pub data_type_reference_table : Text → Text
unfolding normalize_data_type trim txt cut_prefix
data_type_reference_table data_type =
    elim (cut_prefix (normalize_data_type data_type) (txt "reference:")) [
      | none ↦ []
      | some t ↦ trim t
    ]

unfoldable pub data_type_code_language : Text → Text
unfolding normalize_data_type trim txt cut_prefix
data_type_code_language data_type =
    elim (cut_prefix (normalize_data_type data_type) (txt "code:")) [ none ↦ [] | some t ↦ trim t ]

-- ResolveReferenceTable; `none` is the error of two tables
unfoldable pub resolve_reference_table : Text → Text → Option Text
unfolding data_type_reference_table lower trim ◌==◌
resolve_reference_table data_type explicit =
    let typed = data_type_reference_table data_type in
    let named = lower (trim explicit) in
    if not (typed == []) && not (named == []) && not (typed == named)
    then none
    else if not (typed == [])
    then some typed
    else some named

-- the fixed names of validateBuilderColumnDataType
abbrev pub plain_types : List Text
plain_types =
    txt "text"
    ∷ txt "int"
    ∷ txt "integer"
    ∷ txt "bigint"
    ∷ txt "bigserial"
    ∷ txt "serial"
    ∷ txt "float"
    ∷ txt "double"
    ∷ txt "decimal"
    ∷ txt "numeric"
    ∷ txt "bool"
    ∷ txt "boolean"
    ∷ txt "date"
    ∷ txt "timestamp"
    ∷ txt "timestamptz"
    ∷ txt "datetime"
    ∷ txt "uuid"
    ∷ txt "json"
    ∷ txt "jsonb"
    ∷ txt "reference"
    ∷ txt "choice"
    ∷ txt "long_text"
    ∷ txt "richtext"
    ∷ txt "markdown"
    ∷ txt "email"
    ∷ txt "url"
    ∷ txt "phone"
    ∷ txt "code"
    ∷ txt "autnumber"
    ∷ []

unfoldable pub is_one_of : Text → List Text → Bool
unfolding ◌==◌
is_one_of s [] = false
is_one_of s (t ∷ ts) = s == t || is_one_of s ts

-- ^varchar\(([1-9][0-9]{0,4})\)$: a size of one to five digits, the first of them not 0
abbrev size_and_close : Option Text → Bool
size_and_close none = false
size_and_close (some s) =
    let digits = take_while is_digit s in
    drop_while is_digit s == txt ")"
    && leb 1 (length digits)
    && leb (length digits) 5
    && not (has_prefix digits (txt "0"))

abbrev size_in_range : Option Text → Bool
size_in_range none = false
size_in_range (some s) =
    let size = decimal_value 0 (take_while is_digit s) in leb 1 size && leb size 65535

unfoldable pub is_varchar_type : Text → Bool
unfolding take_while drop_while txt has_prefix cut_prefix ◌==◌
is_varchar_type dt = size_and_close (cut_prefix dt (txt "varchar("))

-- ^enum:[a-z0-9_\-]+(?:\|[a-z0-9_\-]+)+$
abbrev is_enum_item : Text → Bool
is_enum_item s =
    not (null s) && every (λ c. is_lower_letter c || is_digit c || nat_eq c 95 || nat_eq c 45) s

unfoldable pub every_text : (Text → Bool) → List Text → Bool
every_text p [] = true
every_text p (s ∷ ss) = p s && every_text p ss

abbrev are_enum_items : Option Text → Bool
are_enum_items none = false
are_enum_items (some s) =
    every_text is_enum_item (split_on 124 s) && ltb 1 (length (split_on 124 s))

unfoldable pub is_enum_type : Text → Bool
unfolding every every_text split_on cut_prefix txt
is_enum_type dt = are_enum_items (cut_prefix dt (txt "enum:"))

-- ^reference:[a-z_][a-z0-9_]*$
abbrev is_lower_identifier : Text → Bool
is_lower_identifier [] = false
is_lower_identifier (c ∷ s) =
    (is_lower_letter c || nat_eq c 95)
    && every (λ d. is_lower_letter d || is_digit d || nat_eq d 95) s

abbrev after_reference : Option Text → Bool
after_reference none = false
after_reference (some s) = is_lower_identifier s

unfoldable pub is_reference_type : Text → Bool
unfolding every cut_prefix txt
is_reference_type dt = after_reference (cut_prefix dt (txt "reference:"))

-- ^code(?::[a-z0-9][a-z0-9_\+\.\-]*)?$
abbrev is_language : Text → Bool
is_language [] = false
is_language (c ∷ s) =
    (is_lower_letter c || is_digit c)
    && every
        (λ d.
          is_lower_letter d
          || is_digit d
          || nat_eq d 95
          || nat_eq d 43
          || nat_eq d 46
          || nat_eq d 45)
        s

abbrev after_code : Option Text → Bool
after_code none = false
after_code (some s) = is_language s

unfoldable pub is_code_type : Text → Bool
unfolding every cut_prefix txt ◌==◌
is_code_type dt = dt == txt "code" || after_code (cut_prefix dt (txt "code:"))

-- validateBuilderColumnDataType: whether it returns no error. The size of a varchar has at most five
-- digits; its bound is 65535.
unfoldable pub is_builder_data_type : Text → Bool
unfolding normalize_data_type is_one_of is_varchar_type is_enum_type is_reference_type is_code_type
is_builder_data_type data_type =
    let dt = normalize_data_type data_type in
    if dt == []
    then false
    else if is_one_of dt plain_types
    then true
    else if is_varchar_type dt
    then size_in_range (cut_prefix dt (txt "varchar("))
    else is_enum_type dt || is_reference_type dt || is_code_type dt

-- validateBuilderTableName and validateBuilderColumnName: whether there is no error
unfoldable pub is_builder_name : Text → Bool
unfolding is_safe_identifier has_prefix txt
is_builder_name name =
    is_safe_identifier name && not (has_prefix name (txt "_")) && leb (length name) 63

-- normalizeAutoNumberPrefix
unfoldable pub normalize_auto_number_prefix : Text → Text
unfolding upper trim
normalize_auto_number_prefix prefix = upper (trim prefix)

-- validateAutoNumberPrefix: ^[A-Z]{3,4}$ of the normalised prefix
unfoldable pub is_auto_number_prefix : Text → Bool
unfolding normalize_auto_number_prefix every
is_auto_number_prefix prefix =
    let p = normalize_auto_number_prefix prefix in
    leb 3 (length p) && leb (length p) 4 && every is_upper_letter p
