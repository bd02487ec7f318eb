-- ===== src/App/Identifiers.antt =====
-- AppDefinition.go: the ids of tables, and the normal forms of names.
pub mod RoundTrip
use velm.Base.{
  ℕ, zero, suc, Bool, true, false, ◌&&◌, ◌||◌, if◌then◌else◌, Option, none, some, List, [], ◌∷◌,
  ◌++◌, Text, txt, trim, lower, ◌==◌, nat_eq, null, length, cut_prefix, contains,
}
use velm.Security.Model.{member, key_of}

-- yamlTableIDPrefix
abbrev pub id_prefix : Text
id_prefix = txt "yaml:table:"

-- yamlTableID
unfoldable pub yaml_table_id : Text → Text → Text
unfolding txt
yaml_table_id app_name table_name = id_prefix ++ (app_name ++ 58 ∷ table_name)

-- strings.Cut at a colon
unfoldable pub cut_colon : Text → Option (Text × Text)
cut_colon [] = none
cut_colon (c ∷ s) =
    let rest = cut_colon s in
    if nat_eq c 58
    then some ([], s)
    else elim rest [ none ↦ none | some (before, after) ↦ some (c ∷ before, after) ]

abbrev pub both_given : Text × Text → Option (Text × Text)
both_given (app_name, table_name) =
    if app_name == [] || table_name == [] then none else some (app_name, table_name)

-- parseYAMLTableID
unfoldable pub parse_yaml_table_id : Text → Option (Text × Text)
unfolding cut_prefix cut_colon ◌==◌ txt
parse_yaml_table_id input = elim (cut_prefix input id_prefix) [
  | none ↦ none
  | some rest ↦ elim (cut_colon rest) [ none ↦ none | some parts ↦ both_given parts ]
]

-- the loop of normalizeIdentifierList, with the names seen so far
unfoldable pub identifiers_from : List Text → List Text → List Text
unfolding lower trim ◌==◌ member
identifiers_from seen [] = []
identifiers_from seen (item ∷ items) =
    let name = key_of item in
    let rest = identifiers_from seen items in
    let others = identifiers_from (name ∷ seen) items in
    if name == [] || member name seen then rest else name ∷ others

-- normalizeIdentifierList
unfoldable pub normalize_identifier_list : List Text → List Text
unfolding identifiers_from
normalize_identifier_list items = identifiers_from [] items
