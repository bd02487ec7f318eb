-- ===== src/Security/Records/Filtering.antt =====
-- What a reader gets to see of a record.
use velm.Base.{true, false, ◌≡◌, ◌⊎◌, inl, inr, refl, Bool-cases, if◌then◌else◌, Option, none, some}
use velm.Base.{List, [], ◌∷◌, Text, txt, ◌==◌, eq_iff, lookup, insert, lookup-insert}
use velm.Runtime.{GoRuntime}
use velm.Security.Model.{Evaluator, member}
use velm.Security.Decision.{Any, nil, str, Record}
use velm.Security.Access.{allows_record, allows_field}
use velm.Security.Records.{mask, filter_readable_record, merge_record_snapshot}

module _ (go : GoRuntime) (now : go.Time) where
  -- A value that a reader may see, and nil for any other.
  abbrev pub shown :
      Option Evaluator
      → Record go
      → Text
      → Option (Any go.Float go.Time)
      → Option (Any go.Float go.Time)
  shown e r k none = none
  shown e r k (some v) = some (if allows_field go now e (txt "R") k r then v else nil)

  lookup-mask :
      (e : Option Evaluator) (whole r : Record go) (k : Text)
      → lookup k (mask go now e whole r) ≡ shown e whole k (lookup k r)
  unfolding mask lookup
  lookup-mask e whole [] k = refl
  lookup-mask e whole ((j, v) ∷ r) k = elim (Bool-cases (j == k)) [
    | inl h ↦ let same : j ≡ k = (eq_iff j k).0 h in rw (h, same) refl
    | inr h ↦ rw h (lookup-mask e whole r k)
  ]

  -- A record is withheld as a whole if it may not be read. Otherwise each field of it, and no other,
  -- is in the answer, with its value where the field may be read in this record, and nil where not.
  pub filter_readable_record_cases :
      (e : Evaluator) (r : Record go)
      → ((allows_record go now (some e) (txt "R") r ≡ false)
          × (filter_readable_record go now (some e) r ≡ none))
        ⊎ ((allows_record go now (some e) (txt "R") r ≡ true)
            × (out : Record go) × (filter_readable_record go now (some e) r ≡ some out)
            × ((k : Text) → lookup k out ≡ shown (some e) r k (lookup k r)))
  unfolding filter_readable_record
  filter_readable_record_cases e r = elim (Bool-cases (allows_record go now (some e) (txt "R") r)) [
    | inl h ↦ inr (h, mask go now (some e) r r, rw h refl, lookup-mask (some e) r r)
    | inr h ↦ inl (h, rw h refl)
  ]

-- A form's value, nil for a column that the form sets to null.
abbrev pub submitted : (go : GoRuntime) → List Text → Text → Text → Any go.Float go.Time
submitted go null_columns k v = if member k null_columns then nil else str v

-- The field of a form is at most once in it.
abbrev pub HasDistinctKeys : List (Text × Text) → Type 0
HasDistinctKeys [] = Unit
HasDistinctKeys ((k, v) ∷ m) = (lookup k m ≡ none) × HasDistinctKeys m

-- The form's value, if the form has the field, and else the stored one.
abbrev pub merged_value :
    (go : GoRuntime)
    → List Text
    → Text
    → Option Text
    → Option (Any go.Float go.Time)
    → Option (Any go.Float go.Time)
merged_value go null_columns k none stored = stored
merged_value go null_columns k (some v) stored = some (submitted go null_columns k v)

-- The record that a save proposes has a form's value for each field of the form, nil where the form
-- sets the column to null, and the stored value for every other field. The form is a map: no field
-- stands in it twice.
pub lookup-merge_record_snapshot :
    (go : GoRuntime) (base : Record go) (form : List (Text × Text)) (null_columns : List Text)
    (k : Text)
    → HasDistinctKeys form
    → lookup k (merge_record_snapshot go base form null_columns)
      ≡ merged_value go null_columns k (lookup k form) (lookup k base)
unfolding merge_record_snapshot lookup
lookup-merge_record_snapshot go base [] null_columns k h = refl
lookup-merge_record_snapshot go base ((j, v) ∷ form) null_columns k (fresh, h) =
    let ih =
      lookup-merge_record_snapshot go (insert j (submitted go null_columns j v) base) form
        null_columns k h in
    let old = lookup-insert j k (submitted go null_columns j v) base in
    elim (Bool-cases (j == k)) [
      | inl e ↦ let same : j ≡ k = (eq_iff j k).0 e in rw (e, ih, old, e, ← same, fresh) refl
      | inr e ↦ rw (e, ih, old, e) refl
    ]
