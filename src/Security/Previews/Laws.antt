-- ===== src/Security/Previews/Laws.antt =====
-- When a save goes through, and what the merged preview of several evaluators says.
use velm.Base.{
  Bool, true, false, ◌&&◌, ◌||◌, not, ◌≡◌, ◌↔◌, ◌⊎◌, inl, inr, refl, ap, ◌∙◌, arith, Bool-cases,
  if◌then◌else◌,
}
use velm.Base.{
  List, [], ◌∷◌, ◌++◌, Text, ◌==◌, eq_iff, All, keep, null, some, text_lt, sort_by, txt,
}
use velm.Base.{any, sort_by-any}
use velm.Runtime.{GoRuntime}
use velm.Security.Model.{Evaluator, member}
use velm.Security.Decision.{Record}
use velm.Security.Access.{allows_record, allows_field}
use velm.Schema.DataTypes.{Column}
use velm.Security.Records.{changed_record_fields, merge_record_snapshot}
use velm.Security.Previews.{
  Preview, check_fields, save_preview, add_new, merge_step, merge_from, no_preview, merge_previews,
}

null-keep-not :
    (p : Text → Bool) (xs : List Text)
    → (null (keep (λ x. not (p x)) xs) ≡ true) ↔ All (λ x. p x ≡ true) xs
unfolding keep
null-keep-not p [] = (λ q. tt, λ q. refl)
null-keep-not p (x ∷ xs) = elim (Bool-cases (p x)) [
  | inl e ↦ rw e (λ q. (refl, (null-keep-not p xs).0 q), λ q. (null-keep-not p xs).1 q.1)
  | inr e ↦ rw e (λ q. cc, λ q. cc)
]

module _ (go : GoRuntime) (now : go.Time) (columns : List Column) (e : Evaluator) where
  abbrev pub operation_of : Bool → Text
  operation_of is_create = if is_create then txt "C" else txt "U"

  -- An update that changes nothing goes through. Any other save goes through exactly if the proposed
  -- record may be written, and in it every changed field.
  pub save_preview_iff :
      (is_create : Bool) (old : Record go) (form : List (Text × Text)) (null_columns : List Text)
      → ((save_preview go now columns (some e) is_create old form null_columns).save_allowed ≡ true)
        ↔ (((is_create ≡ false)
              × (null (changed_record_fields go columns old form null_columns) ≡ true))
            ⊎ ((allows_record go now
                    (some e)
                    (operation_of is_create)
                    (merge_record_snapshot go old form null_columns)
                  ≡ true)
                × All
                    (λ f.
                      allows_field go now
                        (some e)
                        (operation_of is_create)
                        f
                        (merge_record_snapshot go old form null_columns)
                      ≡ true)
                    (changed_record_fields go columns old form null_columns)))
  unfolding save_preview check_fields
  save_preview_iff is_create old form null_columns = ground (
    arith,
    null-keep-not
        (λ f.
          allows_field go now (some e) (operation_of is_create) f
            (merge_record_snapshot go old form null_columns))
        (changed_record_fields go columns old form null_columns),
  )

member-any : (f : Text) (xs : List Text) → member f xs ≡ any (λ x. f == x) xs
unfolding member
member-any f [] = refl
member-any f (x ∷ xs) = ap (λ b. f == x || b) (member-any f xs)

member-sort_by : (f : Text) (xs : List Text) → member f (sort_by text_lt xs) ≡ member f xs
member-sort_by f xs =
    rw (member-any f (sort_by text_lt xs), sort_by-any text_lt (λ x. f == x) xs, ← member-any f xs)
      refl

member-append : (f : Text) (xs ys : List Text) → member f (xs ++ ys) ≡ (member f xs || member f ys)
unfolding member
member-append f [] ys = refl
member-append f (x ∷ xs) ys = ground (arith, member-append f xs ys)

member-add_new :
    (f : Text) (seen fs : List Text) → member f (add_new seen fs) ≡ (member f seen || member f fs)
unfolding add_new member
member-add_new f seen [] = ground arith
member-add_new f seen (x ∷ fs) = elim (Bool-cases (member x seen)) [
  | inl e ↦ rw (e, member-add_new f seen fs) (ground (arith, eq_iff f x))
  | inr e ↦
      rw (e, member-add_new f (seen ++ x ∷ []) fs, member-append f seen (x ∷ []))
        (unfold member in ground arith)
]

abbrev pub all_of : (Preview → Bool) → List Preview → Bool
all_of p [] = true
all_of p (x ∷ xs) = p x && all_of p xs

-- The fold of the merge: conjunctions and unions.
module _ (f : Text) where
  merge_from-parts :
      (m : Preview) (ps : List Preview)
      → ((merge_from m ps).save_allowed ≡ (m.save_allowed && all_of (λ p. p.save_allowed) ps))
        × ((merge_from m ps).record_allowed
            ≡ (m.record_allowed && all_of (λ p. p.record_allowed) ps))
        × (member f (merge_from m ps).changed_fields
            ≡ (member f m.changed_fields || any (λ p. member f p.changed_fields) ps))
        × (member f (merge_from m ps).blocked_fields
            ≡ (member f m.blocked_fields || any (λ p. member f p.blocked_fields) ps))
  unfolding merge_from merge_step
  merge_from-parts m [] = ground arith
  merge_from-parts m (p ∷ ps) = ground (
    arith,
    merge_from-parts (merge_step m p) ps,
    member-add_new f m.changed_fields p.changed_fields,
    member-add_new f m.blocked_fields p.blocked_fields,
  )

-- A merged preview allows the save, or the record, exactly if all the merged ones do, and a field is
-- among its changed or blocked fields exactly if it is among those of one of them.
pub merge_previews_parts :
    (ps : List Preview) (f : Text)
    → ((merge_previews ps).save_allowed ≡ all_of (λ p. p.save_allowed) ps)
      × ((merge_previews ps).record_allowed ≡ all_of (λ p. p.record_allowed) ps)
      × (member f (merge_previews ps).changed_fields ≡ any (λ p. member f p.changed_fields) ps)
      × (member f (merge_previews ps).blocked_fields ≡ any (λ p. member f p.blocked_fields) ps)
unfolding merge_previews member
merge_previews_parts ps f =
    let (saves, records, changed, blocked) = merge_from-parts f no_preview ps in
    (
      saves,
      records,
      member-sort_by f (merge_from no_preview ps).changed_fields ∙ changed,
      member-sort_by f (merge_from no_preview ps).blocked_fields ∙ blocked,
    )
