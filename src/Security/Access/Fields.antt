-- ===== src/Security/Access/Fields.antt =====
-- Checking many fields at once against checking them one by one.
use velm.Base.{true, false, ◌≡◌, ◌↔◌, inl, inr, refl, arith, Bool-cases}
use velm.Base.{List, [], ◌∷◌, Text, ◌==◌, eq_iff, All, some, trim-lower_idempotent}
use velm.Runtime.{GoRuntime}
use velm.Security.Model.{Evaluator, normalize_operation, key_of, member}
use velm.Security.Model.Operations.{normalize_operation_idempotent}
use velm.Security.Decision.{Record}
use velm.Security.Access.{
  bypasses, allows_record, allows_field_rules, allows_field, fields_from, allows_fields,
}

module _ (go : GoRuntime) (now : go.Time) (e : Evaluator) where
  -- The rules let the fields of a list pass.
  abbrev Pass : Text → Record go → List Text → Type 0
  Pass operation r fields = All (λ f. allows_field_rules go now e operation f r ≡ true) fields

  allows_field_rules-key :
      (operation field : Text) (r : Record go)
      → allows_field_rules go now e operation (key_of field) r
        ≡ allows_field_rules go now e operation field r
  unfolding allows_field_rules
  allows_field_rules-key operation field r = rw (trim-lower_idempotent field) refl

  Pass-member :
      (operation : Text) (r : Record go) (seen : List Text) (k : Text)
      → Pass operation r seen
      → member k seen ≡ true
      → allows_field_rules go now e operation k r ≡ true
  unfolding member
  Pass-member operation r [] k h m = cc
  Pass-member operation r (s ∷ seen) k (p, h) m =
      ground (arith, eq_iff k s, Pass-member operation r seen k h)

  blank_passes :
      (operation field : Text) (r : Record go)
      → (key_of field == []) ≡ true
      → allows_field_rules go now e operation field r ≡ true
  unfolding allows_field_rules
  blank_passes operation field r h = rw h refl

  fields_from-Pass :
      (operation : Text) (r : Record go) (seen fields : List Text)
      → Pass operation r seen
      → (fields_from go now e operation r seen fields ≡ true) ↔ Pass operation r fields
  unfolding fields_from
  fields_from-Pass operation r seen [] h = (λ q. tt, λ q. refl)
  fields_from-Pass operation r seen (f ∷ fields) h = elim (Bool-cases (key_of f == [])) [
    | inl b ↦
        let (to, from) = fields_from-Pass operation r seen fields h in
        rw b (λ q. (blank_passes operation f r b, to q), λ q. from q.1)
    | inr b ↦ elim (Bool-cases (member (key_of f) seen)) [
      | inl m ↦
          let (to, from) = fields_from-Pass operation r seen fields h in
          rw (b, m)
            (
              λ q. (
                rw (← allows_field_rules-key operation f r) (Pass-member operation r seen _ h m),
                to q,
              ),
              λ q. from q.1,
            )
      | inr m ↦ elim (Bool-cases (allows_field_rules go now e operation (key_of f) r)) [
        | inl a ↦
            let (to, from) = fields_from-Pass operation r (key_of f ∷ seen) fields (a, h) in
            rw (b, m, a) (λ q. (rw (← allows_field_rules-key operation f r) a, to q), λ q. from q.1)
        | inr a ↦ rw (b, m, a) (λ q. cc, λ q. cc (allows_field_rules-key operation f r))
      ]
    ]
  ]

  allows_record-normalize :
      (operation : Text) (r : Record go)
      → allows_record go now (some e) (normalize_operation operation) r
        ≡ allows_record go now (some e) operation r
  unfolding allows_record
  allows_record-normalize operation r = rw (normalize_operation_idempotent operation) refl

  bypass_allows :
      (operation : Text) (r : Record go)
      → bypasses e (normalize_operation operation) ≡ true
      → allows_record go now (some e) operation r ≡ true
  unfolding allows_record
  bypass_allows operation r h = rw h refl

  All-bypass :
      (operation : Text) (r : Record go) (fields : List Text)
      → bypasses e (normalize_operation operation) ≡ true
      → All (λ f. allows_field go now (some e) operation f r ≡ true) fields
  unfolding allows_field
  All-bypass operation r [] h = tt
  All-bypass operation r (f ∷ fields) h = (rw h refl, All-bypass operation r fields h)

  each_field :
      (operation : Text) (r : Record go) (fields : List Text)
      → bypasses e (normalize_operation operation) ≡ false
      → allows_record go now (some e) operation r ≡ true
      → Pass (normalize_operation operation) r fields
        ↔ All (λ f. allows_field go now (some e) operation f r ≡ true) fields
  unfolding allows_field
  each_field operation r [] h k = (λ q. tt, λ q. tt)
  each_field operation r (f ∷ fields) h k =
      let (to, from) = each_field operation r fields h k in
      rw (h, allows_record-normalize operation r, k) (λ q. (q.0, to q.1), λ q. (q.0, from q.1))

  -- A write of several fields is allowed exactly if the record is, and each of the fields on its
  -- own: blank and repeated field names, which the loop skips, make no difference.
  pub allows_fields_iff :
      (operation : Text) (fields : List Text) (r : Record go)
      → (allows_fields go now (some e) operation fields r ≡ true) ↔ (
          (allows_record go now (some e) operation r ≡ true)
          × All (λ f. allows_field go now (some e) operation f r ≡ true) fields)
  unfolding allows_fields
  allows_fields_iff operation fields r =
      elim (Bool-cases (bypasses e (normalize_operation operation))) [
        | inl b ↦
            rw b (λ q. (bypass_allows operation r b, All-bypass operation r fields b), λ q. refl)
        | inr b ↦
            rw (b, allows_record-normalize operation r)
              (elim (Bool-cases (allows_record go now (some e) operation r)) [
                | inl a ↦
                    let (to, from) = each_field operation r fields b a in
                    let (left, right) =
                      fields_from-Pass (normalize_operation operation) r [] fields tt in
                    rw a (λ q. (refl, to (left q)), λ q. right (from q.1))
                | inr a ↦ rw a (λ q. cc, λ q. cc)
              ])
      ]
