-- ===== src/Security/Shadowing/Inert.antt =====
-- A rule that the validator refuses could never decide anything.
use velm.Base.{
  Bool, true, false, ◌≡◌, ◌≢◌, inl, inr, refl, sym, ◌∙◌, arith, Bool-cases, if◌then◌else◌,
}
use velm.Base.{List, [], ◌∷◌, ◌++◌, Text, ◌==◌, eq_iff, All, any, keep, keep-append, some, trim}
use velm.Base.{sort_by, null}
use velm.Runtime.{GoRuntime}
use velm.Security.Model.{Rule, Evaluator, normalize_operation, key_of}
use velm.Security.Roles.{user_has_role, holds_candidate}
use velm.Security.Decision.{
  Record, Verdict, rule_applies_to, rules_for, first_match, rule_matches, condition_passes,
  record_values, scope_decision,
}
use velm.Security.Loading.{rule_less}
use velm.Security.Shadowing.Found.{without_later, find_shadowed-Shadowed}
use velm.Security.Shadowing.{scope_key, shadows, find_shadowed}

-- The texts that are joined into a scope key hold no zero byte.
abbrev pub NoZero : Text → Type 0
NoZero = All (λ c. c ≢ 0)

abbrev pub HasPlainKey : Text → Rule → Type 0
HasPlainKey table rule =
    NoZero (if key_of rule.table == [] then key_of table else key_of rule.table)
    × NoZero rule.operation

split_at_zero :
    (s t u v : Text) → NoZero s → NoZero t → s ++ (0 ∷ u) ≡ t ++ (0 ∷ v) → (s ≡ t) × (u ≡ v)
split_at_zero [] [] u v h k e = (refl, cc)
split_at_zero [] (d ∷ t) u v h (n, k) e = absurd (n (cc))
split_at_zero (c ∷ s) [] u v (n, h) k e = absurd (n (cc))
split_at_zero (c ∷ s) (d ∷ t) u v (n, h) (m, k) e =
    let (same, rest) = split_at_zero s t u v h k (cc) in (cc, rest)

scope_key-same :
    (table : Text) (a b : Rule)
    → HasPlainKey table a
    → HasPlainKey table b
    → scope_key a table ≡ scope_key b table
    → (a.operation ≡ b.operation) × (key_of a.field ≡ key_of b.field)
unfolding scope_key
scope_key-same table a b h k e = split_at_zero _ _ _ _ h.1 k.1 (split_at_zero _ _ _ _ h.0 k.0 e).1

-- A rule behind one that matches whenever it does is never the first to match.
first_match-drop :
    (matches : Rule → Bool) (before after : List Rule) (later : Rule)
    → (matches later ≡ true → any matches before ≡ true)
    → first_match matches (before ++ (later ∷ after)) ≡ first_match matches (before ++ after)
unfolding first_match
first_match-drop matches [] after later h = elim (Bool-cases (matches later)) [
  | inl e ↦ cc (h e)
  | inr e ↦ rw e refl
]
first_match-drop matches (r ∷ before) after later h = elim (Bool-cases (matches r)) [
  | inl e ↦ rw e refl
  | inr e ↦ rw e (first_match-drop matches before after later (λ q. rw e at (h q)))
]

any-keep :
    (p matches : Rule → Bool) (before after : List Rule) (a : Rule)
    → p a ≡ true
    → matches a ≡ true
    → any matches (keep p (before ++ (a ∷ after))) ≡ true
unfolding keep
any-keep p matches [] after a h k = rw (h, k) refl
any-keep p matches (r ∷ before) after a h k = ground (arith, any-keep p matches before after a h k)

null-keep :
    (p : Rule → Bool) (before after rest : List Rule) (a : Rule)
    → p a ≡ true
    → null (keep p (before ++ (a ∷ after)) ++ rest) ≡ false
unfolding keep
null-keep p [] after rest a h = rw h refl
null-keep p (r ∷ before) after rest a h = elim (Bool-cases (p r)) [
  | inl e ↦ rw e refl
  | inr e ↦ rw e (null-keep p before after rest a h)
]

-- Rules in the place of one another.
module _ (go : GoRuntime) (now : go.Time) (e : Evaluator) (field : Text)
    (values : List (Text × Text)) where
  blank_passes :
      (condition : Text) → condition ≡ [] → condition_passes go now condition values field ≡ true
  unfolding condition_passes trim ◌==◌
  blank_passes condition h = rw h refl

  shadows-matches :
      (table : Text) (a b : Rule)
      → shadows table a b ≡ true
      → rule_matches go now e values field b ≡ true
      → rule_matches go now e values field a ≡ true
  unfolding shadows rule_matches
  shadows-matches table a b s m = ground (
    arith,
    eq_iff a.role b.role,
    eq_iff a.condition b.condition,
    eq_iff a.condition [],
    blank_passes a.condition,
  )

skip_rule :
    (p : Rule → Bool) (r : Rule) (rules : List Rule)
    → p r ≡ false
    → keep p (r ∷ rules) ≡ keep p rules
unfolding keep
skip_rule p r rules e = rw e refl

take_rule :
    (p : Rule → Bool) (r : Rule) (rules : List Rule)
    → p r ≡ true
    → keep p (r ∷ rules) ≡ r ∷ keep p rules
unfolding keep
take_rule p r rules e = rw e refl

-- The verdict of a list of rules that apply.
verdict : (Rule → Bool) → List Rule → Verdict
verdict matches rules =
    if null rules
    then record { has_rules = false; allowed = true }
    else record { has_rules = true; allowed = first_match matches rules }

verdict-drop :
    (matches p : Rule → Bool) (before between after : List Rule) (earlier later : Rule)
    → p later ≡ p earlier
    → (matches later ≡ true → matches earlier ≡ true)
    → verdict matches (keep p ((before ++ (earlier ∷ between)) ++ (later ∷ after)))
      ≡ verdict matches (keep p ((before ++ (earlier ∷ between)) ++ after))
unfolding verdict
verdict-drop matches p before between after earlier later same covers =
    let front = before ++ (earlier ∷ between) in
    rw (keep-append p front (later ∷ after), keep-append p front after)
      (elim (Bool-cases (p later)) [
        | inr e ↦ rw (skip_rule p later after e) refl
        | inl e ↦
            let f : p earlier ≡ true = sym same ∙ e in
            rw
              (
                take_rule p later after e,
                null-keep p before between (later ∷ keep p after) earlier f,
                null-keep p before between (keep p after) earlier f,
                first_match-drop matches (keep p front) (keep p after) later
                    (λ q. any-keep p matches before between earlier f (covers q)),
              )
              refl
      ])

module _ (go : GoRuntime) (now : go.Time) where
  scope_decision-verdict :
      (e : Evaluator) (operation field : Text) (r : Record go)
      → scope_decision go now e operation field r
        ≡ verdict (rule_matches go now e (record_values go r) field) (rules_for e operation field)
  unfolding scope_decision verdict
  scope_decision-verdict e operation field r = refl

decision_without :
    (go : GoRuntime) (now : go.Time) (e : Evaluator) (fewer : List Rule) (operation field : Text)
    (r : Record go)
    → verdict
        (rule_matches go now e (record_values go r) field)
        (keep (rule_applies_to (normalize_operation operation) (key_of field)) e.rules)
      ≡ verdict
          (rule_matches go now e (record_values go r) field)
          (keep (rule_applies_to (normalize_operation operation) (key_of field)) fewer)
    → scope_decision go now e operation field r
      ≡ scope_decision go now (record e { rules = fewer }) operation field r
unfolding scope_decision verdict rules_for rule_matches user_has_role holds_candidate
decision_without go now e fewer operation field r h = h

shadows-key :
    (table : Text) (a b : Rule) → shadows table a b ≡ true → scope_key a table ≡ scope_key b table
unfolding shadows
shadows-key table a b h = ground (arith, eq_iff (scope_key a table) (scope_key b table))

shadows-rule_applies_to :
    (table operation field : Text) (a b : Rule)
    → HasPlainKey table a
    → HasPlainKey table b
    → shadows table a b ≡ true
    → rule_applies_to operation field b ≡ rule_applies_to operation field a
unfolding rule_applies_to
shadows-rule_applies_to table operation field a b h k s =
    let (op, f) = scope_key-same table a b h k (shadows-key table a b s) in cc

-- A rule that the validator refuses decides nothing: for every user, operation, field and record,
-- the evaluator that has the validated rules in its order reaches the same decision without the rule.
-- The tables and the operations of the two rules hold no zero byte, by which the validator joins
-- them.
pub find_shadowed_inert :
    (go : GoRuntime) (now : go.Time) (table : Text) (rules : List Rule) (earlier later : Rule)
    (found : find_shadowed table rules ≡ some (earlier, later))
    → HasPlainKey table earlier
    → HasPlainKey table later
    → (e : Evaluator) (operation field : Text) (r : Record go) → e.rules ≡ sort_by rule_less rules
    → scope_decision go now e operation field r
      ≡ scope_decision go now
          (record e {
            rules = without_later (find_shadowed-Shadowed table rules earlier later found);
          })
          operation
          field
          r
unfolding rule_matches user_has_role holds_candidate
find_shadowed_inert go now table rules earlier later found h k e operation field r same =
    let s = find_shadowed-Shadowed table rules earlier later found in
    let p = rule_applies_to (normalize_operation operation) (key_of field) in
    let matches = rule_matches go now e (record_values go r) field in
    decision_without go now e (without_later s) operation field r (
      rw (same ∙ s.split) (
        verdict-drop matches p s.before s.between s.after earlier later
          (shadows-rule_applies_to table (normalize_operation operation) (key_of field) earlier
            later h k s.shadowed)
          (shadows-matches go now e field (record_values go r) table earlier later s.shadowed)))
