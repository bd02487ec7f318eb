-- ===== src/Security/Decision/FirstMatch.antt =====
-- What the loop of scopeDecision decides: the first rule that matches.
use velm.Base.{Bool, true, false, ◌≡◌, ◌≢◌, ◌⊎◌, inl, inr, refl, Bool-cases}
use velm.Base.{List, [], ◌∷◌, ◌++◌, Text, All, null}
use velm.Runtime.{GoRuntime}
use velm.Security.Model.{Rule, Evaluator, rule_allows}
use velm.Security.Decision.{
  Record, scope_decision, first_match, rule_matches, rules_for, record_values,
}

-- A rule of the list is the first that matches: all before it do not.
pub record FirstMatch (matches : Rule → Bool) (rules : List Rule) (rule : Rule) : Type 0 where
  pub before : List Rule
  pub after : List Rule
  pub split : rules ≡ before ++ (rule ∷ after)
  pub passed_over : All (λ r. matches r ≡ false) before
  pub taken : matches rule ≡ true

abbrev pub Unmatched : (Rule → Bool) → List Rule → Type 0
Unmatched matches rules = All (λ r. matches r ≡ false) rules

FirstMatch-cons :
    {matches : Rule → Bool} {rules : List Rule} {rule : Rule} (r : Rule)
    → matches r ≡ false
    → FirstMatch matches rules rule
    → FirstMatch matches (r ∷ rules) rule
FirstMatch-cons r h m = record {
  before = r ∷ m.before;
  after = m.after;
  split = λ i. r ∷ m.split i;
  passed_over = (h, m.passed_over);
  taken = m.taken;
}

-- There is a first match, or no rule matches.
pub FirstMatch-cases :
    (matches : Rule → Bool) (rules : List Rule)
    → Unmatched matches rules ⊎ ((rule : Rule) × FirstMatch matches rules rule)
FirstMatch-cases matches [] = inl tt
FirstMatch-cases matches (r ∷ rules) = elim (Bool-cases (matches r)) [
  | inl e ↦
      inr (r, record { before = []; after = rules; split = refl; passed_over = tt; taken = e })
  | inr e ↦ elim (FirstMatch-cases matches rules) [
    | inl u ↦ inl (e, u)
    | inr (rule, m) ↦ inr (rule, FirstMatch-cons r e m)
  ]
]

-- Rules that do not match change nothing.
pub first_match-append :
    (matches : Rule → Bool) (before after : List Rule)
    → Unmatched matches before
    → first_match matches (before ++ after) ≡ first_match matches after
unfolding first_match
first_match-append matches [] after h = refl
first_match-append matches (r ∷ before) after (e, h) =
    rw e (first_match-append matches before after h)

first_match-Unmatched :
    (matches : Rule → Bool) (rules : List Rule)
    → Unmatched matches rules
    → first_match matches rules ≡ false
unfolding first_match
first_match-Unmatched matches [] h = refl
first_match-Unmatched matches (r ∷ rules) (e, h) = rw e (first_match-Unmatched matches rules h)

first_match_taken :
    (matches : Rule → Bool) (rules : List Rule) (rule : Rule)
    → FirstMatch matches rules rule
    → first_match matches rules ≡ rule_allows rule
first_match_taken matches rules rule m =
    rw (m.split, first_match-append matches m.before (rule ∷ m.after) m.passed_over)
      (unfold first_match in rw m.taken refl)

null-eq : (rules : List Rule) → null rules ≡ true → rules ≡ []
null-eq [] h = refl
null-eq (r ∷ rules) h = cc

null-ne : (rules : List Rule) → null rules ≡ false → rules ≢ []
null-ne [] h e = cc
null-ne (r ∷ rules) h e = cc

null-split :
    (rules before : List Rule) (rule : Rule) (after : List Rule)
    → rules ≡ before ++ (rule ∷ after)
    → null rules ≡ false
null-split rules [] rule after h = rw h refl
null-split rules (r ∷ before) rule after h = rw h refl

module _ (go : GoRuntime) (now : go.Time) (e : Evaluator) (operation field : Text)
    (r : Record go) where
  abbrev pub is_match : Rule → Bool
  is_match = rule_matches go now e (record_values go r) field

  pub scope_decision_bare :
      rules_for e operation field ≡ []
      → scope_decision go now e operation field r ≡ record { has_rules = false; allowed = true }
  unfolding scope_decision
  scope_decision_bare h = rw h refl

  pub scope_decision_taken :
      (rule : Rule)
      → FirstMatch is_match (rules_for e operation field) rule
      → scope_decision go now e operation field r
        ≡ record { has_rules = true; allowed = rule_allows rule }
  unfolding scope_decision
  scope_decision_taken rule m =
      rw (first_match_taken is_match _ rule m, null-split _ m.before rule m.after m.split) refl

  -- The decision of scopeDecision, whatever the user, the record and the rules: with no rule for the
  -- operation and field it reports none and allows; else the first rule that matches decides by its
  -- effect, and if no rule matches the answer is no.
  pub scope_decision_cases :
      ((rules_for e operation field ≡ [])
        × (scope_decision go now e operation field r
            ≡ record { has_rules = false; allowed = true }))
      ⊎ ((rules_for e operation field ≢ [])
          × Unmatched is_match (rules_for e operation field)
          × (scope_decision go now e operation field r
              ≡ record { has_rules = true; allowed = false }))
      ⊎ ((rule : Rule) × FirstMatch is_match (rules_for e operation field) rule
          × (scope_decision go now e operation field r
              ≡ record { has_rules = true; allowed = rule_allows rule }))
  unfolding scope_decision
  scope_decision_cases = elim (Bool-cases (null (rules_for e operation field))) [
    | inl bare ↦ inl (null-eq _ bare, rw bare refl)
    | inr some_rule ↦ elim (FirstMatch-cases is_match (rules_for e operation field)) [
      | inl u ↦
          inr
            (inl (null-ne _ some_rule, u, rw (some_rule, first_match-Unmatched is_match _ u) refl))
      | inr (rule, m) ↦
          inr (inr (rule, m, rw (some_rule, first_match_taken is_match _ rule m) refl))
    ]
  ]
