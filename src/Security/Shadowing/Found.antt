-- ===== src/Security/Shadowing/Found.antt =====
-- What validateSecurityRuleShadowing finds: two rules of the order, the one before the other.
use velm.Base.{true, ◌≡◌, inl, inr, sym, ap, ◌∙◌, Bool-cases}
use velm.Base.{List, [], ◌∷◌, ◌++◌, Text, some, Option-cases}
use velm.Base.{sort_by, ltb, length}
use mathlib.Core.Path.{subst}
use mathlib.Core.List.{append_assoc}
use velm.Security.Model.{Rule}
use velm.Security.Loading.{rule_less}
use velm.Security.Shadowing.{shadows, shadowing, shadowed_from, find_shadowed}

-- Where a rule and a later one that it shadows stand in a list.
pub record Shadowed (table : Text) (rules : List Rule) (earlier later : Rule) : Type 0 where
  pub before : List Rule
  pub between : List Rule
  pub after : List Rule
  pub split : rules ≡ (before ++ (earlier ∷ between)) ++ (later ∷ after)
  pub shadowed : shadows table earlier later ≡ true

-- The list without the later rule.
abbrev pub without_later :
    {table : Text} {rules : List Rule} {earlier later : Rule}
    → Shadowed table rules earlier later
    → List Rule
without_later {earlier} s = (s.before ++ (earlier ∷ s.between)) ++ s.after

record Found (table : Text) (later : Rule) (before : List Rule) (found : Rule × Rule) : Type 0 where
  front : List Rule
  back : List Rule
  split : before ≡ front ++ (found.0 ∷ back)
  same : found.1 ≡ later
  shadowed : shadows table (found.0) later ≡ true

shadowing-Found :
    (table : Text) (later : Rule) (before : List Rule) (found : Rule × Rule)
    → shadowing table later before ≡ some found
    → Found table later before found
unfolding shadowing
shadowing-Found table later [] found e = cc
shadowing-Found table later (r ∷ before) found e = elim (Bool-cases (shadows table r later)) [
  | inl h ↦
      let p : some (r, later) ≡ some found = rw h at e in
      let q : (r, later) ≡ found = cc in
      record {
        front = [];
        back = before;
        split = λ i. (q i).0 ∷ before;
        same = sym (λ i. (q i).1);
        shadowed = rw (← q) h;
      }
  | inr h ↦
      let f = shadowing-Found table later before found (rw h at e) in
      record {
        front = r ∷ f.front;
        back = f.back;
        split = λ i. r ∷ f.split i;
        same = f.same;
        shadowed = f.shadowed;
      }
]

Found-Shadowed :
    {table : Text} {later : Rule} {before : List Rule} {found : Rule × Rule} (rules : List Rule)
    → Found table later before found
    → Shadowed table (before ++ (later ∷ rules)) (found.0) (found.1)
Found-Shadowed {later} {found} rules f = record {
  before = f.front;
  between = f.back;
  after = rules;
  split =
      ap (λ b. b ++ (later ∷ rules)) f.split
      ∙ ap (λ l. (f.front ++ (found.0 ∷ f.back)) ++ (l ∷ rules)) (sym f.same);
  shadowed = rw f.same f.shadowed;
}

shadowed_from-Shadowed :
    (table : Text) (before rules : List Rule) (found : Rule × Rule)
    → shadowed_from table before rules ≡ some found
    → Shadowed table (before ++ rules) (found.0) (found.1)
unfolding shadowed_from
shadowed_from-Shadowed table before [] found e = cc
shadowed_from-Shadowed table before (later ∷ rules) found e =
    elim (Option-cases (shadowing table later before)) [
      | inl none_found ↦
          subst (λ l. Shadowed table l (found.0) (found.1)) (append_assoc before (later ∷ []) rules)
            (shadowed_from-Shadowed table (before ++ later ∷ []) rules found
              (rw (none_found, shadowed_from) at e))
      | inr (pair, hit) ↦
          let same_pair : pair ≡ found = cc (rw (hit, shadowed_from) at e) in
          Found-Shadowed rules (shadowing-Found table later before found (hit ∙ ap some same_pair))
    ]

-- The rules that a refusal names stand in the order of the evaluator, the one before the other.
pub find_shadowed-Shadowed :
    (table : Text) (rules : List Rule) (earlier later : Rule)
    → find_shadowed table rules ≡ some (earlier, later)
    → Shadowed table (sort_by rule_less rules) earlier later
unfolding find_shadowed
find_shadowed-Shadowed table rules earlier later e = elim (Bool-cases (ltb (length rules) 2)) [
  | inl h ↦ cc (rw h at e)
  | inr h ↦ shadowed_from-Shadowed table [] (sort_by rule_less rules) (earlier, later) (rw h at e)
]
