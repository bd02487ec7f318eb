-- ===== src/Security/Loading/Ordering.antt =====
-- The order in which the rules of a table are tried.
use velm.Base.{
  ℕ, ◌≤◌, Bool, true, false, ◌&&◌, ◌≡◌, refl, arith, List, [], ◌∷◌, Text, ◌==◌, nat_eq, text_lt,
  text_lt-asym, eq_iff, keep, IsSorted, sort_by-IsSorted, sort_by-perm, sort_by-keep,
}
use mathlib.Core.List.{Perm}
use velm.Security.Model.{Rule, rule_table_name}
use velm.Security.Loading.{rule_less, ordered_rules}

pub rule_less-asym : (a b : Rule) → rule_less a b ≡ true → rule_less b a ≡ false
unfolding rule_less
rule_less-asym a b h = ground (arith, text_lt-asym a.name b.name)

-- A rule may stand before another: its order is lower, or the same and its name not later.
abbrev pub Precedes : Rule → Rule → Type 0
Precedes a b = (a.order ≤ b.order) × (a.order ≡ b.order → text_lt b.name a.name ≡ false)

abbrev pub AreInOrder : List Rule → Type 0
AreInOrder [] = Unit
AreInOrder (a ∷ []) = Unit
AreInOrder (a ∷ b ∷ rules) = Precedes a b × AreInOrder (b ∷ rules)

not_less-Precedes : (a b : Rule) → rule_less b a ≡ false → Precedes a b
unfolding rule_less
not_less-Precedes a b h = (ground arith, λ e. ground arith)

sorted-AreInOrder : (rules : List Rule) → IsSorted rule_less rules → AreInOrder rules
sorted-AreInOrder [] h = tt
sorted-AreInOrder (a ∷ []) h = tt
sorted-AreInOrder (a ∷ b ∷ rules) (p, h) =
    (not_less-Precedes a b p, sorted-AreInOrder (b ∷ rules) h)

-- The rules of one order and one name.
abbrev pub has_rank : ℕ → Text → Rule → Bool
has_rank order name rule = nat_eq rule.order order && rule.name == name

text_lt_irrefl : (s : Text) → text_lt s s ≡ false
unfolding text_lt
text_lt_irrefl [] = refl
text_lt_irrefl (c ∷ s) = ground (arith, text_lt_irrefl s)

level :
    (order : ℕ) (name : Text) (a b : Rule)
    → has_rank order name a ≡ true
    → has_rank order name b ≡ true
    → rule_less a b ≡ false
unfolding rule_less
level order name a b h k =
    ground (arith, eq_iff a.name name, eq_iff b.name name, text_lt_irrefl name)

-- The rules that are tried for a table are, each as often as it was declared, the declared rules
-- that name the table or none. They are tried by rising order, by name within one order, and as they
-- were declared within one order and one name.
pub ordered_rules_lem :
    (table : Text) (rules : List Rule)
    → Perm (ordered_rules table rules) (keep (λ rule. rule_table_name rule table == table) rules)
      × AreInOrder (ordered_rules table rules)
      × ((order : ℕ) (name : Text)
          → keep (has_rank order name) (ordered_rules table rules)
            ≡ keep (has_rank order name) (keep (λ rule. rule_table_name rule table == table) rules))
unfolding ordered_rules
ordered_rules_lem table rules = (
  sort_by-perm rule_less _,
  sorted-AreInOrder _ (sort_by-IsSorted rule_less rule_less-asym _),
  λ order name. sort_by-keep rule_less (has_rank order name) (level order name) _,
)
