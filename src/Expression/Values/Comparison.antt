-- ===== src/Expression/Values/Comparison.antt =====
-- Laws of the comparison operators.
use velm.Base.{Bool, not, ◌&&◌, ◌||◌, none, some, ok, txt}
use velm.Base.{◌≡◌, ◌↔◌, refl, arith}
use velm.Runtime.{GoRuntime}
use velm.Expression.Values.{
  V, both, relation?, coerce_bool, compare_as, compare_values, equal, different, less, greater,
}

relations :
    (relation? (txt "==") ≡ some equal)
    × (relation? (txt "=") ≡ some equal)
    × (relation? (txt "!=") ≡ some different)
    × (relation? (txt "<") ≡ some less)
    × (relation? (txt ">") ≡ some greater)
unfolding relation? txt
relations = (refl, refl, refl, refl, refl)

module _ (go : GoRuntime) where
  compare_as-different :
      (left right : V go)
      → compare_as go different left right ≡ not (compare_as go equal left right)
  unfolding compare_as
  compare_as-different left right = ground arith

  compare_as-swap :
      (left right : V go) → compare_as go greater left right ≡ compare_as go less right left
  unfolding compare_as
  compare_as-swap left right = ground arith

  -- The answer of `==`.
  unfoldable pub equal? : V go → V go → Bool
  equal? left right = elim (both (coerce_bool go left) (coerce_bool go right)) [
    | some (a, b) ↦ (a && b) || (not a && not b)
    | none ↦ compare_as go equal left right
  ]

  -- `==` and `=` are one operator on values of all kinds, `!=` is its negation, and none of the three
  -- fails.
  pub equality_operators :
      (left right : V go)
      → (compare_values go left right (txt "==") ≡ ok (equal? left right))
        × (compare_values go left right (txt "=") ≡ ok (equal? left right))
        × (compare_values go left right (txt "!=") ≡ ok (not (equal? left right)))
  unfolding compare_values equal?
  equality_operators left right = ground (arith, relations, compare_as-different left right)

  -- `a > b` is `b < a`: the one has an answer exactly if the other has the same.
  pub greater_is_less_swapped :
      (left right : V go) (b : Bool)
      → (compare_values go left right (txt ">") ≡ ok b)
        ↔ (compare_values go right left (txt "<") ≡ ok b)
  unfolding compare_values
  greater_is_less_swapped left right b = ground (arith, relations, compare_as-swap left right)
