-- ===== src/Expression/Evaluator/Logic.antt =====
-- `&&` and `||` against the values of their operands.
use velm.Base.{Bool, true, false, ◌≡◌, ◌↔◌, inl, inr, refl, Bool-cases, if◌then◌else◌}
use velm.Base.{Result, ok, err, ◌>>=◌, txt, ◌==◌}
use velm.Runtime.{GoRuntime}
use velm.Expression.Syntax.{Node, binary, Failure}
use velm.Expression.Values.{truthy, bool}
use velm.Expression.Evaluator.{Context, V, eval}

module _ (go : GoRuntime) (ctx : Context go) where
  -- A tree has a value that counts as true, or as false.
  abbrev pub IsTruthy : Bool → Node go.Float → Type 0
  IsTruthy b n = (v : V go) × (eval go ctx n ≡ ok v) × (truthy go v ≡ b)

  -- The evaluator's steps after the operator, over the results of both sides.
  abbrev conjunction : Result Failure (V go) → Result Failure (V go) → Result Failure (V go)
  conjunction l r = do
    a ← l
    if truthy go a then (do b ← r; ok (bool (truthy go b))) else ok (bool false)

  abbrev disjunction : Result Failure (V go) → Result Failure (V go) → Result Failure (V go)
  disjunction l r = do
    a ← l
    if truthy go a then ok (bool true) else do b ← r; ok (bool (truthy go b))

  eval-and :
      (left right : Node go.Float)
      → eval go ctx (binary (txt "&&") left right)
        ≡ conjunction (eval go ctx left) (eval go ctx right)
  unfolding eval txt ◌==◌
  eval-and left right = refl

  eval-or :
      (left right : Node go.Float)
      → eval go ctx (binary (txt "||") left right)
        ≡ disjunction (eval go ctx left) (eval go ctx right)
  unfolding eval txt ◌==◌
  eval-or left right = refl

  conjunction-true :
      (l r : Result Failure (V go))
      → (conjunction l r ≡ ok (bool true)) ↔ (
          ((v : V go) × (l ≡ ok v) × (truthy go v ≡ true))
          × ((v : V go) × (r ≡ ok v) × (truthy go v ≡ true)))
  conjunction-true (ok a) (ok b) = elim (Bool-cases (truthy go a)) [
    | inl t ↦ rw t (λ h. ((a, refl, cc), (b, refl, cc)), λ ((v, e, p), (w, f, q)). cc)
    | inr t ↦ rw t (λ h. cc, λ ((v, e, p), (w, f, q)). cc)
  ]
  conjunction-true (ok a) (err e) = elim (Bool-cases (truthy go a)) [
    | inl t ↦ rw t (λ h. cc, λ (k, (v, p, q)). cc)
    | inr t ↦ rw t (λ h. cc, λ (k, (v, p, q)). cc)
  ]
  conjunction-true (err e) r = (λ h. cc, λ ((v, p, q), k). cc)

  disjunction-false :
      (l r : Result Failure (V go))
      → (disjunction l r ≡ ok (bool false)) ↔ (
          ((v : V go) × (l ≡ ok v) × (truthy go v ≡ false))
          × ((v : V go) × (r ≡ ok v) × (truthy go v ≡ false)))
  disjunction-false (ok a) (ok b) = elim (Bool-cases (truthy go a)) [
    | inl t ↦ rw t (λ h. cc, λ ((v, e, p), (w, f, q)). cc)
    | inr t ↦ rw t (λ h. ((a, refl, cc), (b, refl, cc)), λ ((v, e, p), (w, f, q)). cc)
  ]
  disjunction-false (ok a) (err e) = elim (Bool-cases (truthy go a)) [
    | inl t ↦ rw t (λ h. cc, λ (k, (v, p, q)). cc)
    | inr t ↦ rw t (λ h. cc, λ (k, (v, p, q)). cc)
  ]
  disjunction-false (err e) r = (λ h. cc, λ ((v, p, q), k). cc)

  -- A conjunction is true exactly if both sides have values that count as true, and a disjunction
  -- is false exactly if both sides have values that count as false.
  pub and_or_values :
      (left right : Node go.Float)
      → ((eval go ctx (binary (txt "&&") left right) ≡ ok (bool true))
          ↔ (IsTruthy true left × IsTruthy true right))
        × ((eval go ctx (binary (txt "||") left right) ≡ ok (bool false))
            ↔ (IsTruthy false left × IsTruthy false right))
  and_or_values left right = (
    rw (eval-and left right) (conjunction-true (eval go ctx left) (eval go ctx right)),
    rw (eval-or left right) (disjunction-false (eval go ctx left) (eval go ctx right)),
  )
