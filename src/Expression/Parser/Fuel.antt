-- ===== src/Expression/Parser/Fuel.antt =====
-- The fuel of the parser: every call returns before it runs out.
use velm.Base.{ℕ, zero, suc, ◌+◌, ◌*◌, ◌≤◌, Bool, true, Option, some, ◌≡◌, ◌≢◌, arith}
use velm.Base.{inl, inr, refl, Bool-cases, Option-cases}
use velm.Base.{Result, ok, err, ◌>>=◌, List, [], ◌∷◌, length, Text, txt, ◌==◌}
use velm.Expression.Syntax.{Token, identifier, string, number, bool, empty}
use velm.Expression.Syntax.{lparen, rparen}
use velm.Expression.Syntax.{Node}
use velm.Expression.Syntax.{Failure}
use velm.Expression.Syntax.{out_of_fuel}
use velm.Expression.Parser.{
  peek, consume, operator_with, is_comparison_operator, is_unary_operator, is_rparen, is_comma,
  number_node, parse_or, or_rounds, parse_and, and_rounds, parse_comparison, parse_unary,
  parse_primary, parse_args, enough, whole_tree, parse_tokens,
}

-- A result that leaves at most `m` tokens, or an error that is the parser's own.
abbrev Settles : {A : Type 0} → ℕ → Result Failure (A × List Token) → Type 0
Settles m (ok p) = length (p.1) ≤ m
Settles m (err e) = e ≢ out_of_fuel

Settles-bind :
    {A B : Type 0} (m k : ℕ) (r : Result Failure (A × List Token))
    (g : A × List Token → Result Failure (B × List Token))
    → Settles m r
    → ((p : A × List Token) → length (p.1) ≤ m → Settles k (g p))
    → Settles k (r >>= g)
Settles-bind m k (ok p) g h c = c p h
Settles-bind m k (err e) g h c = h

Settles-le :
    {A : Type 0} (m k : ℕ) (r : Result Failure (A × List Token)) → Settles m r → m ≤ k → Settles k r
Settles-le m k (ok p) h l = omega arith
Settles-le m k (err e) h l = h

-- A token that passes a test on operators is there to be consumed.
length-consume :
    (p : Text → Bool) (ts : List Token) {op : Text}
    → operator_with p (peek ts) ≡ some op
    → suc (length (consume ts)) ≡ length ts
unfolding operator_with peek consume
length-consume p [] e = cc
length-consume p (t ∷ ts) e = refl

length-consume_rparen :
    (ts : List Token) → is_rparen (peek ts) ≡ true → length (consume ts) ≤ length ts
unfolding peek consume
length-consume_rparen [] e = omega arith
length-consume_rparen (t ∷ ts) e = omega arith

length-consume_comma :
    (ts : List Token) → is_comma (peek ts) ≡ true → suc (length (consume ts)) ≡ length ts
unfolding peek consume
length-consume_comma [] e = cc
length-consume_comma (t ∷ ts) e = refl

module _ {F : Type 0} (parse_float : Text → Option F) where
  number_node-Settles :
      (v : Text) (ts : List Token) (m : ℕ)
      → length ts ≤ m
      → Settles m (number_node parse_float v (parse_float v) ts)
  unfolding number_node
  number_node-Settles v ts m h = elim (Option-cases (parse_float v)) [
    | inl e ↦ rw e (λ q. cc)
    | inr (x, e) ↦ rw e h
  ]

  mutual
    unfolding parse_or

    parse_or-Settles :
        (f : ℕ) (ts : List Token)
        → 8 * length ts + 5 ≤ f
        → Settles (length ts) (parse_or parse_float f ts)
    parse_or-Settles zero ts h = absurd (omega arith)
    parse_or-Settles (suc f) ts h =
        Settles-bind (length ts) (length ts) _ _ (parse_and-Settles f ts (omega arith)) λ p l.
          Settles-le (length (p.1)) (length ts) _ (or_rounds-Settles f (p.0) (p.1) (omega arith)) l

    or_rounds-Settles :
        (f : ℕ) (n : Node F) (ts : List Token)
        → 8 * length ts + 1 ≤ f
        → Settles (length ts) (or_rounds parse_float f n ts)
    or_rounds-Settles zero n ts h = absurd (omega arith)
    or_rounds-Settles (suc f) n ts h =
        elim (Option-cases (operator_with (λ v. v == txt "||") (peek ts))) [
          | inl e ↦ rw (e, Settles) (omega arith)
          | inr (op, e) ↦
              let shorter = length-consume _ ts e in
              rw (e, Settles)
                (Settles-bind (length (consume ts)) (length ts) _ _
                  (parse_and-Settles f (consume ts) (omega arith))
                  λ p l.
                    Settles-le (length (p.1)) (length ts) _
                      (or_rounds-Settles f _ (p.1) (omega arith)) (omega arith))
        ]

    parse_and-Settles :
        (f : ℕ) (ts : List Token)
        → 8 * length ts + 4 ≤ f
        → Settles (length ts) (parse_and parse_float f ts)
    parse_and-Settles zero ts h = absurd (omega arith)
    parse_and-Settles (suc f) ts h =
        Settles-bind (length ts) (length ts) _ _ (parse_comparison-Settles f ts (omega arith))
          λ p l.
            Settles-le (length (p.1)) (length ts) _ (and_rounds-Settles f (p.0) (p.1) (omega arith))
              l

    and_rounds-Settles :
        (f : ℕ) (n : Node F) (ts : List Token)
        → 8 * length ts + 1 ≤ f
        → Settles (length ts) (and_rounds parse_float f n ts)
    and_rounds-Settles zero n ts h = absurd (omega arith)
    and_rounds-Settles (suc f) n ts h =
        elim (Option-cases (operator_with (λ v. v == txt "&&") (peek ts))) [
          | inl e ↦ rw (e, Settles) (omega arith)
          | inr (op, e) ↦
              let shorter = length-consume _ ts e in
              rw (e, Settles)
                (Settles-bind (length (consume ts)) (length ts) _ _
                  (parse_comparison-Settles f (consume ts) (omega arith))
                  λ p l.
                    Settles-le (length (p.1)) (length ts) _
                      (and_rounds-Settles f _ (p.1) (omega arith)) (omega arith))
        ]

    parse_comparison-Settles :
        (f : ℕ) (ts : List Token)
        → 8 * length ts + 3 ≤ f
        → Settles (length ts) (parse_comparison parse_float f ts)
    parse_comparison-Settles zero ts h = absurd (omega arith)
    parse_comparison-Settles (suc f) ts h =
        Settles-bind (length ts) (length ts) _ _ (parse_unary-Settles f ts (omega arith)) λ p l.
          elim (Option-cases (operator_with is_comparison_operator (peek (p.1)))) [
            | inl e ↦ rw (e, Settles) l
            | inr (op, e) ↦
                let shorter = length-consume _ (p.1) e in
                rw (e, Settles)
                  (Settles-bind (length (consume (p.1))) (length ts) _ _
                    (parse_unary-Settles f (consume (p.1)) (omega arith)) λ q k. omega arith)
          ]

    parse_unary-Settles :
        (f : ℕ) (ts : List Token)
        → 8 * length ts + 2 ≤ f
        → Settles (length ts) (parse_unary parse_float f ts)
    parse_unary-Settles zero ts h = absurd (omega arith)
    parse_unary-Settles (suc f) ts h =
        elim (Option-cases (operator_with is_unary_operator (peek ts))) [
          | inl e ↦ rw (e, Settles) (parse_primary-Settles f ts (omega arith))
          | inr (op, e) ↦
              let shorter = length-consume _ ts e in
              rw (e, Settles)
                (Settles-bind (length (consume ts)) (length ts) _ _
                  (parse_unary-Settles f (consume ts) (omega arith)) λ q k. omega arith)
        ]

    parse_primary-Settles :
        (f : ℕ) (ts : List Token)
        → 8 * length ts + 1 ≤ f
        → Settles (length ts) (parse_primary parse_float f ts)
    parse_primary-Settles zero ts h = absurd (omega arith)
    parse_primary-Settles (suc f) [] h = λ q. cc
    parse_primary-Settles (suc f) (identifier v ∷ lparen ∷ rparen ∷ ts) h = omega arith
    parse_primary-Settles (suc f) (identifier v ∷ lparen ∷ ts) h =
        Settles-bind (length ts) (suc (suc (length ts))) _ _ (parse_args-Settles f ts (omega arith))
          λ p l. omega arith
    parse_primary-Settles (suc f) (identifier v ∷ ts) h = omega arith
    parse_primary-Settles (suc f) (string v ∷ ts) h = omega arith
    parse_primary-Settles (suc f) (number v ∷ ts) h =
        number_node-Settles v ts (suc (length ts)) (omega arith)
    parse_primary-Settles (suc f) (bool v ∷ ts) h = omega arith
    parse_primary-Settles (suc f) (empty v ∷ ts) h = omega arith
    parse_primary-Settles (suc f) (lparen ∷ ts) h =
        Settles-bind (length ts) (suc (length ts)) _ _ (parse_or-Settles f ts (omega arith)) λ p l.
          elim (Bool-cases (is_rparen (peek (p.1)))) [
            | inl e ↦ let shorter = length-consume_rparen (p.1) e in rw (e, Settles) (omega arith)
            | inr e ↦ rw (e, Settles) (λ q. cc)
          ]
    parse_primary-Settles (suc f) (t ∷ ts) h = λ q. cc

    parse_args-Settles :
        (f : ℕ) (ts : List Token)
        → 8 * length ts + 6 ≤ f
        → Settles (length ts) (parse_args parse_float f ts)
    parse_args-Settles zero ts h = absurd (omega arith)
    parse_args-Settles (suc f) ts h =
        Settles-bind (length ts) (length ts) _ _ (parse_or-Settles f ts (omega arith)) λ p l.
          elim (Bool-cases (is_rparen (peek (p.1)))) [
            | inl e ↦ let shorter = length-consume_rparen (p.1) e in rw (e, Settles) (omega arith)
            | inr e ↦ elim (Bool-cases (is_comma (peek (p.1)))) [
              | inl c ↦
                  let shorter = length-consume_comma (p.1) c in
                  rw (e, c, Settles)
                    (Settles-bind (length (consume (p.1))) (length ts) _ _
                      (parse_args-Settles f (consume (p.1)) (omega arith)) λ q k. omega arith)
              | inr c ↦ rw (e, c, Settles) (λ q. cc)
            ]
          ]

  whole_tree-ne :
      (m : ℕ) (r : Result Failure (Node F × List Token))
      → Settles m r
      → (r >>= whole_tree) ≢ err out_of_fuel
  whole_tree-ne m (err e) h q = h (ground arith)
  whole_tree-ne m (ok (n, ts)) h q = ground arith

  -- The parser answers on every list of tokens: it never runs out of the fuel that it is given.
  pub parse_tokens_total : (ts : List Token) → parse_tokens parse_float ts ≢ err out_of_fuel
  parse_tokens_total ts =
      unfold parse_tokens in
      whole_tree-ne (length ts) _ (parse_or-Settles (enough ts) ts (omega arith))
