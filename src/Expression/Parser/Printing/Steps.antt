-- ===== src/Expression/Parser/Printing/Steps.antt =====
-- One step of each of the parser's methods, where the calls in it succeed.
use velm.Base.{
  ℕ, suc, Bool, true, Option, none, ◌≡◌, refl, ap, ◌∙◌, Result, ok, ◌>>=◌, List, ◌∷◌, Text, txt,
  ◌==◌,
}
use velm.Expression.Syntax.{Failure}
use velm.Expression.Syntax.{Token, operator, lparen, rparen, Node, unary, binary}
use velm.Expression.Parser.{
  peek, consume, operator_with, is_comparison_operator, is_unary_operator, parse_or, or_rounds,
  parse_and, and_rounds, parse_comparison, parse_unary, parse_primary,
}

pub bind_ok :
    {A B : Type 0} (r : Result Failure A) (k : A → Result Failure B) (a : A) (x : Result Failure B)
    → r ≡ ok a
    → k a ≡ x
    → (r >>= k) ≡ x
bind_ok r k a x e h = ap (λ s. s >>= k) e ∙ h

-- No operator follows.
abbrev pub NoOperator : List Token → Type 0
NoOperator rest = (p : Text → Bool) → operator_with p (peek rest) ≡ none

abbrev pub NoAnd : List Token → Type 0
NoAnd rest = operator_with (λ v. v == txt "&&") (peek rest) ≡ none

abbrev pub NoOr : List Token → Type 0
NoOr rest = operator_with (λ v. v == txt "||") (peek rest) ≡ none

module _ {F : Type 0} (parse_float : Text → Option F) where
  pub comparison_alone :
      (f : ℕ) (ts rest : List Token) (n : Node F)
      → parse_unary parse_float f ts ≡ ok (n, rest)
      → operator_with is_comparison_operator (peek rest) ≡ none
      → parse_comparison parse_float (suc f) ts ≡ ok (n, rest)
  unfolding parse_comparison
  comparison_alone f ts rest n e h = bind_ok _ _ _ _ e (rw h refl)

  pub comparison_pair :
      (f : ℕ) (ts middle rest : List Token) (op : Text) (l r : Node F)
      → parse_unary parse_float f ts ≡ ok (l, operator op ∷ middle)
      → is_comparison_operator op ≡ true
      → parse_unary parse_float f middle ≡ ok (r, rest)
      → parse_comparison parse_float (suc f) ts ≡ ok (binary op l r, rest)
  unfolding parse_comparison peek consume operator_with
  comparison_pair f ts middle rest op l r e h k = bind_ok _ _ _ _ e (rw h (bind_ok _ _ _ _ k refl))

  pub and_end :
      (f : ℕ) (n : Node F) (rest : List Token)
      → NoAnd rest
      → and_rounds parse_float (suc f) n rest ≡ ok (n, rest)
  unfolding and_rounds
  and_end f n rest h = rw (h, and_rounds) refl

  pub or_end :
      (f : ℕ) (n : Node F) (rest : List Token)
      → NoOr rest
      → or_rounds parse_float (suc f) n rest ≡ ok (n, rest)
  unfolding or_rounds
  or_end f n rest h = rw (h, or_rounds) refl

  pub and_alone :
      (f : ℕ) (ts rest : List Token) (n : Node F)
      → parse_comparison parse_float (suc f) ts ≡ ok (n, rest)
      → NoAnd rest
      → parse_and parse_float (suc (suc f)) ts ≡ ok (n, rest)
  unfolding parse_and
  and_alone f ts rest n e h = bind_ok _ _ _ _ e (and_end f n rest h)

  pub and_pair :
      (f : ℕ) (ts middle rest : List Token) (l r : Node F)
      → parse_comparison parse_float (suc (suc f)) ts ≡ ok (l, operator (txt "&&") ∷ middle)
      → parse_comparison parse_float (suc f) middle ≡ ok (r, rest)
      → NoAnd rest
      → parse_and parse_float (suc (suc (suc f))) ts ≡ ok (binary (txt "&&") l r, rest)
  unfolding parse_and peek consume operator_with txt ◌==◌
  and_pair f ts middle rest l r e k h = bind_ok _ _ _ _ e (bind_ok _ _ _ _ k (and_end f _ rest h))

  pub or_alone :
      (f : ℕ) (ts rest : List Token) (n : Node F)
      → parse_and parse_float (suc f) ts ≡ ok (n, rest)
      → NoOr rest
      → parse_or parse_float (suc (suc f)) ts ≡ ok (n, rest)
  unfolding parse_or
  or_alone f ts rest n e h = bind_ok _ _ _ _ e (or_end f n rest h)

  pub or_pair :
      (f : ℕ) (ts middle rest : List Token) (l r : Node F)
      → parse_and parse_float (suc (suc f)) ts ≡ ok (l, operator (txt "||") ∷ middle)
      → parse_and parse_float (suc f) middle ≡ ok (r, rest)
      → NoOr rest
      → parse_or parse_float (suc (suc (suc f))) ts ≡ ok (binary (txt "||") l r, rest)
  unfolding parse_or peek consume operator_with txt ◌==◌
  or_pair f ts middle rest l r e k h = bind_ok _ _ _ _ e (bind_ok _ _ _ _ k (or_end f _ rest h))

  pub unary_step :
      (f : ℕ) (ts rest : List Token) (op : Text) (n : Node F)
      → is_unary_operator op ≡ true
      → parse_unary parse_float f ts ≡ ok (n, rest)
      → parse_unary parse_float (suc f) (operator op ∷ ts) ≡ ok (unary op n, rest)
  unfolding parse_unary peek consume operator_with
  unary_step f ts rest op n h e = rw (h, parse_unary, operator_with) (bind_ok _ _ _ _ e refl)

  pub paren_step :
      (f : ℕ) (ts rest : List Token) (n : Node F)
      → parse_or parse_float f ts ≡ ok (n, rparen ∷ rest)
      → parse_primary parse_float (suc f) (lparen ∷ ts) ≡ ok (n, rest)
  unfolding parse_primary peek consume
  paren_step f ts rest n e = bind_ok _ _ _ _ e refl
