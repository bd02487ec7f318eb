-- ===== src/Query/Parser/Fuel.antt =====
-- The fuel of the parser of filters: no call runs out of it.
use velm.Base.{
  ℕ, zero, suc, ◌+◌, ◌*◌, ◌≤◌, Bool, true, false, if◌then◌else◌, ◌≡◌, ◌≢◌, arith, inl, inr,
  Bool-cases, Option, none, some, Result, ok, err, ◌>>=◌, List, [], ◌∷◌, length, Text, txt, trim,
  ◌==◌, null,
}
use velm.Query.Syntax.{
  Token, end, identifier, literal, operator, lparen, rparen, Node, both, either, Failure,
  out_of_fuel, is_comparison_operator, is_logical_operator,
}
use velm.Query.Parser.{
  peek, next, operator?, is_lparen, is_rparen, is_operator_with, join_words, column_parts,
  value_parts, with_word, Parsed, with_value, with_operator, parse_condition, close, enough,
  parse_or, or_rounds, parse_and, and_rounds, parse_primary, whole_tree, parse_query,
}

-- A result that leaves at most `m` tokens, or an error of the parser's own.
abbrev Settles : {A : Type 0} → ℕ → Result {0, 0} Failure (A × List Token) → Type 0
Settles m (ok r) = length r.1 ≤ m
Settles m (err e) = e ≢ out_of_fuel

Settles-bind :
    {A B : Type 0} (m k : ℕ) (r : Result {0, 0} Failure (A × List Token))
    (g : A × List Token → Result {0, 0} Failure (B × List Token))
    → Settles m r
    → ((a : A) (ts : List Token) → length ts ≤ m → Settles k (g (a, ts)))
    → Settles k (r >>= g)
Settles-bind m k (ok (a, ts)) g h c = c a ts h
Settles-bind m k (err e) g h c = h

length-next : (ts : List Token) → length (next ts) ≤ length ts
unfolding next
length-next [] = omega arith
length-next (t ∷ ts) = omega arith

-- A token that a test accepts is one that `next` passes.
length-next_operator :
    (p : Text → Bool) (ts : List Token)
    → is_operator_with p (peek ts) ≡ true
    → suc (length (next ts)) ≤ length ts
unfolding is_operator_with peek next
length-next_operator p [] e = cc
length-next_operator p (t ∷ ts) e = omega arith

length-next_lparen :
    (ts : List Token) → is_lparen (peek ts) ≡ true → suc (length (next ts)) ≤ length ts
unfolding peek next
length-next_lparen [] e = cc
length-next_lparen (t ∷ ts) e = omega arith

one_word :
    (b : Bool) (v : Text) (ts : List Token)
    → length (column_parts ts).1 ≤ length ts
    → length
        (if◌then◌else◌ {A = List Text × List Token} b
          (v ∷ [], ts)
          (v ∷ (column_parts ts).0, (column_parts ts).1)).1
      ≤ suc (length ts)
one_word true v ts h = omega arith
one_word false v ts h = omega arith

column_parts-length : (ts : List Token) → length (column_parts ts).1 ≤ length ts
unfolding column_parts
column_parts-length [] = omega arith
column_parts-length (identifier v ∷ ts) =
    one_word (is_operator_with is_comparison_operator (peek ts)) v ts (column_parts-length ts)
column_parts-length (literal v ∷ ts) =
    one_word (is_operator_with is_comparison_operator (peek ts)) v ts (column_parts-length ts)
column_parts-length (t ∷ ts) = omega arith

with_word-Settles :
    (w : Text) (m : ℕ) (r : Result {0, 0} Failure (List Text × List Token))
    → Settles m r
    → Settles (suc m) (with_word w r)
with_word-Settles w m (ok (ws, ts)) h = omega arith
with_word-Settles w m (err e) h = h

value_parts-Settles : (op : Text) (ts : List Token) → Settles (length ts) (value_parts op ts)
unfolding value_parts
value_parts-Settles op [] = omega arith
value_parts-Settles op (identifier v ∷ ts) =
    with_word-Settles v (length ts) (value_parts op ts) (value_parts-Settles op ts)
value_parts-Settles op (literal v ∷ ts) =
    with_word-Settles v (length ts) (value_parts op ts) (value_parts-Settles op ts)
value_parts-Settles op (operator v ∷ ts) = elim (Bool-cases (is_logical_operator v)) [
  | inl e ↦ rw e (omega arith)
  | inr e ↦ rw e (λ x. cc)
]
value_parts-Settles op (end ∷ ts) = omega arith
value_parts-Settles op (lparen ∷ ts) = λ x. cc
value_parts-Settles op (rparen ∷ ts) = omega arith

with_value-Settles :
    (column op : Text) (m : ℕ) (words : List Text) (ts : List Token)
    → length ts ≤ m
    → Settles m (with_value column op (words, ts))
with_value-Settles column op m words ts h = elim (Bool-cases (null words)) [
  | inl e ↦ rw e (λ x. cc)
  | inr e ↦ rw e h
]

with_operator-Settles :
    (column : Text) (o : Option Text) (m : ℕ) (ts : List Token)
    → length ts ≤ m
    → Settles m (with_operator column o ts)
with_operator-Settles column none m ts h = λ x. cc
with_operator-Settles column (some op) m ts h = elim (Bool-cases (is_comparison_operator op)) [
  | inl e ↦ rw e (
      Settles-bind (length ts) m (value_parts op ts) (with_value column op)
        (value_parts-Settles op ts)
        (λ words rest l. with_value-Settles column op m words rest (omega arith)))
  | inr e ↦ rw e (λ x. cc)
]

parse_condition-Settles : (ts : List Token) → Settles (length ts) (parse_condition ts)
unfolding parse_condition
parse_condition-Settles ts = elim (Bool-cases (null (column_parts ts).0)) [
  | inl e ↦ rw e (λ x. cc)
  | inr e ↦ rw e (
      with_operator-Settles (trim (join_words (column_parts ts).0))
        (operator? (peek (column_parts ts).1)) (length ts) (next (column_parts ts).1)
        (omega (arith, length-next (column_parts ts).1, column_parts-length ts)))
]

close-Settles : (m : ℕ) (n : Node) (ts : List Token) → length ts ≤ m → Settles m (close (n, ts))
close-Settles m n ts h = elim (Bool-cases (is_rparen (peek ts))) [
  | inl e ↦ rw e (omega (arith, length-next ts))
  | inr e ↦ rw e (λ x. cc)
]

Settles-le :
    {A : Type 0} (m k : ℕ) (r : Result {0, 0} Failure (A × List Token))
    → Settles m r
    → m ≤ k
    → Settles k r
Settles-le m k (ok p) h l = omega arith
Settles-le m k (err e) h l = h

mutual
  unfolding parse_or

  parse_or-Settles :
      (f : ℕ) (ts : List Token) → 4 * length ts + 3 ≤ f → Settles (length ts) (parse_or f ts)
  parse_or-Settles zero ts h = absurd (omega arith)
  parse_or-Settles (suc f) ts h =
      Settles-bind (length ts) (length ts) _ _ (parse_and-Settles f ts (omega arith))
        λ n us l. Settles-le (length us) (length ts) _ (or_rounds-Settles f n us (omega arith)) l

  or_rounds-Settles :
      (f : ℕ) (n : Node) (ts : List Token)
      → 4 * length ts + 1 ≤ f
      → Settles (length ts) (or_rounds f n ts)
  or_rounds-Settles zero n ts h = absurd (omega arith)
  or_rounds-Settles (suc f) n ts h =
      elim (Bool-cases (is_operator_with (λ v. v == txt "||") (peek ts))) [
        | inl e ↦
            let shorter = length-next_operator _ ts e in
            rw (e, Settles)
              (Settles-bind (length (next ts)) (length ts) _ _
                (parse_and-Settles f (next ts) (omega arith))
                λ m us l.
                  Settles-le (length us) (length ts) _
                    (or_rounds-Settles f (either n m) us (omega arith)) (omega arith))
        | inr e ↦ rw (e, Settles) (omega arith)
      ]

  parse_and-Settles :
      (f : ℕ) (ts : List Token) → 4 * length ts + 2 ≤ f → Settles (length ts) (parse_and f ts)
  parse_and-Settles zero ts h = absurd (omega arith)
  parse_and-Settles (suc f) ts h =
      Settles-bind (length ts) (length ts) _ _ (parse_primary-Settles f ts (omega arith))
        λ n us l. Settles-le (length us) (length ts) _ (and_rounds-Settles f n us (omega arith)) l

  and_rounds-Settles :
      (f : ℕ) (n : Node) (ts : List Token)
      → 4 * length ts + 1 ≤ f
      → Settles (length ts) (and_rounds f n ts)
  and_rounds-Settles zero n ts h = absurd (omega arith)
  and_rounds-Settles (suc f) n ts h =
      elim (Bool-cases (is_operator_with (λ v. v == txt "&&") (peek ts))) [
        | inl e ↦
            let shorter = length-next_operator _ ts e in
            rw (e, Settles)
              (Settles-bind (length (next ts)) (length ts) _ _
                (parse_primary-Settles f (next ts) (omega arith))
                λ m us l.
                  Settles-le (length us) (length ts) _
                    (and_rounds-Settles f (both n m) us (omega arith)) (omega arith))
        | inr e ↦ rw (e, Settles) (omega arith)
      ]

  parse_primary-Settles :
      (f : ℕ) (ts : List Token) → 4 * length ts + 1 ≤ f → Settles (length ts) (parse_primary f ts)
  parse_primary-Settles zero ts h = absurd (omega arith)
  parse_primary-Settles (suc f) ts h = elim (Bool-cases (is_lparen (peek ts))) [
    | inl e ↦
        let shorter = length-next_lparen ts e in
        rw (e, Settles)
          (Settles-bind (length (next ts)) (length ts) _ _
            (parse_or-Settles f (next ts) (omega arith))
            λ n us l. close-Settles (length ts) n us (omega arith))
    | inr e ↦ rw (e, Settles) (parse_condition-Settles ts)
  ]

whole_tree-ne : (m : ℕ) (r : Parsed) → Settles m r → (r >>= whole_tree) ≢ err out_of_fuel
whole_tree-ne m (err e) h q = h (ground arith)
whole_tree-ne m (ok (n, ts)) h q = ground arith

-- The parser of filters answers on every list of tokens: the rounds that it is given are enough.
pub parse_query_total : (ts : List Token) → parse_query ts ≢ err out_of_fuel
parse_query_total ts =
    unfold parse_query in
    whole_tree-ne (length ts) _ (parse_or-Settles (enough ts) ts (omega arith))
