-- ===== src/Expression/Parser/Printing/Operations.antt =====
-- How the parser reads what begins with a printed tree.
use velm.Base.{
  ℕ, suc, ◌≤◌, Bool, true, false, Option, none, ◌≡◌, ◌⊎◌, arith, inl, inr, refl, sym, ◌∙◌, ok,
  ◌>>=◌, List, [], ◌∷◌, Text, txt, ◌==◌,
}
use mathlib.Core.Path.{subst}
use velm.Expression.Syntax.{
  Token, end, identifier, string, number, bool, empty, operator, lparen, rparen, comma, Node, text,
  numeral, truth, name, unary, binary, call, Args, no_args, arg,
}
use velm.Expression.Parser.{
  peek, operator_with, is_comparison_operator, is_unary_operator, parse_or, parse_unary,
  parse_primary, parse_args,
}
use velm.Expression.Parser.Printing.{show, show_more, is_lparen}
use velm.Expression.Parser.Printing.Steps.{
  NoOperator, comparison_alone, comparison_pair, and_alone, and_pair, or_alone, or_pair, unary_step,
}

module _ {F : Type 0} (parse_float : Text → Option F) (format_float : F → Text) where
  -- No tree begins with an operator, and none with a closing parenthesis.
  pub show-no_operator :
      (p : Text → Bool) (e : Node F) (rest : List Token)
      → operator_with p (peek (show format_float e rest)) ≡ none
  unfolding show operator_with peek
  show-no_operator p (text v) rest = refl
  show-no_operator p (numeral x) rest = refl
  show-no_operator p (truth b) rest = refl
  show-no_operator p (name v) rest = refl
  show-no_operator p (unary op e) rest = refl
  show-no_operator p (binary op l r) rest = refl
  show-no_operator p (call v args) rest = refl

  pub name_primary :
      (f : ℕ) (v : Text) (rest : List Token)
      → is_lparen (peek rest) ≡ false
      → parse_primary parse_float (suc f) (identifier v ∷ rest) ≡ ok (name v, rest)
  unfolding parse_primary peek
  name_primary f v [] h = refl
  name_primary f v (end ∷ rest) h = refl
  name_primary f v (identifier w ∷ rest) h = refl
  name_primary f v (string w ∷ rest) h = refl
  name_primary f v (number w ∷ rest) h = refl
  name_primary f v (bool w ∷ rest) h = refl
  name_primary f v (empty w ∷ rest) h = refl
  name_primary f v (operator w ∷ rest) h = refl
  name_primary f v (lparen ∷ rest) h = cc
  name_primary f v (rparen ∷ rest) h = refl
  name_primary f v (comma ∷ rest) h = refl

  pub call_primary :
      (f : ℕ) (v : Text) (e : Node F) (rest : List Token)
      → parse_primary parse_float (suc f) (identifier v ∷ lparen ∷ show format_float e rest) ≡ (
          parse_args parse_float f (show format_float e rest)
          >>= (λ args. ok (call v args.0, args.1)))
  unfolding parse_primary show
  call_primary f v (text w) rest = refl
  call_primary f v (numeral x) rest = refl
  call_primary f v (truth b) rest = refl
  call_primary f v (name w) rest = refl
  call_primary f v (unary op e) rest = refl
  call_primary f v (binary op l r) rest = refl
  call_primary f v (call w args) rest = refl

  -- an operand is read as a primary
  pub unary_operand :
      (f : ℕ) (e : Node F) (rest : List Token)
      → parse_unary parse_float (suc f) (show format_float e rest)
        ≡ parse_primary parse_float f (show format_float e rest)
  unfolding parse_unary
  unary_operand f e rest = rw (show-no_operator is_unary_operator e rest, parse_unary) refl

  pub whole :
      (f : ℕ) (e : Node F) (rest : List Token)
      → parse_primary parse_float f (show format_float e rest) ≡ ok (e, rest)
      → NoOperator rest
      → parse_or parse_float (suc (suc (suc (suc f)))) (show format_float e rest) ≡ ok (e, rest)
  whole f e rest p h =
      or_alone parse_float (suc (suc f)) _ rest e
        (and_alone parse_float (suc f) _ rest e
          (comparison_alone parse_float (suc f) _ rest e (unary_operand f e rest ∙ p)
            (h is_comparison_operator))
          (h (λ v. v == txt "&&")))
        (h (λ v. v == txt "||"))

  pub more-NoOperator :
      (more : Args F) (rest : List Token) → NoOperator (show_more format_float more rest)
  unfolding show operator_with peek
  more-NoOperator no_args rest p = refl
  more-NoOperator (arg e more) rest p = refl

  pub more-is_lparen :
      (more : Args F) (rest : List Token)
      → is_lparen (peek (show_more format_float more rest)) ≡ false
  unfolding show peek
  more-is_lparen no_args rest = refl
  more-is_lparen (arg e more) rest = refl

  pub or_operation :
      (g : ℕ) (l r : Node F) (rest : List Token)
      → ((t : List Token)
          → parse_primary parse_float (suc (suc g)) (show format_float l (operator (txt "||") ∷ t))
            ≡ ok (l, operator (txt "||") ∷ t))
      → ((k : ℕ)
          → suc g ≤ k
          → parse_primary parse_float k (show format_float r (rparen ∷ rest))
            ≡ ok (r, rparen ∷ rest))
      → parse_or parse_float
          (suc (suc (suc (suc (suc (suc g))))))
          (show format_float l (operator (txt "||") ∷ show format_float r (rparen ∷ rest)))
        ≡ ok (binary (txt "||") l r, rparen ∷ rest)
  unfolding peek operator_with is_comparison_operator txt ◌==◌
  or_operation g l r rest left right =
      or_pair parse_float (suc (suc (suc g))) _ _ (rparen ∷ rest) l r
        (and_alone parse_float (suc (suc (suc g))) _ _ l
          (comparison_alone parse_float (suc (suc (suc g))) _ _ l
            (unary_operand (suc (suc g)) l _ ∙ left _) refl)
          refl)
        (and_alone parse_float (suc (suc g)) _ (rparen ∷ rest) r
          (comparison_alone parse_float (suc (suc g)) _ (rparen ∷ rest) r
            (unary_operand (suc g) r _ ∙ right (suc g) (omega arith)) refl)
          refl)
        refl

  pub and_operation :
      (g : ℕ) (l r : Node F) (rest : List Token)
      → ((t : List Token)
          → parse_primary parse_float (suc (suc g)) (show format_float l (operator (txt "&&") ∷ t))
            ≡ ok (l, operator (txt "&&") ∷ t))
      → ((k : ℕ)
          → suc g ≤ k
          → parse_primary parse_float k (show format_float r (rparen ∷ rest))
            ≡ ok (r, rparen ∷ rest))
      → parse_or parse_float
          (suc (suc (suc (suc (suc (suc g))))))
          (show format_float l (operator (txt "&&") ∷ show format_float r (rparen ∷ rest)))
        ≡ ok (binary (txt "&&") l r, rparen ∷ rest)
  unfolding peek operator_with is_comparison_operator txt ◌==◌
  and_operation g l r rest left right =
      or_alone parse_float (suc (suc (suc (suc g)))) _ (rparen ∷ rest) _
        (and_pair parse_float (suc (suc g)) _ _ (rparen ∷ rest) l r
          (comparison_alone parse_float (suc (suc (suc g))) _ _ l
            (unary_operand (suc (suc g)) l _ ∙ left _) refl)
          (comparison_alone parse_float (suc (suc g)) _ (rparen ∷ rest) r
            (unary_operand (suc g) r _ ∙ right (suc g) (omega arith)) refl)
          refl)
        refl

  -- An operation between two trees that are read back.
  pub operation :
      (g : ℕ) (op : Text) (l r : Node F) (rest : List Token)
      → (op ≡ txt "||") ⊎ (op ≡ txt "&&") ⊎ (is_comparison_operator op ≡ true)
      → ((t : List Token)
          → parse_primary parse_float (suc (suc g)) (show format_float l (operator op ∷ t))
            ≡ ok (l, operator op ∷ t))
      → ((k : ℕ)
          → suc g ≤ k
          → parse_primary parse_float k (show format_float r (rparen ∷ rest))
            ≡ ok (r, rparen ∷ rest))
      → parse_or parse_float
          (suc (suc (suc (suc (suc (suc g))))))
          (show format_float l (operator op ∷ show format_float r (rparen ∷ rest)))
        ≡ ok (binary op l r, rparen ∷ rest)
  unfolding peek operator_with
  operation g op l r rest (inl p) left right =
      subst
        (λ o.
          ((t : List Token)
            → parse_primary parse_float (suc (suc g)) (show format_float l (operator o ∷ t))
              ≡ ok (l, operator o ∷ t))
          → parse_or parse_float (suc (suc (suc (suc (suc (suc g))))))
              (show format_float l (operator o ∷ show format_float r (rparen ∷ rest)))
            ≡ ok (binary o l r, rparen ∷ rest))
        (sym p) (λ q. or_operation g l r rest q right) left
  operation g op l r rest (inr (inl p)) left right =
      subst
        (λ o.
          ((t : List Token)
            → parse_primary parse_float (suc (suc g)) (show format_float l (operator o ∷ t))
              ≡ ok (l, operator o ∷ t))
          → parse_or parse_float (suc (suc (suc (suc (suc (suc g))))))
              (show format_float l (operator o ∷ show format_float r (rparen ∷ rest)))
            ≡ ok (binary o l r, rparen ∷ rest))
        (sym p) (λ q. and_operation g l r rest q right) left
  operation g op l r rest (inr (inr p)) left right =
      or_alone parse_float (suc (suc (suc (suc g)))) _ (rparen ∷ rest) _
        (and_alone parse_float (suc (suc (suc g))) _ (rparen ∷ rest) _
          (comparison_pair parse_float (suc (suc (suc g))) _ _ (rparen ∷ rest) op l r
            (unary_operand (suc (suc g)) l _ ∙ left _) p
            (unary_operand (suc (suc g)) r _ ∙ right (suc (suc g)) (omega arith)))
          refl)
        refl

  pub unary_operation :
      (g : ℕ) (op : Text) (e : Node F) (rest : List Token)
      → is_unary_operator op ≡ true
      → parse_primary parse_float (suc g) (show format_float e (rparen ∷ rest))
        ≡ ok (e, rparen ∷ rest)
      → parse_or parse_float
          (suc (suc (suc (suc (suc (suc g))))))
          (operator op ∷ show format_float e (rparen ∷ rest))
        ≡ ok (unary op e, rparen ∷ rest)
  unfolding peek operator_with
  unary_operation g op e rest u h =
      or_alone parse_float (suc (suc (suc (suc g)))) _ (rparen ∷ rest) _
        (and_alone parse_float (suc (suc (suc g))) _ (rparen ∷ rest) _
          (comparison_alone parse_float (suc (suc (suc g))) _ (rparen ∷ rest) _
            (unary_step parse_float (suc (suc g)) _ (rparen ∷ rest) op e u
              (unary_operand (suc g) e (rparen ∷ rest) ∙ h))
            refl)
          refl)
        refl
