-- ===== src/Expression/Parser/Printing.antt =====
-- A printer of trees as tokens, with parentheses around every operation; the trees that it is for, and
-- the fuel that the parser takes to read them.
pub mod Steps
pub mod Operations
pub mod RoundTrip
use velm.Base.{
  ℕ, zero, suc, ◌+◌, ◌-◌, ◌*◌, ◌≤◌, Bool, true, false, ◌||◌, if◌then◌else◌, Option, none, some, ◌≡◌,
  ◌⊎◌, arith, inl, inr, refl, sym, ap, ◌∙◌, Result, ok, err, ◌>>=◌, List, [], ◌∷◌, length, Text,
  txt, trim, lower, ◌==◌,
}
use mathlib.Core.Path.{subst}
use velm.Expression.Syntax.{Failure}
use velm.Expression.Syntax.{
  Token, end, identifier, string, number, bool, empty, operator, lparen, rparen, comma, Node, text,
  numeral, truth, name, unary, binary, call, Args, no_args, arg,
}
use velm.Expression.Parser.{
  peek, consume, operator_with, is_comparison_operator, is_unary_operator, number_node, parse_or,
  or_rounds, parse_and, and_rounds, parse_comparison, parse_unary, parse_primary, parse_args,
  enough, parse_tokens,
}

module _ {F : Type 0} (format_float : F → Text) where
  -- The tokens of a tree, before the tokens that follow it.
  unfoldable mutual
    pub show : Node F → List Token → List Token
    show (text v) rest = string v ∷ rest
    show (numeral x) rest = number (format_float x) ∷ rest
    show (truth b) rest = bool (if b then txt "true" else txt "false") ∷ rest
    show (name v) rest = identifier v ∷ rest
    show (unary op e) rest = lparen ∷ operator op ∷ show e (rparen ∷ rest)
    show (binary op l r) rest = lparen ∷ show l (operator op ∷ show r (rparen ∷ rest))
    show (call v args) rest = identifier v ∷ lparen ∷ show_args args rest

    pub show_args : Args F → List Token → List Token
    show_args no_args rest = rparen ∷ rest
    show_args (arg e more) rest = show e (show_more more rest)

    pub show_more : Args F → List Token → List Token
    show_more no_args rest = rparen ∷ rest
    show_more (arg e more) rest = comma ∷ show e (show_more more rest)

-- The token that follows a name does not make it a call.
abbrev pub is_lparen : Token → Bool
is_lparen lparen = true
is_lparen _ = false

module _ {F : Type 0} (parse_float : Text → Option F) (format_float : F → Text) where
  -- A tree that the parser can make: its operators are operators of the language, its texts have no
  -- blanks around them, and its numbers can be read back.
  unfoldable mutual
    pub IsWritable : Node F → Type 0
    IsWritable (text v) = trim v ≡ v
    IsWritable (numeral x) = parse_float (format_float x) ≡ some x
    IsWritable (truth b) = Unit
    IsWritable (name v) = Unit
    IsWritable (unary op e) = (is_unary_operator op ≡ true) × IsWritable e
    IsWritable (binary op l r) =
        ((op ≡ txt "||") ⊎ (op ≡ txt "&&") ⊎ (is_comparison_operator op ≡ true))
        × (IsWritable l × IsWritable r)
    IsWritable (call v args) = AreWritable args

    pub AreWritable : Args F → Type 0
    AreWritable no_args = Unit
    AreWritable (arg e more) = IsWritable e × AreWritable more

  -- The fuel that a tree takes.
  unfoldable mutual
    pub need : Node F → ℕ
    need (text v) = 1
    need (numeral x) = 1
    need (truth b) = 1
    need (name v) = 1
    need (unary op e) = 8 + need e
    need (binary op l r) = 8 + (need l + need r)
    need (call v args) = 2 + need_args args

    pub need_args : Args F → ℕ
    need_args no_args = 1
    need_args (arg e more) = 8 + (need e + need_args more)

  -- Eight units for each token are enough for a tree.
  mutual
    unfolding show need

    pub need-show :
        (e : Node F) (rest : List Token)
        → need e + 8 * length rest ≤ 8 * length (show format_float e rest)
    need-show (text v) rest = omega arith
    need-show (numeral x) rest = omega arith
    need-show (truth b) rest = omega arith
    need-show (name v) rest = omega arith
    need-show (unary op e) rest = omega (arith, need-show e (rparen ∷ rest))
    need-show (binary op l r) rest = omega (
      arith,
      need-show l (operator op ∷ show format_float r (rparen ∷ rest)),
      need-show r (rparen ∷ rest),
    )
    need-show (call v no_args) rest = omega arith
    need-show (call v (arg e more)) rest =
        omega (arith, need-show e (show_more format_float more rest), need-show_more more rest)

    need-show_more :
        (more : Args F) (rest : List Token)
        → need_args more + 8 * length rest ≤ 8 * length (show_more format_float more rest)
    need-show_more no_args rest = omega arith
    need-show_more (arg e more) rest =
        omega (arith, need-show e (show_more format_float more rest), need-show_more more rest)
