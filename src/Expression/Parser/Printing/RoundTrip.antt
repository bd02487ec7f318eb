-- ===== src/Expression/Parser/Printing/RoundTrip.antt =====
-- The parser reads back what the printer writes.
use velm.Base.{
  ℕ, zero, suc, ◌+◌, ◌-◌, ◌≤◌, true, false, Option, ◌≡◌, arith, refl, sym, ◌∙◌, ok, List, [], ◌∷◌,
  Text, txt, lower, ◌==◌,
}
use mathlib.Core.Path.{subst}
use velm.Expression.Syntax.{
  Token, operator, rparen, Node, text, numeral, truth, name, unary, binary, call, Args, no_args,
  arg,
}
use velm.Expression.Parser.{
  peek, consume, operator_with, number_node, parse_or, parse_primary, parse_args, enough,
  parse_tokens,
}
use velm.Expression.Parser.Printing.{
  show, show_more, is_lparen, IsWritable, AreWritable, need, need_args, need-show,
}
use velm.Expression.Parser.Printing.Steps.{bind_ok, paren_step}
use velm.Expression.Parser.Printing.Operations.{
  name_primary, call_primary, whole, more-NoOperator, more-is_lparen, operation, unary_operation,
}

module _ {F : Type 0} (parse_float : Text → Option F) (format_float : F → Text) where
  seven :
      (n f : ℕ)
      → 8 + n ≤ f
      → (g : ℕ) × (f ≡ suc (suc (suc (suc (suc (suc (suc g))))))) × (suc n ≤ g)
  seven n f h = (f - 7, omega arith, omega arith)

  -- The arguments after the opening parenthesis, or after a comma.
  abbrev ReadsBack : Args F → ℕ → List Token → Type 0
  ReadsBack no_args f rest = Unit
  ReadsBack (arg e more) f rest =
      parse_args parse_float f (show format_float e (show_more format_float more rest))
      ≡ ok (arg e more, rest)

  argument_step :
      (e : Node F) (more : Args F) (f : ℕ) (rest : List Token)
      → parse_or parse_float f (show format_float e (show_more format_float more rest))
        ≡ ok (e, show_more format_float more rest)
      → ReadsBack more f rest
      → ReadsBack (arg e more) (suc f) rest
  unfolding parse_args peek consume show
  argument_step e no_args f rest h k = bind_ok _ _ _ _ h refl
  argument_step e (arg a more) f rest h k = bind_ok _ _ _ _ h (bind_ok _ _ _ _ k refl)

  two : (n f : ℕ) → 2 + n ≤ f → (g : ℕ) × (f ≡ suc (suc g)) × (n ≤ g)
  two n f h = (f - 2, omega arith, omega arith)

  four : (n f : ℕ) → 8 + n ≤ f → (g : ℕ) × (f ≡ suc (suc (suc (suc g)))) × (n ≤ g)
  four n f h = (f - 4, omega arith, omega arith)

  mutual
    unfolding show parse_primary peek operator_with number_node txt ◌==◌ lower need IsWritable

    shown :
        (e : Node F) (f : ℕ) (rest : List Token)
        → IsWritable parse_float format_float e
        → need parse_float format_float e ≤ f
        → is_lparen (peek rest) ≡ false
        → parse_primary parse_float f (show format_float e rest) ≡ ok (e, rest)
    shown (text v) zero rest w h k = absurd (omega arith)
    shown (text v) (suc f) rest w h k = rw w refl
    shown (numeral x) zero rest w h k = absurd (omega arith)
    shown (numeral x) (suc f) rest w h k = rw w refl
    shown (truth b) zero rest w h k = absurd (omega arith)
    shown (truth true) (suc f) rest w h k = refl
    shown (truth false) (suc f) rest w h k = refl
    shown (name v) zero rest w h k = absurd (omega arith)
    shown (name v) (suc f) rest w h k = name_primary parse_float format_float f v rest k
    shown (unary op e) f rest (u, w) h k =
        let (g, same, room) = seven (need parse_float format_float e) f h in
        subst
          (λ n.
            parse_primary parse_float n (show format_float (unary op e) rest)
            ≡ ok (unary op e, rest))
          (sym same)
          (paren_step parse_float (suc (suc (suc (suc (suc (suc g))))))
            (operator op ∷ show format_float e (rparen ∷ rest)) rest (unary op e)
            (unary_operation parse_float format_float g op e rest u
              (shown e (suc g) (rparen ∷ rest) w (omega arith) refl)))
    shown (binary op l r) f rest (o, (wl, wr)) h k =
        let (g, same, room) =
          seven (need parse_float format_float l + need parse_float format_float r) f h in
        subst
          (λ n.
            parse_primary parse_float n (show format_float (binary op l r) rest)
            ≡ ok (binary op l r, rest))
          (sym same)
          (paren_step parse_float (suc (suc (suc (suc (suc (suc g))))))
            (show format_float l (operator op ∷ show format_float r (rparen ∷ rest))) rest
            (binary op l r)
            (operation parse_float format_float g op l r rest o
              (λ t. shown l (suc (suc g)) (operator op ∷ t) wl (omega arith) refl)
              (λ n room_left. shown r n (rparen ∷ rest) wr (omega arith) refl)))
    shown (call v no_args) zero rest w h k = absurd (omega arith)
    shown (call v no_args) (suc f) rest w h k = refl
    shown (call v (arg e more)) f rest w h k =
        let (g, same, room) = two (need_args parse_float format_float (arg e more)) f h in
        subst
          (λ n.
            parse_primary parse_float n (show format_float (call v (arg e more)) rest)
            ≡ ok (call v (arg e more), rest))
          (sym same)
          (call_primary parse_float format_float (suc g) v e (show_more format_float more rest)
            ∙ bind_ok _ _ _ _ (shown_args (arg e more) w (suc g) rest (omega arith)) refl)

    shown_args :
        (args : Args F)
        → AreWritable parse_float format_float args
        → (f : ℕ) (rest : List Token) → need_args parse_float format_float args ≤ f
        → ReadsBack args f rest
    shown_args no_args w f rest h = tt
    shown_args (arg e more) (w, ws) f rest h =
        let (g, same, room) =
          seven (need parse_float format_float e + need_args parse_float format_float more) f h in
        subst (λ n. ReadsBack (arg e more) n rest) (sym same)
          (argument_step e more (suc (suc (suc (suc (suc (suc g)))))) rest
            (whole parse_float format_float (suc (suc g)) e (show_more format_float more rest)
              (shown e (suc (suc g)) (show_more format_float more rest) w (omega arith)
                (more-is_lparen parse_float format_float more rest))
              (more-NoOperator parse_float format_float more rest))
            (shown_args more ws (suc (suc (suc (suc (suc (suc g)))))) rest (omega arith)))

  -- A tree whose operators are those of the language, whose texts have no blanks around them and whose
  -- numbers can be read back is what the parser makes of the tokens that write it with parentheses around every operation.
  pub parse_tokens-show :
      (e : Node F)
      → IsWritable parse_float format_float e
      → parse_tokens parse_float (show format_float e []) ≡ ok e
  unfolding parse_tokens
  parse_tokens-show e w =
      let (g, same, room) =
        four (need parse_float format_float e) (enough (show format_float e []))
          (omega (arith, need-show parse_float format_float e [])) in
      bind_ok _ _ _ _
        (subst (λ n. parse_or parse_float n (show format_float e []) ≡ ok (e, [])) (sym same)
          (whole parse_float format_float g e [] (shown e g [] w room refl) (λ p. refl)))
        refl
