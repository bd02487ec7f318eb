-- ===== src/Expression/Scanner.antt =====
-- ExpressionEval.go, scanExpressionTokens: the input is read byte by byte, and each byte is taken
-- for a code point (`rune(input[pos])`), so a byte from 128 on is a Latin-1 character. The tables
-- of package `unicode` are written out for those 256 code points.
pub mod Fuel
use velm.Base.{
  ℕ, zero, suc, ◌+◌, ◌-◌, ◌/◌, ◌%◌, Bool, true, false, not, ◌&&◌, ◌||◌, ltb, leb, nat_eq,
}
use velm.Base.{
  Option, none, some, Result, ok, err, ◌>>=◌, List, [], ◌∷◌, ◌++◌, if◌then◌else◌, length,
}
use velm.Base.{Text, txt, trim, lower, has_prefix, ◌==◌, String}
use velm.Expression.Syntax.{Token, end, identifier, string, number, bool, empty, operator}
use velm.Expression.Syntax.{lparen, rparen, comma}
use velm.Expression.Syntax.{Failure, unterminated_string, unexpected_character, out_of_fuel}

-- unicode.IsSpace, IsDigit and IsLetter below 256
is_space_rune : ℕ → Bool
is_space_rune c = (leb 9 c && leb c 13) || nat_eq c 32 || nat_eq c 133 || nat_eq c 160

is_digit_rune : ℕ → Bool
is_digit_rune c = leb 48 c && leb c 57

is_letter_rune : ℕ → Bool
is_letter_rune c =
    (leb 65 c && leb c 90)
    || (leb 97 c && leb c 122)
    || nat_eq c 170
    || nat_eq c 181
    || nat_eq c 186
    || (leb 192 c && leb c 255 && not (nat_eq c 215) && not (nat_eq c 247))

-- strings.Builder.WriteRune below 256: UTF-8 has two bytes from 128 on
write_rune : ℕ → Text
write_rune c = if ltb c 128 then c ∷ [] else (192 + c / 64) ∷ (128 + c % 64) ∷ []

-- the byte or rune that an escape writes
escaped : ℕ → Text
unfolding write_rune
escaped c = if nat_eq c b'n' then 10 ∷ [] else if nat_eq c b't' then 9 ∷ [] else write_rune c

-- the loop after an opening quote: the literal and what follows its closing quote
scan_string : ℕ → Text → Text → Result Failure (Text × Text)
unfolding escaped
scan_string quote value [] = err unterminated_string
scan_string quote value (c ∷ []) =
    if nat_eq c quote then ok (value, []) else err unterminated_string
scan_string quote value (c ∷ d ∷ rest) =
    let past_escape = scan_string quote (value ++ escaped d) rest in
    let onwards = scan_string quote (value ++ write_rune c) (d ∷ rest) in
    if nat_eq c 92 then past_escape else if nat_eq c quote then ok (value, d ∷ rest) else onwards

-- the loops over the digits of a number and the characters of a name
span : (ℕ → Bool) → Text → Text × Text
span p [] = ([], [])
span p (c ∷ s) = let r = span p s in if p c then (c ∷ r.0, r.1) else ([], c ∷ s)

in_number : ℕ → Bool
unfolding is_digit_rune
in_number c = is_digit_rune c || nat_eq c b'.'

in_name : ℕ → Bool
unfolding is_digit_rune is_letter_rune
in_name c = is_letter_rune c || is_digit_rune c || nat_eq c b'_' || nat_eq c b'.'

-- scanExpressionOperator: the operator and its size, 0 where none stands
scan_operator : Text → Text × ℕ
unfolding has_prefix txt
scan_operator s =
    if has_prefix s (txt "&&")
    then (txt "&&", 2)
    else if has_prefix s (txt "||")
    then (txt "||", 2)
    else if has_prefix s (txt "!=")
    then (txt "!=", 2)
    else if has_prefix s (txt "==")
    then (txt "==", 2)
    else if has_prefix s (txt "<=")
    then (txt "<=", 2)
    else if has_prefix s (txt ">=")
    then (txt ">=", 2)
    else if has_prefix s (txt "=")
    then (txt "=", 1)
    else if has_prefix s (txt "<")
    then (txt "<", 1)
    else if has_prefix s (txt ">")
    then (txt ">", 1)
    else if has_prefix s (txt "!")
    then (txt "!", 1)
    else if has_prefix s (txt "-")
    then (txt "-", 1)
    else ([], 0)

skip : ℕ → Text → Text
skip zero s = s
skip (suc n) [] = []
skip (suc n) (c ∷ s) = skip n s

-- the keyword that a name may be
word : Text → Token
unfolding lower trim txt ◌==◌
word value =
    let key = lower (trim value) in
    if key == txt "true" || key == txt "false"
    then bool value
    else if key == txt "empty"
    then empty value
    else identifier value

-- one round of the scanning loop at `c ∷ s`: the tokens that it adds, at most one, and what is left
scan_step : ℕ → Text → Result Failure (List Token × Text)
scan_step c s =
    if is_space_rune c
    then ok ([], s)
    else if nat_eq c b'('
    then ok (lparen ∷ [], s)
    else if nat_eq c b')'
    then ok (rparen ∷ [], s)
    else if nat_eq c b','
    then ok (comma ∷ [], s)
    else if nat_eq c 39 || nat_eq c 34
    then (scan_string c [] s >>= λ found. ok (string (found.0) ∷ [], found.1))
    else if ltb 0 (scan_operator (c ∷ s)).1
    then ok (operator ((scan_operator (c ∷ s)).0) ∷ [], skip (scan_operator (c ∷ s)).1 (c ∷ s))
    else if is_digit_rune c
    then ok (number (c ∷ (span in_number s).0) ∷ [], (span in_number s).1)
    else if is_letter_rune c || nat_eq c b'_'
    then ok (word (c ∷ (span in_name s).0) ∷ [], (span in_name s).1)
    else err (unexpected_character (write_rune c))

-- the scanning loop; every round reads a byte, so the input's length in rounds is enough
scan_tokens : ℕ → Text → Result Failure (List Token)
scan_tokens fuel [] = ok (end ∷ [])
scan_tokens zero (c ∷ s) = err out_of_fuel
scan_tokens (suc fuel) (c ∷ s) = do
  step ← scan_step c s
  later ← scan_tokens fuel (step.1)
  ok (step.0 ++ later)

-- scanExpressionTokens
unfoldable pub scan_expression : Text → Result Failure (List Token)
unfolding scan_tokens scan_step is_space_rune is_digit_rune is_letter_rune in_number in_name
    write_rune scan_string span scan_operator skip word trim
scan_expression expr = let input = trim expr in scan_tokens (length input) input
