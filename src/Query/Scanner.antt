-- ===== src/Query/Scanner.antt =====
-- tokenizeTableQuery: the text that is left, in place of an index into the text. A round has the fuel
-- less the number of the rounds before it.
pub mod Fuel
pub mod Stuck
use velm.Base.{
  ℕ, zero, suc, Bool, true, false, not, ◌&&◌, ◌||◌, if◌then◌else◌, Option, none, some, Result, ok,
  err, ◌>>=◌, List, [], ◌∷◌, Text, trim, nat_eq, null, every, is_letter, is_digit, leb,
}
use velm.Query.Syntax.{
  Token, end, identifier, literal, operator, lparen, rparen, Failure, unterminated_value,
  out_of_fuel,
}

abbrev pub is_blank : ℕ → Bool
is_blank c = nat_eq c 32 || nat_eq c 9 || nat_eq c 10

-- = > <
abbrev pub is_relation : ℕ → Bool
is_relation c = nat_eq c 61 || nat_eq c 62 || nat_eq c 60

-- the bytes of " \t\n()=><!", at which a word ends
abbrev pub is_stop : ℕ → Bool
is_stop c = is_blank c || nat_eq c 40 || nat_eq c 41 || is_relation c || nat_eq c 33

-- && or ||
abbrev pub is_logical_pair : ℕ → ℕ → Bool
is_logical_pair c d = (nat_eq c 38 && nat_eq d 38) || (nat_eq c 124 && nat_eq d 124)

-- && || >= <= !=
abbrev pub is_pair : ℕ → ℕ → Bool
is_pair c d = is_logical_pair c d || ((nat_eq c 62 || nat_eq c 60 || nat_eq c 33) && nat_eq d 61)

-- isIdentifierToken
unfoldable pub is_identifier_token : Text → Bool
unfolding every
is_identifier_token [] = false
is_identifier_token (c ∷ s) =
    (is_letter c || nat_eq c 95) && every (λ d. is_letter d || is_digit d || nat_eq d 95) s

-- the loop over a quoted value: the value, and the text after the closing quote
unfoldable pub quoted : ℕ → Text → Option (Text × Text)
quoted quote [] = none
quoted quote (c ∷ s) =
    let rest = quoted quote s in
    if nat_eq c quote
    then some ([], s)
    else elim rest [ none ↦ none | some (value, after) ↦ some (c ∷ value, after) ]

abbrev pub begins_logical : ℕ → Text → Bool
begins_logical c [] = false
begins_logical c (d ∷ s) = is_logical_pair c d

-- the loop over a word: the word, and the text after it
unfoldable pub word : Text → Text × Text
word [] = ([], [])
word (c ∷ s) =
    let rest = word s in
    if is_stop c || begins_logical c s then ([], c ∷ s) else (c ∷ rest.0, rest.1)

unfoldable pub word_token : Text → Token
unfolding trim is_identifier_token
word_token raw =
    let value = trim raw in if is_identifier_token value then identifier value else literal value

-- A round of the loop: the token that it appends, if any, and the text that is left.
abbrev pub Round : Type 0
Round = Result {0, 0} Failure (Option Token × Text)

abbrev pub quoted_round : Option (Text × Text) → Round
quoted_round none = err unterminated_value
quoted_round (some (value, after)) = ok (some (literal value), after)

abbrev pub word_round : Text × Text → Round
word_round (raw, after) = ok (some (word_token raw), after)

-- the cases after that of an operator of two bytes
unfoldable pub short_round : ℕ → Text → Round
unfolding quoted word word_token
short_round c s =
    if is_relation c
    then ok (some (operator (c ∷ [])), s)
    else if nat_eq c 34 || nat_eq c 39
    then quoted_round (quoted c s)
    else word_round (word (c ∷ s))

abbrev pub pair_round : ℕ → Text → Round
pair_round c [] = short_round c []
pair_round c (d ∷ s) =
    if is_pair c d then ok (some (operator (c ∷ d ∷ [])), s) else short_round c (d ∷ s)

-- the switch
unfoldable pub round : ℕ → Text → Round
unfolding short_round
round c s =
    if is_blank c
    then ok (none, s)
    else if nat_eq c 40
    then ok (some lparen, s)
    else if nat_eq c 41
    then ok (some rparen, s)
    else pair_round c s

abbrev pub append_token : Option Token → List Token → List Token
append_token none tokens = tokens
append_token (some t) tokens = t ∷ tokens

unfoldable pub scan_query : ℕ → Text → Result {0, 0} Failure (List Token)
unfolding round
scan_query zero raw = err out_of_fuel
scan_query (suc f) [] = ok (end ∷ [])
scan_query (suc f) (c ∷ s) =
    round c s >>= (λ r. scan_query f r.1 >>= (λ later. ok (append_token r.0 later)))
