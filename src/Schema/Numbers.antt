-- ===== src/Schema/Numbers.antt =====
-- strconv.ParseInt(s, 10, 64), and strconv.Atoi, which is the same on a 64-bit machine.
use velm.Base.{
  ℕ, ◌+◌, ◌*◌, ◌-◌, Bool, true, false, not, if◌then◌else◌, Option, none, some, [], ◌∷◌, Text, null,
  leb, ltb, nat_eq, every, is_digit,
}

-- An integer by its sign and its absolute value; `is_negative` is whether a minus sign stood before.
pub record Integer : Type 0 where
  pub is_negative : Bool
  pub magnitude : ℕ

-- `n > 0`
abbrev pub is_positive : Integer → Bool
is_positive n = if n.is_negative then false else ltb 0 n.magnitude

-- the value of decimal digits after those of `n`
unfoldable pub decimal_value : ℕ → Text → ℕ
decimal_value n [] = n
decimal_value n (c ∷ s) = decimal_value (n * 10 + (c - 48)) s

abbrev pub max_int : ℕ
max_int = 9223372036854775807

-- the digits after the sign: in the range of an int64, or none
unfoldable pub in_range : Bool → Text → Option Integer
unfolding every decimal_value
in_range is_negative digits =
    let limit = if is_negative then max_int + 1 else max_int in
    if null digits
    then none
    else if not (every is_digit digits)
    then none
    else if leb (decimal_value 0 digits) limit
    then some (record { is_negative = is_negative; magnitude = decimal_value 0 digits })
    else none

unfoldable pub parse_int : Text → Option Integer
unfolding in_range
parse_int [] = none
parse_int (c ∷ s) =
    if nat_eq c 45
    then in_range true s
    else if nat_eq c 43
    then in_range false s
    else in_range false (c ∷ s)
