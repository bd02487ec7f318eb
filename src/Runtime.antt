-- ===== src/Runtime.antt =====
-- What the program takes from Go's `strconv`, `time` and float64 without looking inside: numbers
-- and instants are abstract, and only comparison, parsing and formatting are used of them.
use velm.Base.{ℕ, ◌+◌, ◌*◌, ◌-◌, Bool, ◌&&◌, Option, none, some}
use velm.Base.{[], ◌∷◌, Text, ltb, leb, nat_eq, if◌then◌else◌}

pub record GoRuntime : Type 1 where
  pub Float : Type 0
  -- strconv.ParseFloat(s, 64) and strconv.FormatFloat(v, 'f', -1, 64)
  pub parse_float : Text → Option Float
  pub format_float : Float → Text
  -- strconv.FormatFloat(float64(v), 'f', -1, 32), and fmt.Sprint
  pub format_float32 : Float → Text
  pub sprint_float : Float → Text
  -- float64(n) of an int that is not negative, and -v
  pub float_of : ℕ → Float
  pub negate : Float → Float
  pub float_eq : Float → Float → Bool
  pub float_lt : Float → Float → Bool
  pub float_le : Float → Float → Bool
  pub Time : Type 0
  -- time.Parse(layout, s) and t.Format(layout)
  pub parse_time : Text → Text → Option Time
  pub format_time : Text → Time → Text
  pub sprint_time : Time → Text
  -- t.Equal(u), t.Before(u) (`t.After(u)` is `u.Before(t)`), t.IsZero()
  pub time_equal : Time → Time → Bool
  pub before : Time → Time → Bool
  pub time_is_zero : Time → Bool
  -- time.Date(t.Year(), t.Month(), t.Day(), 0, 0, 0, 0, t.Location())
  pub start_of_day : Time → Time

-- A runtime to run tests on: numbers are whole and not negative, and so are instants.
abbrev decimal : ℕ → Text → Option ℕ
decimal n [] = some n
decimal n (c ∷ s) =
    let rest = decimal (n * 10 + (c - 48)) s in if leb 48 c && leb c 57 then rest else none

abbrev parse_decimal : Text → Option ℕ
parse_decimal [] = none
parse_decimal (c ∷ s) = decimal 0 (c ∷ s)

abbrev no_time : Text → Text → Option ℕ
no_time layout s = none

abbrev pub whole_numbers : GoRuntime
whole_numbers = record {
  Float = ℕ;
  parse_float = parse_decimal;
  format_float = λ n. n ∷ [];
  format_float32 = λ n. n ∷ [];
  sprint_float = λ n. n ∷ [];
  float_of = λ n. n;
  negate = λ n. n;
  float_eq = nat_eq;
  float_lt = ltb;
  float_le = leb;
  Time = ℕ;
  parse_time = no_time;
  format_time = λ layout n. n ∷ [];
  sprint_time = λ n. n ∷ [];
  time_equal = nat_eq;
  before = ltb;
  time_is_zero = λ n. nat_eq n 0;
  start_of_day = λ n. n;
}
