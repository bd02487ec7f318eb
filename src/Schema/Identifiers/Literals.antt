-- ===== src/Schema/Identifiers/Literals.antt =====
-- What a quoted literal and a quoted identifier mean to the reader of a statement.
use velm.Base.{
  ℕ, Bool, true, false, if◌then◌else◌, ◌≡◌, refl, sym, ap, ◌∙◌, Bool-cases, inl, inr, nat_eq-eq,
  Option, none, some, [], ◌∷◌, ◌++◌, Text, nat_eq,
}
use mathlib.Core.List.{append_assoc}
use velm.Schema.Identifiers.{double_quotes, quote_sql_literal}

-- The first byte of a value that is read.
abbrev consed : ℕ → Option (Text × Text) → Option (Text × Text)
consed c none = none
consed c (some (v, rest)) = some (c ∷ v, rest)

-- A standard SQL literal after its opening quote: the value, and the statement after it. Two quotes
-- are one quote of the value, and a single one ends it; `pending` is whether one was just read.
unfoldable pub read_from : Bool → Text → Option (Text × Text)
read_from false [] = none
read_from true [] = some ([], [])
read_from false (c ∷ s) = if nat_eq c 39 then read_from true s else consed c (read_from false s)
read_from true (c ∷ s) = if nat_eq c 39 then consed 39 (read_from false s) else some ([], c ∷ s)

unfoldable pub read_sql_literal : Text → Option (Text × Text)
unfolding read_from
read_sql_literal [] = none
read_sql_literal (c ∷ s) = if nat_eq c 39 then read_from false s else none

-- A text that does not begin with a quote.
abbrev pub IsUnquoted : Text → Type 0
IsUnquoted [] = Unit
IsUnquoted (c ∷ s) = nat_eq c 39 ≡ false

read_from-double_quotes :
    (value rest : Text)
    → IsUnquoted rest
    → read_from false (double_quotes value ++ (39 ∷ rest)) ≡ some (value, rest)
unfolding read_from double_quotes
read_from-double_quotes [] [] h = refl
read_from-double_quotes [] (c ∷ rest) h = rw (h, read_from) refl
read_from-double_quotes (c ∷ value) rest h = elim (Bool-cases (nat_eq c 39)) [
  | inl quote ↦ rw quote (
      ap (consed 39) (read_from-double_quotes value rest h)
      ∙ ap (λ q. some (q ∷ value, rest)) (sym (nat_eq-eq c 39 quote)))
  | inr other ↦ rw (other, other) (ap (consed c) (read_from-double_quotes value rest h))
]

-- Whatever a value holds, the reader of a statement finds exactly the value in its quoted form, and
-- after it what the program wrote there, if that does not begin with a quote.
pub read-quote_sql_literal :
    (value rest : Text)
    → IsUnquoted rest
    → read_sql_literal (quote_sql_literal value ++ rest) ≡ some (value, rest)
unfolding read_sql_literal quote_sql_literal
read-quote_sql_literal value rest h =
    rw (append_assoc (double_quotes value) (39 ∷ []) rest) (read_from-double_quotes value rest h)
