-- ===== src/Expression/Scanner/Fuel.antt =====
-- The fuel of the scanner: every round of its loop reads a byte.
use velm.Base.{ℕ, zero, suc, ◌≤◌, Bool, true, false, ◌≡◌, ◌≢◌, arith, ltb, nat_eq}
use velm.Base.{inl, inr, refl, Bool-cases, if◌then◌else◌}
use velm.Base.{Result, ok, err, ◌>>=◌, List, [], ◌∷◌, ◌++◌, length, Text, trim}
use velm.Expression.Syntax.{Token, string, Failure, out_of_fuel}
use velm.Expression.Scanner.{
  scan_string, span, skip, scan_operator, scan_step, scan_tokens, scan_expression, write_rune,
  escaped, in_number, in_name,
}

-- A result that leaves at most `m` bytes, or an error that is the scanner's own.
abbrev Settles : {A : Type 0} → ℕ → Result Failure (A × Text) → Type 0
Settles m (ok p) = length (p.1) ≤ m
Settles m (err e) = e ≢ out_of_fuel

Settles-le :
    {A : Type 0} (m k : ℕ) (r : Result Failure (A × Text)) → Settles m r → m ≤ k → Settles k r
Settles-le m k (ok p) h l = omega arith
Settles-le m k (err e) h l = h

scan_string-Settles : (q : ℕ) (v s : Text) → Settles (length s) (scan_string q v s)
unfolding scan_string
scan_string-Settles q v [] = λ e. cc
scan_string-Settles q v (c ∷ []) = elim (Bool-cases (nat_eq c q)) [
  | inl e ↦ rw (e, Settles) (omega arith)
  | inr e ↦ rw (e, Settles) (λ k. cc)
]
scan_string-Settles q v (c ∷ d ∷ s) =
    let past =
      Settles-le _ (suc (suc (length s))) _ (scan_string-Settles q (v ++ escaped d) s)
        (omega arith) in
    let onwards =
      Settles-le _ (suc (suc (length s))) _ (scan_string-Settles q (v ++ write_rune c) (d ∷ s))
        (omega arith) in
    elim (Bool-cases (nat_eq c 92)) [
      | inl e ↦ rw (e, Settles) past
      | inr e ↦ elim (Bool-cases (nat_eq c q)) [
        | inl k ↦ rw (e, k, Settles) (omega arith)
        | inr k ↦ rw (e, k, Settles) onwards
      ]
    ]

length-span : (p : ℕ → Bool) (s : Text) → length ((span p s).1) ≤ length s
unfolding span
length-span p [] = omega arith
length-span p (c ∷ s) = ground (arith, length-span p s)

length-skip : (n : ℕ) (s : Text) → length (skip n s) ≤ length s
unfolding skip
length-skip zero s = omega arith
length-skip (suc n) [] = omega arith
length-skip (suc n) (c ∷ s) = omega (arith, length-skip n s)

length-skip_pos : (n c : ℕ) (s : Text) → ltb 0 n ≡ true → length (skip n (c ∷ s)) ≤ length s
unfolding skip
length-skip_pos zero c s h = cc
length-skip_pos (suc n) c s h = length-skip n s

string_step-Settles :
    (m : ℕ) (r : Result Failure (Text × Text))
    → Settles m r
    → Settles {A = List Token} m (r >>= λ found. ok (string (found.0) ∷ [], found.1))
string_step-Settles m (ok p) h = h
string_step-Settles m (err e) h = h

if-Settles :
    {A : Type 0} (m : ℕ) (b : Bool) (x y : Result Failure (A × Text))
    → (b ≡ true → Settles m x)
    → (b ≡ false → Settles m y)
    → Settles m (if b then x else y)
if-Settles m true x y h k = h refl
if-Settles m false x y h k = k refl

scan_step-Settles : (c : ℕ) (s : Text) → Settles (length s) (scan_step c s)
unfolding scan_step
scan_step-Settles c s = ground (
  arith,
  scan_string-Settles c [] s,
  length-skip_pos (scan_operator (c ∷ s)).1 c s,
  length-span in_number s,
  length-span in_name s,
)

later-ne :
    (ts : List Token) (r : Result Failure (List Token))
    → r ≢ err out_of_fuel
    → (r >>= λ later. ok (ts ++ later)) ≢ err out_of_fuel
later-ne ts (ok us) n q = cc
later-ne ts (err x) n q = n (ground arith)

round-ne :
    (f m : ℕ) (r : Result Failure (List Token × Text))
    → Settles m r
    → ((rest : Text) → length rest ≤ m → scan_tokens f rest ≢ err out_of_fuel)
    → (r >>= λ step. scan_tokens f (step.1) >>= λ later. ok (step.0 ++ later)) ≢ err out_of_fuel
round-ne f m (err x) n ih q = n (ground arith)
round-ne f m (ok p) l ih q = later-ne (p.0) _ (ih (p.1) l) q

scan_tokens-ne : (f : ℕ) (s : Text) → length s ≤ f → scan_tokens f s ≢ err out_of_fuel
unfolding scan_tokens
scan_tokens-ne f [] h e = cc
scan_tokens-ne zero (c ∷ s) h e = absurd (omega arith)
scan_tokens-ne (suc f) (c ∷ s) h e =
    round-ne f (length s) (scan_step c s) (scan_step-Settles c s)
      (λ rest l. scan_tokens-ne f rest (omega arith)) e

-- The scanner answers on every text: it never runs out of the fuel that it is given.
pub scan_expression_total : (expr : Text) → scan_expression expr ≢ err out_of_fuel
scan_expression_total expr = unfold scan_expression in scan_tokens-ne _ (trim expr) (omega arith)
