-- ===== src/Base/Texts.antt =====
-- Go strings as lists of bytes, with the functions of `strings` that the program uses. Case and
-- white space are those of ASCII: `TrimSpace` and `ToLower` leave every byte from 128 on alone.
use Prim.Native.Nat.{ℕ, ◌+◌, ◌-◌}
use Prim.Native.Char.{code}
use Prim.Native.String.{String}
use mathlib.Core.Path.{◌≡◌, refl, sym, ap, ◌∙◌}
use mathlib.Core.Logic.{◌↔◌, inl, inr}
use mathlib.Core.Bool.{Bool, true, false, ◌&&◌, ◌||◌}
use mathlib.Core.List.{List, [], ◌∷◌}
use native.Mathlib.Omega.{arith}
use velm.Base.Core.{or_left, or_right, ltb, leb, nat_eq, if◌then◌else◌, Bool-cases, null, any}

abbrev pub Text : Type 0
Text = List ℕ

unfoldable pub txt : String → Text
txt String.[] = []
txt (String.◌∷◌ c s) = code c ∷ txt s

infix 50 ◌==◌
unfoldable pub ◌==◌ : Text → Text → Bool
[] == [] = true
[] == (d ∷ t) = false
(c ∷ s) == [] = false
(c ∷ s) == (d ∷ t) = nat_eq c d && s == t

-- The order of Go strings, byte by byte.
unfoldable pub text_lt : Text → Text → Bool
text_lt [] [] = false
text_lt [] (d ∷ t) = true
text_lt (c ∷ s) [] = false
text_lt (c ∷ s) (d ∷ t) = ltb c d || (nat_eq c d && text_lt s t)

unfoldable pub has_prefix : Text → Text → Bool
has_prefix s [] = true
has_prefix [] (d ∷ t) = false
has_prefix (c ∷ s) (d ∷ t) = nat_eq c d && has_prefix s t

unfoldable pub contains : Text → Text → Bool
unfolding has_prefix
contains [] t = has_prefix [] t
contains (c ∷ s) t = has_prefix (c ∷ s) t || contains s t

unfoldable pub is_space : ℕ → Bool
is_space c = nat_eq c 32 || (leb 9 c && leb c 13)

unfoldable pub lower_byte : ℕ → ℕ
lower_byte c = if leb 65 c && leb c 90 then c + 32 else c

unfoldable pub upper_byte : ℕ → ℕ
upper_byte c = if leb 97 c && leb c 122 then c - 32 else c

unfoldable pub lower : Text → Text
unfolding lower_byte
lower [] = []
lower (c ∷ s) = lower_byte c ∷ lower s

unfoldable pub upper : Text → Text
unfolding upper_byte
upper [] = []
upper (c ∷ s) = upper_byte c ∷ upper s

trim_left : Text → Text
trim_left [] = []
trim_left (c ∷ s) = if is_space c then trim_left s else c ∷ s

trim_right : Text → Text
trim_right [] = []
trim_right (c ∷ s) = let r = trim_right s in if is_space c && null r then [] else c ∷ r

-- strings.TrimSpace
unfoldable pub trim : Text → Text
unfolding trim_left trim_right is_space
trim s = trim_right (trim_left s)

pub eq_iff : (s t : Text) → (s == t ≡ true) ↔ (s ≡ t)
unfolding ◌==◌
eq_iff [] [] = (λ h. refl, λ e. refl)
eq_iff [] (d ∷ t) = (λ h. cc, λ e. cc)
eq_iff (c ∷ s) [] = (λ h. cc, λ e. cc)
eq_iff (c ∷ s) (d ∷ t) = (λ h. ground (arith, (eq_iff s t).0), λ e. ground (arith, (eq_iff s t).1))

pub eq_refl : (s : Text) → (s == s) ≡ true
eq_refl s = (eq_iff s s).1 refl

trim_right-trim_right : (s : Text) → trim_right (trim_right s) ≡ trim_right s
unfolding trim_right
trim_right-trim_right [] = refl
trim_right-trim_right (c ∷ s) = ground (arith, trim_right-trim_right s)

trim_left-trim : (s : Text) → trim_left (trim_right (trim_left s)) ≡ trim_right (trim_left s)
unfolding trim_left trim_right
trim_left-trim [] = refl
trim_left-trim (c ∷ s) = elim (Bool-cases (is_space c)) [
  | inl e ↦ rw e (trim_left-trim s)
  | inr e ↦ ground arith
]

pub trim-trim : (s : Text) → trim (trim s) ≡ trim s
unfolding trim
trim-trim s = ap trim_right (trim_left-trim s) ∙ trim_right-trim_right (trim_left s)

lower_byte-lower_byte : (c : ℕ) → lower_byte (lower_byte c) ≡ lower_byte c
unfolding lower_byte
lower_byte-lower_byte c = ground arith

is_space-lower_byte : (c : ℕ) → is_space (lower_byte c) ≡ is_space c
unfolding lower_byte is_space
is_space-lower_byte c = ground arith

pub lower-lower : (s : Text) → lower (lower s) ≡ lower s
unfolding lower
lower-lower [] = refl
lower-lower (c ∷ s) = cc (lower_byte-lower_byte c, lower-lower s)

trim_left-lower : (s : Text) → trim_left (lower s) ≡ lower (trim_left s)
unfolding trim_left lower
trim_left-lower [] = refl
trim_left-lower (c ∷ s) = elim (Bool-cases (is_space c)) [
  | inl e ↦ rw (is_space-lower_byte c, e) (trim_left-lower s)
  | inr e ↦ rw (is_space-lower_byte c, e) refl
]

null-lower : (s : Text) → null (lower s) ≡ null s
unfolding lower
null-lower [] = refl
null-lower (c ∷ s) = refl

trim_right-lower : (s : Text) → trim_right (lower s) ≡ lower (trim_right s)
unfolding trim_right lower
trim_right-lower [] = refl
trim_right-lower (c ∷ s) =
    rw (trim_right-lower s, is_space-lower_byte c, null-lower (trim_right s))
      (elim (Bool-cases (is_space c && null (trim_right s))) [
        | inl e ↦ rw e refl
        | inr e ↦ rw e refl
      ])

-- `TrimSpace` and `ToLower` commute, so the two orders that the program uses are one function.
pub trim-lower : (s : Text) → trim (lower s) ≡ lower (trim s)
unfolding trim
trim-lower s = ap trim_right (trim_left-lower s) ∙ trim_right-lower (trim_left s)

upper_byte-upper_byte : (c : ℕ) → upper_byte (upper_byte c) ≡ upper_byte c
unfolding upper_byte
upper_byte-upper_byte c = ground arith

is_space-upper_byte : (c : ℕ) → is_space (upper_byte c) ≡ is_space c
unfolding upper_byte is_space
is_space-upper_byte c = ground arith

pub upper-upper : (s : Text) → upper (upper s) ≡ upper s
unfolding upper
upper-upper [] = refl
upper-upper (c ∷ s) = cc (upper_byte-upper_byte c, upper-upper s)

trim_left-upper : (s : Text) → trim_left (upper s) ≡ upper (trim_left s)
unfolding trim_left upper
trim_left-upper [] = refl
trim_left-upper (c ∷ s) = elim (Bool-cases (is_space c)) [
  | inl e ↦ rw (is_space-upper_byte c, e) (trim_left-upper s)
  | inr e ↦ rw (is_space-upper_byte c, e) refl
]

null-upper : (s : Text) → null (upper s) ≡ null s
unfolding upper
null-upper [] = refl
null-upper (c ∷ s) = refl

trim_right-upper : (s : Text) → trim_right (upper s) ≡ upper (trim_right s)
unfolding trim_right upper
trim_right-upper [] = refl
trim_right-upper (c ∷ s) =
    rw (trim_right-upper s, is_space-upper_byte c, null-upper (trim_right s))
      (elim (Bool-cases (is_space c && null (trim_right s))) [
        | inl e ↦ rw e refl
        | inr e ↦ rw e refl
      ])

pub trim-upper : (s : Text) → trim (upper s) ≡ upper (trim s)
unfolding trim
trim-upper s = ap trim_right (trim_left-upper s) ∙ trim_right-upper (trim_left s)

-- strings.TrimSpace(strings.ToLower(s)) a second time changes nothing.
pub trim-lower_idempotent : (s : Text) → trim (lower (trim (lower s))) ≡ trim (lower s)
trim-lower_idempotent s =
    ap trim (sym (trim-lower (lower s)) ∙ ap trim (lower-lower s)) ∙ trim-trim (lower s)

trim_right-free : (s : Text) → any is_space s ≡ false → trim_right s ≡ s
unfolding trim_right
trim_right-free [] h = refl
trim_right-free (c ∷ s) h =
    rw
      (
        or_left (is_space c) (any is_space s) h,
        trim_right-free s (or_right (is_space c) (any is_space s) h),
      )
      refl

trim_left-free : (s : Text) → any is_space s ≡ false → trim_left s ≡ s
unfolding trim_left
trim_left-free [] h = refl
trim_left-free (c ∷ s) h = rw (or_left (is_space c) (any is_space s) h) refl

-- A text without spaces is its own trimmed form.
pub trim-free : (s : Text) → any is_space s ≡ false → trim s ≡ s
unfolding trim
trim-free s h = ap trim_right (trim_left-free s h) ∙ trim_right-free s h

-- The order of texts is strict.
pub text_lt-asym : (s t : Text) → text_lt s t ≡ true → text_lt t s ≡ false
unfolding text_lt
text_lt-asym [] [] h = refl
text_lt-asym [] (d ∷ t) h = refl
text_lt-asym (c ∷ s) [] h = cc
text_lt-asym (c ∷ s) (d ∷ t) h = ground (arith, text_lt-asym s t)
