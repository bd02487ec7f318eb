-- ===== src/Query/Scanner/Stuck.antt =====
-- When the scanner of filters does not end.
use velm.Base.{
  and_left, and_right, ℕ, zero, suc, Bool, true, false, not, ◌||◌, if◌then◌else◌, ◌≡◌, refl, ◌∙◌,
  arith, err, [], ◌∷◌, ◌++◌, Text, nat_eq, every,
}
use velm.Query.Syntax.{out_of_fuel}
use velm.Query.Scanner.{
  is_blank, is_relation, is_stop, is_pair, begins_logical, word, Round, word_round, short_round,
  pair_round, round, scan_query,
}
use velm.Query.Scanner.Fuel.{begins_equals}

-- A byte of a word that can stand anywhere in one.
abbrev pub is_plain : ℕ → Bool
is_plain c = not (is_stop c || nat_eq c 34 || nat_eq c 39 || nat_eq c 38 || nat_eq c 124)

plain_parts_of :
    (blank left right relation bang a b c d : Bool)
    → not ((blank || left || right || relation || bang) || a || b || c || d) ≡ true
    → (blank ≡ false)
      × (left ≡ false)
      × (right ≡ false)
      × (relation ≡ false)
      × (bang ≡ false)
      × (a ≡ false)
      × (b ≡ false)
      × (c ≡ false)
      × (d ≡ false)
plain_parts_of blank left right relation bang a b c d h = (
  ground arith,
  ground arith,
  ground arith,
  ground arith,
  ground arith,
  ground arith,
  ground arith,
  ground arith,
  ground arith,
)

-- What `is_plain` excludes.
abbrev Excluded : ℕ → Type 0
Excluded c =
    (is_blank c ≡ false)
    × (nat_eq c 40 ≡ false)
    × (nat_eq c 41 ≡ false)
    × (is_relation c ≡ false)
    × (nat_eq c 33 ≡ false)
    × (nat_eq c 34 ≡ false)
    × (nat_eq c 39 ≡ false)
    × (nat_eq c 38 ≡ false)
    × (nat_eq c 124 ≡ false)

is_plain-Excluded : (c : ℕ) → is_plain c ≡ true → Excluded c
is_plain-Excluded c h =
    plain_parts_of (is_blank c) (nat_eq c 40) (nat_eq c 41) (is_relation c) (nat_eq c 33)
      (nat_eq c 34) (nat_eq c 39) (nat_eq c 38) (nat_eq c 124) h

-- No pair begins with a byte that is none of & | > < !.
no_pair :
    (c d : ℕ)
    → nat_eq c 38 ≡ false
    → nat_eq c 124 ≡ false
    → is_relation c ≡ false
    → nat_eq c 33 ≡ false
    → is_pair c d ≡ false
no_pair c d a b e f = ground arith

no_logical :
    (c : ℕ) (s : Text) → nat_eq c 38 ≡ false → nat_eq c 124 ≡ false → begins_logical c s ≡ false
no_logical c [] a b = refl
no_logical c (d ∷ s) a b = ground arith

all_false :
    (a b c d e f : Bool)
    → a ≡ false
    → b ≡ false
    → c ≡ false
    → d ≡ false
    → e ≡ false
    → f ≡ false
    → ((a || b || c || d || e) || f) ≡ false
all_false a b c d e f h i j k l m = ground arith

word_continues : (c : ℕ) (s : Text) → is_plain c ≡ true → (is_stop c || begins_logical c s) ≡ false
word_continues c s h =
    let (blank, left, right, relation, bang, double, single, amp, bar) = is_plain-Excluded c h in
    all_false (is_blank c) (nat_eq c 40) (nat_eq c 41) (is_relation c) (nat_eq c 33)
      (begins_logical c s) blank left right relation bang (no_logical c s amp bar)

-- A word ends before an exclamation mark.
word-bang : (w rest : Text) → every is_plain w ≡ true → word (w ++ 33 ∷ rest) ≡ (w, 33 ∷ rest)
unfolding word every
word-bang [] rest h = refl
word-bang (c ∷ w) rest h =
    rw
      (
        word_continues c (w ++ 33 ∷ rest) (and_left (is_plain c) _ h),
        word-bang w rest (and_right (is_plain c) _ h),
      )
      refl

-- The cases that a plain byte does not take.
last_of_three :
    (a b c : Bool) (x y z k : Round)
    → a ≡ false
    → b ≡ false
    → c ≡ false
    → (if a then x else if b then y else if c then z else k) ≡ k
last_of_three a b c x y z k h i j = rw (h, i, j) refl

short_round-word :
    (c : ℕ) (s : Text)
    → is_relation c ≡ false
    → (nat_eq c 34 || nat_eq c 39) ≡ false
    → short_round c s ≡ word_round (word (c ∷ s))
unfolding short_round
short_round-word c s e f =
    last_of_three false (is_relation c) (nat_eq c 34 || nat_eq c 39) (err out_of_fuel) _ _ _ refl e
      f

neither : (a b : Bool) → a ≡ false → b ≡ false → (a || b) ≡ false
neither a b h i = ground arith

pair_round-word :
    (c : ℕ) (s : Text) → is_plain c ≡ true → pair_round c s ≡ word_round (word (c ∷ s))
pair_round-word c [] h =
    let (_, _, _, relation, _, double, single, _, _) = is_plain-Excluded c h in
    short_round-word c [] relation (neither _ _ double single)
pair_round-word c (d ∷ s) h =
    let (_, _, _, relation, bang, double, single, amp, bar) = is_plain-Excluded c h in
    last_of_three false false (is_pair c d) (err out_of_fuel) (err out_of_fuel) _ _ refl refl
      (no_pair c d amp bar relation bang)
    ∙ short_round-word c (d ∷ s) relation (neither _ _ double single)

round-word : (c : ℕ) (s : Text) → is_plain c ≡ true → round c s ≡ word_round (word (c ∷ s))
unfolding round
round-word c s h =
    let (blank, left, right, _, _, _, _, _, _) = is_plain-Excluded c h in
    last_of_three (is_blank c) (nat_eq c 40) (nat_eq c 41) _ _ _ _ blank left right
    ∙ pair_round-word c s h

round_bang : (rest : Text) → begins_equals rest ≡ false → round 33 rest ≡ word_round ([], 33 ∷ rest)
unfolding round word
round_bang [] h = refl
round_bang (d ∷ s) h = rw h refl

stuck :
    (f : ℕ) (rest : Text) → begins_equals rest ≡ false → scan_query f (33 ∷ rest) ≡ err out_of_fuel
unfolding scan_query
stuck zero rest h = refl
stuck (suc f) rest h = rw (round_bang rest h, stuck f rest h) refl

-- On a filter that begins with plain bytes and then an exclamation mark without an equals sign, no
-- number of rounds is enough: the loop never ends.
pub scan_query_stuck :
    (f : ℕ) (w rest : Text)
    → every is_plain w ≡ true
    → begins_equals rest ≡ false
    → scan_query f (w ++ 33 ∷ rest) ≡ err out_of_fuel
unfolding scan_query every
scan_query_stuck f [] rest h e = stuck f rest e
scan_query_stuck zero (c ∷ w) rest h e = refl
scan_query_stuck (suc f) (c ∷ w) rest h e =
    rw
      (
        round-word c (w ++ 33 ∷ rest) (and_left (is_plain c) _ h),
        word-bang (c ∷ w) rest h,
        stuck f rest e,
      )
      refl
