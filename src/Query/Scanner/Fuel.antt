-- ===== src/Query/Scanner/Fuel.antt =====
-- When the scanner of filters ends.
use velm.Base.{
  Avoids, Avoids-ne, or_right, ℕ, zero, suc, ◌≤◌, Bool, true, false, not, ◌&&◌, ◌||◌, if◌then◌else◌,
  ◌≡◌, ◌≢◌, refl, arith, inl, inr, Bool-cases, Option-cases, Result, ok, err, ◌>>=◌, List, [], ◌∷◌,
  Text, length, nat_eq,
}
use mathlib.Core.Path.{subst}
use velm.Query.Syntax.{Token, Failure, out_of_fuel}
use velm.Query.Scanner.{
  is_blank, is_relation, is_stop, is_logical_pair, is_pair, quoted, begins_logical, word, Round,
  quoted_round, word_round, short_round, pair_round, round, append_token, scan_query,
}

abbrev pub begins_equals : Text → Bool
begins_equals [] = false
begins_equals (d ∷ s) = nat_eq d 61

-- An exclamation mark that no equals sign follows.
abbrev pub has_lone_bang : Text → Bool
has_lone_bang [] = false
has_lone_bang (c ∷ s) = (nat_eq c 33 && not (begins_equals s)) || has_lone_bang s

-- What a round leaves is no longer than `s`, and has no such mark; an error is the scanner's own.
abbrev Leaves : Text → Round → Type 0
Leaves s (ok r) = (length r.1 ≤ length s) × (has_lone_bang r.1 ≡ false)
Leaves s (err e) = e ≢ out_of_fuel

quoted-Leaves : (q : ℕ) (s : Text) → has_lone_bang s ≡ false → Leaves s (quoted_round (quoted q s))
unfolding quoted
quoted-Leaves q [] h = λ e. cc
quoted-Leaves q (c ∷ s) h = elim (Bool-cases (nat_eq c q)) [
  | inl e ↦ rw e (omega arith, or_right _ _ h)
  | inr e ↦ elim (Option-cases (quoted q s)) [
    | inl f ↦ rw (e, f) (λ x. cc)
    | inr (r, f) ↦
        let rest =
          subst (λ o. Leaves s (quoted_round o)) f
            (quoted-Leaves q s
              (or_right (nat_eq c 33 && not (begins_equals s)) (has_lone_bang s) h)) in
        rw (e, f) (omega (arith, rest.0), rest.1)
  ]
]

word-suffix :
    (s : Text)
    → has_lone_bang s ≡ false
    → (length (word s).1 ≤ length s) × (has_lone_bang (word s).1 ≡ false)
unfolding word
word-suffix [] h = (omega arith, refl)
word-suffix (c ∷ s) h = elim (Bool-cases (is_stop c || begins_logical c s)) [
  | inl e ↦ rw e (omega arith, h)
  | inr e ↦
      let rest =
        word-suffix s (or_right (nat_eq c 33 && not (begins_equals s)) (has_lone_bang s) h) in
      rw e (omega (arith, rest.0), rest.1)
]

not_stopped :
    (blank left right relation bang logical : Bool)
    → (blank || left || right || bang || logical) ≡ false
    → relation ≡ false
    → ((blank || left || right || relation || bang) || logical) ≡ false
not_stopped blank left right relation bang logical h k = ground arith

word_round-Leaves :
    (c : ℕ) (s : Text)
    → has_lone_bang s ≡ false
    → (is_stop c || begins_logical c s) ≡ false
    → Leaves s (word_round (word (c ∷ s)))
unfolding word
word_round-Leaves c s h e = rw e (word-suffix s h)

either_round :
    (s : Text) (a b : Bool) (x y z : Round)
    → (a ≡ true → Leaves s x)
    → (b ≡ true → Leaves s y)
    → (a ≡ false → b ≡ false → Leaves s z)
    → Leaves s (if a then x else if b then y else z)
either_round s true b x y z f g h = f refl
either_round s false true x y z f g h = g refl
either_round s false false x y z f g h = h refl refl

short_round-Leaves :
    (c : ℕ) (s : Text)
    → has_lone_bang s ≡ false
    → (is_blank c || nat_eq c 40 || nat_eq c 41 || nat_eq c 33 || begins_logical c s) ≡ false
    → Leaves s (short_round c s)
unfolding short_round
short_round-Leaves c s h free =
    either_round s (is_relation c) (nat_eq c 34 || nat_eq c 39) _ _ _ (λ e. (omega arith, h))
      (λ e. quoted-Leaves c s h)
      (λ e f. word_round-Leaves c s h (
        not_stopped (is_blank c) (nat_eq c 40) (nat_eq c 41) (is_relation c) (nat_eq c 33)
          (begins_logical c s) free e))

free_of_all :
    (blank left right bang logical : Bool)
    → blank ≡ false
    → left ≡ false
    → right ≡ false
    → bang ≡ false
    → logical ≡ false
    → (blank || left || right || bang || logical) ≡ false
free_of_all blank left right bang logical a b c d e = ground arith

no_bang :
    (bang equals later : Bool)
    → ((bang && not equals) || later) ≡ false
    → (bang && equals) ≡ false
    → bang ≡ false
no_bang bang equals later h k = ground arith

no_pair_bang :
    (logical more less bang equals : Bool)
    → (logical || ((more || less || bang) && equals)) ≡ false
    → ((bang && equals) ≡ false) × (logical ≡ false)
no_pair_bang logical more less bang equals h = (ground arith, ground arith)

pair_round-Leaves :
    (c : ℕ) (s : Text)
    → has_lone_bang (c ∷ s) ≡ false
    → is_blank c ≡ false
    → nat_eq c 40 ≡ false
    → nat_eq c 41 ≡ false
    → Leaves s (pair_round c s)
pair_round-Leaves c [] h blank left right = short_round-Leaves c [] refl (
    free_of_all _ _ _ _ _ blank left right (no_bang (nat_eq c 33) false false h (ground arith))
      refl)
pair_round-Leaves c (d ∷ s) h blank left right = elim (Bool-cases (is_pair c d)) [
  | inl e ↦ rw e (omega arith, or_right _ _ (or_right _ _ h))
  | inr e ↦
      let (a, b) =
        no_pair_bang (is_logical_pair c d) (nat_eq c 62) (nat_eq c 60) (nat_eq c 33) (nat_eq d 61)
          e in
      rw e (
        short_round-Leaves c (d ∷ s) (or_right _ _ h) (
          free_of_all (is_blank c) (nat_eq c 40) (nat_eq c 41) (nat_eq c 33) (is_logical_pair c d)
            blank left right (no_bang (nat_eq c 33) (nat_eq d 61) _ h a) b))
]

round-Leaves : (c : ℕ) (s : Text) → has_lone_bang (c ∷ s) ≡ false → Leaves s (round c s)
unfolding round
round-Leaves c s h = elim (Bool-cases (is_blank c)) [
  | inl e ↦ rw e (omega arith, or_right _ _ h)
  | inr e ↦ elim (Bool-cases (nat_eq c 40)) [
    | inl f ↦ rw (e, f) (omega arith, or_right _ _ h)
    | inr f ↦ elim (Bool-cases (nat_eq c 41)) [
      | inl g ↦ rw (e, f, g) (omega arith, or_right _ _ h)
      | inr g ↦ rw (e, f, g) (pair_round-Leaves c s h e f g)
    ]
  ]
]

continue :
    (s : Text) (r : Round) (k : Text → Result {0, 0} Failure (List Token))
    → Leaves s r
    → ((t : Text) → length t ≤ length s → has_lone_bang t ≡ false → Avoids out_of_fuel (k t))
    → Avoids out_of_fuel (r >>= (λ p. k p.1 >>= (λ later. ok (append_token p.0 later))))
continue s (err e) k h f = h
continue s (ok (token, t)) k (short, plain) f = go (k t) (f t short plain)
  where
    go :
        (l : Result {0, 0} Failure (List Token))
        → Avoids out_of_fuel l
        → Avoids out_of_fuel (l >>= (λ later. ok (append_token token later)))
    go (ok later) h = tt
    go (err e) h = h

pub scan_query-Avoids :
    (f : ℕ) (s : Text)
    → length s ≤ f
    → has_lone_bang s ≡ false
    → Avoids out_of_fuel (scan_query (suc f) s)
unfolding scan_query
scan_query-Avoids f [] h plain = tt
scan_query-Avoids zero (c ∷ s) h plain = absurd (omega arith)
scan_query-Avoids (suc f) (c ∷ s) h plain =
    continue s (round c s) (scan_query (suc f)) (round-Leaves c s plain)
      (λ t short fine. scan_query-Avoids f t (omega arith) fine)

-- The scanner answers on every filter in which an equals sign follows each exclamation mark: it takes
-- no more rounds than the filter has bytes, and one.
pub scan_query_total :
    (s : Text) → has_lone_bang s ≡ false → scan_query (suc (length s)) s ≢ err out_of_fuel
scan_query_total s plain =
    Avoids-ne out_of_fuel (scan_query (suc (length s)) s)
      (scan_query-Avoids (length s) s (omega arith) plain)
