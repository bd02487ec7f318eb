-- ===== src/App/Inheritance/Counting.antt =====
-- The measure of a walk from a table to the one that it extends: the keys that are not yet visited.
use velm.Base.{
  or_rest, ℕ, suc, ◌≤◌, true, false, not, ◌≡◌, refl, ap, ◌∙◌, arith, inl, inr, Bool-cases, List, [],
  ◌∷◌, ◌++◌, Text, ◌==◌, keep, length, eq_iff,
}
use velm.Security.Model.{member}

-- The keys of `all` that are not among the visited ones.
abbrev pub unseen : List Text → List Text → ℕ
unseen all visited = length (keep (λ k. not (member k visited)) all)

pub member-append_right :
    (x : Text) (ys zs : List Text) → member x zs ≡ true → member x (ys ++ zs) ≡ true
unfolding member
member-append_right x [] zs h = h
member-append_right x (y ∷ ys) zs h = rw (member-append_right x ys zs h) (ground arith)

pub member-append_left :
    (x : Text) (ys zs : List Text) → member x ys ≡ true → member x (ys ++ zs) ≡ true
unfolding member
member-append_left x [] zs h = cc
member-append_left x (y ∷ ys) zs h = elim (Bool-cases (x == y)) [
  | inl e ↦ rw e refl
  | inr e ↦ rw e (member-append_left x ys zs (or_rest (x == y) (member x ys) h e))
]

-- Another visited key leaves no more unseen ones.
unseen-visit :
    (key : Text) (all visited : List Text) → unseen all (key ∷ visited) ≤ unseen all visited
unfolding keep member
unseen-visit key [] visited = omega arith
unseen-visit key (k ∷ all) visited = elim (Bool-cases (member k visited)) [
  | inl e ↦ elim (Bool-cases (k == key)) [
    | inl f ↦ rw (e, f) (unseen-visit key all visited)
    | inr f ↦ rw (e, f) (unseen-visit key all visited)
  ]
  | inr e ↦ elim (Bool-cases (k == key)) [
    | inl f ↦ rw (e, f) (omega (arith, unseen-visit key all visited))
    | inr f ↦ rw (e, f) (omega (arith, unseen-visit key all visited))
  ]
]

pub unseen_le : (all visited : List Text) → unseen all visited ≤ length all
unfolding keep
unseen_le [] visited = omega arith
unseen_le (k ∷ all) visited = elim (Bool-cases (member k visited)) [
  | inl e ↦ rw e (omega (arith, unseen_le all visited))
  | inr e ↦ rw e (omega (arith, unseen_le all visited))
]

-- A key that is visited for the first time was an unseen one.
pub unseen-visit_new :
    (key : Text) (all visited : List Text)
    → member key all ≡ true
    → member key visited ≡ false
    → suc (unseen all (key ∷ visited)) ≤ unseen all visited
unfolding keep member
unseen-visit_new key [] visited h new = cc
unseen-visit_new key (k ∷ all) visited h new = elim (Bool-cases (k == key)) [
  | inl f ↦
      let same : member k visited ≡ false = ap (λ x. member x visited) ((eq_iff k key).0 f) ∙ new in
      rw (f, same) (omega (arith, unseen-visit key all visited))
  | inr f ↦
      let shorter = unseen-visit_new key all visited (in_rest f) new in
      elim (Bool-cases (member k visited)) [
        | inl e ↦ rw (e, f) shorter
        | inr e ↦ rw (e, f) (omega (arith, shorter))
      ]
]
  where
    other : k == key ≡ false → key == k ≡ false
    other f = ground (arith, eq_iff k key, eq_iff key k)

    in_rest : k == key ≡ false → member key all ≡ true
    in_rest f = or_rest (key == k) (member key all) h (other f)
