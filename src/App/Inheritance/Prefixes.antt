-- ===== src/App/Inheritance/Prefixes.antt =====
-- The prefixes of auto numbers that are derived from a table's label and name.
use velm.Base.{
  and_left, and_right, ℕ, zero, suc, ◌-◌, ◌≤◌, Bool, true, false, ◌&&◌, if◌then◌else◌, ◌≡◌, refl,
  ap, arith, inl, inr, Bool-cases, List, [], ◌∷◌, Text, txt, trim, upper, leb, nat_eq, length,
  every, is_lower_letter, is_upper_letter, is_space, upper_byte, take_bytes, trim-free, any,
  nat_eq-eq,
}
use velm.Schema.DataTypes.{is_auto_number_prefix}
use velm.App.Definition.{Table, RegisteredApp}
use velm.App.Inheritance.{
  compact_prefix, first_prefix, script_scope_alias_for_table, derived_task_auto_number_prefix,
}

capital : (c : ℕ) → is_lower_letter c ≡ true → (is_upper_letter (c - 32) && true) ≡ true
capital c h = ground arith

both : {a : Bool} → a ≡ true → (a && true) ≡ true
both {a} h = ground arith

compact_prefix-upper : (s : Text) → every is_upper_letter (compact_prefix s) ≡ true
unfolding every compact_prefix
compact_prefix-upper [] = refl
compact_prefix-upper (c ∷ s) = elim (Bool-cases (is_lower_letter c)) [
  | inl e ↦ rw (e, compact_prefix-upper s) (capital c e)
  | inr e ↦ elim (Bool-cases (is_upper_letter c)) [
    | inl f ↦ rw (e, f, compact_prefix-upper s) (both f)
    | inr f ↦ rw (e, f) (compact_prefix-upper s)
  ]
]

take_bytes-every :
    (p : ℕ → Bool) (n : ℕ) (s : Text) → every p s ≡ true → every p (take_bytes n s) ≡ true
unfolding every take_bytes
take_bytes-every p zero s h = refl
take_bytes-every p (suc n) [] h = refl
take_bytes-every p (suc n) (c ∷ s) h =
    rw (and_left (p c) (every p s) h, take_bytes-every p n s (and_right (p c) (every p s) h)) refl

length-take_bytes : (n : ℕ) (s : Text) → n ≤ length s → length (take_bytes n s) ≡ n
unfolding take_bytes
length-take_bytes zero s h = refl
length-take_bytes (suc n) [] h = absurd (omega arith)
length-take_bytes (suc n) (c ∷ s) h = ap suc (length-take_bytes n s (omega arith))

-- Capitals are neither spaces nor changed by ToUpper.
upper_byte-capital : (c : ℕ) → is_upper_letter c ≡ true → upper_byte c ≡ c
unfolding upper_byte
upper_byte-capital c h = ground arith

upper-capitals : (s : Text) → every is_upper_letter s ≡ true → upper s ≡ s
unfolding every upper
upper-capitals [] h = refl
upper-capitals (c ∷ s) h =
    rw
      (
        upper_byte-capital c (and_left (is_upper_letter c) _ h),
        upper-capitals s (and_right (is_upper_letter c) _ h),
      )
      refl

is_space-capital : (c : ℕ) → is_upper_letter c ≡ true → is_space c ≡ false
unfolding is_space
is_space-capital c h = ground arith

is_space-capitals : (s : Text) → every is_upper_letter s ≡ true → any is_space s ≡ false
unfolding every
is_space-capitals [] h = refl
is_space-capitals (c ∷ s) h =
    rw (is_space-capital c (and_left (is_upper_letter c) _ h))
      (is_space-capitals s (and_right (is_upper_letter c) _ h))

-- Three or four capitals are a prefix.
capitals-valid :
    (s : Text)
    → every is_upper_letter s ≡ true
    → 3 ≤ length s
    → length s ≤ 4
    → is_auto_number_prefix s ≡ true
unfolding is_auto_number_prefix
capitals-valid s h low high =
    rw (trim-free s (is_space-capitals s h), upper-capitals s h, h) (in_bounds (length s) low high)
  where
    in_bounds : (n : ℕ) → 3 ≤ n → n ≤ 4 → (leb 3 n && leb n 4 && true) ≡ true
    in_bounds n l k = ground arith

first_prefix-valid :
    (candidates : List Text) → is_auto_number_prefix (first_prefix candidates) ≡ true
unfolding first_prefix every
first_prefix-valid [] = capitals-valid (txt "TASK") refl (omega arith) (omega arith)
first_prefix-valid (c ∷ candidates) =
    choose (compact_prefix (trim c)) (compact_prefix-upper (trim c)) (first_prefix-valid candidates)
  where
    choose :
        (p : Text)
        → every is_upper_letter p ≡ true
        → is_auto_number_prefix (first_prefix candidates) ≡ true
        → is_auto_number_prefix (
            if leb 4 (length p)
            then take_bytes 4 p
            else if nat_eq (length p) 3
            then p
            else first_prefix candidates)
          ≡ true
    choose p h rest = elim (Bool-cases (leb 4 (length p))) [
      | inl e ↦
          let four = length-take_bytes 4 p (ground arith) in
          rw e (
            capitals-valid (take_bytes 4 p) (take_bytes-every is_upper_letter 4 p h) (omega arith)
              (omega arith))
      | inr e ↦ elim (Bool-cases (nat_eq (length p) 3)) [
        | inl f ↦
            let three = nat_eq-eq (length p) 3 f in
            rw (e, f) (capitals-valid p h (omega arith) (omega arith))
        | inr f ↦ rw (e, f) rest
      ]
    ]

-- The prefix that is derived for a table of tasks is one that the builder accepts: three or four
-- capitals, whatever the label and the names are.
pub derived_prefix-valid :
    (owner : RegisteredApp) (table : Table)
    → is_auto_number_prefix (derived_task_auto_number_prefix owner table) ≡ true
unfolding derived_task_auto_number_prefix
derived_prefix-valid owner table =
    first_prefix-valid
      (trim table.label_singular ∷ script_scope_alias_for_table owner table.name ∷ table.name ∷ [])
