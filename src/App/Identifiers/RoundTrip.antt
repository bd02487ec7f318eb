-- ===== src/App/Identifiers/RoundTrip.antt =====
-- Ids of tables are read back.
use velm.Base.{
  or_left, or_right, ℕ, true, false, ◌||◌, ◌≡◌, ◌↔◌, refl, ap, ◌∙◌, arith, inl, inr, Bool-cases,
  Option, none, some, [], ◌∷◌, ◌++◌, Text, ◌==◌, nat_eq, nat_eq-eq, any, cut_prefix, Holds,
}
use mathlib.Core.Path.{subst}
use velm.App.Identifiers.{id_prefix, yaml_table_id, cut_colon, both_given, parse_yaml_table_id}

cut_prefix-append : (p s : Text) → cut_prefix (p ++ s) p ≡ some s
unfolding cut_prefix
cut_prefix-append [] s = refl
cut_prefix-append (c ∷ p) s = rw (same c) (cut_prefix-append p s)
  where
    same : (c : ℕ) → nat_eq c c ≡ true
    same c = ground arith

cut_prefix-Holds : (s p : Text) → Holds (λ rest. s ≡ p ++ rest) (cut_prefix s p)
unfolding cut_prefix
cut_prefix-Holds s [] = refl
cut_prefix-Holds [] (d ∷ p) = tt
cut_prefix-Holds (c ∷ s) (d ∷ p) = elim (Bool-cases (nat_eq c d)) [
  | inl e ↦ rw e (longer (nat_eq-eq c d e) (cut_prefix s p) (cut_prefix-Holds s p))
  | inr e ↦ rw e tt
]
  where
    longer :
        c ≡ d
        → (o : Option Text) → Holds (λ rest. s ≡ p ++ rest) o
        → Holds (λ rest. c ∷ s ≡ d ∷ (p ++ rest)) o
    longer h none k = tt
    longer h (some rest) k = rw (h, k) refl

cut_colon-append :
    (a t : Text) → any (λ c. nat_eq c 58) a ≡ false → cut_colon (a ++ 58 ∷ t) ≡ some (a, t)
unfolding cut_colon
cut_colon-append [] t h = refl
cut_colon-append (c ∷ a) t h =
    rw (or_left (nat_eq c 58) _ h, cut_colon-append a t (or_right (nat_eq c 58) _ h)) refl

cut_colon-Holds :
    (s : Text)
    → Holds
        (λ (r : Text × Text). (s ≡ r.0 ++ 58 ∷ r.1) × (any (λ c. nat_eq c 58) r.0 ≡ false))
        (cut_colon s)
unfolding cut_colon
cut_colon-Holds [] = tt
cut_colon-Holds (c ∷ s) = elim (Bool-cases (nat_eq c 58)) [
  | inl e ↦ rw e (ap (λ x. x ∷ s) (nat_eq-eq c 58 e), refl)
  | inr e ↦ rw e (longer e (cut_colon s) (cut_colon-Holds s))
]
  where
    longer :
        nat_eq c 58 ≡ false
        → (o : Option (Text × Text))
        → Holds
            (λ (r : Text × Text). (s ≡ r.0 ++ 58 ∷ r.1) × (any (λ c. nat_eq c 58) r.0 ≡ false))
            o
        → Holds
            (λ (r : Text × Text). (c ∷ s ≡ r.0 ++ 58 ∷ r.1) × (any (λ c. nat_eq c 58) r.0 ≡ false))
            (elim o [ none ↦ none | some (before, after) ↦ some (c ∷ before, after) ])
    longer e none h = tt
    longer e (some (before, after)) (h, k) = (ap (λ x. c ∷ x) h, rw (e, k) refl)

-- What is read from an input.
abbrev IsRead : Text → Text × Text → Type 0
IsRead input (app_name, table_name) =
    (input ≡ yaml_table_id app_name table_name)
    × (any (λ c. nat_eq c 58) app_name ≡ false)
    × ((app_name == [] || table_name == []) ≡ false)

parse-IsRead : (input : Text) → Holds (IsRead input) (parse_yaml_table_id input)
unfolding parse_yaml_table_id yaml_table_id
parse-IsRead input = after_prefix (cut_prefix input id_prefix) (cut_prefix-Holds input id_prefix)
  where
    given :
        (rest app_name table_name : Text)
        → input ≡ id_prefix ++ rest
        → rest ≡ app_name ++ 58 ∷ table_name
        → any (λ c. nat_eq c 58) app_name ≡ false
        → Holds (IsRead input) (both_given (app_name, table_name))
    given rest app_name table_name h k l = elim (Bool-cases (app_name == [] || table_name == [])) [
      | inl e ↦ rw e tt
      | inr e ↦ rw e (h ∙ ap (λ r. id_prefix ++ r) k, l, e)
    ]

    after_cut :
        (rest : Text)
        → input ≡ id_prefix ++ rest
        → (o : Option (Text × Text))
        → Holds
            (λ (r : Text × Text). (rest ≡ r.0 ++ 58 ∷ r.1) × (any (λ c. nat_eq c 58) r.0 ≡ false))
            o
        → Holds (IsRead input) (elim o [ none ↦ none | some parts ↦ both_given parts ])
    after_cut rest h none k = tt
    after_cut rest h (some (app_name, table_name)) (k, l) = given rest app_name table_name h k l

    after_prefix :
        (o : Option Text)
        → Holds (λ rest. input ≡ id_prefix ++ rest) o
        → Holds (IsRead input) (elim o [
          | none ↦ none
          | some rest ↦ elim (cut_colon rest) [ none ↦ none | some parts ↦ both_given parts ]
        ])
    after_prefix none h = tt
    after_prefix (some rest) h = after_cut rest h (cut_colon rest) (cut_colon-Holds rest)

parse-printed :
    (app_name table_name : Text)
    → any (λ c. nat_eq c 58) app_name ≡ false
    → (app_name == [] || table_name == []) ≡ false
    → parse_yaml_table_id (yaml_table_id app_name table_name) ≡ some (app_name, table_name)
unfolding parse_yaml_table_id yaml_table_id
parse-printed app_name table_name h k =
    from (cut_prefix (id_prefix ++ (app_name ++ 58 ∷ table_name)) id_prefix)
      (cut_prefix-append id_prefix (app_name ++ 58 ∷ table_name))
  where
    from :
        (o : Option Text)
        → o ≡ some (app_name ++ 58 ∷ table_name)
        → elim o [
          | none ↦ none
          | some rest ↦ elim (cut_colon rest) [ none ↦ none | some parts ↦ both_given parts ]
        ]
          ≡ some (app_name, table_name)
    from o e = rw (e, cut_colon-append app_name table_name h, k) refl

-- An input is the id of a table, with its app and its name, if and only if it is the text that is printed
-- for them, neither is empty, and the app's name has no colon.
pub parse_yaml_table_id_iff :
    (input app_name table_name : Text)
    → (parse_yaml_table_id input ≡ some (app_name, table_name)) ↔ (
        (input ≡ yaml_table_id app_name table_name)
        × (any (λ c. nat_eq c 58) app_name ≡ false)
        × ((app_name == [] || table_name == []) ≡ false))
parse_yaml_table_id_iff input app_name table_name = (
  λ h. subst (Holds (IsRead input)) h (parse-IsRead input),
  λ (printed, free, given).
      ap parse_yaml_table_id printed ∙ parse-printed app_name table_name free given,
)
