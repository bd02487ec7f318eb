-- ===== src/Security/Validation/Accepted.antt =====
-- Which security sections are accepted.
use velm.Base.{
  Bool, true, false, not, ◌&&◌, ◌||◌, ◌≡◌, refl, ◌∙◌, arith, Option, none, some, ok, err, ◌>>◌,
  List, [], ◌∷◌, Text, txt, ◌==◌, is_some, eq_iff,
}
use velm.Runtime.{GoRuntime}
use velm.Security.Model.{Rule, member}
use velm.Security.Shadowing.{find_shadowed}
use velm.App.EntryPoints.{is_reserved_role_name}
use velm.Security.Validation.{
  Problem, unknown_role, unnamed_rule, duplicate_rule, rule_without_role, rule_unknown_role,
  wrong_operation, wrong_effect, wrong_table, field_of_delete, unknown_field, invalid_condition,
  Checked, refuse_if, validate_identifier_roles, is_operation, is_effect, is_allowed_field,
  is_expression, validate_rule, validate_rules, check_shadowing, validate_security,
}

abbrev pub all_pass {ℓ} : {A : Type ℓ} → (A → Bool) → List A → Bool
all_pass p [] = true
all_pass p (x ∷ xs) = p x && all_pass p xs

abbrev pub names_of : List Rule → List Text
names_of [] = []
names_of (r ∷ rules) = r.name ∷ names_of rules

abbrev pub all_distinct : List Text → Bool
all_distinct [] = true
all_distinct (x ∷ xs) = not (member x xs) && all_distinct xs

abbrev pub is_ok : Checked → Bool
is_ok (ok x) = true
is_ok (err e) = false

is_ok->> : (r s : Checked) → is_ok (r >> s) ≡ (is_ok r && is_ok s)
is_ok->> (ok x) s = refl
is_ok->> (err e) s = refl

is_ok-refuse_if : (b : Bool) (p : Problem) → is_ok (refuse_if b p) ≡ not b
is_ok-refuse_if true p = refl
is_ok-refuse_if false p = refl

-- A role that the app declares, or the one that the runtime reserves.
abbrev pub is_known_role : List Text → Text → Bool
is_known_role role_set role = is_reserved_role_name role || member role role_set

roles_accepted :
    (role_set roles : List Text)
    → is_ok (validate_identifier_roles role_set roles) ≡ all_pass (is_known_role role_set) roles
unfolding validate_identifier_roles
roles_accepted role_set [] = refl
roles_accepted role_set (role ∷ roles) =
    is_ok->>
      (refuse_if (not (is_reserved_role_name role) && not (member role role_set))
        (unknown_role role))
      _
    ∙ (rw
        (
          is_ok-refuse_if (not (is_reserved_role_name role) && not (member role role_set))
              (unknown_role role),
          roles_accepted role_set roles,
        )
        (de_morgan (is_reserved_role_name role) (member role role_set) _))
  where
    de_morgan : (a b c : Bool) → (not (not a && not b) && c) ≡ ((a || b) && c)
    de_morgan a b c = ground arith

module _ (go : GoRuntime) (role_set : List Text) (expected_table : Text)
    (allowed_fields : Option (List Text)) where
  -- A rule that is sound by itself: it has a name, a role of the app, an operation and an effect; it
  -- names no other table, no field of a deletion, no unknown field; its condition can be read.
  abbrev pub is_sound : Rule → Bool
  is_sound r =
      not (r.name == [])
      && member r.role role_set
      && not (r.role == [])
      && is_operation r.operation
      && is_effect r.effect
      && (expected_table == [] || r.table == [] || r.table == expected_table)
      && (not (r.operation == txt "D") || r.field == [])
      && (r.field == [] || is_allowed_field allowed_fields r.field)
      && (r.condition == [] || is_expression go r.condition)

  rule_accepted :
      (seen : List Text) (r : Rule)
      → is_ok (validate_rule go role_set expected_table allowed_fields seen r)
        ≡ (is_sound r && not (member r.name seen))
  unfolding validate_rule
  rule_accepted seen r =
      accepts _ _
        (accepts _ _
          (accepts _ _
            (accepts _ _
              (accepts _ _
                (accepts _ _
                  (accepts _ _
                    (accepts _ _
                      (accepts _ _ (is_ok-refuse_if (r.name == []) unnamed_rule)
                        (duplicate_rule r.name) refl)
                      (rule_without_role r.name) refl)
                    (rule_unknown_role r.name r.role) (double (member r.role role_set)))
                  (wrong_operation r.name) (double (is_operation r.operation)))
                (wrong_effect r.name) (double (is_effect r.effect)))
              (wrong_table r.name r.table)
              (none_of (expected_table == []) (r.table == []) (r.table == expected_table)))
            (field_of_delete r.name) (unless (r.operation == txt "D") (r.field == [])))
          (unknown_field r.name r.field)
          (either (r.field == []) (is_allowed_field allowed_fields r.field)))
        (invalid_condition r.name) (either (r.condition == []) (is_expression go r.condition))
      ∙ second_last (not (r.name == [])) (not (member r.name seen)) _ _ _ _ _ _ _ _
    where
      accepts :
          (b : Bool) (c : Checked) {x y : Bool}
          → is_ok c ≡ x
          → (p : Problem) → not b ≡ y
          → is_ok (c >> refuse_if b p) ≡ (x && y)
      accepts b c {x} {y} h p k = is_ok->> c (refuse_if b p) ∙ rw (h, is_ok-refuse_if b p, k) refl

      double : (a : Bool) → not (not a) ≡ a
      double a = ground arith

      either : (a b : Bool) → not (not a && not b) ≡ (a || b)
      either a b = ground arith

      unless : (a b : Bool) → not (a && not b) ≡ (not a || b)
      unless a b = ground arith

      none_of : (a b c : Bool) → not (not a && not b && not c) ≡ (a || b || c)
      none_of a b c = ground arith

      second_last :
          (named fresh a b c d e f g h : Bool)
          → (named && fresh && a && b && c && d && e && f && g && h)
            ≡ ((named && b && a && c && d && e && f && g && h) && fresh)
      second_last named fresh a b c d e f g h = ground arith

  not_seen : List Text → List Rule → Bool
  not_seen seen rules = all_pass (λ r. not (member r.name seen)) rules

  not_seen-cons :
      (name : Text) (seen : List Text) (rules : List Rule)
      → not_seen (name ∷ seen) rules ≡ (not (member name (names_of rules)) && not_seen seen rules)
  unfolding member not_seen
  not_seen-cons name seen [] = refl
  not_seen-cons name seen (r ∷ rules) =
      rw (not_seen-cons name seen rules) (ground (arith, eq_iff name r.name, eq_iff r.name name))

  nothing_seen : (rules : List Rule) → not_seen [] rules ≡ true
  unfolding not_seen member
  nothing_seen [] = refl
  nothing_seen (r ∷ rules) = nothing_seen rules

  rules_accepted :
      (seen : List Text) (rules : List Rule)
      → is_ok (validate_rules go role_set expected_table allowed_fields seen rules)
        ≡ (all_pass is_sound rules && all_distinct (names_of rules) && not_seen seen rules)
  unfolding validate_rules not_seen
  rules_accepted seen [] = refl
  rules_accepted seen (r ∷ rules) =
      is_ok->> (validate_rule go role_set expected_table allowed_fields seen r) _
      ∙ (rw
          (
            rule_accepted seen r,
            rules_accepted (r.name ∷ seen) rules,
            not_seen-cons r.name seen rules,
          )
          (regroup (is_sound r) (not (member r.name seen)) _ _ _ _))
    where
      regroup :
          (a b c d e f : Bool)
          → ((a && b) && (c && d && (e && f))) ≡ ((a && c) && (e && d) && (b && f))
      regroup a b c d e f = ground arith

  -- A definition's security section is accepted if and only if its roles are known, each of its rules is
  -- sound, no name stands twice among the rules, and none of the rules is shadowed by one before it.
  pub validate_security_iff :
      (roles : List Text) (rules : List Rule)
      → is_ok (validate_security go role_set expected_table allowed_fields roles rules) ≡ (
          all_pass (is_known_role role_set) roles
          && (all_pass is_sound rules && all_distinct (names_of rules))
          && not (is_some (find_shadowed expected_table rules)))
  unfolding validate_security
  validate_security_iff roles rules =
      is_ok->>
        (validate_identifier_roles role_set roles
          >> validate_rules go role_set expected_table allowed_fields [] rules)
        (check_shadowing go role_set expected_table allowed_fields
          (find_shadowed expected_table rules))
      ∙ (rw
          (
            is_ok->> (validate_identifier_roles role_set roles)
                (validate_rules go role_set expected_table allowed_fields [] rules),
            roles_accepted role_set roles,
            rules_accepted [] rules,
            nothing_seen rules,
          )
          (in_order _ (all_pass is_sound rules) (all_distinct (names_of rules)) _ _
            (unshadowed (find_shadowed expected_table rules))))
    where
      unshadowed :
          (o : Option (Rule × Rule))
          → is_ok (check_shadowing go role_set expected_table allowed_fields o) ≡ not (is_some o)
      unshadowed none = refl
      unshadowed (some pair) = refl

      in_order : (a b c d e : Bool) → d ≡ e → ((a && (b && c && true)) && d) ≡ (a && (b && c) && e)
      in_order a b c d e h = rw h (ground arith)
