-- ===== src/App/EntryPoints/Served.antt =====
-- Which endpoint a request reaches.
use velm.Base.{
  Bool, true, false, not, ◌&&◌, if◌then◌else◌, ◌≡◌, refl, ap, arith, ◌++◌, eq_iff, inl, inr,
  Bool-cases, Option, none, some, Result, ok, err, ◌>>◌, List, [], ◌∷◌, Text, null, All,
}
use mathlib.Core.Path.{subst}
use velm.App.Definition.{Endpoint, Definition, RegisteredApp}
use velm.App.Registry.{runtime_definition}
use velm.App.EntryPoints.{
  declared_roles, Undeclared, undeclared_endpoint, endpoint_declares, each_passes,
  validate_entry_point_roles, normalize_http_method, normalize_runtime_path, answers_to,
  first_endpoint, endpoints_of, endpoint_among, resolve_endpoint,
}

abbrev pub is_valid : Option Definition → Bool
is_valid none = true
is_valid (some d) = elim (validate_entry_point_roles d) [ ok x ↦ true | err e ↦ false ]

-- An endpoint that is enabled and has the method and the path, both in normal form.
abbrev pub Serves : Text → Text → Endpoint → Type 0
Serves verb path e =
    (e.enabled ≡ true)
    × (normalize_http_method e.method ≡ verb)
    × (normalize_runtime_path e.path ≡ path)

-- Whether an element is the first of a list for which a predicate holds, or there is none.
abbrev pub IsFirst {ℓ} : {A : Type 0} → (A → Type ℓ) → List A → Option A → Type ℓ
IsFirst P xs none = All (λ x. P x → ⊥) xs
IsFirst {A} P xs (some x) =
    P x
    × ((before : List A) × (after : List A) × (xs ≡ before ++ x ∷ after)
        × All (λ y. P y → ⊥) before)

-- What a search over the apps must find: the first endpoint that serves the request in the first app
-- that has one, which declares a role.
abbrev pub Answer : Text → Text → List RegisteredApp → Option (RegisteredApp × Endpoint) → Type 0
Answer verb path apps none =
    All (λ a. IsFirst (Serves verb path) (endpoints_of (runtime_definition a)) none) apps
Answer verb path apps (some (a, e)) =
    (null (declared_roles e.roles) ≡ false)
    × IsFirst (Serves verb path) (endpoints_of (runtime_definition a)) (some e)
    × ((before : List RegisteredApp) × (after : List RegisteredApp) × (apps ≡ before ++ a ∷ after)
        × All (λ b. IsFirst (Serves verb path) (endpoints_of (runtime_definition b)) none) before)

abbrev Passed : Result {0, 0} Undeclared Unit → Type 0
Passed (ok x) = Unit
Passed (err e) = ⊥

both_pass : (r s : Result {0, 0} Undeclared Unit) → Passed (r >> s) → (Passed r × Passed s)
both_pass (ok x) s h = (tt, h)
both_pass (err e) s h = absurd h

each-All :
    {A : Type 0} (check : A → Result {0, 0} Undeclared Unit) (xs : List A)
    → Passed (each_passes check xs)
    → All (λ x. Passed (check x)) xs
unfolding each_passes
each-All check [] h = tt
each-All check (x ∷ xs) h =
    let (first, more) = both_pass (check x) (each_passes check xs) h in
    (first, each-All check xs more)

declares :
    (e : Endpoint)
    → Passed (endpoint_declares e)
    → e.enabled ≡ true
    → null (declared_roles e.roles) ≡ false
unfolding endpoint_declares
declares e h on = go e.enabled (null (declared_roles e.roles)) on h
  where
    go :
        (enabled none_left : Bool)
        → enabled ≡ true
        → Passed (
            if not enabled
            then ok tt
            else if none_left
            then err (undeclared_endpoint e.name)
            else ok tt)
        → none_left ≡ false
    go true true j l = absurd l
    go true false j l = refl
    go false n j l = absurd (ground arith)

three : (a b c : Bool) → (a && b && c) ≡ true → (a ≡ true) × (b ≡ true) × (c ≡ true)
three a b c h = (ground arith, ground arith, ground arith)

answers-Serves :
    (verb path : Text) (e : Endpoint) → answers_to verb path e ≡ true → Serves verb path e
unfolding answers_to
answers-Serves verb path e h =
    let (on, same_verb, same_path) = three e.enabled _ _ h in
    (on, (eq_iff _ _).0 same_verb, (eq_iff _ _).0 same_path)

Serves-answers :
    (verb path : Text) (e : Endpoint) → Serves verb path e → answers_to verb path e ≡ true
unfolding answers_to
Serves-answers verb path e (on, same_verb, same_path) =
    rw (on, (eq_iff _ _).1 same_verb, (eq_iff _ _).1 same_path) refl

first_endpoint-IsFirst :
    (verb path : Text) (endpoints : List Endpoint)
    → IsFirst (Serves verb path) endpoints (first_endpoint verb path endpoints)
unfolding first_endpoint
first_endpoint-IsFirst verb path [] = tt
first_endpoint-IsFirst verb path (e ∷ endpoints) = elim (Bool-cases (answers_to verb path e)) [
  | inl k ↦ rw k (answers-Serves verb path e k, ([], endpoints, refl, tt))
  | inr k ↦ rw k (
      later (λ s. absurd (cc (Serves-answers verb path e s, k))) _
        (first_endpoint-IsFirst verb path endpoints))
]
  where
    later :
        (Serves verb path e → ⊥)
        → (o : Option Endpoint) → IsFirst (Serves verb path) endpoints o
        → IsFirst (Serves verb path) (e ∷ endpoints) o
    later fails none h = (fails, h)
    later fails (some x) (s, (before, after, same, h)) =
        (s, (e ∷ before, after, ap (λ es. e ∷ es) same, (fails, h)))

All-split :
    (P : Endpoint → Type 0) (before : List Endpoint) (x : Endpoint) (after : List Endpoint)
    → All P (before ++ x ∷ after)
    → P x
All-split P [] x after (p, h) = p
All-split P (y ∷ before) x after (p, h) = All-split P before x after h

endpoints-declare :
    (d : Option Definition)
    → is_valid d ≡ true
    → All (λ e. Passed (endpoint_declares e)) (endpoints_of d)
unfolding validate_entry_point_roles
endpoints-declare none h = tt
endpoints-declare (some d) h = each-All endpoint_declares d.endpoints (both_pass _ _ (passed _ h)).1
  where
    passed :
        (r : Result {0, 0} Undeclared Unit)
        → elim r [ ok x ↦ true | err e ↦ false ] ≡ true
        → Passed r
    passed (ok x) k = tt
    passed (err e) k = absurd (ground arith)

among-Answer :
    (verb path : Text) (apps : List RegisteredApp)
    → All (λ a. is_valid (runtime_definition a) ≡ true) apps
    → Answer verb path apps (endpoint_among verb path apps)
unfolding endpoint_among
among-Answer verb path [] h = tt
among-Answer verb path (a ∷ apps) (h, more) =
    here (among-Answer verb path apps more)
      (first_endpoint verb path (endpoints_of (runtime_definition a)))
      (first_endpoint-IsFirst verb path (endpoints_of (runtime_definition a)))
  where
    later :
        IsFirst (Serves verb path) (endpoints_of (runtime_definition a)) none
        → (o : Option (RegisteredApp × Endpoint)) → Answer verb path apps o
        → Answer verb path (a ∷ apps) o
    later fails none k = (fails, k)
    later fails (some (b, e)) (d, first, (before, after, same, k)) =
        (d, first, (a ∷ before, after, ap (λ bs. a ∷ bs) same, (fails, k)))

    here :
        Answer verb path apps (endpoint_among verb path apps)
        → (o : Option Endpoint) → IsFirst (Serves verb path) (endpoints_of (runtime_definition a)) o
        → Answer verb path
            (a ∷ apps)
            (elim o [ some e ↦ some (a, e) | none ↦ endpoint_among verb path apps ])
    here rest none fails = later fails _ rest
    here rest (some e) (s, (before, after, same, k)) = (
      declares e
          (All-split (λ x. Passed (endpoint_declares x)) before e after
            (subst (All (λ x. Passed (endpoint_declares x))) same
              (endpoints-declare (runtime_definition a) h)))
          s.0,
      (s, (before, after, same, k)),
      ([], apps, refl, tt),
    )

-- Where the definitions in effect pass the check of their entry points: the endpoint that is found for
-- a request is enabled, its method and path in normal form are the request's, it declares a role, and it
-- is the first such endpoint of the first app that has one; where none is found, no app has one.
pub resolve_endpoint-Answer :
    (apps : List RegisteredApp) (verb path : Text)
    → All (λ a. is_valid (runtime_definition a) ≡ true) apps
    → Answer
        (normalize_http_method verb)
        (normalize_runtime_path path)
        apps
        (resolve_endpoint apps verb path)
unfolding resolve_endpoint
resolve_endpoint-Answer apps verb path h =
    among-Answer (normalize_http_method verb) (normalize_runtime_path path) apps h
