-- ===== src/App/Methods/Allowed.antt =====
-- Which method a call reaches.
use velm.Base.{
  Holds, Bool, true, false, ◌||◌, if◌then◌else◌, ◌≡◌, ◌⊎◌, refl, sym, inl, inr, Bool-cases, eq_iff,
  Option, none, some, List, [], ◌∷◌, Text, txt, ◌==◌,
}
use mathlib.Core.Path.{subst}
use velm.Security.Model.{key_of}
use velm.App.Definition.{Method, RegisteredApp}
use velm.App.Registry.{runtime_dependency_apps}
use velm.App.Methods.{
  cut_dot, find_service_method, dependency_method, is_callable, method_among,
  resolve_service_method,
}

-- Whether an app is one of those that a list has by their names.
abbrev pub Among : RegisteredApp → List (Text × RegisteredApp) → Type 0
Among a [] = ⊥
Among a (e ∷ apps) = (a ≡ e.1) ⊎ Among a apps

module _ (service name : Text) where
  -- A public method of another app.
  abbrev pub Foreign : List (Text × RegisteredApp) → RegisteredApp × Method → Type 0
  Foreign apps r =
      Among r.0 apps
      × (find_service_method r.0 service name ≡ some r.1)
      × (key_of r.1.visibility ≡ txt "public")

  dependency-Foreign :
      (apps : List (Text × RegisteredApp))
      → Holds (Foreign apps) (dependency_method service name apps)
  unfolding dependency_method
  dependency-Foreign [] = tt
  dependency-Foreign ((key, a) ∷ apps) =
      go (find_service_method a service name) refl (dependency_method service name apps)
        (dependency-Foreign apps)
    where
      later :
          (o : Option (RegisteredApp × Method))
          → Holds (Foreign apps) o
          → Holds (Foreign ((key, a) ∷ apps)) o
      later none h = tt
      later (some r) (among, found, visible) = (inr among, found, visible)

      go :
          (o : Option Method)
          → find_service_method a service name ≡ o
          → (rest : Option (RegisteredApp × Method)) → Holds (Foreign apps) rest
          → Holds (Foreign ((key, a) ∷ apps)) (elim o [
            | none ↦ rest
            | some m ↦ if key_of m.visibility == txt "public" then some (a, m) else rest
          ])
      go none e rest h = later rest h
      go (some m) e rest h = elim (Bool-cases (key_of m.visibility == txt "public")) [
        | inl k ↦ rw k (inl refl, e, (eq_iff (key_of m.visibility) (txt "public")).0 k)
        | inr k ↦ rw k (later rest h)
      ]

module _ (owner : RegisteredApp) (apps : List (Text × RegisteredApp)) (require_public : Bool) where
  -- The caller's own method, if it may be called, or a public one of another app where the caller has none.
  abbrev pub Allowed : Text → Text → RegisteredApp × Method → Type 0
  Allowed service name r =
      ((r.0 ≡ owner)
        × (find_service_method owner service name ≡ some r.1)
        × (is_callable require_public r.1 ≡ true))
      ⊎ ((find_service_method owner service name ≡ none) × Foreign service name apps r)

  method_among-Allowed :
      (service name : Text)
      → Holds (Allowed service name) (method_among owner apps service name require_public)
  method_among-Allowed service name = go (find_service_method owner service name) refl
    where
      foreign :
          (o : Option (RegisteredApp × Method))
          → find_service_method owner service name ≡ none
          → Holds (Foreign service name apps) o
          → Holds (Allowed service name) o
      foreign none e h = tt
      foreign (some r) e h = inr (e, h)

      go :
          (o : Option Method)
          → find_service_method owner service name ≡ o
          → Holds (Allowed service name) (elim o [
            | some m ↦ if is_callable require_public m then some (owner, m) else none
            | none ↦ dependency_method service name apps
          ])
      go none e =
          foreign (dependency_method service name apps) e (dependency-Foreign service name apps)
      go (some m) e = elim (Bool-cases (is_callable require_public m)) [
        | inl k ↦ rw k (inl (refl, e, k))
        | inr k ↦ rw k tt
      ]

  cut-Allowed :
      (service name : Text) (o : Option (Text × Text))
      → o ≡ some (service, name)
      → Holds (Allowed service name) (elim o [
        | none ↦ none
        | some (service, name) ↦
            if service == [] || name == []
            then none
            else method_among owner apps service name require_public
      ])
  cut-Allowed service name o e =
      subst
        (λ o. Holds (Allowed service name) (elim o [
          | none ↦ none
          | some (service, name) ↦
              if service == [] || name == []
              then none
              else method_among owner apps service name require_public
        ]))
        (sym e) (named (service == [] || name == []))
    where
      named :
          (b : Bool)
          → Holds
              (Allowed service name)
              (if b then none else method_among owner apps service name require_public)
      named true = tt
      named false = method_among-Allowed service name

-- The method that a call of `service.method` reaches is the caller's own of that name, if it may be called,
-- or, only where the caller has none, a public one of an app that the caller's definition depends on.
pub resolve_service_method-Allowed :
    (apps : List RegisteredApp) (owner : RegisteredApp) (call service name : Text)
    (require_public : Bool) (found : RegisteredApp × Method)
    → cut_dot (key_of call) ≡ some (service, name)
    → resolve_service_method apps owner call require_public ≡ some found
    → Allowed owner (runtime_dependency_apps apps owner) require_public service name found
unfolding resolve_service_method
resolve_service_method-Allowed apps owner call service name require_public found cut h =
    subst (Holds (Allowed owner (runtime_dependency_apps apps owner) require_public service name)) h
      (cut-Allowed owner (runtime_dependency_apps apps owner) require_public service name
        (cut_dot (key_of call)) cut)
