-- ===== src/Migrations/Complete.antt =====
-- The rows that a loop over the versions leaves: each with the checksum of its file, and one for
-- every file.
use velm.Base.{
  Bool, true, not, ◌||◌, ◌≡◌, inl, inr, refl, sym, ap, ◌∙◌, Bool-cases, Option, none, some,
  Option-cases, is_some, List, [], ◌∷◌, ◌++◌, Text, ◌==◌, eq_iff, keep, lookup,
}
use mathlib.Core.List.{append-nil}
use mathlib.Core.Path.{subst}
use velm.Migrations.{Applied, Database, Failure, Build, ordered_versions}
use velm.Migrations.Replay.{pending, recorded, recorded_with, IsReplay}
use velm.Migrations.Versions.{IsElement, lookup-ordered}
use velm.Migrations.Checksums.{Ends, IsSettled, IsTracked}

abbrev or_else : Option (Option Text) → Option (Option Text) → Option (Option Text)
or_else none o = o
or_else (some x) o = some x

lookup-append : (v : Text) (a b : Applied) → lookup v (a ++ b) ≡ or_else (lookup v a) (lookup v b)
unfolding lookup
lookup-append v [] b = refl
lookup-append v ((k, x) ∷ a) b = elim (Bool-cases (k == v)) [
  | inl e ↦ rw e refl
  | inr e ↦ rw e (lookup-append v a b)
]

IsElement-keep :
    (p : Text → Bool) (v : Text) (versions : List Text)
    → p v ≡ true
    → IsElement v versions
    → IsElement v (keep p versions)
unfolding keep
IsElement-keep p v [] h e = e
IsElement-keep p v (w ∷ versions) h e = elim (Bool-cases (w == v)) [
  | inl same ↦ rw (ap p ((eq_iff w v).0 same) ∙ h, same) refl
  | inr other ↦ elim (Bool-cases (p w)) [
    | inl f ↦ rw (f, other) (IsElement-keep p v versions h (rw other at e))
    | inr f ↦ rw f (IsElement-keep p v versions h (rw other at e))
  ]
]

module _ {S : Type 0} (build : Build S) where
  -- A version with a row is settled.
  abbrev pub IsKept : Applied → Type 0
  IsKept rows = (v : Text) → is_some (lookup v rows) ≡ true → IsSettled build rows v

  pub tracked-IsKept : (rows : Applied) → IsTracked build [] rows → IsKept rows
  tracked-IsKept rows h v there = elim (h v there) [ inl p ↦ p | inr (p, e) ↦ cc ]

  recorded_with-IsKept :
      (w : Text) (o : Option Text) (rows : Applied)
      → lookup w build.files ≡ o
      → IsKept rows
      → IsKept (recorded_with build w o rows)
  unfolding lookup
  recorded_with-IsKept w none rows file h v there = h v there
  recorded_with-IsKept w (some content) rows file h v there = elim (Bool-cases (w == v)) [
    | inl e ↦ (content, ap (λ x. lookup x build.files) (sym ((eq_iff w v).0 e)) ∙ file, rw e refl)
    | inr e ↦ let (c, f, r) = h v (rw e at there) in (c, f, rw e r)
  ]

  recorded-IsKept : (done : List Text) → IsKept (recorded build done)
  unfolding lookup
  recorded-IsKept [] v there = cc
  recorded-IsKept (w ∷ done) v there =
      recorded_with-IsKept w (lookup w build.files) (recorded build done) refl
        (recorded-IsKept done) v there

  append-IsKept : (a b : Applied) → IsKept a → IsKept b → IsKept (a ++ b)
  append-IsKept a b h k v there = elim (Option-cases (lookup v a)) [
    | inl e ↦
        let here = lookup-append v a b ∙ ap (λ o. or_else o (lookup v b)) e in
        let (c, f, r) = k v (sym (ap is_some here) ∙ there) in (c, f, here ∙ r)
    | inr (x, e) ↦
        let (c, f, r) = h v (ap is_some e) in
        (c, f, lookup-append v a b ∙ ap (λ o. or_else o (lookup v b)) r)
  ]

  recorded_with-some :
      (v w : Text) (o : Option Text) (rows : Applied)
      → lookup w build.files ≡ o
      → is_some (lookup v build.files) ≡ true
      → ((w == v) || is_some (lookup v rows)) ≡ true
      → is_some (lookup v (recorded_with build w o rows)) ≡ true
  unfolding lookup
  recorded_with-some v w none rows file there h = elim (Bool-cases (w == v)) [
    | inl e ↦ cc (ap (λ x. is_some (lookup x build.files)) ((eq_iff w v).0 e), ap is_some file)
    | inr e ↦ rw e at h
  ]
  recorded_with-some v w (some content) rows file there h = elim (Bool-cases (w == v)) [
    | inl e ↦ rw e refl
    | inr e ↦ rw e (rw e at h)
  ]

  recorded-some :
      (v : Text) (done : List Text)
      → is_some (lookup v build.files) ≡ true
      → IsElement v done
      → is_some (lookup v (recorded build done)) ≡ true
  unfolding lookup
  recorded-some v [] there e = e
  recorded-some v (w ∷ done) there e =
      recorded_with-some v w (lookup w build.files) (recorded build done) refl there
        (elim (Bool-cases (w == v)) [
          | inl same ↦ rw same refl
          | inr other ↦ rw other (recorded-some v done there (rw other at e))
        ])

  -- The rows are settled, and every file has one.
  abbrev pub IsComplete : Applied → Type 0
  IsComplete rows =
      IsKept rows
      × ((v : Text) → is_some (lookup v build.files) ≡ true → is_some (lookup v rows) ≡ true)

  some_first : (o p : Option (Option Text)) → is_some o ≡ true → is_some (or_else o p) ≡ true
  some_first none p h = cc
  some_first (some x) p h = refl

  some_last : (o p : Option (Option Text)) → is_some p ≡ true → is_some (or_else o p) ≡ true
  some_last none p h = h
  some_last (some x) p h = refl

  replayed-IsComplete :
      (applied rows : Applied)
      → IsKept rows
      → ((v : Text) → is_some (lookup v rows) ≡ is_some (lookup v applied))
      → IsComplete (rows ++ recorded build (pending applied (ordered_versions build.files)))
  replayed-IsComplete applied rows h same =
      let done = pending applied (ordered_versions build.files) in
      (
        append-IsKept rows (recorded build done) h (recorded-IsKept done),
        λ v there.
            ap is_some (lookup-append v rows (recorded build done))
            ∙ (elim (Bool-cases (is_some (lookup v applied))) [
              | inl e ↦ some_first (lookup v rows) (lookup v (recorded build done)) (same v ∙ e)
              | inr e ↦ some_last (lookup v rows) (lookup v (recorded build done)) (
                  recorded-some v done there (
                    IsElement-keep (λ w. not (is_some (lookup w applied))) v
                      (ordered_versions build.files) (ap not e)
                      (lookup-ordered v build.files there)))
            ]),
      )

  pub loop-IsComplete :
      (applied : Applied) (d : Database S) (o : Database S × Option Failure)
      → IsKept d.rows
      → ((v : Text) → is_some (lookup v d.rows) ≡ is_some (lookup v applied))
      → IsReplay build (pending applied (ordered_versions build.files)) d o
      → Ends (λ e. IsComplete e.rows) o
  loop-IsComplete applied d (after, some f) h same r = tt
  loop-IsComplete applied d (after, none) h same (done, rest, e, rows, schema, ends) =
      let rest_empty : rest ≡ [] = elim ends [ inl (a, b) ↦ b | inr (f, c) ↦ cc ] in
      let all_done : done ≡ pending applied (ordered_versions build.files) =
        sym (append-nil done) ∙ ap (λ l. done ++ l) (sym rest_empty) ∙ e in
      subst (λ l. IsComplete l) (sym (rows ∙ ap (λ l. d.rows ++ recorded build l) all_done))
        (replayed-IsComplete applied d.rows h same)
