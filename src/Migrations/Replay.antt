-- ===== src/Migrations/Replay.antt =====
-- The loop over the versions, against a replay of the scripts that are still to be applied.
use velm.Base.{
  Bool, true, false, not, if◌then◌else◌, ◌≡◌, ◌⊎◌, inl, inr, refl, sym, ap, ◌∙◌, Bool-cases, Option,
  none, some, is_some, List, [], ◌∷◌, ◌++◌, Text, txt, ◌==◌, keep, lookup,
}
use mathlib.Core.List.{append-nil, append_assoc}
use velm.Migrations.{
  Applied, Database, Failure, script_failed, record_failed, tables_failed, unreadable_file, Build,
  and_then, commit_version, apply_content, left_by, after_migration, apply_pending,
}

-- The versions that are not among the rows, in their order.
abbrev pub pending : Applied → List Text → List Text
pending applied = keep (λ v. not (is_some (lookup v applied)))

module _ {S : Type 0} (build : Build S) where
  -- The state after a script, if there is one and it succeeds, and after what follows it.
  abbrev settle : Text → S → S
  settle v s =
      if v == txt "042_system_app.sql" then (build.ensure_required_system_tables s).1 else s

  abbrev settled_by : Text → S → Option S → S
  settled_by v s none = s
  settled_by v s (some t) = settle v t

  abbrev executed : Text → Option Text → S → S
  executed v none s = s
  executed v (some content) s = settled_by v s (build.execute content s)

  abbrev pub replay : List Text → S → S
  replay [] s = s
  replay (v ∷ versions) s = replay versions (executed v (lookup v build.files) s)

  -- the rows that the scripts leave
  abbrev pub recorded_with : Text → Option Text → Applied → Applied
  recorded_with v none rows = rows
  recorded_with v (some content) rows = (v, some (build.checksum content)) ∷ rows

  abbrev pub recorded : List Text → Applied
  recorded [] = []
  recorded (v ∷ versions) = recorded_with v (lookup v build.files) (recorded versions)

  -- Some first versions were run, in their order, and recorded; without a failure all of them.
  abbrev pub IsReplay : List Text → Database S → Database S × Option Failure → Type 0
  IsReplay versions before (after, failure) =
      (done : List Text) × (rest : List Text) × (done ++ rest ≡ versions)
      × (after.rows ≡ before.rows ++ recorded done)
      × (after.schema ≡ replay done before.schema)
      × (((failure ≡ none) × (rest ≡ [])) ⊎ ((f : Failure) × (failure ≡ some f)))

  stopped :
      (versions : List Text) (db : Database S) (f : Failure) → IsReplay versions db (db, some f)
  stopped versions db f = ([], versions, refl, sym (append-nil db.rows), refl, inr (f, refl))

  module _ (v : Text) (versions : List Text) (k : Database S → Database S × Option Failure)
      (follow : (d : Database S) → IsReplay versions d (k d)) where
    -- One version was run and recorded, and the rest is `o`.
    added :
        (content : Text) (before d : Database S)
        → lookup v build.files ≡ some content
        → d.rows ≡ before.rows ++ (v, some (build.checksum content)) ∷ []
        → d.schema ≡ executed v (some content) before.schema
        → (o : Database S × Option Failure) → IsReplay versions d o
        → IsReplay (v ∷ versions) before o
    added content before d file rows schema (after, f) (done, rest, e, r, s, ends) = (
      v ∷ done,
      rest,
      ap (λ l. v ∷ l) e,
      r
          ∙ ap (λ l. l ++ recorded done) rows
          ∙ append_assoc before.rows ((v, some (build.checksum content)) ∷ []) (recorded done)
          ∙ ap (λ o. before.rows ++ recorded_with v o (recorded done)) (sym file),
      s ∙ ap (replay done) schema ∙ ap (λ o. replay done (executed v o before.schema)) (sym file),
      ends,
    )

    -- What follows the insertion: the hook, and the rest of the versions.
    after_commit :
        (content : Text) (before : Database S) (s : S)
        → lookup v build.files ≡ some content
        → build.execute content before.schema ≡ some s
        → (hooked : Bool) → ((v == txt "042_system_app.sql") ≡ hooked)
        → (o : Bool × S) → (build.ensure_required_system_tables s ≡ o)
        → IsReplay (v ∷ versions) before (
            and_then
              (if hooked
                then left_by build tables_failed
                    (record {
                      rows = before.rows ++ (v, some (build.checksum content)) ∷ [];
                      schema = s;
                    })
                    o
                else (
                  record {
                    rows = before.rows ++ (v, some (build.checksum content)) ∷ [];
                    schema = s;
                  },
                  none,
                ))
              k)
    after_commit content before s file run false hook o e =
        added content before _ file refl (rw (run, hook) refl) (k _) (follow _)
    after_commit content before s file run true hook (true, t) e =
        added content before _ file refl (rw (run, hook, e) refl) (k _) (follow _)
    after_commit content before s file run true hook (false, t) e =
        added content before _ file refl (rw (run, hook, e) refl) (_, some tables_failed)
          (stopped versions _ tables_failed)

    after_execute :
        (content : Text) (before : Database S)
        → lookup v build.files ≡ some content
        → (o : Option S) → (build.execute content before.schema ≡ o)
        → (there : Bool) → (is_some (lookup v before.rows) ≡ there)
        → IsReplay (v ∷ versions) before (
            and_then
              (commit_version build v content o before)
              (λ d. and_then (after_migration build v d) k))
    unfolding after_migration
    after_execute content before file none run there t =
        stopped (v ∷ versions) before (script_failed v)
    after_execute content before file (some s) run true t =
        rw t (stopped (v ∷ versions) before (record_failed v))
    after_execute content before file (some s) run false t = rw t (
        after_commit content before s file run (v == txt "042_system_app.sql") refl
          (build.ensure_required_system_tables s) refl)

    after_read :
        (o : Option Text) (before : Database S)
        → lookup v build.files ≡ o
        → IsReplay (v ∷ versions) before (
            and_then (apply_content build v o before) (λ d. and_then (after_migration build v d) k))
    after_read none before file = stopped (v ∷ versions) before (unreadable_file v)
    after_read (some content) before file =
        after_execute content before file (build.execute content before.schema) refl
          (is_some (lookup v before.rows)) refl

  -- The loop runs the scripts of the first of the versions that the rows did not have, in the order of
  -- the versions and each once, records each with the checksum of its file, and leaves the state of a
  -- replay of just those; where it ends without an error these are all of them.
  pub apply_pending-IsReplay :
      (applied : Applied) (versions : List Text) (db : Database S)
      → IsReplay (pending applied versions) db (apply_pending build applied versions db)
  unfolding apply_pending keep
  apply_pending-IsReplay applied [] db =
      ([], [], refl, sym (append-nil db.rows), refl, inl (refl, refl))
  apply_pending-IsReplay applied (v ∷ versions) db =
      elim (Bool-cases (is_some (lookup v applied))) [
        | inl e ↦ rw e (apply_pending-IsReplay applied versions db)
        | inr e ↦ rw e (
            after_read v (pending applied versions) (apply_pending build applied versions)
              (apply_pending-IsReplay applied versions) (lookup v build.files) db refl)
      ]
