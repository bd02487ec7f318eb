-- ===== src/Migrations/Rerun.antt =====
-- RunMigrations on a database that it has run on before.
use velm.Base.{
  Yields, Bool, true, false, ◌≡◌, refl, sym, ap, ◌∙◌, none, is_some, List, [], ◌∷◌, Text, All,
  All-imp, lookup, Result, ok, err,
}
use mathlib.Core.Path.{subst}
use velm.Migrations.{
  Applied, Database, Failure, Build, ordered_versions, and_then, left_by, pass_failed, run_verified,
  verify_applied_migration_checksums, record_migration_checksums, apply_pending, run_passes,
  run_migrations,
}
use velm.Migrations.Replay.{apply_pending-IsReplay}
use velm.Migrations.Versions.{ordered-All}
use velm.Migrations.Verifying.{verify-IsTracked, verify_versions-settled}
use velm.Migrations.Checksums.{Ends, Ends-then, Ends-imp, IsSettled, IsTracked, record-IsFilled}
use velm.Migrations.Complete.{IsComplete, tracked-IsKept, loop-IsComplete}

module _ {S : Type 0} (build : Build S) where
  -- A complete database passes the check, with nothing to fill in and no script to run.
  nothing_pending :
      (applied : Applied) (versions : List Text) (db : Database S)
      → All (λ v. is_some (lookup v applied) ≡ true) versions
      → apply_pending build applied versions db ≡ (db, none)
  unfolding apply_pending
  nothing_pending applied [] db h = refl
  nothing_pending applied (v ∷ versions) db (p, h) = rw p (nothing_pending applied versions db h)

  complete_passes :
      (db : Database S)
      → IsComplete build db.rows
      → run_migrations build db ≡ run_passes build build.passes db
  unfolding run_migrations verify_applied_migration_checksums record_migration_checksums
  complete_passes db (settled, files) =
      ap (λ r. run_verified build r db)
        (verify_versions-settled build db.rows (ordered_versions db.rows) (
          All-imp _ (IsSettled build db.rows) settled (ordered_versions db.rows)
            (ordered-All db.rows)))
      ∙ ap (λ r. and_then r (run_passes build build.passes))
          (nothing_pending db.rows (ordered_versions build.files) db
            (All-imp _ _ files (ordered_versions build.files) (ordered-All build.files)))

  left_by-rows :
      (failure : Failure) (db : Database S) (o : Bool × S)
      → Ends (λ e. e.rows ≡ db.rows) (left_by build failure db o)
  left_by-rows failure db (true, s) = refl
  left_by-rows failure db (false, s) = tt

  passes-rows :
      (passes : List (S → Bool × S)) (db : Database S)
      → Ends (λ e. e.rows ≡ db.rows) (run_passes build passes db)
  unfolding run_passes
  passes-rows [] db = refl
  passes-rows (pass ∷ passes) db =
      Ends-then (λ e. e.rows ≡ db.rows) (λ e. e.rows ≡ db.rows) _ (run_passes build passes)
        (left_by-rows pass_failed db (pass db.schema))
        (λ d same.
          Ends-imp (λ e. e.rows ≡ d.rows) (λ e. e.rows ≡ db.rows) (run_passes build passes d)
            (λ e alike. alike ∙ same) (passes-rows passes d))

  verified-IsComplete :
      (db : Database S) (r : Result {0, 0} Failure (List Text))
      → Yields (λ backfill. IsTracked build backfill db.rows) r
      → Ends (λ e. IsComplete build e.rows) (run_verified build r db)
  verified-IsComplete db (err f) h = tt
  verified-IsComplete db (ok backfill) h =
      Ends-then
        (λ d.
          IsTracked build [] d.rows
          × ((v : Text) → is_some (lookup v d.rows) ≡ is_some (lookup v db.rows)))
        (λ e. IsComplete build e.rows) _ _ (record-IsFilled build backfill db h)
        (λ d (tracked, same).
          Ends-then (λ e. IsComplete build e.rows) (λ e. IsComplete build e.rows) _
            (run_passes build build.passes)
            (loop-IsComplete build db.rows d _ (tracked-IsKept build d.rows tracked) same
              (apply_pending-IsReplay build db.rows (ordered_versions build.files) d))
            (λ e complete.
              Ends-imp (λ f. f.rows ≡ e.rows) (λ f. IsComplete build f.rows)
                (run_passes build build.passes e)
                (λ f alike. subst (λ l. IsComplete build l) (sym alike) complete)
                (passes-rows build.passes e)))

  -- After a run that ended without an error, the next run of the same build finds every checksum as
  -- it is recorded, fills in none, runs no script, and does nothing but the passes at the end.
  pub run_migrations-again :
      (db after : Database S)
      → run_migrations build db ≡ (after, none)
      → run_migrations build after ≡ run_passes build build.passes after
  unfolding run_migrations
  run_migrations-again db after e = complete_passes after (
      subst (λ o. Ends (λ d. IsComplete build d.rows) o) e
        (verified-IsComplete db (verify_applied_migration_checksums build db.rows)
          (verify-IsTracked build db.rows)))
