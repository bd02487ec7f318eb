-- ===== src/Migrations.antt =====
-- internal/db/Migrations.go: the migrations that a database has applied, and those of the build. The
-- rest of the database is a type of states, on which a script is a parameter of the build.
pub mod Replay
pub mod Versions
pub mod Checksums
pub mod Verifying
pub mod Complete
pub mod Rerun
use velm.Base.{
  Bool, true, false, not, ◌||◌, if◌then◌else◌, Option, none, some, is_some, List, [], ◌∷◌, ◌++◌,
  Text, txt, ◌==◌, text_lt, sort_by, lookup, Result, ok, err, ◌>>=◌,
}

-- the rows of _schema_migration, a version with its checksum
abbrev pub Applied : Type 0
Applied = List (Text × Option Text)

pub record Database (S : Type 0) : Type 0 where
  pub rows : Applied
  pub schema : S

pub data Failure : Type 0 where
  missing_file : Text → Failure
  changed_file : Text → Failure
  unreadable_file : Text → Failure
  backfill_failed : Text → Failure
  script_failed : Text → Failure
  record_failed : Text → Failure
  tables_failed : Failure
  pass_failed : Failure

-- What the build ships with. A script is executed in a transaction: it fails, or yields a state. The
-- passes are not: they say whether they succeeded, and the state that they leave.
pub record Build (S : Type 0) : Type 0 where
  -- the embedded files of loadMigrationFiles
  pub files : List (Text × Text)
  -- migrationChecksum
  pub checksum : Text → Text
  pub update_fails : Text → Bool
  pub execute : Text → S → Option S
  -- EnsureRequiredSystemTablesAfter042
  pub ensure_required_system_tables : S → Bool × S
  -- the migrations of definitions and the syncs at the end, in order
  pub passes : List (S → Bool × S)

unfoldable pub keys {ℓ} : {V : Type ℓ} → List (Text × V) → List Text
keys [] = []
keys ((k, v) ∷ m) = k ∷ keys m

-- the versions of a map in the order of sort.Strings; orderMigrationFiles
unfoldable pub ordered_versions {ℓ} : {V : Type ℓ} → List (Text × V) → List Text
unfolding keys
ordered_versions m = sort_by text_lt (keys m)

-- `UPDATE … SET checksum = … WHERE version = … AND checksum IS NULL`
unfoldable pub fill_checksum : Text → Text → Applied → Applied
fill_checksum version sum [] = []
fill_checksum version sum ((v, none) ∷ rows) =
    (v, (if v == version then some sum else none)) ∷ fill_checksum version sum rows
fill_checksum version sum ((v, some recorded) ∷ rows) =
    (v, some recorded) ∷ fill_checksum version sum rows

-- A statement and what follows it, where it did not fail.
abbrev pub and_then :
    {S : Type 0}
    → Database S × Option Failure
    → (Database S → Database S × Option Failure)
    → Database S × Option Failure
and_then (db, some failure) later = (db, some failure)
and_then (db, none) later = later db

module _ {S : Type 0} (build : Build S) where
  -- one round of the loop of verifyAppliedMigrationChecksums: whether the version is to be filled
  abbrev pub check_version : Text → Option Text → Option (Option Text) → Result {0, 0} Failure Bool
  check_version version none recorded = err (missing_file version)
  check_version version (some content) none = ok true
  check_version version (some content) (some none) = ok true
  check_version version (some content) (some (some recorded)) =
      if recorded == build.checksum content then ok false else err (changed_file version)

  unfoldable pub verify_versions : Applied → List Text → Result {0, 0} Failure (List Text)
  unfolding lookup ◌==◌
  verify_versions applied [] = ok []
  verify_versions applied (v ∷ versions) =
      let rest = verify_versions applied versions in
      check_version v (lookup v build.files) (lookup v applied)
      >>= (λ unset. rest >>= (λ backfill. ok (if unset then v ∷ backfill else backfill)))

  -- verifyAppliedMigrationChecksums
  unfoldable pub verify_applied_migration_checksums : Applied → Result {0, 0} Failure (List Text)
  unfolding ordered_versions verify_versions
  verify_applied_migration_checksums applied = verify_versions applied (ordered_versions applied)

  -- one round of the loop of recordMigrationChecksums
  abbrev pub record_checksum : Text → Option Text → Database S → Database S × Option Failure
  record_checksum version none db = (db, some (unreadable_file version))
  record_checksum version (some content) db =
      if build.update_fails version
      then (db, some (backfill_failed version))
      else (record db { rows = fill_checksum version (build.checksum content) db.rows }, none)

  -- recordMigrationChecksums
  unfoldable pub record_migration_checksums : List Text → Database S → Database S × Option Failure
  unfolding lookup fill_checksum
  record_migration_checksums [] db = (db, none)
  record_migration_checksums (v ∷ versions) db =
      and_then (record_checksum v (lookup v build.files) db) (record_migration_checksums versions)

  -- the insertion into _schema_migration, whose key is the version
  abbrev pub commit_version : Text → Text → Option S → Database S → Database S × Option Failure
  commit_version version content none db = (db, some (script_failed version))
  commit_version version content (some schema) db =
      if is_some (lookup version db.rows) then (db, some (record_failed version)) else (
        record { rows = db.rows ++ (version, some (build.checksum content)) ∷ []; schema = schema },
        none,
      )

  abbrev pub apply_content : Text → Option Text → Database S → Database S × Option Failure
  apply_content version none db = (db, some (unreadable_file version))
  apply_content version (some content) db =
      commit_version version content (build.execute content db.schema) db

  -- applyMigration: a failure leaves the database as it was
  unfoldable pub apply_migration : Text → Database S → Database S × Option Failure
  unfolding lookup
  apply_migration version db = apply_content version (lookup version build.files) db

  -- the state that a pass leaves, and its error
  abbrev pub left_by : Failure → Database S → Bool × S → Database S × Option Failure
  left_by failure db (true, schema) = (record db { schema = schema }, none)
  left_by failure db (false, schema) = (record db { schema = schema }, some failure)

  -- what follows one migration in the loop
  unfoldable pub after_migration : Text → Database S → Database S × Option Failure
  unfolding ◌==◌ txt
  after_migration version db =
      if version == txt "042_system_app.sql"
      then left_by tables_failed db (build.ensure_required_system_tables db.schema)
      else (db, none)

  -- the loop of RunMigrations over the versions, `applied` being the rows at its start
  unfoldable pub apply_pending : Applied → List Text → Database S → Database S × Option Failure
  unfolding lookup apply_migration after_migration
  apply_pending applied [] db = (db, none)
  apply_pending applied (v ∷ versions) db =
      if is_some (lookup v applied)
      then apply_pending applied versions db
      else and_then (apply_migration v db)
          (λ d. and_then (after_migration v d) (apply_pending applied versions))

  -- the passes at the end of RunMigrations
  unfoldable pub run_passes : List (S → Bool × S) → Database S → Database S × Option Failure
  run_passes [] db = (db, none)
  run_passes (pass ∷ passes) db =
      and_then (left_by pass_failed db (pass db.schema)) (run_passes passes)

  abbrev pub run_verified :
      Result {0, 0} Failure (List Text) → Database S → Database S × Option Failure
  run_verified (err failure) db = (db, some failure)
  run_verified (ok backfill) db = and_then (record_migration_checksums backfill db) (λ d.
      and_then (apply_pending db.rows (ordered_versions build.files) d) (run_passes build.passes))

  -- RunMigrations, after _schema_migration is there
  unfoldable pub run_migrations : Database S → Database S × Option Failure
  unfolding verify_applied_migration_checksums record_migration_checksums ordered_versions
      apply_pending run_passes
  run_migrations db = run_verified (verify_applied_migration_checksums db.rows) db
