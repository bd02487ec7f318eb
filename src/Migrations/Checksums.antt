-- ===== src/Migrations/Checksums.antt =====
-- What the filling in of checksums leaves behind.
use velm.Base.{
  Bool, true, false, if◌then◌else◌, ◌≡◌, ◌⊎◌, inl, inr, refl, sym, ap, ◌∙◌, arith, Bool-cases,
  Option, none, some, is_some, List, [], ◌∷◌, Text, ◌==◌, eq_iff, lookup,
}
use velm.Migrations.{
  Applied, Database, Failure, Build, fill_checksum, and_then, record_checksum,
  record_migration_checksums,
}
use velm.Migrations.Versions.{IsElement}

-- What holds of the database that a statement leaves, where it ends without an error.
module _ {S : Type 0} where
  abbrev pub Ends : (Database S → Type 0) → Database S × Option Failure → Type 0
  Ends P (db, none) = P db
  Ends P (db, some failure) = Unit

  pub Ends-then :
      (P Q : Database S → Type 0) (r : Database S × Option Failure)
      (k : Database S → Database S × Option Failure)
      → Ends P r
      → ((d : Database S) → P d → Ends Q (k d))
      → Ends Q (and_then r k)
  Ends-then P Q (db, none) k h follow = follow db h
  Ends-then P Q (db, some failure) k h follow = tt

  pub Ends-imp :
      (P Q : Database S → Type 0) (r : Database S × Option Failure)
      → ((d : Database S) → P d → Q d)
      → Ends P r
      → Ends Q r
  Ends-imp P Q (db, none) f h = f db h
  Ends-imp P Q (db, some failure) f h = tt

-- The checksum after filling in, from the one before.
abbrev filled : Bool → Text → Option (Option Text) → Option (Option Text)
filled same sum none = none
filled true sum (some none) = some (some sum)
filled false sum (some none) = some none
filled same sum (some (some recorded)) = some (some recorded)

eq_swap : (s t : Text) → (s == t) ≡ (t == s)
unfolding ◌==◌
eq_swap [] [] = refl
eq_swap [] (d ∷ t) = refl
eq_swap (c ∷ s) [] = refl
eq_swap (c ∷ s) (d ∷ t) = ground (arith, eq_swap s t)

fill_once :
    (same : Bool) (sum : Text)
    → some (if same then some sum else none) ≡ filled same sum (some none)
fill_once true sum = refl
fill_once false sum = refl

lookup-fill_checksum :
    (v w sum : Text) (rows : Applied)
    → lookup v (fill_checksum w sum rows) ≡ filled (w == v) sum (lookup v rows)
unfolding lookup fill_checksum
lookup-fill_checksum v w sum [] = refl
lookup-fill_checksum v w sum ((u, none) ∷ rows) = elim (Bool-cases (u == v)) [
  | inl e ↦ rw (e, ap (λ x. x == w) ((eq_iff u v).0 e) ∙ eq_swap v w) (fill_once (w == v) sum)
  | inr e ↦ rw e (lookup-fill_checksum v w sum rows)
]
lookup-fill_checksum v w sum ((u, some x) ∷ rows) = elim (Bool-cases (u == v)) [
  | inl e ↦ rw e refl
  | inr e ↦ rw e (lookup-fill_checksum v w sum rows)
]

module _ {S : Type 0} (build : Build S) where
  -- A version of the build whose row has the checksum of its file.
  abbrev pub IsSettled : Applied → Text → Type 0
  IsSettled rows v =
      (content : Text) × (lookup v build.files ≡ some content)
      × (lookup v rows ≡ some (some (build.checksum content)))

  abbrev pub IsUnset : Applied → Text → Type 0
  IsUnset rows v =
      (content : Text) × (lookup v build.files ≡ some content) × (lookup v rows ≡ some none)

  -- Settled, or to be filled in.
  abbrev pub IsChecked : List Text → Applied → Text → Type 0
  IsChecked backfill rows v = IsSettled rows v ⊎ (IsUnset rows v × IsElement v backfill)

  -- Filling in one version keeps what was settled, and settles that version.
  fill-IsSettled :
      (v w : Text) (sum : Text) (rows : Applied)
      → IsSettled rows v
      → IsSettled (fill_checksum w sum rows) v
  fill-IsSettled v w sum rows (content, file, row) =
      (content, file, lookup-fill_checksum v w sum rows ∙ ap (filled (w == v) sum) row)

  fill-IsChecked :
      (v w content : Text) (backfill : List Text) (rows : Applied)
      → lookup w build.files ≡ some content
      → IsChecked (w ∷ backfill) rows v
      → IsChecked backfill (fill_checksum w (build.checksum content) rows) v
  fill-IsChecked v w content backfill rows file (inl h) =
      inl (fill-IsSettled v w (build.checksum content) rows h)
  fill-IsChecked v w content backfill rows file (inr ((c, there, row), e)) =
      elim (Bool-cases (w == v)) [
        | inl same ↦ inl (
          content,
          ap (λ x. lookup x build.files) (sym ((eq_iff w v).0 same)) ∙ file,
          lookup-fill_checksum v w (build.checksum content) rows
              ∙ ap (filled (w == v) (build.checksum content)) row
              ∙ ap (λ b. filled b (build.checksum content) (some none)) same,
        )
        | inr other ↦ inr (
          (
            c,
            there,
            lookup-fill_checksum v w (build.checksum content) rows
                ∙ ap (filled (w == v) (build.checksum content)) row
                ∙ ap (λ b. filled b (build.checksum content) (some none)) other,
          ),
          rw other at e,
        )
      ]

  -- Every row is settled, or to be filled in.
  abbrev pub IsTracked : List Text → Applied → Type 0
  IsTracked backfill rows = (v : Text) → is_some (lookup v rows) ≡ true → IsChecked backfill rows v

  filled_some :
      (same : Bool) (sum : Text) (o : Option (Option Text))
      → is_some (filled same sum o) ≡ is_some o
  filled_some same sum none = refl
  filled_some true sum (some none) = refl
  filled_some false sum (some none) = refl
  filled_some same sum (some (some x)) = refl

  pub fill_some :
      (v w sum : Text) (rows : Applied)
      → is_some (lookup v (fill_checksum w sum rows)) ≡ is_some (lookup v rows)
  fill_some v w sum rows =
      ap is_some (lookup-fill_checksum v w sum rows) ∙ filled_some (w == v) sum (lookup v rows)

  -- The rows are settled, and there are rows for the same versions as before.
  abbrev IsFilled : List Text → Applied → Database S → Type 0
  IsFilled backfill before d =
      IsTracked backfill d.rows
      × ((v : Text) → is_some (lookup v d.rows) ≡ is_some (lookup v before))

  record_checksum-IsFilled :
      (w : Text) (backfill : List Text) (db : Database S) (o : Option Text)
      → lookup w build.files ≡ o
      → IsTracked (w ∷ backfill) db.rows
      → Ends (IsFilled backfill db.rows) (record_checksum build w o db)
  record_checksum-IsFilled w backfill db none file h = tt
  record_checksum-IsFilled w backfill db (some content) file h =
      elim (Bool-cases (build.update_fails w)) [
        | inl e ↦ rw e tt
        | inr e ↦ rw e (
          λ v there.
              fill-IsChecked v w content backfill db.rows file
                (h v (sym (fill_some v w (build.checksum content) db.rows) ∙ there)),
          λ v. fill_some v w (build.checksum content) db.rows,
        )
      ]

  -- Recording without an error settles all the rows, and has rows for the same versions.
  pub record-IsFilled :
      (backfill : List Text) (db : Database S)
      → IsTracked backfill db.rows
      → Ends (IsFilled [] db.rows) (record_migration_checksums build backfill db)
  unfolding record_migration_checksums
  record-IsFilled [] db h = (h, λ v. refl)
  record-IsFilled (w ∷ backfill) db h =
      Ends-then (IsFilled backfill db.rows) (IsFilled [] db.rows) _
        (record_migration_checksums build backfill)
        (record_checksum-IsFilled w backfill db (lookup w build.files) refl h)
        (λ d (tracked, same).
          Ends-imp (IsFilled [] d.rows) (IsFilled [] db.rows)
            (record_migration_checksums build backfill d)
            (λ e (settled, alike). (settled, λ v. alike v ∙ same v))
            (record-IsFilled backfill d tracked))
