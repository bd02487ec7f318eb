-- ===== src/Migrations/Verifying.antt =====
-- What the check of the recorded checksums lets through.
use velm.Base.{
  Yields, Yields-bind, Yields-imp, Bool, true, false, if◌then◌else◌, ◌≡◌, inl, inr, refl, ap, ◌∙◌,
  arith, Bool-cases, Option, none, some, is_some, List, [], ◌∷◌, Text, ◌==◌, eq_iff, All, lookup,
  ok,
}
use velm.Migrations.{
  Applied, Build, ordered_versions, check_version, verify_versions,
  verify_applied_migration_checksums,
}
use velm.Migrations.Versions.{element-All, lookup-ordered, ordered-All}
use velm.Migrations.Checksums.{IsSettled, IsUnset, IsChecked, IsTracked}

module _ {S : Type 0} (build : Build S) where
  IsChecked-more :
      (v : Text) (backfill : List Text) (rows : Applied) (versions : List Text)
      → All (IsChecked build backfill rows) versions
      → All (IsChecked build (v ∷ backfill) rows) versions
  IsChecked-more v backfill rows [] h = tt
  IsChecked-more v backfill rows (w ∷ versions) (inl p, h) =
      (inl p, IsChecked-more v backfill rows versions h)
  IsChecked-more v backfill rows (w ∷ versions) (inr (p, e), h) =
      (inr (p, ground (arith, e)), IsChecked-more v backfill rows versions h)

  abbrev IsJudged : Applied → Text → Bool → Type 0
  IsJudged rows v true = IsUnset build rows v
  IsJudged rows v false = IsSettled build rows v

  check_version-IsJudged :
      (rows : Applied) (v : Text) (file : Option Text) (row : Option (Option Text))
      → lookup v build.files ≡ file
      → lookup v rows ≡ row
      → is_some row ≡ true
      → Yields (IsJudged rows v) (check_version build v file row)
  check_version-IsJudged rows v none row f r there = tt
  check_version-IsJudged rows v (some content) none f r there = cc
  check_version-IsJudged rows v (some content) (some none) f r there = (content, f, r)
  check_version-IsJudged rows v (some content) (some (some sum)) f r there =
      elim (Bool-cases (sum == build.checksum content)) [
        | inl e ↦
            rw e
              (content, f, r ∙ ap (λ x. some (some x)) ((eq_iff sum (build.checksum content)).0 e))
        | inr e ↦ rw e tt
      ]

  judged :
      (rows : Applied) (v : Text) (versions backfill : List Text) (unset : Bool)
      → IsJudged rows v unset
      → All (IsChecked build backfill rows) versions
      → All (IsChecked build (if unset then v ∷ backfill else backfill) rows) (v ∷ versions)
  judged rows v versions backfill true p h =
      (inr (p, rw ((eq_iff v v).1 refl) refl), IsChecked-more v backfill rows versions h)
  judged rows v versions backfill false p h = (inl p, h)

  verify_versions-IsChecked :
      (rows : Applied) (versions : List Text)
      → All (λ v. is_some (lookup v rows) ≡ true) versions
      → Yields
          (λ backfill. All (IsChecked build backfill rows) versions)
          (verify_versions build rows versions)
  unfolding verify_versions
  verify_versions-IsChecked rows [] h = tt
  verify_versions-IsChecked rows (v ∷ versions) (p, h) =
      Yields-bind (IsJudged rows v) _ _ _
        (check_version-IsJudged rows v (lookup v build.files) (lookup v rows) refl refl p)
        (λ unset judgement.
          Yields-bind (λ backfill. All (IsChecked build backfill rows) versions) _ _ _
            (verify_versions-IsChecked rows versions h)
            (λ backfill checked. judged rows v versions backfill unset judgement checked))

  -- Where the check lets the rows through, each is settled or to be filled in.
  pub verify-IsTracked :
      (rows : Applied)
      → Yields
          (λ backfill. IsTracked build backfill rows)
          (verify_applied_migration_checksums build rows)
  unfolding verify_applied_migration_checksums
  verify-IsTracked rows =
      Yields-imp _ _ (verify_versions build rows (ordered_versions rows))
        (λ backfill h v there.
          element-All (IsChecked build backfill rows) v (ordered_versions rows)
            (lookup-ordered v rows there) h)
        (verify_versions-IsChecked rows (ordered_versions rows) (ordered-All rows))

  -- Settled rows pass the check with nothing to fill in.
  pub verify_versions-settled :
      (rows : Applied) (versions : List Text)
      → All (IsSettled build rows) versions
      → verify_versions build rows versions ≡ ok []
  unfolding verify_versions
  verify_versions-settled rows [] h = refl
  verify_versions-settled rows (v ∷ versions) ((content, file, row), h) =
      rw
        (
          file,
          row,
          (eq_iff (build.checksum content) _).1 refl,
          verify_versions-settled rows versions h,
        )
        refl
