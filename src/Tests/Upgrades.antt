-- ===== src/Tests/Upgrades.antt =====
-- The properties of migrations at a build with two files, on a database that has the first.
use velm.Base.{
  ℕ, ◌+◌, Bool, true, false, ◌≡◌, refl, Option, none, some, List, [], ◌∷◌, ◌++◌, Text, txt, length,
}
use velm.Migrations.{Database, Build, apply_pending, run_passes, run_migrations}
use velm.Migrations.Replay.{pending, IsReplay, apply_pending-IsReplay}
use velm.Migrations.Rerun.{run_migrations-again}

-- The state is the number of bytes that were executed, and one more for each pass.
abbrev counting : Build ℕ
counting = record {
  files = (txt "042_system_app.sql", txt "b") ∷ (txt "001_init.sql", txt "aa") ∷ [];
  checksum = λ content. content;
  update_fails = λ version. false;
  execute = λ content s. some (s + length content);
  ensure_required_system_tables = λ s. (true, s + 10);
  passes = (λ s. (true, s + 1)) ∷ [];
}

abbrev half_done : Database ℕ
half_done = record { rows = (txt "001_init.sql", none) ∷ []; schema = 2 }

abbrev upgraded : Database ℕ
upgraded = record {
  rows = (txt "001_init.sql", some (txt "aa")) ∷ (txt "042_system_app.sql", some (txt "b")) ∷ [];
  schema = 14;
}

abbrev versions : List Text
versions = txt "001_init.sql" ∷ txt "042_system_app.sql" ∷ []

apply_pending-IsReplay_example :
    IsReplay counting
      (pending half_done.rows versions)
      half_done
      (apply_pending counting half_done.rows versions half_done)
apply_pending-IsReplay_example = apply_pending-IsReplay counting half_done.rows versions half_done

run_migrations-again_example :
    run_migrations counting upgraded ≡ run_passes counting counting.passes upgraded
unfolding run_migrations velm.Base.sort_by velm.Base.text_lt
run_migrations-again_example = run_migrations-again counting half_done upgraded refl
