-- ===== src/Task/Engine/Completing.antt =====
-- Which group the follow-on tasks of a closed task are made with.
use velm.Base.{ℕ, true, ◌≡◌, refl}
use velm.Base.{Option, none, List, ◌∷◌, Text, txt, ◌==◌}
use velm.Task.Model.{Members, SpawnRule, Tx}
use velm.Task.Engine.{ScriptValue, fire_rules}

module _ (new_id : ℕ → Text) (fuel : ℕ)
    (run_script : Text → Text → Members → Text → Tx ScriptValue) where
  -- Once a rule of the pool has fired, the group of the closed task is forgotten: what that rule and
  -- all the rules after it do, those that ask for the same group too, does not depend on it.
  pub pool_forgets_group :
      (reason actor : Text) (vars : Members) (group : Option Text) (rule : SpawnRule)
      (rules : List SpawnRule)
      → (rule.on == reason) ≡ true
      → (rule.assign == txt "pool") ≡ true
      → fire_rules new_id fuel run_script reason actor vars group (rule ∷ rules)
        ≡ fire_rules new_id fuel run_script reason actor vars none (rule ∷ rules)
  unfolding fire_rules
  pool_forgets_group reason actor vars group rule rules fires pool = rw (fires, pool) refl
