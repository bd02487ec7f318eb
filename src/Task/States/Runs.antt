-- ===== src/Task/States/Runs.antt =====
-- The sequences of states that the edges allow.
use velm.Base.{true, false, ◌≡◌, ◌⊎◌, inl, inr, refl, arith}
use velm.Base.{List, [], ◌∷◌, Text, txt, ◌==◌, eq_iff, any}
use velm.Task.States.{allowed_task_transition}

-- A task goes from a state through a list of states, the last of which it is in.
pub data Run : Text → List Text → Text → Type 0 where
  here : {s : Text} → Run s [] s
  edge :
      {s t u : Text} {via : List Text}
      → allowed_task_transition s t ≡ true
      → Run t via u
      → Run s (t ∷ via) u

distinct :
    ((txt "ready" == txt "in_progress") ≡ false)
    × ((txt "skipped" == txt "ready") ≡ false)
    × ((txt "skipped" == txt "in_progress") ≡ false)
    × ((txt "skipped" == txt "pending") ≡ false)
    × ((txt "skipped" == txt "ready_to_close") ≡ false)
    × ((txt "closed" == txt "ready") ≡ false)
    × ((txt "closed" == txt "in_progress") ≡ false)
    × ((txt "closed" == txt "pending") ≡ false)
    × ((txt "closed" == txt "ready_to_close") ≡ false)
unfolding txt ◌==◌
distinct = (refl, refl, refl, refl, refl, refl, refl, refl, refl)

from_skipped : (t : Text) → allowed_task_transition (txt "skipped") t ≡ false
unfolding allowed_task_transition
from_skipped t = ground (arith, distinct)

from_closed : (t : Text) → allowed_task_transition (txt "closed") t ≡ false
unfolding allowed_task_transition
from_closed t = ground (arith, distinct)

from_ready :
    (t : Text)
    → allowed_task_transition (txt "ready") t ≡ true
    → (t ≡ txt "ready") ⊎ ((t == txt "in_progress") ≡ true) ⊎ (t ≡ txt "skipped")
unfolding allowed_task_transition
from_ready t h =
    ground
      (arith, eq_iff (txt "ready") (txt "ready"), eq_iff t (txt "ready"), eq_iff t (txt "skipped"))

-- Nothing leaves the states closed and skipped.
pub terminal :
    (t : Text)
    → (allowed_task_transition (txt "closed") t ≡ false)
      × (allowed_task_transition (txt "skipped") t ≡ false)
terminal t = (from_closed t, from_skipped t)

abbrev pub Passes : Text → List Text → Type 0
Passes s via = any (λ t. t == s) via ≡ true

later :
    (t : Text) (via : List Text)
    → Passes (txt "in_progress") via
    → Passes (txt "in_progress") (t ∷ via)
later t via h = ground arith

stays_skipped :
    {u : Text} {via : List Text} {s : Text} → s ≡ txt "skipped" → Run s via u → u ≡ txt "skipped"
stays_skipped e here = e
stays_skipped e (edge {t} allowed r) = cc (e, from_skipped t)

-- A task that was spawned, and so was ready, is afterwards ready or skipped, unless it has passed
-- through in_progress. So it is closed, ready to close or pending only after it was in progress.
pub work_needs_in_progress :
    {s u : Text} {via : List Text}
    → s ≡ txt "ready"
    → Run s via u
    → Passes (txt "in_progress") via ⊎ (u ≡ txt "ready") ⊎ (u ≡ txt "skipped")
work_needs_in_progress e here = inr (inl e)
work_needs_in_progress e (edge {t} {via} allowed r) = elim (from_ready t (rw e at allowed)) [
  | inl still ↦ elim (work_needs_in_progress still r) [
    | inl passed ↦ inl (later t via passed)
    | inr rest ↦ inr rest
  ]
  | inr (inl now) ↦ inl (rw now refl)
  | inr (inr skipped) ↦ inr (inr (stays_skipped skipped r))
]
