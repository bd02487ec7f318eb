-- ===== src/Task/States.antt =====
-- The states of a task and taskTransitions, the edges between them.
pub mod Runs
use velm.Base.{Bool, true, false, ◌||◌, if◌then◌else◌, Text, txt, ◌==◌}

-- taskTransitions and allowedTaskTransition
unfoldable pub allowed_task_transition : Text → Text → Bool
allowed_task_transition from to =
    if from == txt "ready"
    then to == txt "ready" || to == txt "in_progress" || to == txt "skipped"
    else if from == txt "in_progress"
    then to == txt "in_progress"
      || to == txt "ready_to_close"
      || to == txt "pending"
      || to == txt "skipped"
      || to == txt "closed"
    else if from == txt "pending"
    then to == txt "pending" || to == txt "ready" || to == txt "in_progress" || to == txt "skipped"
    else if from == txt "ready_to_close"
    then to == txt "ready_to_close"
      || to == txt "closed"
      || to == txt "in_progress"
      || to == txt "skipped"
    else false
