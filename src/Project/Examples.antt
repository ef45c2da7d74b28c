-- ===== src/Project/Examples.antt =====
-- A project that is approved after a wait, and the theorems about the gate at it.
use twai_swarm.Prelude.{ℕ, ◌≡◌, refl, String, false, some, List, [], ◌∷◌, ◌++◌, In}
use twai_swarm.Project.{
  ProjectInput, ProjectRun, Task, approve, reject, Activation, signalled, timer, passed, start_gate,
  receive, receive_all, await_gate, tasks_before_gate, stopped_run, run_project,
}
use twai_swarm.Project.Gate.{signals_in, await_gate-passed}
use twai_swarm.Project.Phases.{Closed, run_project-Closed}

abbrev approved_late : List Activation
approved_late = signalled [] ∷ signalled (approve ∷ []) ∷ timer ∷ []

lets_through : await_gate (receive_all start_gate []) approved_late ≡ passed
unfolding await_gate receive_all receive
lets_through = refl

await_gate-passed_example :
    (before : List Activation) × (rest : List Activation) × (approved_late ≡ before ++ rest)
    × (¬ In timer before)
    × In approve ([] ++ signals_in before)
    × ((reason : String) → ¬ In (reject reason) ([] ++ signals_in before))
await_gate-passed_example = await_gate-passed [] approved_late lets_through

abbrev input : ProjectInput
input = record { name = "app"; brief = "an app"; auto_approve = false; tenant_id = "default" }

-- The rejection comes with an approval and wins.
abbrev rejected_too : List Activation
rejected_too = signalled (approve ∷ reject "too big" ∷ []) ∷ []

abbrev task_id : ℕ → String
task_id n = "t"

abbrev readme : List Task → String
readme tasks = "docs"

abbrev refused_run : ProjectRun
refused_run = stopped_run "p" (tasks_before_gate task_id input) "too big"

refused_both : run_project task_id readme "p" input [] rejected_too ≡ some refused_run
unfolding run_project await_gate receive_all receive
refused_both = refl

run_project-Closed_example : Closed task_id input [] rejected_too refused_run
run_project-Closed_example =
    run_project-Closed task_id readme "p" input [] rejected_too refused_run refused_both
