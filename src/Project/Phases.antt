-- ===== src/Project/Phases.antt =====
-- Lemmas on the tasks of a run of the project workflow.
use twai_swarm.Prelude.{
  ℕ, ◌≡◌, refl, subst, ◌⊎◌, inl, inr, String, true, false, Option, none, some, List, ◌++◌, length,
}
use twai_swarm.Project.{
  ProjectInput, ProjectRun, Signal, Activation, Verdict, passed, timed_out, waiting, refused,
  gate_verdict, Task, tasks_before_gate, tasks_after_gate, stopped_run, reason_or, run_project,
}

-- A run that has ended: its count of tasks is that of the tasks it created, and it is one of two.
pub record Closed (ids : ℕ → String) (inp : ProjectInput) (early : List Signal)
    (activations : List Activation) (r : ProjectRun) : Type 0 where
  pub counted : length r.tasks ≡ r.output.task_count
  pub either :
      (gate_verdict inp early activations ≡ passed)
        × (r.output.approved ≡ true)
        × (r.tasks ≡ tasks_before_gate ids inp ++ tasks_after_gate ids inp)
      ⊎ (r.output.approved ≡ false)
        × (r.tasks ≡ tasks_before_gate ids inp)
        × ((reason : String) × (r.output.rejection_reason ≡ some reason))

-- A run that has ended counts the tasks that it created. It is approved, passed the gate and has
-- created all tasks, or it is not approved, gives a reason, and has created no task after the
-- design.
pub run_project-Closed :
    (ids : ℕ → String) (docs : List Task → String) (project_id : String) (inp : ProjectInput)
    (early : List Signal) (activations : List Activation) (r : ProjectRun)
    → run_project ids docs project_id inp early activations ≡ some r
    → Closed ids inp early activations r
unfolding run_project
run_project-Closed ids docs project_id inp early activations r h =
    go (gate_verdict inp early activations) refl h
  where
    full : ProjectRun
    full = record {
      output = record {
        project_id = project_id;
        final_docs = some (docs (tasks_before_gate ids inp ++ tasks_after_gate ids inp));
        task_count = 8;
        approved = true;
        rejection_reason = none;
      };
      tasks = tasks_before_gate ids inp ++ tasks_after_gate ids inp;
    }

    stop : String → ProjectRun
    stop reason = stopped_run project_id (tasks_before_gate ids inp) reason

    outcome : Verdict → Option ProjectRun
    outcome v = elim v [
      | waiting ↦ none
      | timed_out ↦ some (stop "approval timeout (24h)")
      | refused reason ↦ some (stop (reason_or reason))
      | passed ↦ some full
    ]

    unwrap : (x y : ProjectRun) → ◌≡◌ {A = Option ProjectRun} (some x) (some y) → x ≡ y
    unwrap x y e = cc e

    stopped : (reason : String) → Closed ids inp early activations (stop reason)
    stopped reason = record {
      counted = unfold tasks_before_gate in refl;
      either = inr (refl, refl, (reason, refl));
    }

    go :
        (v : Verdict)
        → gate_verdict inp early activations ≡ v
        → outcome v ≡ some r
        → Closed ids inp early activations r
    go waiting e q = absurd (cc q)
    go timed_out e q =
        subst (Closed ids inp early activations) (unwrap _ r q) (stopped "approval timeout (24h)")
    go (refused reason) e q =
        subst (Closed ids inp early activations) (unwrap _ r q) (stopped (reason_or reason))
    go passed e q = subst (Closed ids inp early activations) (unwrap _ r q) (record {
      counted = unfold tasks_before_gate tasks_after_gate in refl;
      either = inl (e, refl, refl);
    })
