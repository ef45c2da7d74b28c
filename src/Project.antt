-- ===== src/Project.antt =====
-- app/workflows/project.py: the workflow of a new project, with the approval gate.
pub mod Gate
pub mod Phases
mod Examples
use twai_swarm.Prelude.{
  ℕ, String, Bool, true, false, ◌||◌, Option, none, some, List, [], ◌∷◌, ◌++◌, string_eq, ◌==◌,
  if◌then◌else◌, length, join,
}
use twai_swarm.Routing.{Role, ba, architect, se, estimator, reviewer, researcher, documenter, coder}

pub record ProjectInput : Type 0 where
  pub name : String
  pub brief : String
  pub auto_approve : Bool
  pub tenant_id : String

pub record ProjectOutput : Type 0 where
  pub project_id : String
  pub final_docs : Option String
  pub task_count : ℕ
  pub approved : Bool
  pub rejection_reason : Option String

-- The attributes that the signals set.
pub record GateState : Type 0 where
  pub approved : Bool
  pub rejected : Bool
  pub rejection_reason : Option String

abbrev pub start_gate : GateState
start_gate = record { approved = false; rejected = false; rejection_reason = none }

pub data Signal : Type 0 where
  approve : Signal
  reject : String → Signal

unfoldable pub receive : GateState → Signal → GateState
receive g approve = record g { approved = true }
receive g (reject reason) = record g { rejected = true; rejection_reason = some reason }

unfoldable pub receive_all : GateState → List Signal → GateState
receive_all g [] = g
receive_all g (s ∷ ss) = receive_all (receive g s) ss

-- What wakes the waiting workflow: signals, all of which are received before the condition is read
-- again, or the timer of 24 hours.
pub data Activation : Type 0 where
  signalled : List Signal → Activation
  timer : Activation

pub data Verdict : Type 0 where
  passed timed_out waiting : Verdict
  refused : Option String → Verdict

abbrev pub decided : GateState → Bool
decided g = g.approved || g.rejected

abbrev pub settle_gate : GateState → Verdict
settle_gate g = if g.rejected then refused g.rejection_reason else passed

-- `wait_condition`, and the tests after it. `waiting` is the state before the next activation.
unfoldable pub await_gate : GateState → List Activation → Verdict
await_gate g [] = if decided g then settle_gate g else waiting
await_gate g (timer ∷ rest) = if decided g then settle_gate g else timed_out
await_gate g (signalled ss ∷ rest) =
    let later = await_gate (receive_all g ss) rest in if decided g then settle_gate g else later

pub record Task : Type 0 where
  pub role : Role
  pub title : String
  pub description : String
  pub parent : Option String
  pub complexity : ℕ

abbrev task : Role → String → String → Option String → ℕ → Task
task role title description parent complexity = record {
  role = role;
  title = title;
  description = description;
  parent = parent;
  complexity = complexity;
}

-- The tasks up to the gate. `ids` gives the identifiers of the task records, in order.
unfoldable pub tasks_before_gate : (ℕ → String) → ProjectInput → List Task
tasks_before_gate ids inp =
    task ba "Extract requirements" inp.brief none 1
    ∷ task researcher "Background research" inp.brief none 1
    ∷ task architect "System design" (join "Design a system for: " inp.brief) (some (ids 0)) 2
    ∷ []

unfoldable pub tasks_after_gate : (ℕ → String) → ProjectInput → List Task
tasks_after_gate ids inp =
    task se "Implementation plan" "Produce an implementation plan for the architecture above."
      (some (ids 2)) 1
    ∷ task estimator "Effort and cost estimates"
        (join "Estimate effort (hours) and costs for the implementation plan above. "
          "Include realistic risks and your assumptions.")
        (some (ids 3)) 1
    ∷ task reviewer "Review plan + estimates"
        (join "Review both the implementation plan and the estimates. "
          "Flag gaps, risks, and any estimates that seem unrealistic.")
        (some (ids 4)) 1
    ∷ task documenter "Write README"
        "Produce a README summarising the project, design, plan, and estimates." (some (ids 5)) 1
    ∷ task coder "Code scaffold"
        (join "Customise the staged template (or bootstrap from scratch) so that the "
          (join "scaffold's verify.sh passes. The brief is: " inp.brief))
        (some (ids 6)) 2
    ∷ []

-- The output of a run, and the tasks that it created.
pub record ProjectRun : Type 0 where
  pub output : ProjectOutput
  pub tasks : List Task

-- `self._rejection_reason or "rejected without reason"`
abbrev pub reason_or : Option String → String
reason_or none = "rejected without reason"
reason_or (some r) = if r == "" then "rejected without reason" else r

abbrev pub stopped_run : String → List Task → String → ProjectRun
stopped_run project_id tasks reason = record {
  output = record {
    project_id = project_id;
    final_docs = none;
    task_count = 3;
    approved = false;
    rejection_reason = some reason;
  };
  tasks = tasks;
}

abbrev pub gate_verdict : ProjectInput → List Signal → List Activation → Verdict
gate_verdict inp early activations =
    if inp.auto_approve then passed else await_gate (receive_all start_gate early) activations

-- `ProjectWorkflow.run`: `early` came before the gate; `docs` is the Documenter's output by the tasks
-- so far. `none` is a run that still waits.
unfoldable pub run_project :
    (ℕ → String)
    → (List Task → String)
    → String
    → ProjectInput
    → List Signal
    → List Activation
    → Option ProjectRun
run_project ids docs project_id inp early activations =
    let before = tasks_before_gate ids inp in
    elim (gate_verdict inp early activations) [
      | waiting ↦ none
      | timed_out ↦ some (stopped_run project_id before "approval timeout (24h)")
      | refused reason ↦ some (stopped_run project_id before (reason_or reason))
      | passed ↦ some (record {
        output = record {
          project_id = project_id;
          final_docs = some (docs (before ++ tasks_after_gate ids inp));
          task_count = 8;
          approved = true;
          rejection_reason = none;
        };
        tasks = before ++ tasks_after_gate ids inp;
      })
    ]
