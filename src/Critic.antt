-- ===== src/Critic.antt =====
-- app/agents/critic_repo.py: the Critic, which grades the diff of a Coder.
pub mod Types
pub mod Gate
pub mod Judge
pub mod Handoff
pub mod Clean
pub mod Raised
pub mod Grading
pub mod Document
pub mod Verdicts
pub mod Correct
mod Examples
use twai_swarm.Prelude.{
  ℕ, ◌+◌, ◌*◌, String, Bool, true, false, ◌||◌, not, Option, none, some, List, [], ◌∷◌, string_eq,
  ◌==◌, if◌then◌else◌, Outcome, ok, ◌>>=◌,
}
use twai_swarm.Reviewer.{GateFailure}
use twai_swarm.Critic.Types.{
  Severity, block, warn, CriticFailure, CriticVerdict, complete, incomplete, Subtask, Outside,
}
use twai_swarm.Critic.Gate.{run_deterministic_gate}
use twai_swarm.Critic.Judge.{Graded, run_llm_checklist_judge, extract_criteria_from_brief}
use twai_swarm.Critic.Handoff.{Line, build_continuation_handoff_doc}

-- The cost is in millionths of a dollar.
pub record CriticRepoOutput : Type 0 where
  pub verdict : CriticVerdict
  pub passed_criteria : List String
  pub failed_criteria : List CriticFailure
  pub deterministic_gate_passed : Bool
  pub gate_failures : List GateFailure
  pub continuation_prompt : Option (List Line)
  pub tokens_in : ℕ
  pub tokens_out : ℕ
  pub cost : ℕ

-- What the Critic is given: the subtasks of the plan (none for a missing or empty plan), the diff by
-- its lines as well, the files with their contents, and the brief.
pub record CriticInput : Type 0 where
  pub subtasks : List Subtask
  pub coder_diff : String
  pub diff_lines : List String
  pub files_with_content : List (String × String)
  pub brief : String

unfoldable pub paths_of : List (String × String) → List String
paths_of [] = []
paths_of ((path, content) ∷ files) =
    let rest = paths_of files in if path == "" then rest else path ∷ rest

-- 3 and 15 dollars for a million tokens.
unfoldable pub cost_of : ℕ → ℕ → ℕ
cost_of tokens_in tokens_out = tokens_in * 3 + tokens_out * 15

abbrev pub is_blocking : Severity → Bool
is_blocking block = true
is_blocking warn = false

unfoldable pub has_blocking_failure : List CriticFailure → Bool
has_blocking_failure [] = false
has_blocking_failure (cf ∷ cfs) = is_blocking cf.severity || has_blocking_failure cfs

-- The end of `run_critic_repo`, from what the judge gave back. `extra_in` and `extra_out` are the
-- tokens of the extraction.
unfoldable pub settle_verdict :
    CriticInput → Bool → List GateFailure → ℕ → ℕ → Graded → CriticRepoOutput
settle_verdict inp gate_passed gate_failures extra_in extra_out g =
    let is_incomplete = has_blocking_failure g.failed || not gate_passed in
    let prompt =
      build_continuation_handoff_doc inp.diff_lines (paths_of inp.files_with_content) g.passed
        g.failed gate_failures in
    record {
      verdict = if is_incomplete then incomplete else complete;
      passed_criteria = g.passed;
      failed_criteria = g.failed;
      deterministic_gate_passed = gate_passed;
      gate_failures = gate_failures;
      continuation_prompt = if is_incomplete then some prompt else none;
      tokens_in = g.tokens_in + extra_in;
      tokens_out = g.tokens_out + extra_out;
      cost = cost_of (g.tokens_in + extra_in) (g.tokens_out + extra_out);
    }

-- The early return: neither the plan nor the brief gave a criterion.
abbrev pub ungraded : Bool → List GateFailure → ℕ → ℕ → CriticRepoOutput
ungraded gate_passed gate_failures tokens_in tokens_out = record {
  verdict = complete;
  passed_criteria = [];
  failed_criteria = [];
  deterministic_gate_passed = gate_passed;
  gate_failures = gate_failures;
  continuation_prompt = none;
  tokens_in = tokens_in;
  tokens_out = tokens_out;
  cost = cost_of tokens_in tokens_out;
}

-- The plan that is made of the brief.
abbrev pub fallback_plan : List String → List Subtask
fallback_plan criteria = record { id = "brief.fallback"; acceptance_criteria = criteria } ∷ []

-- The judge, and the end, for a plan.
unfoldable pub judge_plan :
    Outside
    → CriticInput
    → Bool × List GateFailure
    → List Subtask
    → ℕ
    → ℕ
    → Outcome CriticRepoOutput
judge_plan out inp (gate_passed, gate_failures) plan extra_in extra_out =
    run_llm_checklist_judge out plan inp.coder_diff inp.files_with_content gate_failures >>= λ g.
    ok (settle_verdict inp gate_passed gate_failures extra_in extra_out g)

-- The path without a plan.
abbrev pub from_brief :
    Outside → CriticInput → Bool × List GateFailure → List String × ℕ × ℕ → Outcome CriticRepoOutput
from_brief out inp (gate_passed, gate_failures) ([], tokens_in, tokens_out) =
    ok (ungraded gate_passed gate_failures tokens_in tokens_out)
from_brief out inp gate (c ∷ cs, tokens_in, tokens_out) =
    judge_plan out inp gate (fallback_plan (c ∷ cs)) tokens_in tokens_out

unfoldable pub run_critic_repo : Outside → CriticInput → Outcome CriticRepoOutput
run_critic_repo out inp = run_deterministic_gate out (paths_of inp.files_with_content) >>= λ gate.
    elim inp.subtasks [
      | [] ↦ from_brief out inp gate (extract_criteria_from_brief out inp.brief)
      | s ∷ ss ↦ judge_plan out inp gate (s ∷ ss) 0 0
    ]
