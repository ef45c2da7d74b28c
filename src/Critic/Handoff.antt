-- ===== src/Critic/Handoff.antt =====
-- critic_repo.py: the document that is handed on to the next Coder, line by line. The lines are kept as
-- the data that they are formatted from.
use twai_swarm.Prelude.{
  ℕ, suc, ◌+◌, ◌-◌, String, Bool, List, [], ◌∷◌, ◌++◌, map, string_eq, ltb, length, take, Dict,
  lookup, insert, get_or, sort_by, str_leb, if◌then◌else◌,
}
use twai_swarm.Reviewer.{GateFailure}
use twai_swarm.Critic.Types.{CriticFailure}

pub data Line : Type 0 where
  -- a heading, an empty line or a fixed sentence
  text : String → Line
  -- the first files of the pass before, and how many more there are
  files_modified : List String → ℕ → Line
  -- the first lines of the diff, and how many more there are
  diff_summary : List String → ℕ → Line
  -- the failures of each tool
  gates_failing : Dict String ℕ → Line
  satisfied : String → Line
  missing : String → Line
  evidence : String → Line
  gate_failure : GateFailure → Line
  more_failures : ℕ → Line
  address_step : ℕ → String → Line
  fix_step : ℕ → GateFailure → Line

-- `counts[tool] = counts.get(tool, 0) + 1`
unfoldable pub count_tools : Dict String ℕ → List GateFailure → Dict String ℕ
count_tools by_tool [] = by_tool
count_tools by_tool (gf ∷ gfs) =
    count_tools (insert gf.tool (get_or 0 (lookup gf.tool by_tool) + 1) by_tool) gfs

abbrev pub tool_leb : String × ℕ → String × ℕ → Bool
tool_leb (a, _) (b, _) = str_leb a b

-- The lines, where a list has members.
abbrev pub unless_empty {ℓ} : {A : Type ℓ} → List A → List Line → List Line → List Line
unless_empty [] lines otherwise = otherwise
unless_empty (_ ∷ _) lines otherwise = lines

unfoldable pub summary_lines : List String → List String → List GateFailure → List Line
summary_lines files diff_lines gate_failures =
    text "## Current state summary"
      ∷ (unless_empty files (files_modified (take 20 files) (length files - 20) ∷ [])
          (text "- Files modified in prior pass: (none)" ∷ []))
    ++ (unless_empty diff_lines (diff_summary (take 10 diff_lines) (length diff_lines - 10) ∷ [])
        (text "- Diff summary: (empty)" ∷ []))
    ++ (unless_empty gate_failures
        (gates_failing (sort_by tool_leb (count_tools [] gate_failures)) ∷ [])
        (text "- Deterministic gates: passing (or skipped for absent tooling)" ∷ []))
    ++ text "" ∷ []

unfoldable pub missing_lines : List CriticFailure → List Line
missing_lines [] = []
missing_lines (cf ∷ cfs) = missing cf.criterion ∷ evidence cf.evidence ∷ missing_lines cfs

unfoldable pub status_lines : List String → List CriticFailure → List GateFailure → List Line
status_lines passed failed gate_failures =
    text "## Acceptance criteria status"
      ∷ (unless_empty passed (text "### Already satisfied" ∷ map satisfied passed) [])
    ++ (unless_empty failed (text "### Still missing" ∷ missing_lines failed) [])
    ++ (unless_empty gate_failures
        (text "### Gate failures to fix" ∷ map gate_failure (take 30 gate_failures)
          ++ (if ltb 30 (length gate_failures)
              then more_failures (length gate_failures - 30) ∷ []
              else []))
        [])
    ++ text "" ∷ []

unfoldable pub address_steps : ℕ → List CriticFailure → List Line
address_steps step [] = []
address_steps step (cf ∷ cfs) = address_step step cf.criterion ∷ address_steps (suc step) cfs

unfoldable pub fix_steps : ℕ → List GateFailure → List Line
fix_steps step [] = []
fix_steps step (gf ∷ gfs) = fix_step step gf ∷ fix_steps (suc step) gfs

abbrev pub or_no_step : List Line → List Line
or_no_step [] =
    text "(no specific next steps — Critic returned incomplete with no failure list)" ∷ []
or_no_step (l ∷ ls) = l ∷ ls

unfoldable pub step_lines : List CriticFailure → List GateFailure → List Line
step_lines failed gate_failures =
    text "## Immediate next steps"
      ∷ or_no_step
          (address_steps 1 failed ++ fix_steps (suc (length failed)) (take 10 gate_failures))
    ++ text "" ∷ []

abbrev pub closing_lines : List Line
closing_lines =
    text "## Open questions (do NOT silently decide)"
    ∷ text
        "- None flagged by the judge. If you encounter ambiguity in the Architect plan while addressing the items above, surface it in your final summary rather than picking one option silently."
    ∷ text ""
    ∷ text "## Constraint"
    ∷ text
        "You are picking up where a previous Coder left off. Do NOT redo their work. Only address the items in 'Still missing' and 'Gate failures to fix'. The previous diff is already on disk — your job is to ADD to it, not replace it. Keep edits surgical: every file you touch should map to one of the items above."
    ∷ []

unfoldable pub build_continuation_handoff_doc :
    List String → List String → List String → List CriticFailure → List GateFailure → List Line
build_continuation_handoff_doc diff_lines files passed failed gate_failures =
    summary_lines files diff_lines gate_failures
    ++ status_lines passed failed gate_failures
    ++ step_lines failed gate_failures
    ++ closing_lines
