-- ===== src/Critic/Examples.antt =====
-- Runs of the Critic, and its theorems at those inputs.
use twai_swarm.Prelude.{
  ◌≡◌, refl, ◌⊎◌, true, none, some, List, [], ◌∷◌, ok, raised, no_attribute, strip, drop_first,
  drop_last, is_word, ends_with, starts_with, without_suffix, str_nat, decimal,
}
use twai_swarm.Critic.Types.{
  get_member, has_text, complete, Subtask, Json, object, array, no_element, string, no_member,
  member_of, exited, skipped, extraction_failed, judged, Outside,
}
use twai_swarm.Critic.Gate.{
  npm_typecheck_gate, typecheck_run, typecheck_listed, run_deterministic_gate,
  group_files_by_language, language_of, gate_failures_of, ruff_gate, compileall_gate,
  compile_failures,
}
use twai_swarm.Critic.Judge.{
  flatten_acceptance_criteria, criteria_of, run_llm_checklist_judge, parse_judge_response,
  without_fences, braced, grade_all, grade_from, text_at,
}
use twai_swarm.Critic.Clean.{CompilersEndedWell}
use twai_swarm.Critic.Verdicts.{plan_of, asked, JudgedYes}
use twai_swarm.Critic.Correct.{Reported, run_critic_repo-Reported, run_critic_repo-JudgedYes}
use twai_swarm.Critic.{
  CriticInput, CriticRepoOutput, paths_of, cost_of, settle_verdict, judge_plan, run_critic_repo,
  has_blocking_failure,
}

abbrev subtasks : List Subtask
subtasks = record { id = "1"; acceptance_criteria = "it compiles" ∷ [] } ∷ []

abbrev input : CriticInput
input = record {
  subtasks = subtasks;
  coder_diff = "+x";
  diff_lines = "+x" ∷ [];
  files_with_content = ("a.py", "x = 1") ∷ [];
  brief = "";
}

-- Tools that end well, and a judge whose answer is read as `answer`.
abbrev outside : Json → Outside
outside answer = record {
  run_ruff = λ fs. exited 0 "";
  run_compileall = λ fs. exited 0 "";
  run_mvn = λ fs. skipped;
  run_npm = λ fs. skipped;
  npm_ready = true;
  package_json = has_text "[]";
  ruff_items = λ printed. ok [];
  compileall_files = λ printed. ok [];
  mvn_items = λ printed. ok [];
  npm_items = λ printed. ok [];
  ask_criteria = λ brief. extraction_failed;
  ask_judge = λ criteria diff files failures. judged "{}" 10 2;
  loads = λ text. some answer;
  str_of = λ json. "";
}

abbrev yes_answer : Json
yes_answer =
    object (member_of "0" (object (member_of "status" (string "Yes ") no_member)) no_member)

abbrev graded : CriticRepoOutput
graded = record {
  verdict = complete;
  passed_criteria = "it compiles" ∷ [];
  failed_criteria = [];
  deterministic_gate_passed = true;
  gate_failures = [];
  continuation_prompt = none;
  tokens_in = 10;
  tokens_out = 2;
  cost = 60;
}

graded-ok : run_critic_repo (outside yes_answer) input ≡ ok graded
unfolding run_critic_repo judge_plan run_llm_checklist_judge settle_verdict
graded-ok =
    unfold run_deterministic_gate group_files_by_language language_of gate_failures_of ruff_gate
      compileall_gate compile_failures flatten_acceptance_criteria criteria_of parse_judge_response
      without_fences braced grade_all grade_from get_member text_at paths_of cost_of
      has_blocking_failure strip drop_first drop_last is_word ends_with starts_with without_suffix
      str_nat decimal in
    refl

planned : plan_of (outside yes_answer) input ≡ some subtasks
unfolding plan_of
planned = refl

run_critic_repo-Reported_example : Reported (outside yes_answer) input subtasks graded
run_critic_repo-Reported_example =
    run_critic_repo-Reported (outside yes_answer) input subtasks planned graded graded-ok

run_critic_repo-JudgedYes_example :
    CompilersEndedWell (outside yes_answer) (paths_of input.files_with_content)
    × ((flatten_acceptance_criteria subtasks ≡ [])
        ⊎ JudgedYes
            (outside yes_answer)
            (asked (outside yes_answer) input graded.gate_failures subtasks)
            (flatten_acceptance_criteria subtasks))
run_critic_repo-JudgedYes_example =
    run_critic_repo-JudgedYes (outside yes_answer) input subtasks planned graded graded-ok refl

abbrev list_answer : Outside
list_answer = outside (array no_element)

list-raised : run_critic_repo list_answer input ≡ raised no_attribute
unfolding run_critic_repo judge_plan run_llm_checklist_judge
list-raised =
    unfold run_deterministic_gate group_files_by_language language_of gate_failures_of ruff_gate
      compileall_gate compile_failures flatten_acceptance_criteria criteria_of parse_judge_response
      without_fences braced grade_all paths_of strip drop_first drop_last is_word ends_with
      starts_with without_suffix in
    refl

-- A `package.json` that is a list stops the Critic.
list_package : run_deterministic_gate list_answer ("src/a.ts" ∷ []) ≡ raised no_attribute
unfolding run_deterministic_gate is_word
list_package =
    unfold group_files_by_language language_of gate_failures_of npm_typecheck_gate typecheck_run
      typecheck_listed ends_with drop_first starts_with without_suffix in
    refl
