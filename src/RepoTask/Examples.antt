-- ===== src/RepoTask/Examples.antt =====
-- A run of the workflow with three Coders and one continuation, and its theorems at that input.
use twai_swarm.Prelude.{
  ℕ, suc, ◌+◌, ◌≤◌, ◌<◌, ◌≡◌, refl, ◌⊎◌, String, Bool, true, false, Option, none, some, [], ◌∷◌,
  arith, map, In, nat_eq, ◌==◌,
}
use twai_swarm.Reviewer.{
  ReviewerRepoOutput, Candidate, GateReport, checked, only_survivor, plain_output, Judge, letter_a,
  run_reviewer_repo,
}
use twai_swarm.Reviewer.Selection.{Passes}
use twai_swarm.RepoTask.{
  RepoTaskInput, ArchitectPlan, CoderResult, CriticResult, push_repo_changes, Activities, PrBody,
  PushRequest, SelectionNote, best_of_n_default, run_critic, must_stop, continue_coder, critic_loop,
  select, select_best_of_n, is_cross_cutting, run, is_empty,
}
use twai_swarm.RepoTask.Continuation.{Ended, run-Ended}
use twai_swarm.RepoTask.Calls.{is_coder, is_critic, is_push, tally, pushes_of, run-calls}
use twai_swarm.RepoTask.Selection.{
  candidate_of, reviewed, select_best_of_n-seed, select_best_of_n-Passes,
}
use twai_swarm.RepoTask.Gaps.{footer_of, run-gaps, run-note}

abbrev input : RepoTaskInput
input = record {
  repo_url = "https://github.com/o/app.git/";
  branch = "main";
  brief = "add a route";
  repo_name = "";
  tenant_id = "default";
  auto_pr = true;
  force_reindex = false;
  disable_best_of_n = false;
}

abbrev coded : Option ℕ → CoderResult
coded seed = record {
  diff = "+x";
  files_changed = "a.py" ∷ [];
  files_with_content = ("a.py", "x = 1") ∷ [];
  iterations = 3;
  summary = "done";
  tokens_in = 10;
  tokens_out = 2;
  cost = 5;
  coder_seed = elim seed [ none ↦ some 0 | some k ↦ some k ];
}

abbrev incomplete : CriticResult
incomplete = record {
  verdict = "incomplete";
  passed_criteria = "compiles" ∷ [];
  failed_criteria = ("has a test", "no test file") ∷ [];
  gate_failures = [];
  continuation_prompt = "write the test";
}

abbrev third_wins : ReviewerRepoOutput
third_wins = plain_output (some 2) [] (only_survivor 2) false

abbrev acts : Activities
acts = record {
  clone = λ calls inp. record { path = "/tmp/r"; commit_sha = "abc" };
  architect = λ calls brief. record { cross_cutting = true; subtasks = "route" ∷ [] };
  coder = λ calls plan brief seed. coded seed;
  reviewer = λ calls plan cs. third_wins;
  critic = λ calls plan c brief. incomplete;
  documenter =
      λ calls plan c verdict. some (record { pr_title = some "Add a route"; pr_body = "" });
  push = λ calls request. record {
    pr_url = some "https://x/1";
    pr_number = some 1;
    branch_name = some "b";
    error = none;
  };
}

abbrev never : String → Bool
never brief = false

run-Ended_example : Ended never acts input
run-Ended_example = run-Ended never acts input

run-calls_example :
    (tally is_coder (run never acts input).calls
      ≡ (run never acts input).best_of_n_count + (run never acts input).continuation_count)
    × (tally is_coder (run never acts input).calls ≤ 5)
    × (tally is_critic (run never acts input).calls ≡ suc (run never acts input).continuation_count)
    × (tally is_push (run never acts input).calls
        ≡ pushes_of input (run never acts input).coder_result)
run-calls_example = run-calls never acts input

results : (run never acts input).critic_results ≡ incomplete ∷ incomplete ∷ []
unfolding run critic_loop run_critic continue_coder must_stop
results = refl

changed : is_empty (run never acts input).coder_result.files_with_content ≡ false
unfolding run critic_loop run_critic continue_coder must_stop
changed = refl

continued : 0 < (run never acts input).continuation_count
unfolding run critic_loop run_critic continue_coder must_stop
continued = omega arith

reviewed_run : (run never acts input).reviewer_result ≡ some third_wins
unfolding run select select_best_of_n is_cross_cutting
reviewed_run = refl

run-gaps_example :
    (request : PushRequest) × In (push_repo_changes request) (run never acts input).calls
    × (request.files ≡ (run never acts input).coder_result.files_with_content)
    × (request.push_brief.footer
        ≡ some (footer_of (run never acts input).continuation_count incomplete))
    × ((b : PrBody)
        → request.body_override ≡ some b
        → b.footer ≡ some (footer_of (run never acts input).continuation_count incomplete))
run-gaps_example =
    run-gaps never acts input incomplete (incomplete ∷ []) results refl refl refl changed

run-note_example :
    (request : PushRequest) × In (push_repo_changes request) (run never acts input).calls
    × (note : SelectionNote) × (request.push_brief.selection ≡ some note)
    × (note.winner ≡ some 2)
    × (note.seed ≡ some 0)
run-note_example =
    run-note never acts input third_wins (λ calls plan brief. refl) reviewed_run continued refl
      changed

abbrev plan : ArchitectPlan
plan = record { cross_cutting = true; subtasks = "route" ∷ [] }

select_best_of_n-seed_example :
    (seed : ℕ) × (seed < best_of_n_default)
    × ((select_best_of_n acts [] plan "b").coder_result ≡ acts.coder [] plan "b" (some seed))
    × ((reviewed acts [] plan "b" ≡ some seed)
        ⊎ (seed ≡ 0) × ((i : ℕ) → reviewed acts [] plan "b" ≡ some i → best_of_n_default ≤ i))
select_best_of_n-seed_example = select_best_of_n-seed acts [] plan "b"

abbrev first_shown : Judge
first_shown n a b = record {
  letter = some letter_a;
  rationale = "A";
  tokens_in = 10;
  tokens_out = 2;
}

-- Only seed 1 passes.
abbrev odd_seed : Candidate → GateReport
odd_seed c = elim c.coder_seed [ none ↦ checked false [] | some k ↦ checked (k == 1) [] ]

abbrev judged_acts : Activities
judged_acts = record acts {
  reviewer = λ calls plan cs. run_reviewer_repo first_shown odd_seed (map candidate_of cs);
}

select_best_of_n-Passes_example :
    Passes odd_seed (candidate_of (select_best_of_n judged_acts [] plan "b").coder_result)
select_best_of_n-Passes_example =
    select_best_of_n-Passes judged_acts [] plan "b" first_shown odd_seed 1 (λ before cs. refl)
      (omega arith) ([], refl)
