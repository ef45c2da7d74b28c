-- ===== src/RepoTask.antt =====
-- app/workflows/repo_task.py: the workflow that lets agents change an existing repository.
-- The activities are parameters, and each may answer by all the calls before it. Texts that the code
-- formats for people are kept as the data that they are formatted from.
pub mod Types
pub mod Continuation
pub mod Selection
pub mod Calls
pub mod Gaps
mod Examples
unfoldable pub use Types.*
use twai_swarm.Prelude.{
  ℕ, zero, suc, ◌+◌, ◌-◌, String, Bool, true, false, not, ◌&&◌, ◌||◌, Option, none, some, List, [],
  ◌∷◌, ◌++◌, nat_eq, string_eq, ◌==◌, ltb, leb, min, length, take, get_elem?, get_or, if◌then◌else◌,
}
use Prim.Native.String
use mathlib.Core.List.{reverse}
use twai_swarm.Prelude.{without_last_slashes, after_last_slash}
use twai_swarm.Reviewer.{GateFailure, ReviewRationale, ReviewerRepoOutput}

-- `s.removesuffix(".git")`
unfoldable pub without_git : String → String
without_git String.[] = ""
without_git (String.◌∷◌ c s) =
    let rest = without_git s in if String.◌∷◌ c s == ".git" then "" else String.◌∷◌ c rest

unfoldable pub name_of_repo : RepoTaskInput → String
name_of_repo inp =
    let url = without_last_slashes inp.repo_url in
    if inp.repo_name == "" then without_git (get_or url (after_last_slash url)) else inp.repo_name

abbrev pub is_empty {ℓ} : {A : Type ℓ} → List A → Bool
is_empty [] = true
is_empty (_ ∷ _) = false

-- The Architect's word, or the heuristic `infer` on the brief where the plan has no subtasks.
unfoldable pub is_cross_cutting : (String → Bool) → ArchitectPlan → String → Bool
is_cross_cutting infer plan brief =
    if plan.cross_cutting then true else if is_empty plan.subtasks then infer brief else false

-- What the first part of the workflow hands on to the Critic.
pub record Selected : Type 0 where
  pub coder_result : CoderResult
  pub reviewer_result : Option ReviewerRepoOutput
  pub best_of_n_count : ℕ
  pub calls : List Call

-- `range(n)` from `seed` on: the parallel Coders, who all start from the same calls.
unfoldable pub run_coders :
    Activities → List Call → ArchitectPlan → String → ℕ → ℕ → List CoderResult
run_coders acts calls plan brief seed zero = []
run_coders acts calls plan brief seed (suc n) =
    acts.coder calls plan brief (some seed) ∷ run_coders acts calls plan brief (suc seed) n

abbrev pub coder_calls : String → ℕ → ℕ → List Call
coder_calls brief seed zero = []
coder_calls brief seed (suc n) = run_repo_coder brief (some seed) ∷ coder_calls brief (suc seed) n

-- The reviewer's candidate, or the first where its answer names none of them.
unfoldable pub pick_candidate : CoderResult → List CoderResult → Option ℕ → CoderResult
pick_candidate first candidates none = first
pick_candidate first candidates (some winner_idx) = get_or first (get_elem? candidates winner_idx)

unfoldable pub select_best_of_n : Activities → List Call → ArchitectPlan → String → Selected
select_best_of_n acts calls plan brief =
    let n = min best_of_n_default best_of_n_max in
    let candidates = run_coders acts calls plan brief 0 n in
    let after : List Call = calls ++ coder_calls brief 0 n in
    let review = acts.reviewer after plan candidates in
    record {
      coder_result =
          pick_candidate (acts.coder calls plan brief (some 0)) candidates review.winner_index;
      reviewer_result = some review;
      best_of_n_count = n;
      calls = after ++ reviewer_repo_task candidates ∷ [];
    }

unfoldable pub select_single : Activities → List Call → ArchitectPlan → String → Selected
select_single acts calls plan brief = record {
  coder_result = acts.coder calls plan brief none;
  reviewer_result = none;
  best_of_n_count = 1;
  calls = calls ++ run_repo_coder brief none ∷ [];
}

unfoldable pub select :
    (String → Bool) → Activities → List Call → ArchitectPlan → RepoTaskInput → Selected
select infer acts calls plan inp =
    if is_cross_cutting infer plan inp.brief && not inp.disable_best_of_n
    then select_best_of_n acts calls plan inp.brief
    else select_single acts calls plan inp.brief

-- The state of the `while` over the Critic's verdicts. `critic_results` has the latest first.
pub record Loop : Type 0 where
  pub coder_result : CoderResult
  pub critic_results : List CriticResult
  pub continuation_count : ℕ
  pub calls : List Call

unfoldable pub run_critic : Activities → ArchitectPlan → String → Loop → Loop
run_critic acts plan brief s = record s {
  critic_results = acts.critic s.calls plan s.coder_result brief ∷ s.critic_results;
  calls = s.calls ++ critic_repo_task s.coder_result.diff ∷ [];
}

-- The latest verdict, of those given.
abbrev pub is_complete : List CriticResult → Bool
is_complete [] = false
is_complete (c ∷ _) = c.verdict == "complete"

-- `curr_passed <= prev_passed`
abbrev pub no_progress : List CriticResult → Bool
no_progress (curr ∷ prev ∷ _) = leb (length curr.passed_criteria) (length prev.passed_criteria)
no_progress _ = false

-- The three `break`s.
unfoldable pub must_stop : Loop → Bool
must_stop s =
    is_complete s.critic_results
    || s.continuation_count == max_continuations
    || ltb 0 s.continuation_count && no_progress s.critic_results

abbrev pub prompt_of : List CriticResult → String
prompt_of [] = ""
prompt_of (c ∷ _) = c.continuation_prompt

unfoldable pub continue_coder : Activities → ArchitectPlan → Loop → Loop
continue_coder acts plan s = record s {
  coder_result = acts.coder s.calls plan (prompt_of s.critic_results) none;
  continuation_count = suc s.continuation_count;
  calls = s.calls ++ run_repo_coder (prompt_of s.critic_results) none ∷ [];
}

-- `while continuation_count <= MAX_CONTINUATIONS`: `left` is how often its test still holds.
unfoldable pub critic_loop : Activities → ArchitectPlan → String → ℕ → Loop → Loop
critic_loop acts plan brief zero s = s
critic_loop acts plan brief (suc left) s =
    let judged = run_critic acts plan brief s in
    let rest = critic_loop acts plan brief left (continue_coder acts plan judged) in
    if must_stop judged then judged else rest

abbrev pub latest : List CriticResult → Option CriticResult
latest [] = none
latest (c ∷ _) = some c

-- The footer that names what is still missing.
unfoldable pub gaps_footer : ℕ → Option CriticResult → Option Footer
gaps_footer continuation_count none = none
gaps_footer continuation_count (some final) =
    if ltb 0 continuation_count
      && final.verdict == "incomplete"
      && (not (is_empty final.failed_criteria) || not (is_empty final.gate_failures))
    then some (record {
      passes = continuation_count;
      criteria = take 20 final.failed_criteria;
      more_criteria = length final.failed_criteria - 20;
      gates = take 10 final.gate_failures;
      more_gates = length final.gate_failures - 10;
    })
    else none

unfoldable pub selection_note : Selected → CoderResult → Option SelectionNote
selection_note sel coder_result = elim sel.reviewer_result [
  | none ↦ none
  | some review ↦
      if ltb 1 sel.best_of_n_count
      then some (record {
        evaluated = sel.best_of_n_count;
        winner = review.winner_index;
        seed = elim coder_result.coder_seed [ some seed ↦ some seed | none ↦ review.winner_index ];
        rationale = review.rationale;
      })
      else none
]

-- `doc_body or None`, the footer's lines included.
unfoldable pub body_override : String → Option Footer → Option PrBody
body_override body (some footer) = some (record { body = body; footer = some footer })
body_override body none = if body == "" then none else some (record { body = body; footer = none })

unfoldable pub push_request :
    RepoTaskInput → Selected → Loop → Option DocumenterResult → PushRequest
push_request inp sel s doc =
    let footer = gaps_footer s.continuation_count (latest s.critic_results) in
    record {
      files = s.coder_result.files_with_content;
      push_brief = record {
        brief = inp.brief;
        selection = selection_note sel s.coder_result;
        footer = footer;
      };
      title_override = elim doc [ none ↦ none | some d ↦ d.pr_title ];
      body_override = elim doc [ none ↦ none | some d ↦ body_override d.pr_body footer ];
    }

abbrev pub not_pushed : String → PushResult
not_pushed error = record {
  pr_url = none;
  pr_number = none;
  branch_name = none;
  error = some error;
}

-- The result of the push, the Documenter's, and the calls.
pub record Pushed : Type 0 where
  pub push_result : PushResult
  pub documenter_result : Option DocumenterResult
  pub calls : List Call

unfoldable pub push_step : Activities → ArchitectPlan → RepoTaskInput → Selected → Loop → Pushed
push_step acts plan inp sel s =
    let doc = acts.documenter s.calls plan s.coder_result (latest s.critic_results) in
    let request = push_request inp sel s doc in
    let documented : List Call = s.calls ++ documenter_repo_task ∷ [] in
    if not inp.auto_pr
    then record {
      push_result = not_pushed "auto_pr disabled";
      documenter_result = none;
      calls = s.calls;
    }
    else if is_empty s.coder_result.files_with_content
    then record {
      push_result = not_pushed "no files changed";
      documenter_result = none;
      calls = s.calls;
    }
    else record {
      push_result = acts.push documented request;
      documenter_result = doc;
      calls = documented ++ push_repo_changes request ∷ [];
    }

abbrev pub start_loop : Selected → Loop
start_loop sel = record {
  coder_result = sel.coder_result;
  critic_results = [];
  continuation_count = 0;
  calls = sel.calls;
}

-- The parts of `run`: the plan, the selected result, and the state after the Critic's loop.
abbrev pub plan_of : Activities → RepoTaskInput → ArchitectPlan
plan_of acts inp = acts.architect (clone_repo ∷ index_repo ∷ []) inp.brief

abbrev pub selected : (String → Bool) → Activities → RepoTaskInput → Selected
selected infer acts inp =
    select infer acts (clone_repo ∷ index_repo ∷ architect_repo_task ∷ []) (plan_of acts inp) inp

abbrev pub looped : (String → Bool) → Activities → RepoTaskInput → Loop
looped infer acts inp =
    critic_loop acts (plan_of acts inp) inp.brief (suc max_continuations)
      (start_loop (selected infer acts inp))

-- `RepoTaskWorkflow.run`
unfoldable pub run : (String → Bool) → Activities → RepoTaskInput → RepoTaskOutput
run infer acts inp =
    let cloned = acts.clone [] inp in
    let sel = selected infer acts inp in
    let s = looped infer acts inp in
    let pushed = push_step acts (plan_of acts inp) inp sel s in
    record {
      repo_name = name_of_repo inp;
      commit_sha = cloned.commit_sha;
      coder_result = s.coder_result;
      push_result = pushed.push_result;
      architect_plan = plan_of acts inp;
      critic_results = reverse s.critic_results;
      continuation_count = s.continuation_count;
      reviewer_result = sel.reviewer_result;
      best_of_n_count = sel.best_of_n_count;
      documenter_result = pushed.documenter_result;
      calls = pushed.calls;
    }
