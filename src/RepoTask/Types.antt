-- ===== src/RepoTask/Types.antt =====
-- The inputs, results and calls of repo_task.py.
use twai_swarm.Prelude.{ℕ, String, Bool, Option, List, nat_eq, string_eq}
use twai_swarm.Reviewer.{GateFailure, ReviewRationale, ReviewerRepoOutput}

abbrev pub max_continuations : ℕ
max_continuations = 2

abbrev pub best_of_n_default : ℕ
best_of_n_default = 3

abbrev pub best_of_n_max : ℕ
best_of_n_max = 5

pub record RepoTaskInput : Type 0 where
  pub repo_url : String
  pub branch : String
  pub brief : String
  pub repo_name : String
  pub tenant_id : String
  pub auto_pr : Bool
  pub force_reindex : Bool
  pub disable_best_of_n : Bool

-- What `clone_repo_activity` returns.
pub record Clone : Type 0 where
  pub path : String
  pub commit_sha : String

pub record ArchitectPlan : Type 0 where
  pub cross_cutting : Bool
  pub subtasks : List String

-- `cost` is in millionths of a dollar.
pub record CoderResult : Type 0 where
  pub diff : String
  pub files_changed : List String
  pub files_with_content : List (String × String)
  pub iterations : ℕ
  pub summary : String
  pub tokens_in : ℕ
  pub tokens_out : ℕ
  pub cost : ℕ
  pub coder_seed : Option ℕ

-- A failed criterion stands with its evidence.
pub record CriticResult : Type 0 where
  pub verdict : String
  pub passed_criteria : List String
  pub failed_criteria : List (String × String)
  pub gate_failures : List GateFailure
  pub continuation_prompt : String

pub record DocumenterResult : Type 0 where
  pub pr_title : Option String
  pub pr_body : String

-- The items of the "Known gaps" footer, and how many more there are of each kind.
pub record Footer : Type 0 where
  pub passes : ℕ
  pub criteria : List (String × String)
  pub more_criteria : ℕ
  pub gates : List GateFailure
  pub more_gates : ℕ

-- The "Best-of-N selection" header of the brief.
pub record SelectionNote : Type 0 where
  pub evaluated : ℕ
  pub winner : Option ℕ
  pub seed : Option ℕ
  pub rationale : ReviewRationale

pub record PushBrief : Type 0 where
  pub brief : String
  pub selection : Option SelectionNote
  pub footer : Option Footer

pub record PrBody : Type 0 where
  pub body : String
  pub footer : Option Footer

pub record PushRequest : Type 0 where
  pub files : List (String × String)
  pub push_brief : PushBrief
  pub title_override : Option String
  pub body_override : Option PrBody

pub record PushResult : Type 0 where
  pub pr_url : Option String
  pub pr_number : Option ℕ
  pub branch_name : Option String
  pub error : Option String

-- The calls of the workflow: the Coder's with its brief and seed, the Critic's with the diff.
pub data Call : Type 0 where
  clone_repo index_repo architect_repo_task documenter_repo_task : Call
  run_repo_coder : String → Option ℕ → Call
  reviewer_repo_task : List CoderResult → Call
  critic_repo_task : String → Call
  push_repo_changes : PushRequest → Call

-- The calls so far are the first argument of each.
pub record Activities : Type 0 where
  pub clone : List Call → RepoTaskInput → Clone
  pub architect : List Call → String → ArchitectPlan
  pub coder : List Call → ArchitectPlan → String → Option ℕ → CoderResult
  pub reviewer : List Call → ArchitectPlan → List CoderResult → ReviewerRepoOutput
  pub critic : List Call → ArchitectPlan → CoderResult → String → CriticResult
  pub documenter :
      List Call → ArchitectPlan → CoderResult → Option CriticResult → Option DocumenterResult
  pub push : List Call → PushRequest → PushResult

pub record RepoTaskOutput : Type 0 where
  pub repo_name : String
  pub commit_sha : String
  pub coder_result : CoderResult
  pub push_result : PushResult
  pub architect_plan : ArchitectPlan
  pub critic_results : List CriticResult
  pub continuation_count : ℕ
  pub reviewer_result : Option ReviewerRepoOutput
  pub best_of_n_count : ℕ
  pub documenter_result : Option DocumenterResult
  pub calls : List Call
