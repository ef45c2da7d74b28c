-- ===== src/Critic/Types.antt =====
-- The dataclasses of critic_repo.py, and what its parameters answer.
use twai_swarm.Prelude.{
  ℕ, String, Bool, Option, none, some, List, nat_eq, string_eq, ◌==◌, or_else, if◌then◌else◌,
  Outcome,
}
use twai_swarm.Reviewer.{GateFailure}

pub data Severity : Type 0 where
  block warn : Severity

pub record CriticFailure : Type 0 where
  pub criterion : String
  pub evidence : String
  pub severity : Severity

pub data CriticVerdict : Type 0 where
  complete incomplete : CriticVerdict

-- A subtask of the Architect's plan.
pub record Subtask : Type 0 where
  pub id : String
  pub acceptance_criteria : List String

-- What `json.loads` gives back. The keys of an object come in the order of the text.
mutual
  pub data Json : Type 0 where
    null : Json
    boolean : Bool → Json
    number : String → Json
    string : String → Json
    array : Elements → Json
    object : Members → Json

  pub data Elements : Type 0 where
    no_element : Elements
    element : Json → Elements → Elements

  pub data Members : Type 0 where
    no_member : Members
    member_of : String → Json → Members → Members

-- A run of a build tool: it is absent, not set up for the repository, or did not end in time; or
-- it ended with a code and printed something; or a signal ended it; or what it printed is no text,
-- which raises `UnicodeDecodeError`.
pub data ToolRun : Type 0 where
  skipped : ToolRun
  exited : ℕ → String → ToolRun
  killed : ℕ → String → ToolRun
  undecodable : ToolRun

-- `parsed.get(key)`: the last member of that key.
unfoldable pub get_member : String → Members → Option Json
get_member key no_member = none
get_member key (member_of k v rest) =
    or_else (get_member key rest) (if k == key then some v else none)

-- `package.json` at the root of the repository: its reading raises an `OSError`, or it is no UTF-8,
-- or it has a text.
pub data PackageJson : Type 0 where
  unreadable : PackageJson
  no_utf8 : PackageJson
  has_text : String → PackageJson

-- A call of the model for criteria: it failed, or answered with blocks, some of which carry a list.
pub data Extraction : Type 0 where
  extraction_failed : Extraction
  extracted : List (Option (List String)) → ℕ → ℕ → Extraction

-- A call of the judge: it failed with the exception of this name, or answered with a text.
pub data JudgeCall : Type 0 where
  judge_failed : String → JudgeCall
  judged : String → ℕ → ℕ → JudgeCall

-- The tools on the touched files, the project files of npm, the model's calls, and the two functions
-- of Python on JSON. The reading of what a tool printed, which is code of this program, is a
-- parameter too, and may raise an exception.
pub record Outside : Type 0 where
  pub run_ruff : List String → ToolRun
  pub run_compileall : List String → ToolRun
  pub run_mvn : List String → ToolRun
  pub run_npm : List String → ToolRun
  -- npm is on the path, and `package.json` and `tsconfig.json` exist.
  pub npm_ready : Bool
  pub package_json : PackageJson
  pub ruff_items : String → Outcome (List GateFailure)
  pub compileall_files : String → Outcome (List String)
  pub mvn_items : String → Outcome (List GateFailure)
  pub npm_items : String → Outcome (List GateFailure)
  pub ask_criteria : String → Extraction
  pub ask_judge :
      List (String × String) → String → List (String × String) → List GateFailure → JudgeCall
  pub loads : String → Option Json
  pub str_of : Json → String
