-- ===== src/Reviewer/Types.antt =====
-- The dataclasses of reviewer_repo.py.
use twai_swarm.Prelude.{ℕ, String, Bool, Option, List, nat_eq}

pub record GateFailure : Type 0 where
  pub tool : String
  pub file : String
  pub line : Option ℕ
  pub message : String

-- The fields of a Coder's result that the reviewer reads.
pub record Candidate : Type 0 where
  pub diff : String
  pub files_with_content : List (String × String)
  pub coder_seed : Option ℕ

pub record CandidateAssessment : Type 0 where
  pub candidate_index : ℕ
  pub seed : ℕ
  pub deterministic_gate_passed : Bool
  pub gate_failures : List GateFailure
  pub files_changed_count : ℕ
  pub diff_size_bytes : ℕ

-- The letter of a judge's answer, and `none` where the answer cannot be used.
pub data Letter : Type 0 where
  letter_a letter_b : Letter

pub record Judgement : Type 0 where
  pub letter : Option Letter
  pub rationale : String
  pub tokens_in : ℕ
  pub tokens_out : ℕ

pub data PairRationale : Type 0 where
  agreed : String → PairRationale
  disagreed : Option ℕ → Option ℕ → ℕ → String → String → PairRationale

pub record PairwiseResult : Type 0 where
  pub candidate_a : ℕ
  pub candidate_b : ℕ
  pub winner : ℕ
  pub rationale : PairRationale
  pub position_swap_consistent : Bool

pub data ReviewRationale : Type 0 where
  no_candidates : ReviewRationale
  all_failed : ℕ → ℕ → ℕ → ReviewRationale
  only_survivor : ℕ → ReviewRationale
  best_of : ℕ → ℕ → ℕ → ℕ → ReviewRationale

-- `cost` is in millionths of a dollar, in which the code's `round(..., 6)` is exact.
pub record ReviewerRepoOutput : Type 0 where
  pub winner_index : Option ℕ
  pub candidate_assessments : List CandidateAssessment
  pub pairwise_results : List PairwiseResult
  pub rationale : ReviewRationale
  pub fallback_used : Bool
  pub tokens_in : ℕ
  pub tokens_out : ℕ
  pub cost : ℕ
