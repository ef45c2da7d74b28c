-- ===== src/Reviewer.antt =====
-- app/agents/reviewer_repo.py: the choice of one of the candidates that the parallel Coders made.
-- Texts that the code formats for people are kept as the data that they are formatted from.
pub mod Types
pub mod Tally
pub mod Pairs
pub mod Selection
mod Examples
unfoldable pub use Types.*
use Prim.Native.String
use twai_swarm.Prelude.{
  ℕ, zero, suc, ◌+◌, ◌*◌, min, String, Bool, true, false, not, ◌&&◌, ◌||◌, Option, none, some, List,
  [], ◌∷◌, ◌++◌, nat_eq, ◌==◌, ltb, leb, Dict, lookup, insert, get_or, is_some, length, get_elem?,
  head?, sort_by, if◌then◌else◌,
}

-- What the gate reports on the scratch directory of a candidate, or that it threw.
pub data GateReport : Type 0 where
  checked : Bool → List GateFailure → GateReport
  threw : String → GateReport

-- `str(f.get("path", ""))` for the files with a path.
unfoldable pub files_changed : List (String × String) → List String
files_changed [] = []
files_changed ((String.[], _) ∷ rest) = files_changed rest
files_changed ((String.◌∷◌ c s, _) ∷ rest) = String.◌∷◌ c s ∷ files_changed rest

unfoldable pub assess_candidate : (Candidate → GateReport) → Candidate → ℕ → ℕ → CandidateAssessment
assess_candidate gate candidate candidate_index seed =
    let changed = files_changed candidate.files_with_content in
    elim (gate candidate) [
      | checked passed failures ↦ record {
        candidate_index = candidate_index;
        seed = seed;
        deterministic_gate_passed = passed;
        gate_failures = failures;
        files_changed_count = length changed;
        diff_size_bytes = String.len candidate.diff;
      }
      | threw error ↦ record {
        candidate_index = candidate_index;
        seed = seed;
        deterministic_gate_passed = false;
        gate_failures =
            record { tool = "(unknown)"; file = "(scratch-dir)"; line = none; message = error }
            ∷ [];
        files_changed_count = length changed;
        diff_size_bytes = String.len candidate.diff;
      }
    ]

-- `enumerate(candidates)`
unfoldable pub assess_all : (Candidate → GateReport) → ℕ → List Candidate → List CandidateAssessment
assess_all gate i [] = []
assess_all gate i (c ∷ cs) =
    assess_candidate gate c i (get_or i c.coder_seed) ∷ assess_all gate (suc i) cs

unfoldable pub survivors_of : List CandidateAssessment → List ℕ
survivors_of [] = []
survivors_of (a ∷ rest) =
    let others = survivors_of rest in
    if a.deterministic_gate_passed then a.candidate_index ∷ others else others

-- The key `(len(gate_failures), candidate_index)`.
unfoldable pub fewest_failures : CandidateAssessment → CandidateAssessment → Bool
fewest_failures a b =
    ltb (length a.gate_failures) (length b.gate_failures)
    || length a.gate_failures == length b.gate_failures && leb a.candidate_index b.candidate_index

-- Which candidate an answer picks, where A was shown as `idx_a` and B as `idx_b`.
abbrev pub picked : Option Letter → ℕ → ℕ → Option ℕ
picked none idx_a idx_b = none
picked (some letter_a) idx_a idx_b = some idx_a
picked (some letter_b) idx_a idx_b = some idx_b

abbrev pub same_pick : Option ℕ → Option ℕ → Bool
same_pick (some a) (some b) = a == b
same_pick _ _ = false

-- `pick1` where both picks are it, or the lower index.
unfoldable pub settle : ℕ → ℕ → Judgement → Judgement → PairwiseResult
settle idx_a idx_b first second =
    let pick1 = picked first.letter idx_a idx_b in
    let pick2 = picked second.letter idx_b idx_a in
    if same_pick pick1 pick2
    then record {
      candidate_a = idx_a;
      candidate_b = idx_b;
      winner = get_or idx_a pick1;
      rationale = agreed first.rationale;
      position_swap_consistent = true;
    }
    else record {
      candidate_a = idx_a;
      candidate_b = idx_b;
      winner = min idx_a idx_b;
      rationale = disagreed pick1 pick2 (min idx_a idx_b) first.rationale second.rationale;
      position_swap_consistent = false;
    }

-- The judge is a model behind an API: its answer may depend on the calls before, which are counted.
abbrev pub Judge : Type 0
Judge = ℕ → String → String → Judgement

abbrev pub diff_at : List Candidate → ℕ → String
diff_at candidates i = elim (get_elem? candidates i) [ none ↦ "" | some c ↦ c.diff ]

-- The results so far, the calls made, and the tokens spent.
pub record Review : Type 0 where
  pub results : List PairwiseResult
  pub calls : ℕ
  pub tokens_in : ℕ
  pub tokens_out : ℕ

unfoldable pub pairwise_compare : Judge → List Candidate → Review → ℕ → ℕ → Review
pairwise_compare judge candidates r idx_a idx_b =
    let diff_a = diff_at candidates idx_a in
    let diff_b = diff_at candidates idx_b in
    let first = judge r.calls diff_a diff_b in
    let second = judge (suc r.calls) diff_b diff_a in
    record {
      results = r.results ++ settle idx_a idx_b first second ∷ [];
      calls = suc (suc r.calls);
      tokens_in = r.tokens_in + (first.tokens_in + second.tokens_in);
      tokens_out = r.tokens_out + (first.tokens_out + second.tokens_out);
    }

-- The inner loop: one survivor against those after it.
unfoldable pub compare_with : Judge → List Candidate → Review → ℕ → List ℕ → Review
compare_with judge candidates r idx_a [] = r
compare_with judge candidates r idx_a (idx_b ∷ rest) =
    compare_with judge candidates (pairwise_compare judge candidates r idx_a idx_b) idx_a rest

unfoldable pub compare_all : Judge → List Candidate → Review → List ℕ → Review
compare_all judge candidates r [] = r
compare_all judge candidates r (idx_a ∷ rest) =
    compare_all judge candidates (compare_with judge candidates r idx_a rest) rest

-- `{idx: 0 for idx in survivors}`
unfoldable pub zeros : List ℕ → Dict ℕ ℕ → Dict ℕ ℕ
zeros [] d = d
zeros (idx ∷ rest) d = zeros rest (insert idx 0 d)

pub record Counts : Type 0 where
  pub win_count : Dict ℕ ℕ
  pub consistent_win_count : Dict ℕ ℕ

abbrev pub bump : ℕ → Dict ℕ ℕ → Dict ℕ ℕ
bump idx d = insert idx (suc (get_or 0 (lookup idx d))) d

unfoldable pub count_result : Counts → PairwiseResult → Counts
count_result c pr =
    if is_some (lookup pr.winner c.win_count)
    then record {
      win_count = bump pr.winner c.win_count;
      consistent_win_count =
          if pr.position_swap_consistent
          then bump pr.winner c.consistent_win_count
          else c.consistent_win_count;
    }
    else c

unfoldable pub count_results : Counts → List PairwiseResult → Counts
count_results c [] = c
count_results c (pr ∷ rest) = count_results (count_result c pr) rest

-- The key `(-win_count, -consistent_win_count, idx)`.
unfoldable pub ranks_before : Counts → ℕ → ℕ → Bool
ranks_before c i j =
    let wi = get_or 0 (lookup i c.win_count) in
    let wj = get_or 0 (lookup j c.win_count) in
    let ci = get_or 0 (lookup i c.consistent_win_count) in
    let cj = get_or 0 (lookup j c.consistent_win_count) in
    ltb wj wi || wi == wj && (ltb cj ci || ci == cj && leb i j)

unfoldable pub pick_winner_from_pairwise : List ℕ → List PairwiseResult → Option ℕ
pick_winner_from_pairwise survivors pairwise_results =
    let start : Counts = record {
      win_count = zeros survivors [];
      consistent_win_count = zeros survivors [];
    } in
    head? (sort_by (ranks_before (count_results start pairwise_results)) survivors)

-- `sum(1 for pr in pairwise_results if pr.winner == winner_idx)`
unfoldable pub wins_of : ℕ → List PairwiseResult → ℕ
wins_of idx [] = 0
wins_of idx (pr ∷ rest) = let n = wins_of idx rest in if pr.winner == idx then suc n else n

abbrev pub plain_output :
    Option ℕ → List CandidateAssessment → ReviewRationale → Bool → ReviewerRepoOutput
plain_output winner assessments rationale fallback = record {
  winner_index = winner;
  candidate_assessments = assessments;
  pairwise_results = [];
  rationale = rationale;
  fallback_used = fallback;
  tokens_in = 0;
  tokens_out = 0;
  cost = 0;
}

-- Stage 1 left no candidate: the one with the fewest failures.
unfoldable pub least_bad : ℕ → List CandidateAssessment → ReviewerRepoOutput
least_bad n assessments = elim (head? (sort_by fewest_failures assessments)) [
  | none ↦ plain_output none assessments no_candidates false
  | some w ↦
      plain_output (some w.candidate_index) assessments
        (all_failed n w.candidate_index (length w.gate_failures)) true
]

-- Stage 2: every pair of survivors goes before the judge.
unfoldable pub judge_survivors :
    Judge → List Candidate → List CandidateAssessment → List ℕ → ReviewerRepoOutput
judge_survivors judge candidates assessments survivors =
    let r =
      compare_all judge candidates
        (record { results = []; calls = 0; tokens_in = 0; tokens_out = 0 }) survivors in
    let winner = pick_winner_from_pairwise survivors r.results in
    record {
      winner_index = winner;
      candidate_assessments = assessments;
      pairwise_results = r.results;
      rationale =
          best_of (get_or 0 winner) (wins_of (get_or 0 winner) r.results) (length r.results)
            (length survivors);
      fallback_used = false;
      tokens_in = r.tokens_in;
      tokens_out = r.tokens_out;
      cost = r.tokens_in * 3 + r.tokens_out * 15;
    }

-- The two stages, by how many candidates passed the gate.
unfoldable pub choose :
    Judge → List Candidate → List CandidateAssessment → List ℕ → ReviewerRepoOutput
choose judge candidates assessments [] = least_bad (length candidates) assessments
choose judge candidates assessments (w ∷ []) =
    plain_output (some w) assessments (only_survivor w) false
choose judge candidates assessments (w ∷ x ∷ rest) =
    judge_survivors judge candidates assessments (w ∷ x ∷ rest)

unfoldable pub run_reviewer_repo :
    Judge → (Candidate → GateReport) → List Candidate → ReviewerRepoOutput
run_reviewer_repo judge gate [] = plain_output none [] no_candidates false
run_reviewer_repo judge gate (c ∷ cs) =
    let assessments = assess_all gate 0 (c ∷ cs) in
    choose judge (c ∷ cs) assessments (survivors_of assessments)
