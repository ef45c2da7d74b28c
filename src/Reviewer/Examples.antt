-- ===== src/Reviewer/Examples.antt =====
-- Runs of the reviewer on three candidates, and its theorems at those inputs.
use twai_swarm.Prelude.{
  ℕ, ◌≡◌, ◌≢◌, refl, ◌<◌, ◌≤◌, ◌⊎◌, true, false, Option, none, some, List, [], ◌∷◌, String, All, In,
  map, get_elem?, min,
}
use twai_swarm.Reviewer.{
  Candidate, GateReport, checked, threw, GateFailure, Judgement, Judge, Letter, letter_a, letter_b,
  PairwiseResult, agreed, settle, picked, run_reviewer_repo, pick_winner_from_pairwise,
}
use twai_swarm.Reviewer.Tally.{RanksBefore, pick_winner_lem}
use twai_swarm.Reviewer.Pairs.{settle_lem, pair_in, pairs_of, Judged, pairwise_results_lem}
use twai_swarm.Reviewer.Selection.{Passes, failures_of, survivors, winner-Passes, winner_least_bad}

abbrev candidate : String → Option ℕ → Candidate
candidate diff seed = record {
  diff = diff;
  files_with_content = ("a.py", "x = 1") ∷ [];
  coder_seed = seed;
}

abbrev candidates : List Candidate
candidates = candidate "broken" none ∷ candidate "good" (some 2) ∷ candidate "better" (some 4) ∷ []

abbrev failure : GateFailure
failure = record { tool = "ruff"; file = "a.py"; line = some 1; message = "F401" }

-- The candidates with a seed pass.
abbrev seeded : Candidate → GateReport
seeded c = elim c.coder_seed [ none ↦ threw "no seed" | some _ ↦ checked true [] ]

abbrev all_fail : Candidate → GateReport
all_fail c = checked false (failure ∷ [])

-- This judge always prefers the diff shown first.
abbrev first_shown : Judge
first_shown n a b = record {
  letter = some letter_a;
  rationale = "A";
  tokens_in = 10;
  tokens_out = 2;
}

winner-Passes_example :
    (w : ℕ) × (d : Candidate) × ((run_reviewer_repo first_shown seeded candidates).winner_index
      ≡ some w)
    × (get_elem? candidates w ≡ some d)
    × Passes seeded d
    × ((run_reviewer_repo first_shown seeded candidates).fallback_used ≡ false)
winner-Passes_example =
    winner-Passes first_shown seeded candidates 2 (candidate "better" (some 4)) refl ([], refl)

winner_least_bad_example :
    (w : ℕ) × (d : Candidate) × ((run_reviewer_repo first_shown all_fail candidates).winner_index
      ≡ some w)
    × ((run_reviewer_repo first_shown all_fail candidates).fallback_used ≡ true)
    × (get_elem? candidates w ≡ some d)
    × ((i : ℕ) (c : Candidate)
        → get_elem? candidates i ≡ some c
        → (failures_of all_fail d < failures_of all_fail c)
          ⊎ (failures_of all_fail d ≡ failures_of all_fail c) × (w ≤ i))
winner_least_bad_example =
    winner_least_bad first_shown all_fail candidates (λ e. cc e) (λ i c e p. cc p.1)

pairwise_results_lem_example :
    (map pair_in (run_reviewer_repo first_shown seeded candidates).pairwise_results
      ≡ pairs_of (survivors seeded candidates))
    × All
        (Judged first_shown candidates)
        (run_reviewer_repo first_shown seeded candidates).pairwise_results
pairwise_results_lem_example = pairwise_results_lem first_shown seeded candidates

abbrev answer : Option Letter → Judgement
answer l = record { letter = l; rationale = ""; tokens_in = 1; tokens_out = 1 }

settle_lem_example :
    ((settle 1 2 (answer (some letter_a)) (answer (some letter_b))).position_swap_consistent ≡ true)
      × (picked (some letter_a) 1 2
          ≡ some (settle 1 2 (answer (some letter_a)) (answer (some letter_b))).winner)
      × (picked (some letter_b) 2 1
          ≡ some (settle 1 2 (answer (some letter_a)) (answer (some letter_b))).winner)
    ⊎ ((settle 1 2 (answer (some letter_a)) (answer (some letter_b))).position_swap_consistent
        ≡ false)
      × ((settle 1 2 (answer (some letter_a)) (answer (some letter_b))).winner ≡ min 1 2)
      × ((w : ℕ) → picked (some letter_a) 1 2 ≡ some w → picked (some letter_b) 2 1 ≢ some w)
settle_lem_example = settle_lem 1 2 (answer (some letter_a)) (answer (some letter_b))

-- Candidates 1 and 2 met once and both orders preferred 2.
abbrev one_result : List PairwiseResult
one_result =
    record {
      candidate_a = 1;
      candidate_b = 2;
      winner = 2;
      rationale = agreed "B handles the error";
      position_swap_consistent = true;
    }
    ∷ []

pick_winner_lem_example :
    (w : ℕ) × (pick_winner_from_pairwise (1 ∷ 2 ∷ []) one_result ≡ some w)
    × In w (1 ∷ 2 ∷ [])
    × ((s : ℕ) → In s (1 ∷ 2 ∷ []) → RanksBefore one_result w s)
pick_winner_lem_example = pick_winner_lem (1 ∷ 2 ∷ []) one_result (λ e. cc e)
