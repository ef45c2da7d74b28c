-- ===== src/Reviewer/Pairs.antt =====
-- Lemmas on the pairs that go before the judge and on the two answers to each.
use twai_swarm.Prelude.{
  ℕ, suc, ◌≡◌, ◌≢◌, refl, sym, ◌∙◌, ap, ◌⊎◌, inl, inr, true, false, Option, none, some, List, [],
  ◌∷◌, ◌++◌, arith, min, length, All, All-append, map, nat_eq, ==_cases,
}
use mathlib.Core.List.{append_assoc, append-nil}
use twai_swarm.Reviewer.Selection.{survivors}
use twai_swarm.Reviewer.{
  CandidateAssessment, GateReport, survivors_of, assess_all, choose, judge_survivors, least_bad,
  run_reviewer_repo, Judgement, PairwiseResult, Candidate, Judge, Review, picked, same_pick, settle,
  diff_at, pairwise_compare, compare_with, compare_all,
}

same_pick-cases :
    (p q : Option ℕ)
    → (same_pick p q ≡ true) × ((w : ℕ) × (p ≡ some w) × (q ≡ some w))
      ⊎ (same_pick p q ≡ false) × ((w : ℕ) → p ≡ some w → q ≢ some w)
same_pick-cases none q = inr (refl, λ w e. absurd (cc e))
same_pick-cases (some a) none = inr (refl, λ w e f. cc f)
same_pick-cases (some a) (some b) = elim (==_cases a b) [
  | inl (t, e) ↦ inl (t, (b, ap some e, refl))
  | inr (t, n) ↦ inr (t, λ w e f. n (ground (arith, e, f)))
]

-- If the two answers pick the same candidate, it wins and the result is marked consistent; in every
-- other case, an answer that cannot be used included, the lower index wins and the result is not.
pub settle_lem :
    (a b : ℕ) (first second : Judgement)
    → ((settle a b first second).position_swap_consistent ≡ true)
        × (picked first.letter a b ≡ some (settle a b first second).winner)
        × (picked second.letter b a ≡ some (settle a b first second).winner)
      ⊎ ((settle a b first second).position_swap_consistent ≡ false)
        × ((settle a b first second).winner ≡ min a b)
        × ((w : ℕ) → picked first.letter a b ≡ some w → picked second.letter b a ≢ some w)
unfolding settle
settle_lem a b first second =
    elim (same_pick-cases (picked first.letter a b) (picked second.letter b a)) [
      | inl (t, (w, e, f)) ↦ inl (rw t refl, rw t (ground (arith, e)), rw t (ground (arith, e, f)))
      | inr (t, n) ↦ inr (rw t refl, rw t refl, n)
    ]

-- All pairs of a list, each in the list's order.
abbrev pub pairs_of : List ℕ → List (ℕ × ℕ)
pairs_of [] = []
pairs_of (a ∷ rest) = map (λ b. (a, b)) rest ++ pairs_of rest

abbrev pub pair_in : PairwiseResult → ℕ × ℕ
pair_in r = (r.candidate_a, r.candidate_b)

-- Two calls of the judge settled the pair, the second with the diffs swapped.
abbrev pub Judged : Judge → List Candidate → PairwiseResult → Type 0
Judged judge candidates r =
    (n : ℕ) × (r
      ≡ settle r.candidate_a r.candidate_b
          (judge n (diff_at candidates r.candidate_a) (diff_at candidates r.candidate_b))
          (judge (suc n) (diff_at candidates r.candidate_b) (diff_at candidates r.candidate_a)))

settle-pair : (a b : ℕ) (first second : Judgement) → pair_in (settle a b first second) ≡ (a, b)
unfolding settle
settle-pair a b first second = ground arith

map-append :
    (xs ys : List PairwiseResult) → map pair_in (xs ++ ys) ≡ map pair_in xs ++ map pair_in ys
map-append [] ys = refl
map-append (x ∷ xs) ys = ap (λ zs. pair_in x ∷ zs) (map-append xs ys)

module _ (judge : Judge) (candidates : List Candidate) where
  pairwise_compare-pairs :
      (r : Review) (a b : ℕ)
      → map pair_in (pairwise_compare judge candidates r a b).results
        ≡ map pair_in r.results ++ (a, b) ∷ []
  unfolding pairwise_compare
  pairwise_compare-pairs r a b =
      map-append r.results _ ∙ ap (λ p. map pair_in r.results ++ p ∷ []) (settle-pair a b _ _)

  compare_with-pairs :
      (r : Review) (a : ℕ) (bs : List ℕ)
      → map pair_in (compare_with judge candidates r a bs).results
        ≡ map pair_in r.results ++ map (λ b. (a, b)) bs
  unfolding compare_with
  compare_with-pairs r a [] = sym (append-nil _)
  compare_with-pairs r a (b ∷ bs) =
      compare_with-pairs (pairwise_compare judge candidates r a b) a bs
      ∙ ap (λ xs. xs ++ map (λ b. (a, b)) bs) (pairwise_compare-pairs r a b)
      ∙ append_assoc (map pair_in r.results) ((a, b) ∷ []) (map (λ b. (a, b)) bs)

  compare_all-pairs :
      (r : Review) (survivors : List ℕ)
      → map pair_in (compare_all judge candidates r survivors).results
        ≡ map pair_in r.results ++ pairs_of survivors
  unfolding compare_all
  compare_all-pairs r [] = sym (append-nil _)
  compare_all-pairs r (a ∷ rest) =
      compare_all-pairs (compare_with judge candidates r a rest) rest
      ∙ ap (λ xs. xs ++ pairs_of rest) (compare_with-pairs r a rest)
      ∙ append_assoc (map pair_in r.results) (map (λ b. (a, b)) rest) (pairs_of rest)

  settle-Judged :
      (n a b : ℕ)
      → Judged judge candidates (
          settle a b
            (judge n (diff_at candidates a) (diff_at candidates b))
            (judge (suc n) (diff_at candidates b) (diff_at candidates a)))
  unfolding settle
  settle-Judged n a b =
      let first : Judgement = judge n (diff_at candidates a) (diff_at candidates b) in
      let second : Judgement = judge (suc n) (diff_at candidates b) (diff_at candidates a) in
      (
        n,
        rw
            (
              ap (λ (p : ℕ × ℕ). p.0) (settle-pair a b first second),
              ap (λ (p : ℕ × ℕ). p.1) (settle-pair a b first second),
            )
            refl,
      )

  pairwise_compare-Judged :
      (r : Review) (a b : ℕ)
      → All (Judged judge candidates) r.results
      → All (Judged judge candidates) (pairwise_compare judge candidates r a b).results
  unfolding pairwise_compare
  pairwise_compare-Judged r a b h =
      All-append (Judged judge candidates) r.results _ h (settle-Judged r.calls a b, tt)

  compare_with-Judged :
      (r : Review) (a : ℕ) (bs : List ℕ)
      → All (Judged judge candidates) r.results
      → All (Judged judge candidates) (compare_with judge candidates r a bs).results
  unfolding compare_with
  compare_with-Judged r a [] h = h
  compare_with-Judged r a (b ∷ bs) h =
      compare_with-Judged (pairwise_compare judge candidates r a b) a bs
        (pairwise_compare-Judged r a b h)

  compare_all-Judged :
      (r : Review) (survivors : List ℕ)
      → All (Judged judge candidates) r.results
      → All (Judged judge candidates) (compare_all judge candidates r survivors).results
  unfolding compare_all
  compare_all-Judged r [] h = h
  compare_all-Judged r (a ∷ rest) h =
      compare_all-Judged (compare_with judge candidates r a rest) rest
        (compare_with-Judged r a rest h)

  least_bad-pairs : (n : ℕ) (xs : List CandidateAssessment) → (least_bad n xs).pairwise_results ≡ []
  unfolding least_bad
  least_bad-pairs n xs = ground arith

  choose-pairs :
      (xs : List CandidateAssessment) (ws : List ℕ)
      → (map pair_in (choose judge candidates xs ws).pairwise_results ≡ pairs_of ws)
        × All (Judged judge candidates) (choose judge candidates xs ws).pairwise_results
  unfolding choose judge_survivors
  choose-pairs xs [] = rw (least_bad-pairs (length candidates) xs) (refl, tt)
  choose-pairs xs (w ∷ []) = (refl, tt)
  choose-pairs xs (w ∷ x ∷ rest) =
      let none_yet : Review = record { results = []; calls = 0; tokens_in = 0; tokens_out = 0 } in
      (compare_all-pairs none_yet (w ∷ x ∷ rest), compare_all-Judged none_yet (w ∷ x ∷ rest) tt)

-- The judge's part of run_reviewer_repo: every pair of the candidates that pass the gate goes before
-- the judge once, in order, and each result is what two calls, the second with the diffs swapped,
-- settle; where fewer than two candidates pass, there is no result.
pub pairwise_results_lem :
    (judge : Judge) (gate : Candidate → GateReport) (cs : List Candidate)
    → (map pair_in (run_reviewer_repo judge gate cs).pairwise_results
        ≡ pairs_of (survivors gate cs))
      × All (Judged judge cs) (run_reviewer_repo judge gate cs).pairwise_results
unfolding run_reviewer_repo
pairwise_results_lem judge gate [] = (unfold survivors_of assess_all in refl, tt)
pairwise_results_lem judge gate (c ∷ cs) =
    choose-pairs judge (c ∷ cs) (assess_all gate 0 (c ∷ cs)) (survivors gate (c ∷ cs))
