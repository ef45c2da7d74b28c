-- ===== src/RepoTask/Selection.antt =====
-- Lemmas on the choice among the parallel Coders.
use twai_swarm.Prelude.{
  ℕ, zero, suc, ◌+◌, ◌≤◌, ◌<◌, ◌≡◌, refl, sym, ◌∙◌, ap, subst, ◌⊎◌, inl, inr, String, Option, none,
  some, List, [], ◌∷◌, ◌++◌, arith, map, get_elem?,
}
use twai_swarm.Reviewer.{Candidate, GateReport, Judge, ReviewerRepoOutput, run_reviewer_repo}
use twai_swarm.Reviewer.Selection.{Passes, winner-Passes}
use twai_swarm.RepoTask.{
  ArchitectPlan, CoderResult, Call, Activities, best_of_n_default, run_coders, coder_calls,
  pick_candidate, select_best_of_n,
}

abbrev pub candidate_of : CoderResult → Candidate
candidate_of c = record {
  diff = c.diff;
  files_with_content = c.files_with_content;
  coder_seed = c.coder_seed;
}

below : (i n : ℕ) → (i < n) ⊎ (n ≤ i)
below i n = ground arith

run_coders-at :
    (acts : Activities) (calls : List Call) (plan : ArchitectPlan) (brief : String) (seed n i : ℕ)
    → i < n
    → get_elem? (run_coders acts calls plan brief seed n) i
      ≡ some (acts.coder calls plan brief (some (seed + i)))
unfolding run_coders
run_coders-at acts calls plan brief seed zero i h = absurd (omega arith)
run_coders-at acts calls plan brief seed (suc n) zero h = ground arith
run_coders-at acts calls plan brief seed (suc n) (suc i) h =
    run_coders-at acts calls plan brief (suc seed) n i (omega arith)
    ∙ ap (λ k. some (acts.coder calls plan brief (some k))) (omega arith)

run_coders-past :
    (acts : Activities) (calls : List Call) (plan : ArchitectPlan) (brief : String) (seed n i : ℕ)
    → n ≤ i
    → get_elem? (run_coders acts calls plan brief seed n) i ≡ none
unfolding run_coders
run_coders-past acts calls plan brief seed zero i h = refl
run_coders-past acts calls plan brief seed (suc n) zero h = absurd (omega arith)
run_coders-past acts calls plan brief seed (suc n) (suc i) h =
    run_coders-past acts calls plan brief (suc seed) n i (omega arith)

module _ (acts : Activities) (calls : List Call) (plan : ArchitectPlan) (brief : String) where
  abbrev pub candidates_of : List CoderResult
  candidates_of = run_coders acts calls plan brief 0 best_of_n_default

  -- The index that the reviewer answers.
  abbrev pub reviewed : Option ℕ
  reviewed =
      (acts.reviewer (calls ++ coder_calls brief 0 best_of_n_default) plan
        candidates_of).winner_index

  -- Best-of-N goes on with the result of the Coder whose seed the reviewer answers, and with that of
  -- seed 0 if the reviewer answers no index or one that is not below three.
  pub select_best_of_n-seed :
      (seed : ℕ) × (seed < best_of_n_default)
      × ((select_best_of_n acts calls plan brief).coder_result
          ≡ acts.coder calls plan brief (some seed))
      × ((reviewed ≡ some seed)
          ⊎ (seed ≡ 0) × ((i : ℕ) → reviewed ≡ some i → best_of_n_default ≤ i))
  unfolding select_best_of_n
  select_best_of_n-seed = go reviewed refl
    where
      Goal : Option ℕ → Type 0
      Goal w =
          (seed : ℕ) × (seed < best_of_n_default)
          × (pick_candidate (acts.coder calls plan brief (some 0)) candidates_of w
              ≡ acts.coder calls plan brief (some seed))
          × ((reviewed ≡ some seed)
              ⊎ (seed ≡ 0) × ((i : ℕ) → reviewed ≡ some i → best_of_n_default ≤ i))

      go : (w : Option ℕ) → reviewed ≡ w → Goal w
      go none e =
          (0, omega arith, unfold pick_candidate in refl, inr (refl, λ i q. ground (arith, e, q)))
      go (some i) e = elim (below i best_of_n_default) [
        | inl h ↦ (
          i,
          h,
          unfold pick_candidate in
              ground (arith, run_coders-at acts calls plan brief 0 best_of_n_default i h),
          inl e,
        )
        | inr h ↦ (
          0,
          omega arith,
          unfold pick_candidate in
              ground (arith, run_coders-past acts calls plan brief 0 best_of_n_default i h),
          inr (refl, λ j q. ground (arith, e, q, h)),
        )
      ]

  -- What the reviewer reads of a Coder's result.
  get_elem?-map :
      (xs : List CoderResult) (i : ℕ) (d : Candidate)
      → get_elem? (map candidate_of xs) i ≡ some d
      → (c : CoderResult) × (get_elem? xs i ≡ some c) × (d ≡ candidate_of c)
  get_elem?-map [] i d e = absurd (cc e)
  get_elem?-map (x ∷ xs) zero d e = (x, refl, ground (arith, e))
  get_elem?-map (x ∷ xs) (suc i) d e = get_elem?-map xs i d e

  map-get_elem? :
      (xs : List CoderResult) (i : ℕ) (c : CoderResult)
      → get_elem? xs i ≡ some c
      → get_elem? (map candidate_of xs) i ≡ some (candidate_of c)
  map-get_elem? [] i c e = absurd (cc e)
  map-get_elem? (x ∷ xs) zero c e = ground (arith, e)
  map-get_elem? (x ∷ xs) (suc i) c e = map-get_elem? xs i c e

  -- With run_reviewer_repo as the reviewer, over any judge: if the result of one of the three Coders
  -- passes the deterministic gate, then the result that the workflow goes on with passes it.
  pub select_best_of_n-Passes :
      (judge : Judge) (gate : Candidate → GateReport) (seed : ℕ)
      → ((before : List Call) (cs : List CoderResult)
          → acts.reviewer before plan cs ≡ run_reviewer_repo judge gate (map candidate_of cs))
      → seed < best_of_n_default
      → Passes gate (candidate_of (acts.coder calls plan brief (some seed)))
      → Passes gate (candidate_of (select_best_of_n acts calls plan brief).coder_result)
  unfolding select_best_of_n
  select_best_of_n-Passes judge gate seed same h p =
      let (w, d, e, at, q, _) =
        winner-Passes judge gate (map candidate_of candidates_of) seed
          (candidate_of (acts.coder calls plan brief (some seed)))
          (map-get_elem? candidates_of seed (acts.coder calls plan brief (some seed)) (
            run_coders-at acts calls plan brief 0 best_of_n_default seed h
            ∙ ap (λ k. some (acts.coder calls plan brief (some k))) (omega arith)))
          p in
      let (c, found, is_c) = get_elem?-map candidates_of w d at in
      let index : reviewed ≡ some w =
        ap (λ (r : ReviewerRepoOutput). r.winner_index)
          (same (calls ++ coder_calls brief 0 best_of_n_default) candidates_of)
        ∙ e in
      let picked : (select_best_of_n acts calls plan brief).coder_result ≡ c =
        unfold select_best_of_n pick_candidate in ground (arith, index, found) in
      subst (λ r. Passes gate (candidate_of r)) (sym picked) (subst (Passes gate) is_c q)
