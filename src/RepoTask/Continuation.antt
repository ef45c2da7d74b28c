-- ===== src/RepoTask/Continuation.antt =====
-- Lemmas on the loop of Critic and Coder.
use mathlib.Core.List.{reverse}
use twai_swarm.Prelude.{
  ℕ, zero, suc, ◌+◌, ◌≤◌, ◌<◌, ◌≡◌, ◌≢◌, refl, ◌∙◌, ap, ◌⊎◌, inl, inr, String, Bool, true, false,
  ◌&&◌, ◌||◌, List, [], ◌∷◌, arith, nat_eq, string_eq, ◌==◌, ==_cases, ltb, length, Bool-cases,
}
use twai_swarm.RepoTask.{
  max_continuations, plan_of, selected, looped, RepoTaskInput, ArchitectPlan, CriticResult, Call,
  Activities, Loop, run_critic, is_complete, no_progress, must_stop, continue_coder, critic_loop,
  start_loop, run,
}

abbrev pub passed : CriticResult → ℕ
passed c = length c.passed_criteria

-- Of verdicts with the latest first: none is complete, and each passes strictly more criteria than
-- the one before it.
abbrev pub Progress : List CriticResult → Type 0
Progress [] = Unit
Progress (c ∷ []) = c.verdict ≢ "complete"
Progress (c ∷ prev ∷ rest) =
    (c.verdict ≢ "complete") × (passed prev < passed c) × Progress (prev ∷ rest)

-- Why the loop ended with the verdict `last`, after those `before` it.
abbrev pub Stopped : CriticResult → List CriticResult → Type 0
Stopped last before =
    (last.verdict ≡ "complete")
    ⊎ (length before ≡ max_continuations)
    ⊎ ((prev : CriticResult) × (rest : List CriticResult) × (before ≡ prev ∷ rest)
        × (passed last ≤ passed prev))

-- The state in which the loop ends.
pub record Finished (acts : Activities) (plan : ArchitectPlan) (brief : String) (s : Loop)
    : Type 0 where
  pub last : CriticResult
  pub before : List CriticResult
  pub results : s.critic_results ≡ last ∷ before
  pub counted : length before ≡ s.continuation_count
  pub bounded : s.continuation_count ≤ max_continuations
  pub progress : Progress before
  pub judged : (calls : List Call) × (last ≡ acts.critic calls plan s.coder_result brief)
  pub stopped : Stopped last before

module _ (acts : Activities) (plan : ArchitectPlan) (brief : String) where
  goes_on :
      (c : CriticResult) (before : List CriticResult) (count : ℕ)
      → length before ≡ count
      → Progress before
      → (is_complete (c ∷ before)
          || count == max_continuations
          || ltb 0 count && no_progress (c ∷ before))
        ≡ false
      → (count ≢ max_continuations) × Progress (c ∷ before)
  goes_on c [] count n p h =
      (ground (arith, n, h), λ e. ground (arith, n, h, string_eq.same_iff c.verdict "complete"))
  goes_on c (prev ∷ rest) count n p h = (
    ground (arith, n, h),
    (λ e. ground (arith, n, h, string_eq.same_iff c.verdict "complete"), ground (arith, n, h), p),
  )

  stops :
      (c : CriticResult) (before : List CriticResult) (count : ℕ)
      → length before ≡ count
      → (is_complete (c ∷ before)
          || count == max_continuations
          || ltb 0 count && no_progress (c ∷ before))
        ≡ true
      → Stopped c before
  stops c [] count n h = ground (arith, n, h, string_eq.same_iff c.verdict "complete")
  stops c (prev ∷ rest) count n h = elim (Bool-cases (c.verdict == "complete")) [
    | inl t ↦ inl ((string_eq.same_iff c.verdict "complete").0 t)
    | inr f ↦ elim (==_cases count max_continuations) [
      | inl (_, e) ↦ inr (inl (n ∙ e))
      | inr (g, _) ↦ inr (inr (prev, rest, refl, ground (arith, f, g, h)))
    ]
  ]

  pub critic_loop-Finished :
      (left : ℕ) (s : Loop)
      → s.continuation_count + left ≡ suc max_continuations
      → s.continuation_count ≤ max_continuations
      → length s.critic_results ≡ s.continuation_count
      → Progress s.critic_results
      → Finished acts plan brief (critic_loop acts plan brief left s)
  unfolding critic_loop
  critic_loop-Finished zero s e b n p = absurd (omega (arith, e, b))
  critic_loop-Finished (suc left) s e b n p = elim (Bool-cases (must_stop judged)) [
    | inl t ↦ rw t (record {
      last = last;
      before = s.critic_results;
      results = unfold run_critic in refl;
      counted = unfold run_critic in n;
      bounded = unfold run_critic in b;
      progress = p;
      judged = (s.calls, unfold run_critic in refl);
      stopped =
          stops last s.critic_results s.continuation_count n (unfold must_stop run_critic in t);
    })
    | inr f ↦
        let (more, q) =
          goes_on last s.critic_results s.continuation_count n p
            (unfold must_stop run_critic in f) in
        rw f (
          critic_loop-Finished left (continue_coder acts plan judged)
            (unfold continue_coder run_critic in omega (arith, e))
            (unfold continue_coder run_critic in omega (arith, b, more))
            (unfold continue_coder run_critic in ap suc n) (unfold continue_coder run_critic in q))
  ]
    where
      judged : Loop
      judged = run_critic acts plan brief s

      last : CriticResult
      last = acts.critic s.calls plan s.coder_result brief

pub looped-Finished :
    (infer : String → Bool) (acts : Activities) (inp : RepoTaskInput)
    → Finished acts (plan_of acts inp) inp.brief (looped infer acts inp)
looped-Finished infer acts inp =
    critic_loop-Finished acts (plan_of acts inp) inp.brief (suc max_continuations)
      (start_loop (selected infer acts inp)) refl (omega arith) refl tt

-- What the output of a run tells about its verdicts.
pub record Ended (infer : String → Bool) (acts : Activities) (inp : RepoTaskInput) : Type 0 where
  pub last : CriticResult
  pub before : List CriticResult
  pub results : (run infer acts inp).critic_results ≡ reverse (last ∷ before)
  pub counted : length before ≡ (run infer acts inp).continuation_count
  pub bounded : (run infer acts inp).continuation_count ≤ max_continuations
  pub progress : Progress before
  pub judged :
      (calls : List Call) × (last
        ≡ acts.critic calls
            (run infer acts inp).architect_plan
            (run infer acts inp).coder_result
            inp.brief)
  pub stopped : Stopped last before

-- A run of the workflow reports at least one verdict and exactly one more than the continuations,
-- of which there are at most two. The last verdict is on the very result that the run returns. No
-- earlier verdict is "complete", and each earlier one passes strictly more criteria than the one
-- before it. The last is "complete", or the two continuations are used up, or it passes no more
-- criteria than the one before.
pub run-Ended :
    (infer : String → Bool) (acts : Activities) (inp : RepoTaskInput) → Ended infer acts inp
unfolding run
run-Ended infer acts inp = record {
  last = f.last;
  before = f.before;
  results = ap reverse f.results;
  counted = f.counted;
  bounded = f.bounded;
  progress = f.progress;
  judged = f.judged;
  stopped = f.stopped;
}
  where
    f : Finished acts (plan_of acts inp) inp.brief (looped infer acts inp)
    f = looped-Finished infer acts inp
