-- ===== src/RepoTask/Calls.antt =====
-- Lemmas on how many calls of each kind a run makes.
use twai_swarm.Prelude.{
  ℕ, zero, suc, ◌+◌, ◌≤◌, ◌≡◌, refl, String, Bool, true, not, ◌&&◌, List, [], ◌∷◌, ◌++◌, arith,
  if◌then◌else◌, Bool-cases, inl, inr, none,
}
use twai_swarm.RepoTask.{
  max_continuations, RepoTaskInput, ArchitectPlan, CoderResult, Call, clone_repo, index_repo,
  architect_repo_task, documenter_repo_task, run_repo_coder, critic_repo_task, push_repo_changes,
  Activities, Loop, Selected, Pushed, plan_of, selected, looped, PushRequest, push_request, latest,
  is_cross_cutting, is_empty, run_critic, must_stop, continue_coder, critic_loop, start_loop,
  select, select_single, select_best_of_n, push_step, run,
}
use twai_swarm.RepoTask.Continuation.{run-Ended}

abbrev pub is_coder : Call → ℕ
is_coder (run_repo_coder _ _) = 1
is_coder _ = 0

abbrev pub is_critic : Call → ℕ
is_critic (critic_repo_task _) = 1
is_critic _ = 0

abbrev pub is_push : Call → ℕ
is_push (push_repo_changes _) = 1
is_push _ = 0

-- How many of the calls are of the kind.
pub tally : (Call → ℕ) → List Call → ℕ
tally kind [] = 0
tally kind (c ∷ cs) = kind c + tally kind cs

tally-append :
    (kind : Call → ℕ) (xs ys : List Call) → tally kind (xs ++ ys) ≡ tally kind xs + tally kind ys
unfolding tally
tally-append kind [] ys = omega arith
tally-append kind (x ∷ xs) ys = omega (arith, tally-append kind xs ys)

-- What one more call adds.
tally-snoc :
    (kind : Call → ℕ) (xs : List Call) (c : Call)
    → tally kind (xs ++ c ∷ []) ≡ tally kind xs + kind c
unfolding tally
tally-snoc kind xs c = omega (arith, tally-append kind xs (c ∷ []))

-- The sum over a loop: each kind grows with the counter that belongs to it.
record Tallied (s after : Loop) : Type 0 where
  coders :
      tally is_coder after.calls + s.continuation_count
      ≡ tally is_coder s.calls + after.continuation_count
  critics :
      tally is_critic after.calls + s.continuation_count
      ≡ suc (tally is_critic s.calls + after.continuation_count)
  pushes : tally is_push after.calls ≡ tally is_push s.calls

module _ (acts : Activities) (plan : ArchitectPlan) (brief : String) where
  run_critic-Tallied : (s : Loop) → Tallied s (run_critic acts plan brief s)
  unfolding run_critic
  run_critic-Tallied s = record {
    coders = omega (arith, tally-snoc is_coder s.calls (critic_repo_task s.coder_result.diff));
    critics = omega (arith, tally-snoc is_critic s.calls (critic_repo_task s.coder_result.diff));
    pushes = omega (arith, tally-snoc is_push s.calls (critic_repo_task s.coder_result.diff));
  }

  -- The calls up to the next turn of the loop.
  record Turned (s after : Loop) : Type 0 where
    coders : tally is_coder after.calls ≡ suc (tally is_coder s.calls)
    critics : tally is_critic after.calls ≡ suc (tally is_critic s.calls)
    pushes : tally is_push after.calls ≡ tally is_push s.calls
    counts : after.continuation_count ≡ suc s.continuation_count

  continue_coder-Turned :
      (s : Loop) → Turned s (continue_coder acts plan (run_critic acts plan brief s))
  unfolding continue_coder run_critic
  continue_coder-Turned s = record {
    coders = omega (arith, added is_coder);
    critics = omega (arith, added is_critic);
    pushes = omega (arith, added is_push);
    counts = refl;
  }
    where
      judged : List Call
      judged = s.calls ++ critic_repo_task s.coder_result.diff ∷ []

      prompt : String
      prompt = (acts.critic s.calls plan s.coder_result brief).continuation_prompt

      added :
          (kind : Call → ℕ)
          → tally kind (judged ++ run_repo_coder prompt none ∷ [])
            ≡ kind (critic_repo_task s.coder_result.diff)
              + kind (run_repo_coder prompt none)
              + tally kind s.calls
      added kind = omega (
        arith,
        tally-snoc kind judged (run_repo_coder prompt none),
        tally-snoc kind s.calls (critic_repo_task s.coder_result.diff),
      )

  Turned-Tallied :
      (s middle after : Loop) → Turned s middle → Tallied middle after → Tallied s after
  Turned-Tallied s middle after t r = record {
    coders = omega (arith, t.coders, t.counts, r.coders);
    critics = omega (arith, t.critics, t.counts, r.critics);
    pushes = omega (arith, t.pushes, r.pushes);
  }

  last_turn :
      (s : Loop)
      → s.continuation_count ≡ max_continuations
      → must_stop (run_critic acts plan brief s) ≡ true
  unfolding must_stop run_critic
  last_turn s e = ground (arith, e)

  critic_loop-Tallied :
      (left : ℕ) (s : Loop)
      → s.continuation_count + left ≡ max_continuations
      → Tallied s (critic_loop acts plan brief (suc left) s)
  unfolding critic_loop
  critic_loop-Tallied zero s e = rw (last_turn s (omega (arith, e))) (run_critic-Tallied s)
  critic_loop-Tallied (suc left) s e =
      elim (Bool-cases (must_stop (run_critic acts plan brief s))) [
        | inl t ↦ rw t (run_critic-Tallied s)
        | inr f ↦
            let t = continue_coder-Turned s in
            rw f (
              Turned-Tallied s (continue_coder acts plan (run_critic acts plan brief s)) _ t (
                critic_loop-Tallied left (continue_coder acts plan (run_critic acts plan brief s))
                  (omega (arith, t.counts, e))))
      ]

-- The calls before the loop.
record Started (sel : Selected) : Type 0 where
  coders : tally is_coder sel.calls ≡ sel.best_of_n_count
  critics : tally is_critic sel.calls ≡ 0
  pushes : tally is_push sel.calls ≡ 0
  at_most : sel.best_of_n_count ≤ 3

abbrev before_coders : List Call
before_coders = clone_repo ∷ index_repo ∷ architect_repo_task ∷ []

select-Started :
    (infer : String → Bool) (acts : Activities) (plan : ArchitectPlan) (inp : RepoTaskInput)
    → Started (select infer acts before_coders plan inp)
unfolding select
select-Started infer acts plan inp =
    elim (Bool-cases (is_cross_cutting infer plan inp.brief && not inp.disable_best_of_n)) [
      | inl t ↦ rw t (
          unfold select_best_of_n tally in
          record { coders = refl; critics = refl; pushes = refl; at_most = omega arith })
      | inr t ↦ rw t (
          unfold select_single tally in
          record { coders = refl; critics = refl; pushes = refl; at_most = omega arith })
    ]

-- How often a run pushes.
abbrev pub pushes_of : RepoTaskInput → CoderResult → ℕ
pushes_of inp c = if inp.auto_pr && not (is_empty c.files_with_content) then 1 else 0

record PushTallied (inp : RepoTaskInput) (s : Loop) (p : Pushed) : Type 0 where
  coders : tally is_coder p.calls ≡ tally is_coder s.calls
  critics : tally is_critic p.calls ≡ tally is_critic s.calls
  pushes : tally is_push p.calls ≡ tally is_push s.calls + pushes_of inp s.coder_result

push_step-PushTallied :
    (acts : Activities) (plan : ArchitectPlan) (inp : RepoTaskInput) (sel : Selected) (s : Loop)
    → PushTallied inp s (push_step acts plan inp sel s)
unfolding push_step
push_step-PushTallied acts plan inp sel s = elim (Bool-cases inp.auto_pr) [
  | inr off ↦ simp off (record { coders = refl; critics = refl; pushes = ground (arith, off) })
  | inl on ↦ elim (Bool-cases (is_empty s.coder_result.files_with_content)) [
    | inl none_changed ↦
        simp (on, none_changed)
          (record { coders = refl; critics = refl; pushes = ground (arith, on, none_changed) })
    | inr changed ↦
        simp (on, changed)
          (record {
            coders = omega (arith, added is_coder);
            critics = omega (arith, added is_critic);
            pushes = ground (arith, added is_push, on, changed);
          })
  ]
]
  where
    request : PushRequest
    request =
        push_request inp sel s
          (acts.documenter s.calls plan s.coder_result (latest s.critic_results))

    added :
        (kind : Call → ℕ)
        → tally kind ((s.calls ++ documenter_repo_task ∷ []) ++ push_repo_changes request ∷ [])
          ≡ tally kind s.calls + kind documenter_repo_task + kind (push_repo_changes request)
    added kind = omega (
      arith,
      tally-snoc kind (s.calls ++ documenter_repo_task ∷ []) (push_repo_changes request),
      tally-snoc kind s.calls documenter_repo_task,
    )

-- A run calls the Critic once more than it continues, and the Coder once for each candidate and each
-- continuation, which is at most five times. It pushes once if the input asks for a pull request
-- and the final Coder changed files, and else never.
pub run-calls :
    (infer : String → Bool) (acts : Activities) (inp : RepoTaskInput)
    → (tally is_coder (run infer acts inp).calls
        ≡ (run infer acts inp).best_of_n_count + (run infer acts inp).continuation_count)
      × (tally is_coder (run infer acts inp).calls ≤ 5)
      × (tally is_critic (run infer acts inp).calls ≡ suc (run infer acts inp).continuation_count)
      × (tally is_push (run infer acts inp).calls ≡ pushes_of inp (run infer acts inp).coder_result)
unfolding run
run-calls infer acts inp = (
  omega (arith, b.coders, l.coders, p.coders),
  omega (arith, b.coders, l.coders, p.coders, b.at_most, (run-Ended infer acts inp).bounded),
  omega (arith, b.critics, l.critics, p.critics),
  omega (arith, b.pushes, l.pushes, p.pushes),
)
  where
    b : Started (selected infer acts inp)
    b = select-Started infer acts (plan_of acts inp) inp

    l : Tallied (start_loop (selected infer acts inp)) (looped infer acts inp)
    l =
        critic_loop-Tallied acts (plan_of acts inp) inp.brief max_continuations
          (start_loop (selected infer acts inp)) refl

    p :
        PushTallied inp
          (looped infer acts inp)
          (push_step acts (plan_of acts inp) inp (selected infer acts inp) (looped infer acts inp))
    p =
        push_step-PushTallied acts (plan_of acts inp) inp (selected infer acts inp)
          (looped infer acts inp)
