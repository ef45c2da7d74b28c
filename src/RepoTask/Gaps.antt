-- ===== src/RepoTask/Gaps.antt =====
-- Lemmas on what is pushed: the files, and the notes for the people who read the request.
use mathlib.Core.List.{reverse, reverse-reverse}
use twai_swarm.Prelude.{
  ℕ, zero, suc, ◌-◌, ◌<◌, ◌≡◌, ◌≢◌, refl, sym, ◌∙◌, ap, ◌⊎◌, inl, inr, String, Bool, true, false,
  ◌&&◌, Option, none, some, List, [], ◌∷◌, ◌++◌, arith, string_eq, length, take, In, In-append,
  Bool-cases,
}
use twai_swarm.Reviewer.{ReviewerRepoOutput}
use twai_swarm.RepoTask.{
  start_loop, RepoTaskInput, ArchitectPlan, CoderResult, CriticResult, Call, documenter_repo_task,
  push_repo_changes, Activities, Footer, PrBody, PushRequest, DocumenterResult, Loop, Selected,
  latest, is_empty, gaps_footer, critic_loop, run_critic, continue_coder, must_stop, select,
  select_single, select_best_of_n, selection_note, SelectionNote, body_override, push_request,
  push_step, plan_of, selected, looped, run, max_continuations,
}
use twai_swarm.RepoTask.Continuation.{Stopped, Finished, looped-Finished}

-- The footer in full.
abbrev pub footer_of : ℕ → CriticResult → Footer
footer_of passes final = record {
  passes = passes;
  criteria = take 20 final.failed_criteria;
  more_criteria = length final.failed_criteria - 20;
  gates = take 10 final.gate_failures;
  more_gates = length final.gate_failures - 10;
}

abbrev documented : (String → Bool) → Activities → RepoTaskInput → Option DocumenterResult
documented infer acts inp =
    acts.documenter (looped infer acts inp).calls (plan_of acts inp)
      (looped infer acts inp).coder_result (latest (looped infer acts inp).critic_results)

abbrev request_of : (String → Bool) → Activities → RepoTaskInput → PushRequest
request_of infer acts inp =
    push_request inp (selected infer acts inp) (looped infer acts inp) (documented infer acts inp)

gaps_footer-listed :
    (n : ℕ) (last : CriticResult)
    → last.verdict ≡ "incomplete"
    → (is_empty last.failed_criteria && is_empty last.gate_failures) ≡ false
    → 0 < n
    → gaps_footer n (some last) ≡ some (footer_of n last)
unfolding gaps_footer
gaps_footer-listed n last v l h = ground (arith, l, h, string_eq.same_iff last.verdict "incomplete")

push_step-In :
    (acts : Activities) (plan : ArchitectPlan) (inp : RepoTaskInput) (sel : Selected) (s : Loop)
    → inp.auto_pr ≡ true
    → is_empty s.coder_result.files_with_content ≡ false
    → In
        (push_repo_changes (
          push_request inp sel s
            (acts.documenter s.calls plan s.coder_result (latest s.critic_results))))
        (push_step acts plan inp sel s).calls
unfolding push_step
push_step-In acts plan inp sel s on changed =
    let request : PushRequest =
      push_request inp sel s
        (acts.documenter s.calls plan s.coder_result (latest s.critic_results)) in
    simp (on, changed)
      ((In-append (push_repo_changes request) (s.calls ++ documenter_repo_task ∷ [])
          (push_repo_changes request ∷ [])).1
        (inr (inl refl)))

continued :
    (last : CriticResult) (before : List CriticResult)
    → Stopped last before
    → last.verdict ≡ "incomplete"
    → 0 < length before
continued last before (inl e) v = absurd (distinct (sym e ∙ v))
  where
    distinct : ◌≢◌ {A = String} "complete" "incomplete"
    distinct h = cc h
continued last before (inr (inl e)) v = omega (arith, e)
continued last before (inr (inr (prev, rest, e, _))) v = rw e (omega arith)

body_override-footer :
    (body : String) (f : Footer) (b : PrBody)
    → body_override body (some f) ≡ some b
    → b.footer ≡ some f
unfolding body_override
body_override-footer body f b e = ground (arith, e)

-- A run that pushes while the last verdict is "incomplete" and names a failed criterion or a gate
-- failure: the push carries the files of the final Coder, and both the brief and the body that
-- overrides it, if there is one, end in the footer with the count of the continuations and the first
-- 20 criteria and 10 gate failures of that verdict.
pub run-gaps :
    (infer : String → Bool) (acts : Activities) (inp : RepoTaskInput) (last : CriticResult)
    (before : List CriticResult)
    → (run infer acts inp).critic_results ≡ reverse (last ∷ before)
    → last.verdict ≡ "incomplete"
    → (is_empty last.failed_criteria && is_empty last.gate_failures) ≡ false
    → inp.auto_pr ≡ true
    → is_empty (run infer acts inp).coder_result.files_with_content ≡ false
    → (request : PushRequest) × In (push_repo_changes request) (run infer acts inp).calls
      × (request.files ≡ (run infer acts inp).coder_result.files_with_content)
      × (request.push_brief.footer ≡ some (footer_of (run infer acts inp).continuation_count last))
      × ((b : PrBody)
          → request.body_override ≡ some b
          → b.footer ≡ some (footer_of (run infer acts inp).continuation_count last))
unfolding run
run-gaps infer acts inp last before h v l on changed = (
  request_of infer acts inp,
  push_step-In acts (plan_of acts inp) inp (selected infer acts inp) (looped infer acts inp) on
      changed,
  unfold push_request in refl,
  unfold push_request in footed,
  λ b e. override b (documented infer acts inp) (unfold push_request in e),
)
  where
    n : ℕ
    n = (looped infer acts inp).continuation_count

    results : (looped infer acts inp).critic_results ≡ last ∷ before
    results =
        sym (reverse-reverse (looped infer acts inp).critic_results)
        ∙ ap reverse h
        ∙ reverse-reverse (last ∷ before)

    f : Finished acts (plan_of acts inp) inp.brief (looped infer acts inp)
    f = looped-Finished infer acts inp

    same_last : f.last ≡ last
    same_last = cc (results, f.results)

    footed : gaps_footer n (latest (looped infer acts inp).critic_results) ≡ some (footer_of n last)
    footed =
        ap (λ l. gaps_footer n (latest l)) results
        ∙ gaps_footer-listed n last v l (
            omega (
              arith,
              f.counted,
              continued f.last f.before f.stopped
                  (ap (λ (c : CriticResult). c.verdict) same_last ∙ v),
            ))

    override :
        (b : PrBody) (doc : Option DocumenterResult)
        → (elim doc [
          | none ↦ none
          | some d ↦
              body_override d.pr_body
                (gaps_footer n (latest (looped infer acts inp).critic_results))
        ])
          ≡ some b
        → b.footer ≡ some (footer_of n last)
    override b none e = absurd (cc e)
    override b (some d) e =
        body_override-footer d.pr_body (footer_of n last) b
          (ap (body_override d.pr_body) (sym footed) ∙ e)

abbrev Continued : Activities → ArchitectPlan → CoderResult → Type 0
Continued acts plan c =
    (calls : List Call) × (prompt : String) × (c ≡ acts.coder calls plan prompt none)

module _ (acts : Activities) (plan : ArchitectPlan) (brief : String) where
  continue_coder-Continued :
      (s : Loop) → Continued acts plan (continue_coder acts plan s).coder_result
  unfolding continue_coder
  continue_coder-Continued s = (_, _, refl)

  critic_loop-keeps :
      (left : ℕ) (s : Loop)
      → Continued acts plan s.coder_result
      → Continued acts plan (critic_loop acts plan brief left s).coder_result
  unfolding critic_loop
  critic_loop-keeps zero s c = c
  critic_loop-keeps (suc left) s c = elim (Bool-cases (must_stop (run_critic acts plan brief s))) [
    | inl t ↦ rw t (unfold run_critic in c)
    | inr t ↦ rw t (
        critic_loop-keeps left (continue_coder acts plan (run_critic acts plan brief s))
          (continue_coder-Continued (run_critic acts plan brief s)))
  ]

  -- A loop that counted a continuation returns the result of one.
  critic_loop-Continued :
      (left : ℕ) (s : Loop)
      → ((critic_loop acts plan brief left s).continuation_count ≡ s.continuation_count)
        ⊎ Continued acts plan (critic_loop acts plan brief left s).coder_result
  unfolding critic_loop
  critic_loop-Continued zero s = inl refl
  critic_loop-Continued (suc left) s =
      elim (Bool-cases (must_stop (run_critic acts plan brief s))) [
        | inl t ↦ rw t (inl (unfold run_critic in refl))
        | inr t ↦ rw t (
            inr (
              critic_loop-keeps left (continue_coder acts plan (run_critic acts plan brief s))
                (continue_coder-Continued (run_critic acts plan brief s))))
      ]

select-several :
    (infer : String → Bool) (acts : Activities) (calls : List Call) (plan : ArchitectPlan)
    (inp : RepoTaskInput) (review : ReviewerRepoOutput)
    → (select infer acts calls plan inp).reviewer_result ≡ some review
    → 1 < (select infer acts calls plan inp).best_of_n_count
unfolding select select_single select_best_of_n
select-several infer acts calls plan inp review e = ground (arith, e)

selection_note-seed :
    (sel : Selected) (c : CoderResult) (review : ReviewerRepoOutput) (seed : ℕ)
    → sel.reviewer_result ≡ some review
    → 1 < sel.best_of_n_count
    → c.coder_seed ≡ some seed
    → (note : SelectionNote) × (selection_note sel c ≡ some note)
      × (note.winner ≡ review.winner_index)
      × (note.seed ≡ some seed)
unfolding selection_note
selection_note-seed sel c review seed e h t = (
  record {
    evaluated = sel.best_of_n_count;
    winner = review.winner_index;
    seed = some seed;
    rationale = review.rationale;
  },
  ground (arith, e, h, t),
  refl,
  refl,
)

-- Where the Coder's result carries the seed it was called with, and seed 0 where it was given none:
-- after a Best-of-N selection and at least one continuation, the note that is pushed names the
-- winner that the reviewer chose and, whichever that is, the seed 0.
pub run-note :
    (infer : String → Bool) (acts : Activities) (inp : RepoTaskInput) (review : ReviewerRepoOutput)
    → ((calls : List Call) (plan : ArchitectPlan) (brief : String)
        → (acts.coder calls plan brief none).coder_seed ≡ some 0)
    → (run infer acts inp).reviewer_result ≡ some review
    → 0 < (run infer acts inp).continuation_count
    → inp.auto_pr ≡ true
    → is_empty (run infer acts inp).coder_result.files_with_content ≡ false
    → (request : PushRequest) × In (push_repo_changes request) (run infer acts inp).calls
      × (note : SelectionNote) × (request.push_brief.selection ≡ some note)
      × (note.winner ≡ review.winner_index)
      × (note.seed ≡ some 0)
unfolding run
run-note infer acts inp review tagged reviewed many on changed =
    let c : Continued acts (plan_of acts inp) (looped infer acts inp).coder_result =
      elim (critic_loop-Continued acts (plan_of acts inp) inp.brief (suc max_continuations)
        (start_loop (selected infer acts inp))) [
          | inl e ↦ absurd (omega (arith, e, many))
          | inr c ↦ c
        ] in
    let (calls, prompt, e) = c in
    let (note, is_note, winner, seed) =
      selection_note-seed (selected infer acts inp) (looped infer acts inp).coder_result review 0
        reviewed (select-several infer acts _ (plan_of acts inp) inp review reviewed)
        (ap (λ (r : CoderResult). r.coder_seed) e ∙ tagged calls (plan_of acts inp) prompt) in
    (
      request_of infer acts inp,
      push_step-In acts (plan_of acts inp) inp (selected infer acts inp) (looped infer acts inp) on
          changed,
      note,
      unfold push_request in is_note,
      winner,
      seed,
    )
