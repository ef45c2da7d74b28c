-- ===== src/Critic/Correct.antt =====
-- Lemmas on `run_critic_repo`: its verdict, its exception and its document.
use twai_swarm.Prelude.{
  ℕ, ◌≡◌, ◌≢◌, refl, sym, ap, Bool, subst, ◌↔◌, ◌⊎◌, inl, inr, String, false, ◌||◌, not, none, some,
  List, [], ◌∷◌, arith, Outcome, ok, Error, no_attribute, ◌>>=◌, >>=-eq-ok, Bool-cases,
  Outcome-cases,
}
use twai_swarm.Reviewer.{GateFailure}
use twai_swarm.Critic.Gate.{run_deterministic_gate}
use twai_swarm.Critic.Types.{
  CriticFailure, complete, incomplete, Subtask, JudgeCall, judge_failed, judged, Outside,
}
use twai_swarm.Critic.Judge.{
  Graded, flatten_acceptance_criteria, parse_judge_response, run_llm_checklist_judge,
}
use twai_swarm.Critic.Clean.{
  CompilersEndedWell, run_deterministic_gate-empty, run_deterministic_gate-EndedWell,
}
use twai_swarm.Critic.Raised.{IsNoObject}
use twai_swarm.Critic.Grading.{Covered, Blocks}
use twai_swarm.Critic.Document.{Mentions, handoff_doc-Mentions}
use twai_swarm.Critic.Handoff.{Line, build_continuation_handoff_doc}
use twai_swarm.Critic.Verdicts.{plan_of, asked, run-plan, JudgedYes, Grading, judge-Grading}
use twai_swarm.Critic.{
  CriticInput, CriticRepoOutput, paths_of, has_blocking_failure, settle_verdict, judge_plan,
  run_critic_repo,
}

Blocks-empty :
    (failed : List CriticFailure)
    → Blocks failed
    → (has_blocking_failure failed ≡ false) ↔ (failed ≡ [])
unfolding has_blocking_failure
Blocks-empty [] b = (λ e. refl, λ e. refl)
Blocks-empty (cf ∷ cfs) b = (λ e. ground (arith, b.0), λ e. cc e)

-- The output for a plan: the verdict is that all is well exactly if nothing failed; every criterion
-- is among the passed or the failed ones; there is a document exactly if something failed, and it
-- names each failed criterion, as missing and as a step, and the first ten failures of the gate.
pub record Reported (out : Outside) (inp : CriticInput) (plan : List Subtask) (o : CriticRepoOutput)
    : Type 0 where
  pub gate_kept :
      run_deterministic_gate out (paths_of inp.files_with_content)
      ≡ ok (o.deterministic_gate_passed, o.gate_failures)
  pub verdict_iff : (o.verdict ≡ complete) ↔ ((o.failed_criteria ≡ []) × (o.gate_failures ≡ []))
  pub covered : Covered (flatten_acceptance_criteria plan) o.passed_criteria o.failed_criteria
  pub prompt :
      (o.verdict ≡ complete) × (o.continuation_prompt ≡ none)
      ⊎ (o.verdict ≡ incomplete)
        × ((doc : List Line) × (o.continuation_prompt ≡ some doc)
            × Mentions o.failed_criteria o.gate_failures doc)

settle-Reported :
    (out : Outside) (inp : CriticInput) (plan : List Subtask) (gate : Bool × List GateFailure)
    (a b : ℕ) (g : Graded)
    → run_deterministic_gate out (paths_of inp.files_with_content) ≡ ok gate
    → Grading out (asked out inp gate.1 plan) (flatten_acceptance_criteria plan) g
    → Reported out inp plan (settle_verdict inp gate.0 gate.1 a b g)
unfolding settle_verdict
settle-Reported out inp plan gate a b g gated graded =
    let blocks = Blocks-empty g.failed graded.blocks in
    let passes = run_deterministic_gate-empty out (paths_of inp.files_with_content) gate gated in
    let doc =
      build_continuation_handoff_doc inp.diff_lines (paths_of inp.files_with_content) g.passed
        g.failed gate.1 in
    let mentions =
      handoff_doc-Mentions inp.diff_lines (paths_of inp.files_with_content) g.passed g.failed
        gate.1 in
    record {
      gate_kept = gated;
      verdict_iff = ground (arith, blocks, passes);
      covered = graded.covered;
      prompt = elim (Bool-cases (has_blocking_failure g.failed || not gate.0)) [
        | inl t ↦ inr (ground (arith, t), (doc, ground (arith, t), mentions))
        | inr t ↦ inl (ground (arith, t), ground (arith, t))
      ];
    }

-- A run that returned has passed the gate.
gate_returned :
    (out : Outside) (inp : CriticInput) (o : CriticRepoOutput)
    → run_critic_repo out inp ≡ ok o
    → (gate : Bool × List GateFailure) × (run_deterministic_gate out
          (paths_of inp.files_with_content)
        ≡ ok gate)
unfolding run_critic_repo
gate_returned out inp o h =
    elim (Outcome-cases (run_deterministic_gate out (paths_of inp.files_with_content))) [
      | inl (gate, gated) ↦ (gate, gated)
      | inr (error, failed) ↦ absurd (ground (arith, failed, h))
    ]

module _ (out : Outside) (inp : CriticInput) (plan : List Subtask)
    (planned : plan_of out inp ≡ some plan) (o : CriticRepoOutput)
    (h : run_critic_repo out inp ≡ ok o) where
  -- The output is settled from what the gate and the judge gave back.
  settled :
      (gate : Bool × List GateFailure) × (run_deterministic_gate out
          (paths_of inp.files_with_content)
        ≡ ok gate)
      × ((g : Graded) × (a b : ℕ) × (settle_verdict inp gate.0 gate.1 a b g ≡ o)
          × Grading out (asked out inp gate.1 plan) (flatten_acceptance_criteria plan) g)
  unfolding judge_plan
  settled =
      let (gate, gated) = gate_returned out inp o h in
      let (a, b, e) = run-plan out inp gate gated plan planned in
      let call = run_llm_checklist_judge out plan inp.coder_diff inp.files_with_content gate.1 in
      let end : Graded → Outcome CriticRepoOutput =
        λ x. ok (settle_verdict inp gate.0 gate.1 a b x) in
      let run : (call >>= end) ≡ ok o = ground (arith, e) in
      let (g, first, last) = >>=-eq-ok call end run in
      (gate, gated, (g, a, b, ground arith, judge-Grading out inp gate.1 plan g first))

-- Where the Architect's plan or the brief gave a plan and the run returns, the verdict is that all
-- is well exactly if no criterion and no tool failed; every criterion of the plan is among the
-- passed or the failed ones; and there is a document for the next Coder exactly if the verdict is
-- not that all is well: it names every failed criterion, as missing and as a numbered step, and the
-- first ten failures of the tools as steps.
pub run_critic_repo-Reported :
    (out : Outside) (inp : CriticInput) (plan : List Subtask)
    → plan_of out inp ≡ some plan
    → (o : CriticRepoOutput) → run_critic_repo out inp ≡ ok o
    → Reported out inp plan o
run_critic_repo-Reported out inp plan planned o h =
    let (gate, gated, (g, a, b, same, graded)) = settled out inp plan planned o h in
    subst (Reported out inp plan) same (settle-Reported out inp plan gate a b g gated graded)

-- Where there is a plan and the verdict is that all is well, the compilers ended well on the
-- touched files of their languages, or were skipped, and the plan has no criteria, or the judge
-- answered with an object that has the status "yes" for each of them.
pub run_critic_repo-JudgedYes :
    (out : Outside) (inp : CriticInput) (plan : List Subtask)
    → plan_of out inp ≡ some plan
    → (o : CriticRepoOutput) → run_critic_repo out inp ≡ ok o
    → o.verdict ≡ complete
    → CompilersEndedWell out (paths_of inp.files_with_content)
      × ((flatten_acceptance_criteria plan ≡ [])
          ⊎ JudgedYes out (asked out inp o.gate_failures plan) (flatten_acceptance_criteria plan))
run_critic_repo-JudgedYes out inp plan planned o h fine =
    let (gate, gated, (g, a, b, same, graded)) = settled out inp plan planned o h in
    let reported = settle-Reported out inp plan gate a b g gated graded in
    let (none_failed, no_gate_failure) =
      reported.verdict_iff.0
        (subst (λ (x : CriticRepoOutput). x.verdict ≡ complete) (sym same) fine) in
    let kept : gate.1 ≡ o.gate_failures =
      unfold settle_verdict in ap (λ (x : CriticRepoOutput). x.gate_failures) same in
    (
      run_deterministic_gate-EndedWell out (paths_of inp.files_with_content) gate gated
          (unfold settle_verdict in no_gate_failure),
      subst
          (λ (fs : List GateFailure).
            (flatten_acceptance_criteria plan ≡ [])
            ⊎ JudgedYes out (asked out inp fs plan) (flatten_acceptance_criteria plan))
          kept (graded.clean (unfold settle_verdict in none_failed)),
    )

-- An answer of the judge that is read as something else than an object.
abbrev pub NoObject : Outside → JudgeCall → Type 0
NoObject out (judge_failed name) = ⊥
NoObject out (judged text tokens_in tokens_out) = IsNoObject (parse_judge_response out text)

-- The criteria of a judge that raised, and its answer.
abbrev pub Refused : Outside → JudgeCall → List (String × String) → Error → Type 0
Refused out call criteria error = (error ≡ no_attribute) × (criteria ≢ []) × NoObject out call
