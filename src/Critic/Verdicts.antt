-- ===== src/Critic/Verdicts.antt =====
-- Lemmas on the plan that the Critic grades, and on what the judge gives back.
use twai_swarm.Prelude.{
  ℕ, ◌≡◌, refl, ap, subst, ◌⊎◌, inl, inr, String, Bool, Option, none, some, List, [], ◌∷◌, arith,
  string_eq, In, ok, >>=-eq-ok, List-cases,
}
use twai_swarm.Reviewer.{GateFailure}
use twai_swarm.Critic.Types.{
  CriticFailure, Subtask, Json, null, boolean, number, string, array, object, Members, JudgeCall,
  judge_failed, judged, Outside,
}
use twai_swarm.Critic.Gate.{run_deterministic_gate}
use twai_swarm.Critic.Judge.{
  Graded, nothing_graded, flatten_acceptance_criteria, parse_judge_response, grade_from, grade_all,
  all_failed, with_answer, run_llm_checklist_judge, extract_criteria_from_brief, unavailable,
}
use twai_swarm.Critic.Grading.{
  AllYes, Covered, Blocks, grade_from-Blocks, all_failed-Blocks, grade_from-AllYes,
  grade_from-Covered, all_failed-Covered,
}
use twai_swarm.Critic.{
  CriticInput, paths_of, ungraded, fallback_plan, judge_plan, from_brief, run_critic_repo,
}

-- The plan that the judge is asked about: the Architect's, else that of the brief, if any.
abbrev pub plan_of_brief : List String × ℕ × ℕ → Option (List Subtask)
plan_of_brief ([], tokens_in, tokens_out) = none
plan_of_brief (c ∷ cs, tokens_in, tokens_out) = some (fallback_plan (c ∷ cs))

unfoldable pub plan_of : Outside → CriticInput → Option (List Subtask)
plan_of out inp = elim inp.subtasks [
  | [] ↦ plan_of_brief (extract_criteria_from_brief out inp.brief)
  | s ∷ ss ↦ some (s ∷ ss)
]

module _ (out : Outside) (inp : CriticInput) (gate : Bool × List GateFailure)
    (gated : run_deterministic_gate out (paths_of inp.files_with_content) ≡ ok gate) where
  from_brief-plan :
      (e : List String × ℕ × ℕ) (plan : List Subtask)
      → plan_of_brief e ≡ some plan
      → (a b : ℕ) × (from_brief out inp gate e ≡ judge_plan out inp gate plan a b)
  from_brief-plan ([], a, b) plan h = cc h
  from_brief-plan (c ∷ cs, a, b) plan h = (a, b, ground arith)

  -- With a plan, the run is that of the judge on it.
  pub run-plan :
      (plan : List Subtask)
      → plan_of out inp ≡ some plan
      → (a b : ℕ) × (run_critic_repo out inp ≡ judge_plan out inp gate plan a b)
  unfolding plan_of run_critic_repo
  run-plan plan h = elim (List-cases inp.subtasks) [
    | inl e ↦
        let (a, b, r) =
          from_brief-plan (extract_criteria_from_brief out inp.brief) plan (ground (arith, e)) in
        (a, b, ground (arith, gated, e, r))
    | inr (s, ss, e) ↦ (0, 0, ground (arith, gated, e))
  ]

  -- Without one, it is the early return.
  pub run-no_plan :
      plan_of out inp ≡ none
      → (a b : ℕ) × (run_critic_repo out inp ≡ ok (ungraded gate.0 gate.1 a b))
  unfolding plan_of run_critic_repo
  run-no_plan h = elim (List-cases inp.subtasks) [
    | inl e ↦
        let (a, b, r) = early (extract_criteria_from_brief out inp.brief) (ground (arith, e)) in
        (a, b, ground (arith, gated, e, r))
    | inr (s, ss, e) ↦ absurd (ground (arith, e))
  ]
    where
      early :
          (e : List String × ℕ × ℕ)
          → plan_of_brief e ≡ none
          → (a b : ℕ) × (from_brief out inp gate e ≡ ok (ungraded gate.0 gate.1 a b))
      early ([], a, b) h' = (a, b, refl)
      early (c ∷ cs, a, b) h' = cc h'

-- The judge's call for a plan, after the gate.
abbrev pub asked : Outside → CriticInput → List GateFailure → List Subtask → JudgeCall
asked out inp gate_failures plan =
    out.ask_judge (flatten_acceptance_criteria plan) inp.coder_diff inp.files_with_content
      gate_failures

-- The judge answered with an object that has a "yes" for each of the criteria.
abbrev pub JudgedYes : Outside → JudgeCall → List (String × String) → Type 0
JudgedYes out (judge_failed name) criteria = ⊥
JudgedYes out (judged text tokens_in tokens_out) criteria =
    (members : Members) × (parse_judge_response out text ≡ object members)
    × AllYes out members 0 criteria

-- What the judge gives back for the criteria.
pub record Grading (out : Outside) (call : JudgeCall) (criteria : List (String × String))
    (g : Graded) : Type 0 where
  pub covered : Covered criteria g.passed g.failed
  pub blocks : Blocks g.failed
  pub clean : g.failed ≡ [] → (criteria ≡ []) ⊎ JudgedYes out call criteria

grade_all-Grading :
    (out : Outside) (json : Json) (text : String) (a b : ℕ) (criteria : List (String × String))
    (grades : List String × List CriticFailure)
    → parse_judge_response out text ≡ json
    → grade_all out json criteria ≡ ok grades
    → Grading out
        (judged text a b)
        criteria
        (record { passed = grades.0; failed = grades.1; tokens_in = a; tokens_out = b })
unfolding grade_all
grade_all-Grading out (object members) text a b criteria grades p h =
    let same : grade_from out members 0 criteria ≡ grades = ground arith in
    record {
      covered = rw (← same) (grade_from-Covered out members 0 criteria);
      blocks = rw (← same) (grade_from-Blocks out members 0 criteria);
      clean = λ none_failed. inr (
        members,
        p,
        grade_from-AllYes out members 0 criteria
            (ground (arith, ap (λ (x : List String × List CriticFailure). x.1) same)),
      );
    }
grade_all-Grading out null text a b criteria grades p h = cc h
grade_all-Grading out (boolean x) text a b criteria grades p h = cc h
grade_all-Grading out (number x) text a b criteria grades p h = cc h
grade_all-Grading out (string x) text a b criteria grades p h = cc h
grade_all-Grading out (array x) text a b criteria grades p h = cc h

with_answer-Grading :
    (out : Outside) (call : JudgeCall) (c : String × String) (cs : List (String × String))
    (g : Graded)
    → with_answer out (c ∷ cs) call ≡ ok g
    → Grading out call (c ∷ cs) g
with_answer-Grading out (judge_failed name) c cs g h =
    let same : all_failed (unavailable name) (c ∷ cs) ≡ g.failed = ground arith in
    let no_pass : [] ≡ g.passed = ground arith in
    record {
      covered = rw (← same, ← no_pass) (all_failed-Covered (unavailable name) (c ∷ cs));
      blocks = rw (← same) (all_failed-Blocks (unavailable name) (c ∷ cs));
      clean = λ e. absurd (unfold all_failed in ground arith);
    }
with_answer-Grading out (judged text a b) c cs g h =
    let (grades, first, last) =
      >>=-eq-ok (grade_all out (parse_judge_response out text) (c ∷ cs)) _ h in
    let same : (record { passed = grades.0; failed = grades.1; tokens_in = a; tokens_out = b })
        ≡ g =
      ground arith in
    subst (Grading out (judged text a b) (c ∷ cs)) same
      (grade_all-Grading out (parse_judge_response out text) text a b (c ∷ cs) grades refl first)

pub judge-Grading :
    (out : Outside) (inp : CriticInput) (gate_failures : List GateFailure) (plan : List Subtask)
    (g : Graded)
    → run_llm_checklist_judge out plan inp.coder_diff inp.files_with_content gate_failures ≡ ok g
    → Grading out (asked out inp gate_failures plan) (flatten_acceptance_criteria plan) g
unfolding run_llm_checklist_judge
judge-Grading out inp gate_failures plan g h =
    elim (List-cases (flatten_acceptance_criteria plan)) [
      | inl e ↦
          let same : nothing_graded ≡ g = ground (arith, e) in
          record {
            covered = λ sid text i. absurd (subst (In (sid, text)) e i);
            blocks = subst (λ (x : Graded). Blocks x.failed) same tt;
            clean = λ h'. inl e;
          }
      | inr (c, cs, e) ↦ rw e (with_answer-Grading out _ c cs g (ground (arith, e)))
    ]
