-- ===== src/Critic/Document.antt =====
-- Lemmas on the document for the next Coder.
use twai_swarm.Prelude.{
  ℕ, suc, ap, ◌⊎◌, inl, inr, String, List, [], ◌∷◌, ◌++◌, map, arith, In, In-append, take, length,
  ltb, if◌then◌else◌, ◌-◌,
}
use twai_swarm.Reviewer.{GateFailure}
use twai_swarm.Critic.Types.{CriticFailure}
use twai_swarm.Critic.Handoff.{
  Line, text, satisfied, missing, gate_failure, address_step, fix_step, unless_empty, more_failures,
  summary_lines, missing_lines, status_lines, address_steps, fix_steps, or_no_step, step_lines,
  closing_lines, build_continuation_handoff_doc,
}

In-missing_lines :
    (failed : List CriticFailure) (cf : CriticFailure)
    → In cf failed
    → In (missing cf.criterion) (missing_lines failed)
unfolding missing_lines
In-missing_lines [] cf i = absurd i
In-missing_lines (x ∷ xs) cf (inl e) = inl (ap (λ (y : CriticFailure). missing y.criterion) e)
In-missing_lines (x ∷ xs) cf (inr i) = inr (inr (In-missing_lines xs cf i))

In-address_steps :
    (n : ℕ) (failed : List CriticFailure) (cf : CriticFailure)
    → In cf failed
    → (k : ℕ) × In (address_step k cf.criterion) (address_steps n failed)
unfolding address_steps
In-address_steps n [] cf i = absurd i
In-address_steps n (x ∷ xs) cf (inl e) =
    (n, inl (ap (λ (y : CriticFailure). address_step n y.criterion) e))
In-address_steps n (x ∷ xs) cf (inr i) = let (k, j) = In-address_steps (suc n) xs cf i in (k, inr j)

In-fix_steps :
    (n : ℕ) (gfs : List GateFailure) (gf : GateFailure)
    → In gf gfs
    → (k : ℕ) × In (fix_step k gf) (fix_steps n gfs)
unfolding fix_steps
In-fix_steps n [] gf i = absurd i
In-fix_steps n (x ∷ xs) gf (inl e) = (n, inl (ap (λ (y : GateFailure). fix_step n y) e))
In-fix_steps n (x ∷ xs) gf (inr i) = let (k, j) = In-fix_steps (suc n) xs gf i in (k, inr j)

unless_empty-In :
    {A : Type 0} (xs : List A) (x : A) (lines otherwise : List Line) (l : Line)
    → In x xs
    → In l lines
    → In l (unless_empty xs lines otherwise)
unless_empty-In [] x lines otherwise l i j = absurd i
unless_empty-In (y ∷ ys) x lines otherwise l i j = j

or_no_step-In : (steps : List Line) (l : Line) → In l steps → In l (or_no_step steps)
or_no_step-In [] l i = absurd i
or_no_step-In (s ∷ steps) l i = i

-- What the document says of each failure.
pub record Mentions (failed : List CriticFailure) (gate_failures : List GateFailure)
    (doc : List Line) : Type 0 where
  pub criteria : (cf : CriticFailure) → In cf failed → In (missing cf.criterion) doc
  pub steps : (cf : CriticFailure) → In cf failed → (k : ℕ) × In (address_step k cf.criterion) doc
  pub fixes : (gf : GateFailure) → In gf (take 10 gate_failures) → (k : ℕ) × In (fix_step k gf) doc

module _ (diff_lines files passed : List String) (failed : List CriticFailure)
    (gate_failures : List GateFailure) where
  abbrev summary : List Line
  summary = summary_lines files diff_lines gate_failures

  abbrev status : List Line
  status = status_lines passed failed gate_failures

  abbrev steps : List Line
  steps = step_lines failed gate_failures

  abbrev doc : List Line
  doc = build_continuation_handoff_doc diff_lines files passed failed gate_failures

  status-In : (l : Line) → In l status → In l doc
  unfolding build_continuation_handoff_doc
  status-In l i = ground (
    arith,
    In-append l (summary ++ status ++ steps) closing_lines,
    In-append l (summary ++ status) steps,
    In-append l summary status,
  )

  steps-In : (l : Line) → In l steps → In l doc
  unfolding build_continuation_handoff_doc
  steps-In l i = ground (
    arith,
    In-append l (summary ++ status ++ steps) closing_lines,
    In-append l (summary ++ status) steps,
  )

  missing-In : (cf : CriticFailure) → In cf failed → In (missing cf.criterion) status
  unfolding status_lines
  missing-In cf i =
      let l = missing cf.criterion in
      let head : List Line =
        text "## Acceptance criteria status"
        ∷ unless_empty passed (text "### Already satisfied" ∷ map satisfied passed) [] in
      let gaps : List Line =
        unless_empty failed (text "### Still missing" ∷ missing_lines failed) [] in
      let gates : List Line =
        unless_empty gate_failures
          (text "### Gate failures to fix" ∷ map gate_failure (take 30 gate_failures)
            ++ (if ltb 30 (length gate_failures)
                then more_failures (length gate_failures - 30) ∷ []
                else []))
          [] in
      let here =
        unless_empty-In failed cf (text "### Still missing" ∷ missing_lines failed) [] l i
          (inr (In-missing_lines failed cf i)) in
      (In-append l (head ++ gaps ++ gates) (text "" ∷ [])).1
        (inl ((In-append l (head ++ gaps) gates).1 (inl ((In-append l head gaps).1 (inr here)))))

  step-In :
      (l : Line)
      → In l (address_steps 1 failed)
        ⊎ In l (fix_steps (suc (length failed)) (take 10 gate_failures))
      → In l steps
  unfolding step_lines
  step-In l i =
      let some_steps =
        address_steps 1 failed ++ fix_steps (suc (length failed)) (take 10 gate_failures) in
      let here = or_no_step-In some_steps l (
        (In-append l (address_steps 1 failed)
            (fix_steps (suc (length failed)) (take 10 gate_failures))).1
          i) in
      (In-append l (text "## Immediate next steps" ∷ or_no_step some_steps) (text "" ∷ [])).1
        (inl (inr here))

  pub handoff_doc-Mentions : Mentions failed gate_failures doc
  handoff_doc-Mentions = record {
    criteria = λ cf i. status-In (missing cf.criterion) (missing-In cf i);
    steps = λ cf i.
        let (k, j) = In-address_steps 1 failed cf i in
        (k, steps-In (address_step k cf.criterion) (step-In _ (inl j)));
    fixes = λ gf i.
        let (k, j) = In-fix_steps (suc (length failed)) (take 10 gate_failures) gf i in
        (k, steps-In (fix_step k gf) (step-In _ (inr j)));
  }
