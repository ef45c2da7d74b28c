-- ===== src/Reviewer/Selection.antt =====
-- Lemmas on run_reviewer_repo: the assessments, the survivors, and the choice among them.
use twai_swarm.Prelude.{
  ℕ, zero, suc, ◌+◌, ◌≤◌, ◌<◌, ◌≡◌, ◌≢◌, refl, sym, ◌∙◌, ap, subst, ◌⊎◌, inl, inr, true, false,
  some, List, [], ◌∷◌, arith, get_or, get_elem?, length, In, head?, sort_by, head?-sort_by,
  if◌then◌else◌, Bool-cases, nat_eq,
}
use twai_swarm.Reviewer.{
  Candidate, CandidateAssessment, GateFailure, GateReport, checked, threw, Judge, assess_candidate,
  assess_all, survivors_of, fewest_failures, least_bad, choose, judge_survivors, compare_all,
  run_reviewer_repo,
}
use twai_swarm.Reviewer.Tally.{pick_winner_lem}

-- The gate ran on the candidate and let it through.
abbrev pub Passes : (Candidate → GateReport) → Candidate → Type 0
Passes gate c = (fs : List GateFailure) × (gate c ≡ checked true fs)

-- How many failures the candidate is charged with: a gate that threw is one.
abbrev pub failures_of : (Candidate → GateReport) → Candidate → ℕ
failures_of gate c = elim (gate c) [ checked _ fs ↦ length fs | threw _ ↦ 1 ]

module _ (gate : Candidate → GateReport) where
  abbrev assessed : ℕ → Candidate → CandidateAssessment
  assessed i c = assess_candidate gate c i (get_or i c.coder_seed)

  assess-passed :
      (c : Candidate) (i seed : ℕ)
      → Passes gate c
      → (assess_candidate gate c i seed).deterministic_gate_passed ≡ true
  unfolding assess_candidate
  assess-passed c i seed p = ground (arith, p.1)

  assess-Passes :
      (c : Candidate) (i seed : ℕ)
      → (assess_candidate gate c i seed).deterministic_gate_passed ≡ true
      → Passes gate c
  unfolding assess_candidate
  assess-Passes c i seed = go (gate c) refl
    where
      go :
          (r : GateReport)
          → gate c ≡ r
          → (assess_candidate gate c i seed).deterministic_gate_passed ≡ true
          → Passes gate c
      go (checked true fs) e h = (fs, e)
      go (checked false fs) e h = ground (arith, e, h)
      go (threw m) e h = ground (arith, e, h)

  assess-index : (c : Candidate) (i seed : ℕ) → (assess_candidate gate c i seed).candidate_index ≡ i
  unfolding assess_candidate
  assess-index c i seed = ground arith

  assess-failures :
      (c : Candidate) (i seed : ℕ)
      → length (assess_candidate gate c i seed).gate_failures ≡ failures_of gate c
  unfolding assess_candidate
  assess-failures c i seed = ground arith

  In-assess_all :
      (cs : List Candidate) (k : ℕ) (a : CandidateAssessment)
      → In a (assess_all gate k cs)
      → (j : ℕ) × (i : ℕ) × (c : Candidate) × (get_elem? cs j ≡ some c)
        × (i ≡ k + j)
        × (a ≡ assessed i c)
  unfolding assess_all
  In-assess_all [] k a i = absurd i
  In-assess_all (c ∷ cs) k a (inl e) = (0, k, c, refl, omega arith, e)
  In-assess_all (c ∷ cs) k a (inr i) =
      let (j, l, d, e, n, q) = In-assess_all cs (suc k) a i in (suc j, l, d, e, omega (arith, n), q)

  assess_all-In :
      (cs : List Candidate) (k j i : ℕ) (c : Candidate)
      → get_elem? cs j ≡ some c
      → i ≡ k + j
      → In (assessed i c) (assess_all gate k cs)
  unfolding assess_all
  assess_all-In [] k j i c e n = absurd (cc e)
  assess_all-In (d ∷ cs) k zero i c e n = inl (ground (arith, e, n))
  assess_all-In (d ∷ cs) k (suc j) i c e n =
      inr (assess_all-In cs (suc k) j i c e (omega (arith, n)))

In-survivors_of :
    (xs : List CandidateAssessment) (w : ℕ)
    → In w (survivors_of xs)
    → (a : CandidateAssessment) × In a xs
      × (a.deterministic_gate_passed ≡ true)
      × (a.candidate_index ≡ w)
unfolding survivors_of
In-survivors_of [] w i = absurd i
In-survivors_of (a ∷ xs) w i = elim (Bool-cases a.deterministic_gate_passed) [
  | inl t ↦
      elim (subst (λ b. In w (if b then a.candidate_index ∷ survivors_of xs else survivors_of xs)) t
        i) [
          | inl e ↦ (a, inl refl, t, sym e)
          | inr j ↦ let (b, k, p, q) = In-survivors_of xs w j in (b, inr k, p, q)
        ]
  | inr t ↦
      let (b, k, p, q) = In-survivors_of xs w (
        subst (λ b. In w (if b then a.candidate_index ∷ survivors_of xs else survivors_of xs)) t
          i) in
      (b, inr k, p, q)
]

survivors_of-In :
    (xs : List CandidateAssessment) (a : CandidateAssessment)
    → In a xs
    → a.deterministic_gate_passed ≡ true
    → In a.candidate_index (survivors_of xs)
unfolding survivors_of
survivors_of-In [] a i h = absurd i
survivors_of-In (b ∷ xs) a (inl e) h = ground (
  arith,
  ap (λ (x : CandidateAssessment). x.candidate_index) e,
  ap (λ (x : CandidateAssessment). x.deterministic_gate_passed) e,
)
survivors_of-In (b ∷ xs) a (inr i) h = ground (arith, survivors_of-In xs a i h)

-- The indices of the candidates that pass.
module _ (gate : Candidate → GateReport) (cs : List Candidate) where
  abbrev pub survivors : List ℕ
  survivors = survivors_of (assess_all gate 0 cs)

  survivors-Passes :
      (w : ℕ) → In w survivors → (c : Candidate) × (get_elem? cs w ≡ some c) × Passes gate c
  survivors-Passes w i =
      let (a, k, t, n) = In-survivors_of (assess_all gate 0 cs) w i in
      let (j, l, c, g, o, r) = In-assess_all gate cs 0 a k in
      let index : l ≡ w =
        sym (assess-index gate c l (get_or l c.coder_seed))
        ∙ sym (ap (λ (x : CandidateAssessment). x.candidate_index) r)
        ∙ n in
      let passed = sym (ap (λ (x : CandidateAssessment). x.deterministic_gate_passed) r) ∙ t in
      (
        c,
        subst (λ m. get_elem? cs m ≡ some c) (omega (arith, index, o)) g,
        assess-Passes gate c l (get_or l c.coder_seed) passed,
      )

  Passes-survivors :
      (i : ℕ) (c : Candidate) → get_elem? cs i ≡ some c → Passes gate c → In i survivors
  Passes-survivors i c e p =
      subst (λ m. In m survivors) (assess-index gate c i (get_or i c.coder_seed))
        (survivors_of-In (assess_all gate 0 cs) (assessed gate i c)
          (assess_all-In gate cs 0 i i c e (omega arith))
          (assess-passed gate c i (get_or i c.coder_seed) p))

choose-some :
    (judge : Judge) (cs : List Candidate) (xs : List CandidateAssessment) (survivors : List ℕ)
    → survivors ≢ []
    → (w : ℕ) × ((choose judge cs xs survivors).winner_index ≡ some w)
      × In w survivors
      × ((choose judge cs xs survivors).fallback_used ≡ false)
unfolding choose judge_survivors
choose-some judge cs xs [] ne = absurd (ne refl)
choose-some judge cs xs (w ∷ []) ne = (w, refl, inl refl, refl)
choose-some judge cs xs (w ∷ x ∷ rest) ne =
    let (v, e, i, _) =
      pick_winner_lem (w ∷ x ∷ rest)
        (compare_all judge cs (record { results = []; calls = 0; tokens_in = 0; tokens_out = 0 })
          (w ∷ x ∷ rest)).results
        (λ q. cc q) in
    (v, e, i, refl)

-- If the gate lets some candidate through, then run_reviewer_repo picks one that the gate let
-- through, whatever the judge answers, and does not report a fallback.
pub winner-Passes :
    (judge : Judge) (gate : Candidate → GateReport) (cs : List Candidate) (i : ℕ) (c : Candidate)
    → get_elem? cs i ≡ some c
    → Passes gate c
    → (w : ℕ) × (d : Candidate) × ((run_reviewer_repo judge gate cs).winner_index ≡ some w)
      × (get_elem? cs w ≡ some d)
      × Passes gate d
      × ((run_reviewer_repo judge gate cs).fallback_used ≡ false)
unfolding run_reviewer_repo
winner-Passes judge gate [] i c e p = absurd (cc e)
winner-Passes judge gate (x ∷ xs) i c e p =
    let (w, q, j, f) =
      choose-some judge (x ∷ xs) (assess_all gate 0 (x ∷ xs)) (survivors gate (x ∷ xs))
        (λ z. subst (In i) z (Passes-survivors gate (x ∷ xs) i c e p)) in
    let (d, g, t) = survivors-Passes gate (x ∷ xs) w j in (w, d, q, g, t, f)

fewest_failures_total :
    (a b : CandidateAssessment) → fewest_failures a b ≡ false → fewest_failures b a ≡ true
unfolding fewest_failures
fewest_failures_total a b h = ground arith

fewest_failures_trans :
    (a b c : CandidateAssessment)
    → fewest_failures a b ≡ true
    → fewest_failures b c ≡ true
    → fewest_failures a c ≡ true
unfolding fewest_failures
fewest_failures_trans a b c h l = ground arith

fewest_failures-assessed :
    (gate : Candidate → GateReport) (d c : Candidate) (l k : ℕ)
    → fewest_failures (assessed gate l d) (assessed gate k c) ≡ true
    → (failures_of gate d < failures_of gate c)
      ⊎ (failures_of gate d ≡ failures_of gate c) × (l ≤ k)
unfolding fewest_failures
fewest_failures-assessed gate d c l k h = ground (
  arith,
  assess-failures gate d l (get_or l d.coder_seed),
  assess-failures gate c k (get_or k c.coder_seed),
  assess-index gate d l (get_or l d.coder_seed),
  assess-index gate c k (get_or k c.coder_seed),
)

assess_all-cons :
    (gate : Candidate → GateReport) (c : Candidate) (cs : List Candidate) (k : ℕ)
    → assess_all gate k (c ∷ cs) ≡ assessed gate k c ∷ assess_all gate (suc k) cs
unfolding assess_all
assess_all-cons gate c cs k = refl

no_survivors :
    (gate : Candidate → GateReport) (cs : List Candidate)
    → ((i : ℕ) (c : Candidate) → get_elem? cs i ≡ some c → ¬ Passes gate c)
    → survivors gate cs ≡ []
no_survivors gate cs f = go (survivors gate cs) refl
  where
    go : (ws : List ℕ) → survivors gate cs ≡ ws → ws ≡ []
    go [] e = refl
    go (w ∷ ws) e =
        let (c, g, p) = survivors-Passes gate cs w (subst (In w) (sym e) (inl refl)) in
        absurd (f w c g p)

choose-none :
    (judge : Judge) (cs : List Candidate) (xs : List CandidateAssessment) (ws : List ℕ)
    (a : CandidateAssessment)
    → ws ≡ []
    → head? (sort_by fewest_failures xs) ≡ some a
    → ((choose judge cs xs ws).winner_index ≡ some a.candidate_index)
      × ((choose judge cs xs ws).fallback_used ≡ true)
unfolding choose least_bad
choose-none judge cs xs [] a e h = ground (arith, h)
choose-none judge cs xs (w ∷ ws) a e h = absurd (cc e)

-- If there are candidates and the gate lets none through, then run_reviewer_repo picks the one with
-- the fewest gate failures, of those the first, and reports a fallback.
pub winner_least_bad :
    (judge : Judge) (gate : Candidate → GateReport) (cs : List Candidate)
    → cs ≢ []
    → ((i : ℕ) (c : Candidate) → get_elem? cs i ≡ some c → ¬ Passes gate c)
    → (w : ℕ) × (d : Candidate) × ((run_reviewer_repo judge gate cs).winner_index ≡ some w)
      × ((run_reviewer_repo judge gate cs).fallback_used ≡ true)
      × (get_elem? cs w ≡ some d)
      × ((i : ℕ) (c : Candidate)
          → get_elem? cs i ≡ some c
          → (failures_of gate d < failures_of gate c)
            ⊎ (failures_of gate d ≡ failures_of gate c) × (w ≤ i))
unfolding run_reviewer_repo
winner_least_bad judge gate [] ne f = absurd (ne refl)
winner_least_bad judge gate (x ∷ xs) ne f =
    let (a, h, i, least) =
      head?-sort_by fewest_failures fewest_failures_total fewest_failures_trans
        (assess_all gate 0 (x ∷ xs)) (λ e. cc (assess_all-cons gate x xs 0, e)) in
    let (j, l, d, g, o, r) = In-assess_all gate (x ∷ xs) 0 a i in
    let (p, q) =
      choose-none judge (x ∷ xs) (assess_all gate 0 (x ∷ xs)) (survivors gate (x ∷ xs)) a
        (no_survivors gate (x ∷ xs) f) h in
    (
      l,
      d,
      p
          ∙ ap some (
              ap (λ (y : CandidateAssessment). y.candidate_index) r
              ∙ assess-index gate d l (get_or l d.coder_seed)),
      q,
      subst (λ m. get_elem? (x ∷ xs) m ≡ some d) (omega (arith, o)) g,
      λ k c e. fewest_failures-assessed gate d c l k (
          subst (λ y. fewest_failures y (assessed gate k c) ≡ true) r
            (least (assessed gate k c) (assess_all-In gate (x ∷ xs) 0 k k c e (omega arith)))),
    )
