-- ===== src/Critic/Grading.antt =====
-- Lemmas on the judge's grades and on the document for the next Coder.
use twai_swarm.Prelude.{
  ℕ, suc, ◌≡◌, refl, ap, ◌⊎◌, inl, inr, String, Bool, true, false, Option, none, some, List, [],
  ◌∷◌, map, arith, string_eq, In, All, is_word, is_space, strip, str_nat, Bool-cases,
}
use twai_swarm.Critic.Types.{get_member, block, CriticFailure, Members, Outside}
use twai_swarm.Critic.Judge.{text_at, item_members, Grades, put_grade, grade_from, all_failed}

-- The judge's answer has a status "yes" for an index.
unfoldable pub says_yes : Outside → Members → ℕ → Bool
says_yes out parsed n = elim (item_members (get_member (str_nat n) parsed)) [
  | none ↦ false
  | some members ↦ is_word (strip is_space (text_at out "status" members)) "yes"
]

-- It has one for each of the criteria, which are numbered from `n` on.
abbrev pub AllYes : Outside → Members → ℕ → List (String × String) → Type 0
AllYes out parsed n [] = Unit
AllYes out parsed n (c ∷ cs) = (says_yes out parsed n ≡ true) × AllYes out parsed (suc n) cs

abbrev pub criterion_of : CriticFailure → String
criterion_of cf = cf.criterion

-- Every criterion is among the passed or the failed ones.
abbrev pub Covered : List (String × String) → List String → List CriticFailure → Type 0
Covered criteria passed failed =
    (sid text : String)
    → In (sid, text) criteria
    → In text passed ⊎ In text (map (λ (cf : CriticFailure). cf.criterion) failed)

put_grade-yes :
    (out : Outside) (text : String) (item : Option Members) (g : Grades)
    → (put_grade out text item g).1 ≡ []
    → ((elim item [
      | none ↦ false
      | some members ↦ is_word (strip is_space (text_at out "status" members)) "yes"
    ])
        ≡ true)
      × (g.1 ≡ [])
put_grade-yes out text none (p, f) h = cc h
put_grade-yes out text (some members) (p, f) h = ground arith

pub grade_from-AllYes :
    (out : Outside) (parsed : Members) (n : ℕ) (criteria : List (String × String))
    → (grade_from out parsed n criteria).1 ≡ []
    → AllYes out parsed n criteria
unfolding grade_from says_yes
grade_from-AllYes out parsed n [] h = tt
grade_from-AllYes out parsed n ((sid, text) ∷ cs) h =
    let (yes', rest) =
      put_grade-yes out text (item_members (get_member (str_nat n) parsed))
        (grade_from out parsed (suc n) cs) h in
    (yes', grade_from-AllYes out parsed (suc n) cs rest)

put_grade-Covered :
    (out : Outside) (sid text : String) (item : Option Members) (g : Grades)
    (criteria : List (String × String))
    → Covered criteria g.0 g.1
    → Covered ((sid, text) ∷ criteria) (put_grade out text item g).0 (put_grade out text item g).1
put_grade-Covered out sid text none (p, f) criteria h s t (inl e) =
    inr (inl (ap (λ (p : String × String). p.1) e))
put_grade-Covered out sid text none (p, f) criteria h s t (inr i) = ground (arith, h s t i)
put_grade-Covered out sid text (some members) (p, f) criteria h s t (inl e) =
    ground (arith, ap (λ (p : String × String). p.1) e)
put_grade-Covered out sid text (some members) (p, f) criteria h s t (inr i) =
    ground (arith, h s t i)

pub grade_from-Covered :
    (out : Outside) (parsed : Members) (n : ℕ) (criteria : List (String × String))
    → Covered criteria (grade_from out parsed n criteria).0 (grade_from out parsed n criteria).1
unfolding grade_from
grade_from-Covered out parsed n [] s t i = absurd i
grade_from-Covered out parsed n ((sid, text) ∷ cs) s t i =
    put_grade-Covered out sid text (item_members (get_member (str_nat n) parsed))
      (grade_from out parsed (suc n) cs) cs (grade_from-Covered out parsed (suc n) cs) s t i

pub all_failed-Covered :
    (evidence : String) (criteria : List (String × String))
    → Covered criteria [] (all_failed evidence criteria)
unfolding all_failed
all_failed-Covered evidence [] s t i = absurd i
all_failed-Covered evidence ((sid, text) ∷ cs) s t (inl e) =
    inr (inl (ap (λ (p : String × String). p.1) e))
all_failed-Covered evidence ((sid, text) ∷ cs) s t (inr i) =
    ground (arith, all_failed-Covered evidence cs s t i)

-- Every failure blocks.
abbrev pub Blocks : List CriticFailure → Type 0
Blocks failed = All (λ (cf : CriticFailure). cf.severity ≡ block) failed

put_grade-Blocks :
    (out : Outside) (text : String) (item : Option Members) (g : Grades)
    → Blocks g.1
    → Blocks (put_grade out text item g).1
put_grade-Blocks out text none (p, f) h = (refl, h)
put_grade-Blocks out text (some members) (p, f) h =
    elim (Bool-cases (is_word (strip is_space (text_at out "status" members)) "yes")) [
      | inl t ↦ rw t h
      | inr t ↦ rw t (refl, h)
    ]

pub grade_from-Blocks :
    (out : Outside) (parsed : Members) (n : ℕ) (criteria : List (String × String))
    → Blocks (grade_from out parsed n criteria).1
unfolding grade_from
grade_from-Blocks out parsed n [] = tt
grade_from-Blocks out parsed n ((sid, text) ∷ cs) =
    put_grade-Blocks out text (item_members (get_member (str_nat n) parsed))
      (grade_from out parsed (suc n) cs) (grade_from-Blocks out parsed (suc n) cs)

pub all_failed-Blocks :
    (evidence : String) (criteria : List (String × String)) → Blocks (all_failed evidence criteria)
unfolding all_failed
all_failed-Blocks evidence [] = tt
all_failed-Blocks evidence ((sid, text) ∷ cs) = (refl, all_failed-Blocks evidence cs)
