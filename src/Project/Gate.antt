-- ===== src/Project/Gate.antt =====
-- Lemmas on the approval gate.
use twai_swarm.Prelude.{
  ◌≡◌, refl, ◌∙◌, ap, subst, ◌⊎◌, inl, inr, String, true, false, List, [], ◌∷◌, ◌++◌, arith, In,
  Bool-cases,
}
use twai_swarm.Project.{
  GateState, start_gate, Signal, approve, reject, receive, receive_all, Activation, signalled,
  timer, passed, decided, settle_gate, await_gate,
}

abbrev pub signals_in : List Activation → List Signal
signals_in [] = []
signals_in (timer ∷ rest) = signals_in rest
signals_in (signalled ss ∷ rest) = ss ++ signals_in rest

receive_all-append :
    (g : GateState) (xs ys : List Signal)
    → receive_all g (xs ++ ys) ≡ receive_all (receive_all g xs) ys
unfolding receive_all
receive_all-append g [] ys = refl
receive_all-append g (x ∷ xs) ys = receive_all-append (receive g x) xs ys

stays_rejected :
    (ss : List Signal) (g : GateState) → g.rejected ≡ true → (receive_all g ss).rejected ≡ true
unfolding receive_all receive
stays_rejected [] g h = h
stays_rejected (approve ∷ ss) g h = stays_rejected ss (receive g approve) h
stays_rejected (reject m ∷ ss) g h = stays_rejected ss (receive g (reject m)) refl

-- A rejection is never forgotten, also where an approval came before or comes after.
reject-rejected :
    (m : String) (ss : List Signal) (g : GateState)
    → In (reject m) ss
    → (receive_all g ss).rejected ≡ true
unfolding receive_all receive
reject-rejected m [] g i = absurd i
reject-rejected m (s ∷ ss) g (inl e) =
    subst (λ x. (receive_all (receive g x) ss).rejected ≡ true) e
      (stays_rejected ss (receive g (reject m)) refl)
reject-rejected m (s ∷ ss) g (inr i) = reject-rejected m ss (receive g s) i

approved-In :
    (ss : List Signal) (g : GateState)
    → (receive_all g ss).approved ≡ true
    → (g.approved ≡ true) ⊎ In approve ss
unfolding receive_all receive
approved-In [] g h = inl h
approved-In (approve ∷ ss) g h = inr (inl refl)
approved-In (reject m ∷ ss) g h = elim (approved-In ss (receive g (reject m)) h) [
  | inl e ↦ inl e
  | inr i ↦ inr (inr i)
]

-- What has been received when the gate lets through.
abbrev Through : GateState → List Activation → Type 0
Through g activations =
    (before : List Activation) × (rest : List Activation) × (activations ≡ before ++ rest)
    × (¬ In timer before)
    × ((receive_all g (signals_in before)).approved ≡ true)
    × ((receive_all g (signals_in before)).rejected ≡ false)

at_once :
    (g : GateState) (activations : List Activation)
    → decided g ≡ true
    → settle_gate g ≡ passed
    → Through g activations
unfolding receive_all
at_once g activations d s =
    ([], activations, refl, λ i. i, ground (arith, d, s), ground (arith, d, s))

await_gate-Through :
    (activations : List Activation) (g : GateState)
    → await_gate g activations ≡ passed
    → Through g activations
unfolding await_gate
await_gate-Through [] g h = elim (Bool-cases (decided g)) [
  | inl d ↦ at_once g [] d (ground (arith, d, h))
  | inr d ↦ absurd (ground (arith, d, h))
]
await_gate-Through (timer ∷ rest) g h = elim (Bool-cases (decided g)) [
  | inl d ↦ at_once g (timer ∷ rest) d (ground (arith, d, h))
  | inr d ↦ absurd (ground (arith, d, h))
]
await_gate-Through (signalled ss ∷ rest) g h = elim (Bool-cases (decided g)) [
  | inl d ↦ at_once g (signalled ss ∷ rest) d (ground (arith, d, h))
  | inr d ↦
      let next : await_gate (receive_all g ss) rest ≡ passed = ground (arith, d, h) in
      let (before, after, e, quiet, granted, unrefused) =
        await_gate-Through rest (receive_all g ss) next in
      (
        signalled ss ∷ before,
        after,
        ap (λ l. signalled ss ∷ l) e,
        λ i. elim i [ inl q ↦ cc q | inr j ↦ quiet j ],
        rw (receive_all-append g ss (signals_in before)) granted,
        rw (receive_all-append g ss (signals_in before)) unrefused,
      )
]

-- If the gate lets a run through, then what was received up to that point, before the gate or at
-- it, has an approval and no rejection, and the timer had not fired.
pub await_gate-passed :
    (early : List Signal) (activations : List Activation)
    → await_gate (receive_all start_gate early) activations ≡ passed
    → (before : List Activation) × (rest : List Activation) × (activations ≡ before ++ rest)
      × (¬ In timer before)
      × In approve (early ++ signals_in before)
      × ((reason : String) → ¬ In (reject reason) (early ++ signals_in before))
await_gate-passed early activations h =
    let (before, rest, e, quiet, granted, unrefused) =
      await_gate-Through activations (receive_all start_gate early) h in
    let all = receive_all-append start_gate early (signals_in before) in
    (
      before,
      rest,
      e,
      quiet,
      elim (approved-In (early ++ signals_in before) start_gate
          (ap (λ (g : GateState). g.approved) all ∙ granted)) [ inl f ↦ absurd (cc f) | inr i ↦ i ],
      λ reason i. cc (
        reject-rejected reason (early ++ signals_in before) start_gate i,
        ap (λ (g : GateState). g.rejected) all,
        unrefused,
      ),
    )
