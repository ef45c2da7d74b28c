-- ===== src/Prelude/Sorting.antt =====
-- Python's `sorted(xs, key=...)`: a stable sort, by a test `le` that compares the keys.
use mathlib.Core.Path.{◌≡◌, refl, sym, ap, subst}
use mathlib.Core.Logic.{◌≢◌, ◌⊎◌, inl, inr, ◌↔◌}
use mathlib.Core.Bool.{Bool, true, false}
use mathlib.Core.Option.{some}
use mathlib.Core.List.{List, [], ◌∷◌}
use native.Mathlib.Omega.{arith}
use twai_swarm.Prelude.Tests.{if◌then◌else◌, Bool-cases}
use twai_swarm.Prelude.Lists.{In, All, All-map, All-In, Distinct, head?}

module _ {A : Type 0} (le : A → A → Bool) where
  -- An element goes before the first one that it may stand before, so equal keys keep their order.
  unfoldable pub insert_sorted : A → List A → List A
  insert_sorted x [] = x ∷ []
  insert_sorted x (y ∷ ys) = if le x y then x ∷ y ∷ ys else y ∷ insert_sorted x ys

  unfoldable pub sort_by : List A → List A
  unfolding insert_sorted
  sort_by [] = []
  sort_by (x ∷ xs) = insert_sorted x (sort_by xs)

  abbrev pub SortedBy : List A → Type 0
  SortedBy [] = Unit
  SortedBy (x ∷ xs) = All (λ y. le x y ≡ true) xs × SortedBy xs

  In-insert_sorted : (a x : A) (ys : List A) → In a (insert_sorted x ys) ↔ ((a ≡ x) ⊎ In a ys)
  unfolding insert_sorted
  In-insert_sorted a x [] = ground arith
  In-insert_sorted a x (y ∷ ys) = ground (arith, In-insert_sorted a x ys)

  pub In-sort_by : (a : A) (xs : List A) → In a (sort_by xs) ↔ In a xs
  unfolding sort_by
  In-sort_by a [] = ground arith
  In-sort_by a (x ∷ xs) = ground (arith, In-sort_by a xs, In-insert_sorted a x (sort_by xs))

  Distinct-insert_sorted :
      (x : A) (ys : List A) → ¬ In x ys → Distinct ys → Distinct (insert_sorted x ys)
  unfolding insert_sorted
  Distinct-insert_sorted x [] f d = (λ i. i, tt)
  Distinct-insert_sorted x (y ∷ ys) f d = elim (Bool-cases (le x y)) [
    | inl t ↦ rw t (f, d)
    | inr t ↦ rw t (
      λ i. elim ((In-insert_sorted y x ys).0 i) [ inl e ↦ f (inl (sym e)) | inr k ↦ d.0 k ],
      Distinct-insert_sorted x ys (λ i. f (inr i)) d.1,
    )
  ]

  pub Distinct-sort_by : (xs : List A) → Distinct xs → Distinct (sort_by xs)
  unfolding sort_by
  Distinct-sort_by [] d = tt
  Distinct-sort_by (x ∷ xs) d =
      Distinct-insert_sorted x (sort_by xs) (λ i. d.0 ((In-sort_by x xs).0 i))
        (Distinct-sort_by xs d.1)

  All-insert_sorted :
      (P : A → Type 0) (x : A) (ys : List A) → P x → All P ys → All P (insert_sorted x ys)
  unfolding insert_sorted
  All-insert_sorted P x [] p h = (p, tt)
  All-insert_sorted P x (y ∷ ys) p h = elim (Bool-cases (le x y)) [
    | inl t ↦ rw t (p, h)
    | inr t ↦ rw t (h.0, All-insert_sorted P x ys p h.1)
  ]

  module _ (total : (a b : A) → le a b ≡ false → le b a ≡ true)
      (trans : (a b c : A) → le a b ≡ true → le b c ≡ true → le a c ≡ true) where
    insert_sorted-SortedBy : (x : A) (ys : List A) → SortedBy ys → SortedBy (insert_sorted x ys)
    unfolding insert_sorted
    insert_sorted-SortedBy x [] s = (tt, tt)
    insert_sorted-SortedBy x (y ∷ ys) s = elim (Bool-cases (le x y)) [
      | inl t ↦ rw t (
        (t, All-map (λ z. le y z ≡ true) (λ z. le x z ≡ true) ys (λ z h. trans x y z t h) s.0),
        s,
      )
      | inr t ↦ rw t (
        All-insert_sorted (λ z. le y z ≡ true) x ys (total x y t) s.0,
        insert_sorted-SortedBy x ys s.1,
      )
    ]

    pub sort_by-SortedBy : (xs : List A) → SortedBy (sort_by xs)
    unfolding sort_by
    sort_by-SortedBy [] = tt
    sort_by-SortedBy (x ∷ xs) = insert_sorted-SortedBy x (sort_by xs) (sort_by-SortedBy xs)

    -- `sorted(xs, key=...)[0]`, and `min(xs, key=...)`.
    pub head?-sort_by :
        (xs : List A)
        → xs ≢ []
        → (w : A) × (head? (sort_by xs) ≡ some w) × In w xs × ((s : A) → In s xs → le w s ≡ true)
    head?-sort_by xs ne = go (sort_by xs) refl
      where
        none_in : (ys : List A) → ((a : A) → ¬ In a ys) → ys ≡ []
        none_in [] f = refl
        none_in (y ∷ ys) f = absurd (f y (inl refl))

        reflexive : (a : A) → le a a ≡ true
        reflexive a = elim (Bool-cases (le a a)) [ inl t ↦ t | inr f ↦ total a a f ]

        go :
            (ys : List A)
            → sort_by xs ≡ ys
            → (w : A) × (head? (sort_by xs) ≡ some w)
              × In w xs
              × ((s : A) → In s xs → le w s ≡ true)
        go [] e = absurd (ne (none_in xs (λ a i. subst (In a) e ((In-sort_by a xs).1 i))))
        go (x ∷ rest) e = (
          x,
          ap head? e,
          (In-sort_by x xs).0 (rw e (inl refl)),
          λ s i. elim (inside s i) [
            | inl same ↦ rw same (reflexive x)
            | inr j ↦
                All-In (λ y. le x y ≡ true) rest s (subst SortedBy e (sort_by-SortedBy xs)).0 j
          ],
        )
          where
            inside : (s : A) → In s xs → In s (x ∷ rest)
            inside s i = subst (In s) e ((In-sort_by s xs).1 i)
