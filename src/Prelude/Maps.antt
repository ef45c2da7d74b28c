-- ===== src/Prelude/Maps.antt =====
-- Python's `dict`, as its entries in insertion order. Proofs go by the laws.
use mathlib.Core.Path.{◌≡◌, refl}
use mathlib.Core.Option.{Option, none, some}
use mathlib.Core.Bool.{Bool, true, false, ◌||◌}
use mathlib.Core.Logic.{◌↔◌, ◌≢◌, ◌⊎◌, inl, inr}
use mathlib.Core.List.{List, [], ◌∷◌, ◌++◌}
use native.Mathlib.Omega.{arith}
use twai_swarm.Prelude.Tests.{if◌then◌else◌}
use twai_swarm.Prelude.Equality.{HasEq, ◌==◌, ==_cases, ==_refl}
use twai_swarm.Prelude.Lists.{In, Distinct}
use twai_swarm.Prelude.Tests.{get_or, Bool-cases, Option-cases}

abbrev pub Dict {ℓ κ} : Type ℓ → Type κ → Type (ℓ ⊔ κ)
Dict K V = List (K × V)

module _ {ℓ κ} {K : Type ℓ} {V : Type κ} ⦃e : HasEq K⦄ where
  -- `d.get(k)`
  unfoldable pub lookup : K → Dict K V → Option V
  lookup k [] = none
  lookup k ((j, v) ∷ d) = if j == k then some v else lookup k d

  -- `d[k] = v`
  unfoldable pub insert : K → V → Dict K V → Dict K V
  insert k v [] = (k, v) ∷ []
  insert k v ((j, w) ∷ d) = if j == k then (j, v) ∷ d else (j, w) ∷ insert k v d

  pub lookup-insert :
      (k j : K) (v : V) (d : Dict K V)
      → lookup j (insert k v d) ≡ (if k == j then some v else lookup j d)
  unfolding lookup insert
  lookup-insert k j v [] = refl
  lookup-insert k j v ((i, w) ∷ d) =
      ground (arith, e.same_iff k j, e.same_iff i k, e.same_iff i j, lookup-insert k j v d)

  -- The entries and the answers of `lookup` are the same, where no key comes twice.
  abbrev pub NodupKeys : Dict K V → Type κ
  NodupKeys [] = Unit
  NodupKeys ((k, _) ∷ d) = (lookup k d ≡ none) × NodupKeys d

  pub insert-NodupKeys : (k : K) (v : V) (d : Dict K V) → NodupKeys d → NodupKeys (insert k v d)
  unfolding insert lookup
  insert-NodupKeys k v [] h = (refl, tt)
  insert-NodupKeys k v ((j, w) ∷ d) h =
      ground (arith, insert-NodupKeys k v d, lookup-insert k j v d, e.same_iff j k, e.same_iff k j)

-- `a`, or `b` where there is no `a`.
abbrev pub or_else {ℓ} : {A : Type ℓ} → Option A → Option A → Option A
or_else none b = b
or_else (some a) b = some a

module _ {ℓ κ} {K : Type ℓ} {V : Type κ} ⦃e : HasEq K⦄ where
  -- `d.update(other)`
  unfoldable pub update : Dict K V → Dict K V → Dict K V
  update d [] = d
  update d ((k, v) ∷ rest) = update (insert k v d) rest

  pub lookup-update :
      (d other : Dict K V) (k : K)
      → NodupKeys other
      → lookup k (update d other) ≡ or_else (lookup k other) (lookup k d)
  unfolding update lookup
  lookup-update d [] k n = refl
  lookup-update d ((j, v) ∷ rest) k n =
      ground (arith, lookup-update (insert j v d) rest k n.1, lookup-insert j k v d, e.same_iff j k)

  -- A key of either side is a key of the result.
  pub update_keeps :
      (d other : Dict K V) (k : K)
      → NodupKeys other
      → (lookup k d ≢ none) ⊎ (lookup k other ≢ none)
      → lookup k (update d other) ≢ none
  update_keeps d other k n h = ground (arith, lookup-update d other k n)

  pub update-NodupKeys : (d other : Dict K V) → NodupKeys d → NodupKeys (update d other)
  unfolding update
  update-NodupKeys d [] n = n
  update-NodupKeys d ((k, v) ∷ rest) n =
      update-NodupKeys (insert k v d) rest (insert-NodupKeys k v d n)

module _ {K : Type 0} {V : Type 0} ⦃e : HasEq K⦄ where
  pub In_of_lookup : (k : K) (v : V) (d : Dict K V) → lookup k d ≡ some v → In (k, v) d
  unfolding lookup
  In_of_lookup k v [] h = cc
  In_of_lookup k v ((j, w) ∷ d) h = elim (==_cases j k) [
    | inl (t, p) ↦ inl (ground arith)
    | inr (t, p) ↦ inr (In_of_lookup k v d (ground arith))
  ]

  pub lookup_of_In :
      (k : K) (v : V) (d : Dict K V) → NodupKeys d → In (k, v) d → lookup k d ≡ some v
  unfolding lookup
  lookup_of_In k v [] n i = absurd i
  lookup_of_In k v ((j, w) ∷ d) n i = elim i [
    | inl p ↦ ground (arith, ==_refl k)
    | inr i' ↦ ground (arith, lookup_of_In k v d n.1 i', e.same_iff j k)
  ]

-- `d[k].append(v)` on a `defaultdict(list)`, and `d.setdefault(k, []).append(v)`.
module _ {K : Type 0} {W : Type 0} ⦃e : HasEq K⦄ where
  unfoldable pub append_at : K → W → Dict K (List W) → Dict K (List W)
  append_at k v d = insert k (get_or [] (lookup k d) ++ v ∷ []) d

  -- The list at a key, empty where there is none.
  abbrev pub list_at : K → Dict K (List W) → List W
  list_at k d = get_or [] (lookup k d)

  pub list_at-append_at :
      (k j : K) (v : W) (d : Dict K (List W))
      → list_at j (append_at k v d) ≡ (if k == j then list_at k d ++ v ∷ [] else list_at j d)
  unfolding append_at
  list_at-append_at k j v d = ground (arith, lookup-insert k j (list_at k d ++ v ∷ []) d)

  pub append_at-NodupKeys :
      (k : K) (v : W) (d : Dict K (List W)) → NodupKeys d → NodupKeys (append_at k v d)
  unfolding append_at
  append_at-NodupKeys k v d h = insert-NodupKeys k (list_at k d ++ v ∷ []) d h

-- `a in xs`, as the test.
module _ {A : Type 0} ⦃e : HasEq A⦄ where
  unfoldable pub member : A → List A → Bool
  member a [] = false
  member a (x ∷ xs) = x == a || member a xs

  pub member_iff : (a : A) (xs : List A) → (member a xs ≡ true) ↔ In a xs
  unfolding member
  member_iff a [] = ground arith
  member_iff a (x ∷ xs) = ground (arith, e.same_iff x a, member_iff a xs)

  pub In-cases : (a : A) (xs : List A) → In a xs ⊎ (¬ In a xs)
  In-cases a xs = elim (Bool-cases (member a xs)) [
    | inl t ↦ inl ((member_iff a xs).0 t)
    | inr t ↦ inr (λ i. let u = (member_iff a xs).1 i in cc)
  ]

module _ {A : Type 0} ⦃e : HasEq A⦄ where
  -- The members of a set built from a list, each once.
  unfoldable pub dedup : List A → List A
  dedup [] = []
  dedup (x ∷ xs) = let rest = dedup xs in if member x rest then rest else x ∷ rest

  pub In-dedup : (a : A) (xs : List A) → In a (dedup xs) ↔ In a xs
  unfolding dedup
  In-dedup a [] = ground arith
  In-dedup a (x ∷ xs) = elim (Bool-cases (member x (dedup xs))) [
    | inl t ↦ rw t (
      λ i. inr ((In-dedup a xs).0 i),
      λ i. elim i [
        | inl same ↦ rw same ((member_iff x (dedup xs)).0 t)
        | inr j ↦ (In-dedup a xs).1 j
      ],
    )
    | inr t ↦ rw t (
      λ i. elim i [ inl same ↦ inl same | inr j ↦ inr ((In-dedup a xs).0 j) ],
      λ i. elim i [ inl same ↦ inl same | inr j ↦ inr ((In-dedup a xs).1 j) ],
    )
  ]

  pub Distinct-dedup : (xs : List A) → Distinct (dedup xs)
  unfolding dedup
  Distinct-dedup [] = tt
  Distinct-dedup (x ∷ xs) = elim (Bool-cases (member x (dedup xs))) [
    | inl t ↦ rw t (Distinct-dedup xs)
    | inr t ↦ rw t (λ i. cc (t, (member_iff x (dedup xs)).1 i), Distinct-dedup xs)
  ]

module _ {ℓ κ} {K : Type ℓ} {V : Type κ} {A : Type 0} ⦃e : HasEq K⦄ where
  -- The loop that writes one entry, or none, for each member of a list.
  unfoldable pub insert_all : (A → Option (K × V)) → Dict K V → List A → Dict K V
  insert_all entry d [] = d
  insert_all entry d (x ∷ xs) = elim (entry x) [
    | none ↦ insert_all entry d xs
    | some (k, v) ↦ insert_all entry (insert k v d) xs
  ]

module _ {K : Type 0} {V : Type 0} {A : Type 0} ⦃e : HasEq K⦄ where
  -- An entry of the result is one of before, or one that a member gave.
  pub lookup-insert_all :
      (entry : A → Option (K × V)) (d : Dict K V) (xs : List A) (k : K) (v : V)
      → lookup k (insert_all entry d xs) ≡ some v
      → (lookup k d ≡ some v) ⊎ ((x : A) × In x xs × (entry x ≡ some (k, v)))
  unfolding insert_all
  lookup-insert_all entry d [] k v h = inl h
  lookup-insert_all entry d (x ∷ xs) k v h = elim (Option-cases (entry x)) [
    | inl missing ↦ elim (lookup-insert_all entry d xs k v (ground (arith, missing))) [
      | inl old ↦ inl old
      | inr (y, i, given) ↦ inr (y, inr i, given)
    ]
    | inr ((j, w), given) ↦
        elim (lookup-insert_all entry (insert j w d) xs k v (ground (arith, given))) [
          | inl old ↦ elim (==_cases j k) [
            | inl (t, same) ↦ inr (x, inl refl, ground (arith, lookup-insert j k w d))
            | inr (t, other) ↦ inl (ground (arith, lookup-insert j k w d))
          ]
          | inr (y, i, given') ↦ inr (y, inr i, given')
        ]
  ]
