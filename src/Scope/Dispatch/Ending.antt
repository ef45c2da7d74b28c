-- ===== src/Scope/Dispatch/Ending.antt =====
-- Lemmas on the depth of the recursion over the ancestors.
use mathlib.Core.List.{reverse}
use twai_swarm.Prelude.{
  ℕ, zero, suc, ◌≤◌, ◌<◌, ◌≡◌, refl, inl, inr, String, false, List, [], ◌∷◌, arith, string_eq,
  lookup, list_at, In, In-append, In-reverse, In-cases, length, member, member_iff, update,
  if◌then◌else◌, Outcome, ok, Bool-cases, Dict,
}
use twai_swarm.Scope.Dispatch.{
  MethodDispatchIndex, own_methods, Merged, merge_parents, compute_merged, all_parents, merge_fuel,
}
use twai_swarm.Scope.Dispatch.Merge.{HasDicts, compute_merged-Done}

-- How many entries of a list are not yet visited.
abbrev unvisited : List String → List String → ℕ
unvisited visited [] = 0
unvisited visited (x ∷ xs) =
    let rest = unvisited visited xs in if member x visited then rest else suc rest

unvisited-le-length : (visited xs : List String) → unvisited visited xs ≤ length xs
unvisited-le-length visited [] = omega arith
unvisited-le-length visited (x ∷ xs) = ground (arith, unvisited-le-length visited xs)

unvisited_mono :
    (v w xs : List String) → ((x : String) → In x v → In x w) → unvisited w xs ≤ unvisited v xs
unvisited_mono v w [] h = omega arith
unvisited_mono v w (x ∷ xs) h =
    ground (arith, unvisited_mono v w xs h, h x, member_iff x v, member_iff x w)

unvisited_mark :
    (v xs : List String) (p : String)
    → In p xs
    → member p v ≡ false
    → unvisited (p ∷ v) xs < unvisited v xs
unvisited_mark v [] p i new = absurd i
unvisited_mark v (x ∷ xs) p i new = elim (In-cases p xs) [
  | inl j ↦ ground (arith, unvisited_mark v xs p j new, member_iff x v, member_iff x (p ∷ v))
  | inr out ↦ ground (
    arith,
    unvisited_mono v (p ∷ v) xs (λ y k. inr k),
    member_iff x v,
    member_iff p v,
    member_iff x (p ∷ v),
  )
]

In-all_parents :
    (parents : Dict String (List String)) (c p : String)
    → In p (list_at c parents)
    → In p (all_parents parents)
unfolding all_parents lookup
In-all_parents [] c p i = absurd i
In-all_parents ((d, ps) ∷ rest) c p i =
    ground (arith, In-append p ps (all_parents rest), In-all_parents rest c p)

module _ (index : MethodDispatchIndex) (dicts : HasDicts index) where
  abbrev pool : List String
  pool = all_parents index.parents

  merge_parents_total :
      (compute : String → List String → Outcome Merged) (start ps : List String)
      → ((p : String) (v : List String)
          → In p ps
          → ((x : String) → In x start → In x v)
          → (r : Merged) × (compute p v ≡ ok r) × ((x : String) → In x v → In x r.1))
      → (acc : Merged) → ((x : String) → In x start → In x acc.1)
      → (r : Merged) × (merge_parents compute ps acc ≡ ok r)
  unfolding merge_parents
  merge_parents_total compute start [] h acc k = (acc, refl)
  merge_parents_total compute start (p ∷ ps) h acc k =
      let (found, first, grows) = h p acc.1 (inl refl) k in
      let (r, rest) =
        merge_parents_total compute start ps (λ q v i. h q v (inr i))
          (update acc.0 found.0, found.1) (λ x i. grows x (k x i)) in
      (r, rw first rest)

  -- One more mark takes one more entry of the pool.
  room :
      (fuel : ℕ) (c : String) (visited : List String) (p : String) (v : List String)
      → unvisited (c ∷ visited) pool < suc fuel
      → member p v ≡ false
      → In p (reverse (list_at c index.parents))
      → ((x : String) → In x (c ∷ visited) → In x v)
      → unvisited (p ∷ v) pool < fuel
  room fuel c visited p v h fresh i k =
      let listed =
        In-all_parents index.parents c p ((In-reverse p (list_at c index.parents)).0 i) in
      omega (arith, unvisited_mark v pool p listed fresh, unvisited_mono (c ∷ visited) v pool k)

  compute_merged_total :
      (fuel : ℕ) (c : String) (visited : List String)
      → unvisited (c ∷ visited) pool < fuel
      → (r : Merged) × (compute_merged (suc fuel) index c visited ≡ ok r)
  unfolding compute_merged
  compute_merged_total zero c visited h = absurd (omega arith)
  compute_merged_total (suc fuel) c visited h = elim (Bool-cases (member c visited)) [
    | inl old ↦ (([], visited), rw old refl)
    | inr new ↦
        let (acc, loop) =
          merge_parents_total (compute_merged (suc fuel) index) (c ∷ visited)
            (reverse (list_at c index.parents))
            (λ p v i k. elim (Bool-cases (member p v)) [
              | inl seen ↦ (([], v), rw seen refl, λ x j. j)
              | inr fresh ↦
                  let (r, e) =
                    compute_merged_total fuel p v (room fuel c visited p v h fresh i k) in
                  (r, e, (compute_merged-Done index dicts (suc fuel) p v r.0 r.1 e).grows)
            ])
            ([], c ∷ visited) (λ x i. i) in
        ((update acc.0 (own_methods index c), acc.1), ground (arith, new, loop))
  ]

  pub merge_ends :
      (c : String) → (r : Merged) × (compute_merged (merge_fuel index) index c [] ≡ ok r)
  unfolding merge_fuel
  merge_ends c =
      compute_merged_total (suc (length pool)) c []
        (omega (arith, unvisited-le-length (c ∷ []) pool))
