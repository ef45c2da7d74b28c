-- ===== src/Scope/Dispatch/Merge.antt =====
-- Lemmas on what the merge over the ancestors collects.
use mathlib.Core.List.{reverse}
use twai_swarm.Prelude.{
  ℕ, zero, suc, ◌≡◌, ◌≢◌, refl, sym, ap, subst, ◌⊎◌, inl, inr, String, false, none, some, List, [],
  ◌∷◌, arith, string_eq, Dict, lookup, list_at, In, member, member_iff, update, lookup-update,
  update-NodupKeys, NodupKeys, update_keeps, In-cases, In-reverse, ==_cases, if◌then◌else◌, Outcome,
  ok, ◌>>=◌, >>=-eq-ok, Bool-cases, Option-cases,
}
use twai_swarm.Scope.{Declaration}
use twai_swarm.Scope.Dispatch.{
  Methods, MethodDispatchIndex, own_methods, with_own, Merged, merge_parents, compute_merged,
}

-- `a` is `c`, or a parent of `c`, or a parent of a parent, and so on.
pub data Ancestor (index : MethodDispatchIndex) (a : String) : String → Type 0 where
  itself : Ancestor index a a
  through :
      {c p : String} → In p (list_at c index.parents) → Ancestor index a p → Ancestor index a c

-- One level of the merge, over the calls for the parents.
merge_step :
    MethodDispatchIndex
    → (String → List String → Outcome Merged)
    → String
    → List String
    → Outcome Merged
merge_step index compute c visited =
    let walked =
      merge_parents compute (reverse (list_at c index.parents)) ([], c ∷ visited)
      >>= with_own index c in
    if member c visited then ok ([], visited) else walked

module _ (index : MethodDispatchIndex) where
  -- No class lists a method name twice.
  abbrev pub HasDicts : Type 0
  HasDicts = (c : String) → NodupKeys (own_methods index c)

  abbrev Defines : String → String → Type 0
  Defines c name = lookup name (own_methods index c) ≢ none

  -- What one call has done: `visited` before it, `found` and `after` given back.
  pub record Done (c : String) (visited : List String) (found : Methods) (after : List String)
      : Type 0 where
    pub grows : (x : String) → In x visited → In x after
    pub marks : In c after
    pub nodup : NodupKeys found
    pub sound :
        (name : String) (d : Declaration)
        → lookup name found ≡ some d
        → (a : String) × Ancestor index a c × (lookup name (own_methods index a) ≡ some d)
    pub collects :
        (x name : String) → In x after → ¬ In x visited → Defines x name → lookup name found ≢ none
    pub closed :
        (x : String)
        → In x after
        → In x visited ⊎ ((p : String) → In p (list_at x index.parents) → In p after)

  -- What the loop over the parents `ps` has done, from the methods `before`.
  pub record Looped (ps : List String) (before : Methods) (visited : List String) (found : Methods)
      (after : List String) : Type 0 where
    pub grows : (x : String) → In x visited → In x after
    pub marks : (p : String) → In p ps → In p after
    pub nodup : NodupKeys found
    pub sound :
        (name : String) (d : Declaration)
        → lookup name found ≡ some d
        → (lookup name before ≡ some d)
          ⊎ ((a p : String) × In p ps
              × Ancestor index a p
              × (lookup name (own_methods index a) ≡ some d))
    pub keeps : (name : String) → lookup name before ≢ none → lookup name found ≢ none
    pub collects :
        (x name : String) → In x after → ¬ In x visited → Defines x name → lookup name found ≢ none
    pub closed :
        (x : String)
        → In x after
        → In x visited ⊎ ((p : String) → In p (list_at x index.parents) → In p after)

  merge_parents-Looped :
      (compute : String → List String → Outcome Merged)
      → ((c : String) (v : List String) (m : Methods) (w : List String)
          → compute c v ≡ ok (m, w)
          → Done c v m w)
      → (ps : List String) (before : Methods) (visited : List String) (found : Methods)
        (after : List String)
      → NodupKeys before
      → merge_parents compute ps (before, visited) ≡ ok (found, after)
      → Looped ps before visited found after
  unfolding merge_parents
  merge_parents-Looped compute done [] before visited found after n h =
      let e : before ≡ found = ground arith in
      let f : visited ≡ after = ground arith in
      record {
        grows = λ x i. subst (In x) f i;
        marks = λ p i. absurd i;
        nodup = subst NodupKeys e n;
        sound = λ name d k. inl (rw e k);
        keeps = λ name k. subst (λ m. lookup name m ≢ none) e k;
        collects = λ x name i out k. absurd (out (subst (In x) (sym f) i));
        closed = λ x i. inl (subst (In x) (sym f) i);
      }
  merge_parents-Looped compute done (p ∷ ps) before visited found after n h =
      let ((m, w), first, rest) = >>=-eq-ok (compute p visited) _ h in
      let d = done p visited m w first in
      let r =
        merge_parents-Looped compute done ps (update before m) w found after
          (update-NodupKeys before m n) rest in
      record {
        grows = λ x i. r.grows x (d.grows x i);
        marks = λ q i. elim i [ inl e ↦ rw e (r.grows p d.marks) | inr j ↦ r.marks q j ];
        nodup = r.nodup;
        sound = λ name decl k. elim (r.sound name decl k) [
          | inl e ↦ elim (Option-cases (lookup name m)) [
            | inl missing ↦ inl (ground (arith, lookup-update before m name d.nodup))
            | inr (decl', e') ↦
                let same : lookup name m ≡ some decl =
                  ground (arith, lookup-update before m name d.nodup) in
                let (a, up, own) = d.sound name decl same in inr (a, p, inl refl, up, own)
          ]
          | inr (a, q, i, up, own) ↦ inr (a, q, inr i, up, own)
        ];
        keeps = λ name k. r.keeps name (update_keeps before m name d.nodup (inl k));
        collects = λ x name i out k. elim (In-cases x w) [
          | inl j ↦
              r.keeps name (update_keeps before m name d.nodup (inr (d.collects x name j out k)))
          | inr j ↦ r.collects x name i j k
        ];
        closed = λ x i. elim (r.closed x i) [
          | inl j ↦ elim (d.closed x j) [ inl k ↦ inl k | inr f ↦ inr (λ q k. r.grows q (f q k)) ]
          | inr f ↦ inr f
        ];
      }

  module _ (dicts : HasDicts) where
    -- A class that was visited before gives nothing back.
    skip : (c : String) (visited : List String) → In c visited → Done c visited [] visited
    unfolding lookup
    skip c visited i = record {
      grows = λ x j. j;
      marks = i;
      nodup = tt;
      sound = λ name d k. cc k;
      collects = λ x name j out k. absurd (out j);
      closed = λ x j. inl j;
    }

    -- The class's own methods, put over those that its parents gave.
    finish :
        (c : String) (visited : List String) (m : Methods) (after : List String)
        → Looped (reverse (list_at c index.parents)) [] (c ∷ visited) m after
        → Done c visited (update m (own_methods index c)) after
    finish c visited m after r = record {
      grows = λ x i. r.grows x (inr i);
      marks = r.grows c (inl refl);
      nodup = update-NodupKeys m (own_methods index c) r.nodup;
      sound = λ name d k. elim (Option-cases (lookup name (own_methods index c))) [
        | inr (d', e) ↦
            (c, itself, ground (arith, lookup-update m (own_methods index c) name (dicts c)))
        | inl missing ↦
            let below : lookup name m ≡ some d =
              ground (arith, lookup-update m (own_methods index c) name (dicts c)) in
            elim (r.sound name d below) [
              | inl no_methods ↦ absurd (unfold lookup in cc no_methods)
              | inr (a, p, i, up, own) ↦
                  (a, through ((In-reverse p (list_at c index.parents)).0 i) up, own)
            ]
      ];
      collects = λ x name i out k.
          update_keeps m (own_methods index c) name (dicts c) (elim (==_cases x c) [
            | inl (_, e) ↦ inr (subst (λ y. Defines y name) e k)
            | inr (_, ne) ↦
                inl (r.collects x name i (λ j. elim j [ inl e ↦ ne e | inr l ↦ out l ]) k)
          ]);
      closed = λ x i. elim (r.closed x i) [
        | inl (inl e) ↦ inr (λ p j. r.marks p (
            (In-reverse p (list_at c index.parents)).1
              (subst (λ y. In p (list_at y index.parents)) e j)))
        | inl (inr j) ↦ inl j
        | inr f ↦ inr f
      ];
    }

    pub compute_merged-Done :
        (fuel : ℕ) (c : String) (visited : List String) (m : Methods) (after : List String)
        → compute_merged fuel index c visited ≡ ok (m, after)
        → Done c visited m after
    unfolding compute_merged
    compute_merged-Done zero c visited m after h = ground arith
    compute_merged-Done (suc fuel) c visited m after h = elim (Bool-cases (member c visited)) [
      | inl old ↦
          let none_found : [] ≡ m = ground (arith, old) in
          let same : visited ≡ after = ground (arith, old) in
          subst (Done c visited m) same (
            subst (λ x. Done c visited x visited) none_found
              (skip c visited ((member_iff c visited).0 old)))
      | inr new ↦
          let walked : (merge_parents (compute_merged fuel index)
                  (reverse (list_at c index.parents)) ([], c ∷ visited)
                >>= with_own index c)
              ≡ ok (m, after) =
            ground (arith, new) in
          let ((m', w), loop, last) = >>=-eq-ok _ _ walked in
          let e : update m' (own_methods index c) ≡ m = ground arith in
          let f : w ≡ after = ground arith in
          subst (Done c visited m) f (
            subst (λ x. Done c visited x w) e
              (finish c visited m' w (
                merge_parents-Looped (compute_merged fuel index)
                  (λ d v x y k. compute_merged-Done fuel d v x y k)
                  (reverse (list_at c index.parents)) [] (c ∷ visited) m' w tt loop)))
    ]

    -- A class's own method is the one in its merge.
    pub compute_merged-own :
        (fuel : ℕ) (c : String) (visited : List String) (m : Methods) (after : List String)
        (name : String) (d : Declaration)
        → member c visited ≡ false
        → compute_merged (suc fuel) index c visited ≡ ok (m, after)
        → lookup name (own_methods index c) ≡ some d
        → lookup name m ≡ some d
    unfolding compute_merged
    compute_merged-own fuel c visited m after name d new h own =
        let walked : (merge_parents (compute_merged fuel index) (reverse (list_at c index.parents))
                ([], c ∷ visited)
              >>= with_own index c)
            ≡ ok (m, after) =
          ground (arith, new) in
        let ((m', w), loop, last) =
          >>=-eq-ok
            (merge_parents (compute_merged fuel index) (reverse (list_at c index.parents))
              ([], c ∷ visited))
            (with_own index c) walked in
        let e : update m' (own_methods index c) ≡ m = ground arith in
        rw (← e) (ground (arith, lookup-update m' (own_methods index c) name (dicts c)))

-- The merge does not look at the cache.
pub compute_merged_uncached :
    (fuel : ℕ) (index : MethodDispatchIndex) (cache : Dict String Methods)
    → compute_merged fuel (record index { merged_cache = cache }) ≡ compute_merged fuel index
unfolding compute_merged merge_step
compute_merged_uncached zero index cache = refl
compute_merged_uncached (suc fuel) index cache =
    ap (merge_step index) (compute_merged_uncached fuel index cache)
