-- ===== src/Processes/Emitted.antt =====
-- Lemmas on the processes that the phase emits.
use twai_swarm.Prelude.{
  ℕ, zero, suc, ◌≤◌, ◌<◌, ◌≡◌, refl, sym, ◌∙◌, ap, subst, ◌↔◌, ◌⊎◌, inl, inr, String, Bool, true,
  false, Option, some, List, [], ◌∷◌, arith, nat_eq, string_eq, ◌==◌, ==_refl, ==_cases, ltb,
  get_or, length, take, In-take, length-take, map, Dict, lookup, insert, lookup-insert, In, All,
  All-In, All-map, Distinct, dedup, In-dedup, sort_by, In-sort_by, SortedBy, sort_by-SortedBy,
  Bool-cases, if◌then◌else◌, str_leb,
}
use twai_swarm.Processes.{
  Batch, Chain, ProcessNode, ProcessName, pair_eq, max_processes, build_call_graph, entry_points,
  enumerate_chains, community_lookup, labels_of, crossings, score_chain, format_name, scored,
  higher_score, name_processes, is_nil, extract, chain_eq,
}
use twai_swarm.Processes.Order.{higher_score_total, higher_score_trans}
use twai_swarm.Processes.Chains.{Flow, enumerate_chains_iff}
use twai_swarm.Processes.Entries.{entry_points_iff}

abbrev pub name_of : ProcessNode → ProcessName
name_of p = p.name

abbrev pub chain_of : ProcessNode → Chain
chain_of p = p.chain

abbrev used_at : String × String → Dict (String × String) ℕ → ℕ
used_at b used = get_or 0 (lookup b used)

abbrev used_after : Chain → Dict (String × String) ℕ → Dict (String × String) ℕ
used_after c used = insert (format_name c) (suc (used_at (format_name c) used)) used

used_at-after :
    (b : String × String) (c : Chain) (used : Dict (String × String) ℕ)
    → used_at b (used_after c used)
      ≡ (if format_name c == b then suc (used_at (format_name c) used) else used_at b used)
used_at-after b c used =
    ap (get_or 0) (lookup-insert (format_name c) b (suc (used_at (format_name c) used)) used)
    ∙ get_or-if (format_name c == b) (suc (used_at (format_name c) used)) (lookup b used)
  where
    get_or-if :
        (t : Bool) (n : ℕ) (o : Option ℕ)
        → get_or 0 (if t then some n else o) ≡ (if t then n else get_or 0 o)
    get_or-if true n o = refl
    get_or-if false n o = refl

-- A base name that the dictionary does not lose.
used_at-le-after :
    (b : String × String) (c : Chain) (used : Dict (String × String) ℕ)
    → used_at b used ≤ used_at b (used_after c used)
used_at-le-after b c used = elim (==_cases (format_name c) b) [
  | inl (t, e) ↦ rw (used_at-after b c used, t, e) (omega arith)
  | inr (t, _) ↦ rw (used_at-after b c used, t) (omega arith)
]

name_processes-chains :
    (used : Dict (String × String) ℕ) (cs : List Chain) → map chain_of (name_processes used cs) ≡ cs
unfolding name_processes
name_processes-chains used [] = refl
name_processes-chains used (c ∷ cs) = ap (λ l. c ∷ l) (name_processes-chains (used_after c used) cs)

-- A name takes a number above those that its base name has used.
name_processes-above :
    (used : Dict (String × String) ℕ) (cs : List Chain) (b : String × String) (k : ℕ)
    → In (b, k) (map name_of (name_processes used cs))
    → used_at b used < k
unfolding name_processes
name_processes-above used [] b k i = absurd i
name_processes-above used (c ∷ cs) b k (inl e) =
    rw (ap (λ (p : (String × String) × ℕ). p.0) e, ap (λ (p : (String × String) × ℕ). p.1) e)
      (omega arith)
name_processes-above used (c ∷ cs) b k (inr i) =
    omega (arith, name_processes-above (used_after c used) cs b k i, used_at-le-after b c used)

name_processes-Distinct :
    (used : Dict (String × String) ℕ) (cs : List Chain)
    → Distinct (map name_of (name_processes used cs))
unfolding name_processes
name_processes-Distinct used [] = tt
name_processes-Distinct used (c ∷ cs) = (
  λ i. above (
      name_processes-above (used_after c used) cs (format_name c)
        (suc (used_at (format_name c) used)) i),
  name_processes-Distinct (used_after c used) cs,
)
  where
    above : ¬ (used_at (format_name c) (used_after c used) < suc (used_at (format_name c) used))
    above h =
        let raised : used_at (format_name c) (used_after c used)
            ≡ suc (used_at (format_name c) used) =
          rw (used_at-after (format_name c) c used, ==_refl (format_name c)) refl in
        omega (arith, h, raised)

In-scored :
    (m : Dict String String) (c : Chain) (cs : List Chain)
    → In c (scored m cs) ↔ (In c cs × (0 < score_chain m c))
unfolding scored
In-scored m c [] = ground arith
In-scored m c (d ∷ cs) = elim (Bool-cases (ltb 0 (score_chain m d))) [
  | inl t ↦ rw t (ground (arith, In-scored m c cs, t))
  | inr t ↦ rw t (ground (arith, In-scored m c cs, t))
]

module _ {A : Type 0} (le : A → A → Bool) where
  -- Of a sorted list, what `take` leaves out stands after all that it keeps, which are `n`.
  take-SortedBy :
      (n : ℕ) (xs : List A) (a : A)
      → SortedBy le xs
      → In a xs
      → In a (take n xs) ⊎ (length (take n xs) ≡ n) × All (λ y. le y a ≡ true) (take n xs)
  take-SortedBy zero xs a s i = inr (refl, tt)
  take-SortedBy (suc n) [] a s i = absurd i
  take-SortedBy (suc n) (x ∷ xs) a s (inl e) = inl (inl e)
  take-SortedBy (suc n) (x ∷ xs) a s (inr i) = elim (take-SortedBy n xs a s.1 i) [
    | inl j ↦ inl (inr j)
    | inr (l, h) ↦ inr (ap suc l, (All-In (λ y. le x y ≡ true) xs a s.0 i, h))
  ]

-- The chains that start at an entry point and cross communities.
abbrev pub Crossing : Batch → Chain → Type 0
Crossing b c =
    ((e : String) × In e (entry_points (build_call_graph b)) × Flow (build_call_graph b) e c)
    × (0 < score_chain (community_lookup [] b.member_of) c)

pub record Extracted (b : Batch) (processes : List ProcessNode) : Type 0 where
  pub names : Distinct (map name_of (processes))
  pub at_most : length (processes) ≤ max_processes
  pub crossing : (c : Chain) → In c (map chain_of (processes)) → Crossing b c
  pub best :
      (c : Chain)
      → Crossing b c
      → In c (map chain_of (processes))
        ⊎ (length (map chain_of (processes)) ≡ max_processes)
          × All
              (λ d.
                score_chain (community_lookup [] b.member_of) c
                ≤ score_chain (community_lookup [] b.member_of) d)
              (map chain_of (processes))

nil {ℓ} : {A : Type ℓ} (xs : List A) → is_nil xs ≡ true → xs ≡ []
nil [] h = refl
nil (x ∷ xs) h = absurd (cc h)

unlabelled : (chain : Chain) → labels_of (community_lookup [] []) chain ≡ []
unfolding labels_of community_lookup lookup
unlabelled [] = refl
unlabelled (x ∷ chain) = unlabelled chain

unlabelled_score : (c : Chain) → score_chain (community_lookup [] []) c ≡ 0
unfolding score_chain crossings dedup
unlabelled_score c = rw (unlabelled c) (omega arith)

higher_score-le :
    (m : Dict String String) (d c : Chain)
    → higher_score m d c ≡ true
    → score_chain m c ≤ score_chain m d
unfolding higher_score
higher_score-le m d c h = ground (arith, h)

module _ (b : Batch) where
  abbrev labelled : Dict String String
  labelled = community_lookup [] b.member_of

  abbrev crossers : List Chain
  crossers =
      scored labelled (enumerate_chains (build_call_graph b) (entry_points (build_call_graph b)))

  abbrev ranked : List Chain
  ranked = sort_by (higher_score labelled) crossers

  In-crossers : (c : Chain) → In c crossers ↔ Crossing b c
  In-crossers c =
      let kept =
        In-scored labelled c
          (enumerate_chains (build_call_graph b) (entry_points (build_call_graph b))) in
      let found = enumerate_chains_iff (build_call_graph b) (entry_points (build_call_graph b)) c in
      (λ i. let (j, s) = kept.0 i in (found.0 j, s), λ h. kept.1 (found.1 h.0, h.1))

  no_functions : b.functions ≡ [] → (c : Chain) → ¬ Crossing b c
  unfolding build_call_graph dedup
  no_functions h c x =
      let e : String = x.0.0 in
      let node = ((entry_points_iff (build_call_graph b) e).0 x.0.1).0 in
      let given = (In-dedup e b.functions).0 ((In-sort_by str_leb e (dedup b.functions)).0 node) in
      subst (In e) h given

  no_entries : entry_points (build_call_graph b) ≡ [] → (c : Chain) → ¬ Crossing b c
  no_entries h c x = subst (In x.0.0) h x.0.1

  no_members : b.member_of ≡ [] → (c : Chain) → ¬ Crossing b c
  no_members h c x = zero_score (subst (λ m. 0 < score_chain (community_lookup [] m) c) h x.1)
    where
      zero_score : ¬ (0 < score_chain (community_lookup [] []) c)
      zero_score p = omega (arith, p, unlabelled_score c)

  extract-shape :
      (extract b ≡ name_processes [] (take max_processes ranked))
      ⊎ (extract b ≡ []) × ((c : Chain) → ¬ Crossing b c)
  unfolding extract
  extract-shape = elim (Bool-cases (is_nil b.functions)) [
    | inl t ↦ inr (ground (arith, t), no_functions (nil b.functions t))
    | inr t ↦ elim (Bool-cases (is_nil b.member_of)) [
      | inl u ↦ inr (ground (arith, t, u), no_members (nil b.member_of u))
      | inr u ↦ elim (Bool-cases (is_nil (entry_points (build_call_graph b)))) [
        | inl v ↦
            inr (ground (arith, t, u, v), no_entries (nil (entry_points (build_call_graph b)) v))
        | inr v ↦ inl (ground (arith, t, u, v))
      ]
    ]
  ]

  named-Extracted : Extracted b (name_processes [] (take max_processes ranked))
  named-Extracted = record {
    names = name_processes-Distinct [] (take max_processes ranked);
    at_most = omega (
      arith,
      length-take max_processes ranked,
      lengths (name_processes [] (take max_processes ranked)),
      ap length chains,
    );
    crossing = λ c i. (In-crossers c).0 (
        (In-sort_by (higher_score labelled) c crossers).0
          (In-take max_processes ranked c (subst (In c) chains i)));
    best = λ c x.
        subst
          (λ l.
            In c l
            ⊎ (length l ≡ max_processes)
              × All (λ d. score_chain labelled c ≤ score_chain labelled d) l)
          (sym chains) (kept c x);
  }
    where
      chains :
          map chain_of (name_processes [] (take max_processes ranked)) ≡ take max_processes ranked
      chains = name_processes-chains [] (take max_processes ranked)

      lengths : (ps : List ProcessNode) → length (map chain_of ps) ≡ length ps
      lengths [] = refl
      lengths (p ∷ ps) = ap suc (lengths ps)

      kept :
          (c : Chain)
          → Crossing b c
          → In c (take max_processes ranked)
            ⊎ (length (take max_processes ranked) ≡ max_processes)
              × All
                  (λ d. score_chain labelled c ≤ score_chain labelled d)
                  (take max_processes ranked)
      kept c x =
          elim (take-SortedBy (higher_score labelled) max_processes ranked c
            (sort_by-SortedBy (higher_score labelled) (higher_score_total labelled)
              (higher_score_trans labelled) crossers)
            ((In-sort_by (higher_score labelled) c crossers).1 ((In-crossers c).1 x))) [
              | inl i ↦ inl i
              | inr (n, h) ↦ inr (
                n,
                All-map (λ d. higher_score labelled d c ≡ true)
                    (λ d. score_chain labelled c ≤ score_chain labelled d)
                    (take max_processes ranked) (λ d k. higher_score-le labelled d c k) h,
              )
            ]

-- The processes that the phase emits have different names and are at most fifty. Each is a simple
-- path along calls from an entry point and crosses communities. Such a path is emitted, or fifty
-- are and none of them scores less.
pub extract-Extracted : (b : Batch) → Extracted b (extract b)
extract-Extracted b = elim (extract-shape b) [
  | inl e ↦ subst (Extracted b) (sym e) (named-Extracted b)
  | inr (e, none_cross) ↦ subst (Extracted b) (sym e) (record {
    names = tt;
    at_most = omega arith;
    crossing = λ c i. absurd i;
    best = λ c x. absurd (none_cross c x);
  })
]
