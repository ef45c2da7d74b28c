-- ===== src/Processes/Chains.antt =====
-- Lemmas on the depth-first search of _enumerate_chains.
use mathlib.Core.List.{reverse}
use twai_swarm.Prelude.{
  ℕ, zero, suc, ◌+◌, ◌-◌, ◌≤◌, ◌≡◌, refl, sym, ap, subst, ◌↔◌, ◌⊎◌, inl, inr, String, true, false,
  List, [], ◌∷◌, ◌++◌, arith, nat_eq, string_eq, leb, leb_iff, length, In, In-append, In-sort_by,
  In-dedup, dedup, member, member_iff, Bool-cases, if◌then◌else◌, str_leb,
}
use twai_swarm.Processes.{
  max_depth, CallGraph, Chain, chain_eq, chain_leb, targets, successors, for_each, dfs, chains_from,
  enumerate_chains,
}

In-targets : (a b : String) (es : List (String × String)) → In b (targets a es) ↔ In (a, b) es
unfolding targets
In-targets a b [] = ground arith
In-targets a b ((s, t) ∷ es) = ground (arith, In-targets a b es, string_eq.same_iff s a)

In-successors : (g : CallGraph) (a b : String) → In b (successors g a) ↔ In (a, b) g.edges
unfolding successors
In-successors g a b =
    let sorted = In-sort_by str_leb b (targets a g.edges) in
    let edge = In-targets a b g.edges in (λ i. edge.0 (sorted.0 i), λ i. sorted.1 (edge.1 i))

-- A path that the search can still reach: one more function that is called and not yet on the path.
data Extends (g : CallGraph) : ℕ → List String → List String → Type 0 where
  stop : (left : ℕ) (path : List String) → Extends g left path path
  step :
      (left : ℕ) (node nxt : String) (path final : List String)
      → In (node, nxt) g.edges
      → ¬ In nxt (node ∷ path)
      → Extends g left (nxt ∷ node ∷ path) final
      → Extends g (suc left) (node ∷ path) final

module _ (deeper : String → List String → List String → List Chain)
    (path visited : List String) where
  -- A chain of the loop comes from a successor that was not visited.
  In-for_each :
      (c : Chain) (succs : List String)
      → In c (for_each deeper path visited succs)
      → (nxt : String) × In nxt succs
        × (¬ In nxt visited)
        × In c (deeper nxt (nxt ∷ path) (nxt ∷ visited))
  unfolding for_each
  In-for_each c [] i = absurd i
  In-for_each c (s ∷ succs) i = go (Bool-cases (member s visited)) i (In-for_each c succs)
    where
      Found : List String → Type 0
      Found xs =
          (nxt : String) × In nxt xs
          × (¬ In nxt visited)
          × In c (deeper nxt (nxt ∷ path) (nxt ∷ visited))

      later : Found succs → Found (s ∷ succs)
      later (nxt, i, n, j) = (nxt, inr i, n, j)

      go :
          (member s visited ≡ true) ⊎ (member s visited ≡ false)
          → In c (
              if member s visited
              then for_each deeper path visited succs
              else deeper s (s ∷ path) (s ∷ visited) ++ for_each deeper path visited succs)
          → (In c (for_each deeper path visited succs) → Found succs)
          → Found (s ∷ succs)
      go (inl t) i f = later (f (rw t at i))
      go (inr t) i f =
          elim ((In-append c (deeper s (s ∷ path) (s ∷ visited))
              (for_each deeper path visited succs)).0
            (rw t at i)) [
              | inl j ↦ (s, inl refl, λ k. cc (t, (member_iff s visited).1 k), j)
              | inr j ↦ later (f j)
            ]

  for_each-In :
      (c : Chain) (succs : List String) (nxt : String)
      → In nxt succs
      → ¬ In nxt visited
      → In c (deeper nxt (nxt ∷ path) (nxt ∷ visited))
      → In c (for_each deeper path visited succs)
  unfolding for_each
  for_each-In c [] nxt i n j = absurd i
  for_each-In c (s ∷ succs) nxt (inl e) n j =
      let fresh : member s visited ≡ false = elim (Bool-cases (member s visited)) [
        | inl t ↦ absurd (n (subst (λ x. In x visited) (sym e) ((member_iff s visited).0 t)))
        | inr f ↦ f
      ] in
      rw fresh (
        (In-append c (deeper s (s ∷ path) (s ∷ visited)) (for_each deeper path visited succs)).1
          (inl (subst (λ x. In c (deeper x (x ∷ path) (x ∷ visited))) e j)))
  for_each-In c (s ∷ succs) nxt (inr i) n j = ground (
    arith,
    for_each-In c succs nxt i n j,
    In-append c (deeper s (s ∷ path) (s ∷ visited)) (for_each deeper path visited succs),
  )

-- What the search returns below a path, as a relation.
abbrev Found : CallGraph → ℕ → List String → Chain → Type 0
Found g left path c =
    (final : List String) × (c ≡ reverse final) × Extends g left path final × (2 ≤ length final)

dfs-Found :
    (left : ℕ) (g : CallGraph) (node : String) (p visited : List String) (c : Chain)
    → ((x : String) → In x (node ∷ p) → In x visited)
    → 2 ≤ left + length (node ∷ p)
    → In c (dfs left g node (node ∷ p) visited)
    → Found g left (node ∷ p) c
unfolding dfs
dfs-Found zero g node p visited c on h (inl e) =
    (node ∷ p, e, stop zero (node ∷ p), omega (arith, h))
dfs-Found zero g node p visited c on h (inr i) = absurd i
dfs-Found (suc left) g node p visited c on h i = go (Bool-cases (leb 2 (length (node ∷ p)))) i (λ j.
    below (In-for_each (dfs left g) (node ∷ p) visited c (successors g node) j) (λ nxt k.
      dfs-Found left g nxt (node ∷ p) (nxt ∷ visited) c
        (λ x l. elim l [ inl e ↦ inl e | inr m ↦ inr (on x m) ]) (omega (arith, h)) k))
  where
    deeper : List Chain
    deeper = for_each (dfs left g) (node ∷ p) visited (successors g node)

    below :
        ((nxt : String) × In nxt (successors g node)
          × (¬ In nxt visited)
          × In c (dfs left g nxt (nxt ∷ node ∷ p) (nxt ∷ visited)))
        → ((nxt : String)
            → In c (dfs left g nxt (nxt ∷ node ∷ p) (nxt ∷ visited))
            → Found g left (nxt ∷ node ∷ p) c)
        → Found g (suc left) (node ∷ p) c
    below (nxt, edge, fresh, j) found =
        let (final, e, x, l) = found nxt j in
        (
          final,
          e,
          step left node nxt p final ((In-successors g node nxt).0 edge) (λ k. fresh (on nxt k)) x,
          l,
        )

    go :
        (leb 2 (length (node ∷ p)) ≡ true) ⊎ (leb 2 (length (node ∷ p)) ≡ false)
        → In c (if leb 2 (length (node ∷ p)) then reverse (node ∷ p) ∷ deeper else deeper)
        → (In c deeper → Found g (suc left) (node ∷ p) c)
        → Found g (suc left) (node ∷ p) c
    go (inl t) j f = elim (rw t at j) [
      | inl e ↦ (node ∷ p, e, stop (suc left) (node ∷ p), ground (arith, t))
      | inr k ↦ f k
    ]
    go (inr t) j f = f (rw t at j)

dfs-In :
    (left : ℕ) (g : CallGraph) (node : String) (p visited final : List String)
    → ((x : String) → In x visited → In x (node ∷ p))
    → Extends g left (node ∷ p) final
    → 2 ≤ length final
    → In (reverse final) (dfs left g node (node ∷ p) visited)
unfolding dfs
dfs-In zero g node p visited final within (stop left path) h = inl refl
dfs-In (suc left) g node p visited final within (stop l path) h =
    rw ((leb_iff 2 (length (node ∷ p))).1 h) (inl refl)
dfs-In (suc left) g node p visited final within (step l n nxt q f edge fresh x) h =
    let inside : In (reverse final) (for_each (dfs left g) (node ∷ p) visited (successors g node)) =
      for_each-In (dfs left g) (node ∷ p) visited (reverse final) (successors g node) nxt
        ((In-successors g node nxt).1 edge) (λ i. fresh (within nxt i))
        (dfs-In left g nxt (node ∷ p) (nxt ∷ visited) final
          (λ y i. elim i [ inl e ↦ inl e | inr j ↦ inr (within y j) ]) x h) in
    elim (Bool-cases (leb 2 (length (node ∷ p)))) [
      | inl t ↦ rw t (inr inside)
      | inr t ↦ rw t inside
    ]

-- A simple path along calls, the latest function first.
abbrev pub Walk : CallGraph → List String → Type 0
Walk g [] = Unit
Walk g (a ∷ []) = Unit
Walk g (b ∷ a ∷ rest) = In (a, b) g.edges × (¬ In b (a ∷ rest)) × Walk g (a ∷ rest)

Extends-Walk :
    (g : CallGraph) (left : ℕ) (path final : List String)
    → Extends g left path final
    → Walk g path
    → Walk g final × (length final ≤ left + length path)
Extends-Walk g left path final (stop l p) w = (w, omega arith)
Extends-Walk g left path final (step l node nxt p f edge fresh x) w =
    let (v, h) = Extends-Walk g l (nxt ∷ node ∷ p) final x (edge, fresh, w) in (v, omega (arith, h))

-- A walk that goes on where an extension ends.
Extends-snoc :
    (g : CallGraph) (left : ℕ) (path : List String) (a b : String) (rest : List String)
    → Extends g left path (a ∷ rest)
    → In (a, b) g.edges
    → ¬ In b (a ∷ rest)
    → Extends g (suc left) path (b ∷ a ∷ rest)
Extends-snoc g left path a b rest (stop l p) edge fresh =
    step l a b rest (b ∷ a ∷ rest) edge fresh (stop l (b ∷ a ∷ rest))
Extends-snoc g left path a b rest (step l node nxt p f e n x) edge fresh =
    step (suc l) node nxt p (b ∷ a ∷ rest) e n
      (Extends-snoc g l (nxt ∷ node ∷ p) a b rest x edge fresh)

Extends-mono :
    (g : CallGraph) (left more : ℕ) (path final : List String)
    → left ≤ more
    → Extends g left path final
    → Extends g more path final
Extends-mono g left more path final h (stop l p) = stop more path
Extends-mono g (suc left) zero path final h (step l node nxt p f edge fresh x) =
    absurd (omega (arith, h))
Extends-mono g (suc left) (suc more) path final h (step l node nxt p f edge fresh x) =
    step more node nxt p final edge fresh
      (Extends-mono g left more (nxt ∷ node ∷ p) final (omega (arith, h)) x)

-- The function that the path begins with.
abbrev pub StartsAt : String → List String → Type 0
StartsAt e [] = ⊥
StartsAt e (a ∷ []) = a ≡ e
StartsAt e (b ∷ a ∷ rest) = StartsAt e (a ∷ rest)

Extends-StartsAt :
    (g : CallGraph) (e : String) (left : ℕ) (path final : List String)
    → Extends g left path final
    → StartsAt e path
    → StartsAt e final
Extends-StartsAt g e left path final (stop l p) s = s
Extends-StartsAt g e left path final (step l node nxt p f edge fresh x) s =
    Extends-StartsAt g e l (nxt ∷ node ∷ p) final x s

Walk-Extends :
    (g : CallGraph) (e : String) (steps : List String)
    → Walk g steps
    → StartsAt e steps
    → (left : ℕ) × (length steps ≡ suc left) × Extends g left (e ∷ []) steps
Walk-Extends g e [] w s = absurd s
Walk-Extends g e (a ∷ []) w s = (0, refl, rw s (stop 0 (e ∷ [])))
Walk-Extends g e (b ∷ a ∷ rest) w s =
    let (left, h, x) = Walk-Extends g e (a ∷ rest) w.2 s in
    (suc left, ap suc h, Extends-snoc g left (e ∷ []) a b rest x w.0 w.1)

-- A chain of calls from `e`: its functions from the latest to `e`, each called by the next and all
-- different, at least two and at most `max_depth`.
pub record Flow (g : CallGraph) (e : String) (c : Chain) : Type 0 where
  pub steps : List String
  pub is_chain : c ≡ reverse steps
  pub walk : Walk g steps
  pub starts : StartsAt e steps
  pub at_least : 2 ≤ length steps
  pub at_most : length steps ≤ max_depth

dfs-Flow :
    (g : CallGraph) (e : String) (c : Chain)
    → In c (dfs (max_depth - 1) g e (e ∷ []) (e ∷ []))
    → Flow g e c
dfs-Flow g e c i =
    let (final, q, x, h) = dfs-Found (max_depth - 1) g e [] (e ∷ []) c (λ y j. j) (omega arith) i in
    let (w, l) = Extends-Walk g (max_depth - 1) (e ∷ []) final x tt in
    record {
      steps = final;
      is_chain = q;
      walk = w;
      starts = Extends-StartsAt g e (max_depth - 1) (e ∷ []) final x refl;
      at_least = h;
      at_most = omega (arith, l);
    }

Flow-dfs :
    (g : CallGraph) (e : String) (c : Chain)
    → Flow g e c
    → In c (dfs (max_depth - 1) g e (e ∷ []) (e ∷ []))
Flow-dfs g e c f =
    let (left, h, x) = Walk-Extends g e f.steps f.walk f.starts in
    rw f.is_chain (
      dfs-In (max_depth - 1) g e [] (e ∷ []) f.steps (λ y j. j)
        (Extends-mono g left (max_depth - 1) (e ∷ []) f.steps (omega (arith, h, f.at_most)) x)
        f.at_least)

In-chains_from :
    (g : CallGraph) (entries : List String) (c : Chain)
    → In c (chains_from g entries) ↔ ((e : String) × In e entries × Flow g e c)
unfolding chains_from
In-chains_from g [] c = (λ i. absurd i, λ f. absurd f.1)
In-chains_from g (e ∷ es) c = (
  λ i. elim ((In-append c (dfs (max_depth - 1) g e (e ∷ []) (e ∷ [])) (chains_from g es)).0 i) [
    | inl j ↦ (e, inl refl, dfs-Flow g e c j)
    | inr j ↦ let (d, k, f) = (In-chains_from g es c).0 j in (d, inr k, f)
  ],
  λ f. (In-append c (dfs (max_depth - 1) g e (e ∷ []) (e ∷ [])) (chains_from g es)).1 (elim f.1 [
    | inl same ↦ inl (Flow-dfs g e c (subst (λ d. Flow g d c) same f.2))
    | inr k ↦ inr ((In-chains_from g es c).1 (f.0, k, f.2))
  ]),
)

-- The enumeration lists a chain if and only if it is a simple path along calls from one of the
-- entry points, of two to eight functions.
pub enumerate_chains_iff :
    (g : CallGraph) (entries : List String) (c : Chain)
    → In c (enumerate_chains g entries) ↔ ((e : String) × In e entries × Flow g e c)
unfolding enumerate_chains
enumerate_chains_iff g entries c =
    let sorted = In-sort_by chain_leb c (dedup (chains_from g entries)) in
    let once = In-dedup c (chains_from g entries) in
    let found = In-chains_from g entries c in
    (λ i. found.0 (once.0 (sorted.0 i)), λ f. sorted.1 (once.1 (found.1 f)))
