-- ===== src/Scope/Tree/Related.antt =====
-- Lemmas on the walk of one file: how any two of its scopes relate.
use twai_swarm.Prelude.{
  ◌≤◌, ◌≡◌, refl, sym, ◌∙◌, ==_refl, ==_ne, Bool-cases, ◌≢◌, ◌⊎◌, inl, inr, true, false, none, some,
  List, [], ◌∷◌, arith, lookup, In, Distinct, ok, SortedBy, String, >>=-eq-ok, All-In,
}
use twai_swarm.Scope.{ScopeId, scope_eq}
use twai_swarm.Scope.Tree.{
  ScopeTree, ranges_overlap, range_strictly_contains, outer_first, pop_closed, place, walk,
}
use twai_swarm.Scope.Tree.Ranges.{
  Holds, IsNonempty, contains_iff, overlap_iff, outer_first-starts, outer_first-not_Holds,
}
use twai_swarm.Scope.Tree.Walk.{
  Above, Above-Extends, Extends, Chain, Chain-Extends, Chain-Above, place-Extends, parents-place,
  pop_closed-In, In-pop_closed, pop_closed-Chain, top, walk-parents,
}

abbrev pub EndsBefore : ScopeId → ScopeId → Type 0
EndsBefore a b = a.range.end_byte ≤ b.range.start_byte

abbrev pub Related : ScopeTree → ScopeId → ScopeId → Type 0
Related t a b = Above t a b ⊎ EndsBefore a b

-- What holds between two rounds: `done` are the scopes walked, `ss` those to come.
pub record Round (file : String) (t : ScopeTree) (stack done ss : List ScopeId) : Type 0 where
  pub chain : Chain t stack
  pub closed : (a : ScopeId) → In a done → In a stack ⊎ ((s : ScopeId) → In s ss → EndsBefore a s)
  pub before : (a s : ScopeId) → In a stack → In s ss → outer_first a s ≡ true
  pub fresh : (s : ScopeId) → In s ss → lookup s t.parents ≡ none
  pub same_file : (a : ScopeId) → In a stack ⊎ In a ss → a.range.file_path ≡ file
  pub nonempty : (s : ScopeId) → In s ss → IsNonempty s.range
  pub sorted : SortedBy outer_first ss
  pub distinct : Distinct ss

module _ (file : String) (t : ScopeTree) (stack done ss open_scopes : List ScopeId) (s : ScopeId)
    (r : Round file t stack done (s ∷ ss)) (popped : pop_closed stack s ≡ ok open_scopes) where
  -- What leaves the stack ends before the new scope starts.
  open_or_ended : (a : ScopeId) → In a stack → In a open_scopes ⊎ EndsBefore a s
  open_or_ended a i = elim (pop_closed-In stack s a open_scopes popped i) [
    | inl j ↦ inl j
    | inr (_, apart) ↦
        let starts = outer_first-starts a s (r.before a s i (inl refl)) in
        let wide = r.nonempty s (inl refl) in
        let fa = r.same_file a (inl i) in
        let fs = r.same_file s (inr (inl refl)) in inr (ground (arith, overlap_iff a.range s.range))
  ]

  open_or_ended_done : (a : ScopeId) → In a done → In a open_scopes ⊎ EndsBefore a s
  open_or_ended_done a i = elim (r.closed a i) [
    | inl j ↦ open_or_ended a j
    | inr ended ↦ inr (ended s (inl refl))
  ]

  -- It also ends before all that comes later.
  ended_later : (a x : ScopeId) → EndsBefore a s → In x ss → EndsBefore a x
  ended_later a x e i =
      omega (arith, outer_first-starts s x (All-In (λ y. outer_first s y ≡ true) ss x r.sorted.0 i))

  fresh_s : lookup s t.parents ≡ none
  fresh_s = r.fresh s (inl refl)

  placed : Extends t (place t file open_scopes s)
  placed = place-Extends t file open_scopes s fresh_s

  placed_top : lookup s (place t file open_scopes s).parents ≡ some (top open_scopes)
  placed_top = ground (arith, parents-place t file open_scopes s s, ==_refl s)

  pub next : Round file (place t file open_scopes s) (s ∷ open_scopes) (s ∷ done) ss
  next = record {
    chain = (
      placed_top,
      Chain-Extends t (place t file open_scopes s) open_scopes placed
          (pop_closed-Chain t stack s popped r.chain),
    );
    closed = λ a i. elim i [
      | inl e ↦ inl (inl e)
      | inr j ↦ elim (open_or_ended_done a j) [
        | inl k ↦ inl (inr k)
        | inr e ↦ inr (λ x k. ended_later a x e k)
      ]
    ];
    before = λ a x i j. elim i [
      | inl e ↦ rw e (All-In (λ y. outer_first s y ≡ true) ss x r.sorted.0 j)
      | inr k ↦ r.before a x (In-pop_closed stack s a open_scopes popped k) (inr j)
    ];
    fresh = λ x i.
        let old = r.fresh x (inr i) in
        let other = ==_ne s x (λ e. r.distinct.0 (rw e i)) in
        ground (arith, parents-place t file open_scopes s x);
    same_file = λ a i. elim i [
      | inl (inl e) ↦ rw e (r.same_file s (inr (inl refl)))
      | inl (inr k) ↦ r.same_file a (inl (In-pop_closed stack s a open_scopes popped k))
      | inr k ↦ r.same_file a (inr (inr k))
    ];
    nonempty = λ x i. r.nonempty x (inr i);
    sorted = r.sorted.1;
    distinct = r.distinct.1;
  }

  above_s : (a : ScopeId) → In a done → Related (place t file open_scopes s) a s
  above_s a i = elim (open_or_ended_done a i) [
    | inl j ↦
        inl (Chain-Above (place t file open_scopes s) open_scopes s a placed_top next.chain.1 j)
    | inr e ↦ inr e
  ]

pub Related-Extends :
    (t u : ScopeTree) (a b : ScopeId) → Extends t u → Related t a b → Related u a b
Related-Extends t u a b e (inl h) = inl (Above-Extends e h)
Related-Extends t u a b e (inr h) = inr h

-- Later rounds keep the parents that are recorded.
pub walk-Extends :
    (file : String) (t : ScopeTree) (stack done ss : List ScopeId) (u : ScopeTree)
    → Round file t stack done ss
    → walk t file stack ss ≡ ok u
    → Extends t u
walk-Extends file t stack done ss u r h x v e =
    walk-parents t file stack ss x h (λ i. let none' = r.fresh x i in ground (arith)) ∙ e

pub walk_cross :
    (file : String) (t : ScopeTree) (stack done ss : List ScopeId) (u : ScopeTree)
    → Round file t stack done ss
    → walk t file stack ss ≡ ok u
    → (a b : ScopeId) → In a done
    → In b ss
    → Related u a b
unfolding walk
walk_cross file t stack done [] u r h a b i j = absurd j
walk_cross file t stack done (s ∷ ss) u r h a b i j =
    let (open_scopes, popped, rest) = >>=-eq-ok (pop_closed stack s) _ h in
    let t' = place t file open_scopes s in
    let later = next file t stack done ss open_scopes s r popped in
    elim j [
      | inl e ↦ rw e (
          Related-Extends t' u a s
            (walk-Extends file t' (s ∷ open_scopes) (s ∷ done) ss u later rest)
            (above_s file t stack done ss open_scopes s r popped a i))
      | inr k ↦ walk_cross file t' (s ∷ open_scopes) (s ∷ done) ss u later rest a b (inr i) k
    ]

pub walk_among :
    (file : String) (t : ScopeTree) (stack done ss : List ScopeId) (u : ScopeTree)
    → Round file t stack done ss
    → walk t file stack ss ≡ ok u
    → (a b : ScopeId) → In a ss
    → In b ss
    → (a ≡ b) ⊎ Related u a b ⊎ Related u b a
unfolding walk
walk_among file t stack done [] u r h a b i j = absurd j
walk_among file t stack done (s ∷ ss) u r h a b i j =
    let (open_scopes, popped, rest) = >>=-eq-ok (pop_closed stack s) _ h in
    let t' = place t file open_scopes s in
    let later = next file t stack done ss open_scopes s r popped in
    let cross = walk_cross file t' (s ∷ open_scopes) (s ∷ done) ss u later rest in
    elim i [
      | inl e ↦ elim j [ inl f ↦ inl (e ∙ sym f) | inr k ↦ inr (inl (cross a b (inl e) k)) ]
      | inr k ↦ elim j [
        | inl f ↦ inr (inr (cross b a (inl f) k))
        | inr l ↦ walk_among file t' (s ∷ open_scopes) (s ∷ done) ss u later rest a b k l
      ]
    ]

-- Two scopes of a file nest, are one, or have no byte in common.
abbrev pub Laminar : ScopeId → ScopeId → Type 0
Laminar a b =
    (a ≡ b) ⊎ Holds a.range b.range ⊎ Holds b.range a.range ⊎ EndsBefore a b ⊎ EndsBefore b a

pop_closed_total :
    (stack : List ScopeId) (s : ScopeId)
    → ((x : ScopeId)
        → In x stack
        → Holds x.range s.range ⊎ (ranges_overlap x.range s.range ≡ false))
    → (open_scopes : List ScopeId) × (pop_closed stack s ≡ ok open_scopes)
unfolding pop_closed
pop_closed_total [] s h = ([], refl)
pop_closed_total (y ∷ stack) s h = elim (h y (inl refl)) [
  | inl holds ↦ (y ∷ stack, ground (arith, contains_iff y.range s.range))
  | inr apart ↦
      let (open_scopes, popped) = pop_closed_total stack s (λ x i. h x (inr i)) in
      elim (Bool-cases (range_strictly_contains y.range s.range)) [
        | inl c ↦ (y ∷ stack, rw c)
        | inr c ↦ (open_scopes, rw (c, apart) popped)
      ]
]

Chain-recorded :
    (t : ScopeTree) (stack : List ScopeId) (a : ScopeId)
    → Chain t stack
    → In a stack
    → lookup a t.parents ≢ none
Chain-recorded t [] a c i = absurd i
Chain-recorded t (x ∷ r) a c i = elim i [
  | inl e ↦ λ missing. let found = c.0 in cc e
  | inr j ↦ Chain-recorded t r a c.1 j
]

-- On scopes that nest or lie apart the walk ends without an error.
pub walk_total :
    (file : String) (t : ScopeTree) (stack done ss : List ScopeId)
    → Round file t stack done ss
    → ((a b : ScopeId) → In a stack ⊎ In a ss → In b ss → Laminar a b)
    → (u : ScopeTree) × (walk t file stack ss ≡ ok u)
unfolding walk
walk_total file t stack done [] r h = (t, refl)
walk_total file t stack done (s ∷ ss) r h =
    let (open_scopes, popped) =
      pop_closed_total stack s (λ x i. settled x i (h x s (inl i) (inl refl))) in
    let later = next file t stack done ss open_scopes s r popped in
    let (u, rest) =
      walk_total file (place t file open_scopes s) (s ∷ open_scopes) (s ∷ done) ss later (λ a b i j.
        elim i [
          | inl (inl e) ↦ h a b (inr (inl e)) (inr j)
          | inl (inr k) ↦ h a b (inl (In-pop_closed stack s a open_scopes popped k)) (inr j)
          | inr k ↦ h a b (inr (inr k)) (inr j)
        ]) in
    (u, rw popped rest)
  where
    settled :
        (x : ScopeId)
        → In x stack
        → Laminar x s
        → Holds x.range s.range ⊎ (ranges_overlap x.range s.range ≡ false)
    settled x i (inl e) = absurd (Chain-recorded t stack x r.chain i (rw e (r.fresh s (inl refl))))
    settled x i (inr (inl k)) = inl k
    settled x i (inr (inr (inl k))) =
        absurd (outer_first-not_Holds x s (r.before x s i (inl refl)) k)
    settled x i (inr (inr (inr (inl k)))) = inr (ground (arith, overlap_iff x.range s.range))
    settled x i (inr (inr (inr (inr k)))) = inr (ground (arith, overlap_iff x.range s.range))
