-- ===== src/Scope/Positions/Correct.antt =====
-- Lemmas on the two walks of `scope_at`, down to a child and up to a parent.
use twai_swarm.Prelude.{
  ℕ, zero, suc, ◌+◌, ◌-◌, ◌≤◌, ◌<◌, ◌≡◌, refl, sym, ◌∙◌, subst, ◌↔◌, ◌⊎◌, inl, inr, true, false,
  Option, none, some, List, [], ◌∷◌, arith, Bool-cases, string_eq, lookup, In, list_at, member_iff,
  get_or, Option-cases, String, ok,
}
use twai_swarm.Scope.{Range, ScopeId, scope_eq}
use twai_swarm.Scope.Tree.{ScopeTree, children_of, parent_of, build_scope_tree}
use twai_swarm.Scope.Tree.Ranges.{Holds}
use twai_swarm.Scope.Tree.Walk.{Above, parent, up, Sound}
use twai_swarm.Scope.Tree.Links.{Linked}
use twai_swarm.Scope.Tree.Files.{WellFormed}
use twai_swarm.Scope.Tree.Correct.{related, built, build_scope_tree-Sound, Above-Holds}
use twai_swarm.Scope.Positions.{
  covers, first_covering, refine_loop, refine_innermost, climb, max_end,
}

pub covers_iff :
    (r : Range) (offset : ℕ)
    → (covers r offset ≡ true) ↔ ((r.start_byte ≤ offset) × (offset < r.end_byte))
unfolding covers
covers_iff r offset = ground arith

-- The first child that covers the offset, or the fact that none does.
first_covering-some :
    (offset : ℕ) (cs : List ScopeId) (c : ScopeId)
    → first_covering offset cs ≡ some c
    → In c cs × (covers c.range offset ≡ true)
unfolding first_covering
first_covering-some offset [] c h = cc
first_covering-some offset (x ∷ cs) c h = ground (arith, first_covering-some offset cs c)

first_covering-none :
    (offset : ℕ) (cs : List ScopeId) (c : ScopeId)
    → first_covering offset cs ≡ none
    → In c cs
    → covers c.range offset ≡ false
unfolding first_covering
first_covering-none offset [] c h i = absurd i
first_covering-none offset (x ∷ cs) c h i = ground (arith, first_covering-none offset cs c)

pub le-max_end : (s : ScopeId) (l : List ScopeId) → In s l → s.range.end_byte ≤ max_end l
unfolding max_end
le-max_end s [] i = absurd i
le-max_end s (x ∷ l) i = elim i [
  | inl e ↦ rw e (omega arith)
  | inr j ↦ omega (arith, le-max_end s l j)
]

-- The way down from `a` to a scope that it is above begins at one of its children.
Above-child :
    (t : ScopeTree) (a b : ScopeId)
    → Above t a b
    → (c : ScopeId) × (lookup c t.parents ≡ some (some a)) × ((c ≡ b) ⊎ Above t c b)
Above-child t a b (parent h) = (b, h, inl refl)
Above-child t a b (up {p = p} h r) =
    let (c, e, below) = Above-child t a p r in
    (c, e, elim below [ inl same ↦ inr (parent (rw same h)) | inr r' ↦ inr (up h r') ])

module _ (scopes : List ScopeId) (t : ScopeTree) (well : (s : ScopeId) → In s scopes → WellFormed s)
    (h : build_scope_tree scopes ≡ ok t) (file : String) (offset : ℕ) where
  abbrev pub Covering : ScopeId → Type 0
  Covering r = In r scopes × (r.file_path ≡ file) × (covers r.range offset ≡ true)

  -- `none` says that no scope of the file covers the offset; a scope covers it, and every other
  -- scope that does holds it.
  abbrev pub Innermost : Option ScopeId → Type 0
  Innermost none = (r : ScopeId) → In r scopes → r.file_path ≡ file → covers r.range offset ≡ false
  Innermost (some s) = Covering s × ((r : ScopeId) → Covering r → (r ≡ s) ⊎ Holds r.range s.range)

  linked : Linked t
  linked = (built scopes well t h).0

  pub known_iff : (s : ScopeId) → In s t.all ↔ In s scopes
  known_iff = (built scopes well t h).1

  sound : Sound t
  sound = build_scope_tree-Sound scopes t h

  pub nested : (a b : ScopeId) → Covering a → Covering b → (a ≡ b) ⊎ Above t a b ⊎ Above t b a
  nested a b ca cb = elim (related scopes well t h a b ca.0 cb.0 (ca.1 ∙ sym cb.1)) [
    | inl e ↦ inl e
    | inr (inl (inl r)) ↦ inr (inl r)
    | inr (inl (inr e)) ↦ absurd (
        let x = (covers_iff a.range offset).0 ca.2 in
        let y = (covers_iff b.range offset).0 cb.2 in omega arith)
    | inr (inr (inl r)) ↦ inr (inr r)
    | inr (inr (inr e)) ↦ absurd (
        let x = (covers_iff a.range offset).0 ca.2 in
        let y = (covers_iff b.range offset).0 cb.2 in omega arith)
  ]

  covers-Holds : (a b : Range) → Holds a b → covers b offset ≡ true → covers a offset ≡ true
  covers-Holds a b k c =
      let x = (covers_iff b offset).0 c in
      let l = k.starts in let m = k.ends in (covers_iff a offset).1 (omega arith)

  child_Covering :
      (p c : ScopeId)
      → Covering p
      → lookup c t.parents ≡ some (some p)
      → covers c.range offset ≡ true
      → Covering c
  child_Covering p c cp e k =
      let i = (known_iff c).0 (linked.child_known p c e) in
      (i, sym (well c i).0 ∙ sym (sound c p e).file ∙ (well p cp.0).0 ∙ cp.1, k)

  -- No child that covers the offset, so nothing further down does.
  no_deeper :
      (cur r : ScopeId)
      → first_covering offset (list_at cur t.children) ≡ none
      → Covering r
      → ¬ Above t cur r
  no_deeper cur r e cr a =
      let (child, edge, below) = Above-child t cur r a in
      let miss =
        first_covering-none offset (list_at cur t.children) child e
          ((linked.children_iff cur child).1 edge) in
      elim below [
        | inl same ↦ cc (subst (λ x. covers x.range offset ≡ true) (sym same) cr.2)
        | inr b ↦ cc (covers-Holds child.range r.range (Above-Holds t child r sound b) cr.2)
      ]

  upward :
      (cur p r : ScopeId)
      → lookup cur t.parents ≡ some (some p)
      → Above t r cur
      → (r ≡ p) ⊎ Above t r p ⊎ Holds p.range r.range
  upward cur p r e (parent k) = inl (ground arith)
  upward cur p r e (up {p = q} k a) =
      let same : q ≡ p = ground arith in inr (inl (subst (Above t r) same a))

  refine_lem :
      (fuel : ℕ) (cur : ScopeId)
      → Covering cur
      → cur.range.end_byte - cur.range.start_byte < fuel
      → (s : ScopeId) × (refine_loop t fuel cur offset ≡ ok s) × Innermost (some s)
  unfolding refine_loop
  refine_lem zero cur c m = absurd (omega arith)
  refine_lem (suc fuel) cur c m =
      let here : children_of t cur ≡ ok (list_at cur t.children) =
        unfold children_of in rw ((member_iff cur t.all).1 ((known_iff cur).1 c.0)) in
      elim (Option-cases (first_covering offset (list_at cur t.children))) [
        | inl e ↦ (
          cur,
          ground (arith, here, e),
          (
            c,
            λ r cr. elim (nested r cur cr c) [
              | inl same ↦ inl same
              | inr (inl a) ↦ inr (Above-Holds t r cur sound a)
              | inr (inr a) ↦ absurd (no_deeper cur r e cr a)
            ],
          ),
        )
        | inr (child, e) ↦
            let (i, k) = first_covering-some offset (list_at cur t.children) child e in
            let edge = (linked.children_iff cur child).0 i in
            let narrower = sound child cur edge in
            let wider = narrower.wider in
            let some_byte = (covers_iff child.range offset).0 k in
            let (s, found, inner) =
              refine_lem fuel child (child_Covering cur child c edge k)
                (let l = narrower.starts in let n = narrower.ends in omega arith) in
            (s, ground (arith, here, e, found), inner)
      ]

  refine_innermost_lem :
      (cur : ScopeId)
      → Covering cur
      → (s : ScopeId) × (refine_innermost t cur offset ≡ ok s) × Innermost (some s)
  unfolding refine_innermost
  refine_innermost_lem cur c =
      refine_lem (suc (cur.range.end_byte - cur.range.start_byte)) cur c (omega arith)

  -- Every scope that covers the offset is `cur`, or above it, or inside it.
  abbrev pub Reachable : ScopeId → Type 0
  Reachable cur = (r : ScopeId) → Covering r → (r ≡ cur) ⊎ Above t r cur ⊎ Holds cur.range r.range

  pub climb_lem :
      (fuel : ℕ) (cur : ScopeId)
      → In cur scopes
      → cur.file_path ≡ file
      → Reachable cur
      → cur.range.start_byte + (max_end t.all - cur.range.end_byte) < fuel
      → (res : Option ScopeId) × (climb t fuel cur offset ≡ ok res) × Innermost res
  unfolding climb
  climb_lem zero cur i path reach m = absurd (omega arith)
  climb_lem (suc fuel) cur i path reach m = elim (Bool-cases (covers cur.range offset)) [
    | inl c ↦
        let (s, e, inner) = refine_innermost_lem cur (i, path, c) in (some s, rw (c, e) refl, inner)
    | inr c ↦ elim (Option-cases (get_or none (lookup cur t.parents))) [
      | inl e ↦ (
        none,
        rw (c, here, e) refl,
        λ r ir pr. elim (Bool-cases (covers r.range offset)) [
          | inl k ↦ absurd (elim (reach r (ir, pr, k)) [
            | inl same ↦ cc (subst (λ x. covers x.range offset ≡ true) same k)
            | inr (inl a) ↦ no_parent r e a
            | inr (inr a) ↦ cc (covers-Holds cur.range r.range a k)
          ])
          | inr k ↦ k
        ],
      )
      | inr (p, e) ↦
          let edge : lookup cur t.parents ≡ some (some p) = ground arith in
          let holds = sound cur p edge in
          let wider = holds.wider in
          let starts = holds.starts in
          let ends = holds.ends in
          let known = linked.known p cur edge in
          let ip = (known_iff p).0 known in
          let bound = le-max_end p t.all known in
          let (res, found, inner) =
            climb_lem fuel p ip (sym (well p ip).0 ∙ holds.file ∙ (well cur i).0 ∙ path)
              (λ r cr. elim (reach r cr) [
                | inl same ↦
                    absurd (let k = cr.2 in cc (subst (λ x. covers x.range offset ≡ true) same k))
                | inr (inl a) ↦ upward cur p r edge a
                | inr (inr a) ↦ absurd (cc (covers-Holds cur.range r.range a cr.2))
              ])
              (omega arith) in
          (res, rw (c, here, e) found, inner)
    ]
  ]
    where
      here : parent_of t cur ≡ ok (get_or none (lookup cur t.parents))
      here = unfold parent_of in rw ((member_iff cur t.all).1 ((known_iff cur).1 i)) refl

      no_parent : (r : ScopeId) → get_or none (lookup cur t.parents) ≡ none → ¬ Above t r cur
      no_parent r e (parent k) = ground arith
      no_parent r e (up k a) = ground arith
