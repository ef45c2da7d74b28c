-- ===== src/Scope/Tree/Walk.antt =====
-- The walk of one file's sorted scopes: what it writes, and how the tree relates the scopes.
use twai_swarm.Prelude.{
  ◌≡◌, ◌⊎◌, inl, inr, false, Option, none, some, List, [], ◌∷◌, arith, if◌then◌else◌, Bool-cases,
  lookup, lookup-insert, ◌==◌, string_eq, In, ok, String, >>=-eq-ok,
}
use twai_swarm.Scope.{ScopeId, scope_eq}
use twai_swarm.Scope.Tree.{
  ScopeTree, ranges_overlap, range_strictly_contains, pop_closed, place, walk,
}
use twai_swarm.Scope.Tree.Ranges.{Holds, contains_iff}

-- `a` is the parent of `b`, or the parent of its parent, and so on.
pub data Above (t : ScopeTree) (a : ScopeId) : ScopeId → Type 0 where
  parent : {b : ScopeId} → lookup b t.parents ≡ some (some a) → Above t a b
  up : {b p : ScopeId} → lookup b t.parents ≡ some (some p) → Above t a p → Above t a b

-- A later tree keeps the parents that are recorded.
abbrev pub Extends : ScopeTree → ScopeTree → Type 0
Extends t u =
    (s : ScopeId) (v : Option ScopeId) → lookup s t.parents ≡ some v → lookup s u.parents ≡ some v

pub Above-Extends : {t u : ScopeTree} {a b : ScopeId} → Extends t u → Above t a b → Above u a b
Above-Extends {a = a} e (parent {b} h) = parent (e b (some a) h)
Above-Extends e (up {b} {p} h r) = up (e b (some p) h) (Above-Extends e r)

-- Every recorded parent holds its child.
abbrev pub Sound : ScopeTree → Type 0
Sound t = (s p : ScopeId) → lookup s t.parents ≡ some (some p) → Holds p.range s.range

abbrev pub top : List ScopeId → Option ScopeId
top [] = none
top (p ∷ _) = some p

pub parents-place :
    (t : ScopeTree) (file : String) (stack : List ScopeId) (s x : ScopeId)
    → lookup x (place t file stack s).parents
      ≡ (if s == x then some (top stack) else lookup x t.parents)
unfolding place
parents-place t file [] s x = lookup-insert s x none t.parents
parents-place t file (p ∷ r) s x = lookup-insert s x (some p) t.parents

-- A scope of the stack stays open, or it neither contains nor overlaps the new one.
pub pop_closed-In :
    (stack : List ScopeId) (s x : ScopeId) (open_scopes : List ScopeId)
    → pop_closed stack s ≡ ok open_scopes
    → In x stack
    → In x open_scopes
      ⊎ (range_strictly_contains x.range s.range ≡ false) × (ranges_overlap x.range s.range ≡ false)
unfolding pop_closed
pop_closed-In [] s x open_scopes h i = absurd i
pop_closed-In (y ∷ stack) s x open_scopes h i = ground (arith, pop_closed-In stack s x open_scopes)

pub In-pop_closed :
    (stack : List ScopeId) (s x : ScopeId) (open_scopes : List ScopeId)
    → pop_closed stack s ≡ ok open_scopes
    → In x open_scopes
    → In x stack
unfolding pop_closed
In-pop_closed [] s x open_scopes h i = ground arith
In-pop_closed (y ∷ stack) s x open_scopes h i = ground (arith, In-pop_closed stack s x open_scopes)

pub pop_closed-top :
    (stack : List ScopeId) (s p : ScopeId) {open_scopes : List ScopeId}
    → pop_closed stack s ≡ ok open_scopes
    → top open_scopes ≡ some p
    → Holds p.range s.range
unfolding pop_closed
pop_closed-top [] s p h e = ground arith
pop_closed-top (y ∷ stack) s p h e = elim (Bool-cases (range_strictly_contains y.range s.range)) [
  | inl t ↦ (contains_iff p.range s.range).0 (ground arith)
  | inr t ↦ pop_closed-top stack s p (ground arith) e
]

-- Each scope of the stack hangs under the next.
abbrev pub Chain : ScopeTree → List ScopeId → Type 0
Chain t [] = Unit
Chain t (x ∷ r) = (lookup x t.parents ≡ some (top r)) × Chain t r

pub pop_closed-Chain :
    (t : ScopeTree) (stack : List ScopeId) (s : ScopeId) {open_scopes : List ScopeId}
    → pop_closed stack s ≡ ok open_scopes
    → Chain t stack
    → Chain t open_scopes
unfolding pop_closed
pop_closed-Chain t [] s h c = ground arith
pop_closed-Chain t (y ∷ stack) s {open_scopes} h c =
    elim (Bool-cases (range_strictly_contains y.range s.range)) [
      | inl e ↦ let same : y ∷ stack ≡ open_scopes = ground arith in rw (← same) c
      | inr e ↦ pop_closed-Chain t stack s (ground arith) c.1
    ]

pub Chain-Extends :
    (t u : ScopeTree) (stack : List ScopeId) → Extends t u → Chain t stack → Chain u stack
Chain-Extends t u [] e c = tt
Chain-Extends t u (x ∷ r) e c = (e x (top r) c.0, Chain-Extends t u r e c.1)

pub Chain-Above :
    (t : ScopeTree) (stack : List ScopeId) (s a : ScopeId)
    → lookup s t.parents ≡ some (top stack)
    → Chain t stack
    → In a stack
    → Above t a s
Chain-Above t [] s a h c i = absurd i
Chain-Above t (y ∷ r) s a h c i = elim i [
  | inl e ↦ rw e (parent h)
  | inr j ↦ up h (Chain-Above t r y a c.0 c.1 j)
]

pub place-Extends :
    (t : ScopeTree) (file : String) (stack : List ScopeId) (s : ScopeId)
    → lookup s t.parents ≡ none
    → Extends t (place t file stack s)
place-Extends t file stack s fresh x v h =
    ground (arith, parents-place t file stack s x, scope_eq.same_iff s x)

pub place-Sound :
    (t : ScopeTree) (file : String) (stack open_scopes : List ScopeId) (s : ScopeId)
    → pop_closed stack s ≡ ok open_scopes
    → Sound t
    → Sound (place t file open_scopes s)
place-Sound t file stack open_scopes s h sound x p e = elim (Bool-cases (s == x)) [
  | inl same ↦
      rw (← (scope_eq.same_iff s x).0 same)
        (pop_closed-top stack s p h (ground (arith, parents-place t file open_scopes s x)))
  | inr other ↦ sound x p (ground (arith, parents-place t file open_scopes s x))
]

-- Every tree that the walk reaches is sound, and it records parents for the walked scopes alone.
pub walk-Sound :
    (t : ScopeTree) (file : String) (stack ss : List ScopeId) {u : ScopeTree}
    → walk t file stack ss ≡ ok u
    → Sound t
    → Sound u
unfolding walk
walk-Sound t file stack [] {u} h sound = let same : t ≡ u = ground arith in rw (← same) sound
walk-Sound t file stack (s ∷ ss) h sound =
    let (open_scopes, popped, rest) = >>=-eq-ok (pop_closed stack s) _ h in
    walk-Sound (place t file open_scopes s) file (s ∷ open_scopes) ss rest
      (place-Sound t file stack open_scopes s popped sound)

pub walk-parents :
    (t : ScopeTree) (file : String) (stack ss : List ScopeId) (x : ScopeId) {u : ScopeTree}
    → walk t file stack ss ≡ ok u
    → ¬ In x ss
    → lookup x u.parents ≡ lookup x t.parents
unfolding walk
walk-parents t file stack [] x h out = ground arith
walk-parents t file stack (s ∷ ss) x h out =
    let (open_scopes, popped, rest) = >>=-eq-ok (pop_closed stack s) _ h in
    let later =
      walk-parents (place t file open_scopes s) file (s ∷ open_scopes) ss x rest
        (λ i. out (inr i)) in
    ground (arith, later, parents-place t file open_scopes s x, scope_eq.same_iff s x)
