-- ===== src/Scope/Bindings/Nearest.antt =====
-- Lemmas on `add` and `find` of the LocalVarTypeIndex.
use twai_swarm.Prelude.{
  ℕ, zero, suc, ◌+◌, ◌-◌, ◌<◌, ◌≡◌, ◌≢◌, refl, sym, subst, ◌↔◌, ◌⊎◌, inl, inr, ◌&&◌, Option, none,
  some, List, [], arith, string_eq, ◌==◌, lookup, lookup-insert, insert, In, String, ok,
  Option-cases, get_or, if◌then◌else◌, member_iff,
}
use twai_swarm.Scope.{ScopeId, TypeRef, scope_eq}
use twai_swarm.Scope.Tree.{ScopeTree, parent_of, build_scope_tree}
use twai_swarm.Scope.Tree.Ranges.{Holds, Holds-trans}
use twai_swarm.Scope.Tree.Walk.{Above, parent, up, Sound}
use twai_swarm.Scope.Tree.Links.{Linked}
use twai_swarm.Scope.Tree.Files.{WellFormed}
use twai_swarm.Scope.Tree.Correct.{built, build_scope_tree-Sound, Above-Holds, Above-iff}
use twai_swarm.Scope.Positions.{max_end, climb_fuel}
use twai_swarm.Scope.Positions.Correct.{le-max_end}
use twai_swarm.Scope.Bindings.{LocalVarTypeIndex, bound_at, add, find, find_loop}

-- A write binds its name at its scope, in place of what was bound there, and changes no other
-- name or scope.
pub bound_at-add :
    (index : LocalVarTypeIndex) (s r : ScopeId) (x y : String) (ref : TypeRef)
    → bound_at (add index s x ref) r y ≡ (if s == r && x == y then some ref else bound_at index r y)
unfolding bound_at add lookup
bound_at-add index s r x y ref = ground (
  arith,
  lookup-insert s r (insert x ref (get_or [] (lookup s index.bindings))) index.bindings,
  lookup-insert x y ref (get_or [] (lookup s index.bindings)),
  scope_eq.same_iff s r,
)

module _ (scopes : List ScopeId) (t : ScopeTree) (well : (s : ScopeId) → In s scopes → WellFormed s)
    (h : build_scope_tree scopes ≡ ok t) (index : LocalVarTypeIndex) (name : String) where
  abbrev pub Encloses : ScopeId → ScopeId → Type 0
  Encloses r s = In r scopes × ((r ≡ s) ⊎ Holds r.range s.range)

  -- The answer for a start: none of the enclosing scopes binds the name, or `ref` is bound at one
  -- of them and every other one that binds the name encloses that one.
  abbrev pub Nearest : ScopeId → Option TypeRef → Type 0
  Nearest start none = (r : ScopeId) → Encloses r start → bound_at index r name ≡ none
  Nearest start (some ref) =
      (s : ScopeId) × Encloses s start
      × (bound_at index s name ≡ some ref)
      × ((r : ScopeId) → Encloses r start → bound_at index r name ≢ none → Encloses r s)

  linked : Linked t
  linked = (built scopes well t h).0

  known_iff : (s : ScopeId) → In s t.all ↔ In s scopes
  known_iff = (built scopes well t h).1

  sound : Sound t
  sound = build_scope_tree-Sound scopes t h

  -- What encloses a scope is the scope, or encloses its parent.
  by_parent :
      (cur p r : ScopeId)
      → In cur scopes
      → lookup cur t.parents ≡ some (some p)
      → Encloses r cur
      → (r ≡ cur) ⊎ Encloses r p
  by_parent cur p r i e (ir, inl same) = inl same
  by_parent cur p r i e (ir, inr holds) = elim ((Above-iff scopes t well h r cur ir i).1 holds) [
    | parent k ↦ inr (ir, inl (ground arith))
    | up {p = q} k a ↦
        let same : q ≡ p = ground arith in
        inr (ir, inr (Above-Holds t r p sound (subst (Above t r) same a)))
  ]

  root_only :
      (cur r : ScopeId)
      → In cur scopes
      → get_or none (lookup cur t.parents) ≡ none
      → Encloses r cur
      → r ≡ cur
  root_only cur r i e (ir, inl same) = same
  root_only cur r i e (ir, inr holds) = elim ((Above-iff scopes t well h r cur ir i).1 holds) [
    | parent k ↦ absurd (ground arith)
    | up k a ↦ absurd (ground arith)
  ]

  Encloses-child :
      (cur p s : ScopeId) → lookup cur t.parents ≡ some (some p) → Encloses s p → Encloses s cur
  Encloses-child cur p s e (is, inl same) =
      (is, inr (subst (λ x. Holds x.range cur.range) (sym same) (sound cur p e)))
  Encloses-child cur p s e (is, inr holds) = (is, inr (Holds-trans holds (sound cur p e)))

  -- The answer for a parent serves its child, where the child binds nothing.
  from_parent :
      (cur p : ScopeId) (res : Option TypeRef)
      → In cur scopes
      → bound_at index cur name ≡ none
      → lookup cur t.parents ≡ some (some p)
      → Nearest p res
      → Nearest cur res
  from_parent cur p none i unbound e n =
      λ r enc. elim (by_parent cur p r i e enc) [ inl same ↦ rw same unbound | inr k ↦ n r k ]
  from_parent cur p (some ref) i unbound e (s, enc, bound, nearest) = (
    s,
    Encloses-child cur p s e enc,
    bound,
    λ r er ne. elim (by_parent cur p r i e er) [
      | inl same ↦ absurd (ne (rw same unbound))
      | inr k ↦ nearest r k ne
    ],
  )

  find_loop_lem :
      (fuel : ℕ) (cur : ScopeId)
      → In cur scopes
      → cur.range.start_byte + (max_end t.all - cur.range.end_byte) < fuel
      → (res : Option TypeRef) × (find_loop index t fuel cur name ≡ ok res) × Nearest cur res
  unfolding find_loop
  find_loop_lem zero cur i m = absurd (omega arith)
  find_loop_lem (suc fuel) cur i m = elim (Option-cases (bound_at index cur name)) [
    | inr (ref, e) ↦ (some ref, ground (arith, e), (cur, (i, inl refl), e, λ r enc ne. enc))
    | inl unbound ↦ elim (Option-cases (get_or none (lookup cur t.parents))) [
      | inl e ↦
          (none, ground (arith, unbound, here, e), λ r enc. rw (root_only cur r i e enc) unbound)
      | inr (p, e) ↦
          let edge : lookup cur t.parents ≡ some (some p) = ground arith in
          let holds = sound cur p edge in
          let wider = holds.wider in
          let starts = holds.starts in
          let ends = holds.ends in
          let known = linked.known p cur edge in
          let bound = le-max_end p t.all known in
          let (res, found, n) = find_loop_lem fuel p ((known_iff p).0 known) (omega arith) in
          (res, ground (arith, unbound, here, e, found), from_parent cur p res i unbound edge n)
    ]
  ]
    where
      here : parent_of t cur ≡ ok (get_or none (lookup cur t.parents))
      here = unfold parent_of in rw ((member_iff cur t.all).1 ((known_iff cur).1 i)) refl

-- On the tree of given scopes whose ranges lie in their own files and are not empty, `find` from
-- one of the scopes returns, with no exception. If it returns `none`, no scope that encloses the
-- start (the start included) binds the name. Else it returns what an enclosing scope binds, and
-- every other enclosing scope that binds the name encloses that one too.
pub find-Nearest :
    (scopes : List ScopeId) (t : ScopeTree) (well : (s : ScopeId) → In s scopes → WellFormed s)
    (h : build_scope_tree scopes ≡ ok t) (index : LocalVarTypeIndex) (name : String)
    (start : ScopeId)
    → In start scopes
    → (res : Option TypeRef) × (find index start name t ≡ ok res)
      × Nearest scopes t well h index name start res
unfolding find climb_fuel
find-Nearest scopes t well h index name start i =
    find_loop_lem scopes t well h index name
      (suc (start.range.start_byte + (max_end t.all - start.range.end_byte))) start i (omega arith)
