-- ===== src/Scope/Positions/Answers.antt =====
-- The answer of `scope_at` on the index of a built tree.
use twai_swarm.Prelude.{
  ℕ, ◌≡◌, refl, sym, ◌∙◌, subst, ◌↔◌, inl, inr, Option, none, some, List, [], ◌∷◌, map, arith,
  Bool-cases, string_eq, lookup, In, String, ok,
}
use twai_swarm.Scope.{Position, ScopeId, scope_eq}
use twai_swarm.Scope.Tree.{ScopeTree, build_scope_tree}
use twai_swarm.Scope.Tree.Files.{WellFormed}
use twai_swarm.Scope.Tree.Correct.{related, Above-Holds, build_scope_tree-Sound}
use twai_swarm.Scope.Positions.{
  PositionIndex, covers, bisect_right, candidate, climb_fuel, climb_from, start_of, scope_at,
  build_position_index,
}
use twai_swarm.Scope.Positions.Correct.{Innermost, Reachable, climb_lem, known_iff, covers_iff}
use twai_swarm.Scope.Positions.Candidates.{
  Listing, no_file, scopes_of, listing, IsCandidate, candidate-IsCandidate,
  tree-build_position_index,
}

-- What `scope_at` does on what the index lists for the file.
scope_at-no_file :
    (index : PositionIndex) (pos : Position)
    → lookup pos.file_path index.starts ≡ none
    → scope_at index pos ≡ ok none
unfolding scope_at
scope_at-no_file index pos e = ground arith

scope_at-empty :
    (index : PositionIndex) (pos : Position)
    → lookup pos.file_path index.starts ≡ some []
    → scope_at index pos ≡ ok none
unfolding scope_at
scope_at-empty index pos e = ground arith

scope_at-listed :
    (index : PositionIndex) (pos : Position) (n : ℕ) (ns : List ℕ) (l : List ScopeId)
    (res : Option ScopeId)
    → lookup pos.file_path index.starts ≡ some (n ∷ ns)
    → lookup pos.file_path index.by_start ≡ some l
    → climb_from index.tree (candidate l (bisect_right (n ∷ ns) pos.byte_offset)) pos.byte_offset
      ≡ ok res
    → scope_at index pos ≡ ok res
unfolding scope_at
scope_at-listed index pos n ns l res e f k = ground arith

module _ (scopes : List ScopeId) (t : ScopeTree) (well : (s : ScopeId) → In s scopes → WellFormed s)
    (h : build_scope_tree scopes ≡ ok t) (file : String) (offset : ℕ) where
  -- From the candidate the climb meets every scope that covers the offset.
  reachable :
      (l : List ScopeId) (c : ScopeId)
      → ((s : ScopeId) → In s l ↔ (In s t.all × (s.file_path ≡ file)))
      → IsCandidate l offset (some c)
      → Reachable scopes t well h file offset c
  reachable l c of_file k r cr =
      let known = known_iff scopes t well h file offset in
      let mine = (of_file c).0 k.0 in
      let ic = (known c).0 mine.0 in
      let byte = (covers_iff r.range offset).0 cr.2 in
      let early = k.2 r ((of_file r).1 ((known r).1 cr.0, cr.1)) byte.0 in
      let wide = (well c ic).1 in
      let sound = build_scope_tree-Sound scopes t h in
      elim (related scopes well t h r c cr.0 ic (cr.1 ∙ sym mine.1)) [
        | inl e ↦ inl e
        | inr (inl (inl a)) ↦ inr (inl a)
        | inr (inl (inr e)) ↦ absurd (let begins = k.1 in omega arith)
        | inr (inr (inl a)) ↦ inr (inr (Above-Holds t c r sound a))
        | inr (inr (inr e)) ↦ absurd (let begins = k.1 in omega arith)
      ]

  answer :
      (l : List ScopeId)
      → ((s : ScopeId) → In s l ↔ (In s t.all × (s.file_path ≡ file)))
      → (c : Option ScopeId) → IsCandidate l offset c
      → (res : Option ScopeId) × (climb_from t c offset ≡ ok res)
        × Innermost scopes t well h file offset res
  unfolding climb_from
  answer l of_file none k = (
    none,
    refl,
    λ r i p. elim (Bool-cases (covers r.range offset)) [
      | inl c ↦ absurd (
          let late = k r ((of_file r).1 ((known_iff scopes t well h file offset r).1 i, p)) in
          let byte = (covers_iff r.range offset).0 c in omega arith)
      | inr c ↦ c
    ],
  )
  answer l of_file (some c) k =
      let mine = (of_file c).0 k.0 in
      climb_lem scopes t well h file offset (climb_fuel t c) c
        ((known_iff scopes t well h file offset c).0 mine.0) mine.1 (reachable l c of_file k)
        (unfold climb_fuel in omega arith)

-- On scopes whose ranges lie in their own files and are not empty, where the builder succeeds,
-- `scope_at` on the index of the tree returns for every position, with no exception. If it returns
-- `none`, no given scope of the file covers the position. If it returns a scope, that is a given
-- scope of the file that covers the position, and every other one that does strictly contains it.
pub scope_at_innermost :
    (scopes : List ScopeId) (t : ScopeTree) (well : (s : ScopeId) → In s scopes → WellFormed s)
    (h : build_scope_tree scopes ≡ ok t) (pos : Position)
    → (res : Option ScopeId) × (scope_at (build_position_index t) pos ≡ ok res)
      × Innermost scopes t well h pos.file_path pos.byte_offset res
scope_at_innermost scopes t well h pos = go (listing t pos.file_path)
  where
    index : PositionIndex
    index = build_position_index t

    file : String
    file = pos.file_path

    known : (s : ScopeId) → In s t.all ↔ In s scopes
    known = known_iff scopes t well h file pos.byte_offset

    go :
        Listing t file
        → (res : Option ScopeId) × (scope_at (build_position_index t) pos ≡ ok res)
          × Innermost scopes t well h file pos.byte_offset res
    go (no_file e out) =
        (none, scope_at-no_file index pos e, λ r i p. absurd (out r ((known r).1 i) p))
    go (scopes_of [] e f s m) =
        (none, scope_at-empty index pos e, λ r i p. absurd ((m r).1 ((known r).1 i, p)))
    go (scopes_of (x ∷ l) e f s m) =
        let (res, found, inner) =
          answer scopes t well h file pos.byte_offset (x ∷ l) m
            (candidate (x ∷ l) (bisect_right (map start_of (x ∷ l)) pos.byte_offset))
            (candidate-IsCandidate (x ∷ l) pos.byte_offset s) in
        (
          res,
          scope_at-listed index pos x.range.start_byte (map start_of l) (x ∷ l) res e f (
              subst
                (λ u.
                  climb_from u
                    (candidate (x ∷ l) (bisect_right (map start_of (x ∷ l)) pos.byte_offset))
                    pos.byte_offset
                  ≡ ok res)
                (sym (tree-build_position_index t)) found),
          inner,
        )
