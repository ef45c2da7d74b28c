-- ===== src/Scope/Tree/Links.antt =====
-- Lemmas on how `_parent`, `_children` and `_roots` of a tree agree.
use twai_swarm.Prelude.{
  ◌≡◌, refl, sym, ◌∙◌, ap, subst, ◌↔◌, ◌⊎◌, inl, inr, none, some, List, [], ◌∷◌, arith, lookup, In,
  In-append, String, ok, >>=-eq-ok, list_at, list_at-append_at, Dict, NodupKeys, sort_by,
  In-sort_by, string_eq,
}
use twai_swarm.Scope.{ScopeId, scope_eq}
use twai_swarm.Scope.Tree.{ScopeTree, pop_closed, place, walk, build_file, build_files, outer_first}
use twai_swarm.Scope.Tree.Walk.{parents-place, In-pop_closed}
use twai_swarm.Scope.Tree.Related.{Round, next}
use twai_swarm.Scope.Tree.Files.{AllFresh, AllFresh-next, build_file-walk, start}

pub record Linked (t : ScopeTree) : Type 0 where
  pub children_iff :
      (p c : ScopeId) → In c (list_at p t.children) ↔ (lookup c t.parents ≡ some (some p))
  pub known : (p c : ScopeId) → lookup c t.parents ≡ some (some p) → In p t.all
  pub child_known : (p c : ScopeId) → lookup c t.parents ≡ some (some p) → In c t.all

place-Linked :
    (t : ScopeTree) (file : String) (stack : List ScopeId) (s : ScopeId)
    → lookup s t.parents ≡ none
    → In s t.all
    → ((p : ScopeId) → In p stack → In p t.all)
    → Linked t
    → Linked (place t file stack s)
place-Linked t file [] s fresh held_s held h = record {
  children_iff = λ p c.
      unfold place in
      ground (arith, h.children_iff p c, parents-place t file [] s c, scope_eq.same_iff s c);
  known = λ p c e.
      unfold place in
      ground (arith, h.known p c, parents-place t file [] s c, scope_eq.same_iff s c);
  child_known = λ p c e.
      unfold place in
      ground (arith, h.child_known p c, parents-place t file [] s c, scope_eq.same_iff s c);
}
place-Linked t file (q ∷ stack) s fresh held_s held h = record {
  children_iff = λ p c.
      unfold place in
      ground (
        arith,
        h.children_iff p c,
        parents-place t file (q ∷ stack) s c,
        scope_eq.same_iff s c,
        scope_eq.same_iff q p,
        list_at-append_at q p s t.children,
        In-append c (list_at q t.children) (s ∷ []),
      );
  known = λ p c e.
      unfold place in
      ground
        (arith, h.known p c, parents-place t file (q ∷ stack) s c, scope_eq.same_iff s c, held p);
  child_known = λ p c e.
      unfold place in
      ground
        (arith, h.child_known p c, parents-place t file (q ∷ stack) s c, scope_eq.same_iff s c);
}

pub all-place :
    (t : ScopeTree) (file : String) (stack : List ScopeId) (s : ScopeId)
    → (place t file stack s).all ≡ t.all
unfolding place
all-place t file [] s = refl
all-place t file (p ∷ stack) s = refl

pub walk-Linked :
    (file : String) (t : ScopeTree) (stack done ss : List ScopeId) (u : ScopeTree)
    → Round file t stack done ss
    → ((a : ScopeId) → In a stack ⊎ In a ss → In a t.all)
    → Linked t
    → walk t file stack ss ≡ ok u
    → Linked u × (u.all ≡ t.all)
unfolding walk
walk-Linked file t stack done [] u r held l h =
    let same : t ≡ u = ground arith in (rw (← same) l, ap (λ x. x.all) (sym same))
walk-Linked file t stack done (s ∷ ss) u r held l h =
    let (open_scopes, popped, rest) = >>=-eq-ok (pop_closed stack s) _ h in
    let t' = place t file open_scopes s in
    let kept = all-place t file open_scopes s in
    let opened = λ (a : ScopeId) (i : In a open_scopes).
      held a (inl (In-pop_closed stack s a open_scopes popped i)) in
    let (linked, all_same) =
      walk-Linked file t' (s ∷ open_scopes) (s ∷ done) ss u
        (next file t stack done ss open_scopes s r popped)
        (λ a i. subst (In a) (sym kept) (elim i [
          | inl (inl e) ↦ held a (inr (inl e))
          | inl (inr j) ↦ opened a j
          | inr j ↦ held a (inr (inr j))
        ]))
        (place-Linked t file open_scopes s (r.fresh s (inl refl)) (held s (inr (inl refl))) opened
          l)
        rest in
    (linked, all_same ∙ kept)

pub build_files-Linked :
    (t : ScopeTree) (groups : Dict String (List ScopeId)) (u : ScopeTree)
    → NodupKeys groups
    → AllFresh t groups
    → ((file : String) (group : List ScopeId)
        → In (file, group) groups
        → (a : ScopeId) → In a group
        → In a t.all)
    → Linked t
    → build_files t groups ≡ ok u
    → Linked u × (u.all ≡ t.all)
unfolding build_files
build_files-Linked t [] u n f held l h =
    let same : t ≡ u = ground arith in (rw (← same) l, ap (λ x. x.all) (sym same))
build_files-Linked t ((file, scopes) ∷ rest) u n f held l h =
    let (t', first, later) = >>=-eq-ok (build_file t file scopes) _ h in
    let (linked, kept) =
      walk-Linked file t [] [] (sort_by outer_first scopes) t'
        (start t file scopes (f file scopes (inl refl)))
        (λ a i. elim i [
          | inl j ↦ absurd j
          | inr j ↦ held file scopes (inl refl) a ((In-sort_by outer_first a scopes).0 j)
        ])
        l (build_file-walk t file scopes t' first) in
    let (linked', kept') =
      build_files-Linked t' rest u n.1 (AllFresh-next t file scopes rest t' n f first)
        (λ other group i a j. subst (In a) (sym kept) (held other group (inr i) a j)) linked
        later in
    (linked', kept' ∙ kept)
