-- ===== src/Scope/Tree/Grouping.antt =====
-- Lemmas on the grouping of the scopes by file.
use twai_swarm.Prelude.{
  ◌≡◌, ◌↔◌, ◌⊎◌, inl, inr, List, [], ◌∷◌, arith, Bool-cases, ◌==◌, string_eq, In, In-append,
  Distinct, Distinct-concat, member, member_iff, list_at, list_at-append_at, append_at-NodupKeys,
  NodupKeys, String,
}
use twai_swarm.Scope.{ScopeId, scope_eq}
use twai_swarm.Scope.Tree.{Groups, add_scope, group_scopes}

pub record Grouped (g : Groups) : Type 0 where
  pub listed : (s : ScopeId) → In s g.seen ↔ In s (list_at s.file_path g.per_file)
  pub same_path : (f : String) (s : ScopeId) → In s (list_at f g.per_file) → s.file_path ≡ f
  pub distinct : (f : String) → Distinct (list_at f g.per_file)
  pub keys : NodupKeys g.per_file

add_scope-Grouped : (g : Groups) (s : ScopeId) → Grouped g → Grouped (add_scope g s)
unfolding add_scope
add_scope-Grouped g s h = elim (Bool-cases (member s g.seen)) [
  | inl old ↦ rw old h
  | inr new ↦ rw new (record {
    listed = λ x. ground (
      arith,
      h.listed x,
      In-append x g.seen (s ∷ []),
      In-append x (list_at s.file_path g.per_file) (s ∷ []),
      list_at-append_at s.file_path x.file_path s g.per_file,
      string_eq.same_iff s.file_path x.file_path,
    );
    same_path = λ f x i. ground (
      arith,
      h.same_path f x,
      h.same_path s.file_path x,
      In-append x (list_at s.file_path g.per_file) (s ∷ []),
      list_at-append_at s.file_path f s g.per_file,
      string_eq.same_iff s.file_path f,
    );
    distinct = λ f. elim (Bool-cases (s.file_path == f)) [
      | inl e ↦
          rw (list_at-append_at s.file_path f s g.per_file, e)
            (Distinct-concat (list_at s.file_path g.per_file) s (h.distinct s.file_path)
              (λ i. ground (arith, h.listed s, member_iff s g.seen)))
      | inr e ↦ rw (list_at-append_at s.file_path f s g.per_file, e) (h.distinct f)
    ];
    keys = append_at-NodupKeys s.file_path s g.per_file h.keys;
  })
]

pub group_scopes-Grouped :
    (g : Groups) (ss : List ScopeId) → Grouped g → Grouped (group_scopes g ss)
unfolding group_scopes
group_scopes-Grouped g [] h = h
group_scopes-Grouped g (s ∷ ss) h =
    group_scopes-Grouped (add_scope g s) ss (add_scope-Grouped g s h)

seen-add_scope : (g : Groups) (s x : ScopeId) → In x (add_scope g s).seen ↔ (In x g.seen ⊎ (x ≡ s))
unfolding add_scope
seen-add_scope g s x = elim (Bool-cases (member s g.seen)) [
  | inl old ↦ rw old (inl, λ h. elim h [ inl i ↦ i | inr e ↦ rw e ((member_iff s g.seen).0 old) ])
  | inr new ↦ rw new (ground (arith, In-append x g.seen (s ∷ [])))
]

pub seen-group_scopes :
    (g : Groups) (ss : List ScopeId) (x : ScopeId)
    → In x (group_scopes g ss).seen ↔ (In x g.seen ⊎ In x ss)
unfolding group_scopes
seen-group_scopes g [] x = ground arith
seen-group_scopes g (s ∷ ss) x =
    ground (arith, seen-group_scopes (add_scope g s) ss x, seen-add_scope g s x)
