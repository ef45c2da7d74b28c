-- ===== src/Scope/Tree/Correct.antt =====
-- The contract of `build_scope_tree`: its edges against the nesting of the byte ranges.
use twai_swarm.Prelude.{
  ◌≡◌, refl, sym, ◌∙◌, ap, subst, ◌↔◌, ◌⊎◌, inl, inr, List, [], arith, string_eq, lookup, In,
  In_of_lookup, lookup_of_In, String, ok, list_at, get_or, Distinct, Option-cases,
}
use twai_swarm.Scope.{ScopeId, scope_eq}
use twai_swarm.Scope.Tree.{ScopeTree, Groups, empty, group_scopes, build_scope_tree}
use twai_swarm.Scope.Tree.Ranges.{Holds, Holds-trans, Holds-irrefl, Holds-asymm}
use twai_swarm.Scope.Tree.Walk.{Above, parent, up, Sound}
use twai_swarm.Scope.Tree.Related.{Related, Laminar}
use twai_swarm.Scope.Tree.Grouping.{Grouped, group_scopes-Grouped, seen-group_scopes}
use twai_swarm.Scope.Tree.Links.{Linked, build_files-Linked}
use twai_swarm.Scope.Tree.Files.{
  WellFormed, AllFresh, build_files-Sound, build_files-among, build_files_total,
}

abbrev start : Groups
start = record { seen = []; per_file = [] }

abbrev grouped : List ScopeId → Groups
grouped scopes = group_scopes start scopes

start-Grouped : Grouped start
unfolding lookup
start-Grouped = record {
  listed = λ s. (λ i. i, λ i. i);
  same_path = λ f s i. absurd i;
  distinct = λ f. tt;
  keys = tt;
}

Sound-empty : (seen : List ScopeId) → Sound (record empty { all = seen })
unfolding empty lookup
Sound-empty seen s p h = cc

Linked-empty : (seen : List ScopeId) → Linked (record empty { all = seen })
unfolding empty lookup
Linked-empty seen = record {
  children_iff = λ p c. (λ i. absurd i, λ e. cc);
  known = λ p c e. cc;
  child_known = λ p c e. cc;
}

module _ (scopes : List ScopeId) (well : (s : ScopeId) → In s scopes → WellFormed s) where
  facts : Grouped (grouped scopes)
  facts = group_scopes-Grouped start scopes start-Grouped

  seen_iff : (s : ScopeId) → In s (grouped scopes).seen ↔ In s scopes
  seen_iff s = (
    λ i. elim ((seen-group_scopes start scopes s).0 i) [ inl j ↦ absurd j | inr j ↦ j ],
    λ i. (seen-group_scopes start scopes s).1 (inr i),
  )

  group_of :
      (file : String) (group : List ScopeId)
      → In (file, group) (grouped scopes).per_file
      → list_at file (grouped scopes).per_file ≡ group
  group_of file group i =
      ap (λ o. get_or [] o) (lookup_of_In file group (grouped scopes).per_file facts.keys i)

  all_fresh : AllFresh (record empty { all = (grouped scopes).seen }) (grouped scopes).per_file
  unfolding empty lookup
  all_fresh file group i =
      let e = group_of file group i in
      let listed = λ (s : ScopeId) (j : In s group). subst (In s) (sym e) j in
      let path = λ (s : ScopeId) (j : In s group). facts.same_path file s (listed s j) in
      record {
        path = path;
        well = λ s j. well s (
            (seen_iff s).0 (
              (facts.listed s).1 (
                subst (λ f. In s (list_at f (grouped scopes).per_file)) (sym (path s j))
                  (listed s j))));
        distinct = subst Distinct e (facts.distinct file);
        no_parent = λ s j. refl;
      }

  -- The group of a scope's file is an entry, and holds the scope.
  entry :
      (s : ScopeId)
      → In s scopes
      → (group : List ScopeId) × In (s.file_path, group) (grouped scopes).per_file × In s group
  entry s i =
      let j = (facts.listed s).0 ((seen_iff s).1 i) in
      elim (Option-cases (lookup s.file_path (grouped scopes).per_file)) [
        | inl missing ↦ absurd (subst (λ o. In s (get_or [] o)) missing j)
        | inr (group, e) ↦
            (group, In_of_lookup s.file_path group _ e, subst (λ o. In s (get_or [] o)) e j)
      ]

  -- In a tree that the builder returns, two scopes of a file are one scope, or one is above the
  -- other, or one ends before the other starts.
  pub related :
      (t : ScopeTree)
      → build_scope_tree scopes ≡ ok t
      → (a b : ScopeId) → In a scopes
      → In b scopes
      → a.file_path ≡ b.file_path
      → (a ≡ b) ⊎ Related t a b ⊎ Related t b a
  unfolding build_scope_tree
  related t h a b i j same =
      let (ga, ea, ma) = entry a i in
      let (gb, eb, mb) = entry b j in
      let e : ga ≡ gb =
        sym (group_of a.file_path ga ea)
        ∙ ap (λ f. list_at f (grouped scopes).per_file) same
        ∙ group_of b.file_path gb eb in
      build_files-among (record empty { all = (grouped scopes).seen }) (grouped scopes).per_file t
        facts.keys all_fresh h a.file_path ga ea a b ma (subst (In b) (sym e) mb)

  group_listed :
      (file : String) (group : List ScopeId)
      → In (file, group) (grouped scopes).per_file
      → (a : ScopeId) → In a group
      → In a (grouped scopes).seen
  group_listed file group g a i =
      let f = all_fresh file group g in
      (facts.listed a).1 (
        subst (λ p. In a (list_at p (grouped scopes).per_file)) (sym (f.path a i))
          (subst (In a) (sym (group_of file group g)) i))

  -- The tree knows exactly the given scopes, and its children and parents agree.
  pub built :
      (t : ScopeTree)
      → build_scope_tree scopes ≡ ok t
      → Linked t × ((s : ScopeId) → In s t.all ↔ In s scopes)
  unfolding build_scope_tree
  built t h =
      let t0 = record empty { all = (grouped scopes).seen } in
      let (linked, kept) =
        build_files-Linked t0 (grouped scopes).per_file t facts.keys all_fresh group_listed
          (Linked-empty (grouped scopes).seen) h in
      (
        linked,
        λ s. (
          λ i. (seen_iff s).0 (subst (In s) kept i),
          λ i. subst (In s) (sym kept) ((seen_iff s).1 i),
        ),
      )

pub build_scope_tree-Sound :
    (scopes : List ScopeId) (t : ScopeTree) → build_scope_tree scopes ≡ ok t → Sound t
unfolding build_scope_tree
build_scope_tree-Sound scopes t h =
    build_files-Sound (record empty { all = (grouped scopes).seen }) (grouped scopes).per_file t h
      (Sound-empty (grouped scopes).seen)

pub Above-Holds : (t : ScopeTree) (a b : ScopeId) → Sound t → Above t a b → Holds a.range b.range
Above-Holds t a b s (parent h) = s b a h
Above-Holds t a b s (up {p = p} h r) = Holds-trans (Above-Holds t a p s r) (s b p h)

-- Where the builder succeeds on scopes whose ranges lie in their own files and are not empty, one
-- of the given scopes is an ancestor of another exactly if its range strictly contains the other's.
pub Above-iff :
    (scopes : List ScopeId) (t : ScopeTree)
    → ((s : ScopeId) → In s scopes → WellFormed s)
    → build_scope_tree scopes ≡ ok t
    → (a b : ScopeId) → In a scopes
    → In b scopes
    → Above t a b ↔ Holds a.range b.range
Above-iff scopes t well h a b i j = (
  Above-Holds t a b sound,
  λ k.
      let same : a.file_path ≡ b.file_path = sym (well a i).0 ∙ k.file ∙ (well b j).0 in
      let wa = (well a i).1 in
      let wb = (well b j).1 in
      elim (related scopes well t h a b i j same) [
        | inl e ↦ absurd (Holds-irrefl b.range (subst (λ x. Holds x.range b.range) e k))
        | inr (inl (inl r)) ↦ r
        | inr (inl (inr e)) ↦ absurd (let l = k.ends in omega arith)
        | inr (inr (inl r)) ↦ absurd (Holds-asymm k (Above-Holds t b a sound r))
        | inr (inr (inr e)) ↦ absurd (let l = k.starts in omega arith)
      ],
)
  where
    sound : Sound t
    sound = build_scope_tree-Sound scopes t h

-- On scopes whose ranges lie in their own files and are not empty, the builder succeeds exactly if
-- every two scopes of one file are the same scope, or one range strictly contains the other, or
-- one ends before the other starts; where it succeeds no two of them overlap in part.
pub build_scope_tree-ok_iff :
    (scopes : List ScopeId)
    → ((s : ScopeId) → In s scopes → WellFormed s)
    → ((t : ScopeTree) × (build_scope_tree scopes ≡ ok t))
      ↔ ((a b : ScopeId) → In a scopes → In b scopes → a.file_path ≡ b.file_path → Laminar a b)
build_scope_tree-ok_iff scopes well = (forth, back)
  where
    forth :
        (t : ScopeTree) × (build_scope_tree scopes ≡ ok t)
        → (a b : ScopeId) → In a scopes
        → In b scopes
        → a.file_path ≡ b.file_path
        → Laminar a b
    forth (t, h) a b i j same =
        let sound = build_scope_tree-Sound scopes t h in
        elim (related scopes well t h a b i j same) [
          | inl e ↦ inl e
          | inr (inl (inl r)) ↦ inr (inl (Above-Holds t a b sound r))
          | inr (inl (inr e)) ↦ inr (inr (inr (inl e)))
          | inr (inr (inl r)) ↦ inr (inr (inl (Above-Holds t b a sound r)))
          | inr (inr (inr e)) ↦ inr (inr (inr (inr e)))
        ]

    back :
        ((a b : ScopeId) → In a scopes → In b scopes → a.file_path ≡ b.file_path → Laminar a b)
        → (t : ScopeTree) × (build_scope_tree scopes ≡ ok t)
    back h =
        unfold build_scope_tree in
        build_files_total (record empty { all = (grouped scopes).seen }) (grouped scopes).per_file
          (facts scopes well).keys (all_fresh scopes well)
          (λ file group g a b i j.
            let f = all_fresh scopes well file group g in
            let given = λ (s : ScopeId) (k : In s group).
              (seen_iff scopes well s).0 (group_listed scopes well file group g s k) in
            h a b (given a i) (given b j) (f.path a i ∙ sym (f.path b j)))
