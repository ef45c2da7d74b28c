-- ===== src/Scope/Tree/Files.antt =====
-- Lemmas on the builder over the files.
use twai_swarm.Prelude.{
  ◌≡◌, refl, sym, ◌∙◌, ap, subst, ◌⊎◌, inl, inr, false, none, List, [], ◌∷◌, arith, string_eq,
  lookup, In, lookup_of_In, Distinct, NodupKeys, Dict, String, ok, >>=-eq-ok, sort_by, In-sort_by,
  Distinct-sort_by, sort_by-SortedBy,
}
use twai_swarm.Scope.{ScopeId, scope_eq}
use twai_swarm.Scope.Tree.{
  ScopeTree, outer_first, identical_neighbours, walk, build_file, build_files,
}
use twai_swarm.Scope.Tree.Ranges.{IsNonempty, outer_first_total, outer_first_trans}
use twai_swarm.Scope.Tree.Walk.{Extends, Sound, walk-Sound, walk-parents}
use twai_swarm.Scope.Tree.Related.{
  Round, Related, Related-Extends, Laminar, walk-Extends, walk_among, walk_total,
}

-- A scope whose range lies in the scope's own file and has a byte.
abbrev pub WellFormed : ScopeId → Type 0
WellFormed s = (s.range.file_path ≡ s.file_path) × IsNonempty s.range

-- A file's group of scopes, none of which has a parent yet.
pub record Fresh (t : ScopeTree) (file : String) (scopes : List ScopeId) : Type 0 where
  pub path : (s : ScopeId) → In s scopes → s.file_path ≡ file
  pub well : (s : ScopeId) → In s scopes → WellFormed s
  pub distinct : Distinct scopes
  pub no_parent : (s : ScopeId) → In s scopes → lookup s t.parents ≡ none

pub start :
    (t : ScopeTree) (file : String) (scopes : List ScopeId)
    → Fresh t file scopes
    → Round file t [] [] (sort_by outer_first scopes)
start t file scopes f = record {
  chain = tt;
  closed = λ a i. absurd i;
  before = λ a s i j. absurd i;
  fresh = λ s i. f.no_parent s ((In-sort_by outer_first s scopes).0 i);
  same_file = λ a i. elim i [
    | inl j ↦ absurd j
    | inr j ↦ let k = (In-sort_by outer_first a scopes).0 j in (f.well a k).0 ∙ f.path a k
  ];
  nonempty = λ s i. (f.well s ((In-sort_by outer_first s scopes).0 i)).1;
  sorted = sort_by-SortedBy outer_first outer_first_total outer_first_trans scopes;
  distinct = Distinct-sort_by outer_first scopes f.distinct;
}

pub build_file-walk :
    (t : ScopeTree) (file : String) (scopes : List ScopeId) (u : ScopeTree)
    → build_file t file scopes ≡ ok u
    → walk t file [] (sort_by outer_first scopes) ≡ ok u
unfolding build_file
build_file-walk t file scopes u h = ground arith

build_file-among :
    (t : ScopeTree) (file : String) (scopes : List ScopeId) (u : ScopeTree)
    → Fresh t file scopes
    → build_file t file scopes ≡ ok u
    → (a b : ScopeId) → In a scopes
    → In b scopes
    → (a ≡ b) ⊎ Related u a b ⊎ Related u b a
build_file-among t file scopes u f h a b i j =
    walk_among file t [] [] (sort_by outer_first scopes) u (start t file scopes f)
      (build_file-walk t file scopes u h) a b ((In-sort_by outer_first a scopes).1 i)
      ((In-sort_by outer_first b scopes).1 j)

build_file-Extends :
    (t : ScopeTree) (file : String) (scopes : List ScopeId) (u : ScopeTree)
    → Fresh t file scopes
    → build_file t file scopes ≡ ok u
    → Extends t u
build_file-Extends t file scopes u f h =
    walk-Extends file t [] [] (sort_by outer_first scopes) u (start t file scopes f)
      (build_file-walk t file scopes u h)

build_file-parents :
    (t : ScopeTree) (file : String) (scopes : List ScopeId) (u : ScopeTree) (x : ScopeId)
    → build_file t file scopes ≡ ok u
    → ¬ In x scopes
    → lookup x u.parents ≡ lookup x t.parents
build_file-parents t file scopes u x h out =
    walk-parents t file [] (sort_by outer_first scopes) x (build_file-walk t file scopes u h)
      (λ i. out ((In-sort_by outer_first x scopes).0 i))

pub build_files-Sound :
    (t : ScopeTree) (groups : Dict String (List ScopeId)) (u : ScopeTree)
    → build_files t groups ≡ ok u
    → Sound t
    → Sound u
unfolding build_files
build_files-Sound t [] u h sound = let same : t ≡ u = ground arith in rw (← same) sound
build_files-Sound t ((file, scopes) ∷ rest) u h sound =
    let (t', first, later) = >>=-eq-ok (build_file t file scopes) _ h in
    build_files-Sound t' rest u later (
      walk-Sound t file [] (sort_by outer_first scopes) (build_file-walk t file scopes t' first)
        sound)

abbrev pub AllFresh : ScopeTree → Dict String (List ScopeId) → Type 0
AllFresh t groups =
    (file : String) (scopes : List ScopeId) → In (file, scopes) groups → Fresh t file scopes

pub AllFresh-next :
    (t : ScopeTree) (file : String) (scopes : List ScopeId) (rest : Dict String (List ScopeId))
    (u : ScopeTree)
    → NodupKeys ((file, scopes) ∷ rest)
    → AllFresh t ((file, scopes) ∷ rest)
    → build_file t file scopes ≡ ok u
    → AllFresh u rest
AllFresh-next t file scopes rest u n f h other group i =
    let g = f other group (inr i) in
    let here = f file scopes (inl refl) in
    record {
      path = g.path;
      well = g.well;
      distinct = g.distinct;
      no_parent = λ s j.
          build_file-parents t file scopes u s h (λ k. apart (sym (here.path s k) ∙ g.path s j))
          ∙ g.no_parent s j;
    }
  where
    apart : file ≡ other → ⊥
    apart e = let found = lookup_of_In other group rest n.1 i in let missing = n.0 in cc e

pub build_files-Extends :
    (t : ScopeTree) (groups : Dict String (List ScopeId)) (u : ScopeTree)
    → NodupKeys groups
    → AllFresh t groups
    → build_files t groups ≡ ok u
    → Extends t u
unfolding build_files
build_files-Extends t [] u n f h x v e = let same : t ≡ u = ground arith in rw (← same) e
build_files-Extends t ((file, scopes) ∷ rest) u n f h x v e =
    let (t', first, later) = >>=-eq-ok (build_file t file scopes) _ h in
    build_files-Extends t' rest u n.1 (AllFresh-next t file scopes rest t' n f first) later x v
      (build_file-Extends t file scopes t' (f file scopes (inl refl)) first x v e)

pub build_files-among :
    (t : ScopeTree) (groups : Dict String (List ScopeId)) (u : ScopeTree)
    → NodupKeys groups
    → AllFresh t groups
    → build_files t groups ≡ ok u
    → (file : String) (group : List ScopeId) → In (file, group) groups
    → (a b : ScopeId) → In a group
    → In b group
    → (a ≡ b) ⊎ Related u a b ⊎ Related u b a
unfolding build_files
build_files-among t [] u n f h file group g a b i j = absurd g
build_files-among t ((other, scopes) ∷ rest) u n f h file group g a b i j =
    let (t', first, later) = >>=-eq-ok (build_file t other scopes) _ h in
    let fresh = AllFresh-next t other scopes rest t' n f first in
    let keep = build_files-Extends t' rest u n.1 fresh later in
    elim g [
      | inl e ↦
          let same : group ≡ scopes = ap (λ p. p.1) e in
          elim (build_file-among t other scopes t' (f other scopes (inl refl)) first a b
            (subst (In a) same i) (subst (In b) same j)) [
              | inl p ↦ inl p
              | inr (inl r) ↦ inr (inl (Related-Extends t' u a b keep r))
              | inr (inr r) ↦ inr (inr (Related-Extends t' u b a keep r))
            ]
      | inr k ↦ build_files-among t' rest u n.1 fresh later file group k a b i j
    ]

-- The test on neighbours passes where every two scopes nest or lie apart.
identical_neighbours-Laminar :
    (l : List ScopeId)
    → Distinct l
    → ((s : ScopeId) → In s l → IsNonempty s.range)
    → ((a b : ScopeId) → In a l → In b l → Laminar a b)
    → identical_neighbours l ≡ false
unfolding identical_neighbours
identical_neighbours-Laminar (p ∷ c ∷ rest) d w h =
    let later =
      identical_neighbours-Laminar (c ∷ rest) d.1 (λ s i. w s (inr i))
        (λ a b i j. h a b (inr i) (inr j)) in
    let wp = w p (inl refl) in
    let wc = w c (inr (inl refl)) in
    elim (h p c (inl refl) (inr (inl refl))) [
      | inl e ↦ absurd (d.0 (inl e))
      | inr (inl k) ↦ let wide = k.wider in ground (arith)
      | inr (inr (inl k)) ↦ let wide = k.wider in ground (arith)
      | inr (inr (inr (inl k))) ↦ ground (arith)
      | inr (inr (inr (inr k))) ↦ ground (arith)
    ]
identical_neighbours-Laminar _ d w h = refl

build_file_total :
    (t : ScopeTree) (file : String) (scopes : List ScopeId)
    → Fresh t file scopes
    → ((a b : ScopeId) → In a scopes → In b scopes → Laminar a b)
    → (u : ScopeTree) × (build_file t file scopes ≡ ok u)
unfolding build_file
build_file_total t file scopes f h =
    let r = start t file scopes f in
    let back = λ (s : ScopeId). (In-sort_by outer_first s scopes).0 in
    let (u, e) =
      walk_total file t [] [] (sort_by outer_first scopes) r
        (λ a b i j. elim i [ inl k ↦ absurd k | inr k ↦ h a b (back a k) (back b j) ]) in
    let plain =
      identical_neighbours-Laminar (sort_by outer_first scopes) r.distinct r.nonempty
        (λ a b i j. h a b (back a i) (back b j)) in
    (u, rw plain e)

pub build_files_total :
    (t : ScopeTree) (groups : Dict String (List ScopeId))
    → NodupKeys groups
    → AllFresh t groups
    → ((file : String) (group : List ScopeId)
        → In (file, group) groups
        → (a b : ScopeId) → In a group
        → In b group
        → Laminar a b)
    → (u : ScopeTree) × (build_files t groups ≡ ok u)
unfolding build_files
build_files_total t [] n f h = (t, refl)
build_files_total t ((file, scopes) ∷ rest) n f h =
    let (t', first) =
      build_file_total t file scopes (f file scopes (inl refl)) (h file scopes (inl refl)) in
    let (u, later) =
      build_files_total t' rest n.1 (AllFresh-next t file scopes rest t' n f first)
        (λ other group i. h other group (inr i)) in
    (u, rw first later)
