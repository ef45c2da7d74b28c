-- ===== src/Scope/Positions/Candidates.antt =====
-- Lemmas on the index of a tree: its lists for a file, and where the search begins.
use twai_swarm.Prelude.{
  ℕ, zero, suc, ◌≤◌, ◌<◌, ◌≡◌, refl, ◌∙◌, ap, subst, ◌↔◌, ◌≢◌, ◌⊎◌, inl, inr, true, false, Option,
  none, some, List, [], ◌∷◌, map, arith, leb, Bool-cases, string_eq, lookup, lookup-insert, In,
  In-append, list_at, list_at-append_at, append_at, append_at-NodupKeys, NodupKeys, Dict, String,
  sort_by, SortedBy, sort_by-SortedBy, In-sort_by, All-In, get_or, get_elem?, Option-cases,
  get_elem?-ne-none, leb_iff, length,
}
use twai_swarm.Scope.{ScopeId, scope_eq}
use twai_swarm.Scope.Tree.{ScopeTree, all_scopes}
use twai_swarm.Scope.Positions.{
  PositionIndex, bisect_right, candidate, start_of, starts_first, group_by_file, index_file,
  index_files, build_position_index,
}

starts_first_total : (a b : ScopeId) → starts_first a b ≡ false → starts_first b a ≡ true
unfolding starts_first
starts_first_total a b h = ground arith

starts_first_trans :
    (a b c : ScopeId) → starts_first a b ≡ true → starts_first b c ≡ true → starts_first a c ≡ true
unfolding starts_first
starts_first_trans a b c h k = ground arith

-- The candidate is the last scope, in the order of the starts, that starts in time.
abbrev pub IsCandidate : List ScopeId → ℕ → Option ScopeId → Type 0
IsCandidate l offset none = (r : ScopeId) → In r l → offset < r.range.start_byte
IsCandidate l offset (some c) =
    In c l
    × (c.range.start_byte ≤ offset)
    × ((r : ScopeId)
        → In r l
        → r.range.start_byte ≤ offset
        → r.range.start_byte ≤ c.range.start_byte)

bisect_right-le-length :
    (l : List ScopeId) (offset : ℕ) → bisect_right (map start_of l) offset ≤ length l
unfolding bisect_right
bisect_right-le-length [] offset = omega arith
bisect_right-le-length (x ∷ l) offset = ground (arith, bisect_right-le-length l offset)

start-le :
    (x r : ScopeId) (l : List ScopeId)
    → SortedBy starts_first (x ∷ l)
    → In r l
    → x.range.start_byte ≤ r.range.start_byte
start-le x r l s i =
    let h = All-In (λ y. starts_first x y ≡ true) l r s.0 i in unfold starts_first in ground arith

-- One more scope in front, which starts in time.
extend_candidate :
    (x : ScopeId) (l : List ScopeId) (offset n : ℕ)
    → SortedBy starts_first (x ∷ l)
    → x.range.start_byte ≤ offset
    → n ≤ length l
    → IsCandidate l offset (candidate l n)
    → IsCandidate (x ∷ l) offset (candidate (x ∷ l) (suc n))
extend_candidate x l offset zero s early n h =
    unfold candidate in
    (
      inl refl,
      early,
      λ r i le. elim i [
        | inl e ↦ rw e (omega arith)
        | inr j ↦
            absurd
              (let late : offset < r.range.start_byte = unfold candidate in h r j in omega arith)
      ],
    )
extend_candidate x l offset (suc m) s early n h =
    unfold candidate in
    elim (Option-cases (get_elem? l m)) [
      | inl e ↦ absurd (get_elem?-ne-none l m (omega arith) e)
      | inr (c, e) ↦
          let found : candidate l (suc m) ≡ some c = e in
          let k = subst (IsCandidate l offset) found h in
          rw e (
            inr k.0,
            k.1,
            λ r i le. elim i [ inl same ↦ rw same (start-le x c l s k.0) | inr j ↦ k.2 r j le ],
          )
    ]

pub candidate-IsCandidate :
    (l : List ScopeId) (offset : ℕ)
    → SortedBy starts_first l
    → IsCandidate l offset (candidate l (bisect_right (map start_of l) offset))
candidate-IsCandidate [] offset s = unfold candidate bisect_right in λ r i. absurd i
candidate-IsCandidate (x ∷ l) offset s = elim (Bool-cases (leb x.range.start_byte offset)) [
  | inl early ↦
      let step : bisect_right (map start_of (x ∷ l)) offset
          ≡ suc (bisect_right (map start_of l) offset) =
        unfold bisect_right in rw early refl in
      rw step (
        extend_candidate x l offset (bisect_right (map start_of l) offset) s
          ((leb_iff x.range.start_byte offset).0 early) (bisect_right-le-length l offset)
          (candidate-IsCandidate l offset s.1))
  | inr late ↦
      let step : bisect_right (map start_of (x ∷ l)) offset ≡ 0 =
        unfold bisect_right in rw late refl in
      rw step (
        unfold candidate in
        λ r i.
          let now : offset < x.range.start_byte = ground arith in
          elim i [ inl e ↦ rw e now | inr j ↦ omega (arith, start-le x r l s j) ])
]

-- What the index lists for a file, from the groups of scopes by file.
abbrev listed : Option (List ScopeId) → Option (List ScopeId) → Option (List ScopeId)
listed none before = before
listed (some l) before = some (sort_by starts_first l)

abbrev listed_starts : Option (List ScopeId) → Option (List ℕ) → Option (List ℕ)
listed_starts none before = before
listed_starts (some l) before = some (map start_of (sort_by starts_first l))

by_start-index_files :
    (index : PositionIndex) (groups : Dict String (List ScopeId)) (f : String)
    → NodupKeys groups
    → lookup f (index_files index groups).by_start
      ≡ listed (lookup f groups) (lookup f index.by_start)
unfolding index_files lookup index_file
by_start-index_files index [] f n = refl
by_start-index_files index ((file, scopes) ∷ rest) f n =
    let later = by_start-index_files (index_file index file scopes) rest f n.1 in
    let missing = n.0 in
    ground (
      arith,
      lookup-insert file f (sort_by starts_first scopes) index.by_start,
      string_eq.same_iff file f,
    )

starts-index_files :
    (index : PositionIndex) (groups : Dict String (List ScopeId)) (f : String)
    → NodupKeys groups
    → lookup f (index_files index groups).starts
      ≡ listed_starts (lookup f groups) (lookup f index.starts)
unfolding index_files lookup index_file
starts-index_files index [] f n = refl
starts-index_files index ((file, scopes) ∷ rest) f n =
    let later = starts-index_files (index_file index file scopes) rest f n.1 in
    let missing = n.0 in
    ground (
      arith,
      lookup-insert file f (map start_of (sort_by starts_first scopes)) index.starts,
      string_eq.same_iff file f,
    )

tree-index_files :
    (index : PositionIndex) (groups : Dict String (List ScopeId))
    → (index_files index groups).tree ≡ index.tree
unfolding index_files index_file
tree-index_files index [] = refl
tree-index_files index ((file, scopes) ∷ rest) =
    tree-index_files (index_file index file scopes) rest

In-group_by_file :
    (ss : List ScopeId) (d : Dict String (List ScopeId)) (f : String) (s : ScopeId)
    → In s (list_at f (group_by_file ss d)) ↔ (In s (list_at f d) ⊎ In s ss × (s.file_path ≡ f))
unfolding group_by_file
In-group_by_file [] d f s = ground arith
In-group_by_file (x ∷ ss) d f s = ground (
  arith,
  In-group_by_file ss (append_at x.file_path x d) f s,
  list_at-append_at x.file_path f x d,
  In-append s (list_at x.file_path d) (x ∷ []),
  string_eq.same_iff x.file_path f,
)

group_by_file-NodupKeys :
    (ss : List ScopeId) (d : Dict String (List ScopeId))
    → NodupKeys d
    → NodupKeys (group_by_file ss d)
unfolding group_by_file
group_by_file-NodupKeys [] d n = n
group_by_file-NodupKeys (x ∷ ss) d n =
    group_by_file-NodupKeys ss (append_at x.file_path x d) (append_at-NodupKeys x.file_path x d n)

-- The index lists either nothing for a file, which then has no scope, or its scopes by their starts.
pub data Listing (t : ScopeTree) (f : String) : Type 0 where
  no_file :
      lookup f (build_position_index t).starts ≡ none
      → ((s : ScopeId) → In s t.all → s.file_path ≢ f)
      → Listing t f
  scopes_of :
      (l : List ScopeId)
      → lookup f (build_position_index t).starts ≡ some (map start_of l)
      → lookup f (build_position_index t).by_start ≡ some l
      → SortedBy starts_first l
      → ((s : ScopeId) → In s l ↔ (In s t.all × (s.file_path ≡ f)))
      → Listing t f

pub tree-build_position_index : (t : ScopeTree) → (build_position_index t).tree ≡ t
unfolding build_position_index
tree-build_position_index t = tree-index_files _ (group_by_file (all_scopes t) [])

pub listing : (t : ScopeTree) (f : String) → Listing t f
unfolding build_position_index lookup
listing t f = elim (Option-cases (lookup f groups)) [
  | inl e ↦
      no_file (starts ∙ ap (λ o. listed_starts o (lookup f [])) e)
        (λ s i p. absurd (subst (λ o. In s (get_or [] o)) e ((member s).1 (i, p))))
  | inr (l, e) ↦
      scopes_of (sort_by starts_first l) (starts ∙ ap (λ o. listed_starts o (lookup f [])) e)
        (by_start ∙ ap (λ o. listed o (lookup f [])) e)
        (sort_by-SortedBy starts_first starts_first_total starts_first_trans l)
        (λ s.
          let same =
            subst (λ o. In s (get_or [] o) ↔ (In s t.all × (s.file_path ≡ f))) e (member s) in
          (
            λ i. same.0 ((In-sort_by starts_first s l).0 i),
            λ i. (In-sort_by starts_first s l).1 (same.1 i),
          ))
]
  where
    groups : Dict String (List ScopeId)
    groups = group_by_file (all_scopes t) []

    blank : PositionIndex
    blank = record { tree = t; starts = []; by_start = [] }

    nodup : NodupKeys groups
    nodup = group_by_file-NodupKeys (all_scopes t) [] tt

    starts :
        lookup f (index_files blank groups).starts ≡ listed_starts (lookup f groups) (lookup f [])
    starts = starts-index_files blank groups f nodup

    by_start : lookup f (index_files blank groups).by_start ≡ listed (lookup f groups) (lookup f [])
    by_start = by_start-index_files blank groups f nodup

    member : (s : ScopeId) → In s (list_at f groups) ↔ (In s t.all × (s.file_path ≡ f))
    member s = (
      λ i. elim ((In-group_by_file (all_scopes t) [] f s).0 i) [
        | inl j ↦ absurd (unfold lookup in j)
        | inr j ↦ unfold all_scopes in j
      ],
      λ i. (In-group_by_file (all_scopes t) [] f s).1 (inr (unfold all_scopes in i)),
    )
