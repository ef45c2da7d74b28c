-- ===== src/Scope/Positions.antt =====
-- position_index.py: the innermost scope at a byte position.
pub mod Correct
pub mod Candidates
pub mod Answers
use twai_swarm.Prelude.{
  ℕ, zero, suc, ◌+◌, ◌-◌, max, String, Bool, ◌&&◌, Option, none, some, List, [], ◌∷◌, map, ltb, leb,
  if◌then◌else◌, string_eq, Dict, lookup, insert, append_at, get_elem?, sort_by, Outcome, ok,
  raised, Error, out_of_fuel, ◌>>=◌,
}
use twai_swarm.Scope.{Position, Range, ScopeId, scope_eq}
use twai_swarm.Scope.Tree
use twai_swarm.Scope.Tree.{ScopeTree}

pub record PositionIndex : Type 0 where
  pub tree : ScopeTree
  pub starts : Dict String (List ℕ)
  pub by_start : Dict String (List ScopeId)

-- The test `start_byte <= offset < end_byte`.
unfoldable pub covers : Range → ℕ → Bool
covers r offset = leb r.start_byte offset && ltb offset r.end_byte

-- `bisect_right` of an ascending list: how many of its members, from the left, are at most `x`.
unfoldable pub bisect_right : List ℕ → ℕ → ℕ
bisect_right [] x = 0
bisect_right (s ∷ ss) x = let rest = suc (bisect_right ss x) in if leb s x then rest else 0

-- The `for` over the children: the first one that covers the offset.
unfoldable pub first_covering : ℕ → List ScopeId → Option ScopeId
first_covering offset [] = none
first_covering offset (c ∷ cs) = if covers c.range offset then some c else first_covering offset cs

-- The `while True` of `_refine_innermost`.
unfoldable pub refine_loop : ScopeTree → ℕ → ScopeId → ℕ → Outcome ScopeId
refine_loop t zero cur offset = raised out_of_fuel
refine_loop t (suc fuel) cur offset = Tree.children_of t cur >>= λ children.
    elim (first_covering offset children) [
      | none ↦ ok cur
      | some child ↦ refine_loop t fuel child offset
    ]

-- A child is narrower than its parent, so the width of the range bounds the rounds.
unfoldable pub refine_innermost : ScopeTree → ScopeId → ℕ → Outcome ScopeId
refine_innermost t scope offset =
    refine_loop t (suc (scope.range.end_byte - scope.range.start_byte)) scope offset

-- The `while cur is not None` of `scope_at`.
unfoldable pub climb : ScopeTree → ℕ → ScopeId → ℕ → Outcome (Option ScopeId)
climb t zero cur offset = raised out_of_fuel
climb t (suc fuel) cur offset =
    let found = refine_innermost t cur offset >>= λ s. ok (some s) in
    let above = Tree.parent_of t cur >>= λ parent. elim parent [
      | none ↦ ok none
      | some p ↦ climb t fuel p offset
    ] in
    if covers cur.range offset then found else above

unfoldable pub max_end : List ScopeId → ℕ
max_end [] = 0
max_end (s ∷ ss) = max s.range.end_byte (max_end ss)

-- A parent starts earlier or ends later than its child, which bounds the rounds of `climb`.
unfoldable pub climb_fuel : ScopeTree → ScopeId → ℕ
climb_fuel t s = suc (s.range.start_byte + (max_end t.all - s.range.end_byte))

-- The candidate at `idx`; `idx < 0` is the count 0.
unfoldable pub candidate : List ScopeId → ℕ → Option ScopeId
candidate by_start zero = none
candidate by_start (suc idx) = get_elem? by_start idx

unfoldable pub climb_from : ScopeTree → Option ScopeId → ℕ → Outcome (Option ScopeId)
climb_from t none offset = ok none
climb_from t (some cur) offset = climb t (climb_fuel t cur) cur offset

unfoldable pub scope_at : PositionIndex → Position → Outcome (Option ScopeId)
scope_at index position = elim (lookup position.file_path index.starts) [
  | none ↦ ok none
  | some [] ↦ ok none
  | some (s ∷ ss) ↦ elim (lookup position.file_path index.by_start) [
    | none ↦ raised Error.unknown_key
    | some by_start ↦
        climb_from index.tree (candidate by_start (bisect_right (s ∷ ss) position.byte_offset))
          position.byte_offset
  ]
]

unfoldable pub starts_first : ScopeId → ScopeId → Bool
starts_first a b = leb a.range.start_byte b.range.start_byte

-- `per_file.setdefault(scope.file_path, []).append(scope)` over all scopes.
unfoldable pub group_by_file :
    List ScopeId → Dict String (List ScopeId) → Dict String (List ScopeId)
group_by_file [] per_file = per_file
group_by_file (s ∷ ss) per_file = group_by_file ss (append_at s.file_path s per_file)

abbrev pub start_of : ScopeId → ℕ
start_of s = s.range.start_byte

-- The body of the second loop: one file's scopes, sorted by their starts.
unfoldable pub index_file : PositionIndex → String → List ScopeId → PositionIndex
index_file index file_path scopes =
    let sorted = sort_by starts_first scopes in
    record index {
      starts = insert file_path (map start_of sorted) index.starts;
      by_start = insert file_path sorted index.by_start;
    }

unfoldable pub index_files : PositionIndex → Dict String (List ScopeId) → PositionIndex
index_files index [] = index
index_files index ((file_path, scopes) ∷ rest) =
    index_files (index_file index file_path scopes) rest

unfoldable pub build_position_index : ScopeTree → PositionIndex
build_position_index t =
    index_files (record { tree = t; starts = []; by_start = [] })
      (group_by_file (Tree.all_scopes t) [])
