-- ===== src/Scope/Examples.antt =====
-- Runs of the scope indexes on a small file, and their theorems at that input.
use twai_swarm.Prelude.{
  ℕ, ◌≡◌, refl, ◌↔◌, inl, inr, Option, none, some, List, [], ◌∷◌, arith, In, ok, raised,
  broken_invariant, lookup, insert, append_at, member, sort_by, string_eq,
}
use twai_swarm.Scope.{
  Position, ScopeId, ScopeKind, module_scope, class_scope, function_scope, scope_eq,
}
use twai_swarm.Scope.Tree.{
  ScopeTree, empty, build_scope_tree, ranges_overlap, range_strictly_contains, add_scope,
  group_scopes, outer_first, identical_neighbours, pop_closed, place, walk, build_file, build_files,
}
use twai_swarm.Scope.Tree.Ranges.{Holds}
use twai_swarm.Scope.Tree.Walk.{Above}
use twai_swarm.Scope.Tree.Related.{Laminar}
use twai_swarm.Scope.Tree.Files.{WellFormed}
use twai_swarm.Scope.Tree.Correct.{Above-iff, build_scope_tree-ok_iff}
use twai_swarm.Scope.Positions.{scope_at, build_position_index}
use twai_swarm.Scope.Positions.Correct.{Innermost}
use twai_swarm.Scope.Positions.Answers.{scope_at_innermost}

abbrev pub span : ℕ → ℕ → ScopeKind → ScopeId
span a b kind = record {
  file_path = "a.py";
  range = record { file_path = "a.py"; start_byte = a; end_byte = b };
  kind = kind;
}

abbrev pub whole : ScopeId
whole = span 0 100 module_scope

abbrev pub class_a : ScopeId
class_a = span 10 50 class_scope

abbrev pub method_a : ScopeId
method_a = span 20 30 function_scope

abbrev pub helper : ScopeId
helper = span 60 90 function_scope

abbrev pub sample : List ScopeId
sample = method_a ∷ whole ∷ helper ∷ class_a ∷ []

abbrev pub sample_tree : ScopeTree
sample_tree = record {
  parents =
      (whole, none) ∷ (class_a, some whole) ∷ (method_a, some class_a) ∷ (helper, some whole) ∷ [];
  children = (whole, class_a ∷ helper ∷ []) ∷ (class_a, method_a ∷ []) ∷ [];
  roots = ("a.py", whole ∷ []) ∷ [];
  all = sample;
}

pub sample-ok : build_scope_tree sample ≡ ok sample_tree
unfolding build_scope_tree group_scopes add_scope member append_at insert lookup build_files
    build_file
sample-ok =
    unfold sort_by outer_first identical_neighbours walk pop_closed place range_strictly_contains
      ranges_overlap empty scope_eq in
    refl

pub sample-WellFormed : (s : ScopeId) → In s sample → WellFormed s
sample-WellFormed s i = ground arith

overlapping :
    build_scope_tree (span 0 10 class_scope ∷ span 5 20 class_scope ∷ []) ≡ raised broken_invariant
unfolding build_scope_tree group_scopes add_scope member append_at insert lookup build_files
    build_file
overlapping =
    unfold sort_by outer_first identical_neighbours walk pop_closed place range_strictly_contains
      ranges_overlap empty scope_eq in
    refl

Above-iff_example : Above sample_tree whole method_a ↔ Holds whole.range method_a.range
Above-iff_example =
    Above-iff sample sample_tree sample-WellFormed sample-ok whole method_a (inr (inl refl))
      (inl refl)

build_scope_tree-ok_iff_example :
    ((t : ScopeTree) × (build_scope_tree sample ≡ ok t))
    ↔ ((a b : ScopeId) → In a sample → In b sample → a.file_path ≡ b.file_path → Laminar a b)
build_scope_tree-ok_iff_example = build_scope_tree-ok_iff sample sample-WellFormed

abbrev at_25 : Position
at_25 = record { file_path = "a.py"; byte_offset = 25 }

scope_at_innermost_example :
    (res : Option ScopeId) × (scope_at (build_position_index sample_tree) at_25 ≡ ok res)
    × Innermost sample sample_tree sample-WellFormed sample-ok "a.py" 25 res
scope_at_innermost_example = scope_at_innermost sample sample_tree sample-WellFormed sample-ok at_25
