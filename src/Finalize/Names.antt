-- ===== src/Finalize/Names.antt =====
-- qualified_name_index.py: the declarations by their qualified names.
use twai_swarm.Prelude.{
  ℕ, String, Bool, Option, none, some, List, [], ◌∷◌, string_eq, Dict, lookup, insert, is_some,
  length, member, if◌then◌else◌, Outcome, ok, raised, broken_invariant, ◌>>=◌,
}
use twai_swarm.Scope.{Declaration}

pub record QualifiedNameIndex : Type 0 where
  pub by_qn : Dict String Declaration

-- `lookup`
unfoldable pub declaration_of : QualifiedNameIndex → String → Option Declaration
declaration_of index qn = lookup qn index.by_qn

-- `__contains__`
unfoldable pub has_name : QualifiedNameIndex → String → Bool
has_name index qn = is_some (lookup qn index.by_qn)

-- `__len__`
unfoldable pub name_count : QualifiedNameIndex → ℕ
name_count index = length index.by_qn

unfoldable pub add_declarations :
    Dict String Declaration → List Declaration → Outcome (Dict String Declaration)
add_declarations by_qn [] = ok by_qn
add_declarations by_qn (decl ∷ rest) = elim (lookup decl.qualified_name by_qn) [
  | some existing ↦ raised broken_invariant
  | none ↦ add_declarations (insert decl.qualified_name decl by_qn) rest
]

unfoldable pub build_qualified_name_index : List Declaration → Outcome QualifiedNameIndex
build_qualified_name_index declarations =
    add_declarations [] declarations >>= λ by_qn. ok (record { by_qn = by_qn })

-- The loop of finalize.py that keeps the first declaration of each name.
unfoldable pub dedup_declarations : List String → List Declaration → List Declaration
dedup_declarations seen [] = []
dedup_declarations seen (d ∷ ds) =
    let skipped = dedup_declarations seen ds in
    let kept = d ∷ dedup_declarations (d.qualified_name ∷ seen) ds in
    if member d.qualified_name seen then skipped else kept
