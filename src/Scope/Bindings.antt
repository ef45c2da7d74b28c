-- ===== src/Scope/Bindings.antt =====
-- local_var_type_index.py: the types of variables, looked up along the chain of scopes.
pub mod Nearest
use twai_swarm.Prelude.{
  ℕ, zero, suc, ◌+◌, String, Bool, Option, none, some, List, [], ◌∷◌, string_eq, Dict, lookup,
  insert, get_or, is_some, length, Outcome, ok, raised, out_of_fuel, ◌>>=◌,
}
use twai_swarm.Scope.{ScopeId, TypeRef, scope_eq}
use twai_swarm.Scope.Tree
use twai_swarm.Scope.Tree.{ScopeTree}
use twai_swarm.Scope.Positions.{climb_fuel}

pub record LocalVarTypeIndex : Type 0 where
  pub bindings : Dict ScopeId (Dict String TypeRef)

unfoldable pub empty : LocalVarTypeIndex
empty = record { bindings = [] }

-- What is bound at exactly this scope.
unfoldable pub bound_at : LocalVarTypeIndex → ScopeId → String → Option TypeRef
bound_at index scope_id var_name = lookup var_name (get_or [] (lookup scope_id index.bindings))

unfoldable pub add : LocalVarTypeIndex → ScopeId → String → TypeRef → LocalVarTypeIndex
add index scope_id var_name type_ref =
    let scope_map = get_or [] (lookup scope_id index.bindings) in
    record { bindings = insert scope_id (insert var_name type_ref scope_map) index.bindings }

-- The `while current is not None` of `find`.
unfoldable pub find_loop :
    LocalVarTypeIndex → ScopeTree → ℕ → ScopeId → String → Outcome (Option TypeRef)
find_loop index t zero current var_name = raised out_of_fuel
find_loop index t (suc fuel) current var_name =
    let above = Tree.parent_of t current >>= λ parent. elim parent [
      | none ↦ ok none
      | some p ↦ find_loop index t fuel p var_name
    ] in
    elim (bound_at index current var_name) [ some ref ↦ ok (some ref) | none ↦ above ]

unfoldable pub find : LocalVarTypeIndex → ScopeId → String → ScopeTree → Outcome (Option TypeRef)
find index start_scope var_name t =
    find_loop index t (climb_fuel t start_scope) start_scope var_name

-- `__len__`
unfoldable pub size : LocalVarTypeIndex → ℕ
size index = go index.bindings
  where
    go : Dict ScopeId (Dict String TypeRef) → ℕ
    go [] = 0
    go ((_, m) ∷ rest) = length m + go rest

-- `__contains__`
unfoldable pub has_binding : LocalVarTypeIndex → ScopeId → String → Bool
has_binding index scope_id var_name = is_some (bound_at index scope_id var_name)
