-- ===== src/Scope/Dispatch.antt =====
-- method_dispatch_index.py: the methods of a class, its own and those of its ancestors.
pub mod Merge
pub mod Ending
pub mod Resolution
use mathlib.Core.List.{reverse}
use twai_swarm.Prelude.{
  ℕ, zero, suc, ◌+◌, String, Bool, true, false, Option, none, some, List, [], ◌∷◌, ◌++◌, string_eq,
  Dict, lookup, insert, get_or, update, list_at, length, member, if◌then◌else◌, Outcome, ok, raised,
  out_of_fuel, ◌>>=◌, split_last_dot,
}
use twai_swarm.Scope.{Declaration, DeclarationKind, method_decl}

abbrev pub Methods : Type 0
Methods = Dict String Declaration

pub record MethodDispatchIndex : Type 0 where
  pub local_methods : Dict String Methods
  pub parents : Dict String (List String)
  pub merged_cache : Dict String Methods

abbrev pub own_methods : MethodDispatchIndex → String → Methods
own_methods index class_qn = get_or [] (lookup class_qn index.local_methods)

-- The merged methods, and the visited set, which the recursive calls share.
abbrev pub Merged : Type 0
Merged = Methods × List String

-- `merged.update(self._local_methods.get(class_qn, {}))`
abbrev pub with_own : MethodDispatchIndex → String → Merged → Outcome Merged
with_own index class_qn (merged, visited) = ok (update merged (own_methods index class_qn), visited)

-- The `for` over the parents, with the recursive call passed in.
unfoldable pub merge_parents :
    (String → List String → Outcome Merged) → List String → Merged → Outcome Merged
merge_parents compute [] acc = ok acc
merge_parents compute (p ∷ ps) (merged, visited) =
    compute p visited >>= λ found. merge_parents compute ps (update merged found.0, found.1)

-- `_compute_merged`. The fuel bounds the depth of the recursion.
unfoldable pub compute_merged : ℕ → MethodDispatchIndex → String → List String → Outcome Merged
compute_merged zero index class_qn visited = raised out_of_fuel
compute_merged (suc fuel) index class_qn visited =
    let walked =
      merge_parents (compute_merged fuel index) (reverse (list_at class_qn index.parents))
        ([], class_qn ∷ visited)
      >>= with_own index class_qn in
    if member class_qn visited then ok ([], visited) else walked

-- Every class that the walk can meet below its start is listed as someone's parent.
unfoldable pub all_parents : Dict String (List String) → List String
all_parents [] = []
all_parents ((_, ps) ∷ rest) = ps ++ all_parents rest

-- Each call marks one more class, so this depth is enough.
unfoldable pub merge_fuel : MethodDispatchIndex → ℕ
merge_fuel index = suc (suc (length (all_parents index.parents)))

unfoldable pub methods_for : MethodDispatchIndex → String → Outcome (Methods × MethodDispatchIndex)
methods_for index class_qn = elim (lookup class_qn index.merged_cache) [
  | some cached ↦ ok (cached, index)
  | none ↦ compute_merged (merge_fuel index) index class_qn [] >>= λ found.
      ok (found.0, record index { merged_cache = insert class_qn found.0 index.merged_cache })
]

unfoldable pub resolve :
    MethodDispatchIndex → String → String → Outcome (Option Declaration × MethodDispatchIndex)
resolve index class_qn method_name =
    methods_for index class_qn >>= λ found. ok (lookup method_name found.0, found.1)

abbrev pub first : List String → Option String
first [] = none
first (p ∷ _) = some p

unfoldable pub parent_of : MethodDispatchIndex → String → Option String
parent_of index class_qn = first (list_at class_qn index.parents)

abbrev pub is_method : DeclarationKind → Bool
is_method method_decl = true
is_method _ = false

-- One round of the builder's first loop.
unfoldable pub add_method : Dict String Methods → Declaration → Dict String Methods
add_method methods decl =
    if is_method decl.kind
    then (elim (split_last_dot decl.qualified_name) [
      | none ↦ methods
      | some (class_qn, _) ↦
          insert class_qn (insert decl.name decl (get_or [] (lookup class_qn methods))) methods
    ])
    else methods

unfoldable pub add_methods : Dict String Methods → List Declaration → Dict String Methods
add_methods methods [] = methods
add_methods methods (d ∷ ds) = add_methods (add_method methods d) ds

-- The copy of the parent relation drops the empty lists.
unfoldable pub copy_parents :
    Dict String (List String) → Dict String (List String) → Dict String (List String)
copy_parents parents [] = parents
copy_parents parents ((child, []) ∷ rest) = copy_parents parents rest
copy_parents parents ((child, p ∷ ps) ∷ rest) = copy_parents (insert child (p ∷ ps) parents) rest

unfoldable pub build_method_dispatch_index :
    List Declaration → Dict String (List String) → MethodDispatchIndex
build_method_dispatch_index method_declarations parent_relation = record {
  local_methods = add_methods [] method_declarations;
  parents = copy_parents [] parent_relation;
  merged_cache = [];
}
