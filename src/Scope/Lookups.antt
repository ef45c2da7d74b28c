-- ===== src/Scope/Lookups.antt =====
-- Runs of the bindings, the exports and the method dispatch, and their theorems at those inputs.
use twai_swarm.Prelude.{
  ◌≡◌, ◌≢◌, refl, ◌⊎◌, join, has_dot, Option, none, List, [], ◌∷◌, inl, ok, String, false, Dict,
  string_eq,
}
use twai_swarm.Scope.{
  ScopeId, scope_eq, Declaration, DeclarationKind, method_decl, module_decl, function_decl, TypeRef,
  BindingSource,
}
use twai_swarm.Scope.Examples.{sample, sample_tree, sample-WellFormed, sample-ok, method_a, class_a}
use twai_swarm.Scope.Bindings.{LocalVarTypeIndex, empty, add, find}
use twai_swarm.Scope.Bindings.Nearest.{Nearest, find-Nearest}
use twai_swarm.Scope.Exports.{exports_of, build_module_scope_index, default_private, owner}
use twai_swarm.Scope.Exports.Listed.{public_of, exports_of-build, owner_lem}
use twai_swarm.Scope.Dispatch.{MethodDispatchIndex, build_method_dispatch_index}
use twai_swarm.Scope.Dispatch.Resolution.{Resolved, resolve_lem, build-Ready}

abbrev typed : String → ScopeId → TypeRef
typed name s = record { raw_name = name; declared_at_scope = s; source = BindingSource.self }

-- `self` is bound in the class, and `x` in the method.
abbrev sample_bindings : LocalVarTypeIndex
sample_bindings =
    add (add empty class_a "self" (typed "A" class_a)) method_a "x" (typed "Item" method_a)

find-Nearest_example :
    (res : Option TypeRef) × (find sample_bindings method_a "self" sample_tree ≡ ok res)
    × Nearest (sample) sample_tree sample-WellFormed sample-ok sample_bindings "self" method_a res
find-Nearest_example =
    find-Nearest sample sample_tree sample-WellFormed sample-ok sample_bindings "self" method_a
      (inl refl)

abbrev declared : String → String → DeclarationKind → Declaration
declared qualified_name name kind = record {
  qualified_name = qualified_name;
  name = name;
  kind = kind;
  file_path = "a.py";
  range = record { file_path = "a.py"; start_byte = 0; end_byte = 9 };
  scope_id = none;
}

abbrev run_a : Declaration
run_a = declared "pkg.A.run" "run" method_decl

abbrev stop_b : Declaration
stop_b = declared "pkg.B.stop" "stop" method_decl

abbrev free : Declaration
free = declared "pkg.main" "main" function_decl

abbrev sample_methods : List Declaration
sample_methods = run_a ∷ stop_b ∷ free ∷ []

-- B derives from A, and the two derive from each other: a cycle.
abbrev sample_parents : Dict String (List String)
sample_parents = ("pkg.B", "pkg.A" ∷ []) ∷ ("pkg.A", "pkg.B" ∷ []) ∷ []

abbrev sample_dispatch : MethodDispatchIndex
sample_dispatch = build_method_dispatch_index sample_methods sample_parents

resolve_lem_example : Resolved sample_dispatch "pkg.B" "run"
resolve_lem_example =
    resolve_lem sample_dispatch "pkg.B" "run" (build-Ready sample_methods sample_parents)

exports_of-build_example :
    exports_of
      (build_module_scope_index default_private
        (declared "pkg._x" "_x" function_decl ∷ sample_methods))
      "pkg"
    ≡ public_of default_private "pkg" (declared "pkg._x" "_x" function_decl ∷ sample_methods)
exports_of-build_example =
    exports_of-build default_private (declared "pkg._x" "_x" function_decl ∷ sample_methods) "pkg"

owner_lem_example :
    (run_a.kind ≡ module_decl) × (owner run_a ≡ run_a.qualified_name)
    ⊎ (run_a.kind ≢ module_decl)
      × (((b : String) × (run_a.qualified_name ≡ join (owner run_a) (join "." b))
            × (has_dot b ≡ false))
          ⊎ (owner run_a ≡ "") × (has_dot run_a.qualified_name ≡ false))
owner_lem_example = owner_lem run_a
