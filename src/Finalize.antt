-- ===== src/Finalize.antt =====
-- app/repo_indexer/scope_resolution/finalize.py: calls and bases are resolved across files.
pub mod Names
pub mod Adapter
pub mod Imports
pub mod Lookups
pub mod Chains
pub mod Calls
pub mod Indexed
pub mod Anchors
pub mod Found
pub mod Ending
pub mod Searches
pub mod Rewrites
pub mod Linked
pub mod Unique
pub mod Correct
pub mod Receivers
mod Examples
use twai_swarm.Prelude.{
  String, Bool, true, false, ◌&&◌, not, Option, none, some, List, [], ◌∷◌, ◌++◌, map, string_eq,
  Dict, insert_all, member, dedup, last_part, if◌then◌else◌, Outcome, ok, ◌>>=◌,
}
use twai_swarm.Scope.{Declaration}
use twai_swarm.Scope.Tree.{ScopeTree, build_scope_tree}
use twai_swarm.Scope.Exports.{build_module_scope_index, default_private}
use twai_swarm.Scope.Dispatch.{MethodDispatchIndex, build_method_dispatch_index, is_method}
use twai_swarm.Actions.{FunctionNode, ClassNode, SymbolNode, InheritsEdge, CallEdge, IndexBatch}
use twai_swarm.Finalize.Names.{QualifiedNameIndex, build_qualified_name_index, dedup_declarations}
use twai_swarm.Finalize.Adapter.{
  to_declarations, to_scopes, to_parent_relation, build_local_var_type_index, function_scope_of,
  class_scope_of, class_scopes, enclosing_class,
}
use twai_swarm.Finalize.Imports.{
  Components, build_reexport_closure, add_imports, add_wildcards, file_modules,
}
use twai_swarm.Finalize.Lookups.{Context, resolve_parent}
use twai_swarm.Finalize.Calls.{resolve_call}
use twai_swarm.Orm.{classify_orm_calls}

abbrev pub param_entry : FunctionNode → Option (String × Dict String String)
param_entry f = elim f.param_types [
  | [] ↦ none
  | p ∷ ps ↦ some (f.qualified_name, insert_all (λ e. some e) [] (p ∷ ps))
]

abbrev pub method_entry : FunctionNode → Option (String × String)
method_entry f = elim (enclosing_class f) [ none ↦ none | some qn ↦ some (f.qualified_name, qn) ]

-- The indexes that `finalize_batch` builds before it resolves anything.
unfoldable pub context_of : Components → IndexBatch → QualifiedNameIndex → ScopeTree → Context
context_of components batch qn_index scope_tree = record {
  qn_index = qn_index;
  module_index =
      build_module_scope_index default_private (dedup_declarations [] (to_declarations batch));
  import_closure = build_reexport_closure components batch;
  imports_by_file = add_imports [] batch.imports;
  wildcard_targets_by_file = add_wildcards [] batch.imports;
  func_param_types = insert_all param_entry [] batch.functions;
  func_file_path = insert_all (λ f. some (f.qualified_name, f.file_path)) [] batch.functions;
  class_file_path = insert_all (λ k. some (k.qualified_name, k.file_path)) [] batch.classes;
  module_qn_by_file = file_modules batch.modules;
  func_scope_id = insert_all (λ f. some (f.qualified_name, function_scope_of f)) [] batch.functions;
  caller_class_qn = insert_all method_entry [] batch.functions;
  class_scope_id = class_scopes batch.classes;
  local_var_index = build_local_var_type_index batch.local_var_bindings;
  scope_tree = scope_tree;
}

-- The edges after a loop, and the names that it found no node for.
abbrev pub Rewritten : Type 0 → Type 0
Rewritten Edge = List Edge × List String

abbrev pub put_base : InheritsEdge → Option String → Rewritten InheritsEdge → Rewritten InheritsEdge
put_base edge (some qn) (edges, missing) = (record edge { parent_qn = qn } ∷ edges, missing)
put_base edge none (edges, missing) = (edge ∷ edges, edge.parent_qn ∷ missing)

unfoldable pub rewrite_inherits : Context → List InheritsEdge → Rewritten InheritsEdge
rewrite_inherits c [] = ([], [])
rewrite_inherits c (edge ∷ edges) =
    put_base edge (resolve_parent c edge.child_qn edge.parent_qn) (rewrite_inherits c edges)

abbrev pub put_call : CallEdge → Option String → Rewritten CallEdge → Rewritten CallEdge
put_call edge (some qn) (edges, missing) = (record edge { callee_qn = qn } ∷ edges, missing)
put_call edge none (edges, missing) = (edge ∷ edges, edge.callee_qn ∷ missing)

unfoldable pub rewrite_calls :
    Context → MethodDispatchIndex → List CallEdge → Outcome (Rewritten CallEdge)
rewrite_calls c index [] = ok ([], [])
rewrite_calls c index (edge ∷ edges) = resolve_call c edge index >>= λ r.
    rewrite_calls c r.1 edges >>= λ rest. ok (put_call edge r.0 rest)

unfoldable pub methods_of : List Declaration → List Declaration
methods_of [] = []
methods_of (d ∷ ds) = let rest = methods_of ds in if is_method d.kind then d ∷ rest else rest

unfoldable pub dispatch_of :
    IndexBatch → List InheritsEdge → QualifiedNameIndex → MethodDispatchIndex
dispatch_of batch inherits qn_index =
    build_method_dispatch_index (methods_of (dedup_declarations [] (to_declarations batch)))
      (to_parent_relation inherits qn_index)

-- The last loop: a symbol for each name that has none yet.
unfoldable pub new_symbols : String → List String → List String → List SymbolNode
new_symbols repo existing [] = []
new_symbols repo existing (qn ∷ qns) =
    let rest = new_symbols repo existing qns in
    if member qn existing
    then rest
    else record { repo = repo; qualified_name = qn; name = last_part qn } ∷ rest

unfoldable pub add_symbols : IndexBatch → List String → List SymbolNode
add_symbols batch needs_symbol =
    batch.symbols
    ++ new_symbols batch.repo.name (map (λ s. s.qualified_name) batch.symbols) (dedup needs_symbol)

-- The two rewrites, the ORM calls and the symbols, for the indexes of a batch.
unfoldable pub resolve_batch : IndexBatch → QualifiedNameIndex → Context → Outcome IndexBatch
resolve_batch batch qn_index c =
    let inherits = rewrite_inherits c batch.inherits in
    rewrite_calls c (dispatch_of batch inherits.0 qn_index) batch.calls >>= λ calls.
    classify_orm_calls c batch.repo batch.tables inherits.0 calls.0 batch.orm_call_hints
    >>= λ accesses. ok (record batch {
      inherits = inherits.0;
      calls = calls.0;
      symbols = add_symbols batch (inherits.1 ++ calls.1);
      table_accesses = batch.table_accesses ++ accesses;
    })

abbrev pub is_empty : {A : Type 0} → List A → Bool
is_empty [] = true
is_empty (_ ∷ _) = false

-- The early return.
abbrev pub nothing_to_do : IndexBatch → Bool
nothing_to_do batch =
    is_empty batch.functions
    && is_empty batch.classes
    && is_empty batch.calls
    && is_empty batch.inherits

-- The position index, which nothing reads, is left out.
unfoldable pub finalize_batch : Components → IndexBatch → Outcome IndexBatch
finalize_batch components batch =
    let finalized = build_scope_tree (to_scopes batch) >>= λ scope_tree.
    build_qualified_name_index (dedup_declarations [] (to_declarations batch)) >>= λ qn_index.
    resolve_batch batch qn_index (context_of components batch qn_index scope_tree) in
    if nothing_to_do batch then ok batch else finalized
