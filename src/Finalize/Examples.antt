-- ===== src/Finalize/Examples.antt =====
-- A run of the resolver on a small batch, and its theorems at that input.
use twai_swarm.Prelude.{
  ◌≡◌, refl, ◌⊎◌, ◌↔◌, String, true, Option, none, [], ◌∷◌, List, ◌++◌, map, arith, In, All,
  Distinct, ok, lookup, insert, insert_all, member, dedup, append_at, sort_by, split_last_dot,
  last_part, split_first_dot, split_dots, starts_with_underscore, update,
}
use twai_swarm.Scope.{ScopeId, scope_eq, Declaration, method_decl}
use twai_swarm.Scope.Tree
use twai_swarm.Scope.Tree.{
  build_scope_tree, group_scopes, add_scope, build_files, build_file, outer_first,
  identical_neighbours, walk, pop_closed, place, range_strictly_contains, ranges_overlap,
}
use twai_swarm.Scope.Tree.Related.{Laminar}
use twai_swarm.Scope.Positions.{climb_fuel, max_end}
use twai_swarm.Scope.Bindings
use twai_swarm.Scope.Bindings.{find, find_loop, bound_at}
use twai_swarm.Scope.Exports.{
  build_module_scope_index, add_exports, add_export, skipped, default_private, owner, exports_of,
}
use twai_swarm.Scope.Dispatch.{
  MethodDispatchIndex, build_method_dispatch_index, add_methods, add_method, copy_parents, resolve,
  methods_for, merge_fuel, all_parents, compute_merged, merge_parents, parent_of,
}
use twai_swarm.Scope.Dispatch.Resolution.{Ready, Answer, build-Ready}
use twai_swarm.Actions.{
  FunctionNode, SymbolNode, InheritsEdge, CallEdge, IndexBatch, OrmCallHint, TableAccessEdge, read,
}
use twai_swarm.Finalize.Unique.{names_of, Refines, build_qualified_name_index-Refines}
use twai_swarm.Finalize.Names.{
  QualifiedNameIndex, build_qualified_name_index, add_declarations, dedup_declarations,
  declaration_of,
}
use twai_swarm.Finalize.Adapter.{
  to_declarations, to_scopes, to_parent_relation, build_local_var_type_index, range_for,
  module_declaration, class_declaration, function_declaration, class_scopes, module_scopes,
  add_parents, add_bindings,
}
use twai_swarm.Finalize.Imports.{
  Components, is_wildcard, add_imports, add_wildcards, target_module, file_modules, import_edges,
  ends_of, write_members, close_over, build_reexport_closure,
}
use twai_swarm.Finalize.Lookups.{
  Context, is_function, is_class, resolve_via_closure, scan_identifiers, identifiers,
  type_candidate, resolve_type_name, resolve_bare, resolve_in_module, resolve_wildcard_class,
  resolve_parent,
}
use twai_swarm.Finalize.Chains.{follow_name, follow_fields, follow_field}
use twai_swarm.Finalize.Calls.{
  declared_name, resolve_call, resolve_callee, resolve_in_file, resolve_dotted, param_method,
  method_of, inherited, on_receiver, resolve_self_or_super, bound_class, method_on,
  resolve_var_binding, resolve_compound_receiver, resolve_parts, resolve_compound, head_class,
  attribute_class,
}
use twai_swarm.Finalize.Anchors.{OrderedLines}
use twai_swarm.Finalize.Rewrites.{Pairwise, CallKept, BaseKept}
use twai_swarm.Finalize.Linked.{function_names, class_names, symbol_names}
use twai_swarm.Finalize.Correct.{
  finalize_batch-ok_iff, finalize_batch-Linked, finalize_batch-Kept, SymbolsAdded,
  finalize_batch-SymbolsAdded, finalize_batch-AccessesJustified,
}
use twai_swarm.Finalize.Receivers.{CallOn, resolve_self_or_super_lem}
use twai_swarm.Orm.Tables.{
  table_index, add_bare_names, django_qns, last_parts, add_raw_parents, is_django_model_class,
  table_for_class,
}
use twai_swarm.Orm.Hints.{
  resolve_chain_head, model_uses, manager_uses, classify_django_manager_call, classify_hint,
  matching_callee,
}
use twai_swarm.Orm.Correct.{FromHint}
use twai_swarm.Orm.{classify_orm_calls, classify_hints, emit, emit_all, edge_eq}
use twai_swarm.Finalize.{
  finalize_batch, resolve_batch, context_of, dispatch_of, methods_of, rewrite_inherits,
  rewrite_calls, new_symbols, add_symbols,
}

abbrev method : String → String → FunctionNode
method qn name = record {
  qualified_name = qn;
  name = name;
  file_path = "a.py";
  line_start = 12;
  line_end = 14;
  is_method = true;
  parent_class_qn = "a.A";
  param_types = [];
}

abbrev call : String → CallEdge
call callee = record { repo = "r"; caller_qn = "a.A.run"; callee_qn = callee; line = 13 }

abbrev filter_hint : OrmCallHint
filter_hint = record {
  caller_qn = "a.A.run";
  leaf = "filter";
  arg_head = "";
  inner_call_fn = "";
  inner_call_arg_head = "";
  line = 13;
}

abbrev filtered : TableAccessEdge
filtered = record {
  repo = "r";
  tenant_id = "t";
  function_qn = "a.A.run";
  table_name = "rows";
  op_kind = read;
  line = 13;
}

-- A class with one method, which calls itself and something unknown.
abbrev sample : IndexBatch
sample = record {
  repo = record { name = "r"; tenant_id = "t" };
  modules = record { qualified_name = "a"; file_path = "a.py" } ∷ [];
  classes =
      record {
        qualified_name = "a.A";
        name = "A";
        file_path = "a.py";
        line_start = 10;
        line_end = 20;
      }
      ∷ [];
  functions = method "a.A.run" "run" ∷ [];
  symbols = [];
  inherits = record { repo = "r"; child_qn = "a.A"; parent_qn = "Base" } ∷ [];
  calls = call "self.run" ∷ call "print" ∷ call "A.objects.filter" ∷ [];
  imports = [];
  local_var_bindings = [];
  tables = record { name = "rows"; model_qn = "a.A"; dialect = "django" } ∷ [];
  table_accesses = [];
  orm_call_hints = filter_hint ∷ [];
}

abbrev symbol : String → SymbolNode
symbol qn = record { repo = "r"; qualified_name = qn; name = qn }

abbrev run_a : Declaration
run_a = record {
  qualified_name = "a.A.run";
  name = "run";
  kind = method_decl;
  file_path = "a.py";
  range = record { file_path = "a.py"; start_byte = 12; end_byte = 15 };
  scope_id = none;
}

abbrev each_alone : Components
each_alone nodes edges = map (λ n. n ∷ []) nodes

-- What the resolver makes of it.
abbrev finalized : IndexBatch
finalized = record sample {
  symbols =
      symbol "Base"
      ∷ symbol "print"
      ∷ record { repo = "r"; qualified_name = "A.objects.filter"; name = "filter" }
      ∷ [];
  calls = call "a.A.run" ∷ call "print" ∷ call "A.objects.filter" ∷ [];
  table_accesses = filtered ∷ [];
}

sample-ok : finalize_batch each_alone sample ≡ ok finalized
unfolding finalize_batch resolve_batch context_of dispatch_of methods_of rewrite_inherits
    rewrite_calls classify_orm_calls new_symbols add_symbols to_declarations to_scopes
    to_parent_relation build_qualified_name_index build_scope_tree build_local_var_type_index
sample-ok =
    unfold scope_eq lookup insert insert_all member dedup append_at sort_by split_last_dot last_part
      split_first_dot split_dots starts_with_underscore update range_for module_declaration
      class_declaration function_declaration class_scopes module_scopes add_parents add_bindings
      is_wildcard add_imports add_wildcards target_module file_modules import_edges ends_of
      write_members close_over build_reexport_closure add_declarations dedup_declarations
      declaration_of build_module_scope_index add_exports add_export skipped default_private owner
      exports_of group_scopes add_scope build_files build_file outer_first identical_neighbours walk
      pop_closed place range_strictly_contains ranges_overlap Tree.empty Bindings.empty
      build_method_dispatch_index add_methods add_method copy_parents resolve methods_for merge_fuel
      all_parents compute_merged merge_parents parent_of is_function is_class resolve_via_closure
      scan_identifiers identifiers type_candidate resolve_type_name resolve_bare resolve_in_module
      resolve_wildcard_class resolve_parent resolve_call resolve_callee resolve_in_file
      resolve_dotted param_method method_of inherited on_receiver resolve_self_or_super bound_class
      method_on resolve_var_binding resolve_compound_receiver resolve_parts resolve_compound
      head_class attribute_class follow_name follow_fields follow_field find find_loop bound_at
      climb_fuel max_end Tree.parent_of table_index add_bare_names django_qns last_parts
      add_raw_parents is_django_model_class table_for_class resolve_chain_head model_uses
      manager_uses classify_django_manager_call classify_hint matching_callee classify_hints emit
      emit_all edge_eq in
    refl

sample-OrderedLines : OrderedLines sample
sample-OrderedLines = record { classes = (omega arith, tt); functions = (omega arith, tt) }

finalize_batch-ok_iff_example :
    ((after : IndexBatch) × (finalize_batch each_alone sample ≡ ok after)) ↔ (
      (a b : ScopeId)
      → In a (to_scopes sample)
      → In b (to_scopes sample)
      → a.file_path ≡ b.file_path
      → Laminar a b)
finalize_batch-ok_iff_example = finalize_batch-ok_iff each_alone sample sample-OrderedLines refl

finalize_batch-Linked_example :
    All
      (λ (e : CallEdge).
        In e.callee_qn (function_names sample) ⊎ In e.callee_qn (symbol_names finalized.symbols))
      finalized.calls
    × All
        (λ (e : InheritsEdge).
          In e.parent_qn (class_names sample) ⊎ In e.parent_qn (symbol_names finalized.symbols))
        finalized.inherits
finalize_batch-Linked_example =
    finalize_batch-Linked each_alone sample finalized sample-OrderedLines sample-ok

finalize_batch-Kept_example :
    Pairwise (CallKept (λ qn. In qn (function_names sample))) sample.calls finalized.calls
    × Pairwise (BaseKept (λ qn. In qn (class_names sample))) sample.inherits finalized.inherits
finalize_batch-Kept_example =
    finalize_batch-Kept each_alone sample finalized sample-OrderedLines sample-ok

finalize_batch-SymbolsAdded_example : SymbolsAdded sample finalized
finalize_batch-SymbolsAdded_example =
    finalize_batch-SymbolsAdded each_alone sample finalized sample-OrderedLines sample-ok

finalize_batch-AccessesJustified_example :
    (new : List TableAccessEdge) × (finalized.table_accesses ≡ sample.table_accesses ++ new)
    × All (FromHint sample.repo sample.tables finalized.calls sample.orm_call_hints) new
    × Distinct new
finalize_batch-AccessesJustified_example =
    finalize_batch-AccessesJustified each_alone sample finalized sample-OrderedLines sample-ok

-- A context that knows the class of the caller.
abbrev in_class : Context
in_class = record {
  qn_index = record { by_qn = [] };
  module_index = record { exports = [] };
  import_closure = [];
  imports_by_file = [];
  wildcard_targets_by_file = [];
  func_param_types = [];
  func_file_path = [];
  class_file_path = [];
  module_qn_by_file = [];
  func_scope_id = [];
  caller_class_qn = ("a.B.go", "a.B") ∷ [];
  class_scope_id = [];
  local_var_index = Bindings.empty;
  scope_tree = Tree.empty;
}

-- `B` derives from `A`, which has the method.
abbrev derived_dispatch : MethodDispatchIndex
derived_dispatch = build_method_dispatch_index (run_a ∷ []) (("a.B", "a.A" ∷ []) ∷ [])

resolve_self_or_super_lem_example :
    (res : Option Declaration) × (after : MethodDispatchIndex) × (resolve_self_or_super in_class
        "a.B.go" "super().run" derived_dispatch
      ≡ ok (declared_name res, after))
    × Ready after
    × (((target : String) × (name : String) × CallOn in_class derived_dispatch "a.B.go"
            "super().run" target name
          × Answer derived_dispatch target name res)
        ⊎ (res ≡ none)
          × (after ≡ derived_dispatch)
          × ((target name : String)
              → ¬ CallOn in_class derived_dispatch "a.B.go" "super().run" target name))
resolve_self_or_super_lem_example =
    resolve_self_or_super_lem in_class derived_dispatch "a.B.go" "super().run"
      (build-Ready (run_a ∷ []) (("a.B", "a.A" ∷ []) ∷ []))

build_qualified_name_index-Refines_example :
    (((index : QualifiedNameIndex) × (build_qualified_name_index (run_a ∷ []) ≡ ok index))
      ↔ Distinct (names_of (run_a ∷ [])))
    × ((index : QualifiedNameIndex)
        → build_qualified_name_index (run_a ∷ []) ≡ ok index
        → Refines (run_a ∷ []) index)
build_qualified_name_index-Refines_example = build_qualified_name_index-Refines (run_a ∷ [])
