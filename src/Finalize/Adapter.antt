-- ===== src/Finalize/Adapter.antt =====
-- _adapter.py: the records of a batch as the declarations and scopes of the scope indexes.
use twai_swarm.Prelude.{
  ℕ, ◌+◌, String, Bool, true, false, ◌&&◌, not, Option, none, some, List, [], ◌∷◌, ◌++◌, map,
  string_eq, ◌==◌, Dict, lookup, insert_all, append_at, member, last_part, if◌then◌else◌,
}
use twai_swarm.Scope.{
  Declaration, DeclarationKind, function_decl, class_decl, module_decl, method_decl, Range, ScopeId,
  ScopeKind, module_scope, class_scope, function_scope, TypeRef, BindingSource,
}
use twai_swarm.Scope.Bindings.{LocalVarTypeIndex, empty, add}
use twai_swarm.Actions.{
  ModuleNode, ClassNode, FunctionNode, InheritsEdge, LocalVarBinding, IndexBatch,
}
use twai_swarm.Finalize.Names.{QualifiedNameIndex, declaration_of}

-- `_range_for`. Line numbers stand in for byte offsets.
unfoldable pub range_for : String → ℕ → ℕ → Range
range_for file_path line_start line_end = record {
  file_path = file_path;
  start_byte = line_start;
  end_byte = line_end + 1;
}

abbrev pub scope_of : String → ℕ → ℕ → ScopeKind → ScopeId
scope_of file_path line_start line_end kind = record {
  file_path = file_path;
  range = range_for file_path line_start line_end;
  kind = kind;
}

abbrev pub class_scope_of : ClassNode → ScopeId
class_scope_of c = scope_of c.file_path c.line_start c.line_end class_scope

abbrev pub function_scope_of : FunctionNode → ScopeId
function_scope_of f = scope_of f.file_path f.line_start f.line_end function_scope

-- `is_method and parent_class_qn`
abbrev pub enclosing_class : FunctionNode → Option String
enclosing_class f =
    if f.is_method && not (f.parent_class_qn == "") then some f.parent_class_qn else none

unfoldable pub module_declaration : ModuleNode → Declaration
module_declaration m = record {
  qualified_name = m.qualified_name;
  name = last_part m.qualified_name;
  kind = module_decl;
  file_path = m.file_path;
  range = record { file_path = m.file_path; start_byte = 0; end_byte = 0 };
  scope_id = none;
}

unfoldable pub class_declaration : ClassNode → Declaration
class_declaration c = record {
  qualified_name = c.qualified_name;
  name = c.name;
  kind = class_decl;
  file_path = c.file_path;
  range = range_for c.file_path c.line_start c.line_end;
  scope_id = none;
}

abbrev pub function_kind : Bool → DeclarationKind
function_kind true = method_decl
function_kind false = function_decl

unfoldable pub function_declaration : Dict String ScopeId → FunctionNode → Declaration
function_declaration class_scope_by_qn f = record {
  qualified_name = f.qualified_name;
  name = f.name;
  kind = function_kind f.is_method;
  file_path = f.file_path;
  range = range_for f.file_path f.line_start f.line_end;
  scope_id = elim (enclosing_class f) [ none ↦ none | some qn ↦ lookup qn class_scope_by_qn ];
}

unfoldable pub class_scopes : List ClassNode → Dict String ScopeId
class_scopes classes = insert_all (λ c. some (c.qualified_name, class_scope_of c)) [] classes

unfoldable pub to_declarations : IndexBatch → List Declaration
to_declarations batch =
    map module_declaration batch.modules
    ++ map class_declaration batch.classes
    ++ map (function_declaration (class_scopes batch.classes)) batch.functions

abbrev pub module_scope_end : ℕ
module_scope_end = 1000000000

abbrev pub module_scope_of : String → ScopeId
module_scope_of file_path = record {
  file_path = file_path;
  range = record { file_path = file_path; start_byte = 0; end_byte = module_scope_end };
  kind = module_scope;
}

-- The loop over the modules: one scope for each file.
unfoldable pub module_scopes : List String → List ModuleNode → List ScopeId
module_scopes seen [] = []
module_scopes seen (m ∷ ms) =
    let skipped = module_scopes seen ms in
    let kept = module_scope_of m.file_path ∷ module_scopes (m.file_path ∷ seen) ms in
    if member m.file_path seen then skipped else kept

unfoldable pub to_scopes : IndexBatch → List ScopeId
to_scopes batch =
    module_scopes [] batch.modules
    ++ map class_scope_of batch.classes
    ++ map function_scope_of batch.functions

abbrev pub is_class_decl : Option Declaration → Bool
is_class_decl none = false
is_class_decl (some d) = elim d.kind [ class_decl ↦ true | _ ↦ false ]

-- The loop of `to_parent_relation`: edges to known classes alone.
unfoldable pub add_parents :
    QualifiedNameIndex → Dict String (List String) → List InheritsEdge → Dict String (List String)
add_parents qn_index relation [] = relation
add_parents qn_index relation (edge ∷ edges) =
    if is_class_decl (declaration_of qn_index edge.parent_qn)
    then add_parents qn_index (append_at edge.child_qn edge.parent_qn relation) edges
    else add_parents qn_index relation edges

unfoldable pub to_parent_relation :
    List InheritsEdge → QualifiedNameIndex → Dict String (List String)
to_parent_relation inherits qn_index = add_parents qn_index [] inherits

abbrev pub binding_source : ScopeKind → BindingSource
binding_source class_scope = BindingSource.class_field
binding_source _ = BindingSource.constructor

abbrev pub binding_scope : LocalVarBinding → ScopeId
binding_scope b =
    scope_of b.file_path b.enclosing_line_start b.enclosing_line_end b.enclosing_scope_kind

abbrev pub binding_ref : LocalVarBinding → TypeRef
binding_ref b = record {
  raw_name = b.type_raw_name;
  declared_at_scope = binding_scope b;
  source = binding_source b.enclosing_scope_kind;
}

unfoldable pub add_bindings : LocalVarTypeIndex → List LocalVarBinding → LocalVarTypeIndex
add_bindings index [] = index
add_bindings index (b ∷ bs) =
    add_bindings (add index (binding_scope b) b.var_name (binding_ref b)) bs

unfoldable pub build_local_var_type_index : List LocalVarBinding → LocalVarTypeIndex
build_local_var_type_index bindings = add_bindings empty bindings
