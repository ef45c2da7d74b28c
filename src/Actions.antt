-- ===== src/Actions.antt =====
-- app/repo_indexer/actions.py: the records that the extractors emit and reference resolution reads.
-- Of the nodes and of the batch, the fields that the resolver neither reads nor writes are left out.
use twai_swarm.Prelude.{ℕ, String, Bool, List}
use twai_swarm.Scope.{ScopeKind}

pub record RepoNode : Type 0 where
  pub name : String
  pub tenant_id : String

pub record ModuleNode : Type 0 where
  pub qualified_name : String
  pub file_path : String

pub record ClassNode : Type 0 where
  pub qualified_name : String
  pub name : String
  pub file_path : String
  pub line_start : ℕ
  pub line_end : ℕ

pub record FunctionNode : Type 0 where
  pub qualified_name : String
  pub name : String
  pub file_path : String
  pub line_start : ℕ
  pub line_end : ℕ
  pub is_method : Bool
  pub parent_class_qn : String
  pub param_types : List (String × String)

pub record SymbolNode : Type 0 where
  pub repo : String
  pub qualified_name : String
  pub name : String

pub record InheritsEdge : Type 0 where
  pub repo : String
  pub child_qn : String
  pub parent_qn : String

pub record CallEdge : Type 0 where
  pub repo : String
  pub caller_qn : String
  pub callee_qn : String
  pub line : ℕ

-- `kind` is "module" or "symbol".
pub record ImportEdge : Type 0 where
  pub file_path : String
  pub target_qn : String
  pub local_name : String
  pub kind : String

pub record LocalVarBinding : Type 0 where
  pub file_path : String
  pub enclosing_scope_kind : ScopeKind
  pub enclosing_line_start : ℕ
  pub enclosing_line_end : ℕ
  pub var_name : String
  pub type_raw_name : String

pub record TableNode : Type 0 where
  pub name : String
  pub model_qn : String
  pub dialect : String

pub record OrmCallHint : Type 0 where
  pub caller_qn : String
  pub leaf : String
  pub arg_head : String
  pub inner_call_fn : String
  pub inner_call_arg_head : String
  pub line : ℕ

pub data OpKind : Type 0 where
  read write : OpKind

pub record TableAccessEdge : Type 0 where
  pub repo : String
  pub tenant_id : String
  pub function_qn : String
  pub table_name : String
  pub op_kind : OpKind
  pub line : ℕ

pub record IndexBatch : Type 0 where
  pub repo : RepoNode
  pub modules : List ModuleNode
  pub classes : List ClassNode
  pub functions : List FunctionNode
  pub symbols : List SymbolNode
  pub inherits : List InheritsEdge
  pub calls : List CallEdge
  pub imports : List ImportEdge
  pub local_var_bindings : List LocalVarBinding
  pub tables : List TableNode
  pub table_accesses : List TableAccessEdge
  pub orm_call_hints : List OrmCallHint
