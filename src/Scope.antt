-- ===== src/Scope.antt =====
-- app/repo_indexer/scope_resolution: the value types of types.py, and the indexes over them.
pub mod Tree
pub mod Positions
pub mod Bindings
pub mod Exports
pub mod Dispatch
mod Examples
mod Lookups
use twai_swarm.Prelude.{
  ℕ, String, ◌≡◌, ◌↔◌, Bool, true, false, ◌&&◌, Option, arith, HasEq, ◌==◌, nat_eq, string_eq,
  nat_beq_iff,
}

pub data ScopeKind : Type 0 where
  module_scope class_scope function_scope block_scope : ScopeKind

pub data DeclarationKind : Type 0 where
  function_decl class_decl module_decl method_decl import_decl : DeclarationKind

pub record Position : Type 0 where
  pub file_path : String
  pub byte_offset : ℕ

-- The half-open range [start_byte, end_byte) of one file.
pub record Range : Type 0 where
  pub file_path : String
  pub start_byte : ℕ
  pub end_byte : ℕ

pub record ScopeId : Type 0 where
  pub file_path : String
  pub range : Range
  pub kind : ScopeKind

-- `scope_id` is `none` for a declaration of the module level.
pub record Declaration : Type 0 where
  pub qualified_name : String
  pub name : String
  pub kind : DeclarationKind
  pub file_path : String
  pub range : Range
  pub scope_id : Option ScopeId

pub data BindingSource : Type 0 where
  param self constructor return class_field : BindingSource

pub record TypeRef : Type 0 where
  pub raw_name : String
  pub declared_at_scope : ScopeId
  pub source : BindingSource

abbrev pub kind_beq : ScopeKind → ScopeKind → Bool
kind_beq module_scope module_scope = true
kind_beq class_scope class_scope = true
kind_beq function_scope function_scope = true
kind_beq block_scope block_scope = true
kind_beq _ _ = false

pub kind_beq_iff : (a b : ScopeKind) → (kind_beq a b ≡ true) ↔ (a ≡ b)
kind_beq_iff a b = ground arith

-- The structural equality of a frozen dataclass.
abbrev pub scope_beq : ScopeId → ScopeId → Bool
scope_beq a b =
    a.file_path == b.file_path
    && a.range.file_path == b.range.file_path
    && a.range.start_byte == b.range.start_byte
    && a.range.end_byte == b.range.end_byte
    && kind_beq a.kind b.kind

pub scope_beq_iff : (a b : ScopeId) → (scope_beq a b ≡ true) ↔ (a ≡ b)
scope_beq_iff a b = ground (
  arith,
  string_eq.same_iff a.file_path b.file_path,
  string_eq.same_iff a.range.file_path b.range.file_path,
)

instance unfoldable pub scope_eq : HasEq ScopeId
scope_eq = record { same = scope_beq; same_iff = scope_beq_iff }
