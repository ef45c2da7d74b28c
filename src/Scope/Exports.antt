-- ===== src/Scope/Exports.antt =====
-- module_scope_index.py: what each module exports.
pub mod Listed
use twai_swarm.Prelude.{
  String, Bool, true, false, Option, none, some, List, [], ◌∷◌, ◌||◌, string_eq, Dict, lookup,
  append_at, list_at, is_some, if◌then◌else◌, split_last_dot, starts_with_underscore, map,
}
use twai_swarm.Scope.{Declaration, DeclarationKind, module_decl}

unfoldable pub default_private : Declaration → Bool
default_private decl = starts_with_underscore decl.name

pub record ModuleScopeIndex : Type 0 where
  pub exports : Dict String (List Declaration)

unfoldable pub exports_of : ModuleScopeIndex → String → List Declaration
exports_of index module_qn = list_at module_qn index.exports

abbrev pub key_of : String × List Declaration → String
key_of (k, _) = k

unfoldable pub module_qns : ModuleScopeIndex → List String
module_qns index = map key_of index.exports

-- `__contains__`
unfoldable pub has_module : ModuleScopeIndex → String → Bool
has_module index module_qn = is_some (lookup module_qn index.exports)

abbrev pub is_module : DeclarationKind → Bool
is_module module_decl = true
is_module _ = false

-- All before the last dot, or the empty text where there is no dot.
abbrev pub before_last_dot : Option (String × String) → String
before_last_dot none = ""
before_last_dot (some (a, _)) = a

unfoldable pub owner : Declaration → String
owner decl =
    if is_module decl.kind
    then decl.qualified_name
    else before_last_dot (split_last_dot decl.qualified_name)

-- The two `continue`s of the loop.
unfoldable pub skipped : (Declaration → Bool) → Declaration → Bool
skipped private decl = is_some decl.scope_id || private decl

unfoldable pub add_export : (Declaration → Bool) → ModuleScopeIndex → Declaration → ModuleScopeIndex
add_export private index decl =
    if skipped private decl
    then index
    else record { exports = append_at (owner decl) decl index.exports }

unfoldable pub add_exports :
    (Declaration → Bool) → ModuleScopeIndex → List Declaration → ModuleScopeIndex
add_exports private index [] = index
add_exports private index (decl ∷ rest) = add_exports private (add_export private index decl) rest

unfoldable pub build_module_scope_index : (Declaration → Bool) → List Declaration → ModuleScopeIndex
build_module_scope_index private declarations =
    add_exports private (record { exports = [] }) declarations
