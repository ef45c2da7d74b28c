-- ===== src/Finalize/Lookups.antt =====
-- finalize.py: the indexes that the resolvers read, and the resolution by names and imports.
use Prim.Native.Char.{Char, code}
use twai_swarm.Prelude.{
  String, Bool, true, false, ◌&&◌, ◌||◌, Option, none, some, List, [], ◌∷◌, string_eq, ◌==◌, Dict,
  lookup, get_or, or_else, first_some, list_at, leb, nat_beq, is_dot, join, dotted, split_first_dot,
  if◌then◌else◌,
}
use twai_swarm.Scope.{Declaration, ScopeId, function_decl, method_decl}
use twai_swarm.Scope.Tree.{ScopeTree}
use twai_swarm.Scope.Bindings.{LocalVarTypeIndex}
use twai_swarm.Scope.Exports.{ModuleScopeIndex, exports_of}
use twai_swarm.Finalize.Names.{QualifiedNameIndex, declaration_of}
use twai_swarm.Finalize.Adapter.{is_class_decl}
use twai_swarm.Finalize.Imports.{ImportsByFile, owner_or}

pub record Context : Type 0 where
  pub qn_index : QualifiedNameIndex
  pub module_index : ModuleScopeIndex
  pub import_closure : Dict String (List String)
  pub imports_by_file : ImportsByFile
  pub wildcard_targets_by_file : Dict String (List String)
  pub func_param_types : Dict String (Dict String String)
  pub func_file_path : Dict String String
  pub class_file_path : Dict String String
  pub module_qn_by_file : Dict String String
  pub func_scope_id : Dict String ScopeId
  pub caller_class_qn : Dict String String
  pub class_scope_id : Dict String ScopeId
  pub local_var_index : LocalVarTypeIndex
  pub scope_tree : ScopeTree

abbrev pub is_function_decl : Option Declaration → Bool
is_function_decl none = false
is_function_decl (some d) = elim d.kind [ function_decl ↦ true | method_decl ↦ true | _ ↦ false ]

unfoldable pub is_function : Context → String → Bool
is_function c qn = is_function_decl (declaration_of c.qn_index qn)

unfoldable pub is_class : Context → String → Bool
is_class c qn = is_class_decl (declaration_of c.qn_index qn)

abbrev pub accept : (String → Bool) → String → Option String
accept predicate qn = if predicate qn then some qn else none

abbrev pub export_hit : String → (String → Bool) → Declaration → Option String
export_hit name predicate d =
    if d.name == name && predicate d.qualified_name then some d.qualified_name else none

unfoldable pub resolve_via_closure : Context → String → String → (String → Bool) → Option String
resolve_via_closure c module_qn name predicate =
    first_some (λ m. first_some (export_hit name predicate) (exports_of c.module_index m))
      (get_or (module_qn ∷ []) (lookup module_qn c.import_closure))

abbrev pub starts_identifier : Char → Bool
starts_identifier ch =
    let n = code ch in leb b'a' n && leb n b'z' || leb b'A' n && leb n b'Z' || nat_beq n b'_'

abbrev pub continues_identifier : Char → Bool
continues_identifier ch =
    starts_identifier ch || leb b'0' (code ch) && leb (code ch) b'9' || is_dot ch

-- `re.findall(r"[A-Za-z_][A-Za-z0-9_.]*", text)`, with the match that is being read.
unfoldable pub scan_identifiers : Option String → String → List String
scan_identifiers none String.[] = []
scan_identifiers (some word) String.[] = word ∷ []
scan_identifiers none (String.◌∷◌ ch s) =
    if starts_identifier ch
    then scan_identifiers (some (String.◌∷◌ ch String.[])) s
    else scan_identifiers none s
scan_identifiers (some word) (String.◌∷◌ ch s) =
    let ended = word ∷ scan_identifiers none s in
    if continues_identifier ch
    then scan_identifiers (some (join word (String.◌∷◌ ch String.[]))) s
    else ended

unfoldable pub identifiers : String → List String
identifiers text = scan_identifiers none text

-- The imports of a file.
abbrev pub bindings_of : Context → String → Dict String (String × String)
bindings_of c file_path = get_or [] (lookup file_path c.imports_by_file)

abbrev pub wildcards_of : Context → String → List String
wildcards_of c file_path = list_at file_path c.wildcard_targets_by_file

-- One round over the candidates of a type annotation.
unfoldable pub type_candidate : Context → String → String → Option String
type_candidate c file_path head =
    let same_module : Option String = elim (lookup file_path c.module_qn_by_file) [
      | none ↦ none
      | some module_qn ↦ accept (is_class c) (dotted module_qn head)
    ] in
    let imported : Option String = elim (lookup head (bindings_of c file_path)) [
      | none ↦ none
      | some (target_qn, _) ↦
          or_else (accept (is_class c) target_qn)
            (resolve_via_closure c target_qn head (is_class c))
    ] in
    or_else (accept (is_class c) head) (or_else same_module imported)

unfoldable pub resolve_type_name : Context → String → String → Option String
resolve_type_name c file_path type_text =
    let candidates = identifiers type_text in
    or_else (first_some (type_candidate c file_path) candidates) (
      first_some
        (λ target. first_some (λ head. resolve_via_closure c target head (is_class c)) candidates)
        (wildcards_of c file_path))

-- The cases (b), (f) and (e) for a bare name: an imported symbol, else a wildcard import.
unfoldable pub resolve_bare : Context → (String → Bool) → String → String → Option String
resolve_bare c predicate file_path name =
    let imported : Option String = elim (lookup name (bindings_of c file_path)) [
      | none ↦ none
      | some (target_qn, kind) ↦
          if kind == "symbol"
          then or_else (accept predicate target_qn)
              (resolve_via_closure c (owner_or "" target_qn) name predicate)
          else none
    ] in
    or_else imported (
      first_some (λ target. resolve_via_closure c target name predicate) (wildcards_of c file_path))

-- The cases (c) and (f) for `head.rest`, where `head` is an imported module.
unfoldable pub resolve_in_module :
    Context → (String → Bool) → String → String → String → Option String
resolve_in_module c predicate file_path head rest = elim (lookup head (bindings_of c file_path)) [
  | none ↦ none
  | some (target_qn, kind) ↦
      if kind == "module"
      then or_else (accept predicate (dotted target_qn rest))
          (resolve_via_closure c target_qn rest predicate)
      else none
]

-- The case (e) for `head.rest`, where `head` is a class that a wildcard imports.
unfoldable pub resolve_wildcard_class : Context → String → String → String → Option String
resolve_wildcard_class c file_path head rest =
    first_some
      (λ target. elim (resolve_via_closure c target head (is_class c)) [
        | none ↦ none
        | some class_qn ↦ accept (is_function c) (dotted class_qn rest)
      ])
      (wildcards_of c file_path)

unfoldable pub resolve_parent : Context → String → String → Option String
resolve_parent c child_qn parent_dotted =
    let imported : Option String = elim (lookup child_qn c.class_file_path) [
      | none ↦ none
      | some child_file ↦ elim (split_first_dot parent_dotted) [
        | none ↦ resolve_bare c (is_class c) child_file parent_dotted
        | some (head, rest) ↦ resolve_in_module c (is_class c) child_file head rest
      ]
    ] in
    or_else (accept (is_class c) parent_dotted) imported
