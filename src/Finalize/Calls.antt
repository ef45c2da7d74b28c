-- ===== src/Finalize/Calls.antt =====
-- finalize.py: the resolution of one call.
use twai_swarm.Prelude.{
  String, Bool, ◌||◌, Option, none, some, List, [], ◌∷◌, string_eq, ◌==◌, lookup, get_or, or_else,
  has_dot, dotted, split_first_dot, split_dots, if◌then◌else◌, Outcome, ok, ◌>>=◌,
}
use twai_swarm.Scope.{Declaration}
use twai_swarm.Scope.Dispatch.{MethodDispatchIndex, resolve, parent_of}
use twai_swarm.Actions.{CallEdge}
use twai_swarm.Finalize.Lookups.{
  Context, is_function, accept, resolve_type_name, resolve_bare, resolve_in_module,
  resolve_wildcard_class,
}
use twai_swarm.Finalize.Chains.{follow_name, follow_fields, type_chain}

-- An answer, and the dispatch index, whose cache a search may fill.
abbrev pub Search : Type 0
Search = Outcome (Option String × MethodDispatchIndex)

abbrev pub next_search :
    Option String × MethodDispatchIndex → (MethodDispatchIndex → Search) → Search
next_search (some qn, index) later = ok (some qn, index)
next_search (none, index) later = later index

infixl 4 ◌<|>◌
abbrev pub ◌<|>◌ : Search → (MethodDispatchIndex → Search) → Search
first <|> later = first >>= λ r. next_search r later

abbrev pub declared_name : Option Declaration → Option String
declared_name none = none
declared_name (some d) = some d.qualified_name

-- The method that the dispatch index finds on a class or an ancestor.
unfoldable pub inherited : String → String → MethodDispatchIndex → Search
inherited class_qn name index =
    resolve index class_qn name >>= λ found. ok (declared_name found.0, found.1)

-- `Class.method` itself, else what the class inherits.
unfoldable pub method_of : Context → String → String → MethodDispatchIndex → Search
method_of c class_qn name index =
    ok (accept (is_function c) (dotted class_qn name), index) <|> inherited class_qn name

-- The case (d): `head` is a parameter with a type annotation.
unfoldable pub param_method :
    Context → String → String → String → String → MethodDispatchIndex → Search
param_method c caller_qn file_path head rest index =
    elim (lookup head (get_or [] (lookup caller_qn c.func_param_types))) [
      | none ↦ ok (none, index)
      | some type_text ↦ elim (resolve_type_name c file_path type_text) [
        | none ↦ ok (none, index)
        | some type_qn ↦
            if has_dot rest
            then ok (accept (is_function c) (dotted type_qn rest), index)
            else method_of c type_qn rest index
      ]
    ]

unfoldable pub resolve_dotted :
    Context → String → String → String → String → MethodDispatchIndex → Search
resolve_dotted c caller_qn file_path head rest index =
    param_method c caller_qn file_path head rest index <|> λ index'. ok (
      or_else (resolve_in_module c (is_function c) file_path head rest)
          (resolve_wildcard_class c file_path head rest),
      index',
    )

unfoldable pub resolve_in_file : Context → String → String → String → MethodDispatchIndex → Search
resolve_in_file c caller_qn file_path callee_dotted index = elim (split_first_dot callee_dotted) [
  | none ↦ ok (resolve_bare c (is_function c) file_path callee_dotted, index)
  | some (head, rest) ↦ resolve_dotted c caller_qn file_path head rest index
]

unfoldable pub resolve_callee : Context → String → String → MethodDispatchIndex → Search
resolve_callee c caller_qn callee_dotted index =
    ok (accept (is_function c) callee_dotted, index) <|> λ index'.
    elim (lookup caller_qn c.func_file_path) [
      | none ↦ ok (none, index')
      | some file_path ↦ resolve_in_file c caller_qn file_path callee_dotted index'
    ]

abbrev pub is_self : String → Bool
is_self head = head == "self" || head == "this"

abbrev pub is_super : String → Bool
is_super head = head == "super()" || head == "super"

-- The receivers of `_resolve_self_or_super`, for a caller in `class_qn`.
unfoldable pub on_receiver : String → String → String → MethodDispatchIndex → Search
on_receiver class_qn head name index =
    let from_parent : Search = elim (parent_of index class_qn) [
      | none ↦ ok (none, index)
      | some parent_qn ↦ inherited parent_qn name index
    ] in
    if is_self head
    then inherited class_qn name index
    else if is_super head
    then from_parent
    else ok (none, index)

unfoldable pub resolve_self_or_super : Context → String → String → MethodDispatchIndex → Search
resolve_self_or_super c caller_qn callee_dotted index = elim (lookup caller_qn c.caller_class_qn) [
  | none ↦ ok (none, index)
  | some class_qn ↦ elim (split_first_dot callee_dotted) [
    | none ↦ ok (none, index)
    | some (head, rest) ↦
        if has_dot rest then ok (none, index) else on_receiver class_qn head rest index
  ]
]

-- The class of a name that is bound in or around the caller.
unfoldable pub bound_class : Context → String → String → Outcome (Option String)
bound_class c caller_qn name = elim (lookup caller_qn c.func_scope_id) [
  | none ↦ ok none
  | some scope ↦ follow_name c (type_chain c) scope name
]

-- The method, where a class was found.
unfoldable pub method_on : Context → Option String → String → MethodDispatchIndex → Search
method_on c none name index = ok (none, index)
method_on c (some class_qn) name index = method_of c class_qn name index

unfoldable pub resolve_var_binding : Context → String → String → MethodDispatchIndex → Search
resolve_var_binding c caller_qn callee_dotted index = elim (split_first_dot callee_dotted) [
  | none ↦ ok (none, index)
  | some (head, rest) ↦
      let found = bound_class c caller_qn head >>= λ class_qn. method_on c class_qn rest index in
      if has_dot rest then ok (none, index) else found
]

-- The class of the first name of a chain.
unfoldable pub head_class : Context → String → String → Outcome (Option String)
head_class c caller_qn head =
    if is_self head then ok (lookup caller_qn c.caller_class_qn) else bound_class c caller_qn head

-- The class after the attributes of a chain.
unfoldable pub attribute_class : Context → Option String → List String → Outcome (Option String)
attribute_class c none attrs = ok none
attribute_class c (some class_qn) attrs = follow_fields c (type_chain c) class_qn attrs

unfoldable pub resolve_compound :
    Context → String → String → List String → String → MethodDispatchIndex → Search
resolve_compound c caller_qn head attrs method_name index = head_class c caller_qn head >>= λ start.
    attribute_class c start attrs >>= λ class_qn. method_on c class_qn method_name index

-- Chains of three and of four segments; the others are given up.
unfoldable pub resolve_parts : Context → String → List String → MethodDispatchIndex → Search
resolve_parts c caller_qn (head ∷ a ∷ method_name ∷ []) index =
    resolve_compound c caller_qn head (a ∷ []) method_name index
resolve_parts c caller_qn (head ∷ a ∷ b ∷ method_name ∷ []) index =
    resolve_compound c caller_qn head (a ∷ b ∷ []) method_name index
resolve_parts c caller_qn _ index = ok (none, index)

unfoldable pub resolve_compound_receiver : Context → String → String → MethodDispatchIndex → Search
resolve_compound_receiver c caller_qn callee_dotted index =
    resolve_parts c caller_qn (split_dots callee_dotted) index

-- The chain of fallbacks for one call.
unfoldable pub resolve_call : Context → CallEdge → MethodDispatchIndex → Search
resolve_call c edge index =
    resolve_callee c edge.caller_qn edge.callee_qn index
    <|> resolve_self_or_super c edge.caller_qn edge.callee_qn
    <|> resolve_var_binding c edge.caller_qn edge.callee_qn
    <|> resolve_compound_receiver c edge.caller_qn edge.callee_qn
