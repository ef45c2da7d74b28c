-- ===== src/Orm/Hints.antt =====
-- orm_classifier.py: the tables that one hint reads or writes.
use twai_swarm.Prelude.{
  String, Bool, true, false, ◌&&◌, ◌||◌, not, Option, none, some, List, [], ◌∷◌, map, string_eq,
  nat_eq, ◌==◌, lookup, is_some, or_else, first_some, member, has_dot, first_part, last_part,
  split_last_dot, split_dots, if◌then◌else◌, Outcome, ok, ◌>>=◌,
}
use twai_swarm.Actions.{OrmCallHint, CallEdge, OpKind, read, write}
use twai_swarm.Finalize.Imports.{owner_or}
use twai_swarm.Finalize.Lookups.{Context, resolve_type_name}
use twai_swarm.Finalize.Calls.{is_self, bound_class}
use twai_swarm.Orm.Tables.{TableIndex, is_django_model_class, table_for_class}

abbrev pub sa_session_leaf_methods : List String
sa_session_leaf_methods =
    "query" ∷ "get" ∷ "scalars" ∷ "execute" ∷ "add" ∷ "add_all" ∷ "merge" ∷ "delete"
    ∷ "bulk_save_objects" ∷ "bulk_insert_mappings" ∷ "bulk_update_mappings" ∷ []

abbrev pub django_read_leaf_methods : List String
django_read_leaf_methods =
    "all" ∷ "filter" ∷ "exclude" ∷ "get" ∷ "first" ∷ "last" ∷ "count" ∷ "exists" ∷ "values"
    ∷ "values_list" ∷ "only" ∷ "defer" ∷ "order_by" ∷ "distinct" ∷ "annotate" ∷ "aggregate"
    ∷ "in_bulk" ∷ "iterator" ∷ "raw" ∷ "none" ∷ "reverse" ∷ "union" ∷ "difference" ∷ "intersection"
    ∷ "select_related" ∷ "prefetch_related" ∷ []

abbrev pub django_write_leaf_methods : List String
django_write_leaf_methods = "create" ∷ "bulk_create" ∷ "update" ∷ "bulk_update" ∷ "raw_update" ∷ []

abbrev pub django_both_leaf_methods : List String
django_both_leaf_methods = "get_or_create" ∷ "update_or_create" ∷ []

abbrev pub django_instance_write_methods : List String
django_instance_write_methods = "save" ∷ "delete" ∷ []

abbrev pub django_instance_read_methods : List String
django_instance_read_methods = "refresh_from_db" ∷ []

abbrev pub sa_inner_constructs : List String
sa_inner_constructs = "select" ∷ "insert" ∷ "update" ∷ "delete" ∷ []

abbrev pub sa_session_type_names : List String
sa_session_type_names =
    "Session" ∷ "AsyncSession" ∷ "scoped_session" ∷ "sessionmaker" ∷ "sqlalchemy.orm.Session"
    ∷ "sqlalchemy.orm.scoped_session" ∷ "sqlalchemy.orm.sessionmaker"
    ∷ "sqlalchemy.ext.asyncio.AsyncSession" ∷ []

unfoldable pub is_sa_session_class : String → Bool
is_sa_session_class class_qn =
    member class_qn sa_session_type_names || member (last_part class_qn) sa_session_type_names

-- `_resolve_chain_head_to_class`
unfoldable pub resolve_chain_head : Context → String → String → Option String
resolve_chain_head c caller_qn chain_head = elim (lookup caller_qn c.func_file_path) [
  | none ↦ none
  | some file_path ↦ resolve_type_name c file_path chain_head
]

-- Tables, each with what is done to it.
abbrev pub Uses : Type 0
Uses = List (String × OpKind)

abbrev pub uses : List OpKind → Option String → Uses
uses ops none = []
uses ops (some table_name) = map (λ op. (table_name, op)) ops

-- The class that an argument stands for: the call is dropped, or there may be none.
pub data Target : Type 0 where
  dropped : Target
  target : Option String → Target

abbrev pub sa_operation : OrmCallHint → Option OpKind
sa_operation hint =
    let executed : Option OpKind =
      if hint.inner_call_fn == "select"
      then some read
      else if member hint.inner_call_fn ("insert" ∷ "update" ∷ "delete" ∷ [])
      then some write
      else none in
    if member hint.leaf ("query" ∷ "get" ∷ "scalars" ∷ [])
    then some read
    else if hint.leaf == "execute"
    then executed
    else if member hint.leaf (
        "add" ∷ "add_all" ∷ "merge" ∷ "delete" ∷ "bulk_save_objects" ∷ "bulk_insert_mappings"
        ∷ "bulk_update_mappings" ∷ [])
    then some write
    else none

-- An argument that names a class.
unfoldable pub class_target : Context → String → String → Target
class_target c caller_qn text =
    if text == "" then dropped else target (resolve_chain_head c caller_qn (first_part text))

-- An argument that is a variable, or a class where `or_class` says so.
unfoldable pub variable_target : Context → Bool → String → String → Outcome Target
variable_target c or_class caller_qn text =
    let found = bound_class c caller_qn (first_part text) >>= λ class_qn. ok (
      target (
        if or_class
        then or_else class_qn (resolve_chain_head c caller_qn (first_part text))
        else class_qn)) in
    if text == "" then ok dropped else found

unfoldable pub sa_target : Context → OrmCallHint → Outcome Target
sa_target c hint =
    let inner =
      if member hint.inner_call_fn sa_inner_constructs
      then class_target c hint.caller_qn hint.inner_call_arg_head
      else dropped in
    let of_class = class_target c hint.caller_qn hint.arg_head in
    let of_instance = variable_target c true hint.caller_qn hint.arg_head in
    let of_list = variable_target c false hint.caller_qn hint.arg_head in
    if member hint.leaf ("query" ∷ "get" ∷ "scalars" ∷ [])
    then ok of_class
    else if hint.leaf == "execute"
    then ok inner
    else if member hint.leaf ("add" ∷ "merge" ∷ "delete" ∷ "add_all" ∷ [])
    then of_instance
    else if hint.leaf == "bulk_save_objects"
    then of_list
    else ok of_class

-- A receiver of more than one segment must be a session.
abbrev pub foreign_receiver : String → List String → Bool
foreign_receiver callee_qn (a ∷ b ∷ d ∷ rest) = not (is_sa_session_class (owner_or "" callee_qn))
foreign_receiver callee_qn _ = false

abbrev pub target_uses : TableIndex → OrmCallHint → OpKind → Target → Uses
target_uses index hint op dropped = []
target_uses index hint op (target class_qn) =
    uses (op ∷ []) (table_for_class index class_qn hint.arg_head)

unfoldable pub classify_sa_session_call : Context → TableIndex → OrmCallHint → String → Outcome Uses
classify_sa_session_call c index hint callee_qn = elim (sa_operation hint) [
  | none ↦ ok []
  | some op ↦
      let found = sa_target c hint >>= λ t. ok (target_uses index hint op t) in
      if foreign_receiver callee_qn (split_dots callee_qn) then ok [] else found
]

abbrev pub manager_operations : String → List OpKind
manager_operations leaf =
    if member leaf django_read_leaf_methods
    then read ∷ []
    else if member leaf django_write_leaf_methods
    then write ∷ []
    else if member leaf django_both_leaf_methods
    then read ∷ write ∷ []
    else []

-- What is done to the table of a class, if the class is a Django model.
unfoldable pub model_uses : TableIndex → List OpKind → Option String → String → Outcome Uses
model_uses index ops none fallback = ok []
model_uses index ops (some class_qn) fallback = is_django_model_class index class_qn >>= λ is_model.
    ok (if is_model then uses ops (table_for_class index (some class_qn) fallback) else [])

unfoldable pub manager_uses :
    Context → TableIndex → String → List OpKind → List String → Outcome Uses
manager_uses c index caller_qn ops (head ∷ manager ∷ method_name ∷ rest) =
    if manager == "objects"
    then model_uses index ops (resolve_chain_head c caller_qn head) head
    else ok []
manager_uses c index caller_qn ops _ = ok []

unfoldable pub classify_django_manager_call :
    Context → TableIndex → OrmCallHint → String → Outcome Uses
classify_django_manager_call c index hint callee_qn =
    manager_uses c index hint.caller_qn (manager_operations hint.leaf) (split_dots callee_qn)

-- The class of the receiver of `recv_text.method(...)`.
unfoldable pub instance_class : Context → TableIndex → String → String → Outcome (Option String)
instance_class c index caller_qn recv_text =
    let declared =
      if is_some (lookup recv_text index.table_by_class_qn)
        || is_some (lookup (last_part recv_text) index.table_by_bare_class_name)
      then some recv_text
      else none in
    if is_self recv_text
    then ok (lookup caller_qn c.caller_class_qn)
    else if has_dot recv_text
    then ok declared
    else bound_class c caller_qn recv_text

-- The caller is the override of the method on the same class.
abbrev pub in_override : Context → OrmCallHint → Option String → Bool
in_override c hint class_qn =
    elim (split_last_dot hint.caller_qn) [ none ↦ false | some (_, last) ↦ last == hint.leaf ]
    && (elim (lookup hint.caller_qn c.caller_class_qn) [
      | none ↦ false
      | some enclosing ↦ elim class_qn [ none ↦ false | some qn ↦ enclosing == qn ]
    ])

abbrev pub instance_operations : String → List OpKind
instance_operations leaf =
    if member leaf django_instance_write_methods
    then write ∷ []
    else if member leaf django_instance_read_methods
    then read ∷ []
    else []

unfoldable pub classify_django_instance_call :
    Context → TableIndex → OrmCallHint → String → Outcome Uses
classify_django_instance_call c index hint callee_qn = elim (split_last_dot callee_qn) [
  | none ↦ ok []
  | some (recv_text, method_name) ↦
      let found = instance_class c index hint.caller_qn recv_text >>= λ class_qn.
      model_uses index (if in_override c hint class_qn then [] else instance_operations hint.leaf)
        class_qn (last_part recv_text) in
      if method_name == hint.leaf then found else ok []
]

-- `".objects." in callee_qn`, on the segments.
abbrev pub objects_inside : List String → Bool
objects_inside (p ∷ q ∷ rest) = p == "objects" || objects_inside (q ∷ rest)
objects_inside _ = false

abbrev pub has_manager : List String → Bool
has_manager [] = false
has_manager (p ∷ ps) = objects_inside ps

abbrev pub is_manager_leaf : String → Bool
is_manager_leaf leaf =
    member leaf django_read_leaf_methods
    || member leaf django_write_leaf_methods
    || member leaf django_both_leaf_methods

abbrev pub is_instance_leaf : String → Bool
is_instance_leaf leaf =
    member leaf django_instance_write_methods || member leaf django_instance_read_methods

-- The body of the loop over the hints, for the callee of the matching call.
unfoldable pub classify_hint : Context → TableIndex → OrmCallHint → String → Outcome Uses
classify_hint c index hint callee_qn =
    if has_manager (split_dots callee_qn) && is_manager_leaf hint.leaf
    then classify_django_manager_call c index hint callee_qn
    else if member hint.leaf sa_session_leaf_methods
    then classify_sa_session_call c index hint callee_qn
    else if is_manager_leaf hint.leaf
    then classify_django_manager_call c index hint callee_qn
    else if is_instance_leaf hint.leaf
    then classify_django_instance_call c index hint callee_qn
    else ok []

-- The first call of the caller on the line that ends in the leaf.
unfoldable pub matching_callee : List CallEdge → OrmCallHint → Option String
matching_callee calls hint =
    first_some
      (λ (e : CallEdge).
        if e.caller_qn == hint.caller_qn
          && e.line == hint.line
          && last_part e.callee_qn == hint.leaf
        then some e.callee_qn
        else none)
      calls
