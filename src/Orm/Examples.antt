-- ===== src/Orm/Examples.antt =====
-- Runs of the classification, and its theorems at those inputs.
use twai_swarm.Prelude.{
  ◌≡◌, refl, ◌↔◌, String, true, false, In, List, [], ◌∷◌, ok, member, lookup, insert, insert_all,
  append_at, string_eq, last_part, split_last_dot, split_dots,
}
use twai_swarm.Actions.{
  TableNode, InheritsEdge, OrmCallHint, CallEdge, RepoNode, TableAccessEdge, write,
}
use twai_swarm.Orm.Tables.{
  is_django_model_class, walk_ancestors, table_index, add_bare_names, django_qns, last_parts,
  add_raw_parents, is_model_name, walk_fuel, all_listed, table_for_class,
}
use twai_swarm.Finalize.Lookups.{Context}
use twai_swarm.Scope.Bindings.{empty}
use twai_swarm.Scope.Tree
use twai_swarm.Orm.Emitted.{Classified, classify_orm_calls_iff}
use twai_swarm.Orm.Hints.{
  classify_hint, matching_callee, classify_django_instance_call, instance_class, model_uses,
  classify_sa_session_call, sa_target, variable_target,
}
use twai_swarm.Orm.{classify_orm_calls, classify_hints, emit_all, emit, edge_eq}
use twai_swarm.Orm.Ancestors.{Descends, DjangoModel, is_django_model_class_iff}

abbrev users : List TableNode
users = record { name = "auth_user"; model_qn = "app.User"; dialect = "django" } ∷ []

abbrev base : String → String → InheritsEdge
base child parent = record { repo = "r"; child_qn = child; parent_qn = parent }

-- `Admin` derives from `Staff` and that from `User`, and `A` and `B` from each other.
abbrev bases : List InheritsEdge
bases =
    base "app.Admin" "app.Mixin"
    ∷ base "app.Admin" "app.Staff"
    ∷ base "app.Staff" "app.User"
    ∷ base "app.A" "app.B"
    ∷ base "app.B" "app.A"
    ∷ []

is_django_model_class_iff_example :
    (is_django_model_class (table_index users bases) "app.Admin" ≡ ok true)
    ↔ ((a : String) × Descends bases a "app.Admin" × DjangoModel users a)
is_django_model_class_iff_example = is_django_model_class_iff users bases "app.Admin"

admin_test : is_django_model_class (table_index users bases) "app.Admin" ≡ ok true
unfolding is_django_model_class table_index walk_ancestors is_model_name member lookup insert
    insert_all append_at add_bare_names django_qns last_parts add_raw_parents last_part
    split_last_dot walk_fuel all_listed
admin_test = refl

cycle_test : is_django_model_class (table_index users bases) "app.A" ≡ ok false
unfolding is_django_model_class table_index walk_ancestors is_model_name member lookup insert
    insert_all append_at add_bare_names django_qns last_parts add_raw_parents last_part
    split_last_dot walk_fuel all_listed
cycle_test = refl

-- No variable has a type here.
abbrev no_types : Context
no_types = record {
  qn_index = record { by_qn = [] };
  module_index = record { exports = [] };
  import_closure = [];
  imports_by_file = [];
  wildcard_targets_by_file = [];
  func_param_types = [];
  func_file_path = [];
  class_file_path = [];
  module_qn_by_file = [];
  func_scope_id = [];
  caller_class_qn = ("app.User.rename", "app.User") ∷ [];
  class_scope_id = [];
  local_var_index = empty;
  scope_tree = Tree.empty;
}

abbrev hint_of : String → OrmCallHint
hint_of leaf = record {
  caller_qn = "app.User.rename";
  leaf = leaf;
  arg_head = "";
  inner_call_fn = "";
  inner_call_arg_head = "";
  line = 7;
}

abbrev call_of : String → CallEdge
call_of callee = record { repo = "r"; caller_qn = "app.User.rename"; callee_qn = callee; line = 7 }

abbrev app : RepoNode
app = record { name = "r"; tenant_id = "t" }

abbrev written : TableAccessEdge
written = record {
  repo = "r";
  tenant_id = "t";
  function_qn = "app.User.rename";
  table_name = "auth_user";
  op_kind = write;
  line = 7;
}

-- A call of `save` is a write, one of `delete` is not.
abbrev rename_calls : List CallEdge
rename_calls = call_of "self.save" ∷ call_of "self.delete" ∷ []

abbrev rename_hints : List OrmCallHint
rename_hints = hint_of "save" ∷ hint_of "delete" ∷ hint_of "refresh_from_db" ∷ []

rename-ok :
    classify_orm_calls no_types app users bases rename_calls rename_hints ≡ ok (written ∷ [])
unfolding classify_orm_calls classify_hints matching_callee last_part split_last_dot classify_hint
    split_dots member classify_django_instance_call instance_class model_uses lookup
    is_django_model_class table_index django_qns classify_sa_session_call sa_target variable_target
    emit_all emit edge_eq table_for_class add_bare_names last_parts insert insert_all
rename-ok = refl

classify_orm_calls_iff_example : In written (written ∷ []) ↔ (
    (hint : OrmCallHint) × In hint rename_hints
    × Classified no_types (table_index users bases) app rename_calls hint written)
classify_orm_calls_iff_example =
    classify_orm_calls_iff no_types app users bases rename_calls rename_hints (written ∷ []) written
      refl rename-ok
