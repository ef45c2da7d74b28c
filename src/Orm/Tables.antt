-- ===== src/Orm/Tables.antt =====
-- orm_classifier.py: the indexes over the declared tables, and the test for a Django model.
use mathlib.Core.List.{reverse}
use twai_swarm.Prelude.{
  ℕ, zero, suc, ◌+◌, String, Bool, true, false, ◌&&◌, ◌||◌, not, Option, none, some, List, [], ◌∷◌,
  ◌++◌, string_eq, ◌==◌, Dict, lookup, insert, insert_all, append_at, list_at, or_else, member,
  length, last_part, if◌then◌else◌, Outcome, ok, raised, out_of_fuel,
}
use twai_swarm.Actions.{TableNode, InheritsEdge}

-- The dictionaries and sets that `classify_orm_calls` builds first.
pub record TableIndex : Type 0 where
  pub table_by_class_qn : Dict String String
  pub table_by_bare_class_name : Dict String String
  pub django_model_qns : List String
  pub django_model_bare_names : List String
  pub raw_parent_relation : Dict String (List String)

-- `d.setdefault(key, value)`
abbrev pub set_default : String → String → Dict String String → Dict String String
set_default key value d = elim (lookup key d) [ none ↦ insert key value d | some old ↦ d ]

abbrev pub class_entry : TableNode → Option (String × String)
class_entry t = if t.model_qn == "" then none else some (t.model_qn, t.name)

unfoldable pub add_bare_names : Dict String String → List TableNode → Dict String String
add_bare_names d [] = d
add_bare_names d (t ∷ ts) =
    if t.model_qn == ""
    then add_bare_names d ts
    else add_bare_names (set_default (last_part t.model_qn) t.name d) ts

-- The classes that are declared as Django models.
unfoldable pub django_qns : List TableNode → List String
django_qns [] = []
django_qns (t ∷ ts) =
    let rest = django_qns ts in
    if t.dialect == "django" && not (t.model_qn == "") then t.model_qn ∷ rest else rest

unfoldable pub last_parts : List String → List String
last_parts [] = []
last_parts (qn ∷ qns) = last_part qn ∷ last_parts qns

unfoldable pub add_raw_parents :
    Dict String (List String) → List InheritsEdge → Dict String (List String)
add_raw_parents d [] = d
add_raw_parents d (edge ∷ edges) = add_raw_parents (append_at edge.child_qn edge.parent_qn d) edges

unfoldable pub table_index : List TableNode → List InheritsEdge → TableIndex
table_index tables inherits = record {
  table_by_class_qn = insert_all class_entry [] tables;
  table_by_bare_class_name = add_bare_names [] tables;
  django_model_qns = django_qns tables;
  django_model_bare_names = last_parts (django_qns tables);
  raw_parent_relation = add_raw_parents [] inherits;
}

abbrev pub django_model_terminal_bare_names : List String
django_model_terminal_bare_names = "Model" ∷ "AbstractUser" ∷ "AbstractBaseUser" ∷ []

-- The two tests of the walk.
unfoldable pub is_model_name : TableIndex → String → Bool
is_model_name index cur =
    member (last_part cur) django_model_terminal_bare_names
    || member cur index.django_model_qns
    || member (last_part cur) index.django_model_bare_names

-- The `while stack`, with the top of the stack first.
unfoldable pub walk_ancestors : ℕ → TableIndex → List String → List String → Outcome Bool
walk_ancestors zero index seen stack = raised out_of_fuel
walk_ancestors (suc fuel) index seen [] = ok false
walk_ancestors (suc fuel) index seen (cur ∷ stack) =
    let skipped = walk_ancestors fuel index seen stack in
    let expanded =
      walk_ancestors fuel index (cur ∷ seen)
        (reverse (list_at cur index.raw_parent_relation) ++ stack) in
    if member cur seen then skipped else if is_model_name index cur then ok true else expanded

-- How many parents are listed.
unfoldable pub all_listed : Dict String (List String) → ℕ
all_listed [] = 0
all_listed ((_, parents) ∷ rest) = length parents + all_listed rest

-- A round takes one class off the stack, and each list of parents goes on it once.
unfoldable pub walk_fuel : TableIndex → ℕ
walk_fuel index = suc (suc (all_listed index.raw_parent_relation))

-- `_is_django_model_class`. Its cache holds only earlier answers for the same class.
unfoldable pub is_django_model_class : TableIndex → String → Outcome Bool
is_django_model_class index class_qn =
    if member class_qn index.django_model_qns
      || member (last_part class_qn) index.django_model_bare_names
    then ok true
    else walk_ancestors (walk_fuel index) index [] (class_qn ∷ [])

-- `_table_for_class`
unfoldable pub table_for_class : TableIndex → Option String → String → Option String
table_for_class index target bare_fallback =
    let by_class : Option String = elim target [
      | none ↦ none
      | some class_qn ↦
          or_else (lookup class_qn index.table_by_class_qn)
            (lookup (last_part class_qn) index.table_by_bare_class_name)
    ] in
    or_else by_class
      (if bare_fallback == "" then none else lookup bare_fallback index.table_by_bare_class_name)
