-- ===== src/Orm/Sound.antt =====
-- Lemmas on the classification: it returns, and which uses of tables it returns.
use twai_swarm.Prelude.{
  ◌≡◌, refl, ◌⊎◌, inl, inr, String, Bool, true, false, ◌&&◌, Option, none, some, List, [], ◌∷◌,
  string_eq, ◌==◌, member, All, for_each_member, In, has_dot, split_dots, split_last_dot,
  first_part, last_part, if◌then◌else◌, Outcome, ok, ◌>>=◌,
}
use twai_swarm.Scope.{ScopeId}
use twai_swarm.Actions.{OrmCallHint, OpKind, TableNode, InheritsEdge}
use twai_swarm.Finalize.Lookups.{Context}
use twai_swarm.Finalize.Calls.{is_self}
use twai_swarm.Finalize.Anchors.{Known}
use twai_swarm.Finalize.Searches.{bound_class-Returns}
use twai_swarm.Orm.Tables.{TableIndex, table_index, table_for_class}
use twai_swarm.Orm.Hints.{
  Uses, uses, sa_operation, sa_target, variable_target, classify_sa_session_call, foreign_receiver,
  model_uses, manager_uses, classify_django_manager_call, instance_class,
  classify_django_instance_call, classify_hint, resolve_chain_head, has_manager, is_manager_leaf,
  is_instance_leaf, manager_operations, sa_session_leaf_methods, in_override, instance_operations,
  dropped, target, Target, class_target, target_uses,
}
use twai_swarm.Orm.Declared.{Declared, table_uses-Declared}
use twai_swarm.Orm.Ending.{
  Ends, Gives, ok-Ends, if-Ends, bind-Ends, if-Gives, bind-Gives, is_django_model_class-Ends,
}

-- What the leaf of a hint does to a table: the operation of a session, of a manager or of an
-- instance.
abbrev pub OperationOf : OrmCallHint → OpKind → Type 0
OperationOf hint op =
    (sa_operation hint ≡ some op)
    ⊎ (In op (manager_operations hint.leaf) ⊎ In op (instance_operations hint.leaf))

module _ (tables : List TableNode) (inherits : List InheritsEdge) where
  abbrev index : TableIndex
  index = table_index tables inherits

  abbrev Sound : OrmCallHint → Outcome Uses → Type 0
  Sound hint x = Gives (Declared tables (OperationOf hint)) x

  nothing-Sound : (hint : OrmCallHint) → Sound hint (ok [])
  nothing-Sound hint = ([], refl, tt)

  if_model-Declared :
      (hint : OrmCallHint) (ops : List OpKind) (class_qn : Option String) (fallback : String)
      (is_model : Bool)
      → All (OperationOf hint) ops
      → Declared tables
          (OperationOf hint)
          (if is_model then uses ops (table_for_class index class_qn fallback) else [])
  if_model-Declared hint ops class_qn fallback true h =
      table_uses-Declared tables inherits (OperationOf hint) ops class_qn fallback h
  if_model-Declared hint ops class_qn fallback false h = tt

  model_uses-Sound :
      (hint : OrmCallHint) (ops : List OpKind) (class_qn : Option String) (fallback : String)
      → All (OperationOf hint) ops
      → Sound hint (model_uses index ops class_qn fallback)
  unfolding model_uses
  model_uses-Sound hint ops none fallback h = nothing-Sound hint
  model_uses-Sound hint ops (some class_qn) fallback h =
      bind-Gives (is_django_model_class-Ends index class_qn)
        (λ b. (_, refl, if_model-Declared hint ops (some class_qn) fallback b h))

  manager_uses-Sound :
      (hint : OrmCallHint) (c : Context) (ops : List OpKind) (parts : List String)
      → All (OperationOf hint) ops
      → Sound hint (manager_uses c index hint.caller_qn ops parts)
  unfolding manager_uses
  manager_uses-Sound hint c ops [] h = nothing-Sound hint
  manager_uses-Sound hint c ops (a ∷ []) h = nothing-Sound hint
  manager_uses-Sound hint c ops (a ∷ b ∷ []) h = nothing-Sound hint
  manager_uses-Sound hint c ops (head ∷ manager ∷ name ∷ rest) h =
      if-Gives (manager == "objects")
        (model_uses-Sound hint ops (resolve_chain_head c hint.caller_qn head) head h)
        (nothing-Sound hint)

  target_uses-Declared :
      (hint : OrmCallHint) (op : OpKind) (t : Target)
      → OperationOf hint op
      → Declared tables (OperationOf hint) (target_uses index hint op t)
  target_uses-Declared hint op dropped h = tt
  target_uses-Declared hint op (target class_qn) h =
      table_uses-Declared tables inherits (OperationOf hint) (op ∷ []) class_qn hint.arg_head
        (h, tt)

  module _ (c : Context) (scopes : List ScopeId) (known : Known c scopes) where
    variable_target-Ends :
        (or_class : Bool) (caller_qn text : String)
        → Ends (variable_target c or_class caller_qn text)
    unfolding variable_target
    variable_target-Ends or_class caller_qn text = if-Ends (text == "") (ok-Ends dropped) (
        bind-Ends (bound_class-Returns c scopes known caller_qn (first_part text)) (λ o. (_, refl)))

    sa_target-Ends : (hint : OrmCallHint) → Ends (sa_target c hint)
    unfolding sa_target
    sa_target-Ends hint =
        let of_class = ok-Ends (class_target c hint.caller_qn hint.arg_head) in
        if-Ends (member hint.leaf ("query" ∷ "get" ∷ "scalars" ∷ [])) of_class (
          if-Ends (hint.leaf == "execute") (_, refl)
            (if-Ends (member hint.leaf ("add" ∷ "merge" ∷ "delete" ∷ "add_all" ∷ []))
              (variable_target-Ends true hint.caller_qn hint.arg_head)
              (if-Ends (hint.leaf == "bulk_save_objects")
                (variable_target-Ends false hint.caller_qn hint.arg_head) of_class)))

    sa_uses-Sound :
        (hint : OrmCallHint) (o : Option OpKind) (foreign : Bool)
        → sa_operation hint ≡ o
        → Sound hint (elim o [
          | none ↦ ok []
          | some op ↦
              if foreign
              then ok []
              else (sa_target c hint >>= λ t. ok (target_uses index hint op t))
        ])
    sa_uses-Sound hint none foreign h = nothing-Sound hint
    sa_uses-Sound hint (some op) foreign h =
        if-Gives foreign (nothing-Sound hint) (
          bind-Gives (sa_target-Ends hint) (λ t. (_, refl, target_uses-Declared hint op t (inl h))))

    classify_sa-Sound :
        (hint : OrmCallHint) (callee_qn : String)
        → Sound hint (classify_sa_session_call c index hint callee_qn)
    unfolding classify_sa_session_call
    classify_sa-Sound hint callee_qn =
        sa_uses-Sound hint (sa_operation hint) (foreign_receiver callee_qn (split_dots callee_qn))
          refl

    instance_class-Ends :
        (caller_qn recv_text : String) → Ends (instance_class c index caller_qn recv_text)
    unfolding instance_class
    instance_class-Ends caller_qn recv_text =
        if-Ends (is_self recv_text) (_, refl)
          (if-Ends (has_dot recv_text) (_, refl)
            (bound_class-Returns c scopes known caller_qn recv_text))

    instance_operations-Fit :
        (hint : OrmCallHint) (suppressed : Bool)
        → All (OperationOf hint) (if suppressed then [] else instance_operations hint.leaf)
    instance_operations-Fit hint true = tt
    instance_operations-Fit hint false =
        for_each_member (OperationOf hint) (instance_operations hint.leaf) (λ op i. inr (inr i))

    instance_uses-Sound :
        (hint : OrmCallHint) (o : Option (String × String))
        → Sound hint (elim o [
          | none ↦ ok []
          | some (recv_text, method_name) ↦
              if method_name == hint.leaf
              then (instance_class c index hint.caller_qn recv_text >>= λ class_qn.
                  model_uses index
                    (if in_override c hint class_qn then [] else instance_operations hint.leaf)
                    class_qn
                    (last_part recv_text))
              else ok []
        ])
    instance_uses-Sound hint none = nothing-Sound hint
    instance_uses-Sound hint (some (recv_text, name)) =
        if-Gives (name == hint.leaf)
          (bind-Gives (instance_class-Ends hint.caller_qn recv_text) (λ class_qn.
            model_uses-Sound hint
              (if in_override c hint class_qn then [] else instance_operations hint.leaf) class_qn
              (last_part recv_text) (instance_operations-Fit hint (in_override c hint class_qn))))
          (nothing-Sound hint)

    pub classify_hint-Sound :
        (hint : OrmCallHint) (callee_qn : String)
        → Gives
            (Declared tables (OperationOf hint))
            (classify_hint c (table_index tables inherits) hint callee_qn)
    unfolding classify_hint classify_django_manager_call classify_django_instance_call
    classify_hint-Sound hint callee_qn =
        let managed : Sound hint (classify_django_manager_call c index hint callee_qn) =
          manager_uses-Sound hint c (manager_operations hint.leaf) (split_dots callee_qn) (
            for_each_member (OperationOf hint) (manager_operations hint.leaf)
              (λ op i. inr (inl i))) in
        if-Gives (has_manager (split_dots callee_qn) && is_manager_leaf hint.leaf) managed (
          if-Gives (member hint.leaf sa_session_leaf_methods) (classify_sa-Sound hint callee_qn) (
            if-Gives (is_manager_leaf hint.leaf) managed (
              if-Gives (is_instance_leaf hint.leaf)
                (instance_uses-Sound hint (split_last_dot callee_qn)) (nothing-Sound hint))))
