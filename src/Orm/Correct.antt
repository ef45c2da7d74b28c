-- ===== src/Orm/Correct.antt =====
-- Lemmas on `classify_orm_calls`: the edges that it appends.
use twai_swarm.Prelude.{
  ◌≡◌, refl, inl, inr, String, ◌&&◌, ◌||◌, some, List, [], ◌∷◌, arith, string_eq, nat_eq, ◌==◌,
  member, member_iff, last_part, In, All, All-append, Distinct, Distinct-concat, Bool-cases,
  Option-cases,
}
use twai_swarm.Scope.{ScopeId}
use twai_swarm.Actions.{RepoNode, OrmCallHint, CallEdge, TableNode, InheritsEdge, TableAccessEdge}
use twai_swarm.Finalize.Lookups.{Context}
use twai_swarm.Finalize.Anchors.{Known}
use twai_swarm.Orm.Tables.{table_index}
use twai_swarm.Orm.Hints.{Uses, matching_callee}
use twai_swarm.Orm.Declared.{Declared, table_names}
use twai_swarm.Orm.Ending.{Gives, if-Gives}
use twai_swarm.Orm.Sound.{OperationOf, classify_hint-Sound}
use twai_swarm.Orm.{edge_eq, emit, emit_all, access, classify_hints, classify_orm_calls, none_in}

-- The hint is one, a call by the same function on the same line ends in its leaf, and the edge
-- names a declared table and an operation of the leaf.
pub record Justified (repo : RepoNode) (tables : List TableNode) (calls : List CallEdge)
    (hint : OrmCallHint) (edge : TableAccessEdge) : Type 0 where
  pub repo_name : edge.repo ≡ repo.name
  pub tenant : edge.tenant_id ≡ repo.tenant_id
  pub function : edge.function_qn ≡ hint.caller_qn
  pub line : edge.line ≡ hint.line
  pub table : In edge.table_name (table_names tables)
  pub operation : OperationOf hint edge.op_kind
  pub call :
      (e : CallEdge) × In e calls
      × (e.caller_qn ≡ hint.caller_qn)
      × (e.line ≡ hint.line)
      × (last_part e.callee_qn ≡ hint.leaf)

-- Some hint justifies the edge.
abbrev pub FromHint :
    RepoNode → List TableNode → List CallEdge → List OrmCallHint → TableAccessEdge → Type 0
FromHint repo tables calls hints edge =
    (hint : OrmCallHint) × In hint hints × Justified repo tables calls hint edge

matching_callee-In :
    (calls : List CallEdge) (hint : OrmCallHint) (callee_qn : String)
    → matching_callee calls hint ≡ some callee_qn
    → (e : CallEdge) × In e calls
      × (e.caller_qn ≡ hint.caller_qn)
      × (e.line ≡ hint.line)
      × (last_part e.callee_qn ≡ hint.leaf)
unfolding matching_callee
matching_callee-In [] hint callee_qn h = cc h
matching_callee-In (e ∷ calls) hint callee_qn h =
    elim (Bool-cases (
      e.caller_qn == hint.caller_qn && e.line == hint.line && last_part e.callee_qn == hint.leaf)) [
        | inl t ↦ (
          e,
          inl refl,
          ground (arith, t, string_eq.same_iff e.caller_qn hint.caller_qn),
          ground (arith, t, nat_eq.same_iff e.line hint.line),
          ground (arith, t, string_eq.same_iff (last_part e.callee_qn) hint.leaf),
        )
        | inr t ↦
            let (e', i, caller, at, ends) =
              matching_callee-In calls hint callee_qn (ground (arith, t, h)) in
            (e', inr i, caller, at, ends)
      ]

emit-All :
    (P : TableAccessEdge → Type 0) (edge : TableAccessEdge) (emitted : List TableAccessEdge)
    → P edge
    → All P emitted
    → All P (emit edge emitted)
unfolding emit
emit-All P edge emitted p h = elim (Bool-cases (member edge emitted)) [
  | inl old ↦ rw old h
  | inr new ↦ rw new (All-append P emitted (edge ∷ []) h (p, tt))
]

emit-Distinct :
    (edge : TableAccessEdge) (emitted : List TableAccessEdge)
    → Distinct emitted
    → Distinct (emit edge emitted)
unfolding emit
emit-Distinct edge emitted h = elim (Bool-cases (member edge emitted)) [
  | inl old ↦ rw old h
  | inr new ↦ rw new (Distinct-concat emitted edge h (λ i. cc (new, (member_iff edge emitted).1 i)))
]

-- What holds of the edges emitted so far.
abbrev Emitted : (TableAccessEdge → Type 0) → List TableAccessEdge → Type 0
Emitted P emitted = All P emitted × Distinct emitted

emit_all-Emitted :
    (repo : RepoNode) (tables : List TableNode) (calls : List CallEdge) (hints : List OrmCallHint)
    (hint : OrmCallHint) (found : Uses) (emitted : List TableAccessEdge)
    → In hint hints
    → ((e : CallEdge) × In e calls
        × (e.caller_qn ≡ hint.caller_qn)
        × (e.line ≡ hint.line)
        × (last_part e.callee_qn ≡ hint.leaf))
    → Declared tables (OperationOf hint) found
    → Emitted (FromHint repo tables calls hints) emitted
    → Emitted (FromHint repo tables calls hints) (emit_all repo hint found emitted)
unfolding emit_all
emit_all-Emitted repo tables calls hints hint [] emitted i call d h = h
emit_all-Emitted repo tables calls hints hint ((n, op) ∷ found) emitted i call d h =
    let edge = access repo hint (n, op) in
    let justified : FromHint repo tables calls hints edge = (
      hint,
      i,
      record {
        repo_name = refl;
        tenant = refl;
        function = refl;
        line = refl;
        table = d.0.0;
        operation = d.0.1;
        call = call;
      },
    ) in
    emit_all-Emitted repo tables calls hints hint found (emit edge emitted) i call d.1 (
      emit-All (FromHint repo tables calls hints) edge emitted justified h.0,
      emit-Distinct edge emitted h.1,
    )

module _ (c : Context) (scopes : List ScopeId) (known : Known c scopes) (repo : RepoNode)
    (tables : List TableNode) (inherits : List InheritsEdge) (calls : List CallEdge)
    (hints : List OrmCallHint) where
  abbrev P : TableAccessEdge → Type 0
  P = FromHint repo tables calls hints

  classify_hints-Emitted :
      (left : List OrmCallHint) (emitted : List TableAccessEdge)
      → ((hint : OrmCallHint) → In hint left → In hint hints)
      → Emitted P emitted
      → Gives (Emitted P) (classify_hints c (table_index tables inherits) repo calls left emitted)
  unfolding classify_hints emit_all
  classify_hints-Emitted [] emitted sub h = (emitted, refl, h)
  classify_hints-Emitted (hint ∷ left) emitted sub h =
      elim (Option-cases (matching_callee calls hint)) [
        | inl missing ↦ rw missing (classify_hints-Emitted left emitted (λ x i. sub x (inr i)) h)
        | inr (callee_qn, hit) ↦
            let (found, e, sound) =
              classify_hint-Sound tables inherits c scopes known hint callee_qn in
            let after =
              emit_all-Emitted repo tables calls hints hint found emitted (sub hint (inl refl))
                (matching_callee-In calls hint callee_qn hit) sound h in
            rw (hit, e)
              (classify_hints-Emitted left (emit_all repo hint found emitted) (λ x i. sub x (inr i))
                after)
      ]

  pub classify_orm_calls-Emitted :
      Gives
        (λ edges. All (FromHint repo tables calls hints) edges × Distinct edges)
        (classify_orm_calls c repo tables inherits calls hints)
  unfolding classify_orm_calls
  classify_orm_calls-Emitted =
      if-Gives (none_in hints || none_in tables) ([], refl, (tt, tt))
        (classify_hints-Emitted hints [] (λ x i. i) (tt, tt))
