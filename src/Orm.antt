-- ===== src/Orm.antt =====
-- app/repo_indexer/scope_resolution/orm_classifier.py: which tables the functions read and write.
pub mod Tables
pub mod Hints
pub mod Declared
pub mod Ending
pub mod Sound
pub mod Bases
pub mod Ancestors
pub mod Emitted
pub mod Correct
mod Examples
use twai_swarm.Prelude.{
  ℕ, String, Bool, true, false, ◌&&◌, ◌||◌, ◌≡◌, ◌↔◌, arith, Option, none, some, List, [], ◌∷◌,
  ◌++◌, string_eq, nat_eq, HasEq, ◌==◌, member, if◌then◌else◌, Outcome, ok, ◌>>=◌,
}
use twai_swarm.Actions.{
  RepoNode, InheritsEdge, CallEdge, OrmCallHint, OpKind, read, write, TableAccessEdge, TableNode,
}
use twai_swarm.Finalize.Lookups.{Context}
use twai_swarm.Orm.Tables.{TableIndex, table_index}
use twai_swarm.Orm.Hints.{Uses, classify_hint, matching_callee}

abbrev pub op_beq : OpKind → OpKind → Bool
op_beq read read = true
op_beq write write = true
op_beq _ _ = false

-- The key of `seen_emits`, with the names that all edges share.
abbrev pub edge_beq : TableAccessEdge → TableAccessEdge → Bool
edge_beq a b =
    a.repo == b.repo
    && a.tenant_id == b.tenant_id
    && a.function_qn == b.function_qn
    && a.table_name == b.table_name
    && op_beq a.op_kind b.op_kind
    && a.line == b.line

pub edge_beq_iff : (a b : TableAccessEdge) → (edge_beq a b ≡ true) ↔ (a ≡ b)
edge_beq_iff a b = ground (
  arith,
  string_eq.same_iff a.repo b.repo,
  string_eq.same_iff a.tenant_id b.tenant_id,
  string_eq.same_iff a.function_qn b.function_qn,
  string_eq.same_iff a.table_name b.table_name,
)

instance unfoldable pub edge_eq : HasEq TableAccessEdge
edge_eq = record { same = edge_beq; same_iff = edge_beq_iff }

-- `_emit`
unfoldable pub emit : TableAccessEdge → List TableAccessEdge → List TableAccessEdge
emit edge emitted = if member edge emitted then emitted else emitted ++ edge ∷ []

abbrev pub access : RepoNode → OrmCallHint → String × OpKind → TableAccessEdge
access repo hint (table_name, op) = record {
  repo = repo.name;
  tenant_id = repo.tenant_id;
  function_qn = hint.caller_qn;
  table_name = table_name;
  op_kind = op;
  line = hint.line;
}

unfoldable pub emit_all :
    RepoNode → OrmCallHint → Uses → List TableAccessEdge → List TableAccessEdge
emit_all repo hint [] emitted = emitted
emit_all repo hint (u ∷ us) emitted = emit_all repo hint us (emit (access repo hint u) emitted)

abbrev pub hint_uses : Context → TableIndex → OrmCallHint → Option String → Outcome Uses
hint_uses c index hint none = ok []
hint_uses c index hint (some callee_qn) = classify_hint c index hint callee_qn

unfoldable pub classify_hints :
    Context
    → TableIndex
    → RepoNode
    → List CallEdge
    → List OrmCallHint
    → List TableAccessEdge
    → Outcome (List TableAccessEdge)
classify_hints c index repo calls [] emitted = ok emitted
classify_hints c index repo calls (hint ∷ hints) emitted =
    hint_uses c index hint (matching_callee calls hint) >>= λ found.
    classify_hints c index repo calls hints (emit_all repo hint found emitted)

abbrev pub none_in : {A : Type 0} → List A → Bool
none_in [] = true
none_in (_ ∷ _) = false

-- The edges that `classify_orm_calls` appends to `table_accesses`, for the rewritten calls and
-- bases.
unfoldable pub classify_orm_calls :
    Context
    → RepoNode
    → List TableNode
    → List InheritsEdge
    → List CallEdge
    → List OrmCallHint
    → Outcome (List TableAccessEdge)
classify_orm_calls c repo tables inherits calls hints =
    let classified = classify_hints c (table_index tables inherits) repo calls hints [] in
    if none_in hints || none_in tables then ok [] else classified
