-- ===== src/Finalize/Linked.antt =====
-- Lemmas on a finalized batch: its edges, what they point at, and its symbols.
use twai_swarm.Prelude.{
  ◌≡◌, refl, ap, ◌⊎◌, inl, inr, String, true, some, List, [], ◌∷◌, ◌++◌, map, arith, string_eq,
  lookup, In, In-append, In-map, In_of_map, In-dedup, Distinct, Distinct-dedup, All, All-map, ok,
  Option-cases, Dict, dedup,
}
use twai_swarm.Scope.{Declaration}
use twai_swarm.Scope.Tree.{ScopeTree, build_scope_tree}
use twai_swarm.Scope.Dispatch.{build_method_dispatch_index}
use twai_swarm.Scope.Dispatch.Resolution.{build-Ready}
use twai_swarm.Actions.{
  ModuleNode, ClassNode, FunctionNode, SymbolNode, InheritsEdge, CallEdge, IndexBatch,
  TableAccessEdge,
}
use twai_swarm.Finalize.Names.{QualifiedNameIndex, dedup_declarations, declaration_of}
use twai_swarm.Finalize.Adapter.{
  module_declaration, class_declaration, function_declaration, class_scopes, to_declarations,
  to_scopes, to_parent_relation, is_class_decl,
}
use twai_swarm.Finalize.Imports.{Components}
use twai_swarm.Finalize.Lookups.{Context, is_function, is_class, is_function_decl}
use twai_swarm.Finalize.Indexed.{Added, In-dedup_declarations, In-methods_of, In-add_methods}
use twai_swarm.Finalize.Anchors.{OrderedLines, context_of-Known}
use twai_swarm.Finalize.Searches.{Usable}
use twai_swarm.Finalize.Rewrites.{
  Pairwise, Pairwise-map, CallKept, BaseKept, IsFunction, IsClass, CallLinked, BaseLinked,
  rewrite_inherits-Done, rewrite_calls-Done, new_symbols-Done,
}
use twai_swarm.Orm.Correct.{FromHint, classify_orm_calls-Emitted}
use twai_swarm.Finalize.{
  context_of, dispatch_of, methods_of, rewrite_inherits, add_symbols, new_symbols, resolve_batch,
}

abbrev pub function_names : IndexBatch → List String
function_names batch = map (λ (f : FunctionNode). f.qualified_name) batch.functions

abbrev pub class_names : IndexBatch → List String
class_names batch = map (λ (k : ClassNode). k.qualified_name) batch.classes

abbrev pub symbol_names : List SymbolNode → List String
symbol_names symbols = map (λ (s : SymbolNode). s.qualified_name) symbols

In-to_declarations :
    (batch : IndexBatch) (d : Declaration)
    → In d (to_declarations batch)
    → ((m : ModuleNode) × (d ≡ module_declaration m))
      ⊎ ((k : ClassNode) × In k batch.classes × (d ≡ class_declaration k))
      ⊎ ((f : FunctionNode) × In f batch.functions
          × (d ≡ function_declaration (class_scopes batch.classes) f))
unfolding to_declarations
In-to_declarations batch d i =
    let modules = map module_declaration batch.modules in
    let classes = map class_declaration batch.classes in
    let functions = map (function_declaration (class_scopes batch.classes)) batch.functions in
    elim ((In-append d (modules ++ classes) functions).0 i) [
      | inl j ↦ elim ((In-append d modules classes).0 j) [
        | inl k ↦ let (m, at, e) = In_of_map module_declaration batch.modules d k in inl (m, e)
        | inr k ↦
            let (x, at, e) = In_of_map class_declaration batch.classes d k in inr (inl (x, at, e))
      ]
      | inr k ↦
          let (f, at, e) =
            In_of_map (function_declaration (class_scopes batch.classes)) batch.functions d k in
          inr (inr (f, at, e))
    ]

function_of :
    (batch : IndexBatch) (d : Declaration)
    → In d (to_declarations batch)
    → is_function_decl (some d) ≡ true
    → In d.qualified_name (function_names batch)
unfolding module_declaration class_declaration function_declaration
function_of batch d i h = elim (In-to_declarations batch d i) [
  | inl (m, e) ↦ absurd (ground (arith, ap (λ (x : Declaration). x.kind) e))
  | inr (inl (k, j, e)) ↦ absurd (ground (arith, ap (λ (x : Declaration). x.kind) e))
  | inr (inr (f, j, e)) ↦
      rw (ap (λ (x : Declaration). x.qualified_name) e)
        (In-map (λ (x : FunctionNode). x.qualified_name) batch.functions f j)
]

class_of :
    (batch : IndexBatch) (d : Declaration)
    → In d (to_declarations batch)
    → is_class_decl (some d) ≡ true
    → In d.qualified_name (class_names batch)
unfolding module_declaration class_declaration function_declaration
class_of batch d i h = elim (In-to_declarations batch d i) [
  | inl (m, e) ↦ absurd (ground (arith, ap (λ (x : Declaration). x.kind) e))
  | inr (inl (k, j, e)) ↦
      rw (ap (λ (x : Declaration). x.qualified_name) e)
        (In-map (λ (x : ClassNode). x.qualified_name) batch.classes k j)
  | inr (inr (f, j, e)) ↦ absurd (ground (arith, ap (λ (x : Declaration). x.kind) e))
]

-- What holds of a batch and of what `finalize_batch` makes of it.
pub record Finished (batch after : IndexBatch) : Type 0 where
  pub calls_kept : Pairwise (CallKept (λ qn. In qn (function_names batch))) batch.calls after.calls
  pub bases_kept :
      Pairwise (BaseKept (λ qn. In qn (class_names batch))) batch.inherits after.inherits
  pub calls_linked :
      All
        (λ (e : CallEdge).
          In e.callee_qn (function_names batch) ⊎ In e.callee_qn (symbol_names after.symbols))
        after.calls
  pub bases_linked :
      All
        (λ (e : InheritsEdge).
          In e.parent_qn (class_names batch) ⊎ In e.parent_qn (symbol_names after.symbols))
        after.inherits
  pub accesses : List TableAccessEdge
  pub accesses_added : after.table_accesses ≡ batch.table_accesses ++ accesses
  pub accesses_justified :
      All (FromHint batch.repo batch.tables after.calls batch.orm_call_hints) accesses
  pub accesses_distinct : Distinct accesses
  pub new : List SymbolNode
  pub symbols : after.symbols ≡ batch.symbols ++ new
  pub fresh : (qn : String) → In qn (symbol_names new) → ¬ In qn (symbol_names batch.symbols)
  pub distinct : Distinct (symbol_names new)
  pub used :
      (qn : String)
      → In qn (symbol_names new)
      → In qn (map (λ (e : InheritsEdge). e.parent_qn) after.inherits)
        ⊎ In qn (map (λ (e : CallEdge). e.callee_qn) after.calls)

symbol_names-append :
    (xs ys : List SymbolNode) (qn : String)
    → In qn (symbol_names xs) ⊎ In qn (symbol_names ys)
    → In qn (symbol_names (xs ++ ys))
symbol_names-append [] ys qn (inl i) = absurd i
symbol_names-append [] ys qn (inr i) = i
symbol_names-append (x ∷ xs) ys qn (inl (inl e)) = inl e
symbol_names-append (x ∷ xs) ys qn (inl (inr i)) = inr (symbol_names-append xs ys qn (inl i))
symbol_names-append (x ∷ xs) ys qn (inr i) = inr (symbol_names-append xs ys qn (inr i))

module _ (batch : IndexBatch) (by_qn : Dict String Declaration)
    (added : Added [] (dedup_declarations [] (to_declarations batch)) by_qn) where
  abbrev index : QualifiedNameIndex
  index = record { by_qn = by_qn }

  module _ (components : Components) (t : ScopeTree) where
    abbrev context : Context
    context = context_of components batch index t

    declared :
        (qn : String) (d : Declaration)
        → lookup qn by_qn ≡ some d
        → In d (to_declarations batch) × (d.qualified_name ≡ qn)
    declared qn d h = elim (added.sound qn d h) [
      | inl old ↦ absurd (unfold lookup in cc old)
      | inr (i, same) ↦ (In-dedup_declarations [] (to_declarations batch) d i, same)
    ]

    function_known : (qn : String) → IsFunction context qn → In qn (function_names batch)
    unfolding context_of is_function declaration_of
    function_known qn h = elim (Option-cases (lookup qn by_qn)) [
      | inl missing ↦ absurd (ground (arith, missing))
      | inr (d, at) ↦
          let (i, same) = declared qn d at in
          rw (← same) (function_of batch d i (ground (arith, at)))
    ]

    class_known : (qn : String) → IsClass context qn → In qn (class_names batch)
    unfolding context_of is_class declaration_of
    class_known qn h = elim (Option-cases (lookup qn by_qn)) [
      | inl missing ↦ absurd (ground (arith, missing))
      | inr (d, at) ↦
          let (i, same) = declared qn d at in rw (← same) (class_of batch d i (ground (arith, at)))
    ]

    dispatch_of-Usable :
        (inherits : List InheritsEdge) → Usable context (dispatch_of batch inherits index)
    unfolding dispatch_of context_of is_function declaration_of build_method_dispatch_index lookup
    dispatch_of-Usable inherits = record {
      ready =
          build-Ready (methods_of (dedup_declarations [] (to_declarations batch)))
            (to_parent_relation inherits index);
      declared = λ class_qn name d h.
          elim (In-add_methods [] (methods_of (dedup_declarations [] (to_declarations batch)))
            class_qn name d h) [
              | inl old ↦ cc old
              | inr i ↦
                  let (j, method) =
                    In-methods_of (dedup_declarations [] (to_declarations batch)) d i in
                  ground (arith, added.finds d j, method)
            ];
    }

    pub resolve_batch-Finished :
        OrderedLines batch
        → build_scope_tree (to_scopes batch) ≡ ok t
        → (after : IndexBatch) × (resolve_batch batch index context ≡ ok after)
          × Finished batch after
    unfolding resolve_batch add_symbols
    resolve_batch-Finished lines h =
        let bases = rewrite_inherits context batch.inherits in
        let bases_done = rewrite_inherits-Done context batch.inherits in
        let (calls, returns, calls_done) =
          rewrite_calls-Done context (to_scopes batch)
            (context_of-Known components batch index t lines h) (dispatch_of batch bases.0 index)
            batch.calls (dispatch_of-Usable bases.0) in
        let (edges, classified, emitted) =
          classify_orm_calls-Emitted context (to_scopes batch)
            (context_of-Known components batch index t lines h) batch.repo batch.tables bases.0
            calls.0 batch.orm_call_hints in
        let needs = bases.1 ++ calls.1 in
        let done =
          new_symbols-Done batch.repo.name batch.symbols (dedup needs) (Distinct-dedup needs) in
        let added : List SymbolNode =
          new_symbols batch.repo.name (symbol_names batch.symbols) (dedup needs) in
        let covered = λ (qn : String) (i : In qn needs).
          symbol_names-append batch.symbols added qn (done.covers qn ((In-dedup qn needs).1 i)) in
        (
          record batch {
            inherits = bases.0;
            calls = calls.0;
            symbols = batch.symbols ++ added;
            table_accesses = batch.table_accesses ++ edges;
          },
          ground (arith, returns, classified),
          record {
            calls_kept =
                Pairwise-map _ _ batch.calls calls.0
                  (λ x y k. record {
                    repo = k.repo;
                    caller = k.caller;
                    line = k.line;
                    callee = elim k.callee [
                      | inl e ↦ inl e
                      | inr f ↦ inr (function_known y.callee_qn f)
                    ];
                  })
                  calls_done.kept;
            bases_kept =
                Pairwise-map _ _ batch.inherits bases.0
                  (λ x y k. record {
                    repo = k.repo;
                    child = k.child;
                    parent = elim k.parent [
                      | inl e ↦ inl e
                      | inr f ↦ inr (class_known y.parent_qn f)
                    ];
                  })
                  bases_done.kept;
            calls_linked =
                All-map (CallLinked context calls.1) _ calls.0
                  (λ e l. elim l [
                    | inl f ↦ inl (function_known e.callee_qn f)
                    | inr i ↦
                        inr
                          (covered e.callee_qn ((In-append e.callee_qn bases.1 calls.1).1 (inr i)))
                  ])
                  calls_done.linked;
            bases_linked =
                All-map (BaseLinked context bases.1) _ bases.0
                  (λ e l. elim l [
                    | inl f ↦ inl (class_known e.parent_qn f)
                    | inr i ↦
                        inr
                          (covered e.parent_qn ((In-append e.parent_qn bases.1 calls.1).1 (inl i)))
                  ])
                  bases_done.linked;
            accesses = edges;
            accesses_added = refl;
            accesses_justified = emitted.0;
            accesses_distinct = emitted.1;
            new = added;
            symbols = refl;
            fresh = λ qn i. (done.fresh qn i).1;
            distinct = done.distinct;
            used = λ qn i.
                elim ((In-append qn bases.1 calls.1).0
                  ((In-dedup qn needs).0 (done.fresh qn i).0)) [
                    | inl j ↦ inl (bases_done.needed qn j)
                    | inr j ↦ inr (calls_done.needed qn j)
                  ];
          },
        )
