-- ===== src/Finalize/Correct.antt =====
-- Lemmas on `finalize_batch`: when it returns, and what its edges and symbols are.
use twai_swarm.Prelude.{
  ◌≡◌, refl, subst, ◌↔◌, ◌⊎◌, inl, inr, String, true, false, List, [], ◌∷◌, ◌++◌, map, arith,
  lookup, string_eq, In, Distinct, All, ok, Outcome-cases, Bool-cases,
}
use twai_swarm.Scope.{ScopeId}
use twai_swarm.Scope.Tree.{ScopeTree, build_scope_tree}
use twai_swarm.Scope.Tree.Related.{Laminar}
use twai_swarm.Scope.Tree.Correct.{build_scope_tree-ok_iff}
use twai_swarm.Actions.{SymbolNode, InheritsEdge, CallEdge, IndexBatch, TableAccessEdge}
use twai_swarm.Finalize.Names.{build_qualified_name_index}
use twai_swarm.Finalize.Adapter.{to_declarations, to_scopes}
use twai_swarm.Finalize.Imports.{Components}
use twai_swarm.Finalize.Indexed.{add_declarations-Added}
use twai_swarm.Finalize.Anchors.{OrderedLines, to_scopes-WellFormed}
use twai_swarm.Finalize.Rewrites.{Pairwise, Pairwise-refl, CallKept, BaseKept}
use twai_swarm.Finalize.Linked.{
  function_names, class_names, symbol_names, Finished, resolve_batch-Finished,
}
use twai_swarm.Orm.Correct.{FromHint}
use twai_swarm.Finalize.{finalize_batch, nothing_to_do, is_empty}

append_nil : {A : Type 0} → (xs : List A) → xs ≡ xs ++ []
append_nil [] = refl
append_nil (x ∷ xs) = λ i. x ∷ append_nil xs i

All-empty : {A : Type 0} (P : A → Type 0) (xs : List A) → is_empty xs ≡ true → All P xs
All-empty P [] h = tt
All-empty P (x ∷ xs) h = cc h

-- The early return leaves a batch with no edges as it is.
untouched : (batch : IndexBatch) → nothing_to_do batch ≡ true → Finished batch batch
untouched batch h = record {
  calls_kept =
      Pairwise-refl _ batch.calls
        (λ e. record { repo = refl; caller = refl; line = refl; callee = inl refl });
  bases_kept =
      Pairwise-refl _ batch.inherits (λ e. record { repo = refl; child = refl; parent = inl refl });
  calls_linked = All-empty _ batch.calls (ground arith);
  bases_linked = All-empty _ batch.inherits (ground arith);
  accesses = [];
  accesses_added = append_nil batch.table_accesses;
  accesses_justified = tt;
  accesses_distinct = tt;
  new = [];
  symbols = append_nil batch.symbols;
  fresh = λ qn i. absurd i;
  distinct = tt;
  used = λ qn i. absurd i;
}

module _ (components : Components) (batch : IndexBatch) (lines : OrderedLines batch) where
  finished :
      (t : ScopeTree)
      → build_scope_tree (to_scopes batch) ≡ ok t
      → (after : IndexBatch) × (finalize_batch components batch ≡ ok after) × Finished batch after
  unfolding finalize_batch build_qualified_name_index lookup
  finished t h = elim (Bool-cases (nothing_to_do batch)) [
    | inl idle ↦ (batch, ground (arith, idle), untouched batch idle)
    | inr busy ↦
        let (by_qn, built, added) =
          add_declarations-Added [] [] (to_declarations batch) (λ qn ne. absurd (ne refl)) in
        let (after, resolved, done) =
          resolve_batch-Finished batch by_qn added components t lines h in
        (after, ground (arith, busy, h, built, resolved), done)
  ]

  -- What a run that returned has made.
  finalize_batch-Finished :
      (after : IndexBatch) → finalize_batch components batch ≡ ok after → Finished batch after
  unfolding finalize_batch
  finalize_batch-Finished after h = elim (Bool-cases (nothing_to_do batch)) [
    | inl idle ↦
        let same : batch ≡ after = ground (arith, idle) in
        subst (Finished batch) same (untouched batch idle)
    | inr busy ↦ elim (Outcome-cases (build_scope_tree (to_scopes batch))) [
      | inr (error, failed) ↦ absurd (ground (arith, busy, failed))
      | inl (t, tree) ↦
          let (after', returns, done) = finished t tree in
          let same : after' ≡ after = ground (arith, returns) in subst (Finished batch) same done
    ]
  ]

-- Where the lines of the classes and functions are in order and the batch has something to
-- resolve, `finalize_batch` returns, with no exception and within the depths that bound its chains,
-- exactly if of any two scopes of one file one contains the other or they are apart.
pub finalize_batch-ok_iff :
    (components : Components) (batch : IndexBatch)
    → OrderedLines batch
    → nothing_to_do batch ≡ false
    → ((after : IndexBatch) × (finalize_batch components batch ≡ ok after)) ↔ (
        (a b : ScopeId)
        → In a (to_scopes batch)
        → In b (to_scopes batch)
        → a.file_path ≡ b.file_path
        → Laminar a b)
unfolding finalize_batch
finalize_batch-ok_iff components batch lines busy =
    let tree_iff = build_scope_tree-ok_iff (to_scopes batch) (to_scopes-WellFormed batch lines) in
    (
      λ (after, returns). elim (Outcome-cases (build_scope_tree (to_scopes batch))) [
        | inr (error, failed) ↦ absurd (ground (arith, busy, failed))
        | inl (t, tree) ↦ tree_iff.0 (t, tree)
      ],
      λ laminar.
          let (t, tree) = tree_iff.1 laminar in
          let (after, returns, done) = finished components batch lines t tree in (after, returns),
    )

-- Where the lines are in order and `finalize_batch` returns, every call of the result names a
-- function or method of the batch, or a symbol of the result, and every base names a class of the
-- batch, or a symbol of the result.
pub finalize_batch-Linked :
    (components : Components) (batch after : IndexBatch)
    → OrderedLines batch
    → finalize_batch components batch ≡ ok after
    → All
        (λ (e : CallEdge).
          In e.callee_qn (function_names batch) ⊎ In e.callee_qn (symbol_names after.symbols))
        after.calls
      × All
          (λ (e : InheritsEdge).
            In e.parent_qn (class_names batch) ⊎ In e.parent_qn (symbol_names after.symbols))
          after.inherits
finalize_batch-Linked components batch after lines h =
    let done = finalize_batch-Finished components batch lines after h in
    (done.calls_linked, done.bases_linked)

-- Where the lines are in order and `finalize_batch` returns, the calls and the bases of the result
-- are those of the batch, one for one and in order: repository, caller, child and line are the
-- same, and so is the target, unless it is a function (for a base, a class) of the batch now.
pub finalize_batch-Kept :
    (components : Components) (batch after : IndexBatch)
    → OrderedLines batch
    → finalize_batch components batch ≡ ok after
    → Pairwise (CallKept (λ qn. In qn (function_names batch))) batch.calls after.calls
      × Pairwise (BaseKept (λ qn. In qn (class_names batch))) batch.inherits after.inherits
finalize_batch-Kept components batch after lines h =
    let done = finalize_batch-Finished components batch lines after h in
    (done.calls_kept, done.bases_kept)

-- How the symbols of a batch grow.
abbrev pub SymbolsAdded : IndexBatch → IndexBatch → Type 0
SymbolsAdded batch after =
    (new : List SymbolNode) × (after.symbols ≡ batch.symbols ++ new)
    × Distinct (symbol_names new)
    × ((qn : String) → In qn (symbol_names new) → ¬ In qn (symbol_names batch.symbols))
    × ((qn : String)
        → In qn (symbol_names new)
        → In qn (map (λ (e : InheritsEdge). e.parent_qn) after.inherits)
          ⊎ In qn (map (λ (e : CallEdge). e.callee_qn) after.calls))

-- Where the lines are in order and `finalize_batch` returns, the symbols of the result are those
-- of the batch, and after them new ones: no two of these have one name, none has the name of an
-- old symbol, and each is the target of a base or of a call of the result.
pub finalize_batch-SymbolsAdded :
    (components : Components) (batch after : IndexBatch)
    → OrderedLines batch
    → finalize_batch components batch ≡ ok after
    → SymbolsAdded batch after
finalize_batch-SymbolsAdded components batch after lines h =
    let done = finalize_batch-Finished components batch lines after h in
    (done.new, done.symbols, done.distinct, done.fresh, done.used)

-- Where the lines are in order and `finalize_batch` returns, the accesses to tables of the result
-- are those of the batch, and after them new ones with no duplicates. For each new one some hint
-- has its function and line, a call of the result by that function on that line ends in the leaf
-- of the hint, its table is declared in the batch, and what it does to the table is an operation
-- of the leaf.
pub finalize_batch-AccessesJustified :
    (components : Components) (batch after : IndexBatch)
    → OrderedLines batch
    → finalize_batch components batch ≡ ok after
    → (new : List TableAccessEdge) × (after.table_accesses ≡ batch.table_accesses ++ new)
      × All (FromHint batch.repo batch.tables after.calls batch.orm_call_hints) new
      × Distinct new
finalize_batch-AccessesJustified components batch after lines h =
    let done = finalize_batch-Finished components batch lines after h in
    (done.accesses, done.accesses_added, done.accesses_justified, done.accesses_distinct)
