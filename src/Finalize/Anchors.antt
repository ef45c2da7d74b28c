-- ===== src/Finalize/Anchors.antt =====
-- Lemmas on the scopes of a batch, where its bindings and its callers are anchored.
use twai_swarm.Prelude.{
  ◌≤◌, ◌≡◌, refl, subst, ◌↔◌, ◌⊎◌, inl, inr, String, Option, none, some, List, [], ◌∷◌, ◌++◌, map,
  arith, string_eq, lookup, In, In-append, In-map, In_of_map, All, All-In, member,
  lookup-insert_all, ok, Bool-cases,
}
use twai_swarm.Scope.{ScopeId, TypeRef, scope_eq}
use twai_swarm.Scope.Tree.{ScopeTree, build_scope_tree}
use twai_swarm.Scope.Tree.Files.{WellFormed}
use twai_swarm.Scope.Bindings.{LocalVarTypeIndex, bound_at, add, empty, find}
use twai_swarm.Scope.Bindings.Nearest.{bound_at-add, find-Nearest, Nearest}
use twai_swarm.Actions.{ModuleNode, ClassNode, FunctionNode, LocalVarBinding, IndexBatch}
use twai_swarm.Finalize.Adapter.{
  range_for, class_scope_of, function_scope_of, class_scopes, module_scopes, module_scope_of,
  to_scopes, add_bindings, binding_scope, binding_ref, build_local_var_type_index,
}
use twai_swarm.Finalize.Names.{QualifiedNameIndex}
use twai_swarm.Finalize.Imports.{Components}
use twai_swarm.Finalize.Lookups.{Context}
use twai_swarm.Finalize.{context_of}

-- The lines of the classes and functions are in order.
pub record OrderedLines (batch : IndexBatch) : Type 0 where
  pub classes : All (λ (k : ClassNode). k.line_start ≤ k.line_end) batch.classes
  pub functions : All (λ (f : FunctionNode). f.line_start ≤ f.line_end) batch.functions

module_scopes-WellFormed :
    (seen : List String) (ms : List ModuleNode) (s : ScopeId)
    → In s (module_scopes seen ms)
    → WellFormed s
unfolding module_scopes
module_scopes-WellFormed seen [] s i = absurd i
module_scopes-WellFormed seen (m ∷ ms) s i = elim (Bool-cases (member m.file_path seen)) [
  | inl old ↦ module_scopes-WellFormed seen ms s (ground (arith, old))
  | inr new ↦
      let j : In s (module_scope_of m.file_path ∷ module_scopes (m.file_path ∷ seen) ms) =
        ground (arith, new) in
      elim j [
        | inl same ↦ rw same (refl, omega arith)
        | inr k ↦ module_scopes-WellFormed (m.file_path ∷ seen) ms s k
      ]
]

In-to_scopes :
    (batch : IndexBatch) (s : ScopeId)
    → In s (to_scopes batch) ↔ (
        In s (module_scopes [] batch.modules)
        ⊎ In s (map class_scope_of batch.classes)
        ⊎ In s (map function_scope_of batch.functions))
unfolding to_scopes
In-to_scopes batch s =
    let modules = module_scopes [] batch.modules in
    let classes = map class_scope_of batch.classes in
    let functions = map function_scope_of batch.functions in
    ground (arith, In-append s (modules ++ classes) functions, In-append s modules classes)

pub to_scopes-WellFormed :
    (batch : IndexBatch)
    → OrderedLines batch
    → (s : ScopeId) → In s (to_scopes batch)
    → WellFormed s
unfolding range_for
to_scopes-WellFormed batch lines s i = elim ((In-to_scopes batch s).0 i) [
  | inl j ↦ module_scopes-WellFormed [] batch.modules s j
  | inr (inl k) ↦
      let (c, at, e) = In_of_map class_scope_of batch.classes s k in
      let ordered =
        All-In (λ (x : ClassNode). x.line_start ≤ x.line_end) batch.classes c lines.classes at in
      rw e (refl, omega arith)
  | inr (inr k) ↦
      let (f, at, e) = In_of_map function_scope_of batch.functions s k in
      let ordered =
        All-In (λ (x : FunctionNode). x.line_start ≤ x.line_end) batch.functions f lines.functions
          at in
      rw e (refl, omega arith)
]

class_scope-In :
    (batch : IndexBatch) (k : ClassNode)
    → In k batch.classes
    → In (class_scope_of k) (to_scopes batch)
class_scope-In batch k i =
    (In-to_scopes batch (class_scope_of k)).1 (inr (inl (In-map class_scope_of batch.classes k i)))

function_scope-In :
    (batch : IndexBatch) (f : FunctionNode)
    → In f batch.functions
    → In (function_scope_of f) (to_scopes batch)
function_scope-In batch f i =
    (In-to_scopes batch (function_scope_of f)).1
      (inr (inr (In-map function_scope_of batch.functions f i)))

-- What is bound at a scope was declared at that scope.
abbrev pub Anchored : LocalVarTypeIndex → Type 0
Anchored index =
    (s : ScopeId) (name : String) (ref : TypeRef)
    → bound_at index s name ≡ some ref
    → ref.declared_at_scope ≡ s

add_bindings-Anchored :
    (index : LocalVarTypeIndex) (bs : List LocalVarBinding)
    → Anchored index
    → Anchored (add_bindings index bs)
unfolding add_bindings
add_bindings-Anchored index [] h = h
add_bindings-Anchored index (b ∷ bs) h =
    add_bindings-Anchored (add index (binding_scope b) b.var_name (binding_ref b)) bs
      (λ s name ref e. ground (
        arith,
        h s name ref,
        bound_at-add index (binding_scope b) s b.var_name name (binding_ref b),
        scope_eq.same_iff (binding_scope b) s,
      ))

pub build-Anchored : (bs : List LocalVarBinding) → Anchored (build_local_var_type_index bs)
unfolding build_local_var_type_index empty bound_at lookup
build-Anchored bs = add_bindings-Anchored empty bs (λ s name ref e. cc e)

-- A search from a scope of the batch returns, and what it finds is declared at such a scope.
pub record Known (c : Context) (scopes : List ScopeId) : Type 0 where
  pub finds :
      (s : ScopeId) (name : String)
      → In s scopes
      → (res : Option TypeRef) × (find c.local_var_index s name c.scope_tree ≡ ok res)
        × ((ref : TypeRef) → res ≡ some ref → In ref.declared_at_scope scopes)
  pub classes : (qn : String) (s : ScopeId) → lookup qn c.class_scope_id ≡ some s → In s scopes
  pub functions : (qn : String) (s : ScopeId) → lookup qn c.func_scope_id ≡ some s → In s scopes

find-Anchored :
    (scopes : List ScopeId) (t : ScopeTree)
    → ((s : ScopeId) → In s scopes → WellFormed s)
    → build_scope_tree scopes ≡ ok t
    → (index : LocalVarTypeIndex) → Anchored index
    → (s : ScopeId) (name : String) → In s scopes
    → (res : Option TypeRef) × (find index s name t ≡ ok res)
      × ((ref : TypeRef) → res ≡ some ref → In ref.declared_at_scope scopes)
find-Anchored scopes t well h index anchored s name i =
    let (res, returns, nearest) = find-Nearest scopes t well h index name s i in
    (res, returns, declared res nearest)
  where
    declared :
        (res : Option TypeRef)
        → Nearest scopes t well h index name s res
        → (ref : TypeRef) → res ≡ some ref
        → In ref.declared_at_scope scopes
    declared none nearest ref e = cc e
    declared (some found) (at, encloses, bound, outer) ref e =
        let same : found ≡ ref = ground arith in
        rw (← same, anchored at name found bound) encloses.0

-- The indexes that are built for a batch know its scopes.
pub context_of-Known :
    (components : Components) (batch : IndexBatch) (qn_index : QualifiedNameIndex) (t : ScopeTree)
    → OrderedLines batch
    → build_scope_tree (to_scopes batch) ≡ ok t
    → Known (context_of components batch qn_index t) (to_scopes batch)
unfolding context_of class_scopes lookup
context_of-Known components batch qn_index t lines h = record {
  finds =
      find-Anchored (to_scopes batch) t (to_scopes-WellFormed batch lines) h
        (build_local_var_type_index batch.local_var_bindings)
        (build-Anchored batch.local_var_bindings);
  classes = λ qn s e.
      elim (lookup-insert_all (λ (k : ClassNode). some (k.qualified_name, class_scope_of k)) []
        batch.classes qn s e) [
          | inl old ↦ cc old
          | inr (k, i, given) ↦
              let same : class_scope_of k ≡ s = ground arith in
              subst (λ x. In x (to_scopes batch)) same (class_scope-In batch k i)
        ];
  functions = λ qn s e.
      elim (lookup-insert_all (λ (f : FunctionNode). some (f.qualified_name, function_scope_of f))
        [] batch.functions qn s e) [
          | inl old ↦ cc old
          | inr (f, i, given) ↦
              let same : function_scope_of f ≡ s = ground arith in
              subst (λ x. In x (to_scopes batch)) same (function_scope-In batch f i)
        ];
}
