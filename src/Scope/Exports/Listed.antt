-- ===== src/Scope/Exports/Listed.antt =====
-- Lemmas on the exports of a built ModuleScopeIndex.
use mathlib.Core.List.{append-nil, append_assoc}
use twai_swarm.Prelude.{
  ◌≡◌, ◌≢◌, refl, sym, ◌∙◌, ap, ◌⊎◌, inl, inr, String, Bool, false, not, ◌&&◌, List, [], ◌∷◌, ◌++◌,
  arith, string_eq, ◌==◌, lookup, list_at, list_at-append_at, if◌then◌else◌, split_last_dot,
  Option-cases, subst, join, has_dot, Split, split_last_dot_lem, is_some,
}
use twai_swarm.Scope.{
  Declaration, DeclarationKind, function_decl, class_decl, module_decl, method_decl, import_decl,
}
use twai_swarm.Scope.Exports.{
  ModuleScopeIndex, exports_of, is_module, owner, skipped, add_export, add_exports,
  build_module_scope_index,
}

-- The declarations that the module owns and that are neither nested nor private.
pub public_of : (Declaration → Bool) → String → List Declaration → List Declaration
public_of private module_qn [] = []
public_of private module_qn (d ∷ ds) =
    let rest = public_of private module_qn ds in
    if not (is_some d.scope_id) && not (private d) && owner d == module_qn then d ∷ rest else rest

exports_of-add_export :
    (private : Declaration → Bool) (index : ModuleScopeIndex) (d : Declaration) (m : String)
    → exports_of (add_export private index d) m ≡ exports_of index m ++ public_of private m (d ∷ [])
unfolding exports_of add_export skipped public_of
exports_of-add_export private index d m = ground (
  arith,
  list_at-append_at (owner d) m d index.exports,
  append-nil (list_at m index.exports),
  string_eq.same_iff (owner d) m,
)

public_of-nil : (private : Declaration → Bool) (m : String) → [] ≡ public_of private m []
unfolding public_of
public_of-nil private m = refl

public_of-cons :
    (private : Declaration → Bool) (m : String) (d : Declaration) (ds : List Declaration)
    → public_of private m (d ∷ []) ++ public_of private m ds ≡ public_of private m (d ∷ ds)
unfolding public_of
public_of-cons private m d ds = ground arith

exports_of-add_exports :
    (private : Declaration → Bool) (index : ModuleScopeIndex) (ds : List Declaration) (m : String)
    → exports_of (add_exports private index ds) m ≡ exports_of index m ++ public_of private m ds
unfolding add_exports
exports_of-add_exports private index [] m =
    sym (append-nil (exports_of index m))
    ∙ ap (λ l. exports_of index m ++ l) (public_of-nil private m)
exports_of-add_exports private index (d ∷ ds) m =
    exports_of-add_exports private (add_export private index d) ds m
    ∙ ap (λ l. l ++ public_of private m ds) (exports_of-add_export private index d m)
    ∙ append_assoc (exports_of index m) (public_of private m (d ∷ [])) (public_of private m ds)
    ∙ ap (λ l. exports_of index m ++ l) (public_of-cons private m d ds)

-- For every test of privacy, a module's exports in the built index are the declarations of the
-- input that are neither nested nor private and that the module owns, each as often as it is
-- given and in the order of the input.
pub exports_of-build :
    (private : Declaration → Bool) (ds : List Declaration) (m : String)
    → exports_of (build_module_scope_index private ds) m ≡ public_of private m ds
unfolding build_module_scope_index
exports_of-build private ds m =
    let blank : exports_of (record { exports = [] }) m ≡ [] = unfold exports_of lookup in refl in
    exports_of-add_exports private (record { exports = [] }) ds m
    ∙ ap (λ l. l ++ public_of private m ds) blank

module_cases : (k : DeclarationKind) → (k ≡ module_decl) ⊎ (k ≢ module_decl) × (is_module k ≡ false)
module_cases function_decl = inr (λ e. cc e, refl)
module_cases class_decl = inr (λ e. cc e, refl)
module_cases module_decl = inl refl
module_cases method_decl = inr (λ e. cc e, refl)
module_cases import_decl = inr (λ e. cc e, refl)

-- The owner of a declaration. A module owns itself. Of any other, the owner is all of the qualified
-- name before its last dot: the name is the owner, a dot and a text with no dot, or it has no dot
-- and the owner is empty.
pub owner_lem :
    (d : Declaration)
    → (d.kind ≡ module_decl) × (owner d ≡ d.qualified_name)
      ⊎ (d.kind ≢ module_decl)
        × (((b : String) × (d.qualified_name ≡ join (owner d) (join "." b)) × (has_dot b ≡ false))
            ⊎ (owner d ≡ "") × (has_dot d.qualified_name ≡ false))
owner_lem d = elim (module_cases d.kind) [
  | inl e ↦ inl (e, unfold owner in rw e refl)
  | inr (ne, m) ↦ inr (
    ne,
    elim (Option-cases (split_last_dot d.qualified_name)) [
      | inl e ↦ inr (
        unfold owner in ground (arith, m, e),
        subst (Split d.qualified_name) e (split_last_dot_lem d.qualified_name),
      )
      | inr ((a, b), e) ↦
          let parts = subst (Split d.qualified_name) e (split_last_dot_lem d.qualified_name) in
          let o : owner d ≡ a = unfold owner in ground (arith, m, e) in
          inl (b, rw o parts.0, parts.1)
    ],
  )
]
