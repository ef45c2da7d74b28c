-- ===== src/Finalize/Found.antt =====
-- Lemmas on the resolution by names and imports: what a search accepts.
use twai_swarm.Prelude.{
  ◌≡◌, inl, inr, String, Bool, true, Option, none, some, List, [], ◌∷◌, arith, string_eq, ◌==◌,
  lookup, get_or, or_else, first_some, dotted, split_first_dot, if◌then◌else◌, Bool-cases,
  Option-cases,
}
use twai_swarm.Scope.Exports.{exports_of}
use twai_swarm.Finalize.Imports.{owner_or}
use twai_swarm.Finalize.Lookups.{
  Context, is_function, is_class, accept, export_hit, resolve_via_closure, bindings_of,
  wildcards_of, resolve_bare, resolve_in_module, resolve_wildcard_class, resolve_parent,
}

-- Whatever is found passes the test.
abbrev pub Finds : (String → Bool) → Option String → Type 0
Finds predicate found = (qn : String) → found ≡ some qn → predicate qn ≡ true

module _ (predicate : String → Bool) where
  pub accept-Finds : (name : String) → Finds predicate (accept predicate name)
  accept-Finds name qn h = ground arith

  pub or_else-Finds :
      (a b : Option String) → Finds predicate a → Finds predicate b → Finds predicate (or_else a b)
  or_else-Finds none b f g = g
  or_else-Finds (some x) b f g = f

  pub first_some-Finds {ℓ} :
      {A : Type ℓ} (f : A → Option String) (xs : List A)
      → ((x : A) → Finds predicate (f x))
      → Finds predicate (first_some f xs)
  first_some-Finds f [] h = λ qn e. cc e
  first_some-Finds f (x ∷ xs) h = λ qn e. elim (Option-cases (f x)) [
    | inl missing ↦ first_some-Finds f xs h qn (ground (arith, missing))
    | inr (b, hit) ↦ h x qn (ground (arith, hit))
  ]

  module _ (c : Context) where
    pub resolve_via_closure-Finds :
        (module_qn name : String) → Finds predicate (resolve_via_closure c module_qn name predicate)
    unfolding resolve_via_closure
    resolve_via_closure-Finds module_qn name =
        first_some-Finds _ (get_or (module_qn ∷ []) (lookup module_qn c.import_closure)) (λ m.
          first_some-Finds (export_hit name predicate) (exports_of c.module_index m)
            (λ d qn h. ground arith))

    pub resolve_bare-Finds :
        (file_path name : String) → Finds predicate (resolve_bare c predicate file_path name)
    unfolding resolve_bare
    resolve_bare-Finds file_path name =
        or_else-Finds _ _ (imported (lookup name (bindings_of c file_path))) (
          first_some-Finds (λ target. resolve_via_closure c target name predicate)
            (wildcards_of c file_path) (λ target. resolve_via_closure-Finds target name))
      where
        imported :
            (bound : Option (String × String))
            → Finds predicate (elim bound [
              | none ↦ none
              | some (target_qn, kind) ↦
                  if kind == "symbol"
                  then or_else
                      (accept predicate target_qn)
                      (resolve_via_closure c (owner_or "" target_qn) name predicate)
                  else none
            ])
        imported none = λ qn e. cc e
        imported (some (target_qn, kind)) = elim (Bool-cases (kind == "symbol")) [
          | inl t ↦ rw t (
              or_else-Finds _ _ (accept-Finds target_qn)
                (resolve_via_closure-Finds (owner_or "" target_qn) name))
          | inr t ↦ rw t (λ qn e. cc e)
        ]

    pub resolve_in_module-Finds :
        (file_path head rest : String)
        → Finds predicate (resolve_in_module c predicate file_path head rest)
    unfolding resolve_in_module
    resolve_in_module-Finds file_path head rest qn h =
        elim (Option-cases (lookup head (bindings_of c file_path))) [
          | inl missing ↦ ground (arith, missing)
          | inr ((target_qn, kind), bound) ↦
              or_else-Finds _ _ (accept-Finds (dotted target_qn rest))
                (resolve_via_closure-Finds target_qn rest) qn (ground (arith, bound))
        ]

pub resolve_wildcard_class-Finds :
    (c : Context) (file_path head rest : String)
    → Finds (is_function c) (resolve_wildcard_class c file_path head rest)
unfolding resolve_wildcard_class
resolve_wildcard_class-Finds c file_path head rest =
    first_some-Finds (is_function c) _ (wildcards_of c file_path) (λ target qn h.
      elim (Option-cases (resolve_via_closure c target head (is_class c))) [
        | inl missing ↦ ground (arith, missing)
        | inr (class_qn, hit) ↦
            accept-Finds (is_function c) (dotted class_qn rest) qn (ground (arith, hit))
      ])

pub resolve_parent-Finds :
    (c : Context) (child_qn parent_dotted : String)
    → Finds (is_class c) (resolve_parent c child_qn parent_dotted)
unfolding resolve_parent
resolve_parent-Finds c child_qn parent_dotted =
    or_else-Finds (is_class c) _ _ (accept-Finds (is_class c) parent_dotted) (λ qn h.
      elim (Option-cases (lookup child_qn c.class_file_path)) [
        | inl missing ↦ ground (arith, missing)
        | inr (file_path, at) ↦ elim (Option-cases (split_first_dot parent_dotted)) [
          | inl bare ↦
              resolve_bare-Finds (is_class c) c file_path parent_dotted qn
                (ground (arith, at, bare))
          | inr ((head, rest), split) ↦
              resolve_in_module-Finds (is_class c) c file_path head rest qn
                (ground (arith, at, split))
        ]
      ])
