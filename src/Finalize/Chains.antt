-- ===== src/Finalize/Chains.antt =====
-- finalize.py: the class of a receiver, through the types that are bound in the scopes.
use twai_swarm.Prelude.{
  ℕ, zero, suc, String, Option, none, some, List, [], ◌∷◌, string_eq, lookup, split_dots, Outcome,
  ok, ◌>>=◌,
}
use twai_swarm.Scope.{ScopeId, TypeRef}
use twai_swarm.Scope.Bindings.{find}
use twai_swarm.Finalize.Lookups.{Context, resolve_type_name}

-- What continues a search: the type that a name is bound to, resolved in turn.
abbrev pub Follow : Type 0
Follow = String → ScopeId → Outcome (Option String)

abbrev pub follow_ref : Follow → Option TypeRef → Outcome (Option String)
follow_ref follow none = ok none
follow_ref follow (some ref) = follow ref.raw_name ref.declared_at_scope

-- A name that is bound at a scope or around it.
unfoldable pub follow_name : Context → Follow → ScopeId → String → Outcome (Option String)
follow_name c follow scope name =
    find c.local_var_index scope name c.scope_tree >>= λ ref. follow_ref follow ref

-- A name that is bound in the body of a class.
unfoldable pub follow_field : Context → Follow → String → String → Outcome (Option String)
follow_field c follow class_qn name = elim (lookup class_qn c.class_scope_id) [
  | none ↦ ok none
  | some scope ↦ follow_name c follow scope name
]

-- The loop over the segments of a chain, each a field of the class so far.
unfoldable pub follow_fields : Context → Follow → String → List String → Outcome (Option String)
follow_fields c follow current [] = ok (some current)
follow_fields c follow current (name ∷ names) = follow_field c follow current name >>= λ found.
    elim found [ none ↦ ok none | some class_qn ↦ follow_fields c follow class_qn names ]

-- `a`, or where there is none, what comes next.
abbrev pub or_type : Option String → Outcome (Option String) → Outcome (Option String)
or_type (some qn) later = ok (some qn)
or_type none later = later

-- One level of `_resolve_type_chain`, for the segments of the name.
unfoldable pub chain_step : Context → Follow → ScopeId → List String → Outcome (Option String)
chain_step c follow scope [] = ok none
chain_step c follow scope (name ∷ []) =
    or_type (resolve_type_name c scope.file_path name) (follow_name c follow scope name)
chain_step c follow scope (head ∷ name ∷ names) = follow_name c follow scope head >>= λ bound.
    or_type bound (ok (resolve_type_name c scope.file_path head)) >>= λ found. elim found [
      | none ↦ ok none
      | some class_qn ↦ follow_fields c follow class_qn (name ∷ names)
    ]

-- `_resolve_type_chain`. `left` counts down where the source's `depth` counts up to its bound.
unfoldable pub resolve_type_chain : ℕ → Context → String → ScopeId → Outcome (Option String)
resolve_type_chain zero c raw_name scope = ok none
resolve_type_chain (suc left) c raw_name scope =
    chain_step c (resolve_type_chain left c) scope (split_dots raw_name)

-- The depths from 0 to 8.
abbrev pub chain_depths : ℕ
chain_depths = 9

abbrev pub type_chain : Context → Follow
type_chain c = resolve_type_chain chain_depths c
