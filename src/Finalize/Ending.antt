-- ===== src/Finalize/Ending.antt =====
-- Lemmas on the search for the class of a receiver: it ends.
use twai_swarm.Prelude.{
  ℕ, zero, suc, ◌≡◌, refl, String, Option, none, some, List, [], ◌∷◌, arith, string_eq, lookup, In,
  inl, inr, split_dots, Outcome, ok, Option-cases,
}
use twai_swarm.Scope.{ScopeId}
use twai_swarm.Finalize.Lookups.{Context, resolve_type_name}
use twai_swarm.Finalize.Chains.{
  Follow, follow_name, follow_field, follow_fields, chain_step, resolve_type_chain,
}
use twai_swarm.Finalize.Anchors.{Known}

abbrev pub Returns : Outcome (Option String) → Type 0
Returns x = (o : Option String) × (x ≡ ok o)

module _ (c : Context) (scopes : List ScopeId) (known : Known c scopes) where
  abbrev Total : Follow → Type 0
  Total follow = (name : String) (s : ScopeId) → In s scopes → Returns (follow name s)

  module _ (follow : Follow) (total : Total follow) where
    pub follow_name-Returns :
        (s : ScopeId) (name : String) → In s scopes → Returns (follow_name c follow s name)
    unfolding follow_name
    follow_name-Returns s name i =
        let (res, found, declared) = known.finds s name i in
        elim (Option-cases res) [
          | inl missing ↦ (none, ground (arith, found, missing))
          | inr (ref, hit) ↦
              let (o, e) = total ref.raw_name ref.declared_at_scope (declared ref hit) in
              (o, ground (arith, found, hit, e))
        ]

    follow_field-Returns : (class_qn name : String) → Returns (follow_field c follow class_qn name)
    unfolding follow_field
    follow_field-Returns class_qn name = elim (Option-cases (lookup class_qn c.class_scope_id)) [
      | inl missing ↦ (none, ground (arith, missing))
      | inr (s, at) ↦
          let (o, e) = follow_name-Returns s name (known.classes class_qn s at) in
          (o, ground (arith, at, e))
    ]

    pub follow_fields-Returns :
        (names : List String) (class_qn : String) → Returns (follow_fields c follow class_qn names)
    unfolding follow_fields
    follow_fields-Returns [] class_qn = (some class_qn, refl)
    follow_fields-Returns (name ∷ names) class_qn =
        let (found, e) = follow_field-Returns class_qn name in
        elim (Option-cases found) [
          | inl missing ↦ (none, ground (arith, e, missing))
          | inr (next, hit) ↦
              let (o, e') = follow_fields-Returns names next in (o, ground (arith, e, hit, e'))
        ]

    chain_step-Returns :
        (s : ScopeId) (names : List String) → In s scopes → Returns (chain_step c follow s names)
    unfolding chain_step
    chain_step-Returns s [] i = (none, refl)
    chain_step-Returns s (name ∷ []) i =
        elim (Option-cases (resolve_type_name c s.file_path name)) [
          | inr (qn, hit) ↦ (some qn, ground (arith, hit))
          | inl missing ↦
              let (o, e) = follow_name-Returns s name i in (o, ground (arith, missing, e))
        ]
    chain_step-Returns s (head ∷ name ∷ names) i =
        let (bound, e) = follow_name-Returns s head i in
        elim (Option-cases bound) [
          | inr (qn, hit) ↦
              let (o, e') = follow_fields-Returns (name ∷ names) qn in
              (o, ground (arith, e, hit, e'))
          | inl unbound ↦ elim (Option-cases (resolve_type_name c s.file_path head)) [
            | inl missing ↦ (none, ground (arith, e, unbound, missing))
            | inr (qn, hit) ↦
                let (o, e') = follow_fields-Returns (name ∷ names) qn in
                (o, ground (arith, e, unbound, hit, e'))
          ]
        ]

  pub resolve_type_chain-Returns : (left : ℕ) → Total (resolve_type_chain left c)
  unfolding resolve_type_chain
  resolve_type_chain-Returns zero name s i = (none, refl)
  resolve_type_chain-Returns (suc left) name s i =
      chain_step-Returns (resolve_type_chain left c) (resolve_type_chain-Returns left) s
        (split_dots name) i
