-- ===== src/Finalize/Indexed.antt =====
-- Lemmas on the index of the declarations by name, and on the methods of the dispatch index.
use twai_swarm.Prelude.{
  ◌≡◌, ◌≢◌, refl, ◌⊎◌, inl, inr, String, true, none, some, List, [], ◌∷◌, arith, string_eq, Dict,
  lookup, lookup-insert, insert, get_or, In, member, member_iff, split_last_dot, ok, Bool-cases,
  Option-cases,
}
use twai_swarm.Scope.{Declaration}
use twai_swarm.Scope.Dispatch.{Methods, is_method, add_method, add_methods}
use twai_swarm.Finalize.Names.{add_declarations, dedup_declarations}
use twai_swarm.Finalize.{methods_of}

-- What the index holds after the declarations `ds` are added to `before`.
pub record Added (before : Dict String Declaration) (ds : List Declaration)
    (after : Dict String Declaration) : Type 0 where
  pub keeps : (qn : String) (d : Declaration) → lookup qn before ≡ some d → lookup qn after ≡ some d
  pub finds : (d : Declaration) → In d ds → lookup d.qualified_name after ≡ some d
  pub sound :
      (qn : String) (d : Declaration)
      → lookup qn after ≡ some d
      → (lookup qn before ≡ some d) ⊎ In d ds × (d.qualified_name ≡ qn)

pub Added-cons :
    (before : Dict String Declaration) (d : Declaration) (ds : List Declaration)
    (after : Dict String Declaration)
    → lookup d.qualified_name before ≡ none
    → Added (insert d.qualified_name d before) ds after
    → Added before (d ∷ ds) after
Added-cons before d ds after fresh a = record {
  keeps = λ qn e h. a.keeps qn e (
      ground (
        arith,
        lookup-insert d.qualified_name qn d before,
        string_eq.same_iff d.qualified_name qn,
      ));
  finds = λ e i. elim i [
    | inl same ↦ rw same (
        a.keeps d.qualified_name d (
          ground (
            arith,
            lookup-insert d.qualified_name d.qualified_name d before,
            string_eq.same_iff d.qualified_name d.qualified_name,
          )))
    | inr j ↦ a.finds e j
  ];
  sound = λ qn e h. elim (a.sound qn e h) [
    | inr (i, same) ↦ inr (inr i, same)
    | inl old ↦
        ground (
          arith,
          lookup-insert d.qualified_name qn d before,
          string_eq.same_iff d.qualified_name qn,
        )
  ];
}

-- No name comes twice where the later ones are dropped, so the builder does not raise.
pub add_declarations-Added :
    (before : Dict String Declaration) (seen : List String) (ds : List Declaration)
    → ((qn : String) → lookup qn before ≢ none → In qn seen)
    → (after : Dict String Declaration) × (add_declarations before (dedup_declarations seen ds)
        ≡ ok after)
      × Added before (dedup_declarations seen ds) after
unfolding add_declarations dedup_declarations
add_declarations-Added before seen [] h =
    (before, refl, record { keeps = λ qn d e. e; finds = λ d i. absurd i; sound = λ qn d e. inl e })
add_declarations-Added before seen (d ∷ ds) h = elim (Bool-cases (member d.qualified_name seen)) [
  | inl old ↦ rw old (add_declarations-Added before seen ds h)
  | inr new ↦
      let fresh : lookup d.qualified_name before ≡ none =
        ground (arith, h d.qualified_name, member_iff d.qualified_name seen) in
      let (after, returns, added) =
        add_declarations-Added (insert d.qualified_name d before) (d.qualified_name ∷ seen) ds
          (λ qn k. ground (
            arith,
            h qn,
            lookup-insert d.qualified_name qn d before,
            string_eq.same_iff d.qualified_name qn,
          )) in
      (
        after,
        ground (arith, new, fresh, returns),
        rw new (
            Added-cons before d (dedup_declarations (d.qualified_name ∷ seen) ds) after fresh
              added),
      )
]

pub In-dedup_declarations :
    (seen : List String) (ds : List Declaration) (d : Declaration)
    → In d (dedup_declarations seen ds)
    → In d ds
unfolding dedup_declarations
In-dedup_declarations seen [] d i = i
In-dedup_declarations seen (e ∷ ds) d i =
    ground
      (arith, In-dedup_declarations seen ds d, In-dedup_declarations (e.qualified_name ∷ seen) ds d)

pub In-methods_of :
    (ds : List Declaration) (d : Declaration)
    → In d (methods_of ds)
    → In d ds × (is_method d.kind ≡ true)
unfolding methods_of
In-methods_of [] d i = absurd i
In-methods_of (e ∷ ds) d i = ground (arith, In-methods_of ds d)

In-add_method :
    (methods : Dict String Methods) (e : Declaration) (c name : String) (d : Declaration)
    → lookup name (get_or [] (lookup c (add_method methods e))) ≡ some d
    → (lookup name (get_or [] (lookup c methods)) ≡ some d) ⊎ (d ≡ e)
unfolding add_method
In-add_method methods e c name d h = elim (Option-cases (split_last_dot e.qualified_name)) [
  | inl none' ↦ ground (arith, none')
  | inr ((q, b), e') ↦
      let outer = lookup-insert q c (insert e.name e (get_or [] (lookup q methods))) methods in
      let inner = lookup-insert e.name name e (get_or [] (lookup q methods)) in
      ground (arith, e', outer, inner, string_eq.same_iff q c)
]

-- A method that a class lists was listed before, or is one of those added.
pub In-add_methods :
    (methods : Dict String Methods) (ds : List Declaration) (c name : String) (d : Declaration)
    → lookup name (get_or [] (lookup c (add_methods methods ds))) ≡ some d
    → (lookup name (get_or [] (lookup c methods)) ≡ some d) ⊎ In d ds
unfolding add_methods
In-add_methods methods [] c name d h = inl h
In-add_methods methods (e ∷ ds) c name d h =
    elim (In-add_methods (add_method methods e) ds c name d h) [
      | inr i ↦ inr (inr i)
      | inl k ↦ elim (In-add_method methods e c name d k) [
        | inl old ↦ inl old
        | inr same ↦ inr (inl same)
      ]
    ]
