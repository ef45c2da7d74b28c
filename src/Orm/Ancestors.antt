-- ===== src/Orm/Ancestors.antt =====
-- Lemmas on `_is_django_model_class`: which classes it takes for models.
use mathlib.Core.List.{reverse}
use twai_swarm.Prelude.{
  ℕ, zero, suc, ◌≡◌, ◌≢◌, refl, ap, subst, ◌∙◌, ◌↔◌, ◌⊎◌, inl, inr, String, true, false, List, [],
  ◌∷◌, ◌++◌, arith, string_eq, lookup, list_at, member, member_iff, last_part, In, In-append,
  In-reverse, ok, Bool-cases,
}
use twai_swarm.Actions.{TableNode, InheritsEdge}
use twai_swarm.Orm.Tables.{
  TableIndex, is_model_name, walk_ancestors, is_django_model_class, table_index, walk_fuel,
  django_qns, last_parts, django_model_terminal_bare_names,
}
use twai_swarm.Orm.Ending.{is_django_model_class-Ends}
use twai_swarm.Orm.Bases.{BaseOf, add_raw_parents-In, django_qns-In, In-django_qns, last_parts-In}

-- The class is the ancestor, or one of its bases has it.
pub data Descends (inherits : List InheritsEdge) (ancestor : String) : String → Type 0 where
  itself : Descends inherits ancestor ancestor
  through :
      {child parent : String} (edge : InheritsEdge)
      → In edge inherits
      → edge.child_qn ≡ child
      → edge.parent_qn ≡ parent
      → Descends inherits ancestor parent
      → Descends inherits ancestor child

-- A name of Django's own, or a class that a table declares as a Django model, by its name or by
-- the last part of it.
abbrev pub DjangoModel : List TableNode → String → Type 0
DjangoModel tables qn =
    In (last_part qn) ("Model" ∷ "AbstractUser" ∷ "AbstractBaseUser" ∷ [])
    ⊎ ((t : TableNode) × In t tables
        × (t.dialect ≡ "django")
        × (t.model_qn ≢ "")
        × ((qn ≡ t.model_qn) ⊎ (last_part qn ≡ last_part t.model_qn)))

module _ (tables : List TableNode) (inherits : List InheritsEdge) where
  abbrev index : TableIndex
  index = table_index tables inherits

  is_model_name_iff : (qn : String) → (is_model_name index qn ≡ true) ↔ DjangoModel tables qn
  unfolding is_model_name table_index
  is_model_name_iff qn =
      let terminal = member_iff (last_part qn) django_model_terminal_bare_names in
      let declared = member_iff qn (django_qns tables) in
      let bare = member_iff (last_part qn) (last_parts (django_qns tables)) in
      (
        λ h. elim (Bool-cases (member (last_part qn) django_model_terminal_bare_names)) [
          | inl a ↦ inl (terminal.0 a)
          | inr a ↦ elim (Bool-cases (member qn (django_qns tables))) [
            | inl b ↦
                let (t, i, (dialect, named, same)) = django_qns-In tables qn (declared.0 b) in
                inr (t, i, dialect, named, inl same)
            | inr b ↦
                let (q, j, last) =
                  (last_parts-In (django_qns tables) (last_part qn)).0
                    (bare.0 (ground (arith, a, b, h))) in
                let (t, i, (dialect, named, same)) = django_qns-In tables q j in
                inr (t, i, dialect, named, inr (last ∙ ap last_part same))
          ]
        ],
        λ h. elim h [
          | inl i ↦ ground (arith, terminal.1 i)
          | inr (t, i, dialect, named, inl same) ↦
              let at : In qn (django_qns tables) =
                rw same (In-django_qns tables t i dialect named) in
              ground (arith, declared.1 at)
          | inr (t, i, dialect, named, inr last) ↦ ground (
            arith,
            bare.1 (
                (last_parts-In (django_qns tables) (last_part qn)).1
                  (t.model_qn, In-django_qns tables t i dialect named, last)),
          )
        ],
      )

  raw_parents_iff :
      (c p : String) → In p (list_at c index.raw_parent_relation) ↔ BaseOf inherits c p
  unfolding table_index lookup
  raw_parents_iff c p =
      let at = add_raw_parents-In inherits [] c p in
      (λ i. elim (at.0 i) [ inl old ↦ absurd old | inr b ↦ b ], λ b. at.1 (inr b))

  -- A class on the stack has a model among its ancestors.
  abbrev Hit : List String → Type 0
  Hit stack =
      (s : String) × In s stack
      × ((a : String) × Descends inherits a s × (is_model_name index a ≡ true))

  walk_ancestors-Hit :
      (fuel : ℕ) (seen stack : List String)
      → walk_ancestors fuel index seen stack ≡ ok true
      → Hit stack
  unfolding walk_ancestors
  walk_ancestors-Hit zero seen stack h = absurd (cc h)
  walk_ancestors-Hit (suc fuel) seen [] h = absurd (cc h)
  walk_ancestors-Hit (suc fuel) seen (cur ∷ stack) h = elim (Bool-cases (member cur seen)) [
    | inl old ↦
        let (s, i, rest) = walk_ancestors-Hit fuel seen stack (ground (arith, old, h)) in
        (s, inr i, rest)
    | inr new ↦ elim (Bool-cases (is_model_name index cur)) [
      | inl found ↦ (cur, inl refl, (cur, itself, found))
      | inr other ↦
          let parents = list_at cur index.raw_parent_relation in
          let (s, i, (a, d, found)) =
            walk_ancestors-Hit fuel (cur ∷ seen) (reverse parents ++ stack)
              (ground (arith, new, other, h)) in
          elim ((In-append s (reverse parents) stack).0 i) [
            | inr j ↦ (s, inr j, (a, d, found))
            | inl j ↦
                let (edge, k, child, parent) =
                  (raw_parents_iff cur s).0 ((In-reverse s parents).0 j) in
                (cur, inl refl, (a, through edge k child parent d, found))
          ]
    ]
  ]

  -- None of the classes is a model, and each base of one is among them or waits.
  abbrev Clear : List String → List String → Type 0
  Clear seen stack =
      (s : String)
      → In s seen
      → (is_model_name index s ≡ false)
        × ((p : String) → BaseOf inherits s p → In p seen ⊎ In p stack)

  expanded :
      (cur : String) (seen stack : List String)
      → is_model_name index cur ≡ false
      → Clear seen (cur ∷ stack)
      → Clear (cur ∷ seen) (reverse (list_at cur index.raw_parent_relation) ++ stack)
  expanded cur seen stack other clear s (inl e) = (
    rw e other,
    λ p b.
        let parents = list_at cur index.raw_parent_relation in
        inr (
          (In-append p (reverse parents) stack).1
            (inl ((In-reverse p parents).1 ((raw_parents_iff cur p).1 (b.0, b.1, b.2 ∙ e, b.3))))),
  )
  expanded cur seen stack other clear s (inr i) = (
    (clear s i).0,
    λ p b. elim ((clear s i).1 p b) [
      | inl j ↦ inl (inr j)
      | inr (inl e) ↦ inl (inl e)
      | inr (inr j) ↦
          inr ((In-append p (reverse (list_at cur index.raw_parent_relation)) stack).1 (inr j))
    ],
  )

  walk_ancestors-Clear :
      (fuel : ℕ) (seen stack : List String)
      → walk_ancestors fuel index seen stack ≡ ok false
      → Clear seen stack
      → (met : List String) × Clear met [] × ((s : String) → In s seen ⊎ In s stack → In s met)
  unfolding walk_ancestors
  walk_ancestors-Clear zero seen stack h clear = absurd (cc h)
  walk_ancestors-Clear (suc fuel) seen [] h clear =
      (seen, clear, λ s i. elim i [ inl j ↦ j | inr j ↦ absurd j ])
  walk_ancestors-Clear (suc fuel) seen (cur ∷ stack) h clear =
      let parents = list_at cur index.raw_parent_relation in
      elim (Bool-cases (member cur seen)) [
        | inl old ↦
            let at = (member_iff cur seen).0 old in
            let (met, done, sub) =
              walk_ancestors-Clear fuel seen stack (ground (arith, old, h)) (λ s i. (
                (clear s i).0,
                λ p b. elim ((clear s i).1 p b) [
                  | inl j ↦ inl j
                  | inr (inl e) ↦ inl (rw e at)
                  | inr (inr j) ↦ inr j
                ],
              )) in
            (
              met,
              done,
              λ s i. elim i [
                | inl j ↦ sub s (inl j)
                | inr (inl e) ↦ sub s (inl (rw e at))
                | inr (inr j) ↦ sub s (inr j)
              ],
            )
        | inr new ↦ elim (Bool-cases (is_model_name index cur)) [
          | inl found ↦ absurd (ground (arith, new, found, h))
          | inr other ↦
              let (met, done, sub) =
                walk_ancestors-Clear fuel (cur ∷ seen) (reverse parents ++ stack)
                  (ground (arith, new, other, h)) (expanded cur seen stack other clear) in
              (
                met,
                done,
                λ s i. elim i [
                  | inl j ↦ sub s (inl (inr j))
                  | inr (inl e) ↦ sub s (inl (inl e))
                  | inr (inr j) ↦ sub s (inr ((In-append s (reverse parents) stack).1 (inr j)))
                ],
              )
        ]
      ]

  met-Clear :
      (met : List String) (a c : String)
      → Clear met []
      → Descends inherits a c
      → In c met
      → is_model_name index a ≡ false
  met-Clear met a c clear itself i = (clear c i).0
  met-Clear met a c clear (through {parent = q} edge j child parent d) i =
      elim ((clear c i).1 q (edge, j, child, parent)) [
        | inl k ↦ met-Clear met a q clear d k
        | inr k ↦ absurd k
      ]

-- A class is taken for a Django model exactly if it, a base of it, a base of a base, and so on, has
-- a name of Django's own (`Model`, `AbstractUser`, `AbstractBaseUser`) as its last part, or is a
-- class that a declared table gives as a Django model, by its name or by the last part of it.
pub is_django_model_class_iff :
    (tables : List TableNode) (inherits : List InheritsEdge) (class_qn : String)
    → (is_django_model_class (table_index tables inherits) class_qn ≡ ok true)
      ↔ ((a : String) × Descends inherits a class_qn × DjangoModel tables a)
unfolding is_django_model_class
is_django_model_class_iff tables inherits class_qn =
    let fuel = walk_fuel (table_index tables inherits) in
    let name = λ (a : String). is_model_name_iff tables inherits a in
    (
      λ h. elim (Bool-cases (is_model_name (table_index tables inherits) class_qn)) [
        | inl t ↦ (class_qn, itself, (name class_qn).0 t)
        | inr t ↦
            let (s, i, (a, d, found)) =
              walk_ancestors-Hit tables inherits fuel [] (class_qn ∷ [])
                (unfold is_model_name table_index in ground (arith, t, h)) in
            elim i [
              | inl e ↦ (a, subst (Descends inherits a) e d, (name a).0 found)
              | inr no' ↦ absurd no'
            ]
      ],
      λ (a, d, model).
          let (b, returns) = is_django_model_class-Ends (table_index tables inherits) class_qn in
          elim (Bool-cases b) [
            | inl t ↦ unfold is_django_model_class in ground (arith, returns, t)
            | inr t ↦
                let (met, clear, sub) =
                  walk_ancestors-Clear tables inherits fuel [] (class_qn ∷ [])
                    (ground (arith, returns, t)) (λ s i. absurd i) in
                absurd (
                  cc (
                    met-Clear tables inherits met a class_qn clear d
                        (sub class_qn (inr (inl refl))),
                    (name a).1 model,
                  ))
          ],
    )
