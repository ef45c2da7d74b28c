-- ===== src/Orm/Bases.antt =====
-- Lemmas on the indexes that the walk over the bases reads.
use twai_swarm.Prelude.{
  ◌≡◌, ◌≢◌, refl, sym, ap, subst, ◌∙◌, ==_cases, ◌↔◌, ◌⊎◌, inl, inr, String, true, ◌&&◌, not, List,
  [], ◌∷◌, ◌++◌, arith, string_eq, ◌==◌, Dict, list_at, list_at-append_at, append_at, last_part, In,
  In-append, Bool-cases,
}
use twai_swarm.Actions.{TableNode, InheritsEdge}
use twai_swarm.Orm.Tables.{add_raw_parents, django_qns, last_parts}

abbrev pub BaseOf : List InheritsEdge → String → String → Type 0
BaseOf inherits c p =
    (edge : InheritsEdge) × In edge inherits × (edge.child_qn ≡ c) × (edge.parent_qn ≡ p)

append_at-In :
    (k v : String) (d : Dict String (List String)) (c p : String)
    → In p (list_at c (append_at k v d)) ↔ (In p (list_at c d) ⊎ ((k ≡ c) × (v ≡ p)))
append_at-In k v d c p =
    let at = list_at-append_at k c v d in
    let split = In-append p (list_at c d) (v ∷ []) in
    elim (==_cases k c) [
      | inl (t, same) ↦
          let e : list_at c (append_at k v d) ≡ list_at c d ++ v ∷ [] =
            ground (arith, at, t) ∙ ap (λ (j : String). list_at j d ++ v ∷ []) same in
          rw e (
            λ i. elim (split.0 i) [
              | inl j ↦ inl j
              | inr (inl h) ↦ inr (same, sym h)
              | inr (inr none') ↦ absurd none'
            ],
            λ h. elim h [ inl j ↦ split.1 (inl j) | inr (_, h') ↦ split.1 (inr (inl (sym h'))) ],
          )
      | inr (t, other) ↦
          let e : list_at c (append_at k v d) ≡ list_at c d = ground (arith, at, t) in
          rw e (inl, λ h. elim h [ inl i ↦ i | inr (same, _) ↦ absurd (other same) ])
    ]

pub add_raw_parents-In :
    (inherits : List InheritsEdge) (d : Dict String (List String)) (c p : String)
    → In p (list_at c (add_raw_parents d inherits)) ↔ (In p (list_at c d) ⊎ BaseOf inherits c p)
unfolding add_raw_parents
add_raw_parents-In [] d c p = (inl, λ h. elim h [ inl i ↦ i | inr b ↦ absurd b.1 ])
add_raw_parents-In (edge ∷ inherits) d c p =
    let rest = add_raw_parents-In inherits (append_at edge.child_qn edge.parent_qn d) c p in
    let one = append_at-In edge.child_qn edge.parent_qn d c p in
    (
      λ i. elim (rest.0 i) [
        | inr (e, j, child, parent) ↦ inr (e, inr j, child, parent)
        | inl j ↦ elim (one.0 j) [
          | inl old ↦ inl old
          | inr (child, parent) ↦ inr (edge, inl refl, child, parent)
        ]
      ],
      λ h. elim h [
        | inl old ↦ rest.1 (inl (one.1 (inl old)))
        | inr (e, inr j, child, parent) ↦ rest.1 (inr (e, j, child, parent))
        | inr (e, inl same, child, parent) ↦ rest.1 (
            inl (
              one.1 (
                inr (
                  ap (λ (x : InheritsEdge). x.child_qn) (sym same) ∙ child,
                  ap (λ (x : InheritsEdge). x.parent_qn) (sym same) ∙ parent,
                ))))
      ],
    )

-- The table declares the class as a Django model.
abbrev pub ModelTable : TableNode → String → Type 0
ModelTable t qn = (t.dialect ≡ "django") × (t.model_qn ≢ "") × (qn ≡ t.model_qn)

pub django_qns-In :
    (tables : List TableNode) (qn : String)
    → In qn (django_qns tables)
    → (t : TableNode) × In t tables × ModelTable t qn
unfolding django_qns
django_qns-In [] qn i = absurd i
django_qns-In (t ∷ ts) qn i =
    let rest : In qn (django_qns ts) → (t' : TableNode) × In t' (t ∷ ts) × ModelTable t' qn =
      λ k. let (t', j, model) = django_qns-In ts qn k in (t', inr j, model) in
    elim (==_cases t.dialect "django") [
      | inr (f, other) ↦
          let e : django_qns (t ∷ ts) ≡ django_qns ts = rw f refl in rest (subst (In qn) e i)
      | inl (f, dialect) ↦ elim (==_cases t.model_qn "") [
        | inl (g, unnamed) ↦
            let e : django_qns (t ∷ ts) ≡ django_qns ts = rw (f, g) refl in rest (subst (In qn) e i)
        | inr (g, named) ↦
            let e : django_qns (t ∷ ts) ≡ t.model_qn ∷ django_qns ts = rw (f, g) refl in
            let at : In qn (t.model_qn ∷ django_qns ts) = subst (In qn) e i in
            elim at [ inl same ↦ (t, inl refl, (dialect, named, same)) | inr k ↦ rest k ]
      ]
    ]

pub In-django_qns :
    (tables : List TableNode) (t : TableNode)
    → In t tables
    → t.dialect ≡ "django"
    → t.model_qn ≢ ""
    → In t.model_qn (django_qns tables)
unfolding django_qns
In-django_qns [] t i dialect named = absurd i
In-django_qns (x ∷ ts) t (inl e) dialect named =
    let same : t.model_qn ≡ x.model_qn = ap (λ (y : TableNode). y.model_qn) e in
    let kind : t.dialect ≡ x.dialect = ap (λ (y : TableNode). y.dialect) e in
    let f : (x.dialect == "django") ≡ true =
      (string_eq.same_iff x.dialect "django").1 (sym kind ∙ dialect) in
    elim (==_cases x.model_qn "") [
      | inl (_, unnamed) ↦ absurd (named (same ∙ unnamed))
      | inr (g, _) ↦ rw (f, g) (inl same)
    ]
In-django_qns (x ∷ ts) t (inr i) dialect named =
    let later = In-django_qns ts t i dialect named in
    elim (Bool-cases (x.dialect == "django" && not (x.model_qn == ""))) [
      | inl model ↦ rw model (inr later)
      | inr other ↦ rw other later
    ]

pub last_parts-In :
    (qns : List String) (x : String)
    → In x (last_parts qns) ↔ ((qn : String) × In qn qns × (x ≡ last_part qn))
unfolding last_parts
last_parts-In [] x = (λ i. absurd i, λ h. absurd h.1)
last_parts-In (qn ∷ qns) x =
    let rest = last_parts-In qns x in
    (
      λ i. elim i [
        | inl same ↦ (qn, inl refl, same)
        | inr j ↦ let (q, k, same) = rest.0 j in (q, inr k, same)
      ],
      λ (q, at, same). elim at [
        | inl e ↦ inl (same ∙ ap last_part e)
        | inr k ↦ inr (rest.1 (q, k, same))
      ],
    )
