-- ===== src/Orm/Emitted.antt =====
-- Lemmas on the loop of `classify_orm_calls`: which edges it emits.
use twai_swarm.Prelude.{
  ◌≡◌, refl, ap, ◌∙◌, subst, ◌↔◌, ◌⊎◌, inl, inr, String, false, some, List, [], ◌∷◌, arith,
  string_eq, member, member_iff, In, In-append, ok, Outcome-cases, Bool-cases, Option-cases,
}
use twai_swarm.Actions.{
  RepoNode, OrmCallHint, OpKind, CallEdge, TableNode, InheritsEdge, TableAccessEdge,
}
use twai_swarm.Finalize.Lookups.{Context}
use twai_swarm.Orm.Tables.{TableIndex, table_index}
use twai_swarm.Orm.Hints.{Uses, classify_hint, matching_callee}
use twai_swarm.Orm.{
  edge_eq, emit, emit_all, access, hint_uses, classify_hints, classify_orm_calls, none_in,
}

emit-In :
    (e edge : TableAccessEdge) (emitted : List TableAccessEdge)
    → In e (emit edge emitted) ↔ (In e emitted ⊎ (e ≡ edge))
unfolding emit
emit-In e edge emitted =
    let split = In-append e emitted (edge ∷ []) in
    elim (Bool-cases (member edge emitted)) [
      | inl old ↦
          let at = (member_iff edge emitted).0 old in
          rw old (inl, λ h. elim h [ inl i ↦ i | inr same ↦ rw same at ])
      | inr new ↦ rw new (
        λ i. elim (split.0 i) [
          | inl j ↦ inl j
          | inr (inl same) ↦ inr same
          | inr (inr none') ↦ absurd none'
        ],
        λ h. elim h [ inl i ↦ split.1 (inl i) | inr same ↦ split.1 (inr (inl same)) ],
      )
    ]

-- One of the uses of the hint.
abbrev FromUse : RepoNode → OrmCallHint → Uses → TableAccessEdge → Type 0
FromUse repo hint found e = (u : String × OpKind) × In u found × (e ≡ access repo hint u)

emit_all-In :
    (repo : RepoNode) (hint : OrmCallHint) (found : Uses) (emitted : List TableAccessEdge)
    (e : TableAccessEdge)
    → In e (emit_all repo hint found emitted) ↔ (In e emitted ⊎ FromUse repo hint found e)
unfolding emit_all
emit_all-In repo hint [] emitted e = (inl, λ h. elim h [ inl i ↦ i | inr u ↦ absurd u.1 ])
emit_all-In repo hint (u ∷ us) emitted e =
    let rest = emit_all-In repo hint us (emit (access repo hint u) emitted) e in
    let one = emit-In e (access repo hint u) emitted in
    (
      λ i. elim (rest.0 i) [
        | inl j ↦ elim (one.0 j) [ inl k ↦ inl k | inr same ↦ inr (u, inl refl, same) ]
        | inr (v, k, same) ↦ inr (v, inr k, same)
      ],
      λ h. elim h [
        | inl i ↦ rest.1 (inl (one.1 (inl i)))
        | inr (v, inl at, same) ↦ rest.1 (inl (one.1 (inr (same ∙ ap (access repo hint) at))))
        | inr (v, inr k, same) ↦ rest.1 (inr (v, k, same))
      ],
    )

-- The call that the hint belongs to is classified, and the edge is one of its uses.
abbrev pub Classified :
    Context → TableIndex → RepoNode → List CallEdge → OrmCallHint → TableAccessEdge → Type 0
Classified c index repo calls hint e =
    (callee_qn : String) × (matching_callee calls hint ≡ some callee_qn)
    × ((found : Uses) × (classify_hint c index hint callee_qn ≡ ok found)
        × ((u : String × OpKind) × In u found × (e ≡ access repo hint u)))

module _ (c : Context) (index : TableIndex) (repo : RepoNode) (calls : List CallEdge) where
  abbrev FromHints : List OrmCallHint → TableAccessEdge → Type 0
  FromHints hints e = (hint : OrmCallHint) × In hint hints × Classified c index repo calls hint e

  hint_uses_lem :
      (hint : OrmCallHint) (found : Uses) (e : TableAccessEdge)
      → hint_uses c index hint (matching_callee calls hint) ≡ ok found
      → FromUse repo hint found e ↔ Classified c index repo calls hint e
  hint_uses_lem hint found e h = elim (Option-cases (matching_callee calls hint)) [
    | inl missing ↦
        let empty : found ≡ [] = ground (arith, missing, h) in
        (
          λ (u, i, same). absurd (subst (In u) empty i),
          λ (callee_qn, hit, rest). absurd (cc (missing, hit)),
        )
    | inr (callee_qn, hit) ↦
        let returns : classify_hint c index hint callee_qn ≡ ok found = ground (arith, hit, h) in
        (
          λ use'. (callee_qn, hit, (found, returns, use')),
          λ (callee_qn', hit', (found', returns', (u, i, same))).
              let callee : callee_qn' ≡ callee_qn = ground (arith, hit, hit') in
              let equal : found' ≡ found = ground (arith, returns, returns', callee) in
              (u, subst (In u) equal i, same),
        )
  ]

  classify_hints-In :
      (hints : List OrmCallHint) (emitted edges : List TableAccessEdge) (e : TableAccessEdge)
      → classify_hints c index repo calls hints emitted ≡ ok edges
      → In e edges ↔ (In e emitted ⊎ FromHints hints e)
  unfolding classify_hints
  classify_hints-In [] emitted edges e h =
      let same : emitted ≡ edges = ground (arith, h) in
      rw (← same) (inl, λ o. elim o [ inl i ↦ i | inr f ↦ absurd f.1 ])
  classify_hints-In (hint ∷ hints) emitted edges e h =
      elim (Outcome-cases (hint_uses c index hint (matching_callee calls hint))) [
        | inr (error, failed) ↦ absurd (ground (arith, failed, h))
        | inl (found, returns) ↦
            let rest =
              classify_hints-In hints (emit_all repo hint found emitted) edges e
                (ground (arith, returns, h)) in
            let all = emit_all-In repo hint found emitted e in
            let here = hint_uses_lem hint found e returns in
            (
              λ i. elim (rest.0 i) [
                | inr (x, j, k) ↦ inr (x, inr j, k)
                | inl j ↦ elim (all.0 j) [
                  | inl old ↦ inl old
                  | inr u ↦ inr (hint, inl refl, here.0 u)
                ]
              ],
              λ o. elim o [
                | inl old ↦ rest.1 (inl (all.1 (inl old)))
                | inr (x, inr j, k) ↦ rest.1 (inr (x, j, k))
                | inr (x, inl same, k) ↦ rest.1 (
                    inl (
                      all.1 (inr (here.1 (subst (λ y. Classified c index repo calls y e) same k)))))
              ],
            )
      ]

-- Where a table is declared and `classify_orm_calls` returns, it appends an edge exactly if some
-- hint belongs to a call (the first by its function, on its line, that ends in its leaf) and the
-- edge is one of the uses of tables that the classifier finds for that hint and that call.
pub classify_orm_calls_iff :
    (c : Context) (repo : RepoNode) (tables : List TableNode) (inherits : List InheritsEdge)
    (calls : List CallEdge) (hints : List OrmCallHint) (edges : List TableAccessEdge)
    (e : TableAccessEdge)
    → none_in tables ≡ false
    → classify_orm_calls c repo tables inherits calls hints ≡ ok edges
    → In e edges ↔ (
        (hint : OrmCallHint) × In hint hints
        × Classified c (table_index tables inherits) repo calls hint e)
unfolding classify_orm_calls
classify_orm_calls_iff c repo tables inherits calls [] edges e declared h =
    let same : edges ≡ [] = ground (arith, h) in
    (λ i. absurd (subst (In e) same i), λ f. absurd f.1)
classify_orm_calls_iff c repo tables inherits calls (hint ∷ hints) edges e declared h =
    let at =
      classify_hints-In c (table_index tables inherits) repo calls (hint ∷ hints) [] edges e
        (ground (arith, declared, h)) in
    (λ i. elim (at.0 i) [ inl none' ↦ absurd none' | inr f ↦ f ], λ f. at.1 (inr f))
