-- ===== src/Orm/Declared.antt =====
-- Lemmas on the indexes over the tables: the tables that they name are declared.
use twai_swarm.Prelude.{
  ◌≡◌, ◌⊎◌, inl, inr, String, Option, none, some, List, [], ◌∷◌, map, arith, string_eq, ◌==◌, Dict,
  lookup, lookup-insert, lookup-insert_all, insert_all, if◌then◌else◌, last_part, In, In-map, All,
  Bool-cases, Option-cases,
}
use twai_swarm.Actions.{TableNode, InheritsEdge, OpKind}
use twai_swarm.Orm.Tables.{class_entry, set_default, add_bare_names, table_index, table_for_class}
use twai_swarm.Orm.Hints.{Uses, uses}

abbrev pub table_names : List TableNode → List String
table_names tables = map (λ (t : TableNode). t.name) tables

-- All the tables are declared ones, and what is done to them is of a kind.
abbrev pub Declared : List TableNode → (OpKind → Type 0) → Uses → Type 0
Declared tables P found = All (λ (u : String × OpKind). In u.0 (table_names tables) × P u.1) found

add_bare_names-In :
    (tables : List TableNode) (d : Dict String String) (k n : String)
    → lookup k (add_bare_names d tables) ≡ some n
    → (lookup k d ≡ some n) ⊎ In n (table_names tables)
unfolding add_bare_names
add_bare_names-In [] d k n h = inl h
add_bare_names-In (t ∷ ts) d k n h = elim (Bool-cases (t.model_qn == "")) [
  | inl none' ↦ elim (add_bare_names-In ts d k n (ground (arith, none'))) [
    | inl old ↦ inl old
    | inr i ↦ inr (inr i)
  ]
  | inr named ↦
      let bare = last_part t.model_qn in
      elim (add_bare_names-In ts (set_default bare t.name d) k n (ground (arith, named))) [
        | inr i ↦ inr (inr i)
        | inl old ↦ elim (Option-cases (lookup bare d)) [
          | inr (n', taken) ↦ inl (ground (arith, taken))
          | inl free ↦ elim (Bool-cases (bare == k)) [
            | inl same ↦
                let e : n ≡ t.name = ground (arith, free, same, lookup-insert bare k t.name d) in
                inr (inl e)
            | inr other ↦ inl (ground (arith, free, other, lookup-insert bare k t.name d))
          ]
        ]
      ]
]

by_class-In :
    (tables : List TableNode) (k n : String)
    → lookup k (insert_all class_entry [] tables) ≡ some n
    → In n (table_names tables)
unfolding lookup
by_class-In tables k n h = elim (lookup-insert_all class_entry [] tables k n h) [
  | inl old ↦ absurd (cc old)
  | inr (t, i, given) ↦ elim (Bool-cases (t.model_qn == "")) [
    | inl unnamed ↦ absurd (ground (arith, unnamed))
    | inr named ↦
        let e : t.name ≡ n = ground (arith, named) in
        rw (← e) (In-map (λ (x : TableNode). x.name) tables t i)
  ]
]

module _ (tables : List TableNode) (inherits : List InheritsEdge) where
  by_bare-In :
      (k n : String) → lookup k (add_bare_names [] tables) ≡ some n → In n (table_names tables)
  unfolding lookup
  by_bare-In k n h = elim (add_bare_names-In tables [] k n h) [
    | inl old ↦ absurd (cc old)
    | inr i ↦ i
  ]

  by_fallback-In :
      (fallback n : String)
      → (if fallback == "" then none else lookup fallback (add_bare_names [] tables)) ≡ some n
      → In n (table_names tables)
  by_fallback-In fallback n h = elim (Bool-cases (fallback == "")) [
    | inl t ↦ absurd (ground (arith, t))
    | inr t ↦ by_bare-In fallback n (ground (arith, t))
  ]

  table_for_class-In :
      (target : Option String) (fallback n : String)
      → table_for_class (table_index tables inherits) target fallback ≡ some n
      → In n (table_names tables)
  unfolding table_for_class table_index
  table_for_class-In none fallback n h = by_fallback-In fallback n h
  table_for_class-In (some class_qn) fallback n h =
      elim (Option-cases (lookup class_qn (insert_all class_entry [] tables))) [
        | inr (m, hit) ↦
            let e : m ≡ n = ground (arith, hit) in
            by_class-In tables class_qn n (ground (arith, hit, e))
        | inl missing ↦
            elim (Option-cases (lookup (last_part class_qn) (add_bare_names [] tables))) [
              | inr (m, hit) ↦
                  let e : m ≡ n = ground (arith, missing, hit) in
                  by_bare-In (last_part class_qn) n (ground (arith, hit, e))
              | inl missing' ↦ by_fallback-In fallback n (ground (arith, missing, missing'))
            ]
      ]

  uses-Declared :
      (P : OpKind → Type 0) (ops : List OpKind) (n : String)
      → All P ops
      → In n (table_names tables)
      → Declared tables P (uses ops (some n))
  uses-Declared P [] n h i = tt
  uses-Declared P (op ∷ ops) n h i = ((i, h.0), uses-Declared P ops n h.1 i)

  pub table_uses-Declared :
      (P : OpKind → Type 0) (ops : List OpKind) (target : Option String) (fallback : String)
      → All P ops
      → Declared tables P (uses ops (table_for_class (table_index tables inherits) target fallback))
  table_uses-Declared P ops target fallback h =
      elim (Option-cases (table_for_class (table_index tables inherits) target fallback)) [
        | inl missing ↦ rw missing tt
        | inr (n, hit) ↦ rw hit (uses-Declared P ops n h (table_for_class-In target fallback n hit))
      ]
