-- ===== src/Processes/Edges.antt =====
-- Lemmas on the edges of the call graph.
use twai_swarm.Prelude.{
  ◌≡◌, ◌≢◌, sym, subst, ◌↔◌, ◌⊎◌, inl, inr, String, Bool, true, false, not, ◌&&◌, List, [], ◌∷◌,
  ◌++◌, arith, string_eq, ◌==◌, In, In-append, Distinct, Distinct-concat, member, member_iff,
  In-dedup, dedup, In-sort_by, sort_by, str_leb, Bool-cases, if◌then◌else◌,
}
use twai_swarm.Processes.{Batch, has_edge, add_calls, build_call_graph}

has_edge_iff :
    (a b : String) (es : List (String × String)) → (has_edge a b es ≡ true) ↔ In (a, b) es
unfolding has_edge
has_edge_iff a b [] = ground arith
has_edge_iff a b ((s, t) ∷ es) =
    ground (arith, has_edge_iff a b es, string_eq.same_iff s a, string_eq.same_iff t b)

-- What the loop makes of one call.
abbrev kept : List String → List (String × String) → String → String → Bool
kept nodes edges a b = member a nodes && member b nodes && not (a == b) && not (has_edge a b edges)

add_calls-step :
    (nodes : List String) (edges : List (String × String)) (a b : String)
    (calls : List (String × String))
    → add_calls nodes edges ((a, b) ∷ calls) ≡ (
        if kept nodes edges a b
        then add_calls nodes (edges ++ (a, b) ∷ []) calls
        else add_calls nodes edges calls)
unfolding add_calls
add_calls-step nodes edges a b calls = ground arith

-- Two different functions of the batch.
abbrev Between : List String → String → String → Type 0
Between nodes a b = In a nodes × In b nodes × (a ≢ b)

kept_iff :
    (nodes : List String) (edges : List (String × String)) (a b : String)
    → (kept nodes edges a b ≡ true) ↔ (Between nodes a b × (¬ In (a, b) edges))
kept_iff nodes edges a b =
    ground (
      arith,
      member_iff a nodes,
      member_iff b nodes,
      string_eq.same_iff a b,
      has_edge_iff a b edges,
    )

-- The edges after the loop: those before, and the calls between different functions.
abbrev Added :
    List String → List (String × String) → List (String × String) → String → String → Type 0
Added nodes edges calls a b = In (a, b) edges ⊎ (In (a, b) calls × Between nodes a b)

module _ (nodes : List String) (c d a b : String) (calls edges : List (String × String)) where
  Added-new :
      Between nodes c d
      → Added nodes (edges ++ (c, d) ∷ []) calls a b ↔ Added nodes edges ((c, d) ∷ calls) a b
  Added-new k =
      let both = In-append (a, b) edges ((c, d) ∷ []) in
      (
        λ x. elim x [
          | inr (j, h) ↦ inr (inr j, h)
          | inl j ↦ elim (both.0 j) [
            | inl e ↦ inl e
            | inr (inl same) ↦
                inr (inl same, subst (λ (p : String × String). Between nodes p.0 p.1) (sym same) k)
            | inr (inr none_left) ↦ absurd none_left
          ]
        ],
        λ x. elim x [
          | inl e ↦ inl (both.1 (inl e))
          | inr (inl same, h) ↦ inl (both.1 (inr (inl same)))
          | inr (inr j, h) ↦ inr (j, h)
        ],
      )

  Added-old :
      kept nodes edges c d ≡ false
      → Added nodes edges calls a b ↔ Added nodes edges ((c, d) ∷ calls) a b
  Added-old f = (
    λ x. elim x [ inl e ↦ inl e | inr (j, h) ↦ inr (inr j, h) ],
    λ x. elim x [
      | inl e ↦ inl e
      | inr (inl same, h) ↦ inl (old same h)
      | inr (inr j, h) ↦ inr (j, h)
    ],
  )
    where
      old : ◌≡◌ {A = String × String} (a, b) (c, d) → Between nodes a b → In (a, b) edges
      old same h = elim (Bool-cases (has_edge a b edges)) [
        | inl t ↦ (has_edge_iff a b edges).0 t
        | inr t ↦ absurd (
            cc (
              f,
              subst (λ (p : String × String). kept nodes edges p.0 p.1 ≡ true) same
                  ((kept_iff nodes edges a b).1 (h, λ i. cc (t, (has_edge_iff a b edges).1 i))),
            ))
      ]

add_calls_iff :
    (nodes : List String) (calls edges : List (String × String)) (a b : String)
    → In (a, b) (add_calls nodes edges calls) ↔ Added nodes edges calls a b
add_calls_iff nodes [] edges a b = unfold add_calls in ground arith
add_calls_iff nodes ((c, d) ∷ calls) edges a b =
    rw (add_calls-step nodes edges c d calls) (elim (Bool-cases (kept nodes edges c d)) [
      | inl t ↦
          let more = add_calls_iff nodes calls (edges ++ (c, d) ∷ []) a b in
          let same = Added-new nodes c d a b calls edges ((kept_iff nodes edges c d).0 t).0 in
          rw t (λ i. same.0 (more.0 i), λ x. more.1 (same.1 x))
      | inr t ↦
          let more = add_calls_iff nodes calls edges a b in
          let same = Added-old nodes c d a b calls edges t in
          rw t (λ i. same.0 (more.0 i), λ x. more.1 (same.1 x))
    ])

add_calls-Distinct :
    (nodes : List String) (calls edges : List (String × String))
    → Distinct edges
    → Distinct (add_calls nodes edges calls)
add_calls-Distinct nodes [] edges h = unfold add_calls in h
add_calls-Distinct nodes ((c, d) ∷ calls) edges h =
    rw (add_calls-step nodes edges c d calls) (elim (Bool-cases (kept nodes edges c d)) [
      | inl t ↦ rw t (
          add_calls-Distinct nodes calls (edges ++ (c, d) ∷ [])
            (Distinct-concat edges (c, d) h (λ i. ground (arith, t, (has_edge_iff c d edges).1 i))))
      | inr t ↦ rw t (add_calls-Distinct nodes calls edges h)
    ])

-- What the call graph of a batch has.
pub record Graphed (b : Batch) : Type 0 where
  pub nodes : (a : String) → In a (build_call_graph b).nodes ↔ In a b.functions
  pub edges :
      (caller callee : String)
      → In (caller, callee) (build_call_graph b).edges ↔ (
          In (caller, callee) b.calls
          × In caller b.functions
          × In callee b.functions
          × (caller ≢ callee))
  pub once : Distinct (build_call_graph b).edges

-- The nodes of the call graph are the functions of the batch. It has an edge if and only if the
-- batch has the call and both its ends, which are different. No edge is listed twice.
pub build_call_graph-Graphed : (b : Batch) → Graphed b
unfolding build_call_graph
build_call_graph-Graphed b = record {
  nodes = node;
  edges = λ caller callee.
      let found = add_calls_iff nodes b.calls [] caller callee in
      (
        λ i. elim (found.0 i) [
          | inl none_yet ↦ absurd none_yet
          | inr (j, h) ↦ (j, (node caller).0 h.0, (node callee).0 h.1, h.2)
        ],
        λ h. found.1 (inr (h.0, ((node caller).1 h.1, (node callee).1 h.2, h.3))),
      );
  once = add_calls-Distinct nodes b.calls [] tt;
}
  where
    nodes : List String
    nodes = sort_by str_leb (dedup b.functions)

    node : (a : String) → In a nodes ↔ In a b.functions
    node a =
        let sorted = In-sort_by str_leb a (dedup b.functions) in
        let once = In-dedup a b.functions in (λ i. once.0 (sorted.0 i), λ i. sorted.1 (once.1 i))
