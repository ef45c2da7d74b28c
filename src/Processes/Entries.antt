-- ===== src/Processes/Entries.antt =====
-- Lemmas on _entry_points.
use twai_swarm.Prelude.{
  ℕ, ◌≤◌, ◌<◌, ◌≡◌, refl, sym, ◌∙◌, subst, ◌↔◌, ◌⊎◌, inl, inr, String, List, [], ◌∷◌, arith, nat_eq,
  ◌==◌, ltb, In, In-sort_by, str_leb, Bool-cases, if◌then◌else◌, sort_by,
}
use twai_swarm.Processes.{
  CallGraph, out_degree, in_degree, callers, with_in_degree, min_in_degree, least_called,
  entry_points,
}

module _ (g : CallGraph) where
  In-callers :
      (a : String) (nodes : List String)
      → In a (callers g nodes) ↔ (In a nodes × (0 < out_degree g a))
  unfolding callers
  In-callers a [] = ground arith
  In-callers a (b ∷ nodes) = elim (Bool-cases (out_degree g b == 0)) [
    | inl t ↦ rw t (ground (arith, In-callers a nodes, t))
    | inr t ↦ rw t (ground (arith, In-callers a nodes, t))
  ]

  In-with_in_degree :
      (a : String) (d : ℕ) (nodes : List String)
      → In a (with_in_degree g d nodes) ↔ (In a nodes × (in_degree g a ≡ d))
  unfolding with_in_degree
  In-with_in_degree a d [] = ground arith
  In-with_in_degree a d (b ∷ nodes) = elim (Bool-cases (in_degree g b == d)) [
    | inl t ↦ rw t (ground (arith, In-with_in_degree a d nodes, t))
    | inr t ↦ rw t (ground (arith, In-with_in_degree a d nodes, t))
  ]

  -- The least in-degree of `a` and the nodes.
  record Least (d : ℕ) (nodes : List String) (m : ℕ) : Type 0 where
    below_start : m ≤ d
    below : (b : String) → In b nodes → m ≤ in_degree g b
    met : (m ≡ d) ⊎ ((b : String) × In b nodes × (in_degree g b ≡ m))

  smaller : String → ℕ → ℕ
  smaller a d = if ltb (in_degree g a) d then in_degree g a else d

  smaller-cases :
      (a : String) (d : ℕ)
      → (smaller a d ≤ d)
        × (smaller a d ≤ in_degree g a)
        × ((smaller a d ≡ d) ⊎ (smaller a d ≡ in_degree g a))
  unfolding smaller
  smaller-cases a d = ground arith

  min_in_degree-Least : (d : ℕ) (nodes : List String) → Least d nodes (min_in_degree g d nodes)
  unfolding min_in_degree smaller
  min_in_degree-Least d [] = record {
    below_start = omega arith;
    below = λ b i. absurd i;
    met = inl refl;
  }
  min_in_degree-Least d (a ∷ nodes) =
      let l = min_in_degree-Least (smaller a d) nodes in
      let (p, q, r) = smaller-cases a d in
      record {
        below_start = omega (arith, l.below_start, p);
        below =
            λ b i. elim i [ inl e ↦ rw e (omega (arith, l.below_start, q)) | inr j ↦ l.below b j ];
        met = elim l.met [
          | inr (b, i, e) ↦ inr (b, inr i, e)
          | inl e ↦ elim r [ inl s ↦ inl (e ∙ s) | inr s ↦ inr (a, inl refl, sym (e ∙ s)) ]
        ];
      }

  -- `e` is one of the nodes, and none of them is called less.
  abbrev IsLeast : List String → String → Type 0
  IsLeast nodes e = In e nodes × ((f : String) → In f nodes → in_degree g e ≤ in_degree g f)

  In-least_called :
      (e : String) (nodes : List String) → In e (least_called g nodes) ↔ IsLeast nodes e
  unfolding least_called
  In-least_called e [] = (λ i. absurd i, λ h. absurd h.0)
  In-least_called e (a ∷ rest) =
      let m : ℕ = min_in_degree g (in_degree g a) rest in
      let l = min_in_degree-Least (in_degree g a) rest in
      let found = In-with_in_degree e m (a ∷ rest) in
      (
        λ i.
            let (j, d) = found.0 i in
            (
              j,
              λ f k. elim k [
                | inl same ↦ rw same (omega (arith, d, l.below_start))
                | inr k ↦ omega (arith, d, l.below f k)
              ],
            ),
        λ h. found.1 (
          h.0,
          elim l.met [
            | inl same ↦ omega (arith, same, h.1 a (inl refl), lower h.0)
            | inr (b, k, same) ↦ omega (arith, same, h.1 b (inr k), lower h.0)
          ],
        ),
      )
    where
      lower : In e (a ∷ rest) → min_in_degree g (in_degree g a) rest ≤ in_degree g e
      lower (inl same) = rw same (min_in_degree-Least (in_degree g a) rest).below_start
      lower (inr k) = (min_in_degree-Least (in_degree g a) rest).below e k

abbrev CalledLeast : CallGraph → String → Type 0
CalledLeast g e =
    In e g.nodes
    × (0 < out_degree g e)
    × ((f : String) → In f g.nodes → 0 < out_degree g f → in_degree g e ≤ in_degree g f)

IsLeast-CalledLeast :
    (g : CallGraph) (e : String) → IsLeast g (callers g g.nodes) e ↔ CalledLeast g e
IsLeast-CalledLeast g e = (
  λ h.
      let (i, n) = (In-callers g e g.nodes).0 h.0 in
      (i, n, λ f j m. h.1 f ((In-callers g f g.nodes).1 (j, m))),
  λ h. (
    (In-callers g e g.nodes).1 (h.0, h.1),
    λ f j. let (k, m) = (In-callers g f g.nodes).0 j in h.2 f k m,
  ),
)

-- The entry points are the functions that call another one and that, of all functions that do, are
-- called by the fewest: those that nothing calls, if there are any.
pub entry_points_iff :
    (g : CallGraph) (e : String)
    → In e (entry_points g) ↔ (
        In e g.nodes
        × (0 < out_degree g e)
        × ((f : String) → In f g.nodes → 0 < out_degree g f → in_degree g e ≤ in_degree g f))
unfolding entry_points
entry_points_iff g e = go (with_in_degree g 0 (callers g g.nodes)) refl
  where
    go :
        (ws : List String)
        → with_in_degree g 0 (callers g g.nodes) ≡ ws
        → In e (elim ws [
          | [] ↦ sort_by str_leb (least_called g (callers g g.nodes))
          | w ∷ rest ↦ sort_by str_leb (w ∷ rest)
        ])
          ↔ CalledLeast g e
    go [] eq =
        let sorted = In-sort_by str_leb e (least_called g (callers g g.nodes)) in
        let least = In-least_called g e (callers g g.nodes) in
        let called = IsLeast-CalledLeast g e in
        (λ i. called.0 (least.0 (sorted.0 i)), λ h. sorted.1 (least.1 (called.1 h)))
    go (w ∷ rest) eq =
        let sorted = In-sort_by str_leb e (w ∷ rest) in
        let called = IsLeast-CalledLeast g e in
        (
          λ i. let (j, d) = uncalled e (sorted.0 i) in called.0 (j, λ f k. omega (arith, d)),
          λ h.
              let (j, least) = called.1 h in
              let (k, d) = uncalled w (inl refl) in
              sorted.1 (
                subst (In e) eq (
                  (In-with_in_degree g e 0 (callers g g.nodes)).1
                    (j, omega (arith, d, least w k)))),
        )
      where
        uncalled : (f : String) → In f (w ∷ rest) → In f (callers g g.nodes) × (in_degree g f ≡ 0)
        uncalled f i = (In-with_in_degree g f 0 (callers g g.nodes)).0 (subst (In f) (sym eq) i)
