-- ===== src/Processes/Graph.antt =====
-- The call graph of process_extract.py and its entry points.
use twai_swarm.Prelude.{
  ℕ, String, Bool, false, ◌&&◌, ◌||◌, none, some, List, [], ◌∷◌, ◌++◌, nat_eq, string_eq, ◌==◌, ltb,
  length, member, dedup, sort_by, split_last_dot, str_leb, if◌then◌else◌,
}

-- The edges have no duplicates and no loops.
pub record CallGraph : Type 0 where
  pub nodes : List String
  pub edges : List (String × String)

-- The part of the context that the phase reads: functions, (caller, callee) and (member, community).
pub record Batch : Type 0 where
  pub functions : List String
  pub calls : List (String × String)
  pub member_of : List (String × String)

unfoldable pub short_name : String → String
short_name qn = elim (split_last_dot qn) [ none ↦ qn | some (_, last) ↦ last ]

unfoldable pub has_edge : String → String → List (String × String) → Bool
has_edge a b [] = false
has_edge a b ((s, t) ∷ es) = s == a && t == b || has_edge a b es

-- The loop over the calls.
unfoldable pub add_calls :
    List String → List (String × String) → List (String × String) → List (String × String)
add_calls nodes edges [] = edges
add_calls nodes edges ((caller, callee) ∷ calls) =
    let kept = add_calls nodes (edges ++ (caller, callee) ∷ []) calls in
    let skipped = add_calls nodes edges calls in
    if member caller nodes && member callee nodes
    then if caller == callee
      then skipped
      else if has_edge caller callee edges
      then skipped
      else kept
    else skipped

unfoldable pub build_call_graph : Batch → CallGraph
build_call_graph batch =
    let nodes = sort_by str_leb (dedup batch.functions) in
    record { nodes = nodes; edges = add_calls nodes [] batch.calls }

unfoldable pub targets : String → List (String × String) → List String
targets a [] = []
targets a ((s, t) ∷ es) = let rest = targets a es in if s == a then t ∷ rest else rest

unfoldable pub sources : String → List (String × String) → List String
sources b [] = []
sources b ((s, t) ∷ es) = let rest = sources b es in if t == b then s ∷ rest else rest

unfoldable pub out_degree : CallGraph → String → ℕ
out_degree g a = length (targets a g.edges)

unfoldable pub in_degree : CallGraph → String → ℕ
in_degree g b = length (sources b g.edges)

-- The nodes that call something.
unfoldable pub callers : CallGraph → List String → List String
callers g [] = []
callers g (a ∷ nodes) = let rest = callers g nodes in if out_degree g a == 0 then rest else a ∷ rest

unfoldable pub with_in_degree : CallGraph → ℕ → List String → List String
with_in_degree g d [] = []
with_in_degree g d (a ∷ nodes) =
    let rest = with_in_degree g d nodes in if in_degree g a == d then a ∷ rest else rest

-- `min(d for d, _ in candidates)` of a list that begins with `d`.
unfoldable pub min_in_degree : CallGraph → ℕ → List String → ℕ
min_in_degree g d [] = d
min_in_degree g d (a ∷ nodes) =
    min_in_degree g (if ltb (in_degree g a) d then in_degree g a else d) nodes

-- The fallback where every function has a caller.
unfoldable pub least_called : CallGraph → List String → List String
least_called g [] = []
least_called g (a ∷ rest) = with_in_degree g (min_in_degree g (in_degree g a) rest) (a ∷ rest)

unfoldable pub entry_points : CallGraph → List String
entry_points g =
    let candidates = callers g g.nodes in
    elim (with_in_degree g 0 candidates) [
      | [] ↦ sort_by str_leb (least_called g candidates)
      | e ∷ es ↦ sort_by str_leb (e ∷ es)
    ]
