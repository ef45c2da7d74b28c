-- ===== src/Processes.antt =====
-- app/repo_indexer/phases/process_extract.py: the chains of calls that cross communities.
-- A node of the call graph is the qualified name of its function, in place of an index.
pub mod Graph
pub mod Edges
pub mod Chains
pub mod Entries
pub mod Order
pub mod Emitted
mod Examples
unfoldable pub use Graph.*
use mathlib.Core.List.{reverse}
use twai_swarm.Prelude.{
  ℕ, zero, suc, ◌+◌, ◌-◌, ◌*◌, String, Bool, true, false, not, ◌&&◌, ◌||◌, Option, none, some, List,
  [], ◌∷◌, ◌++◌, map, nat_eq, string_eq, HasEq, ◌==◌, ◌≡◌, ◌↔◌, arith, ltb, leb, length, take,
  get_or, Dict, lookup, insert, member, dedup, sort_by, split_last_dot, str_leb, if◌then◌else◌,
  is_some,
}

abbrev pub max_depth : ℕ
max_depth = 8

abbrev pub max_processes : ℕ
max_processes = 50

abbrev pub summary_max_steps : ℕ
summary_max_steps = 6

abbrev pub orphan_label : String
orphan_label = "<orphan>"

-- From caller to callee.
abbrev pub Chain : Type 0
Chain = List String

unfoldable pub successors : CallGraph → String → List String
successors g a = sort_by str_leb (targets a g.edges)

-- The `for` over the successors, with the recursive call passed in. `path` has the latest first.
unfoldable pub for_each :
    (String → List String → List String → List Chain)
    → List String
    → List String
    → List String
    → List Chain
for_each dfs path visited [] = []
for_each dfs path visited (nxt ∷ succs) =
    let deeper = dfs nxt (nxt ∷ path) (nxt ∷ visited) in
    let rest = for_each dfs path visited succs in
    if member nxt visited then rest else deeper ++ rest

-- The inner `dfs`. `left` is how much longer the path may get.
unfoldable pub dfs : ℕ → CallGraph → String → List String → List String → List Chain
dfs zero g node path visited = reverse path ∷ []
dfs (suc left) g node path visited =
    let deeper = for_each (dfs left g) path visited (successors g node) in
    if leb 2 (length path) then reverse path ∷ deeper else deeper

unfoldable pub chains_from : CallGraph → List String → List Chain
chains_from g [] = []
chains_from g (e ∷ es) = dfs (max_depth - 1) g e (e ∷ []) (e ∷ []) ++ chains_from g es

-- The order and the equality of tuples of texts.
abbrev pub chain_leb : Chain → Chain → Bool
chain_leb [] d = true
chain_leb (x ∷ c) [] = false
chain_leb (x ∷ c) (y ∷ d) = let rest = chain_leb c d in if x == y then rest else str_leb x y

abbrev pub chain_same : Chain → Chain → Bool
chain_same [] [] = true
chain_same (x ∷ c) (y ∷ d) = x == y && chain_same c d
chain_same _ _ = false

pub chain_same_iff : (c d : Chain) → (chain_same c d ≡ true) ↔ (c ≡ d)
chain_same_iff [] [] = ground arith
chain_same_iff [] (y ∷ d) = ground arith
chain_same_iff (x ∷ c) [] = ground arith
chain_same_iff (x ∷ c) (y ∷ d) = ground (arith, chain_same_iff c d, string_eq.same_iff x y)

instance abbrev pub chain_eq : HasEq Chain
chain_eq = record { same = chain_same; same_iff = chain_same_iff }

-- `sorted(chains)` of the set.
unfoldable pub enumerate_chains : CallGraph → List String → List Chain
enumerate_chains g entries = sort_by chain_leb (dedup (chains_from g entries))

unfoldable pub community_lookup : Dict String String → List (String × String) → Dict String String
community_lookup out [] = out
community_lookup out ((member_qn, label) ∷ rest) =
    community_lookup (insert member_qn label out) rest

-- The labels of the functions that have one.
unfoldable pub labels_of : Dict String String → Chain → List String
labels_of member_of [] = []
labels_of member_of (qn ∷ chain) =
    let label = get_or orphan_label (lookup qn member_of) in
    let rest = labels_of member_of chain in if label == orphan_label then rest else label ∷ rest

-- `max(0, distinct - 1)`
unfoldable pub crossings : Dict String String → Chain → ℕ
crossings member_of chain = length (dedup (labels_of member_of chain)) - 1

-- The first part of the triple of `_score_chain`.
unfoldable pub score_chain : Dict String String → Chain → ℕ
score_chain member_of chain = length chain * crossings member_of chain

abbrev pub last_or : String → Chain → String
last_or x [] = x
last_or x (y ∷ rest) = last_or y rest

-- "first -> last"; a chain is not empty.
abbrev pub format_name : Chain → String × String
format_name [] = ("", "")
format_name (x ∷ rest) = (short_name x, short_name (last_or x rest))

-- The short names in the summary, and whether it ends in dots.
unfoldable pub format_summary : Chain → List String × Bool
format_summary chain =
    let short_names = map short_name chain in
    (take summary_max_steps short_names, not (leb (length short_names) summary_max_steps))

-- The name of a process is its base name and the number behind the "#", from 1, which is not shown.
abbrev pub ProcessName : Type 0
ProcessName = (String × String) × ℕ

pub record ProcessNode : Type 0 where
  pub name : ProcessName
  pub summary : List String × Bool
  pub chain : Chain

pub record StepEdge : Type 0 where
  pub process_name : ProcessName
  pub member_qn : String
  pub step : ℕ

unfoldable pub scored : Dict String String → List Chain → List Chain
scored member_of [] = []
scored member_of (c ∷ cs) =
    let rest = scored member_of cs in if ltb 0 (score_chain member_of c) then c ∷ rest else rest

-- The key `(-score, chain)`.
unfoldable pub higher_score : Dict String String → Chain → Chain → Bool
higher_score member_of c d =
    ltb (score_chain member_of d) (score_chain member_of c)
    || score_chain member_of c == score_chain member_of d && chain_leb c d

abbrev pub pair_same : String × String → String × String → Bool
pair_same (a, b) (c, d) = a == c && b == d

pub pair_same_iff : (p q : String × String) → (pair_same p q ≡ true) ↔ (p ≡ q)
pair_same_iff (a, b) (c, d) = ground (arith, string_eq.same_iff a c, string_eq.same_iff b d)

instance abbrev pub pair_eq : HasEq (String × String)
pair_eq = record { same = pair_same; same_iff = pair_same_iff }

-- The loop over the best chains. `used_names` counts how often a base name came before.
unfoldable pub name_processes : Dict (String × String) ℕ → List Chain → List ProcessNode
name_processes used_names [] = []
name_processes used_names (c ∷ cs) =
    let count = suc (get_or 0 (lookup (format_name c) used_names)) in
    record { name = (format_name c, count); summary = format_summary c; chain = c }
    ∷ name_processes (insert (format_name c) count used_names) cs

-- `enumerate(chain)`
unfoldable pub steps_of : ProcessName → ℕ → Chain → List StepEdge
steps_of name i [] = []
steps_of name i (qn ∷ chain) =
    record { process_name = name; member_qn = qn; step = i } ∷ steps_of name (suc i) chain

unfoldable pub steps_of_all : List ProcessNode → List StepEdge
steps_of_all [] = []
steps_of_all (p ∷ ps) = steps_of p.name 0 p.chain ++ steps_of_all ps

abbrev pub is_nil {ℓ} : {A : Type ℓ} → List A → Bool
is_nil [] = true
is_nil (_ ∷ _) = false

-- The processes that the phase appends; the early returns append none.
unfoldable pub extract : Batch → List ProcessNode
extract batch =
    let g = build_call_graph batch in
    let member_of = community_lookup [] batch.member_of in
    let chains = scored member_of (enumerate_chains g (entry_points g)) in
    if is_nil batch.functions || is_nil batch.member_of
    then []
    else if is_nil (entry_points g)
    then []
    else name_processes [] (take max_processes (sort_by (higher_score member_of) chains))

-- `ProcessExtractPhase.run`
unfoldable pub run_extract : Batch → List ProcessNode × List StepEdge
run_extract batch = (extract batch, steps_of_all (extract batch))
