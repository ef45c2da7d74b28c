-- ===== src/Processes/Examples.antt =====
-- A small call graph in two communities, and the theorems about processes at it.
use twai_swarm.Prelude.{◌≤◌, ◌<◌, ◌↔◌, String, [], ◌∷◌, In}
use twai_swarm.Processes.{
  Batch, CallGraph, Chain, entry_points, enumerate_chains, out_degree, in_degree, extract,
}
use twai_swarm.Processes.Edges.{Graphed, build_call_graph-Graphed}
use twai_swarm.Processes.Chains.{Flow, enumerate_chains_iff}
use twai_swarm.Processes.Entries.{entry_points_iff}
use twai_swarm.Processes.Emitted.{Extracted, extract-Extracted}

abbrev batch : Batch
batch = record {
  functions = "app.run" ∷ "app.step" ∷ "db.save" ∷ [];
  calls = ("app.run", "app.step") ∷ ("app.step", "db.save") ∷ ("app.step", "app.step") ∷ [];
  member_of = ("app.run", "app") ∷ ("app.step", "app") ∷ ("db.save", "db") ∷ [];
}

abbrev graph : CallGraph
graph = record {
  nodes = "app.run" ∷ "app.step" ∷ "db.save" ∷ [];
  edges = ("app.run", "app.step") ∷ ("app.step", "db.save") ∷ [];
}

abbrev whole : Chain
whole = "app.run" ∷ "app.step" ∷ "db.save" ∷ []

enumerate_chains_iff_example :
    In whole (enumerate_chains graph ("app.run" ∷ []))
    ↔ ((e : String) × In e ("app.run" ∷ []) × Flow graph e whole)
enumerate_chains_iff_example = enumerate_chains_iff graph ("app.run" ∷ []) whole

entry_points_iff_example : In "app.run" (entry_points graph) ↔ (
    In "app.run" graph.nodes
    × (0 < out_degree graph "app.run")
    × ((f : String)
        → In f graph.nodes
        → 0 < out_degree graph f
        → in_degree graph "app.run" ≤ in_degree graph f))
entry_points_iff_example = entry_points_iff graph "app.run"

extract-Extracted_example : Extracted batch (extract batch)
extract-Extracted_example = extract-Extracted batch

build_call_graph-Graphed_example : Graphed batch
build_call_graph-Graphed_example = build_call_graph-Graphed batch
