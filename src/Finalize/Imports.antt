-- ===== src/Finalize/Imports.antt =====
-- finalize.py: the bindings that a file imports, and the closure of modules that import each other.
use twai_swarm.Prelude.{
  String, Bool, ◌&&◌, ◌||◌, not, none, some, List, [], ◌∷◌, ◌++◌, map, string_eq, ◌==◌, Dict,
  lookup, insert, insert_all, append_at, get_or, dedup, split_last_dot, if◌then◌else◌,
}
use twai_swarm.Actions.{ModuleNode, ImportEdge, IndexBatch}

-- `_is_wildcard`
unfoldable pub is_wildcard : ImportEdge → Bool
is_wildcard imp =
    (imp.local_name == "" || imp.local_name == "*")
    && imp.kind == "module"
    && not (imp.target_qn == imp.local_name)

-- For each file: the local names, each with the target and the kind of its import.
abbrev pub ImportsByFile : Type 0
ImportsByFile = Dict String (Dict String (String × String))

-- The loop over the imports, in its two halves: the bindings, and the targets of wildcards.
unfoldable pub add_imports : ImportsByFile → List ImportEdge → ImportsByFile
add_imports by_file [] = by_file
add_imports by_file (imp ∷ imps) =
    let bindings =
      insert imp.local_name (imp.target_qn, imp.kind) (get_or [] (lookup imp.file_path by_file)) in
    if is_wildcard imp || imp.local_name == ""
    then add_imports by_file imps
    else add_imports (insert imp.file_path bindings by_file) imps

unfoldable pub add_wildcards :
    Dict String (List String) → List ImportEdge → Dict String (List String)
add_wildcards by_file [] = by_file
add_wildcards by_file (imp ∷ imps) =
    if is_wildcard imp
    then add_wildcards (append_at imp.file_path imp.target_qn by_file) imps
    else add_wildcards by_file imps

-- The module that holds a symbol: `target_qn.rsplit(".", 1)[0] if "." in target_qn else default`.
abbrev pub owner_or : String → String → String
owner_or default qn = elim (split_last_dot qn) [ none ↦ default | some (owner, _) ↦ owner ]

unfoldable pub target_module : ImportEdge → String
target_module imp =
    if is_wildcard imp
    then imp.target_qn
    else if imp.kind == "symbol"
    then owner_or imp.target_qn imp.target_qn
    else imp.target_qn

unfoldable pub file_modules : List ModuleNode → Dict String String
file_modules modules = insert_all (λ m. some (m.file_path, m.qualified_name)) [] modules

-- The edges of the import graph, from the importing module to the imported one.
unfoldable pub import_edges : Dict String String → List ImportEdge → List (String × String)
import_edges file_to_module [] = []
import_edges file_to_module (imp ∷ imps) =
    let rest = import_edges file_to_module imps in
    elim (lookup imp.file_path file_to_module) [
      | none ↦ rest
      | some src_module ↦
          if target_module imp == "" then rest else (src_module, target_module imp) ∷ rest
    ]

unfoldable pub ends_of : List (String × String) → List String
ends_of [] = []
ends_of ((s, t) ∷ edges) = s ∷ t ∷ ends_of edges

-- The components of a graph, given by its nodes and edges: rustworkx's
-- `strongly_connected_components`. The order within a component is that of Python's set.
abbrev pub Components : Type 0
Components = List String → List (String × String) → List (List String)

unfoldable pub write_members :
    List String → Dict String (List String) → List String → Dict String (List String)
write_members members closure [] = closure
write_members members closure (qn ∷ qns) = write_members members (insert qn members closure) qns

unfoldable pub close_over :
    Dict String (List String) → List (List String) → Dict String (List String)
close_over closure [] = closure
close_over closure (scc ∷ sccs) = close_over (write_members scc closure scc) sccs

-- `_build_reexport_closure`
unfoldable pub build_reexport_closure : Components → IndexBatch → Dict String (List String)
build_reexport_closure components batch =
    let edges = import_edges (file_modules batch.modules) batch.imports in
    let seeds = map (λ m. m.qualified_name) batch.modules in
    close_over [] (components (dedup (seeds ++ ends_of edges)) edges)
