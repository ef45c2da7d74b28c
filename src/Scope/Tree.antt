-- ===== src/Scope/Tree.antt =====
-- scope_tree.py: the forest of nested scopes, inferred from the containment of byte ranges.
pub mod Ranges
pub mod Related
pub mod Grouping
pub mod Files
pub mod Links
pub mod Correct
pub mod Walk
use twai_swarm.Prelude.{
  String, Bool, false, ◌&&◌, ◌||◌, not, Option, none, some, List, [], ◌∷◌, ◌++◌, ltb, leb,
  if◌then◌else◌, ◌==◌, nat_eq, string_eq, Dict, lookup, insert, sort_by, Error, unknown_key,
  broken_invariant, Outcome, ok, raised, ◌>>=◌, member, get_or, append_at,
}
use twai_swarm.Scope.{Range, ScopeId, scope_eq}

unfoldable pub ranges_overlap : Range → Range → Bool
ranges_overlap a b =
    if not (a.file_path == b.file_path)
    then false
    else ltb a.start_byte b.end_byte && ltb b.start_byte a.end_byte

unfoldable pub range_strictly_contains : Range → Range → Bool
range_strictly_contains outer inner =
    if not (outer.file_path == inner.file_path)
    then false
    else if outer.start_byte == inner.start_byte && outer.end_byte == inner.end_byte
    then false
    else leb outer.start_byte inner.start_byte && leb inner.end_byte outer.end_byte

unfoldable pub start_is_at_or_before : Range → Range → Bool
start_is_at_or_before a b =
    if not (a.file_path == b.file_path) then false else leb a.start_byte b.start_byte

-- `_parent`, `_children`, `_roots` and `_all`; the set is kept in the order of insertion.
pub record ScopeTree : Type 0 where
  pub parents : Dict ScopeId (Option ScopeId)
  pub children : Dict ScopeId (List ScopeId)
  pub roots : Dict String (List ScopeId)
  pub all : List ScopeId

unfoldable pub empty : ScopeTree
empty = record { parents = []; children = []; roots = []; all = [] }

unfoldable pub parent_of : ScopeTree → ScopeId → Outcome (Option ScopeId)
parent_of t s = if member s t.all then ok (get_or none (lookup s t.parents)) else raised unknown_key

unfoldable pub children_of : ScopeTree → ScopeId → Outcome (List ScopeId)
children_of t s =
    if member s t.all then ok (get_or [] (lookup s t.children)) else raised unknown_key

unfoldable pub contains : ScopeTree → ScopeId → ScopeId → Bool
contains t parent child = range_strictly_contains parent.range child.range

unfoldable pub roots_for : ScopeTree → String → List ScopeId
roots_for t file_path = get_or [] (lookup file_path t.roots)

unfoldable pub all_scopes : ScopeTree → List ScopeId
all_scopes t = t.all

-- The scopes seen, and those of each file, in the order of arrival.
pub record Groups : Type 0 where
  pub seen : List ScopeId
  pub per_file : Dict String (List ScopeId)

unfoldable pub add_scope : Groups → ScopeId → Groups
add_scope g s =
    if member s g.seen
    then g
    else record { seen = g.seen ++ s ∷ []; per_file = append_at s.file_path s g.per_file }

-- The first loop of the builder.
unfoldable pub group_scopes : Groups → List ScopeId → Groups
group_scopes g [] = g
group_scopes g (s ∷ ss) = group_scopes (add_scope g s) ss

-- The order of the key `(start_byte, -end_byte)`.
unfoldable pub outer_first : ScopeId → ScopeId → Bool
outer_first a b =
    ltb a.range.start_byte b.range.start_byte
    || a.range.start_byte == b.range.start_byte && leb b.range.end_byte a.range.end_byte

-- The test on neighbours of the sorted list.
unfoldable pub identical_neighbours : List ScopeId → Bool
identical_neighbours (p ∷ c ∷ rest) =
    p.range.start_byte == c.range.start_byte && p.range.end_byte == c.range.end_byte
    || identical_neighbours (c ∷ rest)
identical_neighbours _ = false

-- The inner `while`: the scopes that stay open, the innermost first.
unfoldable pub pop_closed : List ScopeId → ScopeId → Outcome (List ScopeId)
pop_closed [] s = ok []
pop_closed (top ∷ stack) s =
    let rest = pop_closed stack s in
    if range_strictly_contains top.range s.range
    then ok (top ∷ stack)
    else if ranges_overlap top.range s.range
    then raised broken_invariant
    else rest

-- The new scope hangs under the top of the stack, or is a root of the file.
unfoldable pub place : ScopeTree → String → List ScopeId → ScopeId → ScopeTree
place t file_path [] s = record t {
  parents = insert s none t.parents;
  roots = append_at file_path s t.roots;
}
place t file_path (parent ∷ _) s = record t {
  parents = insert s (some parent) t.parents;
  children = append_at parent s t.children;
}

unfoldable pub walk : ScopeTree → String → List ScopeId → List ScopeId → Outcome ScopeTree
walk t file_path stack [] = ok t
walk t file_path stack (s ∷ ss) = pop_closed stack s >>= λ open_scopes.
    walk (place t file_path open_scopes s) file_path (s ∷ open_scopes) ss

unfoldable pub build_file : ScopeTree → String → List ScopeId → Outcome ScopeTree
build_file t file_path scopes =
    let sorted = sort_by outer_first scopes in
    if identical_neighbours sorted then raised broken_invariant else walk t file_path [] sorted

unfoldable pub build_files : ScopeTree → Dict String (List ScopeId) → Outcome ScopeTree
build_files t [] = ok t
build_files t ((file_path, scopes) ∷ rest) =
    build_file t file_path scopes >>= λ t'. build_files t' rest

unfoldable pub build_scope_tree : List ScopeId → Outcome ScopeTree
build_scope_tree scopes =
    let g = group_scopes (record { seen = []; per_file = [] }) scopes in
    build_files (record empty { all = g.seen }) g.per_file
