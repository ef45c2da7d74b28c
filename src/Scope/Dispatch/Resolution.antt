-- ===== src/Scope/Dispatch/Resolution.antt =====
-- Lemmas on `methods_for` and `resolve`, with the cache, and on the builder.
use twai_swarm.Prelude.{
  suc, length, ◌≡◌, refl, ◌⊎◌, inl, inr, String, Option, none, some, List, [], ◌∷◌, arith,
  string_eq, ◌==◌, ==_cases, lookup, lookup-insert, insert, get_or, In, member, NodupKeys,
  insert-NodupKeys, ok, Bool-cases, Option-cases, Dict, split_last_dot,
}
use twai_swarm.Scope.{Declaration}
use twai_swarm.Scope.Dispatch.{
  all_parents, Methods, MethodDispatchIndex, own_methods, compute_merged, merge_fuel, methods_for,
  resolve, add_method, add_methods, build_method_dispatch_index, is_method,
}
use twai_swarm.Scope.Dispatch.Merge.{
  HasDicts, Done, compute_merged-Done, compute_merged-own, compute_merged_uncached, Ancestor,
  itself, through,
}
use twai_swarm.Scope.Dispatch.Ending.{merge_ends}

-- What the cache holds is what the merge of a class gives.
abbrev pub CacheAgrees : MethodDispatchIndex → Type 0
CacheAgrees index =
    (c : String) (m : Methods)
    → lookup c index.merged_cache ≡ some m
    → (v : List String) × (compute_merged (merge_fuel index) index c [] ≡ ok (m, v))

pub record Ready (index : MethodDispatchIndex) : Type 0 where
  pub dicts : HasDicts index
  pub cache : CacheAgrees index

-- The answer for a name: no ancestor of the class defines it (the class itself included), or it is
-- the class's own method, or, where the class has none, the method of an ancestor.
abbrev pub Answer : MethodDispatchIndex → String → String → Option Declaration → Type 0
Answer index c name none =
    (a : String) → Ancestor index a c → lookup name (own_methods index a) ≡ none
Answer index c name (some d) =
    (lookup name (own_methods index c) ≡ some d)
    ⊎ (lookup name (own_methods index c) ≡ none)
      × ((a : String) × Ancestor index a c × (lookup name (own_methods index a) ≡ some d))

module _ (index : MethodDispatchIndex) (dicts : HasDicts index) (c : String) (m : Methods)
    (v : List String) (h : compute_merged (merge_fuel index) index c [] ≡ ok (m, v)) where
  done : Done index c [] m v
  done = compute_merged-Done index dicts (merge_fuel index) c [] m v h

  -- Every ancestor of a class that the walk met was met.
  met : (a x : String) → Ancestor index a x → In x v → In a v
  met a x itself i = i
  met a x (through {p = p} j r) i = elim (done.closed x i) [
    | inl k ↦ absurd k
    | inr f ↦ met a p r (f p j)
  ]

  own_wins :
      (name : String) (d : Declaration)
      → lookup name (own_methods index c) ≡ some d
      → lookup name m ≡ some d
  unfolding merge_fuel member
  own_wins name d own =
      compute_merged-own index dicts (suc (length (all_parents index.parents))) c [] m v name d refl
        h own

  merged-Answer : (name : String) → Answer index c name (lookup name m)
  merged-Answer name = elim (Option-cases (lookup name m)) [
    | inl e ↦ rw e (λ a up. elim (Option-cases (lookup name (own_methods index a))) [
      | inl missing ↦ missing
      | inr (d, own) ↦
          absurd (done.collects a name (met a c up done.marks) (λ i. i) (λ none'. cc) e)
    ])
    | inr (d, e) ↦ rw e (elim (Option-cases (lookup name (own_methods index c))) [
      | inr (d', own) ↦ inl (ground (arith, own_wins name d' own))
      | inl missing ↦ inr (missing, done.sound name d e)
    ])
  ]

-- What a call gives back: the answer for the name, and an index that differs in its cache alone.
pub record Resolved (index : MethodDispatchIndex) (c name : String) : Type 0 where
  pub res : Option Declaration
  pub after : MethodDispatchIndex
  pub returns : resolve index c name ≡ ok (res, after)
  pub answer : Answer index c name res
  pub ready : Ready after
  pub same_methods : after.local_methods ≡ index.local_methods
  pub same_parents : after.parents ≡ index.parents

Ready-insert :
    (index : MethodDispatchIndex) (c : String) (m : Methods) (v : List String)
    → Ready index
    → compute_merged (merge_fuel index) index c [] ≡ ok (m, v)
    → Ready (record index { merged_cache = insert c m index.merged_cache })
unfolding merge_fuel
Ready-insert index c m v r h = record {
  dicts = r.dicts;
  cache = λ d k e.
      rw (compute_merged_uncached (merge_fuel index) index (insert c m index.merged_cache))
        (elim (==_cases c d) [
          | inl (t, same) ↦
              let hit : m ≡ k = ground (arith, lookup-insert c d m index.merged_cache) in
              (v, rw (← same, ← hit) h)
          | inr (t, other) ↦ r.cache d k (ground (arith, lookup-insert c d m index.merged_cache))
        ]);
}

-- From an index whose cache agrees with the merge, `resolve` returns: `none` if neither the class
-- nor an ancestor of it defines the name, the class's own method if it has one, else the method
-- of an ancestor. The index it leaves agrees with the merge again, and has the same methods and
-- parents, so no earlier call changes the answer of a later one.
pub resolve_lem :
    (index : MethodDispatchIndex) (c name : String) → Ready index → Resolved index c name
resolve_lem index c name r = elim (Option-cases (lookup c index.merged_cache)) [
  | inr (m, e) ↦
      let (v, h) = r.cache c m e in
      record {
        res = lookup name m;
        after = index;
        returns = unfold resolve methods_for in ground (arith, e);
        answer = merged-Answer index r.dicts c m v h name;
        ready = r;
        same_methods = refl;
        same_parents = refl;
      }
  | inl e ↦
      let ((m, v), h) = merge_ends index r.dicts c in
      record {
        res = lookup name m;
        after = record index { merged_cache = insert c m index.merged_cache };
        returns = unfold resolve methods_for in ground (arith, e, h);
        answer = merged-Answer index r.dicts c m v h name;
        ready = Ready-insert index c m v r h;
        same_methods = refl;
        same_parents = refl;
      }
]

add_method-dicts :
    (methods : Dict String Methods) (d : Declaration)
    → ((c : String) → NodupKeys (get_or [] (lookup c methods)))
    → (c : String) → NodupKeys (get_or [] (lookup c (add_method methods d)))
unfolding add_method
add_method-dicts methods d h c = elim (Bool-cases (is_method d.kind)) [
  | inr n ↦ rw n (h c)
  | inl t ↦ elim (Option-cases (split_last_dot d.qualified_name)) [
    | inl e ↦ rw (t, e) (h c)
    | inr ((q, b), e) ↦
        rw (t, e, lookup-insert q c (insert d.name d (get_or [] (lookup q methods))) methods)
          (elim (Bool-cases (q == c)) [
            | inl same ↦ rw same (insert-NodupKeys d.name d (get_or [] (lookup q methods)) (h q))
            | inr other ↦ rw other (h c)
          ])
  ]
]

add_methods-dicts :
    (methods : Dict String Methods) (ds : List Declaration)
    → ((c : String) → NodupKeys (get_or [] (lookup c methods)))
    → (c : String) → NodupKeys (get_or [] (lookup c (add_methods methods ds)))
unfolding add_methods
add_methods-dicts methods [] h = h
add_methods-dicts methods (d ∷ ds) h =
    add_methods-dicts (add_method methods d) ds (add_method-dicts methods d h)

-- The index that the builder returns is ready, for all declarations and parent relations.
pub build-Ready :
    (ds : List Declaration) (parents : Dict String (List String))
    → Ready (build_method_dispatch_index ds parents)
unfolding build_method_dispatch_index lookup
build-Ready ds parents = record { dicts = add_methods-dicts [] ds (λ c. tt); cache = λ c m e. cc e }
