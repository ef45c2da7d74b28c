-- ===== src/Finalize/Unique.antt =====
-- Lemmas on the QualifiedNameIndex and its builder.
use twai_swarm.Prelude.{
  suc, ◌+◌, length, ◌≡◌, ◌≢◌, refl, sym, subst, ◌↔◌, inl, inr, String, true, none, some, List, [],
  ◌∷◌, map, arith, string_eq, Dict, lookup, lookup-insert, insert, In, In-map, In_of_map, Distinct,
  ok, >>=-eq-ok, Option-cases,
}
use twai_swarm.Scope.{Declaration}
use twai_swarm.Finalize.Names.{
  QualifiedNameIndex, declaration_of, has_name, name_count, add_declarations,
  build_qualified_name_index,
}
use twai_swarm.Finalize.Indexed.{Added, Added-cons}

abbrev pub names_of : List Declaration → List String
names_of ds = map (λ (d : Declaration). d.qualified_name) ds

-- None of the declarations has a name that the index holds.
abbrev Fresh : Dict String Declaration → List Declaration → Type 0
Fresh before ds = (d : Declaration) → In d ds → lookup d.qualified_name before ≡ none

add_declarations-ok :
    (before : Dict String Declaration) (ds : List Declaration)
    → Fresh before ds
    → Distinct (names_of ds)
    → (after : Dict String Declaration) × (add_declarations before ds ≡ ok after)
      × Added before ds after
unfolding add_declarations
add_declarations-ok before [] fresh distinct =
    (before, refl, record { keeps = λ qn d e. e; finds = λ d i. absurd i; sound = λ qn d e. inl e })
add_declarations-ok before (d ∷ ds) fresh distinct =
    let new = fresh d (inl refl) in
    let (after, returns, added) =
      add_declarations-ok (insert d.qualified_name d before) ds
        (λ e i. ground (
          arith,
          fresh e (inr i),
          lookup-insert d.qualified_name e.qualified_name d before,
          string_eq.same_iff d.qualified_name e.qualified_name,
          λ (same : d.qualified_name ≡ e.qualified_name). distinct.0 (
              subst (λ x. In x (names_of ds)) (sym same)
                (In-map (λ (x : Declaration). x.qualified_name) ds e i)),
        ))
        distinct.1 in
    (after, ground (arith, new, returns), Added-cons before d ds after new added)

add_declarations-Distinct :
    (before : Dict String Declaration) (ds : List Declaration) (after : Dict String Declaration)
    → add_declarations before ds ≡ ok after
    → Distinct (names_of ds) × Fresh before ds
unfolding add_declarations
add_declarations-Distinct before [] after h = (tt, λ d i. absurd i)
add_declarations-Distinct before (d ∷ ds) after h =
    elim (Option-cases (lookup d.qualified_name before)) [
      | inr (old, e) ↦ absurd (ground (arith, e))
      | inl new ↦
          let (distinct, fresh) =
            add_declarations-Distinct (insert d.qualified_name d before) ds after
              (ground (arith, new)) in
          let later : (e : Declaration)
              → In e ds
              → (lookup e.qualified_name before ≡ none) × (d.qualified_name ≢ e.qualified_name) =
            λ e i. ground (
              arith,
              fresh e i,
              lookup-insert d.qualified_name e.qualified_name d before,
              string_eq.same_iff d.qualified_name e.qualified_name,
            ) in
          (
            (
              λ i.
                  let (e, j, same) =
                    In_of_map (λ (x : Declaration). x.qualified_name) ds d.qualified_name i in
                  (later e j).1 same,
              distinct,
            ),
            λ e i. elim i [
              | inl same ↦
                  subst (λ (x : Declaration). lookup x.qualified_name before ≡ none) (sym same) new
              | inr j ↦ (later e j).0
            ],
          )
    ]

length-insert :
    (k : String) (d : Declaration) (by_qn : Dict String Declaration)
    → lookup k by_qn ≡ none
    → length (insert k d by_qn) ≡ suc (length by_qn)
unfolding lookup insert
length-insert k d [] h = refl
length-insert k d ((j, e) ∷ by_qn) h = ground (arith, length-insert k d by_qn)

length-add_declarations :
    (before : Dict String Declaration) (ds : List Declaration) (after : Dict String Declaration)
    → add_declarations before ds ≡ ok after
    → length after ≡ length before + length ds
unfolding add_declarations
length-add_declarations before [] after h =
    let same : before ≡ after = ground arith in rw (← same) (omega arith)
length-add_declarations before (d ∷ ds) after h =
    elim (Option-cases (lookup d.qualified_name before)) [
      | inr (old, e) ↦ absurd (ground (arith, e))
      | inl new ↦
          let longer = length-insert d.qualified_name d before new in
          let rest =
            length-add_declarations (insert d.qualified_name d before) ds after
              (ground (arith, new)) in
          omega (arith, longer, rest)
    ]

-- What an index of names is to its clients: a map from each name to its declaration, as large as
-- the list.
pub record Refines (ds : List Declaration) (index : QualifiedNameIndex) : Type 0 where
  pub answers :
      (qn : String) (d : Declaration)
      → (declaration_of index qn ≡ some d) ↔ (In d ds × (d.qualified_name ≡ qn))
  pub contains : (qn : String) → (has_name index qn ≡ true) ↔ In qn (names_of ds)
  pub size : name_count index ≡ length ds

has_name-In :
    (ds : List Declaration) (index : QualifiedNameIndex)
    → ((qn : String) (d : Declaration)
        → (declaration_of index qn ≡ some d) ↔ (In d ds × (d.qualified_name ≡ qn)))
    → (qn : String) → (has_name index qn ≡ true) ↔ In qn (names_of ds)
unfolding has_name declaration_of
has_name-In ds index answers qn = (
  λ h. elim (Option-cases (lookup qn index.by_qn)) [
    | inl missing ↦ absurd (ground (arith, missing))
    | inr (d, found) ↦
        let (i, same) = (answers qn d).0 found in
        subst (λ (x : String). In x (names_of ds)) same
          (In-map (λ (x : Declaration). x.qualified_name) ds d i)
  ],
  λ i.
      let (d, j, same) = In_of_map (λ (x : Declaration). x.qualified_name) ds qn i in
      ground (arith, (answers qn d).1 (j, sym same)),
)

-- The builder returns exactly if no two declarations share a name. The index it returns is then the
-- map that the list stands for: `lookup` of a name gives a declaration exactly if the list has that
-- declaration and it has that name; it knows a name exactly if one of the list has it; and it has as
-- many entries as the list.
pub build_qualified_name_index-Refines :
    (ds : List Declaration)
    → (((index : QualifiedNameIndex) × (build_qualified_name_index ds ≡ ok index))
        ↔ Distinct (names_of ds))
      × ((index : QualifiedNameIndex) → build_qualified_name_index ds ≡ ok index → Refines ds index)
unfolding build_qualified_name_index declaration_of name_count lookup
build_qualified_name_index-Refines ds = (
  (
    λ (index, h).
        let (by_qn, built, last) = >>=-eq-ok (add_declarations [] ds) _ h in
        (add_declarations-Distinct [] ds by_qn built).0,
    λ distinct.
        let (by_qn, built, added) = add_declarations-ok [] ds (λ d i. refl) distinct in
        (record { by_qn = by_qn }, ground (arith, built)),
  ),
  λ index h.
      let (by_qn, built, last) = >>=-eq-ok (add_declarations [] ds) _ h in
      let (distinct, fresh) = add_declarations-Distinct [] ds by_qn built in
      let (again, rebuilt, added) = add_declarations-ok [] ds fresh distinct in
      let same : again ≡ index.by_qn = ground (arith, built, rebuilt) in
      let answers : (qn : String) (d : Declaration)
          → (declaration_of index qn ≡ some d) ↔ (In d ds × (d.qualified_name ≡ qn)) =
        λ qn d.
          subst
            (λ (m : Dict String Declaration).
              (lookup qn m ≡ some d) ↔ (In d ds × (d.qualified_name ≡ qn)))
            same
            (
              λ found. elim (added.sound qn d found) [ inl old ↦ cc old | inr (i, e) ↦ (i, e) ],
              λ (i, e). subst (λ (x : String). lookup x again ≡ some d) e (added.finds d i),
            ) in
      let size : length again ≡ length ds =
        omega (arith, length-add_declarations [] ds again rebuilt) in
      record {
        answers = answers;
        contains = has_name-In ds index answers;
        size = subst (λ (m : Dict String Declaration). length m ≡ length ds) same size;
      },
)
