-- ===== src/Orm/Ending.antt =====
-- Lemmas on the walk over the ancestors of a class, and on the classification: they end.
use mathlib.Core.List.{reverse}
use twai_swarm.Prelude.{
  ℕ, zero, suc, ◌+◌, ◌≤◌, ◌<◌, ◌≡◌, refl, inl, inr, String, Bool, true, false, ◌||◌, List, [], ◌∷◌,
  ◌++◌, arith, string_eq, Dict, lookup, list_at, member, member_iff, length, length-append,
  length-reverse, last_part, if◌then◌else◌, Outcome, ok, ◌>>=◌, Bool-cases,
}
use twai_swarm.Orm.Tables.{
  TableIndex, is_model_name, walk_ancestors, all_listed, walk_fuel, is_django_model_class,
}

abbrev pub Ends {ℓ} : {A : Type ℓ} → Outcome A → Type ℓ
Ends {A = A} x = (a : A) × (x ≡ ok a)

-- It returns, and what it returns has the property.
abbrev pub Gives : {A : Type 0} → (A → Type 0) → Outcome A → Type 0
Gives {A = A} P x = (a : A) × (x ≡ ok a) × P a

pub ok-Ends : {A : Type 0} → (a : A) → Ends (ok a)
ok-Ends a = (a, refl)

pub if-Ends :
    {A : Type 0} {x y : Outcome A} → (b : Bool) → Ends x → Ends y → Ends (if b then x else y)
if-Ends true ends _ = ends
if-Ends false _ ends = ends

pub bind-Ends :
    {A B : Type 0} {x : Outcome A} {f : A → Outcome B}
    → Ends x
    → ((a : A) → Ends (f a))
    → Ends (x >>= f)
bind-Ends {f = f} (a, e) ends = rw e (ends a)

pub if-Gives :
    {A : Type 0} {P : A → Type 0} {x y : Outcome A}
    → (b : Bool) → Gives P x
    → Gives P y
    → Gives P (if b then x else y)
if-Gives true gives _ = gives
if-Gives false _ gives = gives

pub bind-Gives :
    {A B : Type 0} {P : B → Type 0} {x : Outcome A} {f : A → Outcome B}
    → Ends x
    → ((a : A) → Gives P (f a))
    → Gives P (x >>= f)
bind-Gives (a, e) gives = rw e (gives a)

-- How many parents the classes that are not seen have.
abbrev unseen : List String → Dict String (List String) → ℕ
unseen seen [] = 0
unseen seen ((k, ps) ∷ d) =
    let rest = unseen seen d in if member k seen then rest else length ps + rest

unseen_mono :
    (cur : String) (seen : List String) (d : Dict String (List String))
    → unseen (cur ∷ seen) d ≤ unseen seen d
unseen_mono cur seen [] = omega arith
unseen_mono cur seen ((k, ps) ∷ d) =
    ground (arith, unseen_mono cur seen d, member_iff k seen, member_iff k (cur ∷ seen))

-- A class that is marked takes its parents out of the count.
unseen_mark :
    (cur : String) (seen : List String) (d : Dict String (List String))
    → member cur seen ≡ false
    → unseen (cur ∷ seen) d + length (list_at cur d) ≤ unseen seen d
unfolding lookup
unseen_mark cur seen [] new = omega arith
unseen_mark cur seen ((k, ps) ∷ d) new = ground (
  arith,
  unseen_mark cur seen d new,
  unseen_mono cur seen d,
  member_iff k seen,
  member_iff cur seen,
  member_iff k (cur ∷ seen),
  string_eq.same_iff k cur,
)

unseen-all_listed : (d : Dict String (List String)) → unseen [] d ≤ all_listed d
unfolding member all_listed
unseen-all_listed [] = omega arith
unseen-all_listed ((k, ps) ∷ d) = omega (arith, unseen-all_listed d)

module _ (index : TableIndex) where
  walk_ancestors-Ends :
      (fuel : ℕ) (seen stack : List String)
      → length stack + unseen seen index.raw_parent_relation < fuel
      → Ends (walk_ancestors fuel index seen stack)
  unfolding walk_ancestors
  walk_ancestors-Ends zero seen stack h = absurd (omega arith)
  walk_ancestors-Ends (suc fuel) seen [] h = (false, refl)
  walk_ancestors-Ends (suc fuel) seen (cur ∷ stack) h = elim (Bool-cases (member cur seen)) [
    | inl old ↦
        let (b, e) = walk_ancestors-Ends fuel seen stack (omega arith) in
        (b, ground (arith, old, e))
    | inr new ↦
        let parents = list_at cur index.raw_parent_relation in
        let (b, e) = walk_ancestors-Ends fuel (cur ∷ seen) (reverse parents ++ stack) (
          omega (
            arith,
            length-append (reverse parents) stack,
            length-reverse parents,
            unseen_mark cur seen index.raw_parent_relation new,
          )) in
        elim (Bool-cases (is_model_name index cur)) [
          | inl yes' ↦ (true, ground (arith, new, yes'))
          | inr no' ↦ (b, ground (arith, new, no', e))
        ]
  ]

  pub is_django_model_class-Ends : (class_qn : String) → Ends (is_django_model_class index class_qn)
  unfolding is_django_model_class walk_fuel
  is_django_model_class-Ends class_qn =
      let (b, e) =
        walk_ancestors-Ends (suc (suc (all_listed index.raw_parent_relation))) [] (class_qn ∷ [])
          (omega (arith, unseen-all_listed index.raw_parent_relation)) in
      elim (Bool-cases (
        member class_qn index.django_model_qns
        || member (last_part class_qn) index.django_model_bare_names)) [
          | inl known ↦ (true, ground (arith, known))
          | inr unknown ↦ (b, ground (arith, unknown, e))
        ]
