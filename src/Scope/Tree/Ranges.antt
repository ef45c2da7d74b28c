-- ===== src/Scope/Tree/Ranges.antt =====
-- What the tests on byte ranges decide, and how containment orders the scopes.
use twai_swarm.Prelude.{◌≤◌, ◌<◌, ◌≡◌, ◌∙◌, ◌↔◌, ◌⊎◌, true, false, arith, string_eq}
use twai_swarm.Scope.{Range, ScopeId}
use twai_swarm.Scope.Tree.{ranges_overlap, range_strictly_contains, outer_first}

-- `outer` holds all of `inner` and is wider on at least one side.
pub record Holds (outer inner : Range) : Type 0 where
  pub file : outer.file_path ≡ inner.file_path
  pub starts : outer.start_byte ≤ inner.start_byte
  pub ends : inner.end_byte ≤ outer.end_byte
  pub wider : (outer.start_byte < inner.start_byte) ⊎ (inner.end_byte < outer.end_byte)

abbrev pub IsNonempty : Range → Type 0
IsNonempty r = r.start_byte < r.end_byte

module _ (a b : Range) where
  pub contains_iff : (range_strictly_contains a b ≡ true) ↔ Holds a b
  unfolding range_strictly_contains
  contains_iff = (
    λ h. record {
      file = ground (arith, string_eq.same_iff a.file_path b.file_path);
      starts = ground arith;
      ends = ground arith;
      wider = ground arith;
    },
    λ h. ground (arith, string_eq.same_iff a.file_path b.file_path),
  )

  pub overlap_iff :
      (ranges_overlap a b ≡ true)
      ↔ ((a.file_path ≡ b.file_path) × (a.start_byte < b.end_byte) × (b.start_byte < a.end_byte))
  unfolding ranges_overlap
  overlap_iff = ground (arith, string_eq.same_iff a.file_path b.file_path)

pub Holds-trans : {a b c : Range} → Holds a b → Holds b c → Holds a c
Holds-trans h k = record {
  file = h.file ∙ k.file;
  starts = omega arith;
  ends = omega arith;
  wider = omega arith;
}

pub Holds-irrefl : (a : Range) → ¬ Holds a a
Holds-irrefl a h = omega (arith, h.wider)

pub Holds-asymm : {a b : Range} → Holds a b → ¬ Holds b a
Holds-asymm h k = omega (arith, h.wider)

pub outer_first_total : (a b : ScopeId) → outer_first a b ≡ false → outer_first b a ≡ true
unfolding outer_first
outer_first_total a b h = ground arith

pub outer_first_trans :
    (a b c : ScopeId) → outer_first a b ≡ true → outer_first b c ≡ true → outer_first a c ≡ true
unfolding outer_first
outer_first_trans a b c h k = ground arith

-- Of two scopes in the order of the builder, the second holds the first only if they are one range.
pub outer_first-starts :
    (a b : ScopeId) → outer_first a b ≡ true → a.range.start_byte ≤ b.range.start_byte
unfolding outer_first
outer_first-starts a b h = ground arith

pub outer_first-not_Holds : (a b : ScopeId) → outer_first a b ≡ true → ¬ Holds b.range a.range
unfolding outer_first
outer_first-not_Holds a b h k = ground arith
