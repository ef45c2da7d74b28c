-- ===== src/Routing/Routes.antt =====
-- Lemmas on the routing table.
use twai_swarm.Prelude.{
  ℕ, ◌≤◌, ◌<◌, ◌≡◌, refl, inl, inr, Bool, true, false, some, arith, lookup, leb, Bool-cases, ok,
  raised, if◌then◌else◌, string_eq,
}
use twai_swarm.Routing.{
  default_for, openai, fast, Role, ba, architect, se, estimator, reviewer, researcher, documenter,
  coder, ModelSpec, models, RouteDecision, role_defaults, decide, route,
}

-- A decision that stands in the catalogue and costs at least what the role's default costs.
pub record Routed (role : Role) (complexity_hint : ℕ) : Type 0 where
  pub decision : RouteDecision
  pub default : ModelSpec
  pub returns : route role complexity_hint ≡ ok decision
  pub listed : lookup decision.key models ≡ some decision.spec
  pub has_default : lookup (role_defaults role) models ≡ some default
  pub simple : complexity_hint < 3 → decision.key ≡ role_defaults role
  pub input_price : default.input_cents_per_mtok ≤ decision.spec.input_cents_per_mtok
  pub output_price : default.output_cents_per_mtok ≤ decision.spec.output_cents_per_mtok

-- The decision for a hint, of which only the test against three matters.
chosen : Role → Bool → RouteDecision
unfolding route decide lookup
chosen role hard = elim (route role (if hard then 3 else 1)) [
  | ok decision ↦ decision
  | raised _ ↦ record {
    key = "";
    spec = record {
      provider = openai;
      model = "";
      tier = fast;
      input_cents_per_mtok = 0;
      output_cents_per_mtok = 0;
    };
    reason = default_for role;
  }
]

route-chosen : (role : Role) (hint : ℕ) → route role hint ≡ ok (chosen role (leb 3 hint))
unfolding chosen route decide lookup
route-chosen ba hint = elim (Bool-cases (leb 3 hint)) [ inl t ↦ rw t refl | inr t ↦ rw t refl ]
route-chosen architect hint = elim (Bool-cases (leb 3 hint)) [
  | inl t ↦ rw t refl
  | inr t ↦ rw t refl
]
route-chosen se hint = elim (Bool-cases (leb 3 hint)) [ inl t ↦ rw t refl | inr t ↦ rw t refl ]
route-chosen estimator hint = elim (Bool-cases (leb 3 hint)) [
  | inl t ↦ rw t refl
  | inr t ↦ rw t refl
]
route-chosen reviewer hint = elim (Bool-cases (leb 3 hint)) [
  | inl t ↦ rw t refl
  | inr t ↦ rw t refl
]
route-chosen researcher hint = elim (Bool-cases (leb 3 hint)) [
  | inl t ↦ rw t refl
  | inr t ↦ rw t refl
]
route-chosen documenter hint = elim (Bool-cases (leb 3 hint)) [
  | inl t ↦ rw t refl
  | inr t ↦ rw t refl
]
route-chosen coder hint = elim (Bool-cases (leb 3 hint)) [ inl t ↦ rw t refl | inr t ↦ rw t refl ]

-- What is to be checked of a decision in the catalogue.
abbrev Sound : Role → Bool → Type 0
Sound role hard =
    (default : ModelSpec) × (lookup (chosen role hard).key models ≡ some (chosen role hard).spec)
    × (lookup (role_defaults role) models ≡ some default)
    × (hard ≡ false → (chosen role hard).key ≡ role_defaults role)
    × (default.input_cents_per_mtok ≤ (chosen role hard).spec.input_cents_per_mtok)
    × (default.output_cents_per_mtok ≤ (chosen role hard).spec.output_cents_per_mtok)

chosen-Sound : (role : Role) (hard : Bool) → Sound role hard
unfolding chosen route decide lookup
chosen-Sound ba true = (_, refl, refl, λ e. absurd (cc e), omega arith, omega arith)
chosen-Sound ba false = (_, refl, refl, λ e. refl, omega arith, omega arith)
chosen-Sound architect true = (_, refl, refl, λ e. absurd (cc e), omega arith, omega arith)
chosen-Sound architect false = (_, refl, refl, λ e. refl, omega arith, omega arith)
chosen-Sound se true = (_, refl, refl, λ e. absurd (cc e), omega arith, omega arith)
chosen-Sound se false = (_, refl, refl, λ e. refl, omega arith, omega arith)
chosen-Sound estimator true = (_, refl, refl, λ e. absurd (cc e), omega arith, omega arith)
chosen-Sound estimator false = (_, refl, refl, λ e. refl, omega arith, omega arith)
chosen-Sound reviewer true = (_, refl, refl, λ e. absurd (cc e), omega arith, omega arith)
chosen-Sound reviewer false = (_, refl, refl, λ e. refl, omega arith, omega arith)
chosen-Sound researcher true = (_, refl, refl, λ e. absurd (cc e), omega arith, omega arith)
chosen-Sound researcher false = (_, refl, refl, λ e. refl, omega arith, omega arith)
chosen-Sound documenter true = (_, refl, refl, λ e. absurd (cc e), omega arith, omega arith)
chosen-Sound documenter false = (_, refl, refl, λ e. refl, omega arith, omega arith)
chosen-Sound coder true = (_, refl, refl, λ e. absurd (cc e), omega arith, omega arith)
chosen-Sound coder false = (_, refl, refl, λ e. refl, omega arith, omega arith)

-- For every role and every hint, routing returns a decision, whose model is the catalogue's for its
-- key. With a hint below three the key is the role's default. Whatever the hint, neither price is
-- below that of the default.
pub route-Routed : (role : Role) (complexity_hint : ℕ) → Routed role complexity_hint
route-Routed role hint =
    let (default, listed, has_default, simple, input, output) = chosen-Sound role (leb 3 hint) in
    record {
      decision = chosen role (leb 3 hint);
      default = default;
      returns = route-chosen role hint;
      listed = listed;
      has_default = has_default;
      simple = λ h. simple (ground (arith, h));
      input_price = input;
      output_price = output;
    }
