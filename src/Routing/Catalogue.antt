-- ===== src/Routing/Catalogue.antt =====
-- router.py: the catalogue of the models and the routing table.
use twai_swarm.Prelude.{
  ℕ, ◌+◌, ◌*◌, String, ◌||◌, none, some, List, [], ◌∷◌, nat_eq, string_eq, ◌==◌, leb, Dict, lookup,
  Outcome, ok, raised, unknown_key, if◌then◌else◌,
}

pub data Role : Type 0 where
  ba architect se estimator reviewer researcher documenter coder : Role

pub data Provider : Type 0 where
  anthropic xai openai : Provider

pub data Tier : Type 0 where
  fast mid flagship : Tier

pub record ModelSpec : Type 0 where
  pub provider : Provider
  pub model : String
  pub tier : Tier
  pub input_cents_per_mtok : ℕ
  pub output_cents_per_mtok : ℕ

abbrev spec : Provider → String → Tier → ℕ → ℕ → ModelSpec
spec provider model tier input output = record {
  provider = provider;
  model = model;
  tier = tier;
  input_cents_per_mtok = input;
  output_cents_per_mtok = output;
}

abbrev pub models : Dict String ModelSpec
models =
    ("haiku", spec anthropic "claude-haiku-4-5" fast 100 500)
    ∷ ("sonnet", spec anthropic "claude-sonnet-4-6" mid 300 1500)
    ∷ ("opus", spec anthropic "claude-opus-4-7" flagship 1500 7500)
    ∷ ("grok", spec xai "grok-4.20" flagship 200 600)
    ∷ ("grok-fast", spec xai "grok-4-1-fast-reasoning" fast 20 50)
    ∷ ("grok-research", spec xai "grok-4.20-0309-reasoning" flagship 200 600)
    ∷ ("gpt54", spec openai "gpt-5.4" flagship 500 2000)
    ∷ []

abbrev pub fallback_chain : Provider → List String
fallback_chain anthropic = "gpt54" ∷ []
fallback_chain xai = "gpt54" ∷ []
fallback_chain openai = []

abbrev pub role_defaults : Role → String
role_defaults ba = "sonnet"
role_defaults architect = "opus"
role_defaults se = "sonnet"
role_defaults estimator = "grok"
role_defaults reviewer = "opus"
role_defaults researcher = "grok-research"
role_defaults documenter = "grok-fast"
role_defaults coder = "haiku"

abbrev pub escalation : Dict String String
escalation =
    ("haiku", "sonnet") ∷ ("sonnet", "opus") ∷ ("grok-fast", "grok") ∷ ("grok", "opus") ∷ []

-- Why a model was chosen: the texts of `reason` as data.
pub data Reason : Type 0 where
  default_for : Role → Reason
  escalated : Role → String → String → Reason
  fallback_from : String → String → Reason

pub record RouteDecision : Type 0 where
  pub key : String
  pub spec : ModelSpec
  pub reason : Reason

-- `MODELS[key]`
unfoldable pub decide : String → Reason → Outcome RouteDecision
decide key reason = elim (lookup key models) [
  | none ↦ raised unknown_key
  | some s ↦ ok (record { key = key; spec = s; reason = reason })
]

unfoldable pub route : Role → ℕ → Outcome RouteDecision
route role complexity_hint =
    let key = role_defaults role in
    let plain = decide key (default_for role) in
    let raised_key : Outcome RouteDecision = elim (lookup key escalation) [
      | none ↦ plain
      | some up ↦ if up == "" || up == key then plain else decide up (escalated role key up)
    ] in
    if leb 3 complexity_hint then raised_key else plain

unfoldable pub estimate_cost : ModelSpec → ℕ → ℕ → ℕ
estimate_cost s tokens_in tokens_out =
    tokens_in * s.input_cents_per_mtok + tokens_out * s.output_cents_per_mtok
