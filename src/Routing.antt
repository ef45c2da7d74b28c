-- ===== src/Routing.antt =====
-- app/router.py and the calls of app/agents/runner.py: which model a role gets, and who answers when
-- a provider fails. Prices are in cents for a million tokens, costs in hundred-millionths of a dollar.
pub mod Catalogue
pub mod Routes
pub mod Fallback
mod Examples
unfoldable pub use Catalogue.*
use twai_swarm.Prelude.{
  ℕ, suc, ◌+◌, ◌*◌, String, Bool, true, false, ◌&&◌, ◌||◌, Option, none, some, List, [], ◌∷◌,
  nat_eq, string_eq, ◌==◌, leb, Dict, lookup, member, Outcome, ok, raised, unknown_key,
  if◌then◌else◌,
}

-- What `_is_transient` reads of an exception.
pub record CallError : Type 0 where
  pub name : String
  pub status_code : Option ℕ

abbrev pub transient_names : List String
transient_names =
    "APITimeoutError" ∷ "APIConnectionError" ∷ "RateLimitError" ∷ "InternalServerError"
    ∷ "APIStatusError" ∷ "TimeoutError" ∷ "ReadTimeout" ∷ "ConnectTimeout" ∷ "ConnectError" ∷ []

unfoldable pub is_transient : CallError → Bool
is_transient err =
    let by_status : Bool = elim err.status_code [
      | none ↦ false
      | some status ↦ leb 500 status || status == 429
    ] in
    if member err.name transient_names then true else by_status

pub record ProviderResult : Type 0 where
  pub text : String
  pub tokens_in : ℕ
  pub tokens_out : ℕ

pub data Answer : Type 0 where
  replied : ProviderResult → Answer
  failed : CallError → Answer

-- The providers are parameters: they may answer by the number of calls before.
abbrev pub Providers : Type 0
Providers = ℕ → Provider → String → Answer

-- What the caller gets: a result with the decision that was effective, or an exception.
pub data Completion : Type 0 where
  completed : ProviderResult → RouteDecision → Completion
  raises : CallError → Completion

abbrev pub complete : Providers → ℕ → ModelSpec → Answer
complete providers n s = providers n s.provider s.model

-- The `for` over the fallback chain, after the primary error. The decisions that were called come
-- with the outcome.
unfoldable pub try_fallbacks :
    Providers → ℕ → RouteDecision → CallError → List String → Completion × List RouteDecision
try_fallbacks providers n decision primary_error [] = (raises primary_error, [])
try_fallbacks providers n decision primary_error (key ∷ keys) =
    let skipped = try_fallbacks providers n decision primary_error keys in
    let rest = try_fallbacks providers (suc n) decision primary_error keys in
    elim (lookup key models) [
      | none ↦ skipped
      | some s ↦
          let fallback : RouteDecision = record {
            key = key;
            spec = s;
            reason = fallback_from decision.key primary_error.name;
          } in
          elim (complete providers n s) [
            | replied result ↦ (completed result fallback, fallback ∷ [])
            | failed e ↦
                if is_transient e then (rest.0, fallback ∷ rest.1) else (raises e, fallback ∷ [])
          ]
    ]

unfoldable pub complete_with_fallback : Providers → RouteDecision → Completion × List RouteDecision
complete_with_fallback providers decision = elim (complete providers 0 decision.spec) [
  | replied result ↦ (completed result decision, decision ∷ [])
  | failed e ↦
      let rest = try_fallbacks providers 1 decision e (fallback_chain decision.spec.provider) in
      if is_transient e then (rest.0, decision ∷ rest.1) else (raises e, decision ∷ [])
]

-- The part of what `run_agent` returns that is decided here: `model_key`, `provider`, `model` and
-- `route_reason` (those of the effective decision), the text that `output` is read from, the
-- tokens, and `cost_usd` in millionths of a
-- dollar.
pub record Usage : Type 0 where
  pub effective : RouteDecision
  pub text : String
  pub tokens_in : ℕ
  pub tokens_out : ℕ
  pub cost_usd : ℕ

pub data AgentRun : Type 0 where
  used : Usage → AgentRun
  no_route : AgentRun
  agent_raises : CallError → AgentRun

-- `round(cost, 6)`: from hundred-millionths of a dollar to millionths. Of a tie, which way it goes is
-- decided by the binary fraction that stands for the cost, so the function is a parameter.
abbrev pub Round : Type 0
Round = ℕ → ℕ

abbrev pub report : Round → Completion → AgentRun
report round (raises e) = agent_raises e
report round (completed result effective) = used (record {
  effective = effective;
  text = result.text;
  tokens_in = result.tokens_in;
  tokens_out = result.tokens_out;
  cost_usd = round (estimate_cost effective.spec result.tokens_in result.tokens_out);
})

unfoldable pub run_agent : Round → Providers → Role → ℕ → AgentRun
run_agent round providers role complexity_hint = elim (route role complexity_hint) [
  | raised _ ↦ no_route
  | ok decision ↦ report round (complete_with_fallback providers decision).0
]
