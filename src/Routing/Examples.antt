-- ===== src/Routing/Examples.antt =====
-- A task whose routed provider is rate limited, and the theorems about routing at it.
use Prim.Native.Nat.{◌/◌}
use twai_swarm.Prelude.{◌+◌, some, arith}
use twai_swarm.Routing.{
  Role, anthropic, xai, openai, flagship, RouteDecision, default_for, replied, failed, Providers,
  complete_with_fallback, run_agent, Round, complete,
}
use twai_swarm.Routing.Routes.{Routed, route-Routed}
use twai_swarm.Routing.Fallback.{
  Explained, complete_with_fallback-Explained, Billed, Nearest, run_agent-Billed,
}

abbrev limited : Providers
limited n anthropic model = failed (record { name = "RateLimitError"; status_code = some 429 })
limited n xai model = failed (record { name = "BadRequestError"; status_code = some 400 })
limited n openai model = replied (record { text = "{}"; tokens_in = 100; tokens_out = 20 })

abbrev opus : RouteDecision
opus = record {
  key = "opus";
  spec = record {
    provider = anthropic;
    model = "claude-opus-4-7";
    tier = flagship;
    input_cents_per_mtok = 1500;
    output_cents_per_mtok = 7500;
  };
  reason = default_for Role.architect;
}

route-Routed_example : Routed Role.estimator 3
route-Routed_example = route-Routed Role.estimator 3

complete_with_fallback-Explained_example :
    Explained limited opus
      (complete limited 0 opus.spec)
      (complete_with_fallback limited opus).0
      (complete_with_fallback limited opus).1
complete_with_fallback-Explained_example = complete_with_fallback-Explained limited opus

-- To the nearest millionth, and up from the middle.
abbrev half_up : Round
half_up cost = (cost + 50) / 100

half_up-Nearest : Nearest half_up
half_up-Nearest cost = (omega arith, omega arith)

run_agent-Billed_example :
    Billed limited Role.architect 1 (run_agent half_up limited Role.architect 1)
run_agent-Billed_example = run_agent-Billed half_up half_up-Nearest limited Role.architect 1
