-- ===== src/Routing/Fallback.antt =====
-- Lemmas on _complete_with_fallback and on what run_agent reports.
use twai_swarm.Prelude.{
  ℕ, ◌+◌, ◌*◌, ◌≤◌, ◌≡◌, ◌≢◌, refl, sym, subst, ap, ◌⊎◌, inl, inr, true, some, ◌↔◌, List, [], ◌∷◌,
  arith, ok, In, lookup, member, member_iff, Bool-cases, Option-cases, string_eq, nat_eq,
}
use twai_swarm.Routing.Routes.{route-Routed}
use twai_swarm.Routing.{
  Round, Provider, anthropic, xai, openai, flagship, RouteDecision, CallError, ProviderResult,
  Answer, replied, failed, Providers, Completion, completed, raises, complete, fallback_chain,
  fallback_from, is_transient, transient_names, try_fallbacks, complete_with_fallback, Usage,
  AgentRun, used, agent_raises, report, estimate_cost, run_agent, Role, route,
}

Answer-cases :
    (a : Answer) → ((r : ProviderResult) × (a ≡ replied r)) ⊎ ((e : CallError) × (a ≡ failed e))
Answer-cases (replied r) = inl (r, refl)
Answer-cases (failed e) = inr (e, refl)

-- A timeout, a lost connection, a rate limit or an error of the server: by the name of the exception,
-- or by its status.
abbrev pub Transient : CallError → Type 0
Transient e =
    In e.name (
      "APITimeoutError" ∷ "APIConnectionError" ∷ "RateLimitError" ∷ "InternalServerError"
      ∷ "APIStatusError" ∷ "TimeoutError" ∷ "ReadTimeout" ∷ "ConnectTimeout" ∷ "ConnectError" ∷ [])
    ⊎ ((status : ℕ) × (e.status_code ≡ some status) × ((500 ≤ status) ⊎ (status ≡ 429)))

is_transient_iff : (e : CallError) → (is_transient e ≡ true) ↔ Transient e
unfolding is_transient
is_transient_iff e = elim (Bool-cases (member e.name transient_names)) [
  | inl t ↦ (λ h. inl ((member_iff e.name transient_names).0 t), λ h. ground (arith, t))
  | inr t ↦ elim (Option-cases e.status_code) [
    | inl missing ↦ (
      λ h. absurd (ground (arith, t, missing)),
      λ h. elim h [
        | inl i ↦ absurd (cc (t, (member_iff e.name transient_names).1 i))
        | inr (status, at, _) ↦ absurd (cc (missing, at))
      ],
    )
    | inr (status, at) ↦ (
      λ h. inr (status, at, ground (arith, t, at, nat_eq.same_iff status 429)),
      λ h. elim h [
        | inl i ↦ absurd (cc (t, (member_iff e.name transient_names).1 i))
        | inr (status', at', high) ↦
            let same : status' ≡ status = ground (arith, at, at') in
            ground (arith, t, at, same, high, nat_eq.same_iff status 429)
      ],
    )
  ]
]

-- The model of OpenAI that stands in, for the error of the routed one.
abbrev pub stand_in : RouteDecision → CallError → RouteDecision
stand_in d e = record {
  key = "gpt54";
  spec = record {
    provider = openai;
    model = "gpt-5.4";
    tier = flagship;
    input_cents_per_mtok = 500;
    output_cents_per_mtok = 2000;
  };
  reason = fallback_from d.key e.name;
}

-- What comes of the call of the stand-in, after the error of the routed model.
abbrev pub StoodIn : Answer → RouteDecision → CallError → Completion → Type 0
StoodIn (replied r) d e c = c ≡ completed r (stand_in d e)
StoodIn (failed f) d e c = Transient f × (c ≡ raises e) ⊎ (¬ Transient f) × (c ≡ raises f)

-- Who answers a call, and which models are asked, by what the routed model answers.
abbrev pub Explained : Providers → RouteDecision → Answer → Completion → List RouteDecision → Type 0
Explained providers d (replied r) c calls = (c ≡ completed r d) × (calls ≡ d ∷ [])
Explained providers d (failed e) c calls =
    ((¬ Transient e) ⊎ (d.spec.provider ≡ openai)) × (c ≡ raises e) × (calls ≡ d ∷ [])
    ⊎ Transient e
      × (d.spec.provider ≢ openai)
      × StoodIn (complete providers 1 (stand_in d e).spec) d e c
      × (calls ≡ d ∷ stand_in d e ∷ [])

-- The one round of the fallback chain.
stood_in :
    (providers : Providers) (d : RouteDecision) (e : CallError)
    → StoodIn
        (complete providers 1 (stand_in d e).spec)
        d
        e
        (try_fallbacks providers 1 d e ("gpt54" ∷ [])).0
      × ((try_fallbacks providers 1 d e ("gpt54" ∷ [])).1 ≡ stand_in d e ∷ [])
unfolding try_fallbacks lookup
stood_in providers d e = elim (Answer-cases (complete providers 1 (stand_in d e).spec)) [
  | inl (r, q) ↦
      let run : try_fallbacks providers 1 d e ("gpt54" ∷ [])
          ≡ (completed r (stand_in d e), stand_in d e ∷ []) =
        ground (arith, q) in
      rw (q, run) (refl, refl)
  | inr (f, q) ↦ elim (Bool-cases (is_transient f)) [
    | inl t ↦
        let run : try_fallbacks providers 1 d e ("gpt54" ∷ []) ≡ (raises e, stand_in d e ∷ []) =
          ground (arith, q, t) in
        rw (q, run) (inl ((is_transient_iff f).0 t, refl), refl)
    | inr t ↦
        let run : try_fallbacks providers 1 d e ("gpt54" ∷ []) ≡ (raises f, stand_in d e ∷ []) =
          ground (arith, q, t) in
        rw (q, run) (inr (λ x. cc (t, (is_transient_iff f).1 x), refl), refl)
  ]
]

chain_of :
    (p : Provider)
    → (p ≡ openai) × (fallback_chain p ≡ []) ⊎ (p ≢ openai) × (fallback_chain p ≡ "gpt54" ∷ [])
chain_of anthropic = inr (λ e. cc e, refl)
chain_of xai = inr (λ e. cc e, refl)
chain_of openai = inl (refl, refl)

-- Who answers a call, for every routed model. The routed model is asked first, and its answer is the
-- result. If it fails, and the failure is not transient or it is a model of OpenAI, its error is
-- raised and no other is asked. After a transient failure of another provider's model, `gpt54` of
-- OpenAI is asked, once, with the second call: its answer is the result and it is the effective
-- decision, and if it fails, a transient failure raises the routed model's error and another its own.
-- Transient are the nine exceptions by name, any status from 500 on, and 429.
pub complete_with_fallback-Explained :
    (providers : Providers) (d : RouteDecision)
    → Explained providers d
        (complete providers 0 d.spec)
        (complete_with_fallback providers d).0
        (complete_with_fallback providers d).1
unfolding complete_with_fallback
complete_with_fallback-Explained providers d = elim (Answer-cases (complete providers 0 d.spec)) [
  | inl (r, q) ↦
      let run : complete_with_fallback providers d ≡ (completed r d, d ∷ []) = ground (arith, q) in
      rw (q, run) (refl, refl)
  | inr (e, q) ↦ elim (Bool-cases (is_transient e)) [
    | inr t ↦
        let run : complete_with_fallback providers d ≡ (raises e, d ∷ []) = ground (arith, q, t) in
        rw (q, run) (inl (inl (λ x. cc (t, (is_transient_iff e).1 x)), refl, refl))
    | inl t ↦ elim (chain_of d.spec.provider) [
      | inl (own, empty) ↦
          let run : complete_with_fallback providers d ≡ (raises e, d ∷ []) =
            unfold try_fallbacks in ground (arith, q, t, empty) in
          rw (q, run) (inl (inr own, refl, refl))
      | inr (foreign, one) ↦
          let (stood, asked) = stood_in providers d e in
          let rest = try_fallbacks providers 1 d e ("gpt54" ∷ []) in
          let run : complete_with_fallback providers d ≡ (rest.0, d ∷ rest.1) =
            ground (arith, q, t, one) in
          rw (q, run)
            (inr (
              (is_transient_iff e).0 t,
              foreign,
              stood,
              ap (λ (l : List RouteDecision). d ∷ l) asked,
            ))
    ]
  ]
]

-- The cost to a millionth of a dollar is as near as can be to that in hundred-millionths.
abbrev pub Nearest : Round → Type 0
Nearest round = (cost : ℕ) → (100 * round cost ≤ cost + 50) × (cost ≤ 100 * round cost + 50)

-- What is reported of the outcome of a call.
abbrev pub Reports : Completion → AgentRun → Type 0
Reports (raises e) run = run ≡ agent_raises e
Reports (completed result effective) run =
    (u : Usage) × (run ≡ used u)
    × (u.effective ≡ effective)
    × (u.text ≡ result.text)
    × (u.tokens_in ≡ result.tokens_in)
    × (u.tokens_out ≡ result.tokens_out)
    × (let exact : ℕ =
          result.tokens_in * effective.spec.input_cents_per_mtok
          + result.tokens_out * effective.spec.output_cents_per_mtok in
        (100 * u.cost_usd ≤ exact + 50) × (exact ≤ 100 * u.cost_usd + 50))

-- The run of an agent of the role, for the hint.
abbrev pub Billed : Providers → Role → ℕ → AgentRun → Type 0
Billed providers role hint run =
    (d : RouteDecision) × (route role hint ≡ ok d)
    × ((c : Completion) × (calls : List RouteDecision) × Explained providers d
          (complete providers 0 d.spec) c calls
        × Reports c run)

report-Reports : (round : Round) → Nearest round → (c : Completion) → Reports c (report round c)
report-Reports round near (raises e) = refl
report-Reports round near (completed result effective) =
    let exact =
      result.tokens_in * effective.spec.input_cents_per_mtok
      + result.tokens_out * effective.spec.output_cents_per_mtok in
    let (low, high) = near exact in
    (_, refl, refl, refl, refl, refl, (unfold estimate_cost in low, unfold estimate_cost in high))

-- Where the rounding goes to a nearest millionth of a dollar, an agent's run is that of the decision
-- which routing makes for its role and hint, and it never lacks one. It asks the models, and raises
-- an exception or has a result, as `_complete_with_fallback` does; for a result it reports the
-- effective decision, also after a fallback, the text and the tokens of the answer, and a cost that
-- is at most half a millionth of a dollar from the tokens at the prices of that decision's model.
pub run_agent-Billed :
    (round : Round)
    → Nearest round
    → (providers : Providers) (role : Role) (complexity_hint : ℕ)
    → Billed providers role complexity_hint (run_agent round providers role complexity_hint)
unfolding run_agent
run_agent-Billed round near providers role hint =
    let r = route-Routed role hint in
    let runs : run_agent round providers role hint
        ≡ report round (complete_with_fallback providers r.decision).0 =
      ground (arith, r.returns) in
    (
      r.decision,
      r.returns,
      (
        (complete_with_fallback providers r.decision).0,
        (complete_with_fallback providers r.decision).1,
        complete_with_fallback-Explained providers r.decision,
        subst (Reports (complete_with_fallback providers r.decision).0) (sym runs)
            (report-Reports round near (complete_with_fallback providers r.decision).0),
      ),
    )
