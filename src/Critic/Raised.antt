-- ===== src/Critic/Raised.antt =====
-- Lemmas on the deterministic gate: what makes it raise an exception.
use twai_swarm.Prelude.{
  ◌≡◌, refl, ◌∙◌, ap, ◌⊎◌, inl, inr, String, true, some, List, [], ◌∷◌, arith, nat_eq, ◌==◌, leb,
  Outcome, ok, raised, Error, no_attribute, bad_encoding, ◌>>=◌, Bool-cases, Outcome-cases,
  Option-cases,
}
use twai_swarm.Reviewer.{GateFailure}
use twai_swarm.Critic.Types.{
  ToolRun, skipped, exited, killed, undecodable, Json, null, boolean, number, string, array, object,
  PackageJson, unreadable, no_utf8, has_text, Outside,
}
use twai_swarm.Critic.Gate.{
  Reader, ToolGate, or_bucket, failed_run, read_compileall, compileall_gate, mvn_gate, ruff_gate,
  typecheck_of, typecheck_listed, typecheck_run, npm_typecheck_gate, if_any, LanguageGroups,
  gate_failures_of, group_files_by_language, run_deterministic_gate,
}

abbrev pub IsNoObject : Json → Type 0
IsNoObject (object members) = ⊥
IsNoObject _ = Unit

-- A tool ran and printed the text.
abbrev pub Printed : ToolRun → String → Type 0
Printed skipped text = ⊥
Printed undecodable text = ⊥
Printed (exited code printed) text = printed ≡ text
Printed (killed signal printed) text = printed ≡ text

-- What a tool printed is no text, or reading it raised the exception.
abbrev pub ToolRaised : {A : Type 0} → (String → Outcome A) → ToolRun → Error → Type 0
ToolRaised read r error =
    (r ≡ undecodable) × (error ≡ bad_encoding)
    ⊎ ((text : String) × Printed r text × (read text ≡ raised error))

-- `package.json` is no UTF-8, or it is JSON that is not an object.
abbrev pub PackageRaised : Outside → Error → Type 0
PackageRaised out error =
    (out.package_json ≡ no_utf8) × (error ≡ bad_encoding)
    ⊎ ((text : String) × (json : Json) × (out.package_json ≡ has_text text)
        × (out.loads text ≡ some json)
        × IsNoObject json
        × (error ≡ no_attribute))

-- Which tool on which files, or the project file of npm.
abbrev pub GateRaised : Outside → List String → Error → Type 0
GateRaised out files error =
    let g : LanguageGroups = group_files_by_language files in
    ToolRaised out.ruff_items (out.run_ruff g.python_files) error
    ⊎ ToolRaised out.compileall_files (out.run_compileall g.python_files) error
    ⊎ ToolRaised out.mvn_items (out.run_mvn g.java_files) error
    ⊎ (out.npm_ready ≡ true)
      × (PackageRaised out error ⊎ ToolRaised out.npm_items (out.run_npm g.ts_files) error)

read_raised :
    (tool message : String) (o : Outcome (List GateFailure)) (error : Error)
    → (o >>= λ items. ok (or_bucket tool message items)) ≡ raised error
    → o ≡ raised error
read_raised tool message (ok items) error h = cc h
read_raised tool message (raised e) error h = h

failed_run-ToolRaised :
    (tool message : String) (read : Reader) (r : ToolRun) (error : Error)
    → failed_run tool message read r ≡ raised error
    → ToolRaised read r error
failed_run-ToolRaised tool message read skipped error h = cc h
failed_run-ToolRaised tool message read undecodable error h = inl (refl, ground (arith, h))
failed_run-ToolRaised tool message read (killed signal printed) error h =
    inr (printed, refl, read_raised tool _ (read printed) error h)
failed_run-ToolRaised tool message read (exited code printed) error h =
    elim (Bool-cases (code == 0)) [
      | inl t ↦ absurd (ground (arith, t, h))
      | inr t ↦ elim (Outcome-cases (read printed)) [
        | inl (items, e) ↦ absurd (ground (arith, t, h, e))
        | inr (first, e) ↦
            let same : first ≡ error = ground (arith, t, h, e) in
            inr (printed, refl, e ∙ ap raised same)
      ]
    ]

ruff-ToolRaised :
    (out : Outside) (files : List String) (r : ToolRun) (error : Error)
    → out.run_ruff files ≡ r
    → ruff_gate out files ≡ raised error
    → ToolRaised out.ruff_items r error
unfolding ruff_gate
ruff-ToolRaised out files skipped error e h = absurd (ground (arith, e, h))
ruff-ToolRaised out files (killed signal printed) error e h = absurd (ground (arith, e, h))
ruff-ToolRaised out files undecodable error e h = inl (refl, ground (arith, e, h))
ruff-ToolRaised out files (exited code printed) error e h = elim (Bool-cases (leb code 1)) [
  | inl t ↦ inr (printed, refl, ground (arith, e, t, h))
  | inr t ↦ absurd (ground (arith, e, t, h))
]

compileall-ToolRaised :
    (out : Outside) (files : List String) (error : Error)
    → compileall_gate out files ≡ raised error
    → ToolRaised out.compileall_files (out.run_compileall files) error
unfolding compileall_gate
compileall-ToolRaised out files error h =
    elim (failed_run-ToolRaised "compileall" "compileall returned " (read_compileall out)
      (out.run_compileall files) error h) [
        | inl bad ↦ inl bad
        | inr (text, printed, reads) ↦ elim (Outcome-cases (out.compileall_files text)) [
          | inl (paths, e) ↦ absurd (ground (arith, e, reads))
          | inr (first, e) ↦
              let same : first ≡ error = ground (arith, e, reads) in
              inr (text, printed, e ∙ ap raised same)
        ]
      ]

typecheck_of-NoObject :
    (json : Json) (error : Error)
    → typecheck_of json ≡ raised error
    → IsNoObject json × (error ≡ no_attribute)
typecheck_of-NoObject (object members) error h = cc h
typecheck_of-NoObject null error h = (tt, ground (arith, h))
typecheck_of-NoObject (boolean b) error h = (tt, ground (arith, h))
typecheck_of-NoObject (number n) error h = (tt, ground (arith, h))
typecheck_of-NoObject (string s) error h = (tt, ground (arith, h))
typecheck_of-NoObject (array xs) error h = (tt, ground (arith, h))

listed-PackageRaised :
    (out : Outside) (p : PackageJson) (error : Error)
    → out.package_json ≡ p
    → typecheck_listed out ≡ raised error
    → PackageRaised out error
unfolding typecheck_listed
listed-PackageRaised out unreadable error e h = absurd (ground (arith, e, h))
listed-PackageRaised out no_utf8 error e h = inl (e, ground (arith, e, h))
listed-PackageRaised out (has_text text) error e h = elim (Option-cases (out.loads text)) [
  | inl bad ↦ absurd (ground (arith, e, bad, h))
  | inr (json, loaded) ↦
      let (no_object, attribute) =
        typecheck_of-NoObject json error (ground (arith, e, loaded, h)) in
      inr (text, json, e, loaded, no_object, attribute)
]

npm-Raised :
    (out : Outside) (files : List String) (error : Error)
    → npm_typecheck_gate out files ≡ raised error
    → (out.npm_ready ≡ true)
      × (PackageRaised out error ⊎ ToolRaised out.npm_items (out.run_npm files) error)
unfolding npm_typecheck_gate typecheck_run
npm-Raised out files error h = elim (Bool-cases out.npm_ready) [
  | inr t ↦ absurd (ground (arith, t, h))
  | inl t ↦ elim (Outcome-cases (typecheck_listed out)) [
    | inr (first, e) ↦
        let same : first ≡ error = ground (arith, t, e, h) in
        (t, inl (listed-PackageRaised out out.package_json error refl (e ∙ ap raised same)))
    | inl (listed, e) ↦ elim (Bool-cases listed) [
      | inr f ↦ absurd (ground (arith, t, e, f, h))
      | inl f ↦
          let run : failed_run "npm" "npm run typecheck returned " out.npm_items (out.run_npm files)
              ≡ raised error =
            ground (arith, t, e, f, h) in
          (
            t,
            inr (
                failed_run-ToolRaised "npm" "npm run typecheck returned " out.npm_items
                  (out.run_npm files) error run),
          )
    ]
  ]
]

-- A gate that raised had files.
if_any_raised :
    (gate : ToolGate) (files : List String) (error : Error)
    → if_any gate files ≡ raised error
    → gate files ≡ raised error
if_any_raised gate [] error h = cc h
if_any_raised gate (f ∷ fs) error h = h

>>=-raised :
    {A B : Type 0} (o : Outcome A) (f : A → Outcome B) (error : Error)
    → (o >>= f) ≡ raised error
    → (o ≡ raised error) ⊎ ((a : A) × (f a ≡ raised error))
>>=-raised (raised e) f error h = inl (ground (arith, h))
>>=-raised (ok a) f error h = inr (a, h)

gate_failures-GateRaised :
    (out : Outside) (files : List String) (error : Error)
    → gate_failures_of out (group_files_by_language files) ≡ raised error
    → GateRaised out files error
unfolding gate_failures_of
gate_failures-GateRaised out files error h =
    let g = group_files_by_language files in
    elim (>>=-raised (if_any (ruff_gate out) g.python_files) _ error h) [
      | inl r ↦ inl (
          ruff-ToolRaised out g.python_files (out.run_ruff g.python_files) error refl
            (if_any_raised (ruff_gate out) g.python_files error r))
      | inr (_, h1) ↦ elim (>>=-raised (if_any (compileall_gate out) g.python_files) _ error h1) [
        | inl r ↦ inr (
            inl (
              compileall-ToolRaised out g.python_files error
                (if_any_raised (compileall_gate out) g.python_files error r)))
        | inr (_, h2) ↦ elim (>>=-raised (if_any (mvn_gate out) g.java_files) _ error h2) [
          | inl r ↦ inr (
              inr (
                inl (
                  failed_run-ToolRaised "mvn" "mvn compile returned " out.mvn_items
                    (out.run_mvn g.java_files) error
                    (unfold mvn_gate in (if_any_raised (mvn_gate out) g.java_files error r)))))
          | inr (_, h3) ↦
              elim (>>=-raised (if_any (npm_typecheck_gate out) g.ts_files) _ error h3) [
                | inl r ↦ inr (
                    inr (
                      inr (
                        npm-Raised out g.ts_files error
                          (if_any_raised (npm_typecheck_gate out) g.ts_files error r))))
                | inr (_, h4) ↦ absurd (cc h4)
              ]
        ]
      ]
    ]

pub run_deterministic_gate-GateRaised :
    (out : Outside) (files : List String) (error : Error)
    → run_deterministic_gate out files ≡ raised error
    → GateRaised out files error
unfolding run_deterministic_gate
run_deterministic_gate-GateRaised out [] error h = cc h
run_deterministic_gate-GateRaised out (f ∷ fs) error h =
    elim (>>=-raised (gate_failures_of out (group_files_by_language (f ∷ fs))) _ error h) [
      | inl r ↦ gate_failures-GateRaised out (f ∷ fs) error r
      | inr (_, h') ↦ absurd (cc h')
    ]
