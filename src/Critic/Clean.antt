-- ===== src/Critic/Clean.antt =====
-- Lemmas on the deterministic gate: what it tells of the tools.
use twai_swarm.Prelude.{
  ◌≡◌, ◌≢◌, refl, ◌↔◌, ◌∙◌, ap, inl, inr, String, Bool, true, List, [], ◌∷◌, ◌++◌, arith, nat_eq,
  string_eq, ◌==◌, Outcome, ok, raised, ◌>>=◌, >>=-eq-ok, Bool-cases, join, str_nat,
}
use twai_swarm.Reviewer.{GateFailure}
use twai_swarm.Critic.Types.{ToolRun, skipped, exited, killed, undecodable, Outside}
use twai_swarm.Critic.Gate.{
  Reader, ToolGate, read_compileall, typecheck_run, group_files_by_language, compileall_gate,
  mvn_gate, npm_typecheck_gate, ruff_gate, failed_run, or_bucket, if_any, none_left,
  gate_failures_of, run_deterministic_gate,
}

-- A tool did not run, or ended well.
abbrev pub EndedWell : ToolRun → Type 0
EndedWell skipped = Unit
EndedWell undecodable = ⊥
EndedWell (killed signal printed) = ⊥
EndedWell (exited code printed) = code ≡ 0

-- A tool that runs on the files of one language, where there are some: its run is known, and it did
-- not take place or ended well.
abbrev pub EndedWellOn : (List String → Outcome ToolRun) → List String → Type 0
EndedWellOn run [] = Unit
EndedWellOn run (f ∷ fs) = (r : ToolRun) × (run (f ∷ fs) ≡ ok r) × EndedWell r

-- The compilers of all three languages ended well on the touched files.
pub record CompilersEndedWell (out : Outside) (files : List String) : Type 0 where
  pub compileall :
      EndedWellOn (λ fs. ok (out.run_compileall fs)) (group_files_by_language files).python_files
  pub mvn : EndedWellOn (λ fs. ok (out.run_mvn fs)) (group_files_by_language files).java_files
  pub npm : EndedWellOn (typecheck_run out) (group_files_by_language files).ts_files

or_bucket-ne-nil : (tool message : String) (fs : List GateFailure) → or_bucket tool message fs ≢ []
or_bucket-ne-nil tool message [] = λ e. cc e
or_bucket-ne-nil tool message (f ∷ fs) = λ e. cc e

read-ne-nil :
    (tool message : String) (o : Outcome (List GateFailure))
    → (o >>= λ items. ok (or_bucket tool message items)) ≢ ok []
read-ne-nil tool message (raised error) = λ e. cc e
read-ne-nil tool message (ok items) = λ e. or_bucket-ne-nil tool message items (ground (arith, e))

failed_run-EndedWell :
    (tool message : String) (read : Reader) (r : ToolRun)
    → failed_run tool message read r ≡ ok []
    → EndedWell r
failed_run-EndedWell tool message read skipped h = tt
failed_run-EndedWell tool message read undecodable h = cc h
failed_run-EndedWell tool message read (killed signal printed) h =
    read-ne-nil tool _ (read printed) h
failed_run-EndedWell tool message read (exited code printed) h = elim (Bool-cases (code == 0)) [
  | inl t ↦ (nat_eq.same_iff code 0).0 t
  | inr t ↦
      let bad : (read printed >>= λ items. ok (or_bucket tool (join message (str_nat code)) items))
          ≡ ok [] =
        ground (arith, t, h) in
      absurd (read-ne-nil tool (join message (str_nat code)) (read printed) bad)
]

append_empty : (xs ys : List GateFailure) → xs ++ ys ≡ [] → (xs ≡ []) × (ys ≡ [])
append_empty [] ys h = (refl, h)
append_empty (x ∷ xs) ys h = cc h

on_files :
    (gate : ToolGate) (run : List String → Outcome ToolRun)
    → ((fs : List String) → gate fs ≡ ok [] → (r : ToolRun) × (run fs ≡ ok r) × EndedWell r)
    → (fs : List String) → if_any gate fs ≡ ok []
    → EndedWellOn run fs
on_files gate run well [] h = tt
on_files gate run well (f ∷ fs) h = well (f ∷ fs) h

npm-EndedWell :
    (out : Outside) (files : List String)
    → npm_typecheck_gate out files ≡ ok []
    → (r : ToolRun) × (typecheck_run out files ≡ ok r) × EndedWell r
unfolding npm_typecheck_gate
npm-EndedWell out files h =
    let (r, first, last) = >>=-eq-ok (typecheck_run out files) _ h in
    (r, first, failed_run-EndedWell "npm" "npm run typecheck returned " out.npm_items r last)

pub gate_failures-EndedWell :
    (out : Outside) (files : List String)
    → gate_failures_of out (group_files_by_language files) ≡ ok []
    → CompilersEndedWell out files
unfolding gate_failures_of
gate_failures-EndedWell out files h =
    let g = group_files_by_language files in
    let (ruff, e1, h1) = >>=-eq-ok (if_any (ruff_gate out) g.python_files) _ h in
    let (compileall, e2, h2) = >>=-eq-ok (if_any (compileall_gate out) g.python_files) _ h1 in
    let (mvn, e3, h3) = >>=-eq-ok (if_any (mvn_gate out) g.java_files) _ h2 in
    let (npm, e4, h4) = >>=-eq-ok (if_any (npm_typecheck_gate out) g.ts_files) _ h3 in
    let all : ruff ++ compileall ++ mvn ++ npm ≡ [] = ground (arith, h4) in
    let (first, no_npm) = append_empty (ruff ++ compileall ++ mvn) npm all in
    let (second, no_mvn) = append_empty (ruff ++ compileall) mvn first in
    let (_, no_compileall) = append_empty ruff compileall second in
    record {
      compileall =
          on_files (compileall_gate out) (λ fs. ok (out.run_compileall fs))
            (λ fs e. (
              out.run_compileall fs,
              refl,
              failed_run-EndedWell "compileall" "compileall returned " (read_compileall out)
                  (out.run_compileall fs) (unfold compileall_gate in e),
            ))
            g.python_files (e2 ∙ ap ok no_compileall);
      mvn =
          on_files (mvn_gate out) (λ fs. ok (out.run_mvn fs))
            (λ fs e. (
              out.run_mvn fs,
              refl,
              failed_run-EndedWell "mvn" "mvn compile returned " out.mvn_items (out.run_mvn fs)
                  (unfold mvn_gate in e),
            ))
            g.java_files (e3 ∙ ap ok no_mvn);
      npm =
          on_files (npm_typecheck_gate out) (typecheck_run out) (npm-EndedWell out) g.ts_files
            (e4 ∙ ap ok no_npm);
    }

-- The gate passes exactly without failures.
pub run_deterministic_gate-empty :
    (out : Outside) (files : List String) (gate : Bool × List GateFailure)
    → run_deterministic_gate out files ≡ ok gate
    → (gate.0 ≡ true) ↔ (gate.1 ≡ [])
unfolding run_deterministic_gate
run_deterministic_gate-empty out [] gate h =
    let same : (true, []) ≡ gate = ground (arith, h) in rw (← same) (λ e. refl, λ e. refl)
run_deterministic_gate-empty out (f ∷ fs) gate h =
    let (failures, first, last) =
      >>=-eq-ok (gate_failures_of out (group_files_by_language (f ∷ fs))) _ h in
    let same : (none_left failures, failures) ≡ gate = ground (arith, last) in
    rw (← same) (go failures)
  where
    go : (xs : List GateFailure) → (none_left xs ≡ true) ↔ (xs ≡ [])
    go [] = (λ e. refl, λ e. refl)
    go (x ∷ xs) = (λ e. cc e, λ e. cc e)

pub run_deterministic_gate-EndedWell :
    (out : Outside) (files : List String) (gate : Bool × List GateFailure)
    → run_deterministic_gate out files ≡ ok gate
    → gate.1 ≡ []
    → CompilersEndedWell out files
unfolding run_deterministic_gate group_files_by_language
run_deterministic_gate-EndedWell out [] gate h e = record { compileall = tt; mvn = tt; npm = tt }
run_deterministic_gate-EndedWell out (f ∷ fs) gate h e =
    let (failures, first, last) =
      >>=-eq-ok (gate_failures_of out (group_files_by_language (f ∷ fs))) _ h in
    let same : failures ≡ gate.1 = ground (arith, last) in
    gate_failures-EndedWell out (f ∷ fs) (first ∙ ap ok (same ∙ e))
