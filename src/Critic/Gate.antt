-- ===== src/Critic/Gate.antt =====
-- critic_repo.py: the deterministic gate.
use twai_swarm.Prelude.{
  String, Bool, true, false, ◌||◌, Option, none, some, is_some, Outcome, ok, raised, no_attribute,
  bad_encoding, ◌>>=◌, List, [], ◌∷◌, ◌++◌, string_eq, nat_eq, ◌==◌, leb, member, ends_with, join,
  str_nat, if◌then◌else◌,
}
use twai_swarm.Reviewer.{GateFailure}
use twai_swarm.Critic.Types.{
  ToolRun, skipped, exited, killed, undecodable, Json, object, get_member, unreadable, no_utf8,
  has_text, Outside,
}

pub data Language : Type 0 where
  python java ts cpp other : Language

abbrev pub ends_with_any : List String → String → Bool
ends_with_any [] file = false
ends_with_any (suffix ∷ suffixes) file = ends_with file suffix || ends_with_any suffixes file

-- The chain of tests of the loop.
unfoldable pub language_of : String → Language
language_of file =
    if ends_with file ".py"
    then python
    else if ends_with file ".java"
    then java
    else if ends_with_any (".ts" ∷ ".tsx" ∷ ".js" ∷ ".jsx" ∷ []) file
    then ts
    else if ends_with_any (".c" ∷ ".cpp" ∷ ".cc" ∷ ".cxx" ∷ ".h" ∷ ".hpp" ∷ ".hxx" ∷ []) file
    then cpp
    else other

pub record LanguageGroups : Type 0 where
  pub python_files : List String
  pub java_files : List String
  pub ts_files : List String
  pub cpp_files : List String
  pub other_files : List String

abbrev pub no_groups : LanguageGroups
no_groups = record {
  python_files = [];
  java_files = [];
  ts_files = [];
  cpp_files = [];
  other_files = [];
}

-- The file stands before those that come after it.
abbrev pub put_file : Language → String → LanguageGroups → LanguageGroups
put_file python f g = record g { python_files = f ∷ g.python_files }
put_file java f g = record g { java_files = f ∷ g.java_files }
put_file ts f g = record g { ts_files = f ∷ g.ts_files }
put_file cpp f g = record g { cpp_files = f ∷ g.cpp_files }
put_file other f g = record g { other_files = f ∷ g.other_files }

unfoldable pub group_files_by_language : List String → LanguageGroups
group_files_by_language [] = no_groups
group_files_by_language (f ∷ fs) = put_file (language_of f) f (group_files_by_language fs)

abbrev pub whole_file : String → String → String → GateFailure
whole_file tool file message = record { tool = tool; file = file; line = none; message = message }

-- ruff ran if its code is 0 or 1.
unfoldable pub ruff_gate : Outside → List String → Outcome (List GateFailure)
ruff_gate out files = elim (out.run_ruff files) [
  | skipped ↦ ok []
  | killed signal printed ↦ ok []
  | undecodable ↦ raised bad_encoding
  | exited code printed ↦ if leb code 1 then out.ruff_items printed else ok []
]

-- A failure for each file, once.
unfoldable pub compile_failures : List String → List String → List GateFailure
compile_failures seen [] = []
compile_failures seen (file ∷ files) =
    let again = compile_failures seen files in
    let first =
      whole_file "compileall" file "syntax error (see compileall output)"
      ∷ compile_failures (file ∷ seen) files in
    if member file seen then again else first

-- One failure that names no file, where the tool failed and nothing could be read.
abbrev pub or_bucket : String → String → List GateFailure → List GateFailure
or_bucket tool message [] = whole_file tool "(unknown)" message ∷ []
or_bucket tool message (f ∷ fs) = f ∷ fs

abbrev pub Reader : Type 0
Reader = String → Outcome (List GateFailure)

-- The failures of a tool whose code is not 0, read from what it printed.
abbrev pub failed_run : String → String → Reader → ToolRun → Outcome (List GateFailure)
failed_run tool message read skipped = ok []
failed_run tool message read undecodable = raised bad_encoding
failed_run tool message read (killed signal printed) =
    read printed >>= λ items. ok (or_bucket tool (join message (join "-" (str_nat signal))) items)
failed_run tool message read (exited code printed) =
    let failures =
      read printed >>= λ items. ok (or_bucket tool (join message (str_nat code)) items) in
    if code == 0 then ok [] else failures

abbrev pub read_compileall : Outside → Reader
read_compileall out printed =
    out.compileall_files printed >>= λ files. ok (compile_failures [] files)

unfoldable pub compileall_gate : Outside → List String → Outcome (List GateFailure)
compileall_gate out files =
    failed_run "compileall" "compileall returned " (read_compileall out) (out.run_compileall files)

unfoldable pub mvn_gate : Outside → List String → Outcome (List GateFailure)
mvn_gate out files = failed_run "mvn" "mvn compile returned " out.mvn_items (out.run_mvn files)

abbrev pub has_typecheck : Option Json → Bool
has_typecheck (some (object scripts)) = is_some (get_member "typecheck" scripts)
has_typecheck _ = false

-- `meta.get` exists for an object alone.
abbrev pub typecheck_of : Json → Outcome Bool
typecheck_of (object members) = ok (has_typecheck (get_member "scripts" members))
typecheck_of _ = raised no_attribute

-- `package.json` defines the script.
unfoldable pub typecheck_listed : Outside → Outcome Bool
typecheck_listed out = elim out.package_json [
  | unreadable ↦ ok false
  | no_utf8 ↦ raised bad_encoding
  | has_text content ↦ elim (out.loads content) [ none ↦ ok false | some meta ↦ typecheck_of meta ]
]

unfoldable pub typecheck_run : Outside → List String → Outcome ToolRun
typecheck_run out files =
    let run =
      typecheck_listed out >>= λ listed. ok (if listed then out.run_npm files else skipped) in
    if out.npm_ready then run else ok skipped

unfoldable pub npm_typecheck_gate : Outside → List String → Outcome (List GateFailure)
npm_typecheck_gate out files = typecheck_run out files >>= λ run.
    failed_run "npm" "npm run typecheck returned " out.npm_items run

abbrev pub ToolGate : Type 0
ToolGate = List String → Outcome (List GateFailure)

-- A gate runs where there are files for it.
abbrev pub if_any : ToolGate → List String → Outcome (List GateFailure)
if_any gate [] = ok []
if_any gate (f ∷ fs) = gate (f ∷ fs)

abbrev pub none_left : List GateFailure → Bool
none_left [] = true
none_left (_ ∷ _) = false

unfoldable pub gate_failures_of : Outside → LanguageGroups → Outcome (List GateFailure)
gate_failures_of out groups = if_any (ruff_gate out) groups.python_files >>= λ ruff.
    if_any (compileall_gate out) groups.python_files >>= λ compileall.
    if_any (mvn_gate out) groups.java_files >>= λ mvn.
    if_any (npm_typecheck_gate out) groups.ts_files >>= λ npm. ok (ruff ++ compileall ++ mvn ++ npm)

unfoldable pub run_deterministic_gate : Outside → List String → Outcome (Bool × List GateFailure)
run_deterministic_gate out [] = ok (true, [])
run_deterministic_gate out (f ∷ fs) =
    gate_failures_of out (group_files_by_language (f ∷ fs)) >>= λ failures.
    ok (none_left failures, failures)
