-- ===== src/Critic/Judge.antt =====
-- critic_repo.py: the criteria, and the judge's answer on them.
use Prim.Native.Char.{Char, code}
use twai_swarm.Prelude.{
  ℕ, suc, String, Bool, not, Option, none, some, List, [], ◌∷◌, ◌++◌, string_eq, ◌==◌, nat_beq,
  starts_with, is_word, ends_with, is_space, strip, drop_first, drop_last, str_nat, join,
  without_suffix, if◌then◌else◌, Outcome, ok, raised, no_attribute, ◌>>=◌,
}
use twai_swarm.Reviewer.{GateFailure}
use twai_swarm.Critic.Types.{
  block, CriticFailure, Subtask, Json, get_member, string, object, Members, no_member, member_of,
  extraction_failed, extracted, JudgeCall, judge_failed, judged, Outside,
}

-- The criteria of a subtask that are not empty, with the subtask's id.
unfoldable pub criteria_of : String → List String → List (String × String)
criteria_of sid [] = []
criteria_of sid (c ∷ cs) =
    let rest = criteria_of sid cs in if c == "" then rest else (sid, c) ∷ rest

-- `_flatten_acceptance_criteria`; the index of a criterion is its place in the list.
unfoldable pub flatten_acceptance_criteria : List Subtask → List (String × String)
flatten_acceptance_criteria [] = []
flatten_acceptance_criteria (s ∷ ss) =
    criteria_of s.id s.acceptance_criteria ++ flatten_acceptance_criteria ss

abbrev pub is_backquote : Char → Bool
is_backquote c = nat_beq (code c) b'`'

-- `if s.lower().startswith("json"): s = s[4:].lstrip()`
abbrev pub without_json : String → String
without_json s = elim s [
  | String.◌∷◌ a (String.◌∷◌ b (String.◌∷◌ c (String.◌∷◌ d rest))) ↦
      if is_word (String.◌∷◌ a (String.◌∷◌ b (String.◌∷◌ c (String.◌∷◌ d String.[])))) "json"
      then drop_first is_space rest
      else String.◌∷◌ a (String.◌∷◌ b (String.◌∷◌ c (String.◌∷◌ d rest)))
  | other ↦ other
]

abbrev pub without_last_fence : String → String
without_last_fence s = if ends_with s "```" then drop_last is_space (without_suffix "```" s) else s

-- The answer without a fence of Markdown around it.
unfoldable pub without_fences : String → String
without_fences text =
    let stripped = strip is_space text in
    if starts_with "```" stripped
    then without_last_fence (without_json (strip is_backquote stripped))
    else stripped

abbrev pub is_not : ℕ → Char → Bool
is_not n c = not (nat_beq (code c) n)

-- From the first opening brace to the last closing one, empty where there are none in this order.
unfoldable pub braced : String → String
braced s = drop_last (is_not b'}') (drop_first (is_not b'{') s)

abbrev pub no_object : Json
no_object = object no_member

-- `_parse_judge_response`: the object without members where nothing can be read.
unfoldable pub parse_judge_response : Outside → String → Json
parse_judge_response out text = elim (out.loads (without_fences text)) [
  | some json ↦ if text == "" then no_object else json
  | none ↦
      if braced (without_fences text) == ""
      then no_object
      else elim (out.loads (braced (without_fences text))) [ some json ↦ json | none ↦ no_object ]
]

-- `str(item.get(key, ""))`
unfoldable pub text_at : Outside → String → Members → String
text_at out key members = elim (get_member key members) [
  | none ↦ ""
  | some json ↦ elim json [ string s ↦ s | other ↦ out.str_of other ]
]

-- The members of an item, where it is an object that has some.
abbrev pub item_members : Option Json → Option Members
item_members none = none
item_members (some (object (member_of k v rest))) = some (member_of k v rest)
item_members (some _) = none

abbrev pub blocking : String → String → CriticFailure
blocking criterion evidence = record {
  criterion = criterion;
  evidence = evidence;
  severity = block;
}

-- The criteria that passed, and the failures.
abbrev pub Grades : Type 0
Grades = List String × List CriticFailure

abbrev pub evidence_or : String → String
evidence_or evidence = if evidence == "" then "(no evidence)" else evidence

-- One round over the criteria.
abbrev pub put_grade : Outside → String → Option Members → Grades → Grades
put_grade out text none (passed, failed) =
    (passed, blocking text "judge did not return a verdict for this item" ∷ failed)
put_grade out text (some members) (passed, failed) =
    if is_word (strip is_space (text_at out "status" members)) "yes"
    then (text ∷ passed, failed)
    else (
      passed,
      blocking text (evidence_or (strip is_space (text_at out "evidence" members))) ∷ failed,
    )

-- The loop over the criteria, from the index `n` on.
unfoldable pub grade_from : Outside → Members → ℕ → List (String × String) → Grades
grade_from out parsed n [] = ([], [])
grade_from out parsed n ((sid, text) ∷ criteria) =
    put_grade out text (item_members (get_member (str_nat n) parsed))
      (grade_from out parsed (suc n) criteria)

-- `parsed.get` exists for an object alone.
unfoldable pub grade_all : Outside → Json → List (String × String) → Outcome Grades
grade_all out (object members) criteria = ok (grade_from out members 0 criteria)
grade_all out _ criteria = raised no_attribute

-- What a failed call of the judge makes of each criterion.
abbrev pub unavailable : String → String
unavailable name = join "judge unavailable (" (join name "); treat as failure for safety")

unfoldable pub all_failed : String → List (String × String) → List CriticFailure
all_failed evidence [] = []
all_failed evidence ((sid, text) ∷ criteria) = blocking text evidence ∷ all_failed evidence criteria

-- What the judge gives back, with the tokens in and out.
pub record Graded : Type 0 where
  pub passed : List String
  pub failed : List CriticFailure
  pub tokens_in : ℕ
  pub tokens_out : ℕ

abbrev pub nothing_graded : Graded
nothing_graded = record { passed = []; failed = []; tokens_in = 0; tokens_out = 0 }

abbrev pub with_answer : Outside → List (String × String) → JudgeCall → Outcome Graded
with_answer out criteria (judge_failed name) =
    ok (record nothing_graded { failed = all_failed (unavailable name) criteria })
with_answer out criteria (judged text tokens_in tokens_out) =
    grade_all out (parse_judge_response out text) criteria >>= λ grades. ok (record {
      passed = grades.0;
      failed = grades.1;
      tokens_in = tokens_in;
      tokens_out = tokens_out;
    })

unfoldable pub run_llm_checklist_judge :
    Outside → List Subtask → String → List (String × String) → List GateFailure → Outcome Graded
run_llm_checklist_judge out subtasks coder_diff files gate_failures =
    elim (flatten_acceptance_criteria subtasks) [
      | [] ↦ ok nothing_graded
      | c ∷ cs ↦ with_answer out (c ∷ cs) (out.ask_judge (c ∷ cs) coder_diff files gate_failures)
    ]

unfoldable pub nonempty : List String → List String
nonempty [] = []
nonempty (s ∷ ss) = let rest = nonempty ss in if s == "" then rest else s ∷ rest

-- The criteria of the first block that carries some.
unfoldable pub first_list : List (Option (List String)) → List String
first_list [] = []
first_list (none ∷ blocks) = first_list blocks
first_list (some criteria ∷ blocks) = nonempty criteria

-- `_extract_criteria_from_brief`
unfoldable pub extract_criteria_from_brief : Outside → String → List String × ℕ × ℕ
extract_criteria_from_brief out brief =
    let asked : List String × ℕ × ℕ = elim (out.ask_criteria brief) [
      | extraction_failed ↦ ([], 0, 0)
      | extracted blocks tokens_in tokens_out ↦ (first_list blocks, tokens_in, tokens_out)
    ] in
    if strip is_space brief == "" then ([], 0, 0) else asked
