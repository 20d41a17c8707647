-- ===== src/Verification/Policy.antt =====
-- core/verification/verification_policy.py: evaluate_verification_policy. A result is `none` where
-- Python raises a TypeError, at findings that are a number or a truth value.
pub mod Silence
pub mod Decisions
use Prim.Native.String.{◌++◌}
use tandem_agents.Prelude.{
  ℕ, String, Bool, true, false, not, ◌&&◌, ◌||◌, Option, none, some, List, [], ◌∷◌, str_eq, ◌==◌,
  if◌then◌else◌, any, strip, lower, contains,
}
use tandem_agents.Verification.Json.{
  Json, Items, Fields, null, boolean, number, text, array, object, nil, cons, end, field, truthy,
  json_or, get_field, has_field, set_field, str, any_item, all_values, append_items, list_of,
  item_field,
}
use tandem_agents.Verification.RepoTruth.{
  RepoValidation, Check, no_validation, is_some, repo_validation_blocker_message,
  repo_validation_blocker_kind,
}
use tandem_agents.Verification.Reports.{
  dash_to_underscore, Codec, Outcome, pass, repair_needed, human_review_needed, blocked,
  extract_json, normalized_action, is_severe, review_label, test_label, review_status_of,
  test_status_of, fixes_of_values, normalized_fixes, quoted,
}

-- What a worker's command returned: its output, and its code, if it ended. The policy only compares
-- the code with 0, so that a negative one may stand as any other number.
pub record CommandResult : Type 0 where
  pub stdout : String
  pub returncode : Option ℕ

pub record Decision : Type 0 where
  pub outcome : Outcome
  pub failure_category : Option String
  pub review_blocker : Option String
  pub test_blocker : Option String
  pub repo_blocker : Option String
  pub validation_blocker : Option String
  pub should_retry : Bool
  pub review_returncode : Option ℕ
  pub test_returncode : Option ℕ
  pub review_outcome : Outcome
  pub test_outcome : Outcome

-- `a or b` on optional messages, none of which is "".
unfoldable pub message_or : Option String → Option String → Option String
message_or none b = b
message_or (some a) b = some a

unfoldable pub is_human : Outcome → Bool
is_human human_review_needed = true
is_human pass = false
is_human repair_needed = false
is_human blocked = false

unfoldable pub is_blocked : Outcome → Bool
is_blocked blocked = true
is_blocked pass = false
is_blocked repair_needed = false
is_blocked human_review_needed = false

unfoldable pub is_repair : Outcome → Bool
is_repair repair_needed = true
is_repair pass = false
is_repair blocked = false
is_repair human_review_needed = false

no_checks : List Check → Bool
no_checks [] = true
no_checks (c ∷ cs) = false

all_passed : List Check → Bool
unfolding dash_to_underscore lower strip
all_passed [] = true
all_passed (c ∷ cs) = str_eq (dash_to_underscore (lower (strip c.status))) "pass" && all_passed cs

unfoldable pub passed_command_checks : RepoValidation → Bool
unfolding no_checks all_passed
passed_command_checks v =
    v.ok
    && not (no_checks v.command_checks)
    && no_checks v.command_failures
    && all_passed v.command_checks

abbrev pub gap_markers : List String
gap_markers =
    "missing_validation" ∷ "missing validation" ∷ "not successfully run" ∷ "not run"
    ∷ "not executed" ∷ "no validation" ∷ "validation is inconclusive" ∷ "could not run"
    ∷ "unable to run" ∷ "commands were not" ∷ "checks were not" ∷ []

-- A code of 0, or none.
ended_well : Option ℕ → Bool
ended_well none = true
ended_well (some n) = n == 0

is_text : Json → Bool
is_text (text s) = true
is_text null = false
is_text (boolean b) = false
is_text (number is_zero s) = false
is_text (array xs) = false
is_text (object d) = false

abbrev pub known_keys : List String
known_keys =
    "review_status" ∷ "status" ∷ "overall_status" ∷ "verdict" ∷ "next_action" ∷ "action" ∷ "outcome"
    ∷ "findings" ∷ "required_fixes" ∷ "tests" ∷ "validation" ∷ "results" ∷ []

module _ (codec : Codec) where
  unfoldable pub tester_outcome_is_only_missing_validation : Fields → RepoValidation → Bool
  unfolding passed_command_checks truthy get_field any contains lower
  tester_outcome_is_only_missing_validation p v =
      passed_command_checks v
      && not (truthy (get_field "findings" p) || truthy (get_field "required_fixes" p))
      && any (λ m. contains m (lower (codec.dumps p))) gap_markers

  -- The payload with its fixes as a list, and with the fixes read from a payload of bare texts.
  unfoldable pub payload_with_fixes : Fields → Fields
  unfolding set_field get_field has_field any all_values is_text append_items fixes_of_values
      normalized_fixes
  payload_with_fixes p =
      let fixes = normalized_fixes codec (get_field "required_fixes" p) in
      let q = set_field "required_fixes" (array fixes) p in
      if not (any (λ k. has_field k q) known_keys) && all_values is_text q
      then set_field "required_fixes" (array (append_items fixes (fixes_of_values codec q))) q
      else q

  unfoldable pub review_message : Outcome × Option String → Fields → Items → String → Option String
  unfolding any_item is_severe truthy get_field message_or quoted
  review_message (pass, m) p findings status = none
  review_message (human_review_needed, m) p findings status = m
  review_message (repair_needed, m) p findings status =
      if any_item (is_severe codec) findings
      then some "Reviewer reported high-severity findings."
      else if truthy (get_field "required_fixes" p)
      then some "Reviewer reported required fixes."
      else message_or m (some "Reviewer reported required fixes.")
  review_message (blocked, m) p findings status =
      if not (str_eq status "")
      then some (quoted "Reviewer status is" status)
      else message_or m (some "Reviewer blocked the run.")

  unfoldable pub review_blocker_message : CommandResult → Option (Option String)
  unfolding extract_json payload_with_fixes review_status_of list_of review_label review_message
  review_blocker_message result =
      let p = payload_with_fixes (extract_json codec result.stdout) in
      let status = review_status_of codec p in
      elim (list_of (get_field "findings" p)) [
        | none ↦ none
        | some findings ↦
            some (review_message (review_label codec status p findings) p findings status)
      ]

  unfoldable pub test_message : Outcome × Option String → (only_missing : Bool) → Option String
  unfolding is_human is_blocked
  test_message (pass, m) only_missing = none
  test_message (repair_needed, m) only_missing = m
  test_message (human_review_needed, m) only_missing = if only_missing then none else m
  test_message (blocked, m) only_missing = if only_missing then none else m

  unfoldable pub test_blocker_message : CommandResult → RepoValidation → Option (Option String)
  unfolding extract_json test_status_of list_of test_label test_message
      tester_outcome_is_only_missing_validation
  test_blocker_message result v =
      let p = extract_json codec result.stdout in
      elim (list_of (get_field "findings" p)) [
        | none ↦ none
        | some findings ↦ some (
            test_message (test_label codec (test_status_of codec p) p)
              (tester_outcome_is_only_missing_validation p v))
      ]

  -- The outcome of the tester, which passes where only validation was missing that did run.
  unfoldable pub adjusted_test_outcome : Outcome → (only_missing : Bool) → Outcome
  unfolding is_human is_blocked
  adjusted_test_outcome o only_missing =
      if (is_human o || is_blocked o) && only_missing then pass else o

-- The outcome, of those of the reviewer and the tester.
unfoldable pub combined_outcome : Outcome → Outcome → Option String → Outcome
unfolding is_human is_blocked is_repair is_some
combined_outcome review test repo_blocker =
    if is_human review || is_human test
    then human_review_needed
    else if is_blocked review || is_blocked test || is_some repo_blocker
    then blocked
    else if is_repair review || is_repair test
    then repair_needed
    else pass

-- The blocker that is told, and the category of the failure.
unfoldable pub blocker_and_category :
    (review test : Outcome)
    → (review_blocker test_blocker : Option String) → RepoValidation
    → Option String × Option String
unfolding is_human is_blocked is_repair is_some message_or repo_validation_blocker_message
    repo_validation_blocker_kind
blocker_and_category review test review_blocker test_blocker v =
    let repo_blocker = repo_validation_blocker_message v in
    let review_first = message_or (message_or review_blocker test_blocker) repo_blocker in
    let test_first = message_or (message_or test_blocker review_blocker) repo_blocker in
    if is_human review
    then (review_first, some "review_human_review_needed")
    else if is_human test
    then (test_first, some "test_human_review_needed")
    else if is_repair review
    then (review_first, some "review_repair_needed")
    else if is_repair test
    then (test_first, some "test_repair_needed")
    else if is_blocked review
    then (review_first, some "review_blocked")
    else if is_blocked test
    then (test_first, some "test_blocked")
    else (
      message_or (message_or repo_blocker review_blocker) test_blocker,
      if is_some repo_blocker || v.verification_missing
          then repo_validation_blocker_kind v
          else none,
    )

-- The decision, of the two outcomes and the two messages.
unfoldable pub decide :
    (review test : Outcome)
    → (review_blocker test_blocker : Option String) → RepoValidation
    → (review_result test_result : CommandResult) → Decision
unfolding combined_outcome blocker_and_category is_repair is_some ended_well
    repo_validation_blocker_message
decide review test review_blocker test_blocker v review_result test_result =
    let repo_blocker = repo_validation_blocker_message v in
    let told = blocker_and_category review test review_blocker test_blocker v in
    record {
      outcome = combined_outcome review test repo_blocker;
      failure_category = told.1;
      review_blocker = review_blocker;
      test_blocker = test_blocker;
      repo_blocker = repo_blocker;
      validation_blocker = told.0;
      should_retry =
          (is_repair review || is_repair test)
          && (ended_well review_result.returncode
              || ended_well test_result.returncode
              || is_some told.0
              || is_some repo_blocker);
      review_returncode = review_result.returncode;
      test_returncode = test_result.returncode;
      review_outcome = review;
      test_outcome = test;
    }

validation_or_empty : Option RepoValidation → RepoValidation
validation_or_empty none = no_validation
validation_or_empty (some v) = v

module _ (codec : Codec) where
  pub review_outcome_of : CommandResult → Option Outcome
  unfolding extract_json list_of get_field review_label review_status_of
  review_outcome_of result =
      let p = extract_json codec result.stdout in
      elim (list_of (get_field "findings" p)) [
        | none ↦ none
        | some findings ↦ some (review_label codec (review_status_of codec p) p findings).0
      ]

  pub test_outcome_of : CommandResult → RepoValidation → Option Outcome
  unfolding extract_json list_of get_field test_label test_status_of adjusted_test_outcome
      tester_outcome_is_only_missing_validation
  test_outcome_of result v =
      let p = extract_json codec result.stdout in
      elim (list_of (get_field "findings" p)) [
        | none ↦ none
        | some findings ↦ some (
            adjusted_test_outcome codec (test_label codec (test_status_of codec p) p).0
              (tester_outcome_is_only_missing_validation codec p v))
      ]

  unfoldable pub evaluate_verification_policy :
      (review_result test_result : CommandResult) → Option RepoValidation → Option Decision
  unfolding review_blocker_message test_blocker_message review_outcome_of test_outcome_of decide
      validation_or_empty
  evaluate_verification_policy review_result test_result validation =
      let v = validation_or_empty validation in
      elim (review_blocker_message codec review_result) [
        | none ↦ none
        | some review_blocker ↦ elim (test_blocker_message codec test_result v) [
          | none ↦ none
          | some test_blocker ↦ elim (review_outcome_of review_result) [
            | none ↦ none
            | some review ↦ elim (test_outcome_of test_result v) [
              | none ↦ none
              | some test ↦
                  some (decide review test review_blocker test_blocker v review_result test_result)
            ]
          ]
        ]
      ]
