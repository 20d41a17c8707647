-- ===== src/Contracts/Validation.antt =====
-- core/task_contract.py: task_contract_completeness and task_plan_validation, of the contract that
-- task_contract_payload gives.
use Prim.Native.String as NativeString
use Prim.Native.String.{◌++◌}
use mathlib.Core.List.{◌++◌ as append}
use tandem_agents.Prelude.{
  ℕ, suc, String, Bool, true, false, not, ◌&&◌, ◌||◌, Option, none, some, List, [], ◌∷◌, str_eq,
  if◌then◌else◌, select, fetch_one, any, str_or, starts_with, join_with,
}
use tandem_agents.Verification.Json.{
  Json, Items, Fields, null, boolean, number, text, array, object, nil, cons, end, field, truthy,
  json_or, get_field,
}
use tandem_agents.ExternalActions.Numbers.{decimal}
use tandem_agents.Contracts.Paths.{normalize_repo_relative_path, normalize_text, coerce_text_list}

-- The entries of a contract that are read here.
pub record Contract : Type 0 where
  pub program_goal : Json
  pub local_goal : Json
  pub acceptance_criteria : Json
  pub target_files : Json
  pub deliverables : Json
  pub verification_commands : Json
  pub subtasks : Json
  pub out_of_scope : Items

pub record Completeness : Type 0 where
  pub ok : Bool
  pub issues : List String
  pub blocker_message : Option String

unfoldable pub no_issues {ℓ} : {A : Type ℓ} → List A → Bool
no_issues [] = true
no_issues (x ∷ xs) = false

pub data Issue : Type 0 where
  missing_goal : (subtask : String) → Issue
  missing_acceptance_criteria : (subtask : String) → Issue
  absolute_file_path : (subtask detail : String) → Issue
  out_of_scope_conflict : (subtask detail : String) → Issue

issue_text : Issue → String
issue_text (missing_goal t) = "missing_goal (" ++ t ++ ")"
issue_text (missing_acceptance_criteria t) = "missing_acceptance_criteria (" ++ t ++ ")"
issue_text (absolute_file_path t d) = "absolute_file_path (" ++ t ++ ")"
issue_text (out_of_scope_conflict t d) = "out_of_scope_conflict (" ++ t ++ ")"

issue_texts : List Issue → List String
unfolding issue_text
issue_texts [] = []
issue_texts (i ∷ is) = issue_text i ∷ issue_texts is

pub record Validation : Type 0 where
  pub ok : Bool
  pub issues : List Issue
  pub blocker_message : Option String

abbrev pub acceptance_keys : List String
acceptance_keys =
    "acceptance_criteria" ∷ "acceptance" ∷ "acceptance_checklist" ∷ "validation" ∷ "required_work"
    ∷ "scope" ∷ "objective" ∷ "verification" ∷ "expected_verification" ∷ "instructions" ∷ "handoff"
    ∷ "deliverables" ∷ "deliverable" ∷ []

-- The entry of the first key that is true, or else that of the last one.
first_true : List String → Fields → Json
unfolding get_field truthy
first_true [] d = null
first_true (k ∷ []) d = get_field k d
first_true (k ∷ j ∷ ks) d =
    let rest = first_true (j ∷ ks) d in if truthy (get_field k d) then get_field k d else rest

characters : String → Items
characters NativeString.[] = nil
characters (NativeString.◌∷◌ c s) = cons (text (NativeString.◌∷◌ c NativeString.[])) (characters s)

keys : Fields → Items
keys end = nil
keys (field k v d) = cons (text k) (keys d)

-- list(value or []); `none` is a TypeError.
unfoldable pub iterated : Json → Option Items
unfolding truthy characters keys
iterated (array xs) = some xs
iterated (text s) = some (characters s)
iterated (object d) = some (keys d)
iterated null = some nil
iterated (boolean b) = if b then none else some nil
iterated (number z s) = if z then some nil else none

module _ (show : Json → String) where
  unfoldable pub task_contract_completeness : Contract → (title description : Json) → Completeness
  unfolding truthy normalize_text join_with no_issues
  task_contract_completeness c title description =
      let has_goal =
        truthy c.program_goal
        || truthy c.local_goal
        || not (str_eq (normalize_text show title) "")
        || not (str_eq (normalize_text show description) "") in
      let has_contract =
        truthy c.acceptance_criteria
        || truthy c.target_files
        || truthy c.deliverables
        || truthy c.verification_commands
        || truthy c.subtasks in
      let issues : List String =
        append (if has_goal then [] else "missing_goal" ∷ [])
          (if has_contract then [] else "missing_execution_contract" ∷ []) in
      record {
        ok = no_issues issues;
        issues = issues;
        blocker_message =
            if no_issues issues
            then none
            else some ("Task contract is incomplete: " ++ join_with ", " issues);
      }

  unfoldable pub file_texts : Items → List String
  unfolding normalize_text
  file_texts nil = []
  file_texts (cons x xs) =
      let rest = file_texts xs in
      if str_eq (normalize_text show x) "" then rest else normalize_text show x ∷ rest

  -- _normalize_repo_relative_path of each entry that is not blank.
  unfoldable pub scopes_of : Items → List String
  unfolding normalize_text normalize_repo_relative_path
  scopes_of nil = []
  scopes_of (cons x xs) =
      let rest = scopes_of xs in
      if str_eq (normalize_text show x) ""
      then rest
      else normalize_repo_relative_path (normalize_text show x) ∷ rest

  -- The file is out of scope, or lies below something that is.
  unfoldable pub conflicts : List String → String → Bool
  unfolding any normalize_repo_relative_path starts_with
  conflicts scopes file =
      let path = normalize_repo_relative_path file in
      any (str_eq path) scopes
      || any (λ scope. not (str_eq scope "") && starts_with (scope ++ "/") path) scopes

  unfoldable pub requires_changes : Contract → Bool
  unfolding truthy
  requires_changes c =
      truthy c.target_files || truthy c.deliverables || truthy c.verification_commands

  unfoldable pub title_of : ℕ → Fields → String
  unfolding normalize_text get_field str_or decimal
  title_of index d =
      str_or (normalize_text show (get_field "title" d)) ("Subtask " ++ decimal index)

  unfoldable pub goal_of : (title : String) → Fields → String
  unfolding normalize_text get_field json_or
  goal_of title d =
      normalize_text show
        (json_or (json_or (get_field "goal" d) (get_field "description" d)) (text title))

  unfoldable pub acceptance_of : Fields → List String
  unfolding first_true coerce_text_list
  acceptance_of d = coerce_text_list show (first_true acceptance_keys d)

  -- The issues of one subtask with these files.
  unfoldable pub issues_of : Contract → ℕ → Fields → (files : List String) → List Issue
  unfolding title_of goal_of acceptance_of requires_changes no_issues select starts_with join_with
      conflicts scopes_of fetch_one
  issues_of c index d files =
      let title = title_of index d in
      let absolute = select (starts_with "/") files in
      let conflict : List Issue = elim (fetch_one (conflicts (scopes_of c.out_of_scope)) files) [
        | none ↦ []
        | some file ↦ out_of_scope_conflict title file ∷ []
      ] in
      append (if str_eq (goal_of title d) "" then missing_goal title ∷ [] else []) (
        append
          (if requires_changes c && no_issues (acceptance_of d)
            then missing_acceptance_criteria title ∷ []
            else [])
          (append
            (if no_issues absolute
              then []
              else absolute_file_path title (join_with ", " absolute) ∷ [])
            conflict))

  -- The loop over the subtasks; those that are no dictionary are skipped.
  unfoldable pub plan_issues : Contract → ℕ → Items → Option (List Issue)
  unfolding iterated get_field issues_of file_texts
  plan_issues c index nil = some []
  plan_issues c index (cons (object d) rest) =
      let later = plan_issues c (suc index) rest in
      elim (iterated (get_field "files" d)) [
        | none ↦ none
        | some files ↦ elim later [
          | none ↦ none
          | some issues ↦ some (append (issues_of c index d (file_texts files)) issues)
        ]
      ]
  plan_issues c index (cons null rest) = plan_issues c (suc index) rest
  plan_issues c index (cons (boolean b) rest) = plan_issues c (suc index) rest
  plan_issues c index (cons (number z s) rest) = plan_issues c (suc index) rest
  plan_issues c index (cons (text s) rest) = plan_issues c (suc index) rest
  plan_issues c index (cons (array xs) rest) = plan_issues c (suc index) rest

  unfoldable pub task_plan_validation : Contract → Items → Option Validation
  unfolding plan_issues no_issues issue_texts join_with
  task_plan_validation c subtasks = elim (plan_issues c 1 subtasks) [
    | none ↦ none
    | some issues ↦ some (record {
      ok = no_issues issues;
      issues = issues;
      blocker_message =
          if no_issues issues
          then none
          else some
              ("Subtask plan is incomplete or unsafe: " ++ join_with "; " (issue_texts issues));
    })
  ]
