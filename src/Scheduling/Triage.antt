-- ===== src/Scheduling/Triage.antt =====
-- core/triage.py: which issues the workers may take on their own, and what is told of the others.
pub mod Classes
pub mod Verdicts
pub mod Escalation
use Prim.Native.String.{◌++◌}
use mathlib.Core.List.{◌++◌ as append}
use tandem_agents.Prelude.{
  ℕ, ◌+◌, String, Bool, true, false, not, ◌&&◌, ◌||◌, Option, none, some, List, [], ◌∷◌, str_eq,
  leb, if◌then◌else◌, length, count, any, strip, lower, str_or, contains, text_length, split_on,
  join_with, sorted_set,
}
use tandem_agents.Coordination.Rows.{Dict, get}
use tandem_agents.Scheduling.Admission.{is_nil}

-- The entries of a task that triage reads, an absent or null one as "". The labels of the task and
-- of its source are empty, and the two lists of criteria absent, where they are not lists.
pub record Issue : Type 0 where
  pub task_key : String
  pub task_id : String
  pub title : String
  pub description : String
  pub raw_issue_body : String
  pub labels : List String
  pub source_labels : List String
  pub contract_criteria : Option (List String)
  pub criteria : Option (List String)
  pub source_type : String

pub data Outcome : Type 0 where
  accepted : Outcome
  refused : Outcome
  needs_clarification : Outcome

pub record Verdict : Type 0 where
  pub verdict : Outcome
  pub issue_class : Option String
  pub reason : String

-- The `triage` section of the configuration; `allowed_classes` is "" where it is not set.
pub record TriageConfig : Type 0 where
  pub enabled : Bool
  pub enforce : Bool
  pub allowed_classes : String

abbrev pub default_allowed_classes : List String
default_allowed_classes = "bug_fix" ∷ "dependency_bump" ∷ "test_backfill" ∷ "small_feature" ∷ []

-- _LABEL_CLASS
abbrev pub label_class : Dict
label_class =
    ("bug", "bug_fix")
    ∷ ("bugfix", "bug_fix")
    ∷ ("bug fix", "bug_fix")
    ∷ ("defect", "bug_fix")
    ∷ ("regression", "bug_fix")
    ∷ ("dependencies", "dependency_bump")
    ∷ ("dependency", "dependency_bump")
    ∷ ("deps", "dependency_bump")
    ∷ ("dependabot", "dependency_bump")
    ∷ ("test", "test_backfill")
    ∷ ("tests", "test_backfill")
    ∷ ("testing", "test_backfill")
    ∷ ("test-coverage", "test_backfill")
    ∷ ("feature", "small_feature")
    ∷ ("enhancement", "small_feature")
    ∷ ("feature-request", "small_feature")
    ∷ []

-- _KEYWORD_RULES
abbrev pub keyword_rules : List (String × List String)
keyword_rules =
    (
      "dependency_bump",
      "bump " ∷ "upgrade dependency" ∷ "update dependency" ∷ "bump version" ∷ "dependabot"
          ∷ "npm audit" ∷ "pip upgrade" ∷ [],
    )
    ∷ (
      "test_backfill",
      "add test" ∷ "add tests" ∷ "backfill test" ∷ "test coverage" ∷ "unit test" ∷ "missing test"
          ∷ "write tests" ∷ [],
    )
    ∷ (
      "bug_fix",
      "fix bug" ∷ "bugfix" ∷ "fix crash" ∷ "fix error" ∷ "regression" ∷ "broken" ∷ "does not work"
          ∷ "doesn't work" ∷ "incorrect" ∷ "fix the" ∷ [],
    )
    ∷ ("small_feature", "add " ∷ "implement " ∷ "support " ∷ "introduce " ∷ "create " ∷ [])
    ∷ []

-- [part.strip() for part in parts if part.strip()]
unfoldable pub stripped : List String → List String
unfolding strip
stripped [] = []
stripped (s ∷ ss) = let rest = stripped ss in if str_eq (strip s) "" then rest else strip s ∷ rest

unfoldable pub lower_all : List String → List String
unfolding lower
lower_all [] = []
lower_all (s ∷ ss) = lower s ∷ lower_all ss

unfoldable pub allowed_classes : TriageConfig → List String
unfolding split_on stripped lower_all is_nil
allowed_classes cfg =
    let classes = lower_all (stripped (split_on b',' cfg.allowed_classes)) in
    if str_eq cfg.allowed_classes "" || is_nil classes then default_allowed_classes else classes

unfoldable pub task_labels : Issue → List String
unfolding stripped lower_all
task_labels t = lower_all (append (stripped t.labels) (stripped t.source_labels))

unfoldable pub task_text : Issue → String
unfolding lower join_with
task_text t = lower (join_with "\n" (t.title ∷ t.description ∷ t.raw_issue_body ∷ []))

unfoldable pub acceptance_criteria : Issue → List String
unfolding stripped
acceptance_criteria t = elim t.contract_criteria [
  | some c ↦ stripped c
  | none ↦ elim t.criteria [ some c ↦ stripped c | none ↦ [] ]
]

-- The class of the first label that has one.
unfoldable pub class_of_labels : List String → Option String
unfolding get
class_of_labels [] = none
class_of_labels (l ∷ ls) =
    let rest = class_of_labels ls in
    if str_eq (get label_class l) "" then rest else some (get label_class l)

-- The class of the first rule with a keyword in the text.
unfoldable pub class_of_text : String → List (String × List String) → Option String
unfolding contains any
class_of_text s [] = none
class_of_text s ((c, keywords) ∷ rules) =
    let rest = class_of_text s rules in if any (λ k. contains k s) keywords then some c else rest

unfoldable pub classify_issue_class : Issue → Option String
unfolding task_labels class_of_labels task_text class_of_text strip
classify_issue_class t = elim (class_of_labels (task_labels t)) [
  | some c ↦ some c
  | none ↦
      if str_eq (strip (task_text t)) "" then none else class_of_text (task_text t) keyword_rules
]

unfoldable pub is_well_specified : Issue → Bool
unfolding acceptance_criteria is_nil str_or strip text_length
is_well_specified t =
    not (is_nil (acceptance_criteria t))
    || leb 200 (text_length (strip (str_or t.raw_issue_body t.description)))

unfoldable pub triage_of_class : TriageConfig → Issue → String → Verdict
unfolding allowed_classes any is_well_specified join_with sorted_set
triage_of_class cfg t c =
    let allow = allowed_classes cfg in
    if not (any (str_eq c) allow)
    then record {
      verdict = refused;
      issue_class = some c;
      reason =
          "Issue class '"
          ++ c
          ++ "' is not in the autonomy allowlist ("
          ++ join_with ", " (sorted_set allow)
          ++ ").";
    }
    else if str_eq c "small_feature" && not (is_well_specified t)
    then record {
      verdict = needs_clarification;
      issue_class = some c;
      reason =
          "Feature is under-specified (no acceptance criteria and a thin description); a human should clarify scope before autonomy.";
    }
    else record {
      verdict = accepted;
      issue_class = some c;
      reason = "Issue class '" ++ c ++ "' is within the autonomy allowlist.";
    }

unfoldable pub triage_task : TriageConfig → Issue → Verdict
unfolding classify_issue_class triage_of_class
triage_task cfg t = elim (classify_issue_class t) [
  | some c ↦ triage_of_class cfg t c
  | none ↦ record {
    verdict = needs_clarification;
    issue_class = none;
    reason =
        "Could not determine a safe issue class from labels or description; a human should scope it.";
  }
]

unfoldable pub is_accepted : Outcome → Bool
is_accepted accepted = true
is_accepted refused = false
is_accepted needs_clarification = false

unfoldable pub is_refused : Outcome → Bool
is_refused refused = true
is_refused accepted = false
is_refused needs_clarification = false

unfoldable pub is_unclear : Outcome → Bool
is_unclear needs_clarification = true
is_unclear accepted = false
is_unclear refused = false

-- The counts of the metric; the rate is `escalated / total`.
pub record Summary : Type 0 where
  pub total : ℕ
  pub accepted : ℕ
  pub refused : ℕ
  pub needs_clarification : ℕ
  pub escalated : ℕ

unfoldable pub summarize_triage : List Verdict → Summary
unfolding count is_accepted is_refused is_unclear
summarize_triage vs =
    let n = count (λ (v : Verdict). is_refused v.verdict) vs in
    let m = count (λ (v : Verdict). is_unclear v.verdict) vs in
    record {
      total = length vs;
      accepted = count (λ (v : Verdict). is_accepted v.verdict) vs;
      refused = n;
      needs_clarification = m;
      escalated = n + m;
    }
