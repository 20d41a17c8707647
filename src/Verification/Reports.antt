-- ===== src/Verification/Reports.antt =====
-- core/verification/verification_policy.py: what the answers of the reviewer and of the tester say,
-- as `_extract_json`, `_severity_label` and the two blocker messages read them.
use Prim.Native.Char.{Char, code}
use Prim.Native.String.{◌++◌}
use Prim.Native.String.{[] as empty, ◌∷◌ as char}
use tandem_agents.Prelude.{
  ℕ, String, Bool, not, ◌||◌, Option, none, some, List, [], ◌∷◌, str_eq, ◌==◌, if◌then◌else◌, any,
  strip, lower, str_or, lstrip_by, rstrip_by,
}
use tandem_agents.Verification.Json.{
  Json, Items, Fields, null, boolean, number, text, array, object, nil, cons, end, field, truthy,
  json_or, get_field, str, any_item, append_items, item_field,
}

-- Python's json.loads (no result where it raises), json.dumps with sorted keys, and `str` of a list
-- or a dictionary.
pub record Codec : Type 0 where
  pub loads : String → Option Json
  pub dumps : Fields → String
  pub show : Json → String

pub data Outcome : Type 0 where
  pass : Outcome
  repair_needed : Outcome
  human_review_needed : Outcome
  blocked : Outcome

abbrev pub repair_actions : List String
repair_actions =
    "repair_needed" ∷ "repair" ∷ "retry" ∷ "needs_changes" ∷ "changes_requested" ∷ "fix_required"
    ∷ "revise" ∷ "fail" ∷ "failed" ∷ []

abbrev pub human_review_actions : List String
human_review_actions =
    "human_review_needed" ∷ "human_review" ∷ "human_review_required" ∷ "manual_review"
    ∷ "needs_human_review" ∷ "review_inconclusive_verification_required" ∷ []

abbrev pub blocked_actions : List String
blocked_actions = "blocked" ∷ "pending" ∷ "in_progress" ∷ "error" ∷ "incomplete" ∷ "unknown" ∷ []

abbrev pub severe : List String
severe = "critical" ∷ "high" ∷ "error" ∷ "blocking" ∷ "blocker" ∷ "fatal" ∷ []

abbrev pub waiting : List String
waiting = "blocked" ∷ "pending" ∷ "in_progress" ∷ []

abbrev pub test_failures : List String
test_failures = "fail" ∷ "failed" ∷ "error" ∷ []

unfoldable pub one_of : List String → String → Bool
unfolding any
one_of words s = any (str_eq s) words

unfoldable pub dash_to_underscore : String → String
dash_to_underscore empty = empty
dash_to_underscore (char c s) =
    let rest = dash_to_underscore s in if code c == b'-' then char "_" rest else char c rest

is_code : ℕ → Char → Bool
is_code n c = code c == n

-- The candidate text[first:last + 1] between the first "{" and the last "}"; "" if there is none.
unfoldable pub braced : String → String
unfolding lstrip_by rstrip_by is_code
braced s = strip (rstrip_by (λ c. not (is_code 125 c)) (lstrip_by (λ c. not (is_code 123 c)) s))

dict_of : Option Json → Option Fields
dict_of (some (object d)) = some d
dict_of (some other) = none
dict_of none = none

-- `_extract_json(text) or {}`
unfoldable pub extract_json : Codec → String → Fields
unfolding dict_of braced
extract_json codec s =
    let from_braces =
      if str_eq (braced s) ""
      then end
      else elim (dict_of (codec.loads (braced s))) [ some d ↦ d | none ↦ end ] in
    if str_eq (strip s) ""
    then end
    else elim (dict_of (codec.loads (strip s))) [ some d ↦ d | none ↦ from_braces ]

unfoldable pub quoted : String → String → String
quoted label s = label ++ " `" ++ s ++ "`."

-- The label of a review, by the tests in their order, with the messages for a person and for a
-- blocked run.
unfoldable pub label_of_tests :
    (human repair severe_findings required_fixes is_blocked : Bool)
    → (human_message blocked_message : Option String) → Outcome × Option String
label_of_tests human repair severe_findings required_fixes is_blocked m n =
    if human
    then (human_review_needed, m)
    else if repair
    then (repair_needed, some "Reviewer reported required fixes.")
    else if severe_findings
    then (repair_needed, some "Reviewer reported high-severity findings.")
    else if required_fixes
    then (repair_needed, some "Reviewer reported required fixes.")
    else if is_blocked
    then (blocked, n)
    else (pass, none)

module _ (codec : Codec) where
  -- str(value or "").strip().lower()
  unfoldable pub normalized_text : Json → String
  unfolding truthy str strip lower
  normalized_text v = if truthy v then lower (strip (str codec.show v)) else ""

  unfoldable pub normalized_action : Json → String
  unfolding normalized_text dash_to_underscore
  normalized_action v = dash_to_underscore (normalized_text v)

  unfoldable pub is_severe : Json → Bool
  unfolding item_field one_of normalized_action
  is_severe finding = item_field (λ v. one_of severe (normalized_action v)) "severity" finding

  unfoldable pub next_action_of : Fields → String
  unfolding json_or get_field normalized_action
  next_action_of p =
      normalized_action (
        json_or (json_or (get_field "next_action" p) (get_field "action" p))
          (get_field "outcome" p))

  -- The status of a tester's `results`.
  unfoldable pub results_status_of : Fields → String
  unfolding get_field any_item item_field one_of normalized_action json_or
  results_status_of p =
      let overall = normalized_action (json_or (get_field "overall_status" p) (text "")) in
      elim (get_field "results" p) [
        | text s ↦ normalized_action (text s)
        | array rs ↦
            if any_item (item_field (λ v. one_of test_failures (normalized_action v)) "status") rs
            then "failed"
            else if any_item (item_field (λ v. one_of waiting (normalized_action v)) "status") rs
            then "blocked"
            else "pass"
        | _ ↦ overall
      ]

  -- `_severity_label(review_status, payload, source="review")`, of a payload whose findings are this
  -- list.
  unfoldable pub review_label : String → Fields → Items → Outcome × Option String
  unfolding next_action_of any_item is_severe truthy get_field one_of quoted str_or label_of_tests
      dash_to_underscore strip lower
  review_label review_status p findings =
      let next = next_action_of p in
      let status = dash_to_underscore (lower (strip review_status)) in
      label_of_tests (one_of human_review_actions next || one_of human_review_actions status)
        (one_of repair_actions next || one_of repair_actions status) (any_item is_severe findings)
        (truthy (get_field "required_fixes" p))
        (one_of blocked_actions next || one_of blocked_actions status)
        (some (quoted "Reviewer status is" (str_or (str_or review_status next) "unknown")))
        (some (quoted "Reviewer status is" (str_or (str_or review_status next) "blocked")))

  -- The same with source="test".
  unfoldable pub test_label : String → Fields → Outcome × Option String
  unfolding next_action_of results_status_of one_of quoted str_or dash_to_underscore strip lower
  test_label review_status p =
      let next = next_action_of p in
      let status = dash_to_underscore (lower (strip review_status)) in
      let results = results_status_of p in
      if one_of human_review_actions next || one_of human_review_actions status
      then (
        human_review_needed,
        some (quoted "Tester status is" (str_or (str_or review_status next) "unknown")),
      )
      else if one_of repair_actions next || one_of repair_actions status || str_eq results "failed"
      then (
        repair_needed,
        some (
            quoted "Tester results are"
              (str_or (str_or (str_or results review_status) next) "failed")),
      )
      else if one_of blocked_actions next || one_of blocked_actions status || one_of waiting results
      then (
        blocked,
        some (
            quoted "Tester results are"
              (str_or (str_or (str_or results review_status) next) "blocked")),
      )
      else (pass, none)

  unfoldable pub review_status_of : Fields → String
  unfolding json_or get_field normalized_text
  review_status_of p = normalized_text (
      json_or
        (json_or (json_or (get_field "review_status" p) (get_field "status" p))
          (get_field "overall_status" p))
        (get_field "verdict" p))

  unfoldable pub test_status_of : Fields → String
  unfolding json_or get_field normalized_text
  test_status_of p = normalized_text (
      json_or (json_or (get_field "status" p) (get_field "overall_status" p))
        (get_field "verdict" p))

  described : Json → Items
  described v =
      let entry = object (field "description" (text (str codec.show v)) end) in
      if str_eq (strip (str codec.show v)) "" then nil else cons entry nil

  -- The values of a dictionary that are not blank, as fixes.
  unfoldable pub fixes_of_values : Fields → Items
  unfolding described append_items
  fixes_of_values end = nil
  fixes_of_values (field k v d) = append_items (described v) (fixes_of_values d)

  unfoldable pub normalized_fixes : Json → Items
  unfolding fixes_of_values
  normalized_fixes (object d) = fixes_of_values d
  normalized_fixes (array xs) = xs
  normalized_fixes null = nil
  normalized_fixes (boolean b) = nil
  normalized_fixes (number is_zero s) = nil
  normalized_fixes (text s) = nil
