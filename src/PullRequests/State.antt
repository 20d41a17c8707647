-- ===== src/PullRequests/State.antt =====
-- core/integrations/github_mcp.py: the states of a pull request, of its reviews, its checks and its
-- mergeability.
use tandem_agents.Prelude.{
  String, Bool, true, not, ◌&&◌, ◌||◌, List, [], ◌∷◌, str_eq, if◌then◌else◌, select, any, strip,
  str_or,
}
use tandem_agents.Verification.Json.{
  Json, Items, Fields, null, boolean, number, text, array, object, nil, cons, truthy, json_or,
  get_field, str, append_items,
}
use tandem_agents.PullRequests.Entries.{
  normalize_status_key, one_of, flatten_check_entries, fields_of, is_dict, is_false, items_of,
  failure_words, success_words, pending_words,
}

unfoldable pub is_merged : Fields → Bool
unfolding truthy json_or get_field
is_merged p =
    truthy
      (json_or (json_or (get_field "merged" p) (get_field "merged_at" p)) (get_field "mergedAt" p))

unfoldable pub is_draft : Fields → Bool
unfolding truthy json_or get_field
is_draft p = truthy (json_or (get_field "draft" p) (get_field "isDraft" p))

module _ (show : Json → String) where
  -- str(value or "")
  unfoldable pub text_or : Json → String
  unfolding truthy str
  text_or v = if truthy v then str show v else ""

  -- The first of the entries that has a key, as such a key.
  first_key : List String → Fields → String
  unfolding normalize_status_key text_or get_field str_or
  first_key [] p = ""
  first_key (k ∷ ks) p = str_or (normalize_status_key (text_or (get_field k p))) (first_key ks p)

  review_states : Items → List String
  unfolding normalize_status_key text_or json_or get_field fields_of is_dict
  review_states nil = []
  review_states (cons r rs) =
      let rest = review_states rs in
      let d = fields_of r in
      let state =
        normalize_status_key (text_or (json_or (get_field "state" d) (get_field "status" d))) in
      if not (is_dict r) || str_eq state "" then rest else state ∷ rest

  reviews_of : Fields → Items
  unfolding json_or get_field is_dict fields_of items_of
  reviews_of p =
      let reviews = json_or (get_field "reviews" p) (get_field "reviewThreads" p) in
      let d = fields_of reviews in
      items_of
        (if is_dict reviews then json_or (get_field "nodes" d) (get_field "items" d) else reviews)

  -- _pull_request_reviews_state
  unfoldable pub reviews_state : Fields → String
  unfolding first_key one_of any review_states reviews_of
  reviews_state p =
      let decision =
        first_key ("reviewDecision" ∷ "review_decision" ∷ "review_state" ∷ "reviewState" ∷ []) p in
      let states = review_states (reviews_of p) in
      if not (str_eq decision "")
      then (if one_of ("changes_requested" ∷ "requested_changes" ∷ []) decision
          then "changes_requested"
          else if one_of ("approved" ∷ "approve" ∷ []) decision
          then "approved"
          else if one_of ("review_required" ∷ "requires_review" ∷ []) decision
          then "review_required"
          else decision)
      else if any (one_of ("changes_requested" ∷ "requested_changes" ∷ [])) states
      then "changes_requested"
      else if any (one_of ("approved" ∷ "approve" ∷ [])) states
      then "approved"
      else "review_required"

  check_name : Fields → String
  unfolding json_or get_field text_or strip
  check_name d = strip (
      text_or
        (json_or (json_or (get_field "name" d) (get_field "context" d)) (get_field "title" d)))

  check_url : Fields → String
  unfolding json_or get_field text_or strip
  check_url d = strip (
      text_or (
        json_or (json_or (get_field "detailsUrl" d) (get_field "details_url" d))
          (get_field "url" d)))

  -- The entries whose name and address were not seen.
  deduped : Items → List (String × String) → List Fields
  unfolding check_name check_url fields_of any
  deduped nil seen = []
  deduped (cons e es) seen =
      let d = fields_of e in
      let known =
        any (λ (k : String × String). str_eq k.0 (check_name d) && str_eq k.1 (check_url d)) seen in
      let rest = deduped es (if known then seen else (check_name d, check_url d) ∷ seen) in
      if known then rest else d ∷ rest

  check_entries_at : List String → Fields → Items
  unfolding flatten_check_entries get_field append_items
  check_entries_at [] p = nil
  check_entries_at (k ∷ ks) p =
      append_items (flatten_check_entries (get_field k p)) (check_entries_at ks p)

  -- _pull_request_check_entries
  unfoldable pub check_entries : Fields → List Fields
  unfolding deduped check_entries_at
  check_entries p =
      deduped
        (check_entries_at
          ("checks" ∷ "check_runs" ∷ "checkSuites" ∷ "statusCheckRollup" ∷ "status_check_rollup"
            ∷ "combined_status" ∷ [])
          p)
        []

  entry_states : List Fields → List String
  unfolding normalize_status_key text_or json_or get_field
  entry_states [] = []
  entry_states (d ∷ ds) =
      normalize_status_key (text_or (json_or (get_field "conclusion" d) (get_field "status" d)))
      ∷ entry_states ds

  state_of_entries : List String → String
  unfolding one_of any select
  state_of_entries [] = "unknown"
  state_of_entries (s ∷ ss) =
      let states = s ∷ ss in
      let known = select (λ x. not (str_eq x "")) states in
      let clean : List String =
        "success" ∷ "successful" ∷ "passed" ∷ "completed" ∷ "neutral" ∷ "skipped" ∷ [] in
      if any (one_of failure_words) states
      then "failure"
      else if any (λ x. one_of pending_words x || one_of ("expected" ∷ "requested" ∷ []) x) states
      then "pending"
      else if any (λ _. true) known && not (any (λ x. not (one_of clean x)) known)
      then "success"
      else "pending"

  -- _pull_request_checks_state
  unfoldable pub checks_state : Fields → String
  unfolding first_key one_of json_or get_field fields_of normalize_status_key text_or
      state_of_entries entry_states check_entries
  checks_state p =
      let told =
        first_key ("checks_status" ∷ "check_status" ∷ "checksState" ∷ "checks_state" ∷ []) p in
      let rollup = fields_of (
        json_or (json_or (get_field "statusCheckRollup" p) (get_field "status_check_rollup" p))
          (get_field "combined_status" p)) in
      let value = normalize_status_key (
        text_or (
          json_or (json_or (get_field "state" rollup) (get_field "status" rollup))
            (get_field "conclusion" rollup))) in
      if not (str_eq told "")
      then (if one_of success_words told
          then "success"
          else if one_of failure_words told
          then "failure"
          else if one_of pending_words told
          then "pending"
          else told)
      else if one_of success_words value
      then "success"
      else if one_of failure_words value
      then "failure"
      else if one_of pending_words value || str_eq value "expected"
      then "pending"
      else state_of_entries (entry_states (check_entries p))

  -- str(value) of an entry that is not None.
  shown : Json → String
  unfolding str
  shown null = ""
  shown (boolean b) = str show (boolean b)
  shown (number z s) = s
  shown (text s) = s
  shown (array xs) = show (array xs)
  shown (object d) = show (object d)

  -- _pull_request_mergeable_state
  unfoldable pub mergeable_state : Fields → String
  unfolding normalize_status_key shown get_field text_or json_or one_of is_false
  mergeable_state p =
      let raw = normalize_status_key (shown (get_field "mergeable" p)) in
      let state = normalize_status_key (
        text_or (
          json_or (json_or (get_field "mergeStateStatus" p) (get_field "merge_state_status" p))
            (get_field "mergeable_state" p))) in
      if str_eq raw "conflicting" || str_eq state "dirty"
      then "conflicting"
      else if str_eq state "behind"
      then "behind"
      else if str_eq state "clean"
      then "clean"
      else if one_of ("blocked" ∷ "draft" ∷ "has_hooks" ∷ []) state
      then "blocked"
      else if str_eq state "unstable"
      then "unstable"
      else if is_false (get_field "mergeable" p) && str_eq state ""
      then "conflicting"
      else ""

  unfoldable pub is_closed : Fields → Bool
  unfolding one_of normalize_status_key text_or json_or get_field
  is_closed p =
      one_of ("closed" ∷ "cancelled" ∷ "canceled" ∷ [])
        (normalize_status_key (text_or (json_or (get_field "state" p) (text "open"))))

  unfoldable pub pull_request_lifecycle_state : Fields → String
  unfolding is_merged is_closed mergeable_state reviews_state checks_state is_draft
  pull_request_lifecycle_state p =
      let review = reviews_state p in
      let checks = checks_state p in
      let mergeable = mergeable_state p in
      if is_merged p
      then "merged"
      else if is_closed p
      then "blocked"
      else if str_eq mergeable "conflicting"
      then "conflicted"
      else if str_eq review "changes_requested" || str_eq checks "failure"
      then "needs-repair"
      else if is_draft p || str_eq checks "pending"
      then "running"
      else if str_eq mergeable "behind"
      then "needs-rebase"
      else if str_eq review "approved" && str_eq checks "success"
      then "ready-to-merge"
      else "waiting-for-review"
