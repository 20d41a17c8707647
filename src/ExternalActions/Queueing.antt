-- ===== src/ExternalActions/Queueing.antt =====
-- core/external_actions/github_pr.py: validate_action and enqueue_approvals_for_plan, which puts the
-- actions of a plan that write into the queue of approvals.
use Prim.Native.String.{◌++◌}
use tandem_agents.Prelude.{
  ℕ, String, ◌≡◌, refl, ◌∙◌, inl, inr, Bool, true, false, not, ◌&&◌, ◌||◌, Option, none, some, List,
  [], ◌∷◌, arith, str_eq, ltb, if◌then◌else◌, Bool-cases, Option-cases, length, All, All-append,
  count, any, upsert, count-update_keep, count-append_one, strip, str_or,
}
use tandem_agents.Coordination.Rows.{Dict, ApprovalRow, next_id}
use tandem_agents.Coordination.Approvals.{
  Request, has_dedupe_key, has_approval_id, new_approval, requested_again, enqueue_approval,
}
use tandem_agents.Scheduling.Admission.{is_nil}
use tandem_agents.ExternalActions.Plan.{
  Action, PlanTask, PrContext, comment_action, decision_action, pr_actions, close_requested,
  summary_action, default_action_plan, target_of,
}

abbrev pub read_actions : List String
read_actions = "leave_open" ∷ []

abbrev pub write_actions : List String
write_actions =
    "comment_pr" ∷ "close_pr" ∷ "update_branch" ∷ "request_review" ∷ "merge_pr" ∷ "delete_branch"
    ∷ "post_linear_summary" ∷ []

-- An action of any caller. An absent entry is "", a target or a payload that is no dictionary is
-- empty.
pub record RawAction : Type 0 where
  pub action_type : String
  pub other_type : String
  pub target : Dict
  pub payload : Dict
  pub risk_level : String
  pub verification_marker : String

unfoldable pub raw_of : Action → RawAction
raw_of a = record {
  action_type = a.action_type;
  other_type = "";
  target = a.target;
  payload = a.payload;
  risk_level = a.risk_level;
  verification_marker = a.verification_marker;
}

-- The action in its normal form, or none where a RuntimeError is raised.
unfoldable pub validate_action : RawAction → Option Action
unfolding any strip str_or is_nil
validate_action a =
    let ty = strip (str_or a.action_type a.other_type) in
    let reads = any (str_eq ty) read_actions in
    let writes = any (str_eq ty) write_actions in
    let valid : Option Action = some (record {
      action_type = ty;
      target = a.target;
      payload = a.payload;
      risk_level = strip (str_or a.risk_level (if reads then "low" else "medium"));
      verification_marker = strip a.verification_marker;
    }) in
    if not (writes || reads) then none else if writes && is_nil a.target then none else valid

unfoldable pub plan_task_id : PlanTask → String
unfolding strip str_or
plan_task_id t = strip (str_or t.task_id t.identifier)

-- What is asked of the queue for an action. `dumps` is json.dumps with sorted keys.
unfoldable pub request_of : (Dict → String) → String → PlanTask → Action → Request
unfolding plan_task_id
request_of dumps run_id t a = record {
  run_id = run_id;
  task_id = plan_task_id t;
  source_type = t.source_type;
  adapter = "github_pr";
  action_type = a.action_type;
  target = a.target;
  payload = a.payload;
  risk_level = a.risk_level;
  verification_marker = a.verification_marker;
  requested_by = "aca";
  expires_at_ms = none;
  dedupe_key = some (run_id ++ ":" ++ a.action_type ++ ":" ++ dumps a.target);
}

table_of :
    List ApprovalRow → Option (List ApprovalRow × Option ApprovalRow) → List ApprovalRow × Bool
table_of rows none = (rows, false)
table_of rows (some (rows', a)) = (rows', true)

-- The table after one action, and whether the loop goes on: an exception ends it.
unfoldable pub enqueue_action :
    (Dict → String)
    → ℕ
    → (approval_id run_id : String) → PlanTask
    → RawAction
    → List ApprovalRow
    → List ApprovalRow × Bool
unfolding validate_action any request_of enqueue_approval table_of
enqueue_action dumps now approval_id run_id t raw rows = elim (validate_action raw) [
  | none ↦ (rows, false)
  | some a ↦
      if any (str_eq a.action_type) read_actions
      then (rows, true)
      else table_of rows (enqueue_approval now approval_id (request_of dumps run_id t a) rows)
]

-- The loop, where the n-th action from the end is put in at `ticks n` under the id `ids n`.
unfoldable pub enqueue_approvals_for_plan :
    (Dict → String)
    → (ticks : ℕ → ℕ) → (ids : ℕ → String) → (run_id : String) → PlanTask
    → List RawAction
    → List ApprovalRow
    → List ApprovalRow × Bool
unfolding enqueue_action
enqueue_approvals_for_plan dumps ticks ids run_id t [] rows = (rows, true)
enqueue_approvals_for_plan dumps ticks ids run_id t (a ∷ rest) rows =
    let n = length rest in
    let (rows', goes_on) = enqueue_action dumps (ticks n) (ids n) run_id t a rows in
    let after = enqueue_approvals_for_plan dumps ticks ids run_id t rest rows' in
    if goes_on then after else (rows', false)

unfoldable pub is_valid : Action → Bool
unfolding validate_action raw_of
is_valid a = elim (validate_action (raw_of a)) [ none ↦ false | some b ↦ true ]

pr_actions-valid :
    (run_id : String) (t : PlanTask) (prs : List PrContext)
    → All (λ a. is_valid a ≡ true) (pr_actions run_id t prs)
unfolding pr_actions is_valid comment_action decision_action any target_of is_nil
pr_actions-valid run_id t [] = tt
pr_actions-valid run_id t (pr ∷ prs) = elim (Bool-cases (ltb 0 pr.number)) [
  | inl e ↦ elim (Bool-cases (close_requested t pr)) [
    | inl c ↦ rw (e, c, decision_action) (refl, (refl, pr_actions-valid run_id t prs))
    | inr c ↦ rw (e, c, decision_action) (refl, (refl, pr_actions-valid run_id t prs))
  ]
  | inr e ↦ rw e (pr_actions-valid run_id t prs)
]

-- No action of the default plan is refused when it is put into the queue.
pub plan-valid :
    (run_id : String) (t : PlanTask) (prs : List PrContext)
    → All (λ a. is_valid a ≡ true) (default_action_plan run_id t prs)
unfolding default_action_plan summary_action is_valid any is_nil
plan-valid run_id t prs =
    All-append (λ a. is_valid a ≡ true) (pr_actions run_id t prs) _ (pr_actions-valid run_id t prs)
      (refl, tt)

-- A property of rows that a repeated request keeps and a new one lacks counts the same afterwards.
module _ (p : ApprovalRow → Bool)
    (keep : (now : ℕ) (r : Request) (a : ApprovalRow) → p (requested_again now r a) ≡ p a)
    (fresh : (now id : ℕ) (approval_id : String) (r : Request)
      → str_eq r.action_type "leave_open" ≡ false
      → p (new_approval now approval_id id r) ≡ false) where
  count-table :
      (now : ℕ) (approval_id : String) (r : Request) (rows : List ApprovalRow)
      → str_eq r.action_type "leave_open" ≡ false
      → count p (table_of rows (enqueue_approval now approval_id r rows)).0 ≡ count p rows
  unfolding table_of enqueue_approval upsert
  count-table now approval_id r rows writes =
      elim (Bool-cases (any (has_approval_id approval_id) rows)) [
        | inl known ↦ rw (known, enqueue_approval) refl
        | inr new ↦ elim (Bool-cases (any (has_dedupe_key r.dedupe_key) rows)) [
          | inl e ↦
              rw (new, e, enqueue_approval, upsert)
                (count-update_keep p (has_dedupe_key r.dedupe_key) (requested_again now r) rows
                  (λ a _. keep now r a))
          | inr e ↦
              rw (new, e, enqueue_approval, upsert)
                (ground (
                  arith,
                  count-append_one p rows
                      (new_approval now approval_id (next_id (λ a. a.id) rows) r),
                  fresh now (next_id (λ a. a.id) rows) approval_id r writes,
                ))
        ]
      ]

  count-action :
      (dumps : Dict → String) (now : ℕ) (approval_id run_id : String) (t : PlanTask)
      (raw : RawAction) (rows : List ApprovalRow)
      → count p (enqueue_action dumps now approval_id run_id t raw rows).0 ≡ count p rows
  unfolding enqueue_action any
  count-action dumps now approval_id run_id t raw rows = elim (Option-cases (validate_action raw)) [
    | inl e ↦ rw (e, enqueue_action) refl
    | inr (a, e) ↦ elim (Bool-cases (str_eq a.action_type "leave_open")) [
      | inl r ↦ rw (e, r, enqueue_action) refl
      | inr w ↦
          rw (e, w, enqueue_action)
            (count-table now approval_id (request_of dumps run_id t a) rows
              (unfold request_of in w))
    ]
  ]

  count-plan :
      (dumps : Dict → String) (ticks : ℕ → ℕ) (ids : ℕ → String) (run_id : String) (t : PlanTask)
      (actions : List RawAction) (rows : List ApprovalRow)
      → count p (enqueue_approvals_for_plan dumps ticks ids run_id t actions rows).0 ≡ count p rows
  unfolding enqueue_approvals_for_plan
  count-plan dumps ticks ids run_id t [] rows = refl
  count-plan dumps ticks ids run_id t (a ∷ rest) rows =
      let n = length rest in
      let one = enqueue_action dumps (ticks n) (ids n) run_id t a rows in
      let same = count-action dumps (ticks n) (ids n) run_id t a rows in
      elim (Bool-cases one.1) [
        | inl e ↦
            rw (e, enqueue_approvals_for_plan)
              (count-plan dumps ticks ids run_id t rest one.0 ∙ same)
        | inr e ↦ rw (e, enqueue_approvals_for_plan) same
      ]

approved_kept :
    (now : ℕ) (r : Request) (a : ApprovalRow)
    → str_eq (requested_again now r a).status "approved" ≡ str_eq a.status "approved"
unfolding requested_again
approved_kept now r a =
    let x = str_eq a.status "executed" in
    let y = str_eq a.status "approved" in
    elim (Bool-cases (x || y)) [ inl e ↦ rw e refl | inr e ↦ rw e (ground (arith, e)) ]

-- Whatever actions a run proposes, putting them into the queue adds no action that only reads and
-- approves none: the numbers of the rows to leave a pull request open and of the approved rows stay,
-- also where an exception ends the loop.
pub queueing-approves_none :
    (dumps : Dict → String) (ticks : ℕ → ℕ) (ids : ℕ → String) (run_id : String) (t : PlanTask)
    (actions : List RawAction) (rows : List ApprovalRow)
    → let after = (enqueue_approvals_for_plan dumps ticks ids run_id t actions rows).0 in
      (count (λ a. str_eq a.action_type "leave_open") after
        ≡ count (λ a. str_eq a.action_type "leave_open") rows)
      × (count (λ a. str_eq a.status "approved") after
          ≡ count (λ a. str_eq a.status "approved") rows)
unfolding requested_again new_approval
queueing-approves_none dumps ticks ids run_id t actions rows = (
  count-plan (λ a. str_eq a.action_type "leave_open") (λ now r a. refl)
      (λ now id approval_id r w. w) dumps ticks ids run_id t actions rows,
  count-plan (λ a. str_eq a.status "approved") approved_kept (λ now id approval_id r w. refl) dumps
      ticks ids run_id t actions rows,
)
