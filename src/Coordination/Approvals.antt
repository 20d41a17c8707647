-- ===== src/Coordination/Approvals.antt =====
-- core/coordination/approvals.py: the queue of external actions that a person approves, and
-- execute_approved_actions of core/external_actions/github_pr.py, which carries them out.
pub mod Decisions
pub mod Once
pub mod History
pub mod Soundness
use tandem_agents.Prelude.{
  ℕ, max, String, Bool, true, false, not, ◌&&◌, ◌||◌, Option, none, some, List, [], ◌∷◌, str_eq,
  if◌then◌else◌, length, take, select, fetch_one, count, any, update_where, upsert, order_desc,
  order_asc,
}
use tandem_agents.Coordination.Rows.{Dict, ApprovalRow, next_id, column_eq}
use tandem_agents.Coordination.Status.{normalized}

unfoldable pub has_approval_id : String → ApprovalRow → Bool
has_approval_id id a = str_eq a.approval_id id

unfoldable pub has_dedupe_key : Option String → ApprovalRow → Bool
unfolding column_eq
has_dedupe_key key a = column_eq key a.dedupe_key

-- The keyword arguments of `enqueue_external_action_approval`.
pub record Request : Type 0 where
  pub run_id : String
  pub task_id : String
  pub source_type : String
  pub adapter : String
  pub action_type : String
  pub target : Dict
  pub payload : Dict
  pub risk_level : String
  pub verification_marker : String
  pub requested_by : String
  pub expires_at_ms : Option ℕ
  pub dedupe_key : Option String

unfoldable pub new_approval : ℕ → String → ℕ → Request → ApprovalRow
new_approval now approval_id id r = record {
  id = id;
  approval_id = approval_id;
  run_id = r.run_id;
  task_id = r.task_id;
  source_type = r.source_type;
  adapter = r.adapter;
  action_type = r.action_type;
  target = r.target;
  payload = r.payload;
  risk_level = r.risk_level;
  verification_marker = r.verification_marker;
  status = "pending";
  requested_by = r.requested_by;
  decided_by = none;
  decision_reason = none;
  result = [];
  error = none;
  created_at_ms = now;
  updated_at_ms = now;
  decided_at_ms = none;
  executed_at_ms = none;
  expires_at_ms = r.expires_at_ms;
  dedupe_key = r.dedupe_key;
}

-- ON CONFLICT(dedupe_key) DO UPDATE: an executed or approved action keeps its status.
unfoldable pub requested_again : ℕ → Request → ApprovalRow → ApprovalRow
requested_again now r a = record a {
  target = r.target;
  payload = r.payload;
  risk_level = r.risk_level;
  verification_marker = r.verification_marker;
  status = if str_eq a.status "executed" || str_eq a.status "approved" then a.status else "pending";
  updated_at_ms = now;
  error = none;
}

unfoldable pub get_approval : String → List ApprovalRow → Option ApprovalRow
unfolding has_approval_id
get_approval id = fetch_one (has_approval_id id)

-- `approval_id` is the identifier that the method draws; `none` is the exception that a known one
-- raises, by the unique index of schema.py.
unfoldable pub enqueue_approval :
    ℕ → String → Request → List ApprovalRow → Option (List ApprovalRow × Option ApprovalRow)
unfolding has_approval_id has_dedupe_key requested_again new_approval get_approval
enqueue_approval now approval_id r rows =
    let rows' =
      upsert (has_dedupe_key r.dedupe_key) (requested_again now r)
        (new_approval now approval_id (next_id (λ a. a.id) rows) r) rows in
    let read : Option ApprovalRow = elim r.dedupe_key [
      | none ↦ get_approval approval_id rows'
      | some key ↦
          if str_eq key ""
          then get_approval approval_id rows'
          else fetch_one (has_dedupe_key (some key)) rows'
    ] in
    if any (has_approval_id approval_id) rows then none else some (rows', read)

-- The WHERE clause of the list; "" stands for a filter that is not given.
unfoldable pub approval_matches : String → String → ApprovalRow → Bool
approval_matches run_id status a =
    (str_eq run_id "" || str_eq a.run_id run_id) && (str_eq status "" || str_eq a.status status)

unfoldable pub list_approvals : String → String → ℕ → List ApprovalRow → List ApprovalRow
unfolding approval_matches
list_approvals run_id status limit rows =
    take (max 1 limit)
      (order_desc (λ a. a.created_at_ms) (select (approval_matches run_id status) rows))

unfoldable pub decided : ℕ → String → String → String → ApprovalRow → ApprovalRow
decided now status actor reason a = record a {
  status = status;
  decided_by = some actor;
  decision_reason = some reason;
  decided_at_ms = some now;
  updated_at_ms = now;
  error = none;
}

unfoldable pub decision_status : String → String
decision_status decision = if str_eq (normalized decision) "approve" then "approved" else "rejected"

unfoldable pub decide_approval :
    ℕ → String → String → String → String → List ApprovalRow → List ApprovalRow × Option ApprovalRow
unfolding has_approval_id decided decision_status get_approval
decide_approval now id decision actor reason rows =
    let rows' =
      update_where (λ a. has_approval_id id a && str_eq a.status "pending")
        (decided now (decision_status decision) actor reason) rows in
    (rows', get_approval id rows')

unfoldable pub approve_pending :
    ℕ → String → String → String → List ApprovalRow → List ApprovalRow × List ApprovalRow
unfolding decided
approve_pending now run_id actor reason rows =
    let rows' =
      update_where (λ a. str_eq a.run_id run_id && str_eq a.status "pending")
        (decided now "approved" actor reason) rows in
    (
      rows',
      order_asc (λ a. a.created_at_ms)
          (select (λ a. str_eq a.run_id run_id && str_eq a.status "approved") rows'),
    )

-- An approval anew of an action that failed.
unfoldable pub reapproved : ℕ → String → String → ApprovalRow → ApprovalRow
unfolding decided
reapproved now actor reason a = record (decided now "approved" actor reason a) {
  executed_at_ms = none;
  result = [];
}

unfoldable pub retry_approval :
    ℕ → String → String → String → List ApprovalRow → List ApprovalRow × Option ApprovalRow
unfolding has_approval_id reapproved get_approval
retry_approval now id actor reason rows =
    let rows' =
      update_where (λ a. has_approval_id id a && str_eq a.status "failed")
        (reapproved now actor reason) rows in
    (rows', get_approval id rows')

unfoldable pub retry_failed_approvals :
    ℕ → String → String → String → List ApprovalRow → List ApprovalRow × List ApprovalRow
unfolding reapproved
retry_failed_approvals now run_id actor reason rows =
    let rows' =
      update_where (λ a. str_eq a.run_id run_id && str_eq a.status "failed")
        (reapproved now actor reason) rows in
    (
      rows',
      order_asc (λ a. a.created_at_ms)
          (select (λ a. str_eq a.run_id run_id && str_eq a.status "approved") rows'),
    )

unfoldable pub executed : ℕ → Dict → ApprovalRow → ApprovalRow
executed now result a = record a {
  status = "executed";
  result = result;
  error = none;
  executed_at_ms = some now;
  updated_at_ms = now;
}

unfoldable pub mark_executed :
    ℕ → String → Dict → List ApprovalRow → List ApprovalRow × Option ApprovalRow
unfolding has_approval_id executed get_approval
mark_executed now id result rows =
    let rows' = update_where (has_approval_id id) (executed now result) rows in
    (rows', get_approval id rows')

unfoldable pub execution_failed : ℕ → String → Dict → ApprovalRow → ApprovalRow
execution_failed now error result a = record a {
  status = "failed";
  result = result;
  error = some error;
  executed_at_ms = some now;
  updated_at_ms = now;
}

unfoldable pub mark_failed :
    ℕ → String → String → Dict → List ApprovalRow → List ApprovalRow × Option ApprovalRow
unfolding has_approval_id execution_failed get_approval
mark_failed now id error result rows =
    let rows' = update_where (has_approval_id id) (execution_failed now error result) rows in
    (rows', get_approval id rows')

-- What `execute_approved_action` does with an action: it returns a result or raises.
pub data Execution : Type 0 where
  finished : Dict → Execution
  raised : String → Execution

-- What `execute_approved_actions` returns, without the rows.
pub record Report : Type 0 where
  pub executed_count : ℕ
  pub failed_count : ℕ
  pub pending_count : ℕ
  pub complete : Bool

unfoldable pub is_empty {ℓ} : {A : Type ℓ} → List A → Bool
is_empty [] = true
is_empty (x ∷ xs) = false

unfoldable pub was_executed : Option ApprovalRow → Bool
was_executed none = false
was_executed (some a) = str_eq a.status "executed"

-- The connector calls of `execute_approved_action` and the clock are parameters: `execute` is told
-- the row, `clock` the number of actions that are left.
module _ (execute : ApprovalRow → Execution) (clock : ℕ → ℕ) where
  unfoldable pub execute_row :
      ℕ → ApprovalRow → List ApprovalRow → List ApprovalRow × Option ApprovalRow
  unfolding mark_executed mark_failed
  execute_row now a rows = elim (execute a) [
    | finished result ↦ mark_executed now a.approval_id result rows
    | raised error ↦ mark_failed now a.approval_id error [] rows
  ]

  unfoldable pub execute_rows :
      List ApprovalRow → List ApprovalRow → List ApprovalRow × List (Option ApprovalRow)
  unfolding execute_row
  execute_rows [] rows = (rows, [])
  execute_rows (a ∷ rest_rows) rows =
      let (rows', first) = execute_row (clock (length rest_rows)) a rows in
      let (rows'', rest) = execute_rows rest_rows rows' in (rows'', first ∷ rest)

  -- The batch that `execute_approved_actions` carries out, the oldest first.
  unfoldable pub approved_batch : String → List ApprovalRow → List ApprovalRow
  unfolding list_approvals
  approved_batch run_id rows =
      order_asc (λ a. a.created_at_ms) (list_approvals run_id "approved" 250 rows)

  unfoldable pub execute_approved_actions : String → List ApprovalRow → List ApprovalRow × Report
  unfolding approved_batch execute_rows list_approvals is_empty was_executed
  execute_approved_actions run_id rows =
      let (rows', results) = execute_rows (approved_batch run_id rows) rows in
      let pending = list_approvals run_id "pending" 250 rows' in
      let failed = list_approvals run_id "failed" 250 rows' in
      let done = list_approvals run_id "executed" 250 rows' in
      (
        rows',
        record {
          executed_count = count was_executed results;
          failed_count = length failed;
          pending_count = length pending;
          complete = is_empty pending && is_empty failed && not (is_empty done);
        },
      )
