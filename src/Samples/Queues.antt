-- ===== src/Samples/Queues.antt =====
-- An outbox with two messages and a run with one action to approve.
use tandem_agents.Prelude.{
  ℕ, String, ◌≡◌, true, false, not, ◌&&◌, none, some, List, [], ◌∷◌, arith, str_eq, if◌then◌else◌,
  All, count,
}
use tandem_agents.Coordination.Rows.{OutboxRow, ApprovalRow}
use tandem_agents.Coordination.Status.{duration_ms, default_outbox_stale_after_seconds}
use tandem_agents.Coordination.Outbox.{
  Message, has_id, enqueue_outbox, is_due, claim_pending_outbox, retry_outbox, is_stale_claim,
  reap_stale_outbox_claims,
}
use tandem_agents.Coordination.Outbox.Batches.{claim_disjoint, reap_stale_outbox-none_stale}
use tandem_agents.Coordination.Outbox.Backoff.{retry-backoff}
use tandem_agents.Coordination.Approvals.{
  has_approval_id, Request, Execution, finished, raised, approved_batch, execute_approved_actions,
}
use tandem_agents.Coordination.Approvals.Once.{executed_once}
use tandem_agents.Coordination.Approvals.History.{
  Operation, enqueue, decide, carry_out, run, is_decided, is_sound,
}
use tandem_agents.Coordination.Approvals.Soundness.{decided_history, executed_were_decided}

abbrev message_of : String → String → Message
message_of issue key = record {
  kind = "github_issue.comment";
  aggregate_type = "issue";
  aggregate_id = issue;
  payload = ("body", "done") ∷ [];
  dedupe_key = some key;
}

abbrev one_message : List OutboxRow
one_message = (enqueue_outbox 100 (message_of "7" "c-7") []).0

abbrev two_messages : List OutboxRow
two_messages = (enqueue_outbox 200 (message_of "8" "c-8") one_message).0

claim_disjoint_example :
    All
      (λ c.
        All
          (λ o. has_id c.id o ≡ false)
          (claim_pending_outbox 1001 25 (claim_pending_outbox 1000 1 two_messages).0).1)
      (claim_pending_outbox 1000 1 two_messages).1
claim_disjoint_example = claim_disjoint 1000 1 1001 25 two_messages

abbrev in_processing : List OutboxRow
in_processing = (claim_pending_outbox 1000 25 two_messages).0

retry-backoff_example :
    All
      (λ o. has_id 1 o ≡ false)
      (claim_pending_outbox 6000 25 (retry_outbox 2000 1 "offline" false none in_processing).0).1
    × (count
          (λ o. has_id 1 o && not (is_due 302000 o))
          (retry_outbox 2000 1 "offline" false none in_processing).0
        ≡ 0)
retry-backoff_example =
    retry-backoff 2000 6000 302000 25 1 "offline" in_processing (omega arith) (omega arith)

reap_stale_outbox-none_stale_example :
    All
      (λ o. is_stale_claim 400000 (duration_ms default_outbox_stale_after_seconds 300) o ≡ false)
      (reap_stale_outbox_claims 400000 300 in_processing).0
reap_stale_outbox-none_stale_example = reap_stale_outbox-none_stale 400000 300 in_processing

abbrev merge_request : Request
merge_request = record {
  run_id = "run-1";
  task_id = "T-1";
  source_type = "linear";
  adapter = "github_pr";
  action_type = "merge_pr";
  target = ("pr_number", "12") ∷ [];
  payload = [];
  risk_level = "high";
  verification_marker = "";
  requested_by = "aca";
  expires_at_ms = none;
  dedupe_key = some "run-1:merge_pr:12";
}

abbrev merge_connector : ApprovalRow → Execution
merge_connector a = if str_eq a.action_type "merge_pr" then finished [] else raised "unsupported"

abbrev ticks : ℕ → ℕ
ticks n = 5000

abbrev one_request : List Operation
one_request = enqueue 100 "approval-1" merge_request ∷ []

abbrev one_approval : List Operation
one_approval =
    enqueue 100 "approval-1" merge_request
    ∷ decide 200 "approval-1" "approve" "ana" "looks right"
    ∷ []

decided_history_example :
    All
      (λ a. is_sound a ≡ true)
      (run
        (enqueue 100 "approval-1" merge_request ∷ carry_out merge_connector ticks "run-1" ∷ [])
        [])
decided_history_example =
    decided_history
      (enqueue 100 "approval-1" merge_request ∷ carry_out merge_connector ticks "run-1" ∷ [])

executed_were_decided_example :
    All
      (λ a.
        count (λ x. has_approval_id a.approval_id x && not (is_decided x)) (run one_approval [])
        ≡ 0)
      (approved_batch merge_connector ticks "run-1" (run one_approval []))
executed_were_decided_example = executed_were_decided one_approval merge_connector ticks "run-1"

-- A connector that fails.
abbrev broken_connector : ApprovalRow → Execution
broken_connector a = raised "HTTP 502"

executed_once_example :
    All
      (λ a.
        All
          (λ b. has_approval_id a.approval_id b ≡ false)
          (approved_batch merge_connector ticks ""
            (execute_approved_actions broken_connector ticks "run-1" (run one_approval [])).0))
      (approved_batch broken_connector ticks "run-1" (run one_approval []))
executed_once_example =
    executed_once broken_connector merge_connector ticks ticks "run-1" "" (run one_approval [])
