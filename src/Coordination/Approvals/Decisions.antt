-- ===== src/Coordination/Approvals/Decisions.antt =====
-- How often an action of core/coordination/approvals.py is decided on, and what its lists hold.
use tandem_agents.Prelude.{
  ℕ, max, String, ◌≡◌, Bool, true, false, ◌&&◌, List, arith, str_eq, All, All-take, select,
  All-order_desc,
}
use tandem_agents.Coordination.Rows.{ApprovalRow}
use tandem_agents.Coordination.Approvals.{has_approval_id, approval_matches, list_approvals}

abbrev pub is_pending_id : String → ApprovalRow → Bool
is_pending_id id a = has_approval_id id a && str_eq a.status "pending"

pub All-list_approvals {ℓ} :
    (P : ApprovalRow → Type ℓ) (run_id status : String) (limit : ℕ) (rows : List ApprovalRow)
    → All P (select (approval_matches run_id status) rows)
    → All P (list_approvals run_id status limit rows)
unfolding list_approvals
All-list_approvals P run_id status limit rows h =
    All-take P (max 1 limit) _ (All-order_desc (λ a. a.created_at_ms) P _ h)

pub matches-status :
    (run_id status : String) (a : ApprovalRow)
    → str_eq status "" ≡ false
    → approval_matches run_id status a ≡ true
    → str_eq a.status status ≡ true
unfolding approval_matches
matches-status run_id status a n h = ground arith
