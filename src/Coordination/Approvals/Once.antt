-- ===== src/Coordination/Approvals/Once.antt =====
-- The actions that execute_approved_actions of core/external_actions/github_pr.py does not carry out
-- a second time.
use tandem_agents.Prelude.{
  ℕ, String, ◌≡◌, refl, inl, inr, true, false, List, [], ◌∷◌, str_eq, Bool-cases, length, All,
  All-map, update_where, All-update, All-order_asc, All-update_set, All-select_to, true-false,
}
use tandem_agents.Coordination.Rows.{ApprovalRow, Dict}
use tandem_agents.Coordination.Approvals.{
  has_approval_id, executed, mark_executed, execution_failed, mark_failed, Execution, finished,
  raised, execute_row, execute_rows, approved_batch, execute_approved_actions, approval_matches,
}
use tandem_agents.Coordination.Approvals.Decisions.{All-list_approvals, matches-status}

-- No row with the id is approved.
abbrev IsOver : String → List ApprovalRow → Type 0
IsOver id rows = All (λ x. has_approval_id id x ≡ true → str_eq x.status "approved" ≡ false) rows

-- A mark of the executor: it takes the approval, and keeps the id.
record Ends (f : ApprovalRow → ApprovalRow) : Type 0 where
  status : (x : ApprovalRow) → str_eq (f x).status "approved" ≡ false
  same_id : (i : String) (x : ApprovalRow) → has_approval_id i (f x) ≡ has_approval_id i x

executed-Ends : (now : ℕ) (result : Dict) → Ends (executed now result)
unfolding executed has_approval_id
executed-Ends now result = record { status = λ x. refl; same_id = λ i x. refl }

execution_failed-Ends :
    (now : ℕ) (error : String) (result : Dict) → Ends (execution_failed now error result)
unfolding execution_failed has_approval_id
execution_failed-Ends now error result = record { status = λ x. refl; same_id = λ i x. refl }

IsOver-own :
    (id : String) (f : ApprovalRow → ApprovalRow) (rows : List ApprovalRow)
    → Ends f
    → IsOver id (update_where (has_approval_id id) f rows)
IsOver-own id f rows m =
    All-update_set (λ x. has_approval_id id x ≡ true → str_eq x.status "approved" ≡ false)
      (has_approval_id id) f rows (λ x e h. m.status x) (λ x e h. absurd (true-false h e))

IsOver-other :
    (id j : String) (f : ApprovalRow → ApprovalRow) (rows : List ApprovalRow)
    → Ends f
    → IsOver j rows
    → IsOver j (update_where (has_approval_id id) f rows)
IsOver-other id j f rows m h =
    All-update (λ x. has_approval_id j x ≡ true → str_eq x.status "approved" ≡ false)
      (has_approval_id id) f rows (λ x e p n. m.status x) h

module _ (execute : ApprovalRow → Execution) (clock : ℕ → ℕ) where
  execute_row-own :
      (now : ℕ) (a : ApprovalRow) (rows : List ApprovalRow)
      → IsOver a.approval_id (execute_row execute clock now a rows).0
  unfolding execute_row mark_executed mark_failed
  execute_row-own now a rows = go (execute a) refl
    where
      go :
          (x : Execution)
          → execute a ≡ x
          → IsOver a.approval_id (execute_row execute clock now a rows).0
      go (finished result) e =
          rw (e, execute_row) (IsOver-own a.approval_id _ rows (executed-Ends now result))
      go (raised error) e =
          rw (e, execute_row) (IsOver-own a.approval_id _ rows (execution_failed-Ends now error []))

  execute_row-other :
      (j : String) (now : ℕ) (a : ApprovalRow) (rows : List ApprovalRow)
      → IsOver j rows
      → IsOver j (execute_row execute clock now a rows).0
  unfolding execute_row mark_executed mark_failed
  execute_row-other j now a rows h = go (execute a) refl
    where
      go : (x : Execution) → execute a ≡ x → IsOver j (execute_row execute clock now a rows).0
      go (finished result) e =
          rw (e, execute_row) (IsOver-other a.approval_id j _ rows (executed-Ends now result) h)
      go (raised error) e =
          rw (e, execute_row)
            (IsOver-other a.approval_id j _ rows (execution_failed-Ends now error []) h)

  execute_rows-other :
      (j : String) (batch rows : List ApprovalRow)
      → IsOver j rows
      → IsOver j (execute_rows execute clock batch rows).0
  unfolding execute_rows
  execute_rows-other j [] rows h = h
  execute_rows-other j (a ∷ more) rows h =
      execute_rows-other j more _ (execute_row-other j (clock (length more)) a rows h)

  execute_rows-own :
      (batch rows : List ApprovalRow)
      → All (λ a. IsOver a.approval_id (execute_rows execute clock batch rows).0) batch
  unfolding execute_rows
  execute_rows-own [] rows = tt
  execute_rows-own (a ∷ more) rows = (
    execute_rows-other a.approval_id more _ (execute_row-own (clock (length more)) a rows),
    execute_rows-own more _,
  )

  -- The batch of a table in which no row with the id is approved does not hold it.
  approved_batch-over :
      (id run_id : String) (rows : List ApprovalRow)
      → IsOver id rows
      → All (λ b. has_approval_id id b ≡ false) (approved_batch execute clock run_id rows)
  unfolding approved_batch
  approved_batch-over id run_id rows h =
      All-order_asc (λ b. b.created_at_ms) _ _
        (All-list_approvals _ run_id "approved" 250 rows (
          All-select_to _ _ (approval_matches run_id "approved") rows
            (λ b e p. elim (Bool-cases (has_approval_id id b)) [
              | inl s ↦ absurd (true-false (matches-status run_id "approved" b refl e) (p s))
              | inr s ↦ s
            ])
            h))

-- Whatever the connectors did or raised in a first execution, a second one right after it, of any
-- run, hands none of the actions of the first to the connectors, also not those that failed.
pub executed_once :
    (execute execute' : ApprovalRow → Execution) (clock clock' : ℕ → ℕ) (run_id run_id' : String)
    (rows : List ApprovalRow)
    → All
        (λ a.
          All
            (λ b. has_approval_id a.approval_id b ≡ false)
            (approved_batch execute' clock' run_id'
              (execute_approved_actions execute clock run_id rows).0))
        (approved_batch execute clock run_id rows)
unfolding execute_approved_actions
executed_once execute execute' clock clock' run_id run_id' rows =
    let batch = approved_batch execute clock run_id rows in
    All-map _ _ batch (λ a h. approved_batch-over execute' clock' a.approval_id run_id' _ h)
      (execute_rows-own execute clock batch rows)
