-- ===== src/Coordination/Approvals/Soundness.antt =====
-- The decisions behind the actions of core/coordination/approvals.py, over all histories.
use tandem_agents.Prelude.{
  ℕ, String, ◌≡◌, refl, sym, ap, ◌∙◌, Bool, true, not, ◌&&◌, List, [], ◌∷◌, arith, str_eq, eq_refl,
  length, All, All-map, count, update_where, count-update_keep, All-update, All-update_to,
  All-order_asc, All-select_to, not_other, All-any, All-of_key, All-both, count-none,
}
use tandem_agents.Coordination.Rows.{ApprovalRow, Dict}
use tandem_agents.Coordination.Approvals.{
  has_approval_id, decision_status, executed, mark_executed, execution_failed, mark_failed,
  Execution, finished, raised, execute_row, execute_rows, approved_batch, decide_approval,
  execute_approved_actions, approval_matches, approve_pending, retry_approval,
  retry_failed_approvals,
}
use tandem_agents.Coordination.Approvals.Decisions.{All-list_approvals, matches-status}
use tandem_agents.Coordination.Approvals.History.{
  Operation, enqueue, decide, approve_all, retry, retry_all, carry_out, perform, run, is_decided,
  is_sound, IsSound, IsSound-decided, IsSound-reapproved, IsSound-enqueue,
}

-- Every row with the id of `a` names who decided.
abbrev HasDecided : List ApprovalRow → ApprovalRow → Type 0
HasDecided rows a = All (λ x. has_approval_id a.approval_id x ≡ true → is_decided x ≡ true) rows

-- What the marks of the executor keep of a row.
record IsMark (f : ApprovalRow → ApprovalRow) : Type 0 where
  same_id : (i : String) (x : ApprovalRow) → has_approval_id i (f x) ≡ has_approval_id i x
  same_decision : (x : ApprovalRow) → is_decided (f x) ≡ is_decided x

executed-IsMark : (now : ℕ) (result : Dict) → IsMark (executed now result)
unfolding executed has_approval_id
executed-IsMark now result = record { same_id = λ i x. refl; same_decision = λ x. refl }

execution_failed-IsMark :
    (now : ℕ) (error : String) (result : Dict) → IsMark (execution_failed now error result)
unfolding execution_failed has_approval_id
execution_failed-IsMark now error result = record {
  same_id = λ i x. refl;
  same_decision = λ x. refl;
}

sound_of_decided : (x : ApprovalRow) → is_decided x ≡ true → is_sound x ≡ true
sound_of_decided x h = ground arith

HasDecided-mark :
    (q : ApprovalRow → Bool) (f : ApprovalRow → ApprovalRow) (rows : List ApprovalRow)
    → IsMark f
    → (b : ApprovalRow) → HasDecided rows b
    → HasDecided (update_where q f rows) b
HasDecided-mark q f rows m b h =
    All-update (λ x. has_approval_id b.approval_id x ≡ true → is_decided x ≡ true) q f rows
      (λ x e p n. m.same_decision x ∙ p (sym (m.same_id b.approval_id x) ∙ n)) h

IsSound-mark :
    (a : ApprovalRow) (f : ApprovalRow → ApprovalRow) (rows : List ApprovalRow)
    → IsMark f
    → HasDecided rows a
    → IsSound rows
    → IsSound (update_where (has_approval_id a.approval_id) f rows)
IsSound-mark a f rows m h s =
    let q = has_approval_id a.approval_id in
    record {
      one_row = λ i. omega (
        arith,
        count-update_keep (has_approval_id i) q f rows (λ x e. m.same_id i x),
        s.one_row i,
      );
      sound =
          All-update_to (λ x. (q x ≡ true → is_decided x ≡ true) × (is_sound x ≡ true))
            (λ x. is_sound x ≡ true) q f rows
            (λ x e p. sound_of_decided (f x) (m.same_decision x ∙ p.0 e)) (λ x e p. p.1)
            (All-both _ _ rows h s.sound);
    }

module _ (execute : ApprovalRow → Execution) (clock : ℕ → ℕ) where
  execute_row-IsSound :
      (now : ℕ) (a : ApprovalRow) (rows : List ApprovalRow)
      → HasDecided rows a
      → IsSound rows
      → IsSound (execute_row execute clock now a rows).0
        × ((b : ApprovalRow)
            → HasDecided rows b
            → HasDecided (execute_row execute clock now a rows).0 b)
  unfolding execute_row mark_executed mark_failed
  execute_row-IsSound now a rows h s = go (execute a) refl
    where
      go :
          (e : Execution)
          → execute a ≡ e
          → IsSound (execute_row execute clock now a rows).0
            × ((b : ApprovalRow)
                → HasDecided rows b
                → HasDecided (execute_row execute clock now a rows).0 b)
      go (finished result) p =
          rw (p, execute_row)
            (
              IsSound-mark a _ rows (executed-IsMark now result) h s,
              HasDecided-mark _ _ rows (executed-IsMark now result),
            )
      go (raised error) p =
          rw (p, execute_row)
            (
              IsSound-mark a _ rows (execution_failed-IsMark now error []) h s,
              HasDecided-mark _ _ rows (execution_failed-IsMark now error []),
            )

  execute_rows-IsSound :
      (batch rows : List ApprovalRow)
      → All (HasDecided rows) batch
      → IsSound rows
      → IsSound (execute_rows execute clock batch rows).0
  unfolding execute_rows
  execute_rows-IsSound [] rows h s = s
  execute_rows-IsSound (a ∷ batch) rows h s =
      let (sound, keeps) = execute_row-IsSound (clock (length batch)) a rows h.0 s in
      execute_rows-IsSound batch _ (All-map _ _ batch keeps h.1) sound

  decided_of_approved :
      (a : ApprovalRow)
      → is_sound a ≡ true
      → str_eq a.status "approved" ≡ true
      → is_decided a ≡ true
  decided_of_approved a h p =
      let n = not_other a.status "approved" "pending" refl p in
      let m = not_other a.status "approved" "rejected" refl p in ground arith

  -- The rows of the batch that is carried out have been decided on.
  approved_batch-decided :
      (run_id : String) (rows : List ApprovalRow)
      → IsSound rows
      → All (HasDecided rows) (approved_batch execute clock run_id rows)
  unfolding approved_batch has_approval_id
  approved_batch-decided run_id rows s =
      All-order_asc (λ a. a.created_at_ms) _ _
        (All-list_approvals _ run_id "approved" 250 rows (
          All-select_to _ _ (approval_matches run_id "approved") rows
            (λ a e h.
              let d = decided_of_approved a h.0 (matches-status run_id "approved" a refl e) in
              All-of_key (has_approval_id a.approval_id) is_decided rows (s.one_row a.approval_id)
                (h.1 (rw (eq_refl a.approval_id, d) refl)))
            (All-both _ _ rows s.sound
              (All-any (λ a b. has_approval_id a.approval_id b && is_decided b) rows))))

perform-IsSound :
    (o : Operation) (rows : List ApprovalRow) → IsSound rows → IsSound (perform o rows)
unfolding perform decide_approval approve_pending retry_approval retry_failed_approvals
    execute_approved_actions
perform-IsSound (enqueue now i r) rows s = IsSound-enqueue now i r rows s
perform-IsSound (decide now id decision actor reason) rows s =
    IsSound-decided _ now (decision_status decision) actor reason rows s
perform-IsSound (approve_all now run_id actor reason) rows s =
    IsSound-decided _ now "approved" actor reason rows s
perform-IsSound (retry now id actor reason) rows s = IsSound-reapproved _ now actor reason rows s
perform-IsSound (retry_all now run_id actor reason) rows s =
    IsSound-reapproved _ now actor reason rows s
perform-IsSound (carry_out execute clock run_id) rows s =
    execute_rows-IsSound execute clock (approved_batch execute clock run_id rows) rows
      (approved_batch-decided execute clock run_id rows s) s

run-IsSound : (os : List Operation) (rows : List ApprovalRow) → IsSound rows → IsSound (run os rows)
unfolding run
run-IsSound [] rows s = s
run-IsSound (o ∷ os) rows s = run-IsSound os (perform o rows) (perform-IsSound o rows s)

empty-IsSound : IsSound []
unfolding count
empty-IsSound = record { one_row = λ i. omega arith; sound = tt }

-- After any history that starts with no actions, every action that is approved, executed or failed
-- (neither pending nor rejected) names who decided on it.
pub decided_history : (os : List Operation) → All (λ a. is_sound a ≡ true) (run os [])
decided_history os = let s = run-IsSound os [] empty-IsSound in s.sound

-- After any such history, every action that `execute_approved_actions` hands to the connectors is
-- stored with a decision: no row with its id lacks the name of who decided.
pub executed_were_decided :
    (os : List Operation) (execute : ApprovalRow → Execution) (clock : ℕ → ℕ) (run_id : String)
    → All
        (λ a. count (λ x. has_approval_id a.approval_id x && not (is_decided x)) (run os []) ≡ 0)
        (approved_batch execute clock run_id (run os []))
executed_were_decided os execute clock run_id =
    All-map _ _ _
      (λ a h.
        count-none (has_approval_id a.approval_id) (λ x. not (is_decided x)) (run os [])
          (All-map _ _ (run os []) (λ x f e. ap not (f e)) h))
      (approved_batch-decided execute clock run_id (run os []) (run-IsSound os [] empty-IsSound))
