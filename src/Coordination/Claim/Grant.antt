-- ===== src/Coordination/Claim/Grant.antt =====
-- What a granted claim leaves in the leases, tasks and workers.
use mathlib.Core.Path.{subst}
use mathlib.Core.Option
use tandem_agents.Prelude.{
  ℕ, String, ◌≡◌, refl, sym, ap, ◌∙◌, inl, inr, true, some, List, arith, eq_refl, fetch_one, count,
  update_where, fetch_one-update, count-pos_of_fetch, fetch_one-upsert,
}
use tandem_agents.Coordination.Rows.{TaskRow, WorkerRow, LeaseRow, Store}
use tandem_agents.Coordination.Leases.{has_lease_id, active_for, get_lease}
use tandem_agents.Coordination.Status.{normalize_task_state}
use tandem_agents.Coordination.Workers.{has_worker_id, get_worker}
use tandem_agents.Coordination.Tasks.{
  is_task, get_task, payload_row, transitioned, apply_task_state_locked,
}
use tandem_agents.Coordination.Exclusion.{IsExclusive}
use tandem_agents.Coordination.Claim.{
  ClaimRequest, ClaimResult, new_lease, insert_lease, insert_task, insert_worker, claim_transition,
  record_claim, reaped, claim_task,
}
use tandem_agents.Coordination.Claim.Exclusive.{
  reaped-IsExclusive, insert_lease-IsExclusive, insert_lease-some,
}
use tandem_agents.Coordination.Claim.Outcome.{
  claim_key, claim_lease, Outcome, blocked, taken, violated, granted, claim_task-Outcome,
}
use tandem_agents.Coordination.Claim.Refusal.{was_granted}

leases-record_claim :
    (now : ℕ) (lease : LeaseRow) (r : ClaimRequest) (leases : List LeaseRow) (s : Store)
    → (record_claim now lease r leases s).leases ≡ leases
unfolding record_claim apply_task_state_locked claim_transition
leases-record_claim now lease r leases s = ground arith

fetch-insert_lease :
    (row : LeaseRow) (leases leases' : List LeaseRow)
    → insert_lease row leases ≡ some leases'
    → get_lease row.lease_id leases' ≡ some row
unfolding get_lease has_lease_id
fetch-insert_lease row leases leases' e =
    rw ((insert_lease-some row leases leases' e).0)
      (elim (fetch_one-upsert (has_lease_id row.lease_id) (λ _. row) row leases
        (eq_refl row.lease_id) (λ x q. eq_refl row.lease_id)) [ inl f ↦ f | inr (x, f) ↦ f ])

-- The task's row names the lease and its holder, in state "claimed".
pub record IsClaimedBy (lease : LeaseRow) (r : ClaimRequest) (t : TaskRow) : Type 0 where
  pub state : t.state ≡ "claimed"
  pub status : t.status ≡ "claimed"
  pub run : t.claimed_run_id ≡ some r.run_id
  pub lease_id : t.claimed_lease_id ≡ some lease.lease_id
  pub worker : t.claimed_by ≡ some r.worker_id
  pub host : t.claimed_host_id ≡ some r.host_id
  pub expires : t.lease_expires_at_ms ≡ some lease.expires_at_ms

-- The worker's row is busy with the lease.
pub record IsBusyWith (lease : LeaseRow) (r : ClaimRequest) (w : WorkerRow) : Type 0 where
  pub status : w.status ≡ "busy"
  pub run : w.current_run_id ≡ some r.run_id
  pub lease_id : w.current_lease_id ≡ some lease.lease_id

workers-record_claim :
    (now : ℕ) (lease : LeaseRow) (r : ClaimRequest) (leases : List LeaseRow) (s : Store)
    → (record_claim now lease r leases s).workers ≡ insert_worker now lease r s.workers
unfolding record_claim apply_task_state_locked claim_transition
workers-record_claim now lease r leases s = ground arith

worker-insert_worker :
    (now : ℕ) (lease : LeaseRow) (r : ClaimRequest) (workers : List WorkerRow)
    → (w : WorkerRow) × (get_worker r.worker_id (insert_worker now lease r workers) ≡ some w)
      × IsBusyWith lease r w
unfolding insert_worker get_worker has_worker_id
worker-insert_worker now lease r workers =
    elim (fetch_one-upsert (has_worker_id r.worker_id) _ _ workers (eq_refl r.worker_id)
      (λ x q. eq_refl r.worker_id)) [
        | inl f ↦ (_, f, record { status = refl; run = refl; lease_id = refl })
        | inr (x, f) ↦ (_, f, record { status = refl; run = refl; lease_id = refl })
      ]

task-insert_task :
    (now : ℕ) (lease : LeaseRow) (r : ClaimRequest) (tasks : List TaskRow)
    → (t : TaskRow) × (get_task (claim_key r) (insert_task now lease r tasks) ≡ some t)
unfolding insert_task get_task is_task payload_row
task-insert_task now lease r tasks =
    elim (fetch_one-upsert (is_task (claim_key r)) _ _ tasks (eq_refl (claim_key r))
      (λ x q. eq_refl (claim_key r))) [ inl f ↦ (_, f) | inr (x, f) ↦ (_, f) ]

tasks-record_claim :
    (now : ℕ) (lease : LeaseRow) (r : ClaimRequest) (leases : List LeaseRow) (s : Store)
    (t : TaskRow)
    → get_task lease.task_key (insert_task now lease r s.tasks) ≡ some t
    → (record_claim now lease r leases s).tasks
      ≡ update_where
          (is_task lease.task_key)
          (transitioned now "claimed" (claim_transition lease r) t.metadata)
          (insert_task now lease r s.tasks)
unfolding record_claim
tasks-record_claim now lease r leases s t e =
    rw (e, apply_task_state_locked) (unfold claim_transition in refl)

transitioned-IsClaimedBy :
    (now : ℕ) (lease : LeaseRow) (r : ClaimRequest) (t : TaskRow)
    → IsClaimedBy lease r (transitioned now "claimed" (claim_transition lease r) t.metadata t)
unfolding transitioned claim_transition normalize_task_state
transitioned-IsClaimedBy now lease r t = record {
  state = refl;
  status = refl;
  run = refl;
  lease_id = refl;
  worker = refl;
  host = refl;
  expires = refl;
}

task-record_claim :
    (now : ℕ) (lease : LeaseRow) (r : ClaimRequest) (leases : List LeaseRow) (s : Store)
    → lease.task_key ≡ claim_key r
    → (t : TaskRow) × (get_task (claim_key r) (record_claim now lease r leases s).tasks ≡ some t)
      × IsClaimedBy lease r t
unfolding get_task
task-record_claim now lease r leases s k =
    let (t, e) = task-insert_task now lease r s.tasks in
    let f = transitioned now "claimed" (claim_transition lease r) t.metadata in
    let tasks = insert_task now lease r s.tasks in
    let found : get_task lease.task_key tasks ≡ some t =
      subst (λ (j : String). get_task j tasks ≡ some t) (sym k) e in
    let claimed_row : fetch_one (is_task lease.task_key)
          (update_where (is_task lease.task_key) f tasks)
        ≡ some (f t) =
      fetch_one-update (is_task lease.task_key) f tasks (λ x q. unfold is_task transitioned in q)
      ∙ ap (Option.map f) found in
    (
      f t,
      subst
          (λ (j : String).
            fetch_one (is_task j) (record_claim now lease r leases s).tasks ≡ some (f t))
          k
          (subst (λ rows. fetch_one (is_task lease.task_key) rows ≡ some (f t))
            (sym (tasks-record_claim now lease r leases s t found)) claimed_row),
      transitioned-IsClaimedBy now lease r t,
    )

-- What a granted claim leaves in the store.
pub record IsGranted (now : ℕ) (lease_id : String) (r : ClaimRequest) (s s' : Store) : Type 0 where
  pub lease : get_lease lease_id s'.leases ≡ some (claim_lease now lease_id r s)
  pub only : count (active_for (claim_key r)) s'.leases ≡ 1
  pub task :
      (t : TaskRow) × (get_task (claim_key r) s'.tasks ≡ some t)
      × IsClaimedBy (claim_lease now lease_id r s) r t
  pub worker :
      (w : WorkerRow) × (get_worker r.worker_id s'.workers ≡ some w)
      × IsBusyWith (claim_lease now lease_id r s) r w

module _ (now : ℕ) (lease_id : String) (r : ClaimRequest) (s : Store) where
  new_lease-active : active_for (claim_key r) (claim_lease now lease_id r s) ≡ true
  unfolding new_lease active_for
  new_lease-active = eq_refl (claim_key r)

  IsGranted-record_claim :
      (leases : List LeaseRow)
      → insert_lease (claim_lease now lease_id r s) (reaped now s).leases ≡ some leases
      → IsGranted now lease_id r s
          (record_claim now (claim_lease now lease_id r s) r leases (reaped now s))
  unfolding new_lease
  IsGranted-record_claim leases i =
      let row = claim_lease now lease_id r s in
      let same = leases-record_claim now row r leases (reaped now s) in
      let found = fetch-insert_lease row (reaped now s).leases leases i in
      record {
        lease = subst (λ ls. get_lease lease_id ls ≡ some row) (sym same) found;
        only =
            subst (λ ls. count (active_for (claim_key r)) ls ≡ 1) (sym same)
              (unfold get_lease in
                omega (
                  arith,
                  (insert_lease-some row (reaped now s).leases leases i).1,
                  count-pos_of_fetch (has_lease_id lease_id) (active_for (claim_key r)) leases row
                      found new_lease-active,
                ));
        task = task-record_claim now row r leases (reaped now s) refl;
        worker =
            subst
              (λ ws. (w : WorkerRow) × (get_worker r.worker_id ws ≡ some w) × IsBusyWith row r w)
              (sym (workers-record_claim now row r leases (reaped now s)))
              (worker-insert_worker now row r (reaped now s).workers);
      }

  Outcome-IsGranted :
      (o : Store × ClaimResult)
      → Outcome now lease_id r s o
      → was_granted o.1 ≡ true
      → IsGranted now lease_id r s o.0
  Outcome-IsGranted _ (blocked b) h = absurd (cc)
  Outcome-IsGranted _ (taken active task d b) h = absurd (cc)
  Outcome-IsGranted _ (violated b i) h = absurd (cc)
  Outcome-IsGranted _ (granted leases lease task d b i) h = IsGranted-record_claim leases i

  -- After a granted claim the new lease is stored, it is the only active lease of the task, the
  -- task's row names it and its holder in state "claimed", and the worker's row is busy with it.
  pub claim-IsGranted :
      was_granted (claim_task now lease_id r s).1 ≡ true
      → IsGranted now lease_id r s (claim_task now lease_id r s).0
  claim-IsGranted =
      Outcome-IsGranted (claim_task now lease_id r s) (claim_task-Outcome now lease_id r s)

  Outcome-IsExclusive :
      (o : Store × ClaimResult)
      → Outcome now lease_id r s o
      → IsExclusive s.leases
      → IsExclusive o.0.leases
  Outcome-IsExclusive _ (blocked b) h = h
  Outcome-IsExclusive _ (taken active task d b) h = h
  Outcome-IsExclusive _ (violated b i) h = h
  Outcome-IsExclusive _ (granted leases lease task d b i) h =
      subst IsExclusive
        (sym (leases-record_claim now (claim_lease now lease_id r s) r leases (reaped now s)))
        (insert_lease-IsExclusive (claim_lease now lease_id r s) (reaped now s).leases leases i
          (reaped-IsExclusive now s h))

  pub claim_task-IsExclusive :
      IsExclusive s.leases → IsExclusive (claim_task now lease_id r s).0.leases
  claim_task-IsExclusive =
      Outcome-IsExclusive (claim_task now lease_id r s) (claim_task-Outcome now lease_id r s)
