-- ===== src/Coordination/Protocol.antt =====
-- The operations of `CoordinationStore` that touch the lease protocol, as one state machine: a
-- history of the store is a list of operations, each a transaction at its own time, with the
-- argument that the caller gives it. No order of the times is assumed.
use tandem_agents.Prelude.{
  ℕ, ◌≤◌, String, ◌≢◌, inl, inr, Option, List, [], ◌∷◌, arith, Bool-cases, Option-cases, count,
}
use tandem_agents.Coordination.Rows.{WorkerRow, Store}
use tandem_agents.Coordination.Leases.{
  reap_expired_leases, heartbeat_lease, release_lease, active_for,
}
use tandem_agents.Coordination.Workers.{
  register_worker, WorkerUpdate, heartbeat_worker, reap_stale_workers,
}
use tandem_agents.Coordination.Tasks.{
  Payload, register_task, Transition, get_task, clear_claim, apply_task_state_locked,
  transition_task_state,
}
use tandem_agents.Coordination.Claim.{ClaimRequest, integrity_error, claim_task}
use tandem_agents.Coordination.Claim.Refusal.{claim-ne-integrity_error}
use tandem_agents.Coordination.Claim.Grant.{claim_task-IsExclusive}
use tandem_agents.Coordination.Exclusion.{
  IsExclusive, IsExclusive-update, stale_lease-IsSafeUpdate, reap_expired_leases_locked-IsExclusive,
  reap_stale_workers-IsExclusive,
}
use tandem_agents.Coordination.Holding.{heartbeat-IsExclusive, release-IsExclusive}

pub data Operation : Type 0 where
  claim : (now : ℕ) → (lease_id : String) → ClaimRequest → Operation
  heartbeat : (now ttl : ℕ) → (lease_id : String) → Operation
  release : (now : ℕ) → (lease_id status : String) → (reason : Option String) → Operation
  reap_leases : (now : ℕ) → Operation
  reap_workers : (now stale_after_seconds : ℕ) → Operation
  register : (now : ℕ) → Payload → (status : String) → Operation
  transition : (now : ℕ) → (task_key state : String) → Transition → Operation
  join : WorkerRow → Operation
  beat : (now : ℕ) → (worker_id : String) → WorkerUpdate → Operation

-- The store after one operation.
unfoldable pub perform : Operation → Store → Store
unfolding claim_task heartbeat_lease release_lease reap_expired_leases reap_stale_workers
    register_task transition_task_state register_worker heartbeat_worker
perform (claim now lease_id r) s = (claim_task now lease_id r s).0
perform (heartbeat now ttl lease_id) s = (heartbeat_lease now ttl lease_id s).0
perform (release now lease_id status reason) s = (release_lease now lease_id status reason s).0
perform (reap_leases now) s = (reap_expired_leases now s).0
perform (reap_workers now seconds) s = (reap_stale_workers now seconds s).0
perform (register now p status) s = (register_task now p status s).0
perform (transition now task_key state a) s = (transition_task_state now task_key state a s).0
perform (join row) s = record s { workers = register_worker row s.workers }
perform (beat now worker_id u) s = record s {
  workers = (heartbeat_worker now worker_id u s.workers).0;
}

unfoldable pub run : List Operation → Store → Store
unfolding perform
run [] s = s
run (o ∷ os) s = run os (perform o s)

-- A new database, after `ensure_schema`.
abbrev pub empty_store : Store
empty_store = record { tasks = []; runs = []; workers = []; leases = [] }

pub empty-IsExclusive : IsExclusive empty_store.leases
unfolding count
empty-IsExclusive = record { one_active = λ k. omega arith; one_row = λ i. omega arith }

apply_task_state_locked-IsExclusive :
    (now : ℕ) (task_key state : String) (a : Transition) (s : Store)
    → IsExclusive s.leases
    → IsExclusive (apply_task_state_locked now task_key state a s).leases
unfolding apply_task_state_locked
apply_task_state_locked-IsExclusive now task_key state a s x =
    elim (Option-cases (get_task task_key s.tasks)) [
      | inl e ↦ rw (e, apply_task_state_locked) x
      | inr (row, e) ↦ elim (Bool-cases a.clear_claim) [
        | inl c ↦
            rw (e, c, apply_task_state_locked)
              (unfold clear_claim in
                IsExclusive-update _ _ s.leases (stale_lease-IsSafeUpdate _ now _) x)
        | inr c ↦ rw (e, c, apply_task_state_locked) x
      ]
    ]

perform-IsExclusive :
    (o : Operation) (s : Store) → IsExclusive s.leases → IsExclusive (perform o s).leases
unfolding perform reap_expired_leases register_task transition_task_state
perform-IsExclusive (claim now lease_id r) s x = claim_task-IsExclusive now lease_id r s x
perform-IsExclusive (heartbeat now ttl lease_id) s x = heartbeat-IsExclusive now ttl lease_id s x
perform-IsExclusive (release now lease_id status reason) s x =
    release-IsExclusive now lease_id status reason s x
perform-IsExclusive (reap_leases now) s x = reap_expired_leases_locked-IsExclusive now s x
perform-IsExclusive (reap_workers now seconds) s x = reap_stale_workers-IsExclusive now seconds s x
perform-IsExclusive (register now p status) s x = x
perform-IsExclusive (transition now task_key state a) s x =
    apply_task_state_locked-IsExclusive now task_key state a s x
perform-IsExclusive (join row) s x = x
perform-IsExclusive (beat now worker_id u) s x = x

-- Any history that starts with exclusive leases ends with exclusive leases.
pub run-IsExclusive :
    (os : List Operation) (s : Store) → IsExclusive s.leases → IsExclusive (run os s).leases
unfolding run
run-IsExclusive [] s x = x
run-IsExclusive (o ∷ os) s x = run-IsExclusive os (perform o s) (perform-IsExclusive o s x)

-- After any history of a new store, each task has at most one active lease.
pub one_active_lease :
    (os : List Operation) (task_key : String)
    → count (active_for task_key) (run os empty_store).leases ≤ 1
one_active_lease os task_key =
    let x = run-IsExclusive os empty_store empty-IsExclusive in x.one_active task_key

-- After any history of a new store, a claim never violates the unique index on active leases: it
-- never ends with the exception that this raises.
pub claim_never_violates :
    (os : List Operation) (now : ℕ) (lease_id : String) (r : ClaimRequest)
    → (claim_task now lease_id r (run os empty_store)).1 ≢ integrity_error
claim_never_violates os now lease_id r =
    claim-ne-integrity_error now lease_id r (run os empty_store)
      (run-IsExclusive os empty_store empty-IsExclusive)
