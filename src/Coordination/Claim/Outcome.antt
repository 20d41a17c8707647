-- ===== src/Coordination/Claim/Outcome.antt =====
-- The four ways in which `claim_task` ends, and when each is met.
use tandem_agents.Prelude.{
  ℕ, String, ◌≡◌, inl, inr, true, false, Option, none, some, List, Bool-cases, Option-cases,
}
use tandem_agents.Coordination.Rows.{TaskRow, LeaseRow, Store}
use tandem_agents.Coordination.Leases.{next_attempt}
use tandem_agents.Coordination.TaskKey.{task_payload}
use tandem_agents.Coordination.Claim.{
  ClaimRequest, ClaimResult, claimed, dependency_blocked, active_lease_exists, integrity_error,
  new_lease, insert_lease, record_claim, reaped, claim_dependencies, blocking_lease, claim_task,
}

abbrev pub claim_key : ClaimRequest → String
claim_key r = (task_payload r.task r.repo).task_key

-- The lease that the claim writes.
abbrev pub claim_lease : ℕ → String → ClaimRequest → Store → LeaseRow
claim_lease now lease_id r s =
    new_lease now lease_id (next_attempt (claim_key r) (reaped now s).leases) r

module _ (now : ℕ) (lease_id : String) (r : ClaimRequest) (s : Store) where
  pub data Outcome : Store × ClaimResult → Type 0 where
    blocked :
        (claim_dependencies r (reaped now s)).blocked ≡ true
        → Outcome (s, dependency_blocked (claim_dependencies r (reaped now s)))
    taken :
        (active : LeaseRow) (task : Option TaskRow)
        → (claim_dependencies r (reaped now s)).blocked ≡ false
        → blocking_lease now (claim_key r) (reaped now s).leases ≡ some active
        → Outcome (s, active_lease_exists task active)
    violated :
        blocking_lease now (claim_key r) (reaped now s).leases ≡ none
        → insert_lease (claim_lease now lease_id r s) (reaped now s).leases ≡ none
        → Outcome (s, integrity_error)
    granted :
        (leases : List LeaseRow) (lease : Option LeaseRow) (task : Option TaskRow)
        → (claim_dependencies r (reaped now s)).blocked ≡ false
        → blocking_lease now (claim_key r) (reaped now s).leases ≡ none
        → insert_lease (claim_lease now lease_id r s) (reaped now s).leases ≡ some leases
        → Outcome (
          record_claim now (claim_lease now lease_id r s) r leases (reaped now s),
          claimed lease task,
        )

  pub claim_task-Outcome : Outcome (claim_task now lease_id r s)
  unfolding claim_task
  claim_task-Outcome = elim (Bool-cases (claim_dependencies r (reaped now s)).blocked) [
    | inl b ↦ rw b (blocked b)
    | inr b ↦ elim (Option-cases (blocking_lease now (claim_key r) (reaped now s).leases)) [
      | inr (active, e) ↦ rw (b, e) (taken active _ b e)
      | inl e ↦
          elim (Option-cases (insert_lease (claim_lease now lease_id r s) (reaped now s).leases)) [
            | inl i ↦ rw (b, e, i) (violated e i)
            | inr (leases, i) ↦ rw (b, e, i) (granted leases _ _ b e i)
          ]
    ]
  ]
