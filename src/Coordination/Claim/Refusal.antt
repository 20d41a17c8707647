-- ===== src/Coordination/Claim/Refusal.antt =====
-- When `claim_task` grants a claim, and what a refusal leaves.
use tandem_agents.Prelude.{
  ℕ, String, ◌≡◌, refl, ◌≢◌, Bool, true, false, not, ◌&&◌, Option, none, some,
}
use tandem_agents.Coordination.Rows.{LeaseRow, Store}
use tandem_agents.Coordination.TaskKey.{task_payload}
use tandem_agents.Coordination.Exclusion.{IsExclusive}
use tandem_agents.Coordination.Claim.{
  ClaimRequest, ClaimResult, claimed, integrity_error, new_lease, insert_lease, reaped,
  claim_dependencies, blocking_lease, claim_task,
}
use tandem_agents.Coordination.Claim.Exclusive.{
  reaped-IsExclusive, reaped-NoneExpired, insert_lease-free, count-zero_of_blocking,
}
use tandem_agents.Coordination.Claim.Outcome.{
  claim_key, claim_lease, Outcome, blocked, taken, violated, granted, claim_task-Outcome,
}

abbrev pub was_granted : ClaimResult → Bool
was_granted (claimed lease task) = true
was_granted _ = false

-- Nothing is unfinished, and after the reaping no live lease holds the task.
abbrev pub is_free : ℕ → ClaimRequest → Store → Bool
is_free now r s =
    not (claim_dependencies r (reaped now s)).blocked
    && is_none (blocking_lease now (claim_key r) (reaped now s).leases)
  where
    is_none : Option LeaseRow → Bool
    is_none none = true
    is_none (some l) = false

module _ (now : ℕ) (lease_id : String) (r : ClaimRequest) (s : Store) where
  not_violated :
      IsExclusive s.leases
      → blocking_lease now (claim_key r) (reaped now s).leases ≡ none
      → insert_lease (claim_lease now lease_id r s) (reaped now s).leases ≢ none
  unfolding new_lease task_payload
  not_violated h b =
      insert_lease-free (claim_lease now lease_id r s) (reaped now s).leases
        (reaped-IsExclusive now s h)
        (count-zero_of_blocking now (claim_key r) (reaped now s).leases (reaped-NoneExpired now s)
          b)

  Outcome-ne-integrity_error :
      (o : Store × ClaimResult)
      → Outcome now lease_id r s o
      → IsExclusive s.leases
      → o.1 ≢ integrity_error
  Outcome-ne-integrity_error _ (blocked b) h e = cc
  Outcome-ne-integrity_error _ (taken active task b t) h e = cc
  Outcome-ne-integrity_error _ (violated b i) h e = not_violated h b i
  Outcome-ne-integrity_error _ (granted leases lease task d b i) h e = cc

  -- On exclusive leases a claim never meets the unique index on active leases.
  pub claim-ne-integrity_error :
      IsExclusive s.leases → (claim_task now lease_id r s).1 ≢ integrity_error
  claim-ne-integrity_error =
      Outcome-ne-integrity_error (claim_task now lease_id r s) (claim_task-Outcome now lease_id r s)

  Outcome-was_granted :
      (o : Store × ClaimResult)
      → Outcome now lease_id r s o
      → IsExclusive s.leases
      → was_granted o.1 ≡ is_free now r s
  Outcome-was_granted _ (blocked b) h = rw b
  Outcome-was_granted _ (taken active task d b) h = rw (d, b)
  Outcome-was_granted _ (violated b i) h = absurd (not_violated h b i)
  Outcome-was_granted _ (granted leases lease task d b i) h = rw (d, b)

  -- On exclusive leases a claim is granted exactly when its dependencies do not block it and no
  -- live lease holds its task after both reapers ran.
  pub was_granted-claim :
      IsExclusive s.leases → was_granted (claim_task now lease_id r s).1 ≡ is_free now r s
  was_granted-claim =
      Outcome-was_granted (claim_task now lease_id r s) (claim_task-Outcome now lease_id r s)

  Outcome-refused :
      (o : Store × ClaimResult) → Outcome now lease_id r s o → was_granted o.1 ≡ false → o.0 ≡ s
  Outcome-refused _ (blocked b) h = refl
  Outcome-refused _ (taken active task d b) h = refl
  Outcome-refused _ (violated b i) h = refl
  Outcome-refused _ (granted leases lease task d b i) h = cc

  -- A claim that is not granted leaves the whole store as it was, the reaping included.
  claim_refused :
      was_granted (claim_task now lease_id r s).1 ≡ false → (claim_task now lease_id r s).0 ≡ s
  claim_refused =
      Outcome-refused (claim_task now lease_id r s) (claim_task-Outcome now lease_id r s)
