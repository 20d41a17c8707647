-- ===== src/Coordination/Claim/Resolved.antt =====
-- The dependencies of a task that is claimed, and of one whose claim is refused for them.
use mathlib.Core.Path.{subst}
use tandem_agents.Prelude.{
  ℕ, String, ◌≡◌, refl, sym, ◌∙◌, inl, inr, true, false, not, Option, none, some, List, [], ◌∷◌,
  Option-cases, All, any, true-false,
}
use tandem_agents.Coordination.Rows.{TaskDict, TaskRow, Store}
use tandem_agents.Coordination.Dependencies.{
  DependencyStatus, is_resolved, declared_of, dependency_status_for_task,
}
use tandem_agents.Coordination.Dependencies.Blocked.{blocked-any, resolved_of_free}
use tandem_agents.Coordination.Claim.{
  ClaimRequest, ClaimResult, dependency_blocked, reaped, known_tasks, claim_dependencies,
  claim_task,
}
use tandem_agents.Coordination.Claim.Outcome.{
  claim_key, Outcome, blocked, taken, violated, granted, claim_task-Outcome,
}
use tandem_agents.Coordination.Claim.Refusal.{was_granted}

unknown_is_free : (t : TaskDict) → (dependency_status_for_task t none).blocked ≡ false
unfolding dependency_status_for_task
unknown_is_free t = go (declared_of t) refl
  where
    go :
        (ds : List String)
        → declared_of t ≡ ds
        → (dependency_status_for_task t none).blocked ≡ false
    go [] e = rw (e, dependency_status_for_task) refl
    go (d ∷ ds) e = rw (e, dependency_status_for_task) refl

module _ (now : ℕ) (lease_id : String) (r : ClaimRequest) (s : Store) where
  Outcome-free :
      (o : Store × ClaimResult)
      → Outcome now lease_id r s o
      → was_granted o.1 ≡ true
      → (claim_dependencies r (reaped now s)).blocked ≡ false
  Outcome-free _ (blocked b) h = absurd (cc)
  Outcome-free _ (taken active task d b) h = d
  Outcome-free _ (violated b i) h = absurd (cc)
  Outcome-free _ (granted leases lease task d b i) h = d

  -- If a claim is granted and the ledger has other tasks after the reaping, then each declared
  -- dependency of the task is resolved: a known task that it refers to is done.
  pub granted-resolved :
      (known : List TaskRow)
      → known_tasks (claim_key r) (reaped now s).tasks ≡ some known
      → was_granted (claim_task now lease_id r s).1 ≡ true
      → All (λ d. is_resolved known d ≡ true) (declared_of r.task)
  unfolding claim_dependencies
  granted-resolved known k h = resolved_of_free r.task known (
      subst (λ (o : Option (List TaskRow)). (dependency_status_for_task r.task o).blocked ≡ false) k
        (Outcome-free (claim_task now lease_id r s) (claim_task-Outcome now lease_id r s) h))

  Outcome-blocked :
      (o : Store × ClaimResult) (status : DependencyStatus)
      → Outcome now lease_id r s o
      → o.1 ≡ dependency_blocked status
      → (claim_dependencies r (reaped now s)).blocked ≡ true
  Outcome-blocked _ status (blocked b) h = b
  Outcome-blocked _ status (taken active task d b) h = absurd (cc)
  Outcome-blocked _ status (violated b i) h = absurd (cc)
  Outcome-blocked _ status (granted leases lease task d b i) h = absurd (cc)

  -- If a claim is refused for its dependencies, then the ledger has other tasks after the reaping,
  -- and one of the declared dependencies of the task is not resolved by them.
  pub blocked-unresolved :
      (status : DependencyStatus)
      → (claim_task now lease_id r s).1 ≡ dependency_blocked status
      → (known : List TaskRow) × (known_tasks (claim_key r) (reaped now s).tasks ≡ some known)
        × (any (λ d. not (is_resolved known d)) (declared_of r.task) ≡ true)
  unfolding claim_dependencies
  blocked-unresolved status h =
      let b =
        Outcome-blocked (claim_task now lease_id r s) status (claim_task-Outcome now lease_id r s)
          h in
      elim (Option-cases (known_tasks (claim_key r) (reaped now s).tasks)) [
        | inl e ↦ absurd (true-false b (rw e (unknown_is_free r.task)))
        | inr (known, e) ↦ (
          known,
          e,
          sym (blocked-any r.task known)
              ∙ subst
                  (λ (o : Option (List TaskRow)).
                    (dependency_status_for_task r.task o).blocked ≡ true)
                  e b,
        )
      ]
