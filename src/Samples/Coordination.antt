-- ===== src/Samples/Coordination.antt =====
-- Two workers that want one task.
use tandem_agents.Prelude.{
  ◌≤◌, ◌<◌, String, ◌≡◌, refl, ◌≢◌, true, false, not, none, some, List, [], ◌∷◌, arith, All, count,
  any, strip, slugify,
}
use tandem_agents.Coordination.Rows.{TaskRow, TaskDict, Store, LeaseRow}
use tandem_agents.Coordination.Status.{normalize_task_state, duration_ms}
use tandem_agents.Coordination.Leases.{
  active_for, get_lease, heartbeat_lease, release_lease, reap_expired_leases_locked,
}
use tandem_agents.Coordination.Exclusion.{IsExclusive}
use tandem_agents.Coordination.Reaping.{NoneExpired, reap_expired-NoneExpired}
use tandem_agents.Coordination.Holding.{held, heartbeat_hit, release_again}
use tandem_agents.Coordination.Claim.{
  dependency_blocked, claim_dependencies, ClaimRequest, integrity_error, claim_task,
}
use tandem_agents.Coordination.Claim.Refusal.{was_granted, is_free, was_granted-claim}
use tandem_agents.Coordination.Claim.Grant.{IsGranted, claim-IsGranted}
use tandem_agents.Coordination.Claim.Outcome.{claim_key, claim_lease}
use tandem_agents.Coordination.Ownership.{Ownership, task_ownership, granted-owned}
use tandem_agents.Coordination.Claim.Resolved.{granted-resolved, blocked-unresolved}
use tandem_agents.Coordination.Claim.{dependency_blocked, claim_dependencies, reaped, known_tasks}
use tandem_agents.Coordination.TaskKey.{task_payload}
use tandem_agents.Coordination.Dependencies.{is_resolved, declared_of}
use tandem_agents.Coordination.Protocol.{
  register, Operation, claim, run, empty_store, run-IsExclusive, one_active_lease,
  claim_never_violates, empty-IsExclusive,
}

abbrev sample_task : TaskDict
sample_task = record {
  fields = ("task_id", "T-1") ∷ ("title", "Fix the build") ∷ [];
  source = ("type", "manual") ∷ ("item", "fix the build") ∷ [];
  repo = ("slug", "acme/app") ∷ [];
  dependencies = [];
}

abbrev request_of : String → String → ClaimRequest
request_of run worker = record {
  task = sample_task;
  repo = ("slug", "acme/app") ∷ ("path", "/srv/app") ∷ [];
  run_id = run;
  worker_id = worker;
  host_id = "host-a";
  role = "builder";
  lease_ttl_seconds = 60;
  branch_name = none;
}

abbrev first : ClaimRequest
first = request_of "run-1" "worker-1"

abbrev second : ClaimRequest
second = request_of "run-2" "worker-2"

-- The first worker holds the task.
abbrev one_claim : List Operation
one_claim = claim 1000 "lease-1" first ∷ []

abbrev claimed_store : Store
claimed_store = run one_claim empty_store

exclusive : IsExclusive claimed_store.leases
exclusive = run-IsExclusive one_claim empty_store empty-IsExclusive

claim_never_violates_example :
    (claim_task 2000 "lease-2" second (run one_claim empty_store)).1 ≢ integrity_error
claim_never_violates_example = claim_never_violates one_claim 2000 "lease-2" second

one_active_lease_example :
    count (active_for "manual:manual:fix-the-build:T-1") (run one_claim empty_store).leases ≤ 1
one_active_lease_example = one_active_lease one_claim "manual:manual:fix-the-build:T-1"

first_granted : was_granted (claim_task 1000 "lease-1" first empty_store).1 ≡ true
unfolding claim_task slugify
first_granted = refl

claim-IsGranted_example :
    IsGranted 1000 "lease-1" first empty_store (claim_task 1000 "lease-1" first empty_store).0
claim-IsGranted_example = claim-IsGranted 1000 "lease-1" first empty_store first_granted

was_granted-claim_example :
    was_granted (claim_task 2000 "lease-2" second claimed_store).1
    ≡ is_free 2000 second claimed_store
was_granted-claim_example = was_granted-claim 2000 "lease-2" second claimed_store exclusive

reap_expired-NoneExpired_example :
    NoneExpired 90000 (reap_expired_leases_locked 90000 claimed_store).leases
reap_expired-NoneExpired_example = reap_expired-NoneExpired 90000 claimed_store

is_held : 0 < count (held "lease-1") claimed_store.leases
unfolding run slugify
is_held = omega arith

heartbeat_hit_example :
    (row : LeaseRow) × (get_lease "lease-1" claimed_store.leases ≡ some row)
    × ((heartbeat_lease 5000 60 "lease-1" claimed_store).1
        ≡ some (record row { heartbeat_at_ms = 5000; expires_at_ms = 65000 }))
unfolding duration_ms
heartbeat_hit_example = heartbeat_hit 5000 60 "lease-1" claimed_store exclusive is_held

release_again_example :
    (release_lease 7000 "lease-1" "failed" none
      (release_lease 6000 "lease-1" "completed" (some "done") claimed_store).0).0
    ≡ (release_lease 6000 "lease-1" "completed" (some "done") claimed_store).0
release_again_example =
    release_again 6000 7000 "lease-1" "completed" "failed" (some "done") none claimed_store refl

-- A task that waits for another one, which is done.
abbrev earlier_task : TaskDict
earlier_task = record {
  fields = ("task_id", "T-0") ∷ ("title", "Pin the compiler") ∷ [];
  source = ("type", "manual") ∷ [];
  repo = [];
  dependencies = [];
}

abbrev later : ClaimRequest
later = record first { task = record sample_task { dependencies = "T-0" ∷ [] } }

abbrev done_store : Store
done_store = run (register 500 (task_payload earlier_task []) "done" ∷ []) empty_store

later_granted : was_granted (claim_task 1000 "lease-1" later done_store).1 ≡ true
unfolding claim_task run slugify normalize_task_state
later_granted = refl

others_known : known_tasks (claim_key later) (reaped 1000 done_store).tasks ≡ some done_store.tasks
unfolding known_tasks reaped run slugify
others_known = refl

granted-resolved_example : All (λ d. is_resolved done_store.tasks d ≡ true) (declared_of later.task)
granted-resolved_example =
    granted-resolved 1000 "lease-1" later done_store done_store.tasks others_known later_granted

-- The other task is still to be done.
abbrev open_store : Store
open_store = run (register 500 (task_payload earlier_task []) "todo" ∷ []) empty_store

later_blocked :
    (claim_task 1000 "lease-1" later open_store).1
    ≡ dependency_blocked (claim_dependencies later (reaped 1000 open_store))
unfolding claim_task run slugify normalize_task_state
later_blocked = refl

blocked-unresolved_example :
    (known : List TaskRow) × (known_tasks (claim_key later) (reaped 1000 open_store).tasks
      ≡ some known)
    × (any (λ d. not (is_resolved known d)) (declared_of later.task) ≡ true)
blocked-unresolved_example =
    blocked-unresolved 1000 "lease-1" later open_store
      (claim_dependencies later (reaped 1000 open_store)) later_blocked

granted-owned_example :
    (o : Ownership) × (task_ownership
        (claim_key first)
        (claim_task 1000 "lease-1" first empty_store).0
      ≡ some o)
    × (o.lease ≡ some (claim_lease 1000 "lease-1" first empty_store))
    × (o.ownership_state ≡ "owned")
    × (o.is_current ≡ true)
    × (o.reclaimable ≡ false)
granted-owned_example =
    granted-owned 1000 "lease-1" first empty_store first_granted (unfold strip in refl) refl
