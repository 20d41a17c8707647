-- ===== src/Coordination/Ownership.antt =====
-- core/coordination/tasks.py: task_ownership, which says who holds a task, and list_tasks.
use mathlib.Core.Path.{subst}
use tandem_agents.Prelude.{
  ℕ, max, String, ◌≡◌, refl, sym, ap, ◌∙◌, Bool, true, false, ◌&&◌, ◌||◌, Option, none, some, List,
  [], ◌∷◌, str_eq, if◌then◌else◌, take, select, fetch_one, order_desc, strip, str_or,
}
use tandem_agents.Coordination.Rows.{
  text, task, repo, Metadata, TaskRow, RunRow, WorkerRow, LeaseRow, Store,
}
use tandem_agents.Coordination.Status.{normalize_task_state}
use tandem_agents.Coordination.Leases.{get_lease}
use tandem_agents.Coordination.Workers.{get_worker}
use tandem_agents.Coordination.Tasks.{get_task}
use tandem_agents.Coordination.Claim.{ClaimRequest, new_lease, claim_task}
use tandem_agents.Coordination.Claim.Refusal.{was_granted}
use tandem_agents.Coordination.Claim.Outcome.{claim_key, claim_lease}
use tandem_agents.Coordination.Claim.Grant.{claim-IsGranted}

-- str(value or "").strip() of a nullable text.
unfoldable pub text_or_empty : Option String → String
unfolding strip
text_or_empty none = ""
text_or_empty (some s) = strip s

-- str(metadata.get("state_reason") or "").strip(), where that entry is a text.
state_reason_of : Metadata → String
unfolding strip
state_reason_of [] = ""
state_reason_of ((k, text s) ∷ m) =
    let rest = state_reason_of m in if str_eq k "state_reason" then strip s else rest
state_reason_of ((k, task t) ∷ m) = state_reason_of m
state_reason_of ((k, repo d) ∷ m) = state_reason_of m

-- The lease that the task names, or else the one that was taken last.
unfoldable pub ownership_lease : TaskRow → List LeaseRow → Option LeaseRow
unfolding fetch_one order_desc select
ownership_lease t leases =
    let last =
      fetch_one (λ _. true)
        (order_desc (λ (l : LeaseRow). l.acquired_at_ms)
          (select (λ (l : LeaseRow). str_eq l.task_key t.task_key) leases)) in
    let named : Option LeaseRow =
      if str_eq (text_or_empty t.claimed_lease_id) ""
      then none
      else get_lease (text_or_empty t.claimed_lease_id) leases in
    elim named [ some l ↦ some l | none ↦ last ]

lease_text : (LeaseRow → String) → Option LeaseRow → String
lease_text f none = ""
lease_text f (some l) = f l

is_held : String → Bool
is_held s = str_eq s "claimed" || str_eq s "active" || str_eq s "review"

-- The state of the ownership, of the normalized states of the task and of its lease.
unfoldable pub ownership_state_of : (task_state lease_state : String) → String
unfolding is_held
ownership_state_of task_state lease_state =
    if str_eq lease_state "active" && is_held task_state
    then "owned"
    else if str_eq lease_state "stale" || str_eq task_state "stale"
    then "reclaimable"
    else task_state

pub record Ownership : Type 0 where
  pub task_row : TaskRow
  pub lease : Option LeaseRow
  pub run : Option RunRow
  pub worker : Option WorkerRow
  pub task_state : String
  pub lease_state : String
  pub ownership_state : String
  pub is_current : Bool
  pub reclaimable : Bool
  pub blocked_reason : String

or_empty : Option String → String
or_empty none = ""
or_empty (some s) = s

-- The view of a task with this lease.
unfoldable pub ownership_with : TaskRow → Option LeaseRow → Store → Ownership
unfolding lease_text ownership_state_of normalize_task_state or_empty fetch_one get_worker str_or
    strip state_reason_of
ownership_with t lease s =
    let run_id = strip (str_or (or_empty t.claimed_run_id) (lease_text (λ l. l.run_id) lease)) in
    let worker_id = strip (str_or (lease_text (λ l. l.worker_id) lease) (or_empty t.claimed_by)) in
    let task_state = normalize_task_state (str_or t.state t.status) in
    let lease_state = normalize_task_state (lease_text (λ l. l.status) lease) in
    let ownership_state = ownership_state_of task_state lease_state in
    record {
      task_row = t;
      lease = lease;
      run =
          if str_eq run_id ""
          then none
          else fetch_one (λ (r : RunRow). str_eq r.run_id run_id) s.runs;
      worker = if str_eq worker_id "" then none else get_worker worker_id s.workers;
      task_state = task_state;
      lease_state = lease_state;
      ownership_state = ownership_state;
      is_current = str_eq (lease_text (λ l. l.status) lease) "active";
      reclaimable = str_eq ownership_state "reclaimable";
      blocked_reason =
          str_or (state_reason_of t.metadata)
            (strip (lease_text (λ l. or_empty l.release_reason) lease));
    }

unfoldable pub ownership_of : TaskRow → Store → Ownership
unfolding ownership_lease ownership_with
ownership_of t s = ownership_with t (ownership_lease t s.leases) s

unfoldable pub task_ownership : String → Store → Option Ownership
unfolding get_task ownership_of
task_ownership task_key s = elim (get_task task_key s.tasks) [
  | none ↦ none
  | some t ↦ some (ownership_of t s)
]

-- The filters of list_tasks; "" is one that is not given.
pub record TaskFilter : Type 0 where
  pub state : String
  pub status : String
  pub source_type : String
  pub repo_slug : String

unfoldable pub passes_filter : TaskFilter → TaskRow → Bool
unfolding strip
passes_filter f t =
    (str_eq f.state "" || str_eq t.state (strip f.state))
    && (str_eq f.status "" || str_eq t.status (strip f.status))
    && (str_eq f.source_type "" || str_eq t.source_type (strip f.source_type))
    && (str_eq f.repo_slug "" || str_eq t.repo_slug (strip f.repo_slug))

-- The rows that list_tasks reads: those updated last, at most `limit` of them.
unfoldable pub list_tasks : TaskFilter → ℕ → List TaskRow → List TaskRow
unfolding passes_filter select order_desc
list_tasks f limit tasks =
    take (max 1 limit)
      (order_desc (λ (t : TaskRow). t.updated_at_ms) (select (passes_filter f) tasks))

named_lease :
    (t : TaskRow) (leases : List LeaseRow) (lease_id : String) (l : LeaseRow)
    → text_or_empty t.claimed_lease_id ≡ lease_id
    → str_eq lease_id "" ≡ false
    → get_lease lease_id leases ≡ some l
    → ownership_lease t leases ≡ some l
unfolding ownership_lease
named_lease t leases lease_id l e full found = rw (e, full, found, ownership_lease) refl

abbrev Owned : Ownership → LeaseRow → Type 0
Owned o l =
    (o.lease ≡ some l)
    × (o.ownership_state ≡ "owned")
    × (o.is_current ≡ true)
    × (o.reclaimable ≡ false)

owned_state :
    (state status lease_status : String)
    → state ≡ "claimed"
    → lease_status ≡ "active"
    → ownership_state_of
        (normalize_task_state (str_or state status))
        (normalize_task_state lease_status)
      ≡ "owned"
unfolding ownership_state_of normalize_task_state str_or
owned_state state status lease_status p q = rw (p, q) refl

claimed-Owned :
    (t : TaskRow) (l : LeaseRow) (s : Store)
    → t.state ≡ "claimed"
    → l.status ≡ "active"
    → Owned (ownership_with t (some l) s) l
unfolding ownership_with lease_text
claimed-Owned t l s p q =
    let state = owned_state t.state t.status l.status p q in
    (refl, state, ap (λ z. str_eq z "active") q, ap (λ z. str_eq z "reclaimable") state)

lease-active :
    (now : ℕ) (lease_id : String) (r : ClaimRequest) (s : Store)
    → (claim_lease now lease_id r s).status ≡ "active"
unfolding new_lease
lease-active now lease_id r s = refl

-- After a granted claim, whose lease has an id without outer space, task_ownership of the task gives
-- the new lease as the current one and says that the task is owned and not reclaimable.
pub granted-owned :
    (now : ℕ) (lease_id : String) (r : ClaimRequest) (s : Store)
    → was_granted (claim_task now lease_id r s).1 ≡ true
    → strip lease_id ≡ lease_id
    → str_eq lease_id "" ≡ false
    → (o : Ownership) × (task_ownership (claim_key r) (claim_task now lease_id r s).0 ≡ some o)
      × (o.lease ≡ some (claim_lease now lease_id r s))
      × (o.ownership_state ≡ "owned")
      × (o.is_current ≡ true)
      × (o.reclaimable ≡ false)
unfolding task_ownership text_or_empty new_lease
granted-owned now lease_id r s h trimmed full =
    let after = (claim_task now lease_id r s).0 in
    let l = claim_lease now lease_id r s in
    let granted = claim-IsGranted now lease_id r s h in
    let (t, found, claimed) = granted.task in
    let id_eq = ap text_or_empty claimed.lease_id in
    let lease = named_lease t after.leases lease_id l (id_eq ∙ trimmed) full granted.lease in
    let owned =
      subst (λ (o : Option LeaseRow). Owned (ownership_with t o after) l) (sym lease)
        (claimed-Owned t l after claimed.state (lease-active now lease_id r s)) in
    (ownership_of t after, rw (found, task_ownership) refl, owned.0, owned.1, owned.2, owned.3)
