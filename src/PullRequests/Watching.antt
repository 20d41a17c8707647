-- ===== src/PullRequests/Watching.antt =====
-- core/scheduling/coder_supervisor.py: which pull requests are refreshed again.
use mathlib.Core.Path.{subst}
use tandem_agents.Prelude.{
  String, ◌≡◌, refl, sym, ap, ◌∙◌, inl, inr, Bool, true, false, not, ◌&&◌, ◌||◌, [], ◌∷◌, arith,
  str_eq, eq_iff, if◌then◌else◌, Bool-cases, any, strip, starts_with, contains,
}
use tandem_agents.Scheduling.Repairs.{RepairState, start_pr_repair_pass}
use tandem_agents.PullRequests.Entries.{one_of}
use tandem_agents.PullRequests.Merge.{PullRequest}
use tandem_agents.PullRequests.Supervision.{
  Lifecycle, SupervisorConfig, Turn, Fetched, raised, fetched, normalize_status, has_number,
  is_retryable_error, supervised_states, is_pr_lifecycle_supervisable, in_state, was_handed_over,
  maybe_auto_merge_pr, or_pull_request, after_error, after_answer, refresh_pr_lifecycle_for_run,
}

-- The state of a pull request behind a refresh that found it in `state`.
kept_state : (state : String) → (handed did : Bool) → String
unfolding one_of any
kept_state state handed did =
    if one_of ("needs-repair" ∷ "conflicted" ∷ []) state
    then (if handed then "needs-human" else state)
    else if str_eq state "ready-to-merge" && did
    then "merged"
    else state

-- The states of a pull request, as a refresh found it, that lead to another refresh.
unfoldable pub stays_watched : (state : String) → (handed did : Bool) → Bool
stays_watched state handed did =
    str_eq state "running"
    || str_eq state "waiting-for-review"
    || (str_eq state "needs-repair" && not handed)
    || (str_eq state "ready-to-merge" && not did)

abbrev Agrees : Bool → Bool → String → Type 0
Agrees handed did state =
    one_of supervised_states (kept_state state handed did) ≡ stays_watched state handed did

at_needs_repair : (handed did : Bool) → Agrees handed did "needs-repair"
unfolding kept_state stays_watched one_of any
at_needs_repair true did = refl
at_needs_repair false did = refl

at_conflicted : (handed did : Bool) → Agrees handed did "conflicted"
unfolding kept_state stays_watched one_of any
at_conflicted true did = refl
at_conflicted false did = refl

at_ready : (handed did : Bool) → Agrees handed did "ready-to-merge"
unfolding kept_state stays_watched one_of any
at_ready handed true = refl
at_ready handed false = refl

elsewhere :
    (state : String) (handed did : Bool)
    → str_eq state "needs-repair" ≡ false
    → str_eq state "conflicted" ≡ false
    → str_eq state "ready-to-merge" ≡ false
    → Agrees handed did state
unfolding kept_state stays_watched one_of any
elsewhere state handed did e1 e2 e3 = rw (e1, e2, e3, kept_state, stays_watched) (ground arith)

kept_state-Agrees : (state : String) (handed did : Bool) → Agrees handed did state
kept_state-Agrees state handed did = elim (Bool-cases (str_eq state "needs-repair")) [
  | inl e ↦
      subst (Agrees handed did) (sym ((eq_iff state "needs-repair").0 e))
        (at_needs_repair handed did)
  | inr e1 ↦ elim (Bool-cases (str_eq state "conflicted")) [
    | inl e ↦
        subst (Agrees handed did) (sym ((eq_iff state "conflicted").0 e)) (at_conflicted handed did)
    | inr e2 ↦ elim (Bool-cases (str_eq state "ready-to-merge")) [
      | inl e ↦
          subst (Agrees handed did) (sym ((eq_iff state "ready-to-merge").0 e))
            (at_ready handed did)
      | inr e3 ↦ elsewhere state handed did e1 e2 e3
    ]
  ]
]

no_error : (a b : Bool) → (a || (b && false)) ≡ a
no_error a b = ground arith

-- The supervision of a lifecycle without an error.
watched :
    (run_status : String) (pr : PullRequest)
    → one_of ("completed" ∷ "running" ∷ []) (normalize_status run_status) ≡ true
    → is_pr_lifecycle_supervisable run_status (record { pull_request = pr; error = "" })
      ≡ (has_number pr.number && one_of supervised_states (strip pr.lifecycle_state))
unfolding is_pr_lifecycle_supervisable is_retryable_error contains starts_with strip
watched run_status pr h = rw (h, is_pr_lifecycle_supervisable) (no_error _ _)

abbrev without_error : PullRequest → Lifecycle
without_error pr = record { pull_request = pr; error = "" }

unwatched :
    (a : Bool)
    → (a && one_of supervised_states "needs-human") ≡ one_of supervised_states "needs-human"
unfolding one_of any
unwatched a = ground arith

-- What the branches of a refresh leave, by their tests.
left_by :
    (pr ctx : PullRequest) (r s : RepairState)
    → (repairs handed merges : Bool) → Lifecycle × RepairState
unfolding in_state
left_by pr ctx r s repairs handed merges =
    if repairs
    then (if handed then without_error (in_state "needs-human" false ctx) else without_error pr, r)
    else if merges
    then (without_error (record (in_state "merged" true pr) { merged = true }), s)
    else (without_error pr, s)

watched_after :
    (run_status : String) (pr ctx : PullRequest) (r s : RepairState) (repairs handed merges : Bool)
    → one_of ("completed" ∷ "running" ∷ []) (normalize_status run_status) ≡ true
    → has_number pr.number ≡ true
    → is_pr_lifecycle_supervisable run_status (left_by pr ctx r s repairs handed merges).0
      ≡ one_of supervised_states (
          if repairs
          then (if handed then "needs-human" else strip pr.lifecycle_state)
          else if merges
          then "merged"
          else strip pr.lifecycle_state)
unfolding left_by in_state strip
watched_after run_status pr ctx r s true true merges ok n =
    watched run_status (in_state "needs-human" false ctx) ok ∙ unwatched (has_number ctx.number)
watched_after run_status pr ctx r s true false merges ok n =
    watched run_status pr ok ∙ ap (λ b. b && one_of supervised_states (strip pr.lifecycle_state)) n
watched_after run_status pr ctx r s false handed true ok n =
    watched run_status (record (in_state "merged" true pr) { merged = true }) ok
    ∙ ap (λ b. b && one_of supervised_states "merged") n
watched_after run_status pr ctx r s false handed false ok n =
    watched run_status pr ok ∙ ap (λ b. b && one_of supervised_states (strip pr.lifecycle_state)) n

refresh-fetched :
    (cfg : SupervisorConfig) (t : Turn) (pr : PullRequest) (l : Lifecycle) (s : RepairState)
    → t.answer ≡ fetched pr
    → refresh_pr_lifecycle_for_run cfg t l s ≡ after_answer cfg t pr s
unfolding refresh_pr_lifecycle_for_run
refresh-fetched cfg t pr l s e =
    ap
      (λ (a : Fetched). elim a as (λ _. Lifecycle × RepairState) [
        | raised message ↦ (after_error message l, s)
        | fetched p ↦ after_answer cfg t p s
      ])
      e

-- After a refresh of a run that is completed or running, to which GitHub answered with a pull request
-- that has a number, the pull request is refreshed again exactly when it was found running, waiting
-- for a review, in need of a repair that no person was asked for, or ready to merge and not merged
-- now. One that is behind its base or in conflict with it is not.
pub supervised_exactly :
    (cfg : SupervisorConfig) (t : Turn) (run_status : String) (pr : PullRequest) (l : Lifecycle)
    (s : RepairState)
    → one_of ("completed" ∷ "running" ∷ []) (normalize_status run_status) ≡ true
    → has_number pr.number ≡ true
    → t.answer ≡ fetched pr
    → is_pr_lifecycle_supervisable run_status (refresh_pr_lifecycle_for_run cfg t l s).0
      ≡ stays_watched
          (strip pr.lifecycle_state)
          (was_handed_over (start_pr_repair_pass cfg.describe cfg.repair cfg.budget t.feedback s).1)
          (maybe_auto_merge_pr cfg.review t.tools pr t.approvals)
unfolding after_answer kept_state in_state left_by
supervised_exactly cfg t run_status pr l s ok numbered e =
    let state = strip pr.lifecycle_state in
    let handed =
      was_handed_over (start_pr_repair_pass cfg.describe cfg.repair cfg.budget t.feedback s).1 in
    let did = maybe_auto_merge_pr cfg.review t.tools pr t.approvals in
    let all = kept_state-Agrees state handed did in
    let repaired = start_pr_repair_pass cfg.describe cfg.repair cfg.budget t.feedback s in
    ap (λ (o : Lifecycle × RepairState). is_pr_lifecycle_supervisable run_status o.0)
      (refresh-fetched cfg t pr l s e)
    ∙ watched_after run_status pr (or_pull_request t.context_pull_request pr) repaired.0 s
        (one_of ("needs-repair" ∷ "conflicted" ∷ []) state) handed
        (str_eq state "ready-to-merge" && did) ok numbered
    ∙ all
