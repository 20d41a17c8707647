-- ===== src/PullRequests/Safety.antt =====
-- When ACA merges a pull request, and when it deletes the branch.
use tandem_agents.Prelude.{
  ℕ, String, ◌≡◌, refl, inl, inr, Bool, true, false, not, ◌&&◌, ◌||◌, Option, List, [], ◌∷◌, arith,
  str_eq, Bool-cases, any, strip, lower, starts_with, contains,
}
use tandem_agents.Verification.Json.{Json, Fields}
use tandem_agents.PullRequests.Entries.{one_of}
use tandem_agents.PullRequests.Ready.{is_ready, ready_sound}
use tandem_agents.PullRequests.Merge.{
  ReviewConfig, PullRequest, normalize_pull_request_metadata, Denial, Approvals, approval_granted,
  strategy_of, allowed_merge_strategies, deny, denials_of, no_denials, is_missing,
  evaluate_auto_merge_gates, Tools, Call, call_merge, call_delete_branch, call_delete_ref,
  guarded_auto_merge,
}

unfoldable pub is_merge : Call → Bool
is_merge call_merge = true
is_merge call_delete_branch = false
is_merge call_delete_ref = false

-- What the policy asks for before a merge, of the configuration, the approvals and the metadata.
unfoldable pub policy_allows : ReviewConfig → PullRequest → Approvals → Bool
policy_allows cfg pr approvals =
    str_eq (lower (strip cfg.policy)) "auto_merge"
    && one_of (allowed_merge_strategies cfg) (strategy_of cfg)
    && starts_with "aca/" (strip pr.head_branch)
    && str_eq (strip pr.lifecycle_state) "ready-to-merge"
    && str_eq (strip pr.checks_state) "success"
    && str_eq (strip pr.review_state) "approved"
    && not (pr.terminal || pr.merged)
    && (not cfg.merge_requires_approval || approval_granted approvals.merge)

deny-none :
    (b : Bool) (d : Denial) (rest : List Denial)
    → no_denials (deny b d rest) ≡ (not b && no_denials rest)
unfolding deny no_denials
deny-none true d rest = refl
deny-none false d rest = refl

-- The conditions without those on the repository and the number.
all_of :
    (a s t b r l c v m n o k : Bool)
    → (not (not a)
        && (not (not s)
            && (not (not t)
                && (not (not b)
                    && (not r
                        && (not (not l)
                            && (not (not c)
                                && (not (not v) && (not m && (not n && (not o && true)))))))))))
      ≡ true
    → k ≡ true
    → (a && t && b && l && c && v && not m && k) ≡ true
all_of a s t b r l c v m n o k h e = ground (arith, h, e)

no_denials-allows :
    (cfg : ReviewConfig) (pr : PullRequest) (approvals : Approvals)
    → no_denials (denials_of cfg pr) ≡ true
    → (not cfg.merge_requires_approval || approval_granted approvals.merge) ≡ true
    → policy_allows cfg pr approvals ≡ true
unfolding denials_of policy_allows no_denials
no_denials-allows cfg pr approvals h k =
    let conditions =
      rw
        (
          deny-none, deny-none, deny-none, deny-none, deny-none, deny-none, deny-none, deny-none,
          deny-none, deny-none, deny-none,
        )
        at h in
    let base_repo = strip pr.base_repo in
    let expected = strip cfg.repository_slug in
    all_of (str_eq (lower (strip cfg.policy)) "auto_merge")
      (one_of ("merge" ∷ "squash" ∷ "rebase" ∷ []) (strategy_of cfg))
      (one_of (allowed_merge_strategies cfg) (strategy_of cfg))
      (starts_with "aca/" (strip pr.head_branch))
      (not (str_eq expected "") && not (str_eq base_repo "") && not (str_eq base_repo expected))
      (str_eq (strip pr.lifecycle_state) "ready-to-merge")
      (str_eq (strip pr.checks_state) "success") (str_eq (strip pr.review_state) "approved")
      (pr.terminal || pr.merged) (is_missing pr.number)
      (str_eq base_repo "" || not (contains "/" base_repo))
      (not cfg.merge_requires_approval || approval_granted approvals.merge) conditions k

not_pending : (a b : Bool) → (a && not b) ≡ false → (not a || b) ≡ true
not_pending a b h = ground (arith, h)

-- A merge is asked of GitHub only where the policy allows it: it is set to merge by itself with a
-- strategy that is allowed, the branch is one of ACA, the pull request is ready, its checks are clean
-- and its review is approved, it is not merged yet, and an operator approved the merge where that
-- is required.
pub merges_only_allowed :
    (cfg : ReviewConfig) (tools : Tools) (pr : PullRequest) (approvals : Approvals)
    → any is_merge (guarded_auto_merge cfg tools pr approvals).calls ≡ true
    → policy_allows cfg pr approvals ≡ true
unfolding guarded_auto_merge evaluate_auto_merge_gates any
merges_only_allowed cfg tools pr approvals h =
    let pending = cfg.merge_requires_approval && not (approval_granted approvals.merge) in
    elim (Bool-cases (no_denials (denials_of cfg pr))) [
      | inl e ↦ elim (Bool-cases pending) [
        | inl k ↦ absurd (cc (rw (e, k, guarded_auto_merge) at h))
        | inr k ↦ no_denials-allows cfg pr approvals e (not_pending _ _ k)
      ]
      | inr e ↦ absurd (cc (rw (e, guarded_auto_merge) at h))
    ]

fourth : (a b c d e f g h : Bool) → (a && b && c && d && e && f && g && h) ≡ true → d ≡ true
fourth a b c d e f g i h = ground (arith, h)

allows-state :
    (cfg : ReviewConfig) (pr : PullRequest) (approvals : Approvals)
    → policy_allows cfg pr approvals ≡ true
    → str_eq (strip pr.lifecycle_state) "ready-to-merge" ≡ true
unfolding policy_allows
allows-state cfg pr approvals h =
    fourth (str_eq (lower (strip cfg.policy)) "auto_merge")
      (one_of (allowed_merge_strategies cfg) (strategy_of cfg))
      (starts_with "aca/" (strip pr.head_branch))
      (str_eq (strip pr.lifecycle_state) "ready-to-merge")
      (str_eq (strip pr.checks_state) "success") (str_eq (strip pr.review_state) "approved")
      (not (pr.terminal || pr.merged))
      (not cfg.merge_requires_approval || approval_granted approvals.merge) h

-- A merge is asked of GitHub, for the metadata made of the data of a pull request, only where the
-- policy allows it (it merges by itself, the strategy is allowed, the branch is one of ACA, an
-- operator approved the merge where that is required) and the data say that the pull request is
-- approved with clean checks, no draft, not closed, not merged, not behind its base and not in
-- conflict with it.
pub merges_only_ready :
    (show : Json → String) (cfg : ReviewConfig) (tools : Tools) (number : Option ℕ)
    (head_branch base_repo : String) (p : Fields) (approvals : Approvals)
    → any is_merge
        (guarded_auto_merge cfg tools
          (normalize_pull_request_metadata show number head_branch base_repo p)
          approvals).calls
      ≡ true
    → (policy_allows cfg
          (normalize_pull_request_metadata show number head_branch base_repo p)
          approvals
        ≡ true)
      × (is_ready show p ≡ true)
unfolding normalize_pull_request_metadata
merges_only_ready show cfg tools number head_branch base_repo p approvals h =
    let pr = normalize_pull_request_metadata show number head_branch base_repo p in
    let allowed = merges_only_allowed cfg tools pr approvals h in
    (allowed, ready_sound show p (allows-state cfg pr approvals allowed))
