-- ===== src/ExternalActions/Plan/Closing.antt =====
-- Which pull requests default_action_plan of core/external_actions/github_pr.py proposes to close.
use mathlib.Core.List.{◌++◌ as append}
use tandem_agents.Prelude.{
  ℕ, String, ◌≡◌, refl, sym, ap, ◌∙◌, inl, inr, Bool, true, false, ◌&&◌, Option, none, some, List,
  [], ◌∷◌, map, arith, ltb, ◌==◌, Bool-cases, select, count, any,
}
use tandem_agents.Coordination.Rows.{Dict}
use tandem_agents.ExternalActions.Numbers.{decimal}
use tandem_agents.ExternalActions.Plan.{
  PlanTask, PrContext, Action, close_opt_in, no_numbers, is_number, close_requested, target_of,
  comment_action, decision_action, pr_actions, has_type, summary_action, default_action_plan,
}

-- What the policy says of a number: without a policy or without its consent nothing is closed, with
-- an empty list everything, else what the list holds.
unfoldable pub permits : Option (Bool × List (Option ℕ)) → ℕ → Bool
unfolding count
permits none n = false
permits (some (false, ns)) n = false
permits (some (true, [])) n = true
permits (some (true, m ∷ ns)) n =
    ltb 0 (count (λ k. elim k [ none ↦ false | some j ↦ j == n ]) (m ∷ ns))

any-count {ℓ} :
    {A : Type ℓ} (p q : A → Bool) (xs : List A)
    → ((x : A) → p x ≡ q x)
    → any p xs ≡ ltb 0 (count q xs)
unfolding any count
any-count p q [] h = refl
any-count p q (x ∷ xs) h = ground (arith, h x, any-count p q xs h)

listed : (n : ℕ) (k : Option ℕ) → is_number n k ≡ elim k [ none ↦ false | some j ↦ j == n ]
unfolding is_number
listed n none = refl
listed n (some j) = refl

requested-permits :
    (t : PlanTask) (pr : PrContext) → close_requested t pr ≡ permits t.close_policy pr.number
unfolding close_requested close_opt_in permits
requested-permits t pr = go t.close_policy refl
  where
    go :
        (c : Option (Bool × List (Option ℕ)))
        → t.close_policy ≡ c
        → close_requested t pr ≡ permits c pr.number
    go none e = rw (e, close_requested) refl
    go (some (false, ns)) e = rw (e, close_requested) refl
    go (some (true, [])) e = rw (e, close_requested) (unfold no_numbers in refl)
    go (some (true, m ∷ ns)) e =
        rw (e, close_requested)
          (unfold no_numbers in any-count (is_number pr.number) _ (m ∷ ns) (listed pr.number))

-- The target and the payload of a proposal that closes this pull request.
abbrev pub closing_of : PrContext → Dict × Dict
closing_of pr =
    (("pr_number", decimal pr.number) ∷ ("base_repo", pr.base_repo) ∷ [], ("state", "closed") ∷ [])

-- The target and the payload of an action.
abbrev pub call_of : Action → Dict × Dict
call_of a = (a.target, a.payload)

targets : List Action → List (Dict × Dict)
unfolding select
targets actions = map call_of (select (has_type "close_pr") actions)

closes-pr_actions :
    (run_id : String) (t : PlanTask) (prs : List PrContext)
    → targets (pr_actions run_id t prs)
      ≡ map closing_of (select (λ pr. ltb 0 pr.number && permits t.close_policy pr.number) prs)
unfolding targets select pr_actions comment_action decision_action has_type target_of
closes-pr_actions run_id t [] = refl
closes-pr_actions run_id t (pr ∷ prs) = elim (Bool-cases (ltb 0 pr.number)) [
  | inl e ↦ elim (Bool-cases (close_requested t pr)) [
    | inl c ↦
        rw (e, c, sym (requested-permits t pr) ∙ c, decision_action)
          (ap (λ (xs : List (Dict × Dict)). closing_of pr ∷ xs) (closes-pr_actions run_id t prs))
    | inr c ↦
        rw (e, c, sym (requested-permits t pr) ∙ c, decision_action)
          (closes-pr_actions run_id t prs)
  ]
  | inr e ↦ rw e (closes-pr_actions run_id t prs)
]

targets-append :
    (xs : List Action) (a : Action)
    → has_type "close_pr" a ≡ false
    → targets (append xs (a ∷ [])) ≡ targets xs
unfolding targets select
targets-append [] a h = rw h refl
targets-append (x ∷ xs) a h = elim (Bool-cases (has_type "close_pr" x)) [
  | inl e ↦ rw e (ap (λ ys. call_of x ∷ ys) (targets-append xs a h))
  | inr e ↦ rw e (targets-append xs a h)
]

-- The plan proposes to close, in their order, exactly the pull requests with a positive number that
-- the policy of the task permits to close: it must consent, and name the number unless it names
-- none. Each proposal holds the number and the repository, and sets the state to closed.
pub plan-closes :
    (run_id : String) (t : PlanTask) (prs : List PrContext)
    → map
        (λ a. (a.target, a.payload))
        (select (has_type "close_pr") (default_action_plan run_id t prs))
      ≡ map closing_of (select (λ pr. ltb 0 pr.number && permits t.close_policy pr.number) prs)
unfolding default_action_plan has_type summary_action targets
plan-closes run_id t prs =
    targets-append (pr_actions run_id t prs) (summary_action run_id t (pr_actions run_id t prs))
      refl
    ∙ closes-pr_actions run_id t prs
