-- ===== src/Verification/Policy/Decisions.antt =====
-- What a decision of `evaluate_verification_policy` means: when it passes, and what it then tells.
use tandem_agents.Prelude.{
  String, ◌≡◌, refl, inl, inr, Bool, true, false, not, ◌&&◌, Option, none, some, arith,
  Option-cases,
}
use tandem_agents.Verification.RepoTruth.{
  RepoValidation, is_some, repo_validation_blocker_message, blocker_kind-message,
}
use tandem_agents.Verification.Reports.{
  Codec, Outcome, pass, repair_needed, human_review_needed, blocked,
}
use tandem_agents.Verification.Policy.{
  CommandResult, Decision, message_or, review_blocker_message, test_blocker_message,
  review_outcome_of, test_outcome_of, combined_outcome, blocker_and_category, decide,
  validation_or_empty, evaluate_verification_policy,
}
use tandem_agents.Verification.Policy.Silence.{review_pass_unblocked, test_pass_unblocked}

unfoldable pub is_pass : Outcome → Bool
is_pass pass = true
is_pass repair_needed = false
is_pass human_review_needed = false
is_pass blocked = false

is_pass-eq : (o : Outcome) → is_pass o ≡ true → o ≡ pass
unfolding is_pass
is_pass-eq pass h = refl
is_pass-eq repair_needed h = cc
is_pass-eq human_review_needed h = cc
is_pass-eq blocked h = cc

combined-is_pass :
    (review test : Outcome) (b : Option String)
    → is_pass (combined_outcome review test b) ≡ (is_pass review && is_pass test && not (is_some b))
unfolding combined_outcome is_pass is_some
combined-is_pass pass test b = ground arith
combined-is_pass repair_needed test b = ground arith
combined-is_pass human_review_needed test b = ground arith
combined-is_pass blocked test b = ground arith

category-is_some :
    (review test : Outcome) (rb tb : Option String) (v : RepoValidation)
    → is_some (blocker_and_category review test rb tb v).1
      ≡ not (is_pass review && is_pass test && not (is_some (repo_validation_blocker_message v)))
unfolding blocker_and_category is_pass is_some
category-is_some pass pass rb tb v = ground (arith, blocker_kind-message v)
category-is_some pass repair_needed rb tb v = refl
category-is_some pass human_review_needed rb tb v = refl
category-is_some pass blocked rb tb v = refl
category-is_some repair_needed pass rb tb v = refl
category-is_some repair_needed repair_needed rb tb v = refl
category-is_some repair_needed human_review_needed rb tb v = refl
category-is_some repair_needed blocked rb tb v = refl
category-is_some human_review_needed test rb tb v = refl
category-is_some blocked pass rb tb v = refl
category-is_some blocked repair_needed rb tb v = refl
category-is_some blocked human_review_needed rb tb v = refl
category-is_some blocked blocked rb tb v = refl

-- The parts of a decision that was made.
pub record Parts (codec : Codec) (reviewed tested : CommandResult) (v : RepoValidation)
    (d : Decision) : Type 0 where
  pub review : Outcome
  pub test : Outcome
  pub rb : Option String
  pub tb : Option String
  pub rb_eq : review_blocker_message codec reviewed ≡ some rb
  pub tb_eq : test_blocker_message codec tested v ≡ some tb
  pub review_eq : review_outcome_of codec reviewed ≡ some review
  pub test_eq : test_outcome_of codec tested v ≡ some test
  pub decided : d ≡ decide review test rb tb v reviewed tested

evaluate-Parts :
    (codec : Codec) (reviewed tested : CommandResult) (v : Option RepoValidation) (d : Decision)
    → evaluate_verification_policy codec reviewed tested v ≡ some d
    → Parts codec reviewed tested (validation_or_empty v) d
unfolding evaluate_verification_policy
evaluate-Parts codec reviewed tested v d h =
    elim (Option-cases (review_blocker_message codec reviewed)) [
      | inl e1 ↦ absurd (cc (rw (e1, evaluate_verification_policy) at h))
      | inr (rb, e1) ↦
          elim (Option-cases (test_blocker_message codec tested (validation_or_empty v))) [
            | inl e2 ↦ absurd (cc (rw (e1, e2, evaluate_verification_policy) at h))
            | inr (tb, e2) ↦ elim (Option-cases (review_outcome_of codec reviewed)) [
              | inl e3 ↦ absurd (cc (rw (e1, e2, e3, evaluate_verification_policy) at h))
              | inr (review, e3) ↦
                  elim (Option-cases (test_outcome_of codec tested (validation_or_empty v))) [
                    | inl e4 ↦ absurd (cc (rw (e1, e2, e3, e4, evaluate_verification_policy) at h))
                    | inr (test, e4) ↦
                        let k = rw (e1, e2, e3, e4, evaluate_verification_policy) at h in
                        record {
                          review = review;
                          test = test;
                          rb = rb;
                          tb = tb;
                          rb_eq = e1;
                          tb_eq = e2;
                          review_eq = e3;
                          test_eq = e4;
                          decided = cc k;
                        }
                  ]
            ]
          ]
    ]

decide-pass :
    (review test : Outcome) (rb tb : Option String) (v : RepoValidation)
    (reviewed tested : CommandResult)
    → is_pass (decide review test rb tb v reviewed tested).outcome ≡ true
    → (review ≡ pass) × (test ≡ pass) × (repo_validation_blocker_message v ≡ none)
unfolding decide
decide-pass review test rb tb v reviewed tested h =
    let both = rw (combined-is_pass review test (repo_validation_blocker_message v)) at h in
    (
      is_pass-eq review (ground arith),
      is_pass-eq test (ground arith),
      unfold is_some in ground arith,
    )

decide_clean :
    (rb tb : Option String) (v : RepoValidation) (reviewed tested : CommandResult)
    → repo_validation_blocker_message v ≡ none
    → rb ≡ none
    → tb ≡ none
    → let d = decide pass pass rb tb v reviewed tested in
      (d.review_blocker ≡ none)
      × (d.test_blocker ≡ none)
      × (d.repo_blocker ≡ none)
      × (d.validation_blocker ≡ none)
      × (d.should_retry ≡ false)
unfolding decide blocker_and_category message_or
decide_clean rb tb v reviewed tested e rb_eq tb_eq =
    (rb_eq, tb_eq, e, rw (e, rb_eq, tb_eq) refl, refl)

module _ (codec : Codec) (reviewed tested : CommandResult) (v : Option RepoValidation)
    (d : Decision) (h : evaluate_verification_policy codec reviewed tested v ≡ some d) where
  -- A decision that evaluate_verification_policy makes passes exactly when the reviewer and the
  -- tester pass and the repository has no blocker.
  pub passes_exactly :
      is_pass d.outcome
      ≡ (is_pass d.review_outcome && is_pass d.test_outcome && not (is_some d.repo_blocker))
  passes_exactly =
      let parts = evaluate-Parts codec reviewed tested v d h in
      rw parts.decided (
        unfold decide in
        combined-is_pass parts.review parts.test
          (repo_validation_blocker_message (validation_or_empty v)))

  -- A decision names a category of failure exactly when it does not pass.
  pub category_exactly : is_some d.failure_category ≡ not (is_pass d.outcome)
  category_exactly =
      let parts = evaluate-Parts codec reviewed tested v d h in
      rw parts.decided (
        unfold decide in
        (rw combined-is_pass
          (category-is_some parts.review parts.test parts.rb parts.tb (validation_or_empty v))))

  -- A decision that evaluate_verification_policy makes and that passes tells no blocker, of the reviewer, of the tester, of the repository or
  -- of the validation, and asks for no retry.
  pub pass_is_clean :
      is_pass d.outcome ≡ true
      → (d.review_blocker ≡ none)
        × (d.test_blocker ≡ none)
        × (d.repo_blocker ≡ none)
        × (d.validation_blocker ≡ none)
        × (d.should_retry ≡ false)
  pass_is_clean pass_eq =
      let parts = evaluate-Parts codec reviewed tested v d h in
      let (e1, e2, e3) =
        decide-pass parts.review parts.test parts.rb parts.tb (validation_or_empty v) reviewed
          tested (rw parts.decided at pass_eq) in
      rw (parts.decided, e1, e2)
        (decide_clean parts.rb parts.tb (validation_or_empty v) reviewed tested e3
          (review_pass_unblocked codec reviewed parts.rb (cc (parts.review_eq)) parts.rb_eq)
          (test_pass_unblocked codec tested (validation_or_empty v) parts.tb (cc (parts.test_eq))
            parts.tb_eq))
