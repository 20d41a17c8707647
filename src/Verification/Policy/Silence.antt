-- ===== src/Verification/Policy/Silence.antt =====
-- A reviewer or a tester who passes a change leaves no message.
use tandem_agents.Prelude.{
  String, ◌≡◌, refl, inl, inr, Bool, true, false, Option, none, some, arith, Option-cases, any,
}
use tandem_agents.Verification.Json.{
  Json, Items, Fields, null, boolean, number, text, array, object, nil, cons, end, field, truthy,
  get_field, set_field, has_field, list_of, get-set_other, get-set, has-set,
}
use tandem_agents.Verification.RepoTruth.{RepoValidation}
use tandem_agents.Verification.Reports.{
  Codec, Outcome, pass, repair_needed, human_review_needed, blocked, extract_json, review_label,
  test_label, review_status_of, label_of_tests, test_status_of, next_action_of, normalized_fixes,
  fixes_of_values,
}
use tandem_agents.Verification.Policy.{
  CommandResult, known_keys, payload_with_fixes, review_message, test_message,
  review_blocker_message, test_blocker_message, review_outcome_of, test_outcome_of,
  adjusted_test_outcome, tester_outcome_is_only_missing_validation,
}

normalized_fixes-falsy :
    (codec : Codec) (v : Json) → truthy v ≡ false → normalized_fixes codec v ≡ nil
unfolding truthy normalized_fixes fixes_of_values
normalized_fixes-falsy codec null h = refl
normalized_fixes-falsy codec (boolean b) h = refl
normalized_fixes-falsy codec (number z s) h = refl
normalized_fixes-falsy codec (text s) h = refl
normalized_fixes-falsy codec (array nil) h = refl
normalized_fixes-falsy codec (array (cons x xs)) h = cc
normalized_fixes-falsy codec (object end) h = refl
normalized_fixes-falsy codec (object (field k w d)) h = cc

fixes_are_known :
    (v : Json) (p : Fields)
    → any (λ k. has_field k (set_field "required_fixes" v p)) known_keys ≡ true
unfolding any
fixes_are_known v p = ground (arith, has-set "required_fixes" v p)

next_action-fixes :
    (codec : Codec) (v : Json) (p : Fields)
    → next_action_of codec (set_field "required_fixes" v p) ≡ next_action_of codec p
unfolding next_action_of
next_action-fixes codec v p =
    rw
      (
        get-set_other "next_action" "required_fixes" v p refl,
        get-set_other "action" "required_fixes" v p refl,
        get-set_other "outcome" "required_fixes" v p refl,
      )
      refl

review_status-fixes :
    (codec : Codec) (v : Json) (p : Fields)
    → review_status_of codec (set_field "required_fixes" v p) ≡ review_status_of codec p
unfolding review_status_of
review_status-fixes codec v p =
    rw
      (
        get-set_other "review_status" "required_fixes" v p refl,
        get-set_other "status" "required_fixes" v p refl,
        get-set_other "overall_status" "required_fixes" v p refl,
        get-set_other "verdict" "required_fixes" v p refl,
      )
      refl

-- The fallback for payloads of bare texts is never taken, since the payload then has its fixes.
payload_with_fixes_lem :
    (codec : Codec) (p : Fields)
    → payload_with_fixes codec p
      ≡ set_field "required_fixes" (array (normalized_fixes codec (get_field "required_fixes" p))) p
unfolding payload_with_fixes
payload_with_fixes_lem codec p =
    rw (fixes_are_known (array (normalized_fixes codec (get_field "required_fixes" p))) p) refl

label_of_tests-pass :
    (a b c d e : Bool) (m o : Option String) → (label_of_tests a b c d e m o).0 ≡ pass → d ≡ false
unfolding label_of_tests
label_of_tests-pass true b c d e m o h = cc
label_of_tests-pass false true c d e m o h = cc
label_of_tests-pass false false true d e m o h = cc
label_of_tests-pass false false false true e m o h = cc
label_of_tests-pass false false false false e m o h = refl

review_label-pass :
    (codec : Codec) (status : String) (p : Fields) (findings : Items)
    → (review_label codec status p findings).0 ≡ pass
    → truthy (get_field "required_fixes" p) ≡ false
unfolding review_label
review_label-pass codec status p findings h = label_of_tests-pass _ _ _ _ _ _ _ h

review_label-fixes :
    (codec : Codec) (status : String) (p : Fields) (findings : Items)
    → truthy (get_field "required_fixes" p) ≡ false
    → review_label codec status (set_field "required_fixes" (array nil) p) findings
      ≡ review_label codec status p findings
unfolding review_label truthy
review_label-fixes codec status p findings h =
    rw (next_action-fixes codec (array nil) p, get-set "required_fixes" (array nil) p, h) refl

review_silent :
    (codec : Codec) (label : Outcome × Option String) (q : Fields) (findings : Items)
    (status : String)
    → label.0 ≡ pass
    → review_message codec label q findings status ≡ none
unfolding review_message
review_silent codec (pass, m) q findings status h = refl
review_silent codec (repair_needed, m) q findings status h = cc
review_silent codec (human_review_needed, m) q findings status h = cc
review_silent codec (blocked, m) q findings status h = cc

test_silent :
    (codec : Codec) (label : Outcome × Option String) (only_missing : Bool)
    → adjusted_test_outcome codec label.0 only_missing ≡ pass
    → test_message codec label only_missing ≡ none
unfolding adjusted_test_outcome test_message
test_silent codec (pass, m) b h = refl
test_silent codec (repair_needed, m) b h = cc
test_silent codec (human_review_needed, m) true h = refl
test_silent codec (human_review_needed, m) false h = cc
test_silent codec (blocked, m) true h = refl
test_silent codec (blocked, m) false h = cc

-- The message of a review that passes: the payload's fixes do not matter then.
review_message-pass :
    (codec : Codec) (p : Fields) (findings : Items)
    → (review_label codec (review_status_of codec p) p findings).0 ≡ pass
    → let q = payload_with_fixes codec p in
      let status = review_status_of codec q in
      (get_field "findings" q ≡ get_field "findings" p)
      × (review_message codec (review_label codec status q findings) q findings status ≡ none)
review_message-pass codec p findings h =
    let no_fixes = review_label-pass codec (review_status_of codec p) p findings h in
    let empty = normalized_fixes-falsy codec (get_field "required_fixes" p) no_fixes in
    rw (payload_with_fixes_lem codec p, empty)
      (
        get-set_other "findings" "required_fixes" (array nil) p refl,
        review_silent codec _ _ findings _ (
            rw
              (
                review_status-fixes codec (array nil) p,
                review_label-fixes codec _ p findings no_fixes,
              )
              h),
      )

-- A reviewer who passes the change leaves no blocker.
pub review_pass_unblocked :
    (codec : Codec) (reviewed : CommandResult) (m : Option String)
    → review_outcome_of codec reviewed ≡ some pass
    → review_blocker_message codec reviewed ≡ some m
    → m ≡ none
unfolding review_outcome_of review_blocker_message
review_pass_unblocked codec reviewed m o b =
    let p = extract_json codec reviewed.stdout in
    elim (Option-cases (list_of (get_field "findings" p))) [
      | inl e ↦ absurd (cc (rw (e, review_outcome_of) at o))
      | inr (fs, e) ↦
          let passed = rw (e, review_outcome_of) at o in
          let silent = review_message-pass codec p fs (cc passed) in
          cc (rw (silent.0, e, review_blocker_message) at b, silent.1)
    ]

-- A tester who passes the change leaves no blocker.
pub test_pass_unblocked :
    (codec : Codec) (tested : CommandResult) (v : RepoValidation) (m : Option String)
    → test_outcome_of codec tested v ≡ some pass
    → test_blocker_message codec tested v ≡ some m
    → m ≡ none
unfolding test_outcome_of test_blocker_message
test_pass_unblocked codec tested v m o b =
    let p = extract_json codec tested.stdout in
    elim (Option-cases (list_of (get_field "findings" p))) [
      | inl e ↦ absurd (cc (rw (e, test_outcome_of) at o))
      | inr (fs, e) ↦
          let passed = rw (e, test_outcome_of) at o in
          let silent =
            test_silent codec (test_label codec (test_status_of codec p) p)
              (tester_outcome_is_only_missing_validation codec p v) (cc passed) in
          cc (rw (e, test_blocker_message) at b, silent)
    ]
