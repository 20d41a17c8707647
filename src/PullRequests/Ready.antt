-- ===== src/PullRequests/Ready.antt =====
-- What a lifecycle state of a pull request says of its data.
use tandem_agents.Prelude.{
  String, ◌≡◌, refl, ap, Bool, true, false, not, ◌&&◌, ◌||◌, str_eq, if◌then◌else◌, strip,
}
use tandem_agents.Verification.Json.{Json, Fields}
use tandem_agents.PullRequests.State.{
  reviews_state, checks_state, mergeable_state, is_merged, is_draft, is_closed,
  pull_request_lifecycle_state,
}

-- What the data say of a pull request that can be merged.
unfoldable pub is_ready : (Json → String) → Fields → Bool
is_ready show p =
    str_eq (reviews_state show p) "approved"
    && str_eq (checks_state show p) "success"
    && not (is_draft p)
    && not (is_closed show p)
    && not (is_merged p)
    && not (str_eq (mergeable_state show p) "conflicting")
    && not (str_eq (mergeable_state show p) "behind")

ready_if :
    (m c k ch fa d pe b ap su : Bool)
    → str_eq
        (strip (
          if m
          then "merged"
          else if c
          then "blocked"
          else if k
          then "conflicted"
          else if ch || fa
          then "needs-repair"
          else if d || pe
          then "running"
          else if b
          then "needs-rebase"
          else if ap && su
          then "ready-to-merge"
          else "waiting-for-review"))
        "ready-to-merge"
      ≡ true
    → (ap && su && not d && not c && not m && not k && not b) ≡ true
unfolding strip
ready_if true c k ch fa d pe b ap su h = absurd (cc h)
ready_if false true k ch fa d pe b ap su h = absurd (cc h)
ready_if false false true ch fa d pe b ap su h = absurd (cc h)
ready_if false false false true fa d pe b ap su h = absurd (cc h)
ready_if false false false false true d pe b ap su h = absurd (cc h)
ready_if false false false false false true pe b ap su h = absurd (cc h)
ready_if false false false false false false true b ap su h = absurd (cc h)
ready_if false false false false false false false true ap su h = absurd (cc h)
ready_if false false false false false false false false false su h = absurd (cc h)
ready_if false false false false false false false false true false h = absurd (cc h)
ready_if false false false false false false false false true true h = refl

-- A lifecycle state that says "ready-to-merge" is that of a pull request which is ready.
pub ready_sound :
    (show : Json → String) (p : Fields)
    → str_eq (strip (pull_request_lifecycle_state show p)) "ready-to-merge" ≡ true
    → is_ready show p ≡ true
unfolding pull_request_lifecycle_state is_ready
ready_sound show p h =
    let review = reviews_state show p in
    let checks = checks_state show p in
    let mergeable = mergeable_state show p in
    ready_if (is_merged p) (is_closed show p) (str_eq mergeable "conflicting")
      (str_eq review "changes_requested") (str_eq checks "failure") (is_draft p)
      (str_eq checks "pending") (str_eq mergeable "behind") (str_eq review "approved")
      (str_eq checks "success") h
