-- ===== src/Scheduling/Dispatcher/Answers.antt =====
-- Which row the handlers of core/scheduling/outbox_dispatcher.py answer about.
use Prim.Native.String.{◌++◌}
use tandem_agents.Prelude.{
  String, ◌≡◌, refl, Bool, true, false, not, ◌&&◌, ◌||◌, none, some, str_eq, if◌then◌else◌, any,
  strip, str_or,
}
use tandem_agents.Coordination.Rows.{OutboxRow, get}
use tandem_agents.Scheduling.Dispatcher.{
  Sent, answered, raised, dispatched_answer, failed_answer, Readback, found, unreadable, verified,
  Reply, warning, broken, Connectors, either_of, answer_of, dispatch_status_update, body_of,
  dispatch_issue_comment, dispatch_pull_request_create, dispatch_linear_status_update,
  dispatch_linear_comment, dispatch_outbox_item,
}

-- An answer is about the row that was sent.
abbrev pub AnswersFor : OutboxRow → Sent → Type 0
AnswersFor o (answered a) = a.outbox_id ≡ o.id
AnswersFor o (raised e) = Unit

AnswersFor-if :
    (o : OutboxRow) (b : Bool) (s t : Sent)
    → AnswersFor o s
    → AnswersFor o t
    → AnswersFor o (if b then s else t)
AnswersFor-if o true s t hs ht = hs
AnswersFor-if o false s t hs ht = ht

answer_of-AnswersFor : (o : OutboxRow) (r : Reply) → AnswersFor o (answer_of o r)
unfolding answer_of dispatched_answer failed_answer
answer_of-AnswersFor o (warning none) = refl
answer_of-AnswersFor o (warning (some w)) = refl
answer_of-AnswersFor o (broken e) = tt

failed-AnswersFor : (o : OutboxRow) (e : String) → AnswersFor o (answered (failed_answer o e))
unfolding failed_answer
failed-AnswersFor o e = refl

verified-AnswersFor : (o : OutboxRow) (r : Readback) → AnswersFor o (verified o r)
unfolding verified dispatched_answer failed_answer
verified-AnswersFor o (found true) = refl
verified-AnswersFor o (found false) = refl
verified-AnswersFor o (unreadable e) = tt

module _ (c : Connectors) where
  linear_comment-AnswersFor : (o : OutboxRow) → AnswersFor o (dispatch_linear_comment c o)
  unfolding dispatch_linear_comment answer_of
  linear_comment-AnswersFor o =
      AnswersFor-if o (str_eq (strip (body_of c o)) "")
        (answered (failed_answer o "Outbox payload missing Linear comment body.")) _
        (failed-AnswersFor o "Outbox payload missing Linear comment body.")
        (after (c.comment o (body_of c o)))
    where
      after :
          (r : Reply)
          → AnswersFor o (elim r [
            | broken e ↦ raised e
            | warning (some w) ↦ answered (failed_answer o w)
            | warning none ↦
                if str_eq (strip (get o.payload "run_id")) ""
                then answered (dispatched_answer o)
                else verified o (c.marker_present o (strip (get o.payload "run_id")))
          ])
      after (broken e) = answer_of-AnswersFor o (broken e)
      after (warning (some w)) = failed-AnswersFor o w
      after (warning none) =
          AnswersFor-if o (str_eq (strip (get o.payload "run_id")) "")
            (answered (dispatched_answer o)) _ (answer_of-AnswersFor o (warning none))
            (verified-AnswersFor o (c.marker_present o (strip (get o.payload "run_id"))))

  checked :
      (o : OutboxRow) (b : Bool) (e : String) (r : Reply)
      → AnswersFor o (if b then answered (failed_answer o e) else answer_of o r)
  checked o b e r =
      AnswersFor-if o b (answered (failed_answer o e)) (answer_of o r) (failed-AnswersFor o e)
        (answer_of-AnswersFor o r)

  pub dispatch-AnswersFor : (o : OutboxRow) → AnswersFor o (dispatch_outbox_item c o)
  unfolding dispatch_outbox_item dispatch_status_update dispatch_issue_comment
      dispatch_pull_request_create dispatch_linear_status_update
  dispatch-AnswersFor o =
      let is = λ (k : String). str_eq (strip o.kind) k in
      AnswersFor-if o (is "github_project.status_update") (dispatch_status_update c o) _
        (checked o (str_eq (either_of "target_status" "status_name" o.payload) "")
          "Outbox payload missing target_status for GitHub Project status update."
          (c.update_status o))
        (AnswersFor-if o (is "github_issue.comment") (dispatch_issue_comment c o) _
          (checked o (str_eq (strip (body_of c o)) "") "Outbox payload missing comment body."
            (c.comment o (body_of c o)))
          (AnswersFor-if o (is "github_pull_request.create") (dispatch_pull_request_create c o) _
            (checked o
              (str_eq (strip (get o.payload "head_branch")) ""
                || str_eq (strip (get o.payload "title")) "")
              "Outbox payload missing PR head branch or title." (c.create_pull_request o))
            (AnswersFor-if o (is "linear_issue.status_update") (dispatch_linear_status_update c o) _
              (checked o
                (str_eq (either_of "target_status" "status" o.payload) ""
                  && not (any (λ l. not (str_eq (strip l) "")) (c.labels o.payload)))
                "Outbox payload missing target_status or labels for Linear issue update."
                (c.update_status o))
              (AnswersFor-if o (is "linear_issue.comment") (dispatch_linear_comment c o)
                (answered (
                  failed_answer o ("Unsupported outbox kind: " ++ str_or (strip o.kind) "unknown")))
                (linear_comment-AnswersFor o)
                (failed-AnswersFor o
                  ("Unsupported outbox kind: " ++ str_or (strip o.kind) "unknown"))))))
