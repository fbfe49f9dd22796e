-- ===== src/Hub/Scenarios/Reviewed.antt =====
-- apps/hub/src/services/store/reviews.ts on the small database: session 4 reviews task 7.
use ayanami_agent_hub.Base.{◌⊎◌, inr, ◌+◌, ◌≡◌, refl, true, [], ◌∷◌, none, some, arith, ==_iff}
use ayanami_agent_hub.Base.Table.{find}
use ayanami_agent_hub.Base.Texts.{decimal}
use ayanami_agent_hub.Protocol.Task.{TaskStatus}
use ayanami_agent_hub.Protocol.Recipients.{describe_message_recipient_conflict, conflict_after}
use ayanami_agent_hub.Hub.Rows.{TaskRow, ReviewRow, ReviewStatus, SessionRow}
use ayanami_agent_hub.Hub.Context.{Hub, ok}
use ayanami_agent_hub.Hub.Sessions.{get_open_session}
use ayanami_agent_hub.Hub.Tasks.{Response, review_response, task_key}
use ayanami_agent_hub.Hub.Messages.{
  Drawn, assert_message_sender, find_duplicate, check_recipients, check_recipient, slice,
  open_thread, insert_message, insert_recipients, write_message, post_unless, post_body,
  message_actor, get_message, post_message,
}
use ayanami_agent_hub.Hub.MutationAuthority.{resolve_session_mutation_actor}
use ayanami_agent_hub.Hub.Reviews.{
  get_review, session_in_project, assert_only, assert_latest_active_review,
  assigned_reviewer_session, review_row, review_key,
}
use ayanami_agent_hub.Hub.Reviews.Begin.{BeginInput, set_review_status, begin_body}
use ayanami_agent_hub.Hub.Reviews.Begin.Laws.{
  MayBegin, IsBegun, begin_body_lem, begin_against_transitions,
}
use ayanami_agent_hub.Hub.Reviews.Guards.{IsReviewer, IsOnly}
use ayanami_agent_hub.Hub.Reviews.Verdict.{
  VerdictInput, approve, head_of, author_head, current_author_session, apply_verdict, verdict_row,
  verdict_body,
}
use ayanami_agent_hub.Hub.Reviews.Verdict.Laws.{MayJudge}
use ayanami_agent_hub.Hub.Reviews.Verdict.Approved.{IsApproved}
use ayanami_agent_hub.Hub.Reviews.Verdict.Approval.{approval_lem}
use ayanami_agent_hub.Hub.Reviews.Verdict.Overwrite.{approval_overwrites_progress}
use ayanami_agent_hub.Hub.Reviews.Turns.{IsOrdered, Turn}
use ayanami_agent_hub.Hub.Reviews.Lasts.{Lasts}
use ayanami_agent_hub.Hub.Calls.{Call, judge, run, start, step}
use ayanami_agent_hub.Hub.Calls.Turns.{call-Turn}
use ayanami_agent_hub.Hub.Calls.Ordered.{Reachable-IsOrdered}
use ayanami_agent_hub.Hub.Scenarios.{hub, row, session}
use ayanami_agent_hub.Hub.Scenarios.Checklists.{task_calls, review}

unfoldable pub review_calls : Unit {0}
unfolding task_calls get_open_session get_review session_in_project assert_only
    assert_latest_active_review assigned_reviewer_session review_row begin_body head_of author_head
    current_author_session apply_verdict verdict_body assert_message_sender find_duplicate
    check_recipients check_recipient slice open_thread insert_message insert_recipients
    write_message post_unless post_body message_actor get_message post_message decimal
    describe_message_recipient_conflict conflict_after resolve_session_mutation_actor
review_calls = tt

abbrev pub reviewer : SessionRow
reviewer = record session { id = 4; agent_id = "claude" }

abbrev pub open_review : ReviewStatus → ReviewRow
open_review status = record review { status = status }

-- Task 7 in a status, with a review in another.
abbrev pub reviewing_hub : TaskStatus → ReviewStatus → Hub Response
reviewing_hub t r = record hub {
  store = record hub.store {
    tasks = record (row 7 t (some 3)) { review_required = true } ∷ [];
    reviews = open_review r ∷ [];
    agent_sessions = session ∷ reviewer ∷ [];
  };
}

abbrev pub begin_input : BeginInput
begin_input = record { session_id = 4; expected_version = 2; idempotency_key = "b1" }

abbrev pub waiting_hub : Hub Response
waiting_hub = reviewing_hub TaskStatus.cancelled ReviewStatus.delivered

abbrev pub waiting : ReviewRow
waiting = open_review ReviewStatus.delivered

abbrev pub within_begin : Hub Response
within_begin = (begin_body 9 5 waiting begin_input waiting_hub).1

may_begin :
    MayBegin waiting_hub.store 5 begin_input waiting reviewer
      (record { id = 1; current_sequence = 0; updated_at = 0 })
unfolding review_calls
may_begin = record {
  found = refl;
  assigned = record {
    known = refl;
    is_open = λ e. ground arith;
    same_project = refl;
    is_reviewer = refl;
  };
  only = record { head = waiting; only = refl; this = refl };
  waiting = inr refl;
  unchanged = refl;
  in_project = refl;
}

-- The review of a CANCELLED task begins.
begin_against_transitions_example :
    (r : Response) × (h' : Hub Response) × (begin_body 9 5 waiting begin_input waiting_hub
      ≡ (ok r, h'))
    × (find task_key 7 h'.store.tasks
        ≡ some (record (row 7 TaskStatus.in_review (some 3)) {
          review_required = true;
          version = 1;
          updated_at = 9;
        }))
unfolding review_calls
begin_against_transitions_example =
    begin_against_transitions 9 5 begin_input waiting_hub waiting reviewer
      (record { id = 1; current_sequence = 0; updated_at = 0 }) may_begin
      (record (row 7 TaskStatus.cancelled (some 3)) { review_required = true }) refl refl

begin_body_lem_example :
    (row : ReviewRow) × (session : SessionRow) × (find review_key 5 waiting_hub.store.reviews
      ≡ some row)
    × IsReviewer waiting_hub.store row 4 session
    × IsOnly waiting_hub.store row
    × ((row.status ≡ ReviewStatus.pending) ⊎ (row.status ≡ ReviewStatus.delivered))
    × (row.version ≡ 2)
    × IsBegun waiting_hub.store within_begin.store 9 5 7 session
    × (review_response (set_review_status 9 ReviewStatus.in_review waiting)
        ≡ review_response (record row {
          status = ReviewStatus.in_review;
          version = row.version + 1;
          updated_at = 9;
        }))
unfolding review_calls
begin_body_lem_example =
    begin_body_lem 9 5 waiting begin_input waiting_hub within_begin
      (review_response (set_review_status 9 ReviewStatus.in_review waiting)) refl

abbrev pub verdict : VerdictInput
verdict = record {
  session_id = 4;
  expected_version = 2;
  verdict = approve;
  summary = "fine";
  override_reason = none;
  idempotency_key = "v1";
}

abbrev pub drawn : Drawn
drawn = record { message_id = 70; thread_id = 71; recipient_id = λ i. i; fingerprint = "f" }

abbrev pub judging_hub : Hub Response
judging_hub = reviewing_hub TaskStatus.in_review ReviewStatus.in_review

abbrev pub judged_review : ReviewRow
judged_review = verdict_row 9 verdict (open_review ReviewStatus.in_review)

abbrev pub within_verdict : Hub Response
within_verdict = (verdict_body 9 5 verdict drawn judging_hub).1

approval_lem_example :
    (r : ReviewRow) × (s : SessionRow) × (t : TaskRow) × MayJudge judging_hub.store 5 verdict r s
    × IsApproved judging_hub.store within_verdict.store 9 5 verdict r t
unfolding review_calls
approval_lem_example =
    approval_lem 9 5 verdict drawn judging_hub within_verdict (review_response judged_review) refl
      refl

approval_overwrites_progress_example :
    (after : TaskRow) × (find task_key 7 within_verdict.store.tasks ≡ some after)
    × (after.status ≡ TaskStatus.done)
    × (after.computed_progress ≡ 150)
unfolding review_calls
approval_overwrites_progress_example =
    approval_overwrites_progress 9 5 verdict drawn judging_hub within_verdict
      (review_response judged_review) (open_review ReviewStatus.in_review)
      (record (row 7 TaskStatus.in_review (some 3)) { review_required = true }) refl refl refl refl
      refl refl

judging-IsOrdered : IsOrdered judging_hub.store.reviews
unfolding find
judging-IsOrdered = record {
  distinct = (refl, tt);
  leads = λ i j q r fq fr ne same active. ground (arith, ==_iff 5 i, ==_iff 5 j);
}

abbrev pub judging : Call
judging = judge 9 5 verdict drawn "f"

Reachable-IsOrdered_example :
    IsOrdered (run judging judging_hub).1.store.reviews
    × Lasts judging_hub.store.reviews (run judging judging_hub).1.store.reviews
Reachable-IsOrdered_example =
    Reachable-IsOrdered judging_hub (run judging judging_hub).1 judging-IsOrdered
      (step start judging)

call-Turn_example : Turn judging_hub.store.reviews (run judging judging_hub).1.store.reviews
call-Turn_example = call-Turn judging judging_hub
