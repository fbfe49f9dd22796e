-- ===== src/Hub/Reviews/Blind.antt =====
-- apps/hub/src/services/store/reviews.ts: the parts of a verdict and of a request that leave the table
-- of reviews alone.
use ayanami_agent_hub.Base.{
  ℕ, suc, ◌≡◌, refl, ap, Bool, true, false, String, List, [], ◌∷◌, Option, none, some,
}
use ayanami_agent_hub.Hub.Rows.{TaskRow, ReviewRow, EventDraft, ArtifactRow, Evidence}
use ayanami_agent_hub.Hub.Context.{Action, Store, emit}
use ayanami_agent_hub.Hub.Context.Readers.{
  IsReader, pure-IsReader, select-IsReader, or_throw-IsReader, throw_if-IsReader, >>=-IsReader,
}
use ayanami_agent_hub.Hub.Context.Blind.{
  IsBlind, IsReader-IsBlind, pure-IsBlind, select-IsBlind, or_throw-IsBlind, throw_if-IsBlind,
  modify-IsBlind, >>=-IsBlind, >>-IsBlind, emit-IsBlind,
}
use ayanami_agent_hub.Hub.Sessions.{get_session}
use ayanami_agent_hub.Hub.Tasks.{Response, get_task}
use ayanami_agent_hub.Hub.Tasks.Reads.{get_task-IsReader}
use ayanami_agent_hub.Hub.Tasks.Progress.{
  review_gate, assert_task_completion_gate, recompute_progress,
}
use ayanami_agent_hub.Hub.Messages.{PostInput, Drawn, post_message}
use ayanami_agent_hub.Hub.Messages.Blind.{but_messages, post_message-Silent}
use ayanami_agent_hub.Hub.Reviews.{review_row}
use ayanami_agent_hub.Hub.Reviews.Guards.{review_row-IsReader}
use ayanami_agent_hub.Hub.Reviews.Verdict.{
  Verdict, approve, request_changes, author_head, current_author_session, apply_verdict,
}
use ayanami_agent_hub.Hub.Reviews.Request.{
  insert_artifact, insert_one_evidence, insert_evidence, start_if_claimed,
}

ruleset reading = (
  pure-IsReader, select-IsReader, or_throw-IsReader, throw_if-IsReader, >>=-IsReader,
  get_task-IsReader,
)

pub get_session-IsReader : (id : ℕ) → IsReader {R = Response} (get_session id)
unfolding get_session
get_session-IsReader id = search reading

author_head-IsReader : (r : ReviewRow) (id : ℕ) (o : Option ℕ) → IsReader (author_head r id o)
unfolding author_head
author_head-IsReader r id none = search reading
author_head-IsReader r id (some l) = search (reading, get_session-IsReader) depth 20

pub author-IsReader : (r : ReviewRow) → IsReader (current_author_session r)
unfolding current_author_session
author-IsReader r = search (reading, get_session-IsReader, author_head-IsReader) depth 20

review_gate-IsReader : (c : Bool) (id : ℕ) → IsReader (review_gate c id)
unfolding review_gate
review_gate-IsReader true id = search reading depth 20
review_gate-IsReader false id = search reading

pub gate-IsReader : (t : TaskRow) → IsReader (assert_task_completion_gate t)
unfolding assert_task_completion_gate
gate-IsReader t = search (reading, review_gate-IsReader) depth 20

-- A view of the tables that shows neither what every mutation writes nor the messages.
module _ {V : Type 0} (view : Store Response → V)
    (same : (s t : Store Response) → but_messages s ≡ but_messages t → view s ≡ view t) where
  pub emit-Apart : (now : ℕ) (draft : EventDraft) → IsBlind view (emit now draft)
  emit-Apart now draft = emit-IsBlind view (λ s p e k. same _ _ refl) now draft

  pub post_message-Apart :
      (now p : ℕ) (input : PostInput) (drawn : Drawn)
      → IsBlind view (post_message now p input drawn)
  post_message-Apart now p input drawn = record {
    same = λ h. same _ _ ((post_message-Silent now p input drawn).same h);
  }

abbrev pub reviews_of : Store Response → List ReviewRow
reviews_of s = s.reviews

abbrev pub Quiet : {A : Type 0} → Action Response A → Type 0
Quiet m = IsBlind reviews_of m

pub reviews_apart :
    (s t : Store Response) → but_messages s ≡ but_messages t → reviews_of s ≡ reviews_of t
reviews_apart s t e = ap (λ (u : Store Response). u.reviews) e

ruleset quiet = (
  pure-IsBlind, select-IsBlind, or_throw-IsBlind, throw_if-IsBlind, >>=-IsBlind, >>-IsBlind,
  modify-IsBlind, refl,
)

pub emit-Quiet : (now : ℕ) (draft : EventDraft) → Quiet (emit now draft)
emit-Quiet now draft = emit-Apart reviews_of reviews_apart now draft

pub post_message-Quiet :
    (now p : ℕ) (input : PostInput) (drawn : Drawn) → Quiet (post_message now p input drawn)
post_message-Quiet now p input drawn = post_message-Apart reviews_of reviews_apart now p input drawn

pub get_task-Quiet : (id : ℕ) → Quiet (get_task id)
get_task-Quiet id = IsReader-IsBlind _ _ (get_task-IsReader id)

pub recompute_progress-Quiet : (now id : ℕ) → Quiet (recompute_progress now id)
unfolding recompute_progress
recompute_progress-Quiet now id = search (quiet, get_task-Quiet)

pub review_row-Quiet : (id : ℕ) → Quiet (review_row id)
review_row-Quiet id = IsReader-IsBlind _ _ (review_row-IsReader id)

gate-Quiet : (t : TaskRow) → Quiet (assert_task_completion_gate t)
gate-Quiet t = IsReader-IsBlind _ _ (gate-IsReader t)

pub apply_verdict-Quiet : (now id t a r : ℕ) (v : Verdict) → Quiet (apply_verdict now id t a r v)
unfolding apply_verdict
apply_verdict-Quiet now id t a r approve = search (quiet, get_task-Quiet, gate-Quiet) depth 20
apply_verdict-Quiet now id t a r request_changes = search quiet

pub insert_artifact-Quiet : (a : ArtifactRow) → Quiet (insert_artifact a)
unfolding insert_artifact
insert_artifact-Quiet a = search quiet

one_evidence-Quiet :
    (now id r : ℕ) (t : String) (c : Option String) (e : Option ℕ)
    → Quiet (insert_one_evidence now id r t c e)
unfolding insert_one_evidence
one_evidence-Quiet now id r t none e = search quiet
one_evidence-Quiet now id r t (some c) none = search quiet
one_evidence-Quiet now id r t (some c) (some e) = search quiet

pub evidence-Quiet :
    (now : ℕ) (draw : ℕ → ℕ) (i r : ℕ) (es : List Evidence)
    → Quiet (insert_evidence now draw i r es)
unfolding insert_evidence
evidence-Quiet now draw i r [] = search quiet
evidence-Quiet now draw i r (e ∷ es) =
    >>-IsBlind _ _ _ (one_evidence-Quiet now (draw i) r e.output_summary e.command e.exit_code)
      (evidence-Quiet now draw (suc i) r es)

pub start-Quiet : (now id : ℕ) → Quiet (start_if_claimed now id)
unfolding start_if_claimed
start-Quiet now id = search (quiet, get_task-Quiet) depth 20
