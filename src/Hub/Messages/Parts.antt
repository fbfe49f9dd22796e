-- ===== src/Hub/Messages/Parts.antt =====
-- apps/hub/src/services/store/messages.ts, postMessage: what each of its steps leaves behind.
use text.Mathlib.TextEquality.{eq_iff}
use mathlib.Core.List.{append-nil, append_assoc}
use ayanami_agent_hub.Base.{
  ℕ, suc, ◌+◌, or_else, ◌≡◌, refl, sym, ap, ◌∙◌, String, List, [], ◌∷◌, ◌++◌, Option, none, some,
  arith, All, Option-cases, Bool-cases, any, inl, inr, ==_iff,
}
use ayanami_agent_hub.Base.Table.{find, update}
use ayanami_agent_hub.Protocol.Recipients.{Target}
use ayanami_agent_hub.Hub.Rows.{SessionRow, ProjectRow, Event, EventDraft}
use ayanami_agent_hub.Hub.MessageRows.{MessageRow, RecipientRow, RecipientState}
use ayanami_agent_hub.Hub.Context.{
  Hub, Store, Result, ok, continue, monad, write_event, append_event, buffer, emit, allocate,
}
use ayanami_agent_hub.Hub.Context.Readers.{read-then}
use ayanami_agent_hub.Hub.Sessions.{session_key}
use ayanami_agent_hub.Hub.Tasks.{Response}
use ayanami_agent_hub.Hub.Messages.{
  PostInput, Drawn, message_key, recipient_key, thread_key, new_recipient, recipient_clashes,
  check_recipient, check_recipients, find_duplicate, insert_message, insert_recipients, open_thread,
}
use ayanami_agent_hub.Hub.Messages.Blind.{check_recipient-IsReader}

-- A target that names a session names one of the agent's in the project.
abbrev pub IsAddressed : Store Response → ℕ → Target → Type 0
IsAddressed s project_id t =
    (id : ℕ)
    → t.session_id ≡ some id
    → (session : SessionRow) × (find session_key id s.agent_sessions ≡ some session)
      × (session.project_id ≡ project_id)
      × (session.agent_id ≡ t.agent_id)

check_recipient_known :
    (p : ℕ) (agent : String) (o : Option ℕ) (h : Hub Response)
    → check_recipient p agent o h ≡ (ok tt, h)
    → IsAddressed h.store p (record { agent_id = agent; session_id = o })
unfolding check_recipient monad
check_recipient_known p agent none h e id named = absurd (cc)
check_recipient_known p agent (some i) h e id named =
    elim (Option-cases (find session_key i h.store.agent_sessions)) [
      | inl missing ↦ absurd (ground arith)
      | inr (session, found) ↦ (
        session,
        ground arith,
        ground (arith, ==_iff session.project_id p),
        ground (arith, eq_iff session.agent_id agent),
      )
    ]

pub check_recipients_known :
    (p : ℕ) (ts : List Target) (h : Hub Response)
    → check_recipients p ts h ≡ (ok tt, h)
    → All (IsAddressed h.store p) ts
unfolding check_recipients
check_recipients_known p [] h e = tt
check_recipients_known p (t ∷ ts) h e =
    read-then h _ _ (check_recipient-IsReader p t.agent_id t.session_id) e λ _ ran rest.
      (check_recipient_known p t.agent_id t.session_id h ran, check_recipients_known p ts h rest)

-- The recipients of a message, one for each target, in their order: pending, without attempts.
abbrev pub new_recipients : (ℕ → ℕ) → ℕ → ℕ → List Target → List RecipientRow
new_recipients draw i message_id [] = []
new_recipients draw i message_id (t ∷ ts) =
    record {
      id = draw i;
      message_id = message_id;
      recipient_agent_id = t.agent_id;
      recipient_session_id = t.session_id;
      state = RecipientState.pending;
      attempt_count = 0;
      surface_fence = 0;
    }
    ∷ new_recipients draw (suc i) message_id ts

abbrev pub with_recipients : List RecipientRow → Store Response → Store Response
with_recipients rs s = record s { message_recipients = s.message_recipients ++ rs }

pub insert_recipients_known :
    (draw : ℕ → ℕ) (i id : ℕ) (ts : List Target) (h h' : Hub Response)
    → insert_recipients draw i id ts h ≡ (ok tt, h')
    → h'.store ≡ with_recipients (new_recipients draw i id ts) h.store
unfolding insert_recipients monad
insert_recipients_known draw i id [] h h' e =
    ap (λ (x : Result (Unit {0}) × Hub Response). x.1.store) (sym e)
    ∙ ap (λ rs. record h.store { message_recipients = rs })
        (sym (append-nil h.store.message_recipients))
insert_recipients_known draw i id (t ∷ ts) h h' e =
    elim (Option-cases (find recipient_key (draw i) h.store.message_recipients)) [
      | inl free ↦ elim (Bool-cases (any (recipient_clashes id t) h.store.message_recipients)) [
        | inl clash ↦ absurd (ground arith)
        | inr clear ↦
            let added : Hub Response = record h {
              store = with_recipients (new_recipient (draw i) id t ∷ []) h.store;
            } in
            let rest : insert_recipients draw (suc i) id ts added ≡ (ok tt, h') = ground arith in
            insert_recipients_known draw (suc i) id ts added h' rest
            ∙ ap (λ rs. record h.store { message_recipients = rs })
                (append_assoc h.store.message_recipients (new_recipient (draw i) id t ∷ [])
                  (new_recipients draw (suc i) id ts))
      ]
      | inr (r, taken) ↦ absurd (ground arith)
    ]

pub insert_message_known :
    (m : MessageRow) (h h' : Hub Response)
    → insert_message m h ≡ (ok tt, h')
    → (find message_key m.id h.store.messages ≡ none)
      × (find_duplicate m.project_id m.dedupe_key h.store.messages ≡ none)
      × (h' ≡ record h { store = record h.store { messages = h.store.messages ++ m ∷ [] } })
unfolding insert_message monad
insert_message_known m h h' e = elim (Option-cases (find message_key m.id h.store.messages)) [
  | inl free ↦ elim (Option-cases (find_duplicate m.project_id m.dedupe_key h.store.messages)) [
    | inl new ↦ (free, new, ground arith)
    | inr (d, there) ↦ absurd (ground arith)
  ]
  | inr (r, taken) ↦ absurd (ground arith)
]

-- The thread is the project's, or a new one of which only the table of threads knows.
pub open_thread_known :
    (now p : ℕ) (input : PostInput) (drawn : Drawn) (o : Option ℕ) (h h' : Hub Response) (id : ℕ)
    → open_thread now p input drawn o h ≡ (ok id, h')
    → (id ≡ or_else o drawn.thread_id) × (h'.store ≡ record h.store { threads = h'.store.threads })
unfolding open_thread monad
open_thread_known now p input drawn (some i) h h' id e = (ground arith, ground arith)
open_thread_known now p input drawn none h h' id e =
    elim (Option-cases (find thread_key drawn.thread_id h.store.threads)) [
      | inl free ↦ (ground arith, ground arith)
      | inr (t, taken) ↦ absurd (ground arith)
    ]

written :
    (now : ℕ) (draft : EventDraft) (o : Option ProjectRow) (h h' : Hub Response) (event : Event)
    → continue buffer (write_event now draft o h) ≡ (ok event, h')
    → (row : ProjectRow) × (o ≡ some row)
      × (event ≡ record { draft = draft; sequence = row.current_sequence + 1; created_at = now })
      × (h'.store ≡ record h.store {
        projects =
            update (λ (q : ProjectRow). q.id) draft.project_id (allocate now) h.store.projects;
        events = h.store.events ++ event ∷ [];
      })
unfolding write_event buffer monad
written now draft none h h' event e = absurd (cc)
written now draft (some row) h h' event e = (row, refl, ground arith, ground arith)

-- An event that is emitted has the next number of its project and stands last.
pub emit_known :
    (now : ℕ) (draft : EventDraft) (h h' : Hub Response) (event : Event)
    → emit now draft h ≡ (ok event, h')
    → (row : ProjectRow) × (find (λ (q : ProjectRow). q.id) draft.project_id h.store.projects
        ≡ some row)
      × (event ≡ record { draft = draft; sequence = row.current_sequence + 1; created_at = now })
      × (h'.store ≡ record h.store {
        projects =
            update (λ (q : ProjectRow). q.id) draft.project_id (allocate now) h.store.projects;
        events = h.store.events ++ event ∷ [];
      })
unfolding emit append_event monad
emit_known now draft h h' event e =
    written now draft (find (λ (q : ProjectRow). q.id) draft.project_id h.store.projects) h h' event
      e
