-- ===== src/Hub/Messages/Laws.antt =====
-- apps/hub/src/services/store/messages.ts, postMessage: what a message that is posted adds.
use text.Mathlib.TextEquality.{eq_iff}
use ayanami_agent_hub.Base.{
  ℕ, ◌≡◌, ◌≢◌, refl, sym, ap, ◌∙◌, ◌⊎◌, inl, inr, false, String, [], Option, none, some, arith,
  Option-cases, ==_iff, is_some,
}
use ayanami_agent_hub.Base.Table.{find}
use ayanami_agent_hub.Protocol.Recipients.{describe_message_recipient_conflict}
use ayanami_agent_hub.Protocol.Recipients.Laws.{Disjoint, message_recipient_conflict_iff}
use ayanami_agent_hub.Hub.Rows.{closed, SessionRow}
use ayanami_agent_hub.Hub.MessageRows.{MessageRow}
use ayanami_agent_hub.Hub.Context.{Hub, Store, ok, monad}
use ayanami_agent_hub.Hub.Context.Readers.{read-then}
use ayanami_agent_hub.Hub.Context.Steps.{
  step-then, select-then, throw_if-then, modify-then, pure-then,
}
use ayanami_agent_hub.Hub.MutationAuthority.{MutationActor}
use ayanami_agent_hub.Hub.Sessions.{session_key, is_closed-false, get_session, get_open_session}
use ayanami_agent_hub.Hub.Tasks.{Response, posted_response}
use ayanami_agent_hub.Hub.Messages.{
  PostInput, Drawn, find_duplicate, truthy, assert_message_sender, write_message, post_unless,
  post_body,
}
use ayanami_agent_hub.Hub.Messages.Blind.{assert_message_sender-IsReader, check_recipients-IsReader}
use ayanami_agent_hub.Hub.Messages.Duplicates.{
  IsDuplicate, IsUnused, find_duplicate-IsDuplicate, find_duplicate-IsUnused,
}
use ayanami_agent_hub.Hub.Messages.Parts.{
  check_recipients_known, new_recipients, insert_recipients_known, insert_message_known,
  open_thread_known, emit_known, with_recipients,
}
use ayanami_agent_hub.Hub.Messages.Posted.{IsPosted, steps-IsPosted}

-- A session that posts is open, and the agent's in the project.
abbrev pub IsSender : Store Response → ℕ → String → Option ℕ → Type 0
IsSender s project_id agent o =
    (id : ℕ)
    → o ≡ some id
    → (session : SessionRow) × (find session_key id s.agent_sessions ≡ some session)
      × (session.connection_state ≢ closed)
      × (session.project_id ≡ project_id)
      × (session.agent_id ≡ agent)

IsSender-known :
    (p : ℕ) (agent : String) (o : Option ℕ) (h : Hub Response)
    → assert_message_sender p agent o h ≡ (ok tt, h)
    → IsSender h.store p agent o
unfolding assert_message_sender get_open_session get_session monad
IsSender-known p agent none h e id named = absurd (cc)
IsSender-known p agent (some i) h e id named =
    elim (Option-cases (find session_key i h.store.agent_sessions)) [
      | inl missing ↦ absurd (ground arith)
      | inr (session, found) ↦ (
        session,
        ground arith,
        is_closed-false session.connection_state (ground arith),
        ground (arith, ==_iff session.project_id p),
        ground (arith, eq_iff session.agent_id agent),
      )
    ]

module _ (now p : ℕ) (input : PostInput) (drawn : Drawn) (actor : MutationActor)
    (h h' : Hub Response) (r : Response) where
  write_message_known :
      Disjoint [] input.recipients
      → write_message now p input drawn actor h ≡ (ok r, h')
      → (r ≡ posted_response drawn.message_id)
        × ((thread : ℕ) × IsPosted h.store h'.store now p input drawn actor thread)
  unfolding write_message
  write_message_known disjoint e =
      read-then h _ _ (check_recipients-IsReader p input.recipients) e λ _ checked e.
        step-then h _ _ e λ thread h₁ opened e. step-then h₁ _ _ e λ event h₂ emitted e.
          step-then h₂ _ _ e λ _ h₃ stored e. step-then h₃ _ _ e λ _ h₄ sent e.
            modify-then h₄ _ _ e λ e.
              let (project, found, made, kept) = emit_known now _ h₁ h₂ event emitted in
              let (named, unchanged) =
                open_thread_known now p input drawn input.thread_id h h₁ thread opened in
              let (fresh, _, appended) = insert_message_known _ h₂ h₃ stored in
              let (answer, last) = pure-then _ _ e in
              (
                sym answer,
                (
                  thread,
                  steps-IsPosted now p input drawn actor thread event project _ _ h.store h₁.store
                      h₂.store h₄.store h'.store disjoint
                      (check_recipients_known p input.recipients h checked) unchanged found made
                      named kept fresh
                      (insert_recipients_known _ 0 _ input.recipients h₃ h₄ sent
                        ∙ ap
                            (λ (k : Hub Response).
                              with_recipients
                                (new_recipients drawn.recipient_id 0 drawn.message_id
                                  input.recipients)
                                k.store)
                            appended)
                      (ap (λ (k : Hub Response). k.store) (sym last)),
                ),
              )

  post_unless_known :
      (o : Option MessageRow)
      → post_unless now p input drawn actor o h ≡ (ok r, h')
      → ((m : MessageRow) × (o ≡ some m) × (r ≡ posted_response m.id) × (h'.store ≡ h.store))
        ⊎ ((o ≡ none)
            × (r ≡ posted_response drawn.message_id)
            × ((thread : ℕ) × IsPosted h.store h'.store now p input drawn actor thread))
  unfolding post_unless
  post_unless_known (some m) e =
      let (answer, last) = pure-then _ _ e in
      inl (m, refl, sym answer, ap (λ (k : Hub Response). k.store) (sym last))
  post_unless_known none e = throw_if-then h _ _ _ e λ clear e.
      let (answer, posted) =
        write_message_known
          ((message_recipient_conflict_iff input.recipients).0
            (nothing (describe_message_recipient_conflict input.recipients) clear))
          e in
      inr (refl, answer, posted)
    where
      nothing : (o : Option String) → is_some o ≡ false → o ≡ none
      nothing none e = refl
      nothing (some x) e = absurd (cc)

  -- A message that is posted without an error comes from an open session of the agent in the project,
  -- where it names one. If it has a dedupe key that is not empty and a message of the project has
  -- the same, the answer is that message, and no table has changed. Otherwise no message of the project has
  -- the key, no two of its recipients conflict, each session among them
  -- is its agent's in the project, and the message is new; it is appended with the fields of the
  -- request, in the thread that the request names or in the one that was drawn, under the next sequence
  -- number of the project, which is also that of the event that announces it and is appended; and each
  -- recipient is appended with its own row, pending, without attempts.
  pub post_body_lem :
      post_body now p input drawn actor h ≡ (ok r, h')
      → IsSender h.store p input.from_agent_id input.from_session_id
        × (((m : MessageRow) × IsDuplicate p input.dedupe_key h.store.messages m
              × (r ≡ posted_response m.id)
              × (h'.store ≡ h.store))
            ⊎ (IsUnused p input.dedupe_key h.store.messages
                × (r ≡ posted_response drawn.message_id)
                × ((thread : ℕ) × IsPosted h.store h'.store now p input drawn actor thread)))
  unfolding post_body
  post_body_lem e =
      read-then h _ _ (assert_message_sender-IsReader p input.from_agent_id input.from_session_id) e
        λ _ checked e. select-then h _ _ e λ e. (
          IsSender-known p input.from_agent_id input.from_session_id h checked,
          by_key
              (post_unless_known (find_duplicate p (truthy input.dedupe_key) h.store.messages) e),
        )
    where
      by_key :
          ((m : MessageRow) × (find_duplicate p (truthy input.dedupe_key) h.store.messages ≡ some m)
              × (r ≡ posted_response m.id)
              × (h'.store ≡ h.store))
            ⊎ ((find_duplicate p (truthy input.dedupe_key) h.store.messages ≡ none)
                × (r ≡ posted_response drawn.message_id)
                × ((thread : ℕ) × IsPosted h.store h'.store now p input drawn actor thread))
          → ((m : MessageRow) × IsDuplicate p input.dedupe_key h.store.messages m
              × (r ≡ posted_response m.id)
              × (h'.store ≡ h.store))
            ⊎ (IsUnused p input.dedupe_key h.store.messages
                × (r ≡ posted_response drawn.message_id)
                × ((thread : ℕ) × IsPosted h.store h'.store now p input drawn actor thread))
      by_key (inl (m, found, answer, kept)) =
          inl (m, find_duplicate-IsDuplicate p input.dedupe_key _ m found, answer, kept)
      by_key (inr (none_there, answer, posted)) =
          inr (find_duplicate-IsUnused p input.dedupe_key _ none_there, answer, posted)
