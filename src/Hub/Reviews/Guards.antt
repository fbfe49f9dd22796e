-- ===== src/Hub/Reviews/Guards.antt =====
-- apps/hub/src/services/store/reviews.ts: what is known after a guard has let a call pass.
use text.Mathlib.TextEquality.{eq_iff}
use ayanami_agent_hub.Base.{
  ℕ, ◌≡◌, ◌≢◌, refl, sym, ap, ◌∙◌, inl, inr, Bool, true, false, List, [], ◌∷◌, some, arith,
  Option-cases, Bool-cases, ==_iff,
}
use ayanami_agent_hub.Base.Table.{find}
use ayanami_agent_hub.Hub.Rows.{closed, ReviewRow, ReviewStatus, SessionRow}
use ayanami_agent_hub.Hub.Context.{Hub, Store, Action, ok, monad, ◌>>=◌, ◌>>◌}
use ayanami_agent_hub.Hub.Context.Readers.{
  IsReader, pure-IsReader, select-IsReader, or_throw-IsReader, throw_if-IsReader, >>=-IsReader,
  read-then,
}
use ayanami_agent_hub.Hub.Context.Steps.{throw_if-then, pure-then}
use ayanami_agent_hub.Hub.Sessions.{
  session_key, is_closed, is_closed-false, not_closed, get_session, get_open_session,
}
use ayanami_agent_hub.Hub.Tasks.{Response}
use ayanami_agent_hub.Hub.Messages.Blind.{get_open_session-IsReader}
use ayanami_agent_hub.Hub.Reviews.{
  Review, review_key, findings_in, get_review, session_in_project, active_reviews, assert_only,
  assert_latest_active_review, assert_at_most_one_active_review, assigned_reviewer_session,
  review_row,
}

ruleset reading = (
  pure-IsReader, select-IsReader, or_throw-IsReader, throw_if-IsReader, >>=-IsReader,
  get_open_session-IsReader,
)

pub get_review-IsReader : (id : ℕ) → IsReader (get_review id)
unfolding get_review
get_review-IsReader id = search reading

pub session_in_project-IsReader : (s p : ℕ) → IsReader (session_in_project s p)
unfolding session_in_project
session_in_project-IsReader s p = search reading

pub reviewer-IsReader : (r : ReviewRow) (s : ℕ) → IsReader (assigned_reviewer_session r s)
unfolding assigned_reviewer_session
reviewer-IsReader r s = search (reading, session_in_project-IsReader)

only-IsReader : (r : ReviewRow) (rs : List ReviewRow) → IsReader (assert_only r rs)
unfolding assert_only
only-IsReader r [] = record { reads = λ h. unfold monad in refl }
only-IsReader r (a ∷ []) = search reading
only-IsReader r (a ∷ b ∷ rs) = record { reads = λ h. unfold monad in refl }

pub latest-IsReader :
    (r : ReviewRow) (allowed : ReviewStatus → Bool)
    → IsReader (assert_latest_active_review r allowed)
unfolding assert_latest_active_review
latest-IsReader r allowed = search (reading, only-IsReader)

pub at_most_one-IsReader : (t : ℕ) → IsReader (assert_at_most_one_active_review t)
unfolding assert_at_most_one_active_review
at_most_one-IsReader t = search reading

pub review_row-IsReader : (id : ℕ) → IsReader (review_row id)
unfolding review_row
review_row-IsReader id = search reading

-- The review as it is stored.
abbrev pub review_at : Store Response → ℕ → ReviewRow → Review
review_at s id row = record { row = row; findings = findings_in id s.review_findings }

-- The session is open, and the assigned reviewer's in the project of the review.
pub record IsReviewer (s : Store Response) (review : ReviewRow) (session_id : ℕ)
    (session : SessionRow) : Type 0 where
  pub known : find session_key session_id s.agent_sessions ≡ some session
  pub is_open : session.connection_state ≢ closed
  pub same_project : session.project_id ≡ review.project_id
  pub is_reviewer : session.agent_id ≡ review.reviewer_agent_id

-- The review is the only active one of its task.
pub record IsOnly (s : Store Response) (review : ReviewRow) : Type 0 where
  pub head : ReviewRow
  pub only : active_reviews review.task_id s.reviews ≡ head ∷ []
  pub this : head.id ≡ review.id

module _ {B P : Type 0} {b : B} (h : Hub Response) {h' : Hub Response} where
  pub get_review-then :
      (id : ℕ) (f : Review → Action Response B)
      → (get_review id >>= f) h ≡ (ok b, h')
      → ((row : ReviewRow)
          → find review_key id h.store.reviews ≡ some row
          → f (review_at h.store id row) h ≡ (ok b, h')
          → P)
      → P
  unfolding get_review monad
  get_review-then id f e k = elim (Option-cases (find review_key id h.store.reviews)) [
    | inl missing ↦ absurd (ground arith)
    | inr (row, found) ↦ k row found (ground arith)
  ]

  pub review_row-then :
      (id : ℕ) (f : ReviewRow → Action Response B)
      → (review_row id >>= f) h ≡ (ok b, h')
      → ((row : ReviewRow)
          → find review_key id h.store.reviews ≡ some row
          → f row h ≡ (ok b, h')
          → P)
      → P
  unfolding review_row monad
  review_row-then id f e k = elim (Option-cases (find review_key id h.store.reviews)) [
    | inl missing ↦ absurd (ground arith)
    | inr (row, found) ↦ k row found (ground arith)
  ]

  pub get_open_session-then :
      (id : ℕ) (f : SessionRow → Action Response B)
      → (get_open_session id >>= f) h ≡ (ok b, h')
      → ((s : SessionRow)
          → find session_key id h.store.agent_sessions ≡ some s
          → is_closed s.connection_state ≡ false
          → f s h ≡ (ok b, h')
          → P)
      → P
  unfolding get_open_session get_session monad
  get_open_session-then id f e k =
      elim (Option-cases (find session_key id h.store.agent_sessions)) [
        | inl missing ↦ absurd (ground arith)
        | inr (s, found) ↦ elim (Bool-cases (is_closed s.connection_state)) [
          | inl over ↦ absurd (ground arith)
          | inr on ↦ k s found on (ground arith)
        ]
      ]

module _ (h : Hub Response) {h' : Hub Response} where
  pub in_project-known :
      (session_id project_id : ℕ) (s : SessionRow)
      → session_in_project session_id project_id h ≡ (ok s, h')
      → (find session_key session_id h.store.agent_sessions ≡ some s)
        × (is_closed s.connection_state ≡ false)
        × (s.project_id ≡ project_id)
  unfolding session_in_project
  in_project-known session_id project_id s e =
      get_open_session-then h session_id _ e λ t found on e. throw_if-then h _ _ _ e λ same e.
        let (answer, _) = pure-then h t e in
        (
          found ∙ ap some answer,
          ap (λ (x : SessionRow). is_closed x.connection_state) (sym answer) ∙ on,
          ap (λ (x : SessionRow). x.project_id) (sym answer) ∙ ground arith,
        )

module _ (h : Hub Response) {h' : Hub Response} where
  IsReviewer-known :
      (review : ReviewRow) (session_id : ℕ) (s : SessionRow)
      → assigned_reviewer_session review session_id h ≡ (ok s, h')
      → IsReviewer h.store review session_id s
  unfolding assigned_reviewer_session
  IsReviewer-known review session_id s e =
      read-then h _ _ (session_in_project-IsReader session_id review.project_id) e λ t read e.
        throw_if-then h _ _ _ e λ assigned e.
          let (answer, _) = pure-then h t e in
          let (found, on, same) = in_project-known h session_id review.project_id t read in
          record {
            known = found ∙ ap some answer;
            is_open =
                is_closed-false _
                  (ap (λ (x : SessionRow). is_closed x.connection_state) (sym answer) ∙ on);
            same_project = ap (λ (x : SessionRow). x.project_id) (sym answer) ∙ same;
            is_reviewer =
                ap (λ (x : SessionRow). x.agent_id) (sym answer)
                ∙ ground (arith, eq_iff t.agent_id review.reviewer_agent_id);
          }

  only-known :
      (review : ReviewRow) (rs : List ReviewRow)
      → assert_only review rs h ≡ (ok tt, h')
      → (head : ReviewRow) × (rs ≡ head ∷ []) × (head.id ≡ review.id)
  unfolding assert_only monad
  only-known review [] e = absurd (cc)
  only-known review (a ∷ []) e = (a, refl, ground arith)
  only-known review (a ∷ b ∷ rs) e = absurd (cc)

module _ (h : Hub Response) {h' : Hub Response} where
  latest-known :
      (review : ReviewRow) (allowed : ReviewStatus → Bool)
      → assert_latest_active_review review allowed h ≡ (ok tt, h')
      → IsOnly h.store review × (allowed review.status ≡ true)
  unfolding assert_latest_active_review monad
  latest-known review allowed e =
      let active = active_reviews review.task_id h.store.reviews in
      read-then h _ _ (only-IsReader review active) e λ _ read e.
        let (head, only, this) = only-known h review active read in
        (record { head = head; only = only; this = this }, ground arith)

module _ {B P : Type 0} {b : B} (h : Hub Response) {h' : Hub Response} where
  pub reviewer-then :
      (review : ReviewRow) (session_id : ℕ) (f : SessionRow → Action Response B)
      → (assigned_reviewer_session review session_id >>= f) h ≡ (ok b, h')
      → ((s : SessionRow) → IsReviewer h.store review session_id s → f s h ≡ (ok b, h') → P)
      → P
  reviewer-then review session_id f e k =
      read-then h _ f (reviewer-IsReader review session_id) e
        λ s read e. k s (IsReviewer-known h review session_id s read) e

  pub latest-then :
      (review : ReviewRow) (allowed : ReviewStatus → Bool) (m : Action Response B)
      → (assert_latest_active_review review allowed >> m) h ≡ (ok b, h')
      → (IsOnly h.store review → allowed review.status ≡ true → m h ≡ (ok b, h') → P)
      → P
  latest-then review allowed m e k =
      read-then h _ _ (latest-IsReader review allowed) e
        λ _ read e. let (only, passed) = latest-known h review allowed read in k only passed e

-- The other way round: where it holds, the guard lets pass.
module _ (h : Hub Response) where
  pub get_review-found :
      (id : ℕ) (row : ReviewRow)
      → find review_key id h.store.reviews ≡ some row
      → get_review id h ≡ (ok (review_at h.store id row), h)
  unfolding get_review monad
  get_review-found id row found = rw found refl

  pub review_row-found :
      (id : ℕ) (row : ReviewRow)
      → find review_key id h.store.reviews ≡ some row
      → review_row id h ≡ (ok row, h)
  unfolding review_row monad
  review_row-found id row found = rw found refl

  in_project-passes :
      (session_id project_id : ℕ) (s : SessionRow)
      → find session_key session_id h.store.agent_sessions ≡ some s
      → is_closed s.connection_state ≡ false
      → s.project_id ≡ project_id
      → session_in_project session_id project_id h ≡ (ok s, h)
  unfolding session_in_project get_open_session get_session monad
  in_project-passes session_id project_id s found on same =
      rw found (rw on (rw ((==_iff s.project_id project_id).1 same) refl))

  pub reviewer-passes :
      (review : ReviewRow) (session_id : ℕ) (s : SessionRow)
      → IsReviewer h.store review session_id s
      → assigned_reviewer_session review session_id h ≡ (ok s, h)
  unfolding assigned_reviewer_session monad
  reviewer-passes review session_id s i =
      rw
        (in_project-passes session_id review.project_id s i.known
          (not_closed s.connection_state i.is_open) i.same_project)
        (rw ((eq_iff s.agent_id review.reviewer_agent_id).1 i.is_reviewer) refl)

  pub latest-passes :
      (review : ReviewRow) (allowed : ReviewStatus → Bool)
      → IsOnly h.store review
      → allowed review.status ≡ true
      → assert_latest_active_review review allowed h ≡ (ok tt, h)
  unfolding assert_latest_active_review assert_only monad
  latest-passes review allowed o passed =
      rw (o.only) (rw ((==_iff o.head.id review.id).1 o.this) (rw passed refl))
