-- ===== src/Hub/Reviews/Request/Laws.antt =====
-- apps/hub/src/services/store/reviews.ts, requestReview: when a review is requested, and what that
-- changes.
use mathlib.Core.Option
use mathlib.Core.Option.{some-injective}
use ayanami_agent_hub.Base.{
  ℕ, ◌≡◌, refl, sym, ap, subst, ◌∙◌, inl, inr, false, String, List, [], ◌∷◌, ◌++◌, Option, none,
  some, arith, ◌==◌, Option-cases, Bool-cases, any, ==_iff,
}
use ayanami_agent_hub.Base.Table.{find, update, find-update, find-update_ne}
use ayanami_agent_hub.Hub.Rows.{TaskRow, ReviewRow, SessionRow, superseded}
use ayanami_agent_hub.Hub.Context.{Hub, Result, ok, err, Action, monad, ◌>>=◌, ◌>>◌}
use ayanami_agent_hub.Hub.Context.Steps.{select-then}
use ayanami_agent_hub.Hub.Context.Readers.{read-then}
use ayanami_agent_hub.Hub.Context.Blind.{
  pure-IsBlind, modify-IsBlind, >>=-IsBlind, >>-IsBlind, throw_if-IsBlind, blind_end, blind-then,
}
use ayanami_agent_hub.Hub.Tasks.{Response, latest_review}
use ayanami_agent_hub.Hub.Tasks.Progress.{is_approved}
use ayanami_agent_hub.Hub.Messages.{Drawn}
use ayanami_agent_hub.Hub.Reviews.{review_key}
use ayanami_agent_hub.Hub.Reviews.Begin.{set_review_status}
use ayanami_agent_hub.Hub.Reviews.Request.{
  RequestInput, RequestIds, SavedArtifact, lift, supersede, new_review, review_clashes,
  insert_review, request_body,
}
use ayanami_agent_hub.Hub.Reviews.Guards.{at_most_one-IsReader}
use ayanami_agent_hub.Hub.Reviews.Blind.{
  reviews_of, emit-Quiet, recompute_progress-Quiet, review_row-Quiet, post_message-Quiet,
  get_task-Quiet, insert_artifact-Quiet, evidence-Quiet, start-Quiet,
}
use ayanami_agent_hub.Hub.Reviews.Turns.{superseding, Turn, opened}

-- An update leaves no identifier out.
update-none :
    (now j k : ℕ) (rs : List ReviewRow)
    → find review_key k (update review_key j (set_review_status now superseded) rs) ≡ none
    → find review_key k rs ≡ none
update-none now j k rs e = elim (Bool-cases (j == k)) [
  | inl this ↦
      let same : j ≡ k = (==_iff j k).0 this in
      unmapped (find review_key k rs) (
        sym (
          subst
            (λ i.
              find review_key i (update review_key j (set_review_status now superseded) rs)
              ≡ Option.map (set_review_status now superseded) (find review_key i rs))
            same (find-update review_key (set_review_status now superseded) (λ r. refl) j rs))
        ∙ e)
  | inr other ↦
      sym (
        find-update_ne review_key (set_review_status now superseded) (λ r. refl) j k rs
          (λ p. different j k other p))
      ∙ e
]
  where
    unmapped :
        (o : Option ReviewRow) → Option.map (set_review_status now superseded) o ≡ none → o ≡ none
    unmapped none e = refl
    unmapped (some r) e = absurd (cc)

    different : (a b : ℕ) → (a == b) ≡ false → a ≡ b → ⊥
    different a b h e = ground arith

superseding-none :
    (now k : ℕ) (previous : Option ReviewRow) (rs : List ReviewRow)
    → find review_key k (superseding now previous rs) ≡ none
    → find review_key k rs ≡ none
superseding-none now k none rs e = e
superseding-none now k (some p) rs e = elim (Bool-cases (is_approved p.status)) [
  | inl passed ↦ ground (arith)
  | inr other ↦ update-none now p.id k rs (ground arith)
]

module _ {B P : Type 0} {b : B} (h : Hub Response) {h' : Hub Response} where
  supersede-then :
      (now : ℕ) (o : Option ReviewRow) (m : Action Response B)
      → (supersede now o >> m) h ≡ (ok b, h')
      → (m (record h { store = record h.store { reviews = superseding now o h.store.reviews } })
            ≡ (ok b, h')
          → P)
      → P
  unfolding supersede monad
  supersede-then now none m e k = k e
  supersede-then now (some p) m e k = k e

  lift-then :
      {A : Type 0} (x : Result A) (f : A → Action Response B)
      → (lift x >>= f) h ≡ (ok b, h')
      → ((a : A) → x ≡ ok a → f a h ≡ (ok b, h') → P)
      → P
  unfolding lift monad
  lift-then (ok a) f e k = k a refl e
  lift-then (err y) f e k = absurd (cc)

  insert_review-then :
      (row : ReviewRow) (m : Action Response B)
      → (insert_review row >> m) h ≡ (ok b, h')
      → (find review_key row.id h.store.reviews ≡ none
          → m (record h { store = record h.store { reviews = h.store.reviews ++ row ∷ [] } })
            ≡ (ok b, h')
          → P)
      → P
  unfolding insert_review monad
  insert_review-then row m e k = elim (Option-cases (find review_key row.id h.store.reviews)) [
    | inl free ↦ elim (Bool-cases (any (review_clashes row) h.store.reviews)) [
      | inl clash ↦ absurd (ground arith)
      | inr clear ↦ k free (ground arith)
    ]
    | inr (r, taken) ↦ absurd (ground arith)
  ]

ruleset quiet = (
  >>=-IsBlind, >>-IsBlind, emit-Quiet, recompute_progress-Quiet, review_row-Quiet,
  post_message-Quiet, pure-IsBlind, get_task-Quiet, start-Quiet, throw_if-IsBlind, modify-IsBlind,
  refl,
)

module _ (now : ℕ) (ids : RequestIds) (task : TaskRow) (session : SessionRow) (input : RequestInput)
    (files : List String) (saving : Result SavedArtifact) (drawn : Drawn) (h h' : Hub Response)
    (r : Response)
    (ran : request_body now ids task session input files saving drawn h ≡ (ok r, h')) where
  request_body-known :
      (saved : SavedArtifact) × (saving ≡ ok saved)
      × (find review_key ids.review_id h.store.reviews ≡ none)
      × (let previous = latest_review task.id h.store.reviews in
          h'.store.reviews
          ≡ superseding now previous h.store.reviews
            ++ new_review now ids task session input files saved previous ∷ [])
  unfolding request_body
  request_body-known = read-then h _ _ (at_most_one-IsReader task.id) ran λ _ checked e.
      lift-then h saving _ e λ saved done e. select-then h _ _ e λ e.
        let previous = latest_review task.id h.store.reviews in
        supersede-then h now previous _ e λ e.
          blind-then reviews_of _ _ _ (insert_artifact-Quiet _) e λ _ h₁ same e.
            insert_review-then h₁ _ _ e λ free e. (
              saved,
              done,
              superseding-none now ids.review_id previous h.store.reviews
                  (ap (find review_key ids.review_id) (sym same) ∙ free),
              blind_end reviews_of _ _ _ e (evidence-Quiet now ids.evidence_id 0 _ _)
                    (search quiet depth 30 fits 20000)
                  ∙ ap
                      (λ (rs : List ReviewRow).
                        rs ++ new_review now ids task session input files saved previous ∷ [])
                      same,
            )

  pub request_body-Turn : Turn h.store.reviews h'.store.reviews
  request_body-Turn =
      let (saved, _, free, table) = request_body-known in
      opened now
        (new_review now ids task session input files saved (latest_review task.id h.store.reviews))
        free refl refl table
