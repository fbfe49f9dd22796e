-- ===== src/Hub/Reviews/Turns.antt =====
-- apps/hub/src/services/store/reviews.ts: the ways in which the table of reviews changes, and what
-- they keep.

use mathlib.Core.Option.{some-injective}
use ayanami_agent_hub.Base.{
  ℕ, ◌<◌, ◌≡◌, ◌≢◌, sym, ap, ◌∙◌, subst, inl, inr, Bool, true, false, List, [], ◌∷◌, ◌++◌, ◌+◌,
  Option, none, some, arith, if◌then◌else◌,
}
use ayanami_agent_hub.Base.Members.{Distinct, Distinct-update, update-found}
use ayanami_agent_hub.Base.Table.{find, update}
use ayanami_agent_hub.Hub.Rows.{
  ReviewRow, ReviewStatus, pending, delivered, in_review, changes_requested, superseded, approved,
}
use ayanami_agent_hub.Hub.Tasks.{latest_review}
use ayanami_agent_hub.Hub.Tasks.Progress.{is_approved}
use ayanami_agent_hub.Hub.Reviews.{review_key, is_active}
use ayanami_agent_hub.Hub.Reviews.Begin.{set_review_status}
use ayanami_agent_hub.Hub.Reviews.Request.{next_revision}

-- Only the status, the verdict and the version of a review ever change.
abbrev pub Moves : (ReviewRow → ReviewRow) → Type 0
Moves f =
    (r : ReviewRow)
    → f r ≡ record r {
      status = (f r).status;
      verdict_summary = (f r).verdict_summary;
      version = (f r).version;
      updated_at = (f r).updated_at;
    }

-- The table after the previous review of the task has been superseded.
abbrev pub superseding : ℕ → Option ReviewRow → List ReviewRow → List ReviewRow
superseding now none rs = rs
superseding now (some p) rs =
    if is_approved p.status
    then rs
    else update review_key p.id (set_review_status now superseded) rs

-- The ways of an active review: a waiting one begins, and one that is reviewed gets its verdict.
abbrev pub passes : ReviewStatus → ReviewStatus → Bool
passes pending in_review = true
passes delivered in_review = true
passes in_review approved = true
passes in_review changes_requested = true
passes _ _ = false

pub passes-active : (s t : ReviewStatus) → passes s t ≡ true → is_active s ≡ true
passes-active s t h = ground arith

-- The board of reviews, of which a call makes one turn: it leaves the reviews alone, moves one of them
-- on to its next version, or opens the next revision of a task's review and supersedes the one before.
pub data Turn (rs rs' : List ReviewRow) : Type 0 where
  unchanged : rs' ≡ rs → Turn rs rs'
  moved :
      (k : ℕ) (f : ReviewRow → ReviewRow) (r : ReviewRow)
      → Moves f
      → find review_key k rs ≡ some r
      → passes r.status (f r).status ≡ true
      → (f r).version ≡ r.version + 1
      → rs' ≡ update review_key k f rs
      → Turn rs rs'
  opened :
      (now : ℕ) (new : ReviewRow)
      → find review_key new.id rs ≡ none
      → new.status ≡ pending
      → new.revision ≡ next_revision (latest_review new.task_id rs)
      → rs' ≡ superseding now (latest_review new.task_id rs) rs ++ new ∷ []
      → Turn rs rs'

-- The identifiers are distinct, and an active review has the highest revision of all of its task; so
-- a task has at most one active review.
pub record IsOrdered (rs : List ReviewRow) : Type 0 where
  pub distinct : Distinct review_key rs
  pub leads :
      (i j : ℕ) (q r : ReviewRow)
      → find review_key i rs ≡ some q
      → find review_key j rs ≡ some r
      → i ≢ j
      → q.task_id ≡ r.task_id
      → is_active r.status ≡ true
      → q.revision < r.revision

module _ (f : ReviewRow → ReviewRow) (m : Moves f) (r : ReviewRow) where
  moves_id : (f r).id ≡ r.id
  moves_id = ap (λ (q : ReviewRow). q.id) (m r)

  moves_task : (f r).task_id ≡ r.task_id
  moves_task = ap (λ (q : ReviewRow). q.task_id) (m r)

  moves_revision : (f r).revision ≡ r.revision
  moves_revision = ap (λ (q : ReviewRow). q.revision) (m r)

-- An update that makes no other review active than those that were keeps the order.
pub update-IsOrdered :
    (k : ℕ) (f : ReviewRow → ReviewRow) (rs : List ReviewRow)
    → Moves f
    → ((r : ReviewRow)
        → find review_key k rs ≡ some r
        → is_active (f r).status ≡ true
        → is_active r.status ≡ true)
    → IsOrdered rs
    → IsOrdered (update review_key k f rs)
update-IsOrdered k f rs m calm o = record {
  distinct = Distinct-update review_key f (moves_id f m) k rs o.distinct;
  leads = λ i j q' r' fq fr ne same active.
      let (q, found, was) = update-found review_key f (moves_id f m) k i rs q' fq in
      let (r, found', was') = update-found review_key f (moves_id f m) k j rs r' fr in
      elim was [
        | inl (p, e) ↦ elim was' [
          | inl (p', e') ↦ absurd (ne (sym p ∙ p'))
          | inr (p', e') ↦
              let at : q.revision < r.revision =
                o.leads i j q r found found' ne
                  (sym (moves_task f m q)
                    ∙ ap (λ (x : ReviewRow). x.task_id) (sym e)
                    ∙ same
                    ∙ ap (λ (x : ReviewRow). x.task_id) e')
                  (subst (λ (x : ReviewRow). is_active x.status ≡ true) e' active) in
              omega (
                arith,
                ap (λ (x : ReviewRow). x.revision) e,
                ap (λ (x : ReviewRow). x.revision) e',
                moves_revision f m q,
              )
        ]
        | inr (p, e) ↦ elim was' [
          | inl (p', e') ↦
              let at : q.revision < r.revision =
                o.leads i j q r found found' ne
                  (ap (λ (x : ReviewRow). x.task_id) (sym e)
                    ∙ same
                    ∙ ap (λ (x : ReviewRow). x.task_id) e'
                    ∙ moves_task f m r)
                  (calm r (subst (λ n. find review_key n rs ≡ some r) (sym p') found')
                    (subst (λ (x : ReviewRow). is_active x.status ≡ true) e' active)) in
              omega (
                arith,
                ap (λ (x : ReviewRow). x.revision) e,
                ap (λ (x : ReviewRow). x.revision) e',
                moves_revision f m r,
              )
          | inr (p', e') ↦
              let at : q.revision < r.revision =
                o.leads i j q r found found' ne
                  (ap (λ (x : ReviewRow). x.task_id) (sym e)
                    ∙ same
                    ∙ ap (λ (x : ReviewRow). x.task_id) e')
                  (subst (λ (x : ReviewRow). is_active x.status ≡ true) e' active) in
              omega
                (arith, ap (λ (x : ReviewRow). x.revision) e, ap (λ (x : ReviewRow). x.revision) e')
        ]
      ];
}

pub calm_update-IsOrdered :
    (k : ℕ) (f : ReviewRow → ReviewRow) (r : ReviewRow) (rs : List ReviewRow)
    → Moves f
    → find review_key k rs ≡ some r
    → is_active r.status ≡ true
    → IsOrdered rs
    → IsOrdered (update review_key k f rs)
calm_update-IsOrdered k f r rs m found active o =
    update-IsOrdered k f rs m
      (λ q found' _.
        subst (λ (x : ReviewRow). is_active x.status ≡ true)
          (some-injective r q (sym found ∙ found')) active)
      o
