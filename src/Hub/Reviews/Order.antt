-- ===== src/Hub/Reviews/Order.antt =====
-- apps/hub/src/services/store/reviews.ts: what every change of the table of reviews keeps.

use mathlib.Core.Option.{some-injective}
use ayanami_agent_hub.Base.{
  ℕ, ◌+◌, ◌≡◌, refl, sym, ap, ◌∙◌, subst, inl, inr, Bool, true, false, List, [], ◌∷◌, ◌++◌, Option,
  none, some, arith, ◌==◌, ==_iff, Bool-cases, Option-cases, if◌then◌else◌,
}
use ayanami_agent_hub.Base.Members.{found-In, update-found}
use ayanami_agent_hub.Base.Table.{find, update}
use ayanami_agent_hub.Hub.Rows.{ReviewRow, superseded}
use ayanami_agent_hub.Hub.Tasks.{latest_review}
use ayanami_agent_hub.Hub.Tasks.Progress.{is_approved}
use ayanami_agent_hub.Hub.Reviews.{review_key, is_active}
use ayanami_agent_hub.Hub.Reviews.Begin.{set_review_status}
use ayanami_agent_hub.Hub.Reviews.Request.{next_revision}
use ayanami_agent_hub.Hub.Reviews.Turns.{
  Moves, superseding, Turn, unchanged, moved, opened, passes-active, IsOrdered, update-IsOrdered,
  calm_update-IsOrdered,
}
use ayanami_agent_hub.Hub.Reviews.Latest.{
  IsPast, latest_review-none, latest-found, latest-above, others-inactive, append-IsOrdered,
  not-active-approved,
}

pub superseded-Moves : (now : ℕ) → Moves (set_review_status now superseded)
superseded-Moves now r = refl

supersede_if-IsOrdered :
    (now : ℕ) (c : Bool) (p : ReviewRow) (rs : List ReviewRow)
    → IsOrdered rs
    → IsOrdered (if c then rs else update review_key p.id (set_review_status now superseded) rs)
supersede_if-IsOrdered now true p rs o = o
supersede_if-IsOrdered now false p rs o =
    update-IsOrdered p.id (set_review_status now superseded) rs (superseded-Moves now)
      (λ r found active. cc) o

superseding-IsOrdered :
    (now : ℕ) (previous : Option ReviewRow) (rs : List ReviewRow)
    → IsOrdered rs
    → IsOrdered (superseding now previous rs)
superseding-IsOrdered now none rs o = o
superseding-IsOrdered now (some p) rs o = supersede_if-IsOrdered now (is_approved p.status) p rs o

-- The identifiers stay the same.
superseding-free :
    (now k : ℕ) (previous : Option ReviewRow) (rs : List ReviewRow)
    → find review_key k rs ≡ none
    → find review_key k (superseding now previous rs) ≡ none
superseding-free now k none rs e = e
superseding-free now k (some p) rs e = kept (is_approved p.status)
  where
    kept :
        (c : Bool)
        → find review_key k
            (if c then rs else update review_key p.id (set_review_status now superseded) rs)
          ≡ none
    kept true = e
    kept false =
        elim (Option-cases
          (find review_key k (update review_key p.id (set_review_status now superseded) rs))) [
            | inl free ↦ free
            | inr (r, found) ↦
                let (q, there, _) =
                  update-found review_key (set_review_status now superseded) (λ x. refl) p.id k rs r
                    found in
                cc
          ]

module _ (now : ℕ) (new : ReviewRow) (rs : List ReviewRow) (o : IsOrdered rs) where
  some-IsPast :
      (p : ReviewRow) (c : Bool)
      → latest_review new.task_id rs ≡ some p
      → is_approved p.status ≡ c
      → new.revision ≡ p.revision + 1
      → IsPast new.task_id new
          (if c then rs else update review_key p.id (set_review_status now superseded) rs)
  some-IsPast p true is passed next i q found of =
      let above = latest-above rs o new.task_id p is i q found of in
      (
        omega (arith, above),
        elim (Bool-cases (p.id == i)) [
          | inl this ↦
              let same : p ≡ q = some-injective p q (
                sym (latest-found rs o new.task_id p is)
                ∙ ap (λ k. find review_key k rs) ((==_iff p.id i).0 this)
                ∙ found) in
              subst (λ (x : ReviewRow). is_active x.status ≡ false) same
                (not-active-approved p.status passed)
          | inr other ↦
              others-inactive rs o new.task_id p is i q found of (λ e. different p.id i other e)
        ],
      )
    where
      different : (a b : ℕ) → (a == b) ≡ false → a ≡ b → ⊥
      different a b h e = ground arith
  some-IsPast p false is passed next i q found of =
      let (r, there, was) =
        update-found review_key (set_review_status now superseded) (λ x. refl) p.id i rs q found in
      elim was [
        | inl (this, e) ↦
            let above =
              latest-above rs o new.task_id p is i r there
                (ap (λ (x : ReviewRow). x.task_id) (sym e) ∙ of) in
            (
              omega (arith, above, ap (λ (x : ReviewRow). x.revision) e),
              ap (λ (x : ReviewRow). is_active x.status) e,
            )
        | inr (other, e) ↦
            let of' : r.task_id ≡ new.task_id = ap (λ (x : ReviewRow). x.task_id) (sym e) ∙ of in
            let above = latest-above rs o new.task_id p is i r there of' in
            (
              omega (arith, above, ap (λ (x : ReviewRow). x.revision) e),
              ap (λ (x : ReviewRow). is_active x.status) e
                  ∙ others-inactive rs o new.task_id p is i r there of' other,
            )
      ]

  superseding-IsPast :
      (previous : Option ReviewRow)
      → latest_review new.task_id rs ≡ previous
      → new.revision ≡ next_revision previous
      → IsPast new.task_id new (superseding now previous rs)
  superseding-IsPast none is next i q found of =
      absurd (latest_review-none new.task_id rs q is (found-In review_key i rs q found) of)
  superseding-IsPast (some p) is next i q found of =
      some-IsPast p (is_approved p.status) is refl next i q found of

  opened-IsOrdered :
      find review_key new.id rs ≡ none
      → new.revision ≡ next_revision (latest_review new.task_id rs)
      → IsOrdered (superseding now (latest_review new.task_id rs) rs ++ new ∷ [])
  opened-IsOrdered free next =
      let previous = latest_review new.task_id rs in
      append-IsOrdered (superseding now previous rs) new
        (superseding-free now new.id previous rs free) (superseding-IsPast previous refl next)
        (superseding-IsOrdered now previous rs o)

pub Turn-IsOrdered : (rs rs' : List ReviewRow) → Turn rs rs' → IsOrdered rs → IsOrdered rs'
Turn-IsOrdered rs rs' (unchanged e) o = subst IsOrdered (sym e) o
Turn-IsOrdered rs rs' (moved k f r m found passed next e) o =
    subst IsOrdered (sym e)
      (calm_update-IsOrdered k f r rs m found (passes-active r.status (f r).status passed) o)
Turn-IsOrdered rs rs' (opened now new free waits next e) o =
    subst IsOrdered (sym e) (opened-IsOrdered now new rs o free next)
