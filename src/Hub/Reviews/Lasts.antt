-- ===== src/Hub/Reviews/Lasts.antt =====
-- apps/hub/src/services/store/reviews.ts: no turn of the board loses a review or changes an approved
-- one.
use mathlib.Core.Option
use mathlib.Core.Option.{some-injective}
use ayanami_agent_hub.Hub.Reviews.Order.{superseded-Moves}
use ayanami_agent_hub.Base.{
  ℕ, ◌≡◌, ◌≢◌, refl, sym, ap, ◌∙◌, subst, inl, inr, Bool, true, false, List, [], ◌∷◌, ◌++◌, Option,
  none, some, arith, ◌==◌, ==_iff, Bool-cases, if◌then◌else◌,
}
use ayanami_agent_hub.Base.Table.{find, update, find-update, find-update_ne, find-append_some}
use ayanami_agent_hub.Hub.Rows.{ReviewRow, ReviewStatus, superseded, approved}
use ayanami_agent_hub.Hub.Tasks.{latest_review}
use ayanami_agent_hub.Hub.Tasks.Progress.{is_approved}
use ayanami_agent_hub.Hub.Reviews.{review_key, is_active}
use ayanami_agent_hub.Hub.Reviews.Begin.{set_review_status}
use ayanami_agent_hub.Hub.Reviews.Turns.{
  Moves, superseding, Turn, unchanged, moved, opened, passes-active, IsOrdered,
}
use ayanami_agent_hub.Hub.Reviews.Latest.{latest-found}

-- Only the status, the verdict and the version of a review differ, and nothing if it was APPROVED.
abbrev pub Later : ReviewRow → ReviewRow → Type 0
Later r r' =
    (r' ≡ record r {
      status = r'.status;
      verdict_summary = r'.verdict_summary;
      version = r'.version;
      updated_at = r'.updated_at;
    })
    × (r.status ≡ approved → r' ≡ r)

-- No review is lost.
pub record Lasts (rs rs' : List ReviewRow) : Type 0 where
  pub lasts :
      (k : ℕ) (r : ReviewRow)
      → find review_key k rs ≡ some r
      → (r' : ReviewRow) × (find review_key k rs' ≡ some r') × Later r r'

pub same-Lasts : (rs rs' : List ReviewRow) → rs' ≡ rs → Lasts rs rs'
same-Lasts rs rs' e = record {
  lasts = λ k r found. (r, ap (find review_key k) e ∙ found, (refl, λ _. refl));
}

Later-trans : (p q r : ReviewRow) → Later p q → Later q r → Later p r
Later-trans p q r (e, a) (e', a') = (
  e'
      ∙ ap
          (λ (x : ReviewRow). record x {
            status = r.status;
            verdict_summary = r.verdict_summary;
            version = r.version;
            updated_at = r.updated_at;
          })
          e,
  λ h. a' (ap (λ (x : ReviewRow). x.status) (a h) ∙ h) ∙ a h,
)

pub Lasts-trans : (rs ss ts : List ReviewRow) → Lasts rs ss → Lasts ss ts → Lasts rs ts
Lasts-trans rs ss ts a b = record {
  lasts = λ k r found.
      let (q, there, l) = a.lasts k r found in
      let (p, there', l') = b.lasts k q there in (p, there', Later-trans r q p l l');
}

update-Lasts :
    (k : ℕ) (f : ReviewRow → ReviewRow) (rs : List ReviewRow)
    → Moves f
    → ((r : ReviewRow) → find review_key k rs ≡ some r → r.status ≢ approved)
    → Lasts rs (update review_key k f rs)
update-Lasts k f rs m open_review = record {
  lasts = λ j r found. elim (Bool-cases (k == j)) [
    | inl this ↦
        let here : find review_key k rs ≡ some r =
          subst (λ i. find review_key i rs ≡ some r) (sym ((==_iff k j).0 this)) found in
        (
          f r,
          subst (λ i. find review_key i (update review_key k f rs) ≡ some (f r))
              ((==_iff k j).0 this)
              (find-update review_key f (λ x. ap (λ (q : ReviewRow). q.id) (m x)) k rs
                ∙ ap (Option.map f) here),
          (m r, λ h. absurd (open_review r here h)),
        )
    | inr other ↦ (
      r,
      find-update_ne review_key f (λ x. ap (λ (q : ReviewRow). q.id) (m x)) k j rs
            (λ e. different k j other e)
          ∙ found,
      (refl, λ _. refl),
    )
  ];
}
  where
    different : (a b : ℕ) → (a == b) ≡ false → a ≡ b → ⊥
    different a b h e = ground arith

append-Lasts : (rs : List ReviewRow) (new : ReviewRow) → Lasts rs (rs ++ new ∷ [])
append-Lasts rs new = record {
  lasts = λ k r found. (r, find-append_some review_key k rs new r found, (refl, λ _. refl));
}

approved-active : (s : ReviewStatus) → is_active s ≡ true → s ≢ approved
approved-active s h e = ground arith

approved-passed : (s : ReviewStatus) → is_approved s ≡ false → s ≢ approved
approved-passed s h e = ground arith

supersede_if-Lasts :
    (now : ℕ) (c : Bool) (p : ReviewRow) (rs : List ReviewRow)
    → find review_key p.id rs ≡ some p
    → is_approved p.status ≡ c
    → Lasts rs (if c then rs else update review_key p.id (set_review_status now superseded) rs)
supersede_if-Lasts now true p rs found passed = same-Lasts rs rs refl
supersede_if-Lasts now false p rs found passed =
    update-Lasts p.id (set_review_status now superseded) rs (superseded-Moves now) λ r there.
      subst (λ (x : ReviewRow). x.status ≢ approved) (some-injective p r (sym found ∙ there))
        (approved-passed p.status passed)

superseding-Lasts :
    (now task_id : ℕ) (previous : Option ReviewRow) (rs : List ReviewRow)
    → IsOrdered rs
    → latest_review task_id rs ≡ previous
    → Lasts rs (superseding now previous rs)
superseding-Lasts now task_id none rs o is = same-Lasts rs rs refl
superseding-Lasts now task_id (some p) rs o is =
    supersede_if-Lasts now (is_approved p.status) p rs (latest-found rs o task_id p is) refl

pub Turn-Lasts : (rs rs' : List ReviewRow) → Turn rs rs' → IsOrdered rs → Lasts rs rs'
Turn-Lasts rs rs' (unchanged e) o = same-Lasts rs rs' e
Turn-Lasts rs rs' (moved k f r m found passed next e) o = subst (Lasts rs) (sym e) (
    update-Lasts k f rs m λ q there.
      subst (λ (x : ReviewRow). x.status ≢ approved) (some-injective r q (sym found ∙ there))
        (approved-active r.status (passes-active r.status (f r).status passed)))
Turn-Lasts rs rs' (opened now new free waits next e) o =
    let previous = latest_review new.task_id rs in
    subst (Lasts rs) (sym e) (
      Lasts-trans rs (superseding now previous rs) _
        (superseding-Lasts now new.task_id previous rs o refl)
        (append-Lasts (superseding now previous rs) new))
