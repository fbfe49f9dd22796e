-- ===== src/Bridge/Drain/Steps.antt =====
-- packages/codex-bridge/src/credential-cutover-drain.ts: every state that calls of the barrier lead to.
use mathlib.Core.Option.{some-injective}
use ayanami_agent_hub.Base.{
  ℕ, ◌≡◌, refl, sym, subst, ◌∙◌, false, String, List, [], ◌∷◌, Option, none, some, arith, ◌==◌,
  Bool-cases, inl, inr,
}
use ayanami_agent_hub.Bridge.Drain.{
  AdmissionKind, Phase, open_phase, draining, closed_phase, Admission, Barrier, Drain, new_drain,
  has_active, admit, resume_from, release, start_drain, begin_drain, reopen_in, reopen_with, reopen,
  shut, close_with, close_in, close,
}
use ayanami_agent_hub.Bridge.Drain.Invariant.{
  BelongTo, Fenced, Shape, IsSound, admit-IsSound, resume-IsSound, release-IsSound, begin-IsSound,
  same-IsSound, start_drain-Fenced,
}

-- Once the old epoch is empty, what is active belongs to the new one: there is nothing.
BelongTo-empty :
    (e e' : ℕ) (xs : List Admission) → BelongTo e xs → has_active e xs ≡ false → BelongTo e' xs
BelongTo-empty e e' [] all h = tt
BelongTo-empty e e' (x ∷ xs) (p, all) h = absurd (ground arith)

reopen_in-IsSound :
    (b : Barrier) (d : Drain) (ph : Phase)
    → d.phase ≡ ph
    → d.barrier ≡ some b
    → Shape ph d
    → IsSound (reopen_in ph b d).1
unfolding reopen_in
reopen_in-IsSound b d open_phase e known sh = same-IsSound d open_phase e sh
reopen_in-IsSound b d closed_phase e known sh = same-IsSound d closed_phase e sh
reopen_in-IsSound b d draining e known (b', known', follows, all, flagged) =
    elim (Bool-cases (has_active b.epoch d.active)) [
      | inl busy ↦ rw busy (same-IsSound d draining e (b', known', follows, all, flagged))
      | inr empty ↦ rw empty (record {
        shape = (
          refl,
          BelongTo-empty b.epoch d.epoch d.active
              (subst (λ (x : Barrier). BelongTo x.epoch d.active)
                (some-injective b' b (sym known' ∙ known)) all)
              empty,
        );
      })
    ]

reopen_with-IsSound :
    (o : Option Barrier) (epoch : ℕ) (d : Drain)
    → d.barrier ≡ o
    → IsSound d
    → IsSound (reopen_with o epoch d).1
unfolding reopen_with
reopen_with-IsSound none epoch d e s = s
reopen_with-IsSound (some b) epoch d e s = elim (Bool-cases (b.epoch == epoch)) [
  | inl same ↦ rw same (reopen_in-IsSound b d d.phase refl e s.shape)
  | inr other ↦ rw other s
]

shut-IsSound : (reason : String) (d : Drain) → Fenced d → IsSound (shut reason d)
shut-IsSound reason d fenced = record { shape = (fenced, refl) }

close_with-IsSound :
    (o : Option Barrier) (reason : String) (d : Drain)
    → (o ≡ none → BelongTo d.epoch d.active)
    → ((b : Barrier) → o ≡ some b → Fenced d)
    → IsSound (close_with o reason d)
unfolding close_with
close_with-IsSound none reason d all fenced =
    shut-IsSound reason (start_drain reason d) (start_drain-Fenced reason d (all refl))
close_with-IsSound (some b) reason d all fenced = shut-IsSound reason d (fenced b refl)

close-IsSound :
    (reason : String) (d : Drain) (ph : Phase)
    → d.phase ≡ ph
    → Shape ph d
    → IsSound (close_in ph reason d)
unfolding close_in
close-IsSound reason d open_phase e (free, all) =
    close_with-IsSound d.barrier reason d (λ _. all) (λ b known. cc)
close-IsSound reason d draining e (b, known, follows, all, flagged) =
    close_with-IsSound d.barrier reason d (λ p. cc) (λ _ _. (b, known, follows, all, flagged))
close-IsSound reason d closed_phase e sh = same-IsSound d closed_phase e sh

-- A call; `resume` is a woken caller who runs his loop again.
pub data Call : Type 0 where
  ask : AdmissionKind → Call
  resume : Call
  done_with : ℕ → Call
  drain_for : String → Call
  open_again : ℕ → Call
  shut_down : String → Call

unfoldable pub apply : Call → Drain → Drain
apply (ask kind) d = (admit kind d).1
apply resume d = resume_from d.woken d
apply (done_with id) d = release id d
apply (drain_for reason) d = (begin_drain reason d).1
apply (open_again epoch) d = (reopen epoch d).1
apply (shut_down reason) d = close reason d

pub data Reachable : Drain → Type 0 where
  start : Reachable new_drain
  step : {d : Drain} → Reachable d → (c : Call) → Reachable (apply c d)

apply-IsSound : (c : Call) (d : Drain) → IsSound d → IsSound (apply c d)
unfolding apply admit begin_drain reopen close
apply-IsSound (ask kind) d s = admit-IsSound kind d d.phase refl s.shape
apply-IsSound resume d s = resume-IsSound d.woken d s
apply-IsSound (done_with id) d s = release-IsSound d id s
apply-IsSound (drain_for reason) d s = begin-IsSound reason d d.phase refl s.shape
apply-IsSound (open_again epoch) d s = reopen_with-IsSound d.barrier epoch d refl s
apply-IsSound (shut_down reason) d s = close-IsSound reason d d.phase refl s.shape

-- Whatever is admitted, released, drained, reopened and closed, in whatever order: while admission is
-- open there is no barrier and all active work is of the current epoch; while it drains or is closed,
-- all active work is of the epoch just before the current one, and the barrier's promise has been
-- fulfilled exactly when none of that work is left; and once it is closed nobody waits. So work of
-- two credential epochs is never active at the same time.
pub reached_drain-IsSound : (d : Drain) → Reachable d → IsSound d
reached_drain-IsSound d start = record { shape = (refl, tt) }
reached_drain-IsSound d (step {d = before} r c) =
    apply-IsSound c before (reached_drain-IsSound before r)
