-- ===== src/Bridge/Drain/Invariant.antt =====
-- packages/codex-bridge/src/credential-cutover-drain.ts: no work of an old credential epoch runs beside
-- work of a new one.
use ayanami_agent_hub.Base.{
  ℕ, suc, ◌≡◌, refl, sym, subst, ◌∙◌, Bool, true, false, String, List, [], ◌∷◌, ◌++◌, Option, none,
  some, not, arith, any, keep, All, ◌==◌, if◌then◌else◌,
}
use ayanami_agent_hub.Base.Every.{All-keep, All-imp}
use ayanami_agent_hub.Bridge.Drain.{
  AdmissionKind, Phase, open_phase, draining, closed_phase, Admission, Barrier, Drain, has_active,
  enter, admit_in, admit, resume_from, resolve_if_drained, release, start_drain, begin_with,
  begin_in,
}

-- Every admission that is active belongs to the epoch.
abbrev pub BelongTo : ℕ → List Admission → Type 0
BelongTo e = All (λ a. a.epoch ≡ e)

-- Behind a barrier only work of the epoch that it drains is left, and its promise has been fulfilled
-- exactly when none is.
abbrev pub Fenced : Drain → Type 0
Fenced d =
    (b : Barrier) × (d.barrier ≡ some b)
    × (suc b.epoch ≡ d.epoch)
    × BelongTo b.epoch d.active
    × (b.drained ≡ not (has_active b.epoch d.active))

abbrev pub Shape : Phase → Drain → Type 0
Shape open_phase d = (d.barrier ≡ none) × BelongTo d.epoch d.active
Shape draining d = Fenced d
Shape closed_phase d = Fenced d × (d.pending ≡ [])

pub record IsSound (d : Drain) : Type 0 where
  pub shape : Shape d.phase d

BelongTo-append :
    (e : ℕ) (xs : List Admission) (a : Admission)
    → BelongTo e xs
    → a.epoch ≡ e
    → BelongTo e (xs ++ a ∷ [])
BelongTo-append e [] a all p = (p, tt)
BelongTo-append e (x ∷ xs) a (q, all) p = (q, BelongTo-append e xs a all p)

BelongTo-keep :
    (e : ℕ) (p : Admission → Bool) (xs : List Admission) → BelongTo e xs → BelongTo e (keep p xs)
BelongTo-keep e p xs all =
    All-imp _ _ (keep p xs) (λ a (_, q). q) (All-keep (λ (a : Admission). a.epoch ≡ e) p xs all)

-- Taking admissions away does not bring one back.
any-keep :
    (q p : Admission → Bool) (xs : List Admission) → any q xs ≡ false → any q (keep p xs) ≡ false
any-keep q p [] h = refl
any-keep q p (a ∷ xs) h = ground (arith, any-keep q p xs)

pub admit-IsSound :
    (kind : AdmissionKind) (d : Drain) (ph : Phase)
    → d.phase ≡ ph
    → Shape ph d
    → IsSound (admit_in ph kind d).1
unfolding admit_in enter
admit-IsSound kind d open_phase e (none_yet, all) = record {
  shape =
      subst (λ t. Shape t (enter kind d).1) (sym e)
        (none_yet, BelongTo-append d.epoch d.active _ all refl);
}
admit-IsSound kind d draining e fenced = record {
  shape = subst (λ t. Shape t (record d { pending = d.pending ++ kind ∷ [] })) (sym e) fenced;
}
admit-IsSound kind d closed_phase e sh = record { shape = subst (λ t. Shape t d) (sym e) sh }

Shape-woken :
    (d : Drain) (ks : List AdmissionKind) (ph : Phase)
    → Shape ph d
    → Shape ph (record d { woken = ks })
Shape-woken d ks open_phase sh = sh
Shape-woken d ks draining sh = sh
Shape-woken d ks closed_phase sh = sh

pub resume-IsSound : (ks : List AdmissionKind) (d : Drain) → IsSound d → IsSound (resume_from ks d)
unfolding resume_from admit
resume-IsSound [] d s = s
resume-IsSound (k ∷ ks) d s =
    admit-IsSound k (record d { woken = ks }) d.phase refl (Shape-woken d ks d.phase s.shape)

-- The flag after resolveBarrierIfDrained.
flag :
    (c old before : Bool)
    → old ≡ not before
    → (before ≡ false → c ≡ false)
    → (if c then old else true) ≡ not c
flag c old before e h = ground arith

module _ (d : Drain) (id : ℕ) where
  abbrev left : List Admission
  left = keep (λ a. not (a.id == id)) d.active

  release-Fenced : Fenced d → Fenced (release id d)
  unfolding release resolve_if_drained
  release-Fenced (b, e, follows, all, flagged) =
      subst (λ o. Fenced (resolve_if_drained o (record d { active = left }))) (sym e)
        (
          _,
          refl,
          follows,
          BelongTo-keep b.epoch (λ a. not (a.id == id)) d.active all,
          flag _ _ (has_active b.epoch d.active) flagged
              (any-keep (λ a. a.epoch == b.epoch) (λ a. not (a.id == id)) d.active),
        )

open_phase_release : (d : Drain) (id : ℕ) → Shape open_phase d → Shape open_phase (release id d)
unfolding release resolve_if_drained
open_phase_release d id (none_yet, all) =
    subst (λ o. Shape open_phase (resolve_if_drained o (record d { active = left d id })))
      (sym none_yet) (none_yet, BelongTo-keep d.epoch (λ a. not (a.id == id)) d.active all)

release_phase : (d : Drain) (id : ℕ) → (release id d).phase ≡ d.phase
unfolding release resolve_if_drained
release_phase d id = of d.barrier
  where
    of :
        (o : Option Barrier)
        → (resolve_if_drained o (record d { active = left d id })).phase ≡ d.phase
    of none = refl
    of (some b) = refl

release_pending : (d : Drain) (id : ℕ) → (release id d).pending ≡ d.pending
unfolding release resolve_if_drained
release_pending d id = of d.barrier
  where
    of :
        (o : Option Barrier)
        → (resolve_if_drained o (record d { active = left d id })).pending ≡ d.pending
    of none = refl
    of (some b) = refl

release-Shape : (d : Drain) (id : ℕ) (ph : Phase) → Shape ph d → Shape ph (release id d)
release-Shape d id open_phase sh = open_phase_release d id sh
release-Shape d id draining sh = release-Fenced d id sh
release-Shape d id closed_phase (fenced, empty) =
    (release-Fenced d id fenced, release_pending d id ∙ empty)

pub release-IsSound : (d : Drain) (id : ℕ) → IsSound d → IsSound (release id d)
release-IsSound d id s = record {
  shape =
      subst (λ t. Shape t (release id d)) (sym (release_phase d id))
        (release-Shape d id d.phase s.shape);
}

start_flag : (c : Bool) → (if c then false else true) ≡ not c
start_flag c = ground arith

pub start_drain-Fenced :
    (reason : String) (d : Drain) → BelongTo d.epoch d.active → Fenced (start_drain reason d)
unfolding start_drain resolve_if_drained
start_drain-Fenced reason d all =
    (_, refl, omega arith, all, start_flag (has_active d.epoch d.active))

start_drain_phase : (reason : String) (d : Drain) → (start_drain reason d).phase ≡ draining
unfolding start_drain resolve_if_drained
start_drain_phase reason d = refl

pub same-IsSound : (d : Drain) (ph : Phase) → d.phase ≡ ph → Shape ph d → IsSound d
same-IsSound d ph e sh = record { shape = subst (λ t. Shape t d) (sym e) sh }

begin_with-IsSound :
    (o : Option Barrier) (reason : String) (d : Drain)
    → (o ≡ none → BelongTo d.epoch d.active)
    → IsSound d
    → IsSound (begin_with o reason d).1
unfolding begin_with start_drain resolve_if_drained
begin_with-IsSound none reason d all s = record { shape = start_drain-Fenced reason d (all refl) }
begin_with-IsSound (some b) reason d all s = s

pub begin-IsSound :
    (reason : String) (d : Drain) (ph : Phase)
    → d.phase ≡ ph
    → Shape ph d
    → IsSound (begin_in ph reason d).1
unfolding begin_in
begin-IsSound reason d open_phase e sh =
    begin_with-IsSound d.barrier reason d (λ _. sh.1) (same-IsSound d open_phase e sh)
begin-IsSound reason d draining e (b, known, follows, all, flagged) =
    begin_with-IsSound d.barrier reason d (λ p. absurd (no_barrier p))
      (same-IsSound d draining e (b, known, follows, all, flagged))
  where
    no_barrier : d.barrier ≡ none → ⊥
    no_barrier p = ground arith
begin-IsSound reason d closed_phase e sh = same-IsSound d closed_phase e sh
