-- ===== src/Bridge/Fuse/Invariant.antt =====
-- packages/codex-bridge/src/app-server-recovery-fuse.ts: what the fields of the fuse have to do with
-- its state.
use ayanami_agent_hub.Base.{
  ℕ, ◌≤◌, ◌<◌, ◌≡◌, refl, sym, subst, Bool, true, false, Option, none, some, not, ◌||◌, arith,
}
use ayanami_agent_hub.Bridge.Fuse.{
  Fuse, FuseState, closed, recovering, fuse_open, half_open, Identity, RecoveryRequired,
  ProbeCommand, is_closed, is_recovering, is_open, required, issue, stop_if,
}
use ayanami_agent_hub.Bridge.Fuse.Recovery.{
  begin_automatic_recovery, count_failure, record_failure_of, record_automatic_success,
  restore_configured_offline, restore_ready_identity, rebind_offline_identity,
}

-- The supervisor has been asked for help, for the present generation and identity.
abbrev pub IsAnnounced : Fuse → Type 0
IsAnnounced f =
    (r : RecoveryRequired) × (f.recovery_required ≡ some r)
    × (r.fuse_generation ≡ f.fuse_generation)
    × (f.identity ≡ some r.identity)
    × (f.max_automatic_attempts ≤ f.failed_attempts)

abbrev pub Shape : FuseState → Fuse → Type 0
Shape closed f = (f.failed_attempts ≡ 0) × (f.recovery_required ≡ none) × (f.in_flight_probe ≡ none)
Shape recovering f =
    (f.failed_attempts < f.max_automatic_attempts)
    × ((i : Identity) × (f.identity ≡ some i))
    × (f.in_flight_probe ≡ none)
Shape fuse_open f = IsAnnounced f × (f.in_flight_probe ≡ none)
Shape half_open f =
    IsAnnounced f
    × ((c : ProbeCommand) × (f.in_flight_probe ≡ some c)
        × (c.fuse_generation ≡ f.fuse_generation)
        × (c.command_generation ≡ f.last_command_generation))

pub record IsSound (f : Fuse) : Type 0 where
  pub positive : 0 < f.max_automatic_attempts
  pub shape : Shape f.state f

module _ (f : Fuse) where
  closed-Shape : (s : FuseState) → is_closed s ≡ true → Shape s f → Shape closed f
  closed-Shape closed e sh = sh
  closed-Shape recovering e sh = cc
  closed-Shape fuse_open e sh = cc
  closed-Shape half_open e sh = cc

  recovering-Shape : (s : FuseState) → is_recovering s ≡ true → Shape s f → Shape recovering f
  recovering-Shape closed e sh = cc
  recovering-Shape recovering e sh = sh
  recovering-Shape fuse_open e sh = cc
  recovering-Shape half_open e sh = cc

  pub open-Shape : (s : FuseState) → is_open s ≡ true → Shape s f → Shape fuse_open f
  open-Shape closed e sh = cc
  open-Shape recovering e sh = cc
  open-Shape fuse_open e sh = sh
  open-Shape half_open e sh = cc

pub not-false : (c : Bool) → not c ≡ false → c ≡ true
not-false c h = ground arith

-- What a call leaves is sound.
pub record Leaves {A : Type 0} (x : A × Fuse) : Type 0 where
  pub sound : IsSound (x.1)

pub stop_if-Leaves :
    {A : Type 0} (c : Bool) (a : A) (f : Fuse) (rest : A × Fuse)
    → (c ≡ true → IsSound f)
    → (c ≡ false → Leaves rest)
    → Leaves (stop_if c a f rest)
unfolding stop_if
stop_if-Leaves true a f rest p q = record { sound = p refl }
stop_if-Leaves false a f rest p q = q refl

pub begin-Leaves :
    (crashed : Option ℕ) (i : Identity) (f : Fuse)
    → IsSound f
    → Leaves (begin_automatic_recovery crashed i f)
unfolding begin_automatic_recovery
begin-Leaves crashed i f s =
    stop_if-Leaves _ _ _ _ (λ _. s)
      λ valid.
        stop_if-Leaves _ _ _ _ (λ _. s)
          λ fresh.
            stop_if-Leaves _ _ _ _ (λ _. s)
              λ free.
                let (_, _, idle) = closed-Shape f f.state (not-false _ free) s.shape in
                record {
                  sound = record { positive = s.positive; shape = (s.positive, (i, refl), idle) };
                }

recovering_state : (t : FuseState) → is_recovering t ≡ true → t ≡ recovering
recovering_state t e = ground arith

pub record_failure-Leaves :
    (now : ℕ) (o : Option Identity) (f : Fuse)
    → f.identity ≡ o
    → IsSound f
    → Leaves (record_failure_of now o f)
unfolding record_failure_of
record_failure-Leaves now none f e s = record { sound = s }
record_failure-Leaves now (some i) f e s =
    stop_if-Leaves _ _ _ _ (λ _. s)
      λ busy.
        let is = not-false _ busy in
        let (few, named, idle) = recovering-Shape f f.state is s.shape in
        stop_if-Leaves _ _ _ _
          (λ below. record {
            positive = s.positive;
            shape =
                subst (λ t. Shape t (count_failure f)) (sym (recovering_state f.state is))
                  (ground arith, named, idle);
          })
          (λ above. record {
            sound = record {
              positive = s.positive;
              shape = ((_, refl, refl, e, ground arith), idle);
            };
          })

pub success-Leaves : (f : Fuse) → IsSound f → Leaves (record_automatic_success f)
unfolding record_automatic_success
success-Leaves f s =
    stop_if-Leaves _ _ _ _ (λ _. s)
      λ busy.
        let (_, _, idle) = recovering-Shape f f.state (not-false _ busy) s.shape in
        record { sound = record { positive = s.positive; shape = (refl, refl, idle) } }

pub offline-Leaves :
    (now : ℕ) (i : Identity) (generation : ℕ) (f : Fuse)
    → IsSound f
    → Leaves (restore_configured_offline now i generation f)
unfolding restore_configured_offline
offline-Leaves now i generation f s =
    stop_if-Leaves _ _ _ _ (λ _. s)
      λ valid.
        stop_if-Leaves _ _ _ _ (λ _. s)
          λ positive.
            stop_if-Leaves _ _ _ _ (λ _. s)
              λ free.
                let (_, _, idle) = closed-Shape f f.state (not-false _ free) s.shape in
                record {
                  sound = record {
                    positive = s.positive;
                    shape = ((_, refl, refl, refl, omega arith), idle);
                  };
                }

ready_free : (c d : Bool) → (not c || d) ≡ false → c ≡ true
ready_free c d h = ground arith

closed_state : (t : FuseState) → is_closed t ≡ true → t ≡ closed
closed_state t e = ground arith

pub ready-Leaves :
    (i : Identity) (generation : ℕ) (f : Fuse)
    → IsSound f
    → Leaves (restore_ready_identity i generation f)
unfolding restore_ready_identity
ready-Leaves i generation f s =
    stop_if-Leaves _ _ _ _ (λ _. s)
      λ valid.
        stop_if-Leaves _ _ _ _ (λ _. s)
          λ free.
            let is = ready_free (is_closed f.state) _ free in
            record {
              sound = record {
                positive = s.positive;
                shape =
                    subst
                      (λ t. Shape t (record f { identity = some i; fuse_generation = generation }))
                      (sym (closed_state f.state is)) (closed-Shape f f.state is s.shape);
              };
            }

open_state : (t : FuseState) → is_open t ≡ true → t ≡ fuse_open
open_state t e = ground arith

pub rebind-Leaves :
    (now : ℕ) (i : Identity) (f : Fuse) → IsSound f → Leaves (rebind_offline_identity now i f)
unfolding rebind_offline_identity
rebind-Leaves now i f s =
    stop_if-Leaves _ _ _ _ (λ _. s)
      λ valid.
        stop_if-Leaves _ _ _ _ (λ _. s)
          λ opened.
            let is = not-false _ opened in
            let ((_, _, _, _, tried), idle) = open-Shape f f.state is s.shape in
            let bound : Fuse = record f { identity = some i; last_command_generation = 0 } in
            record {
              sound = record {
                positive = s.positive;
                shape =
                    subst (λ t. Shape t (issue now i bound).1) (sym (open_state f.state is))
                      ((required now i bound, refl, refl, refl, tried), idle);
              };
            }
