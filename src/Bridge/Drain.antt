-- ===== src/Bridge/Drain.antt =====
-- packages/codex-bridge/src/credential-cutover-drain.ts: the barrier between work that a model sees
-- and a change of its credentials. `active` is the Map of epochs to Maps of admissions, flat. A caller
-- of `admit` who has to wait is in `pending`; `reopen` lets him run his loop again (`woken`), and
-- `close` throws at him. `drained` says whether the barrier's promise has been fulfilled; two barriers
-- are the same object when they are for the same epoch, since each new one is for a new epoch.
pub mod Invariant
pub mod Steps
use text.Mathlib.Text.{◌==◌ as str_eq}
use ayanami_agent_hub.Base.{
  ℕ, suc, ◌+◌, Bool, true, false, String, List, [], ◌∷◌, ◌++◌, Option, none, some, not, ◌&&◌, ◌==◌,
  any, keep, if◌then◌else◌,
}

pub data AdmissionKind : Type 0 where
  direct_user_input message_surface queue_drain heartbeat : AdmissionKind

pub data Phase : Type 0 where
  open_phase draining closed_phase : Phase

pub record Admission : Type 0 where
  pub epoch : ℕ
  pub id : ℕ
  pub kind : AdmissionKind

pub record Barrier : Type 0 where
  pub epoch : ℕ
  pub reason : String
  pub drained : Bool

pub record Drain : Type 0 where
  pub phase : Phase
  pub epoch : ℕ
  pub next_admission_id : ℕ
  pub active : List Admission
  pub pending : List AdmissionKind
  pub woken : List AdmissionKind
  pub barrier : Option Barrier
  pub closed_reason : String

-- CredentialAdmissionClosedError, CredentialDrainConflictError and the plain errors of `reopen`.
pub data DrainError : Type 0 where
  admission_closed : String → DrainError
  drain_conflict : String → String → DrainError
  not_draining not_drained stale_barrier : DrainError

pub data Outcome (A : Type 0) : Type 0 where
  returned : A → Outcome A
  thrown : DrainError → Outcome A

-- What `admit` comes to: the caller is let in, or waits.
pub data Entry : Type 0 where
  admitted : Admission → Entry
  waits : Entry

abbrev pub new_drain : Drain
new_drain = record {
  phase = open_phase;
  epoch = 1;
  next_admission_id = 1;
  active = [];
  pending = [];
  woken = [];
  barrier = none;
  closed_reason = "Codex credential admission is permanently closed";
}

-- `active.get(epoch)?.size`
abbrev pub has_active : ℕ → List Admission → Bool
has_active epoch = any (λ a. a.epoch == epoch)

abbrev is_heartbeat : AdmissionKind → Bool
is_heartbeat heartbeat = true
is_heartbeat _ = false

abbrev has_active_non_heartbeat : Drain → Bool
has_active_non_heartbeat d = any (λ a. not (is_heartbeat a.kind)) d.active

unfoldable pub enter : AdmissionKind → Drain → Outcome Entry × Drain
enter kind d =
    let a : Admission = record { epoch = d.epoch; id = d.next_admission_id; kind = kind } in
    (
      returned (admitted a),
      record d { next_admission_id = d.next_admission_id + 1; active = d.active ++ a ∷ [] },
    )

unfoldable pub admit_in : Phase → AdmissionKind → Drain → Outcome Entry × Drain
unfolding enter
admit_in draining kind d = (returned waits, record d { pending = d.pending ++ kind ∷ [] })
admit_in closed_phase kind d = (thrown (admission_closed d.closed_reason), d)
admit_in open_phase kind d = enter kind d

unfoldable pub admit : AdmissionKind → Drain → Outcome Entry × Drain
unfolding admit_in
admit kind d = admit_in d.phase kind d

-- The first of the woken callers runs his loop again.
unfoldable pub resume_from : List AdmissionKind → Drain → Drain
resume_from [] d = d
resume_from (kind ∷ rest) d = (admit kind (record d { woken = rest })).1

-- resolveBarrierIfDrained
unfoldable pub resolve_if_drained : Option Barrier → Drain → Drain
resolve_if_drained none d = d
resolve_if_drained (some b) d = record d {
  barrier = some (record b { drained = if has_active b.epoch d.active then b.drained else true });
}

-- The `release` of an admission; a second call finds nothing to remove.
unfoldable pub release : ℕ → Drain → Drain
release id d =
    resolve_if_drained d.barrier (record d { active = keep (λ a. not (a.id == id)) d.active })

unfoldable pub start_drain : String → Drain → Drain
start_drain reason d =
    let b : Barrier = record { epoch = d.epoch; reason = reason; drained = false } in
    resolve_if_drained (some b)
      (record d { phase = draining; epoch = d.epoch + 1; barrier = some b })

unfoldable pub begin_with : Option Barrier → String → Drain → Outcome (Option Barrier) × Drain
begin_with (some b) reason d = (
  if str_eq b.reason reason then returned (some b) else thrown (drain_conflict b.reason reason),
  d,
)
begin_with none reason d = let d' = start_drain reason d in (returned d'.barrier, d')

unfoldable pub begin_in : Phase → String → Drain → Outcome (Option Barrier) × Drain
begin_in closed_phase reason d = (thrown (admission_closed d.closed_reason), d)
begin_in open_phase reason d = begin_with d.barrier reason d
begin_in draining reason d = begin_with d.barrier reason d

unfoldable pub begin_drain : String → Drain → Outcome (Option Barrier) × Drain
begin_drain reason d = begin_in d.phase reason d

abbrev pub opened : Drain → Drain
opened d = record d {
  barrier = none;
  phase = open_phase;
  woken = d.woken ++ d.pending;
  pending = [];
}

unfoldable pub reopen_in : Phase → Barrier → Drain → Outcome (Unit {0}) × Drain
reopen_in open_phase b d = (thrown not_draining, d)
reopen_in closed_phase b d = (thrown not_draining, d)
reopen_in draining b d =
    if has_active b.epoch d.active then (thrown not_drained, d) else (returned tt, opened d)

-- `barrier` is the one that the caller holds.
unfoldable pub reopen_with : Option Barrier → ℕ → Drain → Outcome (Unit {0}) × Drain
reopen_with none epoch d = (thrown stale_barrier, d)
reopen_with (some b) epoch d =
    if not (b.epoch == epoch) then (thrown stale_barrier, d) else reopen_in d.phase b d

unfoldable pub reopen : ℕ → Drain → Outcome (Unit {0}) × Drain
reopen epoch d = reopen_with d.barrier epoch d

abbrev pub shut : String → Drain → Drain
shut reason d = record d { phase = closed_phase; closed_reason = reason; pending = [] }

unfoldable pub close_with : Option Barrier → String → Drain → Drain
close_with (some b) reason d = shut reason d
close_with none reason d = shut reason (start_drain reason d)

unfoldable pub close_in : Phase → String → Drain → Drain
close_in closed_phase reason d = d
close_in open_phase reason d = close_with d.barrier reason d
close_in draining reason d = close_with d.barrier reason d

-- The answer is the barrier of the state after.
unfoldable pub close : String → Drain → Drain
close reason d = close_in d.phase reason d
