-- ===== src/Bridge/Fuse/Steps.antt =====
-- packages/codex-bridge/src/app-server-recovery-fuse.ts: every state that calls of the fuse lead to.
use ayanami_agent_hub.Base.{ℕ, Bool, Option}
use ayanami_agent_hub.Bridge.Fuse.{Fuse, Identity, ProbeCommand, new_fuse}
use ayanami_agent_hub.Bridge.Fuse.Recovery.{
  begin_automatic_recovery, record_automatic_failure, record_automatic_success,
  restore_configured_offline, restore_ready_identity, rebind_offline_identity,
}
use ayanami_agent_hub.Bridge.Fuse.Probe.{probe, finish_probe}

-- A call, with its time; `settle` is the end of the running adapter.
pub data Call : Type 0 where
  begin_recovery : Option ℕ → Identity → Call
  fail_attempt : ℕ → Call
  succeed_attempt : Call
  restore_offline : ℕ → Identity → ℕ → Call
  restore_ready : Identity → ℕ → Call
  rebind : ℕ → Identity → Call
  ask_probe : ProbeCommand → Call
  settle : ℕ → Bool → Call

unfoldable pub apply : Call → Fuse → Fuse
apply (begin_recovery crashed i) f = (begin_automatic_recovery crashed i f).1
apply (fail_attempt now) f = (record_automatic_failure now f).1
apply succeed_attempt f = (record_automatic_success f).1
apply (restore_offline now i generation) f = (restore_configured_offline now i generation f).1
apply (restore_ready i generation) f = (restore_ready_identity i generation f).1
apply (rebind now i) f = (rebind_offline_identity now i f).1
apply (ask_probe c) f = (probe c f).1
apply (settle now fulfilled) f = finish_probe now fulfilled f.in_flight_probe f

-- Calls in any order, those that throw among them, and adapters that end at any time.
pub data Reachable (attempts : ℕ) : Fuse → Type 0 where
  start : Reachable attempts (new_fuse attempts)
  step : {f : Fuse} → Reachable attempts f → (c : Call) → Reachable attempts (apply c f)
