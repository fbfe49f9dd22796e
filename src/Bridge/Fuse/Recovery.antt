-- ===== src/Bridge/Fuse/Recovery.antt =====
-- packages/codex-bridge/src/app-server-recovery-fuse.ts: automatic recovery, and what is restored after
-- a restart of the process.
use ayanami_agent_hub.Base.{
  ℕ, ◌+◌, Bool, true, false, Option, none, some, not, ◌&&◌, ◌||◌, ltb, leb, opt_eq,
}
use ayanami_agent_hub.Bridge.Fuse.{
  Fuse, Identity, RecoveryRequired, Outcome, stop_if, returned, thrown, state_invalid, probe_stale,
  recovering, fuse_open, is_valid, is_positive, is_closed, is_recovering, is_open, same_identity,
  close_fuse, required, issue,
}

-- A call of beginAutomaticRecovery is accepted or a duplicate.
unfoldable pub begin_automatic_recovery : Option ℕ → Identity → Fuse → Outcome Bool × Fuse
begin_automatic_recovery crashed i f = stop_if (not (is_valid i)) (thrown probe_stale) f (
    stop_if
      (not (is_closed f.state)
        && (opt_eq f.crashed_generation crashed && same_identity f.identity i))
      (returned false) f
      (stop_if (not (is_closed f.state)) (thrown state_invalid) f (
        returned true,
        record f {
          state = recovering;
          identity = some i;
          crashed_generation = crashed;
          failed_attempts = 0;
          recovery_required = none;
        },
      )))

abbrev pub count_failure : Fuse → Fuse
count_failure f = record f { failed_attempts = f.failed_attempts + 1 }

-- What opens the fuse for the supervisor.
abbrev pub open_fuse : Fuse → Fuse
open_fuse f = record f {
  state = fuse_open;
  fuse_generation = f.fuse_generation + 1;
  last_command_generation = 0;
}

-- The attempt that reaches the maximum opens the fuse.
unfoldable pub record_failure_of :
    ℕ → Option Identity → Fuse → Outcome (Option RecoveryRequired) × Fuse
record_failure_of now none f = (thrown state_invalid, f)
record_failure_of now (some i) f =
    let failed = count_failure f in
    let opened = open_fuse failed in
    stop_if (not (is_recovering f.state)) (thrown state_invalid) f (
      stop_if (ltb failed.failed_attempts f.max_automatic_attempts) (returned none) failed
        (returned (some (required now i opened)), (issue now i opened).1))

unfoldable pub record_automatic_failure : ℕ → Fuse → Outcome (Option RecoveryRequired) × Fuse
unfolding record_failure_of
record_automatic_failure now f = record_failure_of now f.identity f

unfoldable pub record_automatic_success : Fuse → Outcome (Unit {0}) × Fuse
record_automatic_success f =
    stop_if (not (is_recovering f.state)) (thrown state_invalid) f (returned tt, close_fuse f)

abbrev pub restored : Identity → ℕ → Fuse → Fuse
restored i generation f = record f {
  identity = some i;
  crashed_generation = none;
  failed_attempts = f.max_automatic_attempts;
  state = fuse_open;
  fuse_generation = generation;
  last_command_generation = 0;
}

unfoldable pub restore_configured_offline :
    ℕ → Identity → ℕ → Fuse → Outcome RecoveryRequired × Fuse
restore_configured_offline now i generation f = stop_if (not (is_valid i)) (thrown probe_stale) f (
    stop_if (not (is_positive generation)) (thrown state_invalid) f (
      stop_if (not (is_closed f.state)) (thrown state_invalid) f
        (issue now i (restored i generation f))))

-- The generation is a safe integer, and 0 is one.
unfoldable pub restore_ready_identity : Identity → ℕ → Fuse → Outcome (Unit {0}) × Fuse
restore_ready_identity i generation f = stop_if (not (is_valid i)) (thrown probe_stale) f (
    stop_if
      (not (is_closed f.state)
        || (not (leb generation 9007199254740991) || ltb generation f.fuse_generation))
      (thrown state_invalid) f
      (returned tt, record f { identity = some i; fuse_generation = generation }))

unfoldable pub rebind_offline_identity : ℕ → Identity → Fuse → Outcome RecoveryRequired × Fuse
rebind_offline_identity now i f = stop_if (not (is_valid i)) (thrown probe_stale) f (
    stop_if (not (is_open f.state)) (thrown state_invalid) f
      (issue now i (record f { identity = some i; last_command_generation = 0 })))
