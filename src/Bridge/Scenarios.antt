-- ===== src/Bridge/Scenarios.antt =====
-- The fuse, the barrier and the backoff of packages/codex-bridge on concrete calls.
use ayanami_agent_hub.Base.{
  ◌+◌, ◌-◌, ◌*◌, ◌/◌, min, max, ◌≡◌, refl, true, false, [], ◌∷◌, some, arith, if◌then◌else◌,
}
use ayanami_agent_hub.Bridge.Fuse.{
  Fuse, Identity, ProbeCommand, recovering, fuse_open, half_open, closed, recovered, still_open,
  new_fuse, returned, required, is_valid, identity_eq, same_command, stop_if,
}
use ayanami_agent_hub.Bridge.Fuse.Recovery.{
  begin_automatic_recovery, record_failure_of, record_automatic_failure, count_failure, open_fuse,
}
use ayanami_agent_hub.Bridge.Fuse.Probe.{
  probe, binds, utf16_length, get_completed, start_probe, join_probe, answer_probe, settled,
  finish_command, finish_probe, result_of, replayed,
}
use ayanami_agent_hub.Bridge.Fuse.Steps.{Call, apply, start, step}
use ayanami_agent_hub.Bridge.Fuse.Invariant.{IsSound}
use ayanami_agent_hub.Bridge.Fuse.Sound.{reached_fuse-IsSound}
use ayanami_agent_hub.Bridge.Fuse.Trips.{fail_all, fuse_opens, finish_probe-probe}
use ayanami_agent_hub.Bridge.Drain.{Drain, heartbeat, queue_drain}
use ayanami_agent_hub.Bridge.Drain.{
  enter, admit_in, admit, resume_from, resolve_if_drained, release, start_drain, begin_with,
  begin_in, begin_drain, reopen_in, reopen_with, reopen, new_drain,
}
use ayanami_agent_hub.Base.{none}
use ayanami_agent_hub.Bridge.Backoff.{
  Backoff, reset, new_backoff, next_delay, next_delay_lem, nominal, least, greatest,
}
use ayanami_agent_hub.Bridge.Drain.Steps as DrainSteps
use ayanami_agent_hub.Bridge.Drain.Steps.{reached_drain-IsSound}
use ayanami_agent_hub.Bridge.Drain.Invariant as DrainInvariant

abbrev identity : Identity
identity = record {
  project_id = "prj_1";
  hub_session_id = "ses_1";
  thread_id = "t";
  lineage_id = "lin_1";
  incarnation = 1;
  launcher_run_id = "run_1";
  bundle_id = "stb_1";
}

abbrev command : ProbeCommand
command = record {
  schema_version = 1;
  kind = "CODEX_APP_SERVER_RECOVERY_PROBE";
  command_id = "c1";
  command_generation = 1;
  fuse_generation = 1;
  identity = identity;
}

fuse_calls : Unit {0}
unfolding apply begin_automatic_recovery record_failure_of record_automatic_failure probe
    start_probe join_probe answer_probe settled finish_command finish_probe is_valid identity_eq
    same_command stop_if binds utf16_length get_completed fail_all
fuse_calls = tt

abbrev in_recovery : Fuse
in_recovery = apply (Call.begin_recovery (some 4) identity) (new_fuse 2)

abbrev opened : Fuse
opened = apply (Call.fail_attempt 2) (apply (Call.fail_attempt 1) in_recovery)

abbrev probing : Fuse
probing = apply (Call.ask_probe command) opened

-- The calls really lead there.
is_probing :
    (in_recovery.state ≡ recovering) × (opened.state ≡ fuse_open) × (probing.state ≡ half_open)
unfolding fuse_calls
is_probing = (refl, refl, refl)

-- A probe that succeeds closes the fuse.
is_recovered : (apply (Call.settle 9 true) probing).state ≡ closed
unfolding fuse_calls
is_recovered = refl

reached_fuse-IsSound_example : IsSound probing
reached_fuse-IsSound_example = reached_fuse-IsSound 2 probing (omega arith) (
    step
      (step (step (step start (Call.begin_recovery (some 4) identity)) (Call.fail_attempt 1))
        (Call.fail_attempt 2))
      (Call.ask_probe command))

fuse_opens_example :
    let g = fail_all (1 ∷ []) in_recovery in
    (g.state ≡ recovering)
    × ((record_automatic_failure 2 g).0
        ≡ returned (some (required 2 identity (open_fuse (count_failure g)))))
    × ((record_automatic_failure 2 g).1.state ≡ fuse_open)
    × ((record_automatic_failure 2 g).1.fuse_generation ≡ 1)
unfolding fuse_calls
fuse_opens_example = fuse_opens identity (1 ∷ []) 2 in_recovery refl refl refl refl

finish_probe-probe_example :
    let f' = finish_probe 9 false probing.in_flight_probe probing in
    probe command f'
    ≡ (replayed (result_of 9 (if false then recovered else still_open) command), f')
unfolding fuse_calls
finish_probe-probe_example = finish_probe-probe 9 false command probing refl refl

-- A heartbeat is admitted, a drain begins, queued work waits, the heartbeat ends, admission opens again
-- and lets the work in.
abbrev waiting : Drain
waiting = DrainSteps.apply (DrainSteps.ask queue_drain) (
    DrainSteps.apply (DrainSteps.drain_for "rotation")
      (DrainSteps.apply (DrainSteps.ask heartbeat) new_drain))

abbrev resumed : Drain
resumed =
    DrainSteps.apply DrainSteps.resume (
      DrainSteps.apply (DrainSteps.open_again 1)
        (DrainSteps.apply (DrainSteps.done_with 1) waiting))

-- The work is in, in the second epoch.
is_resumed : resumed.active ≡ record { epoch = 2; id = 2; kind = queue_drain } ∷ []
unfolding DrainSteps.apply enter admit_in admit resume_from resolve_if_drained release start_drain
    begin_with begin_in begin_drain reopen_in reopen_with reopen
is_resumed = refl

reached_drain-IsSound_example : DrainInvariant.IsSound waiting
reached_drain-IsSound_example = reached_drain-IsSound waiting (
    DrainSteps.step
      (DrainSteps.step (DrainSteps.step DrainSteps.start (DrainSteps.ask heartbeat))
        (DrainSteps.drain_for "rotation"))
      (DrainSteps.ask queue_drain))

-- With the default options, and neutral and large random values.
abbrev backoff : Backoff
backoff = new_backoff none none none

next_delay_lem_example :
    ((next_delay none backoff).0 ≡ max 1 250)
    × ((next_delay (some least) backoff).0
        ≡ min 5000 (max 1 ((2 * (250 * (5 - 1)) + 5 * 1) / (2 * (5 * 1)))))
    × ((next_delay (some greatest) backoff).0
        ≡ min 5000 (max 1 ((2 * (250 * (5 + 1)) + 5 * 1) / (2 * (5 * 1)))))
    × (nominal (next_delay none backoff).1 ≡ min 5000 (2 * 250))
    × (nominal (reset backoff) ≡ min 5000 250)
unfolding new_backoff nominal
next_delay_lem_example =
    next_delay_lem backoff (omega arith) (omega arith) (omega arith) (omega arith)

-- The second delay, with a large random value.
second_delay : (next_delay (some greatest) (next_delay none backoff).1).0 ≡ 600
unfolding new_backoff next_delay
second_delay = refl

-- A connection brings the first delay back.
delay_after_reset : (next_delay none (reset (next_delay none backoff).1)).0 ≡ 250
unfolding new_backoff next_delay reset
delay_after_reset = refl
