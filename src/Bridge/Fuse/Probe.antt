-- ===== src/Bridge/Fuse/Probe.antt =====
-- packages/codex-bridge/src/app-server-recovery-fuse.ts, probe and runProbe: the one attempt that a
-- command of the supervisor allows while the fuse is open.
use text.Mathlib.Text.{◌==◌ as str_eq}
use Prim.Native.String.{◌∷◌ as ◌∷s◌}
use Prim.Native.Char.{code}
use ayanami_agent_hub.Base.{
  ℕ, ◌+◌, Bool, true, false, String, List, [], ◌∷◌, Option, none, some, not, ◌&&◌, ◌==◌, leb, ltb,
  if◌then◌else◌,
}
use ayanami_agent_hub.Bridge.Fuse.{
  Fuse, ProbeCommand, ProbeResult, ProbeKind, recovered, still_open, CompletedProbe, FuseError,
  state_invalid, probe_stale, probe_in_progress, replay_mismatch, fuse_open, half_open, is_valid,
  is_positive, is_open, same_identity, same_command, close_fuse, stop_if,
}

-- A text's `length`: its UTF-16 code units.
unfoldable pub utf16_length : String → ℕ
utf16_length String.[] = 0
utf16_length (c ∷s s) = (if ltb (code c) 65536 then 1 else 2) + utf16_length s

-- assertProbeCommand, but for the identity, which is checked first and throws the same.
unfoldable pub binds : Fuse → ProbeCommand → Bool
binds f c =
    is_valid c.identity
    && (c.schema_version == 1
        && (str_eq c.kind "CODEX_APP_SERVER_RECOVERY_PROBE"
            && (ltb 0 (utf16_length c.command_id)
                && (leb (utf16_length c.command_id) 200
                    && (is_positive c.command_generation
                        && (is_positive c.fuse_generation
                            && (c.fuse_generation == f.fuse_generation
                                && same_identity f.identity c.identity)))))))

-- `completedProbes.get(commandId)`
unfoldable pub get_completed : String → List CompletedProbe → Option CompletedProbe
get_completed id [] = none
get_completed id (p ∷ ps) = if str_eq p.command.command_id id then some p else get_completed id ps

-- How `probe` goes on: it throws, answers with a stored result, waits for the adapter of the same
-- command, or calls the adapter.
pub data ProbeStart : Type 0 where
  refused : FuseError → ProbeStart
  replayed : ProbeResult → ProbeStart
  joined : ProbeStart
  started : ProbeStart

unfoldable pub start_probe : ProbeCommand → Fuse → ProbeStart × Fuse
start_probe c f = stop_if (not (is_open f.state)) (refused state_invalid) f (
    stop_if (leb c.command_generation f.last_command_generation) (refused probe_stale) f (
      started,
      record f {
        last_command_generation = c.command_generation;
        state = half_open;
        in_flight_probe = some c;
      },
    ))

unfoldable pub join_probe : ProbeCommand → Option ProbeCommand → Fuse → ProbeStart × Fuse
unfolding start_probe
join_probe c (some running) f =
    stop_if (str_eq running.command_id c.command_id && same_command running c) joined f
      (refused probe_in_progress, f)
join_probe c none f = start_probe c f

unfoldable pub answer_probe : ProbeCommand → Option CompletedProbe → Fuse → ProbeStart × Fuse
unfolding join_probe
answer_probe c (some completed) f =
    stop_if (not (same_command completed.command c)) (refused replay_mismatch) f
      (replayed completed.result, f)
answer_probe c none f = join_probe c f.in_flight_probe f

unfoldable pub probe : ProbeCommand → Fuse → ProbeStart × Fuse
unfolding answer_probe
probe c f =
    stop_if (not (binds f c)) (refused probe_stale) f
      (answer_probe c (get_completed c.command_id f.completed_probes) f)

abbrev pub result_of : ℕ → ProbeKind → ProbeCommand → ProbeResult
result_of now kind c = record {
  kind = kind;
  command_id = c.command_id;
  command_generation = c.command_generation;
  fuse_generation = c.fuse_generation;
  completed_at = now;
  identity = c.identity;
}

-- The fuse when the adapter is done.
unfoldable pub settled : Bool → Fuse → Fuse
settled true f = close_fuse f
settled false f = record f { state = fuse_open }

-- The rest of runProbe. A command id that is in the Map already would be replaced, but no such command
-- is started.
unfoldable pub finish_command : ℕ → Bool → ProbeCommand → Fuse → Fuse
unfolding settled
finish_command now fulfilled c f = record (settled fulfilled f) {
  completed_probes =
      record { command = c; result = result_of now (if fulfilled then recovered else still_open) c }
      ∷ f.completed_probes;
  in_flight_probe = none;
}

-- The adapter of the running probe is done.
unfoldable pub finish_probe : ℕ → Bool → Option ProbeCommand → Fuse → Fuse
unfolding finish_command
finish_probe now fulfilled none f = f
finish_probe now fulfilled (some c) f = finish_command now fulfilled c f
