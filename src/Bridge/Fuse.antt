-- ===== src/Bridge/Fuse.antt =====
-- packages/codex-bridge/src/app-server-recovery-fuse.ts: who may restart the app-server. A call is a
-- function of the fuse into what it returns or throws and the next fuse. `probe` runs until it waits
-- for the adapter, and `finish_probe` is what follows, by whether the adapter's promise was fulfilled.
-- Instants are natural numbers; safe integers are natural numbers up to 2 ^ 53 - 1.
pub mod Recovery
pub mod Probe
pub mod Steps
pub mod Invariant
pub mod Sound
pub mod Trips
use text.Mathlib.Text.{◌==◌ as str_eq, starts_with}
use Prim.Native.String
use Prim.Native.Char.{code}
use ayanami_agent_hub.Base.{
  ℕ, ◌+◌, Bool, true, false, String, List, [], ◌∷◌, Option, none, some, not, ◌&&◌, ◌||◌, ◌==◌, leb,
  ltb, opt_eq, is_some, if◌then◌else◌,
}

pub data FuseState : Type 0 where
  closed recovering fuse_open half_open : FuseState

data ModelTransportState : Type 0 where
  model_ready model_recovering model_configured_offline model_half_open : ModelTransportState

pub record Identity : Type 0 where
  pub project_id : String
  pub hub_session_id : String
  pub thread_id : String
  pub lineage_id : String
  pub incarnation : ℕ
  pub launcher_run_id : String
  pub bundle_id : String

pub record RecoveryRequired : Type 0 where
  pub fuse_generation : ℕ
  pub failed_attempts : ℕ
  pub crashed_generation : Option ℕ
  pub issued_at : ℕ
  pub identity : Identity

-- `schema_version` and `kind` are what a message claims.
pub record ProbeCommand : Type 0 where
  pub schema_version : ℕ
  pub kind : String
  pub command_id : String
  pub command_generation : ℕ
  pub fuse_generation : ℕ
  pub identity : Identity

pub data ProbeKind : Type 0 where
  recovered still_open : ProbeKind

pub record ProbeResult : Type 0 where
  pub kind : ProbeKind
  pub command_id : String
  pub command_generation : ℕ
  pub fuse_generation : ℕ
  pub completed_at : ℕ
  pub identity : Identity

pub data FuseError : Type 0 where
  state_invalid probe_stale probe_in_progress replay_mismatch : FuseError

-- The fingerprint of a command is the JSON of all its fields, so it stands for the command.
pub record CompletedProbe : Type 0 where
  pub command : ProbeCommand
  pub result : ProbeResult

-- `completed_probes` is the Map, `in_flight_probe` the command whose adapter is running.
pub record Fuse : Type 0 where
  pub max_automatic_attempts : ℕ
  pub state : FuseState
  pub fuse_generation : ℕ
  pub failed_attempts : ℕ
  pub crashed_generation : Option ℕ
  pub identity : Option Identity
  pub recovery_required : Option RecoveryRequired
  pub last_command_generation : ℕ
  pub completed_probes : List CompletedProbe
  pub in_flight_probe : Option ProbeCommand

pub data Outcome (A : Type 0) : Type 0 where
  returned : A → Outcome A
  thrown : FuseError → Outcome A

-- An early end of a call, which returns or throws `b` and leaves the fuse as it is.
unfoldable pub stop_if : {B : Type 0} → Bool → B → Fuse → B × Fuse → B × Fuse
stop_if true b f rest = (b, f)
stop_if false b f rest = rest

-- The constructor, where it does not throw.
abbrev pub new_fuse : ℕ → Fuse
new_fuse attempts = record {
  max_automatic_attempts = attempts;
  state = closed;
  fuse_generation = 0;
  failed_attempts = 0;
  crashed_generation = none;
  identity = none;
  recovery_required = none;
  last_command_generation = 0;
  completed_probes = [];
  in_flight_probe = none;
}

-- Number.isSafeInteger and `> 0`, of a natural number.
abbrev pub is_positive : ℕ → Bool
is_positive n = ltb 0 n && leb n 9007199254740991

unfoldable pub is_valid : Identity → Bool
is_valid i =
    starts_with i.project_id "prj_"
    && (starts_with i.hub_session_id "ses_"
        && (not (str_eq i.thread_id "")
            && (starts_with i.lineage_id "lin_"
                && (is_positive i.incarnation
                    && (starts_with i.launcher_run_id "run_" && starts_with i.bundle_id "stb_")))))

unfoldable pub identity_eq : Identity → Identity → Bool
identity_eq i j =
    str_eq i.project_id j.project_id
    && (str_eq i.hub_session_id j.hub_session_id
        && (str_eq i.thread_id j.thread_id
            && (str_eq i.lineage_id j.lineage_id
                && (i.incarnation == j.incarnation
                    && (str_eq i.launcher_run_id j.launcher_run_id
                        && str_eq i.bundle_id j.bundle_id)))))

-- sameIdentity
abbrev pub same_identity : Option Identity → Identity → Bool
same_identity none right = false
same_identity (some left) right = identity_eq left right

-- `===` on two fingerprints.
unfoldable pub same_command : ProbeCommand → ProbeCommand → Bool
same_command c d =
    c.schema_version == d.schema_version
    && (str_eq c.kind d.kind
        && (str_eq c.command_id d.command_id
            && (c.command_generation == d.command_generation
                && (c.fuse_generation == d.fuse_generation && identity_eq c.identity d.identity))))

abbrev pub is_closed : FuseState → Bool
is_closed closed = true
is_closed _ = false

abbrev pub is_recovering : FuseState → Bool
is_recovering recovering = true
is_recovering _ = false

abbrev pub is_open : FuseState → Bool
is_open fuse_open = true
is_open _ = false

-- The model transport's state, as `status` shows it.
abbrev model_transport_state : FuseState → ModelTransportState
model_transport_state closed = model_ready
model_transport_state recovering = model_recovering
model_transport_state half_open = model_half_open
model_transport_state fuse_open = model_configured_offline

abbrev blocks_model_admission : Fuse → Bool
blocks_model_admission f = elim f.state [ fuse_open ↦ true | half_open ↦ true | _ ↦ false ]

-- closeFuse
abbrev pub close_fuse : Fuse → Fuse
close_fuse f = record f {
  state = closed;
  failed_attempts = 0;
  crashed_generation = none;
  recovery_required = none;
}

-- createRecoveryRequired, for an identity that is there.
abbrev pub required : ℕ → Identity → Fuse → RecoveryRequired
required now i f = record {
  fuse_generation = f.fuse_generation;
  failed_attempts = f.failed_attempts;
  crashed_generation = f.crashed_generation;
  issued_at = now;
  identity = i;
}

abbrev pub issue : ℕ → Identity → Fuse → Outcome RecoveryRequired × Fuse
issue now i f =
    (returned (required now i f), record f { recovery_required = some (required now i f) })
