-- ===== src/Bridge/Fuse/Trips.antt =====
-- packages/codex-bridge/src/app-server-recovery-fuse.ts: when the fuse opens, and that a command of
-- the supervisor calls the adapter once.
use text.Mathlib.TextPositions.{eq_refl}
use ayanami_agent_hub.Base.{
  ℕ, suc, ◌+◌, ◌<◌, ◌≡◌, refl, sym, ap, subst, ◌∙◌, Bool, true, false, List, [], ◌∷◌, Option, none,
  some, arith, length, ==_refl, if◌then◌else◌,
}
use ayanami_agent_hub.Bridge.Fuse.{
  Fuse, recovering, fuse_open, Identity, ProbeCommand, recovered, still_open, RecoveryRequired,
  Outcome, returned, identity_eq, same_command, required, stop_if,
}
use ayanami_agent_hub.Bridge.Fuse.Recovery.{
  count_failure, open_fuse, record_failure_of, record_automatic_failure,
}
use ayanami_agent_hub.Bridge.Fuse.Probe.{
  binds, get_completed, replayed, answer_probe, probe, settled, finish_command, finish_probe,
  result_of,
}

-- Failures at the given times.
unfoldable pub fail_all : List ℕ → Fuse → Fuse
fail_all [] f = f
fail_all (now ∷ later) f = fail_all later (record_automatic_failure now f).1

abbrev counted : ℕ → Fuse → Fuse
counted n f = record f { failed_attempts = f.failed_attempts + n }

module _ (i : Identity) where
  one_failure :
      (now : ℕ) (f : Fuse)
      → f.state ≡ recovering
      → f.identity ≡ some i
      → f.failed_attempts + 1 < f.max_automatic_attempts
      → record_automatic_failure now f ≡ (returned none, count_failure f)
  unfolding record_automatic_failure record_failure_of stop_if
  one_failure now f s e h = ground arith

  last_failure :
      (now : ℕ) (f : Fuse)
      → f.state ≡ recovering
      → f.identity ≡ some i
      → f.failed_attempts + 1 ≡ f.max_automatic_attempts
      → record_automatic_failure now f ≡ (
        returned (some (required now i (open_fuse (count_failure f)))),
        record (open_fuse (count_failure f)) {
          recovery_required = some (required now i (open_fuse (count_failure f)));
        },
      )
  unfolding record_automatic_failure record_failure_of stop_if
  last_failure now f s e h = ground arith

  fails_below :
      (ts : List ℕ) (f : Fuse)
      → f.state ≡ recovering
      → f.identity ≡ some i
      → f.failed_attempts + length ts < f.max_automatic_attempts
      → fail_all ts f ≡ counted (length ts) f
  unfolding fail_all
  fails_below [] f s e h = λ j. record f { failed_attempts = plus_zero f.failed_attempts j }
    where
      plus_zero : (n : ℕ) → n ≡ n + 0
      plus_zero n = omega arith
  fails_below (t ∷ ts) f s e h =
      ap (λ (x : Outcome (Option RecoveryRequired) × Fuse). fail_all ts (x.1))
        (one_failure t f s e (omega arith))
      ∙ fails_below ts (count_failure f) s e (omega arith)
      ∙ (λ j. record f { failed_attempts = plus_suc f.failed_attempts (length ts) j })
    where
      plus_suc : (n m : ℕ) → n + 1 + m ≡ n + suc m
      plus_suc n m = omega arith

  -- A recovery of a known identity that has had no failure yet stays one through all failures but
  -- the last that it may have, and that opens the fuse: the generation grows by one, and the
  -- supervisor is asked for help with the new generation.
  pub fuse_opens :
      (ts : List ℕ) (now : ℕ) (f : Fuse)
      → f.state ≡ recovering
      → f.identity ≡ some i
      → f.failed_attempts ≡ 0
      → suc (length ts) ≡ f.max_automatic_attempts
      → let g = fail_all ts f in
        (g.state ≡ recovering)
        × ((record_automatic_failure now g).0
            ≡ returned (some (required now i (open_fuse (count_failure g)))))
        × ((record_automatic_failure now g).1.state ≡ fuse_open)
        × ((record_automatic_failure now g).1.fuse_generation ≡ f.fuse_generation + 1)
  fuse_opens ts now f s e none_yet h =
      let below = fails_below ts f s e (omega arith) in
      let same = λ (P : Fuse → Type 0) (p : P (counted (length ts) f)). subst P (sym below) p in
      let g = counted (length ts) f in
      let last = last_failure now g s e (omega arith) in
      same
        (λ k.
          (k.state ≡ recovering)
          × ((record_automatic_failure now k).0
              ≡ returned (some (required now i (open_fuse (count_failure k)))))
          × ((record_automatic_failure now k).1.state ≡ fuse_open)
          × ((record_automatic_failure now k).1.fuse_generation ≡ f.fuse_generation + 1))
        (
          s,
          ap (λ (x : Outcome (Option RecoveryRequired) × Fuse). x.0) last,
          ap (λ (x : Outcome (Option RecoveryRequired) × Fuse). x.1.state) last,
          ap (λ (x : Outcome (Option RecoveryRequired) × Fuse). x.1.fuse_generation) last,
        )

identity_eq_refl : (i : Identity) → identity_eq i i ≡ true
unfolding identity_eq
identity_eq_refl i =
    rw
      (
        eq_refl i.project_id,
        eq_refl i.hub_session_id,
        eq_refl i.thread_id,
        eq_refl i.lineage_id,
        ==_refl i.incarnation,
        eq_refl i.launcher_run_id,
        eq_refl i.bundle_id,
      )
      refl

same_command_refl : (c : ProbeCommand) → same_command c c ≡ true
unfolding same_command
same_command_refl c =
    rw
      (
        ==_refl c.schema_version,
        eq_refl c.kind,
        eq_refl c.command_id,
        ==_refl c.command_generation,
        ==_refl c.fuse_generation,
        identity_eq_refl c.identity,
      )
      refl

settled-binds :
    (now : ℕ) (fulfilled : Bool) (c : ProbeCommand) (f : Fuse)
    → binds (finish_command now fulfilled c f) c ≡ binds f c
unfolding binds finish_command settled
settled-binds now true c f = refl
settled-binds now false c f = refl

settled-completed :
    (now : ℕ) (fulfilled : Bool) (c : ProbeCommand) (f : Fuse)
    → get_completed c.command_id (finish_command now fulfilled c f).completed_probes
      ≡ some (record {
        command = c;
        result = result_of now (if fulfilled then recovered else still_open) c;
      })
unfolding get_completed finish_command
settled-completed now fulfilled c f = rw (eq_refl c.command_id) refl

-- Once the adapter of a command that binds the fuse is done, whether its promise was fulfilled or
-- not, the same command is answered with the stored result of that attempt, and the fuse does not
-- change: the adapter is not called again.
pub finish_probe-probe :
    (now : ℕ) (fulfilled : Bool) (c : ProbeCommand) (f : Fuse)
    → f.in_flight_probe ≡ some c
    → binds f c ≡ true
    → let f' = finish_probe now fulfilled f.in_flight_probe f in
      probe c f' ≡ (replayed (result_of now (if fulfilled then recovered else still_open) c), f')
unfolding finish_probe probe answer_probe stop_if
finish_probe-probe now fulfilled c f running bound =
    subst
      (λ o. probe c (finish_probe now fulfilled o f) ≡ (
        replayed (result_of now (if fulfilled then recovered else still_open) c),
        finish_probe now fulfilled o f,
      ))
      (sym running)
      (rw
        (
          settled-binds now fulfilled c f,
          bound,
          settled-completed now fulfilled c f,
          same_command_refl c,
        )
        refl)
