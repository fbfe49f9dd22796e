-- ===== src/Bridge/Fuse/Sound.antt =====
-- packages/codex-bridge/src/app-server-recovery-fuse.ts: the shape of the fuse holds in every state that
-- calls lead to.
use ayanami_agent_hub.Base.{ℕ, ◌<◌, ◌≡◌, refl, Bool, true, false, Option, none, some, arith}
use ayanami_agent_hub.Bridge.Fuse.{
  Fuse, FuseState, closed, recovering, fuse_open, half_open, ProbeCommand, CompletedProbe,
}
use ayanami_agent_hub.Bridge.Fuse.Recovery.{record_automatic_failure}
use ayanami_agent_hub.Bridge.Fuse.Probe.{
  binds, start_probe, join_probe, answer_probe, probe, settled, finish_command, finish_probe,
}
use ayanami_agent_hub.Bridge.Fuse.Steps.{
  Call, begin_recovery, fail_attempt, succeed_attempt, restore_offline, restore_ready, rebind,
  ask_probe, settle, apply, Reachable, start, step,
}
use ayanami_agent_hub.Bridge.Fuse.Invariant.{
  IsAnnounced, Shape, IsSound, Leaves, stop_if-Leaves, begin-Leaves, record_failure-Leaves,
  success-Leaves, offline-Leaves, ready-Leaves, rebind-Leaves, open-Shape, not-false,
}

binds-generation :
    (f : Fuse) (c : ProbeCommand) → binds f c ≡ true → c.fuse_generation ≡ f.fuse_generation
unfolding binds
binds-generation f c e = ground arith

start-Leaves :
    (c : ProbeCommand) (f : Fuse)
    → c.fuse_generation ≡ f.fuse_generation
    → IsSound f
    → Leaves (start_probe c f)
unfolding start_probe
start-Leaves c f same s =
    stop_if-Leaves _ _ _ _ (λ _. s)
      λ opened.
        stop_if-Leaves _ _ _ _ (λ _. s)
          λ newer.
            let (announced, _) = open-Shape f f.state (not-false _ opened) s.shape in
            record {
              sound = record { positive = s.positive; shape = (announced, (c, refl, same, refl)) };
            }

join-Leaves :
    (c : ProbeCommand) (o : Option ProbeCommand) (f : Fuse)
    → c.fuse_generation ≡ f.fuse_generation
    → IsSound f
    → Leaves (join_probe c o f)
unfolding join_probe
join-Leaves c (some running) f same s = stop_if-Leaves _ _ _ _ (λ _. s) λ _. record { sound = s }
join-Leaves c none f same s = start-Leaves c f same s

answer-Leaves :
    (c : ProbeCommand) (o : Option CompletedProbe) (f : Fuse)
    → c.fuse_generation ≡ f.fuse_generation
    → IsSound f
    → Leaves (answer_probe c o f)
unfolding answer_probe
answer-Leaves c (some completed) f same s =
    stop_if-Leaves _ _ _ _ (λ _. s) λ _. record { sound = s }
answer-Leaves c none f same s = join-Leaves c f.in_flight_probe f same s

probe-Leaves : (c : ProbeCommand) (f : Fuse) → IsSound f → Leaves (probe c f)
unfolding probe
probe-Leaves c f s =
    stop_if-Leaves _ _ _ _ (λ _. s)
      λ bound. answer-Leaves c _ f (binds-generation f c (not-false _ bound)) s

-- A command is in flight only while the fuse is half open.
running-Shape :
    (f : Fuse) (c : ProbeCommand) (t : FuseState)
    → f.in_flight_probe ≡ some c
    → Shape t f
    → IsAnnounced f
running-Shape f c closed e (_, _, idle) = cc
running-Shape f c recovering e (_, _, idle) = cc
running-Shape f c fuse_open e (_, idle) = cc
running-Shape f c half_open e (announced, _) = announced

finish-IsSound :
    (now : ℕ) (fulfilled : Bool) (o : Option ProbeCommand) (f : Fuse)
    → f.in_flight_probe ≡ o
    → IsSound f
    → IsSound (finish_probe now fulfilled o f)
unfolding finish_probe finish_command settled
finish-IsSound now fulfilled none f e s = s
finish-IsSound now true (some c) f e s = record {
  positive = s.positive;
  shape = (refl, refl, refl);
}
finish-IsSound now false (some c) f e s = record {
  positive = s.positive;
  shape = (running-Shape f c f.state e s.shape, refl);
}

apply-IsSound : (c : Call) (f : Fuse) → IsSound f → IsSound (apply c f)
unfolding apply record_automatic_failure
apply-IsSound (begin_recovery crashed i) f s = (begin-Leaves crashed i f s).sound
apply-IsSound (fail_attempt now) f s = (record_failure-Leaves now f.identity f refl s).sound
apply-IsSound succeed_attempt f s = (success-Leaves f s).sound
apply-IsSound (restore_offline now i generation) f s = (offline-Leaves now i generation f s).sound
apply-IsSound (restore_ready i generation) f s = (ready-Leaves i generation f s).sound
apply-IsSound (rebind now i) f s = (rebind-Leaves now i f s).sound
apply-IsSound (ask_probe c) f s = (probe-Leaves c f s).sound
apply-IsSound (settle now fulfilled) f s = finish-IsSound now fulfilled f.in_flight_probe f refl s

-- After any calls, also those that throw, and whenever adapters end: a closed fuse has no failed
-- attempt, no request to the supervisor and no running probe; a recovery has fewer failed attempts
-- than the maximum and knows its identity; an open fuse has used up its attempts and stands on a
-- request to the supervisor for its generation and identity; and a half open fuse, and no other, has
-- a running probe, one that names its generation and was the last to start.
pub reached_fuse-IsSound :
    (attempts : ℕ) (f : Fuse) → 0 < attempts → Reachable attempts f → IsSound f
reached_fuse-IsSound attempts f p start = record { positive = p; shape = (refl, refl, refl) }
reached_fuse-IsSound attempts f p (step {f = before} r c) =
    apply-IsSound c before (reached_fuse-IsSound attempts before p r)
