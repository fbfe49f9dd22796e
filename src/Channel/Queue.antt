-- ===== src/Channel/Queue.antt =====
-- packages/claude-channel/src/ordered-event-pump.ts, enqueue: frames wait for the promise `tail` in their
-- order, and at most `maxQueuedFrames` of them wait. A job runs when the one before it has ended.
use ayanami_agent_hub.Base.{
  ℕ, ◌≤◌, ◌≡◌, refl, sym, subst, List, [], ◌∷◌, ◌++◌, length, length-append, leb, if◌then◌else◌,
  arith,
}
use ayanami_agent_hub.Channel.Pump.{Frame, Ended, Environment, Pump, throw_when, process_frame}
use ayanami_agent_hub.Channel.Pump.Order.{
  Follows, Follows-refl, Follows-trans, Ends, throw_when-Ends,
}
use ayanami_agent_hub.Channel.Pump.Frames.{process_frame-Ends}

pub record Queue (W : Type 0) : Type 0 where
  pub pump : Pump W
  pub waiting : List Frame
  pub max_queued_frames : ℕ

-- The promise of enqueue: it is rejected at once, or it is the job's.
pub data Enqueued : Type 0 where
  accepted pump_stopped queue_full : Enqueued

module _ {W : Type 0} (env : Environment W) where
  unfoldable pub enqueue : Frame → Queue W → Enqueued × Queue W
  enqueue f q =
      if env.is_stopped q.pump.world
      then (pump_stopped, q)
      else if leb q.max_queued_frames (length q.waiting)
      then (queue_full, q)
      else (accepted, record q { waiting = q.waiting ++ f ∷ [] })

  unfoldable pub run_job : List Frame → Queue W → Queue W
  run_job [] q = q
  run_job (f ∷ fs) q = record q {
    waiting = fs;
    pump =
        (throw_when (env.is_stopped q.pump.world) Ended.stopped q.pump
          (process_frame env f q.pump)).1;
  }

  -- Frames arrive, and jobs run, in any interleaving.
  pub data Reachable (q₀ : Queue W) : Queue W → Type 0 where
    start : Reachable q₀ q₀
    arrive : {q : Queue W} → Reachable q₀ q → (f : Frame) → Reachable q₀ (enqueue f q).1
    job : {q : Queue W} → Reachable q₀ q → Reachable q₀ (run_job q.waiting q)

  -- The queue is within its limit, and the pump has gone on in order.
  pub record IsRunning (q₀ q : Queue W) : Type 0 where
    pub limit : q.max_queued_frames ≡ q₀.max_queued_frames
    pub few : length q.waiting ≤ q.max_queued_frames
    pub follows : Follows q₀.pump q.pump

  enqueue_pump : (f : Frame) (q : Queue W) → (enqueue f q).1.pump ≡ q.pump
  unfolding enqueue
  enqueue_pump f q = ground arith

  enqueue-IsRunning : (q₀ q : Queue W) (f : Frame) → IsRunning q₀ q → IsRunning q₀ (enqueue f q).1
  unfolding enqueue
  enqueue-IsRunning q₀ q f r = record {
    limit = ground (arith, r.limit);
    few = ground (arith, r.few, length-append q.waiting (f ∷ []));
    follows = subst (Follows q₀.pump) (sym (enqueue_pump f q)) r.follows;
  }

  job-IsRunning :
      (q₀ q : Queue W) (fs : List Frame)
      → length fs ≤ q.max_queued_frames
      → IsRunning q₀ q
      → IsRunning q₀ (run_job fs q)
  unfolding run_job
  job-IsRunning q₀ q [] h r = r
  job-IsRunning q₀ q (f ∷ fs) h r =
      let a : Ends q.pump _ =
        throw_when-Ends (env.is_stopped q.pump.world) Ended.stopped q.pump q.pump _
          (Follows-refl q.pump q.pump refl refl) λ _. process_frame-Ends env f q.pump in
      record {
        limit = r.limit;
        few = omega (arith, h);
        follows = Follows-trans q₀.pump q.pump _ r.follows a.follows;
      }

  -- However the arrivals of frames and the jobs interleave: no more frames wait than the limit allows, and
  -- every delivery and every commit of the pump is of the event right after its cursor.
  pub Reachable-IsRunning :
      (q₀ q : Queue W) → length q₀.waiting ≤ q₀.max_queued_frames → Reachable q₀ q → IsRunning q₀ q
  Reachable-IsRunning q₀ q h start = record {
    limit = refl;
    few = h;
    follows = Follows-refl q₀.pump q₀.pump refl refl;
  }
  Reachable-IsRunning q₀ q h (arrive {q = before} r f) =
      enqueue-IsRunning q₀ before f (Reachable-IsRunning q₀ before h r)
  Reachable-IsRunning q₀ q h (job {q = before} r) =
      let a = Reachable-IsRunning q₀ before h r in job-IsRunning q₀ before before.waiting a.few a
