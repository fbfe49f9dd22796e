-- ===== src/Channel/Scenarios.antt =====
-- The event pump of packages/claude-channel against a Hub with three events.
use ayanami_agent_hub.Base.{
  ℕ, ◌+◌, ◌≤◌, ◌≡◌, ◌≢◌, refl, true, false, List, [], ◌∷◌, some, keep, ltb,
}
use ayanami_agent_hub.Channel.Pump.{
  PumpEvent, Frame, subscribed, event_frame, Handled, returned, out_of_fuel, Environment, Pump,
  delivered, committed, throw_when, await_call, commit_event, after_handling, process_event,
  take_next, page_step, process_page, after_fetch, catch_up, catch_up_to, follow_mark, live_event,
  fill_gap, process_frame, process_frames,
}
use ayanami_agent_hub.Channel.Pump.Order.{Follows}
use ayanami_agent_hub.Channel.Pump.Frames.{process_frames-Follows}
use native.Mathlib.Omega.{arith}
use ayanami_agent_hub.Channel.Queue.{
  Queue, enqueue, run_job, queue_full, start, arrive, job, IsRunning, Reachable-IsRunning,
}
use ayanami_agent_hub.Channel.Pump.CatchUp.{catch_up_to-Comes}

abbrev at : ℕ → PumpEvent
at n = record { project_id = "prj_1"; sequence = n }

-- The world counts the commits; the first one is refused.
abbrev hub : Environment ℕ
hub = record {
  fetch_events =
      λ after limit w. (some (keep (λ e. ltb after e.sequence) (at 1 ∷ at 2 ∷ at 3 ∷ [])), w);
  handle_event = λ e historical w. (Handled.processed, w);
  commit_cursor = λ n w. (ltb 0 w, w + 1);
  is_stopped = λ w. false;
}

abbrev pump : Pump ℕ
pump = record {
  project_id = "prj_1";
  page_size = 2;
  current_sequence = 0;
  high_water_sequence = 0;
  effects = [];
  world = 0;
}

abbrev frames : List Frame
frames = subscribed 2 ∷ event_frame (at 3) false ∷ []

pump_calls : Unit {0}
unfolding throw_when await_call commit_event after_handling process_event take_next page_step
    process_page after_fetch catch_up catch_up_to follow_mark live_event fill_gap process_frame
    process_frames
pump_calls = tt

-- The refused commit is made again, and the live event waits for the two before it.
all_delivered :
    (process_frames hub frames pump).effects
    ≡ delivered (at 1) Handled.processed
      ∷ committed 1 false
      ∷ delivered (at 1) Handled.processed
      ∷ committed 1 true
      ∷ delivered (at 2) Handled.processed
      ∷ committed 2 true
      ∷ delivered (at 3) Handled.processed
      ∷ committed 3 true
      ∷ []
unfolding pump_calls
all_delivered = refl

process_frames-Follows_example : Follows pump (process_frames hub frames pump)
process_frames-Follows_example = process_frames-Follows hub frames pump

catch_up_to-Comes_example :
    ((catch_up_to hub 3 (record pump { world = 1 })).0 ≢ out_of_fuel)
    × ((catch_up_to hub 3 (record pump { world = 1 })).0 ≡ returned
        → 3 ≤ (catch_up_to hub 3 (record pump { world = 1 })).1.current_sequence)
catch_up_to-Comes_example = catch_up_to-Comes hub 3 (record pump { world = 1 })

-- Two frames wait, a third is refused, and the first job runs.
abbrev queue : Queue ℕ
queue = record { pump = pump; waiting = []; max_queued_frames = 2 }

abbrev busy_queue : Queue ℕ
busy_queue =
    (enqueue hub (subscribed 3)
      (enqueue hub (event_frame (at 3) false) (enqueue hub (subscribed 2) queue).1).1).1

is_full : (enqueue hub (subscribed 3) busy_queue).0 ≡ queue_full
unfolding enqueue
is_full = refl

Reachable-IsRunning_example : IsRunning hub queue (run_job hub busy_queue.waiting busy_queue)
Reachable-IsRunning_example =
    Reachable-IsRunning hub queue _ (omega arith) (
      job (arrive (arrive (arrive start (subscribed 2)) (event_frame (at 3) false)) (subscribed 3)))
