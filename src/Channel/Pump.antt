-- ===== src/Channel/Pump.antt =====
-- packages/claude-channel/src/ordered-event-pump.ts: the frames of the Hub, in the order of the events.
-- A frame is processed after the ones before it (the promise `tail`), so a call is a function of the
-- pump. The callbacks of the options are an Environment: functions of a world `W`, which holds what the
-- rest of the process does while the pump waits, the flag `stopped` among it. `effects` lists the
-- calls of `handleEvent` and `commitCursor`.
pub mod Order
pub mod Frames
pub mod CatchUp
use text.Mathlib.Text.{◌==◌ as str_eq}
use ayanami_agent_hub.Base.{
  ℕ, zero, suc, ◌+◌, ◌-◌, Bool, true, false, String, List, [], ◌∷◌, ◌++◌, Option, none, some, not,
  ◌&&◌, ◌||◌, ◌==◌, leb, ltb, max, if◌then◌else◌,
}

-- A DomainEvent, as far as the pump reads it.
pub record PumpEvent : Type 0 where
  pub project_id : String
  pub sequence : ℕ

pub data Frame : Type 0 where
  subscribed : ℕ → Frame
  event_frame : PumpEvent → Bool → Frame
  resync_required : Option ℕ → Frame

-- What handleEvent comes to: an outcome, something else, or a rejected promise.
pub data Handled : Type 0 where
  processed suppressed unknown rejected : Handled

pub data Ended : Type 0 where
  returned stopped callback_failed outcome_unknown wrong_project invalid_sequence out_of_fuel :
      Ended
  gap : ℕ → Option ℕ → Ended

pub record Environment (W : Type 0) : Type 0 where
  -- The page, or a rejected promise.
  pub fetch_events : ℕ → ℕ → W → Option (List PumpEvent) × W
  pub handle_event : PumpEvent → Bool → W → Handled × W
  pub commit_cursor : ℕ → W → Bool × W
  pub is_stopped : W → Bool

-- A commit, with whether the cursor of the pump followed it.
pub data Effect : Type 0 where
  delivered : PumpEvent → Handled → Effect
  committed : ℕ → Bool → Effect

pub record Pump (W : Type 0) : Type 0 where
  pub project_id : String
  pub page_size : ℕ
  pub current_sequence : ℕ
  pub high_water_sequence : ℕ
  pub effects : List Effect
  pub world : W

-- `throw e` if the test holds.
unfoldable pub throw_when : {W : Type 0} → Bool → Ended → Pump W → Ended × Pump W → Ended × Pump W
throw_when true e p rest = (e, p)
throw_when false e p rest = rest

-- `await` of a call of the pump's own: what it throws passes through.
unfoldable pub await_call :
    {W : Type 0} → Ended × Pump W → (Pump W → Ended × Pump W) → Ended × Pump W
await_call (returned, p) f = f p
await_call (e, p) f = (e, p)

abbrev pub is_rejected : Handled → Bool
is_rejected rejected = true
is_rejected _ = false

abbrev pub is_unknown : Handled → Bool
is_unknown unknown = true
is_unknown _ = false

-- What a candidate of a page is to the cursor and the target.
pub data Candidate : Type 0 where
  old beyond early next : Candidate

abbrev pub classify : ℕ → ℕ → ℕ → Candidate
classify target current sequence =
    if leb sequence current
    then old
    else if ltb target sequence
    then beyond
    else if not (sequence == current + 1)
    then early
    else next

module _ {W : Type 0} where
  -- assertEvent
  abbrev pub assert_event : PumpEvent → Pump W → Ended × Pump W → Ended × Pump W
  assert_event e p rest = throw_when (not (str_eq e.project_id p.project_id)) wrong_project p (
      throw_when (not (ltb 0 e.sequence && leb e.sequence 9007199254740991)) invalid_sequence p
        rest)

  abbrev pub record_effect : Effect → W → Pump W → Pump W
  record_effect x w p = record p { effects = p.effects ++ x ∷ []; world = w }

module _ {W : Type 0} (env : Environment W) where
  -- The commit of an event, and the step of the cursor after it.
  unfoldable pub commit_event : ℕ → Bool × W → Pump W → Ended × Pump W
  commit_event sequence (accepted, w) p =
      let stops = env.is_stopped w in
      let kept = record_effect (committed sequence false) w p in
      throw_when (not accepted) callback_failed kept (
        throw_when stops Ended.stopped kept (
          returned,
          record (record_effect (committed sequence true) w p) { current_sequence = sequence },
        ))

  unfoldable pub after_handling : PumpEvent → Handled × W → Pump W → Ended × Pump W
  unfolding commit_event
  after_handling e (outcome, w) p =
      let p' = record_effect (delivered e outcome) w p in
      throw_when (is_rejected outcome) callback_failed p' (
        throw_when (env.is_stopped w) Ended.stopped p' (
          throw_when (is_unknown outcome) outcome_unknown p'
            (commit_event e.sequence (env.commit_cursor e.sequence w) p')))

  unfoldable pub process_event : PumpEvent → Bool → Pump W → Ended × Pump W
  unfolding after_handling
  process_event e historical p =
      throw_when (env.is_stopped p.world) Ended.stopped p
        (after_handling e (env.handle_event e historical p.world) p)

  -- A candidate of the page that is the next event.
  unfoldable pub take_next :
      ℕ → PumpEvent → Pump W → (Bool → Pump W → Ended × Pump W) → Ended × Pump W
  unfolding process_event
  take_next target e p again =
      await_call (process_event e true p)
        λ p'. throw_when (leb target p'.current_sequence) returned p' (again true p')

  -- `again` goes on with the page, `leave` breaks out of it.
  unfoldable pub page_step :
      Candidate
      → ℕ
      → PumpEvent
      → Bool
      → Pump W
      → (Bool → Pump W → Ended × Pump W)
      → (Bool → Pump W → Ended × Pump W)
      → Ended × Pump W
  unfolding take_next
  page_step old target e advanced p again leave = again advanced p
  page_step beyond target e advanced p again leave = leave advanced p
  page_step early target e advanced p again leave =
      (gap (p.current_sequence + 1) (some e.sequence), p)
  page_step next target e advanced p again leave = take_next target e p again

  -- The page's loop; `leave` is what follows it, given whether the page brought the cursor forward.
  unfoldable pub process_page :
      ℕ → List PumpEvent → (Bool → Pump W → Ended × Pump W) → Bool → Pump W → Ended × Pump W
  unfolding page_step
  process_page target [] leave advanced p = leave advanced p
  process_page target (e ∷ es) leave advanced p =
      throw_when (env.is_stopped p.world) Ended.stopped p (
        assert_event e p (
          page_step (classify target p.current_sequence e.sequence) target e advanced p
            (process_page target es leave) leave))

  -- What follows a fetch; `again` is the next turn of the outer loop.
  unfoldable pub after_fetch :
      ℕ → Option (List PumpEvent) × W → Pump W → (Pump W → Ended × Pump W) → Ended × Pump W
  unfolding process_page
  after_fetch target (none, w) p again = (callback_failed, record p { world = w })
  after_fetch target (some page, w) p again =
      let p' : Pump W = record p { world = w } in
      throw_when (env.is_stopped w) Ended.stopped p' (
        process_page target page
          (λ advanced p''.
            throw_when (not advanced) (gap (p''.current_sequence + 1) none) p'' (again p''))
          false p')

  -- The outer loop on fuel; each turn that ends brings the cursor forward.
  unfoldable pub catch_up : ℕ → ℕ → Pump W → Ended × Pump W
  unfolding after_fetch
  catch_up zero target p = throw_when (ltb p.current_sequence target) out_of_fuel p (returned, p)
  catch_up (suc fuel) target p = throw_when (leb target p.current_sequence) returned p (
      throw_when (env.is_stopped p.world) Ended.stopped p (
        after_fetch target (env.fetch_events p.current_sequence p.page_size p.world) p
          (catch_up fuel target)))

  unfoldable pub catch_up_to : ℕ → Pump W → Ended × Pump W
  catch_up_to target p = catch_up (target - p.current_sequence) target p

  abbrev pub raise_mark : ℕ → Pump W → Pump W
  raise_mark n p = record p { high_water_sequence = max p.high_water_sequence n }

  -- A high-water mark is a non-negative safe integer.
  unfoldable pub follow_mark : ℕ → Pump W → Ended × Pump W
  unfolding catch_up_to
  follow_mark n p =
      throw_when (not (leb n 9007199254740991)) invalid_sequence p
        (catch_up_to (max p.high_water_sequence n) (raise_mark n p))

  unfoldable pub live_event : PumpEvent → Bool → Pump W → Ended × Pump W
  unfolding catch_up_to process_event
  live_event e historical p = throw_when (leb e.sequence p.current_sequence) returned p (
      throw_when (not (e.sequence == p.current_sequence + 1))
        (gap (p.current_sequence + 1) (some e.sequence)) p (process_event e historical p))

  -- The events that are missing before a live event.
  unfoldable pub fill_gap : PumpEvent → Pump W → Ended × Pump W
  unfolding catch_up_to
  fill_gap e p =
      throw_when (not (ltb (p.current_sequence + 1) e.sequence)) returned p
        (catch_up_to (e.sequence - 1) p)

  unfoldable pub process_frame : Frame → Pump W → Ended × Pump W
  unfolding follow_mark live_event fill_gap
  process_frame (subscribed n) p = follow_mark n p
  process_frame (resync_required none) p = (gap (p.current_sequence + 1) none, p)
  process_frame (resync_required (some n)) p = follow_mark n p
  process_frame (event_frame e historical) p = assert_event e p (
      let p' = raise_mark e.sequence p in
      throw_when (leb e.sequence p'.current_sequence) returned p'
        (await_call (fill_gap e p') λ p''. live_event e historical p''))

  -- Frames in their order; a frame that fails does not keep the next one back.
  unfoldable pub process_frames : List Frame → Pump W → Pump W
  process_frames [] p = p
  process_frames (f ∷ fs) p =
      process_frames fs (throw_when (env.is_stopped p.world) Ended.stopped p (process_frame f p)).1
