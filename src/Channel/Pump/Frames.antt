-- ===== src/Channel/Pump/Frames.antt =====
-- packages/claude-channel/src/ordered-event-pump.ts: the order of deliveries and commits through whole
-- frames.
use ayanami_agent_hub.Base.{
  ℕ, zero, suc, ◌+◌, ◌-◌, ◌≡◌, refl, Bool, true, false, List, [], ◌∷◌, Option, none, some, not,
  arith, ◌==◌,
}
use ayanami_agent_hub.Channel.Pump.{
  PumpEvent, Frame, subscribed, event_frame, resync_required, Ended, Environment, Pump, Candidate,
  old, beyond, early, next, classify, take_next, page_step, process_page, after_fetch, catch_up,
  assert_event, catch_up_to, raise_mark, follow_mark, live_event, fill_gap, process_frame,
  process_frames,
}
use ayanami_agent_hub.Channel.Pump.Order.{
  Follows, Follows-refl, Follows-trans, Ends, throw_when-Ends, await_call-Ends, from,
  process_event-Ends,
}

pub classify_next :
    (target current sequence : ℕ) → classify target current sequence ≡ next → sequence ≡ current + 1
classify_next target current sequence e = ground arith

module _ {W : Type 0} (env : Environment W) where
  same : (p : Pump W) → Follows p p
  same p = Follows-refl p p refl refl

  -- A continuation that keeps the order.
  abbrev Goes : (Bool → Pump W → Ended × Pump W) → Type 0
  Goes k = (b : Bool) (q : Pump W) → Ends q (k b q)

  assert_event-Ends :
      (e : PumpEvent) (p q : Pump W) (rest : Ended × Pump W)
      → Follows p q
      → Ends p rest
      → Ends p (assert_event e q rest)
  assert_event-Ends e p q rest f a =
      throw_when-Ends _ _ p q _ f λ _. throw_when-Ends _ _ p q _ f λ _. a

  page_step-Ends :
      (c : Candidate) (target : ℕ) (e : PumpEvent) (advanced : Bool) (p : Pump W)
      (again leave : Bool → Pump W → Ended × Pump W)
      → (c ≡ next → e.sequence ≡ p.current_sequence + 1)
      → Goes again
      → Goes leave
      → Ends p (page_step env c target e advanced p again leave)
  unfolding page_step take_next
  page_step-Ends old target e advanced p again leave s g l = g advanced p
  page_step-Ends beyond target e advanced p again leave s g l = l advanced p
  page_step-Ends early target e advanced p again leave s g l = record { follows = same p }
  page_step-Ends next target e advanced p again leave s g l =
      await_call-Ends p _ _ (process_event-Ends env e true p (s refl))
        λ q f. throw_when-Ends _ _ p q _ f λ _. from env p q _ f (g true q)

  process_page-Ends :
      (target : ℕ) (es : List PumpEvent) (leave : Bool → Pump W → Ended × Pump W)
      → Goes leave
      → Goes (process_page env target es leave)
  unfolding process_page
  process_page-Ends target [] leave l b p = l b p
  process_page-Ends target (e ∷ es) leave l b p = throw_when-Ends _ _ p p _ (same p) λ _.
      assert_event-Ends e p p _ (same p) (
        page_step-Ends (classify target p.current_sequence e.sequence) target e b p
          (process_page env target es leave) leave
          (classify_next target p.current_sequence e.sequence) (process_page-Ends target es leave l)
          l)

  after_fetch-Ends :
      (target : ℕ) (x : Option (List PumpEvent) × W) (p : Pump W) (again : Pump W → Ended × Pump W)
      → ((q : Pump W) → Ends q (again q))
      → Ends p (after_fetch env target x p again)
  unfolding after_fetch
  after_fetch-Ends target (none, w) p again g = record {
    follows = Follows-refl p (record p { world = w }) refl refl;
  }
  after_fetch-Ends target (some page, w) p again g =
      let q : Pump W = record p { world = w } in
      let f = Follows-refl p q refl refl in
      throw_when-Ends _ _ p q _ f λ _. from env p q _ f (
        process_page-Ends target page _ (λ b r. throw_when-Ends _ _ r r _ (same r) λ _. g r) false
          q)

  catch_up-Ends : (fuel target : ℕ) (p : Pump W) → Ends p (catch_up env fuel target p)
  unfolding catch_up
  catch_up-Ends zero target p = throw_when-Ends _ _ p p _ (same p) λ _. record { follows = same p }
  catch_up-Ends (suc fuel) target p = throw_when-Ends _ _ p p _ (same p) λ _.
      throw_when-Ends _ _ p p _ (same p)
        λ _. after_fetch-Ends target _ p (catch_up env fuel target) (catch_up-Ends fuel target)

  catch_up_to-Ends : (target : ℕ) (p : Pump W) → Ends p (catch_up_to env target p)
  unfolding catch_up_to
  catch_up_to-Ends target p = catch_up-Ends (target - p.current_sequence) target p

  follow_mark-Ends : (n : ℕ) (p : Pump W) → Ends p (follow_mark env n p)
  unfolding follow_mark
  follow_mark-Ends n p = throw_when-Ends _ _ p p _ (same p) λ _.
      from env p (raise_mark env n p) _ (Follows-refl p (raise_mark env n p) refl refl)
        (catch_up_to-Ends _ _)

  fill_gap-Ends : (e : PumpEvent) (p : Pump W) → Ends p (fill_gap env e p)
  unfolding fill_gap
  fill_gap-Ends e p = throw_when-Ends _ _ p p _ (same p) λ _. catch_up_to-Ends _ p

  live_event-Ends :
      (e : PumpEvent) (historical : Bool) (p : Pump W) → Ends p (live_event env e historical p)
  unfolding live_event
  live_event-Ends e historical p = throw_when-Ends _ _ p p _ (same p) λ _.
      throw_when-Ends _ _ p p _ (same p) λ fits.
        process_event-Ends env e historical p (is_next e.sequence (p.current_sequence + 1) fits)
    where
      is_next : (a b : ℕ) → not (a == b) ≡ false → a ≡ b
      is_next a b h = ground arith

  pub process_frame-Ends : (f : Frame) (p : Pump W) → Ends p (process_frame env f p)
  unfolding process_frame
  process_frame-Ends (subscribed n) p = follow_mark-Ends n p
  process_frame-Ends (resync_required none) p = record { follows = same p }
  process_frame-Ends (resync_required (some n)) p = follow_mark-Ends n p
  process_frame-Ends (event_frame e historical) p =
      let q = raise_mark env e.sequence p in
      let f = Follows-refl p q refl refl in
      assert_event-Ends e p p _ (same p) (
        throw_when-Ends _ _ p q _ f λ _. from env p q _ f (
          await_call-Ends q _ _ (fill_gap-Ends e q)
            λ r g. from env q r _ g (live_event-Ends e historical r)))

  -- Whatever frames come, and whatever the callbacks answer: every delivery and every commit is of the
  -- event right after the cursor, every commit comes right after a delivery of its event that was
  -- processed or suppressed, and the cursor has moved by one for each commit that it followed. So no
  -- event is passed over that was not delivered and handled, none is delivered again once its commit was followed, and the order of the
  -- project is kept.
  pub process_frames-Follows : (fs : List Frame) (p : Pump W) → Follows p (process_frames env fs p)
  unfolding process_frames
  process_frames-Follows [] p = same p
  process_frames-Follows (f ∷ fs) p =
      let a : Ends p _ =
        throw_when-Ends (env.is_stopped p.world) Ended.stopped p p _ (same p)
          λ _. process_frame-Ends f p in
      Follows-trans p _ _ a.follows (process_frames-Follows fs _)
