-- ===== src/Channel/Pump/CatchUp.antt =====
-- packages/claude-channel/src/ordered-event-pump.ts, catchUpTo: the fuel of the model is enough, and a
-- replay that returns has reached its target.
use ayanami_agent_hub.Base.{
  ℕ, zero, suc, ◌+◌, ◌-◌, ◌≤◌, ◌<◌, ◌≡◌, ◌≢◌, refl, Bool, true, false, List, [], ◌∷◌, Option, none,
  some, not, arith, leb,
}
use ayanami_agent_hub.Channel.Pump.{
  PumpEvent, Handled, Ended, returned, out_of_fuel, Environment, Pump, throw_when, await_call,
  Candidate, old, beyond, early, next, classify, delivered, record_effect, commit_event,
  after_handling, process_event, take_next, page_step, process_page, after_fetch, assert_event,
  catch_up, catch_up_to,
}
use ayanami_agent_hub.Channel.Pump.Frames.{classify_next}

-- The fuel was enough, and if the call returned, what it promises holds of the cursor.
pub record Comes {W : Type 0} (P : ℕ → Type 0) (x : Ended × Pump W) : Type 0 where
  pub fuelled : x.0 ≢ out_of_fuel
  pub promise : x.0 ≡ returned → P x.1.current_sequence

module _ {W : Type 0} (P : ℕ → Type 0) where
  throw_when-Comes :
      (c : Bool) (e : Ended) (p : Pump W) (rest : Ended × Pump W)
      → e ≢ out_of_fuel
      → (c ≡ true → e ≡ returned → P p.current_sequence)
      → (c ≡ false → Comes P rest)
      → Comes P (throw_when c e p rest)
  unfolding throw_when
  throw_when-Comes true e p rest n t f = record { fuelled = n; promise = λ r. t refl r }
  throw_when-Comes false e p rest n t f = f refl

  returned-Comes : (p : Pump W) → P p.current_sequence → Comes P (returned, p)
  returned-Comes p h = record { fuelled = λ e. cc; promise = λ _. h }

  await_call-Comes :
      (Q : ℕ → Type 0) (x : Ended × Pump W) (f : Pump W → Ended × Pump W)
      → Comes Q x
      → ((q : Pump W) → Q q.current_sequence → Comes P (f q))
      → Comes P (await_call x f)
  unfolding await_call
  await_call-Comes Q (returned, q) f a g = g q (a.promise refl)
  await_call-Comes Q (Ended.stopped, q) f a g = record { fuelled = a.fuelled; promise = λ e. cc }
  await_call-Comes Q (Ended.callback_failed, q) f a g = record {
    fuelled = a.fuelled;
    promise = λ e. cc;
  }
  await_call-Comes Q (Ended.outcome_unknown, q) f a g = record {
    fuelled = a.fuelled;
    promise = λ e. cc;
  }
  await_call-Comes Q (Ended.wrong_project, q) f a g = record {
    fuelled = a.fuelled;
    promise = λ e. cc;
  }
  await_call-Comes Q (Ended.invalid_sequence, q) f a g = record {
    fuelled = a.fuelled;
    promise = λ e. cc;
  }
  await_call-Comes Q (Ended.out_of_fuel, q) f a g = absurd (a.fuelled refl)
  await_call-Comes Q (Ended.gap n o, q) f a g = record { fuelled = a.fuelled; promise = λ e. cc }

  no_throw-Comes :
      (c : Bool) (e : Ended) (p : Pump W) (rest : Ended × Pump W)
      → c ≡ false
      → Comes P rest
      → Comes P (throw_when c e p rest)
  unfolding throw_when
  no_throw-Comes true e p rest h f = cc
  no_throw-Comes false e p rest h f = f

  -- A throw promises nothing.
  stop-Comes :
      (c : Bool) (e : Ended) (p : Pump W) (rest : Ended × Pump W)
      → e ≢ out_of_fuel
      → e ≢ returned
      → Comes P rest
      → Comes P (throw_when c e p rest)
  stop-Comes c e p rest n r f = throw_when-Comes c e p rest n (λ _ q. absurd (r q)) (λ _. f)

  assert_event-Comes :
      (e : PumpEvent) (p : Pump W) (rest : Ended × Pump W)
      → Comes P rest
      → Comes P (assert_event e p rest)
  assert_event-Comes e p rest f =
      stop-Comes _ _ p _ (λ q. cc) (λ q. cc) (stop-Comes _ _ p _ (λ q. cc) (λ q. cc) f)

module _ {W : Type 0} (env : Environment W) where
  commit_event-Comes :
      (n : ℕ) (x : Bool × W) (p : Pump W) → Comes (λ m. m ≡ n) (commit_event env n x p)
  unfolding commit_event
  commit_event-Comes n (accepted, w) p =
      stop-Comes _ _ _ _ _ (λ q. cc) (λ q. cc)
        (stop-Comes _ _ _ _ _ (λ q. cc) (λ q. cc) (returned-Comes _ _ refl))

  after_handling-Comes :
      (e : PumpEvent) (x : Handled × W) (p : Pump W)
      → Comes (λ m. m ≡ e.sequence) (after_handling env e x p)
  unfolding after_handling
  after_handling-Comes e (h, w) p =
      let p' = record_effect (delivered e h) w p in
      stop-Comes _ _ _ p' _ (λ q. cc) (λ q. cc)
        (stop-Comes _ _ _ p' _ (λ q. cc) (λ q. cc)
          (stop-Comes _ _ _ p' _ (λ q. cc) (λ q. cc)
            (commit_event-Comes e.sequence (env.commit_cursor e.sequence w) p')))

  -- An event that was processed is where the cursor stands.
  process_event-Comes :
      (e : PumpEvent) (historical : Bool) (p : Pump W)
      → Comes (λ m. m ≡ e.sequence) (process_event env e historical p)
  unfolding process_event
  process_event-Comes e historical p =
      stop-Comes _ _ _ _ _ (λ q. cc) (λ q. cc)
        (after_handling-Comes e (env.handle_event e historical p.world) p)

  module _ (target base : ℕ) where
    abbrev Reaches : ℕ → Type 0
    Reaches m = target ≤ m

    -- What a page leaves to the rest of the loop: the cursor has not gone back, and if an event was
    -- taken it has gone on.
    abbrev Moved : Bool → Pump W → Type 0
    Moved b q = (base ≤ q.current_sequence) × (b ≡ true → base < q.current_sequence)

    abbrev Good : (Bool → Pump W → Ended × Pump W) → Type 0
    Good k = (b : Bool) (q : Pump W) → Moved b q → Comes Reaches (k b q)

    leb-le : (m : ℕ) → leb target m ≡ true → target ≤ m
    leb-le m h = ground arith

    page_step-Comes :
        (c : Candidate) (e : PumpEvent) (b : Bool) (p : Pump W)
        (again leave : Bool → Pump W → Ended × Pump W)
        → (c ≡ next → e.sequence ≡ p.current_sequence + 1)
        → Moved b p
        → Good again
        → Good leave
        → Comes Reaches (page_step env c target e b p again leave)
    unfolding page_step take_next
    page_step-Comes old e b p again leave s m g l = g b p m
    page_step-Comes beyond e b p again leave s m g l = l b p m
    page_step-Comes early e b p again leave s m g l = record {
      fuelled = λ q. cc;
      promise = λ q. cc;
    }
    page_step-Comes next e b p again leave s m g l =
        await_call-Comes Reaches (λ n. n ≡ e.sequence) _ _ (process_event-Comes e true p)
          λ q at.
            throw_when-Comes Reaches _ _ q _ (λ r. cc) (λ t _. leb-le q.current_sequence t)
              λ _. g true q (omega (arith, at, s refl, m.0), λ _. omega (arith, at, s refl, m.0))

    process_page-Comes :
        (es : List PumpEvent) (leave : Bool → Pump W → Ended × Pump W)
        → Good leave
        → Good (process_page env target es leave)
    unfolding process_page
    process_page-Comes [] leave l b p m = l b p m
    process_page-Comes (e ∷ es) leave l b p m =
        stop-Comes Reaches _ _ p _ (λ q. cc) (λ q. cc)
          (assert_event-Comes Reaches e p _ (
            page_step-Comes (classify target p.current_sequence e.sequence) e b p
              (process_page env target es leave) leave
              (classify_next target p.current_sequence e.sequence) m (process_page-Comes es leave l)
              l))

  after_fetch-Comes :
      (target : ℕ) (x : Option (List PumpEvent) × W) (p : Pump W) (again : Pump W → Ended × Pump W)
      → ((q : Pump W)
          → p.current_sequence < q.current_sequence
          → Comes (Reaches target 0) (again q))
      → Comes (Reaches target 0) (after_fetch env target x p again)
  unfolding after_fetch
  after_fetch-Comes target (none, w) p again g = record { fuelled = λ q. cc; promise = λ q. cc }
  after_fetch-Comes target (some page, w) p again g =
      stop-Comes (Reaches target 0) _ _ _ _ (λ q. cc) (λ q. cc)
        (process_page-Comes target p.current_sequence page _
          (λ b r m.
            throw_when-Comes (Reaches target 0) _ _ r _ (λ q. cc) (λ _ q. cc)
              λ moved. g r (m.1 (is_true b moved)))
          false (record p { world = w }) (omega arith, λ q. cc))
    where
      is_true : (b : Bool) → not b ≡ false → b ≡ true
      is_true b h = ground arith

  catch_up-Comes :
      (fuel target : ℕ) (p : Pump W)
      → target ≤ p.current_sequence + fuel
      → Comes (Reaches target 0) (catch_up env fuel target p)
  unfolding catch_up
  catch_up-Comes zero target p h =
      no_throw-Comes (Reaches target 0) _ _ p _ (ground arith)
        (returned-Comes (Reaches target 0) p (omega (arith, h)))
  catch_up-Comes (suc fuel) target p h =
      throw_when-Comes (Reaches target 0) _ _ p _ (λ q. cc)
        (λ t _. leb-le target 0 p.current_sequence t)
        λ _.
          stop-Comes (Reaches target 0) _ _ p _ (λ q. cc) (λ q. cc)
            (after_fetch-Comes target _ p (catch_up env fuel target)
              λ q further. catch_up-Comes fuel target q (omega (arith, h, further)))

  -- A replay ends after finitely many pages, whatever the Hub answers, and if it returns, the cursor has
  -- reached the target.
  pub catch_up_to-Comes :
      (target : ℕ) (p : Pump W)
      → ((catch_up_to env target p).0 ≢ out_of_fuel)
        × ((catch_up_to env target p).0 ≡ returned
            → target ≤ (catch_up_to env target p).1.current_sequence)
  unfolding catch_up_to
  catch_up_to-Comes target p =
      let c = catch_up-Comes (target - p.current_sequence) target p (omega arith) in
      (c.fuelled, c.promise)
