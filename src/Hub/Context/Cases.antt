-- ===== src/Hub/Context/Cases.antt =====
-- apps/hub/src/services/store/context.ts, mutate: what becomes of the tables, by how a mutation ends.
use ayanami_agent_hub.Base.{ℕ, ◌≡◌, refl, ◌⊎◌, inl, inr, String, List, Option, none, some}
use ayanami_agent_hub.Hub.Rows.{Event, ProjectRow, IdempotencyKey}
use ayanami_agent_hub.Hub.Context.{
  Store, Hub, Result, ok, err, Action, MutationOptions, continue, monad, ◌>>=◌, restore,
  transaction, settle, find_key, respond, idempotent, mutate, idempotency_operation,
}
use ayanami_agent_hub.Hub.Context.Outcome.{inside}
use ayanami_agent_hub.Hub.Context.Blind.{
  IsBlind, pure-IsBlind, select-IsBlind, throw_if-IsBlind, modify-IsBlind, >>=-IsBlind, >>-IsBlind,
}

module _ {R V : Type 0} (view : Store R → V)
    (unseen : (s : Store R) (projects : List ProjectRow) (events : List Event)
        (keys : List (IdempotencyKey R))
      → view (record s { projects = projects; events = events; idempotency_keys = keys })
        ≡ view s) where
  -- Nothing has changed, or the action has run to its end.
  abbrev pub Changes : Action R R → Hub R → Store R → Type 0
  Changes action start s' =
      (view s' ≡ view start.store)
      ⊎ ((r : R) × (h₂ : Hub R) × (action start ≡ (ok r, h₂)) × (view s' ≡ view h₂.store))

  ran_to :
      (action : Action R R) (start : Hub R) (f : R → Action R R) (x : Result R × Hub R) (r : R)
      → ((r : R) → IsBlind view (f r))
      → action start ≡ x
      → (continue f x).0 ≡ ok r
      → Changes action start (continue f x).1.store
  unfolding continue
  ran_to action start f (ok a, h₂) r b ran e = inr (a, h₂, ran, (b a).same h₂)
  ran_to action start f (err y, h₂) r b ran e = absurd (cc)

  -- A block that begins with the action and goes on without a trace.
  after_action :
      (action : Action R R) (start : Hub R) (f : R → Action R R) (r : R)
      → ((r : R) → IsBlind view (f r))
      → ((action >>= f) start).0 ≡ ok r
      → Changes action start ((action >>= f) start).1.store
  unfolding monad
  after_action action start f r b e = ran_to action start f (action start) r b refl e

  module _ (now project_id : ℕ) (key name : String) (action : Action R R)
      (validate : R → Action R (Unit {0})) (blind : (r : R) → IsBlind view (validate r)) where
    settled :
        (before : Option (List Event)) (start : Hub R) (x : Result R × Hub R)
        → ((r : R) → x.0 ≡ ok r → Changes action start x.1.store)
        → Changes action start (settle before (restore start.store x)).1.store
    unfolding settle restore
    settled none start (ok r, h) k = k r refl
    settled (some es) start (ok r, h) k = k r refl
    settled none start (err y, h) k = inl refl
    settled (some es) start (err y, h) k = inl refl

    respond_changes :
        (o : Option (IdempotencyKey R)) (start : Hub R) (r : R)
        → (respond now project_id key name validate action o start).0 ≡ ok r
        → Changes action start (respond now project_id key name validate action o start).1.store
    unfolding respond
    respond_changes (some k) start r e = inl (
        (>>-IsBlind view _ _ (throw_if-IsBlind view _ _)
            (>>-IsBlind view _ _ (blind k.response) (pure-IsBlind view k.response))).same
          start)
    respond_changes none start r e =
        after_action action start _ r
          (λ r'. >>=-IsBlind view _ _ (select-IsBlind view _) λ taken.
            >>-IsBlind view _ _ (throw_if-IsBlind view _ _) (
              >>-IsBlind view _ _ (modify-IsBlind view _ (λ s. unseen s s.projects s.events _))
                (pure-IsBlind view r')))
          e

  -- A mutation whose check of replays leaves no trace changes nothing, or what its action changed.
  pub mutate-Changes :
      (now project_id : ℕ) (key operation : String) (action : Action R R)
      (options : MutationOptions R)
      → ((r : R) → IsBlind view (options.validate_replay r))
      → (h : Hub R)
      → Changes action (inside h) (mutate now project_id key operation action options h).1.store
  unfolding mutate transaction idempotent monad
  mutate-Changes now project_id key operation action options blind h =
      let name = idempotency_operation operation options.request_fingerprint in
      let cached = find_key project_id key h.store.idempotency_keys in
      settled now project_id key name action options.validate_replay blind h.active (inside h) _ (
        respond_changes now project_id key name action options.validate_replay blind cached
          (inside h))
