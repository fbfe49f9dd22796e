-- ===== src/Hub/Context/Blind.antt =====
-- apps/hub/src/services/store/context.ts: calls that leave a view of the tables as it was, however
-- they end. The view does not show what every mutation writes: the projects' sequence numbers, the
-- events and the idempotency keys.
use ayanami_agent_hub.Base.{ℕ, ◌≡◌, refl, sym, ap, ◌∙◌, Bool, String, List, Option, none, some}
use ayanami_agent_hub.Base.Table.{find}
use ayanami_agent_hub.Hub.Rows.{Event, EventDraft, ProjectRow, IdempotencyKey}
use ayanami_agent_hub.Hub.Context.{
  Store, Hub, Result, ok, err, HubError, Action, MutationOptions, continue, monad, pure, select,
  or_throw, throw, throw_if, modify, ◌>>=◌, ◌>>◌, write_event, append_event, buffer, emit, restore,
  transaction, settle, respond, idempotent, mutate, idempotency_operation,
}
use ayanami_agent_hub.Hub.Context.Readers.{
  IsReader, pure-IsReader, select-IsReader, or_throw-IsReader, throw_if-IsReader,
}

module _ {R V : Type 0} (view : Store R → V) where
  pub record IsBlind {A : Type 0} (m : Action R A) : Type 0 where
    pub same : (h : Hub R) → view (m h).1.store ≡ view h.store

  pub IsReader-IsBlind : {A : Type 0} (m : Action R A) → IsReader m → IsBlind m
  IsReader-IsBlind m r = record { same = λ h. ap (λ (k : Hub R). view k.store) (r.reads h) }

  pub pure-IsBlind : {A : Type 0} (a : A) → IsBlind (pure a)
  pure-IsBlind a = IsReader-IsBlind (pure a) (pure-IsReader a)

  pub select-IsBlind : {A : Type 0} (f : Store R → A) → IsBlind (select f)
  select-IsBlind f = IsReader-IsBlind (select f) (select-IsReader f)

  pub or_throw-IsBlind : {A : Type 0} (o : Option A) (x : HubError) → IsBlind (or_throw o x)
  or_throw-IsBlind o x = IsReader-IsBlind (or_throw o x) (or_throw-IsReader o x)

  pub throw-IsBlind : {A : Type 0} (x : HubError) → IsBlind {A = A} (throw x)
  unfolding throw
  throw-IsBlind x = record { same = λ h. refl }

  pub throw_if-IsBlind : (c : Bool) (x : HubError) → IsBlind (throw_if c x)
  throw_if-IsBlind c x = IsReader-IsBlind (throw_if c x) (throw_if-IsReader c x)

  pub modify-IsBlind :
      (f : Store R → Store R) → ((s : Store R) → view (f s) ≡ view s) → IsBlind (modify f)
  unfolding modify
  modify-IsBlind f e = record { same = λ h. e h.store }

  continue_same :
      {A B : Type 0} (f : A → Action R B) (x : Result A × Hub R)
      → ((a : A) → IsBlind (f a))
      → view (continue f x).1.store ≡ view x.1.store
  unfolding continue
  continue_same f (ok a, h) b = (b a).same h
  continue_same f (err y, h) b = refl

  pub >>=-IsBlind :
      {A B : Type 0} (m : Action R A) (f : A → Action R B)
      → IsBlind m
      → ((a : A) → IsBlind (f a))
      → IsBlind (m >>= f)
  unfolding monad
  >>=-IsBlind m f b c = record { same = λ h. continue_same f (m h) c ∙ b.same h }

  pub >>-IsBlind :
      {B : Type 0} (m : Action R (Unit {0})) (k : Action R B)
      → IsBlind m
      → IsBlind k
      → IsBlind (m >> k)
  >>-IsBlind m k b c = >>=-IsBlind m (λ _. k) b (λ _. c)

  module _
      (unseen : (s : Store R) (projects : List ProjectRow) (events : List Event)
          (keys : List (IdempotencyKey R))
        → view (record s { projects = projects; events = events; idempotency_keys = keys })
          ≡ view s) where
    write_same :
        (now : ℕ) (draft : EventDraft) (o : Option ProjectRow) (h : Hub R)
        → view (continue buffer (write_event now draft o h)).1.store ≡ view h.store
    unfolding write_event buffer monad
    write_same now draft none h = refl
    write_same now draft (some p) h = unseen h.store _ _ h.store.idempotency_keys

    pub emit-IsBlind : (now : ℕ) (draft : EventDraft) → IsBlind (emit now draft)
    unfolding emit append_event monad
    emit-IsBlind now draft = record {
      same = λ h. write_same now draft (find (λ p. p.id) draft.project_id h.store.projects) h;
    }

    module _ (now project_id : ℕ) (key : String) (action : Action R R)
        (action_blind : IsBlind action) where
      respond-IsBlind :
          (name : String) (validate : R → Action R (Unit {0})) (o : Option (IdempotencyKey R))
          → ((r : R) → IsBlind (validate r))
          → IsBlind (respond now project_id key name validate action o)
      unfolding respond
      respond-IsBlind name validate (some k) v =
          >>-IsBlind _ _ (throw_if-IsBlind _ _)
            (>>-IsBlind _ _ (v k.response) (pure-IsBlind k.response))
      respond-IsBlind name validate none v = >>=-IsBlind _ _ action_blind λ r.
          >>=-IsBlind _ _ (select-IsBlind _) λ taken. >>-IsBlind _ _ (throw_if-IsBlind _ _) (
            >>-IsBlind _ _ (modify-IsBlind _ (λ s. unseen s s.projects s.events _))
              (pure-IsBlind r))

      settle_same :
          (before : Option (List Event)) (s : Store R) (x : Result R × Hub R)
          → view x.1.store ≡ view s
          → view (settle before (restore s x)).1.store ≡ view s
      unfolding settle restore
      settle_same none s (ok a, h) e = e
      settle_same (some es) s (ok a, h) e = e
      settle_same none s (err y, h) e = refl
      settle_same (some es) s (err y, h) e = refl

      pub mutate-IsBlind :
          (operation : String) (options : MutationOptions R)
          → ((r : R) → IsBlind (options.validate_replay r))
          → IsBlind (mutate now project_id key operation action options)
      unfolding mutate transaction idempotent
      mutate-IsBlind operation options v = record {
        same = λ h.
            let name = idempotency_operation operation options.request_fingerprint in
            settle_same h.active h.store _ (
              (>>=-IsBlind _ _ (select-IsBlind _)
                  λ o. respond-IsBlind name options.validate_replay o v).same
                _);
      }

  -- A step that leaves the view alone, in a block that succeeds.
  blind_known :
      {A B : Type 0} {b : B} {h' : Hub R} (f : A → Action R B) (x : Result A × Hub R)
      → continue f x ≡ (ok b, h')
      → (a : A) × (f a x.1 ≡ (ok b, h'))
  unfolding continue
  blind_known f (ok a, h) e = (a, e)
  blind_known f (err y, h) e = cc

  pub blind-then :
      {A B P : Type 0} {b : B} (h : Hub R) {h' : Hub R} (m : Action R A) (f : A → Action R B)
      → IsBlind m
      → (m >>= f) h ≡ (ok b, h')
      → ((a : A) (h₁ : Hub R) → view h₁.store ≡ view h.store → f a h₁ ≡ (ok b, h') → P)
      → P
  unfolding monad
  blind-then h m f blind e k = let (a, e') = blind_known f (m h) e in k a (m h).1 (blind.same h) e'

  pub blind_end :
      {A B : Type 0} {b : B} (h : Hub R) {h' : Hub R} (m : Action R A) (f : A → Action R B)
      → (m >>= f) h ≡ (ok b, h')
      → IsBlind m
      → ((a : A) → IsBlind (f a))
      → view h'.store ≡ view h.store
  blind_end {A} {B} h m f e blind rest =
      ap (λ (x : Result B × Hub R). view x.1.store) (sym e) ∙ (>>=-IsBlind m f blind rest).same h
