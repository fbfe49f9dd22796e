-- ===== src/Hub/Context/Steps.antt =====
-- apps/hub/src/services/store/context.ts: what is known after a step of a do block that succeeds.
use ayanami_agent_hub.Base.{ℕ, ◌≡◌, refl, Bool, true, false, List, Option, none, some, arith}
use ayanami_agent_hub.Base.Table.{find}
use ayanami_agent_hub.Hub.Rows.{Event, EventDraft, ProjectRow}
use ayanami_agent_hub.Hub.Context.{
  Store, Hub, HubError, Result, ok, err, Action, pure, select, or_throw, throw_if, modify, continue,
  monad, ◌>>=◌, ◌>>◌, append_event, write_event, buffer, emit, settle, restore,
}

-- Only the projects and the events differ.
abbrev pub SameTables : {R : Type 0} → Store R → Store R → Type 0
SameTables s s' = s' ≡ record s { projects = s'.projects; events = s'.events }

module _ {R B : Type 0} {b : B} (h : Hub R) {h' : Hub R} where
  write-then :
      (now : ℕ) (draft : EventDraft) (o : Option ProjectRow) (f : Event → Action R B)
      → continue f (continue buffer (write_event now draft o h)) ≡ (ok b, h')
      → (event : Event) × (h₁ : Hub R) × SameTables h.store h₁.store
        × (event.draft ≡ draft)
        × (f event h₁ ≡ (ok b, h'))
  unfolding write_event monad buffer
  write-then now draft none f e = cc
  write-then now draft (some row) f e = (_, _, refl, refl, e)

  pub pure-then : (a : B) → pure a h ≡ (ok b, h') → (a ≡ b) × (h ≡ h')
  unfolding monad
  pure-then a e = (ground arith, ground arith)

-- Each rule hands what is known, and the rest of the block, to its last argument.
module _ {R B P : Type 0} {b : B} (h : Hub R) {h' : Hub R} where
  pub or_throw-then :
      {A : Type 0} (o : Option A) (x : HubError) (f : A → Action R B)
      → (or_throw o x >>= f) h ≡ (ok b, h')
      → ((a : A) → o ≡ some a → f a h ≡ (ok b, h') → P)
      → P
  unfolding monad
  or_throw-then none x f e k = absurd (cc)
  or_throw-then (some a) x f e k = k a refl e

  pub select-then :
      {A : Type 0} (g : Store R → A) (f : A → Action R B)
      → (select g >>= f) h ≡ (ok b, h')
      → (f (g h.store) h ≡ (ok b, h') → P)
      → P
  unfolding monad
  select-then g f e k = k e

  pub throw_if-then :
      (c : Bool) (x : HubError) (m : Action R B)
      → (throw_if c x >> m) h ≡ (ok b, h')
      → (c ≡ false → m h ≡ (ok b, h') → P)
      → P
  unfolding monad
  throw_if-then true x m e k = absurd (cc)
  throw_if-then false x m e k = k refl e

  pub modify-then :
      (f : Store R → Store R) (m : Action R B)
      → (modify f >> m) h ≡ (ok b, h')
      → (m (record h { store = f h.store }) ≡ (ok b, h') → P)
      → P
  unfolding monad
  modify-then f m e k = k e

  pub emit-then :
      (now : ℕ) (draft : EventDraft) (f : Event → Action R B)
      → (emit now draft >>= f) h ≡ (ok b, h')
      → ((event : Event) (h₁ : Hub R)
          → SameTables h.store h₁.store
          → event.draft ≡ draft
          → f event h₁ ≡ (ok b, h')
          → P)
      → P
  unfolding emit append_event monad
  emit-then now draft f e k =
      let (event, h₁, kept, same, e') =
        write-then h now draft (find (λ p. p.id) draft.project_id h.store.projects) f e in
      k event h₁ kept same e'

module _ {R A B C : Type 0} (g : A → Action R B) (f : B → Action R C) where
  continue_assoc : (x : Result A × Hub R) → continue f (continue g x) ≡ continue (λ a. g a >>= f) x
  unfolding monad
  continue_assoc (ok a, h) = refl
  continue_assoc (err y, h) = refl

  pub >>=-assoc : (m : Action R A) (h : Hub R) → ((m >>= g) >>= f) h ≡ (m >>= λ a. g a >>= f) h
  unfolding monad
  >>=-assoc m h = continue_assoc (m h)

-- What a transaction that commits returned, and the tables that it left.
pub settle-ok :
    {R : Type 0} (before : Option (List Event)) (start : Store R) (x : Result R × Hub R)
    (h' : Hub R) (r : R)
    → settle before (restore start x) ≡ (ok r, h')
    → (x.0 ≡ ok r) × (x.1.store ≡ h'.store)
unfolding settle restore
settle-ok none start (ok a, h) h' r e = (ground arith, ground arith)
settle-ok none start (err y, h) h' r e = cc
settle-ok (some es) start (ok a, h) h' r e = (ground arith, ground arith)
settle-ok (some es) start (err y, h) h' r e = cc

ran_on :
    {R A B : Type 0} {b : B} {h' : Hub R} (f : A → Action R B) (x : Result A × Hub R)
    → continue f x ≡ (ok b, h')
    → (a : A) × (h₁ : Hub R) × (x ≡ (ok a, h₁)) × (f a h₁ ≡ (ok b, h'))
unfolding continue
ran_on f (ok a, h₁) e = (a, h₁, refl, e)
ran_on f (err y, h₁) e = cc

-- Any first step of a block that succeeds has succeeded.
pub step-then :
    {R A B P : Type 0} {b : B} (h : Hub R) {h' : Hub R} (m : Action R A) (f : A → Action R B)
    → (m >>= f) h ≡ (ok b, h')
    → ((a : A) (h₁ : Hub R) → m h ≡ (ok a, h₁) → f a h₁ ≡ (ok b, h') → P)
    → P
unfolding monad
step-then h m f e k = let (a, h₁, ran, rest) = ran_on f (m h) e in k a h₁ ran rest
