-- ===== src/Hub/Context/Succeeds.antt =====
-- apps/hub/src/services/store/context.ts: when a do block runs to its end.
use ayanami_agent_hub.Base.{ℕ, ◌≡◌, refl, ap, ◌∙◌, Bool, true, false, some, subst, sym}
use ayanami_agent_hub.Base.Table.{find}
use ayanami_agent_hub.Hub.Rows.{Event, EventDraft, ProjectRow}
use ayanami_agent_hub.Hub.Context.{
  Store, Hub, HubError, Result, ok, Action, pure, throw_if, modify, continue, monad, ◌>>=◌, ◌>>◌,
  write_event, append_event, buffer, emit,
}
use ayanami_agent_hub.Hub.Context.Steps.{SameTables}

-- The call returns.
abbrev pub Succeeds : {R A : Type 0} → Result A × Hub R → Type 0
Succeeds {R} {A} x = (a : A) × (h : Hub R) × (x ≡ (ok a, h))

module _ {R B : Type 0} (h : Hub R) where
  -- A step that returns, and then the rest.
  pub after :
      {A : Type 0} (m : Action R A) (f : A → Action R B) (a : A) (h₁ : Hub R)
      → m h ≡ (ok a, h₁)
      → Succeeds (f a h₁)
      → Succeeds ((m >>= f) h)
  unfolding monad
  after m f a h₁ e (b, h', e') = (b, h', ap (continue f) e ∙ e')

  pub after_throw_if :
      (c : Bool) (x : HubError) (m : Action R B)
      → c ≡ false
      → Succeeds (m h)
      → Succeeds ((throw_if c x >> m) h)
  unfolding monad
  after_throw_if true x m e s = cc
  after_throw_if false x m e s = s

  pub after_modify :
      (f : Store R → Store R) (m : Action R B)
      → Succeeds (m (record h { store = f h.store }))
      → Succeeds ((modify f >> m) h)
  unfolding monad
  after_modify f m s = s

  pub pure_succeeds : (b : B) → Succeeds (pure b h)
  unfolding monad
  pure_succeeds b = (b, h, refl)

  write_succeeds :
      (now : ℕ) (draft : EventDraft) (project : ProjectRow) (f : Event → Action R B)
      → ((event : Event) (h₁ : Hub R) → SameTables h.store h₁.store → Succeeds (f event h₁))
      → Succeeds (continue f (continue buffer (write_event now draft (some project) h)))
  unfolding write_event buffer monad
  write_succeeds now draft project f s = s _ _ refl

  -- In a project that is there, an event is written.
  pub after_emit :
      (now : ℕ) (draft : EventDraft) (project : ProjectRow) (f : Event → Action R B)
      → find (λ p. p.id) draft.project_id h.store.projects ≡ some project
      → ((event : Event) (h₁ : Hub R) → SameTables h.store h₁.store → Succeeds (f event h₁))
      → Succeeds ((emit now draft >>= f) h)
  unfolding emit append_event monad
  after_emit now draft project f found s =
      subst (λ o. Succeeds (continue f (continue buffer (write_event now draft o h)))) (sym found)
        (write_succeeds now draft project f s)
