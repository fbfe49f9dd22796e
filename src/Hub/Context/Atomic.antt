-- ===== src/Hub/Context/Atomic.antt =====
-- apps/hub/src/services/store/context.ts, mutate: a mutation commits and publishes, or leaves no
-- trace; and a mutation inside another one does neither until the outermost one ends.
use mathlib.Core.Path.{ap₂}
use mathlib.Core.List.{append-nil}
use ayanami_agent_hub.Base.{
  ℕ, ◌≡◌, refl, sym, subst, ap, ◌∙◌, String, List, [], ◌∷◌, ◌++◌, Option, none, some, take, length,
  or_else,
}
use ayanami_agent_hub.Hub.Rows.{Event}
use ayanami_agent_hub.Hub.Context.{
  Hub, HubError, Result, ok, err, Action, restore, idempotency_operation, transaction, settle,
  idempotent, mutate, MutationOptions,
}
use ayanami_agent_hub.Hub.Context.Sequence.{IsNumbered}
use ayanami_agent_hub.Hub.Context.Orderly.{Ran, Numbers, IsOrderly, idempotent-IsOrderly}

-- How a mutation that is not nested ends: its events are published in the order in which they were
-- written, or nothing is left of it.
abbrev pub Settled : {R A : Type 0} → Hub R → Result A × Hub R → Type 0
Settled h (ok _, h') =
    (more : List Event) × (h'.active ≡ none)
    × (h'.store.events ≡ h.store.events ++ more)
    × (h'.bus ≡ h.bus ++ more)
    × Numbers h h'
Settled h (err _, h') = h' ≡ h

take-length-append {ℓ} : {A : Type ℓ} (xs ys : List A) → take (length xs) (xs ++ ys) ≡ xs
take-length-append [] ys = refl
take-length-append (x ∷ xs) ys = ap (◌∷◌ x) (take-length-append xs ys)

module _ {R A : Type 0} (h : Hub R) where
  outermost-Settled :
      (r : Result A × Hub R)
      → h.active ≡ none
      → Ran [] h r
      → Settled h (settle none (restore h.store r))
  unfolding settle restore
  outermost-Settled (ok a, h') idle (more, buffered, written, same, numbers) =
      (more, refl, written, ap₂ ◌++◌ same (ap (λ a. or_else a []) buffered), numbers)
  outermost-Settled (err x, h') idle (more, buffered, same) =
      λ i. record { store = h.store; active = sym idle i; bus = same i }

  nested_error :
      (r : Result A × Hub R) (es : List Event) {x : HubError}
      → h.active ≡ some es
      → Ran es h r
      → (settle (some es) (restore h.store r)).0 ≡ err x
      → (settle (some es) (restore h.store r)).1 ≡ h
  unfolding settle restore
  nested_error (ok a, h') es e ran failed = cc
  nested_error (err x, h') es e (more, buffered, same) failed =
      λ i. record { store = h.store; active = rolled_back i; bus = same i }
    where
      rolled_back : some (take (length es) (or_else h'.active [])) ≡ h.active
      rolled_back =
          ap (λ a. some (take (length es) (or_else a []))) buffered
          ∙ ap some (take-length-append es more)
          ∙ sym e

Settled-err :
    {R A : Type 0} (h : Hub R) (r : Result A × Hub R) {x : HubError}
    → Settled h r
    → r.0 ≡ err x
    → r.1 ≡ h
Settled-err h (ok a, h') s failed = cc
Settled-err h (err y, h') s failed = s

nested-Ran :
    {R A : Type 0} (h : Hub R) (es : List Event) (r : Result A × Hub R)
    → h.active ≡ some es
    → Ran es h r
    → Ran es h (settle (some es) (restore h.store r))
unfolding settle restore
nested-Ran h es (ok a, h') e ran = ran
nested-Ran h es (err x, h') e (more, buffered, same) = (
  [],
  ap (λ a. some (take (length es) (or_else a []))) buffered
      ∙ ap some (take-length-append es more)
      ∙ ap some (sym (append-nil es)),
  same,
)

-- `mutate` from a hub whose buffer is `a`.
abbrev mutate_from :
    {R : Type 0} → (Hub R → Result R × Hub R) → Hub R → Option (List Event) → Result R × Hub R
mutate_from body h a = settle a (transaction body (record h { active = some (or_else a []) }))

module _ {R : Type 0} (body : Action R R) (body_orderly : IsOrderly body) (h : Hub R) where
  from-Settled : h.active ≡ none → Settled h (mutate_from body h none)
  unfolding transaction
  from-Settled idle =
      let start : Hub R = record h { active = some [] } in
      outermost-Settled h (body start) idle (body_orderly.runs [] start refl)

  from_atomic :
      (a : Option (List Event)) {x : HubError}
      → h.active ≡ a
      → (mutate_from body h a).0 ≡ err x
      → (mutate_from body h a).1 ≡ h
  unfolding transaction
  from_atomic none e failed = Settled-err h (mutate_from body h none) (from-Settled e) failed
  from_atomic (some es) e failed =
      let start : Hub R = record h { active = some es } in
      nested_error h (body start) es e (body_orderly.runs es start refl) failed

  from-Ran : (es : List Event) → h.active ≡ some es → Ran es h (mutate_from body h (some es))
  unfolding transaction
  from-Ran es e =
      let start : Hub R = record h { active = some es } in
      nested-Ran h es (body start) e (body_orderly.runs es start refl)

module _ {R : Type 0} (now project_id : ℕ) (key operation : String) (action : Action R R)
    (options : MutationOptions R) (action_orderly : IsOrderly action)
    (replay_orderly : (r : R) → IsOrderly (options.validate_replay r)) where
  abbrev body : Action R R
  body =
      idempotent now project_id key (idempotency_operation operation options.request_fingerprint)
        options.validate_replay action

  body-IsOrderly : IsOrderly body
  body-IsOrderly =
      idempotent-IsOrderly now project_id key
        (idempotency_operation operation options.request_fingerprint) options.validate_replay action
        replay_orderly action_orderly

  -- A mutation that is not inside another one, and whose action and check of replays write events
  -- by `emit` alone, either commits, and then publishes exactly the events that it wrote, in their
  -- order; or it throws, and tables, buffer and bus are as before.
  pub mutate-Settled :
      (h : Hub R)
      → h.active ≡ none
      → Settled h (mutate now project_id key operation action options h)
  unfolding mutate
  mutate-Settled h idle =
      subst (λ a. Settled h (mutate_from body h a)) (sym idle)
        (from-Settled _ body-IsOrderly h idle)

  -- A mutation whose action and check of replays write events by `emit` alone leaves tables, buffer
  -- and bus as they were if it throws, nested or not.
  pub mutate_atomic :
      (h : Hub R) {x : HubError}
      → (mutate now project_id key operation action options h).0 ≡ err x
      → (mutate now project_id key operation action options h).1 ≡ h
  unfolding mutate
  mutate_atomic h failed = from_atomic _ body-IsOrderly h h.active refl failed

  -- Inside another mutation, a mutation publishes nothing and adds its events to the buffer.
  pub mutate-IsOrderly : IsOrderly (mutate now project_id key operation action options)
  unfolding mutate
  mutate-IsOrderly = record {
    runs = λ es h e.
        subst (λ a. Ran es h (mutate_from body h a)) (sym e) (from-Ran _ body-IsOrderly h es e);
  }

-- A hub at rest: nothing is buffered, what has been published is what is stored, and each project's
-- events are numbered without a gap.
pub record IsConsistent {R : Type 0} (h : Hub R) : Type 0 where
  pub idle : h.active ≡ none
  pub published : h.bus ≡ h.store.events
  pub numbered : IsNumbered h.store.projects h.store.events

Settled-IsConsistent :
    {R A : Type 0} (h : Hub R) (r : Result A × Hub R)
    → IsConsistent h
    → Settled h r
    → IsConsistent r.1
Settled-IsConsistent h (ok a, h') c (more, idle, written, published, numbers) = record {
  idle = idle;
  published = published ∙ ap (λ es. es ++ more) c.published ∙ sym written;
  numbered = numbers c.numbered;
}
Settled-IsConsistent h (err x, h') c same = subst IsConsistent (sym same) c

-- A mutation that is not inside another one, and whose action and check of replays write events by
-- `emit` alone, keeps a hub consistent, however it ends: subscribers have seen the stored events of
-- each project, numbered 1, 2, … without a gap.
pub mutate-IsConsistent :
    {R : Type 0} (now project_id : ℕ) (key operation : String) (action : Action R R)
    (options : MutationOptions R)
    → IsOrderly action
    → ((r : R) → IsOrderly (options.validate_replay r))
    → (h : Hub R) → IsConsistent h
    → IsConsistent (mutate now project_id key operation action options h).1
mutate-IsConsistent now project_id key operation action options ao ro h c =
    Settled-IsConsistent h (mutate now project_id key operation action options h) c
      (mutate-Settled now project_id key operation action options ao ro h c.idle)
