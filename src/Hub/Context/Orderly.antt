-- ===== src/Hub/Context/Orderly.antt =====
-- apps/hub/src/services/store/context.ts: what a call inside a mutation may do to the publication
-- buffer, with a rule for each part of a do block.
use mathlib.Core.List.{append-nil, append_assoc}
use ayanami_agent_hub.Base.{
  ℕ, ◌≡◌, refl, sym, ap, ◌∙◌, Bool, true, false, String, List, [], ◌∷◌, ◌++◌, Option, none, some,
  or_else,
}
use ayanami_agent_hub.Base.Table.{find}
use ayanami_agent_hub.Hub.Rows.{Event, EventDraft, ProjectRow, IdempotencyKey}
use ayanami_agent_hub.Hub.Context.Sequence.{IsNumbered, id, next_event, write-IsNumbered}
use ayanami_agent_hub.Hub.Context.{
  Store, Hub, HubError, not_found, Result, ok, err, Action, pure, throw, select, or_throw, throw_if,
  modify, continue, restore, ◌>>=◌, ◌>>◌, append_event, write_event, buffer, monad, emit,
  transaction, respond, idempotent,
}

-- The numbering of the events survives.
abbrev pub Numbers : {R : Type 0} → Hub R → Hub R → Type 0
Numbers h h' =
    IsNumbered h.store.projects h.store.events → IsNumbered h'.store.projects h'.store.events

-- What a call inside a mutation has done, by how it ended: the publication buffer grew by the
-- events that were written, which keep the numbering, and nothing was published.
abbrev pub Ran : {R A : Type 0} → List Event → Hub R → Result A × Hub R → Type 0
Ran es h (ok _, h') =
    (more : List Event) × (h'.active ≡ some (es ++ more))
    × (h'.store.events ≡ h.store.events ++ more)
    × (h'.bus ≡ h.bus)
    × Numbers h h'
Ran es h (err _, h') = (more : List Event) × (h'.active ≡ some (es ++ more)) × (h'.bus ≡ h.bus)

pub record IsOrderly {R A : Type 0} (m : Action R A) : Type 0 where
  pub runs : (es : List Event) (h : Hub R) → h.active ≡ some es → Ran es h (m h)

module _ {R : Type 0} where
  pub nothing_more :
      {A : Type 0} (es : List Event) (h : Hub R) (a : A) → h.active ≡ some es → Ran es h (ok a, h)
  nothing_more es h a e =
      ([], e ∙ ap some (sym (append-nil es)), sym (append-nil h.store.events), refl, λ n. n)

  pub nothing_thrown :
      (A : Type 0) (es : List Event) (h : Hub R) (x : HubError)
      → h.active ≡ some es
      → Ran {A = A} es h (err x, h)
  nothing_thrown A es h x e = ([], e ∙ ap some (sym (append-nil es)), refl)

  pub pure-IsOrderly : {A : Type 0} (a : A) → IsOrderly {R = R} (pure a)
  unfolding pure
  pure-IsOrderly a = record { runs = λ es h e. nothing_more es h a e }

  pub select-IsOrderly : {A : Type 0} (f : Store R → A) → IsOrderly (select f)
  unfolding select
  select-IsOrderly f = record { runs = λ es h e. nothing_more es h (f h.store) e }

  pub throw-IsOrderly : {A : Type 0} (x : HubError) → IsOrderly {R = R} {A = A} (throw x)
  unfolding throw
  throw-IsOrderly {A} x = record { runs = λ es h e. nothing_thrown A es h x e }

  pub or_throw-IsOrderly :
      {A : Type 0} (o : Option A) (x : HubError) → IsOrderly {R = R} (or_throw o x)
  unfolding or_throw
  or_throw-IsOrderly {A} none x = record { runs = λ es h e. nothing_thrown A es h x e }
  or_throw-IsOrderly (some a) x = record { runs = λ es h e. nothing_more es h a e }

  pub throw_if-IsOrderly : (c : Bool) (x : HubError) → IsOrderly {R = R} (throw_if c x)
  unfolding throw_if
  throw_if-IsOrderly true x = record { runs = λ es h e. nothing_thrown (Unit {0}) es h x e }
  throw_if-IsOrderly false x = record { runs = λ es h e. nothing_more es h tt e }

  pub modify-IsOrderly :
      (f : Store R → Store R)
      → ((s : Store R) → ((f s).events ≡ s.events) × ((f s).projects ≡ s.projects))
      → IsOrderly (modify f)
  unfolding modify
  modify-IsOrderly f keeps = record {
    runs = λ es h e. (
      [],
      e ∙ ap some (sym (append-nil es)),
      (keeps h.store).0 ∙ sym (append-nil h.store.events),
      refl,
      λ n. rw ((keeps h.store).0, (keeps h.store).1) n,
    );
  }

  -- The same by equations of functions, which `refl` proves.
  pub writing-IsOrderly :
      (f : Store R → Store R)
      → ((s : Store R) → (f s).events ≡ s.events)
      → ((s : Store R) → (f s).projects ≡ s.projects)
      → IsOrderly (modify f)
  writing-IsOrderly f e p = modify-IsOrderly f (λ s. (e s, p s))

  continue-Ran :
      {A B : Type 0} (f : A → Action R B) (es : List Event) (h : Hub R) (r : Result A × Hub R)
      → ((a : A) → IsOrderly (f a))
      → Ran es h r
      → Ran es h (continue f r)
  unfolding continue
  continue-Ran f es h (err x, h') fo ran = ran
  continue-Ran {B} f es h (ok a, h') fo (more, buffered, written, same, numbers) =
      extend (f a h') ((fo a).runs (es ++ more) h' buffered)
    where
      extend : (r : Result B × Hub R) → Ran (es ++ more) h' r → Ran es h r
      extend (ok b, h'') (rest, p, q, s, n) = (
        more ++ rest,
        p ∙ ap some (append_assoc es more rest),
        q ∙ ap (λ l. l ++ rest) written ∙ append_assoc h.store.events more rest,
        s ∙ same,
        λ k. n (numbers k),
      )
      extend (err x, h'') (rest, p, s) =
          (more ++ rest, p ∙ ap some (append_assoc es more rest), s ∙ same)

  pub >>=-IsOrderly :
      {A B : Type 0} (m : Action R A) (f : A → Action R B)
      → IsOrderly m
      → ((a : A) → IsOrderly (f a))
      → IsOrderly (m >>= f)
  unfolding ◌>>=◌
  >>=-IsOrderly m f mo fo = record {
    runs = λ es h e. continue-Ran f es h (m h) fo (mo.runs es h e);
  }

  pub >>-IsOrderly :
      {B : Type 0} (m : Action R (Unit {0})) (k : Action R B)
      → IsOrderly m
      → IsOrderly k
      → IsOrderly (m >> k)
  >>-IsOrderly m k mo ko = >>=-IsOrderly m (λ _. k) mo (λ _. ko)

  restore-Ran :
      {A : Type 0} (before : Store R) (es : List Event) (h : Hub R) (r : Result A × Hub R)
      → Ran es h r
      → Ran es h (restore before r)
  unfolding restore
  restore-Ran before es h (ok a, h') ran = ran
  restore-Ran before es h (err x, h') ran = ran

  pub transaction-IsOrderly :
      {A : Type 0} (m : Action R A) → IsOrderly m → IsOrderly (transaction m)
  unfolding transaction
  transaction-IsOrderly m mo = record {
    runs = λ es h e. restore-Ran h.store es h (m h) (mo.runs es h e);
  }

  buffered-Ran :
      (now : ℕ) (draft : EventDraft) (o : Option ProjectRow) (es : List Event) (h : Hub R)
      → h.active ≡ some es
      → find id draft.project_id h.store.projects ≡ o
      → Ran es h (continue buffer (write_event now draft o h))
  unfolding write_event monad buffer
  buffered-Ran now draft none es h e found =
      nothing_thrown Event es h (not_found "Project" draft.project_id) e
  buffered-Ran now draft (some row) es h e found =
      let event = next_event now draft row in
      (
        event ∷ [],
        ap (λ a. some (or_else a [] ++ event ∷ [])) e,
        refl,
        refl,
        write-IsNumbered now draft h.store.projects h.store.events row found,
      )

  pub emit-IsOrderly : (now : ℕ) (draft : EventDraft) → IsOrderly {R = R} (emit now draft)
  unfolding emit append_event monad buffer
  emit-IsOrderly now draft = record {
    runs = λ es h e.
        buffered-Ran now draft (find (λ p. p.id) draft.project_id h.store.projects) es h e refl;
  }

  respond-IsOrderly :
      (now project_id : ℕ) (key name : String) (validate : R → Action R (Unit {0}))
      (action : Action R R) (cached : Option (IdempotencyKey R))
      → ((r : R) → IsOrderly (validate r))
      → IsOrderly action
      → IsOrderly (respond now project_id key name validate action cached)
  unfolding respond
  respond-IsOrderly now p key name validate action (some k) vo ao =
      >>=-IsOrderly _ _ (throw_if-IsOrderly _ _)
        λ _. >>=-IsOrderly _ _ (vo k.response) λ _. pure-IsOrderly k.response
  respond-IsOrderly now p key name validate action none vo ao = >>=-IsOrderly _ _ ao λ r.
      >>=-IsOrderly _ _ (select-IsOrderly _) λ t.
        >>=-IsOrderly _ _ (throw_if-IsOrderly _ _)
          λ _. >>=-IsOrderly _ _ (modify-IsOrderly _ (λ s. (refl, refl))) λ _. pure-IsOrderly r

  pub idempotent-IsOrderly :
      (now project_id : ℕ) (key name : String) (validate : R → Action R (Unit {0}))
      (action : Action R R)
      → ((r : R) → IsOrderly (validate r))
      → IsOrderly action
      → IsOrderly (idempotent now project_id key name validate action)
  unfolding idempotent
  idempotent-IsOrderly now p key name validate action vo ao =
      >>=-IsOrderly _ _ (select-IsOrderly _)
        λ c. respond-IsOrderly now p key name validate action c vo ao

pub ruleset orderly = (
  pure-IsOrderly, select-IsOrderly, throw-IsOrderly, or_throw-IsOrderly, throw_if-IsOrderly,
  >>=-IsOrderly, >>-IsOrderly, transaction-IsOrderly, emit-IsOrderly, writing-IsOrderly, refl,
)
