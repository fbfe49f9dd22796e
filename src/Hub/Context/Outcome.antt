-- ===== src/Hub/Context/Outcome.antt =====
-- apps/hub/src/services/store/context.ts, mutate: the two ways in which a mutation succeeds.
use text.Mathlib.TextEquality.{eq_iff}
use ayanami_agent_hub.Base.{
  ℕ, ◌≡◌, refl, subst, ◌⊎◌, inl, inr, String, [], Option, none, some, arith, or_else,
}
use ayanami_agent_hub.Hub.Context.Steps.{settle-ok}
use ayanami_agent_hub.Hub.Rows.{IdempotencyKey}
use ayanami_agent_hub.Hub.Context.{
  Store, Hub, ok, Action, pure, monad, find_key, respond, idempotent, transaction, mutate,
  idempotency_operation,
}

-- Only the idempotency table differs.
abbrev pub SameButKeys : {R : Type 0} → Store R → Store R → Type 0
SameButKeys s s' = s' ≡ record s { idempotency_keys = s'.idempotency_keys }

-- The hub in which the action of a mutation runs.
abbrev pub inside : {R : Type 0} → Hub R → Hub R
inside h = record h { active = some (or_else h.active []) }

module _ {R : Type 0} (project_id : ℕ) (key operation : String) (action : Action R R) where
  -- A success is a replay of the stored response, which leaves the tables alone, or a run of the
  -- action, whose tables are kept.
  abbrev pub Outcome : Option String → Store R → Store R → Hub R → R → Type 0
  Outcome fingerprint s s' start r =
      ((k : IdempotencyKey R) × (find_key project_id key s.idempotency_keys ≡ some k)
        × (k.operation ≡ idempotency_operation operation fingerprint)
        × (r ≡ k.response)
        × (s' ≡ s))
      ⊎ ((h₂ : Hub R) × (find_key project_id key s.idempotency_keys ≡ none)
          × (action start ≡ (ok r, h₂))
          × SameButKeys h₂.store s')

  respond-Outcome :
      (now : ℕ) (fingerprint : Option String) (o : Option (IdempotencyKey R)) (h h' : Hub R) (r : R)
      → find_key project_id key h.store.idempotency_keys ≡ o
      → respond now project_id key
          (idempotency_operation operation fingerprint)
          (λ _. pure tt)
          action
          o
          (inside h)
        ≡ (ok r, h')
      → Outcome fingerprint h.store h'.store (inside h) r
  unfolding respond monad
  respond-Outcome now fingerprint (some k) h h' r found e = inl (
    k,
    found,
    ground (arith, eq_iff k.operation (idempotency_operation operation fingerprint)),
    ground arith,
    ground arith,
  )
  respond-Outcome now fingerprint none h h' r found e =
      inr ((action (inside h)).1, found, ground arith, ground arith)

  pub mutate-Outcome :
      (now : ℕ) (fingerprint : Option String) (h h' : Hub R) (r : R)
      → mutate now project_id key operation action
          (record { request_fingerprint = fingerprint; validate_replay = λ _. pure tt })
          h
        ≡ (ok r, h')
      → Outcome fingerprint h.store h'.store (inside h) r
  unfolding mutate transaction idempotent monad
  mutate-Outcome now fingerprint h h' r e =
      let cached = find_key project_id key h.store.idempotency_keys in
      let name = idempotency_operation operation fingerprint in
      let x = respond now project_id key name (λ _. pure tt) action cached (inside h) in
      let (returned, kept) = settle-ok h.active h.store x h' r e in
      subst (λ s. Outcome fingerprint h.store s (inside h) r) kept
        (respond-Outcome now fingerprint cached h x.1 r refl (λ i. (returned i, x.1)))
