-- ===== src/Hub/Context/Replay.antt =====
-- apps/hub/src/services/store/context.ts, mutate: what a key that was used before answers.
use mathlib.Core.List.{append-nil}
use text.Mathlib.TextEquality.{eq_iff}
use text.Mathlib.TextPositions.{eq_refl}
use Prim.Native.String.{◌++◌ as ◌++s◌}
use ayanami_agent_hub.Base.{
  ◌≢◌, ℕ, ◌≡◌, refl, sym, subst, ap, ◌∙◌, String, List, [], ◌∷◌, ◌++◌, Option, none, some, arith,
  or_else,
}
use ayanami_agent_hub.Hub.Context.Steps.{settle-ok}
use ayanami_agent_hub.Hub.Rows.{Event, IdempotencyKey}
use ayanami_agent_hub.Hub.Context.{
  Store, Hub, conflict, ok, err, Action, pure, monad, find_key, respond, idempotent, restore,
  settle, transaction, mutate, idempotency_operation, MutationOptions,
}

module _ {R : Type 0} (project_id : ℕ) (key : String) where
  find_key-append :
      (ks : List (IdempotencyKey R)) (k : IdempotencyKey R)
      → find_key project_id key ks ≡ none
      → k.project_id ≡ project_id
      → k.key ≡ key
      → find_key project_id key (ks ++ k ∷ []) ≡ some k
  unfolding find_key
  find_key-append [] k h p q = rw (p, q, eq_refl key) (ground arith)
  find_key-append (x ∷ ks) k h p q = ground (arith, find_key-append ks k)

  -- The key is stored for the operation `name`, with the response `r`.
  abbrev Stored : String → R → Store R → Type 0
  Stored name r s =
      (k : IdempotencyKey R) × (find_key project_id key s.idempotency_keys ≡ some k)
      × (k.operation ≡ name)
      × (k.response ≡ r)

  module _ (now : ℕ) (name : String) (action : Action R R) where
    respond-Stored :
        (o : Option (IdempotencyKey R)) (h h' : Hub R) (r : R)
        → find_key project_id key h.store.idempotency_keys ≡ o
        → respond now project_id key name (λ _. pure tt) action o h ≡ (ok r, h')
        → Stored name r h'.store
    unfolding respond monad
    respond-Stored (some k) h h' r found e =
        (k, ground arith, ground (arith, eq_iff k.operation name), ground arith)
    respond-Stored none h h' r found e =
        let stored : IdempotencyKey R = record {
          project_id = project_id;
          key = key;
          operation = name;
          response = r;
          created_at = now;
        } in
        (
          stored,
          ground (arith, find_key-append (action h).1.store.idempotency_keys stored),
          refl,
          refl,
        )

    -- Whatever the action, a stored key for the same operation answers with its response.
    respond_again :
        (h : Hub R) (k : IdempotencyKey R) (r : R)
        → k.operation ≡ name
        → k.response ≡ r
        → respond now project_id key name (λ _. pure tt) action (some k) h ≡ (ok r, h)
    unfolding respond monad
    respond_again h k r same answer = ground (arith, eq_iff k.operation name)

    -- A key that was used for another operation is refused.
    respond_other :
        (h : Hub R) (k : IdempotencyKey R) (validate : R → Action R (Unit {0}))
        → k.operation ≢ name
        → (respond now project_id key name validate action (some k) h).0
          ≡ err (conflict ("Idempotency key was already used for " ++s k.operation))
    unfolding respond monad
    respond_other h k validate other = ground (arith, eq_iff k.operation name)

  -- Settling a call that changed nothing changes nothing.
  settle_unchanged :
      (before : Option (List Event)) (h : Hub R) (r : R)
      → h.active ≡ before
      → settle before (restore h.store (ok r, record h { active = some (or_else before []) }))
        ≡ (ok r, h)
  unfolding settle restore
  settle_unchanged none h r e =
      λ i. (ok r, record { store = h.store; active = sym e i; bus = append-nil h.bus i })
  settle_unchanged (some es) h r e =
      λ i. (ok r, record { store = h.store; active = sym e i; bus = h.bus })

  abbrev plain : Option String → MutationOptions R
  plain fingerprint = record { request_fingerprint = fingerprint; validate_replay = λ _. pure tt }

  mutate-Stored :
      (now : ℕ) (operation : String) (fingerprint : Option String) (action : Action R R)
      (h h' : Hub R) (r : R)
      → mutate now project_id key operation action (plain fingerprint) h ≡ (ok r, h')
      → Stored (idempotency_operation operation fingerprint) r h'.store
  unfolding mutate transaction idempotent monad
  mutate-Stored now operation fingerprint action h h' r e =
      let name = idempotency_operation operation fingerprint in
      let start : Hub R = record h { active = some (or_else h.active []) } in
      let cached = find_key project_id key h.store.idempotency_keys in
      let x = respond now project_id key name (λ _. pure tt) action cached start in
      let (returned, kept) = settle-ok h.active h.store x h' r e in
      subst (Stored name r) kept
        (respond-Stored now name action cached start x.1 r refl (λ i. (returned i, x.1)))

  -- A mutation without a check of replays that succeeded, asked for again under the same key with
  -- the same fingerprint, gives the stored response and changes nothing: no table, no buffer,
  -- nothing is published. This holds at any later time and whatever the action would do now.
  pub mutate_replays :
      (now later : ℕ) (operation : String) (fingerprint : Option String)
      (action action' : Action R R) (h h' : Hub R) (r : R)
      → mutate now project_id key operation action (plain fingerprint) h ≡ (ok r, h')
      → mutate later project_id key operation action' (plain fingerprint) h' ≡ (ok r, h')
  unfolding mutate transaction idempotent monad
  mutate_replays now later operation fingerprint action action' h h' r e =
      let (k, found, same, answer) = mutate-Stored now operation fingerprint action h h' r e in
      let name = idempotency_operation operation fingerprint in
      let start : Hub R = record h' { active = some (or_else h'.active []) } in
      ap
        (λ o.
          settle h'.active
            (restore h'.store (respond later project_id key name (λ _. pure tt) action' o start)))
        found
      ∙ ap (λ x. settle h'.active (restore h'.store x))
          (respond_again later name action' start k r same answer)
      ∙ settle_unchanged h'.active h' r refl
