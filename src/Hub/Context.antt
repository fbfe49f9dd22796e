-- ===== src/Hub/Context.antt =====
-- apps/hub/src/services/store/context.ts and domain/errors.ts: what every store module works in.
-- The database is a record of tables; a call of the store is a function of the Hub's state into a
-- result and the next state, which comes back after a throw too. A transaction restores the tables
-- then. `now` is the time of a call.
pub mod Orderly
pub mod Atomic
pub mod Steps
pub mod Outcome
pub mod Replay
pub mod Sequence
pub mod Readers
pub mod Succeeds
pub mod Blind
pub mod Cases
use text.Mathlib.Text.{◌==◌ as str_eq}
use Prim.Native.String.{◌++◌ as ◌++s◌}
use ayanami_agent_hub.Base.{
  ℕ, suc, ◌+◌, Bool, true, false, String, List, [], ◌∷◌, ◌++◌, Option, none, some, is_some, or_else,
  length, take, ◌==◌, ◌&&◌, not, if◌then◌else◌,
}
use ayanami_agent_hub.Base.Table.{find, update}
use ayanami_agent_hub.Hub.Rows.{
  TaskRow, TaskDependency, TodoRow, ReviewRow, FindingRow, SessionRow, ProjectRow, Event,
  EventDraft, IdempotencyKey, LineageRow, ArtifactRow, TestEvidenceRow,
}
use ayanami_agent_hub.Hub.MessageRows.{MessageRow, RecipientRow, ThreadRow}

-- HubError and its subclasses, and the plain Error of assertTaskTransition. Of a ConflictError the
-- attached row is left out.
pub data HubError : Type 0 where
  not_found : String → ℕ → HubError
  conflict : String → HubError
  forbidden : String → HubError
  session_closed : ℕ → HubError
  invalid_transition : HubError
  -- A HubError of status 422, by its code.
  unprocessable : String → HubError
  -- A primary key that is taken.
  constraint : String → HubError

pub record Store (R : Type 0) : Type 0 where
  pub projects : List ProjectRow
  pub tasks : List TaskRow
  pub task_dependencies : List TaskDependency
  pub todo_items : List TodoRow
  pub reviews : List ReviewRow
  pub review_findings : List FindingRow
  pub artifacts : List ArtifactRow
  pub test_evidence : List TestEvidenceRow
  pub agent_sessions : List SessionRow
  pub session_lineages : List LineageRow
  pub messages : List MessageRow
  pub message_recipients : List RecipientRow
  pub threads : List ThreadRow
  pub events : List Event
  pub idempotency_keys : List (IdempotencyKey R)

-- `active` is activeMutationEvents; `bus` holds what has been published, oldest first.
pub record Hub (R : Type 0) : Type 0 where
  pub store : Store R
  pub active : Option (List Event)
  pub bus : List Event

pub data Result (A : Type 0) : Type 0 where
  ok : A → Result A
  err : HubError → Result A

abbrev pub Action : Type 0 → Type 0 → Type 0
Action R A = Hub R → Result A × Hub R

module _ {R A : Type 0} where
  unfoldable pub pure : A → Action R A
  pure a h = (ok a, h)

  unfoldable pub throw : HubError → Action R A
  throw e h = (err e, h)

  -- A SELECT.
  unfoldable pub select : (Store R → A) → Action R A
  select f h = (ok (f h.store), h)

  unfoldable pub or_throw : Option A → HubError → Action R A
  or_throw none e h = (err e, h)
  or_throw (some a) e h = (ok a, h)

-- What follows a call, by how it ended.
unfoldable pub continue : {R A B : Type 0} → (A → Action R B) → Result A × Hub R → Result B × Hub R
continue f (ok a, h) = f a h
continue f (err e, h) = (err e, h)

infixl 5 ◌>>=◌ ◌>>◌
unfoldable pub ◌>>=◌ : {R A B : Type 0} → Action R A → (A → Action R B) → Action R B
unfolding continue
◌>>=◌ m f h = continue f (m h)

abbrev pub ◌>>◌ : {R A B : Type 0} → Action R A → Action R B → Action R B
m >> k = m >>= λ _. k

-- An INSERT or an UPDATE.
unfoldable pub modify : {R : Type 0} → (Store R → Store R) → Action R (Unit {0})
modify f h = (ok tt, record h { store = f h.store })

-- `if (test) throw error`
unfoldable pub throw_if : {R : Type 0} → Bool → HubError → Action R (Unit {0})
throw_if c e h = (if c then err e else ok tt, h)

-- Opens a do block: `unfolding monad`.
unfoldable pub monad : Unit {0}
unfolding pure throw select or_throw modify throw_if ◌>>=◌
monad = tt

unfoldable pub allocate : ℕ → ProjectRow → ProjectRow
allocate now p = record p { current_sequence = p.current_sequence + 1; updated_at = now }

-- The event takes the project's next sequence number; a project that is not there is an error.
unfoldable pub write_event : {R : Type 0} → ℕ → EventDraft → Option ProjectRow → Action R Event
write_event now draft none = throw (not_found "Project" draft.project_id)
write_event now draft (some row) = do
  let event : Event = record {
    draft = draft;
    sequence = row.current_sequence + 1;
    created_at = now;
  }
  modify λ s. record s {
    projects = update (λ (p : ProjectRow). p.id) draft.project_id (allocate now) s.projects;
    events = s.events ++ event ∷ [];
  }
  pure event

-- UPDATE projects SET current_sequence = current_sequence + 1 … RETURNING, then the INSERT.
unfoldable pub append_event : {R : Type 0} → ℕ → EventDraft → Action R Event
unfolding write_event
append_event now draft = do
  project ← select (λ s. find (λ (p : ProjectRow). p.id) draft.project_id s.projects)
  write_event now draft project

-- `events.push(event)`
unfoldable pub buffer : {R : Type 0} → Event → Action R Event
buffer event h = (ok event, record h { active = some (or_else h.active [] ++ event ∷ []) })

-- The `emit` of a mutation: the event also goes to the publication buffer.
unfoldable pub emit : {R : Type 0} → ℕ → EventDraft → Action R Event
emit now draft = do event ← append_event now draft; buffer event

unfoldable pub restore : {R A : Type 0} → Store R → Result A × Hub R → Result A × Hub R
restore before (ok a, h) = (ok a, h)
restore before (err e, h) = (err e, record h { store = before })

-- better-sqlite3's `transaction`: a throw restores the tables. (Inside another transaction it is a
-- savepoint, which does the same.)
unfoldable pub transaction : {R A : Type 0} → Action R A → Action R A
transaction m h = restore h.store (m h)

-- `${operation}#${requestFingerprint}`, or the bare operation; an empty fingerprint is none.
abbrev pub idempotency_operation : String → Option String → String
idempotency_operation operation none = operation
idempotency_operation operation (some fingerprint) =
    if str_eq fingerprint "" then operation else operation ++s "#" ++s fingerprint

-- SELECT … FROM idempotency_keys WHERE project_id = ? AND key = ?
unfoldable pub find_key :
    {R : Type 0} → ℕ → String → List (IdempotencyKey R) → Option (IdempotencyKey R)
find_key project_id key [] = none
find_key project_id key (k ∷ ks) =
    if k.project_id == project_id && str_eq k.key key then some k else find_key project_id key ks

-- MutationOptions: the fingerprint of the request (the SHA-256 digest of its canonical JSON) and the
-- check of a replayed response.
pub record MutationOptions (R : Type 0) : Type 0 where
  pub request_fingerprint : Option String
  pub validate_replay : R → Action R (Unit {0})

abbrev pub no_options : {R : Type 0} → MutationOptions R
no_options = record { request_fingerprint = none; validate_replay = λ _. pure tt }

-- A cached key answers with the stored response, if it was used for the same operation; otherwise
-- the action runs and its result is stored under the key.
unfoldable pub respond :
    {R : Type 0}
    → ℕ
    → ℕ
    → String
    → String
    → (R → Action R (Unit {0}))
    → Action R R
    → Option (IdempotencyKey R)
    → Action R R
respond now project_id key operation validate action (some cached) = do
  throw_if (not (str_eq cached.operation operation))
      (conflict ("Idempotency key was already used for " ++s cached.operation))
  validate cached.response
  pure cached.response
respond now project_id key operation validate action none = do
  result ← action
  taken ← select (λ s. find_key project_id key s.idempotency_keys)
  throw_if (is_some taken) (constraint "idempotency_keys")
  modify λ s. record s {
    idempotency_keys =
        s.idempotency_keys
        ++ record {
          project_id = project_id;
          key = key;
          operation = operation;
          response = result;
          created_at = now;
        }
          ∷ [];
  }
  pure result

-- The function that `mutate` hands to `transaction`.
unfoldable pub idempotent :
    {R : Type 0} → ℕ → ℕ → String → String → (R → Action R (Unit {0})) → Action R R → Action R R
unfolding respond
idempotent now project_id key operation validate action = do
  cached ← select (λ s. find_key project_id key s.idempotency_keys)
  respond now project_id key operation validate action cached

-- After a throw the buffer is cut back to the checkpoint; after the commit of the outermost
-- mutation it is published.
unfoldable pub settle : {R A : Type 0} → Option (List Event) → Result A × Hub R → Result A × Hub R
settle none (ok a, h) = (ok a, record h { active = none; bus = h.bus ++ or_else h.active [] })
settle (some before) (ok a, h) = (ok a, h)
settle none (err e, h) = (err e, record h { active = none })
settle (some before) (err e, h) =
    (err e, record h { active = some (take (length before) (or_else h.active [])) })

unfoldable pub mutate :
    {R : Type 0} → ℕ → ℕ → String → String → Action R R → MutationOptions R → Action R R
mutate now project_id key operation action options h =
    let name = idempotency_operation operation options.request_fingerprint in
    settle h.active (
      transaction (idempotent now project_id key name options.validate_replay action)
        (record h { active = some (or_else h.active []) }))

-- Opens a whole mutation: `unfolding mutation`.
unfoldable pub mutation : Unit {0}
unfolding monad emit append_event write_event buffer allocate transaction restore find_key respond
    idempotent settle mutate find update
mutation = tt
