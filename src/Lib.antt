-- ===== src/Lib.antt =====
-- Verification of the AyanamiAgent Hub: the coordination server of several coding agents, and the
-- bridges that tie the agents to it. The development models the Hub's store, in which agents
-- claim, change, review and finish tasks, and what the agents' side decides about time and order:
-- the recovery fuse, the credential drain and the reconnect backoff of the Codex bridge, and the
-- pump that feeds a Claude channel with the project's events.
--
-- How the parts interact. Every write of the Hub is a mutation of the store: one transaction, one
-- idempotency record, and the events that it writes, which are published after the commit. The
-- events of a project are numbered; a channel receives them live or by replay and hands them on in
-- their order. The rules that the store and the clients share are in packages/protocol.
--
-- Files.
--   Base and its children: names of the libraries that the other modules share; tests, lists,
--     tables, members of a keyed or sorted list and the decimal text of a number.
--   Protocol/Task, Protocol/Task/Lifecycle: TASK_STATUSES and TASK_TRANSITIONS of
--     packages/protocol/src/constants.ts, assertTaskTransition of
--     packages/protocol/src/helpers.ts.
--   Protocol/Progress, Protocol/Push: computeTaskProgress and choosePushAction of helpers.ts.
--   Protocol/Recipients: describeMessageRecipientConflict of packages/protocol/src/schemas.ts.
--   Hub/Rows, Hub/MessageRows: the tables of migrations/0001_initial.sql, with the columns that
--     the operations read or write.
--   Hub/Context: appendEvent and mutate of apps/hub/src/services/store/context.ts. A call of the
--     store is a function of the Hub into a result and the next Hub, also after a throw
--     (`Action`). Its children hold what is known of all mutations (Orderly, Atomic, Replay,
--     Outcome, Sequence) and the rules by which the proofs walk through a do block (Steps,
--     Readers, Succeeds). Blind has the rules for an action that leaves a part of the tables
--     alone, Cases what a mutation makes of such a part.
--   Hub/Sessions: getSession and getOpenSession of apps/hub/src/services/store/sessions.ts.
--   Hub/Tasks and its children: apps/hub/src/services/store/tasks.ts. getTask, dependenciesForTask
--     and listTodos are in Hub/Tasks; claimTask and releaseTask in Ownership; createTask in
--     Creation; splitTask in Split; updateTask in Update; recomputeProgress and
--     assertTaskCompletionGate in Progress; createTodo and updateTodo in Todos; listTasks in
--     Listing; handoffTask in Handoff. These calls as data are in Calls, and the versions of the
--     tasks under them in Versions, Versioned and History. `claim_body` and its like are the
--     functions that claimTask and its like hand to mutate.
--   Hub/MutationAuthority: resolveSessionMutationActor and mutationOptions of
--     apps/hub/src/services/store/mutation-authority.ts.
--   Hub/Messages and its children: getMessage and postMessage of
--     apps/hub/src/services/store/messages.ts, as the store calls it for a session; what is posted
--     is in Inputs, the guards in Checks, the thread in Conversation, the rows in Inserts;
--     Duplicates says when a dedupe key is known, Parts, Posted and Laws what a post adds.
--   Hub/Reviews and its children: apps/hub/src/services/store/reviews.ts. getReview and the guards
--     are in Hub/Reviews; beginReview in Begin; createFinding and resolveFinding in Findings;
--     submitReviewVerdict in Verdict; requestReview in Request and its children Inputs and
--     Inserts. Turns is the board of reviews as a step relation, Latest, Order and Lasts what its
--     steps keep, Guards what is known after a guard, Blind and Quiet which parts leave the
--     reviews alone, Orderly, Replays and Versioned what all the operations share with the tasks'.
--   Hub/Calls and its children: the calls of the tasks and the reviews as data, and any sequence
--     of them; Turns shows that each is a step of the board of reviews.
--   Bridge/Fuse and its children: packages/codex-bridge/src/app-server-recovery-fuse.ts.
--   Bridge/Drain and its children: packages/codex-bridge/src/credential-cutover-drain.ts.
--   Bridge/Backoff: HubReconnectBackoff of packages/codex-bridge/src/hub-resilience.ts.
--   Channel/Pump and its children, Channel/Queue:
--     packages/claude-channel/src/ordered-event-pump.ts; the queue in front of the pump is in
--     Queue.
--   The files named Scenarios, and the children of Hub/Scenarios, run the definitions on concrete
--     states and apply the theorems to them.
--
-- Choices. Row identifiers are only compared, so they are natural numbers; agents and free text
-- are texts; instants are natural numbers, and a call of the store happens at one instant. An
-- identifier that createId draws is an argument, and a taken one violates the primary key. The
-- unique keys of reviews, recipients and messages are checked where a row is inserted. A foreign
-- key is taken to hold. better-sqlite3's transaction restores the tables on a throw, inside
-- another transaction too. A stored response is kept as it is, without its way through JSON, and
-- the digest that identifies a request is an argument. What git and the file system give to
-- requestReview, the changed files and the saved patch or an error, are arguments as well. An exit
-- code is a natural number, and the detail of a message is a list of fields. The weights of a
-- checklist are counted in a common unit and the arithmetic on them is exact; progress is in
-- tenths of a percent. An asynchronous call is cut where it awaits the outside: the fuse's probe
-- into `probe` and `finish_probe`, and a waiting caller of the drain is an entry of a list. The
-- pump's callbacks are functions of a world, which also holds the flag `stopped`. The pump's loop
-- runs on fuel, the distance from the cursor to the target, which is enough since each turn brings
-- the cursor forward.
--
-- Not modelled. createTask, updateTask, createTodo and updateTodo take the actor that
-- resolveMutationActor returned, which stands on the session tickets. Posting a message with a
-- principal stands on them too. The delivery of messages, the removal of a patch's file after a
-- failed request, directives, write intents, authorizations, sessions beyond their reading and
-- isHubNetworkError are left out. The HTTP, MCP and websocket surfaces, the dashboard, the command
-- line and the installers are input, output and processes.
pub mod Base
pub mod Protocol
pub mod Hub
pub mod Bridge
pub mod Channel
