-- ===== src/Hub/Sessions.antt =====
-- apps/hub/src/services/store/sessions.ts: reading a session.
use ayanami_agent_hub.Base.{ℕ, Bool, true, false, ◌≡◌, ◌≢◌, some, arith, Option-cases, inl, inr}
use ayanami_agent_hub.Base.Table.{find}
use ayanami_agent_hub.Hub.Rows.{SessionRow, ConnectionState, closed}
use ayanami_agent_hub.Hub.Context.{
  Action, Hub, ok, monad, not_found, session_closed, select, or_throw, throw_if, pure, ◌>>=◌, ◌>>◌,
}

abbrev pub session_key : SessionRow → ℕ
session_key s = s.id

abbrev pub is_closed : ConnectionState → Bool
is_closed closed = true
is_closed _ = false

pub is_closed-false : (s : ConnectionState) → is_closed s ≡ false → s ≢ closed
is_closed-false s p e = ground arith

pub not_closed : (s : ConnectionState) → s ≢ closed → is_closed s ≡ false
not_closed s ne = ground arith

unfoldable pub get_session : {R : Type 0} → ℕ → Action R SessionRow
get_session session_id = do
  row ← select (λ s. find session_key session_id s.agent_sessions)
  or_throw row (not_found "Session" session_id)

-- A CLOSED session is immutable history.
unfoldable pub get_open_session : {R : Type 0} → ℕ → Action R SessionRow
get_open_session session_id = do
  session ← get_session session_id
  throw_if (is_closed session.connection_state) (session_closed session_id)
  pure session

module _ {R B P : Type 0} {b : B} (h : Hub R) {h' : Hub R} where
  pub get_session-then :
      (session_id : ℕ) (f : SessionRow → Action R B)
      → (get_session session_id >>= f) h ≡ (ok b, h')
      → ((s : SessionRow)
          → find session_key session_id h.store.agent_sessions ≡ some s
          → f s h ≡ (ok b, h')
          → P)
      → P
  unfolding get_session monad
  get_session-then session_id f e k =
      elim (Option-cases (find session_key session_id h.store.agent_sessions)) [
        | inl missing ↦ absurd (ground arith)
        | inr (s, found) ↦ k s found (ground arith)
      ]
