-- ===== src/Protocol/Recipients/Laws.antt =====
-- packages/protocol/src/schemas.ts, describeMessageRecipientConflict: which lists of recipients have
-- no conflict.
use text.Mathlib.Text.{◌==◌ as str_eq}
use text.Mathlib.TextEquality.{eq_iff}
use ayanami_agent_hub.Base.{
  ℕ, ◌≡◌, ◌≢◌, refl, ◌↔◌, ◌⊎◌, inl, inr, Bool, true, false, String, List, [], ◌∷◌, Option, none,
  some, opt_eq, ◌&&◌, ◌||◌, any, not, All, arith,
}
use ayanami_agent_hub.Protocol.Recipients.{
  Target, has_target, mixes, conflict_after, describe_message_recipient_conflict,
}

-- Two targets that a message may have together: of different agents, or of two different sessions.
abbrev pub Compatible : Target → Target → Type 0
Compatible t s =
    (s.agent_id ≢ t.agent_id)
    ⊎ ((i : ℕ) × (j : ℕ) × (t.session_id ≡ some i) × (s.session_id ≡ some j) × (j ≢ i))

-- Each target goes together with each one before it.
abbrev pub Disjoint : List Target → List Target → Type 0
Disjoint seen [] = Unit
Disjoint seen (t ∷ ts) = All (Compatible t) seen × Disjoint (t ∷ seen) ts

abbrev apart : Option ℕ → Option ℕ → Bool
apart none s = false
apart (some i) none = false
apart (some i) (some j) = not (opt_eq (some j) (some i))

abbrev refuses : Target → Target → Bool
refuses t s = str_eq s.agent_id t.agent_id && not (apart t.session_id s.session_id)

apart_sessions :
    (t s : Option ℕ) → apart t s ≡ true → (i : ℕ) × (j : ℕ) × (t ≡ some i) × (s ≡ some j) × (j ≢ i)
apart_sessions none s h = absurd (cc)
apart_sessions (some i) none h = absurd (cc)
apart_sessions (some i) (some j) h = (i, j, refl, refl, λ e. ground arith)

sessions_apart : (t s : Option ℕ) (i j : ℕ) → t ≡ some i → s ≡ some j → j ≢ i → apart t s ≡ true
sessions_apart t s i j p q n = rw p (rw q (ground arith))

refuses_cases : (same apart : Bool) → (same && not apart) ≡ false → (same ≡ false) ⊎ (apart ≡ true)
refuses_cases true true h = inr refl
refuses_cases true false h = cc
refuses_cases false a h = inl refl

refused-Compatible : (t s : Target) → refuses t s ≡ false → Compatible t s
refused-Compatible t s h =
    elim (refuses_cases (str_eq s.agent_id t.agent_id) (apart t.session_id s.session_id) h) [
      | inl other ↦ inl (λ e. ground (arith, eq_iff s.agent_id t.agent_id))
      | inr two ↦ inr (apart_sessions t.session_id s.session_id two)
    ]

Compatible-refused : (t s : Target) → Compatible t s → refuses t s ≡ false
Compatible-refused t s (inl p) = ground (arith, eq_iff s.agent_id t.agent_id)
Compatible-refused t s (inr (i, j, p, q, n)) =
    ground (arith, sessions_apart t.session_id s.session_id i j p q n)

-- The two tests of the loop together.
abbrev clash : Option ℕ → String → List Target → Bool
clash session agent seen =
    let t : Target = record { agent_id = agent; session_id = session } in
    has_target t seen || mixes t seen

clash-any :
    (session : Option ℕ) (agent : String) (seen : List Target)
    → clash session agent seen
      ≡ any (refuses (record { agent_id = agent; session_id = session })) seen
clash-any none agent [] = refl
clash-any (some i) agent [] = refl
clash-any none agent (s ∷ ss) = ground (arith, clash-any none agent ss)
clash-any (some i) agent (s ∷ ss) = ground (arith, clash-any (some i) agent ss)

any-All : (t : Target) (ss : List Target) → any (refuses t) ss ≡ false → All (Compatible t) ss
any-All t [] h = tt
any-All t (s ∷ ss) h = (refused-Compatible t s (ground arith), any-All t ss (ground arith))

All-any : (t : Target) (ss : List Target) → All (Compatible t) ss → any (refuses t) ss ≡ false
All-any t [] h = refl
All-any t (s ∷ ss) (c, cs) = ground (arith, Compatible-refused t s c, All-any t ss cs)

conflict-Disjoint : (seen ts : List Target) → conflict_after seen ts ≡ none → Disjoint seen ts
unfolding conflict_after
conflict-Disjoint seen [] h = tt
conflict-Disjoint seen (t ∷ ts) h = (
  any-All t seen (ground (arith, clash-any t.session_id t.agent_id seen)),
  conflict-Disjoint (t ∷ seen) ts (ground arith),
)

Disjoint-conflict : (seen ts : List Target) → Disjoint seen ts → conflict_after seen ts ≡ none
unfolding conflict_after
Disjoint-conflict seen [] h = refl
Disjoint-conflict seen (t ∷ ts) (c, d) = ground (
  arith,
  clash-any t.session_id t.agent_id seen,
  All-any t seen c,
  Disjoint-conflict (t ∷ seen) ts d,
)

-- The recipients of a message have no conflict exactly when any two of them are of different agents,
-- or are two different sessions. So no target is there twice, and an agent-wide recipient is the only
-- one of its agent.
pub message_recipient_conflict_iff :
    (recipients : List Target)
    → (describe_message_recipient_conflict recipients ≡ none) ↔ Disjoint [] recipients
unfolding describe_message_recipient_conflict
message_recipient_conflict_iff recipients =
    (conflict-Disjoint [] recipients, Disjoint-conflict [] recipients)
