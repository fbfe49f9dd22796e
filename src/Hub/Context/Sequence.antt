-- ===== src/Hub/Context/Sequence.antt =====
-- apps/hub/src/services/store/context.ts, appendEvent: the sequence numbers of a project's events.

use native.Mathlib.Numerals.{add-one}
use mathlib.Core.List.{append-nil}
use ayanami_agent_hub.Base.{
  ℕ, zero, suc, ◌+◌, ◌≡◌, refl, inl, inr, List, [], ◌∷◌, ◌++◌, Option, none, some, arith, ◌==◌,
  if◌then◌else◌, Bool-cases,
}
use ayanami_agent_hub.Base.Table.{find, update, find-update, find-update_ne}
use ayanami_agent_hub.Hub.Rows.{Event, EventDraft, ProjectRow}
use ayanami_agent_hub.Hub.Context.{allocate}

-- The sequence numbers of a project's events, oldest first.
unfoldable pub sequences : ℕ → List Event → List ℕ
sequences p [] = []
sequences p (e ∷ es) =
    let rest = sequences p es in if e.project_id == p then e.sequence ∷ rest else rest

-- 1, 2, …, n
unfoldable pub up_to : ℕ → List ℕ
up_to zero = []
up_to (suc n) = up_to n ++ suc n ∷ []

unfoldable pub sequence_of : Option ProjectRow → ℕ
sequence_of none = 0
sequence_of (some p) = p.current_sequence

abbrev pub id : ProjectRow → ℕ
id p = p.id

-- Every project's events are numbered from 1 without a gap or a repetition, up to the project's
-- current sequence number.
pub record IsNumbered (projects : List ProjectRow) (events : List Event) : Type 0 where
  pub numbered : (p : ℕ) → sequences p events ≡ up_to (sequence_of (find id p projects))

sequences-append :
    (p : ℕ) (es : List Event) (e : Event)
    → sequences p (es ++ e ∷ [])
      ≡ sequences p es ++ (if e.project_id == p then e.sequence ∷ [] else [])
unfolding sequences
sequences-append p [] e = ground arith
sequences-append p (x ∷ es) e = ground (arith, sequences-append p es e)

abbrev pub next_event : ℕ → EventDraft → ProjectRow → Event
next_event now draft row = record {
  draft = draft;
  sequence = row.current_sequence + 1;
  created_at = now;
}

-- An event with the next number keeps the numbering.
pub write-IsNumbered :
    (now : ℕ) (draft : EventDraft) (projects : List ProjectRow) (events : List Event)
    (row : ProjectRow)
    → find id draft.project_id projects ≡ some row
    → IsNumbered projects events
    → IsNumbered
        (update id draft.project_id (allocate now) projects)
        (events ++ next_event now draft row ∷ [])
unfolding up_to allocate sequence_of
write-IsNumbered now draft projects events row found n = record {
  numbered = λ p. elim (Bool-cases (draft.project_id == p)) [
    | inl this ↦ ground (
      arith,
      sequences-append p events (next_event now draft row),
      find-update id (allocate now) (λ r. refl) draft.project_id projects,
      n.numbered p,
      add-one row.current_sequence,
    )
    | inr other ↦ ground (
      arith,
      sequences-append p events (next_event now draft row),
      find-update_ne id (allocate now) (λ r. refl) draft.project_id p projects,
      append-nil (sequences p events),
      n.numbered p,
    )
  ];
}
