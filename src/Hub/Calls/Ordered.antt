-- ===== src/Hub/Calls/Ordered.antt =====
-- apps/hub/src/services/store: what every sequence of calls keeps of the reviews.
use ayanami_agent_hub.Base.{refl, List}
use ayanami_agent_hub.Hub.Rows.{ReviewRow}
use ayanami_agent_hub.Hub.Context.{Hub}
use ayanami_agent_hub.Hub.Tasks.{Response}
use ayanami_agent_hub.Hub.Reviews.Turns.{Turn, IsOrdered}
use ayanami_agent_hub.Hub.Reviews.Order.{Turn-IsOrdered}
use ayanami_agent_hub.Hub.Reviews.Lasts.{Turn-Lasts, Lasts, same-Lasts, Lasts-trans}
use ayanami_agent_hub.Hub.Calls.{Reachable, start, step}
use ayanami_agent_hub.Hub.Calls.Turns.{call-Turn}

-- The reviews are ordered, and those of `rs` are still there.
abbrev Follows : List ReviewRow → List ReviewRow → Type 0
Follows rs ss = IsOrdered ss × Lasts rs ss

Turn-Follows : (rs ss ts : List ReviewRow) → Turn ss ts → Follows rs ss → Follows rs ts
Turn-Follows rs ss ts t (o, l) =
    (Turn-IsOrdered ss ts t o, Lasts-trans rs ss ts l (Turn-Lasts ss ts t o))

Reachable-Follows :
    (h₀ h : Hub Response)
    → IsOrdered h₀.store.reviews
    → Reachable h₀ h
    → Follows h₀.store.reviews h.store.reviews
Reachable-Follows h₀ h o start = (o, same-Lasts _ _ refl)
Reachable-Follows h₀ h o (step {h = before} r c) =
    Turn-Follows h₀.store.reviews before.store.reviews _ (call-Turn c before)
      (Reachable-Follows h₀ before o r)

-- From reviews with distinct identifiers of which an active one has the highest revision of its task,
-- any sequence of calls, whatever fails in it, leads to such reviews: a task never has two active
-- reviews, and only the newest is open. No review is lost on the way, only its status, its verdict,
-- its version and its time change, and one that was APPROVED does not change at all.
pub Reachable-IsOrdered :
    (h₀ h : Hub Response)
    → IsOrdered h₀.store.reviews
    → Reachable h₀ h
    → IsOrdered h.store.reviews × Lasts h₀.store.reviews h.store.reviews
Reachable-IsOrdered h₀ h o r = Reachable-Follows h₀ h o r
