-- ===== src/Protocol/Progress.antt =====
-- packages/protocol/src/helpers.ts, computeTaskProgress. The weights are positive numbers of
-- JavaScript; here they are counted in a common unit, and the arithmetic on them is exact. The
-- result is in tenths of a percent, which is what the code rounds to.
pub mod Laws
use ayanami_agent_hub.Base.{
  ℕ, ◌+◌, ◌*◌, ◌/◌, ◌%◌, Bool, true, false, List, [], ◌∷◌, any, keep, ◌&&◌, not, min, max, leb, ltb,
  ◌==◌, if◌then◌else◌,
}

pub data TodoStatus : Type 0 where
  todo doing done skipped : TodoStatus

pub data FindingStatus : Type 0 where
  opened accepted disputed fixed verified wont_fix : FindingStatus

-- The fields that computeTaskProgress picks.
pub record TodoWeight : Type 0 where
  pub status : TodoStatus
  pub weight : ℕ

pub record FindingState : Type 0 where
  pub blocking : Bool
  pub status : FindingStatus

abbrev pub is_done : TodoStatus → Bool
is_done done = true
is_done _ = false

abbrev pub is_skipped : TodoStatus → Bool
is_skipped skipped = true
is_skipped _ = false

-- `["VERIFIED", "WONT_FIX"].includes(status)`
abbrev pub is_settled : FindingStatus → Bool
is_settled verified = true
is_settled wont_fix = true
is_settled _ = false

-- `todos.reduce((sum, todo) => sum + todo.weight, 0)`, which adds from the left.
unfoldable pub sum_from : ℕ → List TodoWeight → ℕ
sum_from sum [] = sum
sum_from sum (t ∷ ts) = sum_from (sum + t.weight) ts

-- `implementationRatio * implementationCap`, plus 15 for an approved review: a fraction, by its
-- numerator. The denominator is `denominator total`.
unfoldable pub numerator : ℕ → ℕ → Bool → Bool → ℕ
numerator total finished review_required review_approved =
    let cap = if review_required then 85 else 100 in
    let implementation = if total == 0 then 0 else finished * cap in
    let bonus = if total == 0 then 15 else 15 * total in
    if review_required && review_approved then implementation + bonus else implementation

unfoldable pub denominator : ℕ → ℕ
denominator total = if total == 0 then 1 else total

-- `Math.min(progress, 99)` under a blocking finding, then the range from 0 to 100.
unfoldable pub clamped : Bool → ℕ → ℕ → ℕ
clamped blocking n d = let n' = if blocking then min n (99 * d) else n in max 0 (min (100 * d) n')

-- `Math.round(x * 10)` for x = n / d.
unfoldable pub tenths : ℕ → ℕ → ℕ
tenths n d = (20 * n + d) / (2 * d)

unfoldable pub has_blocking : List FindingState → Bool
has_blocking = any (λ f. f.blocking && not (is_settled f.status))

unfoldable pub compute_task_progress : List TodoWeight → Bool → Bool → List FindingState → ℕ
compute_task_progress todos review_required review_approved findings =
    let included = keep (λ t. not (is_skipped t.status)) todos in
    let total = sum_from 0 included in
    let finished = sum_from 0 (keep (λ t. is_done t.status) included) in
    let d = denominator total in
    let n = numerator total finished review_required review_approved in
    tenths (clamped (has_blocking findings) n d) d
