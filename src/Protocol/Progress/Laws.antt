-- ===== src/Protocol/Progress/Laws.antt =====
-- packages/protocol/src/helpers.ts, computeTaskProgress: its range and its end points.
use native.Mathlib.Nat.{div-lt_iff_lt-mul, le-div_iff_mul-le}
use ayanami_agent_hub.Base.{
  ℕ, suc, ◌+◌, ◌*◌, ◌≤◌, ◌<◌, ◌≡◌, refl, ◌⊎◌, Bool, true, false, List, [], ◌∷◌, keep, not, arith,
  every, ◌||◌,
}
use ayanami_agent_hub.Protocol.Progress.{
  TodoWeight, FindingState, is_done, is_skipped, sum_from, numerator, denominator, tenths,
  has_blocking, clamped, compute_task_progress,
}

tenths-le : (n d k : ℕ) → 0 < d → n ≤ k * d → tenths n d ≤ 10 * k
unfolding tenths
tenths-le n d k h b = omega (
  arith,
  (div-lt_iff_lt-mul {k = 2 * d} {x = 20 * n + d} {y = suc (10 * k)} (omega arith)).1 (omega arith),
)

le-tenths : (n d k : ℕ) → 0 < d → k * d ≤ n → 10 * k ≤ tenths n d
unfolding tenths
le-tenths n d k h b =
    (le-div_iff_mul-le {k = 2 * d} {x = 10 * k} {y = 20 * n + d} (omega arith)).1 (omega arith)

sum_from-acc : (acc : ℕ) (ts : List TodoWeight) → sum_from acc ts ≡ acc + sum_from 0 ts
unfolding sum_from
sum_from-acc acc [] = omega arith
sum_from-acc acc (t ∷ ts) =
    omega (arith, sum_from-acc (acc + t.weight) ts, sum_from-acc (0 + t.weight) ts)

-- What is done of a list is at most the list.
sum-keep-le :
    (p : TodoWeight → Bool) (ts : List TodoWeight) → sum_from 0 (keep p ts) ≤ sum_from 0 ts
unfolding sum_from
sum-keep-le p [] = omega arith
sum-keep-le p (t ∷ ts) = ground (
  arith,
  sum-keep-le p ts,
  sum_from-acc (0 + t.weight) ts,
  sum_from-acc (0 + t.weight) (keep p ts),
)

denominator-pos : (t : ℕ) → 0 < denominator t
unfolding denominator
denominator-pos t = ground arith

numerator-le :
    (total finished : ℕ) (required accepted : Bool)
    → finished ≤ total
    → numerator total finished required accepted ≤ 100 * denominator total
unfolding numerator denominator
numerator-le total finished required accepted h = ground arith

numerator_unreviewed :
    (total finished : ℕ)
    → finished ≤ total
    → numerator total finished true false ≤ 85 * denominator total
unfolding numerator denominator
numerator_unreviewed total finished h = ground arith

clamped-le : (blocking : Bool) (n d k : ℕ) → n ≤ k * d → clamped blocking n d ≤ k * d
unfolding clamped
clamped-le blocking n d k h = ground arith

clamped_range :
    (blocking : Bool) (n d : ℕ)
    → (clamped blocking n d ≤ 100 * d) × (blocking ≡ true → clamped blocking n d ≤ 99 * d)
unfolding clamped
clamped_range blocking n d = ground arith

keep-done :
    (todos : List TodoWeight)
    → every (λ t. is_done t.status || is_skipped t.status) todos ≡ true
    → keep (λ t. is_done t.status) (keep (λ t. not (is_skipped t.status)) todos)
      ≡ keep (λ t. not (is_skipped t.status)) todos
keep-done [] h = refl
keep-done (t ∷ ts) h = ground (arith, keep-done ts)

full_clamped :
    (total : ℕ) (required accepted : Bool)
    → 0 < total
    → (required ≡ false) ⊎ (accepted ≡ true)
    → clamped false (numerator total total required accepted) (denominator total)
      ≡ 100 * denominator total
unfolding clamped numerator denominator
full_clamped total required accepted h r = ground arith

tenths_exact : (d k : ℕ) → 0 < d → tenths (k * d) d ≡ 10 * k
tenths_exact d k h =
    omega (arith, tenths-le (k * d) d k h (omega arith), le-tenths (k * d) d k h (omega arith))

-- The progress lies between 0 and 100 %; it is at most 99 % while a blocking finding is neither
-- verified nor waived, and at most 85 % while a required review is not approved.
pub progress_bounds :
    (todos : List TodoWeight) (required accepted : Bool) (findings : List FindingState)
    → let p = compute_task_progress todos required accepted findings in
      (p ≤ 1000)
      × (has_blocking findings ≡ true → p ≤ 990)
      × (required ≡ true → accepted ≡ false → p ≤ 850)
unfolding compute_task_progress
progress_bounds todos required accepted findings =
    let included = keep (λ t. not (is_skipped t.status)) todos in
    let total = sum_from 0 included in
    let finished = sum_from 0 (keep (λ t. is_done t.status) included) in
    let pos = denominator-pos total in
    let below = sum-keep-le (λ t. is_done t.status) included in
    let n = numerator total finished required accepted in
    let d = denominator total in
    let (range, blocked) = clamped_range (has_blocking findings) n d in
    (
      tenths-le (clamped (has_blocking findings) n d) d 100 pos range,
      λ h. tenths-le (clamped (has_blocking findings) n d) d 99 pos (blocked h),
      λ r a.
          rw (r, a)
            (tenths-le _ d 85 pos (
              clamped-le (has_blocking findings) _ d 85
                (numerator_unreviewed total finished below))),
    )

-- A checklist of which a part is done, and nothing is left to do, whose required review is approved
-- and which has no open blocking finding, stands at 100 %.
pub progress_complete :
    (todos : List TodoWeight) (required accepted : Bool) (findings : List FindingState)
    → every (λ t. is_done t.status || is_skipped t.status) todos ≡ true
    → 0 < sum_from 0 (keep (λ t. not (is_skipped t.status)) todos)
    → (required ≡ false) ⊎ (accepted ≡ true)
    → has_blocking findings ≡ false
    → compute_task_progress todos required accepted findings ≡ 1000
unfolding compute_task_progress
progress_complete todos required accepted findings all some_done reviewed clear =
    let total = sum_from 0 (keep (λ t. not (is_skipped t.status)) todos) in
    rw (clear, keep-done todos all, full_clamped total required accepted some_done reviewed)
      (tenths_exact (denominator total) 100 (denominator-pos total))
