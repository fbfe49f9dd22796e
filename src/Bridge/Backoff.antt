-- ===== src/Bridge/Backoff.antt =====
-- packages/codex-bridge/src/hub-resilience.ts, HubReconnectBackoff. A number of JavaScript is a
-- fraction here, and `none` where it is left out or not finite; a negative one counts as 0, as the code
-- makes it. The random numbers are arguments, and the arithmetic is exact.
use native.Mathlib.Nat.{div-lt_iff_lt-mul, le-div_iff_mul-le}
use ayanami_agent_hub.Base.{
  ℕ, suc, ◌+◌, ◌-◌, ◌*◌, ◌/◌, ◌^◌, ◌≤◌, ◌<◌, ◌≡◌, refl, ap, Option, none, some, min, max, arith,
  leb, ◌==◌, if◌then◌else◌,
}

-- numerator / suc rest
pub record Ratio : Type 0 where
  pub numerator : ℕ
  pub rest : ℕ

abbrev pub denominator : Ratio → ℕ
denominator r = suc r.rest

-- Math.round of a fraction.
unfoldable pub round : ℕ → ℕ → ℕ
round n d = (2 * n + d) / (2 * d)

unfoldable pub normalize_delay : Option Ratio → ℕ → ℕ
normalize_delay none fallback = fallback
normalize_delay (some r) fallback =
    if r.numerator == 0
    then fallback
    else min 2147483647 (max 1 (round r.numerator (denominator r)))

-- `Math.min(1, Math.max(0, value))`, or the default.
unfoldable pub normalize_ratio : Option Ratio → Ratio → Ratio
normalize_ratio none default = default
normalize_ratio (some r) default =
    if leb (denominator r) r.numerator then record { numerator = 1; rest = 0 } else r

pub record Backoff : Type 0 where
  pub initial_delay : ℕ
  pub max_delay : ℕ
  pub jitter_ratio : Ratio
  pub failure_count : ℕ

unfoldable pub new_backoff : Option Ratio → Option Ratio → Option Ratio → Backoff
unfolding normalize_delay normalize_ratio
new_backoff initial maximum jitter =
    let start = normalize_delay initial 250 in
    record {
      initial_delay = start;
      max_delay = max start (normalize_delay maximum 5000);
      jitter_ratio = normalize_ratio jitter (record { numerator = 1; rest = 4 });
      failure_count = 0;
    }

unfoldable pub nominal : Backoff → ℕ
nominal b = min b.max_delay (b.initial_delay * 2 ^ min b.failure_count 30)

-- nominal * (1 - j + v * j * 2), by its numerator over both denominators.
unfoldable pub jittered : ℕ → Ratio → Ratio → ℕ
jittered n j v =
    n * ((denominator j - j.numerator) * denominator v + 2 * (v.numerator * j.numerator))

unfoldable pub next_delay : Option Ratio → Backoff → ℕ × Backoff
unfolding nominal jittered normalize_ratio round
next_delay random b =
    let v = normalize_ratio random (record { numerator = 1; rest = 1 }) in
    let n = jittered (nominal b) b.jitter_ratio v in
    (
      min b.max_delay (max 1 (round n (denominator b.jitter_ratio * denominator v))),
      record b { failure_count = b.failure_count + 1 },
    )

unfoldable pub reset : Backoff → Backoff
reset b = record b { failure_count = 0 }

-- A whole number is its own rounding.
round_whole : (n d : ℕ) → 0 < d → round (n * d) d ≡ n
unfolding round
round_whole n d h = omega (
  arith,
  (div-lt_iff_lt-mul {k = 2 * d} {x = 2 * (n * d) + d} {y = suc n} (omega arith)).1 (omega arith),
  (le-div_iff_mul-le {k = 2 * d} {x = n} {y = 2 * (n * d) + d} (omega arith)).1 (omega arith),
)

abbrev half : Ratio
half = record { numerator = 1; rest = 1 }

jittered-half :
    (n : ℕ) (j : Ratio) → j.numerator ≤ denominator j → jittered n j half ≡ n * (denominator j * 2)
unfolding jittered
jittered-half n j h = ap (λ k. n * k) (whole (denominator j) j.numerator h)
  where
    whole : (d a : ℕ) → a ≤ d → (d - a) * 2 + 2 * (1 * a) ≡ d * 2
    whole d a p = omega arith

doubled :
    (m i c : ℕ) → c < 30 → min m (i * 2 ^ min (c + 1) 30) ≡ min m (2 * min m (i * 2 ^ min c 30))
doubled m i c h =
    rw (capped c h, capped_next c h, power c)
      (doubling m (i * 2 ^ c) (i * (2 * 2 ^ c)) (omega arith))
  where
    capped : (c : ℕ) → c < 30 → min c 30 ≡ c
    capped c h = omega arith

    capped_next : (c : ℕ) → c < 30 → min (c + 1) 30 ≡ suc c
    capped_next c h = omega arith

    power : (c : ℕ) → 2 ^ suc c ≡ 2 * 2 ^ c
    power c = omega arith

    doubling : (m p q : ℕ) → q ≡ 2 * p → min m q ≡ min m (2 * min m p)
    doubling m p q e = omega arith

abbrev pub least : Ratio
least = record { numerator = 0; rest = 0 }

abbrev pub greatest : Ratio
greatest = record { numerator = 1; rest = 0 }

jittered-least : (n : ℕ) (j : Ratio) → jittered n j least ≡ n * (denominator j - j.numerator)
unfolding jittered
jittered-least n j = ap (λ k. n * k) (omega arith)

jittered-greatest :
    (n : ℕ) (j : Ratio)
    → j.numerator ≤ denominator j
    → jittered n j greatest ≡ n * (denominator j + j.numerator)
unfolding jittered
jittered-greatest n j h = ap (λ k. n * k) (omega arith)

-- Where the delays are positive and the jitter ratio is at most 1: the neutral random value gives the
-- nominal delay, or 1 ms if that is less; the least random value takes the jitter's share off the
-- nominal delay and the greatest one adds it, rounded to the nearest and kept between 1 ms and the
-- maximum; and each of the first thirty failures doubles the nominal delay, up to the maximum. A reset
-- brings the nominal delay back to the initial one, up to the maximum.
pub next_delay_lem :
    (b : Backoff)
    → 0 < b.max_delay
    → 0 < b.initial_delay
    → b.jitter_ratio.numerator ≤ denominator b.jitter_ratio
    → b.failure_count < 30
    → let n = nominal b in
      let a = b.jitter_ratio.numerator in
      let d = denominator b.jitter_ratio in
      ((next_delay none b).0 ≡ max 1 n)
      × ((next_delay (some least) b).0
          ≡ min b.max_delay (max 1 ((2 * (n * (d - a)) + d * 1) / (2 * (d * 1)))))
      × ((next_delay (some greatest) b).0
          ≡ min b.max_delay (max 1 ((2 * (n * (d + a)) + d * 1) / (2 * (d * 1)))))
      × (nominal (next_delay none b).1 ≡ min b.max_delay (2 * n))
      × (nominal (reset b) ≡ min b.max_delay b.initial_delay)
unfolding next_delay nominal reset round
next_delay_lem b m i j c = (
  rw
      (
        jittered-half (nominal b) b.jitter_ratio j,
        round_whole (nominal b) (denominator b.jitter_ratio * 2) (omega arith),
      )
      (within (nominal b) b.max_delay m (below b.max_delay _)),
  rw (jittered-least (nominal b) b.jitter_ratio) refl,
  rw (jittered-greatest (nominal b) b.jitter_ratio j) refl,
  doubled b.max_delay b.initial_delay b.failure_count c,
  ap (min b.max_delay) (once b.initial_delay),
)
  where
    below : (m x : ℕ) → min m x ≤ m
    below m x = omega arith

    within : (n m : ℕ) → 0 < m → n ≤ m → min m (max 1 n) ≡ max 1 n
    within n m p q = omega arith

    once : (i : ℕ) → i * 2 ^ min 0 30 ≡ i
    once i = omega arith
