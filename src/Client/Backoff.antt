-- ===== src/Client/Backoff.antt =====
-- client/core/syncer/backoff.go: the delays between reconnections. Durations are milliseconds.
use native.Mathlib.Nat.{pow-suc}
use Prim.Native.Nat.{min}
use zt_data_sync.Prelude.{
  ℕ, zero, suc, if◌then◌else◌, ◌==◌, ◌≡◌, ◌≤◌, ◌<◌, ◌+◌, ◌*◌, ◌^◌, ltb, refl, arith, ◌∙◌, ap,
}

pub record Backoff : Type 0 where
  pub base : ℕ
  pub max_delay : ℕ
  pub current : ℕ
  pub fails : ℕ

unfoldable pub new_backoff : Backoff
new_backoff = record { base = 1000; max_delay = 30000; current = 0; fails = 0 }

abbrev doubled : ℕ → ℕ → ℕ
doubled c m = if ltb m (c * 2) then m else c * 2

-- The next delay, and the state after it.
unfoldable pub next : Backoff → ℕ × Backoff
next b =
    let c = if b.current == 0 then b.base else doubled b.current b.max_delay in
    (c, record b { current = c; fails = b.fails + 1 })

unfoldable pub reset : Backoff → Backoff
reset b = record b { current = 0; fails = 0 }

abbrev pub max_sse_fails : ℕ
max_sse_fails = 10

-- The state after `n` failures in a row.
unfoldable pub after_failures : ℕ → Backoff → Backoff
after_failures zero b = b
after_failures (suc n) b = (next (after_failures n b)).1

-- The delay doubles from the base up to the maximum.
abbrev pub capped : ℕ → Backoff → ℕ
capped n b = min (b.base * 2 ^ n) b.max_delay

pow_pos : (n : ℕ) → 0 < 2 ^ n
pow_pos zero = omega arith
pow_pos (suc n) = omega (arith, pow-suc 2 n, pow_pos n)

mul_double : (x n : ℕ) → x * 2 ^ n * 2 ≡ x * 2 ^ suc n
mul_double x n = grind (arith, pow-suc 2 n)

next_doubles :
    (b : Backoff) (x m : ℕ)
    → 0 < x
    → 0 < m
    → b.current ≡ min x m
    → b.max_delay ≡ m
    → (next b).1.current ≡ min (x * 2) m
unfolding next
next_doubles b x m p q h k = ground (arith, h, k)

-- The state after `n + 1` failures in a row.
record Grown (b : Backoff) (n : ℕ) (s : Backoff) : Type 0 where
  delay : s.current ≡ capped n b
  counted : s.fails ≡ suc n
  max_same : s.max_delay ≡ b.max_delay

after_failures-Grown :
    (n : ℕ) (b : Backoff)
    → 0 < b.base
    → b.base ≤ b.max_delay
    → Grown b n (after_failures (suc n) (reset b))
unfolding next after_failures reset
after_failures-Grown zero b h k = record { delay = ground arith; counted = refl; max_same = refl }
after_failures-Grown (suc n) b h k =
    let ih = after_failures-Grown n b h k in
    let s = after_failures (suc n) (reset b) in
    record {
      delay =
          next_doubles s (b.base * 2 ^ n) b.max_delay (grind (arith, pow_pos n)) (omega arith)
            ih.delay ih.max_same
          ∙ ap (λ (k : ℕ). min k b.max_delay) (mul_double b.base n);
      counted = omega (arith, ih.counted);
      max_same = ih.max_same;
    }

-- After a reset, the delay of the failure number `n + 1` in a row is the base doubled `n` times, or
-- the maximum if that is less; the failures are counted, whatever the state before the reset, for a
-- positive base that is not above the maximum.
pub next-capped :
    (n : ℕ) (b : Backoff)
    → 0 < b.base
    → b.base ≤ b.max_delay
    → ((next (after_failures n (reset b))).0 ≡ capped n b)
      × ((next (after_failures n (reset b))).1.fails ≡ suc n)
unfolding next after_failures
next-capped n b h k = let g = after_failures-Grown n b h k in (g.delay, g.counted)
