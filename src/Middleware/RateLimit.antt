-- ===== src/Middleware/RateLimit.antt =====
-- server/middleware/ratelimit.go: the fixed window limiter. Times are milliseconds; a limiter that is
-- not configured has the limit 0.
use zt_data_sync.Prelude.Assoc.{lookup, put, lookup-keep_values, keep_values, lookup-put}
use zt_data_sync.Prelude.{
  ℕ, [], some, none, true, if◌then◌else◌, ◌==◌, ◌&&◌, ◌≡◌, ◌<◌, ◌+◌, ◌∷◌, Bool, arith, Option, ltb,
  List, length, not, leb, inl, inr, ◌≢◌, ◌≤◌, ◌-◌, Bool-cases, Option-cases, ==_iff,
}

pub record WindowEntry : Type 0 where
  pub start : ℕ
  pub count : ℕ

pub record FixedWindowLimiter : Type 0 where
  pub limit : ℕ
  pub window : ℕ
  pub counts : List (ℕ × WindowEntry)

-- `e.start < nowMs - window`
abbrev in_window : ℕ → ℕ → WindowEntry → Bool
in_window window now e = not (ltb (e.start + window) now)

-- With more than 10000 keys those go whose window is over.
unfoldable pub clean : FixedWindowLimiter → ℕ → FixedWindowLimiter
clean l now =
    if ltb 10000 (length l.counts)
    then record l { counts = keep_values (in_window l.window now) l.counts }
    else l

abbrev count_call : FixedWindowLimiter → ℕ → ℕ → Option WindowEntry → Bool × FixedWindowLimiter
count_call l now key none =
    (true, record l { counts = put key (record { start = now; count = 1 }) l.counts })
count_call l now key (some e) =
    if leb (e.start + l.window) now
    then (true, record l { counts = put key (record { start = now; count = 1 }) l.counts })
    else (
      leb (e.count + 1) l.limit,
      record l { counts = put key (record e { count = e.count + 1 }) l.counts },
    )

unfoldable pub allow : FixedWindowLimiter → ℕ → ℕ → Bool × FixedWindowLimiter
unfolding clean
allow l now key =
    if l.limit == 0
    then (true, l)
    else (let l' = clean l now in count_call l' now key (lookup key l'.counts))

-- How many of the calls for `key` pass, in a sequence of calls for any keys.
unfoldable pub granted : ℕ → FixedWindowLimiter → List (ℕ × ℕ) → ℕ
granted key l [] = 0
granted key l ((k, now) ∷ calls) =
    let (pass, l') = allow l now k in (if (k == key) && pass then 1 else 0) + granted key l' calls

-- Each call is made before `until`.
abbrev pub Before : ℕ → List (ℕ × ℕ) → Type 0
Before until [] = Unit {0}
Before until ((k, now) ∷ calls) = (now < until) × Before until calls

-- The limiter has the key in a window with so many calls counted.
pub record Counts (l : FixedWindowLimiter) (key start count limit window : ℕ) : Type 0 where
  pub limit_same : l.limit ≡ limit
  pub window_same : l.window ≡ window
  pub entry : lookup key l.counts ≡ some (record { start = start; count = count })

clean-Counts :
    (l : FixedWindowLimiter) (key start count limit window now : ℕ)
    → now < start + window
    → Counts l key start count limit window
    → Counts (clean l now) key start count limit window
unfolding clean
clean-Counts l key start count limit window now h c = record {
  limit_same = ground (arith, c.limit_same);
  window_same = ground (arith, c.window_same);
  entry = ground (
    arith,
    c.entry,
    c.window_same,
    lookup-keep_values (in_window l.window now) key l.counts
        (record { start = start; count = count }),
  );
}

-- A call for the key within the window is counted, and passes while the count is in the limit.
allow_self :
    (l : FixedWindowLimiter) (key start count limit window now : ℕ)
    → 0 < limit
    → now < start + window
    → Counts l key start count limit window
    → ((allow l now key).0 ≡ leb (count + 1) limit)
      × Counts (allow l now key).1 key start (count + 1) limit window
unfolding allow
allow_self l key start count limit window now pos h c =
    let c' = clean-Counts l key start count limit window now h c in
    let put_law = λ (v : WindowEntry). lookup-put key key v (clean l now).counts in
    let e : WindowEntry = record { start = start; count = count + 1 } in
    (
      ground (arith, c.limit_same, c'.entry, c'.limit_same, c'.window_same),
      record {
        limit_same = ground (arith, c.limit_same, c'.entry, c'.limit_same, c'.window_same);
        window_same = ground (arith, c.limit_same, c'.entry, c'.limit_same, c'.window_same);
        entry = ground (arith, c.limit_same, c'.entry, c'.limit_same, c'.window_same, put_law e);
      },
    )

-- A call for another key changes nothing of this one.
allow_other :
    (l : FixedWindowLimiter) (key k start count limit window now : ℕ)
    → k ≢ key
    → now < start + window
    → Counts l key start count limit window
    → Counts (allow l now k).1 key start count limit window
unfolding allow
allow_other l key k start count limit window now ne h c =
    let c' = clean-Counts l key start count limit window now h c in
    elim (Option-cases (lookup k (clean l now).counts)) [
      | inl new ↦ ground (
        arith,
        c,
        c',
        new,
        lookup-put k key (record { start = now; count = 1 }) (clean l now).counts,
      )
      | inr (e, old) ↦ ground (
        arith,
        c,
        c',
        old,
        lookup-put k key (record { start = now; count = 1 }) (clean l now).counts,
        lookup-put k key (record e { count = e.count + 1 }) (clean l now).counts,
      )
    ]

-- In a window with `count` calls counted, at most `limit - count` more pass.
pub granted-le :
    (key : ℕ) (l : FixedWindowLimiter) (start count limit window : ℕ) (calls : List (ℕ × ℕ))
    → 0 < limit
    → Before (start + window) calls
    → Counts l key start count limit window
    → granted key l calls ≤ limit - count
unfolding granted
granted-le key l start count limit window [] pos b c = omega arith
granted-le key l start count limit window ((k, now) ∷ calls) pos b c =
    elim (Bool-cases (k == key)) [
      | inl same ↦
          let e : k ≡ key = (==_iff k key).0 same in
          let (pass, c') = allow_self l key start count limit window now pos b.0 c in
          let rest =
            granted-le key (allow l now key).1 start (count + 1) limit window calls pos b.1 c' in
          rw e (ground (arith, pass, rest))
      | inr other ↦
          let ne : k ≢ key = λ e. absurd (ground (arith, e, other)) in
          let c' = allow_other l key k start count limit window now ne b.0 c in
          let rest = granted-le key (allow l now k).1 start count limit window calls pos b.1 c' in
          ground (arith, other, rest)
    ]

-- A call that opens a window: the key is new, or its window is over.
abbrev pub Opens : FixedWindowLimiter → ℕ → Option WindowEntry → Type 0
Opens l now none = Unit {0}
Opens l now (some e) = e.start + l.window ≤ now

opening-Counts :
    (l : FixedWindowLimiter) (key now : ℕ)
    → 0 < l.limit
    → Opens l now (lookup key (clean l now).counts)
    → ((allow l now key).0 ≡ true) × Counts (allow l now key).1 key now 1 l.limit l.window
unfolding allow clean
opening-Counts l key now pos o =
    let e : WindowEntry = record { start = now; count = 1 } in
    let law = lookup-put key key e (clean l now).counts in
    (
      ground (arith, o),
      record {
        limit_same = ground (arith, o);
        window_same = ground (arith, o);
        entry = ground (arith, o, law);
      },
    )

-- Of the calls for a key from one that opens a window until that window is over, at most `limit`
-- pass, whatever calls for other keys stand in between and however often old keys are cleaned out.
pub granted-le-limit :
    (key now : ℕ) (l : FixedWindowLimiter) (calls : List (ℕ × ℕ))
    → 0 < l.limit
    → Opens l now (lookup key (clean l now).counts)
    → Before (now + l.window) calls
    → granted key l ((key, now) ∷ calls) ≤ l.limit
unfolding granted
granted-le-limit key now l calls pos o b =
    let (pass, c) = opening-Counts l key now pos o in
    let rest = granted-le key (allow l now key).1 now 1 l.limit l.window calls pos b c in
    ground (arith, pass, rest)
