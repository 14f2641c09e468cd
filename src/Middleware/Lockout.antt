-- ===== src/Middleware/Lockout.antt =====
-- server/middleware/ratelimit.go: the lockout after repeated failures. Times are milliseconds; a
-- tracker that is not configured has the maximum 0.
use zt_data_sync.Prelude.Assoc.{
  without, lookup, put, keep_values, lookup-put, lookup-keep_values, AtMostOnce,
  lookup-keep_values_drop, AtMostOnce-of_none, lookup-keep_values-none, AtMostOnce-put,
}
use zt_data_sync.Prelude.{
  ℕ, [], some, none, true, false, suc, refl, if◌then◌else◌, ◌==◌, ◌&&◌, ◌≡◌, ◌<◌, ◌+◌, ◌∷◌, Bool,
  List, Option, ltb, leb, not, length, arith, inl, inr, Option-cases, Bool-cases,
}

-- `locked_until` is 0 where the key is not locked.
pub record LockState : Type 0 where
  pub fails : ℕ
  pub locked_until : ℕ

pub record LockoutTracker : Type 0 where
  pub max_fail : ℕ
  pub lock_duration : ℕ
  pub states : List (ℕ × LockState)

-- Not a lock that is over.
abbrev still_locked : ℕ → LockState → Bool
still_locked now st = not (ltb 0 st.locked_until && leb st.locked_until now)

unfoldable pub clean_states : LockoutTracker → ℕ → LockoutTracker
clean_states t now =
    if ltb 10000 (length t.states)
    then record t { states = keep_values (still_locked now) t.states }
    else t

abbrev check_state : LockoutTracker → ℕ → ℕ → Option LockState → Bool × LockoutTracker
check_state t now key none = (false, t)
check_state t now key (some st) =
    if ltb 0 st.locked_until
    then (if leb st.locked_until now
        then (
          false,
          record t { states = put key (record { fails = 0; locked_until = 0 }) t.states },
        )
        else (true, t))
    else (false, t)

-- Whether the key is locked; a lock that is over is taken back.
unfoldable pub is_locked : LockoutTracker → ℕ → ℕ → Bool × LockoutTracker
unfolding clean_states
is_locked t now key =
    if t.max_fail == 0
    then (false, t)
    else (let t' = clean_states t now in check_state t' now key (lookup key t'.states))

abbrev state_or_new : Option LockState → LockState
state_or_new none = record { fails = 0; locked_until = 0 }
state_or_new (some st) = st

abbrev count_failure : LockoutTracker → ℕ → ℕ → LockState → LockoutTracker
count_failure t now key st =
    if ltb 0 st.locked_until
    then record t { states = put key st t.states }
    else (if leb t.max_fail (st.fails + 1)
        then record t {
          states =
              put key (record { fails = st.fails + 1; locked_until = now + t.lock_duration })
                t.states;
        }
        else record t { states = put key (record st { fails = st.fails + 1 }) t.states })

unfoldable pub record_failure : LockoutTracker → ℕ → ℕ → LockoutTracker
record_failure t now key =
    if t.max_fail == 0 then t else count_failure t now key (state_or_new (lookup key t.states))

unfoldable pub reset : LockoutTracker → ℕ → LockoutTracker
reset t key = record t { states = without key t.states }

-- Failures of the key at the times given, the last one first.
unfoldable pub failures : LockoutTracker → ℕ → List ℕ → LockoutTracker
failures t key [] = t
failures t key (now ∷ before) = record_failure (failures t key before) now key

-- The key's state after failures that stay below the maximum.
record Failed (t : LockoutTracker) (t' : LockoutTracker) (key n : ℕ) : Type 0 where
  max_same : t'.max_fail ≡ t.max_fail
  duration_same : t'.lock_duration ≡ t.lock_duration
  state : state_or_new (lookup key t'.states) ≡ record { fails = n; locked_until = 0 }

failures-Failed :
    (t : LockoutTracker) (key : ℕ) (times : List ℕ)
    → lookup key t.states ≡ none
    → length times < t.max_fail
    → Failed t (failures t key times) key (length times)
unfolding failures record_failure
failures-Failed t key [] fresh h = record {
  max_same = refl;
  duration_same = refl;
  state = ground (arith, fresh);
}
failures-Failed t key (now ∷ before) fresh h =
    let ih = failures-Failed t key before fresh (omega arith) in
    let t' = failures t key before in
    let st : LockState = record { fails = suc (length before); locked_until = 0 } in
    let st' : LockState = record { fails = length before + 1; locked_until = 0 } in
    record {
      max_same = ground (arith, ih, h);
      duration_same = ground (arith, ih, h);
      state =
          ground (arith, ih, h, lookup-put key key st t'.states, lookup-put key key st' t'.states);
    }

failures-AtMostOnce :
    (t : LockoutTracker) (key : ℕ) (times : List ℕ)
    → lookup key t.states ≡ none
    → AtMostOnce key (failures t key times).states
unfolding failures record_failure
failures-AtMostOnce t key [] fresh = AtMostOnce-of_none key t.states fresh
failures-AtMostOnce t key (now ∷ before) fresh =
    let t' = failures t key before in
    let st = state_or_new (lookup key t'.states) in
    let ih = failures-AtMostOnce t key before fresh in
    elim (Bool-cases (t'.max_fail == 0)) [
      | inl off ↦ rw off ih
      | inr on ↦ elim (Bool-cases (ltb 0 st.locked_until)) [
        | inl locked ↦ rw (on, locked) (AtMostOnce-put key st t'.states ih)
        | inr free ↦ elim (Bool-cases (leb t'.max_fail (st.fails + 1))) [
          | inl full ↦ rw (on, free, full) (AtMostOnce-put key _ t'.states ih)
          | inr less ↦ rw (on, free, less) (AtMostOnce-put key _ t'.states ih)
        ]
      ]
    ]

-- The lock of the last failure, as the state and after the cleaning.
locked_state : LockoutTracker → ℕ → List ℕ → LockState
locked_state t now before = record {
  fails = length before + 1;
  locked_until = now + t.lock_duration;
}

failures-locked :
    (t : LockoutTracker) (key now : ℕ) (before : List ℕ)
    → lookup key t.states ≡ none
    → suc (length before) ≡ t.max_fail
    → ((failures t key (now ∷ before)).max_fail ≡ t.max_fail)
      × (lookup key (failures t key (now ∷ before)).states ≡ some (locked_state t now before))
unfolding failures record_failure locked_state
failures-locked t key now before fresh h =
    let f = failures-Failed t key before fresh (omega arith) in
    let t' = failures t key before in
    let law = lookup-put key key (locked_state t now before) t'.states in
    (ground (arith, f, h), ground (arith, f, h, law))

-- As many failures in a row as the maximum lock a key that had none before, from the last of them
-- for the lock's duration: at a later time the key is found locked exactly while that time is below
-- the end of the lock.
pub failures-is_locked :
    (t : LockoutTracker) (key now later : ℕ) (before : List ℕ)
    → lookup key t.states ≡ none
    → suc (length before) ≡ t.max_fail
    → 0 < now + t.lock_duration
    → (is_locked (failures t key (now ∷ before)) later key).0 ≡ ltb later (now + t.lock_duration)
unfolding is_locked clean_states locked_state
failures-is_locked t key now later before fresh h pos =
    let (same, locked) = failures-locked t key now before fresh h in
    let t' = failures t key (now ∷ before) in
    let kept =
      lookup-keep_values (still_locked later) key t'.states (locked_state t now before) locked in
    let gone =
      lookup-keep_values_drop (still_locked later) key t'.states (locked_state t now before)
        (failures-AtMostOnce t key (now ∷ before) fresh) locked in
    ground (arith, same, locked, kept, gone, h, pos)

-- Fewer failures than the maximum do not lock it.
pub failures-not_locked :
    (t : LockoutTracker) (key later : ℕ) (times : List ℕ)
    → lookup key t.states ≡ none
    → length times < t.max_fail
    → (is_locked (failures t key times) later key).0 ≡ false
unfolding is_locked clean_states
failures-not_locked t key later times fresh h =
    let f = failures-Failed t key times fresh h in
    let t' = failures t key times in
    elim (Option-cases (lookup key t'.states)) [
      | inl new ↦
          ground (arith, new, f, lookup-keep_values-none (still_locked later) key t'.states new)
      | inr (st, old) ↦
          ground (arith, old, f, lookup-keep_values (still_locked later) key t'.states st old)
    ]
