-- ===== src/Scenarios/Limits.antt =====
-- The limiter, the lockout, the backoff and the encoding.
use zt_data_sync.Prelude.Assoc.{lookup}
use zt_data_sync.Crypto.LengthPrefix.{Sealed, entry_hmac_message-injective}
use zt_data_sync.Client.Backoff.{Backoff}
use zt_data_sync.Middleware.RateLimit.{FixedWindowLimiter, granted, Opens, clean, granted-le-limit}
use zt_data_sync.Middleware.Lockout.{LockoutTracker}
use zt_data_sync.Prelude.{[], refl, ◌≡◌, ◌≤◌, ◌∷◌, arith}

abbrev limiter : FixedWindowLimiter
limiter = record { limit = 2; window = 60000; counts = [] }

granted-le-limit_example :
    granted 7 limiter ((7, 1000) ∷ (8, 1001) ∷ (7, 1002) ∷ (7, 1003) ∷ []) ≤ 2
granted-le-limit_example =
    granted-le-limit 7 1000 limiter ((8, 1001) ∷ (7, 1002) ∷ (7, 1003) ∷ []) (omega arith) opens
      (omega arith)
  where
    opens : Opens limiter 1000 (lookup 7 (clean limiter 1000).counts)
    opens = unfold clean in tt

abbrev tracker : LockoutTracker
tracker = record { max_fail = 3; lock_duration = 600000; states = [] }

abbrev seconds : Backoff
seconds = record { base = 1000; max_delay = 30000; current = 7; fails = 3 }

abbrev seal : Sealed
seal = record { entry_id = 1 ∷ []; group_id = 2 ∷ []; kv = 1; nonce = 3 ∷ []; ct = 4 ∷ [] }

entry_hmac_message-injective_example : seal ≡ seal
entry_hmac_message-injective_example =
    entry_hmac_message-injective seal seal (omega arith) (omega arith) refl
