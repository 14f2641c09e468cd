-- ===== src/Client/Outbox/Rounds.antt =====
-- Rounds of a client's push against the server.
use zt_data_sync.Prelude.Membership.{contains}
use zt_data_sync.Proto.{Mutation, PushResult}
use zt_data_sync.Store.Rows.{Db, Entry}
use zt_data_sync.Sync.Push.{push, push_one}
use zt_data_sync.Client.Local.{LocalEntry, list_dirty_entries}
use zt_data_sync.Client.Engine.{Vault}
use zt_data_sync.Client.Outbox.{Engine, mutation_of, apply_results, push_dirty_across}
use zt_data_sync.Prelude.{ℕ, [], ◌∷◌, List, Option, some, false, ◌≡◌, refl, arith}

-- The server's answer to a push.
abbrev pub served : Db → ℕ → ℕ → ℕ → List Mutation → Option (List PushResult)
served db user_id device_id t ms = some (push db user_id device_id t ms).0

-- A single edit is queued, and its group's writes are not held back.
pub record Queued (e : Engine) (le : LocalEntry) : Type 0 where
  pub listed : list_dirty_entries e.local ≡ some (le ∷ [])
  pub free : contains le.group_id e.write_held ≡ false

pub push-single :
    (db : Db) (user_id device_id t : ℕ) (m : Mutation)
    → ((push db user_id device_id t (m ∷ [])).0 ≡ (push_one db user_id device_id t m).0.0 ∷ [])
      × ((push db user_id device_id t (m ∷ [])).2 ≡ (push_one db user_id device_id t m).1)
unfolding push
push-single db user_id device_id t m = (refl, refl)

-- The push of a single edit comes down to its result.
pub push_dirty_across-single :
    (v : Vault) (now : ℕ) (e later : Engine) (le : LocalEntry) (db : Db) (user_id device_id t : ℕ)
    (r : PushResult)
    → Queued e le
    → (push_one db user_id device_id t (mutation_of le)).0.0 ≡ r
    → push_dirty_across v now (served db user_id device_id t) e later
      ≡ apply_results v now (mutation_of le ∷ []) (r ∷ []) later
unfolding push_dirty_across
push_dirty_across-single v now e later le db user_id device_id t r q is =
    ground (arith, q.listed, q.free, (push-single db user_id device_id t (mutation_of le)).0, is)

-- The row that the server holds after a push of `le`.
pub record Holds (le : LocalEntry) (n : ℕ) (row : Entry) : Type 0 where
  pub number : row.seq ≡ n
  pub text : row.ciphertext ≡ le.ciphertext
  pub version : row.key_version ≡ le.key_version
  pub deletion : row.deleted ≡ le.deleted
