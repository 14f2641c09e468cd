-- ===== src/Client/Served.antt =====
-- The client of client/core/syncer against the server of server/sync: each call is a request that
-- the server handles, for one user and device at one time. `api_of` stands for the transport of
-- client/core/api/httpclient.go and the handlers of server/api/sync.go, which pass on the messages.
use zt_data_sync.Prelude.Int.{pos}
use zt_data_sync.Store.Rows.{User, Db, StoreError, Result, ok, err}
use zt_data_sync.Store.Queries.{list_active_users}
use zt_data_sync.Sync.Failure.{Failure}
use zt_data_sync.Sync.Push.{push}
use zt_data_sync.Sync.Pull.{pull}
use zt_data_sync.Sync.Envelopes.{upload_keys}
use zt_data_sync.Client.Session.{ServerClient}
use zt_data_sync.Prelude.{ℕ, Bool, true, false, Option, none, some, List, map}

abbrev pub to_option : {A : Type 0} → Result Failure A → Option A
to_option (ok a) = some a
to_option (err e) = none

abbrev pub is_ok : {A : Type 0} → Result Failure A → Bool
is_ok (ok a) = true
is_ok (err e) = false

-- `handleListUsers`
abbrev pub user_keys : Result StoreError (List User) → Option (List (ℕ × ℕ))
user_keys (ok us) = some (map (λ (u : User). (u.id, u.sm2_public_key)) us)
user_keys (err e) = none

unfoldable pub api_of : ℕ → ℕ → ℕ → ServerClient Db
api_of user_id device_id now = record {
  pull = λ since kvs db. (to_option (pull db user_id (pos since) 0 kvs), db);
  push = λ ms db. let r = push db user_id device_id now ms in (some r.0, r.2);
  upload_keys = λ gid req db. let r = upload_keys db now user_id gid req in (is_ok r.0.0, r.1);
  list_users = λ db. user_keys (list_active_users db);
}
