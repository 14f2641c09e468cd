-- ===== src/Authn/Tokens.antt =====
-- server/middleware/auth.go, server/middleware/auditlog.go and the handlers of server/api/auth.go
-- for a device with a token. A token is `none` where the header has none, and 0 where it is empty;
-- the identity of a request is `none` where no middleware set it.
use zt_data_sync.Proto.{err_unauthorized, err_user_revoked, err_not_admin, err_internal}
use zt_data_sync.Store.Rows.{User, UserRole, Device, DeviceStatus, Db, StoreError, Result, ok, err}
use zt_data_sync.Store.Queries.{get_user_by_id, get_device_by_token_hash}
use zt_data_sync.Store.Tx.{
  with_tx, insert_audit, update_device_ip, update_device_seen, refresh_token_hash,
}
use zt_data_sync.Authn.{token_ttl}
use zt_data_sync.Store.Queries.{is_active}
use zt_data_sync.Prelude.{ℕ, Bool, true, false, Option, none, some, ◌==◌, if◌then◌else◌}

pub record AuthContext : Type 0 where
  pub device : Device
  pub user : User

abbrev pub is_enabled : Device → Bool
is_enabled d = elim d.status [ DeviceStatus.enabled ↦ true | DeviceStatus.disabled ↦ false ]

abbrev pub Answer : Type 0 → Type 0
Answer A = Result ℕ A × Db

abbrev pub auth_user : ℕ → Device → Db → Result StoreError User → Answer AuthContext
auth_user ip d db (err e) = (err err_unauthorized, db)
auth_user ip d db (ok u) =
    if is_active u
    then (ok (record { device = d; user = u }), (with_tx (update_device_ip d.id ip) db).1)
    else (err err_user_revoked, db)

abbrev pub auth_device : ℕ → Db → Result StoreError Device → Answer AuthContext
auth_device ip db (err e) = (err err_unauthorized, db)
auth_device ip db (ok d) =
    if is_enabled d
    then auth_user ip d db (get_user_by_id db d.user_id)
    else (err err_unauthorized, db)

-- A request that passes has its address stored; that this fails does not stop it.
unfoldable pub require_auth : (ℕ → ℕ) → ℕ → Option ℕ → Db → Answer AuthContext
require_auth hash_token ip none db = (err err_unauthorized, db)
require_auth hash_token ip (some token) db =
    if token == 0
    then (err err_unauthorized, db)
    else auth_device ip db (get_device_by_token_hash db (hash_token token))

unfoldable pub require_admin : Option AuthContext → Result ℕ (Unit {0})
require_admin none = err err_unauthorized
require_admin (some ac) = elim ac.user.role [
  | UserRole.admin ↦ ok tt
  | UserRole.member ↦ err err_not_admin
]

abbrev pub device_refresh : ℕ
device_refresh = 3

abbrev pub device_online : ℕ
device_online = 4

-- `RecordActor`: a write that fails is only logged. The addresses and names of the event are not
-- kept here.
unfoldable pub record_actor : ℕ → ℕ → ℕ → ℕ → Db → Db
record_actor now device_id user_id action db =
    if action == 0
    then db
    else (with_tx
        (insert_audit
          (record { ts = now; device_id = device_id; user_id = user_id; action = action }))
        db).1

-- `Audit.Record`, and `auditRecordOnline` with its action.
abbrev pub record_event : ℕ → Option AuthContext → ℕ → Db → Db
record_event now none action db = db
record_event now (some ac) action db = record_actor now ac.device.id ac.user.id action db

pub record TokenRefreshResponse : Type 0 where
  pub token : ℕ
  pub expires_in : ℕ

abbrev pub device_id_from : Option AuthContext → ℕ
device_id_from none = 0
device_id_from (some ac) = ac.device.id

abbrev pub end_refresh :
    ℕ → Option AuthContext → ℕ → Result StoreError (Unit {0}) × Db → Answer TokenRefreshResponse
end_refresh now ctx token (err e, db) = (err err_internal, db)
end_refresh now ctx token (ok u, db) = (
  ok (record { token = token; expires_in = token_ttl }),
  record_event now ctx device_online (record_event now ctx device_refresh db),
)

abbrev pub refresh_with :
    (ℕ → ℕ) → ℕ → Option AuthContext → Option ℕ → Db → Answer TokenRefreshResponse
refresh_with hash_token now ctx none db = (err err_internal, db)
refresh_with hash_token now ctx (some token) db =
    end_refresh now ctx token
      (with_tx (refresh_token_hash (device_id_from ctx) (hash_token token)) db)

-- The random token is `none` where its source fails.
unfoldable pub handle_refresh :
    (ℕ → ℕ) → ℕ → Option AuthContext → Option ℕ → Db → Answer TokenRefreshResponse
handle_refresh hash_token now ctx random db =
    if device_id_from ctx == 0
    then (err err_unauthorized, db)
    else refresh_with hash_token now ctx random db

abbrev pub end_heartbeat : Result StoreError (Unit {0}) × Db → Answer (Unit {0})
end_heartbeat (err e, db) = (err err_internal, db)
end_heartbeat (ok u, db) = (ok tt, db)

unfoldable pub handle_heartbeat : ℕ → Option AuthContext → ℕ → Db → Answer (Unit {0})
handle_heartbeat now ctx hostname db =
    end_heartbeat (with_tx (update_device_seen (device_id_from ctx) hostname now) db)
