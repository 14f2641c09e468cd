-- ===== src/Authn.antt =====
-- server/authn/service.go: the state of the service, and the bootstrap of the first administrator;
-- the registration of devices is in Devices. Times are seconds. The random identifiers and tokens
-- of a call are its arguments; a token or a challenge is `none` where the random source fails.
pub mod Devices
pub mod Tokens
pub mod Refresh
pub mod Runs
pub mod Bootstrap
pub mod Challenges
use zt_data_sync.Proto.{err_bad_bootstrap, err_internal}
use zt_data_sync.Store.Rows.{
  User, UserRole, UserStatus, Device, DeviceStatus, Db, StoreError, Result, ok, err,
}
use zt_data_sync.Store.Queries.{get_user_count}
use zt_data_sync.Store.Tx.{Tx, with_tx, then_tx, create_user, create_device}
use zt_data_sync.Prelude.{
  ℕ, Bool, true, false, Option, none, some, List, [], ◌*◌, ◌==◌, if◌then◌else◌,
}

abbrev pub challenge_ttl : ℕ
challenge_ttl = 300

abbrev pub token_ttl : ℕ
token_ttl = 30 * 24 * 3600

-- An error with a code (`Error`), the store's, or another's.
pub data AuthnError : Type 0 where
  code : ℕ → AuthnError
  store : StoreError → AuthnError
  other : AuthnError

unfoldable pub code_of : AuthnError → ℕ
code_of (code n) = n
code_of (store e) = err_internal
code_of other = err_internal

-- SM3 of a token, the public key and the signature behind their encodings, and the check of the
-- signature of a challenge.
pub record Crypto : Type 0 where
  pub hash_token : ℕ → ℕ
  pub parse_sm2_public_key : ℕ → Option ℕ
  pub decode_base64 : ℕ → Option ℕ
  pub verify_sm2 : ℕ → ℕ → ℕ → Bool

pub record PendingChallenge : Type 0 where
  pub challenge : ℕ
  pub expires_at : ℕ

pub record Service : Type 0 where
  pub db : Db
  pub bootstrap_code : ℕ
  pub bootstrap_used : Bool
  pub challenges : List (ℕ × PendingChallenge)

-- `New`
unfoldable pub new_service : Db → ℕ → Service
new_service db bootstrap_code = record {
  db = db;
  bootstrap_code = bootstrap_code;
  bootstrap_used = false;
  challenges = [];
}

pub record Fresh : Type 0 where
  pub user_id : ℕ
  pub device_id : ℕ
  pub token : Option ℕ

pub record BootstrapRequest : Type 0 where
  pub bootstrap_token : ℕ
  pub username : ℕ
  pub name : ℕ
  pub sm2_public_key : ℕ
  pub device_name : ℕ

pub record BootstrapResponse : Type 0 where
  pub user_id : ℕ
  pub username : ℕ
  pub device_id : ℕ
  pub token : ℕ
  pub role : UserRole
  pub expires_in : ℕ

abbrev pub Reply : Type 0 → Type 0
Reply A = Result AuthnError A × Service

abbrev pub first_user : Fresh → BootstrapRequest → User
first_user fresh req = record {
  id = fresh.user_id;
  username = req.username;
  name = req.name;
  sm2_public_key = req.sm2_public_key;
  role = UserRole.admin;
  status = UserStatus.active;
}

abbrev pub first_device : Fresh → ℕ → BootstrapRequest → Device
first_device fresh hash req = record {
  id = fresh.device_id;
  user_id = fresh.user_id;
  name = req.device_name;
  hostname = 0;
  last_ip = 0;
  token_hash = hash;
  status = DeviceStatus.enabled;
  last_seen = 0;
}

abbrev pub bootstrap_tx : Fresh → ℕ → BootstrapRequest → Tx (Unit {0})
bootstrap_tx fresh hash req =
    then_tx (create_user (first_user fresh req)) (create_device (first_device fresh hash req))

abbrev pub end_bootstrap :
    Fresh
    → ℕ
    → BootstrapRequest
    → Service
    → Result StoreError (Unit {0}) × Db
    → Reply BootstrapResponse
end_bootstrap fresh token req s (err e, db) = (err (store e), record s { db = db })
end_bootstrap fresh token req s (ok u, db) = (
  ok (record {
    user_id = fresh.user_id;
    username = req.username;
    device_id = fresh.device_id;
    token = token;
    role = UserRole.admin;
    expires_in = token_ttl;
  }),
  record s { db = db; bootstrap_used = true },
)

abbrev pub bootstrap_with :
    Crypto → Fresh → BootstrapRequest → Service → Option ℕ → Reply BootstrapResponse
bootstrap_with c fresh req s none = (err other, s)
bootstrap_with c fresh req s (some token) =
    end_bootstrap fresh token req s (with_tx (bootstrap_tx fresh (c.hash_token token) req) s.db)

abbrev pub bootstrap_counted :
    Crypto → Fresh → BootstrapRequest → Service → Result StoreError ℕ → Reply BootstrapResponse
bootstrap_counted c fresh req s (err e) = (err (store e), s)
bootstrap_counted c fresh req s (ok n) =
    if n == 0 then bootstrap_with c fresh req s fresh.token else (err (code err_bad_bootstrap), s)

unfoldable pub bootstrap : Crypto → Fresh → BootstrapRequest → Service → Reply BootstrapResponse
bootstrap c fresh req s =
    if s.bootstrap_used
    then (err (code err_bad_bootstrap), s)
    else if s.bootstrap_code == req.bootstrap_token
    then bootstrap_counted c fresh req s (get_user_count s.db)
    else (err (code err_bad_bootstrap), s)
