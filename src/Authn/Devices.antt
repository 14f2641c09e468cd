-- ===== src/Authn/Devices.antt =====
-- server/authn/service.go: the challenges, and the registration of devices.
use zt_data_sync.Prelude.Assoc.{lookup, put, without, keep_values}
use zt_data_sync.Proto.{err_bad_request, err_bad_signature, err_bad_challenge, err_user_revoked}
use zt_data_sync.Store.Rows.{User, Device, DeviceStatus, Db, StoreError, Result, ok, err}
use zt_data_sync.Store.Queries.{get_user_by_username, is_active}
use zt_data_sync.Store.Tx.{with_tx, create_device}
use zt_data_sync.Authn.{
  challenge_ttl, token_ttl, AuthnError, code, store, other, Crypto, PendingChallenge, Service,
  Fresh, Reply,
}
use zt_data_sync.Prelude.{
  ℕ, Bool, not, Option, none, some, List, ◌+◌, ◌==◌, ltb, length, if◌then◌else◌,
}

pub record DeviceChallengeResponse : Type 0 where
  pub challenge : ℕ
  pub expires_in : ℕ

abbrev pub unexpired : ℕ → PendingChallenge → Bool
unexpired now pc = not (ltb pc.expires_at now)

-- The expired challenges go once there are more than 1000.
unfoldable pub clean_challenges : ℕ → List (ℕ × PendingChallenge) → List (ℕ × PendingChallenge)
clean_challenges now pcs = if ltb 1000 (length pcs) then keep_values (unexpired now) pcs else pcs

abbrev pub issue : ℕ → ℕ → Option ℕ → Service → Reply DeviceChallengeResponse
issue now username none s = (err other, s)
issue now username (some challenge) s = (
  ok (record { challenge = challenge; expires_in = challenge_ttl }),
  record s {
    challenges =
        put username (record { challenge = challenge; expires_at = now + challenge_ttl })
          (clean_challenges now s.challenges);
  },
)

-- What the lookup of a user name that fails is answered with.
abbrev pub unknown_user : StoreError → AuthnError
unknown_user StoreError.no_rows = code err_bad_request
unknown_user e = store e

abbrev pub challenge_user :
    ℕ → ℕ → Option ℕ → Service → Result StoreError User → Reply DeviceChallengeResponse
challenge_user now username random s (err e) = (err (unknown_user e), s)
challenge_user now username random s (ok u) =
    if is_active u then issue now username random s else (err (code err_user_revoked), s)

unfoldable pub create_challenge : ℕ → ℕ → Option ℕ → Service → Reply DeviceChallengeResponse
create_challenge now username random s =
    challenge_user now username random s (get_user_by_username s.db username)

pub record DeviceRegisterRequest : Type 0 where
  pub username : ℕ
  pub challenge : ℕ
  pub signature : ℕ
  pub device_name : ℕ
  pub hostname : ℕ

pub record DeviceRegisterResponse : Type 0 where
  pub device_id : ℕ
  pub token : ℕ
  pub expires_in : ℕ

abbrev pub new_device : Fresh → ℕ → DeviceRegisterRequest → User → Device
new_device fresh hash req u = record {
  id = fresh.device_id;
  user_id = u.id;
  name = req.device_name;
  hostname = req.hostname;
  last_ip = 0;
  token_hash = hash;
  status = DeviceStatus.enabled;
  last_seen = 0;
}

abbrev pub end_register :
    Fresh → ℕ → Service → Result StoreError (Unit {0}) × Db → Reply DeviceRegisterResponse
end_register fresh token s (err e, db) = (err (store e), record s { db = db })
end_register fresh token s (ok u, db) = (
  ok (record { device_id = fresh.device_id; token = token; expires_in = token_ttl }),
  record s { db = db },
)

abbrev pub register_with :
    Crypto
    → Fresh
    → DeviceRegisterRequest
    → User
    → Service
    → Option ℕ
    → Reply DeviceRegisterResponse
register_with c fresh req u s none = (err other, s)
register_with c fresh req u s (some token) =
    end_register fresh token s
      (with_tx (create_device (new_device fresh (c.hash_token token) req u)) s.db)

abbrev pub verify_with :
    Crypto
    → Fresh
    → DeviceRegisterRequest
    → ℕ
    → User
    → Service
    → Option ℕ
    → Option ℕ
    → Reply DeviceRegisterResponse
verify_with c fresh req challenge u s none sig = (err other, s)
verify_with c fresh req challenge u s (some key) none = (err (code err_bad_request), s)
verify_with c fresh req challenge u s (some key) (some sig) =
    if c.verify_sm2 key challenge sig
    then register_with c fresh req u s fresh.token
    else (err (code err_bad_signature), s)

abbrev pub register_user :
    Crypto
    → Fresh
    → DeviceRegisterRequest
    → ℕ
    → Service
    → Result StoreError User
    → Reply DeviceRegisterResponse
register_user c fresh req challenge s (err e) = (err (unknown_user e), s)
register_user c fresh req challenge s (ok u) =
    if is_active u
    then verify_with c fresh req challenge u s (c.parse_sm2_public_key u.sm2_public_key)
        (c.decode_base64 req.signature)
    else (err (code err_user_revoked), s)

abbrev pub redeem :
    Crypto
    → ℕ
    → Fresh
    → DeviceRegisterRequest
    → Service
    → Option PendingChallenge
    → Reply DeviceRegisterResponse
redeem c now fresh req s none = (err (code err_bad_challenge), s)
redeem c now fresh req s (some pc) =
    if ltb pc.expires_at now
    then (err (code err_bad_challenge), s)
    else if pc.challenge == req.challenge
    then register_user c fresh req pc.challenge s (get_user_by_username s.db req.username)
    else (err (code err_bad_challenge), s)

-- The challenge is taken out before it is looked at: it goes whatever the outcome.
unfoldable pub register_device :
    Crypto → ℕ → Fresh → DeviceRegisterRequest → Service → Reply DeviceRegisterResponse
register_device c now fresh req s =
    redeem c now fresh req (record s { challenges = without req.username s.challenges })
      (lookup req.username s.challenges)
