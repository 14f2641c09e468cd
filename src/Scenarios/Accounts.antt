-- ===== src/Scenarios/Accounts.antt =====
-- The first administrator, the registration of devices and the refresh of tokens.
use zt_data_sync.Scenarios.Samples.{base_db, user_of, device_of}
use zt_data_sync.Proto.{err_unauthorized}
use zt_data_sync.Store.Rows.{Db, ok, err}
use zt_data_sync.Store.Queries.{
  get_user_count, get_user_by_username, get_user_by_id, get_device_by_token_hash,
}
use zt_data_sync.Store.Tx.{with_tx, create_user, create_device}
use zt_data_sync.Authn.{Crypto, Fresh, BootstrapRequest, new_service, bootstrap, token_ttl}
use zt_data_sync.Authn.Devices.{
  DeviceRegisterRequest, create_challenge, register_device, clean_challenges,
}
use zt_data_sync.Authn.Tokens.{AuthContext, require_auth, handle_refresh}
use zt_data_sync.Authn.Runs.{Action, Event, run, bootstraps, follows}
use zt_data_sync.Authn.Bootstrap.{bootstrap_once}
use zt_data_sync.Authn.Challenges.{registrations_follow}
use zt_data_sync.Authn.Refresh.{Apart, refresh-require_auth}
use zt_data_sync.Prelude.{true, some, none, List, [], ◌∷◌, ◌==◌, ◌≡◌, ◌≤◌, ◌+◌, refl, arith}

-- A signature of a challenge is the sum of it and the key.
abbrev plain : Crypto
plain = record {
  hash_token = λ t. t;
  parse_sm2_public_key = λ k. some k;
  decode_base64 = λ s. some s;
  verify_sm2 = λ key challenge sig. sig == key + challenge;
}

abbrev empty_db : Db
empty_db = record base_db { users = []; devices = []; members = []; entries = []; envelopes = [] }

abbrev request : BootstrapRequest
request = record {
  bootstrap_token = 5;
  username = 41;
  name = 42;
  sm2_public_key = 43;
  device_name = 44;
}

abbrev first : Fresh
first = record { user_id = 1; device_id = 2; token = some 3 }

abbrev second : Fresh
second = record { user_id = 11; device_id = 12; token = some 13 }

-- The same code is valid again after a restart.
abbrev boots : List Action
boots =
    Action.boot first request
    ∷ Action.boot second request
    ∷ Action.restart 5
    ∷ Action.elsewhere (λ db. record db { seq = 9 })
    ∷ Action.boot second request
    ∷ []

boots_log :
    run plain boots (new_service empty_db 5)
    ≡ Event.bootstrapped ∷ Event.refused ∷ Event.restarted ∷ Event.wrote ∷ Event.refused ∷ []
unfolding run new_service bootstrap get_user_count with_tx create_user create_device
boots_log = refl

bootstrap_once_example : bootstraps (run plain boots (new_service empty_db 5)) ≤ 1
bootstrap_once_example =
    bootstrap_once plain boots (new_service empty_db 5)
      (tt, (tt, (tt, (λ db. omega arith, (tt, tt)))))

abbrev signed : DeviceRegisterRequest
signed = record { username = 7; challenge = 500; signature = 507; device_name = 1; hostname = 1 }

-- The second attempt has no challenge left.
abbrev enrolls : List Action
enrolls =
    Action.ask 1000 7 (some 500)
    ∷ Action.enroll 1300 first signed
    ∷ Action.enroll 1300 second signed
    ∷ []

enrolls_log :
    run plain enrolls (new_service base_db 5)
    ≡ Event.issued 7 1000 500 ∷ Event.registered 7 1300 500 ∷ Event.spent 7 ∷ []
unfolding run new_service create_challenge register_device get_user_by_username clean_challenges
    with_tx create_device
enrolls_log = refl

registrations_follow_example : follows 7 (run plain enrolls (new_service base_db 5)) none ≡ true
registrations_follow_example = registrations_follow plain 7 enrolls base_db 5

abbrev caller : AuthContext
caller = record { device = device_of 70 7 1000; user = user_of 7 }

refresh-require_auth_example :
    let r = handle_refresh (λ t. t) 2000 (some caller) (some 99) base_db in
    (r.0 ≡ ok (record { token = 99; expires_in = token_ttl }))
    × ((require_auth (λ t. t) 1 (some 70) r.1).0 ≡ err err_unauthorized)
    × ((require_auth (λ t. t) 1 (some 99) r.1).0
        ≡ ok (record {
          device = record (device_of 70 7 1000) { token_hash = 99 };
          user = user_of 7;
        }))
unfolding require_auth Apart get_device_by_token_hash get_user_by_id
refresh-require_auth_example =
    refresh-require_auth (λ t. t) 2000 1 70 99 base_db caller refl (λ s. refl)
      ((
        ((omega arith, omega arith), ((omega arith, omega arith), tt)),
        ((((omega arith, omega arith), tt), (tt, tt))),
      ))
      (omega arith, (omega arith, (omega arith, tt))) (omega arith) (omega arith)
