-- ===== src/Authn/Runs.antt =====
-- Runs of the service of server/authn/service.go: its calls in any order, with what other requests
-- do to the tables and restarts of the server in between, and the log of what was answered.
use zt_data_sync.Store.Rows.{Db, Result, ok, err}
use zt_data_sync.Authn.{
  Crypto, Service, Fresh, AuthnError, BootstrapRequest, BootstrapResponse, bootstrap, new_service,
  challenge_ttl,
}
use zt_data_sync.Authn.Devices.{
  DeviceChallengeResponse, DeviceRegisterRequest, DeviceRegisterResponse, create_challenge,
  register_device,
}
use zt_data_sync.Prelude.{
  ℕ, Bool, true, false, Option, none, some, List, [], ◌∷◌, ◌+◌, ◌==◌, ◌&&◌, leb, if◌then◌else◌,
  length, filter,
}

-- `elsewhere` is what other requests write; the times of a call and its random values are its own.
pub data Action : Type 0 where
  boot : Fresh → BootstrapRequest → Action
  ask : ℕ → ℕ → Option ℕ → Action
  enroll : ℕ → Fresh → DeviceRegisterRequest → Action
  elsewhere : (Db → Db) → Action
  restart : ℕ → Action

-- An answer: `issued` and `registered` have the user name, the time and the challenge; `spent` is
-- a registration that was refused.
pub data Event : Type 0 where
  bootstrapped : Event
  issued registered : ℕ → ℕ → ℕ → Event
  spent : ℕ → Event
  refused wrote restarted : Event

abbrev pub boot_event : Result AuthnError BootstrapResponse → Event
boot_event (ok r) = bootstrapped
boot_event (err e) = refused

abbrev pub ask_event : ℕ → ℕ → Result AuthnError DeviceChallengeResponse → Event
ask_event now username (ok r) = issued username now r.challenge
ask_event now username (err e) = refused

abbrev pub enroll_event :
    ℕ → DeviceRegisterRequest → Result AuthnError DeviceRegisterResponse → Event
enroll_event now req (ok r) = registered req.username now req.challenge
enroll_event now req (err e) = spent req.username

abbrev pub step : Crypto → Action → Service → Event × Service
step c (boot fresh req) s = let r = bootstrap c fresh req s in (boot_event r.0, r.1)
step c (ask now username random) s =
    let r = create_challenge now username random s in (ask_event now username r.0, r.1)
step c (enroll now fresh req) s =
    let r = register_device c now fresh req s in (enroll_event now req r.0, r.1)
step c (elsewhere f) s = (wrote, record s { db = f s.db })
step c (restart bootstrap_code) s = (restarted, new_service s.db bootstrap_code)

-- The log, the oldest event first.
unfoldable pub run : Crypto → List Action → Service → List Event
run c [] s = []
run c (a ∷ rest) s = let r = step c a s in r.0 ∷ run c rest r.1

abbrev pub is_bootstrapped : Event → Bool
is_bootstrapped bootstrapped = true
is_bootstrapped e = false

-- The bootstraps that succeeded.
unfoldable pub bootstraps : List Event → ℕ
bootstraps es = length (filter is_bootstrapped es)

-- What a user was last issued, at which time, and has not spent.
abbrev pub Held : Type 0
Held = Option (ℕ × ℕ)

abbrev pub answers : Held → ℕ → ℕ → Bool
answers none now challenge = false
answers (some (t, x)) now challenge = (x == challenge) && leb now (t + challenge_ttl)

abbrev pub held_after : ℕ → Event → Held → Held
held_after username (issued u t x) held = if u == username then some (t, x) else held
held_after username (registered u t x) held = if u == username then none else held
held_after username (spent u) held = if u == username then none else held
held_after username restarted held = none
held_after username e held = held

abbrev pub may_follow : ℕ → Event → Held → Bool
may_follow username (registered u t x) held = if u == username then answers held t x else true
may_follow username e held = true

-- Each registration of the user answers the challenge that it was issued last, within its time,
-- and no attempt was made with it before.
unfoldable pub follows : ℕ → List Event → Held → Bool
follows username [] held = true
follows username (e ∷ es) held =
    may_follow username e held && follows username es (held_after username e held)
