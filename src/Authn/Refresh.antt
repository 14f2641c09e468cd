-- ===== src/Authn/Refresh.antt =====
-- server/api/auth.go: what the refresh of a token does to the requests that follow.
use mathlib.Core.Path.{subst}
use zt_data_sync.Proto.{err_unauthorized}
use zt_data_sync.Store.Rows.{User, Device, Db, Stmt, ok, err}
use zt_data_sync.Store.Queries.{get_user_by_id, get_device_by_token_hash}
use zt_data_sync.Store.Tx.{with_tx, update_device, hash_taken, refresh_token_hash, insert_audit}
use zt_data_sync.Store.Queries.{is_active}
use zt_data_sync.Authn.{token_ttl}
use zt_data_sync.Authn.Tokens.{
  AuthContext, require_auth, handle_refresh, record_actor, is_enabled, device_refresh,
  device_online,
}
use zt_data_sync.Prelude.{
  ℕ, Bool, true, false, Option, none, some, List, [], ◌∷◌, ◌==◌, ◌≡◌, ◌≢◌, inl, inr, refl, find,
  All, sym, ap, ◌∙◌, arith, Bool-cases, ==_iff,
}

-- `token_hash` is UNIQUE and `id` the primary key.
unfoldable pub Apart : List Device → Type 0
Apart [] = Unit {0}
Apart (d ∷ ds) = All (λ (x : Device). (x.token_hash ≢ d.token_hash) × (x.id ≢ d.id)) ds × Apart ds

abbrev with_hash : ℕ → Device → Device
with_hash hash d = record d { token_hash = hash }

abbrev pub by_hash : ℕ → List Device → Option Device
by_hash hash ds = find (λ (d : Device). d.token_hash == hash) ds

find-All :
    (P : Device → Type 0) (hash : ℕ) (ds : List Device) {d : Device}
    → All P ds
    → by_hash hash ds ≡ some d
    → P d × (d.token_hash ≡ hash)
find-All P hash [] a h = absurd (ground (arith, h))
find-All P hash (x ∷ xs) {d} (p, a) h = elim (Bool-cases (x.token_hash == hash)) [
  | inl same ↦ let is : x ≡ d = ground (arith, same, h) in (subst P is p, ground (arith, same, is))
  | inr other ↦ find-All P hash xs a (ground (arith, other, h))
]

abbrev Differs : Device → Device → Type 0
Differs d x = (x.token_hash ≢ d.token_hash) × (x.id ≢ d.id)

-- Rows with other hashes are not found, also where the update gives them the new one.
old-none :
    (new id : ℕ) (d : Device) (ds : List Device)
    → new ≢ d.token_hash
    → All (Differs d) ds
    → by_hash d.token_hash (update_device id (with_hash new) ds) ≡ none
unfolding update_device
old-none new id d [] ne a = refl
old-none new id d (x ∷ xs) ne (p, a) = ground (arith, p, ne, old-none new id d xs ne a)

old-gone :
    (old new : ℕ) (ds : List Device) (d : Device)
    → new ≢ old
    → Apart ds
    → by_hash old ds ≡ some d
    → by_hash old (update_device d.id (with_hash new) ds) ≡ none
unfolding update_device Apart
old-gone old new [] d ne apart h = refl
old-gone old new (x ∷ xs) d ne (a, apart) h = elim (Bool-cases (x.token_hash == old)) [
  | inl same ↦
      let rest = old-none new d.id x xs (ground (arith, ne, same)) a in
      ground (arith, same, h, ne, rest)
  | inr other ↦
      let rest = old-gone old new xs d ne apart (ground (arith, other, h)) in
      ground (arith, other, ne, rest)
]

new-found :
    (old new : ℕ) (ds : List Device) (d : Device)
    → All (λ (x : Device). x.token_hash ≢ new) ds
    → Apart ds
    → by_hash old ds ≡ some d
    → by_hash new (update_device d.id (with_hash new) ds) ≡ some (with_hash new d)
unfolding update_device Apart
new-found old new [] d fresh apart h = absurd (ground (arith, h))
new-found old new (x ∷ xs) d (ne, fresh) (a, apart) h = elim (Bool-cases (x.token_hash == old)) [
  | inl same ↦ let is : x ≡ d = ground (arith, same, h) in ground (arith, same, is)
  | inr other ↦
      let later : by_hash old xs ≡ some d = ground (arith, other, h) in
      let (differs, _) = find-All (Differs x) old xs a later in
      let rest = new-found old new xs d fresh apart later in ground (arith, differs, ne, rest)
]

fresh-free :
    (id new : ℕ) (ds : List Device)
    → All (λ (x : Device). x.token_hash ≢ new) ds
    → hash_taken id new ds ≡ false
fresh-free id new [] a = refl
fresh-free id new (x ∷ xs) (ne, a) = ground (arith, ne, fresh-free id new xs a)

-- What the middleware found, where it lets a request pass.
pub require_auth-ok :
    (hash_token : ℕ → ℕ) (ip token : ℕ) (db : Db) {ac : AuthContext}
    → (require_auth hash_token ip (some token) db).0 ≡ ok ac
    → (by_hash (hash_token token) db.devices ≡ some ac.device)
      × (is_enabled ac.device ≡ true)
      × (get_user_by_id db ac.device.user_id ≡ ok ac.user)
      × (is_active ac.user ≡ true)
unfolding require_auth get_device_by_token_hash
require_auth-ok hash_token ip token db {ac} h =
    (ground (arith, h), ground (arith, h), ground (arith, h), ground (arith, h))

pub record_actor-tables :
    (now device_id user_id action : ℕ) (db : Db)
    → ((record_actor now device_id user_id action db).devices ≡ db.devices)
      × ((record_actor now device_id user_id action db).users ≡ db.users)
      × ((record_actor now device_id user_id action db).fails ≡ db.fails)
unfolding record_actor with_tx insert_audit
record_actor-tables now device_id user_id action db = (ground arith, ground arith, ground arith)

-- What a refresh leaves, where the driver runs every statement.
record Refreshed (ac : AuthContext) (hash : ℕ) (before after : Db) : Type 0 where
  devices : after.devices ≡ update_device ac.device.id (with_hash hash) before.devices
  users : after.users ≡ before.users
  no_faults : (s : Stmt) → after.fails s ≡ false

refresh_tx :
    (id hash : ℕ) (db : Db)
    → ((s : Stmt) → db.fails s ≡ false)
    → hash_taken id hash db.devices ≡ false
    → with_tx (refresh_token_hash id hash) db
      ≡ (ok tt, record db { devices = update_device id (with_hash hash) db.devices })
unfolding with_tx refresh_token_hash
refresh_tx id hash db runs free =
    ground (arith, runs Stmt.begin_tx, runs Stmt.refresh_token, runs Stmt.commit_tx, free)

handle_refresh-Refreshed :
    (hash_token : ℕ → ℕ) (now token : ℕ) (ac : AuthContext) (db : Db)
    → ((s : Stmt) → db.fails s ≡ false)
    → ac.device.id ≢ 0
    → hash_taken ac.device.id (hash_token token) db.devices ≡ false
    → ((handle_refresh hash_token now (some ac) (some token) db).0
        ≡ ok (record { token = token; expires_in = token_ttl }))
      × Refreshed ac
          (hash_token token)
          db
          (handle_refresh hash_token now (some ac) (some token) db).1
unfolding handle_refresh
handle_refresh-Refreshed hash_token now token ac db runs named free =
    let tx = refresh_tx ac.device.id (hash_token token) db runs free in
    let db' : Db = record db {
      devices = update_device ac.device.id (with_hash (hash_token token)) db.devices;
    } in
    let (devices, users, fails) =
      record_actor-tables now ac.device.id ac.user.id device_refresh db' in
    let db2 = record_actor now ac.device.id ac.user.id device_refresh db' in
    let (devices2, users2, fails2) =
      record_actor-tables now ac.device.id ac.user.id device_online db2 in
    elim (Bool-cases (ac.device.id == 0)) [
      | inl unnamed ↦ absurd (named ((==_iff ac.device.id 0).0 unnamed))
      | inr other ↦
          rw (other, tx)
            (
              refl,
              record {
                devices = devices2 ∙ devices;
                users = users2 ∙ users;
                no_faults = λ s. ap (λ (f : Stmt → Bool). f s) (fails2 ∙ fails) ∙ runs s;
              },
            )
    ]

require_auth-passes :
    (hash_token : ℕ → ℕ) (ip token : ℕ) (db : Db) (d : Device) (u : User)
    → token ≢ 0
    → ((s : Stmt) → db.fails s ≡ false)
    → by_hash (hash_token token) db.devices ≡ some d
    → is_enabled d ≡ true
    → find (λ (x : User). x.id == d.user_id) db.users ≡ some u
    → is_active u ≡ true
    → (require_auth hash_token ip (some token) db).0 ≡ ok (record { device = d; user = u })
unfolding require_auth get_device_by_token_hash get_user_by_id
require_auth-passes hash_token ip token db d u some_token runs found enabled user active =
    ground
      (arith, some_token, runs Stmt.get_token, runs Stmt.get_user, found, enabled, user, active)

require_auth-unknown :
    (hash_token : ℕ → ℕ) (ip token : ℕ) (db : Db)
    → by_hash (hash_token token) db.devices ≡ none
    → (require_auth hash_token ip (some token) db).0 ≡ err err_unauthorized
unfolding require_auth get_device_by_token_hash
require_auth-unknown hash_token ip token db gone = ground (arith, gone)

pub get_user_by_id-ok :
    (db : Db) (id : ℕ) (u : User)
    → get_user_by_id db id ≡ ok u
    → find (λ (x : User). x.id == id) db.users ≡ some u
unfolding get_user_by_id
get_user_by_id-ok db id u h = ground (arith, h)

-- A device whose token the server accepts exchanges it, where the driver runs every statement, the
-- new token is not empty and its hash is no device's, and no two devices share an identifier or a
-- hash: the refresh succeeds, from then on the old token is refused as unknown, and the new one
-- passes, for the same device and user.
pub refresh-require_auth :
    (hash_token : ℕ → ℕ) (now ip old new : ℕ) (db : Db) (ac : AuthContext)
    → (require_auth hash_token ip (some old) db).0 ≡ ok ac
    → ((s : Stmt) → db.fails s ≡ false)
    → Apart db.devices
    → All (λ (x : Device). x.token_hash ≢ hash_token new) db.devices
    → ac.device.id ≢ 0
    → new ≢ 0
    → let r = handle_refresh hash_token now (some ac) (some new) db in
      (r.0 ≡ ok (record { token = new; expires_in = token_ttl }))
      × ((require_auth hash_token ip (some old) r.1).0 ≡ err err_unauthorized)
      × ((require_auth hash_token ip (some new) r.1).0
          ≡ ok (record {
            device = record ac.device { token_hash = hash_token new };
            user = ac.user;
          }))
refresh-require_auth hash_token now ip old new db ac passes runs apart fresh named some_token =
    let (found, enabled, user, active) = require_auth-ok hash_token ip old db passes in
    let o = hash_token old in
    let n = hash_token new in
    let d = ac.device in
    let (done, left) =
      handle_refresh-Refreshed hash_token now new ac db runs named
        (fresh-free d.id n db.devices fresh) in
    let db' = (handle_refresh hash_token now (some ac) (some new) db).1 in
    let (differs, same) = find-All (λ (x : Device). x.token_hash ≢ n) o db.devices fresh found in
    let ne : n ≢ o = λ e. differs (same ∙ sym e) in
    let gone = ap (by_hash o) left.devices ∙ old-gone o n db.devices d ne apart found in
    let there = ap (by_hash n) left.devices ∙ new-found o n db.devices d fresh apart found in
    let known =
      ap (λ (us : List User). find (λ (x : User). x.id == d.user_id) us) left.users
      ∙ get_user_by_id-ok db d.user_id ac.user user in
    (
      done,
      require_auth-unknown hash_token ip old db' gone,
      require_auth-passes hash_token ip new db' (with_hash n d) ac.user some_token left.no_faults
          there enabled known active,
    )
