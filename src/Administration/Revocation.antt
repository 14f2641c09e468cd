-- ===== src/Administration/Revocation.antt =====
-- server/api/admin.go: what is left to a user who was revoked.
use mathlib.Core.Path.{subst}
use zt_data_sync.Store.Rows.{User, Group, Envelope, Db, Result, ok, err, bind-ok, Result-cases}
use zt_data_sync.Store.Queries.{is_member, list_user_groups}
use zt_data_sync.Store.Tx.{with_tx, then_tx, insert_audit}
use zt_data_sync.Store.Access.{
  revoke_all, set_user_revoked, disable_user_devices, delete_user_envelopes,
}
use zt_data_sync.Store.Queries.{is_active}
use zt_data_sync.Authn.Refresh.{require_auth-ok, get_user_by_id-ok}
use zt_data_sync.Sync.Envelopes.Append.{with_tx_ok}
use zt_data_sync.Authn.Tokens.{AuthContext, require_auth, record_actor}
use zt_data_sync.Administration.Leaving.{leave_groups-Left, any-filter, waits}
use zt_data_sync.Administration.{revoke_tx, leave_groups, revoke_across, named_user, revoke_action}
use zt_data_sync.Prelude.{
  ℕ, Bool, true, false, not, List, [], ◌∷◌, ◌==◌, ◌≡◌, ◌≢◌, some, refl, filter, find, any, All, sym,
  ap, ◌∙◌, inl, inr, arith, Bool-cases,
}

-- No user of that identifier who is found is active.
find-revoked :
    (uid id : ℕ) (us : List User) {u : User}
    → find (λ (x : User). x.id == id) (revoke_all uid us) ≡ some u
    → is_active u ≡ true
    → id ≢ uid
unfolding revoke_all
find-revoked uid id [] h active = absurd (ground (arith, h))
find-revoked uid id (x ∷ xs) {u} h active = elim (Bool-cases (x.id == id)) [
  | inl same ↦ λ e. absurd (ground (arith, h, same, active, e))
  | inr other ↦ elim (Bool-cases (x.id == uid)) [
    | inl it ↦ find-revoked uid id xs {u = u} (ground (arith, h, other, it)) active
    | inr not_it ↦ find-revoked uid id xs {u = u} (ground (arith, h, other, not_it)) active
  ]
]

-- What the transaction leaves.
record Revoked (uid : ℕ) (gs : List Group) (before after : Db) : Type 0 where
  users : after.users ≡ revoke_all uid before.users
  envelopes : any (λ (e : Envelope). e.user_id == uid) after.envelopes ≡ false
  out : All (λ (g : Group). is_member g.id uid after.members ≡ false) gs
  waiting : All (λ (g : Group). waits g.id after.groups ≡ true) gs

set_user_revoked-ok :
    (uid : ℕ) (db : Db) {r : Unit {0} × Db}
    → set_user_revoked uid db ≡ ok r
    → r.1.users ≡ revoke_all uid db.users
unfolding set_user_revoked
set_user_revoked-ok uid db h = ground (arith, h)

disable_user_devices-ok :
    (uid : ℕ) (db : Db) {r : Unit {0} × Db}
    → disable_user_devices uid db ≡ ok r
    → r.1.users ≡ db.users
unfolding disable_user_devices
disable_user_devices-ok uid db h = ground (arith, h)

delete_user_envelopes-ok :
    (uid : ℕ) (db : Db) {r : Unit {0} × Db}
    → delete_user_envelopes uid db ≡ ok r
    → (r.1.users ≡ db.users)
      × (r.1.envelopes ≡ filter (λ (e : Envelope). not (e.user_id == uid)) db.envelopes)
unfolding delete_user_envelopes
delete_user_envelopes-ok uid db h = (ground (arith, h), ground (arith, h))

revoke_tx-Revoked :
    (uid : ℕ) (gs : List Group) (db : Db) {r : Unit {0} × Db}
    → revoke_tx uid gs db ≡ ok r
    → Revoked uid gs db r.1
unfolding revoke_tx
revoke_tx-Revoked uid gs db {r} h =
    let last = then_tx (delete_user_envelopes uid) (leave_groups uid gs) in
    let (one, first, h1) =
      bind-ok (set_user_revoked uid db) (λ m. then_tx (disable_user_devices uid) last m.1) h in
    let (two, second, h2) = bind-ok (disable_user_devices uid one.1) (λ m. last m.1) h1 in
    let (three, third, h3) =
      bind-ok (delete_user_envelopes uid two.1) (λ m. leave_groups uid gs m.1) h2 in
    let left = leave_groups-Left uid gs three.1 {r = r} h3 in
    let (same, gone) = delete_user_envelopes-ok uid two.1 {r = three} third in
    record {
      users =
          left.users
          ∙ same
          ∙ disable_user_devices-ok uid one.1 {r = two} second
          ∙ set_user_revoked-ok uid db {r = one} first;
      envelopes =
          ap (any (λ (e : Envelope). e.user_id == uid)) (left.envelopes ∙ gone)
          ∙ any-filter (λ (e : Envelope). e.user_id == uid) two.1.envelopes;
      out = left.out;
      waiting = left.waiting;
    }

-- The request passes, as the user.
abbrev pub passes_as : ℕ → Result ℕ AuthContext → Bool
passes_as uid (ok ac) = ac.user.id == uid
passes_as uid (err e) = false

find-id :
    (id : ℕ) (us : List User) {u : User} → find (λ (x : User). x.id == id) us ≡ some u → u.id ≡ id
find-id id [] h = absurd (ground (arith, h))
find-id id (x ∷ xs) {u} h = elim (Bool-cases (x.id == id)) [
  | inl same ↦ ground (arith, h, same)
  | inr other ↦ find-id id xs {u = u} (ground (arith, h, other))
]

revoked-shut_out :
    (hash_token : ℕ → ℕ) (ip token uid : ℕ) (us : List User) (db : Db)
    → db.users ≡ revoke_all uid us
    → passes_as uid (require_auth hash_token ip (some token) db).0 ≡ false
revoked-shut_out hash_token ip token uid us db is =
    elim (Result-cases (require_auth hash_token ip (some token) db).0) [
      | inr (e, failed) ↦ rw failed refl
      | inl (ac, passed) ↦
          let (found, enabled, user, active) = require_auth-ok hash_token ip token db passed in
          let there = get_user_by_id-ok db ac.device.user_id ac.user user in
          let in_revoked = ap (find (λ (x : User). x.id == ac.device.user_id)) (sym is) ∙ there in
          let ne = find-revoked uid ac.device.user_id us {u = ac.user} in_revoked active in
          let same = find-id ac.device.user_id db.users {u = ac.user} there in
          rw passed (ground (arith, ne, same))
    ]

record_actor-keeps :
    (now device_id user_id action : ℕ) (db : Db)
    → let after = record_actor now device_id user_id action db in
      (after.users ≡ db.users)
      × (after.envelopes ≡ db.envelopes)
      × (after.members ≡ db.members)
      × (after.groups ≡ db.groups)
unfolding record_actor with_tx insert_audit
record_actor-keeps now device_id user_id action db =
    (ground arith, ground arith, ground arith, ground arith)

recorded-Revoked :
    (now device_id user_id action uid : ℕ) (gs : List Group) (before db : Db)
    → Revoked uid gs before db
    → Revoked uid gs before (record_actor now device_id user_id action db)
recorded-Revoked now device_id user_id action uid gs before db k =
    let (users, envelopes, members, groups) = record_actor-keeps now device_id user_id action db in
    record {
      users = users ∙ k.users;
      envelopes = ap (any (λ (e : Envelope). e.user_id == uid)) envelopes ∙ k.envelopes;
      out = subst (λ ms. All (λ (g : Group). is_member g.id uid ms ≡ false) gs) (sym members) k.out;
      waiting =
          subst (λ rows. All (λ (g : Group). waits g.id rows ≡ true) gs) (sym groups) k.waiting;
    }

revoke_across-Revoked :
    (now : ℕ) (ac : AuthContext) (uid confirm_name : ℕ) (seen db : Db) (gs : List Group)
    {names : List ℕ}
    → (revoke_across now ac uid confirm_name seen db).0.0 ≡ ok names
    → list_user_groups seen uid ≡ ok gs
    → Revoked uid gs db (revoke_across now ac uid confirm_name seen db).1
      × ((revoke_across now ac uid confirm_name seen db).0.1 ≡ true)
unfolding revoke_across
revoke_across-Revoked now ac uid confirm_name seen db gs {names} h listed =
    elim (Result-cases (named_user uid confirm_name seen)) [
      | inr (e, unknown) ↦ absurd (ground (arith, h, unknown))
      | inl (u, named) ↦ elim (Result-cases (with_tx (revoke_tx uid gs) db).0) [
        | inr (e, failed) ↦ absurd (ground (arith, h, named, listed, failed))
        | inl (t, done) ↦
            let r = with_tx (revoke_tx uid gs) db in
            let ran = with_tx_ok (revoke_tx uid gs) db t done in
            let left = revoke_tx-Revoked uid gs db {r = (t, r.1)} ran in
            rw (named, listed, done)
              (recorded-Revoked now ac.device.id ac.user.id revoke_action uid gs db r.1 left, refl)
      ]
    ]

-- A revocation that succeeds leaves the user nothing: no token passes as the user from then on, no
-- envelope of the user is left, the user is a member of none of the groups that were listed before
-- the transaction, each of these waits for a rekey, and the user's connections are closed. Other
-- requests may have changed the tables between the list and the transaction.
pub revoke_across-shut_out :
    (now : ℕ) (ac : AuthContext) (uid confirm_name : ℕ) (seen db : Db) (gs : List Group)
    (hash_token : ℕ → ℕ) (ip token : ℕ) {names : List ℕ}
    → (revoke_across now ac uid confirm_name seen db).0.0 ≡ ok names
    → list_user_groups seen uid ≡ ok gs
    → let r = revoke_across now ac uid confirm_name seen db in
      (passes_as uid (require_auth hash_token ip (some token) r.1).0 ≡ false)
      × (any (λ (e : Envelope). e.user_id == uid) r.1.envelopes ≡ false)
      × All (λ (g : Group). is_member g.id uid r.1.members ≡ false) gs
      × All (λ (g : Group). waits g.id r.1.groups ≡ true) gs
      × (r.0.1 ≡ true)
revoke_across-shut_out now ac uid confirm_name seen db gs hash_token ip token h listed =
    let (left, closed) = revoke_across-Revoked now ac uid confirm_name seen db gs h listed in
    let db' = (revoke_across now ac uid confirm_name seen db).1 in
    (
      revoked-shut_out hash_token ip token uid db.users db' left.users,
      left.envelopes,
      left.out,
      left.waiting,
      closed,
    )
