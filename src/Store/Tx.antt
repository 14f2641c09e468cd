-- ===== src/Store/Tx.antt =====
-- server/store/sqlite.go: the writes of a transaction, and `WithTx`. A write takes the tables to
-- new ones, or fails; what a transaction that fails has written is rolled back.
use zt_data_sync.Prelude.{
  ℕ, suc, ◌-◌, Bool, true, false, not, ◌&&◌, ◌||◌, Option, none, some, List, [], ◌∷◌, ◌++◌, ltb,
  ◌==◌, if◌then◌else◌, length, filter, any,
}
use zt_data_sync.Store.Rows.{
  User, Device, AuditEvent, Group, Entry, Envelope, Stmt, Db, StoreError, constraint_unique,
  constraint_fk, driver, Result, ok, err, ◌>>=◌,
}
use zt_data_sync.Store.Queries.{find_group, find_entry, has_username}

abbrev pub Tx : Type 0 → Type 0
Tx A = Db → Result StoreError (A × Db)

-- A statement's effect, unless the driver fails to run it.
abbrev pub exec : {A : Type 0} → Bool → Result StoreError (A × Db) → Result StoreError (A × Db)
exec true r = err driver
exec false r = r

-- `WithTx`: commit, or roll back.
abbrev pub finish_tx : {A : Type 0} → Db → Result StoreError (A × Db) → Result StoreError A × Db
finish_tx db (err e) = (err e, db)
finish_tx db (ok (a, db')) = if db.fails Stmt.commit_tx then (err driver, db) else (ok a, db')

unfoldable pub with_tx : {A : Type 0} → Tx A → Db → Result StoreError A × Db
with_tx f db = if db.fails Stmt.begin_tx then (err driver, db) else finish_tx db (f db)

-- One write after another.
abbrev pub then_tx : {A B : Type 0} → Tx A → Tx B → Tx B
then_tx f g db = f db >>= λ r. g r.1

abbrev pub pass_tx : Tx (Unit {0})
pass_tx db = ok (tt, db)

unfoldable pub next_seq : Tx ℕ
next_seq db = exec (db.fails Stmt.next_seq) (ok (suc db.seq, record db { seq = suc db.seq }))

-- The row of `ON CONFLICT(id) DO UPDATE`: the group of a row that is there stays.
unfoldable pub put_entry : Entry → List Entry → List Entry
put_entry e [] = e ∷ []
put_entry e (x ∷ xs) =
    if x.id == e.id then record e { group_id = x.group_id } ∷ xs else x ∷ put_entry e xs

-- `entries.seq` is UNIQUE.
abbrev pub seq_taken : ℕ → List Entry → Bool
seq_taken n es = any (λ x. x.seq == n) es

abbrev pub is_some {ℓ} : {A : Type ℓ} → Option A → Bool
is_some none = false
is_some (some a) = true

-- The foreign keys of an entry: its group, for a new row, and the device that wrote it.
abbrev pub entry_refs : Db → Entry → Bool
entry_refs db e =
    (is_some (find_entry e.id db.entries) || is_some (find_group e.group_id db.groups))
    && any (λ d. d.id == e.updated_by) db.devices

abbrev pub write_entry : Entry → ℕ × Db → Result StoreError (ℕ × Db)
write_entry e (n, db) = exec (db.fails Stmt.upsert_entry) (
    if seq_taken n db.entries
    then err constraint_unique
    else if entry_refs db e
    then ok (n, record db { entries = put_entry (record e { seq = n }) db.entries })
    else err constraint_fk)

unfoldable pub upsert_entry : Entry → Tx ℕ
unfolding next_seq
upsert_entry e db = next_seq db >>= write_entry e

abbrev pub has_envelope : ℕ → ℕ → ℕ → List Envelope → Bool
has_envelope gid kv uid es =
    any (λ x. (x.group_id == gid) && ((x.key_version == kv) && (x.user_id == uid))) es

-- `ON CONFLICT DO NOTHING`, with no row written reported as a conflict.
unfoldable pub upsert_envelope : Envelope → Tx (Unit {0})
upsert_envelope e db = exec (db.fails Stmt.upsert_envelope) (
    if has_envelope e.group_id e.key_version e.user_id db.envelopes
    then err constraint_unique
    else ok (tt, record db { envelopes = db.envelopes ++ (e ∷ []) }))

-- The inserts of `ReplaceEnvelopes`: a second envelope for one user violates the primary key,
-- which `classifyErr` passes on as the driver's error.
unfoldable pub insert_envelopes : List Envelope → List Envelope → Result StoreError (List Envelope)
insert_envelopes [] es = ok es
insert_envelopes (e ∷ rest) es =
    let more = insert_envelopes rest (es ++ (e ∷ [])) in
    if has_envelope e.group_id e.key_version e.user_id es then err driver else more

unfoldable pub replace_envelopes : ℕ → ℕ → List Envelope → Tx (Unit {0})
unfolding insert_envelopes
replace_envelopes gid kv envs db = exec (db.fails Stmt.replace_envelopes) (
    insert_envelopes envs
      (filter (λ x. not ((x.group_id == gid) && (x.key_version == kv))) db.envelopes)
    >>= λ es. ok (tt, record db { envelopes = es }))

unfoldable pub delete_old_kv_envelopes : ℕ → ℕ → Tx (Unit {0})
delete_old_kv_envelopes gid kv db = exec (db.fails Stmt.delete_envelopes) (
    ok (
      tt,
      record db {
        envelopes = filter (λ x. not ((x.group_id == gid) && ltb x.key_version kv)) db.envelopes;
      },
    ))

-- `UPDATE groups … WHERE id = gid`
unfoldable pub update_group : ℕ → (Group → Group) → List Group → List Group
update_group gid f [] = []
update_group gid f (g ∷ gs) = (if g.id == gid then f g else g) ∷ update_group gid f gs

unfoldable pub set_group_rekey : ℕ → ℕ → Tx (Unit {0})
set_group_rekey gid pending db = exec (db.fails Stmt.set_rekey) (
    ok (
      tt,
      record db { groups = update_group gid (λ g. record g { pending_rekey = pending }) db.groups },
    ))

unfoldable pub set_group_key_version : ℕ → ℕ → Tx (Unit {0})
set_group_key_version gid kv db = exec (db.fails Stmt.set_key_version) (
    ok (tt, record db { groups = update_group gid (λ g. record g { key_version = kv }) db.groups }))

unfoldable pub delete_old_tombstones : ℕ → Tx (Unit {0})
delete_old_tombstones before db = exec (db.fails Stmt.delete_tombstones) (
    ok (
      tt,
      record db { entries = filter (λ e. not (e.deleted && ltb e.updated_at before)) db.entries },
    ))

-- The number of rows deleted.
unfoldable pub delete_old_audit : ℕ → Tx ℕ
delete_old_audit before db = exec (db.fails Stmt.delete_audit) (
    let kept = filter (λ e. not (ltb e.ts before)) db.audit in
    ok (length db.audit - length kept, record db { audit = kept }))

abbrev pub has_device : ℕ → Db → Bool
has_device id db = any (λ d. d.id == id) db.devices

-- A repeated identifier violates the primary key, which `classifyErr` passes on as the driver's
-- error.
unfoldable pub create_user : User → Tx (Unit {0})
create_user u db = exec (db.fails Stmt.create_user) (
    if any (λ x. x.id == u.id) db.users
    then err driver
    else if any (has_username u.username) db.users
    then err constraint_unique
    else ok (tt, record db { users = db.users ++ (u ∷ []) }))

unfoldable pub create_device : Device → Tx (Unit {0})
create_device d db = exec (db.fails Stmt.create_device) (
    if has_device d.id db
    then err driver
    else if any (λ x. x.token_hash == d.token_hash) db.devices
    then err constraint_unique
    else if any (λ u. u.id == d.user_id) db.users
    then ok (tt, record db { devices = db.devices ++ (record d { last_seen = 0 } ∷ []) })
    else err constraint_fk)

-- `UPDATE devices … WHERE id = id`
unfoldable pub update_device : ℕ → (Device → Device) → List Device → List Device
update_device id f [] = []
update_device id f (d ∷ ds) = (if d.id == id then f d else d) ∷ update_device id f ds

unfoldable pub update_device_seen : ℕ → ℕ → ℕ → Tx (Unit {0})
update_device_seen id hostname t db = exec (db.fails Stmt.set_device_seen) (
    ok (
      tt,
      record db {
        devices =
            update_device id (λ d. record d { hostname = hostname; last_seen = t }) db.devices;
      },
    ))

unfoldable pub update_device_ip : ℕ → ℕ → Tx (Unit {0})
update_device_ip id ip db =
    exec (db.fails Stmt.set_device_ip) (
      ok (tt, record db { devices = update_device id (λ d. record d { last_ip = ip }) db.devices }))

-- Another device has the hash.
abbrev pub hash_taken : ℕ → ℕ → List Device → Bool
hash_taken id hash ds = any (λ d. not (d.id == id) && (d.token_hash == hash)) ds

-- `devices.token_hash` is UNIQUE.
unfoldable pub refresh_token_hash : ℕ → ℕ → Tx (Unit {0})
refresh_token_hash id hash db = exec (db.fails Stmt.refresh_token) (
    if has_device id db && hash_taken id hash db.devices
    then err constraint_unique
    else ok (
      tt,
      record db { devices = update_device id (λ d. record d { token_hash = hash }) db.devices },
    ))

unfoldable pub insert_audit : AuditEvent → Tx (Unit {0})
insert_audit e db =
    exec (db.fails Stmt.insert_audit) (ok (tt, record db { audit = db.audit ++ (e ∷ []) }))
