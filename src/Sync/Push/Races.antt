-- ===== src/Sync/Push/Races.antt =====
-- What the checks of `pushOne` do not cover: they read before the transaction begins, and they look
-- up the group that the mutation names and not that of the stored entry.
use zt_data_sync.Sync.Push.Conflict.{entry_after}
use zt_data_sync.Sync.Push.Invariant.{pushed_db-IsWellFormed}
use zt_data_sync.Store.Queries.{find_group, find_entry, is_member}
use zt_data_sync.Sync.Push.Guards.{Accepts, pushed_db, Accepts-check_push, pushed}
use zt_data_sync.Store.Laws.{IsWellFormed, seq_taken_above, stored, find_entry-put_entry}
use zt_data_sync.Store.Tx.{with_tx, upsert_entry, next_seq}
use zt_data_sync.Proto.{Mutation, PushResult}
use zt_data_sync.Store.Rows.{Db, Stmt, Group, Result, StoreError, ok, Entry}
use zt_data_sync.Sync.Push.{push_one, commit_push, Rejection, accepted, check_push}
use zt_data_sync.Prelude.{ℕ, some, true, false, suc, ◌==◌, ◌≡◌, any, arith, refl, ◌∙◌, ap, Bool}

-- The driver runs every statement, and knows the device.
pub record Runs (db : Db) (device_id : ℕ) : Type 0 where
  pub no_faults : (s : Stmt) → db.fails s ≡ false
  pub device : any (λ d. d.id == device_id) db.devices ≡ true

pub commit_push-Runs :
    (db : Db) (user_id device_id now : ℕ) (m : Mutation) (g : Group)
    → IsWellFormed db
    → Runs db device_id
    → find_group m.group_id db.groups ≡ some g
    → commit_push db device_id now m ≡ (ok (suc db.seq), pushed_db db device_id now m)
unfolding commit_push with_tx upsert_entry next_seq
commit_push-Runs db user_id device_id now m g w r found = ground (
  arith,
  found,
  r.device,
  r.no_faults Stmt.begin_tx,
  r.no_faults Stmt.next_seq,
  r.no_faults Stmt.upsert_entry,
  r.no_faults Stmt.commit_tx,
  seq_taken_above db.seq db.entries w.below,
)

-- A mutation that meets the conditions is accepted, where the driver runs every statement.
pub push_one-Accepts :
    (db : Db) (user_id device_id now : ℕ) (m : Mutation) (g : Group)
    → IsWellFormed db
    → Runs db device_id
    → Accepts db user_id m g
    → (push_one db user_id device_id now m).0 ≡ (accepted m.entry_id (suc db.seq), true)
unfolding push_one
push_one-Accepts db user_id device_id now m g w r a = ground (
  arith,
  Accepts-check_push db user_id m g (r.no_faults Stmt.get_member) (r.no_faults Stmt.get_group)
      (r.no_faults Stmt.get_entry) a,
  commit_push-Runs db user_id device_id now m g w r a.found,
)

-- The outcome of two requests that are both checked before either commits.
pub record Race : Type 0 where
  pub first : Result Rejection Group
  pub second : Result Rejection Group
  pub first_commit : Result StoreError ℕ
  pub second_commit : Result StoreError ℕ
  pub after : Db

unfoldable pub race : Db → ℕ × ℕ × Mutation → ℕ × ℕ × Mutation → ℕ → Race
race db (user_id, device_id, m) (user', device', m') now =
    let (r, db') = commit_push db device_id now m in
    let (r', db'') = commit_push db' device' now m' in
    record {
      first = check_push db user_id m;
      second = check_push db user' m';
      first_commit = r;
      second_commit = r';
      after = db'';
    }

-- Both requests passed, and what is left of the entry is the second one's.
pub record LostUpdate (db : Db) (device' : ℕ) (m m' : Mutation) (r : Race) : Type 0 where
  pub first_passed : (g : Group) × (r.first ≡ ok g)
  pub second_passed : (g : Group) × (r.second ≡ ok g)
  pub first_accepted : r.first_commit ≡ ok (suc db.seq)
  pub second_accepted : r.second_commit ≡ ok (suc (suc db.seq))
  pub left :
      (e : Entry) × (find_entry m.entry_id r.after.entries ≡ some e)
      × (e.ciphertext ≡ m'.ciphertext)
      × (e.updated_by ≡ device')

second_write :
    (db : Db) (device_id now : ℕ) (m : Mutation) (id : ℕ)
    → m.entry_id ≡ id
    → (e : Entry) × (find_entry id (pushed_db db device_id now m).entries ≡ some e)
      × (e.ciphertext ≡ m.ciphertext)
      × (e.updated_by ≡ device_id)
second_write db device_id now m id same =
    let row = pushed db device_id now m in
    let old = find_entry m.entry_id db.entries in
    (
      stored row old,
      find_entry-put_entry row id db.entries ∙ ground (arith, same),
      ground arith,
      ground arith,
    )

-- Two writers of one entry whose checks both run before either transaction are both accepted, and
-- the second write replaces the first with no conflict reported. That holds of all mutations of one
-- entry that meet the conditions, where the driver runs every statement.
pub race-LostUpdate :
    (db : Db) (user_id device_id : ℕ) (m : Mutation) (g : Group) (user' device' : ℕ) (m' : Mutation)
    (g' : Group) (now : ℕ)
    → IsWellFormed db
    → Runs db device_id
    → Runs db device'
    → Accepts db user_id m g
    → Accepts db user' m' g'
    → m'.entry_id ≡ m.entry_id
    → LostUpdate db device' m m' (race db (user_id, device_id, m) (user', device', m') now)
unfolding race
race-LostUpdate db user_id device_id m g user' device' m' g' now w r r' a a' same =
    let db' = pushed_db db device_id now m in
    let w' : IsWellFormed db' = pushed_db-IsWellFormed db device_id now m w in
    let runs' : Runs db' device' = record { no_faults = r'.no_faults; device = r'.device } in
    let c = commit_push-Runs db user_id device_id now m g w r a.found in
    let c' = commit_push-Runs db' user' device' now m' g' w' runs' a'.found in
    let checked = λ (x : ℕ) (y : Mutation) (h : Group) (b : Accepts db x y h).
      Accepts-check_push db x y h (r.no_faults Stmt.get_member) (r.no_faults Stmt.get_group)
        (r.no_faults Stmt.get_entry) b in
    rw (c, c')
      (record {
        first_passed = (g, checked user_id m g a);
        second_passed = (g', checked user' m' g' a');
        first_accepted = refl;
        second_accepted = refl;
        left = second_write db' device' now m' m.entry_id same;
      })

-- A user who is no member of the group of a stored entry writes it all the same, by a mutation that
-- names another group and meets all the conditions of an acceptance there: the user is a member of
-- the group that it names, which is open and at the mutation's key version, the ciphertext is within
-- the limit, and the base is the stored entry's number. In a well-formed database, where the driver
-- runs every statement and knows the device, it is accepted with the next number, and the entry
-- stays in its group with the stranger's ciphertext, key version and deletion mark.
pub foreign_entry_written :
    (db : Db) (user_id device_id now : ℕ) (m : Mutation) (g : Group) (cur : Entry)
    → IsWellFormed db
    → Runs db device_id
    → Accepts db user_id m g
    → find_entry m.entry_id db.entries ≡ some cur
    → is_member cur.group_id user_id db.members ≡ false
    → ((push_one db user_id device_id now m).0.0 ≡ accepted m.entry_id (suc db.seq))
      × (find_entry m.entry_id (push_one db user_id device_id now m).1.entries
          ≡ some (record (pushed db device_id now m) { group_id = cur.group_id }))
foreign_entry_written db user_id device_id now m g cur w r a found stranger =
    let h = push_one-Accepts db user_id device_id now m g w r a in
    (
      ap (λ (p : PushResult × Bool). p.0) h,
      entry_after db user_id device_id now m (ground (arith, h)) ∙ ground (arith, found),
    )
