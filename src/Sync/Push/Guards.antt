-- ===== src/Sync/Push/Guards.antt =====
-- What a push is accepted for, and what it leaves on each branch.
use zt_data_sync.Store.Tx.{
  with_tx, put_entry, upsert_entry, set_group_rekey, delete_old_kv_envelopes,
}
use zt_data_sync.Prelude.{
  ℕ, ◌≤◌, ◌≡◌, ◌≢◌, true, Option, none, some, arith, length, suc, false, ◌⊎◌, inl, inr,
}
use zt_data_sync.Store.Rows.{
  Group, Entry, Db, ok, group_archived, Stmt, StoreError, err, Result-cases,
}
use zt_data_sync.Store.Queries.{
  find_group, find_entry, is_member, get_group, get_group_member, get_entry, count_entries_below_kv,
}
use zt_data_sync.Proto.{Mutation}
use zt_data_sync.Sync.Push.{
  max_ciphertext, check_push, entry_of, maybe_finish_rekey, push_one, commit_push,
}

-- The mutation starts from the stored version, or from none.
abbrev pub BaseMatches : ℕ → Option Entry → Type 0
BaseMatches base none = base ≡ 0
BaseMatches base (some cur) = base ≡ cur.seq

-- All that a push needs: the writer is a member, the group is there and not archived, and the size,
-- the key version and the base fit.
pub record Accepts (db : Db) (user_id : ℕ) (m : Mutation) (g : Group) : Type 0 where
  pub member : is_member m.group_id user_id db.members ≡ true
  pub found : find_group m.group_id db.groups ≡ some g
  pub open_group : g.archived ≢ group_archived
  pub fits : length m.ciphertext ≤ max_ciphertext
  pub current_key : m.key_version ≡ g.key_version
  pub base : BaseMatches m.base_seq (find_entry m.entry_id db.entries)

pub check_push-Accepts :
    (db : Db) (user_id : ℕ) (m : Mutation) {g : Group}
    → check_push db user_id m ≡ ok g
    → Accepts db user_id m g
unfolding check_push get_group_member get_group get_entry
check_push-Accepts db user_id m h = ground arith

-- Where the driver runs the three reads, the checks pass for what is accepted.
pub Accepts-check_push :
    (db : Db) (user_id : ℕ) (m : Mutation) (g : Group)
    → db.fails Stmt.get_member ≡ false
    → db.fails Stmt.get_group ≡ false
    → db.fails Stmt.get_entry ≡ false
    → Accepts db user_id m g
    → check_push db user_id m ≡ ok g
unfolding check_push get_group_member get_group get_entry
Accepts-check_push db user_id m g f1 f2 f3 a = ground arith

-- The row that an accepted push writes.
abbrev pub pushed : Db → ℕ → ℕ → Mutation → Entry
pushed db device_id now m = record (entry_of device_id now m) { seq = suc db.seq }

abbrev pub pushed_db : Db → ℕ → ℕ → Mutation → Db
pushed_db db device_id now m = record db {
  seq = suc db.seq;
  entries = put_entry (pushed db device_id now m) db.entries;
}

commit_push_ok :
    (db : Db) (device_id now : ℕ) (m : Mutation) {n : ℕ}
    → (commit_push db device_id now m).0 ≡ ok n
    → commit_push db device_id now m ≡ (ok (suc db.seq), pushed_db db device_id now m)
unfolding commit_push with_tx upsert_entry
commit_push_ok db device_id now m h = ground arith

commit_push_err :
    (db : Db) (device_id now : ℕ) (m : Mutation) {e : StoreError}
    → (commit_push db device_id now m).0 ≡ err e
    → commit_push db device_id now m ≡ (err e, db)
unfolding commit_push with_tx upsert_entry
commit_push_err db device_id now m h = ground arith

-- The transaction gives the next number and writes the row, or it is rolled back.
pub commit_push_cases :
    (db : Db) (device_id now : ℕ) (m : Mutation)
    → (commit_push db device_id now m ≡ (ok (suc db.seq), pushed_db db device_id now m))
      ⊎ ((e : StoreError) × (commit_push db device_id now m ≡ (err e, db)))
commit_push_cases db device_id now m = elim (Result-cases (commit_push db device_id now m).0) [
  | inl (n, h) ↦ inl (commit_push_ok db device_id now m h)
  | inr (e, h) ↦ inr (e, commit_push_err db device_id now m h)
]

-- The end of a rekey leaves the entries, the members and the counter alone.
pub record SameRows (db db' : Db) : Type 0 where
  pub entries : db'.entries ≡ db.entries
  pub members : db'.members ≡ db.members
  pub seq : db'.seq ≡ db.seq
  pub users : db'.users ≡ db.users
  pub devices : db'.devices ≡ db.devices

pub maybe_finish_rekey-SameRows :
    (db : Db) (gid kv : ℕ) → SameRows db (maybe_finish_rekey db gid kv).1
unfolding maybe_finish_rekey with_tx set_group_rekey delete_old_kv_envelopes count_entries_below_kv
maybe_finish_rekey-SameRows db gid kv = ground arith

-- A push that is not accepted changes no table and notifies nobody.
pub push_one_rejected :
    (db : Db) (user_id device_id now : ℕ) (m : Mutation)
    → (push_one db user_id device_id now m).0.0.is_ok ≡ false
    → ((push_one db user_id device_id now m).1 ≡ db)
      × ((push_one db user_id device_id now m).0.1 ≡ false)
unfolding push_one
push_one_rejected db user_id device_id now m h =
    ground (arith, commit_push_cases db device_id now m)

-- What an accepted push has checked, returned and written.
pub record Writes (db : Db) (user_id device_id now : ℕ) (m : Mutation) (g : Group) : Type 0 where
  pub accepts : Accepts db user_id m g
  pub number : (push_one db user_id device_id now m).0.0.new_seq ≡ suc db.seq
  pub notifies : (push_one db user_id device_id now m).0.1 ≡ true
  pub after :
      (push_one db user_id device_id now m).1
      ≡ (maybe_finish_rekey (pushed_db db device_id now m) m.group_id g.key_version).1

accepted_group :
    (db : Db) (user_id device_id now : ℕ) (m : Mutation)
    → (push_one db user_id device_id now m).0.0.is_ok ≡ true
    → (g : Group) × (check_push db user_id m ≡ ok g)
unfolding push_one
accepted_group db user_id device_id now m h = elim (Result-cases (check_push db user_id m)) [
  | inl found ↦ found
  | inr (r, e) ↦ absurd (ground (arith, e))
]

-- A push is accepted only if all its conditions hold; it then returns the next number, writes the
-- one row with it, notifies the group and checks whether the group's rekey is over.
pub push_one-Writes :
    (db : Db) (user_id device_id now : ℕ) (m : Mutation)
    → (push_one db user_id device_id now m).0.0.is_ok ≡ true
    → (g : Group) × Writes db user_id device_id now m g
unfolding push_one
push_one-Writes db user_id device_id now m h =
    let (g, checked) = accepted_group db user_id device_id now m h in
    (
      g,
      record {
        accepts = check_push-Accepts db user_id m checked;
        number = ground (arith, checked, commit_push_cases db device_id now m);
        notifies = ground (arith, checked, commit_push_cases db device_id now m);
        after = ground (arith, checked, commit_push_cases db device_id now m);
      },
    )
