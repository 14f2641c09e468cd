-- ===== src/Sync/Push.antt =====
-- server/sync/push.go: `Push`, and the end of a rekey. The checks of `pushOne` read outside of the
-- transaction that writes, so they are a function of their own. `base_seq` and the key versions of
-- the wire are not negative here.
pub mod Guards
pub mod Invariant
pub mod Order
pub mod Conflict
pub mod Races
use zt_data_sync.Prelude.{
  ℕ, Bool, true, false, not, Option, none, some, List, [], ◌∷◌, ltb, ◌==◌, if◌then◌else◌, length,
}
use zt_data_sync.Store.Rows.{
  ◌>>=◌, Group, Entry, Db, StoreError, no_rows, constraint_unique, Result, ok, err, group_archived,
  rekey_done,
}
use zt_data_sync.Store.Queries.{get_group, get_group_member, get_entry, count_entries_below_kv}
use zt_data_sync.Store.Tx.{with_tx, upsert_entry, set_group_rekey, delete_old_kv_envelopes, then_tx}
use zt_data_sync.Proto.{
  Mutation, Change, PushResult, err_not_member, err_internal, err_group_archived, err_too_large,
  err_key_version_stale, err_conflict, err_entry_state,
}

abbrev pub max_ciphertext : ℕ
max_ciphertext = 262144

-- An error code, with the server's version of the entry where the code is a conflict.
pub record Rejection : Type 0 where
  pub code : ℕ
  pub current : Option Change

abbrev pub reject : ℕ → Rejection
reject code = record { code = code; current = none }

abbrev pub change_of : Entry → Change
change_of e = record {
  entry_id = e.id;
  group_id = e.group_id;
  seq = e.seq;
  key_version = e.key_version;
  ciphertext = e.ciphertext;
  deleted = e.deleted;
  updated_at = e.updated_at;
}

abbrev or_internal : {A : Type 0} → Result StoreError A → Result Rejection A
or_internal (ok a) = ok a
or_internal (err e) = err (reject err_internal)

abbrev or_not_member : {A : Type 0} → Result StoreError A → Result Rejection A
or_not_member (ok a) = ok a
or_not_member (err no_rows) = err (reject err_not_member)
or_not_member (err e) = err (reject err_internal)

abbrev guard : Bool → ℕ → Result Rejection (Unit {0})
guard true code = ok tt
guard false code = err (reject code)

-- `base_seq` is the sequence number of the stored entry, or 0 for an entry that is not there.
abbrev check_base : Result StoreError Entry → ℕ → Result Rejection (Unit {0})
check_base (ok cur) base =
    if base == cur.seq
    then ok tt
    else err (record { code = err_conflict; current = some (change_of cur) })
check_base (err no_rows) base = guard (base == 0) err_entry_state
check_base (err e) base = err (reject err_internal)

-- Steps 1 to 5 of `pushOne`: the group, if the mutation passes.
unfoldable pub check_push : Db → ℕ → Mutation → Result Rejection Group
check_push db user_id m = do
  member ← or_internal (get_group_member db m.group_id user_id)
  _ ← guard member err_not_member
  g ← or_not_member (get_group db m.group_id)
  _ ← guard (not (g.archived == group_archived)) err_group_archived
  _ ← guard (not (ltb max_ciphertext (length m.ciphertext))) err_too_large
  _ ← guard (m.key_version == g.key_version) err_key_version_stale
  _ ← check_base (get_entry db m.entry_id) m.base_seq
  ok g

abbrev pub entry_of : ℕ → ℕ → Mutation → Entry
entry_of device_id now m = record {
  id = m.entry_id;
  group_id = m.group_id;
  seq = 0;
  key_version = m.key_version;
  ciphertext = m.ciphertext;
  size_bytes = length m.ciphertext;
  deleted = m.deleted;
  updated_by = device_id;
  updated_at = now;
}

-- Step 6: the transaction that assigns the sequence number.
unfoldable pub commit_push : Db → ℕ → ℕ → Mutation → Result StoreError ℕ × Db
commit_push db device_id now m = with_tx (upsert_entry (entry_of device_id now m)) db

-- With all live entries at the current key version, the rekey is over: the flag is cleared and the
-- envelopes of older versions go.
unfoldable pub maybe_finish_rekey : Db → ℕ → ℕ → Result StoreError (Unit {0}) × Db
maybe_finish_rekey db gid kv = elim (count_entries_below_kv db gid kv) [
  | err e ↦ (err e, db)
  | ok below ↦
      if ltb 0 below
      then (ok tt, db)
      else with_tx (then_tx (set_group_rekey gid rekey_done) (delete_old_kv_envelopes gid kv)) db
]

abbrev pub fail : ℕ → Rejection → PushResult
fail entry_id r = record {
  entry_id = entry_id;
  is_ok = false;
  new_seq = 0;
  error = r.code;
  current = r.current;
}

abbrev pub accepted : ℕ → ℕ → PushResult
accepted entry_id n = record {
  entry_id = entry_id;
  is_ok = true;
  new_seq = n;
  error = 0;
  current = none;
}

-- What follows the transaction: its error's code, or the end of a rekey, whose failure is logged.
abbrev pub report_push : Db → Mutation → Group → Result StoreError ℕ → (PushResult × Bool) × Db
report_push db m g (ok n) =
    ((accepted m.entry_id n, true), (maybe_finish_rekey db m.group_id g.key_version).1)
report_push db m g (err constraint_unique) = ((fail m.entry_id (reject err_entry_state), false), db)
report_push db m g (err e) = ((fail m.entry_id (reject err_internal), false), db)

-- The result, and whether to notify the group.
unfoldable pub push_one : Db → ℕ → ℕ → ℕ → Mutation → (PushResult × Bool) × Db
push_one db user_id device_id now m = elim (check_push db user_id m) [
  | err r ↦ ((fail m.entry_id r, false), db)
  | ok g ↦ let (r, db') = commit_push db device_id now m in report_push db' m g r
]

-- The set of groups to notify.
abbrev add_group : Bool → ℕ → List ℕ → List ℕ
add_group true gid gs = gid ∷ gs
add_group false gid gs = gs

-- The mutations one after the other, each in its own transaction: the results, the groups to
-- notify and the tables.
unfoldable pub push : Db → ℕ → ℕ → ℕ → List Mutation → List PushResult × List ℕ × Db
push db user_id device_id now [] = ([], [], db)
push db user_id device_id now (m ∷ ms) =
    let ((res, notify), db') = push_one db user_id device_id now m in
    let (results, groups, db'') = push db' user_id device_id now ms in
    (res ∷ results, add_group notify m.group_id groups, db'')
