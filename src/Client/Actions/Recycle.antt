-- ===== src/Client/Actions/Recycle.antt =====
-- Deletion and the recycle bin.
use zt_data_sync.Prelude.Assoc.{lookup, lookup-put, put, lookup-without}
use zt_data_sync.Store.Rows.{ok, err}
use zt_data_sync.Client.Local.{
  LocalStore, LocalEntry, LocalStmt, RecycleItem, get_local_entry, upsert_local_entry, values,
  put_recycle_bin, list_recycle_bin, delete_recycle_bin, remove_local_entry,
}
use zt_data_sync.Client.Local.Rows.{NoFaults, get_local_entry-some}
use zt_data_sync.Client.Engine.{Vault}
use zt_data_sync.Client.Outbox.{settle}
use zt_data_sync.Client.Actions.{
  delete_entry, restore_entry, tombstone, restored, restored_row, in_bin, no_row,
}
use zt_data_sync.Prelude.{
  ℕ, [], ◌∷◌, List, some, none, true, ◌≡◌, ◌≢◌, refl, arith, find, ◌==◌, Bool-cases, inl, inr,
}

-- Each item of the bin stands under its own identifier.
abbrev pub IsKeyed : List (ℕ × RecycleItem) → Type 0
IsKeyed [] = Unit {0}
IsKeyed ((k, it) ∷ m) = (it.id ≡ k) × IsKeyed m

find-put :
    (id : ℕ) (it : RecycleItem) (m : List (ℕ × RecycleItem))
    → IsKeyed m
    → it.id ≡ id
    → find (λ x. x.id == id) (values (put id it m)) ≡ some it
find-put id it [] keyed same = ground (arith, same)
find-put id it ((k, x) ∷ m) keyed same = elim (Bool-cases (k == id)) [
  | inl here ↦ ground (arith, here, same)
  | inr other ↦ ground (arith, other, keyed.0, find-put id it m keyed.1 same)
]

-- The item that a deletion puts into the bin.
abbrev pub binned : ℕ → ℕ → LocalEntry → RecycleItem
binned id now le = record { id = id; ciphertext = le.ciphertext; deleted_at = now }

abbrev pub buried : ℕ → ℕ → LocalEntry → LocalStore → LocalStore
buried id now le l = record l {
  entries = put id (tombstone id now le) l.entries;
  recycle_bin = put id (binned id now le) l.recycle_bin;
}

delete_entry_lem :
    (v : Vault) (now id : ℕ) (l : LocalStore) (le : LocalEntry)
    → NoFaults l
    → v.is_unlocked ≡ true
    → lookup id l.entries ≡ some le
    → delete_entry v now id l ≡ (ok tt, buried id now le l)
unfolding delete_entry put_recycle_bin upsert_local_entry
delete_entry_lem v now id l le runs ready found = ground (
  arith,
  ready,
  runs LocalStmt.put_recycled,
  runs LocalStmt.upsert_row,
  get_local_entry-some l id le (runs LocalStmt.get_row) found,
)

in_bin-buried :
    (id now : ℕ) (le : LocalEntry) (l : LocalStore)
    → IsKeyed l.recycle_bin
    → le.ciphertext ≢ []
    → in_bin id (values (buried id now le l).recycle_bin) ≡ some (binned id now le)
in_bin-buried id now le l keyed text =
    ground (arith, text, find-put id (binned id now le) l.recycle_bin keyed refl)

-- What a restored entry needs: the vault is open, and the row's ciphertext opens and is sealed for
-- the cache.
pub record Restorable (v : Vault) (id : ℕ) (le : LocalEntry) (plain cache : List ℕ) : Type 0 where
  pub ready : v.is_unlocked ≡ true
  pub text : le.ciphertext ≢ []
  pub group : le.group_id ≢ 0
  pub opens : v.decrypt_plaintext le.group_id id le.ciphertext ≡ some plain
  pub sealed : v.encrypt_cache plain ≡ some cache

-- Deleting an entry and restoring it, before the deletion is pushed, both succeed where the driver
-- runs every statement and the row's ciphertext opens: the row is back in its group, at its version
-- and key version, with its ciphertext and a cache of its text, queued for the next push, and the
-- recycle bin holds no copy any more.
pub restore_entry-delete_entry :
    (v : Vault) (now now' id : ℕ) (l : LocalStore) (le : LocalEntry) (plain cache : List ℕ)
    → NoFaults l
    → IsKeyed l.recycle_bin
    → lookup id l.entries ≡ some le
    → Restorable v id le plain cache
    → let gone = delete_entry v now id l in
      let back = restore_entry v now' id gone.1 in
      (gone.0 ≡ ok tt)
      × (back.0 ≡ ok tt)
      × (lookup id back.1.entries ≡ some (restored id now' le (binned id now le) cache))
      × (lookup id back.1.recycle_bin ≡ none)
unfolding restore_entry list_recycle_bin upsert_local_entry delete_recycle_bin
restore_entry-delete_entry v now now' id l le plain cache runs keyed found r =
    let mid = buried id now le l in
    let grave = tombstone id now le in
    let row = restored id now' le (binned id now le) cache in
    let there : lookup id mid.entries ≡ some grave =
      ground (arith, lookup-put id id grave l.entries) in
    let read = get_local_entry-some mid id grave (runs LocalStmt.get_row) there in
    let item = in_bin-buried id now le l keyed r.text in
    let is : restored_row v now' id mid ≡ ok row =
      ground
        (arith, r.ready, runs LocalStmt.list_recycled, item, read, r.group, r.opens, r.sealed) in
    rw (delete_entry_lem v now id l le runs r.ready found) (
      refl,
      ground (arith, is, runs LocalStmt.upsert_row),
      ground (
        arith,
        is,
        runs LocalStmt.upsert_row,
        runs LocalStmt.delete_recycled,
        lookup-put id id row mid.entries,
      ),
      ground (
        arith,
        is,
        runs LocalStmt.upsert_row,
        runs LocalStmt.delete_recycled,
        lookup-without id id mid.recycle_bin,
      ),
    )

-- Once the deletion of an entry was pushed, the entry cannot be restored, where the driver runs
-- every statement: the row is gone, and the restoration fails for want of it, although the recycle
-- bin still holds the ciphertext.
pub pushed_deletion_final :
    (v : Vault) (now now' id n : ℕ) (l : LocalStore) (le : LocalEntry)
    → NoFaults l
    → IsKeyed l.recycle_bin
    → v.is_unlocked ≡ true
    → lookup id l.entries ≡ some le
    → le.ciphertext ≢ []
    → let pushed = settle id n (delete_entry v now id l).1 in
      (pushed.0 ≡ true)
      × (in_bin id (values pushed.1.recycle_bin) ≡ some (binned id now le))
      × (restore_entry v now' id pushed.1 ≡ (err no_row, pushed.1))
unfolding settle remove_local_entry restore_entry list_recycle_bin get_local_entry
pushed_deletion_final v now now' id n l le runs keyed ready found text =
    let mid = buried id now le l in
    let grave = tombstone id now le in
    let read = lookup-put id id grave l.entries in
    let item = in_bin-buried id now le l keyed text in
    rw (delete_entry_lem v now id l le runs ready found) (
      ground (arith, read, runs LocalStmt.get_row, runs LocalStmt.remove_row),
      ground (arith, read, item, runs LocalStmt.get_row, runs LocalStmt.remove_row),
      ground (
        arith,
        read,
        ready,
        item,
        runs LocalStmt.get_row,
        runs LocalStmt.remove_row,
        runs LocalStmt.list_recycled,
        lookup-without id id mid.entries,
      ),
    )
