-- ===== src/Client/Outbox/Settles.antt =====
-- What the answer to a push leaves of the pushed row.
use zt_data_sync.Prelude.Assoc.{lookup, lookup-put, lookup-without}
use zt_data_sync.Client.Local.{
  LocalStore, LocalEntry, LocalStmt, upsert_local_entry, set_dirty, set_base_enc, update_row,
  lookup-update_row, remove_local_entry,
}
use zt_data_sync.Client.Local.Rows.{NoFaults, get_local_entry-some}
use zt_data_sync.Client.Outbox.{settle, set_seq, clear_edit}
use zt_data_sync.Prelude.{ℕ, [], some, none, true, false, ◌≡◌, arith}

-- The row of a settled push: clean, with no base, at the new number.
abbrev pub settled : ℕ → LocalEntry → LocalEntry
settled n le = record le { dirty = false; base_enc = []; seq = n }

abbrev cleaned : LocalEntry → LocalEntry
cleaned le = record le { dirty = false; base_enc = [] }

abbrev cleaned_store : ℕ → LocalStore → LocalStore
cleaned_store id l = record l {
  entries =
      update_row id (λ e. record e { base_enc = [] })
        (update_row id (λ e. record e { dirty = false }) l.entries);
}

found_cleaned :
    (id : ℕ) (l : LocalStore) (le : LocalEntry)
    → lookup id l.entries ≡ some le
    → lookup id (cleaned_store id l).entries ≡ some (cleaned le)
found_cleaned id l le found = ground (
  arith,
  found,
  lookup-update_row id id (λ e. record e { dirty = false }) l.entries,
  lookup-update_row id id (λ e. record e { base_enc = [] })
      (update_row id (λ e. record e { dirty = false }) l.entries),
)

clear_edit_lem :
    (id n : ℕ) (l : LocalStore) → NoFaults l → clear_edit id n l ≡ set_seq id n (cleaned_store id l)
unfolding set_dirty set_base_enc
clear_edit_lem id n l runs = ground (arith, runs LocalStmt.set_row)

pub settle-row :
    (id n : ℕ) (l : LocalStore) (le : LocalEntry)
    → NoFaults l
    → lookup id l.entries ≡ some le
    → le.id ≡ id
    → le.deleted ≡ false
    → ((settle id n l).0 ≡ true) × (lookup id (settle id n l).1.entries ≡ some (settled n le))
unfolding settle upsert_local_entry
settle-row id n l le runs found same live =
    let mid = cleaned_store id l in
    let read = get_local_entry-some l id le (runs LocalStmt.get_row) found in
    let there = found_cleaned id l le found in
    let read' = get_local_entry-some mid id (cleaned le) (runs LocalStmt.get_row) there in
    let is : settle id n l ≡ upsert_local_entry (settled n le) mid =
      ground (arith, clear_edit_lem id n l runs) in
    rw is (
      ground (arith, runs LocalStmt.upsert_row),
      ground
          (arith, runs LocalStmt.upsert_row, lookup-put le.id id (settled n le) mid.entries, same),
    )

pub settle-removes :
    (id n : ℕ) (l : LocalStore) (le : LocalEntry)
    → NoFaults l
    → lookup id l.entries ≡ some le
    → le.deleted ≡ true
    → ((settle id n l).0 ≡ true) × (lookup id (settle id n l).1.entries ≡ none)
unfolding settle remove_local_entry
settle-removes id n l le runs found grave =
    let read = get_local_entry-some l id le (runs LocalStmt.get_row) found in
    (
      ground (arith, runs LocalStmt.remove_row),
      ground (arith, runs LocalStmt.remove_row, lookup-without id id l.entries),
    )
