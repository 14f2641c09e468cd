-- ===== src/Client/Outbox/Unsent.antt =====
-- client/core/syncer/engine.go: an edit that is queued, and a change of its entry that does not open.
use zt_data_sync.Prelude.Assoc.{lookup, lookup-put, put, AtMostOnce, AtMostOnce-put}
use zt_data_sync.Prelude.Elements.{In, In-filter, In-of_filter, In-map, In-of_map, All-of_In}
use zt_data_sync.Prelude.Membership.{contains}
use zt_data_sync.Proto.{Change, Mutation}
use zt_data_sync.Client.Local.{
  LocalStore, LocalEntry, LocalStmt, values, list_dirty_entries, upsert_local_entry, mark_bad_seq,
}
use zt_data_sync.Client.Local.Rows.{NoFaults}
use zt_data_sync.Client.Local.Table.{Keyed, Keyed-put, values-only, values-In}
use zt_data_sync.Client.Engine.{Vault, row_of, apply_content, apply_one_change}
use zt_data_sync.Client.Outbox.{Engine, mutation_of, outgoing}
use zt_data_sync.Prelude.{
  ℕ, List, [], some, none, true, false, not, ◌≡◌, ◌≢◌, ◌∙◌, ap, All, filter, arith, refl,
}

-- The edits that a push of `e` sends.
pub record Sends (P : List Mutation → Type 0) (e : Engine) : Type 0 where
  pub rows : List LocalEntry
  pub listed : list_dirty_entries e.local ≡ some rows
  pub sent : P (outgoing e rows)

list_dirty_entries-runs :
    (l : LocalStore)
    → l.fails LocalStmt.list_dirty ≡ false
    → list_dirty_entries l ≡ some (filter (λ e. e.dirty) (values l.entries))
unfolding list_dirty_entries
list_dirty_entries-runs l runs = ground (arith, runs)

-- A queued edit is sent.
edit_sent :
    (e : Engine) (id : ℕ) (le : LocalEntry)
    → NoFaults e.local
    → lookup id e.local.entries ≡ some le
    → le.dirty ≡ true
    → contains le.group_id e.write_held ≡ false
    → Sends (In (mutation_of le)) e
edit_sent e id le runs found dirty free =
    let rows = filter (λ (x : LocalEntry). x.dirty) (values e.local.entries) in
    let queued : In le rows =
      In-filter (λ x. x.dirty) le (values e.local.entries) dirty
        (values-In e.local.entries id le found) in
    record {
      rows = rows;
      listed = list_dirty_entries-runs e.local (runs LocalStmt.list_dirty);
      sent =
          In-map mutation_of le (filter (λ x. not (contains x.group_id e.write_held)) rows)
            (In-filter (λ x. not (contains x.group_id e.write_held)) le rows (ap not free) queued);
    }

-- Where the only row of the entry is no edit, nothing of the entry is sent.
nothing_sent :
    (e : Engine) (id : ℕ) (row : LocalEntry)
    → e.local.fails LocalStmt.list_dirty ≡ false
    → Keyed e.local.entries
    → AtMostOnce id e.local.entries
    → lookup id e.local.entries ≡ some row
    → row.dirty ≡ false
    → Sends (All (λ m. m.entry_id ≢ id)) e
nothing_sent e id row runs keyed once found clean =
    let rows = filter (λ (x : LocalEntry). x.dirty) (values e.local.entries) in
    record {
      rows = rows;
      listed = list_dirty_entries-runs e.local runs;
      sent =
          All-of_In (λ m. m.entry_id ≢ id) (outgoing e rows)
            (λ m is_sent same.
              let free = λ (x : LocalEntry). not (contains x.group_id e.write_held) in
              let (x, in_free, is) = In-of_map mutation_of m (filter free rows) is_sent in
              let (in_rows, _) = In-of_filter free x rows in_free in
              let (in_table, dirty) =
                In-of_filter (λ (y : LocalEntry). y.dirty) x (values e.local.entries) in_rows in
              let only =
                values-only e.local.entries id row keyed once found x in_table
                  (ap (λ (y : Mutation). y.entry_id) is ∙ same) in
              absurd (ground (arith, dirty, clean, ap (λ (y : LocalEntry). y.dirty) only)));
    }

unreadable_written :
    (v : Vault) (now : ℕ) (c : Change) (l : LocalStore)
    → NoFaults l
    → c.deleted ≡ false
    → v.has_dek c.group_id c.key_version ≡ true
    → v.decrypt_plaintext c.group_id c.entry_id c.ciphertext ≡ none
    → let l' = (apply_one_change v now c l).1 in
      (l'.entries ≡ put c.entry_id (row_of c [] [] none) l.entries)
      × (l'.recycle_bin ≡ l.recycle_bin)
      × (l'.fails ≡ l.fails)
unfolding apply_one_change apply_content upsert_local_entry mark_bad_seq
unreadable_written v now c l runs content key shut = (
  ground (arith, runs LocalStmt.upsert_row, runs LocalStmt.mark_bad),
  ground (arith, runs LocalStmt.upsert_row, runs LocalStmt.mark_bad),
  ground (arith, runs LocalStmt.upsert_row, runs LocalStmt.mark_bad),
)

-- An edit that a push would send, of a group whose writes do not wait, is sent no more once a change
-- of its entry arrives that has content, whose key is there and which does not open. Whatever the
-- edit is, a deletion too, the entry's row is then the change's, the push of the client then sends
-- nothing of the entry, and the recycle bin is as it was before the change. The driver runs every
-- statement, and the entry has one row, where each row stands under its id.
pub unreadable_unsent :
    (v : Vault) (now : ℕ) (c : Change) (e : Engine) (le : LocalEntry)
    → NoFaults e.local
    → Keyed e.local.entries
    → AtMostOnce c.entry_id e.local.entries
    → lookup c.entry_id e.local.entries ≡ some le
    → le.dirty ≡ true
    → contains le.group_id e.write_held ≡ false
    → c.deleted ≡ false
    → v.has_dek c.group_id c.key_version ≡ true
    → v.decrypt_plaintext c.group_id c.entry_id c.ciphertext ≡ none
    → let after = record e { local = (apply_one_change v now c e.local).1 } in
      Sends (In (mutation_of le)) e
      × Sends (All (λ m. m.entry_id ≢ c.entry_id)) after
      × (lookup c.entry_id after.local.entries ≡ some (row_of c [] [] none))
      × (after.local.recycle_bin ≡ e.local.recycle_bin)
unreadable_unsent v now c e le runs keyed once found dirty free content key shut =
    let l' = (apply_one_change v now c e.local).1 in
    let row = row_of c [] [] none in
    let (is, bin, same_faults) = unreadable_written v now c e.local runs content key shut in
    let there : lookup c.entry_id l'.entries ≡ some row =
      ap (lookup c.entry_id) is
      ∙ (lookup-put c.entry_id c.entry_id row e.local.entries ∙ ground arith) in
    (
      edit_sent e c.entry_id le runs found dirty free,
      nothing_sent (record e { local = l' }) c.entry_id row
          (ap (λ f. f LocalStmt.list_dirty) same_faults ∙ runs LocalStmt.list_dirty)
          (rw is (Keyed-put c.entry_id row e.local.entries refl keyed))
          (rw is (AtMostOnce-put c.entry_id row e.local.entries once)) there refl,
      there,
      bin,
    )
