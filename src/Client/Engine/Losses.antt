-- ===== src/Client/Engine/Losses.antt =====
-- client/core/syncer/engine.go: what two changes of one entry do to a local edit.
use zt_data_sync.Prelude.Assoc.{lookup, lookup-put}
use zt_data_sync.Proto.{Change}
use zt_data_sync.Client.Local.{
  LocalStore, LocalEntry, LocalStmt, upsert_local_entry, delete_pending_entry, clear_bad_seq,
}
use zt_data_sync.Client.Local.Rows.{get_local_entry-some, NoFaults}
use zt_data_sync.Client.Engine.{
  Vault, row_of, store_row, try_auto_merge, apply_to_edit, apply_plaintext, apply_content,
  apply_one_change, apply_changes,
}
use zt_data_sync.Prelude.{
  ℕ, [], ◌∷◌, Bool, List, some, none, true, false, ◌≡◌, ◌<◌, ◌∙◌, refl, ap, sym, arith,
}

-- The row of entry `id` is `row` after a write that succeeds, and the recycle bin stays.
pub record Overwrites (id : ℕ) (row : LocalEntry) (l : LocalStore) (r : Bool × LocalStore)
    : Type 0 where
  pub done : r.0 ≡ true
  pub found : lookup id r.1.entries ≡ some row
  pub recycle_bin : r.1.recycle_bin ≡ l.recycle_bin
  pub runs : NoFaults r.1

-- A change with content, whose key is there, which opens to `theirs`, and whose cache is sealed.
pub record Opens (v : Vault) (c : Change) (theirs cache : List ℕ) : Type 0 where
  pub content : c.deleted ≡ false
  pub key : v.has_dek c.group_id c.key_version ≡ true
  pub opened : v.decrypt_plaintext c.group_id c.entry_id c.ciphertext ≡ some theirs
  pub sealed : v.encrypt_cache theirs ≡ some cache

store_row-Overwrites :
    (c : Change) (e : LocalEntry) (l : LocalStore)
    → NoFaults l
    → e.id ≡ c.entry_id
    → Overwrites c.entry_id e l (store_row c e l)
unfolding upsert_local_entry delete_pending_entry clear_bad_seq
store_row-Overwrites c e l runs same =
    let first = runs LocalStmt.upsert_row in
    let second = runs LocalStmt.delete_pend in
    let third = runs LocalStmt.clear_bad in
    record {
      done = ground (arith, first, second, third);
      found = ground (arith, first, second, third, lookup-put e.id c.entry_id e l.entries);
      recycle_bin = ground (arith, first, second, third);
      runs = λ s. ground (arith, first, second, third, runs s);
    }

-- A change that cannot be merged with the edit.
edit-Overwrites :
    (v : Vault) (now : ℕ) (c : Change) (l : LocalStore) (le : LocalEntry) (theirs cache : List ℕ)
    → NoFaults l
    → lookup c.entry_id l.entries ≡ some le
    → le.dirty ≡ true
    → le.deleted ≡ false
    → le.conflict_of ≡ none
    → Opens v c theirs cache
    → try_auto_merge v le theirs ≡ none
    → Overwrites c.entry_id
        (row_of c le.plaintext_cache le.base_enc (some c.entry_id))
        l
        (apply_one_change v now c l)
unfolding apply_one_change apply_content apply_plaintext apply_to_edit
edit-Overwrites v now c l le theirs cache runs found dirty live fresh o apart =
    let read = get_local_entry-some l c.entry_id le (runs LocalStmt.get_row) found in
    let row = row_of c le.plaintext_cache le.base_enc (some c.entry_id) in
    let same : apply_one_change v now c l ≡ store_row c row l =
      ground (arith, read, dirty, live, fresh, o.content, o.key, o.opened, o.sealed, apart) in
    rw same (store_row-Overwrites c row l runs refl)

-- A newer change over a row that is no edit.
clean-Overwrites :
    (v : Vault) (now : ℕ) (c : Change) (l : LocalStore) (le : LocalEntry) (theirs cache : List ℕ)
    → NoFaults l
    → lookup c.entry_id l.entries ≡ some le
    → le.dirty ≡ false
    → le.deleted ≡ false
    → le.seq < c.seq
    → Opens v c theirs cache
    → Overwrites c.entry_id (row_of c cache [] none) l (apply_one_change v now c l)
unfolding apply_one_change apply_content apply_plaintext
clean-Overwrites v now c l le theirs cache runs found clean live newer o =
    let read = get_local_entry-some l c.entry_id le (runs LocalStmt.get_row) found in
    let row = row_of c cache [] none in
    let same : apply_one_change v now c l ≡ store_row c row l =
      ground (arith, read, clean, live, newer, o.content, o.key, o.opened, o.sealed) in
    rw same (store_row-Overwrites c row l runs refl)

two_changes :
    (v : Vault) (now : ℕ) (c c' : Change) (l : LocalStore)
    → (apply_one_change v now c l).0 ≡ true
    → (apply_one_change v now c' (apply_one_change v now c l).1).0 ≡ true
    → apply_changes v now (c ∷ c' ∷ []) l ≡ apply_one_change v now c' (apply_one_change v now c l).1
unfolding apply_changes
two_changes v now c c' l first second = ground (arith, first, second)

-- Two versions of one entry that arrive in turn cost an edit that is not pushed yet. The first one,
-- which cannot be merged with the edit, keeps it in a row that is marked as a conflict and queued no
-- more; the newer one then replaces that row by its own content, with no mark, no base and nothing
-- of the edit, and the recycle bin gets no copy. Both versions have content, their keys are there,
-- they open and their caches are sealed, the edit is no deletion and in no conflict before, and the
-- driver runs every statement.
pub conflict_overwritten :
    (v : Vault) (now : ℕ) (c c' : Change) (l : LocalStore) (le : LocalEntry)
    (theirs cache theirs' cache' : List ℕ)
    → NoFaults l
    → lookup c.entry_id l.entries ≡ some le
    → le.dirty ≡ true
    → le.deleted ≡ false
    → le.conflict_of ≡ none
    → Opens v c theirs cache
    → Opens v c' theirs' cache'
    → try_auto_merge v le theirs ≡ none
    → c'.entry_id ≡ c.entry_id
    → c.seq < c'.seq
    → Overwrites c.entry_id
        (row_of c le.plaintext_cache le.base_enc (some c.entry_id))
        l
        (apply_one_change v now c l)
      × Overwrites c.entry_id (row_of c' cache' [] none) l (apply_changes v now (c ∷ c' ∷ []) l)
conflict_overwritten v now c c' l le theirs cache theirs' cache' runs found dirty live fresh o o'
      apart same newer =
    let kept = edit-Overwrites v now c l le theirs cache runs found dirty live fresh o apart in
    let middle = (apply_one_change v now c l).1 in
    let conflict = row_of c le.plaintext_cache le.base_enc (some c.entry_id) in
    let lost =
      clean-Overwrites v now c' middle conflict theirs' cache' kept.runs
        (ap (λ i. lookup i middle.entries) same ∙ kept.found) refl refl newer o' in
    let both = two_changes v now c c' l kept.done lost.done in
    (
      kept,
      rw both (record {
        done = lost.done;
        found =
            sym (ap (λ i. lookup i (apply_one_change v now c' middle).1.entries) same) ∙ lost.found;
        recycle_bin = lost.recycle_bin ∙ kept.recycle_bin;
        runs = lost.runs;
      }),
    )
