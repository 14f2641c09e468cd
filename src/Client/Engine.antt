-- ===== src/Client/Engine.antt =====
-- client/core/syncer/engine.go: what `syncOnce` does to the local rows, in `applyOneChange`,
-- `flushPendingEntries`, `pushDirty` and `handlePushConflict`. The vault with its keys and ciphers,
-- the merge of fields and the server are arguments; errors of the local tables are the `false` of a
-- `Write`.
pub mod Edits
pub mod Losses
use zt_data_sync.Store.Tx.{is_some}
use zt_data_sync.Proto.{Change}
use zt_data_sync.Client.Local.{
  Write, LocalEntry, PendingEntry, get_local_entry, and_then, remove_local_entry,
  upsert_local_entry, mark_bad_seq, delete_pending_entry, clear_bad_seq, put_pending_entry,
  put_recycle_bin,
}
use zt_data_sync.Prelude.{
  [], some, none, true, false, if◌then◌else◌, ◌&&◌, ◌∷◌, Option, ℕ, List, Bool, leb,
}

-- The vault's calls and `merge.MergeJSON`: whether it is unlocked and has a key, what it seals and opens (none for an
-- error), and the merge of base, ours and theirs with whether a conflict is left.
pub record Vault : Type 0 where
  pub is_unlocked : Bool
  pub has_dek : ℕ → ℕ → Bool
  pub decrypt_plaintext : ℕ → ℕ → List ℕ → Option (List ℕ)
  pub encrypt_plaintext : ℕ → ℕ → List ℕ → ℕ → Option (List ℕ)
  pub encrypt_cache : List ℕ → Option (List ℕ)
  pub decrypt_cache : List ℕ → Option (List ℕ)
  pub merge_json : List ℕ → List ℕ → List ℕ → Option (List ℕ × Bool)

abbrev pub succeed : Write
succeed l = (true, l)

abbrev pub give_up : Write
give_up l = (false, l)

-- A conflict row that has this version or a later one already.
abbrev pub handled : Change → LocalEntry → Bool
handled c le = is_some le.conflict_of && leb c.seq le.seq

-- The row of a local edit that meets a tombstone.
abbrev pub tombstone_conflict : Change → LocalEntry → LocalEntry
tombstone_conflict c le = record le {
  conflict_of = some c.entry_id;
  dirty = false;
  seq = c.seq;
  ciphertext = c.ciphertext;
  updated_at = c.updated_at;
}

abbrev pub remove_both : ℕ → Write
remove_both id = and_then (remove_local_entry id) (delete_pending_entry id)

-- `applyOneChange` for a tombstone.
unfoldable pub apply_tombstone : ℕ → Change → Write
apply_tombstone now c l = elim (get_local_entry l c.entry_id) [
  | none ↦ remove_both c.entry_id l
  | some le ↦
      if handled c le
      then succeed l
      else if le.dirty
      then and_then (upsert_local_entry (tombstone_conflict c le)) (delete_pending_entry c.entry_id)
          l
      else and_then (put_recycle_bin c.entry_id le.ciphertext now) (remove_both c.entry_id) l
]

-- The row of a change, with a cache, a base and a conflict.
abbrev pub row_of : Change → List ℕ → List ℕ → Option ℕ → LocalEntry
row_of c cache base conflict = record {
  id = c.entry_id;
  group_id = c.group_id;
  seq = c.seq;
  key_version = c.key_version;
  ciphertext = c.ciphertext;
  plaintext_cache = cache;
  base_enc = base;
  dirty = false;
  deleted = false;
  conflict_of = conflict;
  updated_at = c.updated_at;
}

-- An empty base where there is no snapshot or it does not open.
abbrev pub base_of : Vault → LocalEntry → List ℕ
base_of v le = elim le.base_enc [
  | [] ↦ []
  | x ∷ xs ↦ elim (v.decrypt_cache le.base_enc) [ none ↦ [] | some base ↦ base ]
]

abbrev pub merged_or_none : Option (List ℕ × Bool) → Option (List ℕ)
merged_or_none none = none
merged_or_none (some (merged, has_conflict)) = if has_conflict then none else some merged

-- The merge of the edit with their version, if it leaves no conflict.
unfoldable pub try_auto_merge : Vault → LocalEntry → List ℕ → Option (List ℕ)
try_auto_merge v le theirs = elim le.plaintext_cache [
  | [] ↦ none
  | x ∷ xs ↦ elim (v.decrypt_cache le.plaintext_cache) [
    | none ↦ none
    | some ours ↦ merged_or_none (v.merge_json (base_of v le) ours theirs)
  ]
]

-- The row of a merge, to be pushed.
abbrev pub merged_row : Change → LocalEntry → List ℕ → List ℕ → LocalEntry
merged_row c le cache ct = record (row_of c cache le.base_enc none) {
  ciphertext = ct;
  dirty = true;
}

unfoldable pub write_merge : Vault → Change → LocalEntry → List ℕ → Write
write_merge v c le merged l = elim (v.encrypt_cache merged) [
  | none ↦ give_up l
  | some cache ↦ elim (v.encrypt_plaintext c.group_id c.entry_id merged c.key_version) [
    | none ↦ give_up l
    | some ct ↦
        and_then (upsert_local_entry (merged_row c le cache ct)) (delete_pending_entry c.entry_id) l
  ]
]

abbrev pub store_row : Change → LocalEntry → Write
store_row c e =
    and_then (upsert_local_entry e)
      (and_then (delete_pending_entry c.entry_id) (clear_bad_seq c.seq))

-- An edit that meets another version: merged, or kept as a conflict.
unfoldable pub apply_to_edit : Vault → Change → LocalEntry → List ℕ → Write
apply_to_edit v c le plaintext l = elim (try_auto_merge v le plaintext) [
  | some merged ↦ write_merge v c le merged l
  | none ↦ store_row c (row_of c le.plaintext_cache le.base_enc (some c.entry_id)) l
]

-- `applyOneChange` after the decryption.
unfoldable pub apply_plaintext : Vault → Change → List ℕ → Write
apply_plaintext v c plaintext l = elim (get_local_entry l c.entry_id) [
  | none ↦ elim (v.encrypt_cache plaintext) [
    | none ↦ give_up l
    | some cache ↦ store_row c (row_of c cache [] none) l
  ]
  | some le ↦
      if handled c le
      then succeed l
      else if le.deleted
      then (if le.dirty then succeed l else upsert_local_entry (record le { dirty = true }) l)
      else elim (v.encrypt_cache plaintext) [
        | none ↦ give_up l
        | some cache ↦
            if le.dirty
            then apply_to_edit v c le plaintext l
            else store_row c (row_of c cache [] none) l
      ]
]

abbrev pub pending_of : Change → PendingEntry
pending_of c = record {
  id = c.entry_id;
  group_id = c.group_id;
  seq = c.seq;
  key_version = c.key_version;
  ciphertext = c.ciphertext;
  updated_at = c.updated_at;
}

-- `applyOneChange` for a version with content: kept aside without its key, and stored as it is where
-- it does not open.
unfoldable pub apply_content : Vault → Change → Write
apply_content v c l =
    if v.has_dek c.group_id c.key_version
    then elim (v.decrypt_plaintext c.group_id c.entry_id c.ciphertext) [
      | none ↦ and_then (upsert_local_entry (row_of c [] [] none)) (mark_bad_seq c.seq) l
      | some plaintext ↦ apply_plaintext v c plaintext l
    ]
    else put_pending_entry (pending_of c) l

unfoldable pub apply_one_change : Vault → ℕ → Change → Write
apply_one_change v now c l = if c.deleted then apply_tombstone now c l else apply_content v c l

unfoldable pub apply_changes : Vault → ℕ → List Change → Write
apply_changes v now [] l = succeed l
apply_changes v now (c ∷ cs) l = and_then (apply_one_change v now c) (apply_changes v now cs) l
