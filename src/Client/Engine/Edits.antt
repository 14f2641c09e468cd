-- ===== src/Client/Engine/Edits.antt =====
-- What a change from the server leaves of a local edit.
use zt_data_sync.Prelude.Assoc.{lookup}
use zt_data_sync.Proto.{Change}
use zt_data_sync.Client.Local.{
  LocalStore, LocalEntry, LocalStmt, and_then, upsert_local_entry, get_local_entry,
  delete_pending_entry, clear_bad_seq, put_pending_entry,
}
use zt_data_sync.Client.Local.Rows.{
  Has, upsert-Has, and_then-Has, delete_pending_entry-KeepsRows, clear_bad_seq-KeepsRows,
  and_then-KeepsRows, get_local_entry-some, Has-eq,
}
use zt_data_sync.Client.Engine.{
  Vault, handled, base_of, tombstone_conflict, row_of, merged_row, store_row, pending_of,
  try_auto_merge, write_merge, apply_to_edit, apply_plaintext, apply_tombstone, apply_content,
  apply_one_change,
}
use zt_data_sync.Prelude.{
  ℕ, List, Bool, some, true, false, ◌≡◌, ◌⊎◌, inl, inr, refl, sym, ap, ◌∙◌, ◌||◌, Bool-cases,
  Option-cases, arith,
}

-- The row of a conflict: the edit and its base are kept beside the server's version.
pub record Conflicted (c : Change) (le row : LocalEntry) : Type 0 where
  pub ours : row.plaintext_cache ≡ le.plaintext_cache
  pub base : row.base_enc ≡ le.base_enc
  pub theirs : row.ciphertext ≡ c.ciphertext
  pub marked : row.conflict_of ≡ some c.entry_id
  pub version : row.seq ≡ c.seq
  pub deletion : row.deleted ≡ le.deleted

-- The row of a merge, where the edit is no deletion: the merge of base, edit and server's version,
-- with no field in conflict.
pub record Merged (v : Vault) (c : Change) (le row : LocalEntry) : Type 0 where
  pub theirs : List ℕ
  pub ours : List ℕ
  pub merged : List ℕ
  pub opens : v.decrypt_plaintext c.group_id c.entry_id c.ciphertext ≡ some theirs
  pub cached : v.decrypt_cache le.plaintext_cache ≡ some ours
  pub is_merge : v.merge_json (base_of v le) ours theirs ≡ some (merged, false)
  pub cache : v.encrypt_cache merged ≡ some row.plaintext_cache
  pub sealed : v.encrypt_plaintext c.group_id c.entry_id merged c.key_version ≡ some row.ciphertext
  pub base : row.base_enc ≡ le.base_enc
  pub live : le.deleted ≡ false
  pub queued : row.dirty ≡ true
  pub version : row.seq ≡ c.seq

abbrev pub Kept : Vault → Change → LocalEntry → LocalEntry → Type 0
Kept v c le row = (row ≡ le) ⊎ Conflicted c le row ⊎ Merged v c le row

tombstone_conflict-Conflicted :
    (c : Change) (le : LocalEntry) → (le.dirty ≡ true) → Conflicted c le (tombstone_conflict c le)
tombstone_conflict-Conflicted c le d = ground arith

apply_tombstone-Kept :
    (v : Vault) (now : ℕ) (c : Change) (l : LocalStore) (le : LocalEntry)
    → get_local_entry l c.entry_id ≡ some le
    → lookup c.entry_id l.entries ≡ some le
    → le.id ≡ c.entry_id
    → le.dirty ≡ true
    → Has (Kept v c le) c.entry_id (apply_tombstone now c l).1
unfolding apply_tombstone
apply_tombstone-Kept v now c l le read found same dirty = elim (Bool-cases (handled c le)) [
  | inl done ↦
      Has-eq (Kept v c le) c.entry_id (apply_tombstone now c l) (true, l) (ground arith)
        (le, found, inl refl)
  | inr new ↦
      let conflict =
        and_then (upsert_local_entry (tombstone_conflict c le)) (delete_pending_entry c.entry_id) in
      Has-eq (Kept v c le) c.entry_id (apply_tombstone now c l) (conflict l) (ground arith) (
        and_then-Has (Kept v c le) c.entry_id (upsert_local_entry (tombstone_conflict c le))
          (delete_pending_entry c.entry_id) l (delete_pending_entry-KeepsRows c.entry_id)
          (upsert-Has (Kept v c le) c.entry_id (tombstone_conflict c le) l (le, found, inl refl)
            same (inr (inl (tombstone_conflict-Conflicted c le dirty)))))
]

store_row-Has :
    (P : LocalEntry → Type 0) (c : Change) (e : LocalEntry) (l : LocalStore)
    → Has P c.entry_id l
    → e.id ≡ c.entry_id
    → P e
    → Has P c.entry_id (store_row c e l).1
store_row-Has P c e l h same p =
    and_then-Has P c.entry_id (upsert_local_entry e)
      (and_then (delete_pending_entry c.entry_id) (clear_bad_seq c.seq)) l
      (and_then-KeepsRows (delete_pending_entry c.entry_id) (clear_bad_seq c.seq)
        (delete_pending_entry-KeepsRows c.entry_id) (clear_bad_seq-KeepsRows c.seq))
      (upsert-Has P c.entry_id e l h same p)

-- A merge that is found has its parts.
try_auto_merge-some :
    (v : Vault) (le : LocalEntry) (theirs merged : List ℕ)
    → try_auto_merge v le theirs ≡ some merged
    → (ours : List ℕ) × (v.decrypt_cache le.plaintext_cache ≡ some ours)
      × (v.merge_json (base_of v le) ours theirs ≡ some (merged, false))
unfolding try_auto_merge
try_auto_merge-some v le theirs merged h = ground arith

write_merge-Kept :
    (v : Vault) (c : Change) (le : LocalEntry) (theirs ours merged : List ℕ) (l : LocalStore)
    → Has (Kept v c le) c.entry_id l
    → le.deleted ≡ false
    → v.decrypt_plaintext c.group_id c.entry_id c.ciphertext ≡ some theirs
    → v.decrypt_cache le.plaintext_cache ≡ some ours
    → v.merge_json (base_of v le) ours theirs ≡ some (merged, false)
    → Has (Kept v c le) c.entry_id (write_merge v c le merged l).1
unfolding write_merge
write_merge-Kept v c le theirs ours merged l h live opens cached is_merge =
    elim (Option-cases (v.encrypt_cache merged)) [
      | inl refused ↦ unchanged (ground arith)
      | inr (cache, cached') ↦
          elim (Option-cases (v.encrypt_plaintext c.group_id c.entry_id merged c.key_version)) [
            | inl refused ↦ unchanged (ground arith)
            | inr (ct, sealed) ↦
                Has-eq (Kept v c le) c.entry_id (write_merge v c le merged l)
                  (and_then (upsert_local_entry (merged_row c le cache ct))
                    (delete_pending_entry c.entry_id) l)
                  (ground arith)
                  (and_then-Has (Kept v c le) c.entry_id
                    (upsert_local_entry (merged_row c le cache ct))
                    (delete_pending_entry c.entry_id) l (delete_pending_entry-KeepsRows c.entry_id)
                    (upsert-Has (Kept v c le) c.entry_id (merged_row c le cache ct) l h refl (
                      inr (
                        inr (record {
                          theirs = theirs;
                          ours = ours;
                          merged = merged;
                          opens = opens;
                          cached = cached;
                          is_merge = is_merge;
                          cache = cached';
                          sealed = sealed;
                          base = refl;
                          live = live;
                          queued = refl;
                          version = refl;
                        })))))
          ]
    ]
  where
    unchanged :
        write_merge v c le merged l ≡ (false, l)
        → Has (Kept v c le) c.entry_id (write_merge v c le merged l).1
    unchanged e = Has-eq (Kept v c le) c.entry_id (write_merge v c le merged l) (false, l) e h

apply_to_edit-Kept :
    (v : Vault) (c : Change) (le : LocalEntry) (theirs : List ℕ) (l : LocalStore)
    → Has (Kept v c le) c.entry_id l
    → le.deleted ≡ false
    → v.decrypt_plaintext c.group_id c.entry_id c.ciphertext ≡ some theirs
    → Has (Kept v c le) c.entry_id (apply_to_edit v c le theirs l).1
unfolding apply_to_edit
apply_to_edit-Kept v c le theirs l h live opens = elim (Option-cases (try_auto_merge v le theirs)) [
  | inl none_found ↦
      let row = row_of c le.plaintext_cache le.base_enc (some c.entry_id) in
      Has-eq (Kept v c le) c.entry_id (apply_to_edit v c le theirs l) (store_row c row l)
        (ground arith)
        (store_row-Has (Kept v c le) c row l h refl (
          inr (
            inl (record {
              ours = refl;
              base = refl;
              theirs = refl;
              marked = refl;
              version = refl;
              deletion = sym live;
            }))))
  | inr (merged, found) ↦
      let (ours, cached, is_merge) = try_auto_merge-some v le theirs merged found in
      Has-eq (Kept v c le) c.entry_id (apply_to_edit v c le theirs l) (write_merge v c le merged l)
        (ground arith) (write_merge-Kept v c le theirs ours merged l h live opens cached is_merge)
]

apply_plaintext-Kept :
    (v : Vault) (c : Change) (le : LocalEntry) (theirs : List ℕ) (l : LocalStore)
    → get_local_entry l c.entry_id ≡ some le
    → lookup c.entry_id l.entries ≡ some le
    → le.dirty ≡ true
    → v.decrypt_plaintext c.group_id c.entry_id c.ciphertext ≡ some theirs
    → Has (Kept v c le) c.entry_id (apply_plaintext v c theirs l).1
unfolding apply_plaintext
apply_plaintext-Kept v c le theirs l read found dirty opens =
    elim (Bool-cases (handled c le || le.deleted)) [
      | inl stays ↦ same (true, l) (ground arith) refl
      | inr edit ↦ elim (Option-cases (v.encrypt_cache theirs)) [
        | inl refused ↦ same (false, l) (ground arith) refl
        | inr (cache, cached) ↦
            Has-eq (Kept v c le) c.entry_id (apply_plaintext v c theirs l)
              (apply_to_edit v c le theirs l) (ground arith)
              (apply_to_edit-Kept v c le theirs l (le, found, inl refl) (ground arith) opens)
      ]
    ]
  where
    same :
        (r : Bool × LocalStore)
        → apply_plaintext v c theirs l ≡ r
        → r.1 ≡ l
        → Has (Kept v c le) c.entry_id (apply_plaintext v c theirs l).1
    same r e f =
        Has-eq (Kept v c le) c.entry_id (apply_plaintext v c theirs l) r e
          (le, ap (λ (x : LocalStore). lookup c.entry_id x.entries) f ∙ found, inl refl)

-- The change can be read here, or its key is not there yet, or it is a tombstone.
abbrev pub Opens : Vault → Change → Type 0
Opens v c =
    (c.deleted ≡ true)
    ⊎ (v.has_dek c.group_id c.key_version ≡ false)
    ⊎ ((theirs : List ℕ) × (v.decrypt_plaintext c.group_id c.entry_id c.ciphertext ≡ some theirs))

opened :
    (v : Vault) (c : Change)
    → Opens v c
    → c.deleted ≡ false
    → v.has_dek c.group_id c.key_version ≡ true
    → (theirs : List ℕ) × (v.decrypt_plaintext c.group_id c.entry_id c.ciphertext ≡ some theirs)
opened v c (inl grave) content key = absurd (ground (arith, grave, content))
opened v c (inr (inl no_key)) content key = absurd (ground (arith, no_key, key))
opened v c (inr (inr theirs)) content key = theirs

-- A local edit survives every change of its entry that opens, that is a tombstone, or whose key is
-- not there yet, also where a write fails on the way, if the read of the row runs: the row stays
-- as it is, or it is marked as a conflict that keeps the edit and its base beside the server's
-- version and is a deletion if the edit was one, or the edit was no deletion and the row holds the
-- merge of base, edit and server's version, without a conflict and queued for the next push.
pub apply_one_change-Kept :
    (v : Vault) (now : ℕ) (c : Change) (l : LocalStore) (le : LocalEntry)
    → l.fails LocalStmt.get_row ≡ false
    → lookup c.entry_id l.entries ≡ some le
    → le.id ≡ c.entry_id
    → le.dirty ≡ true
    → Opens v c
    → Has (Kept v c le) c.entry_id (apply_one_change v now c l).1
unfolding apply_one_change apply_content put_pending_entry
apply_one_change-Kept v now c l le runs found same dirty opens =
    let read = get_local_entry-some l c.entry_id le runs found in
    elim (Bool-cases c.deleted) [
      | inl grave ↦
          Has-eq (Kept v c le) c.entry_id (apply_one_change v now c l) (apply_tombstone now c l)
            (ground arith) (apply_tombstone-Kept v now c l le read found same dirty)
      | inr content ↦ elim (Bool-cases (v.has_dek c.group_id c.key_version)) [
        | inr no_key ↦
            Has-eq (Kept v c le) c.entry_id (apply_one_change v now c l)
              (put_pending_entry (pending_of c) l) (ground arith)
              (le, ground (arith, found), inl refl)
        | inl key ↦
            let (theirs, plain) = opened v c opens content key in
            Has-eq (Kept v c le) c.entry_id (apply_one_change v now c l)
              (apply_plaintext v c theirs l) (ground arith)
              (apply_plaintext-Kept v c le theirs l read found dirty plain)
      ]
    ]
