-- ===== src/Client/Outbox.antt =====
-- client/core/syncer/engine.go: `flushPendingEntries`, `pushDirty` and `handlePushConflict`. The
-- server's `Push` is an argument, none for a call that fails.
pub mod Settles
pub mod Rounds
pub mod Deletion
pub mod Unsent
use zt_data_sync.Client.Engine.{
  Vault, succeed, give_up, apply_one_change, try_auto_merge, row_of, merged_row,
}
use zt_data_sync.Client.Local.{
  Write, LocalStore, PendingEntry, LocalEntry, and_then, list_pending_entries, get_local_entry,
  upsert_local_entry, set_conflict, set_dirty, set_base_enc, remove_local_entry, list_dirty_entries,
}
use zt_data_sync.Prelude.Membership.{contains}
use zt_data_sync.Proto.{Change, Mutation, PushResult, err_conflict, err_key_version_stale}
use zt_data_sync.Prelude.{
  [], some, none, true, false, if◌then◌else◌, not, find, filter, map, ◌==◌, ◌∷◌, Option, List, Bool,
  ℕ,
}

abbrev pub change_of_pending : PendingEntry → Change
change_of_pending p = record {
  entry_id = p.id;
  group_id = p.group_id;
  seq = p.seq;
  key_version = p.key_version;
  ciphertext = p.ciphertext;
  deleted = false;
  updated_at = p.updated_at;
}

abbrev flush_all : Vault → ℕ → List PendingEntry → Write
flush_all v now [] l = succeed l
flush_all v now (p ∷ ps) l =
    if v.has_dek p.group_id p.key_version
    then and_then (apply_one_change v now (change_of_pending p)) (flush_all v now ps) l
    else flush_all v now ps l

-- The entries that were kept aside, where their keys are there now.
unfoldable pub flush_pending_entries : Vault → ℕ → Write
flush_pending_entries v now l = elim (list_pending_entries l) [
  | none ↦ give_up l
  | some ps ↦ flush_all v now ps l
]

-- The tables, and the groups whose writes wait for the end of a rekey.
pub record Engine : Type 0 where
  pub local : LocalStore
  pub write_held : List ℕ

abbrev pub mutation_of : LocalEntry → Mutation
mutation_of le = record {
  entry_id = le.id;
  group_id = le.group_id;
  base_seq = le.seq;
  key_version = le.key_version;
  ciphertext = le.ciphertext;
  deleted = le.deleted;
}

-- A tombstone that met another version: it is pushed again, over that version.
abbrev pub tombstone_again : ℕ → Change → LocalEntry
tombstone_again id c = record {
  id = id;
  group_id = c.group_id;
  seq = c.seq;
  key_version = c.key_version;
  ciphertext = [];
  plaintext_cache = [];
  base_enc = [];
  dirty = true;
  deleted = true;
  conflict_of = none;
  updated_at = c.updated_at;
}

-- The row of the merge, with the clock's time.
abbrev pub rewritten : ℕ → Change → LocalEntry → List ℕ → List ℕ → LocalEntry
rewritten now c le cache ct = record (merged_row c le cache ct) { id = le.id; updated_at = now }

unfoldable pub write_merged_dirty : Vault → ℕ → Change → LocalEntry → List ℕ → Write
write_merged_dirty v now c le merged l = elim (v.encrypt_cache merged) [
  | none ↦ give_up l
  | some cache ↦ elim (v.encrypt_plaintext c.group_id le.id merged c.key_version) [
    | none ↦ give_up l
    | some ct ↦ upsert_local_entry (rewritten now c le cache ct) l
  ]
]

-- The row of a conflict: ours and the base, with their version.
abbrev pub conflict_row : ℕ → Change → LocalEntry → LocalEntry
conflict_row id c le = record (row_of c le.plaintext_cache le.base_enc (some id)) { id = id }

abbrev or_else : Bool × LocalStore → Write → Bool × LocalStore
or_else (true, l) second = (true, l)
or_else (false, l) second = second l

-- The merge of ours with theirs, if theirs opens and no field is in conflict.
abbrev pub merge_current : Vault → ℕ → Change → LocalEntry → Option (List ℕ)
merge_current v id c le = elim (v.decrypt_plaintext c.group_id id c.ciphertext) [
  | none ↦ none
  | some theirs ↦ try_auto_merge v le theirs
]

unfoldable pub handle_push_conflict : Vault → ℕ → ℕ → Change → Write
handle_push_conflict v now id c l = elim (get_local_entry l id) [
  | none ↦ set_conflict id id l
  | some le ↦
      if le.deleted
      then upsert_local_entry (tombstone_again id c) l
      else elim (merge_current v id c le) [
        | none ↦ upsert_local_entry (conflict_row id c le) l
        | some merged ↦
            or_else (write_merged_dirty v now c le merged l)
              (upsert_local_entry (conflict_row id c le))
      ]
]

-- The number of the pushed version, where the row is still there.
abbrev set_seq : ℕ → ℕ → Write
set_seq id n l = elim (get_local_entry l id) [
  | none ↦ succeed l
  | some le ↦ upsert_local_entry (record le { seq = n }) l
]

abbrev clear_edit : ℕ → ℕ → Write
clear_edit id n = and_then (set_dirty id false) (and_then (set_base_enc id []) (set_seq id n))

-- An accepted mutation: a tombstone goes, another row is clean at the new number.
unfoldable pub settle : ℕ → ℕ → Write
settle id n l = elim (get_local_entry l id) [
  | none ↦ clear_edit id n l
  | some le ↦ if le.deleted then remove_local_entry id l else clear_edit id n l
]

unfoldable pub refuse : Vault → ℕ → ℕ → Option Change → Write
refuse v now id (some c) = handle_push_conflict v now id c
refuse v now id none = set_conflict id id

abbrev hold_group : Option Mutation → List ℕ → List ℕ
hold_group none held = held
hold_group (some m) held = m.group_id ∷ held

abbrev with_local : Engine → Bool × LocalStore → Bool × Engine
with_local e (done, l) = (done, record e { local = l })

-- One result of the push of `ms`.
unfoldable pub apply_result : Vault → ℕ → List Mutation → PushResult → Engine → Bool × Engine
apply_result v now ms r e =
    if r.is_ok
    then with_local e (settle r.entry_id r.new_seq e.local)
    else if r.error == err_conflict
    then with_local e (refuse v now r.entry_id r.current e.local)
    else if r.error == err_key_version_stale
    then (
      true,
      record e { write_held = hold_group (find (λ m. m.entry_id == r.entry_id) ms) e.write_held },
    )
    else (true, e)

unfoldable pub apply_results : Vault → ℕ → List Mutation → List PushResult → Engine → Bool × Engine
apply_results v now ms [] e = (true, e)
apply_results v now ms (r ∷ rs) e =
    let (done, e') = apply_result v now ms r e in
    let rest = apply_results v now ms rs e' in if done then rest else (false, e')

-- The edits of the groups whose writes do not wait.
abbrev pub outgoing : Engine → List LocalEntry → List Mutation
outgoing e les = map mutation_of (filter (λ le. not (contains le.group_id e.write_held)) les)

-- The edits are read in `e`; `later` is what there is when the server has answered, since the user
-- goes on editing while the call runs.
unfoldable pub push_dirty_across :
    Vault → ℕ → (List Mutation → Option (List PushResult)) → Engine → Engine → Bool × Engine
push_dirty_across v now server e later = elim (list_dirty_entries e.local) [
  | none ↦ (false, e)
  | some les ↦ elim (outgoing e les) [
    | [] ↦ (true, e)
    | m ∷ ms ↦ elim (server (m ∷ ms)) [
      | none ↦ (false, later)
      | some rs ↦ apply_results v now (m ∷ ms) rs later
    ]
  ]
]

-- `pushDirty` where nothing else writes while it runs.
unfoldable pub push_dirty :
    Vault → ℕ → (List Mutation → Option (List PushResult)) → Engine → Bool × Engine
unfolding push_dirty_across
push_dirty v now server e = push_dirty_across v now server e e
