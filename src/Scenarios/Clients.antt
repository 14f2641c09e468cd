-- ===== src/Scenarios/Clients.antt =====
-- A client's rows, its edits and its recycle bin.
use zt_data_sync.Proto.{Change}
use zt_data_sync.Prelude.Assoc.{lookup}
use zt_data_sync.Store.Rows.{ok, err}
use zt_data_sync.Client.Local.{LocalStore, LocalEntry, values}
use zt_data_sync.Client.Local.Rows.{Has}
use zt_data_sync.Client.Engine.{Vault, row_of, apply_one_change, apply_changes, try_auto_merge}
use zt_data_sync.Client.Engine.Edits.{Kept, apply_one_change-Kept}
use zt_data_sync.Client.Engine.Losses.{Overwrites, Opens, conflict_overwritten}
use zt_data_sync.Client.Outbox.{Engine, mutation_of, settle}
use zt_data_sync.Client.Outbox.Unsent.{Sends, unreadable_unsent}
use zt_data_sync.Prelude.Elements.{In}
use zt_data_sync.Client.Actions.{delete_entry, restore_entry, restored, in_bin, no_row}
use zt_data_sync.Client.Actions.Recycle.{
  Restorable, binned, restore_entry-delete_entry, pushed_deletion_final,
}
use zt_data_sync.Prelude.{[], ◌∷◌, some, none, true, false, inr, ◌++◌, ◌≡◌, ◌≢◌, All, refl, arith}

-- A vault whose ciphers leave the text as it is, and whose merge is the two texts in a row.
abbrev pub plain_vault : Vault
plain_vault = record {
  is_unlocked = true;
  has_dek = λ g kv. true;
  decrypt_plaintext = λ g id ct. some ct;
  encrypt_plaintext = λ g id text kv. some text;
  encrypt_cache = λ text. some text;
  decrypt_cache = λ sealed. some sealed;
  merge_json = λ base ours theirs. some (ours ++ theirs, false);
}

abbrev shut_vault : Vault
shut_vault = record plain_vault { decrypt_plaintext = λ g id ct. none }

-- An edit of the note that is not pushed yet.
abbrev pub edited_note : LocalEntry
edited_note = record {
  id = 100;
  group_id = 1;
  seq = 5;
  key_version = 1;
  ciphertext = 8 ∷ [];
  plaintext_cache = 8 ∷ [];
  base_enc = 1 ∷ 2 ∷ [];
  dirty = true;
  deleted = false;
  conflict_of = none;
  updated_at = 1100;
}

-- A deletion that goes out from an older version than the server's.
abbrev deleted_note : LocalEntry
deleted_note = record edited_note {
  seq = 4;
  ciphertext = [];
  plaintext_cache = [];
  base_enc = [];
  deleted = true;
}

abbrev pub one_row : LocalEntry → LocalStore
one_row le = record {
  entries = (100, le) ∷ [];
  pending = [];
  bad_seq = [];
  recycle_bin = [];
  groups = [];
  fails = λ s. false;
}

abbrev client_of : LocalEntry → Engine
client_of le = record { local = one_row le; write_held = [] }

abbrev newer_note : Change
newer_note = record {
  entry_id = 100;
  group_id = 1;
  seq = 7;
  key_version = 1;
  ciphertext = 9 ∷ [];
  deleted = false;
  updated_at = 1200;
}

apply_one_change-Kept_example :
    Has
      (Kept plain_vault newer_note edited_note)
      100
      (apply_one_change plain_vault 1300 newer_note (one_row edited_note)).1
apply_one_change-Kept_example =
    apply_one_change-Kept plain_vault 1300 newer_note (one_row edited_note) edited_note refl refl
      refl refl (inr (inr (9 ∷ [], refl)))

unreadable_unsent_example :
    let e = client_of edited_note in
    let after = record e {
      local = (apply_one_change shut_vault 1300 newer_note (one_row edited_note)).1;
    } in
    Sends (In (mutation_of edited_note)) e
    × Sends (All (λ m. m.entry_id ≢ 100)) after
    × (lookup 100 after.local.entries ≡ some (row_of newer_note [] [] none))
    × (after.local.recycle_bin ≡ [])
unreadable_unsent_example =
    unreadable_unsent shut_vault 1300 newer_note (client_of edited_note) edited_note (λ s. refl)
      (refl, tt) ((λ e. refl), tt) refl refl refl refl refl refl

-- A vault that merges nothing.
abbrev apart_vault : Vault
apart_vault = record plain_vault { merge_json = λ base ours theirs. none }

abbrev last_note : Change
last_note = record newer_note { seq = 9; ciphertext = 6 ∷ [] }

note-Opens : Opens apart_vault newer_note (9 ∷ []) (9 ∷ [])
note-Opens = record { content = refl; key = refl; opened = refl; sealed = refl }

last-Opens : Opens apart_vault last_note (6 ∷ []) (6 ∷ [])
last-Opens = record { content = refl; key = refl; opened = refl; sealed = refl }

never_merged : try_auto_merge apart_vault edited_note (9 ∷ []) ≡ none
unfolding try_auto_merge
never_merged = refl

conflict_overwritten_example :
    Overwrites 100
      (row_of newer_note (8 ∷ []) (1 ∷ 2 ∷ []) (some 100))
      (one_row edited_note)
      (apply_one_change apart_vault 1300 newer_note (one_row edited_note))
    × Overwrites 100
        (row_of last_note (6 ∷ []) [] none)
        (one_row edited_note)
        (apply_changes apart_vault 1300 (newer_note ∷ last_note ∷ []) (one_row edited_note))
conflict_overwritten_example =
    conflict_overwritten apart_vault 1300 newer_note last_note (one_row edited_note) edited_note
      (9 ∷ []) (9 ∷ []) (6 ∷ []) (6 ∷ []) (λ s. refl) refl refl refl refl note-Opens last-Opens
      never_merged refl (omega arith)

-- What the user writes while the push is under way.
abbrev later_note : LocalEntry
later_note = record edited_note { ciphertext = 7 ∷ []; plaintext_cache = 7 ∷ [] }

restore_entry-delete_entry_example :
    let gone = delete_entry plain_vault 1300 100 (one_row edited_note) in
    let back = restore_entry plain_vault 1400 100 gone.1 in
    (gone.0 ≡ ok tt)
    × (back.0 ≡ ok tt)
    × (lookup 100 back.1.entries
        ≡ some (restored 100 1400 edited_note (binned 100 1300 edited_note) (8 ∷ [])))
    × (lookup 100 back.1.recycle_bin ≡ none)
restore_entry-delete_entry_example =
    restore_entry-delete_entry plain_vault 1300 1400 100 (one_row edited_note) edited_note (8 ∷ [])
      (8 ∷ []) (λ s. refl) tt refl restorable
  where
    restorable : Restorable plain_vault 100 edited_note (8 ∷ []) (8 ∷ [])
    restorable = record {
      ready = refl;
      text = λ e. ground (arith, e);
      group = omega arith;
      opens = refl;
      sealed = refl;
    }

pushed_deletion_final_example :
    let pushed = settle 100 7 (delete_entry plain_vault 1300 100 (one_row edited_note)).1 in
    (pushed.0 ≡ true)
    × (in_bin 100 (values pushed.1.recycle_bin) ≡ some (binned 100 1300 edited_note))
    × (restore_entry plain_vault 1400 100 pushed.1 ≡ (err no_row, pushed.1))
pushed_deletion_final_example =
    pushed_deletion_final plain_vault 1300 1400 100 7 (one_row edited_note) edited_note (λ s. refl)
      tt refl refl (λ e. ground (arith, e))
