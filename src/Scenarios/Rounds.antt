-- ===== src/Scenarios/Rounds.antt =====
-- Rounds of a client against the server.
use zt_data_sync.Prelude.Assoc.{lookup}
use zt_data_sync.Prelude.Int.{pos}
use zt_data_sync.Prelude.Elements.{In}
use zt_data_sync.Scenarios.Samples.{base_db, base_db-IsWellFormed, group_one, note}
use zt_data_sync.Scenarios.Vaults.{plain_ciphers, first_keys}
use zt_data_sync.Scenarios.Clients.{plain_vault, edited_note, one_row}
use zt_data_sync.Proto.{GroupState, SyncResponse}
use zt_data_sync.Store.Rows.{Db, Envelope, ok}
use zt_data_sync.Sync.Push.{change_of}
use zt_data_sync.Sync.Pull.{
  pull, pull_across, active_of, lacking, missing_envelopes, group_states, requested_groups,
  new_envelopes,
}
use zt_data_sync.Sync.Pull.Declared.{Above}
use zt_data_sync.Store.Queries.{
  get_group_member, get_group, get_group_envelopes, list_user_groups, insert_by_seq, sort_by_seq,
  pull_changes, get_server_seq, get_user_envelopes, list_group_members, get_user_by_id,
  list_active_users,
}
use zt_data_sync.Sync.Envelopes.{
  active_member_ids, upload_keys, check_upload, dispatch_upload, append_envelopes, upsert_all,
}
use zt_data_sync.Client.Local.{
  LocalStore, upsert_local_entry, get_local_entry, list_dirty_entries, list_pending_entries,
  delete_pending_entry, clear_bad_seq, get_group_state, set_group_state,
}
use zt_data_sync.Client.Outbox.{flush_pending_entries}
use zt_data_sync.Client.Keys.{Keys, set_dek, get_dek, max_versions, local_key_versions, has_any_dek}
use zt_data_sync.Client.Session.{Tools, World, by_id, wrap_for_all}
use zt_data_sync.Client.Served.{api_of, user_keys}
use zt_data_sync.Client.Sharing.{auto_wrap}
use zt_data_sync.Client.Sharing.NewMember.{Lacks, Keyless, own_envelope, auto_wrap-NewMember}
use zt_data_sync.Client.Rekey.{auto_rekey, push_out}
use zt_data_sync.Client.Rekey.Lost.{Refused, auto_rekey-Lost}
use zt_data_sync.Client.Round.{
  sync_once, process, apply_envelopes, pull_group_full, apply_group, apply_groups,
}
use zt_data_sync.Client.Round.Complete.{sync_once_complete}
use zt_data_sync.Client.Cursor.{advance}
use zt_data_sync.Client.Engine.{apply_plaintext, apply_content, apply_one_change, apply_changes}
use zt_data_sync.Store.Tx.{with_tx}
use zt_data_sync.Prelude.{
  ℕ, [], ◌∷◌, some, true, false, inl, ◌++◌, ◌≡◌, ◌≤◌, List, refl, arith, All,
}

abbrev tools : Tools
tools = record { ciphers = plain_ciphers; vault_at = λ ks. plain_vault }

abbrev no_rows : LocalStore
no_rows = record (one_row edited_note) { entries = [] }

abbrev no_keys : Keys
no_keys = record { deks = []; key_cache = []; fails = λ s. false }

abbrev fresh_client : World Db
fresh_client = record {
  engine = record { local = no_rows; write_held = [] };
  keys = no_keys;
  last_seq = 0;
  fails = λ s. false;
  server = base_db;
}

-- What user 8 is told of its group.
abbrev told_one : GroupState
told_one = record {
  id = 1;
  name = 11;
  key_version = 1;
  pending_rekey = false;
  archived = false;
  missing_envelopes = 8 ∷ [];
  active_members = 7 ∷ 8 ∷ [];
}

base_db-Lacks : Lacks base_db 8 group_one (7 ∷ 8 ∷ [])
unfolding active_member_ids list_group_members active_of get_user_by_id
base_db-Lacks = record {
  no_faults = λ s. refl;
  found = refl;
  open_group = refl;
  member = refl;
  active = refl;
  among = refl;
  lacks = refl;
}

fresh-Keyless : Keyless plain_ciphers no_keys 8 group_one told_one 8 (5 ∷ []) (5 ∷ []) (8 ∷ 5 ∷ [])
fresh-Keyless = record {
  runs = λ s. refl;
  not_in_memory = refl;
  not_stored = refl;
  draws = refl;
  seals = refl;
  wraps = refl;
  told_id = refl;
  told_version = refl;
  told_missing = refl;
}

abbrev user_list : List (ℕ × ℕ)
user_list = (7, 7) ∷ (8, 8) ∷ (9, 9) ∷ []

listed : user_keys (list_active_users base_db) ≡ some user_list
unfolding list_active_users
listed = refl

key_of_8 : lookup 8 (by_id [] user_list) ≡ some 8
unfolding by_id
key_of_8 = refl

auto_wrap-NewMember_example :
    let r = auto_wrap (api_of 8 80 2000) tools told_one fresh_client in
    (r.0 ≡ true)
    × (r.1.server.envelopes
        ≡ base_db.envelopes ++ (own_envelope 2000 8 group_one (8 ∷ 5 ∷ []) ∷ []))
    × ((get_dek plain_ciphers 1 1 r.1.keys).0 ≡ some (5 ∷ []))
auto_wrap-NewMember_example =
    auto_wrap-NewMember tools 2000 8 80 8 group_one told_one (7 ∷ 8 ∷ []) user_list (5 ∷ [])
      (5 ∷ []) (8 ∷ 5 ∷ []) fresh_client base_db-Lacks fresh-Keyless listed key_of_8

abbrev new_envelope : ℕ → Envelope
new_envelope u = record {
  group_id = 1;
  key_version = 2;
  user_id = u;
  wrapped_dek = u ∷ 6 ∷ [];
  updated_at = 1900;
}

-- User 7 has been first with the key of version 2.
abbrev rekeyed_db : Db
rekeyed_db = record base_db {
  groups = record group_one { key_version = 2 } ∷ [];
  envelopes = new_envelope 7 ∷ new_envelope 8 ∷ [];
}

abbrev late_client : World Db
late_client = record fresh_client { keys = first_keys; server = rekeyed_db }

abbrev told_to_rekey : GroupState
told_to_rekey = record told_one { pending_rekey = true; missing_envelopes = [] }

late-Refused :
    Refused
      (api_of 8 80 2000)
      tools
      told_to_rekey
      late_client
      (4 ∷ [])
      (5 ∷ [])
      (5 ∷ [])
      user_list
      (record { user_id = 7; wrapped_dek = 7 ∷ 5 ∷ [] })
      (record { user_id = 8; wrapped_dek = 8 ∷ 5 ∷ [] } ∷ [])
unfolding api_of list_active_users by_id wrap_for_all upload_keys check_upload get_group_member
    get_group active_member_ids list_group_members active_of get_user_by_id dispatch_upload
    append_envelopes get_group_envelopes
late-Refused = record {
  runs = λ s. refl;
  has_old = refl;
  draws = refl;
  seals = refl;
  listed = refl;
  wraps = refl;
  refused = refl;
}

abbrev late_reply : SyncResponse
late_reply = record {
  server_seq = 6;
  changes = change_of note ∷ [];
  key_envelopes = [];
  groups = record told_one { key_version = 2; missing_envelopes = [] } ∷ [];
}

late_pull :
    pull_across rekeyed_db rekeyed_db 8 (pos 0) 0 (
      local_key_versions
        (auto_rekey (api_of 8 80 2000) tools 2000 told_to_rekey late_client).1.keys)
    ≡ ok late_reply
unfolding set_dek get_dek max_versions local_key_versions auto_rekey by_id wrap_for_all api_of
    active_of lacking missing_envelopes group_states requested_groups new_envelopes pull_across
    append_envelopes active_member_ids check_upload dispatch_upload upload_keys get_user_by_id
    list_active_users get_group get_group_member list_group_members list_user_groups insert_by_seq
    sort_by_seq pull_changes get_server_seq get_user_envelopes get_group_envelopes
late_pull = refl

auto_rekey-Lost_example :
    let r = auto_rekey (api_of 8 80 2000) tools 2000 told_to_rekey late_client in
    (r.0 ≡ true)
    × ((get_dek plain_ciphers 1 2 r.1.keys).0 ≡ some (5 ∷ []))
    × All (Above 1 2) late_reply.key_envelopes
auto_rekey-Lost_example =
    auto_rekey-Lost (api_of 8 80 2000) tools 2000 told_to_rekey late_client (4 ∷ []) (5 ∷ [])
      (5 ∷ []) user_list (record { user_id = 7; wrapped_dek = 7 ∷ 5 ∷ [] })
      (record { user_id = 8; wrapped_dek = 8 ∷ 5 ∷ [] } ∷ []) rekeyed_db rekeyed_db 8 (pos 0)
      late_reply late-Refused late_pull

passes : 5 ≤ (sync_once (api_of 8 80 2000) tools 2000 fresh_client).1.last_seq
unfolding set_dek get_dek has_any_dek push_out auto_wrap by_id wrap_for_all api_of apply_envelopes
    pull_group_full apply_group apply_groups process sync_once advance apply_plaintext apply_content
    apply_one_change apply_changes flush_pending_entries upsert_local_entry get_local_entry
    list_dirty_entries list_pending_entries delete_pending_entry clear_bad_seq get_group_state
    set_group_state active_of lacking missing_envelopes group_states requested_groups new_envelopes
    pull upsert_all append_envelopes active_member_ids check_upload dispatch_upload upload_keys
    get_user_by_id list_active_users get_group get_group_member list_group_members list_user_groups
    insert_by_seq sort_by_seq pull_changes get_server_seq get_user_envelopes get_group_envelopes
    with_tx
passes = omega arith

sync_once_complete_example :
    let api = api_of 8 80 2000 in
    ((sync_once api tools 2000 fresh_client).0 ≡ true)
    × (r : SyncResponse) × (pull base_db 8 (pos 0) 0 (local_key_versions no_keys) ≡ ok r)
    × In (change_of note) r.changes
    × ((process api tools 2000 r fresh_client).0 ≡ true)
sync_once_complete_example =
    sync_once_complete tools 2000 8 80 fresh_client note refl base_db-IsWellFormed (omega arith)
      (inl refl) refl (omega arith) passes
