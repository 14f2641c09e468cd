-- ===== src/Scenarios/Uploads.antt =====
-- Uploads of envelopes.
use zt_data_sync.Store.Tx.{
  with_tx, upsert_envelope, replace_envelopes, insert_envelopes, set_group_key_version,
}
use zt_data_sync.Sync.Pull.{active_of}
use zt_data_sync.Sync.Failure.{code}
use zt_data_sync.Store.Rows.{err, ok}
use zt_data_sync.Store.Queries.{
  get_group_member, get_group, list_group_members, get_user_by_id, count_entries_below_kv,
  get_group_envelopes,
}
use zt_data_sync.Scenarios.Samples.{base_db, group_one}
use zt_data_sync.Sync.Envelopes.{
  upload_keys, check_upload, active_member_ids, dispatch_upload, commit_rekey, append_envelopes,
  upsert_all, rekey_tx,
}
use zt_data_sync.Sync.Envelopes.Rekey.{Rekeys, upload_keys-Rekeys}
use zt_data_sync.Proto.{KeysUploadRequest, err_not_member}
use zt_data_sync.Prelude.{[], refl, ◌≡◌, ◌∷◌}

-- The envelope that user 8 lacks.
abbrev welcome : KeysUploadRequest
welcome = record { key_version = 1; envelopes = record { user_id = 8; wrapped_dek = 5 ∷ [] } ∷ [] }

abbrev new_key : KeysUploadRequest
new_key = record {
  key_version = 2;
  envelopes =
      record { user_id = 7; wrapped_dek = 5 ∷ [] }
      ∷ record { user_id = 8; wrapped_dek = 6 ∷ [] }
      ∷ [];
}

welcome_ok : (upload_keys base_db 2000 7 1 welcome).0.0 ≡ ok tt
unfolding upload_keys check_upload get_group_member get_group active_member_ids list_group_members
    active_of get_user_by_id dispatch_upload append_envelopes get_group_envelopes with_tx upsert_all
    upsert_envelope
welcome_ok = refl

new_key_ok : (upload_keys base_db 2000 7 1 new_key).0.0 ≡ ok tt
unfolding upload_keys check_upload get_group_member get_group active_member_ids list_group_members
    active_of get_user_by_id dispatch_upload commit_rekey count_entries_below_kv with_tx rekey_tx
    replace_envelopes insert_envelopes set_group_key_version
new_key_ok = refl

stranger_fails : (upload_keys base_db 2000 9 1 welcome).0.0 ≡ err (code err_not_member)
unfolding upload_keys check_upload get_group_member
stranger_fails = refl

upload_keys-Rekeys_example :
    Rekeys base_db 2000 7 1 new_key (upload_keys base_db 2000 7 1 new_key).1
upload_keys-Rekeys_example =
    upload_keys-Rekeys base_db 2000 7 1 new_key group_one refl refl new_key_ok
