-- ===== src/Scenarios/Groups.antt =====
-- An archived group and a disabled device.
use zt_data_sync.Scenarios.Samples.{base_db, group_one, edit, device_of, user_of}
use zt_data_sync.Scenarios.Revocations.{boss}
use zt_data_sync.Proto.{KeysUploadRequest, Mutation}
use zt_data_sync.Store.Rows.{ok, Stmt, group_archived}
use zt_data_sync.Store.Queries.{
  find_group, get_group, get_device_by_id, get_device_by_token_hash, get_user_by_id,
  get_group_member,
}
use zt_data_sync.Store.Tx.{with_tx, update_group, update_device, insert_audit}
use zt_data_sync.Store.Access.{set_group_archived, disable_device}
use zt_data_sync.Sync.Push.{push_one, check_push}
use zt_data_sync.Sync.Push.Conflict.{pushes}
use zt_data_sync.Sync.Envelopes.{upload_keys}
use zt_data_sync.Client.Served.{is_ok}
use zt_data_sync.Authn.Tokens.{AuthContext, require_auth, record_actor}
use zt_data_sync.Administration.Groups.{handle_archive, handle_unarchive, handle_disable_device}
use zt_data_sync.Administration.Groups.Archived.{handle_archive-shuts}
use zt_data_sync.Administration.Groups.Reopened.{handle_unarchive-handle_archive}
use zt_data_sync.Administration.Groups.Disabled.{handle_disable_device-shut_out}
use zt_data_sync.Prelude.{ℕ, Bool, List, true, [], ◌∷◌, some, false, ◌≡◌, ◌≢◌, refl}

abbrev one_envelope : KeysUploadRequest
one_envelope = record {
  key_version = 1;
  envelopes = record { user_id = 8; wrapped_dek = 5 ∷ [] } ∷ [];
}

archives : (handle_archive 2000 boss 1 11 base_db).0.0 ≡ ok tt
unfolding handle_archive get_group with_tx set_group_archived
archives = refl

handle_archive-shuts_example :
    let after = (handle_archive 2000 boss 1 11 base_db).1 in
    ((push_one after 7 70 2100 edit).0.0.is_ok ≡ false)
    × ((push_one after 7 70 2100 edit).1 ≡ after)
    × (is_ok (upload_keys after 2100 7 1 one_envelope).0.0 ≡ false)
    × ((upload_keys after 2100 7 1 one_envelope).1 ≡ after)
handle_archive-shuts_example =
    handle_archive-shuts 2000 boss 1 11 base_db 7 70 2100 edit one_envelope archives refl

-- Pushes to the archived group, the first one under a driver that fails.
abbrev meanwhile : List ((Stmt → Bool) × ℕ × ℕ × ℕ × Mutation)
meanwhile = ((λ s. true), 7, 70, 2100, edit) ∷ ((λ s. false), 8, 80, 2101, edit) ∷ []

unarchives :
    (handle_unarchive 2200 boss 1 (pushes meanwhile (handle_archive 2000 boss 1 11 base_db).1)).0.0
    ≡ ok tt
unfolding handle_archive handle_unarchive get_group with_tx set_group_archived update_group
    record_actor insert_audit pushes push_one check_push get_group_member
unarchives = refl

handle_unarchive-handle_archive_example :
    let shut = (handle_archive 2000 boss 1 11 base_db).1 in
    let back = (handle_unarchive 2200 boss 1 (pushes meanwhile shut)).1 in
    (find_group 1 shut.groups
      ≡ some (record group_one { archived = group_archived; archived_at = some 2000 }))
    × (find_group 1 back.groups ≡ find_group 1 base_db.groups)
    × (back.entries ≡ base_db.entries)
    × (back.seq ≡ base_db.seq)
handle_unarchive-handle_archive_example =
    handle_unarchive-handle_archive 2000 2200 boss 1 11 1 base_db group_one meanwhile refl refl refl
      (refl, (refl, tt)) archives unarchives

disables : (handle_disable_device 2000 boss 70 70 base_db).0.0 ≡ ok tt
unfolding handle_disable_device get_device_by_id with_tx disable_device
disables = refl

-- The device of user 8, which still passes.
abbrev other_device : AuthContext
other_device = record { device = device_of 80 8 500; user = user_of 8 }

other_passes :
    (require_auth (λ t. t) 1 (some 80) (handle_disable_device 2000 boss 70 70 base_db).1).0
    ≡ ok other_device
unfolding handle_disable_device get_device_by_id with_tx disable_device update_device record_actor
    insert_audit require_auth get_device_by_token_hash get_user_by_id
other_passes = refl

handle_disable_device-shut_out_example : other_device.device.id ≢ 70
handle_disable_device-shut_out_example =
    handle_disable_device-shut_out 2000 boss 70 70 base_db (λ t. t) 1 80 other_device disables
      other_passes
