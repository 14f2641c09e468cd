-- ===== src/Administration/Groups.antt =====
-- server/api/admin.go: the accounts and groups that an administrator opens, the archiving of a group
-- and the disabling of a device. Identifiers that are drawn are arguments, 0 is an empty field, and
-- the test of an attestation is given by the caller.
pub mod Archived
pub mod Reopened
pub mod Disabled
use zt_data_sync.Proto.{err_bad_request}
use zt_data_sync.Store.Rows.{
  User, UserRole, Group, Device, Db, Result, ok, err, ◌>>=◌, rekey_done, group_archived,
  group_not_archived,
}
use zt_data_sync.Store.Queries.{
  get_user_by_username, get_user_by_public_key, get_group, get_device_by_id,
}
use zt_data_sync.Store.Tx.{Tx, with_tx, then_tx, pass_tx, create_user}
use zt_data_sync.Store.Access.{create_group, set_group_archived, disable_device, add_group_member}
use zt_data_sync.Authn.Tokens.{AuthContext}
use zt_data_sync.Registration.{check, present, absent, new_user, create_user_action}
use zt_data_sync.Administration.{Answer, recorded, end_plain}
use zt_data_sync.Prelude.{ℕ, none, Bool, true, false, not, ◌&&◌, ◌==◌, if◌then◌else◌}

abbrev pub create_group_action : ℕ
create_group_action = 14

abbrev pub archive_action : ℕ
archive_action = 15

abbrev pub unarchive_action : ℕ
unarchive_action = 16

abbrev pub disable_device_action : ℕ
disable_device_action = 17

-- The identifier of what was created.
abbrev pub created : ℕ → Answer (Unit {0}) → Answer ℕ
created id ((err e, b), db) = ((err e, b), db)
created id ((ok u, b), db) = ((ok id, b), db)

abbrev pub check_user : (ℕ → ℕ → Bool) → ℕ → ℕ → ℕ → ℕ → Db → Result ℕ (Unit {0})
check_user attested username name key attestation db =
    check (not (username == 0) && (not (name == 0) && (not (key == 0) && not (attestation == 0))))
    >>= λ _. check (attested name key) >>= λ _.
        absent (get_user_by_username db username) >>= λ _. absent (get_user_by_public_key db key)

abbrev pub create_user_checked :
    ℕ → AuthContext → ℕ → ℕ → ℕ → ℕ → Db → Result ℕ (Unit {0}) → Answer ℕ
create_user_checked now ac uid username name key db (err e) = ((err e, false), db)
create_user_checked now ac uid username name key db (ok u) = created uid (
    end_plain now ac create_user_action (with_tx (create_user (new_user uid username key name)) db))

unfoldable pub handle_create_user :
    (ℕ → ℕ → Bool) → ℕ → AuthContext → ℕ → ℕ → ℕ → ℕ → ℕ → Db → Answer ℕ
handle_create_user attested now ac uid username name key attestation db =
    create_user_checked now ac uid username name key db
      (check_user attested username name key attestation db)

abbrev pub is_admin : User → Bool
is_admin u = elim u.role [ UserRole.admin ↦ true | UserRole.member ↦ false ]

-- The administrator is a member from the start.
abbrev pub join_admin : AuthContext → ℕ → Tx (Unit {0})
join_admin ac gid =
    if is_admin ac.user
    then add_group_member (record { group_id = gid; user_id = ac.user.id })
    else pass_tx

abbrev pub new_group : ℕ → ℕ → ℕ → Group
new_group now gid name = record {
  id = gid;
  name = name;
  key_version = 1;
  pending_rekey = rekey_done;
  archived = group_not_archived;
  created_at = now;
  archived_at = none;
}

unfoldable pub create_group_tx : ℕ → AuthContext → ℕ → ℕ → Tx (Unit {0})
create_group_tx now ac gid name =
    then_tx (create_group (new_group now gid name)) (join_admin ac gid)

unfoldable pub handle_create_group : ℕ → AuthContext → ℕ → ℕ → Db → Answer ℕ
handle_create_group now ac gid name db =
    if name == 0
    then ((err err_bad_request, false), db)
    else created gid
        (end_plain now ac create_group_action (with_tx (create_group_tx now ac gid name) db))

abbrev pub named_group : ℕ → ℕ → Db → Result ℕ Group
named_group gid confirm_name db =
    present (get_group db gid) >>= λ g. check (confirm_name == g.name) >>= λ _. ok g

abbrev pub archive_found : ℕ → AuthContext → ℕ → Db → Result ℕ Group → Answer (Unit {0})
archive_found now ac gid db (err e) = ((err e, false), db)
archive_found now ac gid db (ok g) =
    if g.archived == group_archived
    then ((ok tt, false), recorded now ac archive_action db)
    else end_plain now ac archive_action (with_tx (set_group_archived gid group_archived now) db)

unfoldable pub handle_archive : ℕ → AuthContext → ℕ → ℕ → Db → Answer (Unit {0})
handle_archive now ac gid confirm_name db =
    archive_found now ac gid db (named_group gid confirm_name db)

abbrev pub unarchive_found : ℕ → AuthContext → ℕ → Db → Result ℕ Group → Answer (Unit {0})
unarchive_found now ac gid db (err e) = ((err e, false), db)
unarchive_found now ac gid db (ok g) =
    if g.archived == group_not_archived
    then ((ok tt, false), recorded now ac unarchive_action db)
    else end_plain now ac unarchive_action
        (with_tx (set_group_archived gid group_not_archived 0) db)

unfoldable pub handle_unarchive : ℕ → AuthContext → ℕ → Db → Answer (Unit {0})
handle_unarchive now ac gid db = unarchive_found now ac gid db (present (get_group db gid))

abbrev pub named_device : ℕ → ℕ → Db → Result ℕ Device
named_device did confirm_name db =
    present (get_device_by_id db did) >>= λ d. check (confirm_name == d.name) >>= λ _. ok d

abbrev pub disable_found : ℕ → AuthContext → ℕ → Db → Result ℕ Device → Answer (Unit {0})
disable_found now ac did db (err e) = ((err e, false), db)
disable_found now ac did db (ok d) =
    end_plain now ac disable_device_action (with_tx (disable_device did) db)

unfoldable pub handle_disable_device : ℕ → AuthContext → ℕ → ℕ → Db → Answer (Unit {0})
handle_disable_device now ac did confirm_name db =
    disable_found now ac did db (named_device did confirm_name db)
