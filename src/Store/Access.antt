-- ===== src/Store/Access.antt =====
-- server/store/sqlite.go: the writes of a transaction that give and take access.
use zt_data_sync.Store.Rows.{
  User, UserStatus, Group, Device, DeviceStatus, GroupMember, Envelope, Stmt, constraint_fk, driver,
  ok, err, group_archived,
}
use zt_data_sync.Store.Queries.{find_group, is_member}
use zt_data_sync.Store.Tx.{Tx, exec, is_some, update_group, update_device}
use zt_data_sync.Prelude.{
  ℕ, Option, none, some, not, ◌&&◌, List, [], ◌∷◌, ◌++◌, ◌==◌, if◌then◌else◌, filter, any,
}

abbrev pub revoke : ℕ → User → User
revoke uid u = if u.id == uid then record u { status = UserStatus.revoked } else u

unfoldable pub revoke_all : ℕ → List User → List User
revoke_all uid [] = []
revoke_all uid (u ∷ us) = revoke uid u ∷ revoke_all uid us

unfoldable pub set_user_revoked : ℕ → Tx (Unit {0})
set_user_revoked uid db =
    exec (db.fails Stmt.revoke_user) (ok (tt, record db { users = revoke_all uid db.users }))

abbrev pub disable_of : ℕ → Device → Device
disable_of uid d = if d.user_id == uid then record d { status = DeviceStatus.disabled } else d

unfoldable pub disable_all : ℕ → List Device → List Device
disable_all uid [] = []
disable_all uid (d ∷ ds) = disable_of uid d ∷ disable_all uid ds

unfoldable pub disable_user_devices : ℕ → Tx (Unit {0})
disable_user_devices uid db =
    exec (db.fails Stmt.disable_devices)
      (ok (tt, record db { devices = disable_all uid db.devices }))

unfoldable pub delete_user_envelopes : ℕ → Tx (Unit {0})
delete_user_envelopes uid db = exec (db.fails Stmt.delete_user_envelopes) (
    ok (
      tt,
      record db { envelopes = filter (λ (e : Envelope). not (e.user_id == uid)) db.envelopes },
    ))

unfoldable pub remove_group_member : ℕ → ℕ → Tx (Unit {0})
remove_group_member gid uid db = exec (db.fails Stmt.remove_member) (
    ok (
      tt,
      record db {
        members =
            filter (λ (m : GroupMember). not ((m.group_id == gid) && (m.user_id == uid)))
              db.members;
      },
    ))

unfoldable pub delete_group_user_envelopes : ℕ → ℕ → Tx (Unit {0})
delete_group_user_envelopes gid uid db = exec (db.fails Stmt.delete_member_envelopes) (
    ok (
      tt,
      record db {
        envelopes =
            filter (λ (e : Envelope). not ((e.group_id == gid) && (e.user_id == uid))) db.envelopes;
      },
    ))

abbrev pub with_key : ℕ → ℕ → User → User
with_key uid key u = if u.id == uid then record u { sm2_public_key = key } else u

unfoldable pub replace_all : ℕ → ℕ → List User → List User
replace_all uid key [] = []
replace_all uid key (u ∷ us) = with_key uid key u ∷ replace_all uid key us

unfoldable pub replace_user_public_key : ℕ → ℕ → Tx (Unit {0})
replace_user_public_key uid key db =
    exec (db.fails Stmt.replace_key) (ok (tt, record db { users = replace_all uid key db.users }))

-- The pair is the primary key, and refers to a group and a user.
unfoldable pub add_group_member : GroupMember → Tx (Unit {0})
add_group_member m db = exec (db.fails Stmt.add_member) (
    if is_member m.group_id m.user_id db.members
    then err driver
    else if is_some (find_group m.group_id db.groups)
        && any (λ (u : User). u.id == m.user_id) db.users
    then ok (tt, record db { members = db.members ++ (m ∷ []) })
    else err constraint_fk)

-- A repeated identifier violates the primary key.
unfoldable pub create_group : Group → Tx (Unit {0})
create_group g db = exec (db.fails Stmt.create_group) (
    if is_some (find_group g.id db.groups)
    then err driver
    else ok (tt, record db { groups = db.groups ++ (record g { archived_at = none } ∷ []) }))

-- The time stands in the row only of an archived group.
abbrev pub int_or_null : ℕ → ℕ → Option ℕ
int_or_null archived at = if archived == group_archived then some at else none

abbrev pub with_archived : ℕ → ℕ → Group → Group
with_archived archived at g = record g {
  archived = archived;
  archived_at = int_or_null archived at;
}

unfoldable pub set_group_archived : ℕ → ℕ → ℕ → Tx (Unit {0})
set_group_archived gid archived at db =
    exec (db.fails Stmt.set_archived)
      (ok (tt, record db { groups = update_group gid (with_archived archived at) db.groups }))

unfoldable pub disable_device : ℕ → Tx (Unit {0})
disable_device id db = exec (db.fails Stmt.disable_device) (
    ok (
      tt,
      record db {
        devices = update_device id (λ d. record d { status = DeviceStatus.disabled }) db.devices;
      },
    ))
