-- ===== src/Administration.antt =====
-- server/api/admin.go: what an administrator does to the access of users. The attestation of a key
-- is a test that the caller gives. A handler's reads before its transaction may see other tables
-- than the transaction; the empty groups of an answer are read after it, and the key version that
-- the reset of a key file answers with is left out. Whether the hub is told to disconnect the user
-- is part of the answer.
pub mod Leaving
pub mod Revocation
pub mod Groups
use zt_data_sync.Proto.{err_internal}
use zt_data_sync.Store.Rows.{
  User, Group, GroupMember, Db, StoreError, Result, ok, err, ◌>>=◌, rekey_pending,
}
use zt_data_sync.Store.Queries.{
  get_user_by_id, get_group, get_group_member, list_user_groups, list_group_members,
}
use zt_data_sync.Store.Tx.{Tx, with_tx, then_tx, pass_tx, set_group_rekey}
use zt_data_sync.Store.Access.{
  set_user_revoked, disable_user_devices, delete_user_envelopes, remove_group_member,
  delete_group_user_envelopes, replace_user_public_key, add_group_member,
}
use zt_data_sync.Store.Queries.{is_active}
use zt_data_sync.Authn.Tokens.{AuthContext, record_event}
use zt_data_sync.Registration.{check, present}
use zt_data_sync.Prelude.{ℕ, Bool, true, false, some, List, [], ◌∷◌, ◌==◌, if◌then◌else◌}

abbrev pub revoke_action : ℕ
revoke_action = 9

abbrev pub keyfile_reset_action : ℕ
keyfile_reset_action = 10

abbrev pub add_member_action : ℕ
add_member_action = 11

abbrev pub remove_member_action : ℕ
remove_member_action = 12

abbrev pub rekey_action : ℕ
rekey_action = 13

-- The answer, whether the user's connections are closed, and the tables.
abbrev pub Answer : Type 0 → Type 0
Answer A = (Result ℕ A × Bool) × Db

abbrev pub or_internal : {A : Type 0} → Result StoreError A → Result ℕ A
or_internal (ok a) = ok a
or_internal (err e) = err err_internal

-- The user of that name, and their groups.
abbrev pub named_user : ℕ → ℕ → Db → Result ℕ User
named_user uid confirm_name db =
    present (get_user_by_id db uid) >>= λ u. check (confirm_name == u.name) >>= λ _. ok u

unfoldable pub leave_groups : ℕ → List Group → Tx (Unit {0})
leave_groups uid [] = pass_tx
leave_groups uid (g ∷ gs) =
    then_tx (remove_group_member g.id uid)
      (then_tx (set_group_rekey g.id rekey_pending) (leave_groups uid gs))

unfoldable pub revoke_tx : ℕ → List Group → Tx (Unit {0})
unfolding leave_groups
revoke_tx uid gs =
    then_tx (set_user_revoked uid) (
      then_tx (disable_user_devices uid)
        (then_tx (delete_user_envelopes uid) (leave_groups uid gs)))

abbrev pub add_if_empty : Group → Result StoreError (List GroupMember) → List ℕ → List ℕ
add_if_empty g (ok []) names = g.name ∷ names
add_if_empty g (ok (m ∷ ms)) names = names
add_if_empty g (err e) names = names

-- The names of the groups that have no member any more.
unfoldable pub empty_groups : List Group → Db → List ℕ
empty_groups [] db = []
empty_groups (g ∷ gs) db = add_if_empty g (list_group_members db g.id) (empty_groups gs db)

abbrev pub recorded : ℕ → AuthContext → ℕ → Db → Db
recorded now ac action db = record_event now (some ac) action db

abbrev pub end_revoke :
    ℕ → AuthContext → List Group → Result StoreError (Unit {0}) × Db → Answer (List ℕ)
end_revoke now ac gs (err e, db) = ((err err_internal, false), db)
end_revoke now ac gs (ok u, db) =
    ((ok (empty_groups gs db), true), recorded now ac revoke_action db)

abbrev pub revoke_checked : ℕ → AuthContext → ℕ → Db → Result ℕ (List Group) → Answer (List ℕ)
revoke_checked now ac uid db (err e) = ((err e, false), db)
revoke_checked now ac uid db (ok gs) = end_revoke now ac gs (with_tx (revoke_tx uid gs) db)

unfoldable pub revoke_across : ℕ → AuthContext → ℕ → ℕ → Db → Db → Answer (List ℕ)
revoke_across now ac uid confirm_name seen db =
    revoke_checked now ac uid db
      (named_user uid confirm_name seen >>= λ _. or_internal (list_user_groups seen uid))

unfoldable pub rekey_groups : List Group → Tx (Unit {0})
rekey_groups [] = pass_tx
rekey_groups (g ∷ gs) = then_tx (set_group_rekey g.id rekey_pending) (rekey_groups gs)

unfoldable pub reset_tx : ℕ → ℕ → List Group → Tx (Unit {0})
unfolding rekey_groups
reset_tx uid key gs =
    then_tx (replace_user_public_key uid key)
      (then_tx (disable_user_devices uid) (then_tx (delete_user_envelopes uid) (rekey_groups gs)))

abbrev pub end_reset : ℕ → AuthContext → Result StoreError (Unit {0}) × Db → Answer (Unit {0})
end_reset now ac (err e, db) = ((err err_internal, false), db)
end_reset now ac (ok u, db) = ((ok tt, true), recorded now ac keyfile_reset_action db)

abbrev pub reset_checked : ℕ → AuthContext → ℕ → ℕ → Db → Result ℕ (List Group) → Answer (Unit {0})
reset_checked now ac uid key db (err e) = ((err e, false), db)
reset_checked now ac uid key db (ok gs) = end_reset now ac (with_tx (reset_tx uid key gs) db)

-- `attested` is the test of the attestation, for the user's name.
unfoldable pub keyfile_reset_across :
    (ℕ → Bool) → ℕ → AuthContext → ℕ → ℕ → Db → Db → Answer (Unit {0})
keyfile_reset_across attested now ac uid key seen db = reset_checked now ac uid key db (
    present (get_user_by_id seen uid) >>= λ u. check (is_active u) >>= λ _.
    check (attested u.name) >>= λ _. or_internal (list_user_groups seen uid))

unfoldable pub remove_member_tx : ℕ → ℕ → Tx (Unit {0})
remove_member_tx gid uid =
    then_tx (remove_group_member gid uid)
      (then_tx (delete_group_user_envelopes gid uid) (set_group_rekey gid rekey_pending))

abbrev pub end_plain : ℕ → AuthContext → ℕ → Result StoreError (Unit {0}) × Db → Answer (Unit {0})
end_plain now ac action (err e, db) = ((err err_internal, false), db)
end_plain now ac action (ok u, db) = ((ok tt, false), recorded now ac action db)

abbrev pub remove_checked : ℕ → AuthContext → ℕ → ℕ → Db → Result ℕ User → Answer (Unit {0})
remove_checked now ac gid uid db (err e) = ((err e, false), db)
remove_checked now ac gid uid db (ok u) =
    end_plain now ac remove_member_action (with_tx (remove_member_tx gid uid) db)

unfoldable pub handle_remove_member : ℕ → AuthContext → ℕ → ℕ → ℕ → Db → Answer (Unit {0})
handle_remove_member now ac gid uid confirm_name db =
    remove_checked now ac gid uid db (named_user uid confirm_name db)

abbrev pub is_in : Result StoreError Bool → Bool
is_in (ok b) = b
is_in (err e) = false

abbrev pub add_checked : ℕ → AuthContext → ℕ → ℕ → Db → Result ℕ (Unit {0}) → Answer (Unit {0})
add_checked now ac gid uid db (err e) = ((err e, false), db)
add_checked now ac gid uid db (ok u) =
    end_plain now ac add_member_action
      (with_tx (add_group_member (record { group_id = gid; user_id = uid })) db)

-- A lookup of the member that fails counts as none.
unfoldable pub handle_add_member : ℕ → AuthContext → ℕ → ℕ → Db → Answer (Unit {0})
handle_add_member now ac gid uid db =
    if is_in (get_group_member db gid uid)
    then ((ok tt, false), db)
    else add_checked now ac gid uid db
        (present (get_user_by_id db uid) >>= λ u. check (is_active u))

abbrev pub rekey_found : ℕ → AuthContext → ℕ → Db → Result ℕ Group → Answer (Unit {0})
rekey_found now ac gid db (err e) = ((err e, false), db)
rekey_found now ac gid db (ok g) =
    if g.pending_rekey == rekey_pending
    then ((ok tt, false), recorded now ac rekey_action db)
    else end_plain now ac rekey_action (with_tx (set_group_rekey gid rekey_pending) db)

unfoldable pub handle_rekey : ℕ → AuthContext → ℕ → Db → Answer (Unit {0})
handle_rekey now ac gid db = rekey_found now ac gid db (present (get_group db gid))
