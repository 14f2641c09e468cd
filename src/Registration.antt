-- ===== src/Registration.antt =====
-- server/api/register.go and server/api/admin_invites.go: invites, requests for registration and
-- their review. Identifiers and codes that are drawn at random are arguments; the attestation of a
-- user, which the server only hands out, is left out. A handler answers with an error code or a
-- status. The checks of a request may see other tables than its writes.
pub mod Admin
pub mod Once
pub mod Reviews
pub mod Races
use zt_data_sync.Proto.{err_bad_request, err_internal}
use zt_data_sync.Store.Rows.{User, UserRole, UserStatus, Db, StoreError, Result, ok, err, ◌>>=◌}
use zt_data_sync.Store.Queries.{get_user_by_username, get_user_by_public_key}
use zt_data_sync.Store.Tx.{with_tx, create_user}
use zt_data_sync.Store.Registry.{
  Invite, RegStatus, RegisterRequest, Registry, is_unused, get_invite_by_code, mark_invite_used,
  create_register_request, update_register_request,
}
use zt_data_sync.Authn.Tokens.{record_actor}
use zt_data_sync.Prelude.{ℕ, Bool, true, false, not, ◌&&◌, ◌==◌, ltb, if◌then◌else◌}

abbrev pub invite_ttl_default : ℕ
invite_ttl_default = 3

abbrev pub register_request_action : ℕ
register_request_action = 5

abbrev pub create_user_action : ℕ
create_user_action = 6

abbrev pub create_invite_action : ℕ
create_invite_action = 7

abbrev pub reject_register_action : ℕ
reject_register_action = 8

pub record SubmitRequest : Type 0 where
  pub invite_code : ℕ
  pub username : ℕ
  pub sm2_public_key : ℕ
  pub device_name : ℕ
  pub ip : ℕ

-- The identifiers of the request and of the user.
pub record Drawn : Type 0 where
  pub request_id : ℕ
  pub user_id : ℕ

abbrev pub Answer : Type 0 → Type 0
Answer A = Result ℕ A × Registry

abbrev pub check : Bool → Result ℕ (Unit {0})
check true = ok tt
check false = err err_bad_request

-- A row that must be there, and a user that must not.
abbrev pub present : {A : Type 0} → Result StoreError A → Result ℕ A
present (ok a) = ok a
present (err StoreError.no_rows) = err err_bad_request
present (err e) = err err_internal

abbrev pub absent : Result StoreError User → Result ℕ (Unit {0})
absent (ok u) = err err_bad_request
absent (err StoreError.no_rows) = ok tt
absent (err e) = err err_internal

abbrev pub expired : ℕ → Invite → Bool
expired now inv = ltb 0 inv.expires_at && ltb inv.expires_at now

abbrev pub is_complete : SubmitRequest → Bool
is_complete req =
    not (req.invite_code == 0) && (not (req.username == 0) && not (req.sm2_public_key == 0))

abbrev pub check_invite : ℕ → SubmitRequest → Registry → Invite → Result ℕ Invite
check_invite now req reg inv = check (is_unused inv) >>= λ _. check (not (expired now inv)) >>= λ _.
    check (inv.username == req.username) >>= λ _.
    absent (get_user_by_public_key reg.db req.sm2_public_key) >>= λ _.
    absent (get_user_by_username reg.db req.username) >>= λ _. ok inv

unfoldable pub check_submit : ℕ → SubmitRequest → Registry → Result ℕ Invite
check_submit now req reg = check (is_complete req) >>= λ _.
    present (get_invite_by_code reg req.invite_code) >>= check_invite now req reg

abbrev pub audited : ℕ → ℕ → ℕ → Registry → Registry
audited now user_id action reg = record reg { db = record_actor now 0 user_id action reg.db }

abbrev pub new_user : ℕ → ℕ → ℕ → ℕ → User
new_user uid username key name = record {
  id = uid;
  username = username;
  name = name;
  sm2_public_key = key;
  role = UserRole.member;
  status = UserStatus.active;
}

-- The registry after a write that may fail.
abbrev pub or_same :
    {A : Type 0} → A → Result StoreError Registry → Registry → Result StoreError A × Registry
or_same a (ok reg') reg = (ok a, reg')
or_same a (err e) reg = (err e, reg)

abbrev pub end_approve :
    ℕ → ℕ → Registry → Result StoreError (Unit {0}) × Db → Result StoreError (Unit {0}) × Registry
end_approve now rid reg (err e, db) = (err e, record reg { db = db })
end_approve now rid reg (ok u, db) =
    let reg' : Registry = record reg { db = db } in
    or_same tt (update_register_request rid RegStatus.approved 0 now reg') reg'

-- The user's row is committed before the request's status is written.
unfoldable pub approve_and_create_user :
    ℕ → ℕ → ℕ → ℕ → ℕ → ℕ → Registry → Result StoreError (Unit {0}) × Registry
approve_and_create_user now uid rid username key name reg =
    end_approve now rid reg (with_tx (create_user (new_user uid username key name)) reg.db)

abbrev pub user_id_by_username : Result StoreError User → ℕ
user_id_by_username (ok u) = u.id
user_id_by_username (err e) = 0

abbrev pub end_auto : ℕ → ℕ → Result StoreError (Unit {0}) × Registry → Answer RegStatus
end_auto now username (err e, reg) = (err err_internal, reg)
end_auto now username (ok u, reg) = (
  ok RegStatus.approved,
  audited now (user_id_by_username (get_user_by_username reg.db username)) create_user_action reg,
)

abbrev pub submitted : ℕ → Drawn → SubmitRequest → Invite → Registry → Answer RegStatus
submitted now drawn req inv reg =
    if inv.auto_approve == 1
    then end_auto now req.username (
        approve_and_create_user now drawn.user_id drawn.request_id req.username req.sm2_public_key
          req.username reg)
    else (ok RegStatus.pending, reg)

abbrev pub pending_request : Drawn → SubmitRequest → RegisterRequest
pending_request drawn req = record {
  id = drawn.request_id;
  invite_code = req.invite_code;
  username = req.username;
  sm2_public_key = req.sm2_public_key;
  device_name = req.device_name;
  ip = req.ip;
  status = RegStatus.pending;
  reviewed_by = 0;
  reviewed_at = 0;
}

abbrev pub marked :
    ℕ → Drawn → SubmitRequest → Invite → Registry → Result StoreError Registry → Answer RegStatus
marked now drawn req inv reg (err e) = (err err_internal, reg)
marked now drawn req inv reg (ok reg') =
    submitted now drawn req inv (audited now 0 register_request_action reg')

abbrev pub created :
    ℕ → Drawn → SubmitRequest → Invite → Registry → Result StoreError Registry → Answer RegStatus
created now drawn req inv reg (err e) = (err err_internal, reg)
created now drawn req inv reg (ok reg') =
    marked now drawn req inv reg' (mark_invite_used req.invite_code now reg')

abbrev pub write_submit : ℕ → Drawn → SubmitRequest → Registry → Result ℕ Invite → Answer RegStatus
write_submit now drawn req reg (err e) = (err e, reg)
write_submit now drawn req reg (ok inv) =
    created now drawn req inv reg (create_register_request (pending_request drawn req) reg)

-- `handleRegisterRequest`, with the tables that its checks see and those that it writes to.
unfoldable pub submit_across : ℕ → Drawn → SubmitRequest → Registry → Registry → Answer RegStatus
submit_across now drawn req seen reg = write_submit now drawn req reg (check_submit now req seen)
