-- ===== src/Registration/Admin.antt =====
-- server/api/admin_invites.go: what an administrator does with invites and requests.
use zt_data_sync.Prelude.Int.{ℤ, pos, negsuc}
use zt_data_sync.Proto.{err_bad_request, err_internal}
use zt_data_sync.Store.Rows.{StoreError, User, Result, ok, err, ◌>>=◌}
use zt_data_sync.Store.Queries.{get_user_by_username}
use zt_data_sync.Store.Registry.{
  Invite, InviteStatus, RegStatus, RegisterRequest, Registry, create_invite,
  get_register_request_by_id, update_register_request,
}
use zt_data_sync.Authn.Tokens.{AuthContext, record_event}
use zt_data_sync.Registration.{
  Answer, check, present, absent, approve_and_create_user, or_same, invite_ttl_default,
  create_user_action, create_invite_action, reject_register_action,
}
use zt_data_sync.Prelude.{ℕ, zero, suc, Bool, true, false, some, not, ◌+◌, ◌*◌, ◌==◌, if◌then◌else◌}

pub record CreateInviteRequest : Type 0 where
  pub username : ℕ
  pub auto_approve : Bool
  pub ttl_days : ℤ

-- The identifier and the code of the invite.
pub record DrawnInvite : Type 0 where
  pub id : ℕ
  pub code : ℕ

abbrev pub days_of : ℤ → ℕ
days_of (pos zero) = invite_ttl_default
days_of (pos (suc n)) = suc n
days_of (negsuc n) = invite_ttl_default

abbrev pub bool_to_int : Bool → ℕ
bool_to_int true = 1
bool_to_int false = 0

abbrev pub new_invite : ℕ → AuthContext → DrawnInvite → CreateInviteRequest → Invite
new_invite now ac drawn req = record {
  id = drawn.id;
  code = drawn.code;
  username = req.username;
  auto_approve = bool_to_int req.auto_approve;
  status = InviteStatus.unused;
  expires_at = now + days_of req.ttl_days * 86400;
  created_by = ac.user.id;
  used_at = 0;
}

-- `Record` of the middleware.
abbrev pub recorded : ℕ → AuthContext → ℕ → Registry → Registry
recorded now ac action reg = record reg { db = record_event now (some ac) action reg.db }

abbrev pub end_create_invite :
    ℕ → AuthContext → Invite → Registry → Result StoreError Registry → Answer Invite
end_create_invite now ac inv reg (err e) = (err err_internal, reg)
end_create_invite now ac inv reg (ok reg') = (ok inv, recorded now ac create_invite_action reg')

abbrev pub make_invite : ℕ → AuthContext → Invite → Registry → Result ℕ (Unit {0}) → Answer Invite
make_invite now ac inv reg (err e) = (err e, reg)
make_invite now ac inv reg (ok u) = end_create_invite now ac inv reg (create_invite inv reg)

unfoldable pub handle_create_invite :
    ℕ → AuthContext → DrawnInvite → CreateInviteRequest → Registry → Answer Invite
handle_create_invite now ac drawn req reg =
    make_invite now ac (new_invite now ac drawn req) reg
      (check (not (req.username == 0)) >>= λ _. absent (get_user_by_username reg.db req.username))

abbrev pub is_pending : RegisterRequest → Bool
is_pending r = elim r.status [
  | RegStatus.pending ↦ true
  | RegStatus.approved ↦ false
  | RegStatus.rejected ↦ false
]

-- A lookup that fails counts as no user here.
abbrev pub not_open : Result StoreError User → Result ℕ (Unit {0})
not_open (ok u) = err err_bad_request
not_open (err e) = ok tt

abbrev pub pending_by_id : Registry → ℕ → Result ℕ RegisterRequest
pending_by_id reg id =
    present (get_register_request_by_id reg id) >>= λ r. check (is_pending r) >>= λ _. ok r

abbrev pub display_name : ℕ → RegisterRequest → ℕ
display_name name r = if name == 0 then r.username else name

-- The reviewer's name is written once more; that this fails goes unnoticed.
abbrev pub end_approval :
    ℕ → AuthContext → ℕ → Result StoreError (Unit {0}) × Registry → Answer RegStatus
end_approval now ac id (err e, reg) = (err err_internal, reg)
end_approval now ac id (ok u, reg) = (
  ok RegStatus.approved,
  recorded now ac create_user_action
      (or_same tt (update_register_request id RegStatus.approved ac.user.id now reg) reg).1,
)

abbrev pub approve :
    ℕ → AuthContext → ℕ → ℕ → Registry → Result ℕ RegisterRequest → Answer RegStatus
approve now ac uid name reg (err e) = (err e, reg)
approve now ac uid name reg (ok r) =
    end_approval now ac r.id
      (approve_and_create_user now uid r.id r.username r.sm2_public_key (display_name name r) reg)

-- `uid` is drawn, and `name` is 0 where the body has none.
unfoldable pub handle_approve_request : ℕ → AuthContext → ℕ → ℕ → ℕ → Registry → Answer RegStatus
handle_approve_request now ac uid name id reg =
    approve now ac uid name reg (
      pending_by_id reg id >>= λ r. not_open (get_user_by_username reg.db r.username) >>= λ _. ok r)

abbrev pub end_reject : ℕ → AuthContext → Registry → Result StoreError Registry → Answer RegStatus
end_reject now ac reg (err e) = (err err_internal, reg)
end_reject now ac reg (ok reg') =
    (ok RegStatus.rejected, recorded now ac reject_register_action reg')

abbrev pub reject : ℕ → AuthContext → Registry → Result ℕ RegisterRequest → Answer RegStatus
reject now ac reg (err e) = (err e, reg)
reject now ac reg (ok r) =
    end_reject now ac reg (update_register_request r.id RegStatus.rejected ac.user.id now reg)

unfoldable pub handle_reject_request : ℕ → AuthContext → ℕ → Registry → Answer RegStatus
handle_reject_request now ac id reg = reject now ac reg (pending_by_id reg id)
