-- ===== src/Store/Registry.antt =====
-- server/store/store.go and sqlite.go: the invites and the requests for registration, the tables of
-- server/store/migrations/0003_invites_registration.sql. Their statements run outside of a
-- transaction, and pass the driver's errors on as they are.
use zt_data_sync.Store.Rows.{Stmt, Db, StoreError, driver, Result, ok, err}
use zt_data_sync.Store.Queries.{query_row}
use zt_data_sync.Prelude.{
  ℕ, Bool, true, false, ◌&&◌, List, [], ◌∷◌, ◌++◌, ◌==◌, if◌then◌else◌, find, any,
}

pub data InviteStatus : Type 0 where
  unused used : InviteStatus

pub data RegStatus : Type 0 where
  pending approved rejected : RegStatus

pub record Invite : Type 0 where
  pub id : ℕ
  pub code : ℕ
  pub username : ℕ
  pub auto_approve : ℕ
  pub status : InviteStatus
  pub expires_at : ℕ
  pub created_by : ℕ
  pub used_at : ℕ

pub record RegisterRequest : Type 0 where
  pub id : ℕ
  pub invite_code : ℕ
  pub username : ℕ
  pub sm2_public_key : ℕ
  pub device_name : ℕ
  pub ip : ℕ
  pub status : RegStatus
  pub reviewed_by : ℕ
  pub reviewed_at : ℕ

-- These tables, and the others.
pub record Registry : Type 0 where
  pub db : Db
  pub invites : List Invite
  pub requests : List RegisterRequest

-- A statement's effect, unless the driver fails to run it.
abbrev pub write : Bool → Result StoreError Registry → Result StoreError Registry
write true r = err driver
write false r = r

unfoldable pub get_invite_by_code : Registry → ℕ → Result StoreError Invite
get_invite_by_code reg c =
    query_row (reg.db.fails Stmt.get_invite) (find (λ (i : Invite). i.code == c) reg.invites)

-- `invites.code` is UNIQUE, and `id` the primary key.
unfoldable pub create_invite : Invite → Registry → Result StoreError Registry
create_invite inv reg = write (reg.db.fails Stmt.create_invite) (
    if any (λ (i : Invite). i.code == inv.code) reg.invites
    then err driver
    else if any (λ (i : Invite). i.id == inv.id) reg.invites
    then err driver
    else ok (record reg { invites = reg.invites ++ (inv ∷ []) }))

abbrev pub is_unused : Invite → Bool
is_unused i = elim i.status [ InviteStatus.unused ↦ true | InviteStatus.used ↦ false ]

abbrev pub use_invite : ℕ → ℕ → Invite → Invite
use_invite c t i =
    if (i.code == c) && is_unused i then record i { status = InviteStatus.used; used_at = t } else i

unfoldable pub use_invites : ℕ → ℕ → List Invite → List Invite
use_invites c t [] = []
use_invites c t (i ∷ is) = use_invite c t i ∷ use_invites c t is

unfoldable pub mark_invite_used : ℕ → ℕ → Registry → Result StoreError Registry
mark_invite_used c t reg =
    write (reg.db.fails Stmt.mark_invite)
      (ok (record reg { invites = use_invites c t reg.invites }))

unfoldable pub get_register_request_by_id : Registry → ℕ → Result StoreError RegisterRequest
get_register_request_by_id reg id =
    query_row (reg.db.fails Stmt.get_request)
      (find (λ (r : RegisterRequest). r.id == id) reg.requests)

-- `invite_code` refers to an invite.
unfoldable pub create_register_request : RegisterRequest → Registry → Result StoreError Registry
create_register_request r reg = write (reg.db.fails Stmt.create_request) (
    if any (λ (x : RegisterRequest). x.id == r.id) reg.requests
    then err driver
    else if any (λ (i : Invite). i.code == r.invite_code) reg.invites
    then ok (record reg { requests = reg.requests ++ (r ∷ []) })
    else err driver)

abbrev pub review : ℕ → RegStatus → ℕ → ℕ → RegisterRequest → RegisterRequest
review id status by t r =
    if r.id == id then record r { status = status; reviewed_by = by; reviewed_at = t } else r

unfoldable pub review_all : ℕ → RegStatus → ℕ → ℕ → List RegisterRequest → List RegisterRequest
review_all id status by t [] = []
review_all id status by t (r ∷ rs) = review id status by t r ∷ review_all id status by t rs

unfoldable pub update_register_request :
    ℕ → RegStatus → ℕ → ℕ → Registry → Result StoreError Registry
update_register_request id status by t reg =
    write (reg.db.fails Stmt.update_request)
      (ok (record reg { requests = review_all id status by t reg.requests }))
