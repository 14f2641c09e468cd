-- ===== src/Registration/Reviews.antt =====
-- server/api/register.go and admin_invites.go: requests at the same time, and their review.

use zt_data_sync.Store.Rows.{User, Db, Stmt, ok}
use zt_data_sync.Store.Queries.{get_user_by_username, has_username}
use zt_data_sync.Store.Tx.{with_tx, create_user}
use zt_data_sync.Store.Registry.{
  RegStatus, RegisterRequest, Registry, review_all, get_register_request_by_id,
  update_register_request,
}
use zt_data_sync.Authn.Tokens.{AuthContext}
use zt_data_sync.Authn.Refresh.{record_actor-tables}
use zt_data_sync.Registration.{approve_and_create_user, new_user, create_user_action}
use zt_data_sync.Registration.Admin.{handle_approve_request, pending_by_id, display_name}
use zt_data_sync.Prelude.{
  ℕ, Bool, false, none, List, [], ◌∷◌, ◌++◌, ◌==◌, ◌≡◌, ◌≢◌, refl, find, any, ap, ◌∙◌, arith,
}

pub any-append :
    {A : Type 0} (p : A → Bool) (xs : List A) (x : A)
    → any p xs ≡ false
    → p x ≡ false
    → any p (xs ++ (x ∷ [])) ≡ false
any-append p [] x h k = ground (arith, k)
any-append p (y ∷ ys) x h k = ground (arith, h, any-append p ys x (ground (arith, h)) k)

find-review_all :
    (id other by t : ℕ) (status : RegStatus) (rs : List RegisterRequest)
    → other ≢ id
    → find (λ (r : RegisterRequest). r.id == other) (review_all id status by t rs)
      ≡ find (λ (r : RegisterRequest). r.id == other) rs
unfolding review_all
find-review_all id other by t status [] ne = refl
find-review_all id other by t status (r ∷ rs) ne =
    ground (arith, ne, find-review_all id other by t status rs ne)

-- The account that a request asks for can be opened.
pub record CanOpen (reg : Registry) (r : RegisterRequest) (uid : ℕ) : Type 0 where
  pub waiting : pending_by_id reg r.id ≡ ok r
  pub no_user : any (has_username r.username) reg.db.users ≡ false
  pub fresh_id : any (λ (u : User). u.id == uid) reg.db.users ≡ false

abbrev pub opened : ℕ → ℕ → RegisterRequest → User
opened uid name r = new_user uid r.username r.sm2_public_key (display_name name r)

find-none : {A : Type 0} (p : A → Bool) (xs : List A) → any p xs ≡ false → find p xs ≡ none
find-none p [] h = refl
find-none p (x ∷ xs) h = ground (arith, h, find-none p xs (ground (arith, h)))

create_user-opens :
    (u : User) (db : Db)
    → ((s : Stmt) → db.fails s ≡ false)
    → any (has_username u.username) db.users ≡ false
    → any (λ (x : User). x.id == u.id) db.users ≡ false
    → with_tx (create_user u) db ≡ (ok tt, record db { users = db.users ++ (u ∷ []) })
unfolding with_tx create_user
create_user-opens u db runs no_user fresh_id =
    ground
      (arith, runs Stmt.begin_tx, runs Stmt.create_user, runs Stmt.commit_tx, no_user, fresh_id)

approve_and_create_user-opens :
    (now uid rid username key name : ℕ) (reg : Registry)
    → ((s : Stmt) → reg.db.fails s ≡ false)
    → any (has_username username) reg.db.users ≡ false
    → any (λ (x : User). x.id == uid) reg.db.users ≡ false
    → approve_and_create_user now uid rid username key name reg ≡ (
      ok tt,
      record reg {
        db = record reg.db { users = reg.db.users ++ (new_user uid username key name ∷ []) };
        requests = review_all rid RegStatus.approved 0 now reg.requests;
      },
    )
unfolding approve_and_create_user update_register_request
approve_and_create_user-opens now uid rid username key name reg runs no_user fresh_id = ground (
  arith,
  create_user-opens (new_user uid username key name) reg.db runs no_user fresh_id,
  runs Stmt.update_request,
)

-- What an approval leaves.
record Approved (now by : ℕ) (r : RegisterRequest) (u : User) (before after : Registry)
    : Type 0 where
  users : after.db.users ≡ before.db.users ++ (u ∷ [])
  requests :
      after.requests
      ≡ review_all r.id RegStatus.approved by now
          (review_all r.id RegStatus.approved 0 now before.requests)
  no_faults : (s : Stmt) → after.db.fails s ≡ false

handle_approve_request-Approved :
    (now : ℕ) (ac : AuthContext) (uid name : ℕ) (r : RegisterRequest) (reg : Registry)
    → ((s : Stmt) → reg.db.fails s ≡ false)
    → CanOpen reg r uid
    → ((handle_approve_request now ac uid name r.id reg).0 ≡ ok RegStatus.approved)
      × Approved now ac.user.id r
          (opened uid name r)
          reg
          (handle_approve_request now ac uid name r.id reg).1
unfolding handle_approve_request get_user_by_username update_register_request
handle_approve_request-Approved now ac uid name r reg runs can =
    let gone = find-none (has_username r.username) reg.db.users can.no_user in
    let ran =
      approve_and_create_user-opens now uid r.id r.username r.sm2_public_key (display_name name r)
        reg runs can.no_user can.fresh_id in
    let db' : Db = record reg.db { users = reg.db.users ++ (opened uid name r ∷ []) } in
    let (devices, users, fails) =
      record_actor-tables now ac.device.id ac.user.id create_user_action db' in
    rw (can.waiting, runs Stmt.get_username, gone, ran, runs Stmt.update_request)
      (
        refl,
        record {
          users = users;
          requests = refl;
          no_faults = λ s. ap (λ (f : Stmt → Bool). f s) fails ∙ runs s;
        },
      )

pending_by_id-other :
    (id other by t t' : ℕ) (before after : Registry) {r : RegisterRequest}
    → other ≢ id
    → ((s : Stmt) → before.db.fails s ≡ false)
    → ((s : Stmt) → after.db.fails s ≡ false)
    → after.requests
      ≡ review_all id RegStatus.approved by t
          (review_all id RegStatus.approved 0 t' before.requests)
    → pending_by_id before other ≡ ok r
    → pending_by_id after other ≡ ok r
unfolding get_register_request_by_id
pending_by_id-other id other by t t' before after {r} ne runs runs' is h =
    let same =
      ap (find (λ (x : RegisterRequest). x.id == other)) is
      ∙ find-review_all id other by t RegStatus.approved
          (review_all id RegStatus.approved 0 t' before.requests) ne
      ∙ find-review_all id other 0 t' RegStatus.approved before.requests ne in
    rw (runs' Stmt.get_request, same) (rw⁻¹ (runs Stmt.get_request) h)

-- Two pending requests of different users are both approved, one after the other, where the driver
-- runs every statement, no account has their user names and the drawn identifiers are free, and
-- both accounts are opened, whatever their public keys are: with the same key in both requests, two
-- accounts share it.
pub approvals-open :
    (now later : ℕ) (ac ac' : AuthContext) (uid uid' name name' : ℕ) (r r' : RegisterRequest)
    (reg : Registry)
    → ((s : Stmt) → reg.db.fails s ≡ false)
    → CanOpen reg r uid
    → CanOpen reg r' uid'
    → r.username ≢ r'.username
    → r'.id ≢ r.id
    → uid ≢ uid'
    → let one = handle_approve_request now ac uid name r.id reg in
      let two = handle_approve_request later ac' uid' name' r'.id one.1 in
      (one.0 ≡ ok RegStatus.approved)
      × (two.0 ≡ ok RegStatus.approved)
      × (two.1.db.users ≡ (reg.db.users ++ (opened uid name r ∷ [])) ++ (opened uid' name' r' ∷ []))
approvals-open now later ac ac' uid uid' name name' r r' reg runs can can' users ids uids =
    let u = opened uid name r in
    let (done, left) = handle_approve_request-Approved now ac uid name r reg runs can in
    let reg' = (handle_approve_request now ac uid name r.id reg).1 in
    let still : CanOpen reg' r' uid' = record {
      waiting =
          pending_by_id-other r.id r'.id ac.user.id now now reg reg' ids runs left.no_faults
            left.requests can'.waiting;
      no_user =
          ap (any (has_username r'.username)) left.users
          ∙ any-append (has_username r'.username) reg.db.users u can'.no_user
              (ground (arith, users));
      fresh_id =
          ap (any (λ (x : User). x.id == uid')) left.users
          ∙ any-append (λ (x : User). x.id == uid') reg.db.users u can'.fresh_id
              (ground (arith, uids));
    } in
    let (done', left') =
      handle_approve_request-Approved later ac' uid' name' r' reg' left.no_faults still in
    (
      done,
      done',
      left'.users ∙ ap (λ (us : List User). us ++ (opened uid' name' r' ∷ [])) left.users,
    )
