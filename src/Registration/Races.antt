-- ===== src/Registration/Races.antt =====
-- server/api/register.go: two requests with one invite at the same time.
use zt_data_sync.Store.Rows.{Stmt, ok}
use zt_data_sync.Store.Registry.{
  Invite, RegStatus, RegisterRequest, Registry, use_invites, get_invite_by_code,
  create_register_request, mark_invite_used,
}
use zt_data_sync.Authn.Refresh.{record_actor-tables}
use zt_data_sync.Registration.{
  SubmitRequest, Drawn, check_submit, submit_across, write_submit, pending_request,
  register_request_action,
}
use zt_data_sync.Registration.Reviews.{any-append}
use zt_data_sync.Prelude.{
  ℕ, Bool, true, false, List, [], ◌∷◌, ◌++◌, ◌==◌, ◌≡◌, ◌≢◌, some, refl, find, any, ap, ◌∙◌, inl,
  inr, arith, Option-cases, Bool-cases,
}

abbrev pub has_code : ℕ → List Invite → Bool
has_code c is = any (λ (i : Invite). i.code == c) is

abbrev pub has_request : ℕ → List RegisterRequest → Bool
has_request id rs = any (λ (r : RegisterRequest). r.id == id) rs

has_code-of_find :
    (c : ℕ) (is : List Invite) {inv : Invite}
    → find (λ (i : Invite). i.code == c) is ≡ some inv
    → has_code c is ≡ true
has_code-of_find c [] h = absurd (ground (arith, h))
has_code-of_find c (i ∷ is) {inv} h = elim (Bool-cases (i.code == c)) [
  | inl same ↦ ground (arith, same)
  | inr other ↦ ground (arith, other, has_code-of_find c is {inv = inv} (ground (arith, other, h)))
]

check_submit-has_code :
    (now : ℕ) (req : SubmitRequest) (reg : Registry) {inv : Invite}
    → check_submit now req reg ≡ ok inv
    → has_code req.invite_code reg.invites ≡ true
unfolding check_submit get_invite_by_code
check_submit-has_code now req reg h =
    elim (Option-cases (find (λ (i : Invite). i.code == req.invite_code) reg.invites)) [
      | inl gone ↦ absurd (ground (arith, gone, h))
      | inr (i, found) ↦ has_code-of_find req.invite_code reg.invites found
    ]

has_code-use_invites :
    (c d t : ℕ) (is : List Invite) → has_code c (use_invites d t is) ≡ has_code c is
unfolding use_invites
has_code-use_invites c d t [] = refl
has_code-use_invites c d t (i ∷ is) = ground (arith, has_code-use_invites c d t is)

-- What an accepted request leaves.
record Submitted (now : ℕ) (d : Drawn) (req : SubmitRequest) (before after : Registry)
    : Type 0 where
  requests : after.requests ≡ before.requests ++ (pending_request d req ∷ [])
  invites : after.invites ≡ use_invites req.invite_code now before.invites
  no_faults : (s : Stmt) → after.db.fails s ≡ false

write_submit-Submitted :
    (now : ℕ) (d : Drawn) (req : SubmitRequest) (inv : Invite) (reg : Registry)
    → ((s : Stmt) → reg.db.fails s ≡ false)
    → inv.auto_approve ≢ 1
    → has_code req.invite_code reg.invites ≡ true
    → has_request d.request_id reg.requests ≡ false
    → ((write_submit now d req reg (ok inv)).0 ≡ ok RegStatus.pending)
      × Submitted now d req reg (write_submit now d req reg (ok inv)).1
unfolding create_register_request mark_invite_used
write_submit-Submitted now d req inv reg runs manual code fresh =
    let (devices, users, fails) = record_actor-tables now 0 0 register_request_action reg.db in
    elim (Bool-cases (inv.auto_approve == 1)) [
      | inl auto ↦ absurd (manual (ground (arith, auto)))
      | inr other ↦
          rw (runs Stmt.create_request, fresh, code, runs Stmt.mark_invite, other)
            (
              refl,
              record {
                requests = refl;
                invites = refl;
                no_faults = λ s. ap (λ (f : Stmt → Bool). f s) fails ∙ runs s;
              },
            )
    ]

-- Two requests with one invite, which both run their checks before either writes, are both
-- accepted and stored, where the driver runs every statement, the invite wants a review and the
-- drawn identifiers are free: the use of the invite is checked and marked in separate statements,
-- and the mark does not look at whether there was one.
pub submit_race :
    (now later : ℕ) (d d' : Drawn) (req req' : SubmitRequest) (reg : Registry) (inv : Invite)
    → ((s : Stmt) → reg.db.fails s ≡ false)
    → check_submit now req reg ≡ ok inv
    → check_submit later req' reg ≡ ok inv
    → inv.auto_approve ≢ 1
    → has_request d.request_id reg.requests ≡ false
    → has_request d'.request_id reg.requests ≡ false
    → d.request_id ≢ d'.request_id
    → let one = submit_across now d req reg reg in
      let two = submit_across later d' req' reg one.1 in
      (one.0 ≡ ok RegStatus.pending)
      × (two.0 ≡ ok RegStatus.pending)
      × (two.1.requests
          ≡ (reg.requests ++ (pending_request d req ∷ [])) ++ (pending_request d' req' ∷ []))
unfolding submit_across
submit_race now later d d' req req' reg inv runs good good' manual free free' ids =
    let code = check_submit-has_code now req reg good in
    let code' = check_submit-has_code later req' reg good' in
    let (done, left) = write_submit-Submitted now d req inv reg runs manual code free in
    let reg' = (write_submit now d req reg (ok inv)).1 in
    let still =
      ap (has_code req'.invite_code) left.invites
      ∙ has_code-use_invites req'.invite_code req.invite_code now reg.invites
      ∙ code' in
    let unused =
      ap (has_request d'.request_id) left.requests
      ∙ any-append (λ (r : RegisterRequest). r.id == d'.request_id) reg.requests
          (pending_request d req) free' (ground (arith, ids)) in
    let (done', left') =
      write_submit-Submitted later d' req' inv reg' left.no_faults manual still unused in
    rw (good, good')
      (
        done,
        done',
        left'.requests
            ∙ ap (λ (rs : List RegisterRequest). rs ++ (pending_request d' req' ∷ []))
                left.requests,
      )
