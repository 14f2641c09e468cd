-- ===== src/Registration/Once.antt =====
-- server/api/register.go: an invite is good for one request. The handlers run one after the other.
use mathlib.Core.Path.{subst}
use zt_data_sync.Proto.{err_internal}
use zt_data_sync.Store.Rows.{Db, StoreError, Result, ok, err, Result-cases}
use zt_data_sync.Store.Registry.{
  Invite, RegStatus, RegisterRequest, Registry, is_unused, use_invites, get_invite_by_code,
  create_invite, mark_invite_used, create_register_request, update_register_request,
}
use zt_data_sync.Authn.Tokens.{AuthContext}
use zt_data_sync.Registration.{
  SubmitRequest, Drawn, check_submit, submit_across, write_submit, submitted,
  approve_and_create_user, pending_request, audited, register_request_action,
}
use zt_data_sync.Registration.Admin.{
  CreateInviteRequest, DrawnInvite, handle_create_invite, handle_approve_request,
  handle_reject_request, new_invite, end_approval, reject, approve, display_name,
}
use zt_data_sync.Prelude.{
  ℕ, Bool, true, false, not, Option, none, some, List, [], ◌∷◌, ◌++◌, ◌==◌, ◌≡◌, ◌≤◌, ◌+◌, ◌⊎◌, inl,
  inr, refl, find, any, ap, ◌∙◌, if◌then◌else◌, arith, Bool-cases, ==_iff,
}

pub data Action : Type 0 where
  submit : ℕ → Drawn → SubmitRequest → Action
  invite : ℕ → AuthContext → DrawnInvite → CreateInviteRequest → Action
  approval : ℕ → AuthContext → ℕ → ℕ → ℕ → Action
  rejection : ℕ → AuthContext → ℕ → Action
  elsewhere : (Db → Db) → Action

-- The code of a request that was accepted.
abbrev pub accepted_code : ℕ → Result ℕ RegStatus → Option ℕ
accepted_code c (ok status) = some c
accepted_code c (err e) = none

abbrev pub step : Action → Registry → Option ℕ × Registry
step (submit now drawn req) reg =
    let r = submit_across now drawn req reg reg in (accepted_code req.invite_code r.0, r.1)
step (invite now ac drawn req) reg = (none, (handle_create_invite now ac drawn req reg).1)
step (approval now ac uid name id) reg = (none, (handle_approve_request now ac uid name id reg).1)
step (rejection now ac id) reg = (none, (handle_reject_request now ac id reg).1)
step (elsewhere f) reg = (none, record reg { db = f reg.db })

abbrev pub count_if : ℕ → Option ℕ → ℕ
count_if c none = 0
count_if c (some x) = if x == c then 1 else 0

-- The requests with the code that were accepted.
unfoldable pub accepted : ℕ → List Action → Registry → ℕ
accepted c [] reg = 0
accepted c (a ∷ rest) reg = let r = step a reg in count_if c r.0 + accepted c rest r.1

abbrev used : Option Invite → Bool
used none = false
used (some i) = not (is_unused i)

abbrev spent : ℕ → List Invite → Bool
spent c is = used (find (λ (i : Invite). i.code == c) is)

spent-append :
    (c : ℕ) (is : List Invite) (x : Invite) → spent c is ≡ true → spent c (is ++ (x ∷ [])) ≡ true
spent-append c [] x h = absurd (ground (arith, h))
spent-append c (i ∷ is) x h = ground (arith, h, spent-append c is x)

spent-use_invites :
    (c d t : ℕ) (is : List Invite) → spent c is ≡ true → spent c (use_invites d t is) ≡ true
unfolding use_invites
spent-use_invites c d t [] h = absurd (ground (arith, h))
spent-use_invites c d t (i ∷ is) h = ground (arith, h, spent-use_invites c d t is)

use_invites-spent :
    (c t : ℕ) (is : List Invite)
    → any (λ (i : Invite). i.code == c) is ≡ true
    → spent c (use_invites c t is) ≡ true
unfolding use_invites
use_invites-spent c t [] h = absurd (ground (arith, h))
use_invites-spent c t (i ∷ is) h = ground (arith, h, use_invites-spent c t is)

approve_and_create_user-invites :
    (now uid rid username key name : ℕ) (reg : Registry)
    → (approve_and_create_user now uid rid username key name reg).1.invites ≡ reg.invites
unfolding approve_and_create_user update_register_request
approve_and_create_user-invites now uid rid username key name reg = ground arith

submitted-invites :
    (now : ℕ) (drawn : Drawn) (req : SubmitRequest) (inv : Invite) (reg : Registry)
    → (submitted now drawn req inv reg).1.invites ≡ reg.invites
submitted-invites now drawn req inv reg = ground (
  arith,
  approve_and_create_user-invites now drawn.user_id drawn.request_id req.username req.sm2_public_key
      req.username reg,
)

check_submit-unspent :
    (now : ℕ) (req : SubmitRequest) (reg : Registry) {inv : Invite}
    → check_submit now req reg ≡ ok inv
    → spent req.invite_code reg.invites ≡ false
unfolding check_submit get_invite_by_code
check_submit-unspent now req reg h = ground (arith, h)

mark_invite_used-ok :
    (c t : ℕ) (reg : Registry) {reg' : Registry}
    → mark_invite_used c t reg ≡ ok reg'
    → reg'.invites ≡ use_invites c t reg.invites
unfolding mark_invite_used
mark_invite_used-ok c t reg h = ground (arith, h)

create_register_request-ok :
    (r : RegisterRequest) (reg : Registry) {reg' : Registry}
    → create_register_request r reg ≡ ok reg'
    → (reg'.invites ≡ reg.invites)
      × (any (λ (i : Invite). i.code == r.invite_code) reg.invites ≡ true)
unfolding create_register_request
create_register_request-ok r reg h = (ground (arith, h), ground (arith, h))

-- The writes of a request either leave the invites, or use its invite up.
write_submit-invites :
    (now : ℕ) (drawn : Drawn) (req : SubmitRequest) (reg : Registry) (checked : Result ℕ Invite)
    → let r = write_submit now drawn req reg checked in
      ((r.1.invites ≡ reg.invites) × ((e : ℕ) × (r.0 ≡ err e)))
      ⊎ ((r.1.invites ≡ use_invites req.invite_code now reg.invites)
          × (any (λ (i : Invite). i.code == req.invite_code) reg.invites ≡ true))
write_submit-invites now drawn req reg (err e) = inl (refl, (e, refl))
write_submit-invites now drawn req reg (ok inv) =
    elim (Result-cases (create_register_request (pending_request drawn req) reg)) [
      | inr (e, is) ↦ rw is (inl (refl, (err_internal, refl)))
      | inl (reg', is) ↦
          let (same, there) = create_register_request-ok (pending_request drawn req) reg is in
          elim (Result-cases (mark_invite_used req.invite_code now reg')) [
            | inr (e, failed) ↦ rw (is, failed) (inl (same, (err_internal, refl)))
            | inl (reg'', done) ↦
                rw (is, done)
                  (inr (
                    submitted-invites now drawn req inv
                          (audited now 0 register_request_action reg'')
                        ∙ mark_invite_used-ok req.invite_code now reg' done
                        ∙ ap (use_invites req.invite_code now) same,
                    there,
                  ))
          ]
    ]

submit-keeps :
    (c now : ℕ) (drawn : Drawn) (req : SubmitRequest) (reg : Registry)
    → spent c reg.invites ≡ true
    → spent c (submit_across now drawn req reg reg).1.invites ≡ true
unfolding submit_across
submit-keeps c now drawn req reg h =
    elim (write_submit-invites now drawn req reg (check_submit now req reg)) [
      | inl (same, failed) ↦ rw same h
      | inr (marks, there) ↦ rw marks (spent-use_invites c req.invite_code now reg.invites h)
    ]

submit-accepted :
    (now : ℕ) (drawn : Drawn) (req : SubmitRequest) (reg : Registry) {status : RegStatus}
    → (submit_across now drawn req reg reg).0 ≡ ok status
    → (spent req.invite_code reg.invites ≡ false)
      × (spent req.invite_code (submit_across now drawn req reg reg).1.invites ≡ true)
unfolding submit_across
submit-accepted now drawn req reg {status} h = (
  elim (Result-cases (check_submit now req reg)) [
    | inr (e, is) ↦ absurd (ground (arith, is, h))
    | inl (inv, is) ↦ check_submit-unspent now req reg is
  ],
  elim (write_submit-invites now drawn req reg (check_submit now req reg)) [
    | inl (same, (e, failed)) ↦ absurd (ground (arith, failed, h))
    | inr (marks, there) ↦ rw marks (use_invites-spent req.invite_code now reg.invites there)
  ],
)

invite-keeps :
    (c now : ℕ) (ac : AuthContext) (drawn : DrawnInvite) (req : CreateInviteRequest)
    (reg : Registry)
    → spent c reg.invites ≡ true
    → spent c (handle_create_invite now ac drawn req reg).1.invites ≡ true
unfolding handle_create_invite create_invite
invite-keeps c now ac drawn req reg h =
    ground (arith, h, spent-append c reg.invites (new_invite now ac drawn req) h)

end_approval-invites :
    (now : ℕ) (ac : AuthContext) (id : ℕ) (r : Result StoreError (Unit {0}) × Registry)
    → (end_approval now ac id r).1.invites ≡ r.1.invites
unfolding update_register_request
end_approval-invites now ac id (err e, reg) = refl
end_approval-invites now ac id (ok u, reg) = ground arith

approve-invites :
    (now : ℕ) (ac : AuthContext) (uid name : ℕ) (reg : Registry) (found : Result ℕ RegisterRequest)
    → (approve now ac uid name reg found).1.invites ≡ reg.invites
approve-invites now ac uid name reg (err e) = refl
approve-invites now ac uid name reg (ok r) =
    end_approval-invites now ac r.id
      (approve_and_create_user now uid r.id r.username r.sm2_public_key (display_name name r) reg)
    ∙ approve_and_create_user-invites now uid r.id r.username r.sm2_public_key (display_name name r)
        reg

reject-invites :
    (now : ℕ) (ac : AuthContext) (reg : Registry) (found : Result ℕ RegisterRequest)
    → (reject now ac reg found).1.invites ≡ reg.invites
unfolding update_register_request
reject-invites now ac reg (err e) = refl
reject-invites now ac reg (ok r) = ground arith

step-keeps :
    (c : ℕ) (a : Action) (reg : Registry)
    → spent c reg.invites ≡ true
    → spent c (step a reg).1.invites ≡ true
unfolding handle_approve_request handle_reject_request
step-keeps c (submit now drawn req) reg h = submit-keeps c now drawn req reg h
step-keeps c (invite now ac drawn req) reg h = invite-keeps c now ac drawn req reg h
step-keeps c (approval now ac uid name id) reg h = rw (approve-invites now ac uid name reg _) h
step-keeps c (rejection now ac id) reg h = rw (reject-invites now ac reg _) h
step-keeps c (elsewhere f) reg h = h

-- A step that accepts a request with the code finds its invite unspent and leaves it spent.
step-accepts :
    (c : ℕ) (a : Action) (reg : Registry)
    → (count_if c (step a reg).0 ≡ 0)
      ⊎ ((count_if c (step a reg).0 ≡ 1)
          × (spent c reg.invites ≡ false)
          × (spent c (step a reg).1.invites ≡ true))
step-accepts c (submit now drawn req) reg = elim (Bool-cases (req.invite_code == c)) [
  | inr other ↦ inl (ground (arith, other))
  | inl same ↦ elim (Result-cases (submit_across now drawn req reg reg).0) [
    | inr (e, is) ↦ inl (ground (arith, is))
    | inl (status, is) ↦
        let (before, after) = submit-accepted now drawn req reg is in
        let me : req.invite_code ≡ c = (==_iff req.invite_code c).0 same in
        inr (
          ground (arith, is, same),
          subst (λ (n : ℕ). spent n reg.invites ≡ false) me before,
          subst (λ (n : ℕ). spent n (submit_across now drawn req reg reg).1.invites ≡ true) me
              after,
        )
  ]
]
step-accepts c (invite now ac drawn req) reg = inl refl
step-accepts c (approval now ac uid name id) reg = inl refl
step-accepts c (rejection now ac id) reg = inl refl
step-accepts c (elsewhere f) reg = inl refl

accepted-spent :
    (c : ℕ) (actions : List Action) (reg : Registry)
    → spent c reg.invites ≡ true
    → accepted c actions reg ≡ 0
unfolding accepted
accepted-spent c [] reg h = refl
accepted-spent c (a ∷ rest) reg h =
    let ih = accepted-spent c rest (step a reg).1 (step-keeps c a reg h) in
    elim (step-accepts c a reg) [
      | inl quiet ↦ omega arith
      | inr (one, before, after) ↦ absurd (ground (arith, before, h))
    ]

-- At most one request with a given code is accepted, whatever requests, invites and reviews follow
-- one another, where the driver may fail anywhere and whatever other handlers write to the tables of
-- users and devices.
pub accepted_once : (c : ℕ) (actions : List Action) (reg : Registry) → accepted c actions reg ≤ 1
unfolding accepted
accepted_once c [] reg = omega arith
accepted_once c (a ∷ rest) reg = elim (step-accepts c a reg) [
  | inl quiet ↦ let ih = accepted_once c rest (step a reg).1 in omega arith
  | inr (one, before, after) ↦
      let none_later = accepted-spent c rest (step a reg).1 after in omega arith
]
