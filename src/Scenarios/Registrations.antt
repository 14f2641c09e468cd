-- ===== src/Scenarios/Registrations.antt =====
-- Invites, requests and their review.
use zt_data_sync.Prelude.Int.{pos}
use zt_data_sync.Scenarios.Samples.{base_db, user_of, device_of}
use zt_data_sync.Store.Rows.{ok}
use zt_data_sync.Store.Queries.{get_user_by_username, get_user_by_public_key}
use zt_data_sync.Store.Registry.{
  Invite, InviteStatus, RegStatus, RegisterRequest, Registry, get_invite_by_code,
  get_register_request_by_id, create_invite, create_register_request, mark_invite_used, use_invites,
  update_register_request, review_all,
}
use zt_data_sync.Store.Tx.{with_tx, create_user, insert_audit}
use zt_data_sync.Authn.Tokens.{AuthContext, record_actor}
use zt_data_sync.Registration.{
  SubmitRequest, Drawn, check_submit, submit_across, pending_request, approve_and_create_user,
}
use zt_data_sync.Registration.Admin.{
  handle_approve_request, handle_create_invite, handle_reject_request,
}
use zt_data_sync.Registration.Once.{Action, accepted, accepted_once}
use zt_data_sync.Registration.Reviews.{CanOpen, opened, approvals-open}
use zt_data_sync.Registration.Races.{submit_race}
use zt_data_sync.Prelude.{ℕ, true, List, [], ◌∷◌, ◌++◌, ◌≡◌, ◌≤◌, refl, arith}

abbrev officer : AuthContext
officer = record { device = device_of 70 7 1000; user = user_of 7 }

abbrev empty_registry : Registry
empty_registry = record { db = base_db; invites = []; requests = [] }

abbrev newcomer : SubmitRequest
newcomer = record { invite_code = 900; username = 50; sm2_public_key = 51; device_name = 1; ip = 1 }

abbrev drawn : ℕ → Drawn
drawn n = record { request_id = n; user_id = n }

-- An invite without review, used, and tried again after a rejection of its request.
abbrev story : List Action
story =
    Action.invite 1000 officer (record { id = 1; code = 900 })
      (record { username = 50; auto_approve = true; ttl_days = pos 0 })
    ∷ Action.submit 1001 (drawn 60) newcomer
    ∷ Action.rejection 1002 officer 60
    ∷ Action.submit 1003 (drawn 61) newcomer
    ∷ []

accepted_once_example : accepted 900 story empty_registry ≤ 1
accepted_once_example = accepted_once 900 story empty_registry

abbrev invite_of : ℕ → ℕ → Invite
invite_of code username = record {
  id = code;
  code = code;
  username = username;
  auto_approve = 0;
  status = InviteStatus.unused;
  expires_at = 5000;
  created_by = 7;
  used_at = 0;
}

abbrev invited : Registry
invited = record empty_registry { invites = invite_of 900 50 ∷ [] }

submit_race_example :
    let one = submit_across 1001 (drawn 60) newcomer invited invited in
    let two = submit_across 1001 (drawn 61) newcomer invited one.1 in
    (one.0 ≡ ok RegStatus.pending)
    × (two.0 ≡ ok RegStatus.pending)
    × (two.1.requests
        ≡ ([] ++ (pending_request (drawn 60) newcomer ∷ []))
          ++ (pending_request (drawn 61) newcomer ∷ []))
unfolding check_submit get_invite_by_code get_user_by_public_key get_user_by_username
submit_race_example =
    submit_race 1001 1001 (drawn 60) (drawn 61) newcomer newcomer invited (invite_of 900 50)
      (λ s. refl) refl refl (omega arith) refl refl (omega arith)

abbrev one_key : ℕ → ℕ → RegisterRequest
one_key n username =
    pending_request (drawn n)
      (record newcomer { invite_code = n; username = username; sm2_public_key = 51 })

abbrev two_waiting : Registry
two_waiting = record empty_registry { requests = one_key 60 50 ∷ one_key 61 52 ∷ [] }

one_key-CanOpen : CanOpen two_waiting (one_key 60 50) 20
unfolding get_register_request_by_id
one_key-CanOpen = record { waiting = refl; no_user = refl; fresh_id = refl }

other_key-CanOpen : CanOpen two_waiting (one_key 61 52) 21
unfolding get_register_request_by_id
other_key-CanOpen = record { waiting = refl; no_user = refl; fresh_id = refl }

approvals-open_example :
    let one = handle_approve_request 2000 officer 20 0 60 two_waiting in
    let two = handle_approve_request 2001 officer 21 0 61 one.1 in
    (one.0 ≡ ok RegStatus.approved)
    × (two.0 ≡ ok RegStatus.approved)
    × (two.1.db.users
        ≡ (base_db.users ++ (opened 20 0 (one_key 60 50) ∷ []))
          ++ (opened 21 0 (one_key 61 52) ∷ []))
approvals-open_example =
    approvals-open 2000 2001 officer officer 20 21 0 0 (one_key 60 50) (one_key 61 52) two_waiting
      (λ s. refl) one_key-CanOpen other_key-CanOpen (omega arith) (omega arith) (omega arith)

story-accepted : accepted 900 story empty_registry ≡ 1
unfolding accepted handle_create_invite create_invite get_user_by_username submit_across
    check_submit get_invite_by_code get_user_by_public_key create_register_request mark_invite_used
    use_invites approve_and_create_user with_tx create_user update_register_request review_all
    record_actor insert_audit handle_reject_request get_register_request_by_id
story-accepted = refl
