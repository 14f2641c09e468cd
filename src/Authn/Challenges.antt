-- ===== src/Authn/Challenges.antt =====
-- server/authn/service.go: what a challenge is good for.
use mathlib.Core.Path.{subst}
use zt_data_sync.Prelude.Assoc.{
  lookup, put, without, lookup-put, lookup-without, AtMostOnce, AtMostOnce-keep_values,
  AtMostOnce-without, AtMostOnce-put_other, lookup-of_keep_values,
}
use zt_data_sync.Store.Rows.{User, Db, StoreError, Result, ok, err, Result-cases}
use zt_data_sync.Store.Queries.{get_user_by_username}
use zt_data_sync.Proto.{err_user_revoked}
use zt_data_sync.Authn.{
  code, other, Crypto, Service, Fresh, PendingChallenge, AuthnError, BootstrapRequest, bootstrap,
  new_service, challenge_ttl,
}
use zt_data_sync.Authn.Devices.{
  DeviceChallengeResponse, DeviceRegisterRequest, DeviceRegisterResponse, create_challenge,
  clean_challenges, unexpired, unknown_user, register_device, register_with, register_user,
}
use zt_data_sync.Store.Queries.{is_active}
use zt_data_sync.Authn.Runs.{
  Action, Event, Held, run, step, follows, held_after, may_follow, answers,
}
use zt_data_sync.Prelude.{
  ℕ, true, false, Option, none, some, List, [], ◌∷◌, ◌+◌, ◌==◌, ◌≡◌, ◌⊎◌, inl, inr, refl, ltb,
  length, if◌then◌else◌, sym, ==_iff, arith, Bool-cases, Option-cases,
}

-- A pending challenge is one that the log has as issued and not spent.
record Known (username : ℕ) (pcs : List (ℕ × PendingChallenge)) (held : Held) : Type 0 where
  once : AtMostOnce username pcs
  pending :
      (pc : PendingChallenge)
      → lookup username pcs ≡ some pc
      → (t : ℕ) × (held ≡ some (t, pc.challenge)) × (pc.expires_at ≡ t + challenge_ttl)

register_with-challenges :
    (c : Crypto) (fresh : Fresh) (req : DeviceRegisterRequest) (u : User) (s : Service)
    (random : Option ℕ)
    → (register_with c fresh req u s random).1.challenges ≡ s.challenges
register_with-challenges c fresh req u s none = refl
register_with-challenges c fresh req u s (some token) = ground arith

register_user-challenges :
    (c : Crypto) (fresh : Fresh) (req : DeviceRegisterRequest) (challenge : ℕ) (s : Service)
    (found : Result StoreError User)
    → (register_user c fresh req challenge s found).1.challenges ≡ s.challenges
register_user-challenges c fresh req challenge s (err e) = refl
register_user-challenges c fresh req challenge s (ok u) =
    ground (arith, register_with-challenges c fresh req u s fresh.token)

register_device-challenges :
    (c : Crypto) (now : ℕ) (fresh : Fresh) (req : DeviceRegisterRequest) (s : Service)
    → (register_device c now fresh req s).1.challenges ≡ without req.username s.challenges
unfolding register_device
register_device-challenges c now fresh req s =
    elim (Option-cases (lookup req.username s.challenges)) [
      | inl gone ↦ ground (arith, gone)
      | inr (pc, is) ↦
          let s' : Service = record s { challenges = without req.username s.challenges } in
          ground (
            arith,
            is,
            register_user-challenges c fresh req pc.challenge s'
                (get_user_by_username s.db req.username),
          )
    ]

-- A registration that succeeds answers a pending challenge in its time.
register_device-answered :
    (c : Crypto) (now : ℕ) (fresh : Fresh) (req : DeviceRegisterRequest) (s : Service)
    {r : DeviceRegisterResponse}
    → (register_device c now fresh req s).0 ≡ ok r
    → (pc : PendingChallenge) × (lookup req.username s.challenges ≡ some pc)
      × (pc.challenge ≡ req.challenge)
      × (ltb pc.expires_at now ≡ false)
unfolding register_device
register_device-answered c now fresh req s h =
    elim (Option-cases (lookup req.username s.challenges)) [
      | inl gone ↦ absurd (ground (arith, gone, h))
      | inr (pc, is) ↦ (pc, is, ground (arith, is, h), ground (arith, is, h))
    ]

bootstrap-challenges :
    (c : Crypto) (fresh : Fresh) (req : BootstrapRequest) (s : Service)
    → (bootstrap c fresh req s).1.challenges ≡ s.challenges
unfolding bootstrap
bootstrap-challenges c fresh req s = ground arith

abbrev lasting : ℕ → ℕ → PendingChallenge
lasting now challenge = record { challenge = challenge; expires_at = now + challenge_ttl }

-- A challenge is issued and stored for its time, or nothing changes.
create_challenge-cases :
    (now username : ℕ) (random : Option ℕ) (s : Service)
    → ((e : AuthnError) × (create_challenge now username random s ≡ (err e, s)))
      ⊎ ((r : DeviceChallengeResponse) × ((create_challenge now username random s).0 ≡ ok r)
          × ((create_challenge now username random s).1.challenges
              ≡ put username (lasting now r.challenge) (clean_challenges now s.challenges)))
unfolding create_challenge
create_challenge-cases now username random s =
    elim (Result-cases (get_user_by_username s.db username)) [
      | inr (e, is) ↦ inl (unknown_user e, ground (arith, is))
      | inl (u, is) ↦ elim (Bool-cases (is_active u)) [
        | inr revoked ↦ inl (code err_user_revoked, ground (arith, is, revoked))
        | inl here ↦ elim (Option-cases random) [
          | inl failed ↦ inl (other, ground (arith, is, here, failed))
          | inr (x, drawn) ↦ inr (
            record { challenge = x; expires_in = challenge_ttl },
            ground (arith, is, here, drawn),
            ground (arith, is, here, drawn),
          )
        ]
      ]
    ]

Known-clean :
    (now username : ℕ) (pcs : List (ℕ × PendingChallenge)) (held : Held)
    → Known username pcs held
    → Known username (clean_challenges now pcs) held
unfolding clean_challenges
Known-clean now username pcs held k = elim (Bool-cases (ltb 1000 (length pcs))) [
  | inr few ↦ rw few k
  | inl many ↦ rw many (record {
    once = AtMostOnce-keep_values (unexpired now) username pcs k.once;
    pending = λ pc h. k.pending pc (lookup-of_keep_values (unexpired now) username pcs pc k.once h);
  })
]

Known-issued :
    (now username u challenge : ℕ) (pcs : List (ℕ × PendingChallenge)) (held : Held)
    → Known username pcs held
    → Known username
        (put u (lasting now challenge) pcs)
        (held_after username (Event.issued u now challenge) held)
Known-issued now username u challenge pcs held k = record {
  once = AtMostOnce-put_other u username (lasting now challenge) pcs k.once;
  pending = λ pc h.
      let law = lookup-put u username (lasting now challenge) pcs in
      elim (Bool-cases (u == username)) [
        | inl same ↦ (now, ground (arith, same, law, h), ground (arith, same, law, h))
        | inr different ↦
            let (t, is, ends) = k.pending pc (ground (arith, different, law, h)) in
            (t, ground (arith, different, is), ends)
      ];
}

-- An attempt of a user leaves nothing of the challenge.
Known-spent :
    (username u : ℕ) (pcs : List (ℕ × PendingChallenge)) (held : Held)
    → Known username pcs held
    → Known username (without u pcs) (if u == username then none else held)
Known-spent username u pcs held k = record {
  once = AtMostOnce-without u username pcs k.once;
  pending = λ pc h.
      let law = lookup-without u username pcs in
      elim (Bool-cases (u == username)) [
        | inl same ↦ absurd (ground (arith, same, law, h))
        | inr different ↦
            let (t, is, ends) = k.pending pc (ground (arith, different, law, h)) in
            (t, ground (arith, different, is), ends)
      ];
}

Follows : Crypto → ℕ → Action → Service → Held → Type 0
Follows c username a s held =
    (may_follow username (step c a s).0 held ≡ true)
    × Known username (step c a s).1.challenges (held_after username (step c a s).0 held)

ask-Follows :
    (c : Crypto) (username now u : ℕ) (random : Option ℕ) (s : Service) (held : Held)
    → Known username s.challenges held
    → Follows c username (Action.ask now u random) s held
unfolding Follows
ask-Follows c username now u random s held k = elim (create_challenge-cases now u random s) [
  | inl (e, is) ↦ rw is (refl, k)
  | inr (r, is, stored) ↦
      rw (is, stored)
        (
          refl,
          Known-issued now username u r.challenge (clean_challenges now s.challenges) held
              (Known-clean now username s.challenges held k),
        )
]

-- A registration that succeeds answers what its user holds.
register_device-answers :
    (c : Crypto) (now : ℕ) (fresh : Fresh) (req : DeviceRegisterRequest) (s : Service) (held : Held)
    {r : DeviceRegisterResponse}
    → Known req.username s.challenges held
    → (register_device c now fresh req s).0 ≡ ok r
    → answers held now req.challenge ≡ true
register_device-answers c now fresh req s held k h =
    let (pc, found, same, in_time) = register_device-answered c now fresh req s h in
    let (t, is, ends) = k.pending pc found in rw is (ground (arith, same, in_time, ends))

enroll-Follows :
    (c : Crypto) (username now : ℕ) (fresh : Fresh) (req : DeviceRegisterRequest) (s : Service)
    (held : Held)
    → Known username s.challenges held
    → Follows c username (Action.enroll now fresh req) s held
unfolding Follows
enroll-Follows c username now fresh req s held k =
    let left = Known-spent username req.username s.challenges held k in
    let gone = register_device-challenges c now fresh req s in
    elim (Result-cases (register_device c now fresh req s).0) [
      | inr (e, is) ↦ rw (is, gone) (refl, left)
      | inl (r, is) ↦
          rw (is, gone)
            (
              elim (Bool-cases (req.username == username)) [
                | inr different ↦ ground (arith, different)
                | inl same ↦
                    let me : username ≡ req.username =
                      sym ((==_iff req.username username).0 same) in
                    let k' = subst (λ (n : ℕ). Known n s.challenges held) me k in
                    ground (arith, same, register_device-answers c now fresh req s held k' is)
              ],
              left,
            )
    ]

step-Follows :
    (c : Crypto) (username : ℕ) (a : Action) (s : Service) (held : Held)
    → Known username s.challenges held
    → Follows c username a s held
unfolding Follows new_service
step-Follows c username (Action.boot fresh req) s held k =
    elim (Result-cases (bootstrap c fresh req s).0) [
      | inl (r, is) ↦ rw (is, bootstrap-challenges c fresh req s) (refl, k)
      | inr (e, is) ↦ rw (is, bootstrap-challenges c fresh req s) (refl, k)
    ]
step-Follows c username (Action.ask now u random) s held k =
    ask-Follows c username now u random s held k
step-Follows c username (Action.enroll now fresh req) s held k =
    enroll-Follows c username now fresh req s held k
step-Follows c username (Action.elsewhere f) s held k = (refl, k)
step-Follows c username (Action.restart bootstrap_code) s held k =
    (refl, record { once = tt; pending = λ pc h. absurd (ground (arith, h)) })

run-Follows :
    (c : Crypto) (username : ℕ) (actions : List Action) (s : Service) (held : Held)
    → Known username s.challenges held
    → follows username (run c actions s) held ≡ true
unfolding run follows Follows
run-Follows c username [] s held k = refl
run-Follows c username (a ∷ rest) s held k =
    let (may, k') = step-Follows c username a s held k in
    rw may (run-Follows c username rest (step c a s).1 (held_after username (step c a s).0 held) k')

-- In each run of a new service, a device is registered only with the challenge that its user was
-- issued last, within the 300 seconds of it, and with no attempt since, successful or not: whatever
-- the calls, their order and their random values, what other requests write, where the driver
-- fails, and across restarts.
pub registrations_follow :
    (c : Crypto) (username : ℕ) (actions : List Action) (db : Db) (bootstrap_code : ℕ)
    → follows username (run c actions (new_service db bootstrap_code)) none ≡ true
unfolding new_service
registrations_follow c username actions db bootstrap_code =
    run-Follows c username actions (new_service db bootstrap_code) none
      (record { once = tt; pending = λ pc h. absurd (ground (arith, h)) })
