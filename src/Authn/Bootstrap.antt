-- ===== src/Authn/Bootstrap.antt =====
-- server/authn/service.go: what keeps the bootstrap from a second success.
use zt_data_sync.Store.Rows.{
  User, Device, Db, Stmt, StoreError, Result, ok, err, Result-cases, bind-ok,
}
use zt_data_sync.Store.Queries.{get_user_count, get_user_by_username}
use zt_data_sync.Store.Tx.{with_tx, then_tx, create_user, create_device}
use zt_data_sync.Proto.{err_bad_bootstrap}
use zt_data_sync.Authn.{
  new_service, Crypto, Service, Fresh, AuthnError, code, other, store, BootstrapRequest,
  BootstrapResponse, bootstrap, bootstrap_tx, first_user, first_device, bootstrap_with,
}
use zt_data_sync.Authn.Devices.{
  create_challenge, register_device, end_register, register_with, register_user, new_device,
  DeviceRegisterRequest,
}
use zt_data_sync.Authn.Runs.{Action, Event, run, step, bootstraps}
use zt_data_sync.Prelude.Assoc.{without, lookup}
use zt_data_sync.Prelude.{
  ℕ, Option, none, some, List, [], ◌∷◌, ◌++◌, ◌≡◌, ◌≤◌, ◌<◌, ◌⊎◌, inl, inr, refl, length, ◌+◌, ◌==◌,
  arith, All, Bool-cases, Option-cases, ◌∙◌,
}

-- A transaction that adds no user leaves as many, and one that succeeds after `create_user` has one.
grow : {A : Type 0} (xs : List A) (x : A) → 0 < length (xs ++ (x ∷ []))
grow [] x = omega arith
grow (y ∷ ys) x = omega arith

create_device-users :
    (d : Device) (db : Db) (r : Unit {0} × Db) → create_device d db ≡ ok r → r.1.users ≡ db.users
unfolding create_device
create_device-users d db r h = ground (arith, h)

create_user-some :
    (u : User) (db : Db) (r : Unit {0} × Db) → create_user u db ≡ ok r → 0 < length r.1.users
unfolding create_user
create_user-some u db r h = ground (arith, h, grow db.users u)

then_tx-ok :
    {A B : Type 0} (f : Db → Result StoreError (A × Db)) (g : Db → Result StoreError (B × Db))
    (db : Db) (r : B × Db)
    → then_tx f g db ≡ ok r
    → (mid : A × Db) × (f db ≡ ok mid) × (g mid.1 ≡ ok r)
then_tx-ok f g db r h = bind-ok (f db) (λ m. g m.1) h

bootstrap_tx-some :
    (fresh : Fresh) (hash : ℕ) (req : BootstrapRequest) (db : Db) (r : Unit {0} × Db)
    → bootstrap_tx fresh hash req db ≡ ok r
    → 0 < length r.1.users
bootstrap_tx-some fresh hash req db r h =
    let (mid, one, two) =
      then_tx-ok (create_user (first_user fresh req)) (create_device (first_device fresh hash req))
        db r h in
    let some_user = create_user-some (first_user fresh req) db mid one in
    let same = create_device-users (first_device fresh hash req) mid.1 r two in
    ground (arith, some_user, same)

-- What a transaction commits is what it computed; otherwise the tables are as they were.
with_tx-cases :
    {A : Type 0} (f : Db → Result StoreError (A × Db)) (db : Db)
    → ((e : StoreError) × (with_tx f db ≡ (err e, db)))
      ⊎ ((r : A × Db) × (f db ≡ ok r) × (with_tx f db ≡ (ok r.0, r.1)))
unfolding with_tx
with_tx-cases f db = elim (Bool-cases (db.fails Stmt.begin_tx)) [
  | inl broken ↦ inl (StoreError.driver, ground (arith, broken))
  | inr runs ↦ elim (Result-cases (f db)) [
    | inr (e, is) ↦ inl (e, ground (arith, runs, is))
    | inl (r, is) ↦ elim (Bool-cases (db.fails Stmt.commit_tx)) [
      | inl lost ↦ inl (StoreError.driver, ground (arith, runs, is, lost))
      | inr kept ↦ inr (r, is, ground (arith, runs, is, kept))
    ]
  ]
]

bootstrap_with-some :
    (c : Crypto) (fresh : Fresh) (req : BootstrapRequest) (s : Service) (random : Option ℕ)
    → ((e : AuthnError) × (bootstrap_with c fresh req s random ≡ (err e, s)))
      ⊎ ((r : BootstrapResponse) × ((bootstrap_with c fresh req s random).0 ≡ ok r)
          × (0 < length (bootstrap_with c fresh req s random).1.db.users))
bootstrap_with-some c fresh req s none = inl (other, refl)
bootstrap_with-some c fresh req s (some token) =
    let f = bootstrap_tx fresh (c.hash_token token) req in
    elim (with_tx-cases f s.db) [
      | inl (e, is) ↦ rw is (inl (store e, refl))
      | inr (r, ran, is) ↦
          rw is (inr (_, refl, bootstrap_tx-some fresh (c.hash_token token) req s.db r ran))
    ]

bootstrap-cases :
    (c : Crypto) (fresh : Fresh) (req : BootstrapRequest) (s : Service)
    → ((e : AuthnError) × (bootstrap c fresh req s ≡ (err e, s)))
      ⊎ ((length s.db.users ≡ 0)
          × (bootstrap c fresh req s ≡ bootstrap_with c fresh req s fresh.token))
unfolding bootstrap get_user_count
bootstrap-cases c fresh req s = elim (Bool-cases s.bootstrap_used) [
  | inl used ↦ inl (code err_bad_bootstrap, ground (arith, used))
  | inr unused ↦ elim (Bool-cases (s.bootstrap_code == req.bootstrap_token)) [
    | inr wrong ↦ inl (code err_bad_bootstrap, ground (arith, unused, wrong))
    | inl right ↦ elim (Bool-cases (s.db.fails Stmt.count_users)) [
      | inl broken ↦ inl (store StoreError.driver, ground (arith, unused, right, broken))
      | inr runs ↦ elim (Bool-cases (length s.db.users == 0)) [
        | inr full ↦ inl (code err_bad_bootstrap, ground (arith, unused, right, runs, full))
        | inl empty ↦ inr (ground (arith, empty), ground (arith, unused, right, runs, empty))
      ]
    ]
  ]
]

-- A call of `Bootstrap` fails and leaves the service, or it found no user and leaves one.
bootstrap-some :
    (c : Crypto) (fresh : Fresh) (req : BootstrapRequest) (s : Service)
    → ((e : AuthnError) × (bootstrap c fresh req s ≡ (err e, s)))
      ⊎ ((r : BootstrapResponse) × ((bootstrap c fresh req s).0 ≡ ok r)
          × (length s.db.users ≡ 0)
          × (0 < length (bootstrap c fresh req s).1.db.users))
bootstrap-some c fresh req s = elim (bootstrap-cases c fresh req s) [
  | inl failed ↦ inl failed
  | inr (empty, is) ↦ elim (bootstrap_with-some c fresh req s fresh.token) [
    | inl (e, failed) ↦ inl (e, is ∙ failed)
    | inr (r, done, grown) ↦ rw is (inr (r, done, empty, grown))
  ]
]

create_challenge-db :
    (now username : ℕ) (random : Option ℕ) (s : Service)
    → (create_challenge now username random s).1.db ≡ s.db
unfolding create_challenge
create_challenge-db now username random s = ground arith

end_register-users :
    (fresh : Fresh) (token : ℕ) (d : Device) (s : Service)
    → (end_register fresh token s (with_tx (create_device d) s.db)).1.db.users ≡ s.db.users
end_register-users fresh token d s = elim (with_tx-cases (create_device d) s.db) [
  | inl (e, is) ↦ rw is refl
  | inr (r, ran, is) ↦ rw is (create_device-users d s.db r ran)
]

register_with-users :
    (c : Crypto) (fresh : Fresh) (req : DeviceRegisterRequest) (u : User) (s : Service)
    (random : Option ℕ)
    → (register_with c fresh req u s random).1.db.users ≡ s.db.users
register_with-users c fresh req u s none = refl
register_with-users c fresh req u s (some token) =
    end_register-users fresh token (new_device fresh (c.hash_token token) req u) s

register_user-users :
    (c : Crypto) (fresh : Fresh) (req : DeviceRegisterRequest) (challenge : ℕ) (s : Service)
    (found : Result StoreError User)
    → (register_user c fresh req challenge s found).1.db.users ≡ s.db.users
register_user-users c fresh req challenge s (err e) = refl
register_user-users c fresh req challenge s (ok u) =
    ground (arith, register_with-users c fresh req u s fresh.token)

register_device-users :
    (c : Crypto) (now : ℕ) (fresh : Fresh) (req : DeviceRegisterRequest) (s : Service)
    → (register_device c now fresh req s).1.db.users ≡ s.db.users
unfolding register_device
register_device-users c now fresh req s = elim (Option-cases (lookup req.username s.challenges)) [
  | inl gone ↦ ground (arith, gone)
  | inr (pc, is) ↦
      let s' : Service = record s { challenges = without req.username s.challenges } in
      ground (
        arith,
        is,
        register_user-users c fresh req pc.challenge s' (get_user_by_username s.db req.username),
      )
]

-- Other requests take no user away.
abbrev pub KeepsUsers : Action → Type 0
KeepsUsers (Action.elsewhere f) = (db : Db) → length db.users ≤ length (f db).users
KeepsUsers a = Unit {0}

step-users :
    (c : Crypto) (a : Action) (s : Service)
    → KeepsUsers a
    → 0 < length s.db.users
    → (0 < length (step c a s).1.db.users) × (bootstraps ((step c a s).0 ∷ []) ≡ 0)
unfolding bootstraps new_service
step-users c (Action.boot fresh req) s keeps h = elim (bootstrap-some c fresh req s) [
  | inl (e, is) ↦ rw is (h, refl)
  | inr (r, is, empty, grown) ↦ absurd (omega arith)
]
step-users c (Action.ask now username random) s keeps h =
    (rw (create_challenge-db now username random s) h, ground arith)
step-users c (Action.enroll now fresh req) s keeps h =
    (rw (register_device-users c now fresh req s) h, ground arith)
step-users c (Action.elsewhere f) s keeps h = let k = keeps s.db in (omega arith, refl)
step-users c (Action.restart bootstrap_code) s keeps h = (h, refl)

bootstraps-cons :
    (e : Event) (es : List Event) → bootstraps (e ∷ es) ≡ bootstraps (e ∷ []) + bootstraps es
unfolding bootstraps
bootstraps-cons e es = ground arith

bootstraps-one : (e : Event) → bootstraps (e ∷ []) ≤ 1
unfolding bootstraps
bootstraps-one e = ground arith

no_bootstrap :
    (c : Crypto) (actions : List Action) (s : Service)
    → All KeepsUsers actions
    → 0 < length s.db.users
    → bootstraps (run c actions s) ≡ 0
unfolding run bootstraps
no_bootstrap c [] s keeps h = refl
no_bootstrap c (a ∷ rest) s (keeps, others) h =
    let (users, none_now) = step-users c a s keeps h in
    let split = bootstraps-cons (step c a s).0 (run c rest (step c a s).1) in
    let ih = no_bootstrap c rest (step c a s).1 others users in omega arith

-- A step that bootstraps leaves a user.
step-bootstrapped :
    (c : Crypto) (a : Action) (s : Service)
    → (bootstraps ((step c a s).0 ∷ []) ≡ 0) ⊎ (0 < length (step c a s).1.db.users)
unfolding bootstraps
step-bootstrapped c (Action.boot fresh req) s = elim (bootstrap-some c fresh req s) [
  | inl (e, is) ↦ rw is (inl refl)
  | inr (r, is, empty, grown) ↦ inr grown
]
step-bootstrapped c (Action.ask now username random) s = inl (ground arith)
step-bootstrapped c (Action.enroll now fresh req) s = inl (ground arith)
step-bootstrapped c (Action.elsewhere f) s = inl refl
step-bootstrapped c (Action.restart bootstrap_code) s = inl refl

-- At most one bootstrap succeeds, whatever the calls, their order and their random values, where
-- the driver may fail anywhere, and also across restarts that give the service a new code, if the
-- other requests take no user away.
pub bootstrap_once :
    (c : Crypto) (actions : List Action) (s : Service)
    → All KeepsUsers actions
    → bootstraps (run c actions s) ≤ 1
unfolding run bootstraps
bootstrap_once c [] s keeps = omega arith
bootstrap_once c (a ∷ rest) s (keeps, others) =
    let r = step c a s in
    let split = bootstraps-cons r.0 (run c rest r.1) in
    elim (step-bootstrapped c a s) [
      | inl quiet ↦ let ih = bootstrap_once c rest r.1 others in omega arith
      | inr users ↦
          let after = no_bootstrap c rest r.1 others users in
          let one = bootstraps-one r.0 in omega arith
    ]
