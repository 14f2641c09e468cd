-- ===== src/Administration/Groups/Disabled.antt =====
-- server/api/admin.go with server/middleware/auth.go: a device that was disabled.
use zt_data_sync.Store.Rows.{Device, DeviceStatus, Db, StoreError, Result, ok, err, Result-cases}
use zt_data_sync.Store.Tx.{with_tx, update_device}
use zt_data_sync.Store.Access.{disable_device}
use zt_data_sync.Sync.Envelopes.Append.{with_tx_ok}
use zt_data_sync.Authn.Tokens.{AuthContext, require_auth, is_enabled}
use zt_data_sync.Authn.Refresh.{require_auth-ok, record_actor-tables, by_hash}
use zt_data_sync.Administration.{end_plain}
use zt_data_sync.Administration.Groups.{
  handle_disable_device, named_device, disable_found, disable_device_action,
}
use zt_data_sync.Prelude.{
  ℕ, true, some, List, [], ◌∷◌, ◌==◌, ◌≡◌, ◌≢◌, refl, ap, sym, ◌∙◌, inl, inr, arith, Bool-cases,
}

abbrev disabled_at : ℕ → List Device → List Device
disabled_at did ds = update_device did (λ d. record d { status = DeviceStatus.disabled }) ds

-- No enabled device of that identifier is found by its hash.
by_hash-disabled :
    (did hash : ℕ) (ds : List Device) {d : Device}
    → by_hash hash (disabled_at did ds) ≡ some d
    → is_enabled d ≡ true
    → d.id ≢ did
unfolding update_device
by_hash-disabled did hash [] h on = absurd (ground (arith, h))
by_hash-disabled did hash (x ∷ xs) {d} h on = elim (Bool-cases (x.id == did)) [
  | inl it ↦ elim (Bool-cases (x.token_hash == hash)) [
    | inl same ↦ λ e. absurd (ground (arith, h, it, same, on))
    | inr other ↦ by_hash-disabled did hash xs {d = d} (ground (arith, h, it, other)) on
  ]
  | inr not_it ↦ elim (Bool-cases (x.token_hash == hash)) [
    | inl same ↦ λ e. ground (arith, h, not_it, same, e)
    | inr other ↦ by_hash-disabled did hash xs {d = d} (ground (arith, h, not_it, other)) on
  ]
]

disable_device-ok :
    (did : ℕ) (db : Db) {r : Unit {0} × Db}
    → disable_device did db ≡ ok r
    → r.1.devices ≡ disabled_at did db.devices
unfolding disable_device
disable_device-ok did db h = ground (arith, h)

end_plain-devices :
    (now : ℕ) (ac : AuthContext) (action : ℕ) (p : Result StoreError (Unit {0}) × Db)
    → (end_plain now ac action p).0.0 ≡ ok tt
    → (p.0 ≡ ok tt) × ((end_plain now ac action p).1.devices ≡ p.1.devices)
end_plain-devices now ac action (err e, db) h = absurd (ground (arith, h))
end_plain-devices now ac action (ok u, db) h =
    (refl, (record_actor-tables now ac.device.id ac.user.id action db).0)

handle_disable_device-devices :
    (now : ℕ) (ac : AuthContext) (did confirm_name : ℕ) (db : Db)
    → (handle_disable_device now ac did confirm_name db).0.0 ≡ ok tt
    → (handle_disable_device now ac did confirm_name db).1.devices ≡ disabled_at did db.devices
unfolding handle_disable_device
handle_disable_device-devices now ac did confirm_name db h =
    elim (Result-cases (named_device did confirm_name db)) [
      | inr (e, unknown) ↦ absurd (ground (arith, h, unknown))
      | inl (d, named) ↦
          let p = with_tx (disable_device did) db in
          let answer = ap (λ x. (disable_found now ac did db x).0.0) named in
          let (done, same) = end_plain-devices now ac disable_device_action p (sym answer ∙ h) in
          let ran = with_tx_ok (disable_device did) db tt done in
          ap (λ x. (disable_found now ac did db x).1.devices) named
          ∙ same
          ∙ disable_device-ok did db {r = (tt, p.1)} ran
    ]

-- Once a device is disabled, no token passes as that device, whatever its hash.
pub handle_disable_device-shut_out :
    (now : ℕ) (ac : AuthContext) (did confirm_name : ℕ) (db : Db) (hash_token : ℕ → ℕ)
    (ip token : ℕ) (passed : AuthContext)
    → (handle_disable_device now ac did confirm_name db).0.0 ≡ ok tt
    → (require_auth hash_token ip
        (some token)
        (handle_disable_device now ac did confirm_name db).1).0
      ≡ ok passed
    → passed.device.id ≢ did
handle_disable_device-shut_out now ac did confirm_name db hash_token ip token passed h pass =
    let after = (handle_disable_device now ac did confirm_name db).1 in
    let (found, enabled, user, active) =
      require_auth-ok hash_token ip token after {ac = passed} pass in
    let devices = handle_disable_device-devices now ac did confirm_name db h in
    by_hash-disabled did (hash_token token) db.devices {d = passed.device}
      (sym (ap (by_hash (hash_token token)) devices) ∙ found) enabled
