-- ===== src/Sync/OfflineMonitor.antt =====
-- server/sync/offline_monitor.go: one sweep over the devices. Times are seconds.
use mathlib.Core.Path.{subst}
use zt_data_sync.Prelude.Elements.{In}
use zt_data_sync.Store.Queries.{list_all_devices}
use zt_data_sync.Prelude.Membership.{contains, contains-filter}
use zt_data_sync.Store.Rows.{Device, Db, DeviceStatus, Result, StoreError, ◌>>=◌, ok}
use zt_data_sync.Prelude.{
  ℕ, [], true, false, refl, if◌then◌else◌, ◌==◌, ◌&&◌, ◌≡◌, ◌≢◌, ◌+◌, ◌∷◌, Bool, List, All, ltb,
  filter, arith, leb, not, inl, inr, map,
}

abbrev pub offline_threshold : ℕ
offline_threshold = 90

-- `seen_on` holds the devices that the map has as online; it never has one as false.
pub record Monitor : Type 0 where
  pub seen_on : List ℕ
  pub swept : Bool

abbrev pub new_monitor : Monitor
new_monitor = record { seen_on = []; swept = false }

-- `LastSeen > 0 && LastSeen >= now - 90`
abbrev pub online : ℕ → Device → Bool
online now d = ltb 0 d.last_seen && leb now (d.last_seen + offline_threshold)

abbrev pub is_enabled : Device → Bool
is_enabled d = elim d.status [ DeviceStatus.enabled ↦ true | DeviceStatus.disabled ↦ false ]

abbrev pub forget : ℕ → List ℕ → List ℕ
forget id seen = filter (λ x. not (x == id)) seen

abbrev pub remember : ℕ → List ℕ → List ℕ
remember id seen = if contains id seen then seen else id ∷ seen

-- The device went offline since the last sweep.
abbrev pub went_offline : Bool → ℕ → List ℕ → Device → Bool
went_offline swept now seen d = swept && (contains d.id seen && not (online now d))

-- The set after one device.
abbrev pub seen_after : Bool → ℕ → List ℕ → Device → List ℕ
seen_after swept now seen d =
    if went_offline swept now seen d
    then forget d.id seen
    else if online now d
    then remember d.id seen
    else forget d.id seen

-- The devices of which an event is recorded, and the set after the sweep.
unfoldable pub sweep_devices : Bool → ℕ → List ℕ → List Device → List ℕ × List ℕ
sweep_devices swept now seen [] = ([], seen)
sweep_devices swept now seen (d ∷ ds) =
    let gone = went_offline swept now seen d in
    let (recorded, after) = sweep_devices swept now (seen_after swept now seen d) ds in
    ((if gone && is_enabled d then d.id ∷ recorded else recorded), after)

-- `SweepOnce`: the recorded devices, and the monitor after it.
unfoldable pub sweep_once : Db → ℕ → Monitor → Result StoreError (List ℕ × Monitor)
sweep_once db now m = list_all_devices db >>= λ ds.
    let (recorded, seen) = sweep_devices m.swept now m.seen_on ds in
    ok (recorded, record { seen_on = seen; swept = true })

abbrev pub DistinctDevices : List Device → Type 0
DistinctDevices [] = Unit {0}
DistinctDevices (d ∷ ds) = All (λ y. d.id ≢ y.id) ds × DistinctDevices ds

contains-forget :
    (a id : ℕ) (seen : List ℕ) → contains a (forget id seen) ≡ (contains a seen && not (a == id))
contains-forget a id seen = contains-filter (λ x. not (x == id)) a seen

-- The other devices of a sweep do not matter to one.
untouched :
    (swept : Bool) (now a : ℕ) (seen : List ℕ) (ds : List Device)
    → All (λ y. a ≢ y.id) ds
    → contains a (sweep_devices swept now seen ds).1 ≡ contains a seen
unfolding sweep_devices
untouched swept now a seen [] h = refl
untouched swept now a seen (d ∷ ds) h =
    let same = contains-forget a d.id seen in
    ground (
      arith,
      h.0,
      same,
      untouched swept now a (forget d.id seen) ds h.1,
      untouched swept now a (d.id ∷ seen) ds h.1,
      untouched swept now a seen ds h.1,
    )

self_after :
    (swept : Bool) (now : ℕ) (seen : List ℕ) (d : Device) (ds : List Device)
    → All (λ y. d.id ≢ y.id) ds
    → contains d.id (sweep_devices swept now seen (d ∷ ds)).1 ≡ online now d
unfolding sweep_devices
self_after swept now seen d ds h = ground (
  arith,
  contains-forget d.id d.id seen,
  untouched swept now d.id (forget d.id seen) ds h,
  untouched swept now d.id (d.id ∷ seen) ds h,
  untouched swept now d.id seen ds h,
)

-- After a sweep over devices with distinct identifiers the set has exactly those of them that are
-- online at its time, whatever it had before.
pub sweep_devices-online :
    (swept : Bool) (now : ℕ) (ds : List Device) (seen : List ℕ) (d : Device)
    → DistinctDevices ds
    → In d ds
    → contains d.id (sweep_devices swept now seen ds).1 ≡ online now d
unfolding sweep_devices
sweep_devices-online swept now [] seen d u m = absurd m
sweep_devices-online swept now (x ∷ ds) seen d u (inl e) =
    subst (λ (y : Device). contains y.id (sweep_devices swept now seen (x ∷ ds)).1 ≡ online now y) e
      (self_after swept now seen x ds u.0)
sweep_devices-online swept now (x ∷ ds) seen d u (inr m) =
    sweep_devices-online swept now ds (seen_after swept now seen x) d u.1 m

-- The devices that go offline and are not disabled, by the set before the sweep.
abbrev pub offline_devices : Bool → ℕ → List ℕ → List Device → List ℕ
offline_devices swept now seen ds =
    map (λ d. d.id) (filter (λ d. went_offline swept now seen d && is_enabled d) ds)

-- Two sets that agree on the devices.
abbrev Agree : List ℕ → List ℕ → List Device → Type 0
Agree s t ds = All (λ d. contains d.id s ≡ contains d.id t) ds

Agree-offline :
    (swept : Bool) (now : ℕ) (s t : List ℕ) (ds : List Device)
    → Agree s t ds
    → offline_devices swept now s ds ≡ offline_devices swept now t ds
Agree-offline swept now s t [] a = refl
Agree-offline swept now s t (d ∷ ds) a = ground (arith, a.0, Agree-offline swept now s t ds a.1)

forget-Agree :
    (id : ℕ) (seen : List ℕ) (ds : List Device)
    → All (λ y. id ≢ y.id) ds
    → Agree (forget id seen) seen ds
forget-Agree id seen [] h = tt
forget-Agree id seen (d ∷ ds) h =
    (ground (arith, h.0, contains-forget d.id id seen), forget-Agree id seen ds h.1)

remember-Agree :
    (id : ℕ) (seen : List ℕ) (ds : List Device)
    → All (λ y. id ≢ y.id) ds
    → Agree (remember id seen) seen ds
remember-Agree id seen [] h = tt
remember-Agree id seen (d ∷ ds) h = (ground (arith, h.0), remember-Agree id seen ds h.1)

-- A sweep over devices with distinct identifiers records, in their order, exactly the devices that
-- the last sweep had as online, that are offline now and that are not disabled; a first sweep
-- (`swept` false) records none.
pub sweep_devices-recorded :
    (swept : Bool) (now : ℕ) (seen : List ℕ) (ds : List Device)
    → DistinctDevices ds
    → (sweep_devices swept now seen ds).0 ≡ offline_devices swept now seen ds
unfolding sweep_devices
sweep_devices-recorded swept now seen [] u = refl
sweep_devices-recorded swept now seen (d ∷ ds) u =
    let f = forget d.id seen in
    let r = remember d.id seen in
    ground (
      arith,
      sweep_devices-recorded swept now f ds u.1,
      sweep_devices-recorded swept now r ds u.1,
      Agree-offline swept now f seen ds (forget-Agree d.id seen ds u.0),
      Agree-offline swept now r seen ds (remember-Agree d.id seen ds u.0),
    )
