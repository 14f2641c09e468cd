-- ===== src/Scenarios/Background.antt =====
-- The hub, the cleaners and the monitor.
use zt_data_sync.Store.Rows.{ok}
use zt_data_sync.Sync.Hub.Safety.{run_never_panics}
use zt_data_sync.Store.Tx.{with_tx, delete_old_tombstones}
use zt_data_sync.Scenarios.Samples.{base_db}
use zt_data_sync.Sync.Cleaners.{clean_tombstones}
use zt_data_sync.Sync.Hub.{
  run, Action, new_hub, panics, subscribes, notifies, detaches, closes, cancels,
}
use zt_data_sync.Prelude.{[], refl, ◌≡◌, ◌≢◌, ◌∷◌, List}

-- A disconnection whose closes come after another subscription and a notification.
abbrev busy : List Action
busy =
    subscribes 7
    ∷ subscribes 8
    ∷ notifies
    ∷ detaches 7
    ∷ subscribes 7
    ∷ notifies
    ∷ closes 0
    ∷ cancels 7 2
    ∷ closes 0
    ∷ notifies
    ∷ []

run_never_panics_example : run new_hub busy ≢ panics
run_never_panics_example = run_never_panics busy

cleaned : (clean_tombstones (record { days = 90 }) 100000000 base_db).0 ≡ ok tt
unfolding clean_tombstones with_tx delete_old_tombstones
cleaned = refl
