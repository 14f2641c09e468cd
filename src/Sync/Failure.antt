-- ===== src/Sync/Failure.antt =====
-- server/sync/pull.go: the errors of the sync service.
use zt_data_sync.Store.Rows.{StoreError, Result, ok, err}
use zt_data_sync.Proto.{err_internal}
use zt_data_sync.Prelude.{ℕ, true, false, Bool}

-- An error with a code (`ErrCode`), or the store's.
pub data Failure : Type 0 where
  code : ℕ → Failure
  store : StoreError → Failure

unfoldable pub code_of : Failure → ℕ
code_of (code n) = n
code_of (store e) = err_internal

abbrev pub from_store : {A : Type 0} → Result StoreError A → Result Failure A
from_store (ok a) = ok a
from_store (err e) = err (store e)

-- An error where the test fails.
abbrev pub require : Bool → ℕ → Result Failure (Unit {0})
require true n = ok tt
require false n = err (code n)
