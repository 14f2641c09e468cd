-- ===== src/Sync/Cleaners.antt =====
-- server/sync/tombstone.go and audit_cleaner.go: what the daily run deletes. Times are seconds.
use zt_data_sync.Store.Queries.{find_entry}
use zt_data_sync.Store.Laws.{IsWellFormed, DistinctIds, DistinctSeqs-filter, DistinctIds-filter}
use zt_data_sync.Prelude.Int.{ℤ, pos, negsuc}
use zt_data_sync.Store.Tx.{with_tx, delete_old_tombstones, delete_old_audit}
use zt_data_sync.Store.Rows.{Entry, Db, Result, StoreError, ok}
use zt_data_sync.Prelude.{
  ℕ, [], some, none, inl, inr, zero, suc, refl, if◌then◌else◌, ◌==◌, ◌&&◌, ◌≡◌, ◌≢◌, ◌≤◌, ◌-◌, ◌*◌,
  ◌∷◌, List, Bool, All, Option, ltb, arith, filter, Bool-cases, not, sym, All-filter, ==_iff,
}

abbrev pub tombstone_clean_days : ℕ
tombstone_clean_days = 90

abbrev pub audit_retention_default : ℕ
audit_retention_default = 180

pub record Cleaner : Type 0 where
  pub days : ℕ

-- `NewTombstoneCleaner`: a number of days that is not positive counts as the default.
unfoldable pub new_tombstone_cleaner : ℤ → Cleaner
new_tombstone_cleaner (pos zero) = record { days = tombstone_clean_days }
new_tombstone_cleaner (pos (suc n)) = record { days = suc n }
new_tombstone_cleaner (negsuc n) = record { days = tombstone_clean_days }

-- `NewAuditCleaner`: 0 stays 0.
unfoldable pub new_audit_cleaner : ℤ → Cleaner
new_audit_cleaner (pos n) = record { days = n }
new_audit_cleaner (negsuc n) = record { days = audit_retention_default }

-- A cutoff before the epoch is below every time, as 0 is.
abbrev pub cutoff : Cleaner → ℕ → ℕ
cutoff c now = now - c.days * 86400

unfoldable pub clean_tombstones : Cleaner → ℕ → Db → Result StoreError (Unit {0}) × Db
clean_tombstones c now db = with_tx (delete_old_tombstones (cutoff c now)) db

-- The number of rows deleted.
unfoldable pub clean_audit : Cleaner → ℕ → Db → Result StoreError ℕ × Db
clean_audit c now db = with_tx (delete_old_audit (cutoff c now)) db

abbrev pub is_old_tombstone : ℕ → Entry → Bool
is_old_tombstone before e = e.deleted && ltb e.updated_at before

find-none :
    (j : ℕ) (es : List Entry) (p : Entry → Bool)
    → find_entry j es ≡ none
    → find_entry j (filter p es) ≡ none
find-none j [] p h = refl
find-none j (x ∷ xs) p h = ground (arith, find-none j xs p)

absent : (j : ℕ) (es : List Entry) → All (λ y. j ≢ y.id) es → find_entry j es ≡ none
absent j [] a = refl
absent j (x ∷ xs) a = ground (arith, absent j xs a.1)

-- What a filter leaves of an entry, where no two entries share an identifier.
abbrev pub kept : (Entry → Bool) → Option Entry → Option Entry
kept p none = none
kept p (some e) = if p e then some e else none

find-filter :
    (j : ℕ) (es : List Entry) (p : Entry → Bool)
    → DistinctIds es
    → find_entry j (filter p es) ≡ kept p (find_entry j es)
find-filter j [] p d = refl
find-filter j (x ∷ xs) p d = elim (Bool-cases (x.id == j)) [
  | inl same ↦
      let gone = find-none j xs p (absent j xs (rw (sym ((==_iff x.id j).0 same)) d.0)) in
      ground (arith, same, gone)
  | inr other ↦ ground (arith, other, find-filter j xs p d.1)
]

-- A run of the tombstone cleaner that succeeds deletes exactly the tombstones that were last
-- written before the cutoff: every other entry, each live one among them, reads as before. The keys
-- of the table stay sound and the counter does not move, so no sequence number is given twice.
pub clean_tombstones-exact :
    (c : Cleaner) (now j : ℕ) (db : Db)
    → IsWellFormed db
    → (clean_tombstones c now db).0 ≡ ok tt
    → (find_entry j (clean_tombstones c now db).1.entries
        ≡ kept (λ e. not (is_old_tombstone (cutoff c now) e)) (find_entry j db.entries))
      × ((clean_tombstones c now db).1.seq ≡ db.seq)
      × IsWellFormed (clean_tombstones c now db).1
unfolding clean_tombstones with_tx delete_old_tombstones
clean_tombstones-exact c now j db w h =
    let p : Entry → Bool = λ e. not (is_old_tombstone (cutoff c now) e) in
    let after : (clean_tombstones c now db).1 ≡ record db { entries = filter p db.entries } =
      ground (arith, h) in
    rw after (
      find-filter j db.entries p w.distinct_ids,
      refl,
      record {
        below = All-filter (λ e. e.seq ≤ db.seq) p db.entries w.below;
        distinct_seqs = DistinctSeqs-filter p db.entries w.distinct_seqs;
        distinct_ids = DistinctIds-filter p db.entries w.distinct_ids;
      },
    )
