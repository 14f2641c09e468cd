-- ===== src/Client/Local/Rows.antt =====
-- What each write of the local tables does to the row of one entry.
use zt_data_sync.Prelude.Assoc.{lookup, lookup-put}
use zt_data_sync.Client.Local.{
  LocalStore, LocalEntry, Write, and_then, upsert_local_entry, get_local_entry,
  delete_pending_entry, clear_bad_seq, LocalStmt,
}
use zt_data_sync.Prelude.{◌≡◌, ◌∙◌, ap, true, false, some, ℕ, Bool, Bool-cases, inl, inr, arith}

-- The driver runs every statement.
abbrev pub NoFaults : LocalStore → Type 0
NoFaults l = (s : LocalStmt) → l.fails s ≡ false

-- A write that leaves the rows of the entries alone.
pub record KeepsRows (w : Write) : Type 0 where
  pub at : (l : LocalStore) → (w l).1.entries ≡ l.entries

pub delete_pending_entry-KeepsRows : (id : ℕ) → KeepsRows (delete_pending_entry id)
unfolding delete_pending_entry
delete_pending_entry-KeepsRows id = record { at = λ l. ground arith }

pub clear_bad_seq-KeepsRows : (n : ℕ) → KeepsRows (clear_bad_seq n)
unfolding clear_bad_seq
clear_bad_seq-KeepsRows n = record { at = λ l. ground arith }

pub and_then-KeepsRows :
    (first second : Write) → KeepsRows first → KeepsRows second → KeepsRows (and_then first second)
and_then-KeepsRows first second k k' = record {
  at = λ l. elim (Bool-cases (first l).0) [
    | inl done ↦ rw done (k'.at (first l).1 ∙ k.at l)
    | inr stop ↦ rw stop (k.at l)
  ];
}

-- A pair of writes that ran: both did.
pub and_then-succeeds :
    (first second : Write) (l l' : LocalStore)
    → and_then first second l ≡ (true, l')
    → (first l ≡ (true, (first l).1)) × (second (first l).1 ≡ (true, l'))
and_then-succeeds first second l l' h = elim (Bool-cases (first l).0) [
  | inl done ↦ (ap (λ b. (b, (first l).1)) done, ground (arith, h, done))
  | inr stop ↦ absurd (ground (arith, h, stop))
]

-- The row of entry `id` is there and meets `P`.
abbrev pub Has : (LocalEntry → Type 0) → ℕ → LocalStore → Type 0
Has P id l = (row : LocalEntry) × (lookup id l.entries ≡ some row) × P row

module _ (P : LocalEntry → Type 0) (id : ℕ) where
  -- Has of a result that is another one's.
  pub Has-eq : (r r' : Bool × LocalStore) → r ≡ r' → Has P id r'.1 → Has P id r.1
  Has-eq r r' e h = rw e h

  pub upsert-Has :
      (e : LocalEntry) (l : LocalStore)
      → Has P id l
      → e.id ≡ id
      → P e
      → Has P id (upsert_local_entry e l).1
  unfolding upsert_local_entry
  upsert-Has e l (row, found, p) same q = elim (Bool-cases (l.fails LocalStmt.upsert_row)) [
    | inl failed ↦ rw failed (row, found, p)
    | inr ran ↦ rw ran (e, ground (arith, lookup-put e.id id e l.entries, same), q)
  ]

  -- What follows a write changes no row.
  pub and_then-Has :
      (first second : Write) (l : LocalStore)
      → KeepsRows second
      → Has P id (first l).1
      → Has P id (and_then first second l).1
  and_then-Has first second l k (row, found, p) = elim (Bool-cases (first l).0) [
    | inl done ↦ rw done (row, ap (lookup id) (k.at (first l).1) ∙ found, p)
    | inr stop ↦ rw stop (row, found, p)
  ]

-- A read that runs finds the row.
pub get_local_entry-some :
    (l : LocalStore) (id : ℕ) (le : LocalEntry)
    → l.fails LocalStmt.get_row ≡ false
    → lookup id l.entries ≡ some le
    → get_local_entry l id ≡ some le
unfolding get_local_entry
get_local_entry-some l id le runs found = rw runs found
