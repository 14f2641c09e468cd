-- ===== src/Store/Laws.antt =====
-- Facts about the tables: the entry table under a write, and the well-formedness of the database.
use zt_data_sync.Prelude.{
  ℕ, suc, ◌≤◌, ◌<◌, ◌≡◌, ◌≢◌, refl, Bool, false, Option, none, some, List, [], ◌∷◌, arith, ◌==◌,
  if◌then◌else◌, filter, All, All-filter,
}
use zt_data_sync.Store.Rows.{Entry, Db}
use zt_data_sync.Store.Queries.{find_entry}
use zt_data_sync.Store.Tx.{put_entry, seq_taken}

-- The row that `put_entry` leaves: the group of a row that was there stays.
abbrev pub stored : Entry → Option Entry → Entry
stored e none = e
stored e (some x) = record e { group_id = x.group_id }

pub find_entry-put_entry :
    (e : Entry) (j : ℕ) (es : List Entry)
    → find_entry j (put_entry e es)
      ≡ (if e.id == j then some (stored e (find_entry e.id es)) else find_entry j es)
unfolding put_entry
find_entry-put_entry e j [] = ground arith
find_entry-put_entry e j (x ∷ xs) = ground (arith, find_entry-put_entry e j xs)

abbrev pub SeqsBelow : ℕ → List Entry → Type 0
SeqsBelow n es = All (λ e. e.seq ≤ n) es

-- No two rows share a sequence number.
abbrev pub DistinctSeqs : List Entry → Type 0
DistinctSeqs [] = Unit {0}
DistinctSeqs (x ∷ xs) = All (λ y. x.seq ≢ y.seq) xs × DistinctSeqs xs

-- No two rows share an identifier.
abbrev pub DistinctIds : List Entry → Type 0
DistinctIds [] = Unit {0}
DistinctIds (x ∷ xs) = All (λ y. x.id ≢ y.id) xs × DistinctIds xs

-- The keys of the entry table hold, and the counter has given every sequence number.
pub record IsWellFormed (db : Db) : Type 0 where
  pub below : SeqsBelow db.seq db.entries
  pub distinct_seqs : DistinctSeqs db.entries
  pub distinct_ids : DistinctIds db.entries

pub SeqsBelow-mono : {m n : ℕ} (es : List Entry) → m ≤ n → SeqsBelow m es → SeqsBelow n es
SeqsBelow-mono [] h b = tt
SeqsBelow-mono (e ∷ es) h b = (omega arith, SeqsBelow-mono es h b.1)

pub SeqsBelow-put_entry :
    (e : Entry) (n : ℕ) (es : List Entry)
    → e.seq ≤ n
    → SeqsBelow n es
    → SeqsBelow n (put_entry e es)
unfolding put_entry
SeqsBelow-put_entry e n [] h b = (h, tt)
SeqsBelow-put_entry e n (x ∷ xs) h b = ground (arith, SeqsBelow-put_entry e n xs h b.1)

-- A number above all is new.
pub seq_taken_above : (n : ℕ) (es : List Entry) → SeqsBelow n es → seq_taken (suc n) es ≡ false
seq_taken_above n [] b = refl
seq_taken_above n (e ∷ es) b = ground (arith, seq_taken_above n es b.1)

above-ne : (m n : ℕ) (es : List Entry) → m < n → SeqsBelow m es → All (λ y. n ≢ y.seq) es
above-ne m n [] h b = tt
above-ne m n (e ∷ es) h b = (omega arith, above-ne m n es h b.1)

ne-put_entry :
    (k : ℕ) (e : Entry) (es : List Entry)
    → k ≢ e.seq
    → All (λ y. k ≢ y.seq) es
    → All (λ y. k ≢ y.seq) (put_entry e es)
unfolding put_entry
ne-put_entry k e [] h a = (h, tt)
ne-put_entry k e (x ∷ xs) h a = ground (arith, ne-put_entry k e xs h a.1)

pub DistinctSeqs-put_entry :
    (e : Entry) (n : ℕ) (es : List Entry)
    → n < e.seq
    → SeqsBelow n es
    → DistinctSeqs es
    → DistinctSeqs (put_entry e es)
unfolding put_entry
DistinctSeqs-put_entry e n [] h b d = (tt, tt)
DistinctSeqs-put_entry e n (x ∷ xs) h b d = ground (
  arith,
  above-ne n e.seq xs h b.1,
  ne-put_entry x.seq e xs (omega arith) d.0,
  DistinctSeqs-put_entry e n xs h b.1 d.1,
)

ne_id-put_entry :
    (k : ℕ) (e : Entry) (es : List Entry)
    → k ≢ e.id
    → All (λ y. k ≢ y.id) es
    → All (λ y. k ≢ y.id) (put_entry e es)
unfolding put_entry
ne_id-put_entry k e [] h a = (h, tt)
ne_id-put_entry k e (x ∷ xs) h a = ground (arith, ne_id-put_entry k e xs h a.1)

id-ne_same : (k n : ℕ) (es : List Entry) → k ≡ n → All (λ y. k ≢ y.id) es → All (λ y. n ≢ y.id) es
id-ne_same k n [] h a = tt
id-ne_same k n (e ∷ es) h a = (omega arith, id-ne_same k n es h a.1)

pub DistinctIds-put_entry :
    (e : Entry) (es : List Entry) → DistinctIds es → DistinctIds (put_entry e es)
unfolding put_entry
DistinctIds-put_entry e [] d = (tt, tt)
DistinctIds-put_entry e (x ∷ xs) d =
    ground
      (arith, id-ne_same x.id e.id xs, ne_id-put_entry x.id e xs, DistinctIds-put_entry e xs d.1)

-- Deleting rows keeps the keys.
pub DistinctSeqs-filter :
    (p : Entry → Bool) (es : List Entry) → DistinctSeqs es → DistinctSeqs (filter p es)
DistinctSeqs-filter p [] d = tt
DistinctSeqs-filter p (x ∷ xs) d =
    ground (arith, All-filter (λ y. x.seq ≢ y.seq) p xs d.0, DistinctSeqs-filter p xs d.1)

pub DistinctIds-filter :
    (p : Entry → Bool) (es : List Entry) → DistinctIds es → DistinctIds (filter p es)
DistinctIds-filter p [] d = tt
DistinctIds-filter p (x ∷ xs) d =
    ground (arith, All-filter (λ y. x.id ≢ y.id) p xs d.0, DistinctIds-filter p xs d.1)
