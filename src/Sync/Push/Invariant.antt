-- ===== src/Sync/Push/Invariant.antt =====
-- A push keeps the keys of the entry table, whatever its outcome.
use zt_data_sync.Proto.{Mutation}
use zt_data_sync.Store.Rows.{Db, Entry}
use zt_data_sync.Prelude.{ℕ, List, ◌≡◌, Bool-cases, ◌∷◌, inl, true, inr, suc, arith, []}
use zt_data_sync.Store.Laws.{
  IsWellFormed, SeqsBelow-put_entry, SeqsBelow-mono, DistinctSeqs-put_entry, DistinctIds-put_entry,
}
use zt_data_sync.Sync.Push.{push_one, push}
use zt_data_sync.Sync.Push.Guards.{
  pushed, SameRows, pushed_db, push_one-Writes, push_one_rejected, maybe_finish_rekey-SameRows,
}

pub pushed_db-IsWellFormed :
    (db : Db) (device_id now : ℕ) (m : Mutation)
    → IsWellFormed db
    → IsWellFormed (pushed_db db device_id now m)
pushed_db-IsWellFormed db device_id now m w = record {
  below =
      SeqsBelow-put_entry row (suc db.seq) db.entries (omega arith)
        (SeqsBelow-mono {m = db.seq} db.entries (omega arith) w.below);
  distinct_seqs =
      DistinctSeqs-put_entry row db.seq db.entries (omega arith) w.below w.distinct_seqs;
  distinct_ids = DistinctIds-put_entry row db.entries w.distinct_ids;
}
  where
    row : Entry
    row = pushed db device_id now m

pub SameRows-IsWellFormed : {db db' : Db} → SameRows db db' → IsWellFormed db → IsWellFormed db'
SameRows-IsWellFormed s w = record {
  below = rw (s.entries, s.seq) w.below;
  distinct_seqs = rw s.entries w.distinct_seqs;
  distinct_ids = rw s.entries w.distinct_ids;
}

push_one-ok_IsWellFormed :
    (db : Db) (user_id device_id now : ℕ) (m : Mutation)
    → IsWellFormed db
    → (push_one db user_id device_id now m).0.0.is_ok ≡ true
    → IsWellFormed (push_one db user_id device_id now m).1
push_one-ok_IsWellFormed db user_id device_id now m w h =
    let (g, wr) = push_one-Writes db user_id device_id now m h in
    rw wr.after (
      SameRows-IsWellFormed
        (maybe_finish_rekey-SameRows (pushed_db db device_id now m) m.group_id g.key_version)
        (pushed_db-IsWellFormed db device_id now m w))

pub push_one-IsWellFormed :
    (db : Db) (user_id device_id now : ℕ) (m : Mutation)
    → IsWellFormed db
    → IsWellFormed (push_one db user_id device_id now m).1
push_one-IsWellFormed db user_id device_id now m w =
    elim (Bool-cases (push_one db user_id device_id now m).0.0.is_ok) [
      | inl h ↦ push_one-ok_IsWellFormed db user_id device_id now m w h
      | inr h ↦ rw (push_one_rejected db user_id device_id now m h).0 w
    ]

-- From a well-formed database, a batch of pushes ends in one, whichever of them are refused and
-- wherever the driver fails: the identifiers and the sequence numbers of the rows stay distinct,
-- and no row's number is above the counter.
pub push-IsWellFormed :
    (db : Db) (user_id device_id now : ℕ) (ms : List Mutation)
    → IsWellFormed db
    → IsWellFormed (push db user_id device_id now ms).2
unfolding push
push-IsWellFormed db user_id device_id now [] w = w
push-IsWellFormed db user_id device_id now (m ∷ ms) w =
    push-IsWellFormed (push_one db user_id device_id now m).1 user_id device_id now ms
      (push_one-IsWellFormed db user_id device_id now m w)
