-- ===== src/Sync/Push/Conflict.antt =====
-- Two writers of one entry: in turn, and with their checks before either write.
use zt_data_sync.Store.Queries.{find_entry}
use zt_data_sync.Sync.Push.Guards.{
  pushed, push_one-Writes, push_one_rejected, maybe_finish_rekey-SameRows, pushed_db, Accepts,
}
use zt_data_sync.Store.Laws.{stored, find_entry-put_entry, IsWellFormed, SeqsBelow}
use zt_data_sync.Sync.Push.Invariant.{push_one-IsWellFormed}
use zt_data_sync.Sync.Push.{push_one}
use zt_data_sync.Proto.{Mutation}
use zt_data_sync.Store.Rows.{Db, Entry, Group, Stmt}
use zt_data_sync.Prelude.{
  ℕ, some, true, ◌≡◌, ◌∙◌, arith, [], false, inl, inr, if◌then◌else◌, ◌∷◌, List, Bool-cases, ◌≤◌,
  Option-cases, ◌==◌, ◌<◌, Bool,
}

-- The version that the server holds of an entry after `m` was accepted.
abbrev pub held : Db → ℕ → ℕ → Mutation → Entry
held db device_id now m = stored (pushed db device_id now m) (find_entry m.entry_id db.entries)

pub entry_after :
    (db : Db) (user_id device_id now : ℕ) (m : Mutation)
    → (push_one db user_id device_id now m).0.0.is_ok ≡ true
    → find_entry m.entry_id (push_one db user_id device_id now m).1.entries
      ≡ some (held db device_id now m)
entry_after db user_id device_id now m h =
    let (g, wr) = push_one-Writes db user_id device_id now m h in
    let same =
      maybe_finish_rekey-SameRows (pushed_db db device_id now m) m.group_id g.key_version in
    rw (wr.after, same.entries)
      (find_entry-put_entry (pushed db device_id now m) m.entry_id db.entries ∙ ground arith)

-- After an accepted push the entry reads back with the number, the ciphertext, the key version and
-- the deletion mark of the mutation, and every other entry reads as before.
pub push_one-find :
    (db : Db) (user_id device_id now j : ℕ) (m : Mutation)
    → (push_one db user_id device_id now m).0.0.is_ok ≡ true
    → find_entry j (push_one db user_id device_id now m).1.entries
      ≡ (if m.entry_id == j then some (held db device_id now m) else find_entry j db.entries)
push_one-find db user_id device_id now j m h =
    let (g, wr) = push_one-Writes db user_id device_id now m h in
    let same =
      maybe_finish_rekey-SameRows (pushed_db db device_id now m) m.group_id g.key_version in
    rw (wr.after, same.entries) (find_entry-put_entry (pushed db device_id now m) j db.entries)

found-le :
    (n id : ℕ) (es : List Entry) (e : Entry)
    → SeqsBelow n es
    → find_entry id es ≡ some e
    → e.seq ≤ n
found-le n id [] e b h = absurd (ground (arith, h))
found-le n id (x ∷ xs) e b h = ground (arith, found-le n id xs e b.1)

-- An accepted base is not above the counter.
base-le :
    (db : Db) (user_id : ℕ) (m : Mutation) {g : Group}
    → IsWellFormed db
    → Accepts db user_id m g
    → m.base_seq ≤ db.seq
base-le db user_id m w a = elim (Option-cases (find_entry m.entry_id db.entries)) [
  | inl e ↦ ground (arith, e, a.base)
  | inr (cur, e) ↦ ground (arith, e, a.base, found-le db.seq m.entry_id db.entries cur w.below e)
]

-- Pushes one after another, each with its own faults, user, device and time.
unfoldable pub pushes : List ((Stmt → Bool) × ℕ × ℕ × ℕ × Mutation) → Db → Db
pushes [] db = db
pushes ((fails, user_id, device_id, now, m) ∷ ps) db =
    pushes ps (push_one (record db { fails = fails }) user_id device_id now m).1

-- A row of the entry is there, with a number above that base.
record Past (base id : ℕ) (db : Db) : Type 0 where
  well_formed : IsWellFormed db
  row : (e : Entry) × (find_entry id db.entries ≡ some e) × (base < e.seq)

IsWellFormed-fails :
    (fails : Stmt → Bool) (db : Db) → IsWellFormed db → IsWellFormed (record db { fails = fails })
IsWellFormed-fails fails db w = record {
  below = w.below;
  distinct_seqs = w.distinct_seqs;
  distinct_ids = w.distinct_ids;
}

-- An accepted push of the entry raises its number.
push_one-ok_Past :
    (base id : ℕ) (db : Db) (user_id device_id now : ℕ) (m : Mutation)
    → Past base id db
    → (push_one db user_id device_id now m).0.0.is_ok ≡ true
    → Past base id (push_one db user_id device_id now m).1
push_one-ok_Past base id db user_id device_id now m p h =
    let (e, found, above) = p.row in
    let bound = found-le db.seq id db.entries e p.well_formed.below found in
    let read = push_one-find db user_id device_id now id m h in
    record {
      well_formed = push_one-IsWellFormed db user_id device_id now m p.well_formed;
      row = elim (Bool-cases (m.entry_id == id)) [
        | inl this ↦
            (held db device_id now m, ground (arith, read, this), ground (arith, bound, above))
        | inr other ↦ (e, ground (arith, read, other, found), above)
      ];
    }

push_one-Past :
    (base id : ℕ) (db : Db) (user_id device_id now : ℕ) (m : Mutation)
    → Past base id db
    → Past base id (push_one db user_id device_id now m).1
push_one-Past base id db user_id device_id now m p =
    elim (Bool-cases (push_one db user_id device_id now m).0.0.is_ok) [
      | inl h ↦ push_one-ok_Past base id db user_id device_id now m p h
      | inr h ↦ rw (push_one_rejected db user_id device_id now m h).0 p
    ]

pushes-Past :
    (base id : ℕ) (ps : List ((Stmt → Bool) × ℕ × ℕ × ℕ × Mutation)) (db : Db)
    → Past base id db
    → Past base id (pushes ps db)
unfolding pushes
pushes-Past base id [] db p = p
pushes-Past base id ((fails, user_id, device_id, now, m) ∷ ps) db p =
    let faulty : Past base id (record db { fails = fails }) = record {
      well_formed = IsWellFormed-fails fails db p.well_formed;
      row = p.row;
    } in
    pushes-Past base id ps (push_one (record db { fails = fails }) user_id device_id now m).1
      (push_one-Past base id (record db { fails = fails }) user_id device_id now m faulty)

accepted-Past :
    (db : Db) (user_id device_id now : ℕ) (m : Mutation)
    → IsWellFormed db
    → (push_one db user_id device_id now m).0.0.is_ok ≡ true
    → Past m.base_seq m.entry_id (push_one db user_id device_id now m).1
accepted-Past db user_id device_id now m w h =
    let (g, wr) = push_one-Writes db user_id device_id now m h in
    let bound = base-le db user_id m w wr.accepts in
    record {
      well_formed = push_one-IsWellFormed db user_id device_id now m w;
      row = (
        held db device_id now m,
        entry_after db user_id device_id now m h,
        ground (arith, bound),
      );
    }

Past-refused :
    (db : Db) (user_id device_id now : ℕ) (m : Mutation)
    → Past m.base_seq m.entry_id db
    → (push_one db user_id device_id now m).0.0.is_ok ≡ false
Past-refused db user_id device_id now m p =
    elim (Bool-cases (push_one db user_id device_id now m).0.0.is_ok) [
      | inr refused ↦ refused
      | inl again ↦
          let (g, wr) = push_one-Writes db user_id device_id now m again in
          let (e, found, above) = p.row in absurd (ground (arith, wr.accepts.base, found, above))
    ]

-- In a well-formed database, once a push of an entry was accepted, a push of that entry from the
-- same base is refused, after any number of pushes in between: whoever sends them and whichever of
-- them are refused or meet faults of the driver. The pushes run one after another, and nothing but
-- pushes writes in between: not the removal of old tombstones, which frees the base 0.
pub stale_refused :
    (db : Db) (user_id device_id now : ℕ) (m : Mutation)
    (between : List ((Stmt → Bool) × ℕ × ℕ × ℕ × Mutation)) (user' device' now' : ℕ) (m' : Mutation)
    → IsWellFormed db
    → (push_one db user_id device_id now m).0.0.is_ok ≡ true
    → m'.entry_id ≡ m.entry_id
    → m'.base_seq ≡ m.base_seq
    → let later = pushes between (push_one db user_id device_id now m).1 in
      (push_one later user' device' now' m').0.0.is_ok ≡ false
stale_refused db user_id device_id now m between user' device' now' m' w h same_entry same_base =
    let later = pushes between (push_one db user_id device_id now m).1 in
    Past-refused later user' device' now' m' (
      rw (same_base, same_entry)
        (pushes-Past m.base_seq m.entry_id between (push_one db user_id device_id now m).1
          (accepted-Past db user_id device_id now m w h)))
