-- ===== src/Sync/Push/Order.antt =====
-- The sequence numbers that a batch hands out.
use zt_data_sync.Store.Rows.{Db}
use zt_data_sync.Prelude.{
  ℕ, List, ◌≡◌, ◌∷◌, true, suc, Bool-cases, inl, ◌⊎◌, inr, false, [], refl, ap,
}
use zt_data_sync.Proto.{PushResult, Mutation}
use zt_data_sync.Sync.Push.{push_one, push}
use zt_data_sync.Sync.Push.Guards.{
  push_one-Writes, maybe_finish_rekey-SameRows, push_one_rejected, pushed_db,
}

-- The accepted results carry `n + 1`, `n + 2`, … in their order, up to `last`.
abbrev pub Numbered : ℕ → ℕ → List PushResult → Type 0
Numbered n last [] = n ≡ last
Numbered n last (r ∷ rs) =
    ((r.is_ok ≡ true) × (r.new_seq ≡ suc n) × Numbered (suc n) last rs)
    ⊎ ((r.is_ok ≡ false) × Numbered n last rs)

push_one_seq :
    (db : Db) (user_id device_id now : ℕ) (m : Mutation)
    → (push_one db user_id device_id now m).0.0.is_ok ≡ true
    → ((push_one db user_id device_id now m).0.0.new_seq ≡ suc db.seq)
      × ((push_one db user_id device_id now m).1.seq ≡ suc db.seq)
push_one_seq db user_id device_id now m h =
    let (g, wr) = push_one-Writes db user_id device_id now m h in
    let same =
      maybe_finish_rekey-SameRows (pushed_db db device_id now m) m.group_id g.key_version in
    (wr.number, rw wr.after same.seq)

rejected_seq :
    (db : Db) (user_id device_id now : ℕ) (m : Mutation)
    → (push_one db user_id device_id now m).0.0.is_ok ≡ false
    → (push_one db user_id device_id now m).1.seq ≡ db.seq
rejected_seq db user_id device_id now m h =
    ap (λ (d : Db). d.seq) (push_one_rejected db user_id device_id now m h).0

-- A batch numbers its accepted mutations one after the other from the counter, with no gap and no
-- repetition, and leaves the counter at the last number; a refused mutation takes none.
pub push-Numbered :
    (db : Db) (user_id device_id now : ℕ) (ms : List Mutation)
    → Numbered db.seq (push db user_id device_id now ms).2.seq (push db user_id device_id now ms).0
unfolding push
push-Numbered db user_id device_id now [] = refl
push-Numbered db user_id device_id now (m ∷ ms) =
    let db' = (push_one db user_id device_id now m).1 in
    let rest = push-Numbered db' user_id device_id now ms in
    elim (Bool-cases (push_one db user_id device_id now m).0.0.is_ok) [
      | inl h ↦ let s = push_one_seq db user_id device_id now m h in inl (h, s.0, rw s.1 at rest)
      | inr h ↦ inr (h, rw (rejected_seq db user_id device_id now m h) at rest)
    ]
