-- ===== src/Scenarios/Pushes.antt =====
-- Pushes.
use zt_data_sync.Sync.Push.Invariant.{push-IsWellFormed}
use zt_data_sync.Proto.{Mutation, PushResult}
use zt_data_sync.Sync.Push.Conflict.{pushes, stale_refused}
use zt_data_sync.Scenarios.Samples.{
  base_db, foreign_edit, edit, group_one, other_edit, grave, base_db-IsWellFormed, base_db-Runs,
  edit-Accepts,
}
use zt_data_sync.Sync.Push.{push_one, push, check_push, accepted, commit_push, maybe_finish_rekey}
use zt_data_sync.Store.Tx.{
  with_tx, upsert_entry, next_seq, put_entry, set_group_rekey, delete_old_kv_envelopes,
  update_group,
}
use zt_data_sync.Store.Laws.{IsWellFormed}
use zt_data_sync.Store.Queries.{
  find_entry, get_group_member, get_group, get_entry, count_entries_below_kv,
}
use zt_data_sync.Sync.Push.Races.{
  LostUpdate, race, push_one-Accepts, race-LostUpdate, foreign_entry_written,
}
use zt_data_sync.Sync.Push.Order.{Numbered, push-Numbered}
use zt_data_sync.Store.Rows.{Group, Stmt}
use zt_data_sync.Sync.Push.Guards.{Accepts, Writes, push_one-Writes, pushed}
use zt_data_sync.Prelude.{[], some, true, false, inl, inr, refl, ◌≡◌, ◌∷◌, ap, arith, Bool, List, ℕ}

edit_is_ok : (push_one base_db 7 70 2000 edit).0.0.is_ok ≡ true
edit_is_ok =
    ap (λ (p : PushResult × Bool). p.0.is_ok)
      (push_one-Accepts base_db 7 70 2000 edit group_one base_db-IsWellFormed
        (base_db-Runs 70 (inl refl)) (edit-Accepts 7 (inl refl)))

push_one-Writes_example : (g : Group) × Writes base_db 7 70 2000 edit g
push_one-Writes_example = push_one-Writes base_db 7 70 2000 edit edit_is_ok

stranger_refused : (push_one base_db 9 90 2000 edit).0.0.is_ok ≡ false
unfolding push_one check_push get_group_member
stranger_refused = refl

push-IsWellFormed_example :
    IsWellFormed (push base_db 7 70 2000 (edit ∷ other_edit ∷ foreign_edit ∷ [])).2
push-IsWellFormed_example =
    push-IsWellFormed base_db 7 70 2000 (edit ∷ other_edit ∷ foreign_edit ∷ []) base_db-IsWellFormed

push-Numbered_example :
    Numbered 6
      (push base_db 7 70 2000 (edit ∷ other_edit ∷ foreign_edit ∷ [])).2.seq
      (push base_db 7 70 2000 (edit ∷ other_edit ∷ foreign_edit ∷ [])).0
push-Numbered_example = push-Numbered base_db 7 70 2000 (edit ∷ other_edit ∷ foreign_edit ∷ [])

abbrev next_edit : Mutation
next_edit = record edit { base_seq = 7; ciphertext = 9 ∷ [] }

-- In between, the entry's next version under a counter that fails, then the same once more.
abbrev in_between : List ((Stmt → Bool) × ℕ × ℕ × ℕ × Mutation)
in_between = ((λ s. true), 8, 80, 2001, next_edit) ∷ ((λ s. false), 8, 80, 2002, next_edit) ∷ []

-- The second one is accepted.
in_between_seq : (pushes in_between (push_one base_db 7 70 2000 edit).1).seq ≡ 8
unfolding pushes push_one check_push get_group_member get_group get_entry commit_push with_tx
    upsert_entry next_seq maybe_finish_rekey count_entries_below_kv put_entry set_group_rekey
    delete_old_kv_envelopes update_group
in_between_seq = refl

stale_refused_example :
    (push_one
      (pushes in_between (push_one base_db 7 70 2000 edit).1)
      8
      80
      2003
      other_edit).0.0.is_ok
    ≡ false
stale_refused_example =
    stale_refused base_db 7 70 2000 edit in_between 8 80 2003 other_edit base_db-IsWellFormed
      edit_is_ok refl refl

race-LostUpdate_example :
    LostUpdate base_db 80 edit edit (race base_db (7, 70, edit) (8, 80, edit) 2000)
race-LostUpdate_example =
    race-LostUpdate base_db 7 70 edit group_one 8 80 edit group_one 2000 base_db-IsWellFormed
      (base_db-Runs 70 (inl refl)) (base_db-Runs 80 (inr refl)) (edit-Accepts 7 (inl refl))
      (edit-Accepts 8 (inr refl)) refl

foreign-Accepts : Accepts base_db 7 foreign_edit group_one
foreign-Accepts = record {
  member = refl;
  found = refl;
  open_group = omega arith;
  fits = omega arith;
  current_key = refl;
  base = refl;
}

foreign_entry_written_example :
    ((push_one base_db 7 70 2000 foreign_edit).0.0 ≡ accepted 101 7)
    × (find_entry 101 (push_one base_db 7 70 2000 foreign_edit).1.entries
        ≡ some (record (pushed base_db 70 2000 foreign_edit) { group_id = 2 }))
foreign_entry_written_example =
    foreign_entry_written base_db 7 70 2000 foreign_edit group_one grave base_db-IsWellFormed
      (base_db-Runs 70 (inl refl)) foreign-Accepts refl refl
