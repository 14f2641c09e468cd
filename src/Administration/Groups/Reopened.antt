-- ===== src/Administration/Groups/Reopened.antt =====
-- server/api/admin.go with server/sync/push.go: an archived group that is opened again.
use mathlib.Core.Path.{ap₂}
use zt_data_sync.Proto.{Mutation}
use zt_data_sync.Store.Rows.{Group, Db, Stmt, ok, group_archived, group_not_archived, Result-cases}
use zt_data_sync.Store.Queries.{find_group, get_group}
use zt_data_sync.Store.Tx.{with_tx, update_group, insert_audit}
use zt_data_sync.Store.Access.{set_group_archived, with_archived}
use zt_data_sync.Sync.Push.Conflict.{pushes}
use zt_data_sync.Sync.Push.Guards.{push_one_rejected}
use zt_data_sync.Registration.{present}
use zt_data_sync.Authn.Tokens.{AuthContext, record_actor}
use zt_data_sync.Administration.{end_plain, recorded}
use zt_data_sync.Administration.Groups.{
  handle_archive, handle_unarchive, unarchive_found, unarchive_action, archive_action, named_group,
}
use zt_data_sync.Administration.Groups.Archived.{
  marked, ended, found_group, archive-groups, archived_after, no_push,
}
use zt_data_sync.Prelude.{
  ℕ, Bool, false, some, none, List, [], ◌∷◌, ◌==◌, ◌≡◌, refl, ap, sym, ◌∙◌, inl, inr, arith,
  Bool-cases, All,
}

find_group-marked_other :
    (gid id archived at : ℕ) (gs : List Group)
    → (id == gid) ≡ false
    → find_group id (marked gid archived at gs) ≡ find_group id gs
unfolding update_group
find_group-marked_other gid id archived at [] h = refl
find_group-marked_other gid id archived at (x ∷ xs) h =
    ground (arith, h, find_group-marked_other gid id archived at xs h)

find_group-marked_this :
    (gid archived at : ℕ) (gs : List Group) (g : Group)
    → find_group gid gs ≡ some g
    → find_group gid (marked gid archived at gs) ≡ some (with_archived archived at g)
unfolding update_group
find_group-marked_this gid archived at [] g h = absurd (ground (arith, h))
find_group-marked_this gid archived at (x ∷ xs) g h = elim (Bool-cases (x.id == gid)) [
  | inl same ↦
      let is : x ≡ g = ground (arith, h, same) in
      ground (arith, same, ap (λ y. some (with_archived archived at y)) is)
  | inr other ↦
      ground (arith, other, find_group-marked_this gid archived at xs g (ground (arith, h, other)))
]

reopened :
    (gid id now : ℕ) (gs : List Group) (g : Group)
    → find_group gid gs ≡ some g
    → g.archived ≡ group_not_archived
    → g.archived_at ≡ none
    → find_group id (marked gid group_not_archived 0 (marked gid group_archived now gs))
      ≡ find_group id gs
reopened gid id now gs g found was no_time = elim (Bool-cases (id == gid)) [
  | inr other ↦
      find_group-marked_other gid id group_not_archived 0 (marked gid group_archived now gs) other
      ∙ find_group-marked_other gid id group_archived now gs other
  | inl this ↦
      let once = find_group-marked_this gid group_archived now gs g found in
      let twice =
        find_group-marked_this gid group_not_archived 0 (marked gid group_archived now gs)
          (with_archived group_archived now g) once in
      let is : id ≡ gid = ground (arith, this) in
      rw is (
        twice
        ∙ ap₂ (λ a t. some (record g { archived = a; archived_at = t })) (sym was) (sym no_time)
        ∙ sym found)
]

unarchive-groups :
    (now : ℕ) (ac : AuthContext) (gid : ℕ) (db : Db)
    → (handle_unarchive now ac gid db).0.0 ≡ ok tt
    → ((g : Group) → find_group gid db.groups ≡ some g → g.archived ≡ group_archived)
    → (handle_unarchive now ac gid db).1.groups ≡ marked gid group_not_archived 0 db.groups
unfolding handle_unarchive
unarchive-groups now ac gid db h shut = elim (Result-cases (get_group db gid)) [
  | inr (e, missing) ↦ absurd (ground (arith, h, missing))
  | inl (g, is) ↦
      let fresh : (g.archived == group_not_archived) ≡ false =
        ground (arith, shut g (found_group gid db {g = g} is)) in
      let p =
        end_plain now ac unarchive_action
          (with_tx (set_group_archived gid group_not_archived 0) db) in
      let from : unarchive_found now ac gid db (present (get_group db gid)) ≡ p =
        ap (λ x. unarchive_found now ac gid db (present x)) is ∙ simp fresh in
      ap (λ x. x.1.groups) from
      ∙ ended now ac unarchive_action gid group_not_archived 0 db (sym (ap (λ x. x.0.0) from) ∙ h)
]

-- The entries and the counter of the sequence numbers are the same.
record SameEntries (db db' : Db) : Type 0 where
  entries : db'.entries ≡ db.entries
  seq : db'.seq ≡ db.seq

recorded-SameEntries :
    (now : ℕ) (ac : AuthContext) (action : ℕ) (db : Db) → SameEntries db (recorded now ac action db)
unfolding record_actor with_tx insert_audit
recorded-SameEntries now ac action db = record { entries = ground arith; seq = ground arith }

end_plain-SameEntries :
    (now : ℕ) (ac : AuthContext) (action gid archived at : ℕ) (db : Db)
    → SameEntries db (end_plain now ac action (with_tx (set_group_archived gid archived at) db)).1
unfolding with_tx set_group_archived record_actor insert_audit
end_plain-SameEntries now ac action gid archived at db = record {
  entries = ground arith;
  seq = ground arith;
}

handle_archive-SameEntries :
    (now : ℕ) (ac : AuthContext) (gid confirm_name : ℕ) (db : Db)
    → SameEntries db (handle_archive now ac gid confirm_name db).1
unfolding handle_archive
handle_archive-SameEntries now ac gid confirm_name db =
    elim (Result-cases (named_group gid confirm_name db)) [
      | inr (e, unknown) ↦ rw unknown (record { entries = refl; seq = refl })
      | inl (g, is) ↦ rw is (elim (Bool-cases (g.archived == group_archived)) [
        | inl before ↦ rw before (recorded-SameEntries now ac archive_action db)
        | inr fresh ↦
            rw fresh (end_plain-SameEntries now ac archive_action gid group_archived now db)
      ])
    ]

handle_unarchive-SameEntries :
    (now : ℕ) (ac : AuthContext) (gid : ℕ) (db : Db)
    → SameEntries db (handle_unarchive now ac gid db).1
unfolding handle_unarchive
handle_unarchive-SameEntries now ac gid db = elim (Result-cases (present (get_group db gid))) [
  | inr (e, missing) ↦ rw missing (record { entries = refl; seq = refl })
  | inl (g, is) ↦ rw is (elim (Bool-cases (g.archived == group_not_archived)) [
    | inl active ↦ rw active (recorded-SameEntries now ac unarchive_action db)
    | inr shut ↦ rw shut (end_plain-SameEntries now ac unarchive_action gid group_not_archived 0 db)
  ])
]

-- Pushes to a group that is archived, with faults of the driver anywhere, leave these tables.
pushes_to_archived :
    (gid : ℕ) (ps : List ((Stmt → Bool) × ℕ × ℕ × ℕ × Mutation)) (db : Db)
    → All (λ p. p.4.group_id ≡ gid) ps
    → ((g : Group) → find_group gid db.groups ≡ some g → g.archived ≡ group_archived)
    → ((pushes ps db).groups ≡ db.groups) × SameEntries db (pushes ps db)
unfolding pushes
pushes_to_archived gid [] db to shut = (refl, record { entries = refl; seq = refl })
pushes_to_archived gid ((fails, user_id, device_id, now, m) ∷ ps) db to shut =
    let faulty : Db = record db { fails = fails } in
    let refused = no_push gid faulty user_id device_id now m to.0 shut in
    let (groups, same) = pushes_to_archived gid ps faulty to.1 shut in
    let stays = ap (pushes ps) (push_one_rejected faulty user_id device_id now m refused).0 in
    (
      ap (λ (d : Db). d.groups) stays ∙ groups,
      record {
        entries = ap (λ (d : Db). d.entries) stays ∙ same.entries;
        seq = ap (λ (d : Db). d.seq) stays ∙ same.seq;
      },
    )

-- Archiving a group that is not archived and has no time of archiving marks it and notes the time.
-- Where nothing but pushes to the group is sent before it is opened again, by any users and with
-- faults of the driver anywhere, and both requests are answered without an error, the group is then
-- as it was, with no time of archiving, and so are every other group, the entries and the counter of
-- the sequence numbers.
pub handle_unarchive-handle_archive :
    (now later : ℕ) (ac : AuthContext) (gid confirm_name id : ℕ) (db : Db) (g : Group)
    (between : List ((Stmt → Bool) × ℕ × ℕ × ℕ × Mutation))
    → find_group gid db.groups ≡ some g
    → g.archived ≡ group_not_archived
    → g.archived_at ≡ none
    → All (λ p. p.4.group_id ≡ gid) between
    → (handle_archive now ac gid confirm_name db).0.0 ≡ ok tt
    → let shut = (handle_archive now ac gid confirm_name db).1 in
      (handle_unarchive later ac gid (pushes between shut)).0.0 ≡ ok tt
      → let back = (handle_unarchive later ac gid (pushes between shut)).1 in
        (find_group gid shut.groups
          ≡ some (record g { archived = group_archived; archived_at = some now }))
        × (find_group id back.groups ≡ find_group id db.groups)
        × (back.entries ≡ db.entries)
        × (back.seq ≡ db.seq)
handle_unarchive-handle_archive now later ac gid confirm_name id db g between found was no_time to
      first second =
    let shut = (handle_archive now ac gid confirm_name db).1 in
    let closed : (x : Group) → find_group gid shut.groups ≡ some x → x.archived ≡ group_archived =
      λ x. archived_after now ac gid confirm_name db {g = x} first in
    let (groups, kept) = pushes_to_archived gid between shut to closed in
    let before = handle_archive-SameEntries now ac gid confirm_name db in
    let after = handle_unarchive-SameEntries later ac gid (pushes between shut) in
    let back =
      unarchive-groups later ac gid (pushes between shut) second
        (λ x e. closed x (sym (ap (find_group gid) groups) ∙ e)) in
    let (g0, there, how) = archive-groups now ac gid confirm_name db first in
    let is : shut.groups ≡ marked gid group_archived now db.groups = elim how [
      | inl (already, same) ↦ absurd (ground (arith, already, was, found, there))
      | inr marks ↦ marks
    ] in
    (
      ap (find_group gid) is ∙ find_group-marked_this gid group_archived now db.groups g found,
      ap (find_group id) (back ∙ ap (marked gid group_not_archived 0) (groups ∙ is))
          ∙ reopened gid id now db.groups g found was no_time,
      after.entries ∙ kept.entries ∙ before.entries,
      after.seq ∙ kept.seq ∙ before.seq,
    )
