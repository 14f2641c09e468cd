-- ===== src/Administration/Groups/Archived.antt =====
-- server/api/admin.go with server/sync/push.go and envelopes.go: what is left to do in a group that
-- is archived, and how it comes back.
use zt_data_sync.Proto.{Mutation, KeysUploadRequest}
use zt_data_sync.Store.Rows.{Group, Db, StoreError, Result, ok, err, group_archived, Result-cases}
use zt_data_sync.Store.Queries.{find_group, get_group, get_group_member}
use zt_data_sync.Store.Tx.{with_tx, update_group, insert_audit}
use zt_data_sync.Store.Access.{set_group_archived, with_archived}
use zt_data_sync.Sync.Push.{push_one}
use zt_data_sync.Sync.Push.Guards.{push_one-Writes, push_one_rejected}
use zt_data_sync.Sync.Envelopes.{upload_keys, check_upload}
use zt_data_sync.Sync.Envelopes.Append.{with_tx_ok}
use zt_data_sync.Authn.Tokens.{AuthContext, record_actor}
use zt_data_sync.Client.Served.{is_ok}
use zt_data_sync.Administration.{recorded, end_plain}
use zt_data_sync.Administration.Groups.{handle_archive, named_group, archive_found, archive_action}
use zt_data_sync.Prelude.{
  ℕ, false, some, List, [], ◌∷◌, ◌==◌, ◌≡◌, ◌≢◌, ◌⊎◌, refl, ap, sym, ◌∙◌, inl, inr, arith,
  Bool-cases,
}

-- The event of an action changes no group.
pub recorded-groups :
    (now : ℕ) (ac : AuthContext) (action : ℕ) (db : Db)
    → (recorded now ac action db).groups ≡ db.groups
unfolding record_actor with_tx insert_audit
recorded-groups now ac action db = ground arith

abbrev pub marked : ℕ → ℕ → ℕ → List Group → List Group
marked gid archived at gs = update_group gid (with_archived archived at) gs

-- The first row of that identifier is marked.
pub find_group-marked :
    (gid archived at : ℕ) (gs : List Group) {g : Group}
    → find_group gid (marked gid archived at gs) ≡ some g
    → g.archived ≡ archived
unfolding update_group
find_group-marked gid archived at [] h = absurd (ground (arith, h))
find_group-marked gid archived at (x ∷ xs) {g} h = elim (Bool-cases (x.id == gid)) [
  | inl same ↦ ground (arith, h, same)
  | inr other ↦ find_group-marked gid archived at xs {g = g} (ground (arith, h, other))
]

set_group_archived-ok :
    (gid archived at : ℕ) (db : Db) {r : Unit {0} × Db}
    → set_group_archived gid archived at db ≡ ok r
    → r.1.groups ≡ marked gid archived at db.groups
unfolding set_group_archived
set_group_archived-ok gid archived at db h = ground (arith, h)

-- An action that answers has run its transaction.
end_plain-groups :
    (now : ℕ) (ac : AuthContext) (action : ℕ) (p : Result StoreError (Unit {0}) × Db)
    → (end_plain now ac action p).0.0 ≡ ok tt
    → (p.0 ≡ ok tt) × ((end_plain now ac action p).1.groups ≡ p.1.groups)
end_plain-groups now ac action (err e, db) h = absurd (ground (arith, h))
end_plain-groups now ac action (ok u, db) h = (refl, recorded-groups now ac action db)

-- A transaction that marks the group and commits.
pub ended :
    (now : ℕ) (ac : AuthContext) (action gid archived at : ℕ) (db : Db)
    → (end_plain now ac action (with_tx (set_group_archived gid archived at) db)).0.0 ≡ ok tt
    → (end_plain now ac action (with_tx (set_group_archived gid archived at) db)).1.groups
      ≡ marked gid archived at db.groups
ended now ac action gid archived at db h =
    let p = with_tx (set_group_archived gid archived at) db in
    let (done, same) = end_plain-groups now ac action p h in
    let ran = with_tx_ok (set_group_archived gid archived at) db tt done in
    same ∙ set_group_archived-ok gid archived at db {r = (tt, p.1)} ran

pub found_group :
    (gid : ℕ) (db : Db) {g : Group} → get_group db gid ≡ ok g → find_group gid db.groups ≡ some g
unfolding get_group
found_group gid db h = ground (arith, h)

named :
    (gid confirm_name : ℕ) (db : Db) {g : Group}
    → named_group gid confirm_name db ≡ ok g
    → get_group db gid ≡ ok g
named gid confirm_name db h = ground (arith, h)

archive_fresh :
    (now : ℕ) (ac : AuthContext) (gid : ℕ) (db : Db) (g : Group)
    → (g.archived == group_archived) ≡ false
    → archive_found now ac gid db (ok g)
      ≡ end_plain now ac archive_action (with_tx (set_group_archived gid group_archived now) db)
archive_fresh now ac gid db g fresh = simp fresh

pub no_push :
    (gid : ℕ) (db : Db) (user_id device_id now : ℕ) (m : Mutation)
    → m.group_id ≡ gid
    → ((g : Group) → find_group gid db.groups ≡ some g → g.archived ≡ group_archived)
    → (push_one db user_id device_id now m).0.0.is_ok ≡ false
no_push gid db user_id device_id now m to shut =
    elim (Bool-cases (push_one db user_id device_id now m).0.0.is_ok) [
      | inr refused ↦ refused
      | inl passed ↦
          let (g, w) = push_one-Writes db user_id device_id now m passed in
          absurd (
            w.accepts.open_group
              (shut g (sym (ap (λ x. find_group x db.groups) to) ∙ w.accepts.found)))
    ]

checked_open :
    (db : Db) (user_id gid : ℕ) (req : KeysUploadRequest) {r : Group × List ℕ}
    → check_upload db user_id gid req ≡ ok r
    → (find_group gid db.groups ≡ some r.0) × (r.0.archived ≢ group_archived)
unfolding check_upload get_group_member get_group
checked_open db user_id gid req h = (ground (arith, h), ground (arith, h))

no_upload :
    (db : Db) (now user_id gid : ℕ) (req : KeysUploadRequest)
    → ((g : Group) → find_group gid db.groups ≡ some g → g.archived ≡ group_archived)
    → (is_ok (upload_keys db now user_id gid req).0.0 ≡ false)
      × ((upload_keys db now user_id gid req).1 ≡ db)
unfolding upload_keys
no_upload db now user_id gid req shut = elim (Result-cases (check_upload db user_id gid req)) [
  | inl (r, passed) ↦
      let (found, active) = checked_open db user_id gid req {r = r} passed in
      absurd (active (shut r.0 found))
  | inr (e, refused) ↦ (ground (arith, refused), ground (arith, refused))
]

-- Either the group was archived before, or it is marked now.
pub archive-groups :
    (now : ℕ) (ac : AuthContext) (gid confirm_name : ℕ) (db : Db)
    → (handle_archive now ac gid confirm_name db).0.0 ≡ ok tt
    → (g : Group) × (find_group gid db.groups ≡ some g)
      × (((g.archived ≡ group_archived)
            × ((handle_archive now ac gid confirm_name db).1.groups ≡ db.groups))
          ⊎ ((handle_archive now ac gid confirm_name db).1.groups
              ≡ marked gid group_archived now db.groups))
unfolding handle_archive
archive-groups now ac gid confirm_name db h =
    elim (Result-cases (named_group gid confirm_name db)) [
      | inr (e, unknown) ↦ absurd (ground (arith, h, unknown))
      | inl (g, is) ↦ (
        g,
        found_group gid db {g = g} (named gid confirm_name db is),
        elim (Bool-cases (g.archived == group_archived)) [
          | inl before ↦
              inl (
                ground (arith, before),
                simp (is, before) (recorded-groups now ac archive_action db),
              )
          | inr fresh ↦ inr (
              simp (is, fresh)
                (ended now ac archive_action gid group_archived now db (
                  sym (ap (λ x. x.0.0) (archive_fresh now ac gid db g fresh))
                  ∙ sym (ap (λ x. (archive_found now ac gid db x).0.0) is)
                  ∙ h)))
        ],
      )
    ]

pub archived_after :
    (now : ℕ) (ac : AuthContext) (gid confirm_name : ℕ) (db : Db) {g : Group}
    → (handle_archive now ac gid confirm_name db).0.0 ≡ ok tt
    → find_group gid (handle_archive now ac gid confirm_name db).1.groups ≡ some g
    → g.archived ≡ group_archived
archived_after now ac gid confirm_name db {g} h found =
    let (g0, there, after) = archive-groups now ac gid confirm_name db h in
    elim after [
      | inl (before, same) ↦ ground (arith, found, ap (find_group gid) same, there, before)
      | inr is ↦
          find_group-marked gid group_archived now db.groups {g = g}
            (sym (ap (find_group gid) is) ∙ found)
    ]

-- Once a group is archived, a push to it is refused and changes nothing, and so is an upload of
-- envelopes for it, whoever sends them.
pub handle_archive-shuts :
    (now : ℕ) (ac : AuthContext) (gid confirm_name : ℕ) (db : Db) (user_id device_id later : ℕ)
    (m : Mutation) (req : KeysUploadRequest)
    → (handle_archive now ac gid confirm_name db).0.0 ≡ ok tt
    → m.group_id ≡ gid
    → let after = (handle_archive now ac gid confirm_name db).1 in
      ((push_one after user_id device_id later m).0.0.is_ok ≡ false)
      × ((push_one after user_id device_id later m).1 ≡ after)
      × (is_ok (upload_keys after later user_id gid req).0.0 ≡ false)
      × ((upload_keys after later user_id gid req).1 ≡ after)
handle_archive-shuts now ac gid confirm_name db user_id device_id later m req h to =
    let after = (handle_archive now ac gid confirm_name db).1 in
    let refused =
      no_push gid after user_id device_id later m to
        (λ g. archived_after now ac gid confirm_name db {g = g} h) in
    let (stopped, same) =
      no_upload after later user_id gid req
        (λ g. archived_after now ac gid confirm_name db {g = g} h) in
    (refused, (push_one_rejected after user_id device_id later m refused).0, stopped, same)
