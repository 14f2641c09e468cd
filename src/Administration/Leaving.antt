-- ===== src/Administration/Leaving.antt =====
-- server/api/admin.go: the loop that takes a user out of groups and has them rekeyed.

use zt_data_sync.Store.Rows.{Group, GroupMember, Db, ok, rekey_pending, bind-ok}
use zt_data_sync.Store.Queries.{is_member}
use zt_data_sync.Store.Tx.{then_tx, set_group_rekey, update_group}
use zt_data_sync.Store.Access.{remove_group_member}
use zt_data_sync.Administration.{leave_groups}
use zt_data_sync.Prelude.{
  ℕ, Bool, true, false, not, ◌&&◌, List, [], ◌∷◌, ◌==◌, ◌≡◌, refl, filter, any, All, ap, ◌∙◌, arith,
}

pub any-filter :
    {A : Type 0} (p : A → Bool) (xs : List A) → any p (filter (λ x. not (p x)) xs) ≡ false
any-filter p [] = refl
any-filter p (x ∷ xs) = ground (arith, any-filter p xs)

-- A filter keeps what is absent so.
any-of_filter :
    {A : Type 0} (p q : A → Bool) (xs : List A) → any p xs ≡ false → any p (filter q xs) ≡ false
any-of_filter p q [] h = refl
any-of_filter p q (x ∷ xs) h = ground (arith, h, any-of_filter p q xs (ground (arith, h)))

-- Every row of the group waits for a rekey.
abbrev pub waits : ℕ → List Group → Bool
waits gid gs = not (any (λ (g : Group). (g.id == gid) && not (g.pending_rekey == rekey_pending)) gs)

update_group-waits :
    (gid : ℕ) (gs : List Group)
    → waits gid (update_group gid (λ g. record g { pending_rekey = rekey_pending }) gs) ≡ true
unfolding update_group
update_group-waits gid [] = refl
update_group-waits gid (g ∷ gs) = ground (arith, update_group-waits gid gs)

waits-update_group :
    (gid other : ℕ) (gs : List Group)
    → waits gid gs ≡ true
    → waits gid (update_group other (λ g. record g { pending_rekey = rekey_pending }) gs) ≡ true
unfolding update_group
waits-update_group gid other [] h = refl
waits-update_group gid other (g ∷ gs) h =
    ground (arith, h, waits-update_group gid other gs (ground (arith, h)))

-- What the loop leaves, and what it keeps.
pub record Left (uid : ℕ) (gs : List Group) (before after : Db) : Type 0 where
  pub users : after.users ≡ before.users
  pub devices : after.devices ≡ before.devices
  pub envelopes : after.envelopes ≡ before.envelopes
  pub out : All (λ (g : Group). is_member g.id uid after.members ≡ false) gs
  pub stays_out :
      (gid : ℕ) → is_member gid uid before.members ≡ false → is_member gid uid after.members ≡ false
  pub waiting : All (λ (g : Group). waits g.id after.groups ≡ true) gs
  pub keeps_waiting : (gid : ℕ) → waits gid before.groups ≡ true → waits gid after.groups ≡ true

remove_group_member-ok :
    (gid uid : ℕ) (db : Db) {r : Unit {0} × Db}
    → remove_group_member gid uid db ≡ ok r
    → r.1 ≡ record db {
      members =
          filter (λ (m : GroupMember). not ((m.group_id == gid) && (m.user_id == uid))) db.members;
    }
unfolding remove_group_member
remove_group_member-ok gid uid db h = ground (arith, h)

set_group_rekey-ok :
    (gid : ℕ) (db : Db) {r : Unit {0} × Db}
    → set_group_rekey gid rekey_pending db ≡ ok r
    → r.1 ≡ record db {
      groups = update_group gid (λ g. record g { pending_rekey = rekey_pending }) db.groups;
    }
unfolding set_group_rekey
set_group_rekey-ok gid db h = ground (arith, h)

pub leave_groups-Left :
    (uid : ℕ) (gs : List Group) (db : Db) {r : Unit {0} × Db}
    → leave_groups uid gs db ≡ ok r
    → Left uid gs db r.1
unfolding leave_groups
leave_groups-Left uid [] db {r} h =
    let same : r.1 ≡ db = ground (arith, h) in
    rw same (record {
      users = refl;
      devices = refl;
      envelopes = refl;
      out = tt;
      stays_out = λ gid k. k;
      waiting = tt;
      keeps_waiting = λ gid k. k;
    })
leave_groups-Left uid (g ∷ gs) db {r} h =
    let (one, removed, more) =
      bind-ok (remove_group_member g.id uid db)
        (λ m. then_tx (set_group_rekey g.id rekey_pending) (leave_groups uid gs) m.1) h in
    let (two, marked, rest) =
      bind-ok (set_group_rekey g.id rekey_pending one.1) (λ m. leave_groups uid gs m.1) more in
    let ih = leave_groups-Left uid gs two.1 {r = r} rest in
    let db1 = remove_group_member-ok g.id uid db {r = one} removed in
    let db2 = set_group_rekey-ok g.id one.1 {r = two} marked in
    let members : two.1.members
        ≡ filter (λ (m : GroupMember). not ((m.group_id == g.id) && (m.user_id == uid)))
            db.members =
      ap (λ (x : Db). x.members) db2 ∙ ap (λ (x : Db). x.members) db1 in
    let groups : two.1.groups
        ≡ update_group g.id (λ x. record x { pending_rekey = rekey_pending }) db.groups =
      ap (λ (x : Db). x.groups) db2
      ∙ ap
          (λ (x : Db). update_group g.id (λ y. record y { pending_rekey = rekey_pending }) x.groups)
          db1 in
    let member = λ (gid : ℕ) (m : GroupMember). (m.group_id == gid) && (m.user_id == uid) in
    record {
      users = ih.users ∙ ap (λ (x : Db). x.users) db2 ∙ ap (λ (x : Db). x.users) db1;
      devices = ih.devices ∙ ap (λ (x : Db). x.devices) db2 ∙ ap (λ (x : Db). x.devices) db1;
      envelopes =
          ih.envelopes ∙ ap (λ (x : Db). x.envelopes) db2 ∙ ap (λ (x : Db). x.envelopes) db1;
      out = (
        ih.stays_out g.id (ap (is_member g.id uid) members ∙ any-filter (member g.id) db.members),
        ih.out,
      );
      stays_out = λ gid k. ih.stays_out gid (
          ap (is_member gid uid) members
          ∙ any-of_filter (member gid) (λ m. not (member g.id m)) db.members k);
      waiting = (
        ih.keeps_waiting g.id (ap (waits g.id) groups ∙ update_group-waits g.id db.groups),
        ih.waiting,
      );
      keeps_waiting = λ gid k.
          ih.keeps_waiting gid (ap (waits gid) groups ∙ waits-update_group gid g.id db.groups k);
    }
