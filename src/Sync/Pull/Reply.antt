-- ===== src/Sync/Pull/Reply.antt =====
-- What a successful pull replies with.
use zt_data_sync.Sync.Pull.Changes.{
  In-sort_by_seq, sort_by_seq-Ascending, length-sort_by_seq, sort_by_seq-All, In-take_below,
}
use zt_data_sync.Store.Laws.{IsWellFormed, DistinctSeqs-filter}
use mathlib.Core.Path.{ap₂}
use zt_data_sync.Sync.Failure.{from_store}
use zt_data_sync.Sync.Push.{change_of}
use zt_data_sync.Prelude.Elements.{
  In, In-of_map, In-filter, In-of_filter, All-In, In-map, All-of_In,
}
use zt_data_sync.Proto.{SyncResponse, Change}
use zt_data_sync.Store.Queries.{
  list_user_groups, get_group_member, is_member, sort_by_seq, pull_changes, get_server_seq,
  get_user_envelopes,
}
use zt_data_sync.Prelude.Int.{ℤ}
use zt_data_sync.Sync.Pull.{
  pull_across, requested_groups, filter_groups, in_groups, own_changes, pull_limit, clamp, reply,
  new_envelopes,
}
use zt_data_sync.Store.Rows.{Db, GroupMember, Entry, Group, ok, bind-ok}
use zt_data_sync.Prelude.{
  ℕ, [], true, if◌then◌else◌, ◌==◌, ◌≡◌, ◌<◌, ◌∷◌, List, take, filter, ltb, arith, ◌∙◌, inl, inr,
  Bool-cases, ap, ==_iff, ◌≤◌, All, length, ltb→lt, take-of_short, All-take,
}

abbrev pub groups_of : Db → ℕ → List Group
groups_of db user_id = filter (λ g. is_member g.id user_id db.members) db.groups

-- The groups of the user that a request reaches.
abbrev pub reached : Db → ℕ → ℕ → List Group
reached db user_id gid =
    if gid == 0 then groups_of db user_id else filter_groups (groups_of db user_id) gid

abbrev pub newer : Db → ℕ → List Entry
newer db n = filter (λ e. ltb n e.seq) db.entries

-- The entries above the cursor, up to the limit.
abbrev pub page : Db → ℤ → List Entry
page db since = take pull_limit (sort_by_seq (newer db (clamp since)))

pub record Replies (db later : Db) (user_id : ℕ) (since : ℤ) (gid : ℕ) (kvs : List (ℕ × ℕ))
    (r : SyncResponse) : Type 0 where
  pub server_seq : r.server_seq ≡ later.seq
  pub changes : r.changes ≡ own_changes (reached db user_id gid) (page db since)
  pub envelopes :
      r.key_envelopes ≡ new_envelopes gid kvs (filter (λ e. e.user_id == user_id) db.envelopes)

all_groups :
    (db : Db) (user_id : ℕ) (gs : List Group)
    → from_store (list_user_groups db user_id) ≡ ok gs
    → gs ≡ groups_of db user_id
unfolding list_user_groups
all_groups db user_id gs h = ground arith

requested :
    (db : Db) (user_id gid : ℕ) (all gs : List Group)
    → requested_groups db user_id gid all ≡ ok gs
    → gs ≡ (if gid == 0 then all else filter_groups all gid)
unfolding requested_groups get_group_member
requested db user_id gid all gs h = ground arith

page_rows :
    (db : Db) (since : ℤ) (rows : List Entry)
    → from_store (pull_changes db (clamp since) pull_limit) ≡ ok rows
    → rows ≡ page db since
unfolding pull_changes
page_rows db since rows h = ground arith

seq_read : (db : Db) (n : ℕ) → from_store (get_server_seq db) ≡ ok n → n ≡ db.seq
unfolding get_server_seq
seq_read db n h = ground arith

reply_parts :
    (db later : Db) (user_id gid : ℕ) (kvs : List (ℕ × ℕ)) (groups : List Group) (rows : List Entry)
    (r : SyncResponse)
    → reply db later user_id gid kvs groups rows ≡ ok r
    → (r.server_seq ≡ later.seq) × (r.changes ≡ own_changes groups rows)
unfolding get_server_seq
reply_parts db later user_id gid kvs groups rows r h = ground arith

reply_envelopes :
    (db later : Db) (user_id gid : ℕ) (kvs : List (ℕ × ℕ)) (groups : List Group) (rows : List Entry)
    (r : SyncResponse)
    → reply db later user_id gid kvs groups rows ≡ ok r
    → r.key_envelopes ≡ new_envelopes gid kvs (filter (λ e. e.user_id == user_id) db.envelopes)
unfolding get_server_seq get_user_envelopes
reply_envelopes db later user_id gid kvs groups rows r h = ground arith

pub pull_across-Replies :
    (db later : Db) (user_id : ℕ) (since : ℤ) (gid : ℕ) (kvs : List (ℕ × ℕ)) (r : SyncResponse)
    → pull_across db later user_id since gid kvs ≡ ok r
    → Replies db later user_id since gid kvs r
unfolding pull_across
pull_across-Replies db later user_id since gid kvs r h =
    let (all, h1, k1) = bind-ok (from_store (list_user_groups db user_id)) _ h in
    let (groups, h2, k2) = bind-ok (requested_groups db user_id gid all) _ k1 in
    let (rows, h3, k3) =
      bind-ok (from_store (pull_changes db (clamp since) pull_limit))
        (reply db later user_id gid kvs groups) k2 in
    let parts = reply_parts db later user_id gid kvs groups rows r k3 in
    let is_all = all_groups db user_id all h1 in
    let is_reached = requested db user_id gid all groups h2 in
    let is_page = page_rows db since rows h3 in
    record {
      server_seq = parts.0;
      changes =
          parts.1
          ∙ ap₂ own_changes
              (is_reached ∙ ap (λ gs. if gid == 0 then gs else filter_groups gs gid) is_all)
              is_page;
      envelopes = reply_envelopes db later user_id gid kvs groups rows r k3;
    }

-- A change of the reply is a stored entry, above the cursor and in a group of the user.
pub record Source (db : Db) (user_id : ℕ) (since : ℤ) (c : Change) (e : Entry) : Type 0 where
  pub stored_entry : In e db.entries
  pub same : change_of e ≡ c
  pub above : clamp since < e.seq
  pub member : is_member e.group_id user_id db.members ≡ true

in_groups-member :
    (uid : ℕ) (ms : List GroupMember) (gs : List Group) (e : Entry)
    → in_groups (filter (λ g. is_member g.id uid ms) gs) e ≡ true
    → is_member e.group_id uid ms ≡ true
in_groups-member uid ms [] e h = absurd (ground (arith, h))
in_groups-member uid ms (g ∷ gs) e h = elim (Bool-cases (is_member g.id uid ms)) [
  | inr out ↦ in_groups-member uid ms gs e (ground (arith, h, out))
  | inl inside ↦ elim (Bool-cases (g.id == e.group_id)) [
    | inl same ↦ rw (← (==_iff _ _).0 same) inside
    | inr other ↦ in_groups-member uid ms gs e (ground (arith, h, inside, other))
  ]
]

in_groups-found :
    (gid : ℕ) (gs : List Group) (e : Entry)
    → in_groups (filter_groups gs gid) e ≡ true
    → in_groups gs e ≡ true
in_groups-found gid [] e h = absurd (ground (arith, h))
in_groups-found gid (g ∷ gs) e h = ground (arith, in_groups-found gid gs e)

reached-member :
    (db : Db) (user_id gid : ℕ) (e : Entry)
    → in_groups (reached db user_id gid) e ≡ true
    → is_member e.group_id user_id db.members ≡ true
reached-member db user_id gid e h =
    in_groups-member user_id db.members db.groups e
      (ground (arith, h, in_groups-found gid (groups_of db user_id) e))

-- A stored entry above the cursor.
abbrev Above : Db → ℤ → Entry → Type 0
Above db since e = In e db.entries × (clamp since < e.seq)

page-Above : (db : Db) (since : ℤ) → All (Above db since) (page db since)
page-Above db since = All-take (Above db since) pull_limit (sort_by_seq (newer db (clamp since))) (
    sort_by_seq-All (Above db since) (newer db (clamp since))
      (All-of_In (Above db since) (newer db (clamp since)) above))
  where
    above : (e : Entry) → In e (newer db (clamp since)) → Above db since e
    above e m =
        let (n, t) = In-of_filter (λ x. ltb (clamp since) x.seq) e db.entries m in (n, ltb→lt _ _ t)

In-newer :
    (db : Db) (since : ℤ) (e : Entry)
    → In e db.entries
    → clamp since < e.seq
    → In e (newer db (clamp since))
In-newer db since e m h = In-filter (λ x. ltb (clamp since) x.seq) e db.entries (ground arith) m

-- Every change of a successful pull is a stored entry of a group that the user is a member of, and
-- is above the cursor, with a negative cursor read as 0.
pub pull_across-Source :
    (db later : Db) (user_id : ℕ) (since : ℤ) (gid : ℕ) (kvs : List (ℕ × ℕ)) (r : SyncResponse)
    (c : Change)
    → pull_across db later user_id since gid kvs ≡ ok r
    → In c r.changes
    → (e : Entry) × Source db user_id since c e
pull_across-Source db later user_id since gid kvs r c h m =
    let rep = pull_across-Replies db later user_id since gid kvs r h in
    let own : In c (own_changes (reached db user_id gid) (page db since)) = rw (← rep.changes) m in
    let (e, m', eq) = In-of_map change_of c _ own in
    let (in_page, reach) = In-of_filter (in_groups (reached db user_id gid)) e _ m' in
    let facts = All-In (Above db since) e (page db since) (page-Above db since) in_page in
    (
      e,
      record {
        stored_entry = facts.0;
        same = eq;
        above = facts.1;
        member = reached-member db user_id gid e reach;
      },
    )

-- Every stored entry of a reached group that is above the cursor and not above a change of the
-- reply is itself a change of the reply: a page leaves nothing out up to its last change.
pub pull_across-no_gap :
    (db later : Db) (user_id : ℕ) (since : ℤ) (gid : ℕ) (kvs : List (ℕ × ℕ)) (r : SyncResponse)
    (e : Entry) (c : Change)
    → IsWellFormed db
    → pull_across db later user_id since gid kvs ≡ ok r
    → In e db.entries
    → in_groups (reached db user_id gid) e ≡ true
    → clamp since < e.seq
    → In c r.changes
    → e.seq ≤ c.seq
    → In (change_of e) r.changes
pull_across-no_gap db later user_id since gid kvs r e c w h m reach above k le =
    let rep = pull_across-Replies db later user_id since gid kvs r h in
    let own : In c (own_changes (reached db user_id gid) (page db since)) = rw (← rep.changes) k in
    let (l, k', eq) = In-of_map change_of c _ own in
    let (l_in_page, _) = In-of_filter (in_groups (reached db user_id gid)) l _ k' in
    let rows = sort_by_seq (newer db (clamp since)) in
    let in_rows = In-sort_by_seq e _ (In-newer db since e m above) in
    let rising = sort_by_seq-Ascending _ (DistinctSeqs-filter _ db.entries w.distinct_seqs) in
    let in_page =
      In-take_below pull_limit e l rows rising in_rows l_in_page
        (rw (ap (λ (x : Change). x.seq) eq) le) in
    rw rep.changes
      (In-map change_of e _ (In-filter (in_groups (reached db user_id gid)) e _ reach in_page))

-- If no more entries than the page holds are above the cursor, every one of a reached group is a
-- change of the reply.
pub pull_across-short :
    (db later : Db) (user_id : ℕ) (since : ℤ) (gid : ℕ) (kvs : List (ℕ × ℕ)) (r : SyncResponse)
    (e : Entry)
    → pull_across db later user_id since gid kvs ≡ ok r
    → length (newer db (clamp since)) ≤ pull_limit
    → In e db.entries
    → in_groups (reached db user_id gid) e ≡ true
    → clamp since < e.seq
    → In (change_of e) r.changes
pull_across-short db later user_id since gid kvs r e h short m reach above =
    let rep = pull_across-Replies db later user_id since gid kvs r h in
    let in_rows = In-sort_by_seq e _ (In-newer db since e m above) in
    let whole =
      take-of_short pull_limit (sort_by_seq (newer db (clamp since)))
        (rw (length-sort_by_seq (newer db (clamp since))) short) in
    let in_page : In e (page db since) = rw whole in_rows in
    rw rep.changes
      (In-map change_of e _ (In-filter (in_groups (reached db user_id gid)) e _ reach in_page))
