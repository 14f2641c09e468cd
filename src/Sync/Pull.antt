-- ===== src/Sync/Pull.antt =====
-- server/sync/pull.go: `Pull`, and the state of the groups that it sends. The reads are separate
-- statements; what other requests may write between the changes and the counter is a second
-- database.
pub mod Changes
pub mod Reply
pub mod Declared
use zt_data_sync.Prelude.Int.{ℤ, pos, negsuc}
use zt_data_sync.Prelude.Membership.{contains}
use zt_data_sync.Sync.Push.{change_of}
use zt_data_sync.Proto.{GroupState, Change, SyncResponse, KeyEnvelopeInfo, err_not_member}
use zt_data_sync.Store.Queries.{
  find_group, get_user_by_id, list_group_members, list_user_groups, get_group_envelopes,
  get_group_member, pull_changes, get_user_envelopes, get_server_seq,
}
use zt_data_sync.Store.Rows.{
  Db, Group, GroupMember, Entry, Result, Envelope, rekey_pending, StoreError, ok, group_archived,
  ◌>>=◌, err, UserStatus,
}
use zt_data_sync.Prelude.{
  ℕ, [], some, none, true, if◌then◌else◌, ◌==◌, ◌&&◌, ◌||◌, ◌∷◌, List, Option, Bool, leb, ltb, any,
  map, filter, not,
}
use zt_data_sync.Sync.Failure.{Failure, from_store, require}

abbrev pub pull_limit : ℕ
pull_limit = 500

-- A negative cursor counts as 0.
abbrev pub clamp : ℤ → ℕ
clamp (pos n) = n
clamp (negsuc n) = 0

-- The ids of the members whose user is active.
unfoldable pub active_of : Db → List GroupMember → Result StoreError (List ℕ)
active_of db [] = ok []
active_of db (m ∷ ms) =
    let rest = active_of db ms in
    elim (get_user_by_id db m.user_id) [
      | err StoreError.no_rows ↦ rest
      | err e ↦ err e
      | ok u ↦ elim u.status [
        | UserStatus.active ↦ rest >>= λ ids. ok (m.user_id ∷ ids)
        | UserStatus.revoked ↦ rest
      ]
    ]

-- `sort.Strings`
unfoldable pub insert_id : ℕ → List ℕ → List ℕ
insert_id a [] = a ∷ []
insert_id a (x ∷ xs) = if leb a x then a ∷ x ∷ xs else x ∷ insert_id a xs

unfoldable pub sort_ids : List ℕ → List ℕ
unfolding insert_id
sort_ids [] = []
sort_ids (x ∷ xs) = insert_id x (sort_ids xs)

abbrev pub user_ids : List Envelope → List ℕ
user_ids es = map (λ e. e.user_id) es

-- With no envelope at the group's key version all active members lack one.
unfoldable pub lacking : List ℕ → List Envelope → List ℕ
unfolding sort_ids
lacking active [] = active
lacking active (e ∷ es) = sort_ids (filter (λ uid. not (contains uid (user_ids (e ∷ es)))) active)

-- The members that lack an envelope, and the active members.
unfoldable pub missing_envelopes : Db → Group → Result StoreError (List ℕ × List ℕ)
missing_envelopes db g = if g.archived == group_archived then ok ([], []) else (do
  members ← list_group_members db g.id
  ids ← active_of db members
  let active = sort_ids ids
  envs ← get_group_envelopes db g.id g.key_version
  ok (lacking active envs, active))

abbrev pub state_of : Group → List ℕ × List ℕ → GroupState
state_of g (missing, active) = record {
  id = g.id;
  name = g.name;
  key_version = g.key_version;
  pending_rekey = g.pending_rekey == rekey_pending;
  archived = g.archived == group_archived;
  missing_envelopes = missing;
  active_members = active;
}

unfoldable pub group_states : Db → List Group → Result StoreError (List GroupState)
group_states db [] = ok []
group_states db (g ∷ gs) =
    let rest = group_states db gs in
    missing_envelopes db g >>= λ r. rest >>= λ states. ok (state_of g r ∷ states)

-- The first group of that id, if the user has it.
abbrev pub filter_groups : List Group → ℕ → List Group
filter_groups gs gid = elim (find_group gid gs) [ none ↦ [] | some g ↦ g ∷ [] ]

-- All groups of the user, or the one that the request names, of which the user must be a member.
unfoldable pub requested_groups : Db → ℕ → ℕ → List Group → Result Failure (List Group)
requested_groups db user_id gid groups = if gid == 0 then ok groups else (do
  member ← from_store (get_group_member db gid user_id)
  _ ← require member err_not_member
  ok (filter_groups groups gid))

abbrev pub in_groups : List Group → Entry → Bool
in_groups gs e = any (λ g. g.id == e.group_id) gs

abbrev pub own_changes : List Group → List Entry → List Change
own_changes gs es = map change_of (filter (in_groups gs) es)

abbrev pub declared : ℕ → List (ℕ × ℕ) → Option ℕ
declared gid [] = none
declared gid ((g, kv) ∷ rest) = if g == gid then some kv else declared gid rest

abbrev pub is_newer : ℕ → Option ℕ → Bool
is_newer kv none = true
is_newer kv (some decl) = ltb decl kv

-- The user's envelopes of the requested groups that are newer than the declared versions.
unfoldable pub new_envelopes : ℕ → List (ℕ × ℕ) → List Envelope → List KeyEnvelopeInfo
new_envelopes gid kvs es =
    map
      (λ e. record {
        group_id = e.group_id;
        key_version = e.key_version;
        wrapped_dek = e.wrapped_dek;
      })
      (filter
        (λ e.
          ((gid == 0) || (e.group_id == gid)) && is_newer e.key_version (declared e.group_id kvs))
        es)

-- The envelopes and the states of the groups, and the reply.
abbrev pub reply :
    Db → Db → ℕ → ℕ → List (ℕ × ℕ) → List Group → List Entry → Result Failure SyncResponse
reply db later user_id gid kvs groups rows = do
  envs ← from_store (get_user_envelopes db user_id)
  states ← from_store (group_states db groups)
  seq ← from_store (get_server_seq later)
  ok (record {
    server_seq = seq;
    changes = own_changes groups rows;
    key_envelopes = new_envelopes gid kvs envs;
    groups = states;
  })

-- The reads of one request; the last one sees `later`.
unfoldable pub pull_across : Db → Db → ℕ → ℤ → ℕ → List (ℕ × ℕ) → Result Failure SyncResponse
pull_across db later user_id since gid kvs = do
  all ← from_store (list_user_groups db user_id)
  groups ← requested_groups db user_id gid all
  rows ← from_store (pull_changes db (clamp since) pull_limit)
  reply db later user_id gid kvs groups rows

-- With nothing written in between.
unfoldable pub pull : Db → ℕ → ℤ → ℕ → List (ℕ × ℕ) → Result Failure SyncResponse
unfolding pull_across
pull db user_id since gid kvs = pull_across db db user_id since gid kvs
