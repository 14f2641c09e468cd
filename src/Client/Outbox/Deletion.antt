-- ===== src/Client/Outbox/Deletion.antt =====
-- A local deletion reaches the server although the entry was changed there meanwhile.
use zt_data_sync.Prelude.Assoc.{put}
use zt_data_sync.Proto.{Mutation}
use zt_data_sync.Store.Rows.{Db, Entry, Group, group_archived}
use zt_data_sync.Store.Queries.{find_entry, find_group, is_member}
use zt_data_sync.Sync.Push.{change_of, max_ciphertext}
use zt_data_sync.Client.Local.{LocalEntry, values}
use zt_data_sync.Client.Engine.{Vault}
use zt_data_sync.Client.Outbox.{Engine, push_dirty, tombstone_again}
use zt_data_sync.Client.Outbox.Rounds.{served}
use zt_data_sync.Prelude.{ℕ, Bool, List, some, true, ◌≡◌, ◌≢◌, length, filter, ◌≤◌}

-- The edits of a table.
abbrev dirty_of : List (ℕ × LocalEntry) → List LocalEntry
dirty_of m = filter (λ e. e.dirty) (values m)

-- All that a push needs but for its base, which is not the stored version's.
pub record Stale (db : Db) (user_id : ℕ) (m : Mutation) (g : Group) (cur : Entry) : Type 0 where
  pub member : is_member m.group_id user_id db.members ≡ true
  pub found : find_group m.group_id db.groups ≡ some g
  pub open_group : g.archived ≢ group_archived
  pub fits : length m.ciphertext ≤ max_ciphertext
  pub current_key : m.key_version ≡ g.key_version
  pub there : find_entry m.entry_id db.entries ≡ some cur
  pub stale : m.base_seq ≢ cur.seq

-- The deletion again, over version `cur` of the server.
abbrev pub again_over : LocalEntry → Entry → LocalEntry
again_over le cur = tombstone_again le.id (change_of cur)

abbrev pub client_round : Vault → ℕ → Db → ℕ → ℕ → ℕ → Engine → Bool × Engine
client_round v now db user_id device_id t e = push_dirty v now (served db user_id device_id t) e

abbrev conflicted : Engine → LocalEntry → Entry → Engine
conflicted e le cur = record e {
  local = record e.local { entries = put le.id (again_over le cur) e.local.entries };
}
