-- ===== src/Store/Queries.antt =====
-- server/store/sqlite.go: the read methods that the sync service calls. A table lists its rows in
-- the order of `created_at`.
use zt_data_sync.Prelude.{
  ℕ, Bool, true, false, not, ◌&&◌, Option, none, some, List, [], ◌∷◌, ltb, leb, ◌==◌, if◌then◌else◌,
  length, take, find, filter, any,
}
use zt_data_sync.Store.Rows.{
  User, UserStatus, Device, Group, GroupMember, Entry, Envelope, Stmt, Db, StoreError, no_rows,
  driver, Result, ok, err,
}

-- The rows of a query, or the driver's error.
abbrev pub query : {A : Type 0} → Bool → A → Result StoreError A
query true a = err driver
query false a = ok a

-- One row, with `ErrNoRows` where there is none.
abbrev pub query_row : {A : Type 0} → Bool → Option A → Result StoreError A
query_row true r = err driver
query_row false none = err no_rows
query_row false (some a) = ok a

unfoldable pub get_user_by_id : Db → ℕ → Result StoreError User
get_user_by_id db id = query_row (db.fails Stmt.get_user) (find (λ u. u.id == id) db.users)

unfoldable pub get_user_count : Db → Result StoreError ℕ
get_user_count db = query (db.fails Stmt.count_users) (length db.users)

-- A user name that is not set is NULL in the table, and equals nothing.
abbrev pub has_username : ℕ → User → Bool
has_username n u = not (u.username == 0) && (u.username == n)

unfoldable pub get_user_by_username : Db → ℕ → Result StoreError User
get_user_by_username db n = query_row (db.fails Stmt.get_username) (find (has_username n) db.users)

unfoldable pub get_user_by_public_key : Db → ℕ → Result StoreError User
get_user_by_public_key db key =
    query_row (db.fails Stmt.get_public_key) (find (λ u. u.sm2_public_key == key) db.users)

abbrev pub is_active : User → Bool
is_active u = elim u.status [ UserStatus.active ↦ true | UserStatus.revoked ↦ false ]

unfoldable pub list_active_users : Db → Result StoreError (List User)
list_active_users db = query (db.fails Stmt.list_active) (filter is_active db.users)

unfoldable pub get_device_by_token_hash : Db → ℕ → Result StoreError Device
get_device_by_token_hash db hash =
    query_row (db.fails Stmt.get_token) (find (λ d. d.token_hash == hash) db.devices)

unfoldable pub get_device_by_id : Db → ℕ → Result StoreError Device
get_device_by_id db id = query_row (db.fails Stmt.get_device) (find (λ d. d.id == id) db.devices)

abbrev pub find_group : ℕ → List Group → Option Group
find_group gid gs = find (λ g. g.id == gid) gs

unfoldable pub get_group : Db → ℕ → Result StoreError Group
get_group db gid = query_row (db.fails Stmt.get_group) (find_group gid db.groups)

-- Whether the pair is in the member table.
abbrev pub is_member : ℕ → ℕ → List GroupMember → Bool
is_member gid uid ms = any (λ m. (m.group_id == gid) && (m.user_id == uid)) ms

unfoldable pub get_group_member : Db → ℕ → ℕ → Result StoreError Bool
get_group_member db gid uid = query (db.fails Stmt.get_member) (is_member gid uid db.members)

unfoldable pub list_group_members : Db → ℕ → Result StoreError (List GroupMember)
list_group_members db gid =
    query (db.fails Stmt.list_members)
      (filter (λ m. (m.group_id == gid) && any (λ u. u.id == m.user_id) db.users) db.members)

unfoldable pub list_user_groups : Db → ℕ → Result StoreError (List Group)
list_user_groups db uid =
    query (db.fails Stmt.user_groups) (filter (λ g. is_member g.id uid db.members) db.groups)

unfoldable pub list_all_devices : Db → Result StoreError (List Device)
list_all_devices db = query (db.fails Stmt.list_devices) db.devices

abbrev pub find_entry : ℕ → List Entry → Option Entry
find_entry id es = find (λ e. e.id == id) es

unfoldable pub get_entry : Db → ℕ → Result StoreError Entry
get_entry db id = query_row (db.fails Stmt.get_entry) (find_entry id db.entries)

-- `ORDER BY seq`
unfoldable pub insert_by_seq : Entry → List Entry → List Entry
insert_by_seq e [] = e ∷ []
insert_by_seq e (x ∷ xs) = if leb e.seq x.seq then e ∷ x ∷ xs else x ∷ insert_by_seq e xs

unfoldable pub sort_by_seq : List Entry → List Entry
sort_by_seq [] = []
sort_by_seq (x ∷ xs) = insert_by_seq x (sort_by_seq xs)

unfoldable pub pull_changes : Db → ℕ → ℕ → Result StoreError (List Entry)
pull_changes db since limit =
    query (db.fails Stmt.pull_entries)
      (take limit (sort_by_seq (filter (λ e. ltb since e.seq) db.entries)))

unfoldable pub get_server_seq : Db → Result StoreError ℕ
get_server_seq db = query (db.fails Stmt.server_seq) db.seq

-- The live entries of the group whose key version is below `kv`.
abbrev pub entries_below : ℕ → ℕ → List Entry → List Entry
entries_below gid kv es =
    filter (λ e. (e.group_id == gid) && (not e.deleted && ltb e.key_version kv)) es

unfoldable pub count_entries_below_kv : Db → ℕ → ℕ → Result StoreError ℕ
count_entries_below_kv db gid kv =
    query (db.fails Stmt.count_below) (length (entries_below gid kv db.entries))

unfoldable pub get_user_envelopes : Db → ℕ → Result StoreError (List Envelope)
get_user_envelopes db uid =
    query (db.fails Stmt.user_envelopes) (filter (λ e. e.user_id == uid) db.envelopes)

abbrev pub envelopes_at : ℕ → ℕ → List Envelope → List Envelope
envelopes_at gid kv es = filter (λ e. (e.group_id == gid) && (e.key_version == kv)) es

unfoldable pub get_group_envelopes : Db → ℕ → ℕ → Result StoreError (List Envelope)
get_group_envelopes db gid kv =
    query (db.fails Stmt.group_envelopes) (envelopes_at gid kv db.envelopes)
