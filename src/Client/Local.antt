-- ===== src/Client/Local.antt =====
-- client/core/store: the local tables that the synchronisation reads and writes. The statements run
-- outside of any transaction; those that the driver fails are a parameter, and a failed statement
-- changes nothing.
pub mod Rows
pub mod Table
use zt_data_sync.Prelude.Assoc.{put, lookup, without}
use zt_data_sync.Prelude.{
  [], some, none, true, false, if◌then◌else◌, ◌==◌, ◌≡◌, ◌∷◌, List, Bool, Option, ℕ, filter, arith,
}

pub record LocalEntry : Type 0 where
  pub id : ℕ
  pub group_id : ℕ
  pub seq : ℕ
  pub key_version : ℕ
  pub ciphertext : List ℕ
  pub plaintext_cache : List ℕ
  pub base_enc : List ℕ
  pub dirty : Bool
  pub deleted : Bool
  pub conflict_of : Option ℕ
  pub updated_at : ℕ

pub record PendingEntry : Type 0 where
  pub id : ℕ
  pub group_id : ℕ
  pub seq : ℕ
  pub key_version : ℕ
  pub ciphertext : List ℕ
  pub updated_at : ℕ

pub record RecycleItem : Type 0 where
  pub id : ℕ
  pub ciphertext : List ℕ
  pub deleted_at : ℕ

-- `group_state`
pub record GroupRow : Type 0 where
  pub name : ℕ
  pub archived : Bool
  pub key_version : ℕ
  pub initialized_at : ℕ

pub data LocalStmt : Type 0 where
  upsert_row get_row list_dirty set_row remove_row put_pend list_pend delete_pend : LocalStmt
  mark_bad clear_bad put_recycled list_recycled delete_recycled get_group_row : LocalStmt
  list_rows set_group_row : LocalStmt

-- Each table by its primary key.
pub record LocalStore : Type 0 where
  pub entries : List (ℕ × LocalEntry)
  pub pending : List (ℕ × PendingEntry)
  pub bad_seq : List (ℕ × ℕ)
  pub recycle_bin : List (ℕ × RecycleItem)
  pub groups : List (ℕ × GroupRow)
  pub fails : LocalStmt → Bool

-- A write: whether it ran, and the tables after it.
abbrev pub Write : Type 0
Write = LocalStore → Bool × LocalStore

-- The second write runs if the first one did; what the first one wrote stays.
abbrev pub and_then : Write → Write → Write
and_then first second l = let (done, l') = first l in if done then second l' else (false, l')

abbrev pub local_exec : LocalStmt → (LocalStore → LocalStore) → Write
local_exec s f l = if l.fails s then (false, l) else (true, f l)

unfoldable pub upsert_local_entry : LocalEntry → Write
upsert_local_entry e =
    local_exec LocalStmt.upsert_row (λ l. record l { entries = put e.id e l.entries })

-- The row; none also where the read fails, as every caller here takes it.
unfoldable pub get_local_entry : LocalStore → ℕ → Option LocalEntry
get_local_entry l id = if l.fails LocalStmt.get_row then none else lookup id l.entries

abbrev pub values {ℓ} : {V : Type ℓ} → List (ℕ × V) → List V
values [] = []
values ((k, v) ∷ m) = v ∷ values m

unfoldable pub list_dirty_entries : LocalStore → Option (List LocalEntry)
list_dirty_entries l =
    if l.fails LocalStmt.list_dirty then none else some (filter (λ e. e.dirty) (values l.entries))

unfoldable pub list_local_entries : LocalStore → Option (List LocalEntry)
list_local_entries l = if l.fails LocalStmt.list_rows then none else some (values l.entries)

-- `UPDATE ... WHERE entry_id = ?`: a row that is not there stays away.
abbrev pub update_row :
    ℕ → (LocalEntry → LocalEntry) → List (ℕ × LocalEntry) → List (ℕ × LocalEntry)
update_row id f [] = []
update_row id f ((k, e) ∷ m) = if k == id then (k, f e) ∷ m else (k, e) ∷ update_row id f m

unfoldable pub set_dirty : ℕ → Bool → Write
set_dirty id b =
    local_exec LocalStmt.set_row
      (λ l. record l { entries = update_row id (λ e. record e { dirty = b }) l.entries })

unfoldable pub set_base_enc : ℕ → List ℕ → Write
set_base_enc id base =
    local_exec LocalStmt.set_row
      (λ l. record l { entries = update_row id (λ e. record e { base_enc = base }) l.entries })

unfoldable pub set_conflict : ℕ → ℕ → Write
set_conflict id of =
    local_exec LocalStmt.set_row (λ l. record l {
      entries = update_row id (λ e. record e { conflict_of = some of }) l.entries;
    })

unfoldable pub remove_local_entry : ℕ → Write
remove_local_entry id =
    local_exec LocalStmt.remove_row (λ l. record l { entries = without id l.entries })

unfoldable pub put_pending_entry : PendingEntry → Write
put_pending_entry p =
    local_exec LocalStmt.put_pend (λ l. record l { pending = put p.id p l.pending })

unfoldable pub list_pending_entries : LocalStore → Option (List PendingEntry)
list_pending_entries l = if l.fails LocalStmt.list_pend then none else some (values l.pending)

unfoldable pub delete_pending_entry : ℕ → Write
delete_pending_entry id =
    local_exec LocalStmt.delete_pend (λ l. record l { pending = without id l.pending })

-- `ON CONFLICT(seq) DO NOTHING`
abbrev pub insert_new : ℕ → ℕ → List (ℕ × ℕ) → List (ℕ × ℕ)
insert_new k v m = elim (lookup k m) [ none ↦ put k v m | some w ↦ m ]

unfoldable pub mark_bad_seq : ℕ → Write
mark_bad_seq n =
    local_exec LocalStmt.mark_bad (λ l. record l { bad_seq = insert_new n 1 l.bad_seq })

unfoldable pub clear_bad_seq : ℕ → Write
clear_bad_seq n = local_exec LocalStmt.clear_bad (λ l. record l { bad_seq = without n l.bad_seq })

unfoldable pub put_recycle_bin : ℕ → List ℕ → ℕ → Write
put_recycle_bin id ct now = local_exec LocalStmt.put_recycled (λ l. record l {
  recycle_bin = put id (record { id = id; ciphertext = ct; deleted_at = now }) l.recycle_bin;
})

-- The items in the table's order; the source sorts them by the time of deletion.
unfoldable pub list_recycle_bin : LocalStore → Option (List RecycleItem)
list_recycle_bin l = if l.fails LocalStmt.list_recycled then none else some (values l.recycle_bin)

unfoldable pub delete_recycle_bin : ℕ → Write
delete_recycle_bin id =
    local_exec LocalStmt.delete_recycled (λ l. record l { recycle_bin = without id l.recycle_bin })

-- none also where the read fails, as the callers take it.
unfoldable pub get_group_state : LocalStore → ℕ → Option GroupRow
get_group_state l gid = if l.fails LocalStmt.get_group_row then none else lookup gid l.groups

unfoldable pub set_group_state : ℕ → GroupRow → Write
set_group_state gid g =
    local_exec LocalStmt.set_group_row (λ l. record l { groups = put gid g l.groups })

pub lookup-update_row :
    (id j : ℕ) (f : LocalEntry → LocalEntry) (m : List (ℕ × LocalEntry))
    → lookup j (update_row id f m)
      ≡ (if id == j then elim (lookup j m) [ none ↦ none | some e ↦ some (f e) ] else lookup j m)
lookup-update_row id j f [] = ground arith
lookup-update_row id j f ((k, e) ∷ m) = ground (arith, lookup-update_row id j f m)
