-- ===== src/Client/Actions.antt =====
-- client/core/core.go: what the user does to an entry: `PutEntry`, `DeleteEntry`, `ListRecycle`,
-- `RestoreEntry`, `GetConflict` and `ResolveConflict`. The synchronisation that each of them starts
-- in the background is not part of it. A new entry's identifier is an argument.
pub mod Recycle
use zt_data_sync.Client.Engine.{Vault}
use zt_data_sync.Client.Local.{
  LocalStore, LocalEntry, RecycleItem, GroupRow, get_local_entry, get_group_state,
  upsert_local_entry, put_recycle_bin, list_recycle_bin, delete_recycle_bin,
}
use zt_data_sync.Store.Rows.{Result, ok, err, ◌>>=◌}
use zt_data_sync.Store.Tx.{is_some}
use zt_data_sync.Prelude.{
  ℕ, [], ◌∷◌, Bool, List, Option, some, none, true, false, if◌then◌else◌, ltb, ◌==◌, not, find,
  ◌||◌, ◌&&◌,
}

pub data ActionError : Type 0 where
  locked no_row driver not_sealed not_opened no_conflict not_in_bin no_group revived : ActionError

-- What an action returns, and the tables after it.
abbrev pub Action : Type 0 → Type 0
Action A = LocalStore → Result ActionError A × LocalStore

abbrev pub done_if : Bool × LocalStore → Result ActionError (Unit {0}) × LocalStore
done_if (true, l) = (ok tt, l)
done_if (false, l) = (err driver, l)

abbrev or_error : {A : Type 0} → ActionError → Option A → Result ActionError A
or_error e none = err e
or_error e (some a) = ok a

abbrev require : Bool → ActionError → Result ActionError (Unit {0})
require true e = ok tt
require false e = err e

-- The row that the checks and the ciphers yield is written; an error writes nothing.
abbrev write_row :
    Result ActionError LocalEntry → LocalStore → Result ActionError (Unit {0}) × LocalStore
write_row (err e) l = (err e, l)
write_row (ok row) l = done_if (upsert_local_entry row l)

pub record PutEntryRequest : Type 0 where
  pub id : ℕ
  pub group_id : ℕ
  pub plaintext : List ℕ

-- The key version of the group, or 1 where it is not known.
abbrev key_version_of : Option GroupRow → ℕ
key_version_of none = 1
key_version_of (some g) = if ltb 0 g.key_version then g.key_version else 1

abbrev is_empty : List ℕ → Bool
is_empty [] = true
is_empty (x ∷ xs) = false

-- The common ancestor: the text before the first edit, where the row is no conflict.
abbrev pub snapshot : LocalEntry → List ℕ
snapshot le =
    if is_empty le.base_enc
    then (if is_some le.conflict_of then [] else le.plaintext_cache)
    else le.base_enc

-- The identifier, the version and the base that an edit goes on from.
pub record Origin : Type 0 where
  pub id : ℕ
  pub base_seq : ℕ
  pub base_enc : List ℕ

abbrev pub origin_of : ℕ → ℕ → Option LocalEntry → Origin
origin_of fresh id row =
    if id == 0 then record { id = fresh; base_seq = 0; base_enc = [] } else elim row [
      | none ↦ record { id = id; base_seq = 0; base_enc = [] }
      | some le ↦ record { id = id; base_seq = le.seq; base_enc = snapshot le }
    ]

-- The row of an edit.
abbrev pub edited : Origin → PutEntryRequest → ℕ → ℕ → List ℕ → List ℕ → LocalEntry
edited o req kv now ct cache = record {
  id = o.id;
  group_id = req.group_id;
  seq = o.base_seq;
  key_version = kv;
  ciphertext = ct;
  plaintext_cache = cache;
  base_enc = o.base_enc;
  dirty = true;
  deleted = false;
  conflict_of = none;
  updated_at = now;
}

unfoldable pub put_entry : Vault → ℕ → ℕ → PutEntryRequest → Action (Unit {0})
put_entry v now fresh req l =
    let kv = key_version_of (get_group_state l req.group_id) in
    let o = origin_of fresh req.id (get_local_entry l req.id) in
    write_row
      (require v.is_unlocked locked >>= λ _.
        or_error not_sealed (v.encrypt_plaintext req.group_id o.id req.plaintext kv) >>= λ ct.
        or_error not_sealed (v.encrypt_cache req.plaintext) >>= λ cache.
        ok (edited o req kv now ct cache))
      l

-- The row of a deletion that is not pushed yet.
abbrev pub tombstone : ℕ → ℕ → LocalEntry → LocalEntry
tombstone id now le = record {
  id = id;
  group_id = le.group_id;
  seq = le.seq;
  key_version = le.key_version;
  ciphertext = [];
  plaintext_cache = [];
  base_enc = [];
  dirty = true;
  deleted = true;
  conflict_of = none;
  updated_at = now;
}

-- The deletion, after the ciphertext went into the recycle bin.
abbrev bury : ℕ → ℕ → LocalEntry → Action (Unit {0})
bury id now le l =
    let (kept, l') = put_recycle_bin id le.ciphertext now l in
    if kept then done_if (upsert_local_entry (tombstone id now le) l') else (err driver, l')

unfoldable pub delete_entry : Vault → ℕ → ℕ → Action (Unit {0})
delete_entry v now id l =
    elim (require v.is_unlocked locked >>= λ _. or_error no_row (get_local_entry l id)) [
      | err e ↦ (err e, l)
      | ok le ↦ bury id now le l
    ]

-- The item of the recycle bin, if it holds a ciphertext.
abbrev pub in_bin : ℕ → List RecycleItem → Option RecycleItem
in_bin id items = elim (find (λ it. it.id == id) items) [
  | none ↦ none
  | some it ↦ if is_empty it.ciphertext then none else some it
]

-- The row of a restored entry.
abbrev pub restored : ℕ → ℕ → LocalEntry → RecycleItem → List ℕ → LocalEntry
restored id now le it cache = record {
  id = id;
  group_id = le.group_id;
  seq = le.seq;
  key_version = le.key_version;
  ciphertext = it.ciphertext;
  plaintext_cache = cache;
  base_enc = [];
  dirty = true;
  deleted = false;
  conflict_of = none;
  updated_at = now;
}

abbrev pub restored_row : Vault → ℕ → ℕ → LocalStore → Result ActionError LocalEntry
restored_row v now id l = do
  _ ← require v.is_unlocked locked
  items ← or_error driver (list_recycle_bin l)
  it ← or_error not_in_bin (in_bin id items)
  le ← or_error no_row (get_local_entry l id)
  _ ← require (not (le.group_id == 0)) no_group
  _ ← require le.deleted revived
  plain ← or_error not_opened (v.decrypt_plaintext le.group_id id it.ciphertext)
  cache ← or_error not_sealed (v.encrypt_cache plain)
  ok (restored id now le it cache)

-- The item leaves the recycle bin; that this fails is passed over.
abbrev empty_bin :
    ℕ → Result ActionError (Unit {0}) × LocalStore → Result ActionError (Unit {0}) × LocalStore
empty_bin id (err e, l) = (err e, l)
empty_bin id (ok u, l) = (ok u, (delete_recycle_bin id l).1)

unfoldable pub restore_entry : Vault → ℕ → ℕ → Action (Unit {0})
restore_entry v now id l = empty_bin id (write_row (restored_row v now id l) l)

-- Which side of a conflict the user takes.
pub data Decision : Type 0 where
  use_manual : List ℕ → Decision
  use_local use_server : Decision

abbrev pub decided : Vault → LocalEntry → ℕ → Decision → Option (List ℕ)
decided v le id (use_manual text) = some text
decided v le id use_local = v.decrypt_cache le.plaintext_cache
decided v le id use_server = v.decrypt_plaintext le.group_id id le.ciphertext

-- The row of a decision: an edit over the server's version.
abbrev pub resolved : ℕ → ℕ → LocalEntry → List ℕ → List ℕ → LocalEntry
resolved id now le ct cache = record {
  id = id;
  group_id = le.group_id;
  seq = le.seq;
  key_version = le.key_version;
  ciphertext = ct;
  plaintext_cache = cache;
  base_enc = [];
  dirty = true;
  deleted = false;
  conflict_of = none;
  updated_at = now;
}

unfoldable pub resolve_conflict : Vault → ℕ → ℕ → Decision → Action (Unit {0})
resolve_conflict v now id d l =
    write_row
      (require v.is_unlocked locked >>= λ _. or_error no_row (get_local_entry l id) >>= λ le.
        require (is_some le.conflict_of) no_conflict >>= λ _.
        or_error not_opened (decided v le id d) >>= λ plain.
        or_error not_sealed (v.encrypt_plaintext le.group_id id plain le.key_version) >>= λ ct.
        or_error not_sealed (v.encrypt_cache plain) >>= λ cache. ok (resolved id now le ct cache))
      l

-- The three sides of a conflict, as far as they open.
pub record ConflictDetail : Type 0 where
  pub id : ℕ
  pub base : Option (List ℕ)
  pub ours : Option (List ℕ)
  pub theirs : Option (List ℕ)

abbrev opened_cache : Vault → List ℕ → Option (List ℕ)
opened_cache v sealed = if is_empty sealed then none else v.decrypt_cache sealed

abbrev pub sides_of : Vault → ℕ → LocalEntry → ConflictDetail
sides_of v id le = record {
  id = id;
  base = opened_cache v le.base_enc;
  ours = opened_cache v le.plaintext_cache;
  theirs = v.decrypt_plaintext le.group_id id le.ciphertext;
}

abbrev some_side : ConflictDetail → Result ActionError ConflictDetail
some_side d = require (is_some d.ours || is_some d.theirs) not_opened >>= λ _. ok d

unfoldable pub get_conflict : Vault → ℕ → LocalStore → Result ActionError ConflictDetail
get_conflict v id l = do
  _ ← require v.is_unlocked locked
  le ← or_error no_row (get_local_entry l id)
  _ ← require (is_some le.conflict_of) no_conflict
  some_side (sides_of v id le)

pub record RecycleEntryView : Type 0 where
  pub id : ℕ
  pub group_id : ℕ
  pub plaintext : List ℕ
  pub seq : ℕ
  pub key_version : ℕ
  pub deleted_at : ℕ

abbrev view_of : LocalEntry → RecycleItem → List ℕ → RecycleEntryView
view_of le it plain = record {
  id = it.id;
  group_id = le.group_id;
  plaintext = plain;
  seq = le.seq;
  key_version = le.key_version;
  deleted_at = it.deleted_at;
}

abbrev can_restore : LocalEntry → Bool
can_restore le = not (le.group_id == 0) && le.deleted

-- The view of an item that can be restored.
abbrev view_item : Vault → LocalStore → RecycleItem → Option RecycleEntryView
view_item v l it = elim (get_local_entry l it.id) [
  | none ↦ none
  | some le ↦
      if not (is_empty it.ciphertext) && can_restore le
      then elim (v.decrypt_plaintext le.group_id it.id it.ciphertext) [
        | none ↦ none
        | some plain ↦ some (view_of le it plain)
      ]
      else none
]

abbrev add_view : Option RecycleEntryView → List RecycleEntryView → List RecycleEntryView
add_view none views = views
add_view (some view) views = view ∷ views

abbrev view_items : Vault → LocalStore → List RecycleItem → List RecycleEntryView
view_items v l [] = []
view_items v l (it ∷ items) = add_view (view_item v l it) (view_items v l items)

unfoldable pub list_recycle : Vault → LocalStore → Result ActionError (List RecycleEntryView)
list_recycle v l = do
  _ ← require v.is_unlocked locked
  items ← or_error driver (list_recycle_bin l)
  ok (view_items v l items)
