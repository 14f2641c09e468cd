-- ===== src/Client/Keys.antt =====
-- client/core/vault/dekcache.go, and the statements of client/core/store/local_impl.go on the table
-- `key_cache`: the data keys of the groups, one per group in memory and all of them stored under the
-- key of the vault. The ciphers are a parameter; a call that fails gives none.
pub mod View
pub mod Declared
pub mod Refinement
use zt_data_sync.Prelude.Assoc.{lookup, put, without}
use zt_data_sync.Prelude.{
  ℕ, Bool, true, false, not, ◌&&◌, Option, none, some, List, [], ◌∷◌, ◌==◌, leb, if◌then◌else◌,
  filter, any,
}

-- `MarshalDEKForCache`, `UnmarshalDEKFromCache`, the opening of an envelope with the private key,
-- its sealing for a public key, and the key that the random source gives. The nonces that a call
-- draws are not shown.
pub record Ciphers : Type 0 where
  pub marshal_dek : List ℕ → Option (List ℕ)
  pub unmarshal_dek : List ℕ → Option (List ℕ)
  pub open_envelope : List ℕ → Option (List ℕ)
  pub wrap_dek_for : ℕ → List ℕ → Option (List ℕ)
  pub new_dek : Option (List ℕ)

pub data KeyStmt : Type 0 where
  put_key get_key delete_keys list_groups list_versions : KeyStmt

pub record DekEntry : Type 0 where
  pub key_version : ℕ
  pub dek : List ℕ

pub record StoredDek : Type 0 where
  pub group_id : ℕ
  pub key_version : ℕ
  pub dek_enc : List ℕ

pub record Keys : Type 0 where
  pub deks : List (ℕ × DekEntry)
  pub key_cache : List StoredDek
  pub fails : KeyStmt → Bool

abbrev pub is_at : ℕ → ℕ → StoredDek → Bool
is_at gid kv s = (s.group_id == gid) && (s.key_version == kv)

-- `ON CONFLICT(group_id, key_version) DO UPDATE`
abbrev pub put_stored : StoredDek → List StoredDek → List StoredDek
put_stored n [] = n ∷ []
put_stored n (s ∷ ss) = if is_at n.group_id n.key_version s then n ∷ ss else s ∷ put_stored n ss

abbrev pub find_stored : ℕ → ℕ → List StoredDek → Option (List ℕ)
find_stored gid kv [] = none
find_stored gid kv (s ∷ ss) = if is_at gid kv s then some s.dek_enc else find_stored gid kv ss

abbrev pub stored_of : ℕ → ℕ → List ℕ → StoredDek
stored_of gid kv enc = record { group_id = gid; key_version = kv; dek_enc = enc }

-- The table's `PutDEK`.
abbrev pub store_dek : ℕ → ℕ → List ℕ → Keys → Bool × Keys
store_dek gid kv enc ks =
    if ks.fails KeyStmt.put_key
    then (false, ks)
    else (true, record ks { key_cache = put_stored (stored_of gid kv enc) ks.key_cache })

-- The key is in memory before it is sealed and stored.
abbrev pub seal_and_store : ℕ → ℕ → Option (List ℕ) → Keys → Bool × Keys
seal_and_store gid kv none ks = (false, ks)
seal_and_store gid kv (some enc) ks = store_dek gid kv enc ks

abbrev pub remember : ℕ → ℕ → List ℕ → Keys → Keys
remember gid kv dek ks = record ks {
  deks = put gid (record { key_version = kv; dek = dek }) ks.deks;
}

unfoldable pub set_dek : Ciphers → ℕ → ℕ → List ℕ → Keys → Bool × Keys
set_dek c gid kv dek ks = seal_and_store gid kv (c.marshal_dek dek) (remember gid kv dek ks)

-- The key, if the write went through.
abbrev pub if_set : List ℕ → Bool × Keys → Option (List ℕ) × Keys
if_set dek (true, ks) = (some dek, ks)
if_set dek (false, ks) = (none, ks)

abbrev pub load : Ciphers → ℕ → ℕ → Option (List ℕ) → Keys → Option (List ℕ) × Keys
load c gid kv none ks = (none, ks)
load c gid kv (some dek) ks = if_set dek (set_dek c gid kv dek ks)

abbrev pub read_stored : ℕ → ℕ → Keys → Option (List ℕ)
read_stored gid kv ks = if ks.fails KeyStmt.get_key then none else find_stored gid kv ks.key_cache

abbrev pub opened : Ciphers → Option (List ℕ) → Option (List ℕ)
opened c none = none
opened c (some enc) = c.unmarshal_dek enc

abbrev pub in_memory : ℕ → Option DekEntry → Option (List ℕ)
in_memory kv none = none
in_memory kv (some e) = if e.key_version == kv then some e.dek else none

abbrev pub memory_or_load : Ciphers → ℕ → ℕ → Keys → Option (List ℕ) → Option (List ℕ) × Keys
memory_or_load c gid kv ks (some dek) = (some dek, ks)
memory_or_load c gid kv ks none = load c gid kv (opened c (read_stored gid kv ks)) ks

unfoldable pub get_dek : Ciphers → ℕ → ℕ → Keys → Option (List ℕ) × Keys
get_dek c gid kv ks = memory_or_load c gid kv ks (in_memory kv (lookup gid ks.deks))

-- `UnwrapDEK`: the key of an envelope, which is kept.
unfoldable pub unwrap_dek : Ciphers → ℕ → ℕ → List ℕ → Keys → Option (List ℕ) × Keys
unwrap_dek c gid kv wrapped ks = load c gid kv (c.open_envelope wrapped) ks

-- A list that cannot be read counts as empty.
abbrev pub stored_group : ℕ → Keys → Bool
stored_group gid ks =
    if ks.fails KeyStmt.list_groups
    then false
    else any (λ (s : StoredDek). s.group_id == gid) ks.key_cache

unfoldable pub has_any_dek : ℕ → Keys → Bool
has_any_dek gid ks = elim (lookup gid ks.deks) [ some e ↦ true | none ↦ stored_group gid ks ]

-- The error of the deletion is dropped.
unfoldable pub invalidate_group_deks : ℕ → Keys → Keys
invalidate_group_deks gid ks =
    let ks' : Keys = record ks { deks = without gid ks.deks } in
    if ks.fails KeyStmt.delete_keys
    then ks'
    else record ks' { key_cache = filter (λ (s : StoredDek). not (s.group_id == gid)) ks.key_cache }

abbrev pub higher : ℕ → Option ℕ → ℕ
higher kv none = kv
higher kv (some n) = if leb kv n then n else kv

-- `MAX(key_version) … GROUP BY group_id`
unfoldable pub max_versions : List StoredDek → List (ℕ × ℕ)
max_versions [] = []
max_versions (s ∷ ss) =
    let rest = max_versions ss in
    put s.group_id (higher s.key_version (lookup s.group_id rest)) rest

-- `localKeyVersions`: none declared where the list cannot be read.
unfoldable pub local_key_versions : Keys → List (ℕ × ℕ)
local_key_versions ks = if ks.fails KeyStmt.list_versions then [] else max_versions ks.key_cache
