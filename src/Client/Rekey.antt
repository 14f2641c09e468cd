-- ===== src/Client/Rekey.antt =====
-- client/core/syncer/rekey.go: `autoRekey`, the change of a group's key after a member has left, and
-- `reencryptGroupEntries`; and the call of the server in `pushDirty`. The events for the user
-- interface are not shown.
pub mod Row
pub mod Contents
pub mod Lost
use zt_data_sync.Proto.{GroupState, EnvelopeUpload, Mutation, PushResult}
use zt_data_sync.Client.Local.{
  Write, LocalEntry, and_then, list_local_entries, list_dirty_entries, upsert_local_entry,
}
use zt_data_sync.Client.Engine.{Vault, succeed, give_up}
use zt_data_sync.Client.Outbox.{outgoing, apply_results}
use zt_data_sync.Client.Keys.{Keys, get_dek, set_dek}
use zt_data_sync.Client.Session.{
  ServerClient, Tools, World, and_next, on_local, by_id, wrap_for_all,
}
use zt_data_sync.Prelude.{
  ℕ, Bool, true, false, not, Option, none, some, List, [], ◌∷◌, ◌==◌, ◌||◌, ◌+◌, if◌then◌else◌,
  filter,
}

-- The row with its content under the new key. The old cache stays where the new one fails.
abbrev pub with_cache : Option (List ℕ) → LocalEntry → LocalEntry
with_cache none le = le
with_cache (some cache) le = record le { plaintext_cache = cache }

abbrev pub reencrypted : Vault → ℕ → LocalEntry → List ℕ → List ℕ → LocalEntry
reencrypted v kv le plaintext ct =
    with_cache (v.encrypt_cache plaintext)
      (record le { ciphertext = ct; key_version = kv; dirty = true })

abbrev pub write_reencrypted : Vault → ℕ → LocalEntry → List ℕ → Option (List ℕ) → Write
write_reencrypted v kv le plaintext none = give_up
write_reencrypted v kv le plaintext (some ct) =
    upsert_local_entry (reencrypted v kv le plaintext ct)

-- A row that does not open is passed over.
abbrev pub reencrypt_opened : Vault → ℕ → ℕ → LocalEntry → Option (List ℕ) → Write
reencrypt_opened v gid kv le none = succeed
reencrypt_opened v gid kv le (some plaintext) =
    write_reencrypted v kv le plaintext (v.encrypt_plaintext gid le.id plaintext kv)

abbrev pub reencrypt_one : Vault → ℕ → ℕ → LocalEntry → Write
reencrypt_one v gid kv le =
    if not (le.group_id == gid) || (le.key_version == kv)
    then succeed
    else reencrypt_opened v gid kv le (v.decrypt_plaintext gid le.id le.ciphertext)

unfoldable pub reencrypt_all : Vault → ℕ → ℕ → List LocalEntry → Write
reencrypt_all v gid kv [] l = succeed l
reencrypt_all v gid kv (le ∷ les) l =
    and_then (reencrypt_one v gid kv le) (reencrypt_all v gid kv les) l

abbrev pub reencrypt_listed : Vault → ℕ → ℕ → Option (List LocalEntry) → Write
reencrypt_listed v gid kv none = give_up
reencrypt_listed v gid kv (some les) = reencrypt_all v gid kv les

unfoldable pub reencrypt_rows : Vault → ℕ → ℕ → Write
reencrypt_rows v gid kv l = reencrypt_listed v gid kv (list_local_entries l) l

abbrev pub hold : {S : Type 0} → ℕ → World S → World S
hold gid w = record w { engine = record w.engine { write_held = gid ∷ w.engine.write_held } }

abbrev pub release : {S : Type 0} → ℕ → World S → World S
release gid w = record w {
  engine = record w.engine { write_held = filter (λ g. not (g == gid)) w.engine.write_held };
}

module _ {S : Type 0} (api : ServerClient S) (t : Tools) (now : ℕ) where
  abbrev pub apply_answer : List Mutation → World S → Option (List PushResult) × S → Bool × World S
  apply_answer ms w (none, s) = (false, record w { server = s })
  apply_answer ms w (some rs, s) =
      let r = apply_results (t.vault_at w.keys) now ms rs w.engine in
      (r.0, record w { engine = r.1; server = s })

  abbrev pub push_mutations : List Mutation → World S → Bool × World S
  push_mutations [] w = (true, w)
  push_mutations (m ∷ ms) w = apply_answer (m ∷ ms) w (api.push (m ∷ ms) w.server)

  abbrev pub push_listed : Option (List LocalEntry) → World S → Bool × World S
  push_listed none w = (false, w)
  push_listed (some les) w = push_mutations (outgoing w.engine les) w

  -- `pushDirty` with the call of the server.
  unfoldable pub push_out : World S → Bool × World S
  push_out w = push_listed (list_dirty_entries w.engine.local) w

  unfoldable pub reencrypt_group_entries : ℕ → ℕ → World S → Bool × World S
  reencrypt_group_entries gid kv w =
      and_next (on_local (reencrypt_rows (t.vault_at w.keys) gid kv) w) push_out

  -- A refused upload ends the rekey without an error.
  abbrev pub if_uploaded : ℕ → ℕ → World S → Bool × S → Bool × World S
  if_uploaded gid kv w (false, s) = (true, record w { server = s })
  if_uploaded gid kv w (true, s) = reencrypt_group_entries gid kv (record w { server = s })

  abbrev pub upload_set : ℕ → ℕ → World S → Option (List EnvelopeUpload) → Bool × World S
  upload_set gid kv w none = (false, w)
  upload_set gid kv w (some []) = (true, w)
  upload_set gid kv w (some (x ∷ xs)) =
      if_uploaded gid kv w
        (api.upload_keys gid (record { key_version = kv; envelopes = x ∷ xs }) w.server)

  abbrev pub wrap_for_members :
      GroupState → List ℕ → World S → Option (List (ℕ × ℕ)) → Bool × World S
  wrap_for_members g dek w none = (false, w)
  wrap_for_members g dek w (some users) =
      upload_set g.id (g.key_version + 1) w
        (wrap_for_all t.ciphers (by_id [] users) dek g.active_members)

  abbrev pub if_cached : GroupState → List ℕ → World S → Bool × Keys → Bool × World S
  if_cached g dek w (false, ks) = (false, record w { keys = ks })
  if_cached g dek w (true, ks) =
      wrap_for_members g dek (record w { keys = ks }) (api.list_users w.server)

  -- The new key is kept before the server has its envelopes.
  abbrev pub rekey_with : GroupState → World S → Option (List ℕ) → Bool × World S
  rekey_with g w none = (false, w)
  rekey_with g w (some dek) =
      if_cached g dek w (set_dek t.ciphers g.id (g.key_version + 1) dek w.keys)

  abbrev pub rekey_held : GroupState → World S → Bool × World S
  rekey_held g w = let r = rekey_with g (hold g.id w) t.ciphers.new_dek in (r.0, release g.id r.1)

  -- Only a client that has the old key.
  abbrev pub if_held : GroupState → World S → Option (List ℕ) → Bool × World S
  if_held g w none = (true, w)
  if_held g w (some dek) = rekey_held g w

  unfoldable pub auto_rekey : GroupState → World S → Bool × World S
  auto_rekey g w =
      let r = get_dek t.ciphers g.id g.key_version w.keys in if_held g (record w { keys = r.1 }) r.0
