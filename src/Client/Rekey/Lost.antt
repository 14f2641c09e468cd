-- ===== src/Client/Rekey/Lost.antt =====
-- client/core/syncer/rekey.go with server/sync/pull.go: the member whose new key the server refuses.
use zt_data_sync.Prelude.Assoc.{lookup, lookup-put}
use zt_data_sync.Prelude.Int.{ℤ}
use zt_data_sync.Proto.{GroupState, EnvelopeUpload, SyncResponse}
use zt_data_sync.Store.Rows.{Db, ok}
use zt_data_sync.Sync.Pull.{pull_across, declared}
use zt_data_sync.Sync.Pull.Declared.{Above, pull_across-Above}
use zt_data_sync.Client.Keys.{
  Keys, KeyStmt, get_dek, remember, put_stored, stored_of, local_key_versions, max_versions,
}
use zt_data_sync.Client.Keys.View.{find_stored-put_stored, set_dek-runs}
use zt_data_sync.Client.Keys.Declared.{max_versions-bound}
use zt_data_sync.Client.Session.{ServerClient, Tools, World, by_id, wrap_for_all}
use zt_data_sync.Client.Rekey.{auto_rekey, if_uploaded, hold}
use zt_data_sync.Prelude.{
  ℕ, Bool, true, false, some, List, [], ◌∷◌, ◌+◌, ◌==◌, ◌≡◌, refl, ap, ◌∙◌, All, arith,
}

-- The client has the group's key in memory, and its driver runs every statement; it draws a key and
-- seals it for the members, and the server refuses the upload.
pub record Refused {S : Type 0} (api : ServerClient S) (t : Tools) (g : GroupState) (w : World S)
    (old dek enc : List ℕ) (users : List (ℕ × ℕ)) (x : EnvelopeUpload) (xs : List EnvelopeUpload)
    : Type 0 where
  pub runs : (s : KeyStmt) → w.keys.fails s ≡ false
  pub has_old : lookup g.id w.keys.deks ≡ some (record { key_version = g.key_version; dek = old })
  pub draws : t.ciphers.new_dek ≡ some dek
  pub seals : t.ciphers.marshal_dek dek ≡ some enc
  pub listed : api.list_users w.server ≡ some users
  pub wraps : wrap_for_all t.ciphers (by_id [] users) dek g.active_members ≡ some (x ∷ xs)
  pub refused :
      (api.upload_keys g.id
        (record { key_version = g.key_version + 1; envelopes = x ∷ xs })
        w.server).0
      ≡ false

declared-lookup : (gid : ℕ) (kvs : List (ℕ × ℕ)) → declared gid kvs ≡ lookup gid kvs
declared-lookup gid [] = refl
declared-lookup gid ((g, kv) ∷ kvs) = ground (arith, declared-lookup gid kvs)

refused_upload :
    {S : Type 0} (api : ServerClient S) (t : Tools) (now gid kv : ℕ) (p : Bool × S) (w : World S)
    → p.0 ≡ false
    → ((if_uploaded api t now gid kv w p).0 ≡ true)
      × ((if_uploaded api t now gid kv w p).1.keys ≡ w.keys)
refused_upload api t now gid kv (true, s) w h = absurd (ground (arith, h))
refused_upload api t now gid kv (false, s) w h = (refl, refl)

module _ {S : Type 0} (api : ServerClient S) (t : Tools) (now : ℕ) (g : GroupState) (w : World S)
    (old dek enc : List ℕ) (users : List (ℕ × ℕ)) (x : EnvelopeUpload) (xs : List EnvelopeUpload)
    (f : Refused api t g w old dek enc users x xs) where
  abbrev own_keys : Keys
  own_keys = record (remember g.id (g.key_version + 1) dek w.keys) {
    key_cache = put_stored (stored_of g.id (g.key_version + 1) enc) w.keys.key_cache;
  }

  -- Without an error, and with the client's own key kept.
  ends : ((auto_rekey api t now g w).0 ≡ true) × ((auto_rekey api t now g w).1.keys ≡ own_keys)
  unfolding auto_rekey get_dek
  ends =
      let written =
        set_dek-runs t.ciphers g.id (g.key_version + 1) dek enc w.keys (f.runs KeyStmt.put_key)
          f.seals in
      let same : (g.key_version == g.key_version) ≡ true = ground arith in
      simp (f.has_old, same, f.draws, written, f.listed, f.wraps)
        (refused_upload api t now g.id (g.key_version + 1)
          (api.upload_keys g.id (record { key_version = g.key_version + 1; envelopes = x ∷ xs })
            w.server)
          (record (hold g.id w) { keys = own_keys }) f.refused)

-- A member that loses the race for a new key keeps its own: where the client has the group's key in
-- memory and its driver runs every statement, and it has drawn a key and sealed it for the members,
-- a refused upload ends the rekey without an error; the client then has its own key at the new
-- version, and a later pull that declares the client's versions of that moment brings no envelope
-- of the group at that version or below, so not the one that the server accepted.
pub auto_rekey-Lost :
    {S : Type 0} (api : ServerClient S) (t : Tools) (now : ℕ) (g : GroupState) (w : World S)
    (old dek enc : List ℕ) (users : List (ℕ × ℕ)) (x : EnvelopeUpload) (xs : List EnvelopeUpload)
    (db later : Db) (user_id : ℕ) (since : ℤ) (r : SyncResponse)
    → Refused api t g w old dek enc users x xs
    → pull_across db later user_id since 0 (local_key_versions (auto_rekey api t now g w).1.keys)
      ≡ ok r
    → ((auto_rekey api t now g w).0 ≡ true)
      × ((get_dek t.ciphers g.id (g.key_version + 1) (auto_rekey api t now g w).1.keys).0
          ≡ some dek)
      × All (Above g.id (g.key_version + 1)) r.key_envelopes
unfolding get_dek local_key_versions
auto_rekey-Lost api t now g w old dek enc users x xs db later user_id since r f h =
    let (done, keys) = ends api t now g w old dek enc users x xs f in
    let kv = g.key_version + 1 in
    let mine = own_keys api t now g w old dek enc users x xs f in
    let law = lookup-put g.id g.id (record { key_version = kv; dek = dek }) w.keys.deks in
    let stored = find_stored-put_stored g.id kv g.id kv enc w.keys.key_cache in
    let (m, top, le) = max_versions-bound g.id kv enc mine.key_cache (ground (arith, stored)) in
    let said : declared g.id (local_key_versions (auto_rekey api t now g w).1.keys) ≡ some m =
      ap (λ ks. declared g.id (local_key_versions ks)) keys
      ∙ ground (
        arith,
        declared-lookup g.id (max_versions mine.key_cache),
        top,
        f.runs KeyStmt.list_versions,
      ) in
    (
      done,
      ap (λ ks. (get_dek t.ciphers g.id kv ks).0) keys ∙ ground (arith, law),
      pull_across-Above db later user_id since _ r g.id kv m said le h,
    )
