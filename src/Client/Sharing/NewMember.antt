-- ===== src/Client/Sharing/NewMember.antt =====
-- client/core/syncer/wrap.go with server/sync/envelopes.go: the first round of a new member.
use zt_data_sync.Prelude.Assoc.{lookup, lookup-put}
use zt_data_sync.Prelude.Membership.{contains}
use zt_data_sync.Proto.{GroupState, KeysUploadRequest}
use zt_data_sync.Store.Rows.{Db, Group, Envelope, Stmt, ok, group_archived}
use zt_data_sync.Store.Queries.{
  find_group, get_group, get_group_member, is_member, envelopes_at, get_group_envelopes,
  list_active_users,
}
use zt_data_sync.Store.Tx.{with_tx, upsert_envelope, has_envelope}
use zt_data_sync.Sync.Pull.{user_ids}
use zt_data_sync.Sync.Envelopes.{
  active_member_ids, check_upload, dispatch_upload, append_envelopes, upsert_all, upload_keys,
}
use zt_data_sync.Client.Keys.{
  Ciphers, StoredDek, Keys, KeyStmt, get_dek, set_dek, has_any_dek, find_stored, remember,
  put_stored, stored_of,
}
use zt_data_sync.Client.Session.{Tools, World, by_id, wrap_for_all}
use zt_data_sync.Client.Sharing.{auto_wrap}
use zt_data_sync.Client.Served.{api_of, user_keys}
use zt_data_sync.Prelude.{
  ℕ, true, false, none, some, List, [], ◌∷◌, ◌++◌, ◌==◌, ◌≡◌, refl, any, arith,
}

has_envelope-contains :
    (gid kv uid : ℕ) (es : List Envelope)
    → contains uid (user_ids (envelopes_at gid kv es)) ≡ has_envelope gid kv uid es
has_envelope-contains gid kv uid [] = refl
has_envelope-contains gid kv uid (e ∷ es) = ground (arith, has_envelope-contains gid kv uid es)

-- The server has the group, with the user as an active member who lacks an envelope.
pub record Lacks (db : Db) (uid : ℕ) (g : Group) (ids : List ℕ) : Type 0 where
  pub no_faults : (s : Stmt) → db.fails s ≡ false
  pub found : find_group g.id db.groups ≡ some g
  pub open_group : (g.archived == group_archived) ≡ false
  pub member : is_member g.id uid db.members ≡ true
  pub active : active_member_ids db g.id ≡ ok ids
  pub among : contains uid ids ≡ true
  pub lacks : has_envelope g.id g.key_version uid db.envelopes ≡ false

abbrev pub own_envelope : ℕ → ℕ → Group → List ℕ → Envelope
own_envelope now uid g wrapped = record {
  group_id = g.id;
  key_version = g.key_version;
  user_id = uid;
  wrapped_dek = wrapped;
  updated_at = now;
}

abbrev pub own_upload : ℕ → Group → List ℕ → KeysUploadRequest
own_upload uid g wrapped = record {
  key_version = g.key_version;
  envelopes = record { user_id = uid; wrapped_dek = wrapped } ∷ [];
}

upload_keys-Lacks :
    (now uid : ℕ) (g : Group) (ids wrapped : List ℕ) (db : Db)
    → Lacks db uid g ids
    → upload_keys db now uid g.id (own_upload uid g wrapped) ≡ (
      (ok tt, true),
      record db { envelopes = db.envelopes ++ (own_envelope now uid g wrapped ∷ []) },
    )
unfolding upload_keys check_upload dispatch_upload append_envelopes upsert_all upsert_envelope
    with_tx get_group get_group_member get_group_envelopes
upload_keys-Lacks now uid g ids wrapped db l = ground (
  arith,
  l.found,
  l.open_group,
  l.member,
  l.active,
  l.among,
  l.lacks,
  has_envelope-contains g.id g.key_version uid db.envelopes,
  l.no_faults Stmt.get_member,
  l.no_faults Stmt.get_group,
  l.no_faults Stmt.group_envelopes,
  l.no_faults Stmt.begin_tx,
  l.no_faults Stmt.commit_tx,
  l.no_faults Stmt.upsert_envelope,
)

-- The client has no key of the group, draws one, seals it under its own public key, and is told of
-- no other member that lacks an envelope.
pub record Keyless (c : Ciphers) (ks : Keys) (uid : ℕ) (g : Group) (gs : GroupState) (key : ℕ)
    (dek enc wrapped : List ℕ) : Type 0 where
  pub runs : (s : KeyStmt) → ks.fails s ≡ false
  pub not_in_memory : lookup g.id ks.deks ≡ none
  pub not_stored : any (λ s. s.group_id == g.id) ks.key_cache ≡ false
  pub draws : c.new_dek ≡ some dek
  pub seals : c.marshal_dek dek ≡ some enc
  pub wraps : c.wrap_dek_for key dek ≡ some wrapped
  pub told_id : gs.id ≡ g.id
  pub told_version : gs.key_version ≡ g.key_version
  pub told_missing : gs.missing_envelopes ≡ uid ∷ []

find_stored-none :
    (gid kv : ℕ) (ss : List StoredDek)
    → any (λ s. s.group_id == gid) ss ≡ false
    → find_stored gid kv ss ≡ none
find_stored-none gid kv [] h = refl
find_stored-none gid kv (s ∷ ss) h =
    ground (arith, h, find_stored-none gid kv ss (ground (arith, h)))

start :
    (c : Ciphers) (ks : Keys) (uid key : ℕ) (g : Group) (gs : GroupState) (dek enc wrapped : List ℕ)
    → Keyless c ks uid g gs key dek enc wrapped
    → (get_dek c g.id g.key_version ks ≡ (none, ks))
      × (has_any_dek g.id ks ≡ false)
      × (set_dek c g.id g.key_version dek ks ≡ (
        true,
        record (remember g.id g.key_version dek ks) {
          key_cache = put_stored (stored_of g.id g.key_version enc) ks.key_cache;
        },
      ))
unfolding get_dek has_any_dek set_dek
start c ks uid key g gs dek enc wrapped k =
    let gone = find_stored-none g.id g.key_version ks.key_cache k.not_stored in
    (
      rw (k.not_in_memory, k.runs KeyStmt.get_key, gone) refl,
      ground (arith, k.not_in_memory, k.not_stored, k.runs KeyStmt.list_groups),
      rw (k.seals, k.runs KeyStmt.put_key) refl,
    )

sealed_alone :
    (c : Ciphers) (uid key : ℕ) (keys : List (ℕ × ℕ)) (dek wrapped : List ℕ)
    → lookup uid keys ≡ some key
    → c.wrap_dek_for key dek ≡ some wrapped
    → wrap_for_all c keys dek (uid ∷ [])
      ≡ some (record { user_id = uid; wrapped_dek = wrapped } ∷ [])
unfolding wrap_for_all
sealed_alone c uid key keys dek wrapped known w = ground (arith, known, w)

-- A new member of an open group whose client runs before any other member's has sealed the group's
-- key for it, as the only one that lacks an envelope: the client draws a key of its own and uploads
-- it as the envelope at the group's key version, and the server, whose envelopes are never replaced
-- at a version, takes it, whatever key the others have there. Both drivers run every statement.
pub auto_wrap-NewMember :
    (t : Tools) (now uid device_id key : ℕ) (g : Group) (gs : GroupState) (ids : List ℕ)
    (users : List (ℕ × ℕ)) (dek enc wrapped : List ℕ) (w : World Db)
    → Lacks w.server uid g ids
    → Keyless t.ciphers w.keys uid g gs key dek enc wrapped
    → user_keys (list_active_users w.server) ≡ some users
    → lookup uid (by_id [] users) ≡ some key
    → let r = auto_wrap (api_of uid device_id now) t gs w in
      (r.0 ≡ true)
      × (r.1.server.envelopes ≡ w.server.envelopes ++ (own_envelope now uid g wrapped ∷ []))
      × ((get_dek t.ciphers g.id g.key_version r.1.keys).0 ≡ some dek)
unfolding auto_wrap api_of get_dek
auto_wrap-NewMember t now uid device_id key g gs ids users dek enc wrapped w l k listed known =
    let (no_key, none_at_all, written) = start t.ciphers w.keys uid key g gs dek enc wrapped k in
    let sent = upload_keys-Lacks now uid g ids wrapped w.server l in
    let told =
      lookup-put g.id g.id (record { key_version = g.key_version; dek = dek }) w.keys.deks in
    let envs = sealed_alone t.ciphers uid key (by_id [] users) dek wrapped known k.wraps in
    simp
      (
        listed, k.told_id, k.told_version, no_key, none_at_all, k.draws, written, k.told_missing,
        envs, sent, told,
      )
      (refl, refl, ground arith)
