-- ===== src/Sync/Envelopes/Append.antt =====
-- Adding envelopes at the group's key version.
use zt_data_sync.Sync.Pull.{user_ids}
use zt_data_sync.Prelude.Membership.{contains}
use zt_data_sync.Store.Queries.{
  find_group, is_member, get_group_envelopes, get_group_member, get_group, envelopes_at,
}
use mathlib.Core.List.{append-nil, append_assoc}
use zt_data_sync.Sync.Failure.{Failure}
use zt_data_sync.Proto.{KeysUploadRequest, EnvelopeUpload}
use zt_data_sync.Store.Rows.{Db, ok, StoreError, err, Envelope, Group, Result-cases}
use zt_data_sync.Store.Tx.{with_tx, upsert_envelope, Tx}
use zt_data_sync.Sync.Envelopes.{
  commit_rekey, upsert_all, upload_keys, append_envelopes, dispatch_upload, check_upload,
  active_member_ids, all_in, envelope_of, uploaders,
}
use zt_data_sync.Prelude.{ℕ, [], false, ◌≡◌, ◌++◌, ◌∷◌, List, arith, some, true, inl, inr, map, any}

-- A failed upload, of either kind, changes no table.
with_tx_failed :
    {A : Type 0} (f : Tx A) (db : Db) {e : StoreError}
    → (with_tx f db).0 ≡ err e
    → (with_tx f db).1 ≡ db
unfolding with_tx
with_tx_failed f db h = ground arith

pub with_tx_ok :
    {A : Type 0} (f : Tx A) (db : Db) (a : A)
    → (with_tx f db).0 ≡ ok a
    → f db ≡ ok (a, (with_tx f db).1)
unfolding with_tx
with_tx_ok f db a h = ground arith

append_failed :
    (db : Db) (now gid kv : ℕ) (envs : List EnvelopeUpload) {e : Failure}
    → (append_envelopes db now gid kv envs).0 ≡ err e
    → (append_envelopes db now gid kv envs).1 ≡ db
unfolding append_envelopes with_tx
append_failed db now gid kv envs h = ground arith

rekey_failed :
    (db : Db) (now gid kv : ℕ) (envs : List EnvelopeUpload) {e : Failure}
    → (commit_rekey db now gid kv envs).0 ≡ err e
    → (commit_rekey db now gid kv envs).1 ≡ db
unfolding commit_rekey with_tx
rekey_failed db now gid kv envs h = ground arith

-- An upload that is refused or fails, at whatever step, changes no table and notifies nobody.
pub upload_keys_failed :
    (db : Db) (now user_id gid : ℕ) (req : KeysUploadRequest) {e : Failure}
    → (upload_keys db now user_id gid req).0.0 ≡ err e
    → ((upload_keys db now user_id gid req).1 ≡ db)
      × ((upload_keys db now user_id gid req).0.1 ≡ false)
unfolding upload_keys dispatch_upload
upload_keys_failed db now user_id gid req {e} h = ground (
  arith,
  λ (g : Group). append_failed db now gid req.key_version req.envelopes {e = e},
  append_failed db now gid req.key_version req.envelopes {e = e},
  rekey_failed db now gid req.key_version req.envelopes {e = e},
)

-- The envelopes that an upload adds go behind those that are there.
upsert_all_ok :
    (es : List Envelope) (db db' : Db)
    → upsert_all es db ≡ ok (tt, db')
    → db' ≡ record db { envelopes = db.envelopes ++ es }
unfolding upsert_all upsert_envelope
upsert_all_ok [] db db' h = ground (arith, append-nil db.envelopes)
upsert_all_ok (e ∷ es) db db' h = ground (
  arith,
  upsert_all_ok es (record db { envelopes = db.envelopes ++ e ∷ [] }) db',
  append_assoc db.envelopes (e ∷ []) es,
)

-- What an accepted upload of envelopes at the group's key version has checked and written.
pub record Appends (db : Db) (now user_id gid : ℕ) (req : KeysUploadRequest) (db' : Db)
    : Type 0 where
  pub member : is_member gid user_id db.members ≡ true
  pub users_active :
      (ids : List ℕ) × (active_member_ids db gid ≡ ok ids)
      × (all_in (uploaders req.envelopes) ids ≡ true)
  pub none_replaced :
      any
        (λ e. contains e.user_id (user_ids (envelopes_at gid req.key_version db.envelopes)))
        req.envelopes
      ≡ false
  pub after : db' ≡ record db {
    envelopes = db.envelopes ++ map (envelope_of gid req.key_version now) req.envelopes;
  }

pub append_ok :
    (db : Db) (now gid kv : ℕ) (envs : List EnvelopeUpload)
    → (append_envelopes db now gid kv envs).0 ≡ ok tt
    → (any (λ e. contains e.user_id (user_ids (envelopes_at gid kv db.envelopes))) envs ≡ false)
      × (upsert_all (map (envelope_of gid kv now) envs) db
          ≡ ok (tt, (append_envelopes db now gid kv envs).1))
unfolding append_envelopes with_tx get_group_envelopes
append_ok db now gid kv envs h = ground arith

pub checked :
    (db : Db) (user_id gid : ℕ) (req : KeysUploadRequest) (g : Group) (ids : List ℕ)
    → check_upload db user_id gid req ≡ ok (g, ids)
    → (is_member gid user_id db.members ≡ true)
      × (find_group gid db.groups ≡ some g)
      × (active_member_ids db gid ≡ ok ids)
      × (all_in (uploaders req.envelopes) ids ≡ true)
unfolding check_upload get_group_member get_group
checked db user_id gid req g ids h = ground arith

-- An upload that succeeds has passed the checks.
pub upload_checked :
    (db : Db) (now user_id gid : ℕ) (req : KeysUploadRequest)
    → (upload_keys db now user_id gid req).0.0 ≡ ok tt
    → (r : Group × List ℕ) × (check_upload db user_id gid req ≡ ok r)
unfolding upload_keys
upload_checked db now user_id gid req h = elim (Result-cases (check_upload db user_id gid req)) [
  | inl found ↦ found
  | inr (e, x) ↦ absurd (ground (arith, x))
]

-- An accepted upload at the key version of the group comes from a member, holds envelopes of active
-- members only, none of whom has one at that version, and adds exactly these; nothing else changes.
pub upload_keys-Appends :
    (db : Db) (now user_id gid : ℕ) (req : KeysUploadRequest) (g : Group)
    → find_group gid db.groups ≡ some g
    → req.key_version ≡ g.key_version
    → (upload_keys db now user_id gid req).0.0 ≡ ok tt
    → Appends db now user_id gid req (upload_keys db now user_id gid req).1
unfolding upload_keys dispatch_upload
upload_keys-Appends db now user_id gid req g found same h =
    let ((g', ids), passed) = upload_checked db now user_id gid req h in
    let facts = checked db user_id gid req g' ids passed in
    let added = append_ok db now gid req.key_version req.envelopes in
    let db' = (append_envelopes db now gid req.key_version req.envelopes).1 in
    let all_added =
      upsert_all_ok (map (envelope_of gid req.key_version now) req.envelopes) db db' in
    record {
      member = facts.0;
      users_active = (ids, facts.2, facts.3);
      none_replaced = ground (arith, passed, facts.1, added);
      after = ground (arith, passed, facts.1, added, all_added);
    }
