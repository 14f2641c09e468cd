-- ===== src/Sync/Envelopes/Rekey.antt =====
-- Replacing the group's key.
use zt_data_sync.Sync.Envelopes.Append.{upload_checked, checked}
use zt_data_sync.Store.Queries.{entries_below, is_member, find_group, count_entries_below_kv}
use zt_data_sync.Proto.{EnvelopeUpload, KeysUploadRequest}
use mathlib.Core.List.{append-nil, append_assoc}
use zt_data_sync.Store.Rows.{Db, Group, Envelope, ok, rekey_done, Result-cases}
use zt_data_sync.Store.Tx.{
  insert_envelopes, replace_envelopes, set_group_key_version, update_group, set_group_rekey,
  delete_old_kv_envelopes, with_tx,
}
use zt_data_sync.Sync.Envelopes.{
  rekey_tx, commit_rekey, upload_keys, dispatch_upload, envelope_of, active_member_ids, all_in,
  uploaders,
}
use zt_data_sync.Prelude.{
  ℕ, [], true, false, if◌then◌else◌, ◌==◌, ◌&&◌, ◌≡◌, ◌++◌, ◌∷◌, List, filter, Bool, arith, not,
  ltb, some, inl, inr, ◌+◌, ◌∙◌, length, map,
}

insert_envelopes_ok :
    (envs es rest : List Envelope) → insert_envelopes envs es ≡ ok rest → rest ≡ es ++ envs
unfolding insert_envelopes
insert_envelopes_ok [] es rest h = ground (arith, append-nil es)
insert_envelopes_ok (e ∷ envs) es rest h =
    ground (arith, insert_envelopes_ok envs (es ++ (e ∷ [])) rest, append_assoc es (e ∷ []) envs)

abbrev pub others : ℕ → ℕ → List Envelope → List Envelope
others gid kv es = filter (λ x. not ((x.group_id == gid) && (x.key_version == kv))) es

abbrev pub not_older : ℕ → ℕ → List Envelope → List Envelope
not_older gid kv es = filter (λ x. not ((x.group_id == gid) && ltb x.key_version kv)) es

abbrev pub with_version : ℕ → List Group → ℕ → List Group
with_version gid gs kv = update_group gid (λ g. record g { key_version = kv }) gs

abbrev pub with_pending : ℕ → List Group → ℕ → List Group
with_pending gid gs n = update_group gid (λ g. record g { pending_rekey = n }) gs

-- The tables after a rekey: while live entries of older versions are left, the older envelopes and
-- the flag stay; otherwise both go in the same transaction.
abbrev pub rekeyed : Db → ℕ → ℕ → List Envelope → Bool → Db
rekeyed db gid kv envs false = record db {
  envelopes = others gid kv db.envelopes ++ envs;
  groups = with_version gid db.groups kv;
}
rekeyed db gid kv envs true = record db {
  envelopes = not_older gid kv (others gid kv db.envelopes ++ envs);
  groups = with_pending gid (with_version gid db.groups kv) rekey_done;
}

pub rekey_tx_ok :
    (db db' : Db) (gid kv below : ℕ) (envs : List Envelope)
    → rekey_tx gid kv below envs db ≡ ok (tt, db')
    → (rest : List Envelope) × (insert_envelopes envs (others gid kv db.envelopes) ≡ ok rest)
      × (db' ≡ (
          if below == 0
          then record db {
            envelopes = not_older gid kv rest;
            groups = with_pending gid (with_version gid db.groups kv) rekey_done;
          }
          else record db { envelopes = rest; groups = with_version gid db.groups kv }))
unfolding rekey_tx replace_envelopes set_group_key_version set_group_rekey delete_old_kv_envelopes
rekey_tx_ok db db' gid kv below envs h =
    elim (Result-cases (insert_envelopes envs (others gid kv db.envelopes))) [
      | inl (rest, e) ↦ (rest, e, ground (arith, e))
      | inr (x, e) ↦ absurd (ground (arith, e))
    ]

pub rekey_ok :
    (db : Db) (now gid kv : ℕ) (envs : List EnvelopeUpload)
    → (commit_rekey db now gid kv envs).0 ≡ ok tt
    → rekey_tx gid kv
        (length (entries_below gid kv db.entries))
        (map (envelope_of gid kv now) envs)
        db
      ≡ ok (tt, (commit_rekey db now gid kv envs).1)
unfolding commit_rekey with_tx count_entries_below_kv
rekey_ok db now gid kv envs h = ground arith

-- No live entry of the group is below the version.
abbrev pub all_converted : Db → ℕ → ℕ → Bool
all_converted db gid kv = length (entries_below gid kv db.entries) == 0

commit_rekey-rekeyed :
    (db : Db) (now gid kv : ℕ) (envs : List EnvelopeUpload)
    → (commit_rekey db now gid kv envs).0 ≡ ok tt
    → (commit_rekey db now gid kv envs).1
      ≡ rekeyed db gid kv (map (envelope_of gid kv now) envs) (all_converted db gid kv)
commit_rekey-rekeyed db now gid kv envs h =
    let rows = map (envelope_of gid kv now) envs in
    let below = length (entries_below gid kv db.entries) in
    let db' = (commit_rekey db now gid kv envs).1 in
    let (rest, inserted, after) =
      rekey_tx_ok db db' gid kv below rows (rekey_ok db now gid kv envs h) in
    let all = insert_envelopes_ok rows (others gid kv db.envelopes) rest inserted in
    after ∙ ground (arith, all)

-- What an accepted rekey has checked and written.
pub record Rekeys (db : Db) (now user_id gid : ℕ) (req : KeysUploadRequest) (db' : Db)
    : Type 0 where
  pub member : is_member gid user_id db.members ≡ true
  pub exactly_active :
      (ids : List ℕ) × (active_member_ids db gid ≡ ok ids)
      × (all_in (uploaders req.envelopes) ids ≡ true)
      × (all_in ids (uploaders req.envelopes) ≡ true)
  pub after :
      db'
      ≡ rekeyed db gid req.key_version
          (map (envelope_of gid req.key_version now) req.envelopes)
          (all_converted db gid req.key_version)

-- An accepted upload at the version above the group's comes from a member and has envelopes of
-- exactly the active members. It replaces what there is at that version and raises the group's
-- version; the flag is cleared and the older envelopes are deleted in the same transaction if and
-- only if no live entry of the group is below the new version.
pub upload_keys-Rekeys :
    (db : Db) (now user_id gid : ℕ) (req : KeysUploadRequest) (g : Group)
    → find_group gid db.groups ≡ some g
    → req.key_version ≡ g.key_version + 1
    → (upload_keys db now user_id gid req).0.0 ≡ ok tt
    → Rekeys db now user_id gid req (upload_keys db now user_id gid req).1
unfolding upload_keys dispatch_upload
upload_keys-Rekeys db now user_id gid req g found next h =
    let ((g', ids), passed) = upload_checked db now user_id gid req h in
    let facts = checked db user_id gid req g' ids passed in
    let written = commit_rekey-rekeyed db now gid req.key_version req.envelopes in
    record {
      member = facts.0;
      exactly_active = (ids, facts.2, facts.3, ground (arith, passed, facts.1));
      after = ground (arith, passed, facts.1, written);
    }
