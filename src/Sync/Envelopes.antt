-- ===== src/Sync/Envelopes.antt =====
-- server/sync/envelopes.go: `UploadKeys`, to add envelopes at the group's key version or to replace
-- the key (rekey). The reads stand outside of the transactions.
pub mod Append
pub mod Rekey
pub mod Keys
use zt_data_sync.Sync.Pull.{active_of, user_ids}
use zt_data_sync.Prelude.Membership.{contains}
use zt_data_sync.Store.Queries.{
  count_entries_below_kv, get_group_envelopes, list_group_members, get_group_member, get_group,
}
use zt_data_sync.Sync.Failure.{Failure, code, store, from_store, require}
use zt_data_sync.Proto.{
  EnvelopeUpload, KeysUploadRequest, err_bad_envelopes, err_not_member, err_group_archived,
}
use zt_data_sync.Store.Rows.{
  Result, Db, Envelope, StoreError, ok, err, Group, rekey_done, ◌>>=◌, group_archived,
}
use zt_data_sync.Store.Tx.{
  Tx, upsert_envelope, then_tx, replace_envelopes, set_group_rekey, set_group_key_version, with_tx,
  delete_old_kv_envelopes, pass_tx,
}
use zt_data_sync.Prelude.{
  ℕ, [], true, false, if◌then◌else◌, ◌==◌, ◌&&◌, ◌+◌, ◌∷◌, List, Bool, map, length, any, not,
}

abbrev pub envelope_of : ℕ → ℕ → ℕ → EnvelopeUpload → Envelope
envelope_of gid kv now e = record {
  group_id = gid;
  key_version = kv;
  user_id = e.user_id;
  wrapped_dek = e.wrapped_dek;
  updated_at = now;
}

abbrev pub uploaders : List EnvelopeUpload → List ℕ
uploaders es = map (λ e. e.user_id) es

-- The envelopes one after the other; one that is there stops the transaction.
unfoldable pub upsert_all : List Envelope → Tx (Unit {0})
unfolding upsert_envelope
upsert_all [] db = ok (tt, db)
upsert_all (e ∷ es) db = upsert_envelope e db >>= λ r. upsert_all es r.1

abbrev append_error : Result StoreError (Unit {0}) → Result Failure (Unit {0})
append_error (ok u) = ok u
append_error (err StoreError.constraint_unique) = err (code err_bad_envelopes)
append_error (err e) = err (store e)

-- The envelopes of `envs` are added, none of them over one that is there.
unfoldable pub append_envelopes :
    Db → ℕ → ℕ → ℕ → List EnvelopeUpload → Result Failure (Unit {0}) × Db
append_envelopes db now gid kv envs = elim (get_group_envelopes db gid kv) [
  | err e ↦ (err (store e), db)
  | ok existing ↦
      if any (λ e. contains e.user_id (user_ids existing)) envs
      then (err (code err_bad_envelopes), db)
      else let (r, db') = with_tx (upsert_all (map (envelope_of gid kv now) envs)) db in
        (append_error r, db')
]

-- The end of the rekey, where no live entry is below the new version.
abbrev pub end_rekey : ℕ → ℕ → ℕ → Tx (Unit {0})
end_rekey gid kv below =
    if below == 0
    then then_tx (set_group_rekey gid rekey_done) (delete_old_kv_envelopes gid kv)
    else pass_tx

unfoldable pub rekey_tx : ℕ → ℕ → ℕ → List Envelope → Tx (Unit {0})
rekey_tx gid kv below envs =
    then_tx (replace_envelopes gid kv envs)
      (then_tx (set_group_key_version gid kv) (end_rekey gid kv below))

-- The new envelopes, the new key version and, where all is converted, the end of the rekey.
unfoldable pub commit_rekey : Db → ℕ → ℕ → ℕ → List EnvelopeUpload → Result Failure (Unit {0}) × Db
commit_rekey db now gid kv envs = elim (count_entries_below_kv db gid kv) [
  | err e ↦ (err (store e), db)
  | ok below ↦
      let (r, db') = with_tx (rekey_tx gid kv below (map (envelope_of gid kv now) envs)) db in
      (from_store r, db')
]

abbrev group_or_refuse : Result StoreError Group → Result Failure Group
group_or_refuse (ok g) = ok g
group_or_refuse (err StoreError.no_rows) = err (code err_not_member)
group_or_refuse (err e) = err (store e)

unfoldable pub active_member_ids : Db → ℕ → Result StoreError (List ℕ)
active_member_ids db gid = list_group_members db gid >>= active_of db

-- Every element of the first list is in the second.
abbrev pub all_in : List ℕ → List ℕ → Bool
all_in [] ys = true
all_in (x ∷ xs) ys = contains x ys && all_in xs ys

-- The checks that both kinds of upload share: the group and its active members.
unfoldable pub check_upload : Db → ℕ → ℕ → KeysUploadRequest → Result Failure (Group × List ℕ)
check_upload db user_id gid req = do
  member ← from_store (get_group_member db gid user_id)
  _ ← require member err_not_member
  g ← group_or_refuse (get_group db gid)
  _ ← require (not (g.archived == group_archived)) err_group_archived
  ids ← from_store (active_member_ids db gid)
  _ ← require (all_in (uploaders req.envelopes) ids) err_bad_envelopes
  ok (g, ids)

abbrev succeeded : Result Failure (Unit {0}) → Bool
succeeded (ok u) = true
succeeded (err e) = false

-- The result, whether the hub is notified, and the tables.
unfoldable pub dispatch_upload :
    Db → ℕ → ℕ → KeysUploadRequest → Group → List ℕ → (Result Failure (Unit {0}) × Bool) × Db
dispatch_upload db now gid req g ids =
    if req.key_version == g.key_version
    then (let (r, db') = append_envelopes db now gid req.key_version req.envelopes in
        ((r, succeeded r), db'))
    else if req.key_version == g.key_version + 1
    then (if (length req.envelopes == length ids) && all_in ids (uploaders req.envelopes)
        then (let (r, db') = commit_rekey db now gid req.key_version req.envelopes in
            ((r, false), db'))
        else ((err (code err_bad_envelopes), false), db))
    else ((err (code err_bad_envelopes), false), db)

unfoldable pub upload_keys :
    Db → ℕ → ℕ → ℕ → KeysUploadRequest → (Result Failure (Unit {0}) × Bool) × Db
upload_keys db now user_id gid req = elim (check_upload db user_id gid req) [
  | err e ↦ ((err e, false), db)
  | ok (g, ids) ↦ dispatch_upload db now gid req g ids
]
