-- ===== src/Sync/Envelopes/Keys.antt =====
-- The primary key of the envelope table under every upload.
use zt_data_sync.Store.Queries.{entries_below}
use zt_data_sync.Sync.Envelopes.Append.{append_ok, upload_checked, upload_keys_failed}
use zt_data_sync.Sync.Envelopes.Rekey.{
  not_older, with_pending, with_version, rekey_tx_ok, rekey_ok, others,
}
use zt_data_sync.Proto.{KeysUploadRequest, EnvelopeUpload}
use mathlib.Core.Path.{subst}
use zt_data_sync.Store.Tx.{insert_envelopes, upsert_envelope, has_envelope}
use zt_data_sync.Store.Rows.{Envelope, ok, Db, Group, rekey_done, Result-cases}
use zt_data_sync.Sync.Envelopes.{
  upsert_all, dispatch_upload, upload_keys, commit_rekey, append_envelopes, envelope_of, all_in,
  uploaders,
}
use zt_data_sync.Prelude.{
  [], false, refl, ◌≡◌, ◌++◌, ◌∷◌, List, Bool, arith, filter, true, inl, inr, if◌then◌else◌, ◌==◌,
  ◌&&◌, ℕ, map, Bool-cases, length, not, ltb, ◌+◌,
}

abbrev pub has_key : Envelope → List Envelope → Bool
has_key e es = has_envelope e.group_id e.key_version e.user_id es

-- No two envelopes share the group, the key version and the user.
abbrev pub DistinctKeys : List Envelope → Type 0
DistinctKeys [] = Unit {0}
DistinctKeys (x ∷ xs) = (has_key x xs ≡ false) × DistinctKeys xs

has_key-append :
    (e x : Envelope) (xs : List Envelope)
    → has_key x xs ≡ false
    → has_key e (x ∷ []) ≡ false
    → has_key x (xs ++ (e ∷ [])) ≡ false
has_key-append e x [] h k = ground arith
has_key-append e x (y ∷ ys) h k = ground (arith, has_key-append e x ys)

DistinctKeys-append :
    (e : Envelope) (xs : List Envelope)
    → has_key e xs ≡ false
    → DistinctKeys xs
    → DistinctKeys (xs ++ (e ∷ []))
DistinctKeys-append e [] h d = (refl, tt)
DistinctKeys-append e (x ∷ xs) h d = ground (arith, DistinctKeys-append e xs, has_key-append e x xs)

has_key-filter :
    (p : Envelope → Bool) (x : Envelope) (xs : List Envelope)
    → has_key x xs ≡ false
    → has_key x (filter p xs) ≡ false
has_key-filter p x [] h = refl
has_key-filter p x (y ∷ ys) h = ground (arith, has_key-filter p x ys)

pub DistinctKeys-filter :
    (p : Envelope → Bool) (xs : List Envelope) → DistinctKeys xs → DistinctKeys (filter p xs)
DistinctKeys-filter p [] d = tt
DistinctKeys-filter p (x ∷ xs) d =
    ground (arith, DistinctKeys-filter p xs d.1, has_key-filter p x xs d.0)

upsert_all-DistinctKeys :
    (es : List Envelope) (db db' : Db)
    → DistinctKeys db.envelopes
    → upsert_all es db ≡ ok (tt, db')
    → DistinctKeys db'.envelopes
unfolding upsert_all upsert_envelope
upsert_all-DistinctKeys [] db db' d h =
    let e : db ≡ db' = ground (arith, h) in subst (λ (x : Db). DistinctKeys x.envelopes) e d
upsert_all-DistinctKeys (e ∷ es) db db' d h = ground (
  arith,
  upsert_all-DistinctKeys es (record db { envelopes = db.envelopes ++ (e ∷ []) }) db',
  DistinctKeys-append e db.envelopes,
)

insert_envelopes-DistinctKeys :
    (envs es rest : List Envelope)
    → DistinctKeys es
    → insert_envelopes envs es ≡ ok rest
    → DistinctKeys rest
unfolding insert_envelopes
insert_envelopes-DistinctKeys [] es rest d h = subst DistinctKeys (ground (arith, h)) d
insert_envelopes-DistinctKeys (e ∷ envs) es rest d h =
    ground
      (arith, insert_envelopes-DistinctKeys envs (es ++ (e ∷ [])) rest, DistinctKeys-append e es)

append-DistinctKeys :
    (db : Db) (now gid kv : ℕ) (envs : List EnvelopeUpload)
    → DistinctKeys db.envelopes
    → (append_envelopes db now gid kv envs).0 ≡ ok tt
    → DistinctKeys (append_envelopes db now gid kv envs).1.envelopes
append-DistinctKeys db now gid kv envs d h =
    upsert_all-DistinctKeys (map (envelope_of gid kv now) envs) db
      (append_envelopes db now gid kv envs).1 d (append_ok db now gid kv envs h).1

rekey-DistinctKeys :
    (db : Db) (now gid kv : ℕ) (envs : List EnvelopeUpload)
    → DistinctKeys db.envelopes
    → (commit_rekey db now gid kv envs).0 ≡ ok tt
    → DistinctKeys (commit_rekey db now gid kv envs).1.envelopes
rekey-DistinctKeys db now gid kv envs d h =
    let rows = map (envelope_of gid kv now) envs in
    let below = length (entries_below gid kv db.entries) in
    let db' = (commit_rekey db now gid kv envs).1 in
    let (rest, inserted, after) =
      rekey_tx_ok db db' gid kv below rows (rekey_ok db now gid kv envs h) in
    let kept =
      DistinctKeys-filter (λ x. not ((x.group_id == gid) && (x.key_version == kv))) db.envelopes
        d in
    let all = insert_envelopes-DistinctKeys rows (others gid kv db.envelopes) rest kept inserted in
    let fewer =
      DistinctKeys-filter (λ x. not ((x.group_id == gid) && ltb x.key_version kv)) rest all in
    rw after (choose (below == 0) rest gid kv db all fewer)
  where
    choose :
        (b : Bool) (rest : List Envelope) (gid kv : ℕ) (db : Db)
        → DistinctKeys rest
        → DistinctKeys (not_older gid kv rest)
        → DistinctKeys
            (if b
              then record db {
                envelopes = not_older gid kv rest;
                groups = with_pending gid (with_version gid db.groups kv) rekey_done;
              }
              else record db { envelopes = rest; groups = with_version gid db.groups kv }).envelopes
    choose true rest gid kv db a f = f
    choose false rest gid kv db a f = a

dispatch-DistinctKeys :
    (db : Db) (now gid : ℕ) (req : KeysUploadRequest) (g : Group) (ids : List ℕ)
    → DistinctKeys db.envelopes
    → (dispatch_upload db now gid req g ids).0.0 ≡ ok tt
    → DistinctKeys (dispatch_upload db now gid req g ids).1.envelopes
unfolding dispatch_upload
dispatch-DistinctKeys db now gid req g ids d h =
    elim (Bool-cases (req.key_version == g.key_version)) [
      | inl same ↦
          rw same
            (append-DistinctKeys db now gid req.key_version req.envelopes d (ground (arith, same)))
      | inr new ↦ elim (Bool-cases (req.key_version == g.key_version + 1)) [
        | inr wrong ↦ absurd (ground (arith, new, wrong))
        | inl next ↦
            elim (Bool-cases
              ((length req.envelopes == length ids) && all_in ids (uploaders req.envelopes))) [
                | inr partial ↦ absurd (ground (arith, new, next, partial))
                | inl whole ↦
                    rw (new, next, whole)
                      (rekey-DistinctKeys db now gid req.key_version req.envelopes d
                        (ground (arith, new, next, whole)))
              ]
      ]
    ]

upload-ok_DistinctKeys :
    (db : Db) (now user_id gid : ℕ) (req : KeysUploadRequest)
    → DistinctKeys db.envelopes
    → (upload_keys db now user_id gid req).0.0 ≡ ok tt
    → DistinctKeys (upload_keys db now user_id gid req).1.envelopes
unfolding upload_keys
upload-ok_DistinctKeys db now user_id gid req d h =
    let ((g, ids), passed) = upload_checked db now user_id gid req h in
    rw (passed, upload_keys) (dispatch-DistinctKeys db now gid req g ids d (ground (arith, passed)))

-- An upload, whatever its kind and outcome, keeps the envelopes' keys distinct: there is at most
-- one envelope for each group, key version and user.
pub upload_keys-DistinctKeys :
    (db : Db) (now user_id gid : ℕ) (req : KeysUploadRequest)
    → DistinctKeys db.envelopes
    → DistinctKeys (upload_keys db now user_id gid req).1.envelopes
upload_keys-DistinctKeys db now user_id gid req d =
    elim (Result-cases (upload_keys db now user_id gid req).0.0) [
      | inl (tt, h) ↦ upload-ok_DistinctKeys db now user_id gid req d h
      | inr (e, h) ↦ rw (upload_keys_failed db now user_id gid req h).0 d
    ]
