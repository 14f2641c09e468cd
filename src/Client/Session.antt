-- ===== src/Client/Session.antt =====
-- client/core/syncer: what a round of the engine works on, with the calls of the server and the
-- vault as parameters.
use zt_data_sync.Prelude.Assoc.{put, lookup}
use zt_data_sync.Proto.{SyncResponse, Mutation, PushResult, KeysUploadRequest, EnvelopeUpload}
use zt_data_sync.Client.Keys.{Ciphers, Keys}
use zt_data_sync.Client.Engine.{Vault}
use zt_data_sync.Client.Outbox.{Engine}
use zt_data_sync.Client.Local.{Write}
use zt_data_sync.Prelude.{ℕ, Bool, true, false, Option, none, some, List, [], ◌∷◌}

-- `ServerClient`: what a call answers, none or false for one that fails, and what it leaves of the
-- server. A pull has the token refreshed once where it is refused.
pub record ServerClient (S : Type 0) : Type 0 where
  pub pull : ℕ → List (ℕ × ℕ) → S → Option SyncResponse × S
  pub push : List Mutation → S → Option (List PushResult) × S
  pub upload_keys : ℕ → KeysUploadRequest → S → Bool × S
  pub list_users : S → Option (List (ℕ × ℕ))

-- The ciphers of the keys, and the vault with the keys that it has.
pub record Tools : Type 0 where
  pub ciphers : Ciphers
  pub vault_at : Keys → Vault

pub data CursorStmt : Type 0 where
  get_last_seq set_last_seq : CursorStmt

-- The engine, the keys, the table `sync_state` with the statements on it that fail, and the server.
pub record World (S : Type 0) : Type 0 where
  pub engine : Engine
  pub keys : Keys
  pub last_seq : ℕ
  pub fails : CursorStmt → Bool
  pub server : S

abbrev pub and_next : {S : Type 0} → Bool × World S → (World S → Bool × World S) → Bool × World S
and_next (true, w) next = next w
and_next (false, w) next = (false, w)

-- A write of the local tables.
abbrev pub on_local : {S : Type 0} → Write → World S → Bool × World S
on_local f w =
    let r = f w.engine.local in (r.0, record w { engine = record w.engine { local = r.1 } })

-- A map of the public keys; a later row of a user counts.
unfoldable pub by_id : List (ℕ × ℕ) → List (ℕ × ℕ) → List (ℕ × ℕ)
by_id m [] = m
by_id m ((uid, key) ∷ users) = by_id (put uid key m) users

abbrev pub add_envelope : ℕ → List ℕ → Option (List EnvelopeUpload) → Option (List EnvelopeUpload)
add_envelope uid wrapped none = none
add_envelope uid wrapped (some envs) = some (record { user_id = uid; wrapped_dek = wrapped } ∷ envs)

abbrev pub wrap_one :
    Option (List ℕ) → ℕ → Option (List EnvelopeUpload) → Option (List EnvelopeUpload)
wrap_one none uid rest = none
wrap_one (some wrapped) uid rest = add_envelope uid wrapped rest

-- The key sealed for each of the users; one without a public key is passed over.
unfoldable pub wrap_for_all :
    Ciphers → List (ℕ × ℕ) → List ℕ → List ℕ → Option (List EnvelopeUpload)
wrap_for_all c keys dek [] = some []
wrap_for_all c keys dek (uid ∷ uids) =
    let rest = wrap_for_all c keys dek uids in
    elim (lookup uid keys) [ none ↦ rest | some key ↦ wrap_one (c.wrap_dek_for key dek) uid rest ]
