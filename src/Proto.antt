-- ===== src/Proto.antt =====
-- internal/proto: the error codes of errors.go, and the messages of types.go.
use zt_data_sync.Prelude.{ℕ, Bool, Option, List, ◌==◌, ◌||◌, if◌then◌else◌}

abbrev pub err_bad_request : ℕ
err_bad_request = 40001

abbrev pub err_unauthorized : ℕ
err_unauthorized = 40101

abbrev pub err_bad_signature : ℕ
err_bad_signature = 40104

abbrev pub err_bad_bootstrap : ℕ
err_bad_bootstrap = 40105

abbrev pub err_bad_challenge : ℕ
err_bad_challenge = 40106

abbrev pub err_user_revoked : ℕ
err_user_revoked = 40301

abbrev pub err_not_member : ℕ
err_not_member = 40302

abbrev pub err_not_admin : ℕ
err_not_admin = 40303

abbrev pub err_conflict : ℕ
err_conflict = 40901

abbrev pub err_key_version_stale : ℕ
err_key_version_stale = 40902

abbrev pub err_entry_state : ℕ
err_entry_state = 40903

abbrev pub err_bad_envelopes : ℕ
err_bad_envelopes = 40904

abbrev pub err_group_archived : ℕ
err_group_archived = 40905

abbrev pub err_too_large : ℕ
err_too_large = 41301

abbrev pub err_rate_limited : ℕ
err_rate_limited = 42901

abbrev pub err_internal : ℕ
err_internal = 50001

-- The switch of `HTTPStatus`, in its order.
unfoldable pub http_status : ℕ → ℕ
http_status code =
    if code == err_bad_request
    then 400
    else if (code == err_unauthorized)
        || ((code == err_bad_signature)
            || ((code == err_bad_bootstrap) || (code == err_bad_challenge)))
    then 401
    else if (code == err_user_revoked) || ((code == err_not_member) || (code == err_not_admin))
    then 403
    else if (code == err_conflict)
        || ((code == err_key_version_stale)
            || ((code == err_entry_state)
                || ((code == err_bad_envelopes) || (code == err_group_archived))))
    then 409
    else if code == err_too_large
    then 413
    else if code == err_rate_limited
    then 429
    else 500

pub record Mutation : Type 0 where
  pub entry_id : ℕ
  pub group_id : ℕ
  pub base_seq : ℕ
  pub key_version : ℕ
  pub ciphertext : List ℕ
  pub deleted : Bool

pub record Change : Type 0 where
  pub entry_id : ℕ
  pub group_id : ℕ
  pub seq : ℕ
  pub key_version : ℕ
  pub ciphertext : List ℕ
  pub deleted : Bool
  pub updated_at : ℕ

pub record PushResult : Type 0 where
  pub entry_id : ℕ
  pub is_ok : Bool
  pub new_seq : ℕ
  pub error : ℕ
  pub current : Option Change

pub record EnvelopeUpload : Type 0 where
  pub user_id : ℕ
  pub wrapped_dek : List ℕ

pub record KeysUploadRequest : Type 0 where
  pub key_version : ℕ
  pub envelopes : List EnvelopeUpload

pub record KeyEnvelopeInfo : Type 0 where
  pub group_id : ℕ
  pub key_version : ℕ
  pub wrapped_dek : List ℕ

pub record GroupState : Type 0 where
  pub id : ℕ
  pub name : ℕ
  pub key_version : ℕ
  pub pending_rekey : Bool
  pub archived : Bool
  pub missing_envelopes : List ℕ
  pub active_members : List ℕ

pub record SyncResponse : Type 0 where
  pub server_seq : ℕ
  pub changes : List Change
  pub key_envelopes : List KeyEnvelopeInfo
  pub groups : List GroupState
