-- ===== src/Store/Rows.antt =====
-- server/store/store.go: the rows, the constants and the sentinel errors; the tables are those of
-- server/store/migrations/0001_init.sql.
-- Identifiers, names, hashes and addresses are only compared for equality or order, so a number
-- stands for each such string, with 0 for the empty one; a ciphertext is its list of bytes.
use zt_data_sync.Prelude.{Option, ℕ, Bool, List, ◌≡◌, ◌⊎◌, inl, inr, refl}

pub data UserStatus : Type 0 where
  active revoked : UserStatus

pub data UserRole : Type 0 where
  admin member : UserRole

pub data DeviceStatus : Type 0 where
  enabled disabled : DeviceStatus

abbrev pub group_not_archived : ℕ
group_not_archived = 0

abbrev pub group_archived : ℕ
group_archived = 1

abbrev pub rekey_pending : ℕ
rekey_pending = 1

abbrev pub rekey_done : ℕ
rekey_done = 0

-- A user without a user name has 0 for it.
pub record User : Type 0 where
  pub id : ℕ
  pub username : ℕ
  pub name : ℕ
  pub sm2_public_key : ℕ
  pub role : UserRole
  pub status : UserStatus

pub record Device : Type 0 where
  pub id : ℕ
  pub user_id : ℕ
  pub name : ℕ
  pub hostname : ℕ
  pub last_ip : ℕ
  pub token_hash : ℕ
  pub status : DeviceStatus
  pub last_seen : ℕ

pub record Group : Type 0 where
  pub id : ℕ
  pub name : ℕ
  pub key_version : ℕ
  pub pending_rekey : ℕ
  pub archived : ℕ
  pub created_at : ℕ
  pub archived_at : Option ℕ

pub record GroupMember : Type 0 where
  pub group_id : ℕ
  pub user_id : ℕ

pub record Entry : Type 0 where
  pub id : ℕ
  pub group_id : ℕ
  pub seq : ℕ
  pub key_version : ℕ
  pub ciphertext : List ℕ
  pub size_bytes : ℕ
  pub deleted : Bool
  pub updated_by : ℕ
  pub updated_at : ℕ

pub record Envelope : Type 0 where
  pub group_id : ℕ
  pub key_version : ℕ
  pub user_id : ℕ
  pub wrapped_dek : List ℕ
  pub updated_at : ℕ

pub record AuditEvent : Type 0 where
  pub ts : ℕ
  pub device_id : ℕ
  pub user_id : ℕ
  pub action : ℕ

-- The statements that the driver may fail to run.
pub data Stmt : Type 0 where
  begin_tx commit_tx : Stmt
  get_user get_group get_member list_members user_groups list_devices : Stmt
  get_entry pull_entries server_seq count_below user_envelopes group_envelopes : Stmt
  next_seq upsert_entry upsert_envelope replace_envelopes delete_envelopes : Stmt
  set_rekey set_key_version delete_tombstones delete_audit : Stmt
  count_users get_username get_token create_user create_device : Stmt
  refresh_token set_device_ip set_device_seen insert_audit : Stmt
  get_public_key get_invite create_invite mark_invite : Stmt
  get_request create_request update_request : Stmt
  revoke_user disable_devices delete_user_envelopes remove_member delete_member_envelopes : Stmt
  replace_key add_member list_active : Stmt
  create_group set_archived disable_device get_device : Stmt

-- `fails` says at which statements the driver returns an error of its own.
pub record Db : Type 0 where
  pub users : List User
  pub devices : List Device
  pub groups : List Group
  pub members : List GroupMember
  pub entries : List Entry
  pub envelopes : List Envelope
  pub audit : List AuditEvent
  pub seq : ℕ
  pub fails : Stmt → Bool

pub data StoreError : Type 0 where
  no_rows constraint_unique constraint_fk driver : StoreError

-- A call's value, or its error.
pub data Result {ℓ} (E : Type ℓ) (A : Type ℓ) : Type ℓ where
  ok : A → Result E A
  err : E → Result E A

infixl 5 ◌>>=◌
abbrev pub ◌>>=◌ {ℓ} : {E A B : Type ℓ} → Result E A → (A → Result E B) → Result E B
err failure >>= step = err failure
ok value >>= step = step value

pub Result-cases :
    {E A : Type 0} (r : Result E A) → ((a : A) × (r ≡ ok a)) ⊎ ((e : E) × (r ≡ err e))
Result-cases (ok a) = inl (a, refl)
Result-cases (err e) = inr (e, refl)

-- A chain succeeds if its parts do.
pub bind-ok :
    {E A B : Type 0} (first : Result E A) (step : A → Result E B) {last : B}
    → (first >>= step) ≡ ok last
    → (mid : A) × (first ≡ ok mid) × (step mid ≡ ok last)
bind-ok (err failure) step h = cc
bind-ok (ok mid) step h = (mid, refl, h)
