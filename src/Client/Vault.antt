-- ===== src/Client/Vault.antt =====
-- client/core/vault/vault.go: the vault that the engine calls, over its keys and its ciphers. The
-- opening and sealing of an envelope with SM2 is third-party code.
pub mod Laws
use zt_data_sync.Store.Tx.{is_some}
use zt_data_sync.Crypto.Sm4Gcm.{Primitives}
use zt_data_sync.Client.Keys.{Ciphers, Keys, get_dek}
use zt_data_sync.Client.Sealing.{
  Codec, encrypt_plaintext, decrypt_plaintext, encrypt_local, decrypt_local,
}
use zt_data_sync.Client.Engine.{Vault}
use zt_data_sync.Client.Session.{Tools}
use zt_data_sync.Prelude.{ℕ, Bool, Option, List, [], ◌∷◌, ◌++◌}

abbrev pub cache_word : List ℕ
cache_word = b'-' ∷ b'c' ∷ b'a' ∷ b'c' ∷ b'h' ∷ b'e' ∷ []

abbrev pub dek_cache_label : List ℕ
dek_cache_label = b'd' ∷ b'e' ∷ b'k' ∷ cache_word

abbrev pub plaintext_cache_label : List ℕ
plaintext_cache_label =
    (b'p' ∷ b'l' ∷ b'a' ∷ b'i' ∷ b'n' ∷ b't' ∷ b'e' ∷ b'x' ∷ b't' ∷ []) ++ cache_word

-- What a vault is made of. `kek` is none while it is locked, and one nonce stands for all that are
-- drawn.
pub record Parts : Type 0 where
  pub primitives : Primitives
  pub codec : Codec
  pub open_envelope : List ℕ → Option (List ℕ)
  pub wrap_dek_for : ℕ → List ℕ → Option (List ℕ)
  pub new_dek : Option (List ℕ)
  pub kek : Option (List ℕ)
  pub nonce : Option (List ℕ)
  pub merge_json : List ℕ → List ℕ → List ℕ → Option (List ℕ × Bool)

unfoldable pub marshal_dek_for_cache : Parts → List ℕ → Option (List ℕ)
marshal_dek_for_cache s dek = encrypt_local s.primitives s.kek dek_cache_label dek s.nonce

unfoldable pub unmarshal_dek_from_cache : Parts → List ℕ → Option (List ℕ)
unmarshal_dek_from_cache s enc = decrypt_local s.primitives s.kek dek_cache_label enc

unfoldable pub encrypt_cache : Parts → List ℕ → Option (List ℕ)
encrypt_cache s text = encrypt_local s.primitives s.kek plaintext_cache_label text s.nonce

unfoldable pub decrypt_cache : Parts → List ℕ → Option (List ℕ)
decrypt_cache s enc = decrypt_local s.primitives s.kek plaintext_cache_label enc

abbrev pub ciphers_of : Parts → Ciphers
ciphers_of s = record {
  marshal_dek = marshal_dek_for_cache s;
  unmarshal_dek = unmarshal_dek_from_cache s;
  open_envelope = s.open_envelope;
  wrap_dek_for = s.wrap_dek_for;
  new_dek = s.new_dek;
}

-- `GetDEK`
abbrev pub key_at : Parts → Keys → ℕ → ℕ → Option (List ℕ)
key_at s ks gid kv = (get_dek (ciphers_of s) gid kv ks).0

abbrev pub vault_of : Parts → Keys → Vault
vault_of s ks = record {
  is_unlocked = is_some s.kek;
  has_dek = λ gid kv. is_some (key_at s ks gid kv);
  decrypt_plaintext =
      λ gid id bytes. decrypt_plaintext s.primitives s.codec (key_at s ks) gid id bytes;
  encrypt_plaintext =
      λ gid id text kv. encrypt_plaintext s.primitives s.codec (key_at s ks) gid id text kv s.nonce;
  encrypt_cache = encrypt_cache s;
  decrypt_cache = decrypt_cache s;
  merge_json = s.merge_json;
}

abbrev pub tools_of : Parts → Tools
tools_of s = record { ciphers = ciphers_of s; vault_at = vault_of s }
