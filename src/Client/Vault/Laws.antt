-- ===== src/Client/Vault/Laws.antt =====
-- client/core/vault with client/core/syncer/rekey.go: what the modelled vault gives the engine.
use zt_data_sync.Prelude.Assoc.{lookup, AtMostOnce}
use zt_data_sync.Crypto.Sm4Gcm.{Sound, sm4_key_size, sm4_nonce_size}
use zt_data_sync.Client.Local.{LocalStore, LocalEntry}
use zt_data_sync.Client.Local.Rows.{Has}
use zt_data_sync.Client.Keys.{Keys, KeyStmt, opened}
use zt_data_sync.Client.Keys.View.{Reopens, Coherent, view}
use zt_data_sync.Client.Keys.Refinement.{KeyCall, answers, map_answers, answers-map_answers}
use zt_data_sync.Client.Sealing.{encrypt_plaintext, decrypt_plaintext, encrypt_local, decrypt_local}
use zt_data_sync.Client.Sealing.Opens.{
  Reads, decrypt_plaintext-encrypt_plaintext, decrypt_local-encrypt_local,
}
use zt_data_sync.Client.Rekey.{reencrypt_rows}
use zt_data_sync.Client.Local.Table.{Keyed}
use zt_data_sync.Client.Rekey.Contents.{Rekeyed, reencrypt_rows-Rekeyed}
use zt_data_sync.Client.Vault.{
  Parts, ciphers_of, key_at, vault_of, marshal_dek_for_cache, unmarshal_dek_from_cache,
  dek_cache_label,
}
use mathlib.Core.Path.{ap₂}
use zt_data_sync.Prelude.{
  [], ◌∷◌, ◌==◌, inl, inr, Bool-cases, ℕ, true, false, some, List, ◌≡◌, length, ap, ◌∙◌, arith, ◌≢◌,
  Option,
}

stored_id :
    (id : ℕ) (m : List (ℕ × LocalEntry)) (le : LocalEntry)
    → Keyed m
    → lookup id m ≡ some le
    → le.id ≡ id
stored_id id [] le k h = absurd (ground (arith, h))
stored_id id ((j, y) ∷ m) le k h = elim (Bool-cases (j == id)) [
  | inl this ↦ ground (arith, h, this, k.0)
  | inr other ↦ stored_id id m le k.1 (ground (arith, h, other))
]

-- An unlocked vault, whose random source gives nonces, over ciphers that open what they sealed.
pub record Unlocked (s : Parts) (kek nonce : List ℕ) : Type 0 where
  pub sound : Sound s.primitives
  pub reads : Reads s.codec
  pub key : s.kek ≡ some kek
  pub drawn : s.nonce ≡ some nonce
  pub nonce_size : length nonce ≡ sm4_nonce_size

ciphers_of-Reopens :
    (s : Parts) (kek nonce : List ℕ) → Unlocked s kek nonce → Reopens (ciphers_of s)
unfolding marshal_dek_for_cache unmarshal_dek_from_cache
ciphers_of-Reopens s kek nonce u dek =
    let (bytes, sealed, back) =
      decrypt_local-encrypt_local s.primitives kek dek_cache_label dek nonce u.sound u.nonce_size in
    let enc : marshal_dek_for_cache s dek ≡ some bytes =
      ap₂ (λ k n. encrypt_local s.primitives k dek_cache_label dek n) u.key u.drawn ∙ sealed in
    let dec : unmarshal_dek_from_cache s bytes ≡ some dek =
      ap (λ k. decrypt_local s.primitives k dek_cache_label bytes) u.key ∙ back in
    ap (opened (ciphers_of s)) enc ∙ dec

-- The content of the entry opens from the ciphertext by this key of the version alone, whatever
-- other keys are there.
abbrev pub OpensBy : Parts → ℕ → ℕ → ℕ → List ℕ → List ℕ → List ℕ → Type 0
OpensBy s gid kv id dek text ct =
    (keys : ℕ → ℕ → Option (List ℕ))
    → keys gid kv ≡ some dek
    → decrypt_plaintext s.primitives s.codec keys gid id ct ≡ some text

-- What the vault seals for an entry opens by the key that it was sealed under.
vault_of-OpensBy :
    (s : Parts) (kek nonce : List ℕ) (ks : Keys) (gid id kv : ℕ) (text dek : List ℕ)
    → Unlocked s kek nonce
    → key_at s ks gid kv ≡ some dek
    → length dek ≡ sm4_key_size
    → (ct : List ℕ) → (vault_of s ks).encrypt_plaintext gid id text kv ≡ some ct
    → OpensBy s gid kv id dek text ct
vault_of-OpensBy s kek nonce ks gid id kv text dek u known size ct h keys has =
    let (bytes, sealed, back) =
      decrypt_plaintext-encrypt_plaintext s.primitives s.codec (key_at s ks) keys gid id kv text
        nonce dek u.sound u.reads known has size u.nonce_size in
    let again = ap (encrypt_plaintext s.primitives s.codec (key_at s ks) gid id text kv) u.drawn in
    let is : ct ≡ bytes = ground (arith, h, again, sealed) in
    ap (decrypt_plaintext s.primitives s.codec keys gid id) is ∙ back

-- The cache of data keys of an unlocked vault, whose random source gives nonces, answers each
-- sequence of its calls as one map from a group and a key version to a key does, where each key that
-- is in memory is stored too and every statement runs: which key of a group is in memory, and that
-- reads put others there, is not seen. SM4-GCM opens what it sealed.
pub keys_as_map :
    (s : Parts) (kek nonce : List ℕ) (calls : List KeyCall) (ks : Keys)
    → Unlocked s kek nonce
    → ((stmt : KeyStmt) → ks.fails stmt ≡ false)
    → Coherent (ciphers_of s) ks
    → answers (ciphers_of s) calls ks ≡ map_answers (ciphers_of s) calls (view (ciphers_of s) ks)
keys_as_map s kek nonce calls ks u runs coherent =
    answers-map_answers (ciphers_of s) calls ks runs (ciphers_of-Reopens s kek nonce u) coherent

-- The re-encryption after a change of a group's key, by an unlocked vault that has the new key and
-- where it runs to its end, moves each row of the group that opened under another version to the new
-- key and loses no content: the row has the new version, waits for a push, and its ciphertext opens
-- to the content that it had by the new key alone, whatever other keys are there. SM4-GCM opens what
-- it sealed under keys and nonces of its sizes, which the vault's are, the packets' JSON reads back,
-- and each row stands once in the table, under its own id.
pub rows_open_after_rekey :
    (s : Parts) (kek nonce : List ℕ) (ks : Keys) (gid kv id : ℕ) (text dek : List ℕ)
    (le : LocalEntry) (l l' : LocalStore)
    → Unlocked s kek nonce
    → key_at s ks gid kv ≡ some dek
    → length dek ≡ sm4_key_size
    → Keyed l.entries
    → AtMostOnce id l.entries
    → lookup id l.entries ≡ some le
    → le.group_id ≡ gid
    → le.key_version ≢ kv
    → (vault_of s ks).decrypt_plaintext gid id le.ciphertext ≡ some text
    → reencrypt_rows (vault_of s ks) gid kv l ≡ (true, l')
    → Has (Rekeyed (OpensBy s gid kv id dek text) gid kv) id l'
rows_open_after_rekey s kek nonce ks gid kv id text dek le l l' u known size keyed once found
      grouped old opens run =
    reencrypt_rows-Rekeyed (vault_of s ks) gid kv id text le (OpensBy s gid kv id dek text) l l'
      (vault_of-OpensBy s kek nonce ks gid id kv text dek u known size) keyed once found
      (stored_id id l.entries le keyed found) grouped old opens run
