-- ===== src/Client/Sealing/Opens.antt =====
-- client/core/vault/crypt.go and vault.go: what is sealed opens again.
use zt_data_sync.Merge.Keys.{key_eq_refl}
use zt_data_sync.Crypto.Sm4Gcm.{
  Primitives, Sound, sm4_key_size, sm4_nonce_size, hmac_derive_key, sm4_gcm_open-sm4_gcm_seal,
  hmac_derive_key-size,
}
use zt_data_sync.Client.Sealing.{
  Packet, Codec, parse_ciphertext, packet_of, entry_aad, encrypt_plaintext, decrypt_plaintext,
  split_cipher, drop, encrypt_local, decrypt_local, join_cipher,
}
use zt_data_sync.Prelude.{
  ℕ, Option, some, List, [], ◌∷◌, ◌++◌, ◌≡◌, ◌≤◌, refl, ap, ◌∙◌, sym, false, length, take, leb,
  arith, length-append,
}

-- The JSON of a packet reads back.
abbrev pub Reads : Codec → Type 0
Reads x = (q : Packet) → x.unmarshal (x.marshal q) ≡ some q

-- What is sealed for an entry under the key of its group opens for it as long as the key of that
-- version is there, whatever other keys the group has by then.
pub decrypt_plaintext-encrypt_plaintext :
    (p : Primitives) (x : Codec) (keys later : ℕ → ℕ → Option (List ℕ)) (gid id kv : ℕ)
    (text nonce dek : List ℕ)
    → Sound p
    → Reads x
    → keys gid kv ≡ some dek
    → later gid kv ≡ some dek
    → length dek ≡ sm4_key_size
    → length nonce ≡ sm4_nonce_size
    → (bytes : List ℕ) × (encrypt_plaintext p x keys gid id text kv (some nonce) ≡ some bytes)
      × (decrypt_plaintext p x later gid id bytes ≡ some text)
unfolding encrypt_plaintext decrypt_plaintext parse_ciphertext
decrypt_plaintext-encrypt_plaintext p x keys later gid id kv text nonce dek sound reads key key'
      key_size nonce_size =
    let aad = entry_aad x gid id in
    let (sealed, back) = sm4_gcm_open-sm4_gcm_seal p dek aad text nonce sound key_size nonce_size in
    let q = packet_of p x dek gid id kv nonce (p.gcm_seal dek nonce aad text) in
    (x.marshal q, rw (key, sealed) refl, rw (reads q, key', key_eq_refl q.hmac) back)

pub take-append : (nonce ct : List ℕ) → take (length nonce) (nonce ++ ct) ≡ nonce
take-append [] ct = refl
take-append (b ∷ bs) ct = ap (λ r. b ∷ r) (take-append bs ct)

pub drop-append : (nonce ct : List ℕ) → drop (length nonce) (nonce ++ ct) ≡ ct
drop-append [] ct = refl
drop-append (b ∷ bs) ct = drop-append bs ct

split_cipher-join_cipher :
    (nonce ct : List ℕ)
    → length nonce ≡ sm4_nonce_size
    → 16 ≤ length ct
    → split_cipher (join_cipher nonce ct) ≡ (nonce, ct)
unfolding split_cipher
split_cipher-join_cipher nonce ct size tagged =
    let first = ap (λ n. take n (nonce ++ ct)) (sym size) ∙ take-append nonce ct in
    let rest = ap (λ n. drop n (nonce ++ ct)) (sym size) ∙ drop-append nonce ct in
    let long : leb (length (nonce ++ ct)) 12 ≡ false =
      ground (arith, length-append nonce ct, size, tagged) in
    rw (long, first, rest) refl

-- A local column that was written while the vault was unlocked reads back under the same label.
pub decrypt_local-encrypt_local :
    (p : Primitives) (kek label text nonce : List ℕ)
    → Sound p
    → length nonce ≡ sm4_nonce_size
    → (bytes : List ℕ) × (encrypt_local p (some kek) label text (some nonce) ≡ some bytes)
      × (decrypt_local p (some kek) label bytes ≡ some text)
unfolding encrypt_local decrypt_local
decrypt_local-encrypt_local p kek label text nonce sound size =
    let key = hmac_derive_key p kek label in
    let ct = p.gcm_seal key nonce [] text in
    let (sealed, back) =
      sm4_gcm_open-sm4_gcm_seal p key [] text nonce sound (hmac_derive_key-size p kek label sound)
        size in
    (
      join_cipher nonce ct,
      rw sealed refl,
      rw (split_cipher-join_cipher nonce ct size (sound.tagged key nonce [] text)) back,
    )
