-- ===== src/Scenarios/Vaults.antt =====
-- The vault's keys and its ciphers.
use zt_data_sync.Crypto.LengthPrefix.{Fits, entry_hmac_message, length_prefixed, lp_append}
use zt_data_sync.Merge.Keys.{key_eq}
use zt_data_sync.Crypto.Sm4Gcm.{
  Primitives, Sound, hmac_derive_key, hmac_label, entry_hmac, sm4_gcm_open, sm4_gcm_seal,
}
use zt_data_sync.Client.Local.{LocalStore, LocalEntry, list_local_entries, upsert_local_entry}
use zt_data_sync.Client.Local.Rows.{Has}
use zt_data_sync.Client.Rekey.{reencrypt_rows, reencrypt_all}
use zt_data_sync.Client.Rekey.Contents.{Rekeyed}
use zt_data_sync.Client.Vault.{
  Parts, ciphers_of, vault_of, key_at, unmarshal_dek_from_cache, marshal_dek_for_cache,
  encrypt_cache,
}
use zt_data_sync.Client.Vault.Laws.{OpensBy, Unlocked, keys_as_map, rows_open_after_rekey}
use zt_data_sync.Scenarios.Clients.{edited_note, one_row}
use zt_data_sync.Client.Keys.{Ciphers, Keys, StoredDek, get_dek, set_dek, opened, find_stored}
use zt_data_sync.Client.Keys.View.{Coherent, view}
use zt_data_sync.Client.Keys.Refinement.{
  KeyCall, set, get, unwrap, invalidate, answers, map_answers,
}
use zt_data_sync.Client.Sealing.{
  Packet, Codec, drop, packet_of, split_cipher, encrypt_local, decrypt_local, encrypt_plaintext,
  decrypt_plaintext, parse_ciphertext,
}
use zt_data_sync.Client.Sealing.Opens.{
  Reads, take-append, drop-append, decrypt_plaintext-encrypt_plaintext,
}
use zt_data_sync.Client.Sealing.Bound.{Collision, sealed_as, decrypt_plaintext-bound}
use zt_data_sync.Prelude.{
  ◌==◌, Bool-cases, ap, sym, ◌∙◌, inl, inr, true, ℕ, Option, some, none, false, List, [], ◌∷◌, ◌++◌,
  ◌≡◌, ◌⊎◌, refl, length, take, arith,
}

-- Ciphers that leave a key as it is, and always draw the same one.
abbrev pub plain_ciphers : Ciphers
plain_ciphers = record {
  marshal_dek = λ dek. some dek;
  unmarshal_dek = λ enc. some enc;
  open_envelope = λ wrapped. some wrapped;
  wrap_dek_for = λ key dek. some (key ∷ dek);
  new_dek = some (5 ∷ []);
}

-- The first key of group 1, in memory and stored.
abbrev pub first_keys : Keys
first_keys = record {
  deks = (1, record { key_version = 1; dek = 4 ∷ [] }) ∷ [];
  key_cache = record { group_id = 1; key_version = 1; dek_enc = 4 ∷ [] } ∷ [];
  fails = λ s. false;
}

abbrev calls : List KeyCall
calls =
    unwrap 1 2 (6 ∷ [])
    ∷ get 1 1
    ∷ get 1 2
    ∷ set 2 1 (7 ∷ [])
    ∷ invalidate 1
    ∷ get 1 2
    ∷ get 2 1
    ∷ []

abbrev sixteen : List ℕ
sixteen = 0 ∷ 0 ∷ 0 ∷ 0 ∷ 0 ∷ 0 ∷ 0 ∷ 0 ∷ 0 ∷ 0 ∷ 0 ∷ 0 ∷ 0 ∷ 0 ∷ 0 ∷ 0 ∷ []

abbrev twelve : List ℕ
twelve = 0 ∷ 0 ∷ 0 ∷ 0 ∷ 0 ∷ 0 ∷ 0 ∷ 0 ∷ 0 ∷ 0 ∷ 0 ∷ 0 ∷ []

-- A tag of zeros before the text, and the message itself as its HMAC.
abbrev toy : Primitives
toy = record {
  sm3 = λ bytes. sixteen ++ sixteen;
  hmac = λ key message. message;
  gcm_seal = λ key nonce aad text. sixteen ++ text;
  gcm_open = λ key nonce aad ct. some (drop 16 ct);
}

toy-Sound : Sound toy
toy-Sound = record {
  opens = λ key nonce aad text. refl;
  tagged = λ key nonce aad text. omega arith;
  hash_size = λ bytes. refl;
}

-- The lengths of two parts, then the parts.
abbrev flat : Packet → List ℕ
flat q = q.version ∷ q.alg ∷ q.kv ∷ length q.nonce ∷ length q.ct ∷ (q.nonce ++ (q.ct ++ q.hmac))

abbrev unflat : List ℕ → Option Packet
unflat (v ∷ a ∷ k ∷ n ∷ m ∷ rest) = some (record {
  version = v;
  alg = a;
  kv = k;
  nonce = take n rest;
  ct = take m (drop n rest);
  hmac = drop m (drop n rest);
})
unflat other = none

abbrev flat_codec : Codec
flat_codec = record { marshal = flat; unmarshal = unflat; bytes_of = λ id. id ∷ [] }

flat_codec-Reads : Reads flat_codec
flat_codec-Reads q =
    rw
      (
        take-append q.nonce (q.ct ++ q.hmac),
        drop-append q.nonce (q.ct ++ q.hmac),
        take-append q.ct q.hmac,
        drop-append q.ct q.hmac,
      )
      refl

abbrev one_key : ℕ → ℕ → Option (List ℕ)
one_key gid kv = some sixteen

decrypt_plaintext-encrypt_plaintext_example :
    (bytes : List ℕ) × (encrypt_plaintext toy flat_codec one_key 1 100 (7 ∷ []) 3 (some twelve)
      ≡ some bytes)
    × (decrypt_plaintext toy flat_codec one_key 1 100 bytes ≡ some (7 ∷ []))
decrypt_plaintext-encrypt_plaintext_example =
    decrypt_plaintext-encrypt_plaintext toy flat_codec one_key one_key 1 100 3 (7 ∷ []) twelve
      sixteen toy-Sound flat_codec-Reads refl refl refl refl

sealed_note-Fits : Fits (sealed_as flat_codec 1 100 3 twelve (sixteen ++ (7 ∷ [])))
sealed_note-Fits = record {
  entry_fits = omega arith;
  group_fits = omega arith;
  kv_fits = omega arith;
  nonce_fits = omega arith;
  ct_fits = omega arith;
}

opens_again :
    decrypt_plaintext toy flat_codec one_key 1 100
      (flat (packet_of toy flat_codec sixteen 1 100 3 twelve (sixteen ++ (7 ∷ []))))
    ≡ some (7 ∷ [])
unfolding decrypt_plaintext parse_ciphertext entry_hmac sm4_gcm_open key_eq entry_hmac_message
    length_prefixed lp_append
opens_again = refl

decrypt_plaintext-bound_example :
    ((flat_codec.bytes_of 100 ≡ flat_codec.bytes_of 100)
      × (flat_codec.bytes_of 1 ≡ flat_codec.bytes_of 1))
    ⊎ Collision toy (hmac_derive_key toy sixteen hmac_label)
decrypt_plaintext-bound_example =
    decrypt_plaintext-bound toy flat_codec one_key 1 100 1 100 3 twelve (sixteen ++ (7 ∷ []))
      sixteen flat_codec-Reads refl sealed_note-Fits sealed_note-Fits opens_again

-- An unlocked vault.
abbrev toy_parts : Parts
toy_parts = record {
  primitives = toy;
  codec = flat_codec;
  open_envelope = λ wrapped. some wrapped;
  wrap_dek_for = λ key dek. some (key ∷ dek);
  new_dek = some sixteen;
  kek = some sixteen;
  nonce = some twelve;
  merge_json = λ base ours theirs. none;
}

toy_parts-Unlocked : Unlocked toy_parts sixteen twelve
toy_parts-Unlocked = record {
  sound = toy-Sound;
  reads = flat_codec-Reads;
  key = refl;
  drawn = refl;
  nonce_size = refl;
}

abbrev stored_key : ℕ → StoredDek
stored_key kv = record { group_id = 1; key_version = kv; dek_enc = twelve ++ (sixteen ++ sixteen) }

-- Two keys of group 1, the second one in memory.
abbrev two_keys : Keys
two_keys = record {
  deks = (1, record { key_version = 2; dek = sixteen }) ∷ [];
  key_cache = stored_key 1 ∷ stored_key 2 ∷ [];
  fails = λ s. false;
}

second_there : opened (ciphers_of toy_parts) (find_stored 1 2 two_keys.key_cache) ≡ some sixteen
unfolding unmarshal_dek_from_cache decrypt_local split_cipher hmac_derive_key sm4_gcm_open
second_there = refl

two_keys-Coherent : Coherent (ciphers_of toy_parts) two_keys
two_keys-Coherent gid e h = elim (Bool-cases (1 == gid)) [
  | inr other ↦ absurd (ground (arith, h, other))
  | inl same ↦
      let is_group : 1 ≡ gid = ground (arith, same) in
      let is_version : 2 ≡ e.key_version = ground (arith, h, same) in
      let is_key : sixteen ≡ e.dek = ground (arith, h, same) in
      sym (
        ap (λ g. opened (ciphers_of toy_parts) (find_stored g e.key_version two_keys.key_cache))
          is_group)
      ∙ sym
          (ap (λ k. opened (ciphers_of toy_parts) (find_stored 1 k two_keys.key_cache)) is_version)
      ∙ second_there
      ∙ ap some is_key
]

keys_as_map_example :
    answers (ciphers_of toy_parts) calls two_keys
    ≡ map_answers (ciphers_of toy_parts) calls (view (ciphers_of toy_parts) two_keys)
keys_as_map_example =
    keys_as_map toy_parts sixteen twelve calls two_keys toy_parts-Unlocked (λ s. refl)
      two_keys-Coherent

-- A note under the first key.
abbrev old_note : LocalEntry
old_note = record edited_note {
  ciphertext = flat (packet_of toy flat_codec sixteen 1 100 1 twelve (sixteen ++ (7 ∷ [])));
}

abbrev new_rows : LocalStore
new_rows = (reencrypt_rows (vault_of toy_parts two_keys) 1 2 (one_row old_note)).1

old_note_opens :
    (vault_of toy_parts two_keys).decrypt_plaintext 1 100 old_note.ciphertext ≡ some (7 ∷ [])
unfolding decrypt_plaintext parse_ciphertext entry_hmac sm4_gcm_open key_eq entry_hmac_message
    length_prefixed lp_append get_dek set_dek unmarshal_dek_from_cache marshal_dek_for_cache
    encrypt_local decrypt_local split_cipher hmac_derive_key sm4_gcm_seal
old_note_opens = refl

new_rows_run :
    reencrypt_rows (vault_of toy_parts two_keys) 1 2 (one_row old_note) ≡ (true, new_rows)
unfolding decrypt_plaintext encrypt_plaintext parse_ciphertext entry_hmac sm4_gcm_open key_eq
    entry_hmac_message length_prefixed lp_append get_dek set_dek unmarshal_dek_from_cache
    marshal_dek_for_cache encrypt_local decrypt_local split_cipher hmac_derive_key sm4_gcm_seal
    reencrypt_rows list_local_entries reencrypt_all upsert_local_entry encrypt_cache
new_rows_run = refl

new_key_there : key_at toy_parts two_keys 1 2 ≡ some sixteen
unfolding get_dek
new_key_there = refl

rows_open_after_rekey_example :
    Has (Rekeyed (OpensBy toy_parts 1 2 100 sixteen (7 ∷ [])) 1 2) 100 new_rows
rows_open_after_rekey_example =
    rows_open_after_rekey toy_parts sixteen twelve two_keys 1 2 100 (7 ∷ []) sixteen old_note
      (one_row old_note) new_rows toy_parts-Unlocked new_key_there refl (refl, tt) ((λ e. refl), tt)
      refl refl (omega arith) old_note_opens new_rows_run
