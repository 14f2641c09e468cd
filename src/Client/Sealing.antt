-- ===== src/Client/Sealing.antt =====
-- client/core/vault/crypt.go, and the local columns of client/core/vault/vault.go: entries sealed
-- under the data key of their group, and columns under a key derived from the vault's. The JSON of
-- a packet and the bytes of an identifier are parameters; a nonce that is drawn is an argument.
pub mod Opens
pub mod Bound
use zt_data_sync.Merge.Keys.{key_eq}
use zt_data_sync.Crypto.LengthPrefix.{length_prefixed}
use zt_data_sync.Crypto.Sm4Gcm.{
  Primitives, sm4_gcm_seal, sm4_gcm_open, sm4_nonce_size, hmac_derive_key, entry_hmac,
}
use zt_data_sync.Prelude.{
  ℕ, Bool, ◌&&◌, Option, none, some, List, [], ◌∷◌, ◌++◌, ◌==◌, leb, length, take, zero, suc,
  if◌then◌else◌,
}

-- internal/model/wire.go: the packet of a ciphertext. An algorithm's name is a number.
pub record Packet : Type 0 where
  pub version : ℕ
  pub alg : ℕ
  pub kv : ℕ
  pub nonce : List ℕ
  pub ct : List ℕ
  pub hmac : List ℕ

abbrev pub wire_version : ℕ
wire_version = 1

abbrev pub ciphertext_alg : ℕ
ciphertext_alg = 4

-- The JSON of a packet, which ignores the fields that it does not know, and the bytes of an
-- identifier.
pub record Codec : Type 0 where
  pub marshal : Packet → List ℕ
  pub unmarshal : List ℕ → Option Packet
  pub bytes_of : ℕ → List ℕ

abbrev pub supported : Packet → Bool
supported q = leb 1 q.version && (leb q.version wire_version && (q.alg == ciphertext_alg))

abbrev pub accept : Option Packet → Option Packet
accept none = none
accept (some q) = if supported q then some q else none

unfoldable pub parse_ciphertext : Codec → List ℕ → Option Packet
parse_ciphertext x bytes = accept (x.unmarshal bytes)

abbrev pub packet_of : Primitives → Codec → List ℕ → ℕ → ℕ → ℕ → List ℕ → List ℕ → Packet
packet_of p x dek gid id kv nonce ct = record {
  version = 1;
  alg = ciphertext_alg;
  kv = kv;
  nonce = nonce;
  ct = ct;
  hmac = entry_hmac p dek (x.bytes_of id) (x.bytes_of gid) kv nonce ct;
}

abbrev pub pack :
    Primitives → Codec → List ℕ → ℕ → ℕ → ℕ → Option (List ℕ × List ℕ) → Option (List ℕ)
pack p x dek gid id kv none = none
pack p x dek gid id kv (some (nonce, ct)) = some (x.marshal (packet_of p x dek gid id kv nonce ct))

-- The authenticated data of an entry.
abbrev pub entry_aad : Codec → ℕ → ℕ → List ℕ
entry_aad x gid id = length_prefixed (x.bytes_of id ∷ x.bytes_of gid ∷ [])

abbrev pub seal_entry :
    Primitives → Codec → Option (List ℕ) → ℕ → ℕ → List ℕ → ℕ → Option (List ℕ) → Option (List ℕ)
seal_entry p x none gid id text kv drawn = none
seal_entry p x (some dek) gid id text kv drawn =
    pack p x dek gid id kv (sm4_gcm_seal p dek (entry_aad x gid id) text drawn)

-- `keys` is `GetDEK`.
unfoldable pub encrypt_plaintext :
    Primitives
    → Codec
    → (ℕ → ℕ → Option (List ℕ))
    → ℕ
    → ℕ
    → List ℕ
    → ℕ
    → Option (List ℕ)
    → Option (List ℕ)
encrypt_plaintext p x keys gid id text kv drawn = seal_entry p x (keys gid kv) gid id text kv drawn

abbrev pub open_packet : Primitives → Codec → ℕ → ℕ → Packet → Option (List ℕ) → Option (List ℕ)
open_packet p x gid id q none = none
open_packet p x gid id q (some dek) =
    if key_eq (entry_hmac p dek (x.bytes_of id) (x.bytes_of gid) q.kv q.nonce q.ct) q.hmac
    then sm4_gcm_open p dek q.nonce (entry_aad x gid id) q.ct
    else none

abbrev pub decrypt_parsed :
    Primitives → Codec → (ℕ → ℕ → Option (List ℕ)) → ℕ → ℕ → Option Packet → Option (List ℕ)
decrypt_parsed p x keys gid id none = none
decrypt_parsed p x keys gid id (some q) = open_packet p x gid id q (keys gid q.kv)

-- The key is that of the packet's version.
unfoldable pub decrypt_plaintext :
    Primitives → Codec → (ℕ → ℕ → Option (List ℕ)) → ℕ → ℕ → List ℕ → Option (List ℕ)
decrypt_plaintext p x keys gid id bytes = decrypt_parsed p x keys gid id (parse_ciphertext x bytes)

abbrev pub drop : ℕ → List ℕ → List ℕ
drop zero xs = xs
drop (suc n) [] = []
drop (suc n) (y ∷ ys) = drop n ys

-- A column is the nonce followed by the ciphertext.
abbrev pub join_cipher : List ℕ → List ℕ → List ℕ
join_cipher nonce ct = nonce ++ ct

unfoldable pub split_cipher : List ℕ → List ℕ × List ℕ
split_cipher bytes =
    if leb (length bytes) sm4_nonce_size
    then ([], bytes)
    else (take sm4_nonce_size bytes, drop sm4_nonce_size bytes)

abbrev pub joined : Option (List ℕ × List ℕ) → Option (List ℕ)
joined none = none
joined (some (nonce, ct)) = some (join_cipher nonce ct)

-- `kek` is none while the vault is locked.
unfoldable pub encrypt_local :
    Primitives → Option (List ℕ) → List ℕ → List ℕ → Option (List ℕ) → Option (List ℕ)
encrypt_local p none label text drawn = none
encrypt_local p (some kek) label text drawn =
    joined (sm4_gcm_seal p (hmac_derive_key p kek label) [] text drawn)

unfoldable pub decrypt_local : Primitives → Option (List ℕ) → List ℕ → List ℕ → Option (List ℕ)
decrypt_local p none label bytes = none
decrypt_local p (some kek) label bytes =
    let (nonce, ct) = split_cipher bytes in sm4_gcm_open p (hmac_derive_key p kek label) nonce [] ct
