-- ===== src/Client/Sealing/Bound.antt =====
-- client/core/vault/crypt.go: a ciphertext is bound to its entry and its group.
use zt_data_sync.Merge.Keys.{key_eq, key_eq_refl, eq_of_key_eq}
use zt_data_sync.Crypto.LengthPrefix.{
  Sealed, Fits, entry_hmac_message, entry_hmac_message-injective,
}
use zt_data_sync.Crypto.Sm4Gcm.{Primitives, hmac_derive_key, hmac_label, entry_hmac}
use zt_data_sync.Client.Sealing.{
  Packet, Codec, parse_ciphertext, packet_of, decrypt_plaintext, open_packet,
}
use zt_data_sync.Client.Sealing.Opens.{Reads}
use zt_data_sync.Prelude.{ℕ, Option, some, List, ◌≡◌, ◌≢◌, ◌⊎◌, inl, inr, ap, arith, Bool-cases}

-- Two messages with one HMAC.
pub record Collision (p : Primitives) (key : List ℕ) : Type 0 where
  pub one : List ℕ
  pub other : List ℕ
  pub differ : one ≢ other
  pub collide : p.hmac key one ≡ p.hmac key other

abbrev pub sealed_as : Codec → ℕ → ℕ → ℕ → List ℕ → List ℕ → Sealed
sealed_as x gid id kv nonce ct = record {
  entry_id = x.bytes_of id;
  group_id = x.bytes_of gid;
  kv = kv;
  nonce = nonce;
  ct = ct;
}

open_packet-checked :
    (p : Primitives) (x : Codec) (gid id : ℕ) (q : Packet) (dek : List ℕ) {text : List ℕ}
    → open_packet p x gid id q (some dek) ≡ some text
    → entry_hmac p dek (x.bytes_of id) (x.bytes_of gid) q.kv q.nonce q.ct ≡ q.hmac
open_packet-checked p x gid id q dek h =
    elim (Bool-cases
      (key_eq (entry_hmac p dek (x.bytes_of id) (x.bytes_of gid) q.kv q.nonce q.ct) q.hmac)) [
        | inl same ↦ eq_of_key_eq _ q.hmac same
        | inr other ↦ absurd (ground (arith, other, h))
      ]

-- A packet that was sealed for one entry of a group opens for another entry or another group that
-- has the same key only if the two agree, or two messages with one HMAC are found: for identifiers,
-- nonces and texts of at most 2^32 - 1 bytes and key versions below 2^64.
pub decrypt_plaintext-bound :
    (p : Primitives) (x : Codec) (keys : ℕ → ℕ → Option (List ℕ)) (gid id gid' id' kv : ℕ)
    (nonce ct dek : List ℕ) {text : List ℕ}
    → Reads x
    → keys gid' kv ≡ some dek
    → Fits (sealed_as x gid id kv nonce ct)
    → Fits (sealed_as x gid' id' kv nonce ct)
    → decrypt_plaintext p x keys gid' id' (x.marshal (packet_of p x dek gid id kv nonce ct))
      ≡ some text
    → ((x.bytes_of id ≡ x.bytes_of id') × (x.bytes_of gid ≡ x.bytes_of gid'))
      ⊎ Collision p (hmac_derive_key p dek hmac_label)
unfolding decrypt_plaintext parse_ciphertext entry_hmac
decrypt_plaintext-bound p x keys gid id gid' id' kv nonce ct dek {text} reads key fits fits' h =
    let q = packet_of p x dek gid id kv nonce ct in
    let a = sealed_as x gid id kv nonce ct in
    let b = sealed_as x gid' id' kv nonce ct in
    let opens : open_packet p x gid' id' q (some dek) ≡ some text =
      ground (arith, h, reads q, key) in
    let same = open_packet-checked p x gid' id' q dek {text = text} opens in
    elim (Bool-cases (
      key_eq (entry_hmac_message a.entry_id a.group_id kv nonce ct)
        (entry_hmac_message b.entry_id b.group_id kv nonce ct))) [
          | inl agree ↦
              let is = entry_hmac_message-injective a b fits fits' (eq_of_key_eq _ _ agree) in
              inl (ap (λ (s : Sealed). s.entry_id) is, ap (λ (s : Sealed). s.group_id) is)
          | inr differ ↦ inr (record {
            one = entry_hmac_message b.entry_id b.group_id kv nonce ct;
            other = entry_hmac_message a.entry_id a.group_id kv nonce ct;
            differ = λ e. absurd (
                ground (
                  arith,
                  differ,
                  e,
                  key_eq_refl (entry_hmac_message a.entry_id a.group_id kv nonce ct),
                ));
            collide = same;
          })
        ]
