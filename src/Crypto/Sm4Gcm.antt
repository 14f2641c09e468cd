-- ===== src/Crypto/Sm4Gcm.antt =====
-- internal/crypto/sm4gcm.go and hmacsm3.go: the sizes that are checked before the cipher is called,
-- and the derived keys. GCM, SM3 and its HMAC are third-party code; a nonce that is drawn is an
-- argument, none where the random source fails.
use zt_data_sync.Crypto.LengthPrefix.{entry_hmac_message}
use zt_data_sync.Prelude.{
  ℕ, zero, suc, ap, Option, none, some, List, [], ◌∷◌, ◌++◌, ◌==◌, ◌≡◌, ◌≤◌, ltb, length, take,
  refl, arith, if◌then◌else◌,
}

abbrev pub sm4_key_size : ℕ
sm4_key_size = 16

abbrev pub sm4_nonce_size : ℕ
sm4_nonce_size = 12

-- `gcm.Seal` and `gcm.Open` of a key, a nonce, the data that is authenticated and the text.
pub record Primitives : Type 0 where
  pub sm3 : List ℕ → List ℕ
  pub hmac : List ℕ → List ℕ → List ℕ
  pub gcm_seal : List ℕ → List ℕ → List ℕ → List ℕ → List ℕ
  pub gcm_open : List ℕ → List ℕ → List ℕ → List ℕ → Option (List ℕ)

abbrev pub seal_with :
    Primitives → List ℕ → List ℕ → List ℕ → Option (List ℕ) → Option (List ℕ × List ℕ)
seal_with p key aad text none = none
seal_with p key aad text (some nonce) = some (nonce, p.gcm_seal key nonce aad text)

-- The nonce and the ciphertext.
unfoldable pub sm4_gcm_seal :
    Primitives → List ℕ → List ℕ → List ℕ → Option (List ℕ) → Option (List ℕ × List ℕ)
sm4_gcm_seal p key aad text drawn =
    if length key == sm4_key_size then seal_with p key aad text drawn else none

-- A ciphertext holds a tag of 16 bytes at least.
unfoldable pub sm4_gcm_open : Primitives → List ℕ → List ℕ → List ℕ → List ℕ → Option (List ℕ)
sm4_gcm_open p key nonce aad ct =
    if length key == sm4_key_size
    then (if length nonce == sm4_nonce_size
        then (if ltb (length ct) 16 then none else p.gcm_open key nonce aad ct)
        else none)
    else none

-- `hmacDeriveKey`: the first 16 bytes of the hash of the key and a label.
unfoldable pub hmac_derive_key : Primitives → List ℕ → List ℕ → List ℕ
hmac_derive_key p root label = take 16 (p.sm3 (root ++ label))

abbrev pub hmac_label : List ℕ
hmac_label = b'h' ∷ b'm' ∷ b'a' ∷ b'c' ∷ []

unfoldable pub entry_hmac : Primitives → List ℕ → List ℕ → List ℕ → ℕ → List ℕ → List ℕ → List ℕ
entry_hmac p dek entry_id group_id kv nonce ct =
    p.hmac (hmac_derive_key p dek hmac_label) (entry_hmac_message entry_id group_id kv nonce ct)

-- What GCM and SM3 promise: a sealed text opens, with its tag, and a hash has 32 bytes.
pub record Sound (p : Primitives) : Type 0 where
  pub opens :
      (key nonce aad text : List ℕ)
      → p.gcm_open key nonce aad (p.gcm_seal key nonce aad text) ≡ some text
  pub tagged : (key nonce aad text : List ℕ) → 16 ≤ length (p.gcm_seal key nonce aad text)
  pub hash_size : (bytes : List ℕ) → length (p.sm3 bytes) ≡ 32

pub sm4_gcm_open-sm4_gcm_seal :
    (p : Primitives) (key aad text nonce : List ℕ)
    → Sound p
    → length key ≡ sm4_key_size
    → length nonce ≡ sm4_nonce_size
    → (sm4_gcm_seal p key aad text (some nonce) ≡ some (nonce, p.gcm_seal key nonce aad text))
      × (sm4_gcm_open p key nonce aad (p.gcm_seal key nonce aad text) ≡ some text)
unfolding sm4_gcm_seal sm4_gcm_open
sm4_gcm_open-sm4_gcm_seal p key aad text nonce sound key_size nonce_size = (
  ground (arith, key_size),
  ground (
    arith,
    key_size,
    nonce_size,
    sound.tagged key nonce aad text,
    sound.opens key nonce aad text,
  ),
)

length-take_eq : (n : ℕ) (xs : List ℕ) → n ≤ length xs → length (take n xs) ≡ n
length-take_eq zero xs h = refl
length-take_eq (suc n) [] h = absurd (omega arith)
length-take_eq (suc n) (x ∷ xs) h = ap suc (length-take_eq n xs (omega arith))

pub hmac_derive_key-size :
    (p : Primitives) (root label : List ℕ)
    → Sound p
    → length (hmac_derive_key p root label) ≡ sm4_key_size
unfolding hmac_derive_key
hmac_derive_key-size p root label sound =
    length-take_eq 16 (p.sm3 (root ++ label)) (omega (arith, sound.hash_size (root ++ label)))
