-- ===== src/Crypto/LengthPrefix.antt =====
-- internal/crypto/sm4gcm.go, hmacsm3.go and kdf.go: the length-prefixed encoding of the fields that
-- are authenticated, and the message of the entry's HMAC. Bytes are numbers below 256.
use mathlib.Core.Path.{ap₂}
use mathlib.Core.List.{append-nil, append_assoc}
use zt_data_sync.Prelude.{
  ℕ, [], if◌then◌else◌, ◌≡◌, ◌≤◌, ◌/◌, ◌%◌, ◌++◌, ◌∷◌, List, ltb, All, length, arith, refl, ◌<◌,
  ◌^◌, ◌∙◌, sym,
}

abbrev pub max_uint32 : ℕ
max_uint32 = 4294967295

-- `binary.BigEndian.PutUint32`
abbrev pub be32 : ℕ → List ℕ
be32 n = (n / 16777216) % 256 ∷ (n / 65536) % 256 ∷ (n / 256) % 256 ∷ n % 256 ∷ []

-- A field of more than 2^32 - 1 bytes is left out.
unfoldable pub lp_append : List ℕ → List ℕ → List ℕ
lp_append dst field =
    if ltb max_uint32 (length field) then dst else (dst ++ be32 (length field)) ++ field

abbrev lp_fields : List ℕ → List (List ℕ) → List ℕ
lp_fields out [] = out
lp_fields out (f ∷ fs) = lp_fields (lp_append out f) fs

unfoldable pub length_prefixed : List (List ℕ) → List ℕ
length_prefixed fields = lp_fields [] fields

-- `EncodeUint64`
abbrev pub encode_uint64 : ℕ → List ℕ
encode_uint64 v = be32 ((v / 4294967296) % 4294967296) ++ be32 (v % 4294967296)

-- What `EntryHMAC` authenticates.
unfoldable pub entry_hmac_message : List ℕ → List ℕ → ℕ → List ℕ → List ℕ → List ℕ
entry_hmac_message entry_id group_id kv nonce ct =
    length_prefixed (entry_id ∷ group_id ∷ encode_uint64 kv ∷ nonce ∷ ct ∷ [])

abbrev pub Short : List ℕ → Type 0
Short f = length f ≤ max_uint32

spec : List (List ℕ) → List ℕ
spec [] = []
spec (f ∷ fs) = be32 (length f) ++ (f ++ spec fs)

lp_fields-spec :
    (out : List ℕ) (fs : List (List ℕ)) → All Short fs → lp_fields out fs ≡ out ++ spec fs
unfolding lp_append spec
lp_fields-spec out [] h = ground (arith, append-nil out)
lp_fields-spec out (f ∷ fs) h =
    let rest = lp_fields-spec ((out ++ be32 (length f)) ++ f) fs h.1 in
    ground (
      arith,
      h.0,
      rest,
      append_assoc (out ++ be32 (length f)) f (spec fs),
      append_assoc out (be32 (length f)) (f ++ spec fs),
    )

be32-injective : (m n : ℕ) → m ≤ max_uint32 → n ≤ max_uint32 → be32 m ≡ be32 n → m ≡ n
be32-injective m n h k e = ground (arith, e)

-- Of two equal texts, prefixes of the same length are equal, and so are the rests.
split_append :
    (xs ys us vs : List ℕ) → length xs ≡ length ys → xs ++ us ≡ ys ++ vs → (xs ≡ ys) × (us ≡ vs)
split_append [] [] us vs h e = (refl, e)
split_append [] (y ∷ ys) us vs h e = absurd (omega (arith, h))
split_append (x ∷ xs) [] us vs h e = absurd (omega (arith, h))
split_append (x ∷ xs) (y ∷ ys) us vs h e = ground (arith, e, split_append xs ys us vs)

spec-injective : (fs gs : List (List ℕ)) → All Short fs → All Short gs → spec fs ≡ spec gs → fs ≡ gs
unfolding spec
spec-injective [] [] h k e = refl
spec-injective [] (g ∷ gs) h k e = cc
spec-injective (f ∷ fs) [] h k e = cc
spec-injective (f ∷ fs) (g ∷ gs) h k e =
    let (front, back) =
      split_append (be32 (length f)) (be32 (length g)) (f ++ spec fs) (g ++ spec gs) refl e in
    let same = be32-injective (length f) (length g) h.0 k.0 front in
    let (head_eq, tail_eq) = split_append f g (spec fs) (spec gs) same back in
    ap₂ (λ (x : List ℕ) (xs : List (List ℕ)). x ∷ xs) head_eq (spec-injective fs gs h.1 k.1 tail_eq)

-- Two sequences of fields, each of at most 2^32 - 1 bytes, have the same encoding only if they are
-- the same: no byte can move from one field to the next.
pub length_prefixed-injective :
    (fs gs : List (List ℕ))
    → All Short fs
    → All Short gs
    → length_prefixed fs ≡ length_prefixed gs
    → fs ≡ gs
unfolding length_prefixed
length_prefixed-injective fs gs h k e =
    spec-injective fs gs h k (sym (lp_fields-spec [] fs h) ∙ e ∙ lp_fields-spec [] gs k)

encode_uint64-injective :
    (v w : ℕ) → v < 2 ^ 64 → w < 2 ^ 64 → encode_uint64 v ≡ encode_uint64 w → v ≡ w
encode_uint64-injective v w h k e =
    let (hi, lo) =
      split_append (be32 ((v / 4294967296) % 4294967296)) (be32 ((w / 4294967296) % 4294967296))
        (be32 (v % 4294967296)) (be32 (w % 4294967296)) refl e in
    let p = be32-injective _ _ (omega arith) (omega arith) hi in
    let q = be32-injective _ _ (omega arith) (omega arith) lo in omega (arith, p, q)

-- What an entry's HMAC covers.
pub record Sealed : Type 0 where
  pub entry_id : List ℕ
  pub group_id : List ℕ
  pub kv : ℕ
  pub nonce : List ℕ
  pub ct : List ℕ

abbrev pub message : Sealed → List ℕ
unfolding entry_hmac_message
message s = entry_hmac_message s.entry_id s.group_id s.kv s.nonce s.ct

-- The sizes that the encoding keeps.
pub record Fits (s : Sealed) : Type 0 where
  pub entry_fits : Short s.entry_id
  pub group_fits : Short s.group_id
  pub kv_fits : s.kv < 2 ^ 64
  pub nonce_fits : Short s.nonce
  pub ct_fits : Short s.ct

fields : Sealed → List (List ℕ)
fields s = s.entry_id ∷ s.group_id ∷ encode_uint64 s.kv ∷ s.nonce ∷ s.ct ∷ []

list_parts : {A : Type 0} (x y : A) (xs ys : List A) → x ∷ xs ≡ y ∷ ys → (x ≡ y) × (xs ≡ ys)
list_parts x y xs ys e = (cc, cc)

same_fields : (s t : Sealed) → s.kv < 2 ^ 64 → t.kv < 2 ^ 64 → fields s ≡ fields t → s ≡ t
unfolding fields
same_fields s t h k e =
    let (e1, r1) = list_parts _ _ _ _ e in
    let (e2, r2) = list_parts _ _ _ _ r1 in
    let (e3, r3) = list_parts _ _ _ _ r2 in
    let (e4, r4) = list_parts _ _ _ _ r3 in
    let (e5, r5) = list_parts _ _ _ _ r4 in
    let same_kv = encode_uint64-injective s.kv t.kv h k e3 in
    λ i. record { entry_id = e1 i; group_id = e2 i; kv = same_kv i; nonce = e4 i; ct = e5 i }

-- Two entries have the same message for their HMAC only if they agree in the entry, the group, the
-- key version, the nonce and the ciphertext, for fields of at most 2^32 - 1 bytes and a version
-- below 2^64: a seal cannot be carried over to another entry, group or version.
pub entry_hmac_message-injective :
    (s t : Sealed)
    → Fits s
    → Fits t
    → entry_hmac_message s.entry_id s.group_id s.kv s.nonce s.ct
      ≡ entry_hmac_message t.entry_id t.group_id t.kv t.nonce t.ct
    → s ≡ t
unfolding entry_hmac_message fields
entry_hmac_message-injective s t h k e =
    let same : fields s ≡ fields t =
      length_prefixed-injective (fields s) (fields t)
        (h.entry_fits, (h.group_fits, (omega arith, (h.nonce_fits, (h.ct_fits, tt)))))
        (k.entry_fits, (k.group_fits, (omega arith, (k.nonce_fits, (k.ct_fits, tt))))) e in
    same_fields s t h.kv_fits k.kv_fits same
