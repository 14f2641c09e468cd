-- ===== src/Client/Rekey/Row.antt =====
-- client/core/syncer/rekey.go: what `reencryptGroupEntries` does to one row.

use zt_data_sync.Prelude.Assoc.{put}
use zt_data_sync.Client.Local.{LocalStore, LocalEntry, upsert_local_entry}
use zt_data_sync.Client.Engine.{Vault}
use zt_data_sync.Client.Rekey.{reencrypt_one, write_reencrypted, reencrypted, with_cache}
use zt_data_sync.Prelude.{
  ℕ, true, false, Option, none, some, List, ◌==◌, ◌≡◌, ◌≢◌, ◌⊎◌, inl, inr, refl, sym, ◌∙◌, arith,
  Bool-cases, Option-cases,
}

-- What the write of one row wrote: the content that opens, under the key of version `kv`.
pub record Writes (v : Vault) (gid kv : ℕ) (y : LocalEntry) (l l' : LocalStore) : Type 0 where
  pub content : List ℕ
  pub ct : List ℕ
  pub opened : v.decrypt_plaintext gid y.id y.ciphertext ≡ some content
  pub sealed : v.encrypt_plaintext gid y.id content kv ≡ some ct
  pub there : l'.entries ≡ put y.id (reencrypted v kv y content ct) l.entries

write_reencrypted-Writes :
    (v : Vault) (gid kv : ℕ) (y : LocalEntry) (l l' : LocalStore) (content : List ℕ)
    → v.decrypt_plaintext gid y.id y.ciphertext ≡ some content
    → write_reencrypted v kv y content (v.encrypt_plaintext gid y.id content kv) l ≡ (true, l')
    → Writes v gid kv y l l'
unfolding upsert_local_entry
write_reencrypted-Writes v gid kv y l l' content opened h =
    elim (Option-cases (v.encrypt_plaintext gid y.id content kv)) [
      | inl failed ↦ absurd (ground (arith, failed, h))
      | inr (ct, sealed) ↦ record {
        content = content;
        ct = ct;
        opened = opened;
        sealed = sealed;
        there = elim (Option-cases (v.encrypt_cache content)) [
          | inl bare ↦ ground (arith, h, sealed, bare)
          | inr (cache, is) ↦ ground (arith, h, sealed, is)
        ];
      }
    ]

one_opens :
    (v : Vault) (gid kv : ℕ) (y : LocalEntry) (l : LocalStore) (content : List ℕ)
    → (y.group_id == gid) ≡ true
    → (y.key_version == kv) ≡ false
    → v.decrypt_plaintext gid y.id y.ciphertext ≡ some content
    → reencrypt_one v gid kv y l
      ≡ write_reencrypted v kv y content (v.encrypt_plaintext gid y.id content kv) l
one_opens v gid kv y l content in_group old opened = simp (in_group, old, opened)

-- The rows are as before, for a row of another group, under that key already, or that does not open;
-- or one is written.
pub reencrypt_one-cases :
    (v : Vault) (gid kv : ℕ) (y : LocalEntry) (l l' : LocalStore)
    → reencrypt_one v gid kv y l ≡ (true, l')
    → ((l' ≡ l)
        × ((y.group_id ≢ gid)
            ⊎ ((y.key_version ≡ kv) ⊎ (v.decrypt_plaintext gid y.id y.ciphertext ≡ none))))
      ⊎ Writes v gid kv y l l'
reencrypt_one-cases v gid kv y l l' h = elim (Bool-cases (y.group_id == gid)) [
  | inl in_group ↦ elim (Bool-cases (y.key_version == kv)) [
    | inl done ↦ inl (ground (arith, h, done, in_group), inr (inl (ground (arith, done))))
    | inr old ↦ elim (Option-cases (v.decrypt_plaintext gid y.id y.ciphertext)) [
      | inl closed ↦ inl (ground (arith, h, in_group, old, closed), inr (inr closed))
      | inr (content, opened) ↦ inr (
          write_reencrypted-Writes v gid kv y l l' content opened
            (sym (one_opens v gid kv y l content in_group old opened) ∙ h))
    ]
  ]
  | inr out ↦ inl (ground (arith, h, out), inl (ground (arith, out)))
]

pub with_cache-fields :
    (cache : Option (List ℕ)) (e : LocalEntry)
    → ((with_cache cache e).id ≡ e.id)
      × ((with_cache cache e).group_id ≡ e.group_id)
      × ((with_cache cache e).key_version ≡ e.key_version)
      × ((with_cache cache e).ciphertext ≡ e.ciphertext)
      × ((with_cache cache e).dirty ≡ e.dirty)
with_cache-fields none e = (refl, refl, refl, refl, refl)
with_cache-fields (some cache) e = (refl, refl, refl, refl, refl)
