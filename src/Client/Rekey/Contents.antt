-- ===== src/Client/Rekey/Contents.antt =====
-- client/core/syncer/rekey.go: what `reencryptGroupEntries` does to the content of the rows.
use mathlib.Core.Path.{subst}
use zt_data_sync.Prelude.Assoc.{lookup, lookup-put, AtMostOnce}
use zt_data_sync.Prelude.Elements.{In}
use zt_data_sync.Client.Local.{LocalStore, LocalStmt, LocalEntry, values, list_local_entries}
use zt_data_sync.Client.Local.Table.{Keyed, values-only, values-In}
use zt_data_sync.Client.Local.Rows.{Has, and_then-succeeds}
use zt_data_sync.Client.Engine.{Vault}
use zt_data_sync.Client.Rekey.Row.{reencrypt_one-cases, with_cache-fields}
use zt_data_sync.Client.Rekey.{reencrypt_rows, reencrypt_all, reencrypt_one, reencrypted}
use zt_data_sync.Prelude.{
  ℕ, true, some, List, [], ◌∷◌, ◌==◌, ◌≡◌, ◌≢◌, ◌⊎◌, inl, inr, refl, ap, sym, ◌∙◌, arith,
  Bool-cases,
}

-- A row of the group under version `kv`, with a ciphertext of that kind, which waits for a push.
abbrev pub Rekeyed : (List ℕ → Type 0) → ℕ → ℕ → LocalEntry → Type 0
Rekeyed IsNew gid kv x =
    (x.group_id ≡ gid) × (x.key_version ≡ kv) × (x.dirty ≡ true) × IsNew x.ciphertext

module _ (v : Vault) (gid kv id : ℕ) (p : List ℕ) (le : LocalEntry) (IsNew : List ℕ → Type 0)
    (sealed_new : (ct : List ℕ) → v.encrypt_plaintext gid id p kv ≡ some ct → IsNew ct)
    (own : le.id ≡ id) (grouped : le.group_id ≡ gid) (old : le.key_version ≢ kv)
    (opens : v.decrypt_plaintext gid id le.ciphertext ≡ some p) where
  one_same :
      (l l' : LocalStore)
      → Has (λ x. (x ≡ le) ⊎ Rekeyed IsNew gid kv x) id l
      → reencrypt_one v gid kv le l ≡ (true, l')
      → Has (Rekeyed IsNew gid kv) id l'
  one_same l l' (row, found, is) h = elim (reencrypt_one-cases v gid kv le l l' h) [
    | inl (same, why) ↦ (
      row,
      ap (λ x. lookup id x.entries) same ∙ found,
      elim is [
        | inl first ↦ absurd (ground (arith, why, grouped, opens, own, old))
        | inr rekeyed ↦ rekeyed
      ],
    )
    | inr w ↦
        let new = reencrypted v kv le w.content w.ct in
        let fields =
          with_cache-fields (v.encrypt_cache w.content)
            (record le { ciphertext = w.ct; key_version = kv; dirty = true }) in
        (
          new,
          ap (lookup id) w.there ∙ ground (arith, lookup-put new.id id new l.entries, fields, own),
          (
            ground (arith, fields, grouped),
            fields.2,
            fields.4,
            subst IsNew (sym fields.3)
                (sealed_new w.ct (ground (arith, w.sealed, w.opened, opens, own))),
          ),
        )
  ]

  one_other :
      (R : LocalEntry → Type 0) (y : LocalEntry) (l l' : LocalStore)
      → y.id ≢ id
      → Has R id l
      → reencrypt_one v gid kv y l ≡ (true, l')
      → Has R id l'
  one_other R y l l' other (row, found, is) h = elim (reencrypt_one-cases v gid kv y l l' h) [
    | inl (same, why) ↦ (row, ap (λ x. lookup id x.entries) same ∙ found, is)
    | inr w ↦ (
      row,
      ap (lookup id) w.there
          ∙ ground (
            arith,
            found,
            other,
            lookup-put y.id id (reencrypted v kv y w.content w.ct) l.entries,
          ),
      is,
    )
  ]

  -- One row of the list, for a row that is rekeyed or still the old one.
  one_keeps :
      (y : LocalEntry) (l l' : LocalStore)
      → (y.id ≡ id → y ≡ le)
      → Has (Rekeyed IsNew gid kv) id l
      → reencrypt_one v gid kv y l ≡ (true, l')
      → Has (Rekeyed IsNew gid kv) id l'
  one_keeps y l l' only r h = elim (Bool-cases (y.id == id)) [
    | inl this ↦
        one_same l l' (r.0, r.1, inr r.2)
          (subst (λ x. reencrypt_one v gid kv x l ≡ (true, l')) (only (ground (arith, this))) h)
    | inr other ↦ one_other (Rekeyed IsNew gid kv) y l l' (ground (arith, other)) r h
  ]

  all_keep :
      (les : List LocalEntry) (l l' : LocalStore)
      → ((x : LocalEntry) → In x les → x.id ≡ id → x ≡ le)
      → Has (Rekeyed IsNew gid kv) id l
      → reencrypt_all v gid kv les l ≡ (true, l')
      → Has (Rekeyed IsNew gid kv) id l'
  unfolding reencrypt_all
  all_keep [] l l' only r h = subst (Has (Rekeyed IsNew gid kv) id) (ap (λ x. x.1) h) r
  all_keep (y ∷ ys) l l' only r h =
      let (ran, rest) =
        and_then-succeeds (reencrypt_one v gid kv y) (reencrypt_all v gid kv ys) l l' h in
      all_keep ys (reencrypt_one v gid kv y l).1 l' (λ x m. only x (inr m))
        (one_keeps y l (reencrypt_one v gid kv y l).1 (only y (inl refl)) r ran) rest

  all_reach :
      (les : List LocalEntry) (l l' : LocalStore)
      → ((x : LocalEntry) → In x les → x.id ≡ id → x ≡ le)
      → In le les
      → lookup id l.entries ≡ some le
      → reencrypt_all v gid kv les l ≡ (true, l')
      → Has (Rekeyed IsNew gid kv) id l'
  unfolding reencrypt_all
  all_reach [] l l' only m found h = absurd m
  all_reach (y ∷ ys) l l' only m found h =
      let (ran, rest) =
        and_then-succeeds (reencrypt_one v gid kv y) (reencrypt_all v gid kv ys) l l' h in
      let after = (reencrypt_one v gid kv y l).1 in
      let only' : (x : LocalEntry) → In x ys → x.id ≡ id → x ≡ le = λ x n. only x (inr n) in
      elim (Bool-cases (y.id == id)) [
        | inl this ↦
            all_keep ys after l' only'
              (one_same l after (le, found, inl refl)
                (subst (λ x. reencrypt_one v gid kv x l ≡ (true, after))
                  (only y (inl refl) (ground (arith, this))) ran))
              rest
        | inr other ↦
            let (row, there, is) =
              one_other (λ x. x ≡ le) y l after (ground (arith, other)) (le, found, refl) ran in
            all_reach ys after l' only'
              (elim m [
                | inl same ↦ absurd (ground (arith, other, ap (λ x. x.id) same, own))
                | inr later ↦ later
              ])
              (there ∙ ap some is) rest
      ]

-- The re-encryption after a change of key, where it runs to its end, leaves each row of the group
-- that opened and was under another version with a ciphertext that the vault sealed for its content.
pub reencrypt_rows-Rekeyed :
    (v : Vault) (gid kv id : ℕ) (p : List ℕ) (le : LocalEntry) (IsNew : List ℕ → Type 0)
    (l l' : LocalStore)
    → ((ct : List ℕ) → v.encrypt_plaintext gid id p kv ≡ some ct → IsNew ct)
    → Keyed l.entries
    → AtMostOnce id l.entries
    → lookup id l.entries ≡ some le
    → le.id ≡ id
    → le.group_id ≡ gid
    → le.key_version ≢ kv
    → v.decrypt_plaintext gid id le.ciphertext ≡ some p
    → reencrypt_rows v gid kv l ≡ (true, l')
    → Has (Rekeyed IsNew gid kv) id l'
unfolding reencrypt_rows list_local_entries
reencrypt_rows-Rekeyed v gid kv id p le IsNew l l' sealed_new keyed once found own grouped old opens
      h =
    elim (Bool-cases (l.fails LocalStmt.list_rows)) [
      | inl failed ↦ absurd (ground (arith, h, failed))
      | inr ran ↦
          all_reach v gid kv id p le IsNew sealed_new own grouped old opens (values l.entries) l l'
            (values-only l.entries id le keyed once found) (values-In l.entries id le found) found
            (ground (arith, h, ran))
    ]
