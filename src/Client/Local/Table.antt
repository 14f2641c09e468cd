-- ===== src/Client/Local/Table.antt =====
-- client/core/store: the table of the entries, whose rows stand under their own ids.
use zt_data_sync.Prelude.Assoc.{lookup, put, AtMostOnce}
use zt_data_sync.Prelude.Elements.{In}
use zt_data_sync.Client.Local.{LocalEntry, values}
use zt_data_sync.Prelude.{
  ℕ, none, some, List, [], ◌∷◌, ◌==◌, ◌≡◌, ◌≢◌, inl, inr, ap, All, arith, Bool-cases,
}

-- Each row stands under its own id.
abbrev pub Keyed : List (ℕ × LocalEntry) → Type 0
Keyed m = All (λ r. r.1.id ≡ r.0) m

pub Keyed-put :
    (k : ℕ) (v : LocalEntry) (m : List (ℕ × LocalEntry)) → v.id ≡ k → Keyed m → Keyed (put k v m)
Keyed-put k v [] same h = (same, tt)
Keyed-put k v ((j, w) ∷ m) same h = elim (Bool-cases (j == k)) [
  | inl this ↦ rw this (same, h.1)
  | inr other ↦ rw other (h.0, Keyed-put k v m same h.1)
]

values-none :
    (m : List (ℕ × LocalEntry)) (id : ℕ) (x : LocalEntry)
    → Keyed m
    → lookup id m ≡ none
    → In x (values m)
    → x.id ≢ id
values-none [] id x k gone m e = absurd m
values-none ((j, y) ∷ m) id x k gone (inl same) e =
    ground (arith, gone, k.0, e, ap (λ r. r.id) same)
values-none ((j, y) ∷ m) id x k gone (inr later) e =
    values-none m id x k.1 (ground (arith, gone)) later e

-- The rows with this id, of which there is one.
pub values-only :
    (m : List (ℕ × LocalEntry)) (id : ℕ) (le : LocalEntry)
    → Keyed m
    → AtMostOnce id m
    → lookup id m ≡ some le
    → (x : LocalEntry) → In x (values m)
    → x.id ≡ id
    → x ≡ le
values-only [] id le k o found x m e = absurd m
values-only ((j, y) ∷ m) id le k o found x (inl same) e =
    ground (arith, same, e, k.0, found, ap (λ r. r.id) same)
values-only ((j, y) ∷ m) id le k o found x (inr later) e = elim (Bool-cases (j == id)) [
  | inl this ↦ absurd (values-none m id x k.1 (o.0 (ground (arith, this))) later e)
  | inr other ↦ values-only m id le k.1 o.1 (ground (arith, other, found)) x later e
]

pub values-In :
    (m : List (ℕ × LocalEntry)) (id : ℕ) (le : LocalEntry)
    → lookup id m ≡ some le
    → In le (values m)
values-In [] id le h = absurd (ground (arith, h))
values-In ((j, y) ∷ m) id le h = elim (Bool-cases (j == id)) [
  | inl this ↦ inl (ground (arith, this, h))
  | inr other ↦ inr (values-In m id le (ground (arith, other, h)))
]
