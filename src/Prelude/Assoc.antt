-- ===== src/Prelude/Assoc.antt =====
-- Go's maps with number keys, as association lists. The order of the entries is of no account.
use zt_data_sync.Prelude.Tests.{◌==◌, if◌then◌else◌, Bool-cases, Option-cases, ==_iff}
use mathlib.Core.Logic.{inl, inr}
use Prim.Native.Nat.{ℕ}
use mathlib.Core.Path.{◌≡◌, refl}
use mathlib.Core.Bool.{Bool, true, false}
use mathlib.Core.List.{List, [], ◌∷◌}
use mathlib.Core.Option.{Option, none, some}
use native.Mathlib.Omega.{arith}

module _ {V : Type 0} where
  -- m[k]
  abbrev pub lookup : ℕ → List (ℕ × V) → Option V
  lookup k [] = none
  lookup k ((j, v) ∷ m) = if j == k then some v else lookup k m

  -- m[k] = v
  abbrev pub put : ℕ → V → List (ℕ × V) → List (ℕ × V)
  put k v [] = (k, v) ∷ []
  put k v ((j, w) ∷ m) = if j == k then (k, v) ∷ m else (j, w) ∷ put k v m

  -- delete(m, k)
  abbrev pub without : ℕ → List (ℕ × V) → List (ℕ × V)
  without k [] = []
  without k ((j, w) ∷ m) = let rest = without k m in if j == k then rest else (j, w) ∷ rest

  -- The entries whose value passes the test.
  abbrev pub keep_values : (V → Bool) → List (ℕ × V) → List (ℕ × V)
  keep_values p [] = []
  keep_values p ((j, w) ∷ m) = let rest = keep_values p m in if p w then (j, w) ∷ rest else rest

  pub lookup-put :
      (k j : ℕ) (v : V) (m : List (ℕ × V))
      → lookup j (put k v m) ≡ (if k == j then some v else lookup j m)
  lookup-put k j v [] = refl
  lookup-put k j v ((i, w) ∷ m) = ground (arith, lookup-put k j v m)

  pub lookup-without :
      (k j : ℕ) (m : List (ℕ × V)) → lookup j (without k m) ≡ (if k == j then none else lookup j m)
  lookup-without k j [] = ground arith
  lookup-without k j ((i, w) ∷ m) = ground (arith, lookup-without k j m)

  pub lookup-keep_values :
      (p : V → Bool) (k : ℕ) (m : List (ℕ × V)) (v : V)
      → lookup k m ≡ some v
      → p v ≡ true
      → lookup k (keep_values p m) ≡ some v
  lookup-keep_values p k [] v h t = h
  lookup-keep_values p k ((i, w) ∷ m) v h t = ground (arith, lookup-keep_values p k m v)

  pub lookup-keep_values-none :
      (p : V → Bool) (k : ℕ) (m : List (ℕ × V))
      → lookup k m ≡ none
      → lookup k (keep_values p m) ≡ none
  lookup-keep_values-none p k [] h = refl
  lookup-keep_values-none p k ((i, w) ∷ m) h = ground (arith, lookup-keep_values-none p k m)

  -- The key has one entry at most.
  abbrev pub AtMostOnce : ℕ → List (ℕ × V) → Type 0
  AtMostOnce k [] = Unit {0}
  AtMostOnce k ((j, w) ∷ m) = (j ≡ k → lookup k m ≡ none) × AtMostOnce k m

  pub AtMostOnce-of_none : (k : ℕ) (m : List (ℕ × V)) → lookup k m ≡ none → AtMostOnce k m
  AtMostOnce-of_none k [] h = tt
  AtMostOnce-of_none k ((j, w) ∷ m) h =
      (λ e. ground (arith, h, e), AtMostOnce-of_none k m (ground (arith, h)))

  pub AtMostOnce-put :
      (k : ℕ) (v : V) (m : List (ℕ × V)) → AtMostOnce k m → AtMostOnce k (put k v m)
  AtMostOnce-put k v [] o = (λ e. refl, tt)
  AtMostOnce-put k v ((j, w) ∷ m) o = elim (Bool-cases (j == k)) [
    | inl same ↦ rw same (λ e. o.0 ((==_iff j k).0 same), o.1)
    | inr other ↦ rw other (λ e. absurd (ground (arith, e, other)), AtMostOnce-put k v m o.1)
  ]

  pub lookup-keep_values_drop :
      (p : V → Bool) (k : ℕ) (m : List (ℕ × V)) (v : V)
      → AtMostOnce k m
      → lookup k m ≡ some v
      → p v ≡ false
      → lookup k (keep_values p m) ≡ none
  lookup-keep_values_drop p k [] v o h t = refl
  lookup-keep_values_drop p k ((j, w) ∷ m) v o h t = elim (Bool-cases (j == k)) [
    | inl same ↦
        let gone = lookup-keep_values-none p k m (o.0 ((==_iff j k).0 same)) in
        ground (arith, same, h, t, gone)
    | inr other ↦ ground (arith, other, h, t, lookup-keep_values_drop p k m v o.1)
  ]

  pub AtMostOnce-keep_values :
      (p : V → Bool) (k : ℕ) (m : List (ℕ × V)) → AtMostOnce k m → AtMostOnce k (keep_values p m)
  AtMostOnce-keep_values p k [] o = tt
  AtMostOnce-keep_values p k ((j, w) ∷ m) o = elim (Bool-cases (p w)) [
    | inl in_ ↦
        rw in_ (λ e. lookup-keep_values-none p k m (o.0 e), AtMostOnce-keep_values p k m o.1)
    | inr out ↦ rw out (AtMostOnce-keep_values p k m o.1)
  ]

  pub AtMostOnce-without :
      (j k : ℕ) (m : List (ℕ × V)) → AtMostOnce k m → AtMostOnce k (without j m)
  AtMostOnce-without j k [] o = tt
  AtMostOnce-without j k ((i, w) ∷ m) o = elim (Bool-cases (i == j)) [
    | inl same ↦ rw same (AtMostOnce-without j k m o.1)
    | inr other ↦
        rw other (λ e. ground (arith, o.0 e, lookup-without j k m), AtMostOnce-without j k m o.1)
  ]

  -- What a filter leaves was there.
  pub lookup-of_keep_values :
      (p : V → Bool) (k : ℕ) (m : List (ℕ × V)) (v : V)
      → AtMostOnce k m
      → lookup k (keep_values p m) ≡ some v
      → lookup k m ≡ some v
  lookup-of_keep_values p k m v o h = elim (Option-cases (lookup k m)) [
    | inl gone ↦ absurd (ground (arith, lookup-keep_values-none p k m gone, h))
    | inr (w, is) ↦ elim (Bool-cases (p w)) [
      | inl in_ ↦ ground (arith, lookup-keep_values p k m w is in_, h, is)
      | inr out ↦ absurd (ground (arith, lookup-keep_values_drop p k m w o is out, h))
    ]
  ]

  pub AtMostOnce-put_other :
      (k j : ℕ) (v : V) (m : List (ℕ × V)) → AtMostOnce j m → AtMostOnce j (put k v m)
  AtMostOnce-put_other k j v [] o = (λ e. refl, tt)
  AtMostOnce-put_other k j v ((i, w) ∷ m) o = elim (Bool-cases (i == k)) [
    | inl same ↦ rw same (λ e. o.0 (ground (arith, same, e)), o.1)
    | inr other ↦
        rw other (
          λ e. ground (arith, o.0 e, lookup-put k j v m, other, e),
          AtMostOnce-put_other k j v m o.1,
        )
  ]
