-- ===== src/Prelude/Elements.antt =====
-- Elements of lists, by recursion: which one it is stays known.
use Prim.Native.Nat.{ℕ, zero, suc}
use mathlib.Core.Path.{subst, ◌≡◌, refl, ap, subst}
use mathlib.Core.Logic.{◌⊎◌, inl, inr}
use mathlib.Core.Bool.{Bool, true}
use mathlib.Core.List.{List, [], ◌∷◌, map}
use native.Mathlib.Omega.{arith}
use zt_data_sync.Prelude.Lists.{filter, take, All}

abbrev pub In : {A : Type 0} → A → List A → Type 0
In a [] = ⊥
In a (x ∷ xs) = (x ≡ a) ⊎ In a xs

module _ {A : Type 0} where
  pub In-filter : (p : A → Bool) (a : A) (xs : List A) → p a ≡ true → In a xs → In a (filter p xs)
  In-filter p a [] h m = m
  In-filter p a (x ∷ xs) h (inl e) = ground (arith, e, h)
  In-filter p a (x ∷ xs) h (inr m) = ground (arith, In-filter p a xs h m)

  pub In-of_filter :
      (p : A → Bool) (a : A) (xs : List A) → In a (filter p xs) → In a xs × (p a ≡ true)
  In-of_filter p a [] m = absurd m
  In-of_filter p a (x ∷ xs) m = ground (arith, m, In-of_filter p a xs)

  pub In-of_take : (n : ℕ) (a : A) (xs : List A) → In a (take n xs) → In a xs
  In-of_take zero a xs m = absurd m
  In-of_take (suc n) a [] m = absurd m
  In-of_take (suc n) a (x ∷ xs) (inl e) = inl e
  In-of_take (suc n) a (x ∷ xs) (inr m) = inr (In-of_take n a xs m)

  pub In-map : {B : Type 0} (f : A → B) (a : A) (xs : List A) → In a xs → In (f a) (map f xs)
  In-map f a [] m = absurd m
  In-map f a (x ∷ xs) (inl e) = inl (ap f e)
  In-map f a (x ∷ xs) (inr m) = inr (In-map f a xs m)

  pub In-of_map :
      {B : Type 0} (f : A → B) (b : B) (xs : List A)
      → In b (map f xs)
      → (a : A) × In a xs × (f a ≡ b)
  In-of_map f b [] m = absurd m
  In-of_map f b (x ∷ xs) (inl e) = (x, inl refl, e)
  In-of_map f b (x ∷ xs) (inr m) = let (a, n, e) = In-of_map f b xs m in (a, inr n, e)

  pub All-In {κ} : (P : A → Type κ) (a : A) (xs : List A) → All P xs → In a xs → P a
  All-In P a [] h m = absurd m
  All-In P a (x ∷ xs) h (inl e) = subst P e h.0
  All-In P a (x ∷ xs) h (inr m) = All-In P a xs h.1 m

  -- What holds of each element holds of all.
  pub All-of_In {κ} : (P : A → Type κ) (xs : List A) → ((a : A) → In a xs → P a) → All P xs
  All-of_In P [] h = tt
  All-of_In P (x ∷ xs) h = (h x (inl refl), All-of_In P xs (λ a m. h a (inr m)))
