-- ===== src/Prelude/Membership.antt =====
-- Membership of numbers in lists, as a Boolean test.
use zt_data_sync.Prelude.Tests.{◌==◌}
use zt_data_sync.Prelude.Lists.{filter}
use Prim.Native.Nat.{ℕ}
use mathlib.Core.Path.{◌≡◌, refl}
use mathlib.Core.Bool.{Bool, false, ◌||◌, ◌&&◌}
use mathlib.Core.List.{List, [], ◌∷◌, ◌++◌}
use native.Mathlib.Omega.{arith}

abbrev pub contains : ℕ → List ℕ → Bool
contains a [] = false
contains a (x ∷ xs) = (x == a) || contains a xs

pub contains-filter :
    (p : ℕ → Bool) (a : ℕ) (xs : List ℕ) → contains a (filter p xs) ≡ (contains a xs && p a)
contains-filter p a [] = refl
contains-filter p a (x ∷ xs) = ground (arith, contains-filter p a xs)

pub contains-append :
    (a : ℕ) (xs ys : List ℕ) → contains a (xs ++ ys) ≡ (contains a xs || contains a ys)
contains-append a [] ys = refl
contains-append a (x ∷ xs) ys = ground (arith, contains-append a xs ys)
