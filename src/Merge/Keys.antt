-- ===== src/Merge/Keys.antt =====
-- Go's maps with string keys: byte strings, their equality and order, and association lists.
use Prim.Native.Nat.{compare, Ordering}
use zt_data_sync.Prelude.{
  ℕ, [], ◌∷◌, ◌&&◌, Bool, List, Option, some, none, true, false, if◌then◌else◌, ◌==◌, ◌≡◌, refl,
  arith,
}

abbrev pub Key : Type 0
Key = List ℕ

unfoldable pub key_eq : Key → Key → Bool
key_eq [] [] = true
key_eq [] (y ∷ ys) = false
key_eq (x ∷ xs) [] = false
key_eq (x ∷ xs) (y ∷ ys) = (x == y) && key_eq xs ys

-- The byte order of `sort.Strings`.
unfoldable pub key_ltb : Key → Key → Bool
key_ltb xs [] = false
key_ltb [] (y ∷ ys) = true
key_ltb (x ∷ xs) (y ∷ ys) =
    let rest = key_ltb xs ys in
    elim (compare x y) [ Ordering.lt ↦ true | Ordering.eq ↦ rest | Ordering.gt ↦ false ]

pub key_eq_refl : (k : Key) → key_eq k k ≡ true
unfolding key_eq
key_eq_refl [] = refl
key_eq_refl (x ∷ xs) = ground (arith, key_eq_refl xs)

pub eq_of_key_eq : (j k : Key) → key_eq j k ≡ true → j ≡ k
unfolding key_eq
eq_of_key_eq [] [] h = refl
eq_of_key_eq [] (y ∷ ys) h = cc
eq_of_key_eq (x ∷ xs) [] h = cc
eq_of_key_eq (x ∷ xs) (y ∷ ys) h = ground (arith, eq_of_key_eq xs ys)

-- The keys in order, each once.
unfoldable pub insert_key : Key → List Key → List Key
insert_key k [] = k ∷ []
insert_key k (j ∷ js) =
    let rest = insert_key k js in
    if key_eq k j then j ∷ js else if key_ltb k j then k ∷ j ∷ js else j ∷ rest

unfoldable pub has_key : Key → List Key → Bool
has_key k [] = false
has_key k (j ∷ js) = if key_eq j k then true else has_key k js

pub has_key-insert_key :
    (k j : Key) (js : List Key)
    → has_key k (insert_key j js) ≡ (if key_eq j k then true else has_key k js)
unfolding has_key insert_key
has_key-insert_key k j [] = refl
has_key-insert_key k j (i ∷ js) =
    ground (arith, has_key-insert_key k j js, eq_of_key_eq j i, eq_of_key_eq i j)

module _ {V : Type 0} where
  unfoldable pub find_key : Key → List (Key × V) → Option V
  find_key k [] = none
  find_key k ((j, v) ∷ m) = if key_eq j k then some v else find_key k m

  unfoldable pub keys_of : List (Key × V) → List Key
  keys_of [] = []
  keys_of ((k, v) ∷ m) = k ∷ keys_of m
