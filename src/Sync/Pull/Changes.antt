-- ===== src/Sync/Pull/Changes.antt =====
-- The changes of a pull: which they are, in which order, and up to where none is left out.
use zt_data_sync.Store.Laws.{DistinctSeqs}
use zt_data_sync.Prelude.Elements.{In, All-In}
use zt_data_sync.Store.Queries.{sort_by_seq, insert_by_seq}
use zt_data_sync.Store.Rows.{Entry}
use zt_data_sync.Prelude.{
  ℕ, [], inl, inr, suc, ◌≡◌, ◌≢◌, ◌≤◌, ◌<◌, ◌⊎◌, ◌∷◌, List, All, take, Bool-cases, arith, leb, ap,
  zero, refl, length,
}

-- Sequence numbers rise along the list.
abbrev pub Ascending : List Entry → Type 0
Ascending [] = Unit {0}
Ascending (x ∷ xs) = All (λ y. x.seq < y.seq) xs × Ascending xs

insert_by_seq-All :
    (P : Entry → Type 0) (e : Entry) (xs : List Entry) → P e → All P xs → All P (insert_by_seq e xs)
unfolding insert_by_seq
insert_by_seq-All P e [] h a = (h, tt)
insert_by_seq-All P e (x ∷ xs) h a = elim (Bool-cases (leb e.seq x.seq)) [
  | inl t ↦ rw t (h, a)
  | inr t ↦ rw t (a.0, insert_by_seq-All P e xs h a.1)
]

pub sort_by_seq-All : (P : Entry → Type 0) (xs : List Entry) → All P xs → All P (sort_by_seq xs)
unfolding sort_by_seq
sort_by_seq-All P [] a = tt
sort_by_seq-All P (x ∷ xs) a = insert_by_seq-All P x (sort_by_seq xs) a.0 (sort_by_seq-All P xs a.1)

lt-All : (m n : ℕ) (xs : List Entry) → m ≤ n → All (λ y. n < y.seq) xs → All (λ y. m < y.seq) xs
lt-All m n [] h a = tt
lt-All m n (x ∷ xs) h a = (omega arith, lt-All m n xs h a.1)

insert_by_seq-Ascending :
    (e : Entry) (xs : List Entry)
    → All (λ y. e.seq ≢ y.seq) xs
    → Ascending xs
    → Ascending (insert_by_seq e xs)
unfolding insert_by_seq
insert_by_seq-Ascending e [] d a = (tt, tt)
insert_by_seq-Ascending e (x ∷ xs) d a = ground (
  arith,
  lt-All e.seq x.seq xs,
  insert_by_seq-Ascending e xs d.1 a.1,
  insert_by_seq-All (λ y. x.seq < y.seq) e xs,
)

pub sort_by_seq-Ascending : (xs : List Entry) → DistinctSeqs xs → Ascending (sort_by_seq xs)
unfolding sort_by_seq
sort_by_seq-Ascending [] d = tt
sort_by_seq-Ascending (x ∷ xs) d =
    insert_by_seq-Ascending x (sort_by_seq xs) (sort_by_seq-All (λ y. x.seq ≢ y.seq) xs d.0)
      (sort_by_seq-Ascending xs d.1)

-- Either the head, or further down.
swap_head :
    {A : Type 0} {R S : Type 0} (x e a : A)
    → ((e ≡ a) ⊎ R → S)
    → (e ≡ a) ⊎ ((x ≡ a) ⊎ R)
    → (x ≡ a) ⊎ S
swap_head x e a f (inl h) = inr (f (inl h))
swap_head x e a f (inr (inl h)) = inl h
swap_head x e a f (inr (inr k)) = inr (f (inr k))

In-insert_by_seq : (e a : Entry) (xs : List Entry) → (e ≡ a) ⊎ In a xs → In a (insert_by_seq e xs)
unfolding insert_by_seq
In-insert_by_seq e a [] m = m
In-insert_by_seq e a (x ∷ xs) m = elim (Bool-cases (leb e.seq x.seq)) [
  | inl t ↦ rw t m
  | inr t ↦ rw t (swap_head x e a (In-insert_by_seq e a xs) m)
]

pub In-sort_by_seq : (a : Entry) (xs : List Entry) → In a xs → In a (sort_by_seq xs)
unfolding sort_by_seq
In-sort_by_seq a [] m = absurd m
In-sort_by_seq a (x ∷ xs) (inl h) = In-insert_by_seq x a (sort_by_seq xs) (inl h)
In-sort_by_seq a (x ∷ xs) (inr m) =
    In-insert_by_seq x a (sort_by_seq xs) (inr (In-sort_by_seq a xs m))

-- What stands below an element of a rising list's prefix is in the prefix.
pub In-take_below :
    (n : ℕ) (e l : Entry) (xs : List Entry)
    → Ascending xs
    → In e xs
    → In l (take n xs)
    → e.seq ≤ l.seq
    → In e (take n xs)
In-take_below zero e l xs a m k le = absurd k
In-take_below (suc n) e l [] a m k le = absurd m
In-take_below (suc n) e l (x ∷ xs) a (inl h) k le = inl h
In-take_below (suc n) e l (x ∷ xs) a (inr m) (inr k) le = inr (In-take_below n e l xs a.1 m k le)
In-take_below (suc n) e l (x ∷ xs) a (inr m) (inl h) le =
    absurd (ground (arith, All-In (λ y. x.seq < y.seq) e xs a.0 m, ap (λ (z : Entry). z.seq) h))

length-insert_by_seq : (e : Entry) (xs : List Entry) → length (insert_by_seq e xs) ≡ suc (length xs)
unfolding insert_by_seq
length-insert_by_seq e [] = refl
length-insert_by_seq e (x ∷ xs) = ground (arith, length-insert_by_seq e xs)

pub length-sort_by_seq : (xs : List Entry) → length (sort_by_seq xs) ≡ length xs
unfolding sort_by_seq
length-sort_by_seq [] = refl
length-sort_by_seq (x ∷ xs) =
    omega (arith, length-insert_by_seq x (sort_by_seq xs), length-sort_by_seq xs)
