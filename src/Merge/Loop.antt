-- ===== src/Merge/Loop.antt =====
-- The loop of `mergeObjects` over the keys.
use zt_data_sync.Merge.Keys.{
  Key, find_key, key_eq, eq_of_key_eq, keys_of, has_key, has_key-insert_key,
}
use zt_data_sync.Merge.Json.{Raw, find_key-field, RawMap, to_map, from_map, or_null}
use zt_data_sync.Merge.{
  Merger, FieldConflict, merge_keys, all_keys, insert_keys, under, Merging, add_field,
}
use zt_data_sync.Store.Tx.{is_some}
use zt_data_sync.Prelude.Elements.{In}
use zt_data_sync.Prelude.{
  ◌⊎◌, ℕ, [], ◌∷◌, ◌++◌, List, Option, some, none, true, false, ◌≡◌, ◌||◌, refl, ◌∙◌, arith,
  Bool-cases, inl, inr,
}

keys_of-find : (k : Key) (m : RawMap) → has_key k (keys_of m) ≡ is_some (find_key k m)
unfolding has_key keys_of find_key
keys_of-find k [] = refl
keys_of-find k ((j, v) ∷ m) = ground (arith, keys_of-find k m)

has_key-insert_keys :
    (k : Key) (js ks : List Key) → has_key k (insert_keys js ks) ≡ (has_key k js || has_key k ks)
unfolding has_key
has_key-insert_keys k [] ks = refl
has_key-insert_keys k (j ∷ js) ks =
    ground (arith, has_key-insert_key k j (insert_keys js ks), has_key-insert_keys k js ks)

-- The keys of the merge are those of its three sides.
pub has_key-all_keys :
    (k : Key) (b o t : RawMap)
    → has_key k (all_keys b o t)
      ≡ (is_some (find_key k b) || (is_some (find_key k o) || is_some (find_key k t)))
unfolding all_keys has_key
has_key-all_keys k b o t = ground (
  arith,
  has_key-insert_keys k (keys_of b) (insert_keys (keys_of o) (insert_keys (keys_of t) [])),
  has_key-insert_keys k (keys_of o) (insert_keys (keys_of t) []),
  has_key-insert_keys k (keys_of t) [],
  keys_of-find k b,
  keys_of-find k o,
  keys_of-find k t,
)

-- What the loop yields for a key of its list.
pub record Part (f : Merger) (path : List ℕ) (b o t : RawMap) (m : List (Key × Option Raw))
    (cs : List FieldConflict) (k : Key) : Type 0 where
  pub value : Option Raw
  pub conflicts : List FieldConflict
  pub is_part :
      f (under path k) (find_key k b) (find_key k o) (find_key k t) ≡ some (value, conflicts)
  pub found : find_key k (to_map (from_map m)) ≡ some (or_null value)
  pub clean : cs ≡ [] → conflicts ≡ []

pub add_field-some :
    (k : Key) (x : Merging (Option Raw)) (y : Merging (List (Key × Option Raw)))
    (m : List (Key × Option Raw)) (cs : List FieldConflict)
    → add_field k x y ≡ some (m, cs)
    → (v : Option Raw) × (ds : List FieldConflict) × (m' : List (Key × Option Raw)) × (es : List
        FieldConflict)
      × (x ≡ some (v, ds))
      × (y ≡ some (m', es))
      × (m ≡ (k, v) ∷ m')
      × (cs ≡ ds ++ es)
add_field-some k none y m cs h = cc
add_field-some k (some (v, ds)) none m cs h = cc
add_field-some k (some (v, ds)) (some (m', es)) m cs h =
    (v, ds, m', es, refl, refl, ground (arith, h), ground (arith, h))

pub append-nil_inv : (ds es : List FieldConflict) → ds ++ es ≡ [] → (ds ≡ []) × (es ≡ [])
append-nil_inv [] es h = (refl, h)
append-nil_inv (d ∷ ds) es h = cc

-- A key that is not in the list is in no field.
pub merge_keys-absent :
    (f : Merger) (path : List ℕ) (b o t : RawMap) (ks : List Key) (m : List (Key × Option Raw))
    (cs : List FieldConflict) (k : Key)
    → merge_keys f path b o t ks ≡ some (m, cs)
    → has_key k ks ≡ false
    → find_key k (to_map (from_map m)) ≡ none
unfolding merge_keys has_key from_map to_map find_key
merge_keys-absent f path b o t [] m cs k h absent = ground (arith, h)
merge_keys-absent f path b o t (j ∷ ks) m cs k h absent =
    let (v, ds, m', es, part, rest, is_m, is_cs) =
      add_field-some j (f (under path j) (find_key j b) (find_key j o) (find_key j t))
        (merge_keys f path b o t ks) m cs h in
    rw is_m (
      ground (
        arith,
        absent,
        find_key-field k j (or_null v) (from_map m'),
        merge_keys-absent f path b o t ks m' es k rest,
      ))

pub merge_keys-Part :
    (f : Merger) (path : List ℕ) (b o t : RawMap) (ks : List Key) (m : List (Key × Option Raw))
    (cs : List FieldConflict) (k : Key)
    → merge_keys f path b o t ks ≡ some (m, cs)
    → has_key k ks ≡ true
    → Part f path b o t m cs k
unfolding merge_keys has_key from_map
merge_keys-Part f path b o t [] m cs k h there = cc
merge_keys-Part f path b o t (j ∷ ks) m cs k h there =
    let (v, ds, m', es, part, rest, is_m, is_cs) =
      add_field-some j (f (under path j) (find_key j b) (find_key j o) (find_key j t))
        (merge_keys f path b o t ks) m cs h in
    elim (Bool-cases (has_key k ks)) [
      | inl later ↦
          let q = merge_keys-Part f path b o t ks m' es k rest later in
          record {
            value = q.value;
            conflicts = q.conflicts;
            is_part = q.is_part;
            found =
                rw is_m (find_key-field k j (or_null v) (from_map m') ∙ ground (arith, q.found));
            clean =
                λ none_left. q.clean (append-nil_inv ds es (ground (arith, is_cs, none_left))).1;
          }
      | inr last ↦
          let here : key_eq j k ≡ true = ground (arith, there, last) in
          let e = eq_of_key_eq j k here in
          let gone = merge_keys-absent f path b o t ks m' es k rest last in
          record {
            value = v;
            conflicts = ds;
            is_part = rw (← e) part;
            found =
                rw is_m (find_key-field k j (or_null v) (from_map m') ∙ ground (arith, gone, here));
            clean = λ none_left. (append-nil_inv ds es (ground (arith, is_cs, none_left))).0;
          }
    ]

pub absent_keys :
    (k : Key) (b o t : RawMap)
    → has_key k (all_keys b o t) ≡ false
    → (find_key k b ≡ none) × (find_key k o ≡ none) × (find_key k t ≡ none)
absent_keys k b o t h = ground (arith, h, has_key-all_keys k b o t)

In-of_append :
    (c : FieldConflict) (ds es : List FieldConflict) → In c (ds ++ es) → In c ds ⊎ In c es
In-of_append c [] es h = inr h
In-of_append c (d ∷ ds) es (inl e) = inl (inl e)
In-of_append c (d ∷ ds) es (inr h) = elim (In-of_append c ds es h) [
  | inl here ↦ inl (inr here)
  | inr there ↦ inr there
]

-- A conflict of the loop is a conflict of one of its keys.
pub merge_keys-In :
    (f : Merger) (path : List ℕ) (b o t : RawMap) (ks : List Key) (m : List (Key × Option Raw))
    (cs : List FieldConflict) (c : FieldConflict)
    → merge_keys f path b o t ks ≡ some (m, cs)
    → In c cs
    → (k : Key) × (v : Option Raw) × (ds : List FieldConflict) × (f
          (under path k)
          (find_key k b)
          (find_key k o)
          (find_key k t)
        ≡ some (v, ds))
      × In c ds
unfolding merge_keys
merge_keys-In f path b o t [] m cs c h there =
    let nothing : [] ≡ cs = ground (arith, h) in absurd (rw (← nothing) at there)
merge_keys-In f path b o t (j ∷ ks) m cs c h there =
    let (v, ds, m', es, part, rest, is_m, is_cs) =
      add_field-some j (f (under path j) (find_key j b) (find_key j o) (find_key j t))
        (merge_keys f path b o t ks) m cs h in
    elim (In-of_append c ds es (rw is_cs at there)) [
      | inl here ↦ (j, v, ds, part, here)
      | inr later ↦ merge_keys-In f path b o t ks m' es c rest later
    ]
