-- ===== src/Merge/Fuel.antt =====
-- The fuel is enough: a merge always ends with a result or an error of the source.
use zt_data_sync.Merge.Keys.{Key, find_key, key_eq}
use zt_data_sync.Merge.Json.{
  Raw, Fields, text, obj, field, end, find_key-field, RawMap, to_map, depth, depth_fields,
  parse_object,
}
use zt_data_sync.Merge.{
  Merger, Merging, merge_keys, merge_objects, merge_value, fields_of, all_keys, under, Input,
  no_bytes, garbage, json, merge_json, out_of_fuel, MergeError, parsed, side, base_side,
  check_bytes, check_immutable, result_of, fuel_of,
}
use zt_data_sync.Store.Rows.{Result, ok, err, ◌>>=◌}
use zt_data_sync.Store.Tx.{is_some}
use zt_data_sync.Prelude.{
  ℕ, zero, suc, [], ◌∷◌, List, Option, some, none, true, ◌≡◌, ◌≢◌, ◌≤◌, refl, arith, Bool-cases,
  Option-cases, inl, inr,
}

-- A value of an object is less deep than the fields.
pub find_key-depth-le :
    (k : Key) (f : Fields) (v : Raw) → find_key k (to_map f) ≡ some v → depth v ≤ depth_fields f
unfolding depth to_map find_key
find_key-depth-le k end v h = cc
find_key-depth-le k (field j w f) v h =
    ground (arith, find_key-field k j w f, find_key-depth-le k f v)

-- The depth of a value that may be absent.
abbrev pub depth_of : Option Raw → ℕ
depth_of none = 0
depth_of (some v) = depth v

-- A merger that ends on values of at most depth `n` in ours.
abbrev Ends : Merger → ℕ → Type 0
Ends f n =
    (path : List ℕ) (base ours theirs : Option Raw)
    → depth_of ours ≤ n
    → is_some (f path base ours theirs) ≡ true

merge_keys-ends :
    (f : Merger) (path : List ℕ) (base ours theirs : RawMap) (ks : List Key)
    → ((k : Key)
        → is_some (f (under path k) (find_key k base) (find_key k ours) (find_key k theirs)) ≡ true)
    → is_some (merge_keys f path base ours theirs ks) ≡ true
unfolding merge_keys
merge_keys-ends f path base ours theirs [] h = refl
merge_keys-ends f path base ours theirs (k ∷ ks) h =
    ground (arith, h k, merge_keys-ends f path base ours theirs ks h)

fields_of-depth :
    (k : Key) (o : Option Raw) (n : ℕ)
    → depth_of o ≤ suc n
    → depth_of (find_key k (fields_of o)) ≤ n
unfolding find_key depth
fields_of-depth k none n h = omega arith
fields_of-depth k (some (text a)) n h = omega arith
fields_of-depth k (some (obj f)) n h = elim (Option-cases (find_key k (to_map f))) [
  | inl absent ↦ rw absent (omega arith)
  | inr (v, found) ↦ rw found (omega (arith, find_key-depth-le k f v found))
]

-- Where the merger below ends on all parts, the merge of objects does.
pub merge_objects-ends :
    (f : Merger) (path : List ℕ) (base ours theirs : RawMap)
    → ((k : Key)
        → is_some (f (under path k) (find_key k base) (find_key k ours) (find_key k theirs)) ≡ true)
    → is_some (merge_objects f path base ours theirs) ≡ true
unfolding merge_objects
merge_objects-ends f path base ours theirs h =
    merge_keys-ends f path base ours theirs (all_keys base ours theirs) h

pub merge_value-Ends : (n : ℕ) → Ends (merge_value (suc n)) n
unfolding merge_value depth
merge_value-Ends zero path base none theirs h = ground arith
merge_value-Ends zero path base (some (text a)) theirs h = ground arith
merge_value-Ends zero path base (some (obj f)) theirs h = absurd (omega arith)
merge_value-Ends (suc n) path base ours theirs h = ground (
  arith,
  merge_objects-ends (merge_value (suc n)) path (fields_of base) (fields_of ours) (fields_of theirs)
      (λ k.
        merge_value-Ends n (under path k) (find_key k (fields_of base))
          (find_key k (fields_of ours)) (find_key k (fields_of theirs))
          (fields_of-depth k ours n h)),
)

side-depth :
    (v : Raw) (m : RawMap) (k : Key) → parse_object v ≡ some m → depth_of (find_key k m) ≤ depth v
unfolding parse_object depth find_key
side-depth (text a) m k h = elim (Bool-cases (key_eq a (b'n' ∷ b'u' ∷ b'l' ∷ b'l' ∷ []))) [
  | inl is_null ↦ let nothing : m ≡ [] = ground (arith, h, is_null) in rw nothing (omega arith)
  | inr other ↦ absurd (ground (arith, h, other))
]
side-depth (obj f) m k h =
    let same : to_map f ≡ m = ground (arith, h) in
    rw (← same) (omega (arith, fields_of-depth k (some (obj f)) (depth_fields f)))

-- A chain does not fail by `e` if none of its steps does.
bind-ne :
    {A B : Type 0} (e : MergeError) (m : Result MergeError A) (step : A → Result MergeError B)
    → m ≢ err e
    → ((a : A) → m ≡ ok a → step a ≢ err e)
    → (m >>= step) ≢ err e
bind-ne e (ok a) step h k = k a refl
bind-ne e (err f) step h k = λ same. h (ground (arith, same))

parsed-ne : (o : Option RawMap) → parsed o ≢ err out_of_fuel
parsed-ne none h = cc
parsed-ne (some m) h = cc

side-ne : (i : Input) → side i ≢ err out_of_fuel
side-ne no_bytes h = cc
side-ne garbage h = cc
side-ne (json v) h = parsed-ne (parse_object v) h

base_side-ne : (i : Input) → base_side i ≢ err out_of_fuel
base_side-ne no_bytes h = cc
base_side-ne garbage h = cc
base_side-ne (json v) h = parsed-ne (parse_object v) h

check_bytes-ne : (i : Input) → check_bytes i ≢ err out_of_fuel
check_bytes-ne no_bytes h = cc
check_bytes-ne garbage h = cc
check_bytes-ne (json v) h = cc

check_immutable-ne : (b o : RawMap) (fs : List Key) → check_immutable b o fs ≢ err out_of_fuel
unfolding check_immutable
check_immutable-ne b o [] h = cc
check_immutable-ne b o (f ∷ fs) h = ground (arith, check_immutable-ne b o fs)

result_of-ne :
    (x : Merging (List (Key × Option Raw))) → is_some x ≡ true → result_of x ≢ err out_of_fuel
result_of-ne none h k = absurd (ground (arith, h))
result_of-ne (some (m, cs)) h k = cc

ours-depth :
    (ours : Input) (m : RawMap) (k : Key)
    → side ours ≡ ok m
    → (n : ℕ) × (fuel_of ours ≡ suc n) × (depth_of (find_key k m) ≤ n)
ours-depth no_bytes m k h = absurd (ground (arith, h))
ours-depth garbage m k h = absurd (ground (arith, h))
ours-depth (json v) m k h = (depth v, refl, side-depth v m k (ground (arith, h)))

-- A merge ends with a result or with an error of the source: the fuel does not run out.
pub merge_json-total :
    (base ours theirs : Input) (immutable : List Key)
    → merge_json base ours theirs immutable ≢ err out_of_fuel
unfolding merge_json
merge_json-total base ours theirs immutable =
    bind-ne out_of_fuel (check_bytes ours) _ (check_bytes-ne ours) λ _ _.
      bind-ne out_of_fuel (check_bytes theirs) _ (check_bytes-ne theirs) λ _ _.
        bind-ne out_of_fuel (side ours) _ (side-ne ours) λ om is_om.
          bind-ne out_of_fuel (side theirs) _ (side-ne theirs) λ tm _.
            bind-ne out_of_fuel (base_side base) _ (base_side-ne base) λ bm _.
              bind-ne out_of_fuel (check_immutable bm om immutable) _
                (check_immutable-ne bm om immutable)
                λ _ _. result_of-ne (merge_objects (merge_value (fuel_of ours)) [] bm om tm) (
                  merge_objects-ends (merge_value (fuel_of ours)) [] bm om tm (λ k.
                    let (n, is, le) = ours-depth ours om k is_om in
                    rw is (
                      merge_value-Ends n (under [] k) (find_key k bm) (find_key k om)
                        (find_key k tm) le)))
