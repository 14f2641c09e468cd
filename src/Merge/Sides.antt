-- ===== src/Merge/Sides.antt =====
-- `MergeJSON` as a whole: what the result holds at each path, and where it differs from the sides.
use zt_data_sync.Merge.Equality.{same_refl}
use zt_data_sync.Merge.Paths.{
  Real, merge_value-Real, FaithfulAt, merge_objects-FaithfulAt, merge_value-Faithful,
}
use zt_data_sync.Merge.Keys.{Key, find_key, has_key}
use zt_data_sync.Merge.Json.{Raw, text, obj, RawMap, parse_object, from_map, null, or_null}
use zt_data_sync.Merge.{
  FieldConflict, all_keys, Input, no_bytes, garbage, json, MergeResult, merge_json, merge_objects,
  merge_value, fuel_of, fields_of, side, base_side, check_immutable, check_bytes, result_of,
  Merging, any_conflict,
}
use zt_data_sync.Prelude.Elements.{In}
use zt_data_sync.Merge.Loop.{merge_keys-In, merge_keys-Part, has_key-all_keys}
use zt_data_sync.Store.Rows.{ok, bind-ok}
use zt_data_sync.Prelude.{
  ℕ, zero, suc, [], ◌∷◌, List, Option, some, none, true, false, ◌≡◌, refl, sym, ap, ◌∙◌, arith,
}

-- The value of an input, if it has one.
abbrev pub raw_of : Input → Option Raw
raw_of no_bytes = none
raw_of garbage = none
raw_of (json v) = some v

parsed_fields : (v : Raw) (m : RawMap) → parse_object v ≡ some m → fields_of (some v) ≡ m
unfolding parse_object
parsed_fields (text a) m h = ground (arith, h)
parsed_fields (obj f) m h = ground (arith, h)

side_fields : (i : Input) (m : RawMap) → side i ≡ ok m → fields_of (raw_of i) ≡ m
side_fields no_bytes m h = cc
side_fields garbage m h = cc
side_fields (json v) m h = parsed_fields v m (ground (arith, h))

base_fields : (i : Input) (m : RawMap) → base_side i ≡ ok m → fields_of (raw_of i) ≡ m
base_fields no_bytes m h = ground (arith, h)
base_fields garbage m h = cc
base_fields (json v) m h = parsed_fields v m (ground (arith, h))

-- The parts of a merge that succeeds.
record Merged (base ours theirs : Input) (res : MergeResult) : Type 0 where
  fields : List (Key × Option Raw)
  is_merge :
      merge_objects
        (merge_value (fuel_of ours))
        []
        (fields_of (raw_of base))
        (fields_of (raw_of ours))
        (fields_of (raw_of theirs))
      ≡ some (fields, res.conflicts)
  is_result : res.merged ≡ obj (from_map fields)
  flag : res.has_conflict ≡ any_conflict res.conflicts

result_parts :
    (x : Merging (List (Key × Option Raw))) (res : MergeResult)
    → result_of x ≡ ok res
    → (m : List (Key × Option Raw)) × (x ≡ some (m, res.conflicts))
      × (res.merged ≡ obj (from_map m))
      × (res.has_conflict ≡ any_conflict res.conflicts)
result_parts none res h = cc
result_parts (some (m, cs)) res h = (m, ground (arith, h), ground (arith, h), ground (arith, h))

merge_json-Merged :
    (base ours theirs : Input) (immutable : List Key) (res : MergeResult)
    → merge_json base ours theirs immutable ≡ ok res
    → Merged base ours theirs res
unfolding merge_json
merge_json-Merged base ours theirs immutable res h =
    let (_, _, h1) = bind-ok (check_bytes ours) _ h in
    let (_, _, h2) = bind-ok (check_bytes theirs) _ h1 in
    let (om, is_om, h3) = bind-ok (side ours) _ h2 in
    let (tm, is_tm, h4) = bind-ok (side theirs) _ h3 in
    let (bm, is_bm, h5) = bind-ok (base_side base) _ h4 in
    let (_, _, h6) = bind-ok (check_immutable bm om immutable) _ h5 in
    let (m, is_merge, is_result, flag) = result_parts _ res h6 in
    record {
      fields = m;
      is_merge =
          rw (side_fields ours om is_om, side_fields theirs tm is_tm, base_fields base bm is_bm)
            is_merge;
      is_result = is_result;
      flag = flag;
    }

no_conflicts : (cs : List FieldConflict) → any_conflict cs ≡ false → cs ≡ []
no_conflicts [] h = refl
no_conflicts (c ∷ cs) h = cc

-- A merge that reports no conflict holds at each path below the top what the sides ask for: the
-- value of the other side where one side left the base's value alone, and the common value where
-- both agree, with a `null` read as absent. So no change that only one side made is lost.
pub merge_json-FaithfulAt :
    (base ours theirs : Input) (immutable : List Key) (res : MergeResult)
    → merge_json base ours theirs immutable ≡ ok res
    → res.has_conflict ≡ false
    → (k : Key) (p : List Key)
    → FaithfulAt
        (fields_of (raw_of base))
        (fields_of (raw_of ours))
        (fields_of (raw_of theirs))
        (some res.merged)
        k
        p
merge_json-FaithfulAt base ours theirs immutable res h clean k p =
    let q = merge_json-Merged base ours theirs immutable res h in
    let none_left = no_conflicts res.conflicts (sym q.flag ∙ clean) in
    rw q.is_result (
      merge_objects-FaithfulAt (merge_value (fuel_of ours)) [] (fields_of (raw_of base))
        (fields_of (raw_of ours)) (fields_of (raw_of theirs)) q.fields
        (merge_value-Faithful (fuel_of ours))
        (q.is_merge ∙ ap (λ (cs : List FieldConflict). some (q.fields, cs)) none_left) k p)

-- Each conflict that a merge reports stands for a path at which both sides changed the base, and
-- not alike: it has the path's name and the three values there, which are not all objects.
pub merge_json-Real :
    (base ours theirs : Input) (immutable : List Key) (res : MergeResult) (c : FieldConflict)
    → merge_json base ours theirs immutable ≡ ok res
    → In c res.conflicts
    → (k : Key) × (p : List Key) × Real k
        (find_key k (fields_of (raw_of base)))
        (find_key k (fields_of (raw_of ours)))
        (find_key k (fields_of (raw_of theirs)))
        c
        p
unfolding merge_objects
merge_json-Real base ours theirs immutable res c h there =
    let q = merge_json-Merged base ours theirs immutable res h in
    let b = fields_of (raw_of base) in
    let o = fields_of (raw_of ours) in
    let t = fields_of (raw_of theirs) in
    let (k, v, ds, part, below) =
      merge_keys-In (merge_value (fuel_of ours)) [] b o t (all_keys b o t) q.fields res.conflicts c
        q.is_merge there in
    let (p, real) =
      merge_value-Real (fuel_of ours) k (find_key k b) (find_key k o) (find_key k t) v ds c part
        below in
    (k, p, real)

removed_value :
    (n : ℕ) (path : List ℕ) (v : Raw) (r : Option Raw) (cs : List FieldConflict)
    → merge_value n path (some v) none (some v) ≡ some (r, cs)
    → r ≡ none
unfolding merge_value
removed_value zero path v r cs h = cc
removed_value (suc n) path v r cs h = ground (arith, h, same_refl (some v))

-- A field that one side removed and the other left alone is not removed: the merge has it with the
-- value `null`.
pub removed_field_null :
    (base ours theirs : Input) (immutable : List Key) (res : MergeResult) (k : Key) (v : Raw)
    → merge_json base ours theirs immutable ≡ ok res
    → find_key k (fields_of (raw_of base)) ≡ some v
    → find_key k (fields_of (raw_of theirs)) ≡ some v
    → find_key k (fields_of (raw_of ours)) ≡ none
    → find_key k (fields_of (some res.merged)) ≡ some null
unfolding merge_objects
removed_field_null base ours theirs immutable res k v h in_base in_theirs gone =
    let q = merge_json-Merged base ours theirs immutable res h in
    let b = fields_of (raw_of base) in
    let o = fields_of (raw_of ours) in
    let t = fields_of (raw_of theirs) in
    let listed : has_key k (all_keys b o t) ≡ true =
      ground (arith, has_key-all_keys k b o t, in_base) in
    let part =
      merge_keys-Part (merge_value (fuel_of ours)) [] b o t (all_keys b o t) q.fields res.conflicts
        k q.is_merge listed in
    let removed = rw (in_base, in_theirs, gone) at part.is_part in
    let value = removed_value (fuel_of ours) k v part.value part.conflicts removed in
    rw q.is_result (part.found ∙ ap (λ (x : Option Raw). some (or_null x)) value)
