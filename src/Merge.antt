-- ===== src/Merge.antt =====
-- internal/merge/merge.go: `MergeJSON`, the three-way merge of JSON objects. The loops of
-- `mergeObjects` and `mergeValue` call one another on parsed parts, so `merge_value` runs on fuel,
-- which counts how deep objects are nested.
pub mod Keys
pub mod Json
pub mod Fuel
pub mod Equality
pub mod Loop
pub mod Paths
pub mod Sides
use Keys.{Key, key_eq, find_key, insert_key, keys_of}
use Json.{
  Raw, Fields, text, obj, RawMap, raw_eq, to_map, parse_object, from_map, quote, render, depth,
}
use zt_data_sync.Store.Rows.{Result, ok, err, ◌>>=◌}
use zt_data_sync.Store.Tx.{is_some}
use zt_data_sync.Prelude.{
  ℕ, zero, suc, [], ◌∷◌, ◌++◌, ◌&&◌, ◌||◌, not, Bool, List, Option, some, none, true, false,
  if◌then◌else◌, ◌+◌,
}

pub record FieldConflict : Type 0 where
  pub key : List ℕ
  pub base : Option Raw
  pub ours : Option Raw
  pub theirs : Option Raw

-- `equalJSON`; a value that is not there is none.
unfoldable pub same : Option Raw → Option Raw → Bool
unfolding raw_eq
same none none = true
same none (some b) = false
same (some a) none = false
same (some a) (some b) = raw_eq a b

abbrev is_object : Raw → Bool
is_object (obj f) = true
is_object (text a) = false

abbrev object_or_absent : Option Raw → Bool
object_or_absent none = true
object_or_absent (some v) = is_object v

abbrev an_object : Option Raw → Bool
an_object none = false
an_object (some v) = is_object v

unfoldable pub all_objects : Option Raw → Option Raw → Option Raw → Bool
all_objects base ours theirs = object_or_absent base && (an_object ours && an_object theirs)

-- The map of an object; no other value is parsed here.
abbrev pub fields_of : Option Raw → RawMap
fields_of none = []
fields_of (some (text a)) = []
fields_of (some (obj f)) = to_map f

-- The keys of the three maps, in order.
abbrev insert_keys : List Key → List Key → List Key
insert_keys [] ks = ks
insert_keys (j ∷ js) ks = insert_key j (insert_keys js ks)

unfoldable pub all_keys : RawMap → RawMap → RawMap → List Key
unfolding keys_of insert_key
all_keys base ours theirs =
    insert_keys (keys_of base) (insert_keys (keys_of ours) (insert_keys (keys_of theirs) []))

abbrev pub or_empty : Option Raw → List ℕ
or_empty none = []
or_empty (some v) = render v

-- `"<<<<<<< ours"`, `"======="` and `">>>>>>> theirs"`
abbrev pub mark_start : List ℕ
mark_start = 60 ∷ 60 ∷ 60 ∷ 60 ∷ 60 ∷ 60 ∷ 60 ∷ 32 ∷ 111 ∷ 117 ∷ 114 ∷ 115 ∷ []

abbrev pub mark_sep : List ℕ
mark_sep = 61 ∷ 61 ∷ 61 ∷ 61 ∷ 61 ∷ 61 ∷ 61 ∷ []

abbrev pub mark_end : List ℕ
mark_end = 62 ∷ 62 ∷ 62 ∷ 62 ∷ 62 ∷ 62 ∷ 62 ∷ 32 ∷ 116 ∷ 104 ∷ 101 ∷ 105 ∷ 114 ∷ 115 ∷ []

-- The text of a mark: both sides between three lines.
abbrev pub mark_text : List ℕ → List ℕ → List ℕ
mark_text ours theirs =
    mark_start ++ (10 ∷ (ours ++ (10 ∷ (mark_sep ++ (10 ∷ (theirs ++ (10 ∷ mark_end)))))))

unfoldable pub mark_conflict : Option Raw → Option Raw → Raw
unfolding quote render
mark_conflict ours theirs = text (quote (mark_text (or_empty ours) (or_empty theirs)))

-- The path of a field, with dots.
abbrev pub under : List ℕ → Key → List ℕ
under [] k = k
under (c ∷ path) k = (c ∷ path) ++ (b'.' ∷ k)

-- A merged value and the conflicts in it; none for fuel that ran out.
abbrev pub Merging : Type 0 → Type 0
Merging A = Option (A × List FieldConflict)

abbrev add_field :
    Key
    → Merging (Option Raw)
    → Merging (List (Key × Option Raw))
    → Merging (List (Key × Option Raw))
add_field k none rest = none
add_field k (some (v, cs)) none = none
add_field k (some (v, cs)) (some (m, ds)) = some ((k, v) ∷ m, cs ++ ds)

abbrev pub Merger : Type 0
Merger = List ℕ → Option Raw → Option Raw → Option Raw → Merging (Option Raw)

-- The loop of `mergeObjects` over the keys.
unfoldable pub merge_keys :
    Merger → List ℕ → RawMap → RawMap → RawMap → List Key → Merging (List (Key × Option Raw))
merge_keys f path base ours theirs [] = some ([], [])
merge_keys f path base ours theirs (k ∷ ks) =
    add_field k (f (under path k) (find_key k base) (find_key k ours) (find_key k theirs))
      (merge_keys f path base ours theirs ks)

unfoldable pub merge_objects :
    Merger → List ℕ → RawMap → RawMap → RawMap → Merging (List (Key × Option Raw))
unfolding merge_keys all_keys
merge_objects f path base ours theirs =
    merge_keys f path base ours theirs (all_keys base ours theirs)

abbrev pub as_object : Merging (List (Key × Option Raw)) → Merging (Option Raw)
as_object none = none
as_object (some (m, cs)) = some (some (obj (from_map m)), cs)

unfoldable pub merge_value : ℕ → Merger
unfolding same all_objects merge_objects from_map mark_conflict
merge_value zero path base ours theirs = none
merge_value (suc n) path base ours theirs =
    let nested =
      as_object
        (merge_objects (merge_value n) path (fields_of base) (fields_of ours) (fields_of theirs)) in
    if same ours base
    then some (theirs, [])
    else if same theirs base
    then some (ours, [])
    else if same ours theirs
    then some (ours, [])
    else if all_objects base ours theirs
    then nested
    else some (
      some (mark_conflict ours theirs),
      record { key = path; base = base; ours = ours; theirs = theirs } ∷ [],
    )

-- An input: no bytes, bytes that are no JSON, or a JSON text.
pub data Input : Type 0 where
  no_bytes garbage : Input
  json : Raw → Input

pub data MergeError : Type 0 where
  missing not_object immutable_changed out_of_fuel : MergeError

abbrev parsed : Option RawMap → Result MergeError RawMap
parsed none = err not_object
parsed (some m) = ok m

-- A side of the merge, which must be there.
abbrev side : Input → Result MergeError RawMap
side no_bytes = err missing
side garbage = err not_object
side (json v) = parsed (parse_object v)

-- The base, which may be missing.
abbrev base_side : Input → Result MergeError RawMap
base_side no_bytes = ok []
base_side garbage = err not_object
base_side (json v) = parsed (parse_object v)

-- The immutable fields that the base has are the same in ours.
unfoldable pub check_immutable : RawMap → RawMap → List Key → Result MergeError (Unit {0})
unfolding same
check_immutable base ours [] = ok tt
check_immutable base ours (f ∷ fs) =
    let rest = check_immutable base ours fs in
    if is_some (find_key f base) && not (same (find_key f base) (find_key f ours))
    then err immutable_changed
    else rest

pub record MergeResult : Type 0 where
  pub merged : Raw
  pub conflicts : List FieldConflict
  pub has_conflict : Bool

abbrev any_conflict : List FieldConflict → Bool
any_conflict [] = false
any_conflict (c ∷ cs) = true

abbrev result_of : Merging (List (Key × Option Raw)) → Result MergeError MergeResult
result_of none = err out_of_fuel
result_of (some (m, cs)) =
    ok (record { merged = obj (from_map m); conflicts = cs; has_conflict = any_conflict cs })

-- More than any object of a text is nested.
abbrev pub fuel_of : Input → ℕ
fuel_of no_bytes = 0
fuel_of garbage = 0
fuel_of (json v) = suc (depth v)

-- The order in which the inputs are looked at: both sides for their bytes, then ours, theirs and
-- the base.
abbrev check_bytes : Input → Result MergeError (Unit {0})
check_bytes no_bytes = err missing
check_bytes garbage = ok tt
check_bytes (json v) = ok tt

unfoldable pub merge_json : Input → Input → Input → List Key → Result MergeError MergeResult
unfolding parse_object check_immutable depth merge_value
merge_json base ours theirs immutable = do
  _ ← check_bytes ours
  _ ← check_bytes theirs
  om ← side ours
  tm ← side theirs
  bm ← base_side base
  _ ← check_immutable bm om immutable
  result_of (merge_objects (merge_value (fuel_of ours)) [] bm om tm)
