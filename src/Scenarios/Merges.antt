-- ===== src/Scenarios/Merges.antt =====
-- Merges of small objects.
use zt_data_sync.Merge.Keys.{find_key, key_eq, key_ltb}
use zt_data_sync.Merge.Json.{text, obj, field, end, null, to_map}
use zt_data_sync.Merge.{
  Input, json, MergeResult, FieldConflict, merge_json, fields_of, mark_conflict,
}
use zt_data_sync.Merge.Fuel.{merge_json-total}
use zt_data_sync.Merge.Paths.{FaithfulAt}
use zt_data_sync.Merge.Sides.{raw_of, merge_json-FaithfulAt}
use zt_data_sync.Merge.{out_of_fuel}
use zt_data_sync.Store.Rows.{ok, err}
use zt_data_sync.Prelude.{[], ◌∷◌, some, none, true, false, ◌≡◌, ◌≢◌, refl}

-- {"a": 1, "b": {"c": 2, "d": 3}} and changes of it
abbrev base_text : Input
base_text = json (
    obj (
      field (97 ∷ []) (text (49 ∷ [])) (
        field (98 ∷ [])
          (obj (field (99 ∷ []) (text (50 ∷ [])) (field (100 ∷ []) (text (51 ∷ [])) end))) end)))

abbrev ours_text : Input
ours_text = json (
    obj (
      field (97 ∷ []) (text (49 ∷ [])) (
        field (98 ∷ [])
          (obj (field (99 ∷ []) (text (55 ∷ [])) (field (100 ∷ []) (text (51 ∷ [])) end))) end)))

abbrev theirs_text : Input
theirs_text = json (
    obj (
      field (97 ∷ []) (text (52 ∷ [])) (
        field (98 ∷ [])
          (obj (field (99 ∷ []) (text (50 ∷ [])) (field (100 ∷ []) (text (54 ∷ [])) end))) end)))

abbrev merged_result : MergeResult
merged_result = record {
  merged = obj (
      field (97 ∷ []) (text (52 ∷ [])) (
        field (98 ∷ [])
          (obj (field (99 ∷ []) (text (55 ∷ [])) (field (100 ∷ []) (text (54 ∷ [])) end))) end));
  conflicts = [];
  has_conflict = false;
}

merges : merge_json base_text ours_text theirs_text [] ≡ ok merged_result
unfolding merge_json key_eq key_ltb to_map find_key
merges = refl

merge_json-FaithfulAt_example :
    FaithfulAt
      (fields_of (raw_of base_text))
      (fields_of (raw_of ours_text))
      (fields_of (raw_of theirs_text))
      (some merged_result.merged)
      (98 ∷ [])
      ((100 ∷ []) ∷ [])
merge_json-FaithfulAt_example =
    merge_json-FaithfulAt base_text ours_text theirs_text [] merged_result merges refl (98 ∷ [])
      ((100 ∷ []) ∷ [])

-- {"a": 5} and {} over {"a": 1}
abbrev small_base : Input
small_base = json (obj (field (97 ∷ []) (text (49 ∷ [])) end))

abbrev small_ours : Input
small_ours = json (obj (field (97 ∷ []) (text (53 ∷ [])) end))

abbrev small_theirs : Input
small_theirs = json (obj (field (97 ∷ []) (text (54 ∷ [])) end))

abbrev small_conflict : FieldConflict
small_conflict = record {
  key = 97 ∷ [];
  base = some (text (49 ∷ []));
  ours = some (text (53 ∷ []));
  theirs = some (text (54 ∷ []));
}

abbrev small_result : MergeResult
small_result = record {
  merged =
      obj (field (97 ∷ []) (mark_conflict (some (text (53 ∷ []))) (some (text (54 ∷ [])))) end);
  conflicts = small_conflict ∷ [];
  has_conflict = true;
}

conflicts : merge_json small_base small_ours small_theirs [] ≡ ok small_result
unfolding merge_json key_eq key_ltb to_map find_key
conflicts = refl

abbrev emptied : Input
emptied = json (obj end)

abbrev emptied_result : MergeResult
emptied_result = record {
  merged = obj (field (97 ∷ []) null end);
  conflicts = [];
  has_conflict = false;
}

empties : merge_json small_base emptied small_base [] ≡ ok emptied_result
unfolding merge_json key_eq key_ltb to_map find_key
empties = refl

in_small : find_key (97 ∷ []) (fields_of (raw_of small_base)) ≡ some (text (49 ∷ []))
unfolding to_map find_key key_eq
in_small = refl

not_in_emptied : find_key (97 ∷ []) (fields_of (raw_of emptied)) ≡ none
unfolding to_map find_key
not_in_emptied = refl

merge_json-total_example : merge_json base_text ours_text theirs_text [] ≢ err out_of_fuel
merge_json-total_example = merge_json-total base_text ours_text theirs_text []
