-- ===== src/Merge/Paths.antt =====
-- What a merge without conflict holds at each path.
use zt_data_sync.Merge.Keys.{Key, find_key, key_eq, has_key}
use zt_data_sync.Merge.Json.{Raw, obj, RawMap, to_map, from_map, null, or_null, raw_eq}
use zt_data_sync.Merge.{
  all_objects, same, Merger, FieldConflict, merge_objects, merge_value, fields_of, same, all_keys,
  as_object, under, Merging,
}
use mathlib.Core.Path.{subst}
use zt_data_sync.Prelude.{
  ◌||◌, ℕ, zero, suc, [], ◌∷◌, List, Option, some, none, true, false, ◌≡◌, ◌≢◌, refl, sym, ap, ◌∙◌,
  arith, Bool-cases, inl, inr,
}
use zt_data_sync.Merge.Equality.{same-eq, not_same}
use zt_data_sync.Prelude.Elements.{In}
use zt_data_sync.Merge.Loop.{merge_keys-In, merge_keys-absent, merge_keys-Part, absent_keys}

-- The value at a path of keys.
abbrev pub at : List Key → Option Raw → Option Raw
at [] v = v
at (k ∷ p) v = at p (find_key k (fields_of v))

-- A `null` counts as an absent value.
unfoldable pub visible : Option Raw → Option Raw
visible none = none
visible (some v) = elim (raw_eq v null) [ true ↦ none | false ↦ some v ]

-- At each path: what one side left alone is what the other side has, and where both agree the
-- result has that.
abbrev pub Faithful : Option Raw → Option Raw → Option Raw → Option Raw → Type 0
Faithful base ours theirs r =
    (p : List Key)
    → (at p ours ≡ at p base → visible (at p r) ≡ visible (at p theirs))
      × (at p theirs ≡ at p base → visible (at p r) ≡ visible (at p ours))
      × (at p ours ≡ at p theirs → visible (at p r) ≡ visible (at p ours))

-- `f` merges faithfully where it reports no conflict.
abbrev Merges : Merger → Type 0
Merges f =
    (path : List ℕ) (base ours theirs r : Option Raw)
    → f path base ours theirs ≡ some (r, [])
    → Faithful base ours theirs r

visible-or_null :
    (p : List Key) (v : Option Raw) → visible (at p (some (or_null v))) ≡ visible (at p v)
unfolding visible find_key raw_eq key_eq
visible-or_null [] none = refl
visible-or_null (k ∷ p) none = refl
visible-or_null p (some v) = refl

-- What one side left alone, and what both agree on, at a path below key `k` of three maps.
abbrev pub FaithfulAt : RawMap → RawMap → RawMap → Option Raw → Key → List Key → Type 0
FaithfulAt b o t r k p =
    (at p (find_key k o) ≡ at p (find_key k b)
      → visible (at (k ∷ p) r) ≡ visible (at p (find_key k t)))
    × (at p (find_key k t) ≡ at p (find_key k b)
        → visible (at (k ∷ p) r) ≡ visible (at p (find_key k o)))
    × (at p (find_key k o) ≡ at p (find_key k t)
        → visible (at (k ∷ p) r) ≡ visible (at p (find_key k o)))

-- An object that is merged field by field.
pub merge_objects-FaithfulAt :
    (f : Merger) (path : List ℕ) (b o t : RawMap) (m : List (Key × Option Raw))
    → Merges f
    → merge_objects f path b o t ≡ some (m, [])
    → (k : Key) (p : List Key) → FaithfulAt b o t (some (obj (from_map m))) k p
unfolding merge_objects
merge_objects-FaithfulAt f path b o t m good h k p =
    elim (Bool-cases (has_key k (all_keys b o t))) [
      | inl there ↦
          let q = merge_keys-Part f path b o t (all_keys b o t) m [] k h there in
          let part =
            q.is_part ∙ ap (λ (cs : List FieldConflict). some (q.value, cs)) (q.clean refl) in
          let inner =
            good (under path k) (find_key k b) (find_key k o) (find_key k t) q.value part p in
          let step : visible (at p (find_key k (to_map (from_map m)))) ≡ visible (at p q.value) =
            ap (λ (x : Option Raw). visible (at p x)) q.found ∙ visible-or_null p q.value in
          (λ e. step ∙ inner.0 e, λ e. step ∙ inner.1 e, λ e. step ∙ inner.2 e)
      | inr absent ↦
          let none_of = absent_keys k b o t absent in
          let gone = merge_keys-absent f path b o t (all_keys b o t) m [] k h absent in
          rw (gone, none_of.1, none_of.2) (λ e. refl, λ e. refl, λ e. refl)
    ]

object-Faithful :
    (f : Merger) (path : List ℕ) (base ours theirs : Option Raw) (m : List (Key × Option Raw))
    → Merges f
    → ours ≢ base
    → theirs ≢ base
    → ours ≢ theirs
    → merge_objects f path (fields_of base) (fields_of ours) (fields_of theirs) ≡ some (m, [])
    → Faithful base ours theirs (some (obj (from_map m)))
object-Faithful f path base ours theirs m good ne_ours ne_theirs ne_sides h [] =
    (λ e. absurd (ne_ours e), λ e. absurd (ne_theirs e), λ e. absurd (ne_sides e))
object-Faithful f path base ours theirs m good ne_ours ne_theirs ne_sides h (k ∷ p) =
    merge_objects-FaithfulAt f path (fields_of base) (fields_of ours) (fields_of theirs) m good h k
      p

vis : (p : List Key) (a b : Option Raw) → a ≡ b → visible (at p a) ≡ visible (at p b)
vis p a b e = ap (λ (x : Option Raw). visible (at p x)) e

-- A side that left the base alone gives way to the other.
theirs-Faithful : (base ours theirs : Option Raw) → ours ≡ base → Faithful base ours theirs theirs
theirs-Faithful base ours theirs e p =
    (λ _. refl, λ e'. ap visible e' ∙ sym (vis p ours base e), λ e'. ap visible (sym e'))

ours-Faithful : (base ours theirs : Option Raw) → theirs ≡ base → Faithful base ours theirs ours
ours-Faithful base ours theirs e p =
    (λ e'. ap visible e' ∙ sym (vis p theirs base e), λ _. refl, λ _. refl)

agreed-Faithful : (base ours theirs : Option Raw) → ours ≡ theirs → Faithful base ours theirs ours
agreed-Faithful base ours theirs e p = (λ _. vis p ours theirs e, λ _. refl, λ _. refl)

as_object-some :
    (x : Merging (List (Key × Option Raw))) (r : Option Raw) (cs : List FieldConflict)
    → as_object x ≡ some (r, cs)
    → (m : List (Key × Option Raw)) × (x ≡ some (m, cs)) × (some (obj (from_map m)) ≡ r)
as_object-some none r cs h = cc
as_object-some (some (m, ds)) r cs h = (m, ground (arith, h), ground (arith, h))

-- In a merge without conflict each path holds what the sides ask for: the value of the other side
-- where one side left the base's value alone, and the common value where both agree, with a `null`
-- read as absent. So no change of one side is lost.
pub merge_value-Faithful :
    (n : ℕ) (path : List ℕ) (base ours theirs r : Option Raw)
    → merge_value n path base ours theirs ≡ some (r, [])
    → Faithful base ours theirs r
unfolding merge_value
merge_value-Faithful zero path base ours theirs r h = cc
merge_value-Faithful (suc n) path base ours theirs r h = elim (Bool-cases (same ours base)) [
  | inl is ↦
      subst (Faithful base ours theirs) (ground (arith, h, is))
        (theirs-Faithful base ours theirs (same-eq ours base is))
  | inr ne_ours ↦ elim (Bool-cases (same theirs base)) [
    | inl is ↦
        subst (Faithful base ours theirs) (ground (arith, h, ne_ours, is))
          (ours-Faithful base ours theirs (same-eq theirs base is))
    | inr ne_theirs ↦ elim (Bool-cases (same ours theirs)) [
      | inl is ↦
          subst (Faithful base ours theirs) (ground (arith, h, ne_ours, ne_theirs, is))
            (agreed-Faithful base ours theirs (same-eq ours theirs is))
      | inr ne_sides ↦
          let nested =
            merge_objects (merge_value n) path (fields_of base) (fields_of ours)
              (fields_of theirs) in
          let built : as_object nested ≡ some (r, []) =
            ground (arith, h, ne_ours, ne_theirs, ne_sides) in
          let (m, is_merge, is_r) = as_object-some nested r [] built in
          subst (Faithful base ours theirs) is_r (
            object-Faithful (merge_value n) path base ours theirs m (merge_value-Faithful n)
              (not_same ours base ne_ours) (not_same theirs base ne_theirs)
              (not_same ours theirs ne_sides) is_merge)
    ]
  ]
]

-- The name of a path below `path`.
abbrev pub named : List ℕ → List Key → List ℕ
named path [] = path
named path (k ∷ p) = named (under path k) p

-- The conflict `c` stands for path `p`: it has its name and its values, both sides changed the base
-- there, and not alike, and they are not all objects.
pub record Real (path : List ℕ) (base ours theirs : Option Raw) (c : FieldConflict) (p : List Key)
    : Type 0 where
  pub name : c.key ≡ named path p
  pub base_value : c.base ≡ at p base
  pub ours_value : c.ours ≡ at p ours
  pub theirs_value : c.theirs ≡ at p theirs
  pub ours_changed : at p ours ≢ at p base
  pub theirs_changed : at p theirs ≢ at p base
  pub sides_differ : at p ours ≢ at p theirs
  pub leaf : all_objects (at p base) (at p ours) (at p theirs) ≡ false

step_down :
    (path : List ℕ) (k : Key) (base ours theirs : Option Raw) (c : FieldConflict) (p : List Key)
    → Real
        (under path k)
        (find_key k (fields_of base))
        (find_key k (fields_of ours))
        (find_key k (fields_of theirs))
        c
        p
    → Real path base ours theirs c (k ∷ p)
step_down path k base ours theirs c p r = record {
  name = r.name;
  base_value = r.base_value;
  ours_value = r.ours_value;
  theirs_value = r.theirs_value;
  ours_changed = r.ours_changed;
  theirs_changed = r.theirs_changed;
  sides_differ = r.sides_differ;
  leaf = r.leaf;
}

leaf_Real :
    (path : List ℕ) (base ours theirs : Option Raw) (c : FieldConflict)
    → (same ours base || (same theirs base || same ours theirs)) ≡ false
    → all_objects base ours theirs ≡ false
    → In c (record { key = path; base = base; ours = ours; theirs = theirs } ∷ [])
    → Real path base ours theirs c []
leaf_Real path base ours theirs c apart leaf (inr h) = absurd h
leaf_Real path base ours theirs c apart leaf (inl is) = record {
  name = ap (λ (x : FieldConflict). x.key) (sym is);
  base_value = ap (λ (x : FieldConflict). x.base) (sym is);
  ours_value = ap (λ (x : FieldConflict). x.ours) (sym is);
  theirs_value = ap (λ (x : FieldConflict). x.theirs) (sym is);
  ours_changed = not_same ours base (ground (arith, apart));
  theirs_changed = not_same theirs base (ground (arith, apart));
  sides_differ = not_same ours theirs (ground (arith, apart));
  leaf = leaf;
}

-- Each conflict stands for a path at which both sides changed the base, and not alike.
pub merge_value-Real :
    (n : ℕ) (path : List ℕ) (base ours theirs r : Option Raw) (cs : List FieldConflict)
    (c : FieldConflict)
    → merge_value n path base ours theirs ≡ some (r, cs)
    → In c cs
    → (p : List Key) × Real path base ours theirs c p
unfolding merge_value merge_objects
merge_value-Real zero path base ours theirs r cs c h there = cc
merge_value-Real (suc n) path base ours theirs r cs c h there =
    elim (Bool-cases (same ours base || (same theirs base || same ours theirs))) [
      | inl clean ↦
          let nothing : [] ≡ cs = ground (arith, h, clean) in absurd (rw (← nothing) at there)
      | inr apart ↦ elim (Bool-cases (all_objects base ours theirs)) [
        | inr leaf ↦
            let only : record { key = path; base = base; ours = ours; theirs = theirs } ∷ [] ≡ cs =
              ground (arith, h, apart, leaf) in
            ([], leaf_Real path base ours theirs c apart leaf (rw (← only) at there))
        | inl objects ↦
            let nested =
              merge_objects (merge_value n) path (fields_of base) (fields_of ours)
                (fields_of theirs) in
            let (m, is_merge, is_r) =
              as_object-some nested r cs (ground (arith, h, apart, objects)) in
            let (k, v, ds, part, below) =
              merge_keys-In (merge_value n) path (fields_of base) (fields_of ours)
                (fields_of theirs) (all_keys (fields_of base) (fields_of ours) (fields_of theirs)) m
                cs c is_merge there in
            let (p, real) =
              merge_value-Real n (under path k) (find_key k (fields_of base))
                (find_key k (fields_of ours)) (find_key k (fields_of theirs)) v ds c part below in
            (k ∷ p, step_down path k base ours theirs c p real)
      ]
    ]
