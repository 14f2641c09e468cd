-- ===== src/Merge/Equality.antt =====
-- `equalJSON` decides equality.
use zt_data_sync.Merge.Keys.{key_eq_refl, eq_of_key_eq}
use zt_data_sync.Merge.Json.{Raw, Fields, text, obj, field, end, raw_eq, fields_eq}
use zt_data_sync.Merge.{same}
use zt_data_sync.Prelude.{Option, some, none, true, false, ◌≡◌, ◌≢◌, refl, ap, arith}

mutual
  unfolding raw_eq

  raw_eq-eq : (a b : Raw) → raw_eq a b ≡ true → a ≡ b
  raw_eq-eq (text a) (text b) h = ground (arith, eq_of_key_eq a b, h)
  raw_eq-eq (text a) (obj g) h = cc
  raw_eq-eq (obj f) (text b) h = cc
  raw_eq-eq (obj f) (obj g) h = ap obj (fields_eq-eq f g h)

  fields_eq-eq : (f g : Fields) → fields_eq f g ≡ true → f ≡ g
  fields_eq-eq end end h = refl
  fields_eq-eq end (field k y g) h = cc
  fields_eq-eq (field j x f) end h = cc
  fields_eq-eq (field j x f) (field k y g) h =
      ground (arith, eq_of_key_eq j k, raw_eq-eq x y, fields_eq-eq f g, h)

mutual
  unfolding raw_eq

  raw_eq_refl : (a : Raw) → raw_eq a a ≡ true
  raw_eq_refl (text a) = key_eq_refl a
  raw_eq_refl (obj f) = fields_eq_refl f

  fields_eq_refl : (f : Fields) → fields_eq f f ≡ true
  fields_eq_refl end = refl
  fields_eq_refl (field j x f) = ground (arith, key_eq_refl j, raw_eq_refl x, fields_eq_refl f)

pub same-eq : (a b : Option Raw) → same a b ≡ true → a ≡ b
unfolding same
same-eq none none h = refl
same-eq none (some b) h = cc
same-eq (some a) none h = cc
same-eq (some a) (some b) h = ap some (raw_eq-eq a b h)

pub same_refl : (a : Option Raw) → same a a ≡ true
unfolding same
same_refl none = refl
same_refl (some a) = raw_eq_refl a

pub not_same : (a b : Option Raw) → same a b ≡ false → a ≢ b
not_same a b h e = absurd (ground (arith, e, h, same_refl b, ap (λ (x : Option Raw). same x b) e))
