-- ===== src/Merge/Json.antt =====
-- internal/merge/merge.go: the JSON texts, `json.RawMessage`. A text is its syntax tree without
-- white space, as `json.Marshal` and `JSON.stringify` write it: a scalar or an array by its bytes,
-- an object by its fields in order.
use Prim.Native.Nat.{max}
use zt_data_sync.Merge.Keys.{Key, key_eq, find_key, eq_of_key_eq}
use zt_data_sync.Prelude.{
  ℕ, [], ◌∷◌, ◌++◌, ◌&&◌, Bool, List, Option, some, none, true, false, if◌then◌else◌, ltb, ◌==◌,
  ◌+◌, ◌/◌, ◌%◌, suc, ◌≡◌, arith,
}

mutual
  pub data Raw : Type 0 where
    text : List ℕ → Raw
    obj : Fields → Raw

  pub data Fields : Type 0 where
    end : Fields
    field : List ℕ → Raw → Fields → Fields

abbrev pub null : Raw
null = text (b'n' ∷ b'u' ∷ b'l' ∷ b'l' ∷ [])

unfoldable mutual
  pub raw_eq : Raw → Raw → Bool
  raw_eq (text a) (text b) = key_eq a b
  raw_eq (text a) (obj g) = false
  raw_eq (obj f) (text b) = false
  raw_eq (obj f) (obj g) = fields_eq f g

  pub fields_eq : Fields → Fields → Bool
  fields_eq end end = true
  fields_eq end (field k y g) = false
  fields_eq (field j x f) end = false
  fields_eq (field j x f) (field k y g) = key_eq j k && (raw_eq x y && fields_eq f g)

abbrev pub RawMap : Type 0
RawMap = List (Key × Raw)

abbrev add_first : Key → Raw → RawMap → RawMap
add_first k v m = elim (find_key k m) [ none ↦ (k, v) ∷ m | some w ↦ m ]

-- Of two fields with one key the later one counts.
unfoldable pub to_map : Fields → RawMap
to_map end = []
to_map (field k v f) = add_first k v (to_map f)

-- A `null` reads as a map without keys; any other text that is no object is an error.
unfoldable pub parse_object : Raw → Option RawMap
parse_object (obj f) = some (to_map f)
parse_object (text a) = if key_eq a (b'n' ∷ b'u' ∷ b'l' ∷ b'l' ∷ []) then some [] else none

-- An absent value is written as `null`.
abbrev pub or_null : Option Raw → Raw
or_null none = null
or_null (some v) = v

-- The object of a map, in the order of the list.
unfoldable pub from_map : List (Key × Option Raw) → Fields
from_map [] = end
from_map ((k, v) ∷ m) = field k (or_null v) (from_map m)

abbrev hex : ℕ → ℕ
hex n = if ltb n 10 then b'0' + n else 87 + n

-- A byte in a JSON string, with `SetEscapeHTML(false)`.
unfoldable pub escape : ℕ → List ℕ
escape c =
    if c == b'"'
    then b'\\' ∷ b'"' ∷ []
    else if c == b'\\'
    then b'\\' ∷ b'\\' ∷ []
    else if c == 10
    then b'\\' ∷ b'n' ∷ []
    else if c == 13
    then b'\\' ∷ b'r' ∷ []
    else if c == 9
    then b'\\' ∷ b't' ∷ []
    else if c == 8
    then b'\\' ∷ b'b' ∷ []
    else if c == 12
    then b'\\' ∷ b'f' ∷ []
    else if ltb c 32
    then b'\\' ∷ b'u' ∷ b'0' ∷ b'0' ∷ hex (c / 16) ∷ hex (c % 16) ∷ []
    else c ∷ []

unfoldable pub escape_all : List ℕ → List ℕ
escape_all [] = []
escape_all (c ∷ cs) = escape c ++ escape_all cs

unfoldable pub quote : List ℕ → List ℕ
quote s = b'"' ∷ (escape_all s ++ b'"' ∷ [])

abbrev pub comma_after : Fields → List ℕ
comma_after end = []
comma_after (field k v f) = b',' ∷ []

unfoldable mutual
  pub render : Raw → List ℕ
  render (text a) = a
  render (obj f) = b'{' ∷ (render_fields f ++ b'}' ∷ [])

  pub render_fields : Fields → List ℕ
  render_fields end = []
  render_fields (field k v f) = quote k ++ (b':' ∷ (render v ++ (comma_after f ++ render_fields f)))

unfoldable mutual
  -- How deep objects are nested.
  pub depth : Raw → ℕ
  depth (text a) = 0
  depth (obj f) = suc (depth_fields f)

  pub depth_fields : Fields → ℕ
  depth_fields end = 0
  depth_fields (field k v f) = max (depth v) (depth_fields f)

-- A later field of the key comes first.
pub find_key-field :
    (j k : Key) (v : Raw) (f : Fields)
    → find_key j (to_map (field k v f)) ≡ elim (find_key j (to_map f)) [
      | none ↦ if key_eq k j then some v else none
      | some w ↦ some w
    ]
unfolding to_map find_key
find_key-field j k v f = ground (arith, eq_of_key_eq k j)
