-- ===== src/Json.antt =====
-- JSON values, and `json.dumps(value, ensure_ascii=False, separators=(",", ":"), sort_keys=True)`:
-- the canonical text that the stores hash. Numbers are the naturals; no float is written there.
use workflow_helper_public.Base.{
  ℕ, ◌+◌, ◌-◌, ◌/◌, ◌%◌, Bool, true, false, ◌&&◌, [], ◌∷◌, ◌++◌, Option, none, some, ltb, ◌==◌,
  if◌then◌else◌,
}
use workflow_helper_public.Text.{Text, codes, text_eq}
use workflow_helper_public.Text.Order.{text_lt}
use workflow_helper_public.Text.Decimal.{print}

mutual
  pub data Json : Type 0 where
    null : Json
    boolean : Bool → Json
    number : ℕ → Json
    text : Text → Json
    array : Items → Json
    object : Fields → Json

  pub data Items : Type 0 where
    nil : Items
    cons : Json → Items → Items

  pub data Fields : Type 0 where
    end : Fields
    field : Text → Json → Fields → Fields

hex_digit : ℕ → ℕ
hex_digit n = if ltb n 10 then b'0' + n else b'a' + n % 10

-- One character of a string, escaped.
escape : ℕ → Text
unfolding hex_digit
escape c =
    if c == 34
    then codes "\\\""
    else if c == 92
    then codes "\\\\"
    else if c == 10
    then codes "\\n"
    else if c == 13
    then codes "\\r"
    else if c == 9
    then codes "\\t"
    else if c == 8
    then codes "\\b"
    else if c == 12
    then codes "\\f"
    else if ltb c 32
    then codes "\\u00" ++ (hex_digit (c / 16) ∷ (hex_digit (c % 16) ∷ []))
    else c ∷ []

escape_all : Text → Text
unfolding escape
escape_all [] = []
escape_all (c ∷ s) = escape c ++ escape_all s

quote : Text → Text
unfolding escape_all
quote s = 34 ∷ (escape_all s ++ (34 ∷ []))

-- A field among sorted ones.
insert_field : Text → Json → Fields → Fields
insert_field key value end = field key value end
insert_field key value (field k v rest) =
    if text_lt k key
    then field k v (insert_field key value rest)
    else field key value (field k v rest)

-- The text of a value whose fields are in order, and the value with its fields in order.
mutual
  unfolding quote insert_field

  dumps_value : Json → Text
  dumps_value null = codes "null"
  dumps_value (boolean true) = codes "true"
  dumps_value (boolean false) = codes "false"
  dumps_value (number n) = print n
  dumps_value (text s) = quote s
  dumps_value (array items) = b'[' ∷ (dumps_items items ++ (b']' ∷ []))
  dumps_value (object fields) = b'{' ∷ (dumps_fields fields ++ (b'}' ∷ []))

  dumps_items : Items → Text
  dumps_items nil = []
  dumps_items (cons v nil) = dumps_value v
  dumps_items (cons v (cons w rest)) = dumps_value v ++ (b',' ∷ dumps_items (cons w rest))

  dumps_fields : Fields → Text
  dumps_fields end = []
  dumps_fields (field k v end) = quote k ++ (b':' ∷ dumps_value v)
  dumps_fields (field k v (field k' v' rest)) =
      quote k ++ (b':' ∷ (dumps_value v ++ (b',' ∷ dumps_fields (field k' v' rest))))

  sort_value : Json → Json
  sort_value null = null
  sort_value (boolean b) = boolean b
  sort_value (number n) = number n
  sort_value (text s) = text s
  sort_value (array items) = array (sort_items items)
  sort_value (object fields) = object (sort_fields fields)

  sort_items : Items → Items
  sort_items nil = nil
  sort_items (cons v rest) = cons (sort_value v) (sort_items rest)

  sort_fields : Fields → Fields
  sort_fields end = end
  sort_fields (field k v rest) = insert_field k (sort_value v) (sort_fields rest)

-- `json.loads(_canonical_json(fields))`: the same object, its keys in order at every level.
unfoldable pub loaded : Fields → Fields
unfolding sort_value
loaded fields = sort_fields fields

-- The same for any value.
unfoldable pub loaded_value : Json → Json
unfolding sort_value
loaded_value value = sort_value value

-- `value.get(name)`
unfoldable pub get_field : Text → Fields → Option Json
get_field name end = none
get_field name (field key value rest) = if text_eq key name then some value else get_field name rest

-- `name in value`
unfoldable pub has_field : Text → Fields → Bool
unfolding get_field
has_field name fields = elim (get_field name fields) [ none ↦ false | some value ↦ true ]

-- `value.get(name)`, where an absent name and a `null` are not told apart.
unfoldable pub field_or_null : Text → Fields → Json
unfolding get_field
field_or_null name fields = elim (get_field name fields) [ none ↦ null | some value ↦ value ]

-- `len(value)`
unfoldable pub field_count : Fields → ℕ
field_count end = 0
field_count (field key value rest) = field_count rest + 1

bit : Bool → ℕ
bit true = 1
bit false = 0

-- Two values compared: `True == 1` and `False == 0`; the order of an object's keys does not matter.
mutual
  unfolding has_field field_or_null field_count bit

  json_eq : Json → Json → Bool
  json_eq null null = true
  json_eq (boolean a) (boolean b) = bit a == bit b
  json_eq (boolean a) (number n) = bit a == n
  json_eq (number m) (boolean b) = m == bit b
  json_eq (number m) (number n) = m == n
  json_eq (text s) (text t) = text_eq s t
  json_eq (array xs) (array ys) = items_eq xs ys
  json_eq (object xs) (object ys) = field_count xs == field_count ys && fields_in xs ys
  json_eq _ _ = false

  items_eq : Items → Items → Bool
  items_eq nil nil = true
  items_eq (cons x xs) (cons y ys) = json_eq x y && items_eq xs ys
  items_eq _ _ = false

  fields_in : Fields → Fields → Bool
  fields_in end other = true
  fields_in (field key value rest) other =
      has_field key other && json_eq value (field_or_null key other) && fields_in rest other

-- `value == other`
unfoldable pub same_json : Json → Json → Bool
unfolding json_eq
same_json value other = json_eq value other

-- `_canonical_json`
unfoldable pub canonical_json : Json → Text
unfolding dumps_value sort_value
canonical_json value = dumps_value (sort_value value)

-- `\uXXXX` of a 16-bit unit.
unicode_escape : ℕ → Text
unfolding hex_digit
unicode_escape c =
    codes "\\u"
    ++ hex_digit (c / 4096)
      ∷ hex_digit (c / 256 % 16)
      ∷ hex_digit (c / 16 % 16)
      ∷ hex_digit (c % 16)
      ∷ []

-- What `ensure_ascii` makes of the same text; a character above 65535 is a surrogate pair.
unfoldable pub ascii_only : Text → Text
unfolding unicode_escape
ascii_only [] = []
ascii_only (c ∷ s) =
    let rest = ascii_only s in
    if ltb c 128
    then c ∷ rest
    else if ltb c 65536
    then unicode_escape c ++ rest
    else unicode_escape (55296 + (c - 65536) / 1024)
      ++ unicode_escape (56320 + (c - 65536) % 1024)
      ++ rest
