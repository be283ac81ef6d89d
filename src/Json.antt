-- ===== src/Json.antt =====
-- The documents that the sources handle: the kinds of nlohmann::json values, with what the sources
-- ask of that library as a parameter. An object is its fields, at most one for each key; its order
-- is of no account here, and a `double` is the number whose binary digits are its 64 bits.
pub mod Laws
use arduino_q_plugin.Common.{ℕ, String, Bool, true, Option, none, some, ◌≡◌, if◌then◌else◌}
use arduino_q_plugin.Common.Int.{ℤ, cast_int64}
use arduino_q_plugin.Common.Result.{Result, ok, throw, json_error}
use text.Mathlib.Text.{◌==◌ as text_eq}

mutual
  pub data Json : Type 0 where
    null : Json
    boolean : Bool → Json
    number_integer : ℤ → Json
    number_unsigned : ℕ → Json
    number_float : ℕ → Json
    string : String → Json
    array : Items → Json
    object : Fields → Json
    binary : Json

  pub data Items : Type 0 where
    no_items : Items
    item : Json → Items → Items

  pub data Fields : Type 0 where
    no_fields : Fields
    field : String → Json → Fields → Fields

-- What the sources use of nlohmann::json beyond the kinds and the fields of a value.
-- `json_text` is the text of an exception of the library, whose wording is its own; `get_size` is
-- `get<size_t>`, which throws for none.
pub record JsonLib : Type 0 where
  pub is_number_integer : Json → Bool
  pub get_int64 : Json → ℤ
  pub json_text : Json → String
  pub get_size : Json → Option ℕ
  pub merge_patch : Fields → Json → Fields

-- As documented: `is_number_integer` holds for signed and for unsigned integers, and `get` casts.
pub record JsonLaws (lib : JsonLib) : Type 0 where
  pub integer_kind : (z : ℤ) → lib.is_number_integer (Json.number_integer z) ≡ true
  pub unsigned_kind : (n : ℕ) → lib.is_number_integer (Json.number_unsigned n) ≡ true
  pub get_integer : (z : ℤ) → lib.get_int64 (Json.number_integer z) ≡ z
  pub get_unsigned : (n : ℕ) → lib.get_int64 (Json.number_unsigned n) ≡ cast_int64 n

-- `operator[]` for reading, and `contains`: a key of an object, and nothing elsewhere.
unfoldable pub find_field : String → Fields → Option Json
find_field k no_fields = none
find_field k (field j v fs) = if text_eq j k then some v else find_field k fs

unfoldable pub get_field : String → Json → Option Json
unfolding find_field
get_field k (object fs) = find_field k fs
get_field k _ = none

-- `j.value(key, fallback)` for a text: a key that is missing gives the fallback, and a value of another
-- kind is refused, as is a `j` that is not an object.
unfoldable pub value_text : JsonLib → String → String → Json → Result String
value_text lib key fallback (object fs) = elim (find_field key fs) [
  | none ↦ ok fallback
  | some (Json.string text) ↦ ok text
  | some j ↦ throw (json_error (lib.json_text j))
]
value_text lib key fallback j = throw (json_error (lib.json_text j))

-- `operator[]` for writing: the key's value is replaced, or the key is added.
unfoldable pub set_field : String → Json → Fields → Fields
set_field k v no_fields = field k v no_fields
set_field k v (field j w fs) = if text_eq j k then field j v fs else field j w (set_field k v fs)
