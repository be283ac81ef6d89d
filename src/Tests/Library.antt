-- ===== src/Tests/Library.antt =====
-- The token format meets the assumptions on the msgpack library, and a JSON library meets its own.
use arduino_q_plugin.Common.{
  ℕ, ◌+◌, ◌*◌, ◌^◌, ◌<◌, String, ◌≡◌, refl, ap, Bool, true, false, Option, none, some, List, [],
  ◌∷◌, ◌++◌, arith, length, length-append, take, ltb, lt→ltb, if◌then◌else◌,
}
use arduino_q_plugin.Common.Int.{ℤ, pos, negsuc, cast_int64}
use arduino_q_plugin.Common.Result.{msgpack_error}
use arduino_q_plugin.Json.{Fields, set_field, Json, JsonLib, JsonLaws}
use arduino_q_plugin.Msgpack.{
  Object, Objects, size, incomplete, message, Msgpack, WireLaws, CastLaws, encode_all,
}
use arduino_q_plugin.Tests.Codec.{Token, tokens, all_tokens, parse, decode, finish, reads}
use arduino_q_plugin.Tests.Parsing.{cut, parse_shrinks}

abbrev pub as_int : Object → Option ℤ
as_int (Object.positive_integer n) = if ltb n (2 ^ 31) then some (pos n) else none
as_int (Object.negative_integer n) = some (negsuc n)
as_int _ = none

abbrev pub as_uint32 : Object → Option ℕ
as_uint32 (Object.positive_integer n) = if ltb n (2 ^ 32) then some n else none
as_uint32 _ = none

abbrev pub as_string : Object → Option String
as_string (Object.str s) = some s
as_string _ = none

abbrev pub token_lib : Msgpack
token_lib = record {
  Byte = Token;
  pack_nil = Token.nil ∷ [];
  pack_bool = λ b. Token.bool b ∷ [];
  pack_int = λ z. Token.int z ∷ [];
  pack_double = λ d. Token.double d ∷ [];
  pack_str = λ s. Token.str s ∷ [];
  pack_array = λ n. Token.header n ∷ [];
  encode = tokens;
  decode = decode;
  as_int = as_int;
  as_uint32 = as_uint32;
  as_string = as_string;
  bad_cast = msgpack_error "std::bad_cast";
  debug = λ o. "object";
}

encode_all-tokens : (os : Objects) → all_tokens os ≡ encode_all token_lib os
unfolding tokens encode_all
encode_all-tokens Objects.no_objects = refl
encode_all-tokens (Objects.element o os) = ap (λ ts. tokens o ++ ts) (encode_all-tokens os)

decode_tokens : (o : Object) (rest : List Token) → decode (tokens o ++ rest) ≡ message o rest
unfolding decode
decode_tokens o rest = rw (
    reads o (2 * length (tokens o ++ rest) + 1) rest (omega (arith, length-append (tokens o) rest)))

decode_cut : (o : Object) (k : ℕ) → k < length (tokens o) → decode (take k (tokens o)) ≡ incomplete
unfolding decode
decode_cut o k h = rw (cut o (2 * length (take k (tokens o)) + 1) k h)

decode_shrinks :
    (b rest : List Token) (o : Object) → decode b ≡ message o rest → length rest < length b
unfolding decode
decode_shrinks b rest o e = finished (parse (2 * length b + 1) b) refl e
  where
    finished :
        (p : Option (Object × List Token))
        → parse (2 * length b + 1) b ≡ p
        → finish p ≡ message o rest
        → length rest < length b
    finished none e' h = cc
    finished (some (o', rest')) e' h =
        let same : rest' ≡ rest = cc in omega (arith, parse_shrinks _ b rest' o' e', ap length same)

pub token_laws : WireLaws token_lib
unfolding tokens
token_laws = record {
  encode_nil = refl;
  encode_bool = λ b. refl;
  encode_pos = λ n. refl;
  encode_neg = λ n. refl;
  encode_double = λ d. refl;
  encode_str = λ s. refl;
  encode_array = λ os. ap (λ ts. Token.header (size os) ∷ ts) (encode_all-tokens os);
  decode_encode = λ o rest w. decode_tokens o rest;
  decode_prefix = λ o k w h. decode_cut o k h;
  decode_consumes = decode_shrinks;
}

as_int_inv : (o : Object) (n : ℕ) → as_int o ≡ some (pos n) → o ≡ Object.positive_integer n
as_int_inv (Object.positive_integer m) n e = ground arith
as_int_inv (Object.negative_integer m) n e = cc
as_int_inv _ n e = cc

as_uint32_inv : (o : Object) (n : ℕ) → as_uint32 o ≡ some n → o ≡ Object.positive_integer n
as_uint32_inv (Object.positive_integer m) n e = ground arith
as_uint32_inv _ n e = cc

as_int_pos : (n : ℕ) → n < 2 ^ 31 → as_int (Object.positive_integer n) ≡ some (pos n)
as_int_pos n h = rw (lt→ltb n (2 ^ 31) h)

as_uint32_pos : (n : ℕ) → n < 2 ^ 32 → as_uint32 (Object.positive_integer n) ≡ some n
as_uint32_pos n h = rw (lt→ltb n (2 ^ 32) h)

pub token_casts : CastLaws token_lib
token_casts = record {
  as_int_pos = as_int_pos;
  as_int_inv = as_int_inv;
  as_uint32_pos = as_uint32_pos;
  as_uint32_inv = as_uint32_inv;
  as_string_str = λ s. refl;
}

abbrev is_number_integer : Json → Bool
is_number_integer (Json.number_integer z) = true
is_number_integer (Json.number_unsigned n) = true
is_number_integer _ = false

abbrev get_int64 : Json → ℤ
get_int64 (Json.number_integer z) = z
get_int64 (Json.number_unsigned n) = cast_int64 n
get_int64 _ = pos 0

abbrev get_size : Json → Option ℕ
get_size (Json.number_unsigned n) = some n
get_size j = none

-- The patch's members replace those of the same name; none is removed.
abbrev merge_patch : Fields → Json → Fields
merge_patch fs (Json.object patch) = merged fs patch
  where
    merged : Fields → Fields → Fields
    merged fs Fields.no_fields = fs
    merged fs (Fields.field k v rest) = merged (set_field k v fs) rest
merge_patch fs _ = fs

abbrev pub json_lib : JsonLib
json_lib = record {
  is_number_integer = is_number_integer;
  get_int64 = get_int64;
  json_text = λ j. "type";
  get_size = get_size;
  merge_patch = merge_patch;
}

pub json_laws : JsonLaws json_lib
json_laws = record {
  integer_kind = λ z. refl;
  unsigned_kind = λ n. refl;
  get_integer = λ z. refl;
  get_unsigned = λ n. refl;
}
