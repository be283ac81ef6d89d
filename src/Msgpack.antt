-- ===== src/Msgpack.antt =====
-- msgpack::object as rpc.cpp and dummy.cpp read it, and what they use of the msgpack library.
use Prim.Native.String.{len}
use arduino_q_plugin.Common.{
  ℕ, suc, ◌^◌, ◌<◌, String, Bool, Option, none, some, List, [], ◌++◌, ◌≡◌, length, take,
}
use arduino_q_plugin.Common.Int.{ℤ, pos, negsuc}
use arduino_q_plugin.Common.Result.{Result, ok, throw, Exception}

-- The tags of msgpack::type. `negative_integer n` is -(n + 1); `other` stands for BIN, EXT and MAP.
mutual
  pub data Object : Type 0 where
    nil : Object
    boolean : Bool → Object
    positive_integer : ℕ → Object
    negative_integer : ℕ → Object
    float32 : ℕ → Object
    float64 : ℕ → Object
    str : String → Object
    array : Objects → Object
    other : ℕ → Object

  pub data Objects : Type 0 where
    no_objects : Objects
    element : Object → Objects → Objects

abbrev pub size : Objects → ℕ
size no_objects = 0
size (element o os) = suc (size os)

-- `msgpack::unpacker::next` on the bytes that no earlier call has returned.
pub data Decoded (Byte : Type 0) : Type 0 where
  incomplete : Decoded Byte
  message : Object → List Byte → Decoded Byte
  malformed : Exception → Decoded Byte

-- The packer appends bytes; `pack_array n` is the header of an array of `n` elements. `encode` is
-- what the library packs for a whole object. `as_int`, `as_uint32` and `as_string` are the
-- conversions `as<T>`, which throw `bad_cast` on another type. `debug` is `operator<<`.
pub record Msgpack : Type 1 where
  pub Byte : Type 0
  pub pack_nil : List Byte
  pub pack_bool : Bool → List Byte
  pub pack_int : ℤ → List Byte
  pub pack_double : ℕ → List Byte
  pub pack_str : String → List Byte
  pub pack_array : ℕ → List Byte
  pub encode : Object → List Byte
  pub decode : List Byte → Decoded Byte
  pub as_int : Object → Option ℤ
  pub as_uint32 : Object → Option ℕ
  pub as_string : Object → Option String
  pub bad_cast : Exception
  pub debug : Object → String

unfoldable pub encode_all : (mp : Msgpack) → Objects → List mp.Byte
encode_all mp no_objects = []
encode_all mp (element o os) = mp.encode o ++ encode_all mp os

-- What the format can carry.
unfoldable mutual
  pub IsWire : Object → Type 0
  IsWire nil = Unit
  IsWire (boolean b) = Unit
  IsWire (positive_integer n) = n < 2 ^ 64
  IsWire (negative_integer n) = n < 2 ^ 63
  IsWire (float32 d) = Unit
  IsWire (float64 d) = Unit
  IsWire (str s) = len s < 2 ^ 32
  IsWire (array os) = (size os < 2 ^ 32) × AreWire os
  IsWire (other n) = Unit

  pub AreWire : Objects → Type 0
  AreWire no_objects = Unit
  AreWire (element o os) = IsWire o × AreWire os

-- `as<T>`: the value, or the exception.
abbrev pub cast : {A : Type 0} → Msgpack → Option A → Result A
cast mp none = throw mp.bad_cast
cast mp (some a) = ok a

-- The msgpack format: an object's bytes are its header's and its elements', and the decoder reads an
-- object off the front of its bytes, and waits on
-- less than the whole of it. A message that is read takes some bytes away.
pub record WireLaws (mp : Msgpack) : Type 1 where
  pub encode_nil : mp.encode Object.nil ≡ mp.pack_nil
  pub encode_bool : (b : Bool) → mp.encode (Object.boolean b) ≡ mp.pack_bool b
  pub encode_pos : (n : ℕ) → mp.encode (Object.positive_integer n) ≡ mp.pack_int (pos n)
  pub encode_neg : (n : ℕ) → mp.encode (Object.negative_integer n) ≡ mp.pack_int (negsuc n)
  pub encode_double : (d : ℕ) → mp.encode (Object.float64 d) ≡ mp.pack_double d
  pub encode_str : (s : String) → mp.encode (Object.str s) ≡ mp.pack_str s
  pub encode_array :
      (os : Objects) → mp.encode (Object.array os) ≡ mp.pack_array (size os) ++ encode_all mp os
  pub decode_encode :
      (o : Object) (rest : List mp.Byte)
      → IsWire o
      → mp.decode (mp.encode o ++ rest) ≡ message o rest
  pub decode_prefix :
      (o : Object) (k : ℕ)
      → IsWire o
      → k < length (mp.encode o)
      → mp.decode (take k (mp.encode o)) ≡ incomplete
  pub decode_consumes :
      (b rest : List mp.Byte) (o : Object) → mp.decode b ≡ message o rest → length rest < length b

-- `as<int>`, `as<uint32_t>` and `as<std::string>` give the number or text that an object holds.
pub record CastLaws (mp : Msgpack) : Type 1 where
  pub as_int_pos : (n : ℕ) → n < 2 ^ 31 → mp.as_int (Object.positive_integer n) ≡ some (pos n)
  pub as_int_inv : (o : Object) (n : ℕ) → mp.as_int o ≡ some (pos n) → o ≡ Object.positive_integer n
  pub as_uint32_pos : (n : ℕ) → n < 2 ^ 32 → mp.as_uint32 (Object.positive_integer n) ≡ some n
  pub as_uint32_inv : (o : Object) (n : ℕ) → mp.as_uint32 o ≡ some n → o ≡ Object.positive_integer n
  pub as_string_str : (s : String) → mp.as_string (Object.str s) ≡ some s
