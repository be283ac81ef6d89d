-- ===== src/Value.antt =====
-- rpc.hpp: `Value`, the arguments and results of RPC calls, and `Message`, what an endpoint receives.
pub mod Json
pub mod Wire
pub mod Print
use Prim.Native.String.{len}
use arduino_q_plugin.Common.{
  ℕ, suc, ◌-◌, ◌^◌, ◌<◌, String, Bool, true, false, Option, none, some, ltb, if◌then◌else◌,
}
use arduino_q_plugin.Common.Int.{ℤ, pos, negsuc, IsInt64}
use arduino_q_plugin.Common.Result.{Result, ok, throw, out_of_range}

-- `std::variant<std::monostate, bool, int64_t, double, std::string, array_type>`; a `double` is the
-- number whose binary digits are its 64 bits.
mutual
  pub data Value : Type 0 where
    monostate : Value
    bool : Bool → Value
    int64 : ℤ → Value
    double : ℕ → Value
    string : String → Value
    array : Values → Value

  pub data Values : Type 0 where
    no_values : Values
    value : Value → Values → Values

abbrev pub size : Values → ℕ
size no_values = 0
size (value v vs) = suc (size vs)

-- What the C++ types hold: integers of 64 bits, and the sizes that a msgpack header can carry.
unfoldable mutual
  pub IsValid : Value → Type 0
  IsValid monostate = Unit
  IsValid (bool b) = Unit
  IsValid (int64 z) = IsInt64 z
  IsValid (double d) = Unit
  IsValid (string s) = len s < 2 ^ 32
  IsValid (array vs) = (size vs < 2 ^ 32) × AreValid vs

  pub AreValid : Values → Type 0
  AreValid no_values = Unit
  AreValid (value v vs) = IsValid v × AreValid vs

-- The constructor from an unsigned integer type: `checked_integer`.
pub checked_integer : ℕ → Result ℤ
checked_integer n =
    if ltb (2 ^ 63 - 1) n
    then throw (out_of_range "integer value is out of int64_t range")
    else ok (pos n)

-- The constructor from `const char *`, where `none` is a null pointer.
pub of_c_string : Option String → Value
of_c_string none = monostate
of_c_string (some s) = Value.string s

pub data MessageType : Type 0 where
  request notification : MessageType

pub record Message : Type 0 where
  pub type : MessageType
  pub msgid : ℕ
  pub method : String
  pub args : Values

unfoldable pub expects_response : Message → Bool
expects_response m = elim m.type [ request ↦ true | notification ↦ false ]
