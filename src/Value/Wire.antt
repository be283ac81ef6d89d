-- ===== src/Value/Wire.antt =====
-- rpc.cpp: `pack_array`, `pack_value`, `object_to_debug_string`, `object_to_value` and
-- `object_to_values`.
pub mod Laws
use arduino_q_plugin.Common.{ℕ, ◌-◌, ◌%◌, ◌^◌, String, List, [], ◌++◌, ltb, if◌then◌else◌, ◌<>◌}
use arduino_q_plugin.Common.Int.{ℤ, pos, negsuc}
use arduino_q_plugin.Common.Result.{Result, ok, throw, runtime_error, ◌>>=◌}
use arduino_q_plugin.Msgpack.{Object, Objects, Msgpack}
use arduino_q_plugin.Value.{Value, Values, size}

module _ (mp : Msgpack) where
  -- The size of the header is cast to `uint32_t`.
  unfoldable mutual
    pub pack_value : Value → List mp.Byte
    pack_value Value.monostate = mp.pack_nil
    pack_value (Value.bool b) = mp.pack_bool b
    pack_value (Value.int64 z) = mp.pack_int z
    pack_value (Value.double d) = mp.pack_double d
    pack_value (Value.string s) = mp.pack_str s
    pack_value (Value.array vs) = mp.pack_array (size vs % 2 ^ 32) ++ pack_each vs

    pub pack_each : Values → List mp.Byte
    pack_each Values.no_values = []
    pack_each (Values.value v vs) = pack_value v ++ pack_each vs

  unfoldable pub pack_array : Values → List mp.Byte
  unfolding pack_value
  pack_array vs = mp.pack_array (size vs % 2 ^ 32) ++ pack_each vs

  unfoldable pub object_to_debug_string : Object → String
  object_to_debug_string (Object.str s) = s
  object_to_debug_string o = mp.debug o

  unsupported : Object → Result Value
  unsupported o =
      throw (runtime_error ("Unsupported RPC result type: " <> object_to_debug_string o))

  unfoldable mutual
    unfolding unsupported

    pub object_to_value : Object → Result Value
    object_to_value Object.nil = ok Value.monostate
    object_to_value (Object.boolean b) = ok (Value.bool b)
    object_to_value (Object.positive_integer n) =
        if ltb (2 ^ 63 - 1) n
        then throw (runtime_error "RPC integer result is out of int64_t range")
        else ok (Value.int64 (pos n))
    object_to_value (Object.negative_integer n) = ok (Value.int64 (negsuc n))
    object_to_value (Object.float32 d) = ok (Value.double d)
    object_to_value (Object.float64 d) = ok (Value.double d)
    object_to_value (Object.str s) = ok (Value.string s)
    object_to_value (Object.array os) = elements_to_values os >>= λ vs. ok (Value.array vs)
    object_to_value (Object.other n) = unsupported (Object.other n)

    pub elements_to_values : Objects → Result Values
    elements_to_values Objects.no_objects = ok Values.no_values
    elements_to_values (Objects.element o os) =
        object_to_value o >>= λ v. elements_to_values os >>= λ vs. ok (Values.value v vs)

  unfoldable pub object_to_values : Object → Result Values
  unfolding object_to_value
  object_to_values (Object.array os) = elements_to_values os
  object_to_values o = throw (runtime_error "RPC parameters must be an array")
