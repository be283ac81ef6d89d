-- ===== src/Router/Echo.antt =====
-- dummy.cpp: what `echo` and `add` answer. `undefined` stands for undefined behaviour, at which the
-- model ends a run: `add` reads two elements without asking whether they are there, and adds two
-- `int`s. `show_int` and `show_double` are how a stream prints a number.
pub mod Total
use arduino_q_plugin.Common.{
  ℕ, ◌+◌, ◌-◌, ◌^◌, String, Bool, true, false, Option, none, some, List, ltb, leb, if◌then◌else◌,
  ◌<>◌,
}
use arduino_q_plugin.Common.Int.{ℤ, pos, negsuc}
use arduino_q_plugin.Common.Result.{Result, ok, throw, Exception, runtime_error, ◌>>=◌}
use arduino_q_plugin.Msgpack.{Object, Objects, Msgpack, cast}

-- Addition of `int`s, where it is defined.
unfoldable pub add_int : ℤ → ℤ → Option ℤ
add_int (pos a) (pos b) = if ltb (a + b) (2 ^ 31) then some (pos (a + b)) else none
add_int (negsuc a) (negsuc b) = if ltb (a + b + 1) (2 ^ 31) then some (negsuc (a + b + 1)) else none
add_int (pos a) (negsuc b) = some (if leb (b + 1) a then pos (a - (b + 1)) else negsuc (b - a))
add_int (negsuc a) (pos b) = some (if leb (a + 1) b then pos (b - (a + 1)) else negsuc (a - b))

module _ (show_int : ℤ → String) (show_double : ℕ → String) where
  unfoldable pub format_echo_arg : Object → Result String
  format_echo_arg (Object.boolean b) = ok ("bool: " <> (if b then "true" else "false"))
  format_echo_arg (Object.positive_integer n) =
      if ltb (2 ^ 63 - 1) n
      then throw (runtime_error "integer argument is out of int64_t range")
      else ok ("int64_t: " <> show_int (pos n))
  format_echo_arg (Object.negative_integer n) = ok ("int64_t: " <> show_int (negsuc n))
  format_echo_arg (Object.float32 d) = ok ("double: " <> show_double d)
  format_echo_arg (Object.float64 d) = ok ("double: " <> show_double d)
  format_echo_arg (Object.str s) = ok ("std::string: " <> s)
  format_echo_arg _ = throw (runtime_error "unsupported echo argument type")

  -- The loop of `format_echo_result`, at the start or further on.
  unfoldable pub format_echo_args : Bool → Objects → Result String
  format_echo_args first Objects.no_objects = ok ""
  format_echo_args first (Objects.element o os) = do
    text ← format_echo_arg o
    rest ← format_echo_args false os
    ok ((if first then "" else ", ") <> (text <> rest))

  unfoldable pub format_echo_result : Object → Result String
  unfolding format_echo_args
  format_echo_result (Object.array params) = format_echo_args true params
  format_echo_result _ = throw (runtime_error "echo parameters must be an array")

-- The sum of the first two parameters.
unfoldable pub add_request : (mp : Msgpack) → Exception → Object → Result (List mp.Byte)
add_request mp undefined (Object.array (Objects.element a (Objects.element b rest))) = do
  x ← cast mp (mp.as_int a)
  y ← cast mp (mp.as_int b)
  elim (add_int x y) [ none ↦ throw undefined | some z ↦ ok (mp.pack_int z) ]
add_request mp undefined _ = throw undefined
