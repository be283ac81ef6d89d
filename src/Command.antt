-- ===== src/Command.antt =====
-- rpc_call.cpp: the program that makes one call. `exists` is `std::filesystem::exists`, and `stoll`
-- and `stod` are those of the standard library, with the number of bytes that they read; `none` is an
-- exception. `show_int` and `show_double` are how a stream prints a number.
pub mod Prints
pub mod Sends
use Prim.Native.String.{len}
use arduino_q_plugin.Common.{
  ℕ, String, Bool, true, false, Option, none, some, List, [], ◌∷◌, ◌==◌, if◌then◌else◌,
}
use arduino_q_plugin.Common.Int.{ℤ}
use arduino_q_plugin.Common.Result.{Result, ok, throw, out_of_fuel}
use arduino_q_plugin.Common.State.{Method, ◌>>=◌, ◌>>◌}
use arduino_q_plugin.Msgpack.{Msgpack}
use arduino_q_plugin.Value.{Value, Values}
use arduino_q_plugin.Value.Print.{value_to_string}
use arduino_q_plugin.Socket.{Attempt}
use arduino_q_plugin.Client.{Session, call, close, connect}
use text.Mathlib.Text.{◌==◌ as text_eq}

-- The number, where the whole argument was read.
abbrev pub whole : {A : Type 0} → String → Option (A × ℕ) → Option A
whole arg none = none
whole arg (some (a, read)) = if read == len arg then some a else none

-- An argument that is no number.
unfoldable pub word : String → Value
word arg =
    if text_eq arg "true"
    then Value.bool true
    else if text_eq arg "on"
    then Value.bool true
    else if text_eq arg "false"
    then Value.bool false
    else if text_eq arg "off"
    then Value.bool false
    else Value.string arg

module _ (stoll : String → Option (ℤ × ℕ)) (stod : String → Option (ℕ × ℕ)) where
  from_double : String → Option ℕ → Value
  unfolding word
  from_double arg (some double_arg) = Value.double double_arg
  from_double arg none = word arg

  from_int : String → Option ℤ → Value
  unfolding from_double
  from_int arg (some int_arg) = Value.int64 int_arg
  from_int arg none = from_double arg (whole arg (stod arg))

  -- The body of the loop over the arguments.
  unfoldable pub argument : String → Value
  unfolding from_int
  argument arg = from_int arg (whole arg (stoll arg))

  unfoldable pub arguments : List String → Values
  unfolding argument
  arguments [] = Values.no_values
  arguments (arg ∷ rest) = Values.value (argument arg) (arguments rest)

  module _ (show_int : ℤ → String) (show_double : ℕ → String) (mp : Msgpack) (sun_path_size : ℕ)
      (a : Attempt) where
    -- What is returned, what is printed of the result, and the client's session, after its destructor.
    finished : Result Value × Session mp.Byte → (ℕ × Option String) × Session mp.Byte
    unfolding value_to_string close
    finished (ok v, s) = ((0, some (value_to_string show_int show_double v)), close s)
    finished (_, s) = ((1, none), close s)

    -- The last `try` block.
    run : String → String → Values → Session mp.Byte → (ℕ × Option String) × Session mp.Byte
    unfolding finished
    run path function_name args s =
        finished ((connect sun_path_size path a >> call mp function_name args) s)

    -- `main` with a path as the first argument.
    with_path : String → List String → Session mp.Byte → (ℕ × Option String) × Session mp.Byte
    unfolding run arguments
    with_path path [] s = ((1, none), s)
    with_path path (function_name ∷ rest) s = run path function_name (arguments rest) s

    unfoldable pub main :
        String
        → (String → Bool)
        → List String
        → Session mp.Byte
        → (ℕ × Option String) × Session mp.Byte
    unfolding with_path
    main default_path exists [] s = ((1, none), s)
    main default_path exists (first ∷ rest) s =
        if exists first then with_path first rest s else run default_path first (arguments rest) s
