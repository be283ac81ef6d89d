-- ===== src/Router/Echo/Total.antt =====
-- What `echo` and `add` answer is a text or a number, or an exception.
use arduino_q_plugin.Common.{ℕ, String, ◌≢◌, Bool, true, false, Option, none, some, arith}
use arduino_q_plugin.Common.Int.{ℤ}
use arduino_q_plugin.Common.Result.{ok, throw, out_of_fuel, Exception}
use arduino_q_plugin.Msgpack.{Object, Objects, Msgpack, cast}
use arduino_q_plugin.Frames.Returns.{Ends-bind, cast-Ends}
use arduino_q_plugin.Router.Echo.{
  add_int, add_request, format_echo_arg, format_echo_args, format_echo_result,
}

sum_ends :
    (mp : Msgpack) (undefined : Exception) (z : Option ℤ)
    → elim z [ none ↦ throw undefined | some z ↦ ok (mp.pack_int z) ] ≢ out_of_fuel
sum_ends mp undefined none e = absurd cc
sum_ends mp undefined (some z) e = absurd cc

pub add_request_ends :
    (mp : Msgpack) (undefined : Exception) (o : Object) → add_request mp undefined o ≢ out_of_fuel
unfolding add_request
add_request_ends mp undefined (Object.array (Objects.element a (Objects.element b rest))) =
    Ends-bind (cast mp (mp.as_int a)) _ (cast-Ends mp (mp.as_int a)) (λ x.
      Ends-bind (cast mp (mp.as_int b)) _ (cast-Ends mp (mp.as_int b))
        (λ y. sum_ends mp undefined (add_int x y)))
add_request_ends mp undefined _ = λ e. absurd cc

module _ (show_int : ℤ → String) (show_double : ℕ → String) where
  arg_ends : (o : Object) → format_echo_arg show_int show_double o ≢ out_of_fuel
  unfolding format_echo_arg
  arg_ends (Object.positive_integer n) e = ground (arith, e)
  arg_ends _ e = absurd cc

  args_end :
      (first : Bool) (os : Objects) → format_echo_args show_int show_double first os ≢ out_of_fuel
  unfolding format_echo_args
  args_end first Objects.no_objects = λ e. absurd cc
  args_end first (Objects.element o os) =
      Ends-bind (format_echo_arg show_int show_double o) _ (arg_ends o) (λ text.
        Ends-bind (format_echo_args show_int show_double false os) _ (args_end false os)
          (λ rest e. absurd cc))

  pub format_echo_result_ends :
      (o : Object) → format_echo_result show_int show_double o ≢ out_of_fuel
  unfolding format_echo_result
  format_echo_result_ends (Object.array os) = args_end true os
  format_echo_result_ends _ = λ e. absurd cc
