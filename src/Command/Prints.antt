-- ===== src/Command/Prints.antt =====
-- What the program prints for a response to its call.
use arduino_q_plugin.Common.{
  ℕ, ◌≤◌, ◌≡◌, refl, ◌∙◌, String, Bool, true, false, Option, some, List, [], ◌∷◌, ◌++◌, length,
  is_empty, arith,
}
use arduino_q_plugin.Common.Int.{ℤ, pos}
use arduino_q_plugin.Common.Result.{Result, ok, throw, out_of_fuel}
use arduino_q_plugin.Msgpack.{Msgpack, WireLaws, CastLaws}
use arduino_q_plugin.Value.{Value, Values, IsValid}
use arduino_q_plugin.Value.Print.{value_to_string}
use arduino_q_plugin.Socket.{World, Attempt, made, set_up, validate_socket_path}
use arduino_q_plugin.Socket.SendAll.{capacity}
use arduino_q_plugin.Socket.Receive.{incoming}
use arduino_q_plugin.Frames.{request_bytes, response_bytes}
use arduino_q_plugin.Client.{Session, unconnected, call, close}
use arduino_q_plugin.Client.Calls.{call_effects}
use arduino_q_plugin.Client.Sockets.{connect_done, close_lem, held}
use arduino_q_plugin.Endpoint.Respond.{call-respond}
use arduino_q_plugin.Command.{arguments, main, with_path, run, finished}

-- A command line stands for a path, a method and arguments: its first word is the path of a file that
-- exists, or else the method, which is called through the default path.
pub data Names (default_path : String) (exists : String → Bool)
    : List String → String → String → List String → Type 0 where
  by_default :
      {method : String} {rest : List String}
      → exists method ≡ false
      → Names default_path exists (method ∷ rest) default_path method rest
  with_socket :
      {path method : String} {rest : List String}
      → exists path ≡ true
      → Names default_path exists (path ∷ method ∷ rest) path method rest

module _ (stoll : String → Option (ℤ × ℕ)) (stod : String → Option (ℕ × ℕ)) (show_int : ℤ → String)
    (show_double : ℕ → String) (mp : Msgpack) (n : ℕ) (a : Attempt) where
  finished_value :
      (v : Value) (p : Result Value × Session mp.Byte)
      → p.0 ≡ ok v
      → finished stoll stod show_int show_double mp n a p
        ≡ ((0, some (value_to_string show_int show_double v)), close p.1)
  unfolding finished
  finished_value v (ok v', s) e = let same : v' ≡ v = cc in rw same
  finished_value v (throw x, s) e = absurd cc
  finished_value v (out_of_fuel, s) e = absurd cc

  -- A run on a fresh client, for a response to its call.
  abbrev pub RunPrints : World mp.Byte → Value → ℕ → (ℕ × Option String) × Session mp.Byte → Type 0
  RunPrints w v fd out =
      (out.0 ≡ (0, some (value_to_string show_int show_double v)))
      × (out.1.world.closed ≡ w.closed ++ fd ∷ [])

  run-respond :
      (laws : WireLaws mp) (casts : CastLaws mp) (path method : String) (args : Values) (fd : ℕ)
      (w : World mp.Byte) (v : Value) (extra : List mp.Byte)
      → is_empty method ≡ false
      → validate_socket_path n path ≡ ok tt
      → a.socket ≡ made fd
      → set_up a ≡ ok tt
      → length (request_bytes mp 0 method args) ≤ capacity w.sends
      → IsValid v
      → incoming w.recvs ≡ response_bytes mp 0 (some v) "" ++ extra
      → RunPrints w v fd (
          run stoll stod show_int show_double mp n a path method args
            (record { client = unconnected; world = w }))
  unfolding run held
  run-respond laws casts path method args fd w v extra named valid socket up room good answered =
      let c : Session mp.Byte = record {
        client = record { socket_fd = pos fd; next_msgid = 0 };
        world = w;
      } in
      let result =
        call-respond mp laws casts method args c refl named room (omega arith) v extra good
          answered in
      let (_, open_still, unclosed, _) = call_effects mp method args c refl named in
      let done = finished_value v (call mp method args c) result in
      let (closes, _, _) = close_lem (call mp method args c).1 in
      rw (connect_done a n 0 fd path w valid socket up, done)
        (refl, closes ∙ (rw (open_still, unclosed, held) refl))

  -- `main` prints the result that was answered with `respond`, returns 0, and closes the connection:
  -- for a command line with a path in front of the method, or without one, if that path or else the
  -- default one is valid, the method is named, the kernel connects and takes the request, and the bytes
  -- that come begin with the response.
  pub main-respond :
      (laws : WireLaws mp) (casts : CastLaws mp) (default_path path method : String)
      (exists : String → Bool) (line rest : List String) (fd : ℕ) (w : World mp.Byte) (v : Value)
      (extra : List mp.Byte)
      → Names default_path exists line path method rest
      → is_empty method ≡ false
      → validate_socket_path n path ≡ ok tt
      → a.socket ≡ made fd
      → set_up a ≡ ok tt
      → length (request_bytes mp 0 method (arguments stoll stod rest)) ≤ capacity w.sends
      → IsValid v
      → incoming w.recvs ≡ response_bytes mp 0 (some v) "" ++ extra
      → RunPrints w v fd (
          main stoll stod show_int show_double mp n a default_path exists line
            (record { client = unconnected; world = w }))
  unfolding main with_path
  main-respond laws casts default_path path method exists line rest fd w v extra
        (Names.by_default function) named valid socket up room good answered =
      rw function (
        run-respond laws casts path method (arguments stoll stod rest) fd w v extra named valid
          socket up room good answered)
  main-respond laws casts default_path path method exists line rest fd w v extra
        (Names.with_socket socket_path) named valid socket up room good answered =
      rw socket_path (
        run-respond laws casts path method (arguments stoll stod rest) fd w v extra named valid
          socket up room good answered)
