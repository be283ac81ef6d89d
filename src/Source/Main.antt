-- ===== src/Source/Main.antt =====
-- unoq_source.cpp: `get_output` by the plugin's mode, and `main`, which runs the plugin on an example.
-- What the receiver's thread does to the queue while `main` sleeps is a script.
pub mod Polls
use arduino_q_plugin.Common.{ℕ, zero, suc, String, Bool, List, [], ◌∷◌, if◌then◌else◌}
use arduino_q_plugin.Common.Int.{ℤ}
use arduino_q_plugin.Common.Result.{Result, ok, throw, out_of_fuel}
use arduino_q_plugin.Json.{Json, Items, Fields, JsonLib}
use arduino_q_plugin.Msgpack.{Msgpack}
use arduino_q_plugin.Plugin.{ReturnType}
use arduino_q_plugin.Socket.{Attempt}
use arduino_q_plugin.Client
use arduino_q_plugin.Source.{Source, enqueue_message, set_receiver_error, get_output_notify}
use arduino_q_plugin.Source.Calling.{get_output_call}
use arduino_q_plugin.Source.Lifecycle.{Unoq, SourceMode, set_params}
use text.Mathlib.Text.{◌==◌ as text_eq}

-- A step of the receiver's thread on the members that it shares.
pub data Arrival : Type 0 where
  arrives : Json → Arrival
  fails : String → Arrival

unfoldable pub arrivals : List Arrival → Source → Source
arrivals [] s = s
arrivals (Arrival.arrives message ∷ rest) s = arrivals rest (enqueue_message message s).1
arrivals (Arrival.fails error ∷ rest) s = arrivals rest (set_receiver_error error s)

abbrev pub arrived : {Byte : Type 0} → List Arrival → Unoq Byte → Unoq Byte
arrived during s = record s { source = arrivals during s.source }

-- The first entry of a script, or nothing once it has ended, and the script from then on.
abbrev pub now : List (List Arrival) → List Arrival
now [] = []
now (during ∷ rest) = during

abbrev pub later : List (List Arrival) → List (List Arrival)
later [] = []
later (during ∷ rest) = rest

-- One round, from what `get_output` returned, and the rounds after it.
abbrev pub after_poll : Result (ReturnType × Fields) → Result (ℕ × Fields) → Result (ℕ × Fields)
after_poll (ok (ReturnType.success, out)) next = ok (0, out)
after_poll (ok (ReturnType.error, out)) next = ok (1, out)
after_poll (ok (ReturnType.critical, out)) next = ok (1, out)
after_poll (ok (ReturnType.retry, out)) next = next
after_poll (throw e) next = throw e
after_poll out_of_fuel next = out_of_fuel

-- The arguments after the program's name.
abbrev pub first_or : String → List String → String
first_or fallback [] = fallback
first_or fallback (arg ∷ rest) = arg

abbrev pub rest_of : List String → List String
rest_of [] = []
rest_of (arg ∷ rest) = rest

-- The parameters of notify mode, from the arguments after `notify`.
abbrev pub notify_params : List String → Json
notify_params args = Json.object (
    Fields.field "mode" (Json.string "notify") (
      Fields.field "provided_rpc" (Json.string (first_or "mads_notify" args)) (
        Fields.field "socket_path" (Json.string (first_or "/tmp/mads-rpc.sock" (rest_of args)))
          Fields.no_fields)))

abbrev pub call_params : Json
call_params = Json.object (
    Fields.field "rpc_call" (Json.string "array") (
      Fields.field "rpc_args" (Json.array Items.no_items)
        (Fields.field "socket_path" (Json.string "/tmp/mads-rpc.sock") Fields.no_fields)))

module _ (mp : Msgpack) (lib : JsonLib) where
  -- `get_output`, by the mode.
  unfoldable pub output_in : SourceMode → Unoq mp.Byte → Result (ReturnType × Fields) × Unoq mp.Byte
  output_in SourceMode.notify s =
      let (r, source) = get_output_notify lib s.source in (r, record s { source = source })
  output_in SourceMode.call s =
      let (r, client) = get_output_call mp lib s.source s.rpc_call s.client in
      (r, record s { client = client })

  unfoldable pub get_output : Unoq mp.Byte → Result (ReturnType × Fields) × Unoq mp.Byte
  unfolding output_in
  get_output s = output_in s.mode s

  -- How the loop of `main` ends: with a code and the output that is printed, or with an exception.
  unfoldable pub poll_loop : ℕ → List (List Arrival) → Unoq mp.Byte → Result (ℕ × Fields)
  unfolding get_output
  poll_loop zero sleeps s = ok (2, Fields.no_fields)
  poll_loop (suc n) sleeps s =
      let (r, s') = get_output s in
      after_poll r (poll_loop n (later sleeps) (arrived (now sleeps) s'))

-- In call mode the code that the plugin returns is ignored.
abbrev called : Result (ReturnType × Fields) → Result (ℕ × Fields)
called (ok (code, out)) = ok (0, out)
called (throw e) = throw e
called out_of_fuel = out_of_fuel

module _ (mp : Msgpack) (show_int : ℤ → String) (lib : JsonLib)
    (base : Json → Fields × String → Fields × String) (sun_path_size : ℕ) where
  -- The code that `main` returns, and the output that it prints before.
  unfoldable pub main :
      List String → Attempt → List (List Arrival) → Unoq mp.Byte → Result (ℕ × Fields)
  unfolding get_output poll_loop
  main args a sleeps plugin =
      if text_eq (first_or "" args) "notify"
      then poll_loop mp lib 300 sleeps
          (set_params mp show_int lib base sun_path_size [] (notify_params (rest_of args)) a plugin)
      else called
          (get_output mp lib
            (set_params mp show_int lib base sun_path_size [] call_params a plugin)).0
