-- ===== src/Throughput/Runs/Traffic.antt =====
-- What the tests do to the client, and when `main` uses it.
use arduino_q_plugin.Common.{
  ℕ, zero, suc, ◌+◌, ◌%◌, ◌^◌, ◌<◌, ◌≡◌, refl, ◌∙◌, ◌⊎◌, inl, inr, String, true, false, Option,
  List, is_empty, arith,
}
use arduino_q_plugin.Common.Int.{ℤ}
use arduino_q_plugin.Common.Result.{Result, ok, throw, out_of_fuel}
use arduino_q_plugin.Json.{Json, JsonLib}
use arduino_q_plugin.Msgpack.{Msgpack}
use arduino_q_plugin.Value.{Value}
use arduino_q_plugin.Socket.{Attempt}
use arduino_q_plugin.Client.{Session, call, is_open}
use arduino_q_plugin.Client.Calls.{call_effects}
use arduino_q_plugin.Throughput.Arguments.{
  Options, Parsed, returned, options, no_options, parse_arguments,
}
use arduino_q_plugin.Throughput.Specs.{TestSpec, Settings, settings, Checked, refused, accepted}
use arduino_q_plugin.Throughput.Specs.Accepted.{IsReady, settings-IsReady}
use arduino_q_plugin.Throughput.Statistics.{Floats}
use arduino_q_plugin.Throughput.Runs.{
  Bench, Tally, no_calls, rounds, timed, timed_call, timed_loop, warmup_loop, run_test, main,
  with_options, with_input, with_settings,
}

-- An open client that has made `k` calls since its number was `m`.
abbrev HasCalled : {Byte : Type 0} → ℤ → ℕ → ℕ → Session Byte → Type 0
HasCalled fd m k s = (s.socket_fd ≡ fd) × (s.next_msgid ≡ (m + k) % 2 ^ 32)

module _ (mp : Msgpack) (fl : Floats) (clock : ℕ → ℕ) (micros seconds : ℕ → ℕ → ℕ) where
  module _ (test : TestSpec) (fd : ℤ) (m : ℕ) (open_socket : is_open fd ≡ true)
      (named : is_empty test.method ≡ false) where
    call-HasCalled :
        (s : Session mp.Byte) (k : ℕ)
        → HasCalled fd m k s
        → HasCalled fd m (suc k) (call mp test.method test.args s).1
    call-HasCalled s k (same, number) =
        let (next, kept, _, _) =
          call_effects mp test.method test.args s (rw same open_socket) named in
        (kept ∙ same, next ∙ omega (arith, number))

    warmup_loop-HasCalled :
        (n : ℕ) (b : Bench mp.Byte) (k j : ℕ)
        → j ≡ n + k
        → HasCalled fd m k b.session
        → HasCalled fd m j (warmup_loop mp fl clock micros seconds n test b).session
    unfolding warmup_loop
    warmup_loop-HasCalled zero b k j e (same, number) = (same, omega (arith, number, e))
    warmup_loop-HasCalled (suc n) b k j e called =
        warmup_loop-HasCalled n _ (suc k) j (omega (arith, e)) (call-HasCalled b.session k called)

    timed_session :
        (r : Result Value) (s : Session mp.Byte) (t : Tally) (n : ℕ)
        → (timed mp fl clock micros seconds r s t n).1.session ≡ s
    unfolding timed
    timed_session (ok v) s t n = refl
    timed_session (throw e) s t n = refl
    timed_session out_of_fuel s t n = refl

    timed_loop-HasCalled :
        (n : ℕ) (t : Tally) (b : Bench mp.Byte) (k j : ℕ)
        → j ≡ n + k
        → HasCalled fd m k b.session
        → HasCalled fd m j (timed_loop mp fl clock micros seconds n test t b).1.session
    unfolding timed_loop timed_call
    timed_loop-HasCalled zero t b k j e (same, number) = (same, omega (arith, number, e))
    timed_loop-HasCalled (suc n) t b k j e called =
        timed_loop-HasCalled n _ _ (suc k) j (omega (arith, e)) (
          rw
            (timed_session (call mp test.method test.args b.session).0
              (call mp test.method test.args b.session).1 t b.readings)
            (call-HasCalled b.session k called))

  -- A test of a named method on an open client makes exactly its warmup calls and its iterations: so
  -- many message numbers are used up, modulo 2 ^ 32, whatever the calls end with, and the connection
  -- stays.
  pub run_test_calls :
      (test : TestSpec) (warmup : ℤ) (b : Bench mp.Byte)
      → is_open b.session.socket_fd ≡ true
      → is_empty test.method ≡ false
      → b.session.next_msgid < 2 ^ 32
      → ((run_test mp fl clock micros seconds test warmup b).1.session.socket_fd
          ≡ b.session.socket_fd)
        × ((run_test mp fl clock micros seconds test warmup b).1.session.next_msgid
            ≡ (b.session.next_msgid + (rounds test.iterations + rounds warmup)) % 2 ^ 32)
  unfolding run_test
  run_test_calls test warmup b open_socket named small =
      let fd = b.session.socket_fd in
      let m = b.session.next_msgid in
      let warm = warmup_loop mp fl clock micros seconds (rounds warmup) test b in
      timed_loop-HasCalled test fd m open_socket named (rounds test.iterations) no_calls
        (record warm { readings = warm.readings + 1 }) (rounds warmup)
        (rounds test.iterations + rounds warmup) refl
        (warmup_loop-HasCalled test fd m open_socket named (rounds warmup) b 0 (rounds warmup)
          (omega arith) (refl, omega (arith, small)))

  module _ (lib : JsonLib) (get_number : Json → Option ℤ) (show_nat : ℕ → String)
      (sun_path_size : ℕ) (default_path : String) (load : String → Result Json) (a : Attempt) where
    with_settings_untouched :
        (c : Checked Settings) (b : Bench mp.Byte)
        → ((with_settings mp fl clock micros seconds lib get_number show_nat sun_path_size
              default_path load a c b).1
            ≡ b)
          ⊎ ((set : Settings) × (c ≡ accepted set))
    unfolding with_settings
    with_settings_untouched (refused text) b = inl refl
    with_settings_untouched (accepted set) b = inr (set, refl)

    with_input_untouched :
        (override : String) (r : Result Json) (b : Bench mp.Byte)
        → ((with_input mp fl clock micros seconds lib get_number show_nat sun_path_size default_path
              load a override r b).1
            ≡ b)
          ⊎ ((doc : Json) × (set : Settings) × (r ≡ ok doc)
              × (settings lib get_number show_nat default_path override doc ≡ accepted set))
    unfolding with_input
    with_input_untouched override (ok doc) b =
        elim (with_settings_untouched (settings lib get_number show_nat default_path override doc)
          b) [ inl same ↦ inl same | inr (set, e) ↦ inr (doc, set, refl, e) ]
    with_input_untouched override (throw e) b = inl refl
    with_input_untouched override out_of_fuel b = inl refl

    -- The client has been used only after the whole input was accepted.
    abbrev pub IsAccepted : Parsed → Type 0
    IsAccepted p =
        (o : Options) × (doc : Json) × (set : Settings) × (p ≡ options o)
        × (load o.input_path ≡ ok doc)
        × (settings lib get_number show_nat default_path o.socket_override doc ≡ accepted set)
        × IsReady set

    with_options_untouched :
        (p : Parsed) (b : Bench mp.Byte)
        → ((with_options mp fl clock micros seconds lib get_number show_nat sun_path_size
              default_path load a p b).1
            ≡ b)
          ⊎ IsAccepted p
    unfolding with_options
    with_options_untouched (returned n) b = inl refl
    with_options_untouched (options o) b =
        elim (with_input_untouched o.socket_override (load o.input_path) b) [
          | inl same ↦ inl same
          | inr (doc, set, loaded, e) ↦ inr (
            o,
            doc,
            set,
            refl,
            loaded,
            e,
            settings-IsReady lib get_number show_nat default_path o.socket_override doc set e,
          )
        ]

    -- Whatever the arguments and the input, `main` leaves the client untouched, unless the arguments
    -- and the whole input are accepted: there is a test, each test has a positive number of
    -- iterations, and the number of warmup calls is not negative.
    pub main_untouched :
        (args : List String) (b : Bench mp.Byte)
        → ((main mp fl clock micros seconds lib get_number show_nat sun_path_size default_path load
              a args b).1
            ≡ b)
          ⊎ IsAccepted (parse_arguments args no_options)
    unfolding main
    main_untouched args b = with_options_untouched (parse_arguments args no_options) b
