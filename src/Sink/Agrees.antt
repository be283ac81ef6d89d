-- ===== src/Sink/Agrees.antt =====
-- The sink does what the filter does, for an input that the filter accepts.
use arduino_q_plugin.Common.{
  String, ◌≡◌, ◌≢◌, refl, sym, ap, ◌∙◌, Bool, true, false, not, if-false, if◌then◌else◌,
}
use arduino_q_plugin.Common.Result.{Result, ok, throw, out_of_fuel}
use arduino_q_plugin.Json.{Json, JsonLib, Fields, get_field}
use arduino_q_plugin.Msgpack.{Msgpack}
use arduino_q_plugin.Value.{Value}
use arduino_q_plugin.Client.{call_json}
use arduino_q_plugin.Plugin.{ReturnType, call_output, with_agent}
use arduino_q_plugin.Caller.{Caller, verbose}
use arduino_q_plugin.Filter
use arduino_q_plugin.Filter.{is_string, is_array, refuse}
use arduino_q_plugin.Sink.{load_data, reported, returned}

-- The code of the return, where one is returned.
abbrev pub code : {A : Type 0} → Result (ReturnType × A) → Result ReturnType
code (ok (t, a)) = ok t
code (throw e) = throw e
code out_of_fuel = out_of_fuel

-- `verbose` is a boolean in the plugin's parameters.
abbrev pub HasVerbose : {Byte : Type 0} → JsonLib → Caller Byte → Type 0
HasVerbose lib s = (b : Bool) × (verbose lib s.params ≡ ok b)

module _ (mp : Msgpack) (lib : JsonLib) where
  outcomes :
      (r : Result Value) (s : Caller mp.Byte) (out : Fields)
      → HasVerbose lib s
      → (returned (reported lib r s.params) s).0 ≡ code (call_output r out)
  unfolding returned reported call_output
  outcomes (ok v) s out (b, e) = rw e refl
  outcomes (throw x) s out h = refl
  outcomes out_of_fuel s out h = refl

  sessions : (r : Result Bool) (s : Caller mp.Byte) → (returned r s).1.session ≡ s.session
  unfolding returned
  sessions (ok b) s = refl
  sessions (throw e) s = refl
  sessions out_of_fuel s = refl

  not-refused :
      (error : String) (s : Caller mp.Byte) → (refuse lib error s).0 ≢ ok ReturnType.success
  unfolding refuse
  not-refused error s = by_outcome (verbose lib s.params)
    where
      by_outcome :
          (r : Result Bool)
          → elim r [ ok b ↦ ok ReturnType.error | throw e ↦ throw e | out_of_fuel ↦ out_of_fuel ]
            ≢ ok ReturnType.success
      by_outcome (ok b) = λ e. cc
      by_outcome (throw x) = λ e. cc
      by_outcome out_of_fuel = λ e. cc

  accepted_inv :
      (input : Json) (s : Caller mp.Byte)
      → (Filter.load_data lib input s).0 ≡ ok ReturnType.success
      → (s.setup_ok ≡ true)
        × (Filter.load_data lib input s ≡ (ok ReturnType.success, record s { rpc_call = input }))
  unfolding Filter.load_data
  accepted_inv input s =
      by_tests s.setup_ok (is_string (get_field "rpc_func" input))
        (is_array (get_field "rpc_args" input))
    where
      tested : Bool → Bool → Bool → Result ReturnType × Caller mp.Byte
      tested a b c =
          if not a
          then (ok ReturnType.critical, s)
          else if not b
          then refuse lib "Input JSON must contain a string field 'rpc_func'" s
          else if not c
          then refuse lib "Input JSON must contain an array field 'rpc_args'" s
          else (ok ReturnType.success, record s { rpc_call = input })

      by_tests :
          (a b c : Bool)
          → (tested a b c).0 ≡ ok ReturnType.success
          → (a ≡ true) × (tested a b c ≡ (ok ReturnType.success, record s { rpc_call = input }))
      by_tests false b c e = cc
      by_tests true false c e =
          absurd (not-refused "Input JSON must contain a string field 'rpc_func'" s e)
      by_tests true true false e =
          absurd (not-refused "Input JSON must contain an array field 'rpc_args'" s e)
      by_tests true true true e = (refl, refl)

  -- For an input that the filter accepts, and `verbose` a boolean, the sink's `load_data` returns the
  -- code that the filter's `process` returns, and leaves the connection as the filter does.
  pub load_data-process :
      (input : Json) (s : Caller mp.Byte)
      → HasVerbose lib s
      → (Filter.load_data lib input s).0 ≡ ok ReturnType.success
      → let filtered = Filter.process mp lib (Filter.load_data lib input s).1 in
        ((load_data mp lib input s).0 ≡ code filtered.0)
        × ((load_data mp lib input s).1.session ≡ filtered.1.session)
  unfolding load_data Filter.process
  load_data-process input s flag accepted =
      let (good, loaded) = accepted_inv input s accepted in
      let (r, c) = call_json mp lib input s.session in
      let ran =
        if-false (not s.setup_ok) (ok ReturnType.critical, s)
          (returned (reported lib r s.params) (record s { session = c })) (ap not good) in
      (
        ap (λ p. p.0) ran
            ∙ outcomes r (record s { session = c }) (with_agent s.agent_id Fields.no_fields) flag
            ∙ sym (ap (λ p. code (Filter.process mp lib p.1).0) loaded),
        ap (λ p. p.1.session) ran
            ∙ sessions (reported lib r s.params) (record s { session = c })
            ∙ sym (ap (λ p. (Filter.process mp lib p.1).1.session) loaded),
      )
