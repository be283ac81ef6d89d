-- ===== src/Router/Clients/Answers.antt =====
-- What the router answers to a call of `ping`, of `echo`, and of a method that it does not have.
use Prim.Native.String.{len}
use arduino_q_plugin.Common.{
  ℕ, ◌^◌, ◌<◌, ◌-◌, ltb, String, ◌≡◌, refl, ap, sym, ◌∙◌, Bool, true, false, none, some, List, [],
  append-nil, arith, is_empty, is_empty-append, if◌then◌else◌, ◌<>◌, Bool-cases, inl, inr,
}
use arduino_q_plugin.Common.Int.{ℤ, pos}
use arduino_q_plugin.Common.Result.{
  Result, ok, throw, out_of_fuel, Exception, runtime_error, what, ◌>>=◌,
}
use arduino_q_plugin.Msgpack.{Object, Objects, Msgpack, WireLaws, IsWire, message}
use arduino_q_plugin.Value.{Value, Values}
use arduino_q_plugin.Value.Wire.{pack_value}
use arduino_q_plugin.Value.Wire.Laws.{to_objects}
use arduino_q_plugin.Frames.{response_bytes}
use arduino_q_plugin.Router.Echo.{format_echo_arg, format_echo_args, format_echo_result}
use arduino_q_plugin.Router.Requests.{
  performed, unpacked, response_frame, send_response, send_packed_result, send_error_response,
  echo_request, handle_builtin_request,
}
use arduino_q_plugin.Router.Writes.{Hub, send_buffer}
use text.Mathlib.Text.{◌==◌ as text_eq}

-- A method that neither changes the registry nor is one of `add`, `array` and `emit_notify`.
pub record IsPlain (method : String) : Type 0 where
  pub not_register : text_eq method "$/register" ≡ false
  pub not_reset : text_eq method "$/reset" ≡ false
  pub not_add : text_eq method "add" ≡ false
  pub not_array : text_eq method "array" ≡ false
  pub not_emit : text_eq method "emit_notify" ≡ false

-- What the call makes of the router's answer.
abbrev pub returned : Result String → Result Value
returned (ok text) = ok (Value.string text)
returned (throw e) = throw (runtime_error ("RPC error: " <> what e))
returned out_of_fuel = out_of_fuel

-- The text is one that the format can carry.
abbrev pub IsCarried : Result String → Type 0
IsCarried (ok text) = len text < 2 ^ 32
IsCarried (throw e) = len (what e) < 2 ^ 32
IsCarried out_of_fuel = ⊥

-- An error has a text that is not empty.
abbrev pub IsNamed : Result String → Type 0
IsNamed (throw e) = is_empty (what e) ≡ false
IsNamed _ = Unit

bind-IsNamed :
    (r : Result String) (f : String → Result String)
    → IsNamed r
    → ((text : String) → IsNamed (f text))
    → IsNamed (r >>= f)
bind-IsNamed (ok text) f named next = next text
bind-IsNamed (throw e) f named next = named
bind-IsNamed out_of_fuel f named next = tt

module _ (show_int : ℤ → String) (show_double : ℕ → String) where
  format_echo_arg-IsNamed : (o : Object) → IsNamed (format_echo_arg show_int show_double o)
  unfolding format_echo_arg what
  format_echo_arg-IsNamed (Object.boolean b) = tt
  format_echo_arg-IsNamed (Object.positive_integer n) = limit (ltb (2 ^ 63 - 1) n)
    where
      limit :
          (b : Bool)
          → IsNamed (
              if b
              then throw (runtime_error "integer argument is out of int64_t range")
              else ok ("int64_t: " <> show_int (pos n)))
      limit true = refl
      limit false = tt
  format_echo_arg-IsNamed (Object.negative_integer n) = tt
  format_echo_arg-IsNamed (Object.float32 d) = tt
  format_echo_arg-IsNamed (Object.float64 d) = tt
  format_echo_arg-IsNamed (Object.str s) = tt
  format_echo_arg-IsNamed _ = refl

  format_echo_args-IsNamed :
      (first : Bool) (os : Objects) → IsNamed (format_echo_args show_int show_double first os)
  unfolding format_echo_args
  format_echo_args-IsNamed first Objects.no_objects = tt
  format_echo_args-IsNamed first (Objects.element o os) =
      bind-IsNamed (format_echo_arg show_int show_double o) _ (format_echo_arg-IsNamed o) (λ text.
        bind-IsNamed (format_echo_args show_int show_double false os) _
          (format_echo_args-IsNamed false os) (λ rest. tt))

  -- `ping`, `echo`, and any other method.
  abbrev pub answer : String → Values → Result String
  answer method args =
      if text_eq method "ping"
      then ok "pong"
      else if text_eq method "echo"
      then format_echo_result show_int show_double (Object.array (to_objects args))
      else throw (runtime_error ("method not available: " <> method))

  pub answer-IsNamed : (method : String) (args : Values) → IsNamed (answer method args)
  unfolding what format_echo_result
  answer-IsNamed method args = elim (Bool-cases (text_eq method "ping")) [
    | inl ping ↦ rw ping tt
    | inr no_ping ↦ elim (Bool-cases (text_eq method "echo")) [
      | inl echo ↦ rw (no_ping, echo) (format_echo_args-IsNamed true (to_objects args))
      | inr unknown ↦ rw (no_ping, unknown) (is_empty-append "method not available: " method refl)
    ]
  ]

pub kept :
    {Byte : Type 0} (fd : ℕ) (buffer : List Byte) (h : Hub Byte)
    → (send_buffer fd buffer h).1.entries ≡ h.entries
unfolding send_buffer
kept fd buffer h = refl

module _ (mp : Msgpack) (show_int : ℤ → String) (show_double : ℕ → String)
    (insufficient undefined : Exception) (laws : WireLaws mp) where
  -- The bytes of the answer: those of a response, as `respond` and `respond_error` send it.
  abbrev pub answer_bytes : ℕ → Result String → List mp.Byte
  answer_bytes msgid (ok text) = response_bytes mp msgid (some (Value.string text)) ""
  answer_bytes msgid (throw e) = response_bytes mp msgid none (what e)
  answer_bytes msgid out_of_fuel = []

  decode_text :
      (text : String)
      → len text < 2 ^ 32
      → mp.decode (mp.pack_str text) ≡ message (Object.str text) []
  decode_text text short =
      ap mp.decode (sym (laws.encode_str text) ∙ sym (append-nil (mp.encode (Object.str text))))
      ∙ laws.decode_encode (Object.str text) [] (unfold IsWire in short)

  packed_text :
      (fd msgid : ℕ) (text : String) (h : Hub mp.Byte)
      → len text < 2 ^ 32
      → send_packed_result mp show_int show_double insufficient undefined fd msgid
          (mp.pack_str text)
          h
        ≡ performed (send_buffer fd (answer_bytes msgid (ok text)) h)
  unfolding send_packed_result unpacked send_response response_frame response_bytes pack_value
  packed_text fd msgid text h short = rw (decode_text text short, laws.encode_str text) refl

  error_text :
      (fd msgid : ℕ) (error : String) (h : Hub mp.Byte)
      → is_empty error ≡ false
      → send_error_response mp show_int show_double insufficient undefined fd msgid error h
        ≡ send_buffer fd (response_bytes mp msgid none error) h
  unfolding send_error_response send_response response_frame response_bytes
  error_text fd msgid error h some_text = rw (some_text, laws.encode_nil) refl

  -- What `echo` answers, from what is formatted.
  echo_answer :
      (fd msgid : ℕ) (r : Result String) (h : Hub mp.Byte)
      → IsCarried r
      → IsNamed r
      → echo_request mp show_int show_double insufficient undefined fd msgid r h
        ≡ performed (send_buffer fd (answer_bytes msgid r) h)
  unfolding echo_request
  echo_answer fd msgid (ok text) h carried named = packed_text fd msgid text h carried
  echo_answer fd msgid (throw e) h short some_text =
      ap performed (error_text fd msgid (what e) h some_text)
  echo_answer fd msgid out_of_fuel h carried named = absurd carried

  pub builtin_answer :
      (fd msgid : ℕ) (method : String) (args : Values) (h : Hub mp.Byte)
      → IsPlain method
      → IsCarried (answer show_int show_double method args)
      → handle_builtin_request mp show_int show_double insufficient undefined fd msgid method
          (Object.array (to_objects args))
          h
        ≡ performed
            (send_buffer fd (answer_bytes msgid (answer show_int show_double method args)) h)
  unfolding handle_builtin_request what
  builtin_answer fd msgid method args h plain carried = elim (Bool-cases (text_eq method "ping")) [
    | inl ping ↦ rw ping (packed_text fd msgid "pong" h (omega arith))
    | inr no_ping ↦ elim (Bool-cases (text_eq method "echo")) [
      | inl echo ↦
          rw (no_ping, plain.not_add, echo)
            (echo_answer fd msgid
              (format_echo_result show_int show_double (Object.array (to_objects args))) h
              (rw (no_ping, echo) at carried)
              (unfold format_echo_result in
                format_echo_args-IsNamed show_int show_double true (to_objects args)))
      | inr unknown ↦
          rw (no_ping, plain.not_add, unknown, plain.not_array, plain.not_emit)
            (ap performed (
              error_text fd msgid ("method not available: " <> method) h
                (is_empty-append "method not available: " method refl)))
    ]
  ]
