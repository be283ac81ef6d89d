-- ===== src/Sketch/Server.antt =====
-- arduino/rpc_server/rpc_server.ino: the methods that the sketch serves. The pins, the JSON documents
-- of ArduinoJson and the conversion of integers to `float` are parameters.
use arduino_q_plugin.Common.{
  ℕ, zero, suc, ◌+◌, ◌*◌, String, Bool, true, List, [], ◌∷◌, ◌++◌, ◌≡◌, refl, ap, sym, ◌∙◌,
  append-nil, append_assoc, not, ◌==◌, set, length, length-set, take-set, take, take_all,
  if◌then◌else◌, arith,
}
use arduino_q_plugin.Common.Int.{ℤ, pos, negsuc}
use arduino_q_plugin.Sketch.{Call, low, high}

abbrev pub n : ℕ
n = 8

-- `setup`, where `led_builtin` is the pin of the LED.
unfoldable pub setup : ℕ → List Call
setup led_builtin =
    Call.pin_mode_output led_builtin
    ∷ Call.serial_begin 115200
    ∷ Call.println "Arduino Router starting... "
    ∷ Call.bridge_begin
    ∷ Call.provide "set_led_state"
    ∷ Call.println "Providing RPC call set_led_state(bool)"
    ∷ Call.provide "get_digital_pin"
    ∷ Call.println "Providing RPC call get_digital_pin(int)"
    ∷ Call.provide "get_analog_pin"
    ∷ Call.println "Providing RPC call get_analog_pin(int)"
    ∷ Call.provide "get_json"
    ∷ Call.println "Providing RPC call get_json()"
    ∷ Call.provide_safe "get_three_arrays"
    ∷ Call.println "Providing RPC call get_three_arrays()"
    ∷ Call.println "done!"
    ∷ []

-- A low level lights the LED.
unfoldable pub set_led_state : ℕ → Bool → Call
set_led_state led_builtin state = Call.digital_write led_builtin (if state then low else high)

-- An integer as a `bool`.
abbrev as_bool : ℤ → Bool
as_bool (pos k) = not (k == 0)
as_bool (negsuc k) = true

unfoldable pub get_digital_pin : (ℤ → ℤ) → ℤ → Bool
get_digital_pin digital_read pin = as_bool (digital_read pin)

unfoldable pub get_analog_pin : (ℤ → ℤ) → ℤ → ℤ
get_analog_pin analog_read pin = analog_read pin

-- The arrays have no values until the loop writes them.
pub record ThreeArrays (Float : Type 0) : Type 0 where
  pub a : List Float
  pub b : List Float
  pub c : List Float

module _ {Float : Type 0} (float : ℕ → Float) where
  -- The loop from `i` on, with `rounds` rounds to go.
  unfoldable pub three_arrays_loop : ℕ → ℕ → ThreeArrays Float → ThreeArrays Float
  three_arrays_loop zero i out = out
  three_arrays_loop (suc rounds) i out = three_arrays_loop rounds (i + 1) (record {
    a = set out.a i (float i);
    b = set out.b i (float (10 * i));
    c = set out.c i (float (i * i));
  })

  -- `out` holds what the memory held.
  unfoldable pub get_three_arrays : ThreeArrays Float → ThreeArrays Float
  unfolding three_arrays_loop
  get_three_arrays out = three_arrays_loop n 0 out

-- The values of a function from a number on.
unfoldable pub values_from : {A : Type 0} → (ℕ → A) → ℕ → ℕ → List A
values_from f i zero = []
values_from f i (suc n) = f i ∷ values_from f (i + 1) n

-- One array of the loop.
fill : {A : Type 0} → (ℕ → A) → ℕ → ℕ → List A → List A
fill f zero i xs = xs
fill f (suc rounds) i xs = fill f rounds (i + 1) (set xs i (f i))

fill_lem :
    {A : Type 0} (f : ℕ → A) (rounds i : ℕ) (xs : List A)
    → length xs ≡ i + rounds
    → fill f rounds i xs ≡ take i xs ++ values_from f i rounds
unfolding fill values_from
fill_lem f zero i xs e =
    sym (ap (λ ys. ys ++ []) (take_all i xs (omega (arith, e))) ∙ append-nil xs)
fill_lem f (suc rounds) i xs e =
    let next : i + 1 ≡ suc i = omega arith in
    fill_lem f rounds (i + 1) (set xs i (f i)) (omega (arith, e, length-set xs i (f i)))
    ∙ ap (λ ys. ys ++ values_from f (i + 1) rounds)
        (ap (λ k. take k (set xs i (f i))) next ∙ take-set xs i (f i) (omega (arith, e)))
    ∙ append_assoc (take i xs) (f i ∷ []) (values_from f (i + 1) rounds)

module _ {Float : Type 0} (float : ℕ → Float) where
  loop_fills :
      (rounds i : ℕ) (out : ThreeArrays Float)
      → three_arrays_loop float rounds i out ≡ record {
        a = fill float rounds i out.a;
        b = fill (λ k. float (10 * k)) rounds i out.b;
        c = fill (λ k. float (k * k)) rounds i out.c;
      }
  unfolding three_arrays_loop fill
  loop_fills zero i out = refl
  loop_fills (suc rounds) i out = loop_fills rounds (i + 1) _

  -- Whatever the memory of the three arrays of 8 elements held, `get_three_arrays` returns the numbers
  -- from 0 to 7, those times 10, and their squares.
  pub get_three_arrays_lem :
      (out : ThreeArrays Float)
      → length out.a ≡ n
      → length out.b ≡ n
      → length out.c ≡ n
      → get_three_arrays float out ≡ record {
        a = values_from float 0 n;
        b = values_from (λ k. float (10 * k)) 0 n;
        c = values_from (λ k. float (k * k)) 0 n;
      }
  unfolding get_three_arrays
  get_three_arrays_lem out ea eb ec =
      loop_fills n 0 out
      ∙ rw
          (
            fill_lem float n 0 out.a ea,
            fill_lem (λ k. float (10 * k)) n 0 out.b eb,
            fill_lem (λ k. float (k * k)) n 0 out.c ec,
          )
          refl

-- What the sketch uses of ArduinoJson: a document's member set to a text, its member made a new
-- array, an integer added to that array, and the text of the document.
pub record JsonDocument : Type 1 where
  pub Document : Type 0
  pub set_text : Document → String → String → Document
  pub to_array : Document → String → Document
  pub add : Document → String → ℤ → Document
  pub serialize : Document → String

-- `get_json` changes the global document, and returns its text.
unfoldable pub get_json : (doc : JsonDocument) → (ℤ → ℤ) → doc.Document → String × doc.Document
get_json doc digital_read d =
    let d' =
      doc.add
        (doc.add
          (doc.add (doc.to_array (doc.set_text d "test" "Hello, world!") "array") "array"
            (digital_read (pos 2)))
          "array" (digital_read (pos 3)))
        "array" (digital_read (pos 4)) in
    (doc.serialize d', d')
