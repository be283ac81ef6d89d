-- ===== src/Frames/Laws.antt =====
-- The frames as msgpack objects, and which messages are read as a response.
use Prim.Native.String.{len}
use arduino_q_plugin.Common.{
  ℕ, ◌^◌, ◌<◌, String, ◌≡◌, refl, ap, ◌∙◌, ◌≢◌, inl, inr, true, false, ◌&&◌, Option, none, some,
  ◌++◌, append-nil, arith, is_empty, ◌==◌, Bool-cases,
}
use arduino_q_plugin.Common.Int.{ℤ, pos, negsuc}
use arduino_q_plugin.Common.Result.{Result, ok, throw, runtime_error, ◌>>=◌}
use arduino_q_plugin.Msgpack.{
  Object, Objects, Msgpack, WireLaws, CastLaws, IsWire, encode_all, cast,
}
use arduino_q_plugin.Value.{Value, Values, size, IsValid, AreValid}
use arduino_q_plugin.Value.Wire.{object_to_value}
use arduino_q_plugin.Value.Wire.Laws.{
  to_object, to_objects, size-to_objects, to_objects-AreWire, pack_value-encode, pack_array-encode,
}
use arduino_q_plugin.Frames.{request_bytes, response_bytes, read_response, read_result, is_number}

abbrev pub four : Object → Object → Object → Object → Object
four a b c d = Object.array (
    Objects.element a
      (Objects.element b (Objects.element c (Objects.element d Objects.no_objects))))

abbrev pub request_object : ℕ → String → Values → Object
request_object msgid method args =
    four (Object.positive_integer 0) (Object.positive_integer msgid) (Object.str method)
      (Object.array (to_objects args))

abbrev pub response_object : ℕ → Object → Object → Object
response_object msgid error result =
    four (Object.positive_integer 1) (Object.positive_integer msgid) error result

-- The arguments that a frame can carry.
abbrev pub Fits : ℕ → String → Values → Type 0
Fits msgid method args =
    (msgid < 2 ^ 32) × (len method < 2 ^ 32) × (size args < 2 ^ 32) × AreValid args

pub request_object-IsWire :
    (msgid : ℕ) (method : String) (args : Values)
    → Fits msgid method args
    → IsWire (request_object msgid method args)
unfolding IsWire
request_object-IsWire msgid method args (id, name, count, valid) = (
  omega arith,
  (
    omega arith,
    (
      omega arith,
      (name, ((omega (arith, size-to_objects args), to_objects-AreWire args valid), tt)),
    ),
  ),
)

-- Inversion of a cast that is followed by more.
pub cast_inv :
    {A B : Type 0} (mp : Msgpack) (m : Option A) (f : A → Result B) {b : B}
    → (cast mp m >>= f) ≡ ok b
    → (a : A) × (m ≡ some a) × (f a ≡ ok b)
cast_inv mp (some a) f h = (a, refl, h)
cast_inv mp none f h = cc

module _ (mp : Msgpack) where
  module _ (laws : WireLaws mp) where
    open laws use {encode_nil, encode_pos, encode_str, encode_array}

    encode_four :
        (a b c d : Object)
        → mp.encode (four a b c d)
          ≡ mp.pack_array 4 ++ (mp.encode a ++ (mp.encode b ++ (mp.encode c ++ mp.encode d)))
    unfolding encode_all
    encode_four a b c d = rw encode_array (
        ap (λ z. mp.pack_array 4 ++ (mp.encode a ++ (mp.encode b ++ (mp.encode c ++ z))))
          (append-nil (mp.encode d)))

    -- The bytes of a request are the encoding of [0, msgid, method, args].
    pub request_bytes-encode :
        (msgid : ℕ) (method : String) (args : Values)
        → Fits msgid method args
        → request_bytes mp msgid method args ≡ mp.encode (request_object msgid method args)
    unfolding request_bytes
    request_bytes-encode msgid method args (id, name, count, valid) = rw (
      pack_array-encode mp laws args count valid,
      encode_four,
      encode_pos 0,
      encode_pos msgid,
      encode_str,
    )

    -- The bytes of a response are the encoding of [1, msgid, nil, result].
    pub response_bytes-encode :
        (msgid : ℕ) (v : Value)
        → IsValid v
        → response_bytes mp msgid (some v) ""
          ≡ mp.encode (response_object msgid Object.nil (to_object v))
    unfolding response_bytes
    response_bytes-encode msgid v valid =
        rw (
          pack_value-encode mp laws v valid,
          encode_four,
          encode_pos 1,
          encode_pos msgid,
          encode_nil,
        )

    -- The bytes of an error response are the encoding of [1, msgid, error, nil].
    pub error_bytes-encode :
        (msgid : ℕ) (error : String)
        → is_empty error ≡ false
        → response_bytes mp msgid none error
          ≡ mp.encode (response_object msgid (Object.str error) Object.nil)
    unfolding response_bytes
    error_bytes-encode msgid error some_text =
        rw (some_text, encode_four, encode_pos 1, encode_pos msgid, encode_str, encode_nil)

  module _ (casts : CastLaws mp) where
    open casts use {as_int_pos, as_int_inv, as_uint32_pos, as_uint32_inv}

    -- A response with the request's number is read as its error or its result.
    pub read_response-match :
        (msgid : ℕ) (error result : Object)
        → msgid < 2 ^ 32
        → read_response mp msgid (response_object msgid error result) ≡ read_result mp error result
    unfolding read_response
    read_response-match msgid error result h =
        rw (as_int_pos 1 (omega arith), as_uint32_pos msgid h) (ground arith)

    pub read_response-stale :
        (msgid other : ℕ) (error result : Object)
        → other < 2 ^ 32
        → other ≢ msgid
        → read_response mp msgid (response_object other error result)
          ≡ throw (runtime_error "RPC response does not match request")
    unfolding read_response
    read_response-stale msgid other error result h ne =
        rw (as_int_pos 1 (omega arith), as_uint32_pos other h) (ground arith)

    read_result_inv :
        (error result : Object) (v : Value)
        → read_result mp error result ≡ ok v
        → (error ≡ Object.nil) × (object_to_value mp result ≡ ok v)
    unfolding read_result
    read_result_inv Object.nil result v e = (refl, e)
    read_result_inv _ result v e = cc

    -- The test of the type and the number, passed.
    tested :
        (z : ℤ) (id msgid : ℕ) → (is_number 1 z && id == msgid) ≡ true → (z ≡ pos 1) × (id ≡ msgid)
    tested (pos n) id msgid e = ground arith
    tested (negsuc n) id msgid e = cc

    four_inv :
        (msgid : ℕ) (a b c d : Object) (v : Value)
        → read_response mp msgid (four a b c d) ≡ ok v
        → (four a b c d ≡ response_object msgid Object.nil d) × (object_to_value mp d ≡ ok v)
    unfolding read_response
    four_inv msgid a b c d v e =
        let (z, ez, e₁) = cast_inv mp (mp.as_int a) _ e in
        let (id, ei, e₂) = cast_inv mp (mp.as_uint32 b) _ e₁ in
        elim (Bool-cases (is_number 1 z && id == msgid)) [
          | inl same ↦
              let (ty, num) = tested z id msgid same in
              let (none_c, result) = read_result_inv c d v (rw same at e₂) in
              (
                cc (
                  as_int_inv a 1 (ez ∙ ap some ty),
                  as_uint32_inv b msgid (ei ∙ ap some num),
                  none_c,
                ),
                result,
              )
          | inr differs ↦ cc (rw differs at e₂)
        ]

    -- A value is returned only for a response [1, msgid, nil, result] with the request's own number,
    -- and it is what `result` holds.
    pub read_response_sound :
        (msgid : ℕ) (o : Object) (v : Value)
        → read_response mp msgid o ≡ ok v
        → (result : Object) × (o ≡ response_object msgid Object.nil result)
          × (object_to_value mp result ≡ ok v)
    unfolding read_response
    read_response_sound msgid
          (Object.array (
            Objects.element a
              (Objects.element b (Objects.element c (Objects.element d Objects.no_objects)))))
          v e =
        let (same, read) = four_inv msgid a b c d v e in (d, same, read)
    read_response_sound msgid _ v e = cc
