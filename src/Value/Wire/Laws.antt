-- ===== src/Value/Wire/Laws.antt =====
-- Packing a value and reading it back, and what `object_to_value` accepts.
use arduino_q_plugin.Common.{
  suc, ◌-◌, ◌%◌, ◌^◌, ◌<◌, ◌≡◌, refl, ap, arith, le→ltb, ltb, Bool-cases, inl, inr, sym, subst,
}
use arduino_q_plugin.Common.Int.{pos, negsuc}
use arduino_q_plugin.Common.Result.{ok, ok-injective, >>=-eq-ok}
use arduino_q_plugin.Msgpack
use arduino_q_plugin.Msgpack.{Object, Objects, Msgpack, WireLaws, IsWire, AreWire, encode_all}
use arduino_q_plugin.Value.{Value, Values, size, IsValid, AreValid}
use arduino_q_plugin.Value.Wire.{
  pack_value, pack_each, pack_array, object_to_value, elements_to_values, object_to_values,
}

-- The msgpack object that carries a value.
unfoldable mutual
  pub to_object : Value → Object
  to_object Value.monostate = Object.nil
  to_object (Value.bool b) = Object.boolean b
  to_object (Value.int64 (pos n)) = Object.positive_integer n
  to_object (Value.int64 (negsuc n)) = Object.negative_integer n
  to_object (Value.double d) = Object.float64 d
  to_object (Value.string s) = Object.str s
  to_object (Value.array vs) = Object.array (to_objects vs)

  pub to_objects : Values → Objects
  to_objects Values.no_values = Objects.no_objects
  to_objects (Values.value v vs) = Objects.element (to_object v) (to_objects vs)

pub size-to_objects : (vs : Values) → Msgpack.size (to_objects vs) ≡ size vs
unfolding to_object
size-to_objects Values.no_values = refl
size-to_objects (Values.value v vs) = omega (arith, size-to_objects vs)

mutual
  unfolding to_object IsValid IsWire

  valid→wire : (v : Value) → IsValid v → IsWire (to_object v)
  valid→wire Value.monostate h = tt
  valid→wire (Value.bool b) h = tt
  valid→wire (Value.int64 (pos n)) h = omega arith
  valid→wire (Value.int64 (negsuc n)) h = h
  valid→wire (Value.double d) h = tt
  valid→wire (Value.string s) h = h
  valid→wire (Value.array vs) h = (rw (size-to_objects vs) h.0, valids→wire vs h.1)

  valids→wire : (vs : Values) → AreValid vs → AreWire (to_objects vs)
  valids→wire Values.no_values h = tt
  valids→wire (Values.value v vs) h = (valid→wire v h.0, valids→wire vs h.1)

pub to_object-IsWire : (v : Value) → IsValid v → IsWire (to_object v)
to_object-IsWire v h = valid→wire v h

pub to_objects-AreWire : (vs : Values) → AreValid vs → AreWire (to_objects vs)
to_objects-AreWire vs h = valids→wire vs h

module _ (mp : Msgpack) where
  mutual
    unfolding object_to_value to_object IsValid

    read_back : (v : Value) → IsValid v → object_to_value mp (to_object v) ≡ ok v
    read_back Value.monostate h = refl
    read_back (Value.bool b) h = refl
    read_back (Value.int64 (pos n)) h = rw (le→ltb (2 ^ 63 - 1) n (omega arith))
    read_back (Value.int64 (negsuc n)) h = refl
    read_back (Value.double d) h = refl
    read_back (Value.string s) h = refl
    read_back (Value.array vs) h = rw (read_each_back vs h.1)

    read_each_back : (vs : Values) → AreValid vs → elements_to_values mp (to_objects vs) ≡ ok vs
    read_each_back Values.no_values h = refl
    read_each_back (Values.value v vs) h = rw (read_back v h.0, read_each_back vs h.1)

  -- Reading the object that carries a valid value gives the value.
  pub object_to_value-to_object : (v : Value) → IsValid v → object_to_value mp (to_object v) ≡ ok v
  object_to_value-to_object v h = read_back v h

  pub object_to_values-to_objects :
      (vs : Values) → AreValid vs → object_to_values mp (Object.array (to_objects vs)) ≡ ok vs
  unfolding object_to_values
  object_to_values-to_objects vs h = read_each_back vs h

  module _ (laws : WireLaws mp) where
    open laws use {
      encode_nil, encode_bool, encode_pos, encode_neg, encode_double, encode_str, encode_array,
    }

    mutual
      unfolding pack_value to_object encode_all IsValid

      packs : (v : Value) → IsValid v → pack_value mp v ≡ mp.encode (to_object v)
      packs Value.monostate h = sym encode_nil
      packs (Value.bool b) h = sym (encode_bool b)
      packs (Value.int64 (pos n)) h = sym (encode_pos n)
      packs (Value.int64 (negsuc n)) h = sym (encode_neg n)
      packs (Value.double d) h = sym (encode_double d)
      packs (Value.string s) h = sym (encode_str s)
      packs (Value.array vs) h =
          let fits : size vs % 2 ^ 32 ≡ Msgpack.size (to_objects vs) =
            omega (arith, size-to_objects vs, h.0) in
          rw (fits, packs_each vs h.1, encode_array)

      packs_each : (vs : Values) → AreValid vs → pack_each mp vs ≡ encode_all mp (to_objects vs)
      packs_each Values.no_values h = refl
      packs_each (Values.value v vs) h = rw (packs v h.0, packs_each vs h.1)

    -- The bytes packed for a valid value are the encoding of the object that carries it.
    pub pack_value-encode : (v : Value) → IsValid v → pack_value mp v ≡ mp.encode (to_object v)
    pack_value-encode v h = packs v h

    pub pack_array-encode :
        (vs : Values)
        → size vs < 2 ^ 32
        → AreValid vs
        → pack_array mp vs ≡ mp.encode (Object.array (to_objects vs))
    unfolding pack_array IsValid to_object
    pack_array-encode vs fits h = packs (Value.array vs) (fits, h)

  mutual
    unfolding object_to_value IsWire IsValid

    result-IsValid : (o : Object) (v : Value) → IsWire o → object_to_value mp o ≡ ok v → IsValid v
    result-IsValid Object.nil v w e = subst IsValid (ok-injective e) tt
    result-IsValid (Object.boolean b) v w e = subst IsValid (ok-injective e) tt
    result-IsValid (Object.positive_integer n) v w e = elim (Bool-cases (ltb (2 ^ 63 - 1) n)) [
      | inl big ↦ cc (rw big at e)
      | inr fits ↦ subst IsValid (ok-injective (rw fits at e)) (ground arith)
    ]
    result-IsValid (Object.negative_integer n) v w e = subst IsValid (ok-injective e) w
    result-IsValid (Object.float32 d) v w e = subst IsValid (ok-injective e) tt
    result-IsValid (Object.float64 d) v w e = subst IsValid (ok-injective e) tt
    result-IsValid (Object.str s) v w e = subst IsValid (ok-injective e) w
    result-IsValid (Object.array os) v w e =
        let (vs, es, rest) = >>=-eq-ok (elements_to_values mp os) _ e in
        let (valid, sizes) = results_valid os vs w.1 es in
        subst IsValid (ok-injective rest) (rw sizes w.0, valid)
    result-IsValid (Object.other n) v w e = cc

    results_valid :
        (os : Objects) (vs : Values)
        → AreWire os
        → elements_to_values mp os ≡ ok vs
        → AreValid vs × (size vs ≡ Msgpack.size os)
    results_valid Objects.no_objects vs w e =
        subst (λ us. AreValid us × (size us ≡ 0)) (ok-injective e) (tt, refl)
    results_valid (Objects.element o os) vs w e =
        let (u, eu, rest) = >>=-eq-ok (object_to_value mp o) _ e in
        let (us, es, end) = >>=-eq-ok (elements_to_values mp os) _ rest in
        let (valid, sizes) = results_valid os us w.1 es in
        subst (λ ws. AreValid ws × (size ws ≡ suc (Msgpack.size os))) (ok-injective end)
          ((result-IsValid o u w.0 eu, valid), ap suc sizes)

  -- A value read from an object that the format can carry is valid: its integers fit `int64_t`.
  pub object_to_value-IsValid :
      (o : Object) (v : Value) → IsWire o → object_to_value mp o ≡ ok v → IsValid v
  object_to_value-IsValid o v w e = result-IsValid o v w e
