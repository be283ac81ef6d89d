-- ===== src/Value/Json/Laws.antt =====
-- What `json_to_value` accepts and returns, and the round trips through JSON.
use arduino_q_plugin.Common.{ℕ, ◌-◌, ◌^◌, ◌≤◌, ◌<◌, ◌≡◌, refl, ◌↔◌, arith}
use arduino_q_plugin.Common.Int.{negsuc, cast_int64}
use arduino_q_plugin.Common.Result.{ok, >>=-eq-ok}
use arduino_q_plugin.Json.{Json, Items, JsonLib, JsonLaws, find_field}
use arduino_q_plugin.Value.{Value, Values, Message}
use arduino_q_plugin.Value.Json.{
  json_to_value, items_to_values, value_to_json, values_to_items, parse_json_call, to_json,
}

-- No object and no binary value, at any depth.
unfoldable mutual
  pub IsPlain : Json → Type 0
  IsPlain Json.null = Unit
  IsPlain (Json.boolean b) = Unit
  IsPlain (Json.number_integer z) = Unit
  IsPlain (Json.number_unsigned n) = Unit
  IsPlain (Json.number_float d) = Unit
  IsPlain (Json.string s) = Unit
  IsPlain (Json.array js) = ArePlain js
  IsPlain (Json.object fs) = ⊥
  IsPlain Json.binary = ⊥

  pub ArePlain : Items → Type 0
  ArePlain Items.no_items = Unit
  ArePlain (Items.item j js) = IsPlain j × ArePlain js

module _ (lib : JsonLib) (laws : JsonLaws lib) where
  mutual
    unfolding json_to_value value_to_json

    from-to_json : (v : Value) → json_to_value lib (value_to_json v) ≡ ok v
    from-to_json Value.monostate = refl
    from-to_json (Value.bool b) = refl
    from-to_json (Value.int64 z) = rw (laws.integer_kind z, laws.get_integer z)
    from-to_json (Value.double d) = refl
    from-to_json (Value.string s) = refl
    from-to_json (Value.array vs) = rw (from-to_items vs)

    from-to_items : (vs : Values) → items_to_values lib (values_to_items vs) ≡ ok vs
    from-to_items Values.no_values = refl
    from-to_items (Values.value v vs) = rw (from-to_json v, from-to_items vs)

  -- A value that is written as JSON and read back is the same value.
  pub json_to_value-value_to_json : (v : Value) → json_to_value lib (value_to_json v) ≡ ok v
  json_to_value-value_to_json v = from-to_json v

  -- The JSON form of a received message is a call that is parsed back to its method and arguments.
  pub parse_json_call-to_json :
      (m : Message) → parse_json_call lib (to_json m) ≡ ok (m.method, m.args)
  unfolding parse_json_call to_json find_field
  parse_json_call-to_json m = rw (from-to_items m.args)

  -- An unsigned JSON integer that `int64_t` cannot hold is not refused: it is cast, and the argument
  -- of the call is a negative number.
  pub json_to_value-unsigned_wraps :
      (n : ℕ)
      → 2 ^ 63 ≤ n
      → n < 2 ^ 64
      → json_to_value lib (Json.number_unsigned n) ≡ ok (Value.int64 (negsuc (2 ^ 64 - n - 1)))
  unfolding json_to_value cast_int64
  json_to_value-unsigned_wraps n lo hi =
      rw (laws.unsigned_kind n, laws.get_unsigned n) (ground arith)

  mutual
    unfolding json_to_value IsPlain

    plain→ok : (j : Json) → IsPlain j → (v : Value) × (json_to_value lib j ≡ ok v)
    plain→ok Json.null p = (_, refl)
    plain→ok (Json.boolean b) p = (_, refl)
    plain→ok (Json.number_integer z) p =
        (Value.int64 (lib.get_int64 (Json.number_integer z)), rw (laws.integer_kind z))
    plain→ok (Json.number_unsigned n) p =
        (Value.int64 (lib.get_int64 (Json.number_unsigned n)), rw (laws.unsigned_kind n))
    plain→ok (Json.number_float d) p = (_, refl)
    plain→ok (Json.string s) p = (_, refl)
    plain→ok (Json.array js) p = let (vs, e) = plain→oks js p in (Value.array vs, rw e)
    plain→ok (Json.object fs) p = absurd p
    plain→ok Json.binary p = absurd p

    plain→oks : (js : Items) → ArePlain js → (vs : Values) × (items_to_values lib js ≡ ok vs)
    plain→oks Items.no_items p = (_, refl)
    plain→oks (Items.item j js) p =
        let (v, e) = plain→ok j p.0 in
        let (vs, es) = plain→oks js p.1 in (Values.value v vs, rw (e, es))

  mutual
    unfolding json_to_value IsPlain

    ok→plain : (j : Json) (v : Value) → json_to_value lib j ≡ ok v → IsPlain j
    ok→plain Json.null v e = tt
    ok→plain (Json.boolean b) v e = tt
    ok→plain (Json.number_integer z) v e = tt
    ok→plain (Json.number_unsigned n) v e = tt
    ok→plain (Json.number_float d) v e = tt
    ok→plain (Json.string s) v e = tt
    ok→plain (Json.array js) v e =
        let (vs, es, _) = >>=-eq-ok (items_to_values lib js) _ e in oks→plain js vs es
    ok→plain (Json.object fs) v e = cc
    ok→plain Json.binary v e = cc

    oks→plain : (js : Items) (vs : Values) → items_to_values lib js ≡ ok vs → ArePlain js
    oks→plain Items.no_items vs e = tt
    oks→plain (Items.item j js) vs e =
        let (v, ev, rest) = >>=-eq-ok (json_to_value lib j) _ e in
        let (ws, es, _) = >>=-eq-ok (items_to_values lib js) _ rest in
        (ok→plain j v ev, oks→plain js ws es)

  -- `json_to_value` returns a value exactly when no object and no binary value stands in the JSON.
  pub json_to_value-eq-ok_iff :
      (j : Json) → ((v : Value) × (json_to_value lib j ≡ ok v)) ↔ IsPlain j
  json_to_value-eq-ok_iff j = ((λ (v, e). ok→plain j v e), plain→ok j)
