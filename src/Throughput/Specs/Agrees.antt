-- ===== src/Throughput/Specs/Agrees.antt =====
-- The conversion of rpc_throughput.cpp and that of rpc.cpp, and what an accepted input holds.
use arduino_q_plugin.Common.{
  ◌-◌, ◌^◌, ◌≡◌, refl, ◌∙◌, Bool, true, false, Option, none, some, ltb, if◌then◌else◌,
}
use arduino_q_plugin.Common.Result.{Result, ok, throw, out_of_fuel, ◌>>=◌}
use arduino_q_plugin.Json.{Json, Items, JsonLib}
use arduino_q_plugin.Value.Json
use arduino_q_plugin.Throughput.Specs.{
  json_to_value, items_to_values, integer_to_value, unsigned_to_value, unsupported,
}

-- The value that is returned, if one is.
abbrev pub returned {ℓ} : {A : Type ℓ} → Result A → Option A
returned (ok a) = some a
returned (throw e) = none
returned out_of_fuel = none

returned-bind :
    {A B : Type 0} (r r' : Result A) (f : A → Result B)
    → returned r ≡ returned r'
    → returned (r >>= f) ≡ returned (r' >>= f)
returned-bind (ok a) (ok b) f e = cc
returned-bind (ok a) (throw x) f e = cc
returned-bind (ok a) out_of_fuel f e = cc
returned-bind (throw x) (ok b) f e = cc
returned-bind (throw x) (throw y) f e = refl
returned-bind (throw x) out_of_fuel f e = refl
returned-bind out_of_fuel (ok b) f e = cc
returned-bind out_of_fuel (throw y) f e = refl
returned-bind out_of_fuel out_of_fuel f e = refl

returned_next :
    {A B : Type 0} (r : Result A) (f g : A → Result B)
    → ((a : A) → returned (f a) ≡ returned (g a))
    → returned (r >>= f) ≡ returned (r >>= g)
returned_next (ok a) f g e = e a
returned_next (throw x) f g e = refl
returned_next out_of_fuel f g e = refl

returned_if :
    {A : Type 0} (b : Bool) (x x' y y' : Result A)
    → returned x ≡ returned x'
    → returned y ≡ returned y'
    → returned (if b then x else y) ≡ returned (if b then x' else y')
returned_if true x x' y y' ex ey = ex
returned_if false x x' y y' ex ey = ey

module _ (lib : JsonLib) where
  mutual
    unfolding json_to_value Json.json_to_value integer_to_value unsigned_to_value unsupported

    value_agrees : (j : Json) → returned (json_to_value lib j) ≡ returned (Json.json_to_value lib j)
    value_agrees (Json.number_integer z) =
        returned_if (lib.is_number_integer (Json.number_integer z)) _ _ _ _ refl refl
    value_agrees (Json.number_unsigned n) =
        returned_if (lib.is_number_integer (Json.number_unsigned n)) _ _ _ _ refl
          (returned_if (ltb (2 ^ 63 - 1) n) _ _ _ _ refl refl)
    value_agrees (Json.array js) =
        returned-bind (items_to_values lib js) (Json.items_to_values lib js) _ (items_agree js)
    value_agrees (Json.object fs) = refl
    value_agrees Json.binary = refl
    value_agrees _ = refl

    items_agree :
        (js : Items) → returned (items_to_values lib js) ≡ returned (Json.items_to_values lib js)
    items_agree Items.no_items = refl
    items_agree (Items.item j js) =
        returned-bind (json_to_value lib j) (Json.json_to_value lib j) _ (value_agrees j)
        ∙ returned_next (Json.json_to_value lib j) _ _ (λ v.
          returned-bind (items_to_values lib js) (Json.items_to_values lib js) _ (items_agree js))

  -- The program converts an argument exactly when the client's `call(json)` does, to the same value;
  -- only the texts of the refusals differ.
  pub json_to_value-agrees :
      (j : Json) → returned (json_to_value lib j) ≡ returned (Json.json_to_value lib j)
  json_to_value-agrees j = value_agrees j
