-- ===== src/Common/Result.antt =====
-- The outcome of C++ code that may throw, and code that threads a state and may throw.
use arduino_q_plugin.Common.{String, ◌≡◌, refl, ◌⊎◌, inl, inr}

-- The exceptions that the sources throw or catch, each with its `what()`. `json_error` is
-- nlohmann::json::exception; `msgpack_error` is an exception of the msgpack library.
pub data Exception : Type 0 where
  invalid_argument runtime_error out_of_range json_error msgpack_error : String → Exception

unfoldable pub what : Exception → String
what (invalid_argument s) = s
what (runtime_error s) = s
what (out_of_range s) = s
what (json_error s) = s
what (msgpack_error s) = s

-- `out_of_fuel` has no counterpart in the program.
pub data Result {ℓ} (A : Type ℓ) : Type ℓ where
  ok : A → Result A
  throw : Exception → Result A
  out_of_fuel : Result A

infixl 5 ◌>>=◌
abbrev pub ◌>>=◌ {ℓ κ} : {In : Type ℓ} {Out : Type κ} → Result In → (In → Result Out) → Result Out
throw e >>= next = throw e
out_of_fuel >>= next = out_of_fuel
ok x >>= next = next x

pub >>=-eq-ok {ℓ κ} :
    {In : Type ℓ} {Out : Type κ} {out : Out} (r : Result In) (next : In → Result Out)
    → r >>= next ≡ ok out
    → (x : In) × (r ≡ ok x) × (next x ≡ ok out)
>>=-eq-ok (throw e) next returned = cc
>>=-eq-ok out_of_fuel next returned = cc
>>=-eq-ok (ok x) next returned = (x, refl, returned)

pub ok-injective {ℓ} : {A : Type ℓ} {a b : A} → ok a ≡ ok b → a ≡ b
ok-injective e = cc

pub Result-cases {ℓ} :
    {A : Type ℓ} (r : Result A)
    → ((a : A) × (r ≡ ok a)) ⊎ (((e : Exception) × (r ≡ throw e)) ⊎ (r ≡ out_of_fuel))
Result-cases (ok a) = inl (a, refl)
Result-cases (throw e) = inr (inl (e, refl))
Result-cases out_of_fuel = inr (inr refl)
