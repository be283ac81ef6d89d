-- ===== src/Common/State.antt =====
-- Methods: a computation on an object's state, which keeps the state it has reached when it throws.
use arduino_q_plugin.Common.{◌≡◌, refl}
use arduino_q_plugin.Common.Result
use arduino_q_plugin.Common.Result.{Result, ok, throw, out_of_fuel, Exception}

abbrev pub Method : Type 0 → Type 0 → Type 0
Method S A = S → Result A × S

module _ {S : Type 0} where
  abbrev pub pure : {A : Type 0} → A → Method S A
  pure a s = (ok a, s)

  abbrev pub raise : {A : Type 0} → Exception → Method S A
  raise e s = (throw e, s)

  -- Pure code that may throw.
  abbrev pub lift : {A : Type 0} → Result A → Method S A
  lift r s = (r, s)

  abbrev pub get : Method S S
  get s = (ok s, s)

  abbrev pub modify : (S → S) → Method S (Unit {0})
  modify f s = (ok tt, f s)

  module _ {A B : Type 0} where
    abbrev pub continue_with : Result A × S → (A → Method S B) → Result B × S
    continue_with (ok a, s) f = f a s
    continue_with (throw e, s) f = (throw e, s)
    continue_with (out_of_fuel, s) f = (out_of_fuel, s)

    infixl 5 ◌>>=◌ ◌>>◌
    abbrev pub ◌>>=◌ : Method S A → (A → Method S B) → Method S B
    ◌>>=◌ m f s = continue_with (m s) f

    abbrev pub ◌>>◌ : Method S A → Method S B → Method S B
    ◌>>◌ m k s = continue_with (m s) (λ _. k)

  module _ {A : Type 0} where
    abbrev pub handle_with : Result A × S → (Exception → Method S A) → Result A × S
    handle_with (ok a, s) f = (ok a, s)
    handle_with (throw e, s) f = f e s
    handle_with (out_of_fuel, s) f = (out_of_fuel, s)

    -- `try { m } catch (e) { f e }`.
    abbrev pub try_catch : Method S A → (Exception → Method S A) → Method S A
    try_catch m f s = handle_with (m s) f

pub continue_with-lift :
    {S A B : Type 0} (r : Result A) (s : S) (f : A → Result B)
    → continue_with (r, s) (λ a. lift (f a)) ≡ (Result.◌>>=◌ r f, s)
continue_with-lift (ok a) s f = refl
continue_with-lift (throw e) s f = refl
continue_with-lift out_of_fuel s f = refl
