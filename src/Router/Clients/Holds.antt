-- ===== src/Router/Clients/Holds.antt =====
-- Methods of the router that keep one registry entry for each name, and return or throw.
use arduino_q_plugin.Common.{◌≢◌, refl, Bool, true, false, if◌then◌else◌}
use arduino_q_plugin.Common.Result.{Result, ok, throw, out_of_fuel}
use arduino_q_plugin.Common.State.{Method, lift, continue_with}
use arduino_q_plugin.Router.Registry.{IsMap}
use arduino_q_plugin.Router.Writes.{Hub}

module _ {Byte : Type 0} where
  -- The registry still has one entry for each name, whether the code returned or threw, and it did
  -- one or the other.
  abbrev pub Holds : {A : Type 0} → Result A × Hub Byte → Type 0
  Holds (ok a, h) = IsMap h.entries
  Holds (throw e, h) = IsMap h.entries
  Holds (out_of_fuel, h) = ⊥

  abbrev pub Keeps : {A : Type 0} → Method (Hub Byte) A → Type 0
  Keeps m = (h : Hub Byte) → IsMap h.entries → Holds (m h)

  pub continued :
      {A B : Type 0} (p : Result A × Hub Byte) (f : A → Method (Hub Byte) B)
      → Holds p
      → ((a : A) → Keeps (f a))
      → Holds (continue_with p f)
  continued (ok a, h) f k keeps = keeps a h k
  continued (throw e, h) f k keeps = k
  continued (out_of_fuel, h) f k keeps = k

  pub chosen :
      {A : Type 0} (b : Bool) (m n : Result A × Hub Byte)
      → Holds m
      → Holds n
      → Holds (if b then m else n)
  chosen true m n x y = x
  chosen false m n x y = y

  pub branched :
      {A : Type 0} (b : Bool) (m n : Method (Hub Byte) A)
      → Keeps m
      → Keeps n
      → Keeps (if b then m else n)
  branched true m n x y = x
  branched false m n x y = y

  pub lifted : {A : Type 0} (r : Result A) → r ≢ out_of_fuel → Keeps (lift r)
  lifted (ok a) done h k = k
  lifted (throw e) done h k = k
  lifted out_of_fuel done h k = done refl
