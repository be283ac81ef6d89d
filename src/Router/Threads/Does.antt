-- ===== src/Router/Threads/Does.antt =====
-- Which method a task carries out when no other thread comes between its steps.
use arduino_q_plugin.Common.{ℕ, ◌≡◌, refl, ap, ◌∙◌, Bool, true, false, if◌then◌else◌}
use arduino_q_plugin.Common.Result.{Result, ok, throw, out_of_fuel}
use arduino_q_plugin.Common.State.{Method, lift, continue_with}
use arduino_q_plugin.Router.Threads.{Task, bind, run}
use arduino_q_plugin.Router.Writes.{Hub}

module _ {Byte : Type 0} where
  -- The task does what the method does.
  abbrev pub Does : {A : Type 0} → ℕ → Task Byte A → Method (Hub Byte) A → Type 0
  Does fd t m = (h : Hub Byte) → run fd t h ≡ m h

  run-bind :
      {A B : Type 0} (fd : ℕ) (t : Task Byte A) (f : A → Task Byte B) (h : Hub Byte)
      → run fd (bind t f) h ≡ continue_with (run fd t h) (λ a. run fd (f a))
  unfolding run bind
  run-bind fd (Task.done (ok a)) f h = refl
  run-bind fd (Task.done (throw e)) f h = refl
  run-bind fd (Task.done out_of_fuel) f h = refl
  run-bind fd (Task.register method t) f h = run-bind fd t f _
  run-bind fd (Task.reset t) f h = run-bind fd t f _
  run-bind fd (Task.lookup method t) f h = run-bind fd (t _) f h
  run-bind fd (Task.send to buffer t) f h = run-bind fd (t _) f _

  continued :
      {A B : Type 0} (p : Result A × Hub Byte) (f g : A → Method (Hub Byte) B)
      → ((a : A) (h : Hub Byte) → f a h ≡ g a h)
      → continue_with p f ≡ continue_with p g
  continued (ok a, h) f g same = same a h
  continued (throw e, h) f g same = refl
  continued (out_of_fuel, h) f g same = refl

  -- A task behind another does what the methods do in that order.
  pub bind-Does :
      {A B : Type 0} (fd : ℕ) (t : Task Byte A) (m : Method (Hub Byte) A) (f : A → Task Byte B)
      (g : A → Method (Hub Byte) B)
      → Does fd t m
      → ((a : A) → Does fd (f a) (g a))
      → Does fd (bind t f) (λ h. continue_with (m h) g)
  bind-Does fd t m f g first next h =
      run-bind fd t f h
      ∙ ap (λ p. continue_with p (λ a. run fd (f a))) (first h)
      ∙ continued (m h) _ g next

  pub if-Does :
      {A : Type 0} (fd : ℕ) (b : Bool) (t u : Task Byte A) (m n : Method (Hub Byte) A)
      → Does fd t m
      → Does fd u n
      → (h : Hub Byte) → run fd (if b then t else u) h ≡ (if b then m h else n h)
  if-Does fd true t u m n x y h = x h
  if-Does fd false t u m n x y h = y h

  pub either :
      {A : Type 0} (fd : ℕ) (b : Bool) (t u : Task Byte A) (m n : Method (Hub Byte) A)
      → Does fd t m
      → Does fd u n
      → Does fd (if b then t else u) (if b then m else n)
  either fd true t u m n x y = x
  either fd false t u m n x y = y

  pub finish-Does : {A : Type 0} (fd : ℕ) (r : Result A) → Does fd (Task.done r) (lift r)
  unfolding run
  finish-Does fd r h = refl
