-- ===== src/Frames/Returns.antt =====
-- The frame checks, the conversion of an object and the sends return or throw.
use arduino_q_plugin.Common.{ℕ, ◌≡◌, refl, ◌≢◌, inl, inr, Option, none, some, List, arith}
use arduino_q_plugin.Common.Int.{ℤ}
use arduino_q_plugin.Common.Result.{Result, ok, throw, out_of_fuel, ◌>>=◌}
use arduino_q_plugin.Common.State.{Method, continue_with}
use arduino_q_plugin.Msgpack.{Object, Objects, Msgpack, cast}
use arduino_q_plugin.Value.Wire.{object_to_value, elements_to_values}
use arduino_q_plugin.Socket.{World, send_all}
use arduino_q_plugin.Socket.SendAll.{send_all-Sends}
use arduino_q_plugin.Frames.{read_reply, read_result, frame}

abbrev pub Ends : {A : Type 0} → Result A → Type 0
Ends r = r ≢ out_of_fuel

pub Ends-continue :
    {S A B : Type 0} (p : Result A × S) (f : A → Method S B)
    → Ends p.0
    → ((a : A) → p.0 ≡ ok a → Ends (f a p.1).0)
    → Ends (continue_with p f).0
Ends-continue (ok a, s) f h k = k a refl
Ends-continue (throw e, s) f h k = cc
Ends-continue (out_of_fuel, s) f h k = absurd (h refl)

pub Ends-bind :
    {A B : Type 0} (r : Result A) (f : A → Result B)
    → Ends r
    → ((a : A) → Ends (f a))
    → Ends (r >>= f)
Ends-bind (ok a) f h k = k a
Ends-bind (throw e) f h k = cc
Ends-bind out_of_fuel f h k = absurd (h refl)

module _ (mp : Msgpack) where
  pub frame-Ends : (o : Object) → Ends (frame o)
  unfolding frame
  frame-Ends (Object.array (Objects.element type fields)) = cc
  frame-Ends _ = cc

  pub cast-Ends : {A : Type 0} (o : Option A) → Ends (cast mp o)
  cast-Ends none = cc
  cast-Ends (some a) = cc

  mutual
    unfolding object_to_value

    pub value-Ends : (o : Object) → Ends (object_to_value mp o)
    value-Ends Object.nil = cc
    value-Ends (Object.boolean b) = cc
    value-Ends (Object.positive_integer n) = ground arith
    value-Ends (Object.negative_integer n) = cc
    value-Ends (Object.float32 d) = cc
    value-Ends (Object.float64 d) = cc
    value-Ends (Object.str s) = cc
    value-Ends (Object.array os) = Ends-bind (elements_to_values mp os) _ (values_end os) (λ vs. cc)
    value-Ends (Object.other n) = cc

    pub values_end : (os : Objects) → Ends (elements_to_values mp os)
    values_end Objects.no_objects = cc
    values_end (Objects.element o os) =
        Ends-bind (object_to_value mp o) _ (value-Ends o)
          λ v. Ends-bind (elements_to_values mp os) _ (values_end os) (λ vs. cc)

  pub read_result-Ends : (error result : Object) → Ends (read_result mp error result)
  unfolding read_result
  read_result-Ends error result = ground (arith, value-Ends result)

  pub read_reply-Ends : (id : ℕ) (t : ℤ) (fields : Objects) → Ends (read_reply mp id t fields)
  unfolding read_reply
  read_reply-Ends id t
        (Objects.element a (Objects.element error (Objects.element result Objects.no_objects))) =
      ground (arith, read_result-Ends error result)
  read_reply-Ends id t _ = cc

  pub send_all-Ends : (payload : List mp.Byte) (w : World mp.Byte) → Ends (send_all payload w).0
  send_all-Ends payload w = elim (send_all-Sends payload w) [
    | inl (done, _) ↦ λ e. cc
    | inr (x, _, throws, _, _) ↦ λ e. cc
  ]
