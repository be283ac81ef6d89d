-- ===== src/Throughput/Specs/Accepted.antt =====
-- What an input that is accepted holds.
use arduino_q_plugin.Common.{
  ℕ, zero, suc, String, ◌≡◌, ◌≢◌, refl, subst, Option, some, List, [], ◌∷◌,
}
use arduino_q_plugin.Common.Int.{ℤ, pos, negsuc}
use arduino_q_plugin.Common.Result.{Result, ok, throw, out_of_fuel, ◌>>=◌, ok-injective, >>=-eq-ok}
use arduino_q_plugin.Json.{Json, Items, Fields, JsonLib, find_field, value_text}
use arduino_q_plugin.Value.{Values}
use arduino_q_plugin.Throughput.Specs.{
  TestSpec, test_spec, test_specs, Settings, settings, accepted, described, with_iterations,
  args_of, iterations_of, with_method, misshaped, with_tests, nonempty, of_document, at_least_0,
  integer_setting,
}

abbrev pub IsRunnable : TestSpec → Type 0
IsRunnable test = (n : ℕ) × (test.iterations ≡ pos (suc n))

abbrev pub AreRunnable : List TestSpec → Type 0
AreRunnable [] = Unit
AreRunnable (test ∷ rest) = IsRunnable test × AreRunnable rest

-- Some test, each with a positive number of rounds, and no negative number of warmup rounds.
abbrev pub IsReady : Settings → Type 0
IsReady s = (s.tests ≢ []) × AreRunnable s.tests × ((n : ℕ) × (s.warmup ≡ pos n))

accepted-injective : {A : Type 0} {a b : A} → accepted a ≡ accepted b → a ≡ b
accepted-injective e = cc

from_args :
    (r : Result Values) (method label : String) (n : ℕ) (test : TestSpec)
    → r >>= (λ args.
      ok (record { label = label; method = method; args = args; iterations = pos (suc n) }))
      ≡ ok test
    → IsRunnable test
from_args (ok args) method label n test e = (n, cc)
from_args (throw x) method label n test e = absurd cc
from_args out_of_fuel method label n test e = absurd cc

module _ (lib : JsonLib) (get_number : Json → Option ℤ) (show_nat : ℕ → String) where
  module _ (global_iterations : ℤ) where
    with_iterations-IsRunnable :
        (fs : Fields) (method label : String) (iterations : ℤ) (test : TestSpec)
        → with_iterations lib get_number show_nat global_iterations fs method label iterations
          ≡ ok test
        → IsRunnable test
    unfolding with_iterations
    with_iterations-IsRunnable fs method label (pos zero) test e = absurd cc
    with_iterations-IsRunnable fs method label (pos (suc n)) test e =
        from_args
          (args_of lib get_number show_nat global_iterations label (find_field "rpc_args" fs))
          method label n test e
    with_iterations-IsRunnable fs method label (negsuc n) test e = absurd cc

    described-IsRunnable :
        (fs : Fields) (method : String) (test : TestSpec)
        → described lib get_number show_nat global_iterations fs method ≡ ok test
        → IsRunnable test
    unfolding described
    described-IsRunnable fs method test e =
        let (label, _, e₁) = >>=-eq-ok (value_text lib "label" method (Json.object fs)) _ e in
        let (iterations, _, e₂) =
          >>=-eq-ok
            (iterations_of lib get_number show_nat global_iterations (find_field "iterations" fs)) _
            e₁ in
        with_iterations-IsRunnable fs method label iterations test e₂

    with_method-IsRunnable :
        (index : ℕ) (fs : Fields) (o : Option Json) (test : TestSpec)
        → with_method lib get_number show_nat global_iterations index fs o ≡ ok test
        → IsRunnable test
    unfolding with_method misshaped
    with_method-IsRunnable index fs (some (Json.string method)) test e =
        described-IsRunnable fs method test e
    with_method-IsRunnable index fs _ test e = absurd cc

    test_spec-IsRunnable :
        (index : ℕ) (j : Json) (test : TestSpec)
        → test_spec lib get_number show_nat global_iterations index j ≡ ok test
        → IsRunnable test
    unfolding test_spec misshaped
    test_spec-IsRunnable index (Json.object fs) test e =
        with_method-IsRunnable index fs (find_field "rpc_func" fs) test e
    test_spec-IsRunnable index _ test e = absurd cc

    test_specs-AreRunnable :
        (index : ℕ) (entries : Items) (tests : List TestSpec)
        → test_specs lib get_number show_nat global_iterations index entries ≡ ok tests
        → AreRunnable tests
    unfolding test_specs
    test_specs-AreRunnable index Items.no_items [] e = tt
    test_specs-AreRunnable index Items.no_items (test ∷ rest) e = absurd cc
    test_specs-AreRunnable index (Items.item j js) tests e =
        let (test, e₁, e₂) =
          >>=-eq-ok (test_spec lib get_number show_nat global_iterations (suc index) j) _ e in
        let (rest, e₃, e₄) =
          >>=-eq-ok (test_specs lib get_number show_nat global_iterations (suc index) js) _ e₂ in
        let each : AreRunnable (test ∷ rest) = (
          test_spec-IsRunnable (suc index) j test e₁,
          test_specs-AreRunnable (suc index) js rest e₃,
        ) in
        subst AreRunnable (ok-injective e₄) each

  with_tests-IsReady :
      (path : String) (warmup : ℤ) (r : Result (List TestSpec)) (t : Settings)
      → ((tests : List TestSpec) → r ≡ ok tests → AreRunnable tests)
      → ((n : ℕ) × (warmup ≡ pos n))
      → with_tests lib get_number show_nat path warmup r ≡ accepted t
      → IsReady t
  unfolding with_tests nonempty
  with_tests-IsReady path warmup (ok []) t runnable warm e = absurd cc
  with_tests-IsReady path warmup (ok (test ∷ rest)) t runnable warm e =
      subst IsReady (accepted-injective e) ((λ q. absurd cc), runnable (test ∷ rest) refl, warm)
  with_tests-IsReady path warmup (throw x) t runnable warm e = absurd cc
  with_tests-IsReady path warmup out_of_fuel t runnable warm e = absurd cc

  warmed : (z : ℤ) → (n : ℕ) × (at_least_0 lib get_number show_nat z ≡ pos n)
  unfolding at_least_0
  warmed (pos n) = (n, refl)
  warmed (negsuc n) = (0, refl)

  of_document-IsReady :
      (default override : String) (fs : Fields) (o : Option Json) (s : Settings)
      → of_document lib get_number show_nat default override fs o ≡ accepted s
      → IsReady s
  unfolding of_document
  of_document-IsReady default override fs (some (Json.array entries)) s e =
      with_tests-IsReady _ _ _ s (λ tests e'. test_specs-AreRunnable _ 0 entries tests e')
        (warmed (integer_setting lib get_number show_nat (find_field "warmup" fs) (pos 0))) e
  of_document-IsReady default override fs _ s e = absurd cc

  -- An input that is accepted has a test, each of its tests has a positive number of iterations, and
  -- the number of warmup calls is not negative.
  pub settings-IsReady :
      (default override : String) (doc : Json) (s : Settings)
      → settings lib get_number show_nat default override doc ≡ accepted s
      → IsReady s
  unfolding settings
  settings-IsReady default override (Json.object fs) s e =
      of_document-IsReady default override fs (find_field "tests" fs) s e
  settings-IsReady default override _ s e = absurd cc
