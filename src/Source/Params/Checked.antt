-- ===== src/Source/Params/Checked.antt =====
-- What `setup_notify_params` accepts.
use arduino_q_plugin.Common.{
  ℕ, ◌<◌, String, ◌≡◌, ◌≢◌, refl, Bool, true, false, not, ◌&&◌, ◌||◌, ◌==◌, ◌⊎◌, inl, inr, Option,
  none, some, List, [], ◌∷◌, ◌++◌, Bool-cases, is_empty, is_empty-append, arith, if◌then◌else◌,
  ◌<>◌,
}
use arduino_q_plugin.Common.Result.{Result, ok, throw, out_of_fuel, what, json_error}
use arduino_q_plugin.Json.{Json, Items, Fields, JsonLib, find_field, value_text}
use arduino_q_plugin.Source.{Source}
use arduino_q_plugin.Source.Params.{
  push_names, push_methods, has_empty, checked_names, parse_provided_methods, provided_param,
  caught, setup_provided, param, set_max_queue, set_overflow, go_on, setup_notify_params,
  setup_failed,
}
use text.Mathlib.Text.{◌==◌ as text_eq}

-- A setup that failed says why.
abbrev pub IsFailed : Source → Type 0
IsFailed s = (s.setup_ok ≡ false) × (is_empty s.error_text ≡ false)

-- No method name is empty.
abbrev IsNamed : Source → Type 0
IsNamed s = has_empty s.provided_methods ≡ false

abbrev IsBounded : Source → Type 0
IsBounded s = IsNamed s × (0 < s.max_queue)

abbrev pub IsConfigured : Source → Type 0
IsConfigured s =
    IsNamed s
    × (0 < s.max_queue)
    × ((text_eq s.overflow_policy "drop_oldest" || text_eq s.overflow_policy "drop_newest") ≡ true)

abbrev pub Either : (Source → Type 0) → Source → Type 0
Either P s = ((s.setup_ok ≡ true) × P s) ⊎ IsFailed s

-- A step that goes on leaves a plugin as described, or a failed one; a step that returns has failed.
abbrev Stepped : (Source → Type 0) → Bool × Source → Type 0
Stepped P (true, s) = Either P s
Stepped P (false, s) = IsFailed s

go_on-Stepped :
    (P Q : Source → Type 0) (p : Bool × Source) (step : Source → Bool × Source)
    → Stepped P p
    → ((s : Source) → Either P s → Stepped Q (step s))
    → Stepped Q (go_on p step)
go_on-Stepped P Q (true, s) step h next = next s h
go_on-Stepped P Q (false, s) step h next = h

push_names-ends : (is : Items) (names : List String) → (push_names is names).0 ≢ out_of_fuel
unfolding push_names
push_names-ends Items.no_items names = λ e. cc
push_names-ends (Items.item (Json.string method) is) names =
    push_names-ends is (names ++ method ∷ [])
push_names-ends (Items.item _ is) names = λ e. cc

push_methods-ends : (j : Json) (names : List String) → (push_methods j names).0 ≢ out_of_fuel
unfolding push_methods
push_methods-ends (Json.string method) names = λ e. cc
push_methods-ends (Json.array is) names = push_names-ends is names
push_methods-ends _ names = λ e. cc

caught-Stepped :
    (p : Result (Unit {0}) × List String) (s : Source)
    → p.0 ≢ out_of_fuel
    → s.setup_ok ≡ true
    → Stepped IsNamed (caught (checked_names p s))
unfolding caught checked_names
caught-Stepped (ok u, names) s h good = elim (Bool-cases (has_empty names)) [
  | inl some_empty ↦ rw some_empty (inr (refl, refl))
  | inr full ↦ rw full (inl (good, full))
]
caught-Stepped (throw e, names) s h good =
    (refl, is_empty-append "Invalid provided_rpc parameter: " _ refl)
caught-Stepped (out_of_fuel, names) s h good = absurd (h refl)

setup_provided-Stepped :
    (params : Fields) (s : Source) → s.setup_ok ≡ true → Stepped IsNamed (setup_provided params s)
unfolding setup_provided parse_provided_methods
setup_provided-Stepped params s good = by_param (provided_param params)
  where
    by_param :
        (o : Option Json)
        → Stepped IsNamed (elim o [
          | some methods ↦ caught (parse_provided_methods methods s)
          | none ↦
              (false, setup_failed "Notify mode requires provided_rpc, rpc_call, or rpc_func" s)
        ])
    by_param none = (refl, refl)
    by_param (some methods) =
        caught-Stepped (push_methods methods s.provided_methods) s
          (push_methods-ends methods s.provided_methods) good

set_max_queue-Stepped :
    (lib : JsonLib) (j : Json) (s : Source)
    → Either IsNamed s
    → Stepped IsBounded (set_max_queue lib j s)
unfolding set_max_queue
set_max_queue-Stepped lib j s h = by_size (lib.get_size j) h
  where
    bounded :
        (n : ℕ)
        → (n == 0) ≡ false
        → Either IsNamed s
        → Either IsBounded (record s { max_queue = n })
    bounded n some_room (inl (good, named)) = inl (good, (named, ground arith))
    bounded n some_room (inr failed) = inr failed

    by_size :
        (o : Option ℕ)
        → Either IsNamed s
        → Stepped IsBounded (elim o [
          | none ↦ (
            false,
            setup_failed ("Invalid max_queue parameter: " <> what (json_error (lib.json_text j))) s,
          )
          | some n ↦
              if n == 0
              then (
                false,
                setup_failed "Invalid max_queue parameter: must be greater than zero"
                    (record s { max_queue = n }),
              )
              else (true, record s { max_queue = n })
        ])
    by_size none h = (refl, is_empty-append "Invalid max_queue parameter: " _ refl)
    by_size (some n) h = elim (Bool-cases (n == 0)) [
      | inl empty ↦ rw empty (refl, refl)
      | inr room ↦ rw room (bounded n room h)
    ]

value_text-ends :
    (lib : JsonLib) (key fallback : String) (j : Json) → value_text lib key fallback j ≢ out_of_fuel
unfolding value_text
value_text-ends lib key fallback (Json.object fs) = by_field (find_field key fs)
  where
    by_field :
        (o : Option Json)
        → elim o [
          | none ↦ ok fallback
          | some (Json.string text) ↦ ok text
          | some j ↦ throw (json_error (lib.json_text j))
        ]
          ≢ out_of_fuel
    by_field none = λ e. cc
    by_field (some (Json.string text)) = λ e. cc
    by_field (some _) = λ e. cc
value_text-ends lib key fallback _ = λ e. cc

set_overflow-Either :
    (r : Result String) (s : Source)
    → r ≢ out_of_fuel
    → Either IsBounded s
    → Either IsConfigured (set_overflow r s)
unfolding set_overflow
set_overflow-Either (throw e) s h b =
    inr (refl, is_empty-append "Invalid overflow parameter: " _ refl)
set_overflow-Either out_of_fuel s h b = absurd (h refl)
set_overflow-Either (ok policy) s h b = elim (Bool-cases (known policy)) [
  | inl valid ↦ rw (negated policy, valid) (set_policy valid b)
  | inr other ↦ rw (negated policy, other) (inr (refl, refl))
]
  where
    known : String → Bool
    known p = text_eq p "drop_oldest" || text_eq p "drop_newest"

    set_policy :
        known policy ≡ true
        → Either IsBounded s
        → Either IsConfigured (record s { overflow_policy = policy })
    set_policy valid (inl (good, bounded)) = inl (good, (bounded.0, bounded.1, valid))
    set_policy valid (inr failed) = inr failed

    negated :
        (p : String)
        → (not (text_eq p "drop_oldest") && not (text_eq p "drop_newest")) ≡ not (known p)
    negated p = ground arith

-- Unless it failed before, either the setup of notify mode succeeds, with a queue that has room, a
-- known overflow policy and no empty method name, or it fails and the error text says why.
pub setup_notify_params-IsConfigured :
    (lib : JsonLib) (params : Fields) (s : Source)
    → s.setup_ok ≡ true
    → Either IsConfigured (setup_notify_params lib params s)
unfolding setup_notify_params
setup_notify_params-IsConfigured lib params s good =
    last (go_on (setup_provided params s) (set_max_queue lib j)) (
      go_on-Stepped IsNamed IsBounded (setup_provided params s) (set_max_queue lib j)
        (setup_provided-Stepped params s good) (set_max_queue-Stepped lib j))
  where
    j : Json
    j = param "max_queue" params

    policy : Result String
    policy = value_text lib "overflow" "drop_oldest" (Json.object params)

    last :
        (p : Bool × Source)
        → Stepped IsBounded p
        → Either IsConfigured (go_on p (λ t. (true, set_overflow policy t))).1
    last (true, t) h =
        set_overflow-Either policy t
          (value_text-ends lib "overflow" "drop_oldest" (Json.object params)) h
    last (false, t) h = inr h
