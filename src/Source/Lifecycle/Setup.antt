-- ===== src/Source/Lifecycle/Setup.antt =====
-- The choice of the mode, and the setup of each mode: they may go on, or have failed.
use arduino_q_plugin.Common.{
  ℕ, String, ◌≡◌, refl, sym, subst, ◌⊎◌, inl, inr, Bool, true, false, not, ◌&&◌, Bool-cases, Option,
  none, some, List, ◌==◌, is_empty-append, if◌then◌else◌, ◌<>◌,
}
use arduino_q_plugin.Common.Result.{Result, ok, throw, out_of_fuel, what, json_error}
use arduino_q_plugin.Json.{Json, Fields, JsonLib, find_field, value_text}
use arduino_q_plugin.Source.{Source}
use arduino_q_plugin.Source.Params.{
  setup_failed, setup_notify_params, checked_names, caught, setup_provided, parse_provided_methods,
  push_methods, provided_param, set_max_queue, set_overflow, go_on, has_empty, param,
}
use arduino_q_plugin.Source.Params.Checked.{
  IsFailed, IsConfigured, Either, setup_notify_params-IsConfigured,
}
use arduino_q_plugin.Source.Calling.{setup_call_params, setup_call, call_args, called_param}
use arduino_q_plugin.Source.Lifecycle.{SourceMode, chosen_mode}
use text.Mathlib.Text.{◌==◌ as text_eq}

-- A plugin that failed stays failed, with an error text, through the setup of either mode.
provided-IsFailed :
    (p : Result (Unit {0}) × List String) (s : Source)
    → IsFailed s
    → IsFailed (caught (checked_names p s)).1
unfolding caught checked_names
provided-IsFailed (ok u, names) s h = elim (Bool-cases (has_empty names)) [
  | inl unnamed ↦ rw unnamed (refl, refl)
  | inr named ↦ rw named h
]
provided-IsFailed (throw e, names) s h =
    (refl, is_empty-append "Invalid provided_rpc parameter: " (what e) refl)
provided-IsFailed (out_of_fuel, names) s h = h

setup_provided-IsFailed :
    (params : Fields) (s : Source) → IsFailed s → IsFailed (setup_provided params s).1
unfolding setup_provided parse_provided_methods
setup_provided-IsFailed params s h = by_param (provided_param params)
  where
    by_param :
        (o : Option Json)
        → IsFailed
            (elim o as (λ _. Bool × Source) [
              | some methods ↦ caught (checked_names (push_methods methods s.provided_methods) s)
              | none ↦
                  (false, setup_failed "Notify mode requires provided_rpc, rpc_call, or rpc_func" s)
            ]).1
    by_param (some methods) = provided-IsFailed (push_methods methods s.provided_methods) s h
    by_param none = (refl, refl)

set_max_queue-IsFailed :
    (lib : JsonLib) (j : Json) (s : Source) → IsFailed s → IsFailed (set_max_queue lib j s).1
unfolding set_max_queue
set_max_queue-IsFailed lib j s h = by_size (lib.get_size j)
  where
    by_size :
        (o : Option ℕ)
        → IsFailed
            (elim o as (λ _. Bool × Source) [
              | none ↦ (
                false,
                setup_failed
                    ("Invalid max_queue parameter: " <> what (json_error (lib.json_text j)))
                    s,
              )
              | some n ↦
                  let bounded = record s { max_queue = n } in
                  if n == 0
                  then (
                    false,
                    setup_failed "Invalid max_queue parameter: must be greater than zero" bounded,
                  )
                  else (true, bounded)
            ]).1
    by_size none = (
      refl,
      is_empty-append "Invalid max_queue parameter: " (what (json_error (lib.json_text j))) refl,
    )
    by_size (some n) = elim (Bool-cases (n == 0)) [
      | inl none_fit ↦ rw none_fit (refl, refl)
      | inr room ↦ rw room h
    ]

set_overflow-IsFailed : (r : Result String) (s : Source) → IsFailed s → IsFailed (set_overflow r s)
unfolding set_overflow
set_overflow-IsFailed (ok policy) s h =
    elim (Bool-cases (not (text_eq policy "drop_oldest") && not (text_eq policy "drop_newest"))) [
      | inl unknown ↦ rw unknown (refl, refl)
      | inr known ↦ rw known h
    ]
set_overflow-IsFailed (throw e) s h =
    (refl, is_empty-append "Invalid overflow parameter: " (what e) refl)
set_overflow-IsFailed out_of_fuel s h = h

go_on-IsFailed :
    (p : Bool × Source) (step : Source → Bool × Source)
    → IsFailed p.1
    → ((s : Source) → IsFailed s → IsFailed (step s).1)
    → IsFailed (go_on p step).1
go_on-IsFailed (true, s) step h next = next s h
go_on-IsFailed (false, s) step h next = h

setup_notify_params-IsFailed :
    (lib : JsonLib) (params : Fields) (s : Source)
    → IsFailed s
    → IsFailed (setup_notify_params lib params s)
unfolding setup_notify_params
setup_notify_params-IsFailed lib params s h =
    go_on-IsFailed (go_on (setup_provided params s) (set_max_queue lib (param "max_queue" params)))
      _
      (go_on-IsFailed (setup_provided params s) _ (setup_provided-IsFailed params s h)
        (set_max_queue-IsFailed lib (param "max_queue" params)))
      (set_overflow-IsFailed (value_text lib "overflow" "drop_oldest" (Json.object params)))

-- The setup of call mode leaves the plugin as it is, or fails.
call_args-Kept :
    (func : Json) (o : Option Json) (s : Source)
    → ((call_args func o s).1 ≡ s) ⊎ IsFailed (call_args func o s).1
unfolding call_args
call_args-Kept func none s = inl refl
call_args-Kept func (some (Json.array is)) s = inl refl
call_args-Kept func (some _) s = inr (refl, refl)

setup_call-Kept :
    (lib : JsonLib) (params : Fields) (o : Option Json) (s : Source)
    → ((setup_call lib params o s).1 ≡ s) ⊎ IsFailed (setup_call lib params o s).1
unfolding setup_call
setup_call-Kept lib params none s = inr (
  refl,
  is_empty-append "Invalid rpc_call parameter: "
      (what (json_error (lib.json_text (Json.object params)))) refl,
)
setup_call-Kept lib params (some func) s = call_args-Kept func (find_field "rpc_args" params) s

-- A setup that may go on, or has failed.
abbrev pub GoesOn : Source → Type 0
GoesOn s = Either (λ t. Unit) s

chosen-GoesOn :
    (b : Bool) (p q : SourceMode × Source) → GoesOn p.1 → GoesOn q.1 → GoesOn (if b then p else q).1
chosen-GoesOn true p q x y = x
chosen-GoesOn false p q x y = y

pub chosen_mode-GoesOn :
    (r : Result String) (mode : SourceMode) (s : Source)
    → s.setup_ok ≡ true
    → GoesOn (chosen_mode r (mode, s)).1
unfolding chosen_mode
chosen_mode-GoesOn (ok text) mode s good =
    chosen-GoesOn (text_eq text "call") _ _ (inl (good, tt)) (
      chosen-GoesOn (text_eq text "poll") _ _ (inl (good, tt)) (
        chosen-GoesOn (text_eq text "notify") _ _ (inl (good, tt)) (
          chosen-GoesOn (text_eq text "receive") _ _ (inl (good, tt))
            (inr (refl, is_empty-append "Invalid mode parameter: " text refl)))))
chosen_mode-GoesOn (throw e) mode s good =
    inr (refl, is_empty-append "Invalid mode parameter: " (what e) refl)
chosen_mode-GoesOn out_of_fuel mode s good = inl (good, tt)

pub setup_notify-Either :
    (lib : JsonLib) (params : Fields) (s : Source)
    → GoesOn s
    → Either IsConfigured (setup_notify_params lib params s)
setup_notify-Either lib params s (inl (good, _)) =
    setup_notify_params-IsConfigured lib params s good
setup_notify-Either lib params s (inr failed) =
    inr (setup_notify_params-IsFailed lib params s failed)

pub setup_call-GoesOn :
    (lib : JsonLib) (params : Fields) (s : Source)
    → GoesOn s
    → GoesOn (setup_call_params lib params s).1
unfolding setup_call_params
setup_call-GoesOn lib params s h = elim (setup_call-Kept lib params (called_param params) s) [
  | inl same ↦ subst GoesOn (sym same) h
  | inr failed ↦ inr failed
]
