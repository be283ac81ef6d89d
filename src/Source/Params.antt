-- ===== src/Source/Params.antt =====
-- unoq_source.cpp: `parse_provided_methods` and `setup_notify_params`. `params` is `_params`, the
-- parameters merged over the defaults; `get_size` is `get<size_t>` of the JSON library.
pub mod Checked
use arduino_q_plugin.Common.{
  ℕ, zero, suc, String, Bool, true, false, not, ◌&&◌, ◌||◌, Option, none, some, List, [], ◌∷◌, ◌++◌,
  is_empty, if◌then◌else◌, ◌<>◌, ◌==◌,
}
use arduino_q_plugin.Common.Result.{
  Result, ok, throw, out_of_fuel, json_error, invalid_argument, what,
}
use arduino_q_plugin.Json.{Json, Items, Fields, JsonLib, find_field, value_text}
use arduino_q_plugin.Source.{Source}
use text.Mathlib.Text.{◌==◌ as text_eq}

-- `_error = error; _setup_ok = false`.
abbrev pub setup_failed : String → Source → Source
setup_failed error s = record s { setup_ok = false; error_text = error }

-- The names that are pushed, those before an entry that throws included.
unfoldable pub push_names : Items → List String → Result (Unit {0}) × List String
push_names Items.no_items names = (ok tt, names)
push_names (Items.item (Json.string method) is) names = push_names is (names ++ method ∷ [])
push_names (Items.item _ is) names =
    (throw (invalid_argument "provided_rpc entries must be strings"), names)

unfoldable pub push_methods : Json → List String → Result (Unit {0}) × List String
push_methods (Json.string method) names = (ok tt, names ++ method ∷ [])
push_methods (Json.array is) names = push_names is names
push_methods _ names =
    (throw (invalid_argument "provided_rpc must be a string or an array of strings"), names)

unfoldable pub has_empty : List String → Bool
has_empty [] = false
has_empty (name ∷ names) = is_empty name || has_empty names

-- The end of `parse_provided_methods`.
unfoldable pub checked_names : Result (Unit {0}) × List String → Source → Result (Unit {0}) × Source
checked_names (ok u, names) s =
    let named = record s { provided_methods = names } in
    (
      ok tt,
      if has_empty names
          then setup_failed "Invalid provided_rpc parameter: method name is empty" named
          else named,
    )
checked_names (throw e, names) s = (throw e, record s { provided_methods = names })
checked_names (out_of_fuel, names) s = (out_of_fuel, record s { provided_methods = names })

unfoldable pub parse_provided_methods : Json → Source → Result (Unit {0}) × Source
parse_provided_methods methods s = checked_names (push_methods methods s.provided_methods) s

-- The key that lists the methods.
unfoldable pub provided_param : Fields → Option Json
provided_param params = elim (find_field "provided_rpc" params) [
  | some methods ↦ some methods
  | none ↦ elim (find_field "rpc_call" params) [
    | some methods ↦ some methods
    | none ↦ find_field "rpc_func" params
  ]
]

-- A step of `setup_notify_params`: whether it goes on, and the plugin.
unfoldable pub caught : Result (Unit {0}) × Source → Bool × Source
caught (ok u, s) = (true, s)
caught (throw e, s) = (false, setup_failed ("Invalid provided_rpc parameter: " <> what e) s)
caught (out_of_fuel, s) = (false, s)

unfoldable pub setup_provided : Fields → Source → Bool × Source
setup_provided params s = elim (provided_param params) [
  | some methods ↦ caught (parse_provided_methods methods s)
  | none ↦ (false, setup_failed "Notify mode requires provided_rpc, rpc_call, or rpc_func" s)
]

-- `_params[key]`: a key that is missing reads as null.
abbrev pub param : String → Fields → Json
param key params = elim (find_field key params) [ none ↦ Json.null | some j ↦ j ]

unfoldable pub set_max_queue : JsonLib → Json → Source → Bool × Source
set_max_queue lib j s = elim (lib.get_size j) [
  | none ↦ (
    false,
    setup_failed ("Invalid max_queue parameter: " <> what (json_error (lib.json_text j))) s,
  )
  | some n ↦
      let bounded = record s { max_queue = n } in
      if n == 0
      then (false, setup_failed "Invalid max_queue parameter: must be greater than zero" bounded)
      else (true, bounded)
]

unfoldable pub set_overflow : Result String → Source → Source
set_overflow (ok policy) s =
    if not (text_eq policy "drop_oldest") && not (text_eq policy "drop_newest")
    then setup_failed "Invalid overflow parameter: use drop_oldest or drop_newest"
        (record s { overflow_policy = policy })
    else record s { overflow_policy = policy }
set_overflow (throw e) s = setup_failed ("Invalid overflow parameter: " <> what e) s
set_overflow out_of_fuel s = s

-- The next step, unless a step has returned.
abbrev pub go_on : Bool × Source → (Source → Bool × Source) → Bool × Source
go_on (true, s) step = step s
go_on (false, s) step = (false, s)

unfoldable pub setup_notify_params : JsonLib → Fields → Source → Source
setup_notify_params lib params s =
    (go_on (go_on (setup_provided params s) (set_max_queue lib (param "max_queue" params))) (λ t.
      (true, set_overflow (value_text lib "overflow" "drop_oldest" (Json.object params)) t))).1
