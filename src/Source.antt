-- ===== src/Source.antt =====
-- unoq_source.cpp: the queue between the receiver thread and `get_output`, in notify mode. The mutex
-- makes each of these operations one step.
pub mod Batches
pub mod Calling
pub mod Lifecycle
pub mod Main
pub mod Params
pub mod Queue
pub mod Receiver
use arduino_q_plugin.Common.{
  ℕ, String, Bool, true, false, not, ◌&&◌, Option, none, some, List, [], ◌∷◌, ◌++◌, length, leb,
  is_empty, if◌then◌else◌,
}
use arduino_q_plugin.Common.Result.{Result, ok, throw, out_of_fuel, json_error, Exception}
use arduino_q_plugin.Plugin.{ReturnType, with_agent}
use arduino_q_plugin.Json.{
  set_field, Json, Items, Fields, JsonLib, find_field, get_field, value_text,
}
use text.Mathlib.Text.{◌==◌ as text_eq}

-- The members that notify mode uses. `agent_id` and `error` are those of the base class.
pub record Source : Type 0 where
  pub setup_ok : Bool
  pub error_text : String
  pub agent_id : String
  pub message_queue : List Json
  pub receiver_error : String
  pub provided_methods : List String
  pub max_queue : ℕ
  pub overflow_policy : String

-- `pop_front`, on a queue that is not empty.
abbrev pub pop_front : List Json → List Json
pop_front [] = []
pop_front (m ∷ ms) = ms

unfoldable pub enqueue_message : Json → Source → Bool × Source
enqueue_message message s =
    if leb s.max_queue (length s.message_queue)
    then if text_eq s.overflow_policy "drop_newest"
      then (false, s)
      else (true, record s { message_queue = pop_front s.message_queue ++ message ∷ [] })
    else (true, record s { message_queue = s.message_queue ++ message ∷ [] })

-- The first error is kept.
unfoldable pub set_receiver_error : String → Source → Source
set_receiver_error message s =
    if is_empty s.receiver_error then record s { receiver_error = message } else s

unfoldable pub append_item : Items → Json → Items
append_item Items.no_items j = Items.item j Items.no_items
append_item (Items.item i is) j = Items.item i (append_item is j)

-- `push_back` to a batch, which is an array, or null when its key was just made.
push_back : Json → Json → Json
unfolding append_item
push_back (Json.array is) j = Json.array (append_item is j)
push_back _ j = Json.array (Items.item j Items.no_items)

-- `queued_batches[k].push_back(j)`.
unfoldable pub push_batch : String → Json → Fields → Fields
unfolding push_back
push_batch k j Fields.no_fields = Fields.field k (push_back Json.null j) Fields.no_fields
push_batch k j (Fields.field i v fs) =
    if text_eq i k then Fields.field i (push_back v j) fs else Fields.field i v (push_batch k j fs)

unfoldable pub message_func : JsonLib → Json → Result String
message_func lib queued_message = value_text lib "rpc_func" "" queued_message

unfoldable pub message_args : Json → Json
message_args j = elim (get_field "rpc_args" j) [ none ↦ Json.array Items.no_items | some a ↦ a ]

-- The drain of the queue into the batches; what was popped stays popped if a message throws.
unfoldable pub drain : JsonLib → List Json → Fields → Result Fields × List Json
drain lib [] batches = (ok batches, [])
drain lib (m ∷ ms) batches = elim (message_func lib m) [
  | ok func ↦ drain lib ms (push_batch func (message_args m) batches)
  | throw e ↦ (throw e, ms)
  | out_of_fuel ↦ (out_of_fuel, ms)
]

-- An empty batch for every provided method.
unfoldable pub empty_batches : List String → Fields → Fields
empty_batches [] batches = batches
empty_batches (m ∷ ms) batches = empty_batches ms (set_field m (Json.array Items.no_items) batches)

abbrev is_nil : List Json → Bool
is_nil [] = true
is_nil (m ∷ ms) = false

publish : Source → Result Fields × List Json → Result (ReturnType × Fields) × Source
unfolding with_agent
publish s (ok batches, rest) =
    (ok (ReturnType.success, with_agent s.agent_id batches), record s { message_queue = rest })
publish s (throw e, rest) = (throw e, record s { message_queue = rest })
publish s (out_of_fuel, rest) = (out_of_fuel, record s { message_queue = rest })

-- `get_output` in notify mode: what is returned, the fields of `out`, and the plugin afterwards.
-- `out` is cleared first.
unfoldable pub get_output_notify : JsonLib → Source → Result (ReturnType × Fields) × Source
unfolding publish
get_output_notify lib s =
    if not s.setup_ok
    then (
      ok (ReturnType.critical, Fields.field "error" (Json.string s.error_text) Fields.no_fields),
      s,
    )
    else if is_nil s.message_queue && not (is_empty s.receiver_error)
    then (
      ok (ReturnType.error, Fields.field "error" (Json.string s.receiver_error) Fields.no_fields),
      s,
    )
    else if is_nil s.message_queue
    then (ok (ReturnType.retry, Fields.no_fields), s)
    else publish s (drain lib s.message_queue (empty_batches s.provided_methods Fields.no_fields))
