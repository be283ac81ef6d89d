-- ===== src/Source/Batches.antt =====
-- What `get_output` publishes in notify mode, for a queue of received messages.
use arduino_q_plugin.Common.{
  String, ◌≡◌, refl, ◌∙◌, Bool, true, false, ◌||◌, Option, none, some, List, [], ◌∷◌, is_empty,
  Bool-cases, inl, inr, if◌then◌else◌, arith,
}
use arduino_q_plugin.Common.Result.{ok}
use arduino_q_plugin.Json.Laws.{find-set_field}
use arduino_q_plugin.Json.{
  set_field, Json, Items, Fields, JsonLib, find_field, get_field, value_text,
}
use arduino_q_plugin.Value.{Message}
use arduino_q_plugin.Value.Json.{to_json, values_to_json}
use arduino_q_plugin.Plugin.{ReturnType, with_agent}
use arduino_q_plugin.Source.{
  Source, push_batch, push_back, append_item, message_func, message_args, drain, empty_batches,
  get_output_notify,
}
use text.Mathlib.Text.{◌==◌ as text_eq}
use text.Mathlib.TextEquality.{eq_iff}

-- The queue entries of received messages.
abbrev pub queued : List Message → List Json
queued [] = []
queued (m ∷ ms) = to_json m ∷ queued ms

-- The arguments of the messages for a method, in the order of their arrival, behind those of `is`.
unfoldable pub args_after : Items → String → List Message → Items
args_after is k [] = is
args_after is k (m ∷ ms) =
    args_after (if text_eq m.method k then append_item is (values_to_json m.args) else is) k ms

unfoldable pub is_called : String → List Message → Bool
is_called k [] = false
is_called k (m ∷ ms) = text_eq m.method k || is_called k ms

unfoldable pub contains : String → List String → Bool
contains k [] = false
contains k (m ∷ ms) = text_eq m k || contains k ms

-- The batches after all messages are pushed.
unfoldable pub pushed_all : List Message → Fields → Fields
pushed_all [] b = b
pushed_all (m ∷ ms) b = pushed_all ms (push_batch m.method (values_to_json m.args) b)

drain-queued :
    (lib : JsonLib) (ms : List Message) (b : Fields)
    → drain lib (queued ms) b ≡ (ok (pushed_all ms b), [])
unfolding drain pushed_all to_json message_func value_text message_args find_field get_field
drain-queued lib [] b = refl
drain-queued lib (m ∷ ms) b = drain-queued lib ms (push_batch m.method (values_to_json m.args) b)

-- A batch with one more entry.
abbrev grown : Option Json → Json → Json
grown none v = push_back Json.null v
grown (some w) v = push_back w v

find-push_batch :
    (k j : String) (v : Json) (fs : Fields)
    → find_field j (push_batch k v fs)
      ≡ (if text_eq k j then some (grown (find_field j fs) v) else find_field j fs)
unfolding find_field push_batch
find-push_batch k j v Fields.no_fields = refl
find-push_batch k j v (Fields.field i w fs) =
    ground (arith, eq_iff k j, eq_iff i k, eq_iff i j, find-push_batch k j v fs)

-- A batch that is there grows by the arguments of the messages for its method.
find-pushed_all :
    (k : String) (ms : List Message) (b : Fields) (is : Items)
    → find_field k b ≡ some (Json.array is)
    → find_field k (pushed_all ms b) ≡ some (Json.array (args_after is k ms))
unfolding pushed_all args_after push_back
find-pushed_all k [] b is h = h
find-pushed_all k (m ∷ ms) b is h =
    let args = values_to_json m.args in
    find-pushed_all k ms (push_batch m.method args b)
      (if text_eq m.method k then append_item is args else is)
      (find-push_batch m.method k args b ∙ ground (arith, h))

-- A batch that is not there is made by the first message for its method.
find-pushed_all_new :
    (k : String) (ms : List Message) (b : Fields)
    → find_field k b ≡ none
    → find_field k (pushed_all ms b)
      ≡ (if is_called k ms then some (Json.array (args_after Items.no_items k ms)) else none)
unfolding pushed_all args_after push_back is_called append_item
find-pushed_all_new k [] b h = h
find-pushed_all_new k (m ∷ ms) b h =
    let args = values_to_json m.args in
    let found = find-push_batch m.method k args b in
    elim (Bool-cases (text_eq m.method k)) [
      | inl same ↦ rw same (
          find-pushed_all k ms (push_batch m.method args b) (Items.item args Items.no_items)
            (found ∙ rw (same, h)))
      | inr other ↦
          rw other (find-pushed_all_new k ms (push_batch m.method args b) (found ∙ rw other h))
    ]

find-empty_batches :
    (k : String) (ps : List String) (b : Fields)
    → find_field k (empty_batches ps b)
      ≡ (if contains k ps then some (Json.array Items.no_items) else find_field k b)
unfolding empty_batches contains
find-empty_batches k [] b = refl
find-empty_batches k (p ∷ ps) b =
    find-empty_batches k ps (set_field p (Json.array Items.no_items) b)
    ∙ ground (arith, find-set_field p k (Json.array Items.no_items) b)

-- What the published output holds under a method's name: the arguments of its messages in the order
-- of their arrival, and an empty array for a provided method without messages.
abbrev pub expected : List String → String → List Message → Option Json
expected ps k ms =
    if contains k ps || is_called k ms
    then some (Json.array (args_after Items.no_items k ms))
    else none

published :
    (k : String) (ps : List String) (ms : List Message)
    → find_field k (pushed_all ms (empty_batches ps Fields.no_fields)) ≡ expected ps k ms
published k ps ms = elim (Bool-cases (contains k ps)) [
  | inl provided ↦ rw provided (
      find-pushed_all k ms _ Items.no_items
        (find-empty_batches k ps Fields.no_fields ∙ rw provided))
  | inr other ↦ rw other (
      find-pushed_all_new k ms _
        (find-empty_batches k ps Fields.no_fields ∙ (unfold find_field in rw other)))
]

module _ (lib : JsonLib) (s : Source) (m : Message) (ms : List Message) (ready : s.setup_ok ≡ true)
    (waiting : s.message_queue ≡ queued (m ∷ ms)) where
  -- With a setup that succeeded and received messages waiting, `get_output` succeeds, empties the
  -- queue, and publishes under every name but agent_id exactly what is expected of it.
  pub get_output-batches :
      (k : String)
      → text_eq "agent_id" k ≡ false
      → (out : Fields) × (get_output_notify lib s
          ≡ (ok (ReturnType.success, out), record s { message_queue = [] }))
        × (find_field k out ≡ expected s.provided_methods k (m ∷ ms))
  unfolding get_output_notify
  get_output-batches k other =
      (with_agent s.agent_id batches, rw (ready, waiting, drain-queued lib (m ∷ ms)), found)
    where
      batches : Fields
      batches = pushed_all (m ∷ ms) (empty_batches s.provided_methods Fields.no_fields)

      found : find_field k (with_agent s.agent_id batches) ≡ expected s.provided_methods k (m ∷ ms)
      found = elim (Bool-cases (is_empty s.agent_id)) [
        | inl empty ↦ rw empty (published k s.provided_methods (m ∷ ms))
        | inr named ↦ rw named (
            find-set_field "agent_id" k (Json.string s.agent_id) batches
            ∙ rw other (published k s.provided_methods (m ∷ ms)))
      ]
