-- ===== src/Plugin/Laws.antt =====
-- What stands in the published fields.
use arduino_q_plugin.Common.{String, ◌≡◌, refl, some, is_empty, Bool-cases, inl, inr}
use arduino_q_plugin.Json.{Json, Fields, find_field, set_field}
use arduino_q_plugin.Plugin.{with_agent}

pub result_field :
    (agent : String) (v : Json)
    → find_field "result" (set_field "result" v (with_agent agent Fields.no_fields)) ≡ some v
unfolding with_agent set_field find_field
result_field agent v = elim (Bool-cases (is_empty agent)) [
  | inl nameless ↦ rw nameless refl
  | inr named ↦ rw named refl
]
