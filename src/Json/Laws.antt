-- ===== src/Json/Laws.antt =====
-- Reading a field after another was written.
use arduino_q_plugin.Common.{String, ◌≡◌, refl, some, arith, if◌then◌else◌}
use arduino_q_plugin.Json.{Json, Fields, find_field, set_field}
use text.Mathlib.Text.{◌==◌ as text_eq}
use text.Mathlib.TextEquality.{eq_iff}

pub find-set_field :
    (k j : String) (v : Json) (fs : Fields)
    → find_field j (set_field k v fs) ≡ (if text_eq k j then some v else find_field j fs)
unfolding find_field set_field
find-set_field k j v Fields.no_fields = refl
find-set_field k j v (Fields.field i w fs) =
    ground (arith, eq_iff k j, eq_iff i k, eq_iff i j, find-set_field k j v fs)
