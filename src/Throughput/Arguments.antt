-- ===== src/Throughput/Arguments.antt =====
-- rpc_throughput.cpp: the loop of `main` over its arguments, without its messages.
use arduino_q_plugin.Common.{
  ℕ, String, Bool, true, false, not, ◌&&◌, List, [], ◌∷◌, is_empty, if◌then◌else◌,
}
use text.Mathlib.Text.{starts_with, ◌==◌ as text_eq}

pub record Options : Type 0 where
  pub input_path : String
  pub socket_override : String
  pub emit_json : Bool

-- `main` returns at once, or goes on with the options.
pub data Parsed : Type 0 where
  returned : ℕ → Parsed
  options : Options → Parsed

abbrev pub no_options : Options
no_options = record { input_path = ""; socket_override = ""; emit_json = false }

-- The body of the loop. `socket` is what `--socket` does, and `next` the rounds that follow.
by_argument : String → Options → (Options → Parsed) → Parsed → Parsed
by_argument arg o next socket =
    if text_eq arg "-h"
    then returned 0
    else if text_eq arg "--help"
    then returned 0
    else if text_eq arg "--json"
    then next (record o { emit_json = true })
    else if text_eq arg "--socket"
    then socket
    else if not (is_empty arg) && starts_with arg "-"
    then returned 1
    else if is_empty o.input_path
    then next (record o { input_path = arg })
    else returned 1

unfoldable pub parse_arguments : List String → Options → Parsed
unfolding by_argument
parse_arguments [] o = options o
parse_arguments (arg ∷ []) o = by_argument arg o options (returned 1)
parse_arguments (arg ∷ path ∷ rest) o =
    by_argument arg o (λ o'. parse_arguments (path ∷ rest) o')
      (parse_arguments rest (record o { socket_override = path }))
