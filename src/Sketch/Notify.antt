-- ===== src/Sketch/Notify.antt =====
-- arduino/rpc_notify/rpc_notify.ino: notifications of a counter. `micros()` is the time since the
-- start, in microseconds, in an unsigned integer of 32 bits.
pub mod Rate
pub mod Schedule
use arduino_q_plugin.Common.{
  ℕ, ◌+◌, ◌-◌, ◌%◌, ◌^◌, String, Option, none, some, List, [], ◌∷◌, ltb, if◌then◌else◌,
}
use arduino_q_plugin.Sketch.{Call}

-- The global variables, each an unsigned integer of 32 bits.
pub record Globals : Type 0 where
  pub counter : ℕ
  pub last_notify_micros : ℕ

-- A call of `Bridge.notify` with its two parameters.
pub record Notice : Type 0 where
  pub method : String
  pub counter : ℕ
  pub at : ℕ

abbrev pub initial : Globals
initial = record { counter = 0; last_notify_micros = 0 }

-- Subtraction of unsigned integers of 32 bits.
abbrev pub sub_uint32 : ℕ → ℕ → ℕ
sub_uint32 a b = (a + 2 ^ 32 - b) % 2 ^ 32

unfoldable pub setup : List Call
setup =
    Call.serial_begin 115200
    ∷ Call.println "Arduino Router starting... "
    ∷ Call.bridge_begin
    ∷ Call.println "Bridge started, will notify via RPC as mads_notify."
    ∷ Call.println "done!"
    ∷ []

-- One run of `loop` at which `micros()` answers `now`, with the notification that it makes.
unfoldable pub loop : ℕ → Globals → Option Notice × Globals
loop now g = if ltb (sub_uint32 now g.last_notify_micros) 500 then (none, g) else (
  some (record { method = "mads_notify"; counter = g.counter; at = now }),
  record { counter = (g.counter + 1) % 2 ^ 32; last_notify_micros = now },
)

-- A notification with the time since the start at which it was made.
abbrev pub Timed : Type 0
Timed = ℕ × Notice

abbrev pub stamped : ℕ → Option Notice → List Timed → List Timed
stamped t none rest = rest
stamped t (some n) rest = (t, n) ∷ rest

-- The board calls `loop` at the times of the list: what it notifies, and when.
unfoldable pub runs : List ℕ → Globals → List Timed
unfolding loop
runs [] g = []
runs (t ∷ ts) g = let (notice, g') = loop (t % 2 ^ 32) g in stamped t notice (runs ts g')
