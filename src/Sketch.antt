-- ===== src/Sketch.antt =====
-- arduino/: the sketches that run on the microcontroller. What a sketch does to the board and to the
-- bridge is the list of its calls, in order.
pub mod Modulino
pub mod Notify
pub mod Server
use arduino_q_plugin.Common.{ℕ, String}

pub data Level : Type 0 where
  low high : Level

-- A call of the board's or the bridge's interface, with its arguments.
pub data Call : Type 0 where
  serial_begin : ℕ → Call
  println : String → Call
  pin_mode_output : ℕ → Call
  digital_write : ℕ → Level → Call
  bridge_begin : Call
  provide provide_safe : String → Call
  modulino_begin movement_begin : Call
  scheduler_init : Call
  add_task enable_task : String → Call
