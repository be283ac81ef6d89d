-- ===== src/Sketch/Modulino.antt =====
-- arduino/rpc_server_modulino/rpc_server_modulino.ino: magnitudes of acceleration in a ring, and the
-- spectrum of them that the sketch serves. The sensor, `hypot`, the transform and the scheduler are
-- parameters: which task runs when is a list.
pub mod Latest
pub mod Tasks
use arduino_q_plugin.Common.{
  ℕ, zero, suc, ◌+◌, String, List, [], ◌∷◌, ◌++◌, ◌==◌, set, if◌then◌else◌,
}
use arduino_q_plugin.Sketch.{Call, Level, low, high}

abbrev pub rate : ℕ
rate = 10000

abbrev pub size : ℕ
size = 512

-- `RingArray<T, N>`: `items` is its `data`.
pub record RingArray (T : Type 0) : Type 0 where
  pub items : List T
  pub head : ℕ

-- `push` for the size `n`.
unfoldable pub push : {T : Type 0} → ℕ → T → RingArray T → RingArray T
push n val r = record {
  items = set r.items r.head val;
  head = if r.head + 1 == n then 0 else r.head + 1;
}

-- `FFTData`, of which `mag` holds `size` magnitudes.
pub record FftData : Type 0 where
  pub rate_hz : ℕ
  pub size : ℕ
  pub mag : List ℕ

-- `n` copies, the values of a new array.
abbrev pub zeros : {T : Type 0} → T → ℕ → List T
zeros x zero = []
zeros x (suc n) = x ∷ zeros x n

-- The sensor's reading, of type `Axes`, by `getX`, `getY` and `getZ`, the `hypot` of three numbers, and
-- `KickFFT<float>::fft` for a rate and a size, from the frequency 0 to half the rate: it writes the
-- magnitudes over those given.
pub record Signal : Type 1 where
  pub Float : Type 0
  pub zero_float : Float
  pub hypot : Float → Float → Float → Float
  pub fft : ℕ → ℕ → List Float → List ℕ → List ℕ

-- The global buffer, the level that the watchdog keeps, and the calls made on the board.
pub record Board (sig : Signal) : Type 0 where
  pub buffer : RingArray sig.Float
  pub state : Level
  pub calls : List Call

-- A run of one of the tasks: `task_acquire` with what the sensor reads, or `task_watchdog`.
pub data Task (sig : Signal) : Type 0 where
  acquire : sig.Float → sig.Float → sig.Float → Task sig
  watchdog : Task sig

abbrev pub toggled : Level → Level
toggled low = high
toggled high = low

module _ (sig : Signal) where
  open sig use {Float, zero_float, hypot, fft}

  -- `FFTData::calculate` of the given rate and size.
  unfoldable calculate : ℕ → ℕ → List Float → FftData → FftData
  calculate r n values out = record out { mag = fft r n values out.mag }

  abbrev pub initial : Board sig
  initial = record {
    buffer = record { items = zeros zero_float size; head = 0 };
    state = high;
    calls = [];
  }

  -- `setup`, where `led_builtin` is the pin of the LED.
  unfoldable pub setup : ℕ → List Call
  setup led_builtin =
      Call.pin_mode_output led_builtin
      ∷ Call.serial_begin 115200
      ∷ Call.println "Arduino Router starting... "
      ∷ Call.modulino_begin
      ∷ Call.movement_begin
      ∷ Call.scheduler_init
      ∷ Call.add_task "AcquireTask"
      ∷ Call.enable_task "AcquireTask"
      ∷ Call.add_task "WatchdogTask"
      ∷ Call.enable_task "WatchdogTask"
      ∷ Call.bridge_begin
      ∷ Call.provide "get_fft"
      ∷ Call.println "Providing RPC call get_fft()"
      ∷ Call.println "done!"
      ∷ []

  unfoldable pub task_acquire : Float → Float → Float → Board sig → Board sig
  task_acquire x y z b = record b { buffer = push size (hypot x y z) b.buffer }

  unfoldable pub task_watchdog : ℕ → Board sig → Board sig
  task_watchdog led_builtin b = record b {
    state = toggled b.state;
    calls = b.calls ++ Call.digital_write led_builtin (toggled b.state) ∷ [];
  }

  -- What `loop` runs over time: the tasks that are due, in the scheduler's order.
  unfoldable pub run_tasks : ℕ → List (Task sig) → Board sig → Board sig
  unfolding task_acquire task_watchdog
  run_tasks led_builtin [] b = b
  run_tasks led_builtin (Task.acquire x y z ∷ ts) b =
      run_tasks led_builtin ts (task_acquire x y z b)
  run_tasks led_builtin (Task.watchdog ∷ ts) b =
      run_tasks led_builtin ts (task_watchdog led_builtin b)

  unfoldable pub get_fft : Board sig → FftData
  unfolding calculate
  get_fft b =
      calculate rate size b.buffer.items (record { rate_hz = rate; size = 256; mag = zeros 0 256 })
