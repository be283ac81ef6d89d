-- ===== src/Tests/Sketches.antt =====
-- Witnesses for the sketches.
use arduino_q_plugin.Common.{ℕ, ◌≡◌, refl, List, [], ◌∷◌, ◌++◌, length, arith}
use arduino_q_plugin.Sketch.{Call, low, high}
use arduino_q_plugin.Sketch.Notify.{Globals, runs, initial}
use arduino_q_plugin.Sketch.Notify.Rate.{Follows, Forward, runs-Follows}
use arduino_q_plugin.Sketch.Notify.Schedule.{schedule, Polled, runs-schedule}
use arduino_q_plugin.Sketch.Modulino.{
  Signal, Task, get_fft, run_tasks, size, zeros, initial as new_board,
}
use arduino_q_plugin.Sketch.Modulino.Tasks.{magnitudes, blinks, last_of, turned, get_fft-run_tasks}

-- The notification before the times came shortly before `micros()` wraps.
abbrev globals : Globals
globals = record { counter = 4294967295; last_notify_micros = 4294967000 }

abbrev times : List ℕ
times = 4294967100 ∷ 4294967600 ∷ 4294968000 ∷ 4294968200 ∷ []

runs-Follows_example : Follows 4294967000 4294967295 (runs times globals)
unfolding Forward
runs-Follows_example =
    runs-Follows 4294967000 times globals refl
      (omega arith, (omega arith, (omega arith, (omega arith, tt))))

runs-schedule_example : runs (700 ∷ 900 ∷ 2000 ∷ []) initial ≡ schedule 0 0 (700 ∷ 900 ∷ 2000 ∷ [])
unfolding Polled
runs-schedule_example =
    runs-schedule (700 ∷ 900 ∷ 2000 ∷ [])
      (omega arith, omega arith, (omega arith, omega arith, (omega arith, omega arith, tt)))

-- Numbers for `float`, their sum for `hypot`, and a transform that answers the array's length.
abbrev signal : Signal
signal = record {
  Float = ℕ;
  zero_float = 0;
  hypot = λ x y z. x;
  fft = λ rate n values mag. length values ∷ [];
}

abbrev tasks : List (Task signal)
tasks = Task.acquire 3 0 0 ∷ Task.watchdog ∷ Task.acquire 5 0 0 ∷ Task.watchdog ∷ []

get_fft-run_tasks_example :
    let b = run_tasks signal 13 tasks (new_board signal) in
    (get_fft signal b ≡ record {
      rate_hz = 10000;
      size = 256;
      mag = signal.fft 10000 512 b.buffer.items (zeros 0 256);
    })
    × (length b.buffer.items ≡ size)
    × (turned signal b.buffer.head b.buffer.items
        ≡ last_of signal size (zeros 0 size ++ 3 ∷ 5 ∷ []))
    × (b.calls ≡ Call.digital_write 13 low ∷ Call.digital_write 13 high ∷ [])
unfolding magnitudes blinks
get_fft-run_tasks_example = get_fft-run_tasks signal 13 tasks
