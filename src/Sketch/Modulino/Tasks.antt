-- ===== src/Sketch/Modulino/Tasks.antt =====
-- The tasks of the sketch in any order: what the spectrum is of, and what the LED does.
use arduino_q_plugin.Common.{
  ℕ, zero, suc, ◌-◌, ◌≡◌, refl, ap, sym, ◌∙◌, List, [], ◌∷◌, ◌++◌, append-nil, append_assoc, take,
  drop, length, length-append, arith,
}
use arduino_q_plugin.Sketch.{Call, Level, high}
use arduino_q_plugin.Sketch.Modulino.{
  Signal, Board, Task, initial, size, zeros, toggled, run_tasks, task_acquire, task_watchdog,
  get_fft, calculate,
}
use arduino_q_plugin.Sketch.Modulino.Latest.{IsRing, latest, pushes, pushes-IsRing, latest-pushes}

module _ (sig : Signal) where
  open sig use {Float, zero_float, hypot, fft}

  -- The magnitudes that the acquisitions among the tasks measure, in order.
  unfoldable pub magnitudes : List (Task sig) → List Float
  magnitudes [] = []
  magnitudes (Task.acquire x y z ∷ ts) = hypot x y z ∷ magnitudes ts
  magnitudes (Task.watchdog ∷ ts) = magnitudes ts

  -- What the runs of the watchdog among the tasks do to the LED: each time the other level.
  unfoldable pub blinks : ℕ → Level → List (Task sig) → List Call
  blinks led_builtin level [] = []
  blinks led_builtin level (Task.acquire x y z ∷ ts) = blinks led_builtin level ts
  blinks led_builtin level (Task.watchdog ∷ ts) =
      Call.digital_write led_builtin (toggled level) ∷ blinks led_builtin (toggled level) ts

  buffer-run_tasks :
      (led_builtin : ℕ) (ts : List (Task sig)) (b : Board sig)
      → (run_tasks sig led_builtin ts b).buffer ≡ pushes size (magnitudes ts) b.buffer
  unfolding run_tasks magnitudes pushes task_acquire task_watchdog
  buffer-run_tasks led_builtin [] b = refl
  buffer-run_tasks led_builtin (Task.acquire x y z ∷ ts) b =
      buffer-run_tasks led_builtin ts (task_acquire sig x y z b)
  buffer-run_tasks led_builtin (Task.watchdog ∷ ts) b =
      buffer-run_tasks led_builtin ts (task_watchdog sig led_builtin b)

  -- The LED is written at the watchdog's runs only, and changes each time, from low on.
  pub calls-run_tasks :
      (led_builtin : ℕ) (ts : List (Task sig)) (b : Board sig)
      → (run_tasks sig led_builtin ts b).calls ≡ b.calls ++ blinks led_builtin b.state ts
  unfolding run_tasks blinks task_acquire task_watchdog
  calls-run_tasks led_builtin [] b = sym (append-nil b.calls)
  calls-run_tasks led_builtin (Task.acquire x y z ∷ ts) b =
      calls-run_tasks led_builtin ts (task_acquire sig x y z b)
  calls-run_tasks led_builtin (Task.watchdog ∷ ts) b =
      calls-run_tasks led_builtin ts (task_watchdog sig led_builtin b) ∙ append_assoc b.calls _ _

  length-zeros : (x : Float) (n : ℕ) → length (zeros x n) ≡ n
  length-zeros x zero = refl
  length-zeros x (suc n) = ap suc (length-zeros x n)

  -- The last `n` elements.
  abbrev pub last_of : ℕ → List Float → List Float
  last_of n xs = drop (length xs - n) xs

  -- Both halves of the array in the other order.
  abbrev pub turned : ℕ → List Float → List Float
  turned k xs = drop k xs ++ take k xs

  -- From any board whose ring is one, the array is the latest magnitudes, with what it held before.
  run_tasks-IsRing :
      (led_builtin : ℕ) (ts : List (Task sig)) (b : Board sig)
      → IsRing size b.buffer
      → (latest (run_tasks sig led_builtin ts b).buffer
          ≡ drop (length (magnitudes ts)) (latest b.buffer ++ magnitudes ts))
        × IsRing size (run_tasks sig led_builtin ts b).buffer
  run_tasks-IsRing led_builtin ts b ring = rw (buffer-run_tasks led_builtin ts b) (
    latest-pushes size (magnitudes ts) b.buffer ring,
    pushes-IsRing size (magnitudes ts) b.buffer ring,
  )

  -- A ring that was never pushed to holds its array.
  latest_new : (xs : List Float) → latest (record { items = xs; head = 0 }) ≡ xs
  unfolding latest
  latest_new xs = append-nil xs

  dropped :
      (n : ℕ) (xs ys : List Float)
      → length xs ≡ n
      → drop (length ys) (xs ++ ys) ≡ last_of n (xs ++ ys)
  dropped n xs ys e =
      let m : length ys ≡ length (xs ++ ys) - n = omega (arith, length-append xs ys) in
      ap (λ k. drop k (xs ++ ys)) m

  -- Whatever tasks ran since the start, in any order, `get_fft` gives the transform, at 10000 Hz and of
  -- 512 values, of an array of 512 values that is, read from its oldest value on, the last 512
  -- magnitudes magnitudes, with zeros in front while fewer were magnitudes; and the LED was written at the
  -- watchdog's runs only, with the other level each time, low first.
  pub get_fft-run_tasks :
      (led_builtin : ℕ) (ts : List (Task sig))
      → let b = run_tasks sig led_builtin ts (initial sig) in
        (get_fft sig b ≡ record {
          rate_hz = 10000;
          size = 256;
          mag = fft 10000 512 b.buffer.items (zeros 0 256);
        })
        × (length b.buffer.items ≡ size)
        × (turned b.buffer.head b.buffer.items
            ≡ last_of size (zeros zero_float size ++ magnitudes ts))
        × (b.calls ≡ blinks led_builtin high ts)
  unfolding get_fft calculate latest
  get_fft-run_tasks led_builtin ts =
      let (newest, ring) =
        run_tasks-IsRing led_builtin ts (initial sig)
          (record { full = length-zeros zero_float size; head_in = omega arith }) in
      (
        refl,
        ring.full,
        newest
            ∙ ap (λ xs. drop (length (magnitudes ts)) (xs ++ magnitudes ts))
                (latest_new (zeros zero_float size))
            ∙ dropped size (zeros zero_float size) (magnitudes ts) (length-zeros zero_float size),
        calls-run_tasks led_builtin ts (initial sig),
      )
