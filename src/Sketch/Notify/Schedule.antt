-- ===== src/Sketch/Notify/Schedule.antt =====
-- The notifications of rpc_notify.ino against a clock that does not wrap.
use arduino_q_plugin.Common.{
  ℕ, ◌+◌, ◌-◌, ◌%◌, ◌^◌, ◌≤◌, ◌<◌, ◌≡◌, refl, ap, List, [], ◌∷◌, arith, Bool-cases, inl, inr, ltb,
  ltb→lt, if◌then◌else◌,
}
use arduino_q_plugin.Sketch.Notify.{Globals, Notice, Timed, sub_uint32, loop, runs, initial}

-- What should be notified if no integer wrapped: the loop at `t` notifies when 500 microseconds have
-- passed since the last notification.
unfoldable pub schedule : ℕ → ℕ → List ℕ → List Timed
schedule last number [] = []
schedule last number (t ∷ ts) =
    let rest = schedule t (number + 1) ts in
    if ltb (t - last) 500
    then schedule last number ts
    else (t, record { method = "mads_notify"; counter = number % 2 ^ 32; at = t % 2 ^ 32 }) ∷ rest

-- From one time to the next, at most `2 ^ 32 - 500` microseconds pass.
unfoldable pub Polled : ℕ → List ℕ → Type 0
Polled before [] = Unit
Polled before (t ∷ ts) = (before ≤ t) × (t + 500 ≤ before + 2 ^ 32) × Polled t ts

abbrev wrapped : ℕ → ℕ → Globals
wrapped last number = record { counter = number % 2 ^ 32; last_notify_micros = last % 2 ^ 32 }

abbrev made : ℕ → ℕ → Notice
made t number = record { method = "mads_notify"; counter = number % 2 ^ 32; at = t % 2 ^ 32 }

elapsed :
    (last t : ℕ) → last ≤ t → t < last + 2 ^ 32 → sub_uint32 (t % 2 ^ 32) (last % 2 ^ 32) ≡ t - last
elapsed last t h k = omega arith

next_number : (number : ℕ) → (number % 2 ^ 32 + 1) % 2 ^ 32 ≡ (number + 1) % 2 ^ 32
next_number number = omega arith

after_notice :
    (t number : ℕ) (ts : List ℕ)
    → runs ts (wrapped t (number + 1)) ≡ schedule t (number + 1) ts
    → runs ts (record { counter = (number % 2 ^ 32 + 1) % 2 ^ 32; last_notify_micros = t % 2 ^ 32 })
      ≡ schedule t (number + 1) ts
after_notice t number ts e = rw (next_number number) e

runs_from :
    (last before number : ℕ) (ts : List ℕ)
    → last ≤ before
    → before < last + 500
    → Polled before ts
    → runs ts (wrapped last number) ≡ schedule last number ts
unfolding runs loop schedule Polled
runs_from last before number [] h k p = refl
runs_from last before number (t ∷ ts) h k (later, soon, p) =
    elim (Bool-cases (ltb (t - last) 500)) [
      | inl early ↦
          rw (elapsed last t (omega arith) (omega arith), early)
            (runs_from last t number ts (omega arith) (omega (arith, ltb→lt (t - last) 500 early))
              p)
      | inr due ↦
          rw (elapsed last t (omega arith) (omega arith), due)
            (ap (◌∷◌ (t, made t number)) (
              after_notice t number ts
                (runs_from t t (number + 1) ts (omega arith) (omega arith) p)))
    ]

-- Polled often enough, the loop notifies when it should although `micros()` wraps every 2 ^ 32
-- microseconds, with the number of the notification modulo 2 ^ 32.
pub runs-schedule : (ts : List ℕ) → Polled 0 ts → runs ts initial ≡ schedule 0 0 ts
runs-schedule ts p = runs_from 0 0 0 ts (omega arith) (omega arith) p
