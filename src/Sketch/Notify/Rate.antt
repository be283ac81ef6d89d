-- ===== src/Sketch/Notify/Rate.antt =====
-- How far apart the notifications of rpc_notify.ino are, and how they are numbered.
use arduino_q_plugin.Common.{
  ℕ, ◌+◌, ◌%◌, ◌^◌, ◌≤◌, ◌≡◌, refl, List, [], ◌∷◌, arith, Bool-cases, inl, inr, ltb, ltb→le, false,
}
use arduino_q_plugin.Sketch.Notify.{Globals, Timed, sub_uint32, loop, runs}

-- Each notification comes at least 500 microseconds after the one before it, has the number after
-- its number, and tells the time of the loop that makes it.
unfoldable pub Follows : ℕ → ℕ → List Timed → Type 0
Follows last number [] = Unit
Follows last number ((t, n) ∷ rest) =
    (last + 500 ≤ t)
    × (n.method ≡ "mads_notify")
    × (n.counter ≡ number)
    × (n.at ≡ t % 2 ^ 32)
    × Follows t ((number + 1) % 2 ^ 32) rest

-- The times do not go back.
unfoldable pub Forward : ℕ → List ℕ → Type 0
Forward start [] = Unit
Forward start (t ∷ ts) = (start ≤ t) × Forward t ts

later_by :
    (last t stored : ℕ)
    → stored ≡ last % 2 ^ 32
    → last ≤ t
    → ltb (sub_uint32 (t % 2 ^ 32) stored) 500 ≡ false
    → last + 500 ≤ t
later_by last t stored e h due = omega (arith, ltb→le (sub_uint32 (t % 2 ^ 32) stored) 500 due)

-- A later start of the list of times is a start as well.
runs_from :
    (last start : ℕ) (ts : List ℕ) (g : Globals)
    → last ≤ start
    → g.last_notify_micros ≡ last % 2 ^ 32
    → Forward start ts
    → Follows last g.counter (runs ts g)
unfolding runs loop Follows Forward
runs_from last start [] g h e f = tt
runs_from last start (t ∷ ts) g h e (later, f) =
    elim (Bool-cases (ltb (sub_uint32 (t % 2 ^ 32) g.last_notify_micros) 500)) [
      | inl soon ↦ rw soon (runs_from last t ts g (omega (arith, h, later)) e f)
      | inr due ↦ rw due (
        later_by last t _ e (omega (arith, h, later)) due,
        refl,
        refl,
        refl,
        runs_from t t ts _ (omega arith) refl f,
      )
    ]

-- However often and at whatever times the board runs the loop, also past the wrap of `micros()` every
-- 2 ^ 32 microseconds, two notifications are at least 500 microseconds apart, and their counters follow
-- one another modulo 2 ^ 32.
pub runs-Follows :
    (last : ℕ) (ts : List ℕ) (g : Globals)
    → g.last_notify_micros ≡ last % 2 ^ 32
    → Forward last ts
    → Follows last g.counter (runs ts g)
runs-Follows last ts g e f = runs_from last last ts g (omega arith) e f
