-- ===== src/Router/Writes.antt =====
-- dummy.cpp: `write_all` and `send_buffer`. What the kernel answers to `write` is a script; the mutex
-- makes each buffer one step.
use arduino_q_plugin.Common.{
  ℕ, zero, suc, ◌+◌, String, ◌≡◌, refl, Bool, true, false, List, [], ◌∷◌, ◌++◌, length, take, drop,
  ltb, if◌then◌else◌, arith, ◌≤◌, ◌<◌, ◌⊎◌, inl, inr,
}
use arduino_q_plugin.Common.Result.{Result, ok, throw, out_of_fuel}
use arduino_q_plugin.Socket.{Send, send_loop}
use arduino_q_plugin.Socket.SendAll.{capacity, send_loop-Sends, send_loop-completes}

-- The router's registry, the answers to come, and what was written to each descriptor, buffer by
-- buffer and in order, with the descriptors closed.
pub record Hub (Byte : Type 0) : Type 0 where
  pub entries : List (String × ℕ)
  pub answers : List Send
  pub outbox : List (ℕ × List Byte)
  pub closed : List ℕ

abbrev pub succeeds : Result (Unit {0}) → Bool
succeeds (ok u) = true
succeeds (throw e) = false
succeeds out_of_fuel = false

module _ {Byte : Type 0} where
  -- The loop of `write_all` once `done` bytes are written. A script that has ended answers with an
  -- error.
  unfoldable pub write_loop : List Byte → ℕ → List Send → List Byte → Bool × List Send × List Byte
  write_loop buffer done [] written =
      if ltb done (length buffer) then (false, [], written) else (true, [], written)
  write_loop buffer done (Send.accepted zero ∷ rs) written =
      if ltb done (length buffer)
      then (false, rs, written)
      else (true, Send.accepted zero ∷ rs, written)
  write_loop buffer done (Send.accepted (suc n) ∷ rs) written =
      let rest = write_loop buffer (done + suc n) rs (written ++ take (suc n) (drop done buffer)) in
      if ltb done (length buffer) then rest else (true, Send.accepted (suc n) ∷ rs, written)
  write_loop buffer done (Send.interrupted ∷ rs) written =
      let rest = write_loop buffer done rs written in
      if ltb done (length buffer) then rest else (true, Send.interrupted ∷ rs, written)
  write_loop buffer done (Send.again ∷ rs) written =
      if ltb done (length buffer) then (false, rs, written) else (true, Send.again ∷ rs, written)
  write_loop buffer done (Send.failed error ∷ rs) written =
      if ltb done (length buffer)
      then (false, rs, written)
      else (true, Send.failed error ∷ rs, written)

  -- `write_all` under the lock of `send_buffer`.
  unfoldable pub send_buffer : ℕ → List Byte → Hub Byte → Bool × Hub Byte
  unfolding write_loop
  send_buffer fd buffer h =
      let (all, rs, written) = write_loop buffer 0 h.answers [] in
      (all, record h { answers = rs; outbox = h.outbox ++ (fd, written) ∷ [] })

  -- `write_all` writes what the client's `send_all` sends, and returns true where that returns.
  write_loop-send_loop :
      (buffer : List Byte) (done : ℕ) (rs : List Send) (written : List Byte)
      → write_loop buffer done rs written ≡ (
        succeeds (send_loop buffer done rs written).0,
        (send_loop buffer done rs written).1,
        (send_loop buffer done rs written).2,
      )
  unfolding write_loop send_loop
  write_loop-send_loop buffer done [] written = ground arith
  write_loop-send_loop buffer done (Send.accepted zero ∷ rs) written = ground arith
  write_loop-send_loop buffer done (Send.accepted (suc n) ∷ rs) written = ground (
    arith,
    write_loop-send_loop buffer (done + suc n) rs (written ++ take (suc n) (drop done buffer)),
  )
  write_loop-send_loop buffer done (Send.interrupted ∷ rs) written =
      ground (arith, write_loop-send_loop buffer done rs written)
  write_loop-send_loop buffer done (Send.again ∷ rs) written = ground arith
  write_loop-send_loop buffer done (Send.failed error ∷ rs) written = ground arith

  -- Either the whole buffer was written, or a proper prefix of it.
  abbrev pub Writes : ℕ → List Byte → Hub Byte → Bool × Hub Byte → Type 0
  Writes fd buffer h (all, h') =
      ((all ≡ true) × (h'.outbox ≡ h.outbox ++ (fd, buffer) ∷ []))
      ⊎ ((k : ℕ) × (all ≡ false)
          × (k < length buffer)
          × (h'.outbox ≡ h.outbox ++ (fd, take k buffer) ∷ []))

  -- `send_buffer` returns true exactly when the whole buffer was written to the descriptor.
  pub send_buffer-Writes :
      (fd : ℕ) (buffer : List Byte) (h : Hub Byte) → Writes fd buffer h (send_buffer fd buffer h)
  unfolding send_buffer
  send_buffer-Writes fd buffer h = elim (send_loop-Sends [] buffer 0 h.answers [] refl) [
    | inl (all, e) ↦ rw (write_loop-send_loop buffer 0 h.answers [], all, e) (inl (refl, refl))
    | inr (x, k, throws, short, e) ↦
        rw (write_loop-send_loop buffer 0 h.answers [], throws, e) (inr (k, refl, short, refl))
  ]

  pub send_buffer-completes :
      (fd : ℕ) (buffer : List Byte) (h : Hub Byte)
      → length buffer ≤ capacity h.answers
      → ((send_buffer fd buffer h).0 ≡ true)
        × ((send_buffer fd buffer h).1.outbox ≡ h.outbox ++ (fd, buffer) ∷ [])
  unfolding send_buffer
  send_buffer-completes fd buffer h room =
      let all = send_loop-completes buffer 0 h.answers [] (omega (arith, room)) in
      elim (send_loop-Sends [] buffer 0 h.answers [] refl) [
        | inl (_, e) ↦ rw (write_loop-send_loop buffer 0 h.answers [], all, e) (refl, refl)
        | inr (x, k, throws, short, e) ↦ absurd (ground (arith, all, throws))
      ]
