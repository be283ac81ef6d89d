-- ===== src/Socket/SendAll.antt =====
-- What `send_all` puts on the wire, for every sequence of answers of the kernel.
use arduino_q_plugin.Common.{
  ℕ, zero, suc, ◌+◌, ◌≤◌, ◌<◌, ◌≡◌, refl, ap, sym, ◌∙◌, ◌⊎◌, inl, inr, List, [], ◌∷◌, ◌++◌,
  append_assoc, append-nil, arith, length, take, drop, take-add, take_all, ltb, Bool-cases, true,
  false,
}
use arduino_q_plugin.Common.Result.{Result, ok, throw, Exception}
use arduino_q_plugin.Socket.{Send, World, send_loop, send_all}

module _ {Byte : Type 0} where
  -- Either everything was sent, or the loop threw when a proper prefix was sent.
  abbrev pub Sends : List Byte → List Byte → Result (Unit {0}) → List Byte → Type 0
  Sends before payload r after =
      ((r ≡ ok tt) × (after ≡ before ++ payload))
      ⊎ ((e : Exception) × (k : ℕ) × (r ≡ throw e)
          × (k < length payload)
          × (after ≡ before ++ take k payload))

  finished :
      (before payload : List Byte) (k : ℕ) (sent : List Byte)
      → sent ≡ before ++ take k payload
      → length payload ≤ k
      → Sends before payload (ok tt) sent
  finished before payload k sent e h = inl (refl, e ∙ ap (◌++◌ before) (take_all k payload h))

  stopped :
      (before payload : List Byte) (k : ℕ) (sent : List Byte)
      → sent ≡ before ++ take k payload
      → ltb k (length payload) ≡ true
      → (e : Exception) → Sends before payload (throw e) sent
  stopped before payload k sent e more x = inr (x, k, refl, ground arith, e)

  advance :
      (before payload : List Byte) (k n : ℕ) (sent : List Byte)
      → sent ≡ before ++ take k payload
      → sent ++ take n (drop k payload) ≡ before ++ take (k + n) payload
  advance before payload k n sent e =
      rw (e, append_assoc) (ap (◌++◌ before) (take-add k n (k + n) payload refl))

  pub send_loop-Sends :
      (before payload : List Byte) (k : ℕ) (rs : List Send) (sent : List Byte)
      → sent ≡ before ++ take k payload
      → Sends before payload (send_loop payload k rs sent).0 (send_loop payload k rs sent).2
  unfolding send_loop
  send_loop-Sends before payload k [] sent e = elim (Bool-cases (ltb k (length payload))) [
    | inl more ↦ rw more (stopped before payload k sent e more _)
    | inr done ↦ rw done (finished before payload k sent e (ground arith))
  ]
  send_loop-Sends before payload k (Send.accepted zero ∷ rs) sent e =
      elim (Bool-cases (ltb k (length payload))) [
        | inl more ↦ rw more (stopped before payload k sent e more _)
        | inr done ↦ rw done (finished before payload k sent e (ground arith))
      ]
  send_loop-Sends before payload k (Send.accepted (suc n) ∷ rs) sent e =
      elim (Bool-cases (ltb k (length payload))) [
        | inl more ↦
            rw more
              (send_loop-Sends before payload (k + suc n) rs _ (advance before payload k _ sent e))
        | inr done ↦ rw done (finished before payload k sent e (ground arith))
      ]
  send_loop-Sends before payload k (Send.interrupted ∷ rs) sent e =
      elim (Bool-cases (ltb k (length payload))) [
        | inl more ↦ rw more (send_loop-Sends before payload k rs sent e)
        | inr done ↦ rw done (finished before payload k sent e (ground arith))
      ]
  send_loop-Sends before payload k (Send.again ∷ rs) sent e =
      elim (Bool-cases (ltb k (length payload))) [
        | inl more ↦ rw more (stopped before payload k sent e more _)
        | inr done ↦ rw done (finished before payload k sent e (ground arith))
      ]
  send_loop-Sends before payload k (Send.failed error ∷ rs) sent e =
      elim (Bool-cases (ltb k (length payload))) [
        | inl more ↦ rw more (stopped before payload k sent e more _)
        | inr done ↦ rw done (finished before payload k sent e (ground arith))
      ]

  -- Whatever the kernel answers, `send_all` either returns when exactly the given bytes were added
  -- to what was sent, or throws when a proper prefix of them was.
  pub send_all-Sends :
      (payload : List Byte) (w : World Byte)
      → Sends w.sent payload (send_all payload w).0 (send_all payload w).1.sent
  unfolding send_all
  send_all-Sends payload w =
      send_loop-Sends w.sent payload 0 w.sends w.sent (sym (append-nil w.sent))

  -- `send_all` touches nothing of the connection but what was sent.
  pub send_all-frame :
      (payload : List Byte) (w : World Byte)
      → ((send_all payload w).1.recvs ≡ w.recvs) × ((send_all payload w).1.closed ≡ w.closed)
  unfolding send_all
  send_all-frame payload w = (refl, refl)

-- The answers without EINTR.
unfoldable pub drop_interrupts : List Send → List Send
drop_interrupts [] = []
drop_interrupts (Send.interrupted ∷ rs) = drop_interrupts rs
drop_interrupts (Send.accepted n ∷ rs) = Send.accepted n ∷ drop_interrupts rs
drop_interrupts (Send.again ∷ rs) = Send.again ∷ drop_interrupts rs
drop_interrupts (Send.failed error ∷ rs) = Send.failed error ∷ drop_interrupts rs

-- How many bytes the kernel takes before it first refuses.
unfoldable pub capacity : List Send → ℕ
capacity [] = 0
capacity (Send.interrupted ∷ rs) = capacity rs
capacity (Send.accepted zero ∷ rs) = 0
capacity (Send.accepted (suc n) ∷ rs) = suc n + capacity rs
capacity (Send.again ∷ rs) = 0
capacity (Send.failed error ∷ rs) = 0

module _ {Byte : Type 0} where
  pub send_loop-completes :
      (payload : List Byte) (k : ℕ) (rs : List Send) (sent : List Byte)
      → length payload ≤ k + capacity rs
      → (send_loop payload k rs sent).0 ≡ ok tt
  unfolding send_loop capacity
  send_loop-completes payload k [] sent h = ground arith
  send_loop-completes payload k (Send.accepted zero ∷ rs) sent h = ground arith
  send_loop-completes payload k (Send.accepted (suc n) ∷ rs) sent h = ground (
    arith,
    send_loop-completes payload (k + suc n) rs (sent ++ take (suc n) (drop k payload))
        (omega arith),
  )
  send_loop-completes payload k (Send.interrupted ∷ rs) sent h =
      ground (arith, send_loop-completes payload k rs sent h)
  send_loop-completes payload k (Send.again ∷ rs) sent h = ground arith
  send_loop-completes payload k (Send.failed error ∷ rs) sent h = ground arith

  -- If the kernel takes as many bytes as there are before it refuses, in pieces of any size and
  -- interrupted any number of times, `send_all` returns and has sent exactly those bytes.
  pub send_all-completes :
      (payload : List Byte) (w : World Byte)
      → length payload ≤ capacity w.sends
      → ((send_all payload w).0 ≡ ok tt) × ((send_all payload w).1.sent ≡ w.sent ++ payload)
  send_all-completes payload w h =
      let done : (send_all payload w).0 ≡ ok tt = returns in
      (done, ground (arith, send_all-Sends payload w, done))
    where
      returns : (send_all payload w).0 ≡ ok tt
      returns = unfold send_all in send_loop-completes payload 0 w.sends w.sent (omega (arith, h))

  -- Once everything is sent the next answer is not asked for.
  at_end :
      (payload : List Byte) (k : ℕ) (rs : List Send) (sent : List Byte)
      → ltb k (length payload) ≡ false
      → send_loop payload k rs sent ≡ (ok tt, rs, sent)
  unfolding send_loop
  at_end payload k [] sent h = rw h
  at_end payload k (Send.accepted zero ∷ rs) sent h = rw h
  at_end payload k (Send.accepted (suc n) ∷ rs) sent h = rw h
  at_end payload k (Send.interrupted ∷ rs) sent h = rw h
  at_end payload k (Send.again ∷ rs) sent h = rw h
  at_end payload k (Send.failed error ∷ rs) sent h = rw h

  abbrev SameSends :
      Result (Unit {0}) × List Send × List Byte → Result (Unit {0}) × List Send × List Byte → Type 0
  SameSends a b = (a.0 ≡ b.0) × (a.2 ≡ b.2)

  interrupts_lem :
      (payload : List Byte) (k : ℕ) (rs : List Send) (sent : List Byte)
      → SameSends (send_loop payload k (drop_interrupts rs) sent) (send_loop payload k rs sent)
  unfolding send_loop drop_interrupts
  interrupts_lem payload k [] sent = (refl, refl)
  interrupts_lem payload k (Send.accepted zero ∷ rs) sent = ground arith
  interrupts_lem payload k (Send.accepted (suc n) ∷ rs) sent =
      ground (arith, interrupts_lem payload (k + suc n) rs (sent ++ take (suc n) (drop k payload)))
  interrupts_lem payload k (Send.interrupted ∷ rs) sent =
      elim (Bool-cases (ltb k (length payload))) [
        | inl more ↦ rw more (interrupts_lem payload k rs sent)
        | inr done ↦ rw (done, at_end payload k (drop_interrupts rs) sent done) (refl, refl)
      ]
  interrupts_lem payload k (Send.again ∷ rs) sent = ground arith
  interrupts_lem payload k (Send.failed error ∷ rs) sent = ground arith

  -- An interrupted `send` is retried without effect: the outcome and the bytes sent are those of the
  -- same answers without the interruptions.
  pub send_all-drop_interrupts :
      (payload : List Byte) (w : World Byte)
      → ((send_all payload (record w { sends = drop_interrupts w.sends })).0
          ≡ (send_all payload w).0)
        × ((send_all payload (record w { sends = drop_interrupts w.sends })).1.sent
            ≡ (send_all payload w).1.sent)
  unfolding send_all
  send_all-drop_interrupts payload w = interrupts_lem payload 0 w.sends w.sent
