-- ===== src/Router/Clients/Lone.antt =====
-- A client that sends one message, in any pieces, and hangs up.
use arduino_q_plugin.Common.{
  ℕ, zero, suc, ◌<◌, String, ◌≡◌, refl, ap, sym, ◌∙◌, inl, inr, List, [], ◌∷◌, ◌++◌, append_assoc,
  append-nil, length, length-append, arith,
}
use arduino_q_plugin.Common.Int.{ℤ}
use arduino_q_plugin.Common.Result.{ok, Exception}
use arduino_q_plugin.Common.State.{continue_with}
use arduino_q_plugin.Msgpack.{Object, Msgpack, WireLaws, IsWire, incomplete, message}
use arduino_q_plugin.Socket.{Recv}
use arduino_q_plugin.Socket.Receive.{incoming, cut, some_bytes, decode_part, decode_whole}
use arduino_q_plugin.Router.Writes.{Hub}
use arduino_q_plugin.Router.Clients.{handle_message, drain, leave, client_loop}

module _ (mp : Msgpack) (show_int : ℤ → String) (show_double : ℕ → String)
    (insufficient undefined : Exception) (laws : WireLaws mp) (fd : ℕ) (o : Object)
    (wire : IsWire o) where
  decode_nothing : mp.decode [] ≡ incomplete
  decode_nothing = decode_part mp laws o wire [] (some_bytes mp laws o wire) refl

  drain_nothing :
      (k : ℕ) (h : Hub mp.Byte)
      → drain mp show_int show_double insufficient undefined (suc k) fd [] h ≡ (ok [], h)
  unfolding drain
  drain_nothing k h = rw (decode_nothing, drain) refl

  -- A round of the loop whose inner loop returned.
  round :
      (buffer c held : List mp.Byte) (rs : List (Recv mp.Byte)) (h h₁ : Hub mp.Byte)
      → drain mp show_int show_double insufficient undefined
          (suc (length (buffer ++ c)))
          fd
          (buffer ++ c)
          h
        ≡ (ok held, h₁)
      → client_loop mp show_int show_double insufficient undefined fd buffer (Recv.bytes c ∷ rs) h
        ≡ client_loop mp show_int show_double insufficient undefined fd held rs h₁
  unfolding client_loop
  round buffer c held rs h h₁ e =
      ap
        (λ p.
          continue_with p
            (λ held. client_loop mp show_int show_double insufficient undefined fd held rs))
        e

  silent :
      (rs : List (Recv mp.Byte)) (h : Hub mp.Byte)
      → incoming rs ≡ []
      → client_loop mp show_int show_double insufficient undefined fd [] rs h
        ≡ (ok tt, leave mp show_int show_double insufficient undefined fd h)
  unfolding client_loop incoming
  silent [] h e = refl
  silent (Recv.bytes [] ∷ rs) h e = round [] [] [] rs h h (drain_nothing 0 h) ∙ silent rs h e
  silent (Recv.bytes (b ∷ c) ∷ rs) h e = absurd cc
  silent (Recv.hangup ∷ rs) h e = refl
  silent (Recv.interrupted ∷ rs) h e = silent rs h e
  silent (Recv.again ∷ rs) h e = refl
  silent (Recv.failed error ∷ rs) h e = refl

  module _ (h h' : Hub mp.Byte)
      (handled : handle_message mp show_int show_double insufficient undefined fd o h
        ≡ (ok tt, h')) where
    drain_part :
        (k : ℕ) (b : List mp.Byte)
        → mp.decode b ≡ incomplete
        → drain mp show_int show_double insufficient undefined (suc k) fd b h ≡ (ok b, h)
    unfolding drain
    drain_part k b e = rw (e, drain) refl

    drain_whole :
        (k : ℕ) (b : List mp.Byte)
        → mp.decode b ≡ message o []
        → 0 < k
        → drain mp show_int show_double insufficient undefined (suc k) fd b h ≡ (ok [], h')
    unfolding drain
    drain_whole zero b e more = absurd (omega (arith, more))
    drain_whole (suc k) b e more =
        rw (e, drain)
          (ap
              (λ p.
                continue_with p
                  (λ u. drain mp show_int show_double insufficient undefined (suc k) fd []))
              handled
            ∙ drain_nothing k h')

    -- When the bytes held and to come are one message, the thread handles it and leaves.
    pub client_loop-lone :
        (rs : List (Recv mp.Byte)) (buffer : List mp.Byte)
        → length buffer < length (mp.encode o)
        → buffer ++ incoming rs ≡ mp.encode o
        → client_loop mp show_int show_double insufficient undefined fd buffer rs h
          ≡ (ok tt, leave mp show_int show_double insufficient undefined fd h')
    unfolding client_loop incoming
    client_loop-lone [] buffer short e =
        absurd (omega (arith, short, ap length e, length-append {0} buffer []))
    client_loop-lone (Recv.bytes c ∷ rs) buffer short e =
        let e' : (buffer ++ c) ++ incoming rs ≡ mp.encode o ++ [] =
          append_assoc buffer c (incoming rs) ∙ (e ∙ sym (append-nil (mp.encode o))) in
        elim (cut (buffer ++ c) (incoming rs) (mp.encode o) [] e') [
          | inl (still, prefix) ↦
              round buffer c (buffer ++ c) rs h h (
                drain_part (length (buffer ++ c)) (buffer ++ c)
                  (decode_part mp laws o wire (buffer ++ c) still prefix))
              ∙ client_loop-lone rs (buffer ++ c) still (e' ∙ append-nil (mp.encode o))
          | inr ([], whole, rest) ↦
              round buffer c [] rs h h' (
                drain_whole (length (buffer ++ c)) (buffer ++ c)
                  (decode_whole mp laws o wire (buffer ++ c) [] whole)
                  (omega (
                    arith,
                    ap length whole,
                    length-append {0} (mp.encode o) [],
                    some_bytes mp laws o wire,
                  )))
              ∙ silent rs h' rest
          | inr (b ∷ y, whole, rest) ↦ absurd cc
        ]
    client_loop-lone (Recv.hangup ∷ rs) buffer short e =
        absurd (omega (arith, short, ap length e, length-append {0} buffer []))
    client_loop-lone (Recv.interrupted ∷ rs) buffer short e = client_loop-lone rs buffer short e
    client_loop-lone (Recv.again ∷ rs) buffer short e =
        absurd (omega (arith, short, ap length e, length-append {0} buffer []))
    client_loop-lone (Recv.failed error ∷ rs) buffer short e =
        absurd (omega (arith, short, ap length e, length-append {0} buffer []))
