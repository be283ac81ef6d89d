-- ===== src/Socket/Receive.antt =====
-- Both forms of `receive_message`, for every way in which the bytes of messages come in pieces.
use arduino_q_plugin.Common.{
  ◌+◌, ◌<◌, ◌≡◌, refl, ap, sym, ◌∙◌, ◌⊎◌, inl, inr, List, [], ◌∷◌, ◌++◌, append_assoc, arith,
  length, length-append, take,
}
use arduino_q_plugin.Common.Result.{ok}
use arduino_q_plugin.Msgpack.{Object, Msgpack, WireLaws, IsWire, incomplete, message}
use arduino_q_plugin.Socket.{Recv, receive_fresh, receive_stream}

-- The bytes that come before the script's first answer that ends the loop.
unfoldable pub incoming : {Byte : Type 0} → List (Recv Byte) → List Byte
incoming [] = []
incoming (Recv.bytes c ∷ rs) = c ++ incoming rs
incoming (Recv.hangup ∷ rs) = []
incoming (Recv.interrupted ∷ rs) = incoming rs
incoming (Recv.again ∷ rs) = []
incoming (Recv.failed error ∷ rs) = []

-- Answers that bring bytes or interrupt, and do not end the loop.
unfoldable pub IsFlowing : {Byte : Type 0} → List (Recv Byte) → Type 0
IsFlowing [] = Unit
IsFlowing (Recv.bytes c ∷ rs) = IsFlowing rs
IsFlowing (Recv.interrupted ∷ rs) = IsFlowing rs
IsFlowing (_ ∷ rs) = ⊥

-- Of two ways to cut one list, either the first cut falls inside the second's left part, or the left
-- part lies in front of the first cut.
abbrev pub Cut {ℓ} : {A : Type ℓ} → List A → List A → List A → List A → Type ℓ
Cut {A} b t e x =
    ((length b < length e) × (b ≡ take (length b) e)) ⊎ ((y : List A) × (b ≡ e ++ y) × (y ++ t ≡ x))

pub cut {ℓ} : {A : Type ℓ} (b t e x : List A) → b ++ t ≡ e ++ x → Cut b t e x
cut b t [] x h = inr (b, refl, h)
cut [] t (a ∷ e) x h = inl (omega arith, refl)
cut (c ∷ b) t (a ∷ e) x h = elim (cut b t e x (cc)) [
  | inl (short, prefix) ↦ inl (omega arith, cc)
  | inr (y, whole, rest) ↦ inr (y, cc, rest)
]

module _ (mp : Msgpack) (laws : WireLaws mp) (o : Object) (wire : IsWire o) where
  pub decode_whole : (b y : List mp.Byte) → b ≡ mp.encode o ++ y → mp.decode b ≡ message o y
  decode_whole b y e = rw e (laws.decode_encode o y wire)

  pub decode_part :
      (b : List mp.Byte)
      → length b < length (mp.encode o)
      → b ≡ take (length b) (mp.encode o)
      → mp.decode b ≡ incomplete
  decode_part b short e = ap mp.decode e ∙ laws.decode_prefix o (length b) wire short

  -- The message is returned, and `extra` is still to come: none of it is lost.
  abbrev Delivers : List mp.Byte → List mp.Byte → List (Recv mp.Byte) → Type 0
  Delivers extra b rs =
      (b' : List mp.Byte) × (rs' : List (Recv mp.Byte)) × (receive_stream mp b rs ≡ (ok o, b', rs'))
      × (b' ++ incoming rs' ≡ extra)

  too_short :
      (b extra : List mp.Byte) {A : Type 0}
      → length b < length (mp.encode o)
      → b ++ [] ≡ mp.encode o ++ extra
      → A
  too_short b extra short h =
      absurd
        (omega (arith, ap length h, length-append {0} b [], length-append {0} (mp.encode o) extra))

  receive_stream-Delivers :
      (extra b : List mp.Byte) (rs : List (Recv mp.Byte))
      → b ++ incoming rs ≡ mp.encode o ++ extra
      → Delivers extra b rs
  unfolding receive_stream incoming
  receive_stream-Delivers extra b [] h = elim (cut b [] (mp.encode o) extra h) [
    | inl (short, prefix) ↦ too_short b extra short h
    | inr (y, whole, rest) ↦ (y, [], rw (decode_whole b y whole, receive_stream), rest)
  ]
  receive_stream-Delivers extra b (Recv.bytes c ∷ rs) h =
      elim (cut b (c ++ incoming rs) (mp.encode o) extra h) [
        | inl (short, prefix) ↦
            let (b', rs', e, rest) =
              receive_stream-Delivers extra (b ++ c) rs (append_assoc b c (incoming rs) ∙ h) in
            (b', rs', rw (decode_part b short prefix, receive_stream) e, rest)
        | inr (y, whole, rest) ↦
            (y, Recv.bytes c ∷ rs, rw (decode_whole b y whole, receive_stream), rest)
      ]
  receive_stream-Delivers extra b (Recv.hangup ∷ rs) h = elim (cut b [] (mp.encode o) extra h) [
    | inl (short, prefix) ↦ too_short b extra short h
    | inr (y, whole, rest) ↦
        (y, Recv.hangup ∷ rs, rw (decode_whole b y whole, receive_stream), rest)
  ]
  receive_stream-Delivers extra b (Recv.interrupted ∷ rs) h =
      elim (cut b (incoming rs) (mp.encode o) extra h) [
        | inl (short, prefix) ↦
            let (b', rs', e, rest) = receive_stream-Delivers extra b rs h in
            (b', rs', rw (decode_part b short prefix, receive_stream) e, rest)
        | inr (y, whole, rest) ↦
            (y, Recv.interrupted ∷ rs, rw (decode_whole b y whole, receive_stream), rest)
      ]
  receive_stream-Delivers extra b (Recv.again ∷ rs) h = elim (cut b [] (mp.encode o) extra h) [
    | inl (short, prefix) ↦ too_short b extra short h
    | inr (y, whole, rest) ↦ (y, Recv.again ∷ rs, rw (decode_whole b y whole, receive_stream), rest)
  ]
  receive_stream-Delivers extra b (Recv.failed error ∷ rs) h =
      elim (cut b [] (mp.encode o) extra h) [
        | inl (short, prefix) ↦ too_short b extra short h
        | inr (y, whole, rest) ↦
            (y, Recv.failed error ∷ rs, rw (decode_whole b y whole, receive_stream), rest)
      ]

  -- When the bytes held and the bytes to come begin with a message, cut into pieces in any way and
  -- with any interruptions between, the endpoint's `receive_message` returns the message, and what it
  -- holds then and the bytes still to come are exactly those that follow the message.
  pub receive_stream-reassembles :
      (extra b : List mp.Byte) (rs : List (Recv mp.Byte))
      → b ++ incoming rs ≡ mp.encode o ++ extra
      → (b' : List mp.Byte) × (rs' : List (Recv mp.Byte)) × (receive_stream mp b rs
          ≡ (ok o, b', rs'))
        × (b' ++ incoming rs' ≡ extra)
  receive_stream-reassembles = receive_stream-Delivers

  -- The client's form returns the message too, and drops a part `lost` of what follows.
  abbrev DeliversFresh : List mp.Byte → List mp.Byte → List (Recv mp.Byte) → Type 0
  DeliversFresh extra b rs =
      (lost : List mp.Byte) × (rs' : List (Recv mp.Byte)) × (receive_fresh mp b rs ≡ (ok o, rs'))
      × (lost ++ incoming rs' ≡ extra)

  receive_fresh-Delivers :
      (extra b : List mp.Byte) (rs : List (Recv mp.Byte))
      → length b < length (mp.encode o)
      → b ++ incoming rs ≡ mp.encode o ++ extra
      → DeliversFresh extra b rs
  unfolding receive_fresh incoming
  receive_fresh-Delivers extra b [] short h = too_short b extra short h
  receive_fresh-Delivers extra b (Recv.bytes c ∷ rs) short h =
      let h' = append_assoc b c (incoming rs) ∙ h in
      elim (cut (b ++ c) (incoming rs) (mp.encode o) extra h') [
        | inl (still, prefix) ↦
            let (lost, rs', e, rest) = receive_fresh-Delivers extra (b ++ c) rs still h' in
            (lost, rs', rw (decode_part (b ++ c) still prefix, receive_fresh) e, rest)
        | inr (y, whole, rest) ↦ (y, rs, rw (decode_whole (b ++ c) y whole, receive_fresh), rest)
      ]
  receive_fresh-Delivers extra b (Recv.hangup ∷ rs) short h = too_short b extra short h
  receive_fresh-Delivers extra b (Recv.interrupted ∷ rs) short h =
      receive_fresh-Delivers extra b rs short h
  receive_fresh-Delivers extra b (Recv.again ∷ rs) short h = too_short b extra short h
  receive_fresh-Delivers extra b (Recv.failed error ∷ rs) short h = too_short b extra short h

  pub some_bytes : 0 < length (mp.encode o)
  some_bytes =
      let whole = laws.decode_encode o [] wire in
      let fewer = laws.decode_consumes (mp.encode o ++ []) [] o whole in
      omega (arith, fewer, length-append {0} (mp.encode o) [])

  -- When the bytes to come begin with a message, in any pieces, the client's `receive_message` returns
  -- it. Of the bytes that follow, a front part may be lost, and the others are still to come.
  pub receive_fresh-reassembles :
      (extra : List mp.Byte) (rs : List (Recv mp.Byte))
      → incoming rs ≡ mp.encode o ++ extra
      → (lost : List mp.Byte) × (rs' : List (Recv mp.Byte)) × (receive_fresh mp [] rs ≡ (ok o, rs'))
        × (lost ++ incoming rs' ≡ extra)
  receive_fresh-reassembles extra rs = receive_fresh-Delivers extra [] rs some_bytes

  -- The client's `receive_message` returns the message with the piece that completes it. What else
  -- that piece holds is lost, and the answers after it are left.
  pub receive_fresh-completes :
      (front later : List (Recv mp.Byte)) (b last surplus : List mp.Byte)
      → IsFlowing front
      → length b + length (incoming front) < length (mp.encode o)
      → b ++ (incoming front ++ last) ≡ mp.encode o ++ surplus
      → receive_fresh mp b (front ++ Recv.bytes last ∷ later) ≡ (ok o, later)
  unfolding receive_fresh incoming IsFlowing
  receive_fresh-completes [] later b last surplus flows short h =
      rw (decode_whole (b ++ last) surplus h)
  receive_fresh-completes (Recv.bytes c ∷ rs) later b last surplus flows short h =
      let h' : (b ++ c) ++ (incoming rs ++ last) ≡ mp.encode o ++ surplus =
        append_assoc b c (incoming rs ++ last)
        ∙ (ap (λ x. b ++ x) (sym (append_assoc c (incoming rs) last)) ∙ h) in
      let fewer : length (b ++ c) + length (incoming rs) < length (mp.encode o) =
        omega (arith, short, length-append b c, length-append c (incoming rs)) in
      elim (cut (b ++ c) (incoming rs ++ last) (mp.encode o) surplus h') [
        | inl (still, prefix) ↦
            rw (decode_part (b ++ c) still prefix)
              (receive_fresh-completes rs later (b ++ c) last surplus flows fewer h')
        | inr (y, whole, rest) ↦
            absurd (omega (arith, fewer, ap length whole, length-append {0} (mp.encode o) y))
      ]
  receive_fresh-completes (Recv.interrupted ∷ rs) later b last surplus flows short h =
      receive_fresh-completes rs later b last surplus flows short h
  receive_fresh-completes (Recv.hangup ∷ rs) later b last surplus flows short h = absurd flows
  receive_fresh-completes (Recv.again ∷ rs) later b last surplus flows short h = absurd flows
  receive_fresh-completes (Recv.failed error ∷ rs) later b last surplus flows short h = absurd flows
