-- ===== src/Endpoint/Request/Supply.antt =====
-- The bytes that an endpoint holds and may still get, and what `receive_message` takes of them.
use arduino_q_plugin.Common.{
  ℕ, ◌+◌, ◌<◌, ◌≡◌, refl, inl, inr, List, [], ◌∷◌, ◌++◌, arith, length, length-append, ◌⊎◌,
}
use arduino_q_plugin.Common.Result.{ok, Exception}
use arduino_q_plugin.Msgpack.{Object, Msgpack, WireLaws, Decoded, incomplete, message, malformed}
use arduino_q_plugin.Socket.{Recv, receive_stream}
use arduino_q_plugin.Endpoint.{Session}
use arduino_q_plugin.Frames.Returns.{Ends}

-- The bytes of all answers of the kernel, also those behind a failure.
unfoldable pub total : {Byte : Type 0} → List (Recv Byte) → ℕ
total [] = 0
total (Recv.bytes c ∷ rs) = length c + total rs
total (Recv.hangup ∷ rs) = total rs
total (Recv.interrupted ∷ rs) = total rs
total (Recv.again ∷ rs) = total rs
total (Recv.failed error ∷ rs) = total rs

-- The bytes that an endpoint holds and may still get.
abbrev pub supply : {Byte : Type 0} → Session Byte → ℕ
supply s = length s.stream + total s.world.recvs

Decoded-cases :
    {Byte : Type 0} (d : Decoded Byte)
    → (d ≡ incomplete)
      ⊎ (((o : Object) × (rest : List Byte) × (d ≡ message o rest))
          ⊎ ((e : Exception) × (d ≡ malformed e)))
Decoded-cases incomplete = inl refl
Decoded-cases (message o rest) = inr (inl (o, rest, refl))
Decoded-cases (malformed e) = inr (inr (e, refl))

module _ (mp : Msgpack) (laws : WireLaws mp) where
  -- A message that is received takes some bytes out of the supply, and a receive ends.
  abbrev pub Shrinks : List mp.Byte → List (Recv mp.Byte) → Type 0
  Shrinks b rs =
      Ends (receive_stream mp b rs).0
      × ((o : Object)
          → (receive_stream mp b rs).0 ≡ ok o
          → length (receive_stream mp b rs).1 + total (receive_stream mp b rs).2
            < length b + total rs)

  taken :
      (b rest : List mp.Byte) (o : Object) (n : ℕ)
      → mp.decode b ≡ message o rest
      → Ends (ok o) × ((o' : Object) → ok o ≡ ok o' → length rest + n < length b + n)
  taken b rest o n e = (cc, λ o' _. omega (arith, laws.decode_consumes b rest o e))

  grows :
      (b c : List mp.Byte) (rs : List (Recv mp.Byte))
      → Shrinks (b ++ c) rs
      → Ends (receive_stream mp (b ++ c) rs).0
        × ((o : Object)
            → (receive_stream mp (b ++ c) rs).0 ≡ ok o
            → length (receive_stream mp (b ++ c) rs).1 + total (receive_stream mp (b ++ c) rs).2
              < length b + (length c + total rs))
  grows b c rs (ends, less) = (ends, λ o e. omega (arith, less o e, length-append {0} b c))

  pub receive_stream-Shrinks : (b : List mp.Byte) (rs : List (Recv mp.Byte)) → Shrinks b rs
  unfolding receive_stream total
  receive_stream-Shrinks b [] = elim (Decoded-cases (mp.decode b)) [
    | inl e ↦ rw (e, receive_stream) ((cc, λ o e. cc))
    | inr (inl (o, rest, e)) ↦ rw (e, receive_stream) (taken b rest o _ e)
    | inr (inr (x, e)) ↦ rw (e, receive_stream) (cc, λ o e. cc)
  ]
  receive_stream-Shrinks b (Recv.bytes c ∷ rs) = elim (Decoded-cases (mp.decode b)) [
    | inl e ↦ rw (e, receive_stream) (grows b c rs (receive_stream-Shrinks (b ++ c) rs))
    | inr (inl (o, rest, e)) ↦ rw (e, receive_stream) (taken b rest o _ e)
    | inr (inr (x, e)) ↦ rw (e, receive_stream) (cc, λ o e. cc)
  ]
  receive_stream-Shrinks b (Recv.hangup ∷ rs) = elim (Decoded-cases (mp.decode b)) [
    | inl e ↦ rw (e, receive_stream) ((cc, λ o e. cc))
    | inr (inl (o, rest, e)) ↦ rw (e, receive_stream) (taken b rest o _ e)
    | inr (inr (x, e)) ↦ rw (e, receive_stream) (cc, λ o e. cc)
  ]
  receive_stream-Shrinks b (Recv.interrupted ∷ rs) = elim (Decoded-cases (mp.decode b)) [
    | inl e ↦ rw (e, receive_stream) (receive_stream-Shrinks b rs)
    | inr (inl (o, rest, e)) ↦ rw (e, receive_stream) (taken b rest o _ e)
    | inr (inr (x, e)) ↦ rw (e, receive_stream) (cc, λ o e. cc)
  ]
  receive_stream-Shrinks b (Recv.again ∷ rs) = elim (Decoded-cases (mp.decode b)) [
    | inl e ↦ rw (e, receive_stream) ((cc, λ o e. cc))
    | inr (inl (o, rest, e)) ↦ rw (e, receive_stream) (taken b rest o _ e)
    | inr (inr (x, e)) ↦ rw (e, receive_stream) (cc, λ o e. cc)
  ]
  receive_stream-Shrinks b (Recv.failed error ∷ rs) = elim (Decoded-cases (mp.decode b)) [
    | inl e ↦ rw (e, receive_stream) ((cc, λ o e. cc))
    | inr (inl (o, rest, e)) ↦ rw (e, receive_stream) (taken b rest o _ e)
    | inr (inr (x, e)) ↦ rw (e, receive_stream) (cc, λ o e. cc)
  ]
