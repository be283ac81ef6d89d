-- ===== src/Router/Clients.antt =====
-- dummy.cpp: `client_loop`, the thread of one client. What `read` answers is a script, and a script
-- that has ended reads as the end of the connection, as a cleared `Running` does. An exception leaves
-- the thread, which ends the program.
pub mod Delivers
pub mod Answers
pub mod Remote
pub mod Gone
pub mod Holds
pub mod Keeps
pub mod Lone
pub mod Registers
use arduino_q_plugin.Common.{
  ℕ, zero, suc, String, Bool, true, false, List, [], ◌∷◌, ◌++◌, length, if◌then◌else◌,
}
use arduino_q_plugin.Common.Int.{ℤ}
use arduino_q_plugin.Common.Result.{Result, ok, throw, out_of_fuel, Exception}
use arduino_q_plugin.Common.State.{Method, pure, raise, lift, ◌>>=◌, ◌>>◌}
use arduino_q_plugin.Msgpack.{
  Object, Objects, Msgpack, Decoded, incomplete, message, malformed, cast,
}
use arduino_q_plugin.Frames.{is_number}
use arduino_q_plugin.Socket.{Recv}
use arduino_q_plugin.Router.{reset_methods}
use arduino_q_plugin.Router.Writes.{Hub}
use arduino_q_plugin.Router.Requests.{handle_request, handle_notification}

module _ (mp : Msgpack) (show_int : ℤ → String) (show_double : ℕ → String)
    (insufficient undefined : Exception) where
  -- The body of the inner loop.
  unfoldable pub handle_message : ℕ → Object → Method (Hub mp.Byte) (Unit {0})
  unfolding handle_request handle_notification
  handle_message fd (Object.array (Objects.element first rest)) = do
    type ← lift (cast mp (mp.as_int first))
    if is_number 0 type
        then handle_request mp show_int show_double insufficient undefined fd
            (Object.array (Objects.element first rest))
        else if is_number 2 type
        then handle_notification mp show_int show_double insufficient undefined
            (Object.array (Objects.element first rest))
        else pure tt
  handle_message fd _ = pure tt

  -- The inner loop: the bytes that the unpacker holds at its end. Each round takes a message.
  unfoldable pub drain : ℕ → ℕ → List mp.Byte → Method (Hub mp.Byte) (List mp.Byte)
  unfolding handle_message
  drain zero fd buffer = λ h. (out_of_fuel, h)
  drain (suc fuel) fd buffer = elim (mp.decode buffer) [
    | incomplete ↦ pure buffer
    | message o rest ↦ handle_message fd o >> drain fuel fd rest
    | malformed e ↦ raise e
  ]

  -- What follows the loop.
  unfoldable pub leave : ℕ → Hub mp.Byte → Hub mp.Byte
  leave fd h = record h { entries = reset_methods fd h.entries; closed = h.closed ++ fd ∷ [] }

  unfoldable pub client_loop :
      ℕ → List mp.Byte → List (Recv mp.Byte) → Method (Hub mp.Byte) (Unit {0})
  unfolding drain leave
  client_loop fd buffer [] = λ h. (ok tt, leave fd h)
  client_loop fd buffer (Recv.bytes c ∷ rs) = do
    held ← drain (suc (length (buffer ++ c))) fd (buffer ++ c)
    client_loop fd held rs
  client_loop fd buffer (Recv.hangup ∷ rs) = λ h. (ok tt, leave fd h)
  client_loop fd buffer (Recv.interrupted ∷ rs) = client_loop fd buffer rs
  client_loop fd buffer (Recv.again ∷ rs) = λ h. (ok tt, leave fd h)
  client_loop fd buffer (Recv.failed error ∷ rs) = λ h. (ok tt, leave fd h)
