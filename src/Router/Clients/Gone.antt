-- ===== src/Router/Clients/Gone.antt =====
-- What is left in the registry when a client's thread ends.
use arduino_q_plugin.Common.{ℕ, suc, String, ◌≢◌, sym, ◌∙◌, List, [], ◌∷◌, ◌++◌, length, arith}
use arduino_q_plugin.Common.Int.{ℤ, pos, negsuc}
use arduino_q_plugin.Common.Result.{Result, ok, throw, out_of_fuel, Exception}
use arduino_q_plugin.Common.State.{Method, continue_with}
use arduino_q_plugin.Msgpack.{Msgpack, WireLaws}
use arduino_q_plugin.Socket.{Recv}
use arduino_q_plugin.Router.{lookup_method}
use arduino_q_plugin.Router.Registry.{
  IsMap, reset_methods-IsMap, lookup_method-reset_methods, unless_owned,
}
use arduino_q_plugin.Router.Writes.{Hub}
use arduino_q_plugin.Router.Clients.{drain, leave, client_loop}
use arduino_q_plugin.Router.Clients.Holds.{Holds}
use arduino_q_plugin.Router.Clients.Keeps.{drain-Keeps}

module _ (mp : Msgpack) (show_int : ℤ → String) (show_double : ℕ → String)
    (insufficient undefined : Exception) where
  -- No name belongs to the descriptor, and no name has two entries.
  abbrev pub IsGone : ℕ → Hub mp.Byte → Type 0
  IsGone fd h = IsMap h.entries × ((name : String) → lookup_method name h.entries ≢ pos fd)

  -- How a client's thread ends.
  abbrev pub Ends : ℕ → Result (Unit {0}) × Hub mp.Byte → Type 0
  Ends fd (ok u, h) = IsGone fd h
  Ends fd (throw e, h) = IsMap h.entries
  Ends fd (out_of_fuel, h) = ⊥

  unless_owned_other : (fd : ℕ) (z : ℤ) → unless_owned fd z ≢ pos fd
  unless_owned_other fd (pos n) e = ground (arith, e)
  unless_owned_other fd (negsuc n) e = absurd cc

  leave-IsGone :
      (fd : ℕ) (h : Hub mp.Byte)
      → IsMap h.entries
      → IsGone fd (leave mp show_int show_double insufficient undefined fd h)
  unfolding leave
  leave-IsGone fd h k = (
    reset_methods-IsMap fd h.entries k,
    λ name e.
        unless_owned_other fd (lookup_method name h.entries)
          (sym (lookup_method-reset_methods fd name h.entries k) ∙ e),
  )

  resumed :
      {A : Type 0} (fd : ℕ) (p : Result A × Hub mp.Byte) (f : A → Method (Hub mp.Byte) (Unit {0}))
      → Holds p
      → ((a : A) (h : Hub mp.Byte) → IsMap h.entries → Ends fd (f a h))
      → Ends fd (continue_with p f)
  resumed fd (ok a, h) f k next = next a h k
  resumed fd (throw e, h) f k next = k
  resumed fd (out_of_fuel, h) f k next = k

  -- The thread of a client ends, and where it does not end with an exception, no method is left
  -- registered to its descriptor.
  pub client_loop-Ends :
      (laws : WireLaws mp) (fd : ℕ) (buffer : List mp.Byte) (rs : List (Recv mp.Byte))
      (h : Hub mp.Byte)
      → IsMap h.entries
      → Ends fd (client_loop mp show_int show_double insufficient undefined fd buffer rs h)
  unfolding client_loop
  client_loop-Ends laws fd buffer [] h k = leave-IsGone fd h k
  client_loop-Ends laws fd buffer (Recv.bytes c ∷ rs) h k =
      resumed fd
        (drain mp show_int show_double insufficient undefined (suc (length (buffer ++ c))) fd
          (buffer ++ c) h)
        _
        (drain-Keeps mp show_int show_double insufficient undefined laws
          (suc (length (buffer ++ c))) fd (buffer ++ c) (omega arith) h k)
        (λ held h' k'. client_loop-Ends laws fd held rs h' k')
  client_loop-Ends laws fd buffer (Recv.hangup ∷ rs) h k = leave-IsGone fd h k
  client_loop-Ends laws fd buffer (Recv.interrupted ∷ rs) h k =
      client_loop-Ends laws fd buffer rs h k
  client_loop-Ends laws fd buffer (Recv.again ∷ rs) h k = leave-IsGone fd h k
  client_loop-Ends laws fd buffer (Recv.failed error ∷ rs) h k = leave-IsGone fd h k
