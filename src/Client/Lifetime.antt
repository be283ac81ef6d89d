-- ===== src/Client/Lifetime.antt =====
-- rpc.cpp: the constructors and destructors of `Client` and of `Endpoint`. An exception in the
-- constructor of a client leaves no object to destroy; that of an endpoint delegates to another one
-- first, so that the endpoint is destroyed.
use arduino_q_plugin.Common.{
  ℕ, String, false, ◌≡◌, refl, ap, sym, ◌∙◌, inl, inr, List, [], ◌++◌, append-nil,
}
use arduino_q_plugin.Common.Int.{ℤ, pos, negsuc}
use arduino_q_plugin.Common.Result.{Result, ok, throw, out_of_fuel}
use arduino_q_plugin.Socket.{World, Attempt, validate_socket_path}
use arduino_q_plugin.Client.{Session, unconnected, is_open, close, connect}
use arduino_q_plugin.Client.Sockets.{Accounts, held, handed_out, close_lem, connect-Accounts}
use arduino_q_plugin.Endpoint

held_none : (fd : ℤ) → is_open fd ≡ false → held fd ≡ []
unfolding held
held_none (pos fd) shut = absurd cc
held_none (negsuc n) shut = refl

module _ {Byte : Type 0} where
  unfoldable pub construct : ℕ → String → Attempt → World Byte → Result (Unit {0}) × Session Byte
  construct sun_path_size path a w =
      connect sun_path_size path a (record { client = unconnected; world = w })

  unfoldable pub destroy : Session Byte → Session Byte
  destroy s = close s

  -- The object's end: what the constructor threw, there is no object.
  abbrev pub ended : Result (Unit {0}) × Session Byte → Session Byte
  ended (ok u, s) = destroy s
  ended (throw e, s) = s
  ended (out_of_fuel, s) = s

  abbrev pub unconnected_endpoint : Endpoint.Endpoint Byte
  unconnected_endpoint = record { socket_fd = negsuc 0; next_msgid = 0; stream = [] }

  destroyed : Result (Unit {0}) × Endpoint.Session Byte → Result (Unit {0}) × Endpoint.Session Byte
  destroyed (ok u, s) = (ok u, s)
  destroyed (throw e, s) = (throw e, Endpoint.close s)
  destroyed (out_of_fuel, s) = (out_of_fuel, s)

  unfoldable pub construct_endpoint :
      ℕ → String → Attempt → World Byte → Result (Unit {0}) × Endpoint.Session Byte
  unfolding destroyed
  construct_endpoint sun_path_size path a w = destroyed (
      Endpoint.connect sun_path_size path a (record { endpoint = unconnected_endpoint; world = w }))

  unfoldable pub destroy_endpoint : Endpoint.Session Byte → Endpoint.Session Byte
  destroy_endpoint s = Endpoint.close s

  none_held :
      (fds : List ℕ) (p : Result (Unit {0}) × Session Byte)
      → Accounts fds p
      → ((ended p).world.closed ≡ fds) × (is_open (ended p).socket_fd ≡ false)
  unfolding destroy held
  none_held fds (ok u, s) (e, cases) = ((close_lem s).0 ∙ e, (close_lem s).1)
  none_held fds (throw x, s) (e, inl (returns, opened)) = absurd cc
  none_held fds (throw x, s) (e, inr (y, throws, shut)) = (
    sym (append-nil s.world.closed)
        ∙ ap (λ f. s.world.closed ++ f) (sym (held_none s.socket_fd shut))
        ∙ e,
    shut,
  )
  none_held fds (out_of_fuel, s) (e, inl (returns, opened)) = absurd cc
  none_held fds (out_of_fuel, s) (e, inr (y, throws, shut)) = absurd cc

  -- A client that is constructed with a valid path and destroyed at the end of its life, which ends at
  -- once if the constructor throws, has closed the descriptor that `socket` handed out, once, and holds
  -- none.
  pub ended-construct :
      (n : ℕ) (path : String) (a : Attempt) (w : World Byte)
      → validate_socket_path n path ≡ ok tt
      → ((ended (construct n path a w)).world.closed ≡ w.closed ++ handed_out a.socket)
        × (is_open (ended (construct n path a w)).socket_fd ≡ false)
  unfolding construct held
  ended-construct n path a w valid =
      none_held (w.closed ++ handed_out a.socket) (construct n path a w)
        (connect-Accounts (record { client = unconnected; world = w }) a n path valid)
