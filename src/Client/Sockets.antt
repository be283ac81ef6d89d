-- ===== src/Client/Sockets.antt =====
-- `Client::close`, `connect`, `adopt_socket` and the moves: who holds which descriptor.
use arduino_q_plugin.Common.{
  ℕ, String, ◌≡◌, refl, ap, sym, subst, ◌∙◌, ◌⊎◌, inl, inr, true, false, Option, none, some, List,
  [], ◌∷◌, ◌++◌, append-nil, append_assoc,
}
use arduino_q_plugin.Common.Int.{ℤ, pos, negsuc}
use arduino_q_plugin.Common.Result.{Result, ok, throw, Exception}
use arduino_q_plugin.Socket.{
  World, Attempt, Socket, made, refused, validate_socket_path, set_socket_timeouts, set_up,
  close_fd,
}
use arduino_q_plugin.Client.{
  Client, Session, is_open, close, connect, adopt_socket, move_assign, opened, close_on_throw,
}

-- The descriptor that a client holds.
unfoldable pub held : ℤ → List ℕ
held (pos fd) = fd ∷ []
held (negsuc n) = []

-- The descriptor that `::socket` hands out.
unfoldable pub handed_out : Socket → List ℕ
handed_out (made fd) = fd ∷ []
handed_out (refused error) = []

-- `set_up` returns or throws.
abbrev pub SetsUp : Attempt → Type 0
SetsUp a = (set_up a ≡ ok tt) ⊎ ((e : Exception) × (set_up a ≡ throw e))

by_answers :
    (k : Socket) (x y z : Option String)
    → SetsUp (record { socket = k; rcvtimeo = x; sndtimeo = y; connect = z })
unfolding set_up set_socket_timeouts
by_answers k none none none = inl refl
by_answers k none none (some error) = inr (_, refl)
by_answers k none (some error) z = inr (_, refl)
by_answers k (some error) y z = inr (_, refl)

timeouts_cases :
    (a : Attempt)
    → (set_socket_timeouts a ≡ ok tt) ⊎ ((e : Exception) × (set_socket_timeouts a ≡ throw e))
timeouts_cases a = by_options a.socket a.rcvtimeo a.sndtimeo a.connect
  where
    by_options :
        (k : Socket) (x y z : Option String)
        → let b : Attempt = record { socket = k; rcvtimeo = x; sndtimeo = y; connect = z } in
          (set_socket_timeouts b ≡ ok tt) ⊎ ((e : Exception) × (set_socket_timeouts b ≡ throw e))
    by_options k none none z = unfold set_socket_timeouts in inl refl
    by_options k none (some error) z = unfold set_socket_timeouts in inr (_, refl)
    by_options k (some error) y z = unfold set_socket_timeouts in inr (_, refl)

pub set_up_cases : (a : Attempt) → SetsUp a
set_up_cases a = by_answers a.socket a.rcvtimeo a.sndtimeo a.connect

close_fd-held :
    {Byte : Type 0} (fd : ℤ) (w : World Byte)
    → ((close_fd fd w).1.closed ≡ w.closed ++ held fd) × (is_open (close_fd fd w).0 ≡ false)
unfolding close_fd held
close_fd-held (pos fd) w = (refl, refl)
close_fd-held (negsuc n) w = (sym (append-nil w.closed), refl)

module _ {Byte : Type 0} where
  -- Every descriptor is closed or held, and the call returns exactly if the client is open.
  abbrev pub Accounts : List ℕ → Result (Unit {0}) × Session Byte → Type 0
  Accounts fds (r, s) =
      (s.world.closed ++ held s.socket_fd ≡ fds)
      × (((r ≡ ok tt) × (is_open s.socket_fd ≡ true))
          ⊎ ((e : Exception) × (r ≡ throw e) × (is_open s.socket_fd ≡ false)))

  opened-Accounts :
      (a : Attempt) (k : Socket) (s : Session Byte)
      → Accounts (s.world.closed ++ handed_out k) (opened a k s)
  unfolding opened held handed_out
  opened-Accounts a (made fd) s = elim (set_up_cases a) [
    | inl fine ↦ rw fine (refl, inl (refl, refl))
    | inr (e, throws) ↦ rw throws (append-nil _, inr (e, refl, refl))
  ]
  opened-Accounts a (refused error) s = (refl, inr (_, refl, refl))

  -- Closing closes the descriptor that is held, if any, and a second time changes nothing.
  pub close_lem :
      (s : Session Byte)
      → ((close s).world.closed ≡ s.world.closed ++ held s.socket_fd)
        × (is_open (close s).socket_fd ≡ false)
        × ((close (close s)).world.closed ≡ (close s).world.closed)
  unfolding close
  close_lem s =
      let (closed, shut) = close_fd-held s.socket_fd s.world in
      (closed, shut, again s.socket_fd s.world)
    where
      again :
          (fd : ℤ) (w : World Byte)
          → (close_fd (close_fd fd w).0 (close_fd fd w).1).1.closed ≡ (close_fd fd w).1.closed
      again (pos fd) w = unfold close_fd in refl
      again (negsuc n) w = unfold close_fd in refl

  close-Accounts :
      (s : Session Byte) (fds : List ℕ) (p : Result (Unit {0}) × Session Byte)
      → Accounts ((close s).world.closed ++ fds) p
      → Accounts (s.world.closed ++ (held s.socket_fd ++ fds)) p
  close-Accounts s fds p =
      subst (λ all. Accounts all p)
        (ap (λ c. c ++ fds) (close_lem s).0 ∙ append_assoc s.world.closed (held s.socket_fd) fds)

  module _ (s : Session Byte) (a : Attempt) where
    -- Connecting to a valid path: the old descriptor is closed first; the new one is held if the
    -- call returns, and closed if it throws after the socket was made. So no descriptor is lost or
    -- closed twice, and the call returns exactly if the client is open afterwards.
    pub connect-Accounts :
        (n : ℕ) (path : String)
        → validate_socket_path n path ≡ ok tt
        → Accounts
            (s.world.closed ++ (held s.socket_fd ++ handed_out a.socket))
            (connect n path a s)
    unfolding connect
    connect-Accounts n path valid = rw valid (
        close-Accounts s (handed_out a.socket) (opened a a.socket (close s))
          (opened-Accounts a a.socket (close s)))

    -- Adopting a descriptor closes the old one, and the adopted one too if its timeouts cannot be set.
    pub adopt_socket-Accounts :
        (fd : ℕ)
        → Accounts (s.world.closed ++ (held s.socket_fd ++ fd ∷ [])) (adopt_socket (pos fd) a s)
    unfolding adopt_socket held
    adopt_socket-Accounts fd =
        close-Accounts s (fd ∷ []) (adopt_socket (pos fd) a s) (adopted (timeouts_cases a))
      where
        adopted :
            (set_socket_timeouts a ≡ ok tt) ⊎ ((e : Exception) × (set_socket_timeouts a ≡ throw e))
            → Accounts ((close s).world.closed ++ fd ∷ []) (adopt_socket (pos fd) a s)
        adopted (inl fine) = rw fine (refl, inl (refl, refl))
        adopted (inr (e, throws)) = rw throws (append-nil _, inr (e, refl, refl))

  -- What a client that was not open has after `connect` returns.
  pub connect_done :
      (a : Attempt) (n m fd : ℕ) (path : String) (w : World Byte)
      → validate_socket_path n path ≡ ok tt
      → a.socket ≡ made fd
      → set_up a ≡ ok tt
      → connect n path a
          (record { client = record { socket_fd = negsuc 0; next_msgid = m }; world = w })
        ≡ (ok tt, record { client = record { socket_fd = pos fd; next_msgid = m }; world = w })
  unfolding connect opened close close_on_throw close_fd set_up
  connect_done a n m fd path w valid socket up = rw (valid, socket, up)

  -- A path that is refused leaves the client as it was, open or not.
  pub connect_refused :
      (s : Session Byte) (a : Attempt) (n : ℕ) (path : String) (e : Exception)
      → validate_socket_path n path ≡ throw e
      → connect n path a s ≡ (throw e, s)
  unfolding connect
  connect_refused s a n path e refuses = rw refuses

  -- Move assignment: the target's descriptor is closed, the other's changes hands with its number,
  -- and the client that was moved from holds none.
  pub move_assign_lem :
      (other : Client) (s : Session Byte)
      → ((move_assign other s).0.client ≡ other)
        × (is_open (move_assign other s).1.socket_fd ≡ false)
        × ((move_assign other s).0.world.closed ≡ s.world.closed ++ held s.socket_fd)
  unfolding move_assign
  move_assign_lem other s = (refl, refl, (close_lem s).0)
