-- ===== src/Endpoint/Connect.antt =====
-- `Endpoint::connect` and `close`.
use Prim.Native.String.{len}
use arduino_q_plugin.Common.{ℕ, String, ◌≡◌, refl, false, Bool-cases, ◌⊎◌, inl, inr, leb, is_empty}
use arduino_q_plugin.Common.Int.{ℤ, pos, negsuc}
use arduino_q_plugin.Common.Result.{ok, throw, Exception}
use arduino_q_plugin.Socket.{Attempt, Socket, made, refused, validate_socket_path, close_fd}
use arduino_q_plugin.Client.{is_open}
use arduino_q_plugin.Client.Sockets.{set_up_cases}
use arduino_q_plugin.Frames.Returns.{Ends}
use arduino_q_plugin.Endpoint.{Session, close, connect, opened, close_on_throw}

module _ {Byte : Type 0} where
  pub close-closed : (s : Session Byte) → is_open (close s).socket_fd ≡ false
  unfolding close close_fd
  close-closed s = closed s.socket_fd
    where
      closed : (fd : ℤ) → is_open (close_fd fd s.world).0 ≡ false
      closed (pos fd) = refl
      closed (negsuc n) = refl

  opened-Ends : (a : Attempt) (k : Socket) (s : Session Byte) → Ends (opened a k s).0
  unfolding opened close_on_throw
  opened-Ends a (made fd) s = elim (set_up_cases a) [
    | inl fine ↦ rw fine (λ e. absurd cc)
    | inr (x, throws) ↦ rw throws (λ e. absurd cc)
  ]
  opened-Ends a (refused error) s = λ e. absurd cc

pub validate_cases :
    (n : ℕ) (path : String)
    → (validate_socket_path n path ≡ ok tt)
      ⊎ ((e : Exception) × (validate_socket_path n path ≡ throw e))
unfolding validate_socket_path
validate_cases n path = elim (Bool-cases (is_empty path)) [
  | inl empty ↦ rw empty (inr (_, refl))
  | inr named ↦ elim (Bool-cases (leb n (len path))) [
    | inl long ↦ rw (named, long) (inr (_, refl))
    | inr fits ↦ rw (named, fits) (inl refl)
  ]
]

pub connect-Ends :
    {Byte : Type 0} (n : ℕ) (path : String) (a : Attempt) (s : Session Byte)
    → Ends (connect n path a s).0
unfolding connect
connect-Ends n path a s = elim (validate_cases n path) [
  | inl valid ↦ rw valid (opened-Ends a a.socket _)
  | inr (x, refuses) ↦ rw refuses (λ e. absurd cc)
]
