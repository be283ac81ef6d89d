-- ===== src/Client/Ends.antt =====
-- Every call of a client returns or throws.
use arduino_q_plugin.Common.{
  ℕ, String, ◌≡◌, ◌≢◌, refl, sym, ◌∙◌, ap, Bool, true, false, not, ◌&&◌, List, [], ◌∷◌, ◌++◌,
  is_empty, Bool-cases, inl, inr, if◌then◌else◌, ◌==◌, arith,
}
use arduino_q_plugin.Common.Result.{Result, out_of_fuel}
use arduino_q_plugin.Msgpack.{Object, Objects, Msgpack, cast}
use arduino_q_plugin.Value.{Values}
use arduino_q_plugin.Socket.{Recv, receive_fresh}
use arduino_q_plugin.Socket.SendAll.{send_all-Sends}
use arduino_q_plugin.Frames.{read_response, is_number, response_type}
use arduino_q_plugin.Frames.Returns.{Ends-bind, cast-Ends, read_result-Ends}
use arduino_q_plugin.Client.{Session, is_open, call}
use arduino_q_plugin.Client.Calls.{call_refused, request, call-sent, call-unsent}

if-Ends :
    {A : Type 0} (b : Bool) (x y : Result A)
    → x ≢ out_of_fuel
    → y ≢ out_of_fuel
    → (if b then x else y) ≢ out_of_fuel
if-Ends true x y ex ey = ex
if-Ends false x y ex ey = ey

module _ (mp : Msgpack) where
  response-Ends : (msgid : ℕ) (o : Object) → read_response mp msgid o ≢ out_of_fuel
  unfolding read_response
  response-Ends msgid
        (Object.array (
          Objects.element type (
            Objects.element id
              (Objects.element error (Objects.element result Objects.no_objects))))) =
      Ends-bind (cast mp (mp.as_int type)) _ (cast-Ends mp (mp.as_int type)) (λ t.
        Ends-bind (cast mp (mp.as_uint32 id)) _ (cast-Ends mp (mp.as_uint32 id)) (λ n.
          if-Ends (is_number response_type t && n == msgid) _ _ (read_result-Ends mp error result)
            (λ e. absurd cc)))
  response-Ends msgid _ = λ e. absurd cc

  receive-Ends :
      (buffer : List mp.Byte) (rs : List (Recv mp.Byte))
      → (receive_fresh mp buffer rs).0 ≢ out_of_fuel
  unfolding receive_fresh
  receive-Ends buffer [] e = absurd cc
  receive-Ends buffer (Recv.bytes c ∷ rs) e =
      ground (arith, mp.decode (buffer ++ c), receive-Ends (buffer ++ c) rs, e)
  receive-Ends buffer (Recv.hangup ∷ rs) e = absurd cc
  receive-Ends buffer (Recv.interrupted ∷ rs) e = receive-Ends buffer rs e
  receive-Ends buffer (Recv.again ∷ rs) e = absurd cc
  receive-Ends buffer (Recv.failed error ∷ rs) e = absurd cc

  refused-Ends :
      (method : String) (args : Values) (s : Session mp.Byte)
      → (is_open s.socket_fd && not (is_empty method)) ≡ false
      → (call mp method args s).0 ≢ out_of_fuel
  refused-Ends method args s h = rw (call_refused mp method args s h) (λ e. absurd cc)

  pub call-Ends :
      (method : String) (args : Values) (s : Session mp.Byte)
      → (call mp method args s).0 ≢ out_of_fuel
  call-Ends method args s = elim (Bool-cases (is_open s.socket_fd)) [
    | inr closed ↦ refused-Ends method args s (rw closed refl)
    | inl open_socket ↦ elim (Bool-cases (is_empty method)) [
      | inl unnamed ↦ refused-Ends method args s (rw (open_socket, unnamed) refl)
      | inr named ↦ elim (send_all-Sends (request mp method args s) s.world) [
        | inl (done, sent) ↦ λ e.
            Ends-bind (receive_fresh mp [] s.world.recvs).0 (read_response mp s.next_msgid)
              (receive-Ends [] s.world.recvs) (response-Ends s.next_msgid)
              (sym (ap (λ p. p.0) (call-sent mp method args s open_socket named done)) ∙ e)
        | inr (x, k, throws, short, sent) ↦ λ e.
            cc (sym (ap (λ p. p.0) (call-unsent mp method args s open_socket named x throws)) ∙ e)
      ]
    ]
  ]
