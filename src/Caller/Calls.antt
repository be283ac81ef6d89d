-- ===== src/Caller/Calls.antt =====
-- What a call and `set_params` do to the descriptor and to the flag of the setup.
use arduino_q_plugin.Common.{
  ℕ, String, ◌≡◌, ◌≢◌, refl, if-true, if-false, sym, true, false, not, ◌&&◌, Bool-cases, inl, inr,
  ◌⊎◌, is_empty, is_empty-append, arith, subst,
}
use arduino_q_plugin.Common.Result.{Result, ok, throw, out_of_fuel, Result-cases, Exception}
use arduino_q_plugin.Json.{Json, Fields, JsonLib}
use arduino_q_plugin.Msgpack.{Msgpack}
use arduino_q_plugin.Value.{Values}
use arduino_q_plugin.Value.Json.{parse_json_call}
use arduino_q_plugin.Socket.{Attempt, validate_socket_path}
use arduino_q_plugin.Client
use arduino_q_plugin.Client.{is_open, call, call_json, connect}
use arduino_q_plugin.Client.Calls.{call_effects, call_refused}
use arduino_q_plugin.Client.Sockets.{connect-Accounts, connect_refused}
use arduino_q_plugin.Caller.{Caller, connected, read_params, set_params}

module _ (mp : Msgpack) where
  pub call-socket_fd :
      (method : String) (args : Values) (c : Client.Session mp.Byte)
      → (call mp method args c).1.socket_fd ≡ c.socket_fd
  call-socket_fd method args c = elim (Bool-cases (is_open c.socket_fd && not (is_empty method))) [
    | inl passes ↦ (call_effects mp method args c (ground arith) (ground arith)).1
    | inr stops ↦ rw (call_refused mp method args c stops) refl
  ]

  pub call_json-socket_fd :
      (lib : JsonLib) (j : Json) (c : Client.Session mp.Byte)
      → (call_json mp lib j c).1.socket_fd ≡ c.socket_fd
  unfolding call_json
  call_json-socket_fd lib j c = elim (Result-cases (parse_json_call lib j)) [
    | inl ((method, args), e) ↦ rw e (call-socket_fd method args c)
    | inr (inl (x, e)) ↦ rw e refl
    | inr (inr e) ↦ rw e refl
  ]

-- The setup holds only of an open client, and a failed one says why.
pub record IsSound {Byte : Type 0} (s : Caller Byte) : Type 0 where
  pub open_if_ok : s.setup_ok ≡ true → is_open s.session.socket_fd ≡ true
  pub says_why : s.setup_ok ≡ false → is_empty s.error_text ≡ false

validate-ends : (n : ℕ) (path : String) → validate_socket_path n path ≢ out_of_fuel
unfolding validate_socket_path
validate-ends n path = λ e. ground arith

module _ {Byte : Type 0} where
  -- A connect returns with an open client, or throws.
  connect_cases :
      (n : ℕ) (path : String) (a : Attempt) (c : Client.Session Byte)
      → (((connect n path a c).0 ≡ ok tt) × (is_open (connect n path a c).1.socket_fd ≡ true))
        ⊎ ((e : Exception) × ((connect n path a c).0 ≡ throw e))
  connect_cases n path a c = elim (Result-cases (validate_socket_path n path)) [
    | inl (u, valid) ↦ elim (connect-Accounts c a n path valid).1 [
      | inl fine ↦ inl fine
      | inr (e, throws, _) ↦ inr (e, throws)
    ]
    | inr (inl (e, refuses)) ↦ inr (e, rw (connect_refused c a n path e refuses) refl)
    | inr (inr stuck) ↦ absurd (validate-ends n path stuck)
  ]

  connected-IsSound :
      (p : Result (Unit {0}) × Client.Session Byte) (s : Caller Byte)
      → s.setup_ok ≡ true
      → ((p.0 ≡ ok tt) × (is_open p.1.socket_fd ≡ true)) ⊎ ((e : Exception) × (p.0 ≡ throw e))
      → IsSound (connected p s)
  unfolding connected
  connected-IsSound (ok u, c) s good (inl fine) = record {
    open_if_ok = λ _. fine.1;
    says_why = λ bad. cc;
  }
  connected-IsSound (ok u, c) s good (inr (e, throws)) = cc
  connected-IsSound (throw e, c) s good h = record {
    open_if_ok = λ h. cc;
    says_why = λ _. is_empty-append "Failed to connect to RPC server: " _ refl;
  }
  connected-IsSound (out_of_fuel, c) s good (inl fine) = cc
  connected-IsSound (out_of_fuel, c) s good (inr (e, throws)) = cc

  -- `set_params` leaves a sound plugin, if one that failed before says why.
  pub set_params-IsSound :
      (lib : JsonLib) (base : Json → Fields × String → Fields × String) (n : ℕ) (params : Json)
      (a : Attempt) (s : Caller Byte)
      → (s.setup_ok ≡ false → is_empty s.error_text ≡ false)
      → IsSound (set_params lib base n params a s)
  unfolding set_params
  set_params-IsSound lib base n params a s says = elim (Bool-cases s.setup_ok) [
    | inl good ↦ subst IsSound (sym (if-true s.setup_ok _ (read_params lib base n params s) good)) (
        connected-IsSound (connect n (read_params lib base n params s).socket_path a s.session)
          (read_params lib base n params s) good
          (connect_cases n (read_params lib base n params s).socket_path a s.session))
    | inr bad ↦
        subst IsSound (sym (if-false s.setup_ok _ (read_params lib base n params s) bad))
          (record { open_if_ok = λ h. cc; says_why = λ _. says bad })
  ]
