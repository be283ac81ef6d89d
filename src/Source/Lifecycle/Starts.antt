-- ===== src/Source/Lifecycle/Starts.antt =====
-- What `set_params` leaves.
use arduino_q_plugin.Common.{
  ℕ, suc, String, ◌≡◌, ◌≢◌, refl, sym, ap, subst, if-true, if-false, ◌⊎◌, inl, inr, Bool, true,
  false, Bool-cases, List, [], ◌∷◌, is_empty, is_empty-append, arith,
}
use arduino_q_plugin.Common.Int.{ℤ}
use arduino_q_plugin.Common.Result.{Result, ok, throw, out_of_fuel, what, Exception}
use arduino_q_plugin.Common.State.{◌>>◌}
use arduino_q_plugin.Json.{Json, Fields, JsonLib, value_text}
use arduino_q_plugin.Msgpack.{Msgpack, WireLaws}
use arduino_q_plugin.Socket.{Attempt}
use arduino_q_plugin.Client
use arduino_q_plugin.Client.{is_open}
use arduino_q_plugin.Client.Sockets.{connect-Accounts, connect_refused}
use arduino_q_plugin.Endpoint
use arduino_q_plugin.Endpoint.Connect.{close-closed, validate_cases, connect-Ends}
use arduino_q_plugin.Endpoint.Request.{request-ends}
use arduino_q_plugin.Endpoint.Request.Supply.{supply}
use arduino_q_plugin.Frames.Returns.{Ends, Ends-continue}
use arduino_q_plugin.Value.{Value, Values}
use arduino_q_plugin.Source.Params.Checked.{IsFailed, IsConfigured, Either}
use arduino_q_plugin.Source.Lifecycle.{
  SourceMode, Unoq, cleared, stop_receiver, destroy_plugin, read_params, setup, open_connection,
  set_params, connected, received, start_receiver, started, register_all, with_defaults,
}
use arduino_q_plugin.Source.Lifecycle.Setup.{
  GoesOn, chosen_mode-GoesOn, setup_notify-Either, setup_call-GoesOn,
}

connect_cases :
    {Byte : Type 0} (s : Client.Session Byte) (a : Attempt) (n : ℕ) (path : String)
    → (((Client.connect n path a s).0 ≡ ok tt)
        × (is_open (Client.connect n path a s).1.socket_fd ≡ true))
      ⊎ ((e : Exception) × ((Client.connect n path a s).0 ≡ throw e))
connect_cases s a n path = elim (validate_cases n path) [
  | inr (e, refuses) ↦ inr (e, ap (λ p. p.0) (connect_refused s a n path e refuses))
  | inl valid ↦ elim (connect-Accounts s a n path valid).1 [
    | inl done ↦ inl done
    | inr (e, throws, shut) ↦ inr (e, throws)
  ]
]

module _ (mp : Msgpack) (show_int : ℤ → String) (laws : WireLaws mp) where
  register_method-Ends :
      (method : String) (s : Endpoint.Session mp.Byte)
      → Ends (Endpoint.register_method mp (suc (supply s)) method s).0
  unfolding Endpoint.register_method
  register_method-Ends method s = elim (Bool-cases (is_empty method)) [
    | inl unnamed ↦ rw unnamed (λ e. absurd cc)
    | inr named ↦ rw named (
        Ends-continue
          (Endpoint.request mp (suc (supply s)) "$/register"
            (Values.value (Value.string method) Values.no_values) s)
          _ (request-ends mp laws (suc (supply s)) "$/register" _ s (omega arith))
          (λ v q e. absurd cc))
  ]

  register_all-Ends :
      (methods : List String) (s : Endpoint.Session mp.Byte)
      → Ends (register_all mp show_int methods s).0
  unfolding register_all
  register_all-Ends [] s = λ e. absurd cc
  register_all-Ends (method ∷ rest) s =
      Ends-continue (Endpoint.register_method mp (suc (supply s)) method s) _
        (register_method-Ends method s) (λ u q. register_all-Ends rest _)

  start-Ends :
      (n : ℕ) (path : String) (a : Attempt) (methods : List String) (s : Endpoint.Session mp.Byte)
      → Ends ((Endpoint.connect n path a >> register_all mp show_int methods) s).0
  start-Ends n path a methods s =
      Ends-continue (Endpoint.connect n path a s) _ (connect-Ends n path a s)
        (λ u q. register_all-Ends methods _)

-- No receiver runs, and the endpoint is closed.
abbrev IsStopped : {Byte : Type 0} → Unoq Byte → Type 0
IsStopped s = (s.joinable ≡ false) × (is_open s.endpoint.socket_fd ≡ false)

-- What `set_params` leaves in a mode.
abbrev pub Outcome : {Byte : Type 0} → SourceMode → Unoq Byte → Type 0
Outcome SourceMode.call s =
    (s.mode ≡ SourceMode.call)
    × IsStopped s
    × Either (λ t. is_open s.client.socket_fd ≡ true) s.source
Outcome SourceMode.notify s =
    (s.mode ≡ SourceMode.notify)
    × (((s.source.setup_ok ≡ true) × IsConfigured s.source × (s.joinable ≡ true))
        ⊎ (IsFailed s.source × IsStopped s))

same_mode : {Byte : Type 0} (m : SourceMode) (s : Unoq Byte) → Outcome m s → s.mode ≡ m
same_mode SourceMode.call s h = h.0
same_mode SourceMode.notify s h = h.0

module _ (mp : Msgpack) (show_int : ℤ → String) where
  stop_receiver-IsStopped :
      (loads : List Bool) (s : Unoq mp.Byte) → IsStopped (stop_receiver mp show_int loads s)
  unfolding stop_receiver
  stop_receiver-IsStopped loads s = elim (Bool-cases s.joinable) [
    | inl running ↦ rw running (refl, close-closed _)
    | inr idle ↦ rw idle (refl, close-closed _)
  ]

  -- When the plugin is destroyed, no receiver runs, and its endpoint is closed.
  pub destroy_plugin-IsStopped :
      (loads : List Bool) (s : Unoq mp.Byte) → IsStopped (destroy_plugin mp show_int loads s)
  unfolding destroy_plugin
  destroy_plugin-IsStopped loads s = stop_receiver-IsStopped loads s

  module _ (lib : JsonLib) (base : Json → Fields × String → Fields × String) (n : ℕ) where
    connected-Outcome :
        (p : Result (Unit {0}) × Client.Session mp.Byte) (s : Unoq mp.Byte)
        → ((p.0 ≡ ok tt) × (is_open p.1.socket_fd ≡ true)) ⊎ ((e : Exception) × (p.0 ≡ throw e))
        → s.mode ≡ SourceMode.call
        → IsStopped s
        → s.source.setup_ok ≡ true
        → Outcome SourceMode.call (connected mp show_int lib base n p s)
    unfolding connected
    connected-Outcome (ok u, c) s (inl (_, open_socket)) mode stopped good =
        (mode, stopped, inl (good, open_socket))
    connected-Outcome (ok u, c) s (inr (e, q)) mode stopped good = absurd cc
    connected-Outcome (throw e, c) s h mode stopped good = (
      mode,
      stopped,
      inr (refl, is_empty-append "Failed to connect to RPC server: " (what e) refl),
    )
    connected-Outcome (out_of_fuel, c) s (inl (q, _)) mode stopped good = absurd cc
    connected-Outcome (out_of_fuel, c) s (inr (e, q)) mode stopped good = absurd cc

    open_call-Outcome :
        (a : Attempt) (s : Unoq mp.Byte)
        → s.mode ≡ SourceMode.call
        → IsStopped s
        → GoesOn s.source
        → Outcome SourceMode.call (open_connection mp show_int lib base n SourceMode.call a s)
    unfolding open_connection
    open_call-Outcome a s mode stopped (inr failed) =
        subst (λ t. Outcome SourceMode.call t) (sym (if-false s.source.setup_ok _ s failed.0))
          (mode, stopped, inr failed)
    open_call-Outcome a s mode stopped (inl (good, _)) =
        subst (λ t. Outcome SourceMode.call t) (sym (if-true s.source.setup_ok _ s good))
          (connected-Outcome (Client.connect n s.socket_path a s.client) s
            (connect_cases s.client a n s.socket_path) mode stopped good)

    started-Outcome :
        (p : Result (Unit {0}) × Endpoint.Session mp.Byte) (s : Unoq mp.Byte)
        → p.0 ≢ out_of_fuel
        → s.mode ≡ SourceMode.notify
        → IsStopped s
        → s.source.setup_ok ≡ true
        → IsConfigured s.source
        → Outcome SourceMode.notify (received mp show_int lib base n (started mp show_int p s))
    unfolding received started
    started-Outcome (ok u, e) s ends mode stopped good configured =
        (mode, inl (good, configured, refl))
    started-Outcome (throw x, e) s ends mode stopped good configured = (
      mode,
      inr (
        (refl, is_empty-append "Failed to start RPC receiver: " (what x) refl),
        (stopped.0, close-closed e),
      ),
    )
    started-Outcome (out_of_fuel, e) s ends mode stopped good configured = absurd (ends refl)

    open_notify-Outcome :
        (laws : WireLaws mp) (a : Attempt) (s : Unoq mp.Byte)
        → s.mode ≡ SourceMode.notify
        → IsStopped s
        → Either IsConfigured s.source
        → Outcome SourceMode.notify (open_connection mp show_int lib base n SourceMode.notify a s)
    unfolding open_connection start_receiver
    open_notify-Outcome laws a s mode stopped (inr failed) =
        subst (λ t. Outcome SourceMode.notify t) (sym (if-false s.source.setup_ok _ s failed.0))
          (mode, inr (failed, stopped))
    open_notify-Outcome laws a s mode stopped (inl (good, configured)) =
        subst (λ t. Outcome SourceMode.notify t) (sym (if-true s.source.setup_ok _ s good))
          (started-Outcome _ s
            (start-Ends mp show_int laws n s.socket_path a s.source.provided_methods s.endpoint)
            mode stopped good configured)

    set_up-Outcome :
        (laws : WireLaws mp) (m : SourceMode) (a : Attempt) (s : Unoq mp.Byte)
        → s.mode ≡ m
        → IsStopped s
        → GoesOn s.source
        → Outcome m (open_connection mp show_int lib base n m a (setup mp show_int lib base n m s))
    unfolding setup
    set_up-Outcome laws SourceMode.call a s mode stopped h =
        open_call-Outcome a _ mode stopped (setup_call-GoesOn lib s.params s.source h)
    set_up-Outcome laws SourceMode.notify a s mode stopped h =
        open_notify-Outcome laws a _ mode stopped (setup_notify-Either lib s.params s.source h)

    read_params-GoesOn :
        (params : Json) (s : Unoq mp.Byte)
        → GoesOn (read_params mp show_int lib base n params s).source
    unfolding read_params cleared
    read_params-GoesOn params s =
        let (inherited, agent) = base params (s.params, s.source.agent_id) in
        chosen_mode-GoesOn
          (value_text lib "mode" "call"
            (Json.object (with_defaults mp show_int lib base n params inherited)))
          s.mode (cleared agent s.source) refl

    -- Whatever the parameters, the kernel and the router do, `set_params` leaves the plugin in one of
    -- these states: in call mode with its client connected; in notify mode configured, with its
    -- receiver running; or failed, with an error text. Unless it listens, no receiver runs and the
    -- endpoint is closed.
    pub set_params-Outcome :
        (laws : WireLaws mp) (loads : List Bool) (params : Json) (a : Attempt) (s : Unoq mp.Byte)
        → Outcome
            (set_params mp show_int lib base n loads params a s).mode
            (set_params mp show_int lib base n loads params a s)
    unfolding set_params read_params
    set_params-Outcome laws loads params a s =
        let r = read_params mp show_int lib base n params (stop_receiver mp show_int loads s) in
        let after = set_params mp show_int lib base n loads params a s in
        let outcome : Outcome r.mode after =
          set_up-Outcome laws r.mode a r refl (stop_receiver-IsStopped loads s)
            (read_params-GoesOn params (stop_receiver mp show_int loads s)) in
        subst (λ m. Outcome m after) (sym (same_mode r.mode after outcome)) outcome
