-- ===== src/Router/Threads/Answers.antt =====
-- A client that makes one call, among the clients of others.
use arduino_q_plugin.Common.{
  ℕ, ◌≤◌, String, ◌≡◌, ap, subst, sym, ◌∙◌, true, none, some, List, [], ◌∷◌, ◌++◌, length,
}
use arduino_q_plugin.Common.Int.{ℤ}
use arduino_q_plugin.Common.Result.{Exception}
use arduino_q_plugin.Msgpack.{Msgpack, WireLaws, CastLaws}
use arduino_q_plugin.Value.{Values}
use arduino_q_plugin.Socket.{Recv}
use arduino_q_plugin.Socket.SendAll.{capacity}
use arduino_q_plugin.Socket.Receive.{incoming, some_bytes}
use arduino_q_plugin.Frames.{request_bytes}
use arduino_q_plugin.Frames.Laws.{request_object, request_object-IsWire, request_bytes-encode, Fits}
use arduino_q_plugin.Router.{lookup_method}
use arduino_q_plugin.Router.Registry.{IsMap, unless_owned, lookup_method-reset_methods}
use arduino_q_plugin.Router.Clients.{handle_message, leave}
use arduino_q_plugin.Router.Clients.Answers.{IsPlain, IsCarried, answer, answer_bytes}
use arduino_q_plugin.Router.Clients.Lone.{client_loop-lone}
use arduino_q_plugin.Router.Clients.Remote.{answered}
use arduino_q_plugin.Router.Threads.Loop.{client_loop-Reaches}
use arduino_q_plugin.Router.Threads.Steps.{Leads}
use arduino_q_plugin.Router.Threads.System.{Phase, System}

module _ (mp : Msgpack) (show_int : ℤ → String) (show_double : ℕ → String)
    (insufficient undefined : Exception) (laws : WireLaws mp) (casts : CastLaws mp) where
  -- The steps of the thread of a descriptor alone lead to its end. These bytes were written to the
  -- descriptor, no name is registered to it any more, and all other names are registered as before.
  abbrev pub Serves : ℕ → List (Recv mp.Byte) → List mp.Byte → System mp.Byte → Type 0
  Serves fd rs bytes s =
      (qs : List (Recv mp.Byte)) × (s' : System mp.Byte) × Leads mp show_int show_double
        insufficient undefined fd rs s qs s'
      × (s'.threads fd ≡ none)
      × (s'.hub.outbox ≡ s.hub.outbox ++ (fd, bytes) ∷ [])
      × ((name : String)
          → lookup_method name s'.hub.entries ≡ unless_owned fd (lookup_method name s.hub.entries))

  -- Among the clients of the router, one that makes a call of `ping`, of `echo`, or of a method that
  -- the router does not have, and hangs up: its bytes may come in any pieces, and whatever the other
  -- threads have left behind, with no name registered twice and no signal, the steps of the client's
  -- own thread lead to its end, without waiting for another thread. The answer to the call has then
  -- been written to the client, no name belongs to its descriptor, and all other names belong to the
  -- descriptors that they did. The kernel takes the answer, and the format can carry the call and the
  -- text of the answer.
  pub thread-Serves :
      (fd msgid : ℕ) (method : String) (args : Values) (rs : List (Recv mp.Byte))
      (s : System mp.Byte)
      → s.threads fd ≡ some (Phase.waiting [])
      → s.running ≡ true
      → IsMap s.hub.entries
      → IsPlain method
      → Fits msgid method args
      → IsCarried (answer show_int show_double method args)
      → length (
          answer_bytes mp show_int show_double insufficient undefined laws msgid
            (answer show_int show_double method args))
        ≤ capacity s.hub.answers
      → incoming rs ≡ request_bytes mp msgid method args
      → Serves fd rs
          (answer_bytes mp show_int show_double insufficient undefined laws msgid
            (answer show_int show_double method args))
          s
  unfolding leave
  thread-Serves fd msgid method args rs s stands runs one_each plain fits carried room comes =
      let o = request_object msgid method args in
      let wire = request_object-IsWire msgid method args fits in
      let handled = handle_message mp show_int show_double insufficient undefined fd o s.hub in
      let (returned, kept, wrote) =
        answered mp show_int show_double insufficient undefined laws casts fd msgid method args
          s.hub plain carried fits.0 room in
      let ends =
        client_loop-lone mp show_int show_double insufficient undefined laws fd o wire s.hub
          handled.1 (ap (λ r. (r, handled.1)) returned) rs [] (some_bytes mp laws o wire)
          (comes ∙ request_bytes-encode mp laws msgid method args fits) in
      let (qs, (s', leads, hub, gone, still)) =
        client_loop-Reaches mp show_int show_double insufficient undefined fd rs [] s
          (leave mp show_int show_double insufficient undefined fd handled.1) stands runs ends in
      (
        qs,
        s',
        leads,
        gone,
        ap (λ h. h.outbox) hub ∙ wrote,
        λ name.
            ap (λ h. lookup_method name h.entries) hub
            ∙ (lookup_method-reset_methods fd name handled.1.entries
                  (subst IsMap (sym kept) one_each)
                ∙ ap (λ es. unless_owned fd (lookup_method name es)) kept),
      )
