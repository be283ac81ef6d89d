-- ===== src/Tests/Remote.antt =====
-- Witnesses for a remote call through the router, and for the threads of its clients.
use arduino_q_plugin.Common.{◌≡◌, refl, true, none, some, List, [], ◌∷◌, arith}
use arduino_q_plugin.Common.Int.{ℤ, pos, negsuc}
use arduino_q_plugin.Common.Result.{ok}
use arduino_q_plugin.Msgpack.{Object, message}
use arduino_q_plugin.Json.{Json, Fields}
use arduino_q_plugin.Value.{Value, Values, Message, MessageType, IsValid}
use arduino_q_plugin.Caller.{Caller, default_socket_path}
use arduino_q_plugin.Value.Wire.{pack_array, pack_value}
use arduino_q_plugin.Value.Wire.Laws.{to_object}
use arduino_q_plugin.Socket.{Send, Recv}
use arduino_q_plugin.Socket.SendAll.{capacity}
use arduino_q_plugin.Socket.Receive.{incoming}
use arduino_q_plugin.Frames.{request_bytes, response_bytes}
use arduino_q_plugin.Frames.Laws.{Fits}
use arduino_q_plugin.Client
use arduino_q_plugin.Client.{call}
use arduino_q_plugin.Router.{lookup_method, register_method, reset_methods}
use arduino_q_plugin.Router.Echo.{format_echo_arg, format_echo_args, format_echo_result}
use arduino_q_plugin.Router.Registry.{IsMap}
use arduino_q_plugin.Router.Writes.{Hub, send_buffer, write_loop}
use arduino_q_plugin.Router.Clients.{handle_message}
use arduino_q_plugin.Router.Threads.Answers.{Serves, thread-Serves}
use arduino_q_plugin.Router.Clients.Answers.{IsPlain}
use arduino_q_plugin.Router.Clients.Remote.{Answered, remote_call}
use arduino_q_plugin.Router.Threads.{Task}
use arduino_q_plugin.Router.Threads.Owned.{IsOwned, Reachable-IsOwned}
use arduino_q_plugin.Router.Threads.System.{
  System, Phase, Event, Reachable, perform, put, accept_step, thread_step, task_step,
}
use arduino_q_plugin.Tests.Codec.{Token}
use arduino_q_plugin.Tests.Hubs.{hub, reads, no_number, no_digits, insufficient, undefined}
use arduino_q_plugin.Tests.Library.{token_lib, token_laws, token_casts}

abbrev hello : Values
hello = Values.value (Value.string "hi") Values.no_values

abbrev echoed : List Token
echoed =
    Token.header 4
    ∷ Token.int (pos 1)
    ∷ Token.int (pos 7)
    ∷ Token.nil
    ∷ Token.str "std::string: hi"
    ∷ []

-- The answer comes in two pieces.
abbrev caller : Client.Session Token
caller = record {
  client = record { socket_fd = pos 3; next_msgid = 7 };
  world = record {
    sends = Send.accepted 2 ∷ Send.interrupted ∷ Send.accepted 9 ∷ [];
    recvs =
        Recv.bytes (Token.header 4 ∷ [])
        ∷ Recv.bytes
            (Token.int (pos 1) ∷ Token.int (pos 7) ∷ Token.nil ∷ Token.str "std::string: hi" ∷ [])
        ∷ [];
    sent = [];
    closed = [];
  };
}

hello-Fits : Fits 7 "echo" hello
unfolding IsValid
hello-Fits = (omega arith, omega arith, omega arith, (omega arith, tt))

echo-IsPlain : IsPlain "echo"
echo-IsPlain = record {
  not_register = refl;
  not_reset = refl;
  not_add = refl;
  not_array = refl;
  not_emit = refl;
}

remote_call_example :
    (o : Object) × (token_lib.decode (request_bytes token_lib 7 "echo" hello) ≡ message o [])
    × Answered token_lib no_number no_digits insufficient undefined token_laws token_casts 4 echoed
        hub
        (handle_message token_lib no_number no_digits insufficient undefined 4 o hub)
    × ((call token_lib "echo" hello caller).0 ≡ ok (Value.string "std::string: hi"))
unfolding request_bytes response_bytes pack_array pack_value capacity incoming format_echo_result
    format_echo_args format_echo_arg to_object
remote_call_example =
    remote_call token_lib no_number no_digits insufficient undefined token_laws token_casts 4 "echo"
      hello [] hub caller echo-IsPlain refl refl hello-Fits (omega arith) (omega arith)
      (omega arith) refl

-- The filter on the same session, given the call echo("hi").
abbrev filter : Caller Token
filter = record {
  setup_ok = true;
  error_text = "";
  agent_id = "agent";
  params = Fields.no_fields;
  socket_path = default_socket_path;
  rpc_call = Json.null;
  session = caller;
}

abbrev echo_call : Message
echo_call = record { type = MessageType.request; msgid = 7; method = "echo"; args = hello }

-- The thread of the client on descriptor 4, which registers a method.
abbrev registering : Task Token (Unit {0})
registering = Task.register "led" (Task.done (ok tt))

abbrev empty_hub : Hub Token
empty_hub = record { entries = []; answers = []; outbox = []; closed = [] }

abbrev start : System Token
start = record {
  hub = empty_hub;
  threads = put 4 (some (Phase.handling registering [])) (λ fd. none);
  running = true;
}

start-IsOwned : IsOwned start
unfolding IsMap lookup_method
start-IsOwned = record { one_each = tt; serving = λ name fd e. absurd cc }

-- Client 5 connects, and then the thread of client 4 takes its next step.
abbrev connected : System Token
connected = record start { threads = put 5 (some (Phase.waiting [])) start.threads }

abbrev later : System Token
later = record {
  hub = record empty_hub { entries = ("led", 4) ∷ [] };
  threads = put 4 (some (Phase.handling (Task.done (ok tt)) [])) connected.threads;
  running = true;
}

events : Reachable token_lib no_number no_digits insufficient undefined start later
unfolding perform accept_step thread_step task_step register_method
events = Reachable.next (Reachable.next Reachable.here (Event.accepted 5) refl) (Event.steps 4) refl

Reachable-IsOwned_example : IsOwned later
Reachable-IsOwned_example =
    Reachable-IsOwned token_lib no_number no_digits insufficient undefined start-IsOwned events

-- The descriptor of a notification may have gone to another client when it is sent: client 4 leaves
-- after client 5 has looked it up, and the next connection gets its descriptor.
abbrev routing : ℤ → Task Token (Unit {0})
routing (pos fd) = Task.send fd echoed (λ sent. Task.done (ok tt))
routing (negsuc n) = Task.done (ok tt)

abbrev crossing : System Token
crossing = record {
  hub = record {
    entries = ("led", 4) ∷ [];
    answers = Send.accepted 9 ∷ [];
    outbox = [];
    closed = [];
  };
  threads =
      put 4 (some Phase.leaving)
        (put 5 (some (Phase.handling (Task.lookup "led" routing) [])) (λ fd. none));
  running = true;
}

abbrev crossed : System Token
crossed = record {
  hub = record { entries = []; answers = []; outbox = (4, echoed) ∷ []; closed = 4 ∷ [] };
  threads = put 5 (some (Phase.handling (Task.done (ok tt)) [])) (
      put 4 (some (Phase.waiting [])) (
        put 4 none (
          put 4 (some Phase.closing)
            (put 5 (some (Phase.handling (routing (pos 4)) [])) crossing.threads))));
  running = true;
}

crossing_events : Reachable token_lib no_number no_digits insufficient undefined crossing crossed
unfolding perform accept_step thread_step task_step lookup_method reset_methods send_buffer
    write_loop
crossing_events =
    Reachable.next
      (Reachable.next
        (Reachable.next
          (Reachable.next (Reachable.next Reachable.here (Event.steps 5) refl) (Event.steps 4) refl)
          (Event.steps 4) refl)
        (Event.accepted 4) refl)
      (Event.steps 5) refl

-- Client 4 sends a ping in two pieces, and hangs up.
abbrev waiting : System Token
waiting = record {
  hub = hub;
  threads = put 4 (some (Phase.waiting [])) (λ fd. none);
  running = true;
}

ping-Fits : Fits 7 "ping" Values.no_values
unfolding IsValid
ping-Fits = (omega arith, omega arith, omega arith, tt)

ping-IsPlain : IsPlain "ping"
ping-IsPlain = record {
  not_register = refl;
  not_reset = refl;
  not_add = refl;
  not_array = refl;
  not_emit = refl;
}

abbrev pong : List Token
pong = Token.header 4 ∷ Token.int (pos 1) ∷ Token.int (pos 7) ∷ Token.nil ∷ Token.str "pong" ∷ []

thread-Serves_example :
    Serves token_lib no_number no_digits insufficient undefined token_laws token_casts 4 reads pong
      waiting
unfolding request_bytes response_bytes pack_array pack_value capacity incoming IsMap lookup_method
thread-Serves_example =
    thread-Serves token_lib no_number no_digits insufficient undefined token_laws token_casts 4 7
      "ping" Values.no_values reads waiting refl refl (refl, tt) ping-IsPlain ping-Fits
      (omega arith) (omega arith) refl
