-- ===== src/Lib.antt =====
-- Verification of the arduinoQ plugin for MADS, which lets agents call methods on the
-- microcontroller of a board, and be called by it, by MessagePack-RPC over a Unix socket.
--
-- Parts, and the files that model them:
--
-- * Values (src/rpc.hpp, src/rpc.cpp): Value.antt has `Value` and `Message`; Value/Wire.antt has
--   `pack_value`, `pack_array`, `object_to_value`, `object_to_values`; Value/Json.antt has
--   `json_to_value`, `value_to_json`, `parse_json_call`; Value/Print.antt has `value_to_string`,
--   `operator<<` and `to_string`.
-- * Sockets (src/rpc.cpp): Socket.antt has `validate_socket_path`, `set_socket_timeouts`,
--   `close_fd`, `send_all` and both forms of `receive_message`. What the kernel answers to `send`
--   and `recv` is given by two scripts in a `World`, which also records the bytes sent and the
--   descriptors closed. A theorem for all scripts holds for every behaviour of the peer.
-- * Frames (src/rpc.cpp): Frames.antt has the buffers of requests and responses, and the checks of
--   what is received, as they stand in `Client::call`, `Endpoint::request`, `Endpoint::receive` and
--   `send_response`.
-- * Client (src/rpc.cpp): Client.antt has the class `Client`, each method as a function on the
--   client and its world. A method that throws keeps the state it has reached. Client/Lifetime.antt
--   has the constructors and destructors of this class and of the next.
-- * Endpoint (src/rpc.cpp): Endpoint.antt has the class `Endpoint`, whose `stream` is what its
--   unpacker holds past the messages returned.
-- * Source plugin (src/unoq_source.cpp): Source.antt has the queue between the receiver thread and
--   `get_output`, and `get_output` in notify mode. Its mutex makes each operation one step.
--   Source/Receiver.antt has `receiver_loop`, which takes what each load of its flag reads from a
--   script, so that the plugin may be stopped at any point. Source/Params.antt has
--   `setup_notify_params` and `parse_provided_methods`. Source/Calling.antt has call mode:
--   `setup_call_params`, and `get_output` over a client. Source/Lifecycle.antt has `set_params`,
--   `start_receiver`, `stop_receiver` and `info`. Source/Main.antt has `get_output` by the mode, and
--   `main`.
-- * Filter and sink plugins (src/unoq_filter.cpp, src/unoq_sink.cpp): Caller.antt has their members
--   and the `set_params` and `info` that both spell alike, Filter.antt and Sink.antt the rest, and Plugin.antt
--   what all plugins share; Filter/Main.antt and Sink/Main.antt have their `main`. A sequence of
--   calls by the framework is the relation `Reach`. Filter/Remote.antt puts the filter and the
--   router of the tests together.
-- * The router of the tests (src/dummy.cpp): Router.antt has the registry of methods and
--   `route_notification`, Router/Writes.antt `write_all`, Router/Requests.antt and Router/Echo.antt
--   the handlers, and Router/Clients.antt the thread of a client by itself. Router/Threads.antt has
--   the threads of several clients: a handler there is the tree of its calls of the functions that
--   hold a mutex (Router/Threads/Handlers.antt), and any of the threads may take the next step
--   (Router/Threads/System.antt). Router/Main.antt has `main`.
-- * The throughput tool (src/rpc_throughput.cpp): Throughput/Arguments.antt has the arguments,
--   Throughput/Specs.antt the input, Throughput/Statistics.antt `percentile`, `compute_stats` and
--   `stats_to_json`, Throughput/Runs.antt `run_test` and `main`, and Throughput/Output.antt what it
--   prints.
-- * The command line tool (src/rpc_call.cpp): Command.antt has `main` and what it makes of arguments.
-- * The sketches (arduino/rpc_notify, arduino/rpc_server, arduino/rpc_server_modulino): Sketch.antt
--   has the calls that they make of the board and of the bridge, and its children have one sketch
--   each. `micros()` is the time since the start modulo 2 ^ 32, and the tasks that the scheduler runs
--   are a list.
--
-- A plugin's receiver gets messages from an endpoint, turns them into JSON and enqueues them;
-- `get_output` drains the queue. A client's call is a request frame, answered by a response frame.
--
-- Shared: Common.antt (lists, tests, signed integers, results, methods), Json.antt and Msgpack.antt.
-- The two libraries are parameters: the records `JsonLib` and `Msgpack` hold what the code uses of
-- them, and `JsonLaws`, `WireLaws` and `CastLaws` what it relies on. Tests/Library.antt has a
-- concrete library of each kind and shows that it meets them.
--
-- Bounds and fuel. Message numbers are of type uint32_t and wrap at 2 ^ 32; integer values are those
-- of int64_t. A double is the number whose binary digits are its 64 bits; its arithmetic is the
-- record `Floats`, and `FloatLaws` says what IEEE 754 promises of counts below 2 ^ 53. `send_all` and
-- `receive_message` recur on the script of answers, and a script that has ended answers with a
-- time-out. The loop of `Endpoint::request` takes fuel, one
-- unit for each message; fuel above the number of bytes held and still to come is enough, since
-- every message takes at least one. The loop of a router's client over the messages that it holds has
-- fuel above the number of those bytes, for the same reason.
--
-- Not modelled: the third-party libraries and the operating system, which are parameters, on the
-- board as well (the bridge, the scheduler, the transform, the JSON documents, the sensor and the
-- pins); threads beyond the steps that their mutex makes of them; the progress that the tools print
-- while they run; memory that does not suffice.
pub mod Common
pub mod Json
pub mod Msgpack
pub mod Value
pub mod Socket
pub mod Frames
pub mod Client
pub mod Endpoint
pub mod Plugin
pub mod Caller
pub mod Filter
pub mod Sink
pub mod Source
pub mod Router
pub mod Command
pub mod Throughput
pub mod Tests
pub mod Sketch
