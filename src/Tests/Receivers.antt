-- ===== src/Tests/Receivers.antt =====
-- Witnesses for the receiver of the source plugin: request 7 and a notification, on descriptor 6.
use arduino_q_plugin.Common.{◌≡◌, true, false, [], ◌∷◌, arith}
use arduino_q_plugin.Value.{Value}
use arduino_q_plugin.Client.{is_open}
use arduino_q_plugin.Source.Queue.{IsReady}
use arduino_q_plugin.Source.Receiver.{Receiver, receiver_loop}
use arduino_q_plugin.Source.Receiver.Ends.{receiver_loop-ends}
use arduino_q_plugin.Tests.Codec.{Token}
use arduino_q_plugin.Tests.Library.{token_lib}
use arduino_q_plugin.Tests.Endpoints.{no_text, notified, asked}
use arduino_q_plugin.Tests.Sources.{source}

abbrev calling : Receiver Token
calling = record { source = source [] "drop_oldest"; session = asked }

abbrev pub noticing : Receiver Token
noticing = record { source = source [] "drop_oldest"; session = notified }

receiver_loop-ends_example :
    (is_open (receiver_loop token_lib no_text 9 (true ∷ []) noticing).session.socket_fd ≡ false)
    × IsReady (receiver_loop token_lib no_text 9 (true ∷ []) noticing).source
receiver_loop-ends_example =
    receiver_loop-ends token_lib no_text 9 (true ∷ []) noticing
      (record { capacity = omega arith; bounded = omega arith })
