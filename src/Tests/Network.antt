-- ===== src/Tests/Network.antt =====
-- Examples of the theorems on the network client.
use task_force_radio_standal.Voice.Network.Handshake.{datagrams_of}
use task_force_radio_standal.Voice.Network.Handshake.{
  Attempt, no_socket, answered, await_reply, acceptance, try_handshake, try_handshake-reply,
}
use task_force_radio_standal.Base.{
  length, take, drop, concat, replicate, length-replicate, Text, codes, ◌≤◌, ◌≡◌, refl, true, false,
  none, some, List, [], ◌∷◌, ◌++◌, map, arith,
}
use task_force_radio_standal.Protocol.{truncate_utf8}
use task_force_radio_standal.Voice.Network.{
  Event, radio_tx, connection_changed, handle_packet, Accept, radio_tx_packet, ServerConfig, Client,
}
use task_force_radio_standal.Voice.Network.Thread.{
  new_client, set_server, config_changed, pump_receive, ping_server, thread_round,
}
use task_force_radio_standal.Voice.Network.Packets.{
  bytes16, bytes32, field8, radio_tx_packet-fits, handle_packet-radio_tx,
}
use task_force_radio_standal.Voice.Network.Receive.{events_of, pump_receive-bounded}
use task_force_radio_standal.Voice.Network.Outage.{silent_server_is_left, accepted_connects}
use task_force_radio_standal.Voice.Network.Socket.{
  HashAnswers, SocketAnswers, NetworkTurn, thread_sockets,
}
use task_force_radio_standal.Voice.Network.Sockets.{network_thread-IsClean}
use task_force_radio_standal.Resource.Ownership.{IsClean}

abbrev relay : ServerConfig
relay = record { host = codes "relay"; port = 9987; password = [] }

abbrev configured : Client
configured = record new_client {
  config = relay;
  identity = record { uid = codes "765"; name = codes "A" };
}

abbrev linked : Client
linked = record configured {
  active_config = relay;
  active_uid = codes "765";
  connected = true;
  session_id = 3;
  has_socket = true;
}

abbrev welcome : Accept
welcome = record { session_id = 3; debug_audible = false; version = [] }

radio_tx_packet-fits_example :
    radio_tx_packet true (codes "50.1") 5000 (codes "digital")
    ≡ some (record {
      written =
          12
          ∷ 1
          ∷ (field8 (truncate_utf8 (codes "50.1") 16)
              ++ bytes16 5000
              ++ field8 (truncate_utf8 (codes "digital") 16));
      capacity = 38;
    })
radio_tx_packet-fits_example = radio_tx_packet-fits true (codes "50.1") 5000 (codes "digital")

handle_packet-radio_tx_example :
    handle_packet (
      13
      ∷ (bytes32 3 ++ 1 ∷ (field8 (codes "50.1") ++ (bytes16 5000 ++ (field8 (codes "dd") ++ [])))))
    ≡ some (radio_tx 3 true (codes "50.1") 5000 (codes "dd") ∷ [])
handle_packet-radio_tx_example =
    handle_packet-radio_tx 3 true (codes "50.1") 5000 (codes "dd") [] (omega arith) (omega arith)
      (omega arith) (omega arith)

-- One that cannot be read, and a Pong.
abbrev waiting : List Text
waiting = (10 ∷ 1 ∷ []) ∷ (6 ∷ []) ∷ []

pump_receive-bounded_example :
    ((pump_receive 7 waiting linked).0 ≡ events_of (take 256 waiting))
    × ((pump_receive 7 waiting linked).1 ≡ drop 256 waiting)
pump_receive-bounded_example = pump_receive-bounded 7 waiting linked (refl, (refl, tt))

silent_server_is_left_example :
    ((thread_round none 20000000000 [] linked).2.connected ≡ false)
    × ((thread_round none 20000000000 [] linked).2.session_id ≡ 0)
    × ((thread_round none 20000000000 [] linked).2.has_socket ≡ false)
    × ((thread_round none 20000000000 [] linked).0
        ≡ (ping_server 20000000000 linked).0 ++ connection_changed false ∷ [])
unfolding config_changed
silent_server_is_left_example =
    silent_server_is_left none 20000000000 linked refl refl refl refl (omega arith)

accepted_connects_example :
    ((thread_round (some welcome) 5 ((9 ∷ 9 ∷ []) ∷ []) configured).2.connected ≡ true)
    × ((thread_round (some welcome) 5 ((9 ∷ 9 ∷ []) ∷ []) configured).2.session_id ≡ 3)
    × ((thread_round (some welcome) 5 ((9 ∷ 9 ∷ []) ∷ []) configured).2.voice_sequence ≡ 0)
    × (config_changed (thread_round (some welcome) 5 ((9 ∷ 9 ∷ []) ∷ []) configured).2 ≡ false)
accepted_connects_example =
    accepted_connects welcome 5 ((9 ∷ 9 ∷ []) ∷ []) configured refl refl refl

-- A stray packet, a socket that fails, a malformed acceptance, and then the relay's.
abbrev attempts : List Attempt
attempts =
    answered ((6 ∷ []) ∷ [])
    ∷ no_socket
    ∷ answered ((2 ∷ 0 ∷ []) ∷ (2 ∷ 7 ∷ 0 ∷ 0 ∷ 0 ∷ []) ∷ [])
    ∷ []

try_handshake-reply_example :
    (packets : List Event) × (try_handshake
        (some (replicate 32 0))
        (record { uid = codes "765"; name = codes "Bravo" })
        attempts
      ≡ some (packets, acceptance (await_reply (concat (map datagrams_of (take 5 attempts))))))
    × (length packets ≤ 5)
try_handshake-reply_example =
    try_handshake-reply (replicate 32 0) (record { uid = codes "765"; name = codes "Bravo" })
      attempts (length-replicate 32 0)

abbrev all_answer : SocketAnswers
all_answer = record { resolved = true; created = true; linked = true }

abbrev hashed : HashAnswers
hashed = record { provider = true; created = true; digest = some (replicate 32 0) }

-- The settings arrive; an attempt is not resolved, one is not sent, and one is accepted. The server
-- is silent then, and the next attempt is rejected.
abbrev network_turns : List NetworkTurn
network_turns =
    record {
      hash = hashed;
      tries =
          record {
            answers = record all_answer { resolved = false };
            is_sent = true;
            datagrams = [];
          }
          ∷ record { answers = all_answer; is_sent = false; datagrams = [] }
          ∷ record {
            answers = all_answer;
            is_sent = true;
            datagrams = (2 ∷ 7 ∷ 0 ∷ 0 ∷ 0 ∷ []) ∷ [];
          }
          ∷ [];
      now = 0;
      queue = [];
      meanwhile = set_server (codes "relay") 9987 [];
    }
    ∷ record { hash = hashed; tries = []; now = 20000000000; queue = []; meanwhile = λ c. c }
    ∷ record {
      hash = hashed;
      tries = record { answers = all_answer; is_sent = true; datagrams = (3 ∷ 1 ∷ []) ∷ [] } ∷ [];
      now = 22000000000;
      queue = [];
      meanwhile = λ c. c;
    }
    ∷ []

network_thread-IsClean_example : IsClean [] (thread_sockets network_turns new_client)
unfolding set_server
network_thread-IsClean_example =
    network_thread-IsClean network_turns []
      ((λ c ok. (ok, refl)), ((λ c ok. (ok, refl)), ((λ c ok. (ok, refl)), tt)))
