-- ===== src/Voice/Network/Thread.antt =====
-- One round of the network thread, and what the tick does in between
-- (addon/extensions/task_force_radio_pipe/src/Voice/VoiceNetworkClient.cpp: setServer, setIdentity,
-- configChangedLocked, setConnected, pumpReceive, threadMain). A round reads the clock once, and
-- the thread is asked to stop only between two rounds: the test of m_running behind pumpReceive, which
-- leaves out the rest of a round that `stop` interrupts, is not modelled. The
-- result of `tryHandshake` and the datagrams that wait on the socket are its arguments.
use task_force_radio_standal.Base.{
  ltb, leb, ◌==◌, if◌then◌else◌, Text, is_empty, text_eq, ℕ, zero, suc, ◌-◌, ◌/◌, Bool, true, false,
  not, ◌&&◌, ◌||◌, Option, none, some, List, [], ◌∷◌, ◌++◌,
}
use task_force_radio_standal.Protocol.{
  roster_request, packet_code, PacketWriter, new_writer, write_byte,
}
use task_force_radio_standal.State.Queries.{ms}
use task_force_radio_standal.Voice.Network.{
  Event, connection_changed, handle_packet, Accept, ping_packet, ServerConfig, Client, send_raw,
}

abbrev pub max_packets_per_pump : ℕ
max_packets_per_pump = 256

abbrev pub ping_interval : ℕ
ping_interval = ms 5000

abbrev pub server_timeout : ℕ
server_timeout = ms 15000

abbrev no_config : ServerConfig
no_config = record { host = []; port = 0; password = [] }

abbrev pub new_client : Client
new_client = record {
  config = no_config;
  identity = record { uid = []; name = [] };
  active_config = no_config;
  active_uid = [];
  connected = false;
  session_id = 0;
  debug_force_audible = false;
  server_version = [];
  has_socket = false;
  voice_sequence = 0;
  last_ping_time = 0;
  last_recv_time = 0;
}

unfoldable pub set_server : Text → ℕ → Text → Client → Client
set_server host port password c = record c {
  config = record { host = host; port = port; password = password };
}

unfoldable pub set_identity : Text → Text → Client → Client
set_identity uid name c = record c { identity = record { uid = uid; name = name } }

unfoldable pub config_changed : Client → Bool
unfolding text_eq
config_changed c =
    not (text_eq c.config.host c.active_config.host)
    || not (c.config.port == c.active_config.port)
    || not (text_eq c.config.password c.active_config.password)
    || (not (is_empty c.identity.uid) && not (text_eq c.identity.uid c.active_uid))

unfoldable pub set_connected : Bool → Client → List Event × Client
set_connected true c = (connection_changed true ∷ [], record c { connected = true })
set_connected false c = (
  connection_changed false ∷ [],
  record c { connected = false; session_id = 0; debug_force_audible = false },
)

-- A malformed datagram is dropped alone.
abbrev pub or_nothing : Option (List Event) → List Event
or_nothing none = []
or_nothing (some events) = events

-- The callbacks, the datagrams that are left, and the client.
unfoldable pub pump_loop : ℕ → ℕ → List Text → Client → List Event × List Text × Client
pump_loop zero now queue c = ([], queue, c)
pump_loop (suc left) now [] c = ([], [], c)
pump_loop (suc left) now ([] ∷ queue) c = ([], queue, c)
pump_loop (suc left) now ((b ∷ bs) ∷ queue) c =
    let (events, queue', c') = pump_loop left now queue (record c { last_recv_time = now }) in
    (or_nothing (handle_packet (b ∷ bs)) ++ events, queue', c')

unfoldable pub pump_receive : ℕ → List Text → Client → List Event × List Text × Client
unfolding pump_loop
pump_receive = pump_loop max_packets_per_pump

unfoldable pub roster_request_packet : Option PacketWriter
unfolding packet_code
roster_request_packet = write_byte (packet_code roster_request) (new_writer 1)

unfoldable pub ping_server : ℕ → Client → List Event × Client
unfolding ping_packet roster_request_packet send_raw
ping_server now c =
    if leb ping_interval (now - c.last_ping_time)
    then (
      send_raw (ping_packet (now / 1000000)) c ++ send_raw roster_request_packet c,
      record c { last_ping_time = now },
    )
    else ([], c)

unfoldable pub close_connection : Client → List Event × Client
unfolding set_connected
close_connection c = set_connected false (record c { has_socket = false })

unfoldable pub watch_server : ℕ → Client → List Event × Client
unfolding close_connection
watch_server now c =
    if ltb server_timeout (now - c.last_recv_time) then close_connection c else ([], c)

-- The part of a round on a connection.
unfoldable pub serve : ℕ → List Text → Client → List Event × List Text × Client
unfolding pump_receive ping_server watch_server
serve now queue c =
    let (received, queue', c1) = pump_receive now queue c in
    let (pings, c2) = ping_server now c1 in
    let (lost, c3) = watch_server now c2 in (received ++ pings ++ lost, queue', c3)

-- What a successful handshake leaves, before `setConnected(true)`.
unfoldable pub establish : Accept → ℕ → Client → Client
establish a now c = record c {
  session_id = a.session_id;
  debug_force_audible = a.debug_audible;
  server_version = a.version;
  has_socket = true;
  active_config = c.config;
  active_uid = c.identity.uid;
  voice_sequence = 0;
  last_ping_time = now;
  last_recv_time = now;
}

unfoldable pub connect_and_serve :
    Option Accept → ℕ → List Text → Client → List Event × List Text × Client
unfolding serve establish set_connected
connect_and_serve none now queue c = ([], queue, record c { has_socket = false })
connect_and_serve (some a) now queue c =
    let (up, c1) = set_connected true (establish a now c) in
    let (events, queue', c2) = serve now queue c1 in (up ++ events, queue', c2)

unfoldable pub reconnect_if_changed : Client → List Event × Client
unfolding config_changed close_connection
reconnect_if_changed c = if c.connected && config_changed c then close_connection c else ([], c)

unfoldable pub thread_round :
    Option Accept → ℕ → List Text → Client → List Event × List Text × Client
unfolding reconnect_if_changed connect_and_serve serve
thread_round reply now queue c =
    let (closed, c1) = reconnect_if_changed c in
    let (events, queue', c2) =
      if c1.connected then serve now queue c1 else connect_and_serve reply now queue c1 in
    if is_empty c.config.host || c.config.port == 0
    then ([], queue, c)
    else (closed ++ events, queue', c2)
