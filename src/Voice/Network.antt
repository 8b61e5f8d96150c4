-- ===== src/Voice/Network.antt =====
-- The client of the voice relay
-- (addon/extensions/task_force_radio_pipe/src/Voice/VoiceNetworkClient.h and
-- VoiceNetworkClient.cpp): the packets it builds and reads, and one round of its thread. SHA-256,
-- the resolver and the socket are no code of the repository: a hash, the reply to a handshake and
-- the datagrams that are received stand among the arguments. What is sent or called back is output.
pub mod Packets
pub mod Thread
pub mod Tracked
pub mod Closed
pub mod Connection
pub mod Receive
pub mod Outage
pub mod Handshake
pub mod Owned
pub mod Socket
pub mod Sockets
use task_force_radio_standal.Protocol.{◌>>=◌}
use task_force_radio_standal.Base.{
  ltb, ◌==◌, if◌then◌else◌, length, drop, Text, is_empty, ℕ, ◌+◌, ◌%◌, ◌^◌, Bool, false, not, ◌||◌,
  Option, none, some, List, [], ◌∷◌,
}
use task_force_radio_standal.Protocol.{
  connect_request, connect_accept, ping, voice_up, voice_down, client_joined, client_left,
  radio_tx_update, radio_tx_broadcast, packet_code, last_frame_flag, version_major, max_name_length,
  max_uid_length, max_opus_frame_length, max_freq_length, max_subtype_length, max_version_length,
  truncate_utf8, PacketWriter, new_writer, write_byte, write_uint16, write_uint32, write_string8,
  write_bytes, read_byte, read_uint16, read_uint32, read_string8,
}
use Prim.Native.Nat.{bit_and}

pub data Event : Type 0 where
  voice_frame : ℕ → ℕ → Bool → Text → Event
  remote_joined : ℕ → Text → Text → Event
  remote_left : ℕ → Event
  radio_tx : ℕ → Bool → Text → ℕ → Text → Event
  connection_changed : Bool → Event
  sent : Text → Event

abbrev pub nonzero : ℕ → Bool
nonzero n = not (n == 0)

-- The callbacks of one datagram; `none` where the reader throws.
unfoldable pub read_voice_down : Text → Option (List Event)
read_voice_down bs = do
  (sender, bs) ← read_uint32 bs
  (sequence, bs) ← read_uint16 bs
  (flags, opus) ← read_byte bs
  some (voice_frame sender sequence (nonzero (bit_and flags last_frame_flag)) opus ∷ [])

unfoldable pub read_client_joined : Text → Option (List Event)
read_client_joined bs = do
  (session_id, bs) ← read_uint32 bs
  (uid, bs) ← read_string8 max_uid_length bs
  (name, _) ← read_string8 max_name_length bs
  some (remote_joined session_id uid name ∷ [])

unfoldable pub read_client_left : Text → Option (List Event)
read_client_left bs = do (session_id, _) ← read_uint32 bs; some (remote_left session_id ∷ [])

unfoldable pub read_radio_tx : Text → Option (List Event)
read_radio_tx bs = do
  (session_id, bs) ← read_uint32 bs
  (active, bs) ← read_byte bs
  (freq, bs) ← read_string8 max_freq_length bs
  (range, bs) ← read_uint16 bs
  (sub, _) ← read_string8 max_subtype_length bs
  some (radio_tx session_id (nonzero active) freq range sub ∷ [])

unfoldable pub handle_packet : Text → Option (List Event)
unfolding packet_code read_voice_down read_client_joined read_client_left read_radio_tx
handle_packet [] = some []
handle_packet (code ∷ bs) =
    if code == packet_code voice_down
    then read_voice_down bs
    else if code == packet_code client_joined
    then read_client_joined bs
    else if code == packet_code client_left
    then read_client_left bs
    else if code == packet_code radio_tx_broadcast
    then read_radio_tx bs
    else some []

pub record Accept : Type 0 where
  pub session_id : ℕ
  pub debug_audible : Bool
  pub version : Text

-- The fields behind the session's number are optional: what is there is read, and a version that
-- cannot be read stays empty.
unfoldable pub skip_max_clients : Text → Text
skip_max_clients bs = if ltb (length bs) 2 then bs else drop 2 bs

unfoldable pub read_version : Text → Text
read_version bs = elim (read_string8 max_version_length bs) [ none ↦ [] | some field ↦ field.0 ]

unfoldable pub accept_tail : ℕ → Text → Accept
unfolding read_version
accept_tail session_id [] = record { session_id = session_id; debug_audible = false; version = [] }
accept_tail session_id (debug ∷ bs) = record {
  session_id = session_id;
  debug_audible = nonzero debug;
  version = read_version bs;
}

-- A reply to the handshake that is an acceptance; `none` where it is malformed or something else.
unfoldable pub read_accept : Text → Option Accept
unfolding packet_code skip_max_clients accept_tail
read_accept [] = none
read_accept (code ∷ bs) =
    if not (code == packet_code connect_accept)
    then none
    else do (session_id, bs) ← read_uint32 bs; some (accept_tail session_id (skip_max_clients bs))

-- The packets that are sent; `none` where the writer throws.
unfoldable pub connect_request_packet : Text → Text → Text → Option PacketWriter
unfolding packet_code
connect_request_packet password_hash uid name = do
  w ← write_byte (packet_code connect_request) (new_writer 108)
  w ← write_byte version_major w
  w ← write_bytes password_hash w
  w ← write_string8 (truncate_utf8 uid max_uid_length) w
  write_string8 (truncate_utf8 name max_name_length) w

unfoldable pub voice_up_packet : ℕ → Text → Bool → Option PacketWriter
unfolding packet_code
voice_up_packet sequence opus is_last = do
  w ← write_byte (packet_code voice_up) (new_writer 504)
  w ← write_uint16 sequence w
  w ← write_byte (if is_last then last_frame_flag else 0) w
  write_bytes opus w

unfoldable pub radio_tx_packet : Bool → Text → ℕ → Text → Option PacketWriter
unfolding packet_code
radio_tx_packet active freq range sub = do
  w ← write_byte (packet_code radio_tx_update) (new_writer 38)
  w ← write_byte (if active then 1 else 0) w
  w ← write_string8 (truncate_utf8 freq max_freq_length) w
  w ← write_uint16 range w
  write_string8 (truncate_utf8 sub max_subtype_length) w

unfoldable pub ping_packet : ℕ → Option PacketWriter
unfolding packet_code
ping_packet now_ms = do
  w ← write_byte (packet_code ping) (new_writer 5)
  write_uint32 (now_ms % 2 ^ 32) w

pub record ServerConfig : Type 0 where
  pub host : Text
  pub port : ℕ
  pub password : Text

pub record Identity : Type 0 where
  pub uid : Text
  pub name : Text

pub record Client : Type 0 where
  pub config : ServerConfig
  pub identity : Identity
  pub active_config : ServerConfig
  pub active_uid : Text
  pub connected : Bool
  pub session_id : ℕ
  pub debug_force_audible : Bool
  pub server_version : Text
  -- `m_socket != nullptr`
  pub has_socket : Bool
  pub voice_sequence : ℕ
  pub last_ping_time : ℕ
  pub last_recv_time : ℕ

-- `send` of what the writer holds.
abbrev sends : Option PacketWriter → List Event
sends none = []
sends (some w) = sent w.written ∷ []

unfoldable pub send_raw : Option PacketWriter → Client → List Event
send_raw packet c = if not c.has_socket || not c.connected then [] else sends packet

unfoldable pub send_voice_frame : Text → Bool → Client → List Event × Client
unfolding voice_up_packet
send_voice_frame opus is_last c =
    let frames = sends (voice_up_packet c.voice_sequence opus is_last) in
    let c' = record c { voice_sequence = (c.voice_sequence + 1) % 2 ^ 16 } in
    if is_empty opus || ltb max_opus_frame_length (length opus)
    then ([], c)
    else if not c.connected
    then ([], c)
    else if not c.has_socket
    then ([], c')
    else (frames, c')

unfoldable pub send_radio_tx : Bool → Text → ℕ → Text → Client → List Event
unfolding radio_tx_packet send_raw
send_radio_tx active freq range sub c = send_raw (radio_tx_packet active freq range sub) c
