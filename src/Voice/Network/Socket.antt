-- ===== src/Voice/Network/Socket.antt =====
-- The socket of the connection, and the hash of the password
-- (addon/extensions/task_force_radio_pipe/src/Voice/VoiceNetworkClient.cpp: sha256, closeSocket,
-- resolveAndOpenSocket, tryHandshake, threadMain). What the system answers is an argument; the
-- messages and the state of the client are those of Handshake and Thread.
use task_force_radio_standal.Resource.{◌>>=◌, ◌>>◌}
use task_force_radio_standal.Base.{
  ltb, ◌==◌, if◌then◌else◌, Text, is_empty, ℕ, zero, suc, ◌-◌, Bool, true, false, ◌&&◌, ◌||◌,
  Option, none, some, List, [], ◌∷◌, map,
}
use task_force_radio_standal.Resource.{
  hash_provider, hash_object, address_list, udp_socket, Call, uses, frees, Run, return, say,
  acquire, given, check, break_if, attempt, of_option,
}
use task_force_radio_standal.Voice.Network.{Accept, Identity, Client}
use task_force_radio_standal.Voice.Network.Thread.{
  server_timeout, config_changed, set_connected, pump_receive, ping_server, establish,
  reconnect_if_changed, thread_round,
}
use task_force_radio_standal.Voice.Network.Handshake.{
  Attempt, no_socket, send_failed, answered, Reply, accepted, rejected, no_reply, await_reply,
  handshake_retries, try_handshake,
}

-- The answers of the hash functions; the hash is `none` where its data or its end fails.
pub record HashAnswers : Type 0 where
  pub provider : Bool
  pub created : Bool
  pub digest : Option Text

unfoldable pub digest_of : HashAnswers → Run Text
digest_of a = do
  acquire (given a.created) hash_object []
  say (uses hash_object ∷ frees hash_object ∷ [])
  of_option a.digest

-- The early return is `false`.
unfoldable pub sha256 : HashAnswers → Run Text
unfolding digest_of
sha256 a = do
  acquire (given a.provider) hash_provider []
  say (uses hash_provider ∷ [])
  digest ← attempt (digest_of a)
  say (frees hash_provider ∷ [])
  of_option digest

unfoldable pub close_socket : Bool → List Call
close_socket true = frees udp_socket ∷ []
close_socket false = []

-- The answers of getaddrinfo, socket and connect.
pub record SocketAnswers : Type 0 where
  pub resolved : Bool
  pub created : Bool
  pub linked : Bool

-- The socket there is is closed first; the early return is `false`, and leaves none.
unfoldable pub resolve_and_open_socket : SocketAnswers → Bool → Run (Unit {0})
unfolding close_socket
resolve_and_open_socket a has_socket = do
  say (close_socket has_socket)
  acquire (given a.resolved) address_list []
  say (uses address_list ∷ [])
  acquire (given a.created) udp_socket (frees address_list ∷ [])
  say (uses udp_socket ∷ uses address_list ∷ frees address_list ∷ [])
  check a.linked (frees udp_socket ∷ [])
  say (uses udp_socket ∷ uses udp_socket ∷ [])

-- An attempt of the handshake: the socket, whether the request is sent, and the datagrams that come.
pub record Try : Type 0 where
  pub answers : SocketAnswers
  pub is_sent : Bool
  pub datagrams : List Text

-- What Handshake sees of it.
abbrev pub is_open : SocketAnswers → Bool
is_open a = a.resolved && (a.created && a.linked)

abbrev pub attempt_of : Try → Attempt
attempt_of t =
    if is_open t.answers then if t.is_sent then answered t.datagrams else send_failed else no_socket

abbrev pub is_reply : Reply → Bool
is_reply (accepted a) = true
is_reply (rejected reason) = true
is_reply no_reply = false

abbrev pub has_opened : Option (Unit {0}) → Bool
has_opened none = false
has_opened (some u) = true

-- The wait for a reply in an attempt whose socket is open, or the next attempt.
unfoldable pub await_on : Bool → Try → (Bool → Run Bool) → Run Bool
unfolding await_reply
await_on false t next = next false
await_on true t next = do
  say (uses udp_socket ∷ (if t.is_sent then uses udp_socket ∷ [] else []))
  break_if (t.is_sent && is_reply (await_reply t.datagrams)) true (next true)

-- The loop over the attempts; whether there is a socket behind it.
unfoldable pub try_sockets : ℕ → List Try → Bool → Run Bool
unfolding resolve_and_open_socket await_on
try_sockets zero tries has_socket = return has_socket
try_sockets (suc left) [] has_socket = return has_socket
try_sockets (suc left) (t ∷ tries) has_socket = do
  opened ← attempt (resolve_and_open_socket t.answers has_socket)
  await_on (has_opened opened) t (try_sockets left tries)

-- Without a hash no socket is touched.
unfoldable pub handshake_sockets : Option Text → List Try → Bool → Run Bool
unfolding try_sockets
handshake_sockets none tries has_socket = return has_socket
handshake_sockets (some digest) tries has_socket = try_sockets handshake_retries tries has_socket

-- What `tryHandshake` comes to; the writer does not throw for a hash of 32 bytes.
unfoldable pub handshake_reply : Option Text → Identity → List Try → Option Accept
unfolding try_handshake
handshake_reply digest identity tries =
    elim (try_handshake digest identity (map attempt_of tries)) [
      | none ↦ none
      | some (packets, reply) ↦ reply
    ]

-- The part of a round on a connection; what it receives and sends is one use of the socket.
unfoldable pub serve_sockets : ℕ → List Text → Client → Run (Unit {0})
unfolding pump_receive ping_server close_socket
serve_sockets now queue c =
    let c' = (ping_server now (pump_receive now queue c).2).1 in
    do
      say (uses udp_socket ∷ [])
      say (if ltb server_timeout (now - c'.last_recv_time) then close_socket c'.has_socket else [])

unfoldable pub connect_sockets : Option Accept → Bool → ℕ → List Text → Client → Run (Unit {0})
unfolding serve_sockets establish set_connected
connect_sockets none has_socket now queue c = say (close_socket has_socket)
connect_sockets (some a) has_socket now queue c =
    serve_sockets now queue (set_connected true (establish a now c)).1

-- A turn of the thread: its hash and the attempts of its handshake, its clock, the datagrams that
-- wait, and what the other threads did to the settings before.
pub record NetworkTurn : Type 0 where
  pub hash : HashAnswers
  pub tries : List Try
  pub now : ℕ
  pub queue : List Text
  pub meanwhile : Client → Client

-- The acceptance of a turn, and the client behind it.
abbrev pub turn_reply : NetworkTurn → Client → Option Accept
turn_reply t c = handshake_reply (sha256 t.hash).1 c.identity t.tries

unfoldable pub turn_client : NetworkTurn → Client → Client
unfolding thread_round handshake_reply sha256
turn_client t c = (thread_round (turn_reply t c) t.now t.queue c).2

unfoldable pub connect_turn : NetworkTurn → Client → Run (Unit {0})
unfolding connect_sockets handshake_sockets handshake_reply sha256
connect_turn t c = do
  digest ← attempt (sha256 t.hash)
  has_socket ← handshake_sockets digest t.tries c.has_socket
  connect_sockets (handshake_reply digest c.identity t.tries) has_socket t.now t.queue c

unfoldable pub turn_sockets : NetworkTurn → Client → Run (Unit {0})
unfolding reconnect_if_changed serve_sockets connect_turn
turn_sockets t c =
    let c' = (reconnect_if_changed c).1 in
    let closed = if c.connected && config_changed c then close_socket c.has_socket else [] in
    if is_empty c.config.host || c.config.port == 0
    then return tt
    else say closed >> (if c'.connected then serve_sockets t.now t.queue c' else connect_turn t c')

-- The thread, until it is asked to stop, which it is between two turns.
unfoldable pub thread_sockets : List NetworkTurn → Client → Run (Unit {0})
unfolding turn_sockets turn_client close_socket
thread_sockets [] c = say (close_socket c.has_socket)
thread_sockets (t ∷ turns) c =
    let c' = t.meanwhile c in turn_sockets t c' >> thread_sockets turns (turn_client t c')
