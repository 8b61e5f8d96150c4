-- ===== src/Voice/Network/Sockets.antt =====
-- The network thread closes what it opens
-- (addon/extensions/task_force_radio_pipe/src/Voice/VoiceNetworkClient.cpp: threadMain).
use mathlib.Core.Path.{subst}
use task_force_radio_standal.Base.{
  ◌==◌, if◌then◌else◌, Bool-cases, if_keeps, All, is_empty, ◌≡◌, refl, ap, inl, inr, true, false,
  ◌||◌, List, [], ◌∷◌, arith,
}
use task_force_radio_standal.Resource.{Resource, Run}
use task_force_radio_standal.Resource.Ownership.{
  Runs, >>-Runs, say-Runs, return-Runs, IsClean, Runs-IsClean,
}
use task_force_radio_standal.Voice.Network.{Client}
use task_force_radio_standal.Voice.Network.Thread.{
  new_client, connect_and_serve, reconnect_if_changed,
}
use task_force_radio_standal.Voice.Network.Connection.{
  IsClientOk, reconnect_if_changed-Ok, thread_round-Ok,
}
use task_force_radio_standal.Voice.Network.Socket.{
  sha256, handshake_reply, serve_sockets, NetworkTurn, turn_reply, turn_client, connect_turn,
  turn_sockets, thread_sockets,
}
use task_force_radio_standal.Voice.Network.Owned.{sockets, close_socket-follow}
use task_force_radio_standal.Voice.Network.Closed.{
  serve_sockets-Runs, connect_turn-Runs, closed-follow, reconnect_if_changed-identity,
  turn_client-waits, turn_client-serves,
}

-- On a connection there is a socket, and else there is none.
socket_up : (c : Client) → IsClientOk c → c.connected ≡ true → c.has_socket ≡ true
socket_up c ok up = let l = rw up at ok.0 in l.0

socket_down : (c : Client) → IsClientOk c → c.connected ≡ false → c.has_socket ≡ false
socket_down c ok down = let l = rw down at ok.0 in l.0

served-Runs :
    (t : NetworkTurn) (c : Client) (left held : List Resource)
    → IsClientOk c
    → (is_empty c.config.host || c.config.port == 0) ≡ false
    → let c1 = (reconnect_if_changed c).1 in
      Runs left
        (sockets c1.has_socket held)
        (if c1.connected then serve_sockets t.now t.queue c1 else connect_turn t c1)
        (sockets (turn_client t c).has_socket held)
served-Runs t c left held ok configured =
    let c1 = (reconnect_if_changed c).1 in
    let ok1 = reconnect_if_changed-Ok c ok in
    let told = turn_client-serves t c configured in
    let same : turn_reply t c1 ≡ turn_reply t c =
      ap (λ i. handshake_reply (sha256 t.hash).1 i t.tries) (reconnect_if_changed-identity c) in
    elim (Bool-cases c1.connected) [
      | inl up ↦
          rw (told, up, socket_up c1 ok1 up)
            (serve_sockets-Runs t.now t.queue c1 left held (socket_up c1 ok1 up))
      | inr down ↦
          rw (told, down, socket_down c1 ok1 down)
            (subst
              (λ r.
                Runs left held (connect_turn t c1)
                  (sockets (connect_and_serve r t.now t.queue c1).2.has_socket held))
              same (connect_turn-Runs t c1 left held (socket_down c1 ok1 down)))
    ]

turn_sockets-Runs :
    (t : NetworkTurn) (c : Client) (left held : List Resource)
    → IsClientOk c
    → Runs left
        (sockets c.has_socket held)
        (turn_sockets t c)
        (sockets (turn_client t c).has_socket held)
unfolding turn_sockets
turn_sockets-Runs t c left held ok =
    if_keeps
      (λ (m : Run (Unit {0})).
        Runs left (sockets c.has_socket held) m (sockets (turn_client t c).has_socket held))
      (is_empty c.config.host || c.config.port == 0)
      (λ nowhere. rw (turn_client-waits t c nowhere) (return-Runs tt))
      (λ configured.
        >>-Runs (say-Runs _ (closed-follow c held)) (served-Runs t c left held ok configured))

turn_client-Ok : (t : NetworkTurn) (c : Client) → IsClientOk c → IsClientOk (turn_client t c)
unfolding turn_client
turn_client-Ok t c ok = thread_round-Ok (turn_reply t c) t.now t.queue c ok

-- What the other threads do keeps the connection and its socket.
abbrev pub KeepsLink : NetworkTurn → Type 0
KeepsLink t =
    (c : Client)
    → IsClientOk c
    → IsClientOk (t.meanwhile c) × ((t.meanwhile c).has_socket ≡ c.has_socket)

thread_sockets-Runs :
    (turns : List NetworkTurn) (c : Client) (left held : List Resource)
    → All KeepsLink turns
    → IsClientOk c
    → Runs left (sockets c.has_socket held) (thread_sockets turns c) held
unfolding thread_sockets
thread_sockets-Runs [] c left held keeps ok = say-Runs _ (close_socket-follow c.has_socket held)
thread_sockets-Runs (t ∷ turns) c left held keeps ok =
    let c' = t.meanwhile c in
    let (ok', same) = keeps.0 c ok in
    subst (λ b. Runs left (sockets b held) (thread_sockets (t ∷ turns) c) held) same
      (>>-Runs (turn_sockets-Runs t c' left held ok')
        (thread_sockets-Runs turns (turn_client t c') left held keeps.1 (turn_client-Ok t c' ok')))

-- The network thread closes every socket that it opens, whatever the system answers: in an attempt
-- of the handshake that fails or is not answered, where it is rejected, where the settings change or
-- the server is silent, and where the thread is asked to stop. No socket is used or closed before it
-- is opened or after it is closed, and address lists and hashes are given back. What the other
-- threads do to the client between two turns keeps its connection and its socket.
pub network_thread-IsClean :
    (turns : List NetworkTurn) (held : List Resource)
    → All KeepsLink turns
    → IsClean held (thread_sockets turns new_client)
network_thread-IsClean turns held keeps =
    Runs-IsClean
      (thread_sockets-Runs turns new_client held held keeps ((refl, refl, refl), omega arith))
