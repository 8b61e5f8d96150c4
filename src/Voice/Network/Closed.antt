-- ===== src/Voice/Network/Closed.antt =====
-- The socket in the parts of a turn of the network thread
-- (addon/extensions/task_force_radio_pipe/src/Voice/VoiceNetworkClient.cpp: threadMain).
use task_force_radio_standal.Base.{
  ltb, leb, ◌==◌, if◌then◌else◌, Bool-cases, Option-cases, if_keeps, Text, is_empty, ℕ, ◌-◌, ◌≡◌,
  refl, sym, ap, ◌∙◌, inl, inr, Bool, true, false, ◌&&◌, ◌||◌, Option, none, some, List, [], ◌∷◌,
  map,
}
use task_force_radio_standal.Resource.{Resource, udp_socket, uses, follow, attempt}
use task_force_radio_standal.Resource.Ownership.{Runs, >>-Runs, say-Runs, value-Runs, Runs-IsClean}
use task_force_radio_standal.Voice.Network.{Event, Accept, connect_request_packet, Identity, Client}
use task_force_radio_standal.Voice.Network.Thread.{
  ping_interval, server_timeout, config_changed, set_connected, pump_loop, pump_receive,
  ping_server, close_connection, watch_server, serve, establish, connect_and_serve,
  reconnect_if_changed, thread_round,
}
use task_force_radio_standal.Voice.Network.Connection.{pump_loop-client}
use task_force_radio_standal.Voice.Network.Handshake.{
  Reply, accepted, rejected, no_reply, handshake_retries, try_attempts, acceptance, try_handshake,
}
use task_force_radio_standal.Voice.Network.Socket.{
  sha256, close_socket, Try, attempt_of, is_reply, handshake_sockets, handshake_reply,
  serve_sockets, connect_sockets, NetworkTurn, turn_reply, turn_client, connect_turn,
}
use task_force_radio_standal.Voice.Network.Owned.{
  sockets, close_socket-follow, sha256-Runs, Tracks, return-Tracks,
}
use task_force_radio_standal.Voice.Network.Tracked.{try_sockets-Tracks, try_sockets-replied}
use mathlib.Core.Path.{subst}

handshake_sockets-Tracks :
    (digest : Option Text) (tries : List Try) (has_socket : Bool) (held : List Resource)
    → Tracks (handshake_sockets digest tries has_socket) has_socket held
unfolding handshake_sockets
handshake_sockets-Tracks none tries has_socket held = return-Tracks has_socket held
handshake_sockets-Tracks (some digest) tries has_socket held =
    try_sockets-Tracks handshake_retries tries has_socket held

acceptance-reply : (r : Reply) (a : Accept) → acceptance r ≡ some a → is_reply r ≡ true
acceptance-reply (accepted b) a h = refl
acceptance-reply (rejected reason) a h = cc
acceptance-reply no_reply a h = cc

-- An accepted handshake leaves a socket.
handshake_sockets-accepted :
    (digest : Option Text) (identity : Identity) (tries : List Try) (has_socket : Bool) (a : Accept)
    → handshake_reply digest identity tries ≡ some a
    → (handshake_sockets digest tries has_socket).1 ≡ some true
unfolding handshake_reply handshake_sockets try_handshake
handshake_sockets-accepted none identity tries has_socket a h = cc
handshake_sockets-accepted (some digest) identity tries has_socket a h =
    elim (Option-cases (connect_request_packet digest identity.uid identity.name)) [
      | inl thrown ↦ absurd (cc (rw (thrown, handshake_reply, try_handshake) at h))
      | inr (w, written) ↦ try_sockets-replied handshake_retries tries w.written has_socket (
          acceptance-reply (try_attempts handshake_retries w.written (map attempt_of tries)).1 a
            (rw (written, handshake_reply, try_handshake) at h))
    ]

ping_server-socket : (now : ℕ) (c : Client) → (ping_server now c).1.has_socket ≡ c.has_socket
unfolding ping_server
ping_server-socket now c =
    if_keeps {A = List Event × Client} (λ r. r.1.has_socket ≡ c.has_socket)
      (leb ping_interval (now - c.last_ping_time)) (λ _. refl) (λ _. refl)

watched-follow :
    (now : ℕ) (c : Client) (held : List Resource)
    → c.has_socket ≡ true
    → follow
        (if ltb server_timeout (now - c.last_recv_time) then close_socket c.has_socket else [])
        (sockets true held)
      ≡ some (sockets (watch_server now c).1.has_socket held)
unfolding follow
watched-follow now c held h = elim (Bool-cases (ltb server_timeout (now - c.last_recv_time))) [
  | inl silent ↦
      rw (silent, h)
        (unfold close_socket watch_server close_connection set_connected in (rw silent refl))
  | inr heard ↦ rw heard (unfold watch_server in (rw (heard, h) refl))
]

used-follow :
    (held : List Resource)
    → follow (uses udp_socket ∷ []) (sockets true held) ≡ some (sockets true held)
unfolding follow
used-follow held = refl

pub serve_sockets-Runs :
    (now : ℕ) (queue : List Text) (c : Client) (left held : List Resource)
    → c.has_socket ≡ true
    → Runs left
        (sockets true held)
        (serve_sockets now queue c)
        (sockets (serve now queue c).2.has_socket held)
unfolding serve_sockets serve pump_receive
serve_sockets-Runs now queue c left held h =
    let (t, same) = pump_loop-client 256 now queue c in
    let c' = (ping_server now (pump_loop 256 now queue c).2).1 in
    let kept : c'.has_socket ≡ true =
      ping_server-socket now (pump_loop 256 now queue c).2 ∙ ap (λ c. c.has_socket) same ∙ h in
    >>-Runs (say-Runs _ (used-follow held)) (say-Runs _ (watched-follow now c' held kept))

connect_sockets-Runs :
    (r : Option Accept) (has_socket : Bool) (now : ℕ) (queue : List Text) (c : Client)
    (left held : List Resource)
    → ((a : Accept) → r ≡ some a → has_socket ≡ true)
    → Runs left
        (sockets has_socket held)
        (connect_sockets r has_socket now queue c)
        (sockets (connect_and_serve r now queue c).2.has_socket held)
unfolding connect_sockets connect_and_serve
connect_sockets-Runs none has_socket now queue c left held h =
    say-Runs _ (close_socket-follow has_socket held)
connect_sockets-Runs (some a) has_socket now queue c left held h =
    let c' = (set_connected true (establish a now c)).1 in
    let there : c'.has_socket ≡ true = unfold set_connected establish in refl in
    rw (h a refl) (serve_sockets-Runs now queue c' left held there)

pub connect_turn-Runs :
    (t : NetworkTurn) (c : Client) (left held : List Resource)
    → c.has_socket ≡ false
    → Runs left held
        (connect_turn t c)
        (sockets (connect_and_serve (turn_reply t c) t.now t.queue c).2.has_socket held)
unfolding connect_turn
connect_turn-Runs t c left held none_yet =
    let digest = (sha256 t.hash).1 in
    let tracked = handshake_sockets-Tracks digest t.tries c.has_socket held in
    let accepted_on : (a : Accept) → turn_reply t c ≡ some a → tracked.has_socket' ≡ true =
      λ a accepted.
        let kept = handshake_sockets-accepted digest c.identity t.tries c.has_socket a accepted in
        cc (sym tracked.value ∙ kept) in
    value-Runs (attempt (sha256 t.hash)) digest _ {held' = held} (unfold attempt in refl)
      (unfold attempt in (Runs-IsClean (sha256-Runs t.hash held)))
      (value-Runs (handshake_sockets digest t.tries c.has_socket) tracked.has_socket' _
        tracked.value
        (subst
          (λ b.
            follow (handshake_sockets digest t.tries c.has_socket).0 (sockets b held)
            ≡ some (sockets tracked.has_socket' held))
          none_yet tracked.calls)
        (connect_sockets-Runs (turn_reply t c) tracked.has_socket' t.now t.queue c left held
          accepted_on))

pub closed-follow :
    (c : Client) (held : List Resource)
    → follow
        (if c.connected && config_changed c then close_socket c.has_socket else [])
        (sockets c.has_socket held)
      ≡ some (sockets (reconnect_if_changed c).1.has_socket held)
unfolding follow reconnect_if_changed
closed-follow c held = elim (Bool-cases (c.connected && config_changed c)) [
  | inl changed ↦
      rw changed (unfold close_connection set_connected in (close_socket-follow c.has_socket held))
  | inr same ↦ rw same refl
]

pub reconnect_if_changed-identity : (c : Client) → (reconnect_if_changed c).1.identity ≡ c.identity
unfolding reconnect_if_changed close_connection set_connected
reconnect_if_changed-identity c =
    if_keeps {A = List Event × Client} (λ r. r.1.identity ≡ c.identity)
      (c.connected && config_changed c) (λ _. refl) (λ _. refl)

-- The client behind a turn: without a server to talk to, on a connection, and without one.
pub turn_client-waits :
    (t : NetworkTurn) (c : Client)
    → (is_empty c.config.host || c.config.port == 0) ≡ true
    → turn_client t c ≡ c
unfolding turn_client thread_round
turn_client-waits t c nowhere =
    if_keeps {A = List Event × List Text × Client} (λ r. r.2 ≡ c)
      (is_empty c.config.host || c.config.port == 0) (λ _. refl) (λ bad. absurd (cc (nowhere, bad)))

pub turn_client-serves :
    (t : NetworkTurn) (c : Client)
    → (is_empty c.config.host || c.config.port == 0) ≡ false
    → let c1 = (reconnect_if_changed c).1 in
      turn_client t c ≡ (
        if c1.connected
        then (serve t.now t.queue c1).2
        else (connect_and_serve (turn_reply t c) t.now t.queue c1).2)
unfolding turn_client thread_round
turn_client-serves t c configured =
    let c1 = (reconnect_if_changed c).1 in
    if_keeps {A = List Event × List Text × Client}
      (λ r. r.2 ≡ (
        if c1.connected
        then (serve t.now t.queue c1).2
        else (connect_and_serve (turn_reply t c) t.now t.queue c1).2))
      (is_empty c.config.host || c.config.port == 0) (λ bad. absurd (cc (configured, bad)))
      (λ _.
        if_keeps {A = List Event × List Text × Client}
          (λ r. r.2 ≡ (
            if c1.connected
            then (serve t.now t.queue c1).2
            else (connect_and_serve (turn_reply t c) t.now t.queue c1).2))
          c1.connected (λ up. rw up refl) (λ down. rw down refl))
