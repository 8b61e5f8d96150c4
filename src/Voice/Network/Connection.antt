-- ===== src/Voice/Network/Connection.antt =====
-- The connection over the rounds of the network thread and the calls of the tick
-- (addon/extensions/task_force_radio_pipe/src/Voice/VoiceNetworkClient.cpp: threadMain).
use task_force_radio_standal.Base.{
  ltb, leb, ◌==◌, if_keeps, length, Text, is_empty, ℕ, zero, suc, ◌+◌, ◌-◌, ◌%◌, ◌<◌, ◌≡◌, refl,
  Bool, true, false, not, ◌&&◌, ◌||◌, Option, none, some, List, [], ◌∷◌, arith,
}
use task_force_radio_standal.Protocol.{max_opus_frame_length}
use task_force_radio_standal.Voice.Network.{Event, Accept, ServerConfig, Client, send_voice_frame}
use task_force_radio_standal.Voice.Network.Thread.{
  ping_interval, server_timeout, config_changed, set_connected, pump_loop, pump_receive,
  ping_server, close_connection, watch_server, serve, establish, connect_and_serve,
  reconnect_if_changed, thread_round,
}

-- A connection has a socket and a server to talk to; without one, nothing of it is left.
abbrev pub LinkOk : Bool → Bool → ServerConfig → ℕ → Bool → Type 0
LinkOk true has_socket config session_id forced =
    (has_socket ≡ true) × (is_empty config.host ≡ false) × ((config.port == 0) ≡ false)
LinkOk false has_socket config session_id forced =
    (has_socket ≡ false) × (session_id ≡ 0) × (forced ≡ false)

abbrev pub IsClientOk : Client → Type 0
IsClientOk c =
    LinkOk c.connected c.has_socket c.active_config c.session_id c.debug_force_audible
    × (c.voice_sequence < 65536)

-- Receiving changes the time of the last datagram only.
pub pump_loop-client :
    (n now : ℕ) (queue : List Text) (c : Client)
    → (t : ℕ) × ((pump_loop n now queue c).2 ≡ record c { last_recv_time = t })
unfolding pump_loop
pump_loop-client zero now queue c = (c.last_recv_time, refl)
pump_loop-client (suc n) now [] c = (c.last_recv_time, refl)
pump_loop-client (suc n) now ([] ∷ queue) c = (c.last_recv_time, refl)
pump_loop-client (suc n) now ((b ∷ bs) ∷ queue) c =
    pump_loop-client n now queue (record c { last_recv_time = now })

close_connection-Ok : (c : Client) → c.voice_sequence < 65536 → IsClientOk (close_connection c).1
unfolding close_connection set_connected
close_connection-Ok c h = ((refl, refl, refl), h)

ping_server-Ok : (now : ℕ) (c : Client) → IsClientOk c → IsClientOk (ping_server now c).1
unfolding ping_server
ping_server-Ok now c h =
    if_keeps {A = List Event × Client} (λ r. IsClientOk r.1)
      (leb ping_interval (now - c.last_ping_time)) (λ _. h) (λ _. h)

watch_server-Ok : (now : ℕ) (c : Client) → IsClientOk c → IsClientOk (watch_server now c).1
unfolding watch_server
watch_server-Ok now c h =
    if_keeps {A = List Event × Client} (λ r. IsClientOk r.1)
      (ltb server_timeout (now - c.last_recv_time)) (λ _. close_connection-Ok c h.1) (λ _. h)

serve-Ok :
    (now : ℕ) (queue : List Text) (c : Client) → IsClientOk c → IsClientOk (serve now queue c).2
unfolding serve pump_receive
serve-Ok now queue c h =
    let (t, same) = pump_loop-client 256 now queue c in
    watch_server-Ok now _ (ping_server-Ok now (pump_loop 256 now queue c).2 (rw same h))

connect_and_serve-Ok :
    (reply : Option Accept) (now : ℕ) (queue : List Text) (c : Client)
    → IsClientOk c
    → c.connected ≡ false
    → is_empty c.config.host ≡ false
    → (c.config.port == 0) ≡ false
    → IsClientOk (connect_and_serve reply now queue c).2
unfolding connect_and_serve establish set_connected
connect_and_serve-Ok none now queue c h down host port =
    (rw down (let l = rw down at h.0 in (refl, l.1, l.2)), h.1)
connect_and_serve-Ok (some a) now queue c h down host port =
    serve-Ok now queue (set_connected true (establish a now c)).1 ((refl, host, port), omega arith)

pub reconnect_if_changed-Ok : (c : Client) → IsClientOk c → IsClientOk (reconnect_if_changed c).1
unfolding reconnect_if_changed
reconnect_if_changed-Ok c h =
    if_keeps {A = List Event × Client} (λ r. IsClientOk r.1) (c.connected && config_changed c)
      (λ _. close_connection-Ok c h.1) (λ _. h)

reconnect_if_changed-config : (c : Client) → (reconnect_if_changed c).1.config ≡ c.config
unfolding reconnect_if_changed close_connection set_connected
reconnect_if_changed-config c =
    if_keeps {A = List Event × Client} (λ r. r.1.config ≡ c.config)
      (c.connected && config_changed c) (λ _. refl) (λ _. refl)

both_false : (a b : Bool) → a || b ≡ false → (a ≡ false) × (b ≡ false)
both_false false b h = (refl, h)
both_false true b h = cc

pub thread_round-Ok :
    (reply : Option Accept) (now : ℕ) (queue : List Text) (c : Client)
    → IsClientOk c
    → IsClientOk (thread_round reply now queue c).2
unfolding thread_round
thread_round-Ok reply now queue c h =
    let c1 = (reconnect_if_changed c).1 in
    let h1 = reconnect_if_changed-Ok c h in
    let same = reconnect_if_changed-config c in
    if_keeps {A = List Event × List Text × Client} (λ r. IsClientOk r.2)
      (is_empty c.config.host || c.config.port == 0) (λ _. h)
      (λ configured.
        if_keeps {A = List Event × List Text × Client} (λ r. IsClientOk r.2) c1.connected
          (λ _. serve-Ok now queue c1 h1)
          (λ down.
            let (host, port) =
              both_false (is_empty c.config.host) (c.config.port == 0) configured in
            connect_and_serve-Ok reply now queue c1 h1 down (rw same host) (rw same port)))

pub send_voice_frame-Ok :
    (opus : Text) (is_last : Bool) (c : Client)
    → IsClientOk c
    → IsClientOk (send_voice_frame opus is_last c).1
unfolding send_voice_frame
send_voice_frame-Ok opus is_last c h =
    let moved : (c.voice_sequence + 1) % 65536 < 65536 = omega arith in
    if_keeps {A = List Event × Client} (λ r. IsClientOk r.1)
      (is_empty opus || ltb max_opus_frame_length (length opus)) (λ _. h)
      (λ _.
        if_keeps {A = List Event × Client} (λ r. IsClientOk r.1) (not c.connected) (λ _. h)
          (λ _.
            if_keeps {A = List Event × Client} (λ r. IsClientOk r.1) (not c.has_socket)
              (λ _. (h.0, moved)) (λ _. (h.0, moved))))
