-- ===== src/Voice/Network/Outage.antt =====
-- What makes the client connect anew
-- (addon/extensions/task_force_radio_pipe/src/Voice/VoiceNetworkClient.cpp: configChangedLocked,
-- threadMain).
use task_force_radio_standal.Base.{
  ltb, leb, ◌==◌, ==_iff, Text, is_empty, text_eq_refl, text_eq_iff, ℕ, zero, suc, ◌+◌, ◌-◌, ◌<◌,
  ◌≡◌, refl, ap, ◌∙◌, ◌↔◌, ◌⊎◌, true, false, Option, some, List, [], ◌∷◌, ◌++◌, arith,
}
use task_force_radio_standal.Voice.Network.{connection_changed, Accept, Client}
use task_force_radio_standal.Voice.Network.Thread.{
  ping_interval, server_timeout, config_changed, set_connected, pump_loop, pump_receive,
  ping_server, close_connection, watch_server, serve, establish, connect_and_serve,
  reconnect_if_changed, thread_round,
}

-- The connection is kept exactly as long as the server's host, port and password are those it was
-- made with and our uid is either unknown or the one it was made under; the display name does not
-- count.
config_changed_iff :
    (c : Client)
    → (config_changed c ≡ false) ↔ (
        (c.config.host ≡ c.active_config.host)
        × (c.config.port ≡ c.active_config.port)
        × (c.config.password ≡ c.active_config.password)
        × ((c.identity.uid ≡ []) ⊎ (c.identity.uid ≡ c.active_uid)))
unfolding config_changed
config_changed_iff c = ground (
  arith,
  text_eq_iff c.config.host c.active_config.host,
  ==_iff c.config.port c.active_config.port,
  text_eq_iff c.config.password c.active_config.password,
  text_eq_iff c.identity.uid c.active_uid,
)

-- A relay that has been silent for more than fifteen seconds is given up, in the round that finds no
-- datagram waiting: the connection is closed, its end is called back, after what the round still sends, and its session is forgotten.
pub silent_server_is_left :
    (reply : Option Accept) (now : ℕ) (c : Client)
    → c.connected ≡ true
    → config_changed c ≡ false
    → is_empty c.config.host ≡ false
    → (c.config.port == 0) ≡ false
    → c.last_recv_time + 15000000000 < now
    → ((thread_round reply now [] c).2.connected ≡ false)
      × ((thread_round reply now [] c).2.session_id ≡ 0)
      × ((thread_round reply now [] c).2.has_socket ≡ false)
      × ((thread_round reply now [] c).0 ≡ (ping_server now c).0 ++ connection_changed false ∷ [])
unfolding thread_round reconnect_if_changed serve pump_receive pump_loop ping_server watch_server
    close_connection set_connected
silent_server_is_left reply now c up same host port silent =
    (ground arith, ground arith, ground arith, ground arith)

-- Receiving on a connection that was heard at this very time changes nothing of it.
pump_loop-fresh :
    (n now : ℕ) (queue : List Text) (c : Client)
    → (pump_loop n now queue (record c { last_recv_time = now })).2
      ≡ record c { last_recv_time = now }
unfolding pump_loop
pump_loop-fresh zero now queue c = refl
pump_loop-fresh (suc n) now [] c = refl
pump_loop-fresh (suc n) now ([] ∷ queue) c = refl
pump_loop-fresh (suc n) now ((b ∷ bs) ∷ queue) c = pump_loop-fresh n now queue c

-- It is neither pinged nor given up.
serve-fresh :
    (now : ℕ) (queue : List Text) (c : Client)
    → let fresh : Client = record c { last_ping_time = now; last_recv_time = now } in
      (serve now queue fresh).2 ≡ fresh
unfolding serve pump_receive ping_server watch_server
serve-fresh now queue c =
    let same = pump_loop-fresh 256 now queue (record c { last_ping_time = now }) in
    let not_due : leb ping_interval (now - now) ≡ false = ground arith in
    let not_silent : ltb server_timeout (now - now) ≡ false = ground arith in
    rw same (rw (not_due, not_silent) refl)

-- What a round leaves that connects: the client of an accepted handshake, heard and pinged now.
linked : Accept → ℕ → Client → Client
unfolding establish set_connected
linked a now c = (set_connected true (establish a now c)).1

round_connects :
    (a : Accept) (now : ℕ) (queue : List Text) (c : Client)
    → c.connected ≡ false
    → is_empty c.config.host ≡ false
    → (c.config.port == 0) ≡ false
    → (thread_round (some a) now queue c).2 ≡ (serve now queue (linked a now c)).2
unfolding thread_round reconnect_if_changed connect_and_serve linked
round_connects a now queue c down host port = ground arith

-- An accepted handshake connects, and the connection lasts: a round that finds a configured client
-- without a connection and is accepted leaves it connected under the session it was given, counting
-- its frames from 0, with nothing that makes the next round connect anew, whatever datagrams wait
-- behind the acceptance.
pub accepted_connects :
    (a : Accept) (now : ℕ) (queue : List Text) (c : Client)
    → c.connected ≡ false
    → is_empty c.config.host ≡ false
    → (c.config.port == 0) ≡ false
    → ((thread_round (some a) now queue c).2.connected ≡ true)
      × ((thread_round (some a) now queue c).2.session_id ≡ a.session_id)
      × ((thread_round (some a) now queue c).2.voice_sequence ≡ 0)
      × (config_changed (thread_round (some a) now queue c).2 ≡ false)
unfolding linked establish set_connected config_changed
accepted_connects a now queue c down host port =
    let same : (thread_round (some a) now queue c).2 ≡ linked a now c =
      round_connects a now queue c down host port ∙ serve-fresh now queue (linked a now c) in
    (
      ap (λ (c' : Client). c'.connected) same,
      ap (λ (c' : Client). c'.session_id) same,
      ap (λ (c' : Client). c'.voice_sequence) same,
      ap config_changed same
          ∙ ground (
            arith,
            text_eq_refl c.config.host,
            text_eq_refl c.config.password,
            text_eq_refl c.identity.uid,
            ==_iff c.config.port c.config.port,
          ),
    )
