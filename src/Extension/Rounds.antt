-- ===== src/Extension/Rounds.antt =====
-- What a round of the network thread does to the session
-- (addon/extensions/task_force_radio_pipe/src/Voice/VoiceNetworkClient.cpp: threadMain).
use task_force_radio_standal.Base.{nat_eq}
use task_force_radio_standal.Base.{
  ltb, leb, ◌==◌, if◌then◌else◌, if_keeps, All, Text, is_empty, ℕ, ◌-◌, ◌≡◌, refl, sym, ap, ◌∙◌,
  Bool, true, ◌&&◌, ◌||◌, Option, none, some, List, ◌++◌,
}
use task_force_radio_standal.Float.{Float}
use task_force_radio_standal.Voice.Mixer.{remove_all_sources}
use task_force_radio_standal.Voice.Mixer.Kept.{AreFramed}
use task_force_radio_standal.Voice.Session.{Session, on_connection_state_changed}
use task_force_radio_standal.Voice.Network.{Event, Accept, Client}
use task_force_radio_standal.Voice.Network.Thread.{
  max_packets_per_pump, ping_interval, server_timeout, config_changed, set_connected, pump_receive,
  ping_server, close_connection, watch_server, serve, establish, connect_and_serve,
  reconnect_if_changed, thread_round,
}
use task_force_radio_standal.Voice.Network.Connection.{pump_loop-client}
use task_force_radio_standal.Extension.Threads.{is_forced, on_event, deliver}
use task_force_radio_standal.Extension.Linked.{
  IsPlain, pump_loop-ArePlain, ping_server-ArePlain, IsLinked,
}
use task_force_radio_standal.Extension.Delivered.{
  Linked, deliver-IsLinked, deliver-append, IsLinked-framed,
}
use mathlib.Core.Path.{subst}

module _ (fl : Float) where
  ping_server-client :
      (now : ℕ) (c : Client)
      → ((ping_server now c).1.connected ≡ c.connected)
        × ((ping_server now c).1.debug_force_audible ≡ c.debug_force_audible)
  unfolding ping_server
  ping_server-client now c =
      if_keeps {A = List Event × Client}
        (λ r. (r.1.connected ≡ c.connected) × (r.1.debug_force_audible ≡ c.debug_force_audible))
        (leb ping_interval (now - c.last_ping_time)) (λ _. (refl, refl)) (λ _. (refl, refl))

  -- What a part of a round leaves, behind its callbacks.
  Leaves : Bool → ℕ → Session fl → List Event × Client → Type 0
  Leaves f now s r = Linked fl r.1 (deliver fl f now r.0 s)

  close_connection-Leaves :
      (f : Bool) (now : ℕ) (c : Client) (s : Session fl) → Leaves f now s (close_connection c)
  unfolding Leaves deliver on_event on_connection_state_changed close_connection set_connected
      remove_all_sources
  close_connection-Leaves f now c s = (refl, refl, refl, refl, refl)

  watch_server-Leaves :
      (f : Bool) (now : ℕ) (c : Client) (s : Session fl)
      → Linked fl c s
      → Leaves f now s (watch_server now c)
  unfolding watch_server
  watch_server-Leaves f now c s h =
      if_keeps (Leaves f now s) (ltb server_timeout (now - c.last_recv_time))
        (λ _. close_connection-Leaves f now c s) (λ _. unfold Leaves deliver in h)

  as_up :
      (c : Client) (s : Session fl) (forced : Bool)
      → c.connected ≡ true
      → c.debug_force_audible ≡ forced
      → IsLinked fl true forced s
      → Linked fl c s
  as_up c s forced up debug h =
      subst (λ b. IsLinked fl b c.debug_force_audible s) (sym up)
        (subst (λ b. IsLinked fl true b s) (sym debug) h)

  pump_receive-ArePlain :
      (now : ℕ) (queue : List Text) (c : Client) → All IsPlain (pump_receive now queue c).0
  unfolding pump_receive
  pump_receive-ArePlain now queue c = pump_loop-ArePlain max_packets_per_pump now queue c

  pump_receive-client :
      (now : ℕ) (queue : List Text) (c : Client)
      → ((pump_receive now queue c).2.connected ≡ c.connected)
        × ((pump_receive now queue c).2.debug_force_audible ≡ c.debug_force_audible)
  unfolding pump_receive
  pump_receive-client now queue c =
      let (t, same) = pump_loop-client max_packets_per_pump now queue c in
      (ap (λ (d : Client). d.connected) same, ap (λ (d : Client). d.debug_force_audible) same)

  -- A round on a connection, from what the pump received.
  abbrev serve_received : ℕ → List Event × List Text × Client → List Event × List Text × Client
  serve_received now (received, queue, c) =
      let (pings, c2) = ping_server now c in
      let (lost, c3) = watch_server now c2 in (received ++ pings ++ lost, queue, c3)

  serve-serve_received :
      (now : ℕ) (queue : List Text) (c : Client)
      → serve now queue c ≡ serve_received now (pump_receive now queue c)
  unfolding serve
  serve-serve_received now queue c = refl

  serve_received-Linked :
      (f forced : Bool) (now : ℕ) (received : List Event) (queue : List Text) (c : Client)
      (s : Session fl)
      → All IsPlain received
      → c.connected ≡ true
      → c.debug_force_audible ≡ forced
      → IsLinked fl true forced s
      → let r = serve_received now (received, queue, c) in Linked fl r.2 (deliver fl f now r.0 s)
  serve_received-Linked f forced now received queue c s plain up debug h =
      let (pings, c2) = ping_server now c in
      let (lost, c3) = watch_server now c2 in
      let s1 = deliver fl f now received s in
      let s2 = deliver fl f now pings s1 in
      let (up2, debug2) = ping_server-client now c in
      let h1 = deliver-IsLinked fl forced f now received s plain h in
      let h2 = deliver-IsLinked fl forced f now pings s1 (ping_server-ArePlain now c) h1 in
      let linked = as_up c2 s2 forced (up2 ∙ up) (debug2 ∙ debug) h2 in
      subst (Linked fl c3)
        (sym (
          deliver-append fl f now (received ++ pings) lost s
          ∙ ap (deliver fl f now lost) (deliver-append fl f now received pings s)))
        (unfold Leaves in watch_server-Leaves f now c2 s2 linked)

  serve-Linked :
      (f : Bool) (now : ℕ) (queue : List Text) (c : Client) (s : Session fl)
      → c.connected ≡ true
      → IsLinked fl true c.debug_force_audible s
      → Linked fl (serve now queue c).2 (deliver fl f now (serve now queue c).0 s)
  serve-Linked f now queue c s up h =
      let r = pump_receive now queue c in
      let (same_up, same_debug) = pump_receive-client now queue c in
      subst (λ (r : List Event × List Text × Client). Linked fl r.2 (deliver fl f now r.0 s))
        (sym (serve-serve_received now queue c))
        (serve_received-Linked f c.debug_force_audible now r.0 r.1 r.2 s
          (pump_receive-ArePlain now queue c) (same_up ∙ up) same_debug h)

  establish-client :
      (a : Accept) (now : ℕ) (c : Client)
      → ((set_connected true (establish a now c)).1.connected ≡ true)
        × ((set_connected true (establish a now c)).1.debug_force_audible ≡ a.debug_audible)
  unfolding establish set_connected
  establish-client a now c = (refl, refl)

  -- The first callback of a connection that comes up.
  connected-IsLinked :
      (forced : Bool) (now : ℕ) (c : Client) (s : Session fl)
      → AreFramed fl s.mixer
      → IsLinked fl true forced (deliver fl forced now (set_connected true c).0 s)
  unfolding deliver on_event on_connection_state_changed set_connected
  connected-IsLinked forced now c s h = (refl, h)

  connect_and_serve-Linked :
      (reply : Option Accept) (now : ℕ) (queue : List Text) (c : Client) (s : Session fl)
      → Linked fl c s
      → let r = connect_and_serve reply now queue c in
        Linked fl r.2 (deliver fl (is_forced reply) now r.0 s)
  unfolding connect_and_serve
  connect_and_serve-Linked none now queue c s h = unfold deliver in h
  connect_and_serve-Linked (some a) now queue c s h =
      let (up, c1) = set_connected true (establish a now c) in
      let f = a.debug_audible in
      let (connected, debug) = establish-client a now c in
      let s1 = deliver fl f now up s in
      let h1 =
        connected-IsLinked f now (establish a now c) s
          (IsLinked-framed fl c.connected c.debug_force_audible s h) in
      let served =
        serve-Linked f now queue c1 s1 connected
          (subst (λ b. IsLinked fl true b s1) (sym debug) h1) in
      subst (Linked fl (serve now queue c1).2)
        (sym (deliver-append fl f now up (serve now queue c1).0 s)) served

  reconnect_if_changed-Leaves :
      (f : Bool) (now : ℕ) (c : Client) (s : Session fl)
      → Linked fl c s
      → Leaves f now s (reconnect_if_changed c)
  unfolding reconnect_if_changed
  reconnect_if_changed-Leaves f now c s h =
      if_keeps (Leaves f now s) (c.connected && config_changed c)
        (λ _. close_connection-Leaves f now c s) (λ _. unfold Leaves deliver in h)

  -- A round of the network thread, with its callbacks, keeps the session fitting the client.
  pub thread_round-Linked :
      (reply : Option Accept) (now : ℕ) (queue : List Text) (c : Client) (s : Session fl)
      → Linked fl c s
      → let r = thread_round reply now queue c in
        Linked fl r.2 (deliver fl (is_forced reply) now r.0 s)
  unfolding thread_round
  thread_round-Linked reply now queue c s h =
      let f = is_forced reply in
      let (closed, c1) = reconnect_if_changed c in
      let s1 = deliver fl f now closed s in
      let h1 : Linked fl c1 s1 = unfold Leaves in reconnect_if_changed-Leaves f now c s h in
      let P : List Event × List Text × Client → Type 0 =
        λ r. Linked fl r.2 (deliver fl f now r.0 s) in
      let P1 : List Event × List Text × Client → Type 0 =
        λ r. Linked fl r.2 (deliver fl f now r.0 s1) in
      let later : P1
          (if c1.connected then serve now queue c1 else connect_and_serve reply now queue c1) =
        if_keeps P1 c1.connected
          (λ up.
            serve-Linked f now queue c1 s1 up
              (subst (λ b. IsLinked fl b c1.debug_force_audible s1) up h1))
          (λ _. connect_and_serve-Linked reply now queue c1 s1 h1) in
      if_keeps P (is_empty c.config.host || c.config.port == 0) (λ _. unfold deliver in h)
        (λ _.
          subst
            (Linked fl
              (if c1.connected then serve now queue c1 else connect_and_serve reply now queue c1).2)
            (sym (deliver-append fl f now closed _ s)) later)
