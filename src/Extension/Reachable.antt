-- ===== src/Extension/Reachable.antt =====
-- What holds of all that the extension keeps, whatever the order in which its threads run
-- (addon/extensions/task_force_radio_pipe/src/Extension.cpp and the files below it).
use task_force_radio_standal.Extension.Threads.{
  network_round, send_all, mic_frame, WorldStep, calls, ticks, exchanges, talks, plays, IsReachable,
  boots, runs,
}
use task_force_radio_standal.Base.{
  ltb, if_keeps, length, Text, is_empty, ℕ, ◌≡◌, refl, sym, ◌∙◌, Bool, not, ◌||◌, Option, none,
  some, List, [], ◌∷◌, map, arith,
}
use task_force_radio_standal.Float.{Float}
use task_force_radio_standal.State.Data.{State}
use task_force_radio_standal.State.WellFormed.{ConstantLaws, IsWellFormed, IsWellFormed-init}
use task_force_radio_standal.State.Feeds.{
  set_remote_tx-IsWellFormed, take_transmit_override-IsWellFormed, set_voice_connected-IsWellFormed,
  set_local_transmitting-IsWellFormed,
}
use task_force_radio_standal.State.Solver.Snapshot.{compute_audible_units}
use task_force_radio_standal.State.Solver.Heard.{compute_audible_units-IsWellFormed}
use task_force_radio_standal.Command.Invariant.{process-IsWellFormed}
use task_force_radio_standal.Voice.Source.Mixdown.{Codec}
use task_force_radio_standal.Voice.Mixer.{Mixer, set_master_volume, set_muted}
use task_force_radio_standal.Voice.Mixer.Device.{fill_device}
use task_force_radio_standal.Voice.Mixer.Filled.{IsMixable, fill_device-total}
use task_force_radio_standal.Voice.Mixer.Kept.{
  Keeps, Keeps-refl, trigger_local_beep-Keeps, fill_device-Keeps,
}
use task_force_radio_standal.Voice.Session.{
  RadioTxInfo, Session, apply_audibility, current_radio_tx,
}
use task_force_radio_standal.Voice.Network.{Event, Client, send_voice_frame}
use task_force_radio_standal.Voice.Network.Thread.{set_server, set_identity}
use task_force_radio_standal.Voice.Network.Connection.{
  IsClientOk, thread_round-Ok, send_voice_frame-Ok,
}
use task_force_radio_standal.Voice.Transmit.Samples.{MicTools, on_samples_captured}
use task_force_radio_standal.Tick.{local_cue_tick, update_of}
use task_force_radio_standal.Extension.World.{World, processor_of, take_processor, game_call}
use task_force_radio_standal.Extension.Sender.{
  announcement, hear_tx, play_cue, note_connection, apply_settings, exchange_identity, relay_own,
  relay_others, cue_own, take_override, solve, sender_tick,
}
use task_force_radio_standal.Extension.Linked.{
  IsLinked, Follows-IsLinked, Follows-mixer, apply_audibility-Follows,
}
use task_force_radio_standal.Extension.Delivered.{Linked, IsLinked-framed}
use task_force_radio_standal.Extension.Rounds.{thread_round-Linked}
use task_force_radio_standal.Protocol.{max_opus_frame_length}
use mathlib.Core.Path.{subst}

module _ (fl : Float) where
  -- A change of the session that only its mixer follows.
  mixer-Linked :
      (c : Client) (s : Session fl) (m : Mixer fl)
      → Keeps fl s.mixer m
      → Linked fl c s
      → Linked fl c (record s { mixer = m })
  mixer-Linked c s m kept h =
      Follows-IsLinked fl c.connected c.debug_force_audible s (record s { mixer = m })
        (Follows-mixer fl s m kept) h

  hear_tx-IsWellFormed :
      (now : ℕ) (txs : List RadioTxInfo) (s : State fl)
      → IsWellFormed fl s
      → IsWellFormed fl (hear_tx fl now txs s)
  unfolding hear_tx
  hear_tx-IsWellFormed now [] s h = h
  hear_tx-IsWellFormed now (tx ∷ txs) s h =
      hear_tx-IsWellFormed now txs _ (set_remote_tx-IsWellFormed fl _ _ _ _ _ now s h)

  play_cue-Keeps : (o : Option (Text × Bool)) (m : Mixer fl) → Keeps fl m (play_cue fl o m)
  unfolding play_cue
  play_cue-Keeps none m = Keeps-refl fl m
  play_cue-Keeps (some (subtype, begins)) m = trigger_local_beep-Keeps fl subtype begins m

  send_voice_frame-client :
      (opus : Text) (is_last : Bool) (c : Client)
      → ((send_voice_frame opus is_last c).1.connected ≡ c.connected)
        × ((send_voice_frame opus is_last c).1.debug_force_audible ≡ c.debug_force_audible)
  unfolding send_voice_frame
  send_voice_frame-client opus is_last c =
      let P : List Event × Client → Type 0 =
        λ r. (r.1.connected ≡ c.connected) × (r.1.debug_force_audible ≡ c.debug_force_audible) in
      if_keeps P (is_empty opus || ltb max_opus_frame_length (length opus)) (λ _. (refl, refl))
        λ _.
          if_keeps P (not c.connected) (λ _. (refl, refl))
            λ _. if_keeps P (not c.has_socket) (λ _. (refl, refl)) (λ _. (refl, refl))

  send_all-Ok :
      (packets : List (Text × Bool)) (c : Client)
      → IsClientOk c
      → IsClientOk (send_all packets c)
        × ((send_all packets c).connected ≡ c.connected)
        × ((send_all packets c).debug_force_audible ≡ c.debug_force_audible)
  unfolding send_all
  send_all-Ok [] c h = (h, refl, refl)
  send_all-Ok ((opus, is_last) ∷ packets) c h =
      let c' = (send_voice_frame opus is_last c).1 in
      let (ok, up, debug) = send_all-Ok packets c' (send_voice_frame-Ok opus is_last c h) in
      let (up', debug') = send_voice_frame-client opus is_last c in (ok, up ∙ up', debug ∙ debug')

module _ (fl : Float) {R : Type 0} where
  -- The state is well formed, the client is one that its threads can reach, and the session fits it.
  pub record IsWorldOk (w : World fl R) : Type 0 where
    pub state : IsWellFormed fl w.state
    pub client : IsClientOk w.client
    pub session : Linked fl w.client w.session

  module _ (laws : ConstantLaws fl) where
    game_call-IsWorldOk :
        (opus_version line : Text) (now : ℕ) (w : World fl R)
        → IsWorldOk w
        → IsWorldOk (game_call fl opus_version line now w).1
    unfolding game_call take_processor set_muted
    game_call-IsWorldOk opus_version line now w h = record {
      state = process-IsWellFormed fl laws opus_version line now (processor_of fl w) h.state;
      client = h.client;
      session =
          mixer-Linked fl w.client w.session _
            (record { forced = refl; none_new = λ e. e; framed = λ a. a }) h.session;
    }

    configured-IsWorldOk :
        (w : World fl R)
        → IsWorldOk w
        → IsWorldOk (exchange_identity fl (apply_settings fl (note_connection fl w)))
    unfolding exchange_identity apply_settings note_connection set_server set_identity
        set_master_volume
    configured-IsWorldOk w h = record {
      state =
          set_local_transmitting-IsWellFormed fl _ _
            (set_voice_connected-IsWellFormed fl w.client.connected w.state h.state);
      client = h.client;
      session =
          mixer-Linked fl w.client w.session _
            (record { forced = refl; none_new = λ e. e; framed = λ a. a }) h.session;
    }

    solve-IsWorldOk : (now : ℕ) (w : World fl R) → IsWorldOk w → IsWorldOk (solve fl now w)
    unfolding solve
    solve-IsWorldOk now w h =
        let solved = compute_audible_units fl now w.state in
        let updates = map (update_of fl) solved.0 in
        record {
          state = compute_audible_units-IsWellFormed fl now w.state h.state;
          client = h.client;
          session =
              Follows-IsLinked fl w.client.connected w.client.debug_force_audible w.session
                (apply_audibility fl updates w.session)
                (apply_audibility-Follows fl updates w.session) h.session;
        }

    sender_tick-IsWorldOk :
        (now : ℕ) (w : World fl R) → IsWorldOk w → IsWorldOk (sender_tick fl now w).1
    unfolding sender_tick relay_own relay_others cue_own take_override
    sender_tick-IsWorldOk now w h =
        let w1 = exchange_identity fl (apply_settings fl (note_connection fl w)) in
        let tx = announcement fl w1.state in
        let h1 = configured-IsWorldOk w h in
        let heard =
          hear_tx-IsWellFormed fl now (current_radio_tx fl now w1.session) w1.state h1.state in
        let played = (local_cue_tick tx.active tx.subtype w1.cue).0 in
        solve-IsWorldOk now
          (take_override fl (cue_own fl tx (relay_others fl now (relay_own fl now tx w1).1)))
          (record {
            state = take_transmit_override-IsWellFormed fl _ heard;
            client = h1.client;
            session =
                mixer-Linked fl w1.client w1.session (play_cue fl played w1.session.mixer)
                  (play_cue-Keeps fl played w1.session.mixer) h1.session;
          })

    mic_frame-IsWorldOk :
        (tools : MicTools fl R) (raw : List fl.F) (now : ℕ) (w : World fl R)
        → IsWorldOk w
        → IsWorldOk (mic_frame fl tools raw now w)
    unfolding mic_frame
    mic_frame-IsWorldOk tools raw now w h =
        let packets = (on_samples_captured fl tools raw now (w.transmit, w.denoiser)).0 in
        let (ok, up, debug) = send_all-Ok fl packets w.client h.client in
        record {
          state = h.state;
          client = ok;
          session =
              subst (λ b. IsLinked fl b (send_all packets w.client).debug_force_audible w.session)
                (sym up)
                (subst (λ b. IsLinked fl w.client.connected b w.session) (sym debug) h.session);
        }

    WorldStep-IsWorldOk :
        {tools : MicTools fl R} {codec : Codec fl} {w w' : World fl R}
        → WorldStep fl tools codec w w'
        → IsWorldOk w
        → IsWorldOk w'
    WorldStep-IsWorldOk (calls opus_version line now w) h =
        game_call-IsWorldOk opus_version line now w h
    WorldStep-IsWorldOk (ticks now w) h = sender_tick-IsWorldOk now w h
    WorldStep-IsWorldOk (exchanges reply now queue w) h =
        unfold network_round in
        record {
          state = h.state;
          client = thread_round-Ok reply now queue w.client h.client;
          session = thread_round-Linked fl reply now queue w.client w.session h.session;
        }
    WorldStep-IsWorldOk {tools} (talks raw now w) h = mic_frame-IsWorldOk tools raw now w h
    WorldStep-IsWorldOk {codec = codec} (plays step needed frames m w filled) h = record {
      state = h.state;
      client = h.client;
      session =
          mixer-Linked fl w.client w.session m
            (fill_device-Keeps fl codec step needed frames w.session.mixer m filled) h.session;
    }

    -- However the calls of the game, the ticks, the rounds of the network with whatever the relay
    -- sends, the frames of the microphone and the fills of the device are interleaved: the state is
    -- well formed; the client is connected only with a socket and a configured server; the playback
    -- is in debug mode exactly as the connection says; and without a connection there are no
    -- sources, no rosters and no transmissions left, while with one the sources hold whole frames.
    -- The comparisons of float are right on the constants in the source.
    pub IsReachable-IsWorldOk :
        {tools : MicTools fl R} {codec : Codec fl} {w : World fl R}
        → IsReachable fl tools codec w
        → IsWorldOk w
    IsReachable-IsWorldOk (boots denoiser) = record {
      state = IsWellFormed-init fl laws;
      client = unfold set_identity in ((refl, refl, refl), omega arith);
      session = unfold set_identity in (refl, refl, refl, refl, refl);
    }
    IsReachable-IsWorldOk (runs r step) = WorldStep-IsWorldOk step (IsReachable-IsWorldOk r)

    -- However the threads are interleaved, the next callback of the device gets every frame that it
    -- needs: the loop that tops up the mix ends, and no read leaves the mix. The comparisons of float
    -- are right on the constants in the source.
    pub reachable_device_is_fed :
        {tools : MicTools fl R} {codec : Codec fl} {w : World fl R} (step : fl.D) (needed : ℕ)
        → IsReachable fl tools codec w
        → (frames : List (fl.F × fl.F)) × (m : Mixer fl) × (fill_device fl codec step needed
              w.session.mixer
            ≡ some (frames, m))
          × (length frames ≡ needed)
    reachable_device_is_fed {codec = codec} {w} step needed r =
        let framed =
          IsLinked-framed fl w.client.connected w.client.debug_force_audible w.session
            (IsReachable-IsWorldOk r).session in
        let (frames, m, filled, size, _) =
          fill_device-total fl codec step needed w.session.mixer (unfold IsMixable in framed) in
        (frames, m, filled, size)
