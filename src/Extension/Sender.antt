-- ===== src/Extension/Sender.antt =====
-- The tick
-- (addon/extensions/task_force_radio_pipe/src/Extension.cpp: senderMain), one turn of its loop. The
-- clock is read once for a turn.
use task_force_radio_standal.Base.{
  if◌then◌else◌, Text, codes, ℕ, Bool, true, false, Option, none, some, List, [], ◌∷◌, map,
}
use task_force_radio_standal.Base.Int.{pos, pos_part}
use task_force_radio_standal.Float.{Float}
use task_force_radio_standal.Geometry.{zero_f}
use task_force_radio_standal.State.Data.{State}
use task_force_radio_standal.State.Queries.{
  my_uid, set_local_transmitting, set_voice_connected, set_remote_tx, take_transmit_override,
  config_bool, config_float, voice_config_string, local_tx_state,
}
use task_force_radio_standal.State.Solver.Snapshot.{compute_audible_units}
use task_force_radio_standal.Voice.Mixer.{Mixer, trigger_local_beep, set_master_volume}
use task_force_radio_standal.Voice.Session.{RadioTxInfo, apply_audibility, current_radio_tx}
use task_force_radio_standal.Voice.Network.{Event, send_radio_tx}
use task_force_radio_standal.Voice.Network.Thread.{set_server, set_identity}
use task_force_radio_standal.Voice.Transmit.{
  Transmit, set_mode, set_vad_threshold, set_mic_volume, set_noise_suppression, set_addon_override,
}
use task_force_radio_standal.Tick.{
  Announcement, relay_tick, local_cue_tick, parse_transmit_mode, update_of,
}
use task_force_radio_standal.Extension.{parse_port}
use task_force_radio_standal.Extension.World.{World}

module _ (fl : Float) where
  open fl use {F, decimal, of_int, lt, trunc}

  -- `static_cast<uint16_t>(std::clamp(range, 0.0f, 65535.0f))`
  unfoldable pub clamped_range : F → ℕ
  clamped_range range = pos_part (
      trunc (
        if lt range (zero_f fl)
        then zero_f fl
        else if lt (decimal 65535 0) range
        then decimal 65535 0
        else range))

  abbrev pub announcement : State fl → Announcement
  announcement s =
      let tx = local_tx_state fl s in
      record {
        active = tx.active;
        freq = tx.freq;
        range = clamped_range tx.range;
        subtype = tx.subtype;
      }

  -- The loop over the others' transmissions.
  unfoldable pub hear_tx : ℕ → List RadioTxInfo → State fl → State fl
  unfolding set_remote_tx
  hear_tx now [] s = s
  hear_tx now (tx ∷ txs) s =
      hear_tx now txs
        (set_remote_tx fl tx.uid tx.active tx.freq (of_int (pos tx.range)) tx.subtype now s)

  unfoldable pub play_cue : Option (Text × Bool) → Mixer fl → Mixer fl
  unfolding trigger_local_beep
  play_cue none m = m
  play_cue (some (subtype, start)) m = trigger_local_beep fl subtype start m

  -- A pending change of the override; a pending clear is `some none`.
  unfoldable pub override_by : Option (Option Bool) → Transmit fl → Transmit fl
  unfolding set_addon_override
  override_by none t = t
  override_by (some none) t = set_addon_override fl false false t
  override_by (some (some value)) t = set_addon_override fl true value t

module _ (fl : Float) {R : Type 0} where
  open fl use {F, decimal, of_int, lt, trunc}

  -- The state first learns whether the relay is connected.
  unfoldable pub note_connection : World fl R → World fl R
  note_connection w = record w { state = set_voice_connected fl w.client.connected w.state }

  -- The settings of the game.
  unfoldable pub apply_settings : World fl R → World fl R
  unfolding parse_port set_server set_mode set_noise_suppression set_vad_threshold set_mic_volume
      set_master_volume
  apply_settings w =
      let number = λ (key : Text) (fallback : F). config_float fl key fallback w.state in
      let text = λ (key : Text). voice_config_string fl key [] w.state in
      record w {
        client =
            set_server (text (codes "voice_serverHost"))
              (parse_port fl (number (codes "voice_serverPort") (decimal 9987 0)))
              (text (codes "voice_serverPassword")) w.client;
        transmit =
            set_mode fl (parse_transmit_mode fl (number (codes "voice_transmitMode") (decimal 1 0)))
              (set_noise_suppression fl
                (config_bool fl (codes "voice_noiseSuppression") true w.state)
                (set_vad_threshold fl (number (codes "voice_vadThreshold") (decimal 5 3))
                  (set_mic_volume fl (number (codes "voice_micVolume") (decimal 1 0)) w.transmit)));
        session = record w.session {
          mixer =
              set_master_volume fl (number (codes "voice_speakerVolume") (decimal 1 0))
                w.session.mixer;
        };
      }

  unfoldable pub exchange_identity : World fl R → World fl R
  unfolding set_identity
  exchange_identity w =
      let state = set_local_transmitting fl w.transmit.is_transmitting w.state in
      record w { state = state; client = set_identity (my_uid fl state) state.my_nickname w.client }

  -- The relay of our own transmission.
  unfoldable pub relay_own : ℕ → Announcement → World fl R → List Event × World fl R
  unfolding relay_tick send_radio_tx
  relay_own now tx w =
      let (send, relay) = relay_tick now tx w.relay in
      (
        if send then send_radio_tx tx.active tx.freq tx.range tx.subtype w.client else [],
        record w { relay = relay },
      )

  unfoldable pub relay_others : ℕ → World fl R → World fl R
  unfolding hear_tx current_radio_tx
  relay_others now w = record w {
    state = hear_tx fl now (current_radio_tx fl now w.session) w.state;
  }

  unfoldable pub cue_own : Announcement → World fl R → World fl R
  unfolding local_cue_tick play_cue
  cue_own tx w =
      let (played, cue) = local_cue_tick tx.active tx.subtype w.cue in
      record w {
        cue = cue;
        session = record w.session { mixer = play_cue fl played w.session.mixer };
      }

  unfoldable pub take_override : World fl R → World fl R
  unfolding take_transmit_override override_by
  take_override w =
      let (change, state) = take_transmit_override fl w.state in
      record w { state = state; transmit = override_by fl change w.transmit }

  unfoldable pub solve : ℕ → World fl R → World fl R
  unfolding compute_audible_units apply_audibility update_of
  solve now w =
      let (units, state) = compute_audible_units fl now w.state in
      record w { state = state; session = apply_audibility fl (map (update_of fl) units) w.session }

  -- One turn, and what it sends.
  unfoldable pub sender_tick : ℕ → World fl R → List Event × World fl R
  unfolding note_connection apply_settings exchange_identity relay_own relay_others cue_own
      take_override solve
  sender_tick now w =
      let w1 = exchange_identity (apply_settings (note_connection w)) in
      let tx = announcement fl w1.state in
      let (packets, w2) = relay_own now tx w1 in
      (packets, solve now (take_override (cue_own tx (relay_others now w2))))
