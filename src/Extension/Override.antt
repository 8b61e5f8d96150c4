-- ===== src/Extension/Override.antt =====
-- The game's override of the microphone, from the state to the gate
-- (addon/extensions/task_force_radio_pipe/src/Extension.cpp: senderMain;
-- Voice/TransmitController.cpp: onFrameCaptured).
use task_force_radio_standal.Extension.Threads.{mic_frame}
use task_force_radio_standal.Base.{
  ltb, if◌then◌else◌, if_keeps, Text, ℕ, ◌+◌, ◌≡◌, refl, ◌∙◌, Bool, true, false, Option, some, List,
  [], ◌∷◌, arith,
}
use task_force_radio_standal.Float.{Float}
use task_force_radio_standal.State.Data.{State}
use task_force_radio_standal.State.Queries.{
  set_local_transmitting, set_voice_connected, set_remote_tx, take_transmit_override,
}
use task_force_radio_standal.Voice.Session.{RadioTxInfo, current_radio_tx}
use task_force_radio_standal.Voice.Transmit.{
  CapturedFrame, Transmit, set_addon_override, determine_should_transmit, follow_gain, send_frame,
  on_frame_captured,
}
use task_force_radio_standal.Voice.Transmit.Samples.{
  MicTools, suppress, captured, on_samples_captured,
}
use task_force_radio_standal.Extension.World.{World}
use task_force_radio_standal.Extension.Sender.{
  hear_tx, override_by, note_connection, apply_settings, exchange_identity, relay_own, relay_others,
  cue_own, take_override, solve, sender_tick,
}

module _ (fl : Float) where
  set_remote_tx-override :
      (uid : Text) (active : Bool) (freq : Text) (range : fl.F) (subtype : Text) (now : ℕ)
      (s : State fl)
      → (set_remote_tx fl uid active freq range subtype now s).pending_transmit_override
        ≡ s.pending_transmit_override
  unfolding set_remote_tx
  set_remote_tx-override uid active freq range subtype now s = ground arith

  hear_tx-override :
      (now : ℕ) (txs : List RadioTxInfo) (s : State fl)
      → (hear_tx fl now txs s).pending_transmit_override ≡ s.pending_transmit_override
  unfolding hear_tx
  hear_tx-override now [] s = refl
  hear_tx-override now (tx ∷ txs) s =
      hear_tx-override now txs _
      ∙ set_remote_tx-override tx.uid tx.active tx.freq _ tx.subtype now s

  send_frame-is_transmitting :
      (should : Bool) (gain : fl.F) (f : CapturedFrame fl) (t : Transmit fl)
      → (send_frame fl should gain f t).1.is_transmitting ≡ t.is_transmitting
  unfolding send_frame
  send_frame-is_transmitting true gain f t = refl
  send_frame-is_transmitting false gain f t =
      if_keeps {A = List (Text × Bool) × Transmit fl} (λ r. r.1.is_transmitting ≡ t.is_transmitting)
        t.was_transmitting (λ _. refl) (λ _. refl)

  determine-override :
      (value : Bool) (level : fl.F) (now : ℕ) (t : Transmit fl)
      → t.has_addon_override ≡ true
      → t.addon_override_value ≡ value
      → (determine_should_transmit fl level now t).0 ≡ value
  unfolding determine_should_transmit
  determine-override value level now t has told = ground arith

  -- An override decides about the gate, whatever the mode, the level and the mute are.
  overridden_frame :
      (value : Bool) (f : CapturedFrame fl) (now : ℕ) (t : Transmit fl)
      → t.has_addon_override ≡ true
      → t.addon_override_value ≡ value
      → (on_frame_captured fl f now t).1.is_transmitting ≡ value
  unfolding on_frame_captured
  overridden_frame value f now t has told =
      let level = fl.mul f.raw_rms t.mic_volume in
      let gain = follow_gain fl f.raw_rms (fl.le t.vad_threshold level) t.auto_gain in
      let at_gain = f.gained_rms (fl.mul t.mic_volume gain) in
      let silent =
        if fl.lt at_gain (fl.decimal 1 4)
        then (if ltb t.silent_frame_count 1000000
            then t.silent_frame_count + 1
            else t.silent_frame_count)
        else 0 in
      let t1 : Transmit fl = record t {
        auto_gain = gain;
        current_level = at_gain;
        silent_frame_count = silent;
      } in
      let decided = determine_should_transmit fl level now t1 in
      send_frame-is_transmitting decided.0 (fl.mul t.mic_volume gain) f
        (record decided.1 { is_transmitting = decided.0 })
      ∙ determine-override value level now t1 has told

  override_by-decides :
      (value : Bool) (o : Option (Option Bool)) (t : Transmit fl)
      → o ≡ some (some value)
      → ((override_by fl o t).has_addon_override ≡ true)
        × ((override_by fl o t).addon_override_value ≡ value)
  unfolding override_by set_addon_override
  override_by-decides value o t pending = rw pending (refl, refl)

  module _ {R : Type 0} where
    sender_tick-override :
        (value : Bool) (now : ℕ) (w : World fl R)
        → w.state.pending_transmit_override ≡ some (some value)
        → ((sender_tick fl now w).1.transmit.has_addon_override ≡ true)
          × ((sender_tick fl now w).1.transmit.addon_override_value ≡ value)
    unfolding sender_tick note_connection apply_settings exchange_identity relay_own relay_others
        cue_own take_override solve take_transmit_override set_voice_connected
        set_local_transmitting
    sender_tick-override value now w pending =
        let w1 = exchange_identity fl (apply_settings fl (note_connection fl w)) in
        override_by-decides value _ w1.transmit
          (hear_tx-override now (current_radio_tx fl now w1.session) w1.state ∙ pending)

    -- A pending override reaches the gate with the next tick: the frame of the microphone that
    -- follows, at any time, is transmitted or not as the override says, whatever the mode, the
    -- level and the mute are.
    pub override_reaches_the_gate :
        (tools : MicTools fl R) (value : Bool) (raw : List fl.F) (now later : ℕ) (w : World fl R)
        → w.state.pending_transmit_override ≡ some (some value)
        → (mic_frame fl tools raw later (sender_tick fl now w).1).transmit.is_transmitting ≡ value
    unfolding mic_frame on_samples_captured
    override_reaches_the_gate tools value raw now later w pending =
        let w' = (sender_tick fl now w).1 in
        let (has, told) = sender_tick-override value now w pending in
        let mono =
          (if w'.transmit.noise_suppression_enabled
            then suppress fl tools raw w'.denoiser
            else (raw, w'.denoiser)).0 in
        overridden_frame value (captured fl tools mono) later w'.transmit has told
