-- ===== src/Voice/Transmit.antt =====
-- The gate of the microphone
-- (addon/extensions/task_force_radio_pipe/src/Voice/TransmitController.h and
-- TransmitController.cpp). Here a captured frame is seen through its level, and the level and the
-- packet that it has at a gain (`none` where the encoder fails); Samples computes these.
pub mod Gate
pub mod Samples
pub mod Talkspurts
use task_force_radio_standal.Base.{
  ltb, if◌then◌else◌, Text, ℕ, ◌+◌, Bool, true, false, not, Option, none, some, List, [], ◌∷◌,
}
use task_force_radio_standal.Float.{Float}
use task_force_radio_standal.Geometry.{one_f}
use task_force_radio_standal.State.Queries.{ms}

pub data TransmitMode : Type 0 where
  push_to_talk voice_activation always_on : TransmitMode

pub record CapturedFrame (fl : Float) : Type 0 where
  -- behind the noise suppressor
  pub raw_rms : fl.F
  pub gained_rms : fl.F → fl.F
  -- at a gain
  pub encoded : fl.F → Option Text
  pub encoded_silence : Option Text

pub record Transmit (fl : Float) : Type 0 where
  pub mode : TransmitMode
  pub mic_volume : fl.F
  pub vad_threshold : fl.F
  pub noise_suppression_enabled : Bool
  pub ptt_held : Bool
  pub mic_muted : Bool
  pub has_addon_override : Bool
  pub addon_override_value : Bool
  pub is_transmitting : Bool
  pub current_level : fl.F
  pub auto_gain : fl.F
  pub vad_hangover_until : ℕ
  pub silent_frame_count : ℕ
  pub was_transmitting : Bool

abbrev pub vad_hangover : ℕ
vad_hangover = ms 300

module _ (fl : Float) where
  open fl use {F, lt, le, add, sub, mul, div, decimal}

  unfoldable pub set_mode : TransmitMode → Transmit fl → Transmit fl
  set_mode mode t = record t { mode = mode }

  unfoldable pub set_ptt_held : Bool → Transmit fl → Transmit fl
  set_ptt_held held t = record t { ptt_held = held }

  unfoldable pub set_mic_muted : Bool → Transmit fl → Transmit fl
  set_mic_muted muted t = record t { mic_muted = muted }

  unfoldable pub set_vad_threshold : F → Transmit fl → Transmit fl
  set_vad_threshold threshold t = record t { vad_threshold = threshold }

  unfoldable pub set_mic_volume : F → Transmit fl → Transmit fl
  set_mic_volume volume t = record t { mic_volume = volume }

  unfoldable pub set_noise_suppression : Bool → Transmit fl → Transmit fl
  set_noise_suppression enabled t = record t { noise_suppression_enabled = enabled }

  unfoldable pub set_addon_override : Bool → Bool → Transmit fl → Transmit fl
  set_addon_override has value t = record t {
    has_addon_override = has;
    addon_override_value = value;
  }

  unfoldable pub evaluate_voice_activation : F → ℕ → Transmit fl → Bool × Transmit fl
  evaluate_voice_activation level now t =
      if le t.vad_threshold level
      then (true, record t { vad_hangover_until = now + vad_hangover })
      else (ltb now t.vad_hangover_until, t)

  unfoldable pub gate_by_mode : TransmitMode → F → ℕ → Transmit fl → Bool × Transmit fl
  unfolding evaluate_voice_activation
  gate_by_mode always_on level now t = (true, t)
  gate_by_mode push_to_talk level now t = (t.ptt_held, t)
  gate_by_mode voice_activation level now t = evaluate_voice_activation level now t

  unfoldable pub determine_should_transmit : F → ℕ → Transmit fl → Bool × Transmit fl
  unfolding gate_by_mode
  determine_should_transmit level now t =
      if t.has_addon_override
      then (t.addon_override_value, t)
      else if t.mic_muted
      then (false, t)
      else gate_by_mode t.mode level now t

  -- `std::clamp(kAgcTargetRms / rawRms, kAgcMinGain, kAgcMaxGain)`
  unfoldable pub desired_gain : F → F
  desired_gain raw_rms =
      let wanted = div (decimal 8 2) raw_rms in
      if lt wanted (one_f fl)
      then one_f fl
      else if lt (decimal 12 0) wanted
      then decimal 12 0
      else wanted

  -- The gain falls fast, and rises slowly while the level is that of a voice.
  unfoldable pub follow_gain : F → Bool → F → F
  unfolding desired_gain
  follow_gain raw_rms voice_like gain =
      let desired = desired_gain raw_rms in
      if not (le (decimal 1 4) raw_rms)
      then gain
      else if lt desired gain
      then add gain (mul (sub desired gain) (decimal 4 1))
      else if voice_like
      then add gain (mul (sub desired gain) (decimal 5 2))
      else gain

  -- What the gate's decision sends: frames with their last-frame flag.
  unfoldable pub send_frame :
      Bool → F → CapturedFrame fl → Transmit fl → List (Text × Bool) × Transmit fl
  send_frame true gain f t = (
    elim (f.encoded gain) [ none ↦ [] | some opus ↦ (opus, false) ∷ [] ],
    record t { was_transmitting = true },
  )
  send_frame false gain f t =
      if t.was_transmitting
      then (
        elim f.encoded_silence [ none ↦ [] | some opus ↦ (opus, true) ∷ [] ],
        record t { was_transmitting = false },
      )
      else ([], t)

  unfoldable pub on_frame_captured :
      CapturedFrame fl → ℕ → Transmit fl → List (Text × Bool) × Transmit fl
  unfolding follow_gain determine_should_transmit send_frame
  on_frame_captured f now t =
      let vad_level = mul f.raw_rms t.mic_volume in
      let gain = follow_gain f.raw_rms (le t.vad_threshold vad_level) t.auto_gain in
      let level = f.gained_rms (mul t.mic_volume gain) in
      let silent =
        if lt level (decimal 1 4)
        then (if ltb t.silent_frame_count 1000000
            then t.silent_frame_count + 1
            else t.silent_frame_count)
        else 0 in
      let t1 = record t { auto_gain = gain; current_level = level; silent_frame_count = silent } in
      let (should, t2) = determine_should_transmit vad_level now t1 in
      send_frame should (mul t.mic_volume gain) f (record t2 { is_transmitting = should })

  -- The members' defaults.
  abbrev pub new_transmit : Transmit fl
  new_transmit = record {
    mode = voice_activation;
    mic_volume = one_f fl;
    vad_threshold = decimal 5 3;
    noise_suppression_enabled = true;
    ptt_held = false;
    mic_muted = false;
    has_addon_override = false;
    addon_override_value = false;
    is_transmitting = false;
    current_level = decimal 0 0;
    auto_gain = one_f fl;
    vad_hangover_until = 0;
    silent_frame_count = 0;
    was_transmitting = false;
  }
