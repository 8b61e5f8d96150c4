-- ===== src/Voice/Transmit/Gate.antt =====
-- What the gate lets through
-- (addon/extensions/task_force_radio_pipe/src/Voice/TransmitController.cpp:
-- determineShouldTransmit, evaluateVoiceActivation, onFrameCaptured).
use task_force_radio_standal.Base.{
  ltb, if◌then◌else◌, All, run_over, Text, ℕ, ◌+◌, ◌≡◌, refl, ap, ◌∙◌, Bool, true, false, none,
  some, List, [], ◌∷◌, ◌++◌, map, arith,
}
use task_force_radio_standal.Float.{Float}
use task_force_radio_standal.Voice.Transmit.{
  voice_activation, CapturedFrame, Transmit, evaluate_voice_activation, gate_by_mode,
  determine_should_transmit, send_frame, on_frame_captured,
}
use mathlib.Core.List.{append-nil}

module _ (fl : Float) where
  open fl use {F, lt, le, add, sub, mul, div, decimal}

  -- What a sequence of captured frames sends, each with its time.
  unfoldable pub run_frames : List (CapturedFrame fl × ℕ) → Transmit fl → List (Text × Bool)
  run_frames [] t = []
  run_frames ((f, now) ∷ frames) t =
      (on_frame_captured fl f now t).0 ++ run_frames frames (on_frame_captured fl f now t).1

  abbrev pub marker : CapturedFrame fl → List (Text × Bool)
  marker f = elim f.encoded_silence [ none ↦ [] | some opus ↦ (opus, true) ∷ [] ]

  -- One frame while the override blocks.
  blocked_frame :
      (f : CapturedFrame fl) (now : ℕ) (t : Transmit fl)
      → t.has_addon_override ≡ true
      → t.addon_override_value ≡ false
      → ((on_frame_captured fl f now t).0 ≡ (if t.was_transmitting then marker f else []))
        × ((on_frame_captured fl f now t).1.was_transmitting ≡ false)
        × ((on_frame_captured fl f now t).1.has_addon_override ≡ true)
        × ((on_frame_captured fl f now t).1.addon_override_value ≡ false)
  unfolding on_frame_captured determine_should_transmit send_frame
  blocked_frame f now t on off = (ground arith, ground arith, ground arith, ground arith)

  blocked_run :
      (frames : List (CapturedFrame fl × ℕ)) (t : Transmit fl)
      → t.has_addon_override ≡ true
      → t.addon_override_value ≡ false
      → t.was_transmitting ≡ false
      → run_frames frames t ≡ []
  unfolding run_frames
  blocked_run [] t on off idle = refl
  blocked_run ((f, now) ∷ frames) t on off idle =
      let h = blocked_frame f now t on off in
      let rest = blocked_run frames (on_frame_captured fl f now t).1 h.2 h.3 h.1 in
      let nothing = h.0 ∙ ap (λ b. if b then marker f else []) idle in
      ap (λ l. l ++ run_frames frames (on_frame_captured fl f now t).1) nothing ∙ rest

  -- The addon's override blocks the microphone: while it says so nothing is sent but, after a
  -- transmission, the one marker of its end, with the first frame that is captured, whatever the
  -- mode, the keys and the levels are.
  pub blocked_sends_marker_once :
      (f : CapturedFrame fl) (now : ℕ) (frames : List (CapturedFrame fl × ℕ)) (t : Transmit fl)
      → t.has_addon_override ≡ true
      → t.addon_override_value ≡ false
      → run_frames ((f, now) ∷ frames) t ≡ (if t.was_transmitting then marker f else [])
  unfolding run_frames
  blocked_sends_marker_once f now frames t on off =
      let h = blocked_frame f now t on off in
      let rest = blocked_run frames (on_frame_captured fl f now t).1 h.2 h.3 h.1 in
      rw (h.0, rest) (append-nil (if t.was_transmitting then marker f else []))

  -- The gate's decision on a level at a time.
  abbrev pub decide : F × ℕ → Transmit fl → Bool × Transmit fl
  decide (level, now) = determine_should_transmit fl level now

  -- Quiet levels change nothing: each is let through while the hang-over lasts.
  quiet_run :
      (quiet : List (F × ℕ)) (t : Transmit fl)
      → t.has_addon_override ≡ false
      → t.mic_muted ≡ false
      → t.mode ≡ voice_activation
      → All (λ q. le t.vad_threshold q.0 ≡ false) quiet
      → run_over decide quiet t ≡ (map (λ q. ltb q.1 t.vad_hangover_until) quiet, t)
  unfolding run_over
  quiet_run [] t free open_mic vad below = refl
  quiet_run ((level, now) ∷ quiet) t free open_mic vad (below, all_below) =
      let one : decide (level, now) t ≡ (ltb now t.vad_hangover_until, t) =
        unfold determine_should_transmit gate_by_mode evaluate_voice_activation in
        rw (free, open_mic, vad, below) refl in
      let rest = quiet_run quiet t free open_mic vad all_below in rw one (rw rest refl)

  -- Voice activation transmits while the level reaches the threshold and for 300 ms after it did
  -- last. Where no override of the addon is set and the microphone is not muted: the gate is open at
  -- a loud frame, and however many quiet ones follow it, it is open at each exactly if less than
  -- 300 ms have passed since the loud one.
  pub voice_activation_hangs_over :
      (loud : F) (now : ℕ) (quiet : List (F × ℕ)) (t : Transmit fl)
      → t.has_addon_override ≡ false
      → t.mic_muted ≡ false
      → t.mode ≡ voice_activation
      → le t.vad_threshold loud ≡ true
      → All (λ q. le t.vad_threshold q.0 ≡ false) quiet
      → ((determine_should_transmit fl loud now t).0 ≡ true)
        × ((run_over decide quiet (determine_should_transmit fl loud now t).1).0
            ≡ map (λ q. ltb q.1 (now + 300000000)) quiet)
  voice_activation_hangs_over loud now quiet t free open_mic vad above below =
      let opened : determine_should_transmit fl loud now t
          ≡ (true, record t { vad_hangover_until = now + 300000000 }) =
        unfold determine_should_transmit gate_by_mode evaluate_voice_activation in
        rw (free, open_mic, vad, above) refl in
      let hung =
        quiet_run quiet (record t { vad_hangover_until = now + 300000000 }) free open_mic vad
          below in
      rw opened (refl, ap (λ (r : List Bool × Transmit fl). r.0) hung)
