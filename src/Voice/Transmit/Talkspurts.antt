-- ===== src/Voice/Transmit/Talkspurts.antt =====
-- The talkspurts that the gate sends
-- (addon/extensions/task_force_radio_pipe/src/Voice/TransmitController.cpp: onFrameCaptured).
use task_force_radio_standal.Base.{
  ltb, if◌then◌else◌, All, Text, ℕ, ◌+◌, ◌≡◌, refl, sym, ap, ◌∙◌, Bool, true, false, none, some,
  List, [], ◌∷◌, ◌++◌, map, arith,
}
use task_force_radio_standal.Float.{Float}
use task_force_radio_standal.Voice.Transmit.{
  CapturedFrame, Transmit, evaluate_voice_activation, gate_by_mode, determine_should_transmit,
  follow_gain, send_frame, on_frame_captured,
}
use task_force_radio_standal.Voice.Transmit.Gate.{run_frames}
use mathlib.Core.Path.{subst}
use mathlib.Core.List.{map-append}

-- The last-frame flags that decisions call for: one frame for each open one, and one marker where
-- the gate closes.
abbrev pub flags : Bool → List Bool → List Bool
flags was [] = []
flags was (true ∷ ds) = false ∷ flags true ds
flags true (false ∷ ds) = true ∷ flags false ds
flags false (false ∷ ds) = flags false ds

abbrev pub is_marker : Text × Bool → Bool
is_marker p = p.1

flags-cons : (was d : Bool) (ds : List Bool) → flags was (d ∷ ds) ≡ flags was (d ∷ []) ++ flags d ds
flags-cons was true ds = refl
flags-cons true false ds = refl
flags-cons false false ds = refl

module _ (fl : Float) where
  open fl use {F}

  -- The gate's decisions.
  unfoldable pub decisions : List (CapturedFrame fl × ℕ) → Transmit fl → List Bool
  decisions [] t = []
  decisions ((f, now) ∷ frames) t =
      (on_frame_captured fl f now t).1.is_transmitting
      ∷ decisions frames (on_frame_captured fl f now t).1

  -- The encoder never fails.
  unfoldable pub IsEncoded : CapturedFrame fl → Type 0
  IsEncoded f =
      ((gain : F) → (opus : Text) × (f.encoded gain ≡ some opus))
      × ((opus : Text) × (f.encoded_silence ≡ some opus))

  -- What one decision sends.
  Sends : Bool → Bool → List (Text × Bool) × Transmit fl → Type 0
  Sends was should r =
      (map is_marker r.0 ≡ flags was (should ∷ []))
      × (r.1.was_transmitting ≡ should)
      × (r.1.is_transmitting ≡ should)

  send_frame-Sends :
      (should was : Bool) (gain : F) (f : CapturedFrame fl) (t : Transmit fl)
      → IsEncoded f
      → t.was_transmitting ≡ was
      → t.is_transmitting ≡ should
      → Sends was should (send_frame fl should gain f t)
  unfolding send_frame IsEncoded Sends
  send_frame-Sends true was gain f t h e e' =
      let (opus, encoded) = h.0 gain in (rw encoded refl, refl, e')
  send_frame-Sends false true gain f t h e e' =
      let (opus, encoded) = h.1 in
      subst
        (λ b. Sends true false (
          if b
          then (
            elim f.encoded_silence [ none ↦ [] | some opus ↦ (opus, true) ∷ [] ],
            record t { was_transmitting = false },
          )
          else ([], t)))
        (sym e) (rw encoded refl, refl, e')
  send_frame-Sends false false gain f t h e e' =
      subst
        (λ b. Sends false false (
          if b
          then (
            elim f.encoded_silence [ none ↦ [] | some opus ↦ (opus, true) ∷ [] ],
            record t { was_transmitting = false },
          )
          else ([], t)))
        (sym e) (refl, e, e')

  determine-keeps :
      (level : F) (now : ℕ) (t : Transmit fl)
      → (determine_should_transmit fl level now t).1.was_transmitting ≡ t.was_transmitting
  unfolding determine_should_transmit gate_by_mode evaluate_voice_activation
  determine-keeps level now t = ground arith

  on_frame_captured-Sends :
      (f : CapturedFrame fl) (now : ℕ) (t : Transmit fl)
      → IsEncoded f
      → Sends t.was_transmitting
          (on_frame_captured fl f now t).1.is_transmitting
          (on_frame_captured fl f now t)
  unfolding on_frame_captured
  on_frame_captured-Sends f now t h =
      let level = fl.mul f.raw_rms t.mic_volume in
      let gain = follow_gain fl f.raw_rms (fl.le t.vad_threshold level) t.auto_gain in
      let at_gain = f.gained_rms (fl.mul t.mic_volume gain) in
      let silent =
        if fl.lt at_gain (fl.decimal 1 4)
        then (if ltb t.silent_frame_count 1000000
            then t.silent_frame_count + 1
            else t.silent_frame_count)
        else 0 in
      let t1 : Transmit fl = record t {
        auto_gain = gain;
        current_level = at_gain;
        silent_frame_count = silent;
      } in
      let decided = determine_should_transmit fl level now t1 in
      let t3 : Transmit fl = record decided.1 { is_transmitting = decided.0 } in
      let sends =
        send_frame-Sends decided.0 t.was_transmitting (fl.mul t.mic_volume gain) f t3 h
          (determine-keeps level now t1) refl in
      unfold Sends in
      subst
        (λ should.
          Sends t.was_transmitting should (send_frame fl decided.0 (fl.mul t.mic_volume gain) f t3))
        (sym sends.2) sends

  -- What a sequence of captured frames sends is told by the gate's decisions alone: while it is
  -- open a frame each, and where it closes exactly one packet that is marked as the last, provided
  -- that the encoder does not fail.
  pub talkspurts_are_closed :
      (frames : List (CapturedFrame fl × ℕ)) (t : Transmit fl)
      → All (λ e. IsEncoded e.0) frames
      → map is_marker (run_frames fl frames t) ≡ flags t.was_transmitting (decisions frames t)
  unfolding run_frames decisions Sends
  talkspurts_are_closed [] t h = refl
  talkspurts_are_closed ((f, now) ∷ frames) t h =
      let r = on_frame_captured fl f now t in
      let (sent, was, decided) = on_frame_captured-Sends f now t h.0 in
      let later = talkspurts_are_closed frames r.1 h.1 in
      map-append is_marker r.0 (run_frames fl frames r.1)
      ∙ ap (λ l. l ++ map is_marker (run_frames fl frames r.1)) sent
      ∙ ap (λ l. flags t.was_transmitting (r.1.is_transmitting ∷ []) ++ l)
          (later ∙ ap (λ b. flags b (decisions frames r.1)) was)
      ∙ sym (flags-cons t.was_transmitting r.1.is_transmitting (decisions frames r.1))
