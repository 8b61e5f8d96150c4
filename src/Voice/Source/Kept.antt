-- ===== src/Voice/Source/Kept.antt =====
-- What decoding leaves alone of a source
-- (addon/extensions/task_force_radio_pipe/src/Voice/RemoteVoiceSource.cpp: tryProduceNextFrame,
-- and the loop of render).
use Prim.Native.Nat.{min}
use task_force_radio_standal.Base.{
  ltb, leb, if_keeps, length, any, is_empty, ℕ, zero, suc, ◌+◌, ◌-◌, ◌*◌, ◌/◌, ◌≡◌, refl, ◌∙◌, Bool,
  not, ◌&&◌, ◌||◌, List, [], ◌∷◌,
}
use task_force_radio_standal.Float.{Float}
use task_force_radio_standal.Voice.Source.{
  PendingFrame, Source, jitter_target_frames, max_concealment_frames, frame_is_last, audible_paths,
}
use task_force_radio_standal.Voice.Source.Mixdown.{Codec, mix_frame}
use task_force_radio_standal.Voice.Source.Frames.{
  drain, conceal, play_or_wait, produce, try_produce_next_frame,
}
use task_force_radio_standal.Voice.Source.Render.{copy_frames, render_voice}

module _ (fl : Float) (codec : Codec fl) where
  open fl use {F}

  -- What the decoding of a frame leaves alone.
  pub record KeepsCue (s s' : Source fl) : Type 0 where
    pub states : s'.states ≡ s.states
    pub pending_beep : s'.pending_beep ≡ s.pending_beep
    pub beep : s'.beep ≡ s.beep
    pub beep_pos : s'.beep_pos ≡ s.beep_pos

  same : {s : Source fl} → KeepsCue s s
  same = record { states = refl; pending_beep = refl; beep = refl; beep_pos = refl }

  conceal-KeepsCue : (s : Source fl) → KeepsCue s (conceal fl codec s).1
  unfolding conceal mix_frame
  conceal-KeepsCue s =
      if_keeps {A = Bool × Source fl} (λ r. KeepsCue s r.1) (not s.is_playing) (λ _. same)
        (λ _.
          if_keeps {A = Bool × Source fl} (λ r. KeepsCue s r.1)
            (leb max_concealment_frames s.concealment_count)
            (λ _. record { states = refl; pending_beep = refl; beep = refl; beep_pos = refl })
            (λ _. record { states = refl; pending_beep = refl; beep = refl; beep_pos = refl }))

  produce-KeepsCue : (q : List PendingFrame) (s : Source fl) → KeepsCue s (produce fl codec q s).1
  unfolding produce play_or_wait mix_frame
  produce-KeepsCue [] s = conceal-KeepsCue s
  produce-KeepsCue (f ∷ rest) s =
      if_keeps {A = Bool × Source fl} (λ r. KeepsCue s r.1)
        (not s.is_playing
          && ltb (length rest) (jitter_target_frames - 1)
          && not (f.is_last || any frame_is_last rest))
        (λ _. same)
        (λ _. record { states = refl; pending_beep = refl; beep = refl; beep_pos = refl })

  then_keeps : {s t u : Source fl} → KeepsCue s t → KeepsCue t u → KeepsCue s u
  then_keeps h k = record {
    states = k.states ∙ h.states;
    pending_beep = k.pending_beep ∙ h.pending_beep;
    beep = k.beep ∙ h.beep;
    beep_pos = k.beep_pos ∙ h.beep_pos;
  }

  try-KeepsCue : (s : Source fl) → KeepsCue s (try_produce_next_frame fl codec s).1
  unfolding try_produce_next_frame
  try-KeepsCue s =
      let s' : Source fl = record s { render_states = audible_paths fl s.states } in
      let set : KeepsCue s s' = record {
        states = refl;
        pending_beep = refl;
        beep = refl;
        beep_pos = refl;
      } in
      if_keeps {A = Bool × Source fl} (λ r. KeepsCue s r.1) (is_empty (audible_paths fl s.states))
        (λ _.
          unfold drain in
          record { states = refl; pending_beep = refl; beep = refl; beep_pos = refl })
        (λ _. then_keeps set (produce-KeepsCue s.pending s'))

  copy_frames-KeepsCue :
      (rest : ℕ → Source fl → List F × Source fl) (need : ℕ) (s : Source fl)
      → ((n : ℕ) (s' : Source fl) → KeepsCue s' (rest n s').1)
      → KeepsCue s (copy_frames fl codec rest need s).1
  unfolding copy_frames
  copy_frames-KeepsCue rest need s tail =
      let count = min ((length s.stereo_frame - s.stereo_frame_pos) / 2) need in
      let s' : Source fl = record s { stereo_frame_pos = s.stereo_frame_pos + count * 2 } in
      let moved : KeepsCue s s' = record {
        states = refl;
        pending_beep = refl;
        beep = refl;
        beep_pos = refl;
      } in
      then_keeps moved (tail (need - count) s')

  pub render_voice-KeepsCue :
      (fuel need : ℕ) (s : Source fl) → KeepsCue s (render_voice fl codec fuel need s).1
  unfolding render_voice
  render_voice-KeepsCue zero need s = same
  render_voice-KeepsCue (suc fuel) zero s = same
  render_voice-KeepsCue (suc fuel) (suc n) s =
      let produced = try_produce_next_frame fl codec s in
      let from_start : Source fl = record produced.1 { stereo_frame_pos = 0 } in
      let kept = try-KeepsCue s in
      let reset : KeepsCue produced.1 from_start = record {
        states = refl;
        pending_beep = refl;
        beep = refl;
        beep_pos = refl;
      } in
      if_keeps {A = List F × Source fl} (λ r. KeepsCue s r.1)
        (not (leb (length s.stereo_frame) s.stereo_frame_pos))
        (λ _.
          copy_frames-KeepsCue (render_voice fl codec fuel) (suc n) s (render_voice-KeepsCue fuel))
        (λ _.
          if_keeps {A = List F × Source fl} (λ r. KeepsCue s r.1) produced.0
            (λ _. then_keeps (then_keeps kept reset) (
              copy_frames-KeepsCue (render_voice fl codec fuel) (suc n) from_start
                (render_voice-KeepsCue fuel)))
            (λ _. kept))
