-- ===== src/Voice/Source/Rendered.antt =====
-- What a render callback gives
-- (addon/extensions/task_force_radio_pipe/src/Voice/RemoteVoiceSource.cpp: render).
use Prim.Native.Nat.{min}
use task_force_radio_standal.Base.{
  ltb, leb, if_keeps, length, take, drop, length-append, length-take, length-drop, replicate,
  length-replicate, any, Text, is_empty, ℕ, zero, suc, ◌+◌, ◌-◌, ◌*◌, ◌/◌, ◌%◌, ◌≤◌, ◌<◌, ◌≡◌, refl,
  ap, ◌∙◌, Bool, not, ◌&&◌, ◌||◌, Option, none, some, List, [], ◌∷◌, map, arith,
}
use task_force_radio_standal.Base.Int.{ℤ}
use task_force_radio_standal.Float.{Float}
use task_force_radio_standal.Geometry.{zero_f}
use task_force_radio_standal.Voice.Dsp.Chain.{Chain}
use task_force_radio_standal.Voice.Dsp.Chain.Frame.{length-map}
use task_force_radio_standal.Voice.Source.{
  RemoteSourceState, PendingFrame, BeepClip, Decoded, packet, packet_loss, Source,
  jitter_target_frames, max_concealment_frames, stereo_samples, frame_is_last, new_source,
  audible_paths, channel_gains,
}
use task_force_radio_standal.Voice.Source.Mixdown.{
  Codec, decoded_shorts, of_short, run_path, add_stereo, mix_paths, clamp_sample, mix_frame,
}
use task_force_radio_standal.Voice.Source.Frames.{
  drain, conceal, play_or_wait, produce, try_produce_next_frame,
}
use task_force_radio_standal.Voice.Source.Render.{
  copy_frames, render_voice, take_triggered, take_beep, radio_path_of, overlay, mix_clip, mix_heard,
  mix_beep, render,
}

length-add_stereo :
    (fl : Float) (gains : fl.F × fl.F) (xs acc : List fl.F)
    → length (add_stereo fl gains xs acc) ≡ length acc
unfolding add_stereo
length-add_stereo fl gains (x ∷ xs) (left ∷ right ∷ acc) =
    omega (arith, length-add_stereo fl gains xs acc)
length-add_stereo fl gains [] acc = refl
length-add_stereo fl gains (x ∷ xs) [] = refl
length-add_stereo fl gains (x ∷ xs) (left ∷ []) = refl

module _ (fl : Float) where
  open fl use {F, D}

  -- The stereo frame is whole, and the cursor stands between two frames of it.
  pub record IsFramed (s : Source fl) : Type 0 where
    pub whole : length s.stereo_frame ≡ 1920
    pub aligned : s.stereo_frame_pos % 2 ≡ 0
    pub within : s.stereo_frame_pos ≤ 1920

  pub new_source-IsFramed : (session_id : ℕ) (uid : Text) → IsFramed (new_source fl session_id uid)
  unfolding new_source
  new_source-IsFramed session_id uid = record {
    whole = length-replicate 1920 (zero_f fl);
    aligned = omega arith;
    within = omega arith;
  }

  length-mix_paths :
      (draws : ℕ → ℕ → D) (index : ℕ) (mono : List F) (ps : List (RemoteSourceState fl))
      (cs : List (Option (Chain fl))) (acc : List F)
      → length (mix_paths fl draws index mono ps cs acc).0 ≡ length acc
  unfolding mix_paths
  length-mix_paths draws index mono [] cs acc = refl
  length-mix_paths draws index mono (p ∷ ps) cs acc =
      let r = run_path fl draws index p mono cs in
      length-mix_paths draws (suc index) mono ps r.1 (add_stereo fl (channel_gains fl p) r.0 acc)
      ∙ length-add_stereo fl (channel_gains fl p) r.0 acc

  module _ (codec : Codec fl) where
    mix_frame-IsFramed :
        (d : Decoded) (s : Source fl) → IsFramed s → IsFramed (mix_frame fl codec d s)
    unfolding mix_frame
    mix_frame-IsFramed d s h = record {
      whole =
          length-map (clamp_sample fl) _
          ∙ length-mix_paths (codec.draws s.session_id (length (d ∷ s.decoder))) 0
              (map (of_short fl) (decoded_shorts fl codec (d ∷ s.decoder))) s.render_states s.chains
              (replicate stereo_samples (zero_f fl))
          ∙ length-replicate 1920 (zero_f fl);
      aligned = h.aligned;
      within = h.within;
    }

    conceal-IsFramed : (s : Source fl) → IsFramed s → IsFramed (conceal fl codec s).1
    unfolding conceal
    conceal-IsFramed s h =
        if_keeps {A = Bool × Source fl} (λ r. IsFramed r.1) (not s.is_playing) (λ _. h)
          (λ _.
            if_keeps {A = Bool × Source fl} (λ r. IsFramed r.1)
              (leb max_concealment_frames s.concealment_count)
              (λ _. record { whole = h.whole; aligned = h.aligned; within = h.within })
              (λ _.
                mix_frame-IsFramed packet_loss
                  (record s { concealment_count = s.concealment_count + 1 })
                  (record { whole = h.whole; aligned = h.aligned; within = h.within })))

    play_or_wait-IsFramed :
        (f : PendingFrame) (rest : List PendingFrame) (s : Source fl)
        → IsFramed s
        → IsFramed (play_or_wait fl codec f rest s).1
    unfolding play_or_wait
    play_or_wait-IsFramed f rest s h =
        if_keeps {A = Bool × Source fl} (λ r. IsFramed r.1)
          (not s.is_playing
            && ltb (length rest) (jitter_target_frames - 1)
            && not (f.is_last || any frame_is_last rest))
          (λ _. h)
          (λ _.
            mix_frame-IsFramed (packet f.opus)
              (record s { pending = rest; is_playing = not f.is_last; concealment_count = 0 })
              (record { whole = h.whole; aligned = h.aligned; within = h.within }))

    produce-IsFramed :
        (q : List PendingFrame) (s : Source fl) → IsFramed s → IsFramed (produce fl codec q s).1
    unfolding produce
    produce-IsFramed [] s h = conceal-IsFramed s h
    produce-IsFramed (f ∷ rest) s h = play_or_wait-IsFramed f rest s h

    try-IsFramed : (s : Source fl) → IsFramed s → IsFramed (try_produce_next_frame fl codec s).1
    unfolding try_produce_next_frame
    try-IsFramed s h =
        let s' : Source fl = record s { render_states = audible_paths fl s.states } in
        let h' : IsFramed s' = record { whole = h.whole; aligned = h.aligned; within = h.within } in
        if_keeps {A = Bool × Source fl} (λ r. IsFramed r.1) (is_empty (audible_paths fl s.states))
          (λ _. unfold drain in record { whole = h.whole; aligned = h.aligned; within = h.within })
          (λ _. produce-IsFramed s.pending s' h')

    -- So many frames are written, and the source keeps its frame whole.
    pub IsRendered : ℕ → List F × Source fl → Type 0
    IsRendered need r = (length r.0 ≡ need * 2) × IsFramed r.1

    copy_frames-IsRendered :
        (rest : ℕ → Source fl → List F × Source fl) (fuel need : ℕ) (s : Source fl)
        → ((n : ℕ) (s' : Source fl) → n ≤ fuel → IsFramed s' → IsRendered n (rest n s'))
        → need ≤ suc fuel
        → 0 < need
        → s.stereo_frame_pos < 1920
        → IsFramed s
        → IsRendered need (copy_frames fl codec rest need s)
    unfolding copy_frames IsRendered
    copy_frames-IsRendered rest fuel need s tail enough some_wanted inside h =
        let count = min ((length s.stereo_frame - s.stereo_frame_pos) / 2) need in
        let s' : Source fl = record s { stereo_frame_pos = s.stereo_frame_pos + count * 2 } in
        let whole = h.whole in
        let aligned = h.aligned in
        let within = h.within in
        let (more, framed) =
          tail (need - count) s' (omega arith)
            (record { whole = h.whole; aligned = omega arith; within = omega arith }) in
        (
          omega (
            arith,
            more,
            length-append (take (count * 2) (drop s.stereo_frame_pos s.stereo_frame))
                (rest (need - count) s').0,
            length-take (count * 2) (drop s.stereo_frame_pos s.stereo_frame),
            length-drop s.stereo_frame_pos s.stereo_frame,
          ),
          framed,
        )

    render_voice-IsRendered :
        (fuel need : ℕ) (s : Source fl)
        → need ≤ fuel
        → IsFramed s
        → IsRendered need (render_voice fl codec fuel need s)
    unfolding render_voice
    render_voice-IsRendered zero need s enough h = unfold IsRendered in (omega arith, h)
    render_voice-IsRendered (suc fuel) zero s enough h = unfold IsRendered in (omega arith, h)
    render_voice-IsRendered (suc fuel) (suc n) s enough h =
        let produced = try_produce_next_frame fl codec s in
        let framed = try-IsFramed s h in
        if_keeps (IsRendered (suc n)) (not (leb (length s.stereo_frame) s.stereo_frame_pos))
          (λ left.
            copy_frames-IsRendered (render_voice fl codec fuel) fuel (suc n) s
              (render_voice-IsRendered fuel) enough (omega arith) (ground (arith, h.whole)) h)
          (λ _.
            if_keeps (IsRendered (suc n)) produced.0
              (λ _.
                copy_frames-IsRendered (render_voice fl codec fuel) fuel (suc n)
                  (record produced.1 { stereo_frame_pos = 0 }) (render_voice-IsRendered fuel) enough
                  (omega arith) (omega arith)
                  (record { whole = framed.whole; aligned = omega arith; within = omega arith }))
              (λ _. unfold IsRendered in (length-replicate (suc n * 2) (zero_f fl), framed)))

    length-overlay :
        (sample : ℕ → ℤ) (gains : F × F) (at count : ℕ) (out : List F)
        → length (overlay fl codec sample gains at count out) ≡ length out
    unfolding overlay
    length-overlay sample gains at zero out = refl
    length-overlay sample gains at (suc count) [] = refl
    length-overlay sample gains at (suc count) (left ∷ []) = refl
    length-overlay sample gains at (suc count) (left ∷ right ∷ out) =
        ap (λ n. suc (suc n)) (length-overlay sample gains (at + 1) count out)

    take_triggered-IsFramed :
        (o : Option BeepClip) (s : Source fl) → IsFramed s → IsFramed (take_triggered fl codec o s)
    unfolding take_triggered
    take_triggered-IsFramed none s h = h
    take_triggered-IsFramed (some clip) s h = record {
      whole = h.whole;
      aligned = h.aligned;
      within = h.within;
    }

    mix_heard-IsRendered :
        (beep : Option BeepClip) (path : Option (RemoteSourceState fl)) (n : ℕ) (out : List F)
        (s : Source fl)
        → IsRendered n (out, s)
        → IsRendered n (mix_heard fl codec beep path n out s)
    unfolding mix_heard mix_clip
    mix_heard-IsRendered none path n out s h = h
    mix_heard-IsRendered (some clip) none n out s h = h
    mix_heard-IsRendered (some clip) (some p) n out s h =
        let count = min n (clip.count - s.beep_pos) in
        if_keeps (IsRendered n) (leb clip.count s.beep_pos) (λ _. h)
          (λ _.
            unfold IsRendered in
            (
              length-overlay (codec.clip_sample clip) (channel_gains fl p) s.beep_pos count out
                  ∙ h.0,
              record { whole = h.1.whole; aligned = h.1.aligned; within = h.1.within },
            ))

    -- From a source whose frame is whole, a callback of any size gets exactly the samples it asks
    -- for, two for each frame, with as many turns of the loop as frames are wanted; and the source's
    -- frame stays whole.
    pub render-IsRendered :
        (frame_count : ℕ) (s : Source fl)
        → IsFramed s
        → (length (render fl codec frame_count s).0 ≡ frame_count * 2)
          × IsFramed (render fl codec frame_count s).1
    unfolding render mix_beep take_beep IsRendered
    render-IsRendered frame_count s h =
        let voice = render_voice fl codec frame_count frame_count s in
        let rendered = render_voice-IsRendered frame_count frame_count s (omega arith) h in
        let s' = take_beep fl codec voice.1 in
        mix_heard-IsRendered s'.beep (radio_path_of fl codec s'.states) frame_count voice.0 s'
          (rendered.0, take_triggered-IsFramed voice.1.pending_beep voice.1 rendered.1)
