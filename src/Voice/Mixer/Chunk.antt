-- ===== src/Voice/Mixer/Chunk.antt =====
-- A chunk of the mix
-- (addon/extensions/task_force_radio_pipe/src/Voice/PlaybackMixer.cpp: generateChunkLocked). Its log
-- line and the counter that throttles it are left out.
use Prim.Native.Nat.{min}
use task_force_radio_standal.Base.{
  ltb, if◌then◌else◌, nat_eq, replicate, ℕ, suc, ◌+◌, ◌-◌, Bool, Option, none, some, List, [], ◌∷◌,
  ◌++◌, map,
}
use task_force_radio_standal.Base.Int.{ℤ}
use task_force_radio_standal.Base.Map.{Map}
use task_force_radio_standal.Float.{Float}
use task_force_radio_standal.Geometry.{zero_f, one_f}
use task_force_radio_standal.Voice.Source.{BeepClip, Source, frame_samples, stereo_samples}
use task_force_radio_standal.Voice.Source.Mixdown.{Codec, of_short}
use task_force_radio_standal.Voice.Source.Render.{render}
use task_force_radio_standal.Voice.Mixer.{Mixer}

module _ (fl : Float) (codec : Codec fl) where
  open fl use {F, add, mul, div, fabs}

  -- `mix[i] += scratch[i]` over the whole mix.
  unfoldable pub add_all : List F → List F → List F
  add_all (x ∷ mix) (y ∷ scratch) = add x y ∷ add_all mix scratch
  add_all mix _ = mix

  -- The loop over the sources.
  unfoldable pub render_all : Map ℕ (Source fl) → List F → List F × Map ℕ (Source fl)
  unfolding add_all render
  render_all [] mix = (mix, [])
  render_all ((session_id, source) ∷ sources) mix =
      let (scratch, source') = render fl codec frame_samples source in
      let (mix', sources') = render_all sources (add_all mix scratch) in
      (mix', (session_id, source') ∷ sources')

  -- `count` samples of a clip from `at` on, in the middle.
  unfoldable pub overlay_centered : (ℕ → ℤ) → ℕ → ℕ → List F → List F
  overlay_centered sample at (suc count) (left ∷ right ∷ mix) =
      let s = of_short fl (sample at) in
      add left s ∷ add right s ∷ overlay_centered sample (at + 1) count mix
  overlay_centered sample at _ mix = mix

  -- Our own cue; `m_localBeepPos < m_localBeepTotal`.
  unfoldable pub mix_local : Option BeepClip → ℕ → List F → List F × ℕ
  unfolding overlay_centered
  mix_local none at mix = (mix, at)
  mix_local (some clip) at mix =
      let count = min frame_samples (clip.count - at) in
      if ltb at clip.count
      then (overlay_centered (codec.clip_sample clip) at count mix, at + count)
      else (mix, at)

  -- Volume, limiter and mute of one sample.
  unfoldable pub limit : F → Bool → F → F
  limit volume muted sample =
      let loud = mul sample volume in
      let limited = div loud (add (one_f fl) (fabs loud)) in if muted then zero_f fl else limited

  unfoldable pub generate_chunk : Mixer fl → Mixer fl
  unfolding render_all mix_local limit replicate
  generate_chunk m =
      let (voices, sources) = render_all m.sources (replicate stereo_samples (zero_f fl)) in
      let (mix, at) = mix_local m.local_beep m.local_beep_pos voices in
      record m {
        sources = sources;
        local_beep_pos = at;
        mixed_48k = m.mixed_48k ++ map (limit m.master_volume m.is_muted) mix;
      }
