-- ===== src/Voice/Source/Render.antt =====
-- The render callback of a remote speaker
-- (addon/extensions/task_force_radio_pipe/src/Voice/RemoteVoiceSource.cpp: render).
use Prim.Native.Nat.{min}
use task_force_radio_standal.Base.{
  leb, if◌then◌else◌, length, take, drop, replicate, ℕ, zero, suc, ◌+◌, ◌-◌, ◌*◌, ◌/◌, not, ◌&&◌,
  Option, none, some, List, [], ◌∷◌, ◌++◌,
}
use task_force_radio_standal.Base.Int.{ℤ}
use task_force_radio_standal.Float.{Float}
use task_force_radio_standal.Geometry.{zero_f}
use task_force_radio_standal.Voice.Source.{
  RemoteSourceState, BeepClip, Source, is_radio_reception, is_audible, channel_gains,
}
use task_force_radio_standal.Voice.Source.Mixdown.{Codec, of_short, clamp_sample}
use task_force_radio_standal.Voice.Source.Frames.{try_produce_next_frame}

module _ (fl : Float) (codec : Codec fl) where
  open fl use {F, lt, add, mul}

  -- The part of the loop behind the decoding: `need` frames are wanted, and `rest` is the loop that
  -- follows.
  unfoldable pub copy_frames :
      (ℕ → Source fl → List F × Source fl) → ℕ → Source fl → List F × Source fl
  copy_frames rest need s =
      let available = (length s.stereo_frame - s.stereo_frame_pos) / 2 in
      let count = min available need in
      let out = take (count * 2) (drop s.stereo_frame_pos s.stereo_frame) in
      let (more, s') =
        rest (need - count) (record s { stereo_frame_pos = s.stereo_frame_pos + count * 2 }) in
      (out ++ more, s')

  -- The loop that writes the voice, on fuel: a stereo frame's two samples for each frame wanted.
  unfoldable pub render_voice : ℕ → ℕ → Source fl → List F × Source fl
  unfolding copy_frames replicate
  render_voice zero need s = ([], s)
  render_voice (suc fuel) zero s = ([], s)
  render_voice (suc fuel) (suc n) s =
      let (fresh, s') = try_produce_next_frame fl codec s in
      let silent = replicate ((suc n) * 2) (zero_f fl) in
      if not (leb (length s.stereo_frame) s.stereo_frame_pos)
      then copy_frames (render_voice fuel) (suc n) s
      else if fresh
      then copy_frames (render_voice fuel) (suc n) (record s' { stereo_frame_pos = 0 })
      else (silent, s')

  -- A cue that was triggered replaces the one that plays.
  unfoldable pub take_triggered : Option BeepClip → Source fl → Source fl
  take_triggered none s = s
  take_triggered (some clip) s = record s { beep = some clip; beep_pos = 0; pending_beep = none }

  unfoldable pub take_beep : Source fl → Source fl
  unfolding take_triggered
  take_beep s = take_triggered s.pending_beep s

  -- `m_beepTotal`
  abbrev pub beep_total : Option BeepClip → ℕ
  beep_total none = 0
  beep_total (some clip) = clip.count

  -- The first path by which the source is heard as radio.
  unfoldable pub radio_path_of : List (RemoteSourceState fl) → Option (RemoteSourceState fl)
  radio_path_of [] = none
  radio_path_of (p ∷ ps) =
      let rest = radio_path_of ps in
      if is_audible fl p && is_radio_reception p.effect then some p else rest

  -- `count` samples of the clip from `at` on, over the front of an interleaved buffer.
  unfoldable pub overlay : (ℕ → ℤ) → F × F → ℕ → ℕ → List F → List F
  overlay sample gains at (suc count) (left ∷ right ∷ out) =
      let s = of_short fl (sample at) in
      clamp_sample fl (add left (mul s gains.0))
      ∷ clamp_sample fl (add right (mul s gains.1))
      ∷ overlay sample gains (at + 1) count out
  overlay sample gains at _ out = out

  unfoldable pub mix_clip :
      ℕ → List F → BeepClip → RemoteSourceState fl → Source fl → List F × Source fl
  unfolding overlay
  mix_clip frame_count out clip p s =
      let count = min frame_count (clip.count - s.beep_pos) in
      (
        overlay (codec.clip_sample clip) (channel_gains fl p) s.beep_pos count out,
        record s { beep_pos = s.beep_pos + count },
      )

  -- The cue over the voice: there is one, it has not ended, and the source is heard as radio.
  unfoldable pub mix_heard :
      Option BeepClip → Option (RemoteSourceState fl) → ℕ → List F → Source fl → List F × Source fl
  unfolding mix_clip
  mix_heard none path frame_count out s = (out, s)
  mix_heard (some clip) none frame_count out s = (out, s)
  mix_heard (some clip) (some p) frame_count out s =
      if leb clip.count s.beep_pos then (out, s) else mix_clip frame_count out clip p s

  unfoldable pub mix_beep : ℕ → List F → Source fl → List F × Source fl
  unfolding mix_heard radio_path_of
  mix_beep frame_count out s = mix_heard s.beep (radio_path_of s.states) frame_count out s

  unfoldable pub render : ℕ → Source fl → List F × Source fl
  unfolding render_voice take_beep mix_beep
  render frame_count s =
      let (out, s') = render_voice frame_count frame_count s in
      mix_beep frame_count out (take_beep s')
