-- ===== src/Voice/Mixer/Device.antt =====
-- The audio device's buffer
-- (addon/extensions/task_force_radio_pipe/src/Voice/PlaybackMixer.cpp: the part of runDeviceSession
-- under the lock). A read outside of the mix is `none`.
use task_force_radio_standal.Base.{
  ltb, leb, if◌then◌else◌, nat_eq, length, get_elem?, drop, replicate, ℕ, zero, suc, ◌+◌, ◌-◌, ◌*◌,
  ◌/◌, ◌&&◌, Option, none, some, List, [], ◌∷◌, ◌++◌,
}
use task_force_radio_standal.Base.Int.{ℤ}
use task_force_radio_standal.Float.{Float}
use task_force_radio_standal.Voice.Source.Mixdown.{Codec, clamp_sample}
use task_force_radio_standal.Voice.Mixer.{Mixer}
use task_force_radio_standal.Voice.Mixer.Chunk.{generate_chunk}

module _ (fl : Float) (codec : Codec fl) where
  open fl use {
    F, decimal, mul, trunc, D, widen, narrow, d_decimal, d_of_nat, d_add, d_sub, d_mul, d_trunc,
  }

  -- The loop that tops up the mix for the cursor, on fuel.
  unfoldable pub top_up : ℕ → Mixer fl → Mixer fl
  unfolding generate_chunk
  top_up zero m = m
  top_up (suc fuel) m =
      let more = top_up fuel (generate_chunk fl codec m) in
      if leb (length m.mixed_48k / 2) (d_trunc m.resample_cursor + 1) then more else m

  -- Between two samples.
  abbrev pub between : D → F → F → F
  between frac x y =
      narrow (d_add (d_mul (widen x) (d_sub (d_decimal 1 0) frac)) (d_mul (widen y) frac))

  -- The stereo frame at the cursor.
  unfoldable pub read_frame : Mixer fl → Option (F × F)
  read_frame m =
      let place = d_trunc m.resample_cursor in
      let frac = d_sub m.resample_cursor (d_of_nat place) in
      elim (get_elem? m.mixed_48k (place * 2)) [
        | none ↦ none
        | some left ↦ elim (get_elem? m.mixed_48k (place * 2 + 2)) [
          | none ↦ none
          | some left' ↦ elim (get_elem? m.mixed_48k (place * 2 + 1)) [
            | none ↦ none
            | some right ↦ elim (get_elem? m.mixed_48k (place * 2 + 2 + 1)) [
              | none ↦ none
              | some right' ↦ some (between frac left left', between frac right right')
            ]
          ]
        ]
      ]

  abbrev pub advance : D → Mixer fl → Mixer fl
  advance step m = record m { resample_cursor = d_add m.resample_cursor step }

  -- The loop over the frames that the device needs.
  unfoldable pub fill_frames : D → ℕ → Mixer fl → Option (List (F × F) × Mixer fl)
  unfolding top_up read_frame
  fill_frames step zero m = some ([], m)
  fill_frames step (suc n) m =
      let m' = top_up (d_trunc m.resample_cursor + 2) m in
      let rest = fill_frames step n (advance step m') in
      elim (read_frame m') [
        | none ↦ none
        | some frame ↦ elim rest [ none ↦ none | some (frames, m'') ↦ some (frame ∷ frames, m'') ]
      ]

  -- Frames that are used up are dropped from the front.
  unfoldable pub drop_consumed : Mixer fl → Mixer fl
  drop_consumed m =
      let consumed = d_trunc m.resample_cursor in
      if ltb 0 consumed && leb (consumed * 2) (length m.mixed_48k)
      then record m {
        mixed_48k = drop (consumed * 2) m.mixed_48k;
        resample_cursor = d_sub m.resample_cursor (d_of_nat consumed);
      }
      else m

  unfoldable pub fill_device : D → ℕ → Mixer fl → Option (List (F × F) × Mixer fl)
  unfolding fill_frames drop_consumed
  fill_device step needed m = elim (fill_frames step needed m) [
    | none ↦ none
    | some (frames, m') ↦ some (frames, drop_consumed m')
  ]

  -- The frames for a device of `channels` channels, which are at least one.
  unfoldable pub interleave {ℓ} : {A : Type ℓ} → A → ℕ → List (A × A) → List A
  unfolding replicate
  interleave silent channels [] = []
  interleave silent channels ((left, right) ∷ frames) =
      let rest = interleave silent channels frames in
      if ltb 1 channels
      then left ∷ right ∷ (replicate (channels - 2) silent ++ rest)
      else left ∷ rest

  -- A 16-bit sample.
  unfoldable pub to_pcm : F → ℤ
  to_pcm x = trunc (mul (clamp_sample fl x) (decimal 32767 0))

  unfoldable pub pcm_frame : F × F → ℤ × ℤ
  unfolding to_pcm
  pcm_frame (left, right) = (to_pcm left, to_pcm right)
