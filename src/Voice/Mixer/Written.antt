-- ===== src/Voice/Mixer/Written.antt =====
-- What a buffer of the speaker holds
-- (addon/extensions/task_force_radio_pipe/src/Voice/PlaybackMixer.cpp: runDeviceSession).
use task_force_radio_standal.Base.{
  ltb, ◌==◌, ltb→lt, ==_iff, Bool-cases, nat_eq, if_keeps, length, length-append, replicate,
  length-replicate, Text, ℕ, suc, ◌-◌, ◌*◌, ◌≤◌, ◌<◌, ◌≡◌, refl, ap, ◌∙◌, inl, inr, true, false,
  List, [], ◌∷◌, map, arith,
}
use task_force_radio_standal.Base.Int.{pos}
use task_force_radio_standal.Float.{Float}
use task_force_radio_standal.Geometry.{zero_f}
use task_force_radio_standal.Resource.Values.{Gives, >>=-Gives, >>-Gives, check-Gives, return-Gives}
use task_force_radio_standal.Voice.Device.{Format, is_float_format}
use task_force_radio_standal.Voice.Device.Loop.{Opening}
use task_force_radio_standal.Voice.Source.Mixdown.{Codec}
use task_force_radio_standal.Voice.Mixer.Device.{interleave, pcm_frame}
use task_force_radio_standal.Voice.Mixer.Session.{
  is_writable, open_playback, Written, reals, ints, unwritten, write_out, Filled,
}

-- A format that the loop can write, of a channel at least.
abbrev pub IsUsable : Format × Text → Type 0
IsUsable (format, name) = (is_writable format ≡ true) × (0 < format.channels)

pub open_playback-Gives : (o : Opening) → Gives IsUsable (open_playback o)
unfolding open_playback
open_playback-Gives o = >>-Gives _ (
    >>=-Gives _ λ name. >>-Gives _ (
      >>-Gives _ (
        >>-Gives _ (
          >>=-Gives _ λ format. check-Gives _ _ λ writable. >>-Gives _ (
            check-Gives _ _ λ some_channel. >>-Gives _ (
              >>-Gives _ (
                >>-Gives _ (
                  >>-Gives _
                    (>>-Gives _ (return-Gives _ (writable, ground (arith, some_channel))))))))))))

module _ (fl : Float) (codec : Codec fl) where
  open fl use {F}

  length-interleave {ℓ} :
      {A : Type ℓ} (silent : A) (channels : ℕ) (frames : List (A × A))
      → 0 < channels
      → length (interleave fl codec silent channels frames) ≡ length frames * channels
  unfolding interleave
  length-interleave silent channels [] h = omega arith
  length-interleave {A = A} silent channels ((left, right) ∷ frames) h =
      let rest = interleave fl codec silent channels frames in
      let ih = length-interleave silent channels frames h in
      if_keeps (λ (l : List A). length l ≡ suc (length frames) * channels) (ltb 1 channels)
        (λ wide.
          let more = length-append (replicate (channels - 2) silent) rest in
          let pad = length-replicate (channels - 2) silent in
          let two = ltb→lt 1 channels wide in omega (arith, ih, more, pad, two, h))
        (λ narrow. let one : channels ≤ 1 = ground (arith, narrow) in omega (arith, ih, one, h))

  -- `size` samples, in the format that the device asks for: reals for a device of floats, integers
  -- for another, which has samples of 16 bits.
  abbrev pub IsWritten : Format → ℕ → Written fl codec → Type 0
  IsWritten format size (reals xs) = (is_float_format format ≡ true) × (length xs ≡ size)
  IsWritten format size (ints xs) =
      (is_float_format format ≡ false) × (format.bits ≡ 16) × (length xs ≡ size)
  IsWritten format size unwritten = ⊥

  -- A buffer that is filled in whole: a sample for each channel of each frame.
  abbrev pub IsWhole : Format → Filled fl codec → Type 0
  IsWhole format (needed, written) = IsWritten format (needed * format.channels) written

  length-map {ℓ κ} :
      {A : Type ℓ} {B : Type κ} (f : A → B) (xs : List A) → length (map f xs) ≡ length xs
  length-map f [] = refl
  length-map f (x ∷ xs) = ap suc (length-map f xs)

  pub write_out-IsWhole :
      (format : Format) (frames : List (F × F))
      → is_writable format ≡ true
      → 0 < format.channels
      → IsWritten format (length frames * format.channels) (write_out fl codec format frames)
  unfolding write_out
  write_out-IsWhole format frames writable h = elim (Bool-cases (is_float_format format)) [
    | inl float ↦ rw float (float, length-interleave (zero_f fl) format.channels frames h)
    | inr short ↦
        let wide : (format.bits == 16) ≡ true = rw short at writable in
        let pairs = map (pcm_frame fl codec) frames in
        rw (short, wide)
          (
            short,
            ground (arith, ==_iff format.bits 16, wide),
            length-interleave (pos 0) format.channels pairs h
                ∙ ap (λ n. n * format.channels) (length-map (pcm_frame fl codec) frames),
          )
  ]
