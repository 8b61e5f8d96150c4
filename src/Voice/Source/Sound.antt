-- ===== src/Voice/Source/Sound.antt =====
-- The sound of a cue over a voice
-- (addon/extensions/task_force_radio_pipe/src/Voice/RemoteVoiceSource.cpp: render).
use Prim.Native.Nat.{min}
use task_force_radio_standal.Base.{
  leb, Bool-cases, if_keeps, take, drop, ℕ, zero, suc, ◌+◌, ◌-◌, ◌≡◌, refl, sym, ap, ◌∙◌, inl, inr,
  some, List, [], ◌∷◌, arith,
}
use task_force_radio_standal.Base.Int.{ℤ}
use task_force_radio_standal.Float.{Float}
use task_force_radio_standal.Voice.Source.{RemoteSourceState, BeepClip, Source, channel_gains}
use task_force_radio_standal.Voice.Source.Mixdown.{Codec, of_short, clamp_sample}
use task_force_radio_standal.Voice.Source.Render.{overlay, mix_clip, mix_heard}

module _ (fl : Float) (codec : Codec fl) where
  open fl use {F, add, mul}

  -- Mono sounds over the front of a stereo buffer, with a gain for each side; behind them it stays.
  abbrev pub with_sounds : F × F → List F → List F → List F
  with_sounds gains (sound ∷ sounds) (left ∷ right ∷ out) =
      clamp_sample fl (add left (mul sound gains.0))
      ∷ clamp_sample fl (add right (mul sound gains.1))
      ∷ with_sounds gains sounds out
  with_sounds gains sounds out = out

  -- `count` sounds of a sampled one, from `at` on.
  abbrev pub sounds_from : (ℕ → ℤ) → ℕ → ℕ → List F
  sounds_from sample at zero = []
  sounds_from sample at (suc count) = of_short fl (sample at) ∷ sounds_from sample (at + 1) count

  -- A clip from its start to its end.
  abbrev pub clip_sounds : BeepClip → List F
  clip_sounds clip = sounds_from (codec.clip_sample clip) 0 clip.count

  overlay-with_sounds :
      (sample : ℕ → ℤ) (gains : F × F) (at count : ℕ) (out : List F)
      → overlay fl codec sample gains at count out
        ≡ with_sounds gains (sounds_from sample at count) out
  unfolding overlay
  overlay-with_sounds sample gains at zero [] = refl
  overlay-with_sounds sample gains at zero (left ∷ []) = refl
  overlay-with_sounds sample gains at zero (left ∷ right ∷ out) = refl
  overlay-with_sounds sample gains at (suc count) [] = refl
  overlay-with_sounds sample gains at (suc count) (left ∷ []) = refl
  overlay-with_sounds sample gains at (suc count) (left ∷ right ∷ out) =
      let s = of_short fl (sample at) in
      ap
        (λ l.
          clamp_sample fl (add left (mul s gains.0))
          ∷ clamp_sample fl (add right (mul s gains.1))
          ∷ l)
        (overlay-with_sounds sample gains (at + 1) count out)

  no_sounds : (gains : F × F) (out : List F) → with_sounds gains [] out ≡ out
  no_sounds gains [] = refl
  no_sounds gains (left ∷ []) = refl
  no_sounds gains (left ∷ right ∷ out) = refl

  take-sounds_from :
      (sample : ℕ → ℤ) (n at count : ℕ)
      → take n (sounds_from sample at count) ≡ sounds_from sample at (min n count)
  take-sounds_from sample zero at zero = refl
  take-sounds_from sample zero at (suc count) =
      let no_more : min 0 (suc count) ≡ 0 = omega arith in rw no_more refl
  take-sounds_from sample (suc n) at zero =
      let none_there : min (suc n) 0 ≡ 0 = omega arith in rw none_there refl
  take-sounds_from sample (suc n) at (suc count) =
      let fewer : min (suc n) (suc count) ≡ suc (min n count) = omega arith in
      rw fewer (ap (λ l. of_short fl (sample at) ∷ l) (take-sounds_from sample n (at + 1) count))

  drop-sounds_from :
      (sample : ℕ → ℤ) (n at count : ℕ)
      → drop n (sounds_from sample at count) ≡ sounds_from sample (at + n) (count - n)
  drop-sounds_from sample zero at count =
      let same : at + 0 ≡ at = omega arith in
      let all_left : count - 0 ≡ count = omega arith in rw (same, all_left) refl
  drop-sounds_from sample (suc n) at zero =
      let none_there : 0 - suc n ≡ 0 = omega arith in rw none_there refl
  drop-sounds_from sample (suc n) at (suc count) =
      drop-sounds_from sample n (at + 1) count
      ∙ ap (λ (a : ℕ). sounds_from sample a (count - n)) (omega arith)
      ∙ ap (λ (c : ℕ). sounds_from sample (at + suc n) c) (omega arith)

  -- Past its end, nothing of a clip is left.
  pub drop-clip_sounds :
      (clip : BeepClip) (n : ℕ)
      → drop (min clip.count n) (clip_sounds clip) ≡ drop n (clip_sounds clip)
  drop-clip_sounds clip n =
      let sample = codec.clip_sample clip in
      elim (Bool-cases (leb n clip.count)) [
        | inl within ↦ let same : min clip.count n ≡ n = ground (arith, within) in rw same refl
        | inr behind ↦
            let same : min clip.count n ≡ clip.count = ground (arith, behind) in
            let none_left : clip.count - clip.count ≡ 0 = omega arith in
            let none_there : clip.count - n ≡ 0 = ground (arith, behind) in
            let left = drop-sounds_from sample clip.count 0 clip.count in
            let there = drop-sounds_from sample n 0 clip.count in
            rw (same, left, there, none_left, none_there) refl
      ]

  -- What a callback plays of a cue that has come to `at`, as a piece of the whole clip.
  pub mix_heard_sound :
      (clip : BeepClip) (p : RemoteSourceState fl) (at n : ℕ) (out : List F) (s : Source fl)
      → s.beep_pos ≡ at
      → (mix_heard fl codec (some clip) (some p) n out s).0
        ≡ with_sounds (channel_gains fl p) (take n (drop at (clip_sounds clip))) out
  unfolding mix_heard mix_clip
  mix_heard_sound clip p at n out s pos_is =
      let sample = codec.clip_sample clip in
      let piece : take n (drop at (clip_sounds clip))
          ≡ sounds_from sample at (min n (clip.count - at)) =
        ap (take n) (drop-sounds_from sample at 0 clip.count)
        ∙ take-sounds_from sample n (0 + at) (clip.count - at)
        ∙ ap (λ (a : ℕ). sounds_from sample a (min n (clip.count - at))) (omega arith) in
      rw (pos_is, piece)
        (if_keeps {A = List F × Source fl}
          (λ r.
            r.0
            ≡ with_sounds (channel_gains fl p) (sounds_from sample at (min n (clip.count - at)))
                out)
          (leb clip.count at)
          (λ ended.
            let none_left : min n (clip.count - at) ≡ 0 = ground (arith, ended) in
            rw none_left (sym (no_sounds (channel_gains fl p) out)))
          (λ _. overlay-with_sounds sample (channel_gains fl p) at (min n (clip.count - at)) out))
