-- ===== src/Voice/Source/Mixdown.antt =====
-- The stereo frame of a decoded one
-- (addon/extensions/task_force_radio_pipe/src/Voice/RemoteVoiceSource.cpp: chainForPath and the end
-- of tryProduceNextFrame; Voice/OpusCodec.cpp: the decoder).
use task_force_radio_standal.Base.{
  ◌==◌, if◌then◌else◌, length, take, replicate, ℕ, zero, suc, Option, none, some, List, [], ◌∷◌,
  map,
}
use task_force_radio_standal.Base.Int.{ℤ, pos}
use task_force_radio_standal.Float.{Float}
use task_force_radio_standal.Geometry.{zero_f, one_f}
use task_force_radio_standal.Voice.Dsp.{SourceEffect, effect_eq}
use task_force_radio_standal.Voice.Dsp.Chain.{Chain, new_chain, chain_process}
use task_force_radio_standal.Voice.Source.{
  RemoteSourceState, BeepClip, Decoded, Source, frame_samples, stereo_samples, channel_gains,
}

-- What the playback takes from outside the sources' text: the codec, the library's random engines,
-- and the tables of samples. `opus_decode` answers the last of the calls made of it, `none` where
-- there is no decoder or it reports an error. `draws` are those of the engine that is seeded for a
-- session's chain, which is told by the number of decoder calls and the slot.
pub record Codec (fl : Float) : Type 0 where
  pub opus_decode : List Decoded → Option (List ℤ)
  pub draws : ℕ → ℕ → ℕ → ℕ → fl.D
  pub clip_sample : BeepClip → ℕ → ℤ

module _ (fl : Float) where
  open fl use {F, decimal, of_int, lt, add, mul, div, neg, D}

  -- The decoded samples; silence where the codec does not give a whole frame.
  unfoldable pub decoded_shorts : Codec fl → List Decoded → List ℤ
  unfolding replicate
  decoded_shorts codec calls = elim (codec.opus_decode calls) [
    | none ↦ replicate frame_samples (pos 0)
    | some pcm ↦ if length pcm == frame_samples then pcm else replicate frame_samples (pos 0)
  ]

  -- `sample / 32768.0f`
  abbrev pub of_short : ℤ → F
  of_short sample = div (of_int sample) (decimal 32768 0)

  -- The chain in a slot, made or rebuilt where the slot carries another effect.
  unfoldable pub chain_in : SourceEffect → (ℕ → D) → Option (Chain fl) → Chain fl
  unfolding effect_eq
  chain_in effect draws none = new_chain fl effect draws
  chain_in effect draws (some c) =
      if effect_eq c.effect effect then c else new_chain fl effect draws

  -- A use of the chain in slot `index`; the slots are grown as far as needed.
  unfoldable pub with_slot :
      ℕ
      → (Option (Chain fl) → List F × Chain fl)
      → List (Option (Chain fl))
      → List F × List (Option (Chain fl))
  with_slot zero f [] = let (out, c) = f none in (out, some c ∷ [])
  with_slot zero f (slot ∷ cs) = let (out, c) = f slot in (out, some c ∷ cs)
  with_slot (suc i) f [] = let (out, cs) = with_slot i f [] in (out, none ∷ cs)
  with_slot (suc i) f (slot ∷ cs) = let (out, cs') = with_slot i f cs in (out, slot ∷ cs')

  -- `chainForPath(p, effect).process(...)` on a copy of the frame.
  unfoldable pub run_path :
      (ℕ → ℕ → D)
      → ℕ
      → RemoteSourceState fl
      → List F
      → List (Option (Chain fl))
      → List F × List (Option (Chain fl))
  unfolding chain_in with_slot
  run_path draws index p mono =
      with_slot index
        (λ slot. chain_process fl mono p.error_level (chain_in p.effect (draws index) slot))

  -- The samples of one path, added to an interleaved frame.
  unfoldable pub add_stereo : F × F → List F → List F → List F
  add_stereo gains (x ∷ xs) (left ∷ right ∷ acc) =
      add left (mul x gains.0) ∷ add right (mul x gains.1) ∷ add_stereo gains xs acc
  add_stereo gains _ acc = acc

  -- The loop over the paths, from path `index` on.
  unfoldable pub mix_paths :
      (ℕ → ℕ → D)
      → ℕ
      → List F
      → List (RemoteSourceState fl)
      → List (Option (Chain fl))
      → List F
      → List F × List (Option (Chain fl))
  unfolding run_path add_stereo
  mix_paths draws index mono [] cs acc = (acc, cs)
  mix_paths draws index mono (p ∷ ps) cs acc =
      let (scratch, cs') = run_path draws index p mono cs in
      mix_paths draws (suc index) mono ps cs' (add_stereo (channel_gains fl p) scratch acc)

  -- `std::clamp(sample, -1.0f, 1.0f)`
  unfoldable pub clamp_sample : F → F
  clamp_sample x =
      if lt x (neg (one_f fl)) then neg (one_f fl) else if lt (one_f fl) x then one_f fl else x

  -- The decoder's call and the mix over the paths; slots of paths that are gone are dropped.
  unfoldable pub mix_frame : Codec fl → Decoded → Source fl → Source fl
  unfolding mix_paths decoded_shorts replicate
  mix_frame codec d s =
      let calls = d ∷ s.decoder in
      let mono = map of_short (decoded_shorts codec calls) in
      let (mixed, cs) =
        mix_paths (codec.draws s.session_id (length calls)) 0 mono s.render_states s.chains
          (replicate stereo_samples (zero_f fl)) in
      record s {
        decoder = calls;
        stereo_frame = map clamp_sample mixed;
        chains = take (length s.render_states) cs;
      }
