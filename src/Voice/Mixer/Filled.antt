-- ===== src/Voice/Mixer/Filled.antt =====
-- What the audio device is given
-- (addon/extensions/task_force_radio_pipe/src/Voice/PlaybackMixer.cpp: generateChunkLocked, and
-- runDeviceSession under the lock).
use Prim.Native.Nat.{min}
use task_force_radio_standal.Base.{
  ltb, leb, nat_eq, if_keeps, length, get_elem?, All, length-append, replicate, length-replicate, ℕ,
  zero, suc, ◌+◌, ◌-◌, ◌*◌, ◌/◌, ◌<◌, ◌≡◌, refl, ap, ◌∙◌, true, false, ◌&&◌, Option, none, some,
  List, [], ◌∷◌, ◌++◌, map, arith,
}
use task_force_radio_standal.Base.Int.{ℤ}
use task_force_radio_standal.Base.Map.{Map}
use task_force_radio_standal.Float.{Float}
use task_force_radio_standal.Geometry.{zero_f}
use task_force_radio_standal.Voice.Dsp.Chain.Frame.{length-map}
use task_force_radio_standal.Voice.Source.{BeepClip, Source, frame_samples, stereo_samples}
use task_force_radio_standal.Voice.Source.Mixdown.{Codec}
use task_force_radio_standal.Voice.Source.Render.{render}
use task_force_radio_standal.Voice.Source.Rendered.{IsFramed, render-IsRendered}
use task_force_radio_standal.Voice.Mixer.{Mixer, set_muted}
use task_force_radio_standal.Voice.Mixer.Chunk.{
  add_all, render_all, overlay_centered, mix_local, limit, generate_chunk,
}
use task_force_radio_standal.Voice.Mixer.Device.{
  top_up, between, read_frame, advance, fill_frames, drop_consumed, fill_device,
}

get_elem?-some {ℓ} :
    {A : Type ℓ} (xs : List A) (i : ℕ) → i < length xs → (x : A) × (get_elem? xs i ≡ some x)
get_elem?-some [] i h = absurd (omega arith)
get_elem?-some (x ∷ xs) zero h = (x, refl)
get_elem?-some (x ∷ xs) (suc i) h = get_elem?-some xs i (omega arith)

module _ (fl : Float) (codec : Codec fl) where
  open fl use {F, D, d_trunc}

  -- Every source gives whole frames.
  unfoldable pub IsMixable : Mixer fl → Type 0
  IsMixable m = All (λ e. IsFramed fl e.1) m.sources

  length-add_all : (mix scratch : List F) → length (add_all fl codec mix scratch) ≡ length mix
  unfolding add_all
  length-add_all [] scratch = refl
  length-add_all (x ∷ mix) [] = refl
  length-add_all (x ∷ mix) (y ∷ scratch) = ap suc (length-add_all mix scratch)

  length-overlay_centered :
      (sample : ℕ → ℤ) (at count : ℕ) (mix : List F)
      → length (overlay_centered fl codec sample at count mix) ≡ length mix
  unfolding overlay_centered
  length-overlay_centered sample at zero mix = refl
  length-overlay_centered sample at (suc count) [] = refl
  length-overlay_centered sample at (suc count) (left ∷ []) = refl
  length-overlay_centered sample at (suc count) (left ∷ right ∷ mix) =
      ap (λ n. suc (suc n)) (length-overlay_centered sample (at + 1) count mix)

  length-mix_local :
      (clip : Option BeepClip) (at : ℕ) (mix : List F)
      → length (mix_local fl codec clip at mix).0 ≡ length mix
  unfolding mix_local
  length-mix_local none at mix = refl
  length-mix_local (some clip) at mix =
      if_keeps {A = List F × ℕ} (λ r. length r.0 ≡ length mix) (ltb at clip.count)
        (λ _.
          length-overlay_centered (codec.clip_sample clip) at (min frame_samples (clip.count - at))
            mix)
        (λ _. refl)

  render_all-keeps :
      (sources : Map ℕ (Source fl)) (mix : List F)
      → All (λ e. IsFramed fl e.1) sources
      → (length (render_all fl codec sources mix).0 ≡ length mix)
        × All (λ e. IsFramed fl e.1) (render_all fl codec sources mix).1
  unfolding render_all
  render_all-keeps [] mix h = (refl, tt)
  render_all-keeps ((session_id, source) ∷ sources) mix h =
      let rendered = render fl codec frame_samples source in
      let rest = render_all-keeps sources (add_all fl codec mix rendered.0) h.1 in
      (
        rest.0 ∙ length-add_all mix rendered.0,
        ((render-IsRendered fl codec frame_samples source h.0).1, rest.1),
      )

  -- A chunk is 960 stereo frames.
  pub generate_chunk-appends :
      (m : Mixer fl)
      → IsMixable m
      → (length (generate_chunk fl codec m).mixed_48k ≡ length m.mixed_48k + 1920)
        × IsMixable (generate_chunk fl codec m)
  unfolding generate_chunk IsMixable
  generate_chunk-appends m h =
      let voices = render_all fl codec m.sources (replicate stereo_samples (zero_f fl)) in
      let (long, framed) = render_all-keeps m.sources (replicate stereo_samples (zero_f fl)) h in
      let mix = mix_local fl codec m.local_beep m.local_beep_pos voices.0 in
      let limited = map (limit fl codec m.master_volume m.is_muted) mix.0 in
      (
        omega (
          arith,
          long,
          length-append m.mixed_48k limited,
          length-map (limit fl codec m.master_volume m.is_muted) mix.0,
          length-mix_local m.local_beep m.local_beep_pos voices.0,
          length-replicate 1920 (zero_f fl),
        ),
        framed,
      )

  all_silent :
      (volume : F) (xs : List F)
      → map (limit fl codec volume true) xs ≡ replicate (length xs) (zero_f fl)
  unfolding limit replicate
  all_silent volume [] = refl
  all_silent volume (x ∷ xs) = ap (λ l. zero_f fl ∷ l) (all_silent volume xs)

  -- Where every source gives whole frames, a muted mixer appends a chunk of silence, 1920 zeros,
  -- and the sources and our own cue move on as if it were not muted.
  muted_chunk_is_silent :
      (m : Mixer fl)
      → IsMixable m
      → let quiet = generate_chunk fl codec (set_muted fl true m) in
        let loud = generate_chunk fl codec (set_muted fl false m) in
        (quiet.mixed_48k ≡ m.mixed_48k ++ replicate 1920 (zero_f fl))
        × (quiet.sources ≡ loud.sources)
        × (quiet.local_beep_pos ≡ loud.local_beep_pos)
  unfolding generate_chunk set_muted IsMixable
  muted_chunk_is_silent m h =
      let voices = render_all fl codec m.sources (replicate stereo_samples (zero_f fl)) in
      let long = (render_all-keeps m.sources (replicate stereo_samples (zero_f fl)) h).0 in
      let mix = mix_local fl codec m.local_beep m.local_beep_pos voices.0 in
      let size : length mix.0 ≡ 1920 =
        length-mix_local m.local_beep m.local_beep_pos voices.0
        ∙ long
        ∙ length-replicate 1920 (zero_f fl) in
      (
        ap (λ l. m.mixed_48k ++ l)
            (all_silent m.master_volume mix.0 ∙ ap (λ n. replicate n (zero_f fl)) size),
        refl,
        refl,
      )

  -- Enough of the mix is there to read the frame at the cursor.
  IsReadable : Mixer fl → Type 0
  IsReadable m = d_trunc m.resample_cursor + 1 < length m.mixed_48k / 2

  top_up-IsReadable :
      (fuel : ℕ) (m : Mixer fl)
      → IsMixable m
      → d_trunc m.resample_cursor + 1 < length m.mixed_48k / 2 + 960 * fuel
      → IsReadable (top_up fl codec fuel m) × IsMixable (top_up fl codec fuel m)
  unfolding top_up
  top_up-IsReadable zero m h enough = unfold IsReadable in (omega arith, h)
  top_up-IsReadable (suc fuel) m h enough =
      let (longer, h') = generate_chunk-appends m h in
      let same : (generate_chunk fl codec m).resample_cursor ≡ m.resample_cursor =
        unfold generate_chunk in refl in
      if_keeps (λ r. IsReadable r × IsMixable r)
        (leb (length m.mixed_48k / 2) (d_trunc m.resample_cursor + 1))
        (λ short.
          top_up-IsReadable fuel (generate_chunk fl codec m) h'
            (omega (arith, longer, ap d_trunc same)))
        (λ enough'. unfold IsReadable in (ground arith, h))

  read_frame-some :
      (m : Mixer fl) → IsReadable m → (frame : F × F) × (read_frame fl codec m ≡ some frame)
  unfolding read_frame IsReadable
  read_frame-some m h =
      let place = d_trunc m.resample_cursor in
      let (x, ex) = get_elem?-some m.mixed_48k (place * 2) (omega arith) in
      let (x', ex') = get_elem?-some m.mixed_48k (place * 2 + 2) (omega arith) in
      let (y, ey) = get_elem?-some m.mixed_48k (place * 2 + 1) (omega arith) in
      let (y', ey') = get_elem?-some m.mixed_48k (place * 2 + 2 + 1) (omega arith) in
      let frac = fl.d_sub m.resample_cursor (fl.d_of_nat place) in
      (
        (between fl codec frac x x', between fl codec frac y y'),
        rw (ex, read_frame) (rw (ex', ey, ey') refl),
      )

  -- So many frames were read.
  IsFilled : ℕ → Option (List (F × F) × Mixer fl) → Type 0
  IsFilled n o =
      (frames : List (F × F)) × (m : Mixer fl) × (o ≡ some (frames, m))
      × (length frames ≡ n)
      × IsMixable m

  fill_frames-IsFilled :
      (step : D) (n : ℕ) (m : Mixer fl) → IsMixable m → IsFilled n (fill_frames fl codec step n m)
  unfolding fill_frames IsFilled
  fill_frames-IsFilled step zero m h = ([], m, refl, refl, h)
  fill_frames-IsFilled step (suc n) m h =
      let m' = top_up fl codec (d_trunc m.resample_cursor + 2) m in
      let (readable, h') = top_up-IsReadable (d_trunc m.resample_cursor + 2) m h (omega arith) in
      let (frame, read) = read_frame-some m' readable in
      let (frames, m'', rest, size, h'') =
        fill_frames-IsFilled step n (advance fl codec step m') (unfold IsMixable in h') in
      (frame ∷ frames, m'', rw (read, fill_frames) (rw rest refl), ap suc size, h'')

  drop_consumed-IsMixable : (m : Mixer fl) → IsMixable m → IsMixable (drop_consumed fl codec m)
  unfolding drop_consumed IsMixable
  drop_consumed-IsMixable m h =
      if_keeps (λ (r : Mixer fl). All (λ e. IsFramed fl e.1) r.sources)
        (ltb 0 (d_trunc m.resample_cursor)
          && leb (d_trunc m.resample_cursor * 2) (length m.mixed_48k))
        (λ _. h) (λ _. h)

  -- Where every source gives whole frames, the device gets every frame that it needs, whatever the
  -- rate and the cursor: the loop that tops up the mix ends, no read leaves the mix, and the sources
  -- stay so.
  pub fill_device-total :
      (step : D) (needed : ℕ) (m : Mixer fl)
      → IsMixable m
      → (frames : List (F × F)) × (m' : Mixer fl) × (fill_device fl codec step needed m
          ≡ some (frames, m'))
        × (length frames ≡ needed)
        × IsMixable m'
  unfolding fill_device IsFilled
  fill_device-total step needed m h =
      let (frames, m', filled, size, h') = fill_frames-IsFilled step needed m h in
      (
        frames,
        drop_consumed fl codec m',
        rw (filled, fill_device) refl,
        size,
        drop_consumed-IsMixable m' h',
      )
