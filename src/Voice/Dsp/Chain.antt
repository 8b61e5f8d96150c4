-- ===== src/Voice/Dsp/Chain.antt =====
-- The effect chain of a path
-- (addon/extensions/task_force_radio_pipe/src/Voice/Dsp/RadioEffectChain.h and
-- RadioEffectChain.cpp). The random engine of a chain is the sequence of its draws, which the
-- library makes, and the number of those that have been taken.
pub mod Frame
use task_force_radio_standal.Base.{
  ltb, if◌then◌else◌, length, get_or, run_over, ℕ, ◌+◌, ◌||◌, Option, none, some, List, [], ◌∷◌,
  map,
}
use task_force_radio_standal.Base.Int.{pos, pos_part, ltb_ℤ}
use task_force_radio_standal.Float.{Float}
use task_force_radio_standal.Geometry.{zero_f, one_f, kpi}
use task_force_radio_standal.Voice.Dsp.{
  SourceEffect, direct, sw, lr, airborne, dd, phone, speaker, intercom, Biquad, rbj_low_pass,
  rbj_high_pass, biquad_process, cascade_band_pass, cascade_process,
}
use task_force_radio_standal.Voice.Dsp.Delay.{DelayLine, delay, new_delay}
use mathlib.Core.List.{foldl}

pub record Chain (fl : Float) : Type 0 where
  pub effect : SourceEffect
  pub high_pass : Option (Biquad fl)
  pub low_pass : Option (Biquad fl)
  pub band_pass : Option (List (Biquad fl))
  pub delay_line : DelayLine fl
  pub ring_phase : fl.F
  pub draws : ℕ → fl.D
  pub drawn : ℕ

module _ (fl : Float) where
  open fl use {
    F, decimal, of_int, lt, add, sub, mul, div, neg, sin, fabs, fmod, trunc, D, widen, d_decimal,
    d_lt,
  }

  abbrev rate : D
  rate = d_decimal 48000 0

  abbrev whole_d : ℕ → D
  whole_d n = d_decimal n 0

  -- A chain with no filter.
  abbrev bare : SourceEffect → (ℕ → D) → Chain fl
  bare effect draws = record {
    effect = effect;
    high_pass = none;
    low_pass = none;
    band_pass = none;
    delay_line = new_delay fl;
    ring_phase = zero_f fl;
    draws = draws;
    drawn = 0;
  }

  abbrev with_pair : Biquad fl → Biquad fl → Chain fl → Chain fl
  with_pair high low c = record c { high_pass = some high; low_pass = some low }

  abbrev with_band : List (Biquad fl) → Chain fl → Chain fl
  with_band band c = record c { band_pass = some band }

  unfoldable pub new_chain : SourceEffect → (ℕ → D) → Chain fl
  new_chain sw draws =
      with_pair (rbj_high_pass fl rate (whole_d 900) (d_decimal 85 2))
        (rbj_low_pass fl rate (whole_d 3000) (whole_d 2)) (bare sw draws)
  new_chain lr draws =
      with_pair (rbj_high_pass fl rate (whole_d 520) (d_decimal 97 2))
        (rbj_low_pass fl rate (whole_d 1300) (whole_d 1)) (bare lr draws)
  new_chain intercom draws =
      with_pair (rbj_high_pass fl rate (whole_d 520) (d_decimal 97 2))
        (rbj_low_pass fl rate (whole_d 1300) (whole_d 1)) (bare intercom draws)
  new_chain airborne draws =
      with_pair (rbj_high_pass fl rate (whole_d 1000) (whole_d 1))
        (rbj_low_pass fl rate (whole_d 4000) (whole_d 1)) (bare airborne draws)
  new_chain dd draws =
      with_band (cascade_band_pass fl rate (whole_d 1000) (whole_d 400) 2) (bare dd draws)
  new_chain phone draws =
      with_band (cascade_band_pass fl rate (whole_d 1850) (whole_d 1550) 2) (bare phone draws)
  new_chain speaker draws =
      with_band (cascade_band_pass fl rate (whole_d 2000) (whole_d 1000) 1) (bare speaker draws)
  new_chain direct draws = bare direct draws

  -- `kErrorLevels`
  abbrev pub error_levels : List F
  error_levels =
      decimal 0 0
      ∷ decimal 150000006 9
      ∷ decimal 300000012 9
      ∷ decimal 600000024 9
      ∷ decimal 899999976 9
      ∷ decimal 950000048 9
      ∷ decimal 960000038 9
      ∷ decimal 970000029 9
      ∷ decimal 980000019 9
      ∷ decimal 995000005 9
      ∷ decimal 997799993 9
      ∷ decimal 998799993 9
      ∷ decimal 99999 5
      ∷ []

  -- The segment of the table that an error level falls in.
  unfoldable pub error_part : F → ℕ
  error_part level =
      let part = trunc (mul level (decimal 10 0)) in
      if ltb_ℤ part (pos 0) then 0 else if ltb_ℤ (pos 11) part then 11 else pos_part part

  unfoldable pub calc_error_level : F → F
  unfolding error_part
  calc_error_level level =
      let part = error_part level in
      let from = get_or error_levels part (zero_f fl) in
      let to = get_or error_levels (part + 1) (zero_f fl) in
      add from (mul (sub to from) (sub level (div (of_int (pos part)) (decimal 10 0))))

  unfoldable pub foldback : F → F → F
  foldback threshold input =
      if lt threshold (decimal 1 5)
      then zero_f fl
      else if lt threshold input || lt input (neg threshold)
      then sub
          (fabs (
            sub (fabs (fmod (sub input threshold) (mul threshold (decimal 4 0))))
              (mul threshold (decimal 2 0))))
          threshold
      else input

  unfoldable pub ring_modulation : F → F → Chain fl → F × Chain fl
  ring_modulation mix input c =
      let modulated = mul input (sin (div (mul c.ring_phase (kpi fl)) (decimal 2 0))) in
      let phase = add c.ring_phase (div (decimal 90 0) (of_int (pos 48000))) in
      (
        add (mul input (sub (one_f fl) mix)) (mul modulated mix),
        record c { ring_phase = if lt (one_f fl) phase then zero_f fl else phase },
      )

  -- `ringModulation(delay(sample * 30.0f), errorLevel)`
  unfoldable pub modulate : F → F → Chain fl → F × Chain fl
  unfolding ring_modulation
  modulate level sample c =
      let (delayed, delay_line) = delay fl (mul sample (decimal 30 0)) c.delay_line in
      ring_modulation level delayed (record c { delay_line = delay_line })

  unfoldable pub filter_by : List F → Option (Biquad fl) → List F × Option (Biquad fl)
  filter_by buffer none = (buffer, none)
  filter_by buffer (some stage) =
      let (out, stage') = biquad_process fl buffer stage in (out, some stage')

  unfoldable pub cascade_by :
      List F → Option (List (Biquad fl)) → List F × Option (List (Biquad fl))
  cascade_by buffer none = (buffer, none)
  cascade_by buffer (some stages) =
      let (out, stages') = cascade_process fl buffer stages in (out, some stages')

  -- The threshold over which samples are folded back: three tenths of what is left of the error,
  -- scaled by the mean size of the samples.
  unfoldable pub fold_threshold : List F → F → F
  fold_threshold buffer level =
      let sum = foldl (λ acc sample. add acc (fabs sample)) (zero_f fl) buffer in
      let avg =
        if ltb 0 (length buffer) then div sum (of_int (pos (length buffer))) else zero_f fl in
      mul (mul (decimal 3 1) (sub (one_f fl) level)) (div avg (decimal 5 3))

  unfoldable pub process_distorted : List F → F → Chain fl → List F × Chain fl
  unfolding modulate filter_by foldback
  process_distorted buffer raw_level c =
      let level = calc_error_level raw_level in
      let folded = map (foldback (fold_threshold buffer level)) buffer in
      let (modulated, c') = run_over (modulate level) folded c in
      let (high, high_pass) = filter_by modulated c'.high_pass in
      let (low, low_pass) = filter_by high c'.low_pass in
      (low, record c' { high_pass = high_pass; low_pass = low_pass })

  -- A sample of a diver's radio is lost when the draw falls below the error level.
  unfoldable pub drop_sample : F → F → ℕ × (ℕ → D) → F × (ℕ × (ℕ → D))
  drop_sample level sample (drawn, draws) =
      (if d_lt (draws drawn) (widen level) then zero_f fl else sample, (drawn + 1, draws))

  unfoldable pub process_diver : List F → F → Chain fl → List F × Chain fl
  unfolding drop_sample cascade_by
  process_diver buffer level c =
      let (kept, rng) = run_over (drop_sample level) buffer (c.drawn, c.draws) in
      let (out, band_pass) = cascade_by kept c.band_pass in
      (
        map (λ sample. mul sample (decimal 30 0)) out,
        record c { drawn = rng.0; band_pass = band_pass },
      )

  unfoldable pub process_band : List F → Chain fl → List F × Chain fl
  unfolding cascade_by
  process_band buffer c =
      let (out, band_pass) = cascade_by buffer c.band_pass in
      (out, record c { band_pass = band_pass })

  unfoldable pub process_by : SourceEffect → List F → F → Chain fl → List F × Chain fl
  unfolding process_distorted process_diver process_band
  process_by direct buffer level c = (buffer, c)
  process_by dd buffer level c = process_diver buffer level c
  process_by phone buffer level c = process_band buffer c
  process_by speaker buffer level c = process_band buffer c
  process_by sw buffer level c = process_distorted buffer level c
  process_by lr buffer level c = process_distorted buffer level c
  process_by airborne buffer level c = process_distorted buffer level c
  process_by intercom buffer level c = process_distorted buffer level c

  unfoldable pub chain_process : List F → F → Chain fl → List F × Chain fl
  unfolding process_by
  chain_process buffer level c = process_by c.effect buffer level c
