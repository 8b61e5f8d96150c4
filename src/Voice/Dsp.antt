-- ===== src/Voice/Dsp.antt =====
-- The signal processing of received speech
-- (addon/extensions/task_force_radio_pipe/src/Voice/Dsp: BiquadFilter.h, BiquadFilter.cpp,
-- Panning.h). A filter's `process` over a buffer is a loop that carries its state. The effect chain
-- stands in Chain, its delay line in Delay.
pub mod Delay
pub mod Chain
pub mod Stages
use task_force_radio_standal.Base.{
  ltb, if◌then◌else◌, replicate, run_over, ℕ, Bool, true, false, List, [], ◌∷◌, map,
}
use task_force_radio_standal.Float.{Float}

pub data SourceEffect : Type 0 where
  direct sw lr airborne dd phone speaker intercom : SourceEffect

unfoldable pub effect_eq : SourceEffect → SourceEffect → Bool
effect_eq direct direct = true
effect_eq sw sw = true
effect_eq lr lr = true
effect_eq airborne airborne = true
effect_eq dd dd = true
effect_eq phone phone = true
effect_eq speaker speaker = true
effect_eq intercom intercom = true
effect_eq _ _ = false

pub record Biquad (fl : Float) : Type 0 where
  pub b0 : fl.D
  pub b1 : fl.D
  pub b2 : fl.D
  pub a1 : fl.D
  pub a2 : fl.D
  pub x1 : fl.D
  pub x2 : fl.D
  pub y1 : fl.D
  pub y2 : fl.D

module _ (fl : Float) where
  open fl use {
    F, decimal, add, mul, neg, sin, D, widen, narrow, d_decimal, d_neg, d_add, d_sub, d_mul, d_div,
    d_sin, d_cos,
  }

  abbrev whole_d : ℕ → D
  whole_d n = d_decimal n 0

  unfoldable pub new_biquad : D → D → D → D → D → D → Biquad fl
  new_biquad b0 b1 b2 a0 a1 a2 = record {
    b0 = d_div b0 a0;
    b1 = d_div b1 a0;
    b2 = d_div b2 a0;
    a1 = d_div a1 a0;
    a2 = d_div a2 a0;
    x1 = whole_d 0;
    x2 = whole_d 0;
    y1 = whole_d 0;
    y2 = whole_d 0;
  }

  -- `2 * kPi * f / sampleRate`
  abbrev angle_of : D → D → D
  angle_of sample_rate f =
      d_div (d_mul (d_mul (whole_d 2) (d_decimal 314159265358979323846 20)) f) sample_rate

  -- `sn / (2 * q)`
  abbrev alpha_of : D → D → D
  alpha_of sn q = d_div sn (d_mul (whole_d 2) q)

  unfoldable pub rbj_low_pass : D → D → D → Biquad fl
  unfolding new_biquad
  rbj_low_pass sample_rate cutoff q =
      let w0 = angle_of sample_rate cutoff in
      let cs = d_cos w0 in
      let al = alpha_of (d_sin w0) q in
      new_biquad (d_div (d_sub (whole_d 1) cs) (whole_d 2)) (d_sub (whole_d 1) cs)
        (d_div (d_sub (whole_d 1) cs) (whole_d 2)) (d_add (whole_d 1) al)
        (d_mul (d_neg (whole_d 2)) cs) (d_sub (whole_d 1) al)

  unfoldable pub rbj_high_pass : D → D → D → Biquad fl
  unfolding new_biquad
  rbj_high_pass sample_rate cutoff q =
      let w0 = angle_of sample_rate cutoff in
      let cs = d_cos w0 in
      let al = alpha_of (d_sin w0) q in
      new_biquad (d_div (d_add (whole_d 1) cs) (whole_d 2)) (d_neg (d_add (whole_d 1) cs))
        (d_div (d_add (whole_d 1) cs) (whole_d 2)) (d_add (whole_d 1) al)
        (d_mul (d_neg (whole_d 2)) cs) (d_sub (whole_d 1) al)

  unfoldable pub rbj_band_pass : D → D → D → Biquad fl
  unfolding new_biquad
  rbj_band_pass sample_rate center q =
      let w0 = angle_of sample_rate center in
      let cs = d_cos w0 in
      let sn = d_sin w0 in
      let al = alpha_of sn q in
      new_biquad (d_div sn (whole_d 2)) (whole_d 0) (d_div (d_neg sn) (whole_d 2))
        (d_add (whole_d 1) al) (d_mul (d_neg (whole_d 2)) cs) (d_sub (whole_d 1) al)

  unfoldable pub biquad_reset : Biquad fl → Biquad fl
  biquad_reset s = record s { x1 = whole_d 0; x2 = whole_d 0; y1 = whole_d 0; y2 = whole_d 0 }

  -- One sample.
  unfoldable pub biquad_step : F → Biquad fl → F × Biquad fl
  biquad_step input s =
      let x0 = widen input in
      let y0 =
        d_sub
          (d_sub (d_add (d_add (d_mul s.b0 x0) (d_mul s.b1 s.x1)) (d_mul s.b2 s.x2))
            (d_mul s.a1 s.y1))
          (d_mul s.a2 s.y2) in
      (narrow y0, record s { x2 = s.x1; x1 = x0; y2 = s.y1; y1 = y0 })

  unfoldable pub biquad_process : List F → Biquad fl → List F × Biquad fl
  unfolding biquad_step run_over
  biquad_process = run_over biquad_step

  unfoldable pub cascade_band_pass : D → D → D → ℕ → List (Biquad fl)
  unfolding rbj_band_pass replicate
  cascade_band_pass sample_rate center bandwidth order =
      let count = if ltb 1 order then order else 1 in
      replicate count (rbj_band_pass sample_rate center (d_div center bandwidth))

  unfoldable pub cascade_reset : List (Biquad fl) → List (Biquad fl)
  unfolding biquad_reset
  cascade_reset = map biquad_reset

  -- The whole buffer through one stage after the other.
  unfoldable pub cascade_process : List F → List (Biquad fl) → List F × List (Biquad fl)
  unfolding biquad_process
  cascade_process buffer [] = (buffer, [])
  cascade_process buffer (stage ∷ stages) =
      let (buffer', stage') = biquad_process buffer stage in
      let (out, stages') = cascade_process buffer' stages in (out, stage' ∷ stages')

  unfoldable pub panning : F → F × F
  panning azimuth =
      let s = sin azimuth in
      (
        add (mul (neg (decimal 37525 5)) s) (decimal 625 3),
        add (mul (decimal 37525 5) s) (decimal 625 3),
      )
