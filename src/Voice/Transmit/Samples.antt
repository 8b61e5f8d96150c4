-- ===== src/Voice/Transmit/Samples.antt =====
-- The samples of a captured frame
-- (addon/extensions/task_force_radio_pipe/src/Voice/TransmitController.cpp: onFrameCaptured;
-- Voice/Dsp/NoiseSuppressor.cpp; Voice/OpusCodec.cpp: the encoder).
use task_force_radio_standal.Base.{
  if◌then◌else◌, take, drop, replicate, Text, is_empty, ℕ, Bool, Option, none, some, List, ◌++◌,
  map,
}
use task_force_radio_standal.Base.Int.{ℤ, pos}
use task_force_radio_standal.Float.{Float}
use task_force_radio_standal.Geometry.{one_f}
use task_force_radio_standal.Voice.Source.{frame_samples}
use task_force_radio_standal.Voice.Transmit.{CapturedFrame, Transmit, on_frame_captured}
use mathlib.Core.List.{foldl}

-- The libraries: RNNoise on half a frame, with its state, and the codec on a frame, `none` where it
-- reports an error.
pub record MicTools (fl : Float) (R : Type 0) : Type 0 where
  pub rnnoise_process_frame : R → List fl.F → List fl.F × R
  pub opus_encode : List ℤ → Option Text

module _ (fl : Float) {R : Type 0} (tools : MicTools fl R) where
  open fl use {
    F, decimal, of_int, lt, mul, div, neg, trunc, D, widen, narrow, d_decimal, d_of_nat, d_add,
    d_mul, d_div, d_sqrt,
  }

  -- `std::clamp(x, low, high)`
  abbrev pub clamp_to : F → F → F → F
  clamp_to low high x = if lt x low then low else if lt high x then high else x

  -- One half of a frame through RNNoise, which works on 16-bit scale.
  unfoldable pub suppress_half : List F → R → List F × R
  suppress_half samples r =
      let (scratch, r') =
        tools.rnnoise_process_frame r (map (λ x. mul x (decimal 32768 0)) samples) in
      (map (λ x. clamp_to (neg (one_f fl)) (one_f fl) (div x (decimal 32768 0))) scratch, r')

  -- `NoiseSuppressor::process`; without a state the samples are passed on.
  unfoldable pub suppress : List F → Option R → List F × Option R
  unfolding suppress_half
  suppress samples none = (samples, none)
  suppress samples (some r) =
      let (first, r') = suppress_half (take 480 samples) r in
      let (second, r'') = suppress_half (drop 480 samples) r' in (first ++ second, some r'')

  unfoldable pub sum_squares : List F → D
  sum_squares = foldl (λ acc x. d_add acc (d_mul (widen x) (widen x))) (d_decimal 0 0)

  -- `static_cast<float>(std::sqrt(sum / kFrameSamples))`
  unfoldable pub rms : List F → F
  unfolding sum_squares
  rms samples = narrow (d_sqrt (d_div (sum_squares samples) (d_of_nat frame_samples)))

  unfoldable pub amplify : F → List F → List F
  amplify gain = map (λ x. clamp_to (neg (one_f fl)) (one_f fl) (mul x gain))

  unfoldable pub to_shorts : List F → List ℤ
  to_shorts =
      map
        (λ x. trunc (clamp_to (neg (decimal 32768 0)) (decimal 32767 0) (mul x (decimal 32767 0))))

  -- `encode`, and the test `encoded > 0`
  unfoldable pub encode : List ℤ → Option Text
  encode pcm = elim (tools.opus_encode pcm) [
    | none ↦ none
    | some opus ↦ if is_empty opus then none else some opus
  ]

  unfoldable pub captured : List F → CapturedFrame fl
  unfolding rms amplify to_shorts encode replicate
  captured mono = record {
    raw_rms = rms mono;
    gained_rms = λ gain. rms (amplify gain mono);
    encoded = λ gain. encode (to_shorts (amplify gain mono));
    encoded_silence = encode (replicate frame_samples (pos 0));
  }

  -- The callback of the microphone: noise suppression, and the gate.
  unfoldable pub on_samples_captured :
      List F → ℕ → Transmit fl × Option R → List (Text × Bool) × (Transmit fl × Option R)
  unfolding suppress captured on_frame_captured
  on_samples_captured raw now (t, r) =
      let (mono, r') = if t.noise_suppression_enabled then suppress raw r else (raw, r) in
      let (sent, t') = on_frame_captured fl (captured mono) now t in (sent, (t', r'))
