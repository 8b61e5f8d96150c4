-- ===== src/Voice/Capture.antt =====
-- The microphone
-- (addon/extensions/task_force_radio_pipe/src/Voice/WasapiCaptureEngine.h and
-- WasapiCaptureEngine.cpp): from the packets of the audio device to frames of 960 samples. The
-- device's sessions are in Session, and its thread in Thread.
pub mod Frames
pub mod Owned
pub mod Session
pub mod Supervision
pub mod Switched
pub mod Thread
use task_force_radio_standal.Base.{
  ltb, leb, ◌==◌, if◌then◌else◌, length, get_or, take, drop, replicate, is_empty, ℕ, zero, suc, ◌+◌,
  ◌*◌, Bool, true, false, ◌&&◌, ◌||◌, Option, none, some, List, [], ◌∷◌, ◌++◌, map,
}
use task_force_radio_standal.Base.Int.{ℤ, pos}
use task_force_radio_standal.Float.{Float}
use task_force_radio_standal.Geometry.{zero_f}
use task_force_radio_standal.Voice.Source.{frame_samples}
use mathlib.Core.List.{foldl}

pub record Capture (fl : Float) : Type 0 where
  pub native_mono : List fl.F
  pub resample_cursor : fl.D
  pub frame_buffer : List fl.F

-- A packet of the device: its frames and their number. `other` is a format that is neither float
-- nor of 16 bits.
pub data Packet (fl : Float) : Type 0 where
  silent : ℕ → Packet fl
  floats : List fl.F → ℕ → Packet fl
  shorts : List ℤ → ℕ → Packet fl
  other : ℕ → Packet fl

module _ (fl : Float) where
  open fl use {
    F, decimal, of_int, add, div, D, widen, narrow, d_decimal, d_of_nat, d_add, d_sub, d_mul, d_div,
    d_trunc,
  }

  abbrev pub new_capture : Capture fl
  new_capture = record { native_mono = []; resample_cursor = d_decimal 0 0; frame_buffer = [] }

  -- The mean over the channels, for each of `frame_count` frames.
  unfoldable pub mix_down : ℕ → ℕ → List F → List F
  mix_down channels zero interleaved = []
  mix_down channels (suc frames) interleaved =
      let sum = foldl (λ acc x. add acc x) (zero_f fl) (take channels interleaved) in
      div sum (of_int (pos channels)) ∷ mix_down channels frames (drop channels interleaved)

  unfoldable pub append_native_samples : List F → ℕ → ℕ → Capture fl → Capture fl
  unfolding mix_down
  append_native_samples interleaved frame_count channels c = record c {
    native_mono =
        c.native_mono
        ++ (if leb channels 1
            then take frame_count interleaved
            else mix_down channels frame_count interleaved);
  }

  -- A packet through the conversion to float; a gap is fed as silence.
  unfoldable pub append_packet : ℕ → Packet fl → Capture fl → Capture fl
  unfolding append_native_samples replicate
  append_packet channels (silent frames) c =
      append_native_samples (replicate (frames * channels) (zero_f fl)) frames channels c
  append_packet channels (floats samples frames) c = append_native_samples samples frames channels c
  append_packet channels (shorts samples frames) c =
      append_native_samples (map (λ s. div (of_int s) (decimal 32768 0)) samples) frames channels c
  append_packet channels (other frames) c = c

  -- The sample at the cursor, between two of the device's.
  unfoldable pub sample_at : D → List F → F
  sample_at cursor mono =
      let place = d_trunc cursor in
      let frac = d_sub cursor (d_of_nat place) in
      narrow (
        d_add (d_mul (widen (get_or mono place (zero_f fl))) (d_sub (d_decimal 1 0) frac))
          (d_mul (widen (get_or mono (place + 1) (zero_f fl))) frac))

  -- A sample joins the buffer, and a full buffer is emitted.
  unfoldable pub push_sample : F → List F → List (List F) × List F
  push_sample sample buffer =
      let buffer' = buffer ++ sample ∷ [] in
      if leb frame_samples (length buffer')
      then (take frame_samples buffer' ∷ [], drop frame_samples buffer')
      else ([], buffer')

  -- The resampler's loop, on fuel; `none` where it runs out. The frames that are emitted, and the
  -- buffer and the cursor that are left.
  unfoldable pub resample_loop : ℕ → D → List F → D → List F → Option (List (List F) × List F × D)
  unfolding sample_at push_sample
  resample_loop zero step mono cursor buffer = none
  resample_loop (suc fuel) step mono cursor buffer =
      let (emitted, buffer') = push_sample (sample_at cursor mono) buffer in
      let rest = resample_loop fuel step mono (d_add cursor step) buffer' in
      if leb (length mono) (d_trunc cursor + 1) then some ([], buffer, cursor) else elim rest [
        | none ↦ none
        | some (frames, buffer'', cursor') ↦ some (emitted ++ frames, buffer'', cursor')
      ]

  -- Samples that are used up are dropped from the front.
  unfoldable pub drop_used : Capture fl → Capture fl
  drop_used c =
      let consumed = d_trunc c.resample_cursor in
      if ltb 0 consumed && leb consumed (length c.native_mono)
      then record c {
        native_mono = drop consumed c.native_mono;
        resample_cursor = d_sub c.resample_cursor (d_of_nat consumed);
      }
      else c

  -- `nativeSampleRate / kTargetSampleRate`
  abbrev pub step_of : ℕ → D
  step_of rate = d_div (d_of_nat rate) (d_of_nat 48000)

  unfoldable pub resample_and_emit : ℕ → ℕ → Capture fl → Option (List (List F) × Capture fl)
  unfolding resample_loop drop_used
  resample_and_emit fuel rate c =
      if rate == 0 || is_empty c.native_mono
      then some ([], c)
      else elim (resample_loop fuel (step_of rate) c.native_mono c.resample_cursor c.frame_buffer) [
        | none ↦ none
        | some (frames, buffer, cursor) ↦
            some (frames, drop_used (record c { frame_buffer = buffer; resample_cursor = cursor }))
      ]

  -- The packets that wait at a signal of the device; `none` is a failed GetBuffer. Whether the
  -- device is lost.
  unfoldable pub append_packets : ℕ → List (Option (Packet fl)) → Capture fl → Bool × Capture fl
  unfolding append_packet
  append_packets channels [] c = (false, c)
  append_packets channels (none ∷ packets) c = (true, c)
  append_packets channels (some p ∷ packets) c =
      append_packets channels packets (append_packet channels p c)

  -- A signal of the device: whether the session goes on, and the frames for the gate.
  unfoldable pub on_signal :
      ℕ
      → ℕ
      → ℕ
      → List (Option (Packet fl))
      → Capture fl
      → Option (Bool × List (List F) × Capture fl)
  unfolding append_packets resample_and_emit
  on_signal fuel rate channels packets c =
      let (lost, c') = append_packets channels packets c in
      if lost then some (false, [], c') else elim (resample_and_emit fuel rate c') [
        | none ↦ none
        | some (frames, c'') ↦ some (true, frames, c'')
      ]
