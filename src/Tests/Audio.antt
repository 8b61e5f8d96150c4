-- ===== src/Tests/Audio.antt =====
-- Examples of the theorems on the audio devices and the gate's frames.
use task_force_radio_standal.Base.{
  leb→le, ℕ, ◌+◌, ◌≤◌, ◌≡◌, refl, false, some, List, [], ◌∷◌, ◌++◌, map, arith,
}
use task_force_radio_standal.Float.Fixed.{whole}
use task_force_radio_standal.Voice.Capture.{Capture, new_capture, step_of, resample_and_emit}
use task_force_radio_standal.Voice.Capture.Frames.{
  advanced, resampled, IsCut, IsLeft, resample_and_emit-frames,
}
use task_force_radio_standal.Voice.Transmit.{CapturedFrame, new_transmit}
use task_force_radio_standal.Voice.Transmit.Gate.{run_frames}
use task_force_radio_standal.Voice.Transmit.Talkspurts.{
  flags, is_marker, decisions, IsEncoded, talkspurts_are_closed,
}
use task_force_radio_standal.Tests.Data.{fl}

-- Three samples of a device with 48000 Hz.
abbrev capture : Capture fl
capture = record (new_capture fl) { native_mono = whole 1 ∷ whole 2 ∷ whole 3 ∷ [] }

resample_and_emit-frames_example :
    (n : ℕ) × (frames : List (List fl.F)) × (c' : Capture fl) × (resample_and_emit fl 3 48000
        capture
      ≡ some (frames, c'))
    × (n ≤ 2)
    × IsCut fl
        ([] ++ resampled fl n (step_of fl 48000) capture.native_mono (whole 0))
        frames
        c'.frame_buffer
    × (3 ≤ fl.d_trunc (advanced fl n (step_of fl 48000) (whole 0)) + 1)
    × IsLeft fl (advanced fl n (step_of fl 48000) (whole 0)) capture.native_mono c'
unfolding advanced
resample_and_emit-frames_example =
    resample_and_emit-frames fl 2 3 48000 capture refl refl (omega arith) (leb→le 3 3 refl)
      (omega arith)

abbrev voice_frame : CapturedFrame fl
voice_frame = record {
  raw_rms = whole 1;
  gained_rms = λ gain. whole 1;
  encoded = λ gain. some (b'v' ∷ []);
  encoded_silence = some (b'z' ∷ []);
}

voice_frame-IsEncoded : IsEncoded fl voice_frame
unfolding IsEncoded
voice_frame-IsEncoded = ((λ gain. (b'v' ∷ [], refl)), (b'z' ∷ [], refl))

talkspurts_are_closed_example :
    map is_marker (run_frames fl ((voice_frame, 0) ∷ (voice_frame, 1) ∷ []) (new_transmit fl))
    ≡ flags false (decisions fl ((voice_frame, 0) ∷ (voice_frame, 1) ∷ []) (new_transmit fl))
talkspurts_are_closed_example =
    talkspurts_are_closed fl ((voice_frame, 0) ∷ (voice_frame, 1) ∷ []) (new_transmit fl)
      (voice_frame-IsEncoded, (voice_frame-IsEncoded, tt))
