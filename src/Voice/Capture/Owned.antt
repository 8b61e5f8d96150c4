-- ===== src/Voice/Capture/Owned.antt =====
-- What a session of the microphone holds
-- (addon/extensions/task_force_radio_pipe/src/Voice/WasapiCaptureEngine.cpp: runDeviceSession,
-- threadMain).
use task_force_radio_standal.Base.{Text, ℕ, ◌≡◌, refl, Option, none, some, List, [], ◌∷◌}
use task_force_radio_standal.Float.{Float}
use task_force_radio_standal.Resource.{Resource, com_apartment, follow}
use task_force_radio_standal.Resource.Ownership.{
  Runs, >>=-Runs, >>-Runs, say-Runs, return-Runs, acquire-Runs, check-Runs, break_if-Runs,
  attempt-Runs, calls-Runs, IsClean, Runs-IsClean,
}
use task_force_radio_standal.Voice.Device.{Format}
use task_force_radio_standal.Voice.Device.Loop.{Opening, has_run, fed_of}
use task_force_radio_standal.Voice.Device.Owned.{
  get_default_device-Runs, get_device_id-Runs, check_device-Runs, opened, go_on-Runs, settle-Runs,
}
use task_force_radio_standal.Voice.Capture.{Capture}
use task_force_radio_standal.Voice.Capture.Session.{
  open_capture, Buffer, Wait, signalled, timed_out, wait_failed, Turn, packet_calls, serve_wait,
  capture_loop, capture_session,
}
use task_force_radio_standal.Voice.Capture.Thread.{DeviceSession, capture_sessions, capture_thread}
use task_force_radio_standal.Voice.Capture.Supervision.{Supervisor, new_supervisor, end_capture}

open_capture-Runs :
    (o : Opening) (held : List Resource) → Runs held held (open_capture o) (opened held)
unfolding open_capture follow
open_capture-Runs o held = >>-Runs (get_default_device-Runs o.device held) (
    >>=-Runs (get_device_id-Runs o.device.named held held) λ name. >>-Runs (say-Runs _ refl) (
      >>-Runs (acquire-Runs _ _ refl) (
        >>-Runs (say-Runs _ refl) (
          >>=-Runs (acquire-Runs _ _ refl) λ format. >>-Runs (say-Runs _ refl) (
            >>-Runs (check-Runs _ _ refl) (
              >>-Runs (acquire-Runs _ _ refl) (
                >>-Runs (say-Runs _ refl) (
                  >>-Runs (acquire-Runs _ _ refl) (
                    >>-Runs (say-Runs _ refl)
                      (>>-Runs (check-Runs _ _ refl) (return-Runs _)))))))))))

module _ (fl : Float) where
  packet_calls-follow :
      (buffers : List (Option (Buffer fl))) (held : List Resource)
      → follow (packet_calls fl buffers) (opened held) ≡ some (opened held)
  unfolding packet_calls follow
  packet_calls-follow [] held = refl
  packet_calls-follow (none ∷ buffers) held = refl
  packet_calls-follow (some buffer ∷ buffers) held = packet_calls-follow buffers held

  serve_wait-Runs :
      (fuel : ℕ) (format : Format) (wait : Wait fl) (c : Capture fl) (left held : List Resource)
      → Runs left (opened held) (serve_wait fl fuel format wait c) (opened held)
  unfolding serve_wait
  serve_wait-Runs fuel format (signalled buffers) c left held =
      calls-Runs (packet_calls-follow buffers held)
  serve_wait-Runs fuel format timed_out c left held = return-Runs _
  serve_wait-Runs fuel format wait_failed c left held = return-Runs _

  capture_loop-Runs :
      (fuel : ℕ) (format : Format) (name : Text) (last : ℕ) (turns : List (Turn fl))
      (c : Capture fl) (left held : List Resource)
      → Runs left (opened held) (capture_loop fl fuel format name last turns c) (opened held)
  unfolding capture_loop follow
  capture_loop-Runs fuel format name last [] c left held = return-Runs _
  capture_loop-Runs fuel format name last (turn ∷ turns) c left held = >>-Runs (say-Runs _ refl) (
      >>=-Runs (serve_wait-Runs fuel format turn.wait c left held) λ served.
        go_on-Runs served λ frames c'.
          >>=-Runs (check_device-Runs name turn.now last turn.default left (opened held)) λ found.
            break_if-Runs found.0 _ (
              >>=-Runs (capture_loop-Runs fuel format name found.1 turns c' left held)
                λ fed. return-Runs _))

  capture_session-Runs :
      (fuel : ℕ) (o : Opening) (last : ℕ) (turns : List (Turn fl)) (c : Capture fl)
      (held : List Resource)
      → Runs held held (capture_session fl fuel o last turns c) held
  unfolding capture_session follow
  capture_session-Runs fuel o last turns c held =
      >>=-Runs (open_capture-Runs o held) λ (format, name).
        >>=-Runs (capture_loop-Runs fuel format name last turns c held held)
          λ fed. >>-Runs (say-Runs _ refl) (return-Runs _)

  capture_sessions-Runs :
      (fuel : ℕ) (sessions : List (DeviceSession fl)) (v : Supervisor) (c : Capture fl)
      (left held : List Resource)
      → Runs left held (capture_sessions fl fuel sessions (v, c)) held
  unfolding capture_sessions
  capture_sessions-Runs fuel [] v c left held = return-Runs _
  capture_sessions-Runs fuel (s ∷ sessions) v c left held =
      let session = capture_session-Runs fuel s.opening s.began s.turns c held in
      >>=-Runs (attempt-Runs session) λ out. settle-Runs (fed_of out c) λ frames c'.
        break_if-Runs s.stopping _ (
          >>=-Runs
            (capture_sessions-Runs fuel sessions (end_capture fl (has_run out) (v, c')).0
              (end_capture fl (has_run out) (v, c')).1 left held)
            λ fed. return-Runs _)

  -- Whatever the system answers, and however often, the microphone's thread gives back all that it
  -- got, each object once, and calls none before it got it or after it gave it back: on every early
  -- return of a session, and where the device is lost, is switched, or the thread is asked to stop.
  -- The thread enters its apartment, which is left at the end, behind the last release.
  pub capture_thread-IsClean :
      (fuel : ℕ) (sessions : List (DeviceSession fl)) (c : Capture fl) (held : List Resource)
      → IsClean held (capture_thread fl fuel sessions c)
  unfolding capture_thread follow
  capture_thread-IsClean fuel sessions c held =
      let inside =
        capture_sessions-Runs fuel sessions new_supervisor c held (com_apartment ∷ held) in
      Runs-IsClean (
        >>-Runs (say-Runs _ refl)
          (>>=-Runs inside λ fed. >>-Runs (say-Runs _ refl) (return-Runs _)))
