-- ===== src/Voice/Capture/Thread.antt =====
-- The microphone's thread
-- (addon/extensions/task_force_radio_pipe/src/Voice/WasapiCaptureEngine.cpp: threadMain). Its
-- sessions are an argument; behind the last the thread finds that it is asked to stop. It has no
-- apartment when it starts, so that CoInitializeEx gives it one.
use task_force_radio_standal.Resource.{◌>>=◌, ◌>>◌}
use task_force_radio_standal.Base.{ℕ, Bool, some, List, [], ◌∷◌}
use task_force_radio_standal.Float.{Float}
use task_force_radio_standal.Resource.{
  com_apartment, gets, frees, Run, return, say, break_if, attempt,
}
use task_force_radio_standal.Voice.Device.Loop.{
  Opening, has_run, fed_of, ThreadFed, settle, feed_before,
}
use task_force_radio_standal.Voice.Capture.{Capture}
use task_force_radio_standal.Voice.Capture.Session.{Turn, capture_session}
use task_force_radio_standal.Voice.Capture.Supervision.{Supervisor, new_supervisor, end_capture}

module _ (fl : Float) where
  open fl use {F}

  -- The time at which the loop begins, and whether the thread is asked to stop in it.
  pub record DeviceSession : Type 0 where
    pub opening : Opening
    pub began : ℕ
    pub turns : List (Turn fl)
    pub stopping : Bool

  abbrev pub CaptureThreadFed : Type 0
  CaptureThreadFed = ThreadFed (List F) (Capture fl)

  unfoldable pub capture_sessions :
      ℕ → List DeviceSession → Supervisor × Capture fl → Run CaptureThreadFed
  unfolding capture_session settle feed_before end_capture
  capture_sessions fuel [] (v, c) = return (some ([], v, c))
  capture_sessions fuel (s ∷ sessions) (v, c) = do
    out ← attempt (capture_session fl fuel s.opening s.began s.turns c)
    settle (fed_of out c) λ frames c'. break_if s.stopping (some (frames, v, c')) (do
      fed ← capture_sessions fuel sessions (end_capture fl (has_run out) (v, c'))
      return (feed_before frames fed))

  unfoldable pub capture_thread : ℕ → List DeviceSession → Capture fl → Run CaptureThreadFed
  unfolding capture_sessions
  capture_thread fuel sessions c = do
    say (gets com_apartment ∷ [])
    fed ← capture_sessions fuel sessions (new_supervisor, c)
    say (frees com_apartment ∷ [])
    return fed
