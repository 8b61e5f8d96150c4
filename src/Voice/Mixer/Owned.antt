-- ===== src/Voice/Mixer/Owned.antt =====
-- What a session of the speaker holds
-- (addon/extensions/task_force_radio_pipe/src/Voice/PlaybackMixer.cpp: runDeviceSession,
-- threadMain).
use task_force_radio_standal.Base.{
  ◌==◌, nat_eq, if_keeps, Text, ℕ, refl, Bool, true, false, Option, none, some, List, [], ◌∷◌,
}
use task_force_radio_standal.Float.{Float}
use task_force_radio_standal.Resource.{Resource, com_apartment, follow, Run}
use task_force_radio_standal.Resource.Ownership.{
  Runs, >>=-Runs, >>-Runs, say-Runs, return-Runs, acquire-Runs, check-Runs, break_if-Runs,
  attempt-Runs, calls-Runs, IsClean, Runs-IsClean,
}
use task_force_radio_standal.Voice.Device.{Endpoint, Format}
use task_force_radio_standal.Voice.Device.Loop.{Opening, has_run, fed_of}
use task_force_radio_standal.Voice.Device.Owned.{
  get_default_device-Runs, get_device_id-Runs, check_device-Runs, opened, go_on-Runs, settle-Runs,
}
use task_force_radio_standal.Voice.Source.Mixdown.{Codec}
use task_force_radio_standal.Voice.Mixer.{Mixer}
use task_force_radio_standal.Voice.Mixer.Session.{
  open_playback, Answer, got, gone, transient, Readiness, ready, waited, wait_broken, needed_frames,
  polls, poll_if, Filled, fetch, serve_ready, SpeakerTurn, playback_loop, playback_session,
  SpeakerSession, playback_sessions, playback_thread,
}
use task_force_radio_standal.Voice.Capture.Supervision.{Supervisor, new_supervisor, end_playback}

open_playback-Runs :
    (o : Opening) (held : List Resource) → Runs held held (open_playback o) (opened held)
unfolding open_playback follow
open_playback-Runs o held = >>-Runs (get_default_device-Runs o.device held) (
    >>=-Runs (get_device_id-Runs o.device.named held held) λ name. >>-Runs (say-Runs _ refl) (
      >>-Runs (acquire-Runs _ _ refl) (
        >>-Runs (say-Runs _ refl) (
          >>=-Runs (acquire-Runs _ _ refl) λ format. >>-Runs (check-Runs _ _ refl) (
            >>-Runs (say-Runs _ refl) (
              >>-Runs (check-Runs _ _ refl) (
                >>-Runs (acquire-Runs _ _ refl) (
                  >>-Runs (say-Runs _ refl) (
                    >>-Runs (acquire-Runs _ _ refl) (
                      >>-Runs (say-Runs _ refl)
                        (>>-Runs (check-Runs _ _ refl) (return-Runs _))))))))))))

poll_if-Runs :
    (b : Bool) (name : Text) (now last : ℕ) (a : Endpoint) (left held : List Resource)
    → Runs left held (poll_if b name now last a) held
unfolding poll_if
poll_if-Runs true name now last a left held = check_device-Runs name now last a left held
poll_if-Runs false name now last a left held = return-Runs _

module _ (fl : Float) (codec : Codec fl) where
  fetch-Runs :
      (format : Format) (needed : ℕ) (answer : Answer) (m : Mixer fl) (left held : List Resource)
      → Runs left (opened held) (fetch fl codec format needed answer m) (opened held)
  unfolding fetch follow
  fetch-Runs format needed got m left held = calls-Runs refl
  fetch-Runs format needed gone m left held = calls-Runs refl
  fetch-Runs format needed transient m left held = calls-Runs refl

  serve_ready-Runs :
      (format : Format) (size : ℕ) (wait : Readiness) (m : Mixer fl) (left held : List Resource)
      → Runs left (opened held) (serve_ready fl codec format size wait m) (opened held)
  unfolding serve_ready follow
  serve_ready-Runs format size (ready none answer) m left held = calls-Runs refl
  serve_ready-Runs format size (ready (some padding) answer) m left held =
      let needed = needed_frames size padding in
      >>-Runs (say-Runs _ refl) (
        if_keeps
          (λ (r : Run (Option (Bool × List (Filled fl codec) × Mixer fl))).
            Runs left (opened held) r (opened held))
          (needed == 0) (λ _. return-Runs _) (λ _. fetch-Runs format needed answer m left held))
  serve_ready-Runs format size waited m left held = return-Runs _
  serve_ready-Runs format size wait_broken m left held = return-Runs _

  playback_loop-Runs :
      (format : Format) (size : ℕ) (name : Text) (last : ℕ) (turns : List (SpeakerTurn fl codec))
      (m : Mixer fl) (left held : List Resource)
      → Runs left (opened held) (playback_loop fl codec format size name last turns m) (opened held)
  unfolding playback_loop follow
  playback_loop-Runs format size name last [] m left held = return-Runs _
  playback_loop-Runs format size name last (turn ∷ turns) m left held =
      let poll = polls size turn.wait in
      >>-Runs (say-Runs _ refl) (
        >>=-Runs (serve_ready-Runs format size turn.wait (turn.meanwhile m) left held) λ served.
          go_on-Runs served λ filled m'.
            >>=-Runs (poll_if-Runs poll name turn.now last turn.default left (opened held)) λ found.
              break_if-Runs found.0 _ (
                >>=-Runs (playback_loop-Runs format size name found.1 turns m' left held)
                  λ fed. return-Runs _))

  playback_session-Runs :
      (o : Opening) (size last : ℕ) (turns : List (SpeakerTurn fl codec)) (m : Mixer fl)
      (held : List Resource)
      → Runs held held (playback_session fl codec o size last turns m) held
  unfolding playback_session follow
  playback_session-Runs o size last turns m held =
      >>=-Runs (open_playback-Runs o held) λ (format, name).
        >>=-Runs (playback_loop-Runs format size name last turns m held held)
          λ fed. >>-Runs (say-Runs _ refl) (return-Runs _)

  playback_sessions-Runs :
      (sessions : List (SpeakerSession fl codec)) (v : Supervisor) (m : Mixer fl)
      (left held : List Resource)
      → Runs left held (playback_sessions fl codec sessions (v, m)) held
  unfolding playback_sessions
  playback_sessions-Runs [] v m left held = return-Runs _
  playback_sessions-Runs (s ∷ sessions) v m left held =
      let session = playback_session-Runs s.opening s.size s.began s.turns m held in
      >>=-Runs (attempt-Runs session) λ out. settle-Runs (fed_of out m) λ filled m'.
        break_if-Runs s.stopping _ (
          >>=-Runs
            (playback_sessions-Runs sessions (end_playback fl (has_run out) (v, m')).0
              (end_playback fl (has_run out) (v, m')).1 left held)
            λ fed. return-Runs _)

  -- Whatever the system answers, and however often, the speaker's thread gives back all that it got,
  -- each object once, and calls none before it got it or after it gave it back: on every early
  -- return of a session, for a format that it cannot write, and where the device is lost, is
  -- switched, or the thread is asked to stop. Every buffer that it gets of the device is released.
  -- The thread enters its apartment, which is left at the end, behind the last release.
  pub playback_thread-IsClean :
      (sessions : List (SpeakerSession fl codec)) (m : Mixer fl) (held : List Resource)
      → IsClean held (playback_thread fl codec sessions m)
  unfolding playback_thread follow
  playback_thread-IsClean sessions m held =
      let inside = playback_sessions-Runs sessions new_supervisor m held (com_apartment ∷ held) in
      Runs-IsClean (
        >>-Runs (say-Runs _ refl)
          (>>=-Runs inside λ fed. >>-Runs (say-Runs _ refl) (return-Runs _)))
