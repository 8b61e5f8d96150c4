-- ===== src/Voice/Mixer/Session.antt =====
-- The speaker's device sessions
-- (addon/extensions/task_force_radio_pipe/src/Voice/PlaybackMixer.cpp: runDeviceSession, threadMain). What the
-- audio interface answers is an argument, and so are the waits of the loop, which end where the
-- thread is asked to stop, and what the other threads do to the mixer between two of them. The log
-- lines are left out.
use task_force_radio_standal.Resource.{◌>>=◌, ◌>>◌}
use task_force_radio_standal.Base.{
  ◌==◌, if◌then◌else◌, nat_eq, Text, ℕ, ◌+◌, ◌-◌, ◌%◌, ◌^◌, Bool, true, false, not, ◌&&◌, ◌||◌,
  Option, none, some, List, [], ◌∷◌, map,
}
use task_force_radio_standal.Base.Int.{ℤ, pos}
use task_force_radio_standal.Float.{Float}
use task_force_radio_standal.Geometry.{zero_f}
use task_force_radio_standal.Resource.{
  com_apartment, endpoint, audio_client, service_client, mix_format, event_handle, device_buffer,
  gets, uses, frees, Run, return, say, acquire, given, check, break_if, attempt,
}
use task_force_radio_standal.Voice.Device.{
  Endpoint, get_default_device, get_device_id, check_device, Format, is_float_format,
}
use task_force_radio_standal.Voice.Device.Loop.{
  Opening, close_client, close_event, close_session, Fed, feed, go_on, has_run, fed_of, ThreadFed,
  settle, feed_before,
}
use task_force_radio_standal.Voice.Source.Mixdown.{Codec}
use task_force_radio_standal.Voice.Mixer.{Mixer}
use task_force_radio_standal.Voice.Mixer.Device.{fill_device, interleave, pcm_frame}
use task_force_radio_standal.Voice.Capture.Supervision.{Supervisor, new_supervisor, end_playback}

-- A format that the loop cannot write is given up.
abbrev pub is_writable : Format → Bool
is_writable format = is_float_format format || format.bits == 16

-- The device's format and its identifier; the early returns are those of `false`.
unfoldable pub open_playback : Opening → Run (Format × Text)
unfolding get_default_device get_device_id is_float_format
open_playback o = do
  get_default_device o.device
  name ← get_device_id o.device.named
  say (uses endpoint ∷ [])
  acquire (given o.activated) audio_client (frees endpoint ∷ [])
  say (frees endpoint ∷ uses audio_client ∷ [])
  format ← acquire o.mix mix_format close_client
  check (is_writable format) (frees mix_format ∷ close_client)
  say (uses audio_client ∷ uses mix_format ∷ frees mix_format ∷ [])
  check (o.initialized && not (format.channels == 0)) close_client
  acquire (given o.event) event_handle close_client
  say (uses audio_client ∷ uses event_handle ∷ uses audio_client ∷ [])
  acquire (given o.service) service_client close_event
  say (uses audio_client ∷ uses audio_client ∷ [])
  check o.begun close_session
  return (format, name)

-- GetBuffer: a buffer, an endpoint that is gone, or a failure that may pass.
pub data Answer : Type 0 where
  got gone transient : Answer

-- A wait of 200 milliseconds; when the device is ready, GetCurrentPadding, `none` if it fails.
pub data Readiness : Type 0 where
  ready : Option ℕ → Answer → Readiness
  waited wait_broken : Readiness

-- In 32 bits.
abbrev pub needed_frames : ℕ → ℕ → ℕ
needed_frames size padding = (size + 2 ^ 32 - padding) % 2 ^ 32

-- A failure that may pass is tried again at once, without the poll of the default device.
unfoldable pub polls : ℕ → Readiness → Bool
polls size (ready (some padding) transient) = needed_frames size padding == 0
polls size wait = true

unfoldable pub poll_if : Bool → Text → ℕ → ℕ → Endpoint → Run (Bool × ℕ)
unfolding check_device return
poll_if true name now last a = check_device name now last a
poll_if false name now last a = return (false, last)

module _ (fl : Float) (codec : Codec fl) where
  open fl use {F, D, d_div, d_of_nat}

  -- What a buffer of the device is filled with.
  pub data Written : Type 0 where
    reals : List F → Written
    ints : List ℤ → Written
    unwritten : Written

  unfoldable pub write_out : Format → List (F × F) → Written
  unfolding is_float_format interleave pcm_frame
  write_out format frames =
      if is_float_format format
      then reals (interleave fl codec (zero_f fl) format.channels frames)
      else if format.bits == 16
      then ints (interleave fl codec (pos 0) format.channels (map (pcm_frame fl codec) frames))
      else unwritten

  -- A buffer that is released to the device: the frames that it asked for, and what is in it.
  abbrev pub Filled : Type 0
  Filled = ℕ × Written

  abbrev pub PlaybackFed : Type 0
  PlaybackFed = Fed Filled (Mixer fl)

  -- `kInternalSampleRate / deviceSampleRate`
  abbrev pub speaker_step : ℕ → D
  speaker_step rate = d_div (d_of_nat 48000) (d_of_nat rate)

  unfoldable pub fill_buffer : Format → ℕ → Mixer fl → Option (Bool × List Filled × Mixer fl)
  unfolding fill_device write_out
  fill_buffer format needed m = elim (fill_device fl codec (speaker_step format.rate) needed m) [
    | none ↦ none
    | some (frames, m') ↦ some (true, (needed, write_out format frames) ∷ [], m')
  ]

  unfoldable pub fetch :
      Format → ℕ → Answer → Mixer fl → Run (Option (Bool × List Filled × Mixer fl))
  unfolding fill_buffer
  fetch format needed got m = (
    uses service_client
        ∷ gets device_buffer
        ∷ uses device_buffer
        ∷ uses service_client
        ∷ frees device_buffer
        ∷ [],
    some (fill_buffer format needed m),
  )
  fetch format needed gone m = (uses service_client ∷ [], some (some (false, [], m)))
  fetch format needed transient m = (uses service_client ∷ [], some (some (true, [], m)))

  -- Whether the session goes on, and what the device is given.
  unfoldable pub serve_ready :
      Format → ℕ → Readiness → Mixer fl → Run (Option (Bool × List Filled × Mixer fl))
  unfolding fetch
  serve_ready format size (ready none answer) m =
      (uses audio_client ∷ [], some (some (false, [], m)))
  serve_ready format size (ready (some padding) answer) m = do
    say (uses audio_client ∷ [])
    let needed = needed_frames size padding
    (if needed == 0 then return (some (true, [], m)) else fetch format needed answer m)
  serve_ready format size waited m = return (some (true, [], m))
  serve_ready format size wait_broken m = return (some (false, [], m))

  pub record SpeakerTurn : Type 0 where
    pub wait : Readiness
    pub now : ℕ
    pub default : Endpoint
    -- what the other threads did to the mixer before
    pub meanwhile : Mixer fl → Mixer fl

  unfoldable pub playback_loop :
      Format → ℕ → Text → ℕ → List SpeakerTurn → Mixer fl → Run PlaybackFed
  unfolding serve_ready polls poll_if feed go_on
  playback_loop format size name last [] m = return (some ([], m))
  playback_loop format size name last (turn ∷ turns) m = do
    say (uses event_handle ∷ [])
    served ← serve_ready format size turn.wait (turn.meanwhile m)
    go_on served λ filled m'. do
      (switched, last') ← poll_if (polls size turn.wait) name turn.now last turn.default
      break_if switched (some (filled, m'))
          (do fed ← playback_loop format size name last' turns m'; return (feed filled fed))

  -- The early return is `false`, and `true` comes with what the device was given. `size` is the
  -- device's buffer in frames.
  unfoldable pub playback_session : Opening → ℕ → ℕ → List SpeakerTurn → Mixer fl → Run PlaybackFed
  unfolding open_playback playback_loop
  playback_session opening size last turns m = do
    (format, name) ← open_playback opening
    fed ← playback_loop format size name last turns m
    say (uses audio_client ∷ close_session)
    return fed

  pub record SpeakerSession : Type 0 where
    pub opening : Opening
    pub size : ℕ
    pub began : ℕ
    pub turns : List SpeakerTurn
    -- whether the thread is asked to stop in it
    pub stopping : Bool

  unfoldable pub playback_sessions :
      List SpeakerSession → Supervisor × Mixer fl → Run (ThreadFed Filled (Mixer fl))
  unfolding playback_session settle feed_before end_playback
  playback_sessions [] (v, m) = return (some ([], v, m))
  playback_sessions (s ∷ sessions) (v, m) = do
    out ← attempt (playback_session s.opening s.size s.began s.turns m)
    settle (fed_of out m) λ filled m'. break_if s.stopping (some (filled, v, m')) (do
      fed ← playback_sessions sessions (end_playback fl (has_run out) (v, m'))
      return (feed_before filled fed))

  unfoldable pub playback_thread :
      List SpeakerSession → Mixer fl → Run (ThreadFed Filled (Mixer fl))
  unfolding playback_sessions
  playback_thread sessions m = do
    say (gets com_apartment ∷ [])
    fed ← playback_sessions sessions (new_supervisor, m)
    say (frees com_apartment ∷ [])
    return fed
