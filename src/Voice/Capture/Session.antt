-- ===== src/Voice/Capture/Session.antt =====
-- The microphone's device sessions
-- (addon/extensions/task_force_radio_pipe/src/Voice/WasapiCaptureEngine.cpp: runDeviceSession,
-- threadMain). What the audio interface answers is an argument, and so are the waits of the loop:
-- they end where the thread is asked to stop. The log lines are left out but for those that
-- Supervision counts. The inner `Option` is `none` where the resampler's fuel runs out.
use mathlib.Core.Option
use task_force_radio_standal.Resource.{◌>>=◌, ◌>>◌}
use task_force_radio_standal.Base.{
  ◌==◌, if◌then◌else◌, Text, ℕ, Bool, true, false, not, ◌&&◌, Option, none, some, List, [], ◌∷◌,
  map,
}
use task_force_radio_standal.Base.Int.{ℤ}
use task_force_radio_standal.Float.{Float}
use task_force_radio_standal.Resource.{
  endpoint, audio_client, service_client, mix_format, event_handle, device_buffer, Call, gets, uses,
  frees, Run, return, say, acquire, given, check, break_if,
}
use task_force_radio_standal.Voice.Device.{
  Endpoint, get_default_device, get_device_id, check_device, Format, is_float_format,
}
use task_force_radio_standal.Voice.Device.Loop.{
  Opening, close_client, close_event, close_session, Fed, feed, go_on,
}
use task_force_radio_standal.Voice.Capture.{
  Capture, Packet, silent, floats, shorts, other, on_signal,
}

-- The device's format and its identifier; the early returns are those of `false`.
unfoldable pub open_capture : Opening → Run (Format × Text)
unfolding get_default_device get_device_id
open_capture o = do
  get_default_device o.device
  name ← get_device_id o.device.named
  say (uses endpoint ∷ [])
  acquire (given o.activated) audio_client (frees endpoint ∷ [])
  say (frees endpoint ∷ uses audio_client ∷ [])
  format ← acquire o.mix mix_format close_client
  say (uses audio_client ∷ uses mix_format ∷ frees mix_format ∷ [])
  check (o.initialized && not (format.channels == 0)) close_client
  acquire (given o.event) event_handle close_client
  say (uses audio_client ∷ uses event_handle ∷ uses audio_client ∷ [])
  acquire (given o.service) service_client close_event
  say (uses audio_client ∷ [])
  check o.begun close_session
  return (format, name)

module _ (fl : Float) where
  open fl use {F}

  -- A buffer of the device: silent or without data, or its bytes, read as `float` and as `int16_t`.
  pub data Buffer : Type 0 where
    gap : ℕ → Buffer
    bytes : List F → List ℤ → ℕ → Buffer

  -- How the session reads it.
  unfoldable pub packet_of : Format → Buffer → Packet fl
  unfolding is_float_format
  packet_of format (gap count) = silent count
  packet_of format (bytes reals ints count) =
      if is_float_format format
      then floats reals count
      else if format.bits == 16
      then shorts ints count
      else other count

  -- A wait of 200 milliseconds: the buffers that are there, `none` for a failed GetBuffer, behind
  -- which nothing is read.
  pub data Wait : Type 0 where
    signalled : List (Option Buffer) → Wait
    timed_out wait_failed : Wait

  -- A turn of the loop: the wait, and then the clock and the default device.
  pub record Turn : Type 0 where
    pub wait : Wait
    pub now : ℕ
    pub default : Endpoint

  -- GetNextPacketSize and GetBuffer, and ReleaseBuffer behind the samples.
  unfoldable pub packet_calls : List (Option Buffer) → List Call
  packet_calls [] = uses service_client ∷ []
  packet_calls (none ∷ buffers) = uses service_client ∷ uses service_client ∷ []
  packet_calls (some buffer ∷ buffers) =
      uses service_client
      ∷ uses service_client
      ∷ gets device_buffer
      ∷ uses device_buffer
      ∷ uses service_client
      ∷ frees device_buffer
      ∷ packet_calls buffers

  abbrev pub CaptureFed : Type 0
  CaptureFed = Fed (List F) (Capture fl)

  -- Whether the session goes on, and what the gate is fed.
  unfoldable pub serve_wait :
      ℕ → Format → Wait → Capture fl → Run (Option (Bool × List (List F) × Capture fl))
  unfolding packet_of packet_calls on_signal
  serve_wait fuel format (signalled buffers) c = (
    packet_calls buffers,
    some (
        on_signal fl fuel format.rate format.channels (map (Option.map (packet_of format)) buffers)
          c),
  )
  serve_wait fuel format timed_out c = return (some (true, [], c))
  serve_wait fuel format wait_failed c = return (some (false, [], c))

  unfoldable pub capture_loop : ℕ → Format → Text → ℕ → List Turn → Capture fl → Run CaptureFed
  unfolding serve_wait check_device feed go_on
  capture_loop fuel format name last [] c = return (some ([], c))
  capture_loop fuel format name last (turn ∷ turns) c = do
    say (uses event_handle ∷ [])
    served ← serve_wait fuel format turn.wait c
    go_on served λ frames c'. do
      (switched, last') ← check_device name turn.now last turn.default
      break_if switched (some (frames, c'))
          (do fed ← capture_loop fuel format name last' turns c'; return (feed frames fed))

  -- The early return is `false`, and `true` comes with what the gate was fed.
  unfoldable pub capture_session : ℕ → Opening → ℕ → List Turn → Capture fl → Run CaptureFed
  unfolding open_capture capture_loop
  capture_session fuel opening last turns c = do
    (format, name) ← open_capture opening
    fed ← capture_loop fuel format name last turns c
    say (uses audio_client ∷ close_session)
    return fed
