-- ===== src/Voice/Device/Loop.antt =====
-- What the device sessions of the microphone and of the speaker share
-- (addon/extensions/task_force_radio_pipe/src/Voice/WasapiCaptureEngine.cpp and PlaybackMixer.cpp:
-- runDeviceSession, threadMain): what is opened, and the early ends of the two loops.
use task_force_radio_standal.Base.{Bool, true, false, Option, none, some, List, [], ◌∷◌, ◌++◌}
use task_force_radio_standal.Resource.{
  audio_client, service_client, event_handle, Call, frees, Run, return,
}
use task_force_radio_standal.Voice.Device.{Endpoint, Format}
use task_force_radio_standal.Voice.Capture.Supervision.{Supervisor}

-- The answers while a session is opened.
pub record Opening : Type 0 where
  pub device : Endpoint
  pub activated : Bool
  pub mix : Option Format
  pub initialized : Bool
  pub event : Bool
  pub service : Bool
  pub begun : Bool

-- The calls that release what an open session holds.
abbrev pub close_client : List Call
close_client = frees audio_client ∷ []

abbrev pub close_event : List Call
close_event = frees event_handle ∷ close_client

abbrev pub close_session : List Call
close_session = frees service_client ∷ close_event

-- What a loop gave out, and the state behind it; `none` where a resampler ran out of fuel.
abbrev pub Fed {ℓ κ} : Type ℓ → Type κ → Type (ℓ ⊔ κ)
Fed O S = Option (List O × S)

unfoldable pub feed {ℓ κ} : {O : Type ℓ} {S : Type κ} → List O → Fed O S → Fed O S
feed out none = none
feed out (some (more, s)) = some (out ++ more, s)

-- A wait that failed and a lost device end the loop.
unfoldable pub go_on {ℓ κ} :
    {O : Type ℓ} {S : Type κ}
    → Option (Bool × List O × S)
    → (List O → S → Run (Fed O S))
    → Run (Fed O S)
unfolding return
go_on none rest = return none
go_on (some (false, out, s)) rest = return (some (out, s))
go_on (some (true, out, s)) rest = rest out s

-- Whether a session ran, as the thread is told.
abbrev pub has_run {ℓ} : {A : Type ℓ} → Option A → Bool
has_run none = false
has_run (some a) = true

-- A session that did not run gave out nothing.
abbrev pub fed_of {ℓ κ} : {O : Type ℓ} {S : Type κ} → Option (Fed O S) → S → Fed O S
fed_of none s = some ([], s)
fed_of (some fed) s = fed

-- What a thread gave out, what it counted, and the state behind it.
abbrev pub ThreadFed {ℓ κ} : Type ℓ → Type κ → Type (ℓ ⊔ κ)
ThreadFed O S = Option (List O × Supervisor × S)

unfoldable pub settle {ℓ κ} :
    {O : Type ℓ} {S : Type κ} → Fed O S → (List O → S → Run (ThreadFed O S)) → Run (ThreadFed O S)
unfolding return
settle none rest = return none
settle (some (out, s)) rest = rest out s

unfoldable pub feed_before {ℓ κ} :
    {O : Type ℓ} {S : Type κ} → List O → ThreadFed O S → ThreadFed O S
feed_before out none = none
feed_before out (some (more, v, s)) = some (out ++ more, v, s)
