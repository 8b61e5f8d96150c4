-- ===== src/Voice/Workers.antt =====
-- The threads of the voice path
-- (addon/extensions/task_force_radio_pipe/src/Voice: start and stop of WasapiCaptureEngine.cpp,
-- PlaybackMixer.cpp, VoiceNetworkClient.cpp, TransmitController.cpp and VoiceSession.cpp), one call
-- after the other. A thread that is asked to stop ends, so that `join` returns. A `std::thread` that
-- is assigned while it is joinable ends the process, which is `none`.
pub mod Restarted
use task_force_radio_standal.Base.{
  if◌then◌else◌, Bool, true, false, Option, none, some, List, [], ◌∷◌,
}

-- The flags of an audio device's thread, and whether `m_thread` is joinable.
pub record DeviceWorker : Type 0 where
  pub running : Bool
  pub stop_requested : Bool
  pub joinable : Bool

abbrev pub live_device : DeviceWorker
live_device = record { running = true; stop_requested = false; joinable = true }

unfoldable pub start_device : DeviceWorker → Option DeviceWorker
start_device w = if w.running then some w else if w.joinable then none else some live_device

unfoldable pub stop_device : DeviceWorker → DeviceWorker
stop_device w =
    if w.running then record { running = false; stop_requested = true; joinable = false } else w

-- The network's thread; `started` is never taken back.
pub record NetworkWorker : Type 0 where
  pub started : Bool
  pub running : Bool
  pub joinable : Bool

unfoldable pub start_network : NetworkWorker → Option NetworkWorker
start_network w =
    if w.started
    then some w
    else if w.joinable
    then none
    else some (record { started = true; running = true; joinable = true })

unfoldable pub stop_network : NetworkWorker → NetworkWorker
stop_network w = record w { running = false; joinable = false }

pub record Workers : Type 0 where
  pub playback : DeviceWorker
  pub network : NetworkWorker
  pub capture : DeviceWorker

abbrev pub idle_device : DeviceWorker
idle_device = record { running = false; stop_requested = false; joinable = false }

abbrev pub new_workers : Workers
new_workers = record {
  playback = idle_device;
  network = record { started = false; running = false; joinable = false };
  capture = idle_device;
}

-- The playback, the network, and the microphone by way of the transmit controller.
unfoldable pub start_session : Workers → Option Workers
unfolding start_device start_network
start_session w = elim (start_device w.playback) [
  | none ↦ none
  | some playback ↦ elim (start_network w.network) [
    | none ↦ none
    | some network ↦ elim (start_device w.capture) [
      | none ↦ none
      | some capture ↦ some (record { playback = playback; network = network; capture = capture })
    ]
  ]
]

unfoldable pub stop_session : Workers → Workers
unfolding stop_device stop_network
stop_session w = record {
  playback = stop_device w.playback;
  network = stop_network w.network;
  capture = stop_device w.capture;
}

pub data SessionCall : Type 0 where
  starts stops : SessionCall

unfoldable pub run_session : List SessionCall → Workers → Option Workers
unfolding start_session stop_session
run_session [] w = some w
run_session (starts ∷ calls) w = elim (start_session w) [
  | none ↦ none
  | some w' ↦ run_session calls w'
]
run_session (stops ∷ calls) w = run_session calls (stop_session w)
