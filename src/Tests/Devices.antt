-- ===== src/Tests/Devices.antt =====
-- Examples of the theorems on the sessions of the audio devices.
use task_force_radio_standal.Resource.{◌>>◌}
use task_force_radio_standal.Voice.Workers.{
  Workers, new_workers, SessionCall, starts, stops, run_session,
}
use task_force_radio_standal.Voice.Workers.Restarted.{DeviceOk, restarted_session}
use task_force_radio_standal.Base.{
  ltb, length, All, Text, codes, text_eq, ℕ, ◌≡◌, refl, ◌⊎◌, true, false, none, some, List, [], ◌∷◌,
  arith,
}
use task_force_radio_standal.Float.Fixed.{whole}
use task_force_radio_standal.Resource.{return, say, acquire, check, recover, break_if, attempt}
use task_force_radio_standal.Resource.Ownership.{IsClean}
use task_force_radio_standal.Voice.Device.{
  Endpoint, is_switched, Format, Volume, is_device_muted_at_os_level,
}
use task_force_radio_standal.Voice.Device.Loop.{Opening}
use task_force_radio_standal.Voice.Capture.{new_capture}
use task_force_radio_standal.Voice.Capture.Session.{gap, signalled, timed_out, Turn, capture_loop}
use task_force_radio_standal.Voice.Capture.Thread.{DeviceSession, capture_thread}
use task_force_radio_standal.Voice.Capture.Owned.{capture_thread-IsClean}
use task_force_radio_standal.Voice.Capture.Switched.{device_switch_is_noticed}
use task_force_radio_standal.Voice.Source.{new_source}
use task_force_radio_standal.Voice.Source.Rendered.{new_source-IsFramed}
use task_force_radio_standal.Voice.Mixer.{Mixer, new_mixer}
use task_force_radio_standal.Voice.Mixer.Filled.{IsMixable}
use task_force_radio_standal.Voice.Mixer.Session.{
  open_playback, got, transient, ready, Filled, SpeakerTurn, playback_session, SpeakerSession,
  playback_thread,
}
use task_force_radio_standal.Voice.Mixer.Owned.{playback_thread-IsClean}
use task_force_radio_standal.Voice.Mixer.Written.{IsWhole}
use task_force_radio_standal.Voice.Mixer.Played.{playback_session-fills}
use task_force_radio_standal.Tests.Data.{fl, codec}

abbrev headset : Text
headset = codes "headset"

abbrev found_device : Text → Endpoint
found_device name = record { enumerator = true; found = true; named = some name }

abbrev stereo_float : Format
stereo_float = record {
  tag = 3;
  channels = 2;
  rate = 48000;
  bits = 32;
  cb_size = 0;
  sub_format = [];
}

abbrev whole_opening : Opening
whole_opening = record {
  device = found_device headset;
  activated = true;
  mix = some stereo_float;
  initialized = true;
  event = true;
  service = true;
  begun = true;
}

-- A session that is opened and then loses its device, and one that finds no service.
abbrev quiet_turn : ℕ → Text → Turn fl
quiet_turn now name = record { wait = timed_out; now = now; default = found_device name }

abbrev lost_turn : Turn fl
lost_turn = record {
  wait = signalled (some (gap 441) ∷ none ∷ []);
  now = 10;
  default = found_device headset;
}

abbrev microphone_sessions : List (DeviceSession fl)
microphone_sessions =
    record {
      opening = whole_opening;
      began = 0;
      turns = quiet_turn 5 headset ∷ lost_turn ∷ [];
      stopping = false;
    }
    ∷ record {
      opening = record whole_opening { service = false };
      began = 0;
      turns = [];
      stopping = true;
    }
    ∷ []

capture_thread-IsClean_example :
    IsClean [] (capture_thread fl 3 microphone_sessions (new_capture fl))
capture_thread-IsClean_example = capture_thread-IsClean fl 3 microphone_sessions (new_capture fl) []

-- The calls are many, and they are made.
capture_thread_calls :
    ltb 40 (length (capture_thread fl 3 microphone_sessions (new_capture fl)).0) ≡ true
unfolding capture_thread ◌>>◌ say attempt acquire check break_if
capture_thread_calls = refl

device_switch_is_noticed_example :
    capture_loop fl 3 stereo_float headset 0
      (quiet_turn 5 headset
        ∷ quiet_turn 1000000020 (codes "speaker")
        ∷ quiet_turn 1200000000 headset
        ∷ [])
      (new_capture fl)
    ≡ capture_loop fl 3 stereo_float headset 0
        (quiet_turn 5 headset ∷ quiet_turn 1000000020 (codes "speaker") ∷ [])
        (new_capture fl)
unfolding is_switched text_eq
device_switch_is_noticed_example =
    device_switch_is_noticed fl 3 stereo_float headset 10 0 (quiet_turn 5 headset ∷ [])
      (quiet_turn 1000000020 (codes "speaker")) (quiet_turn 1200000000 headset ∷ [])
      (new_capture fl) (omega arith) ((λ late. absurd (omega (arith, late))), tt) (omega arith)
      (refl, refl, codes "speaker", refl, refl)

-- One source, which has just joined; another joins between two waits.
abbrev two_sources : Mixer fl
two_sources = record (new_mixer fl) { sources = (3, new_source fl 3 (codes "765")) ∷ [] }

two_sources-IsMixable : IsMixable fl codec two_sources
unfolding IsMixable
two_sources-IsMixable = (new_source-IsFramed fl 3 (codes "765"), tt)

abbrev speaker_turns : List (SpeakerTurn fl codec)
speaker_turns =
    record {
      wait = ready (some 40) got;
      now = 5;
      default = found_device headset;
      meanwhile = λ m. m;
    }
    ∷ record {
      wait = ready (some 0) transient;
      now = 6;
      default = found_device headset;
      meanwhile = λ m. two_sources;
    }
    ∷ []

playback_session-fills_example :
    (((open_playback whole_opening).1 ≡ none)
      × ((playback_session fl codec whole_opening 480 0 speaker_turns two_sources).1 ≡ none))
    ⊎ ((format : Format) × (name : Text) × (filled : List (Filled fl codec)) × (m' : Mixer fl)
        × ((open_playback whole_opening).1 ≡ some (format, name))
        × ((playback_session fl codec whole_opening 480 0 speaker_turns two_sources).1
            ≡ some (some (filled, m')))
        × All (IsWhole fl codec format) filled
        × IsMixable fl codec m')
playback_session-fills_example =
    playback_session-fills fl codec whole_opening 480 0 speaker_turns two_sources
      ((λ m h. h), ((λ m h. two_sources-IsMixable), tt)) two_sources-IsMixable

abbrev speaker_sessions : List (SpeakerSession fl codec)
speaker_sessions =
    record {
      opening = whole_opening;
      size = 480;
      began = 0;
      turns = speaker_turns;
      stopping = false;
    }
    ∷ record {
      opening = record whole_opening { mix = some (record stereo_float { tag = 1 }) };
      size = 480;
      began = 0;
      turns = [];
      stopping = true;
    }
    ∷ []

playback_thread-IsClean_example : IsClean [] (playback_thread fl codec speaker_sessions two_sources)
playback_thread-IsClean_example = playback_thread-IsClean fl codec speaker_sessions two_sources []

abbrev level_zero : Volume fl
level_zero = some (none, some (whole 0))

-- The sound is off at a volume of zero.
is_device_muted_at_zero :
    (is_device_muted_at_os_level fl true (found_device headset) level_zero).1 ≡ some true
unfolding is_device_muted_at_os_level ◌>>◌ say recover acquire return
is_device_muted_at_zero = refl

abbrev restarted : List SessionCall
restarted = stops ∷ starts ∷ starts ∷ stops ∷ starts ∷ []

restarted_session_example :
    (w : Workers) × (run_session restarted new_workers ≡ some w)
    × DeviceOk true w.playback
    × DeviceOk true w.capture
    × (w.network.running ≡ false)
    × (w.network.joinable ≡ w.network.running)
restarted_session_example = restarted_session restarted
