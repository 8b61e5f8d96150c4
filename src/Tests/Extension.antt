-- ===== src/Tests/Extension.antt =====
-- Examples of the theorems on the whole extension.
use task_force_radio_standal.Extension.Threads.{
  mic_frame, network_round, IsReachable, boots, runs, ticks, exchanges,
}
use task_force_radio_standal.Base.{
  if◌then◌else◌, length, take, replicate, Text, codes, text_eq, ℕ, suc, ◌≡◌, refl, true, false,
  Option, none, some, List, [], ◌∷◌,
}
use task_force_radio_standal.Float.Fixed.{whole}
use task_force_radio_standal.Voice.Network.Thread.{new_client, set_server, thread_round}
use task_force_radio_standal.Voice.Transmit.Samples.{MicTools}
use task_force_radio_standal.Voice.Mixer.{Mixer}
use task_force_radio_standal.Voice.Mixer.Device.{fill_device}
use task_force_radio_standal.Extension.{
  c_str, rv_extension, rv_extension-answers, parse_port, bad_port_waits,
}
use task_force_radio_standal.Extension.World.{World, new_world}
use task_force_radio_standal.Extension.Sender.{sender_tick}
use task_force_radio_standal.Extension.Reachable.{
  IsWorldOk, IsReachable-IsWorldOk, reachable_device_is_fed,
}
use task_force_radio_standal.Extension.Override.{override_reaches_the_gate}
use task_force_radio_standal.Tests.Data.{fl, fl-ConstantLaws, codec}

-- A processor that counts its calls, answers `OK` to a call, and throws where it is told to.
abbrev counting : Text → ℕ → Option Text × ℕ
counting function n = (if text_eq function (codes "THROW") then none else some (codes "OK"), suc n)

-- A call that throws has been counted, and is answered by an empty text.
rv_extension-answers_example :
    (length (rv_extension counting false true (codes "THROW") (7 ∷ 7 ∷ 7 ∷ 7 ∷ []) 0).0 ≡ 4)
    × (c_str (rv_extension counting false true (codes "THROW") (7 ∷ 7 ∷ 7 ∷ 7 ∷ []) 0).0
        ≡ take 3 (c_str []))
    × ((rv_extension counting false true (codes "THROW") (7 ∷ 7 ∷ 7 ∷ 7 ∷ []) 0).1 ≡ 1)
unfolding text_eq
rv_extension-answers_example =
    rv_extension-answers counting false true (codes "THROW") (7 ∷ 7 ∷ 7 ∷ 7 ∷ []) 0 3 refl

bad_port_waits_example :
    thread_round none 5 [] (set_server (codes "host") (parse_port fl (whole 70000)) [] new_client)
    ≡ ([], [], set_server (codes "host") 0 [] new_client)
bad_port_waits_example = bad_port_waits fl (whole 70000) (codes "host") [] none 5 [] new_client refl

-- A suppressor that mixes nothing in, and a codec that packs a frame in a byte.
abbrev tools : MicTools fl Unit
tools = record {
  rnnoise_process_frame = λ r samples. (samples, r);
  opus_encode = λ pcm. some (b'v' ∷ []);
}

abbrev fresh : World fl Unit
fresh = new_world fl (some tt)

-- The world behind a tick and a round.
abbrev later : World fl Unit
later = network_round fl none 2 [] (sender_tick fl 1 fresh).1

later-IsReachable : IsReachable fl tools codec later
later-IsReachable =
    runs (runs (boots (some tt)) (ticks 1 fresh)) (exchanges none 2 [] (sender_tick fl 1 fresh).1)

IsReachable-IsWorldOk_example : IsWorldOk fl later
IsReachable-IsWorldOk_example = IsReachable-IsWorldOk fl fl-ConstantLaws later-IsReachable

reachable_device_is_fed_example :
    (frames : List (fl.F × fl.F)) × (m : Mixer fl) × (fill_device fl codec
        (whole 1)
        441
        later.session.mixer
      ≡ some (frames, m))
    × (length frames ≡ 441)
reachable_device_is_fed_example =
    reachable_device_is_fed fl fl-ConstantLaws (whole 1) 441 later-IsReachable

-- Killed a moment ago.
abbrev killed : World fl Unit
killed = record fresh {
  state = record fresh.state { pending_transmit_override = some (some false) };
}

override_reaches_the_gate_example :
    (mic_frame fl tools
      (replicate 960 (whole 1))
      2
      (sender_tick fl 1 killed).1).transmit.is_transmitting
    ≡ false
override_reaches_the_gate_example =
    override_reaches_the_gate fl tools false (replicate 960 (whole 1)) 1 2 killed refl
