-- ===== src/Extension/Threads.antt =====
-- The threads beside the tick, on all that the extension keeps, and their interleavings
-- (addon/extensions/task_force_radio_pipe/src/Voice/VoiceSession.cpp: start, whose callbacks tie the
-- network client, the transmit controller and the playback together). A call of the game, a
-- tick, a round of the network, a frame of the microphone and a fill of the device are one step each.
use task_force_radio_standal.Base.{Text, ℕ, ◌≡◌, Bool, false, Option, none, some, List, [], ◌∷◌}
use task_force_radio_standal.Float.{Float}
use task_force_radio_standal.Voice.Source.Mixdown.{Codec}
use task_force_radio_standal.Voice.Mixer.{Mixer}
use task_force_radio_standal.Voice.Mixer.Device.{fill_device}
use task_force_radio_standal.Voice.Session.{
  Session, on_voice_frame, on_remote_joined, on_remote_left, on_radio_tx,
  on_connection_state_changed,
}
use task_force_radio_standal.Voice.Network.{
  Event, voice_frame, remote_joined, remote_left, radio_tx, connection_changed, sent, Accept,
  Client, send_voice_frame,
}
use task_force_radio_standal.Voice.Network.Thread.{thread_round}
use task_force_radio_standal.Voice.Transmit.Samples.{MicTools, on_samples_captured}
use task_force_radio_standal.Extension.World.{World, new_world, game_call}
use task_force_radio_standal.Extension.Sender.{sender_tick}

-- The debug mode in the relay's reply.
abbrev pub is_forced : Option Accept → Bool
is_forced none = false
is_forced (some a) = a.debug_audible

-- The packets of the gate through the network client.
unfoldable pub send_all : List (Text × Bool) → Client → Client
unfolding send_voice_frame
send_all [] c = c
send_all ((opus, is_last) ∷ packets) c = send_all packets (send_voice_frame opus is_last c).1

module _ (fl : Float) where
  -- The callbacks of the network client; `forced` is `debugForceAudible()`.
  unfoldable pub on_event : Bool → ℕ → Event → Session fl → Session fl
  unfolding on_voice_frame on_remote_joined on_remote_left on_radio_tx on_connection_state_changed
  on_event forced now (voice_frame sender sequence is_last opus) s =
      on_voice_frame fl sender is_last opus s
  on_event forced now (remote_joined session_id uid name) s =
      on_remote_joined fl session_id uid name s
  on_event forced now (remote_left session_id) s = on_remote_left fl session_id s
  on_event forced now (radio_tx sender active freq range sub) s =
      on_radio_tx fl sender active freq range sub now s
  on_event forced now (connection_changed connected) s =
      on_connection_state_changed fl connected forced s
  on_event forced now (sent bytes) s = s

  unfoldable pub deliver : Bool → ℕ → List Event → Session fl → Session fl
  unfolding on_event
  deliver forced now [] s = s
  deliver forced now (e ∷ events) s = deliver forced now events (on_event forced now e s)

module _ (fl : Float) {R : Type 0} where
  -- A round of the network thread with its callbacks.
  unfoldable pub network_round : Option Accept → ℕ → List Text → World fl R → World fl R
  unfolding thread_round deliver
  network_round reply now queue w =
      let (events, _, client) = thread_round reply now queue w.client in
      record w { client = client; session = deliver fl (is_forced reply) now events w.session }

  -- A frame of the microphone.
  unfoldable pub mic_frame : MicTools fl R → List fl.F → ℕ → World fl R → World fl R
  unfolding on_samples_captured send_all
  mic_frame tools raw now w =
      let (packets, (transmit, denoiser)) =
        on_samples_captured fl tools raw now (w.transmit, w.denoiser) in
      record w { client = send_all packets w.client; transmit = transmit; denoiser = denoiser }

  abbrev pub with_mixer : Mixer fl → World fl R → World fl R
  with_mixer m w = record w { session = record w.session { mixer = m } }

  -- What the threads may do, in any order.
  pub data WorldStep (tools : MicTools fl R) (codec : Codec fl)
      : World fl R → World fl R → Type 0 where
    calls :
        (opus_version line : Text) (now : ℕ) (w : World fl R)
        → WorldStep tools codec w (game_call fl opus_version line now w).1
    ticks : (now : ℕ) (w : World fl R) → WorldStep tools codec w (sender_tick fl now w).1
    exchanges :
        (reply : Option Accept) (now : ℕ) (queue : List Text) (w : World fl R)
        → WorldStep tools codec w (network_round reply now queue w)
    talks :
        (raw : List fl.F) (now : ℕ) (w : World fl R)
        → WorldStep tools codec w (mic_frame tools raw now w)
    plays :
        (step : fl.D) (needed : ℕ) (frames : List (fl.F × fl.F)) (m : Mixer fl) (w : World fl R)
        → fill_device fl codec step needed w.session.mixer ≡ some (frames, m)
        → WorldStep tools codec w (with_mixer m w)

  pub data IsReachable (tools : MicTools fl R) (codec : Codec fl) : World fl R → Type 0 where
    boots : (denoiser : Option R) → IsReachable tools codec (new_world fl denoiser)
    runs :
        {w w' : World fl R}
        → IsReachable tools codec w
        → WorldStep tools codec w w'
        → IsReachable tools codec w'
