-- ===== src/Extension/World.antt =====
-- All that the extension keeps, and a call of the game on it
-- (addon/extensions/task_force_radio_pipe/src/Extension.cpp: the globals and initialize;
-- Voice/VoiceSession.h: the objects a session owns, and what the command processor uses of them).
use task_force_radio_standal.Base.{Text, codes, ℕ, false, Option, []}
use task_force_radio_standal.Float.{Float}
use task_force_radio_standal.State.Data.{State, init}
use task_force_radio_standal.Command.{Processor, process}
use task_force_radio_standal.Voice.Mixer.{set_muted}
use task_force_radio_standal.Voice.Session.{Session, new_session}
use task_force_radio_standal.Voice.Network.{Client}
use task_force_radio_standal.Voice.Network.Thread.{new_client, set_identity}
use task_force_radio_standal.Voice.Transmit.{Transmit, set_ptt_held, set_mic_muted, new_transmit}
use task_force_radio_standal.Tick.{TxRelay, new_relay, LocalCue}

-- `R` is the state of the noise suppressor.
pub record World (fl : Float) (R : Type 0) : Type 0 where
  pub state : State fl
  pub disconnected_since : ℕ
  pub session : Session fl
  pub client : Client
  pub transmit : Transmit fl
  pub denoiser : Option R
  -- the static variables of the tick
  pub relay : TxRelay
  pub cue : LocalCue

module _ (fl : Float) {R : Type 0} where
  -- `initialize`, with the placeholder that `start` gives for an identity.
  abbrev pub new_world : Option R → World fl R
  new_world denoiser = record {
    state = init fl;
    disconnected_since = 0;
    session = new_session fl;
    client = set_identity (codes "0") (codes "TFRS") new_client;
    transmit = new_transmit fl;
    denoiser = denoiser;
    relay = new_relay;
    cue = record { last_active = false; last_subtype = [] };
  }

  -- The session as the command processor sees it.
  abbrev pub processor_of : World fl R → Processor fl
  processor_of w = record {
    state = w.state;
    voice = record {
      connected = w.client.connected;
      mic_muted = w.transmit.mic_muted;
      speaker_muted = w.session.mixer.is_muted;
      transmitting = w.transmit.is_transmitting;
      ptt_held = w.transmit.ptt_held;
    };
    disconnected_since = w.disconnected_since;
  }

  -- What the processor did, in the session's objects.
  unfoldable pub take_processor : Processor fl → World fl R → World fl R
  unfolding set_mic_muted set_ptt_held set_muted
  take_processor p w = record w {
    state = p.state;
    disconnected_since = p.disconnected_since;
    transmit = set_mic_muted fl p.voice.mic_muted (set_ptt_held fl p.voice.ptt_held w.transmit);
    session = record w.session { mixer = set_muted fl p.voice.speaker_muted w.session.mixer };
  }

  unfoldable pub game_call : Text → Text → ℕ → World fl R → Text × World fl R
  unfolding take_processor
  game_call opus_version input now w =
      let (answer, p) = process fl opus_version input now (processor_of w) in
      (answer, take_processor p w)
