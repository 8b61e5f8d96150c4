-- ===== src/Voice/Source.antt =====
-- The playback of one remote speaker
-- (addon/extensions/task_force_radio_pipe/src/Voice/RemoteVoiceSource.h and RemoteVoiceSource.cpp):
-- its state, the queue of packets and the cues. Mixdown makes a stereo frame of a decoded one,
-- Frames is tryProduceNextFrame, Render is render.
pub mod Mixdown
pub mod Frames
pub mod Render
pub mod Jitter
pub mod Talkspurt
pub mod Slots
pub mod Rendered
pub mod Kept
pub mod Sound
pub mod Playing
pub mod Cue
use task_force_radio_standal.Base.{
  ltb, if◌then◌else◌, length, replicate, Text, ℕ, Bool, true, false, not, ◌&&◌, Option, none, some,
  List, [], ◌∷◌, ◌++◌,
}
use task_force_radio_standal.Base.Int.{ℤ, pos, eqb_ℤ}
use task_force_radio_standal.Float.{Float}
use task_force_radio_standal.Geometry.{zero_f}
use task_force_radio_standal.Voice.Dsp.{SourceEffect, direct, intercom, panning}
use task_force_radio_standal.Voice.Dsp.Chain.{Chain}

pub record RemoteSourceState (fl : Float) : Type 0 where
  pub gain : fl.F
  pub azimuth_radians : fl.F
  pub muted : Bool
  pub effect : SourceEffect
  pub error_level : fl.F
  pub stereo_mode : ℤ

pub record PendingFrame : Type 0 where
  pub opus : Text
  pub is_last : Bool

-- A clip of the beep table: its samples' number stands for the samples.
pub record BeepClip : Type 0 where
  pub family : Text
  pub is_local : Bool
  pub is_start : Bool
  pub count : ℕ

-- A call of the decoder: `decode` of a packet, or `decodePacketLoss`.
pub data Decoded : Type 0 where
  packet : Text → Decoded
  packet_loss : Decoded

pub record Source (fl : Float) : Type 0 where
  pub session_id : ℕ
  pub uid : Text
  pub pending : List PendingFrame
  -- the calls of the decoder up to now, the last one first: they determine its state
  pub decoder : List Decoded
  pub stereo_frame : List fl.F
  -- in samples, of which a stereo frame has two
  pub stereo_frame_pos : ℕ
  pub is_playing : Bool
  pub concealment_count : ℕ
  pub concealment_exhausted_count : ℕ
  pub chains : List (Option (Chain fl))
  pub states : List (RemoteSourceState fl)
  pub render_states : List (RemoteSourceState fl)
  pub pending_beep : Option BeepClip
  pub beep : Option BeepClip
  pub beep_pos : ℕ

abbrev pub jitter_target_frames : ℕ
jitter_target_frames = 4

abbrev pub max_concealment_frames : ℕ
max_concealment_frames = 10

abbrev pub max_queued_frames : ℕ
max_queued_frames = 10

abbrev pub frame_samples : ℕ
frame_samples = 960

abbrev pub stereo_samples : ℕ
stereo_samples = 1920

abbrev pub is_radio_reception : SourceEffect → Bool
is_radio_reception direct = false
is_radio_reception intercom = false
is_radio_reception _ = true

-- `while (m_pending.size() > kMaxQueuedFrames) m_pending.pop_front();`
unfoldable pub drop_oldest : List PendingFrame → List PendingFrame
drop_oldest [] = []
drop_oldest (f ∷ q) =
    let rest = drop_oldest q in if ltb max_queued_frames (length (f ∷ q)) then rest else f ∷ q

abbrev pub frame_is_last : PendingFrame → Bool
frame_is_last f = f.is_last

module _ (fl : Float) where
  open fl use {F, lt, mul, decimal}

  unfoldable pub new_source : ℕ → Text → Source fl
  unfolding replicate
  new_source session_id uid = record {
    session_id = session_id;
    uid = uid;
    pending = [];
    decoder = [];
    stereo_frame = replicate stereo_samples (zero_f fl);
    stereo_frame_pos = stereo_samples;
    is_playing = false;
    concealment_count = 0;
    concealment_exhausted_count = 0;
    chains = [];
    states = [];
    render_states = [];
    pending_beep = none;
    beep = none;
    beep_pos = 0;
  }

  unfoldable pub enqueue_opus_frame : Text → Bool → Source fl → Source fl
  unfolding drop_oldest
  enqueue_opus_frame opus is_last s = record s {
    pending = drop_oldest (s.pending ++ record { opus = opus; is_last = is_last } ∷ []);
  }

  unfoldable pub set_states : List (RemoteSourceState fl) → Source fl → Source fl
  set_states states s = record s { states = states }

  unfoldable pub trigger_beep : BeepClip → Source fl → Source fl
  trigger_beep clip s = record s { pending_beep = some clip }

  -- `!(s.muted || !(s.gain > 0.0f))`
  abbrev pub is_audible : RemoteSourceState fl → Bool
  is_audible p = not p.muted && lt (zero_f fl) p.gain

  -- `remove_if` and `erase`
  unfoldable pub audible_paths : List (RemoteSourceState fl) → List (RemoteSourceState fl)
  audible_paths [] = []
  audible_paths (p ∷ ps) = let rest = audible_paths ps in if is_audible p then p ∷ rest else rest

  -- Left and right gain of a path.
  unfoldable pub channel_gains : RemoteSourceState fl → F × F
  unfolding panning
  channel_gains p =
      if eqb_ℤ p.stereo_mode (pos 1)
      then (mul p.gain (decimal 15 1), zero_f fl)
      else if eqb_ℤ p.stereo_mode (pos 2)
      then (zero_f fl, mul p.gain (decimal 15 1))
      else (let (left, right) = panning fl p.azimuth_radians in (mul left p.gain, mul right p.gain))
