-- ===== src/Tick.antt =====
-- The tick (addon/extensions/task_force_radio_pipe/src/Extension.cpp: senderMain and the
-- translations of settings): the relay of our own transmission, the local cue, and the rows that
-- the solver hands to the session.
pub mod Relay
use task_force_radio_standal.Base.{
  ltb, leb, ◌==◌, if◌then◌else◌, Text, text_eq, ℕ, ◌-◌, Bool, true, false, not, ◌&&◌, ◌||◌, Option,
  none, some, [],
}
use task_force_radio_standal.Float.{Float}
use task_force_radio_standal.State.Data.{
  Fx, direct, sw, lr, airborne, dd, phone, speaker, intercom, AudibleUnit,
}
use task_force_radio_standal.State.Queries.{ms}
use task_force_radio_standal.Voice.Dsp.{SourceEffect}
use task_force_radio_standal.Voice.Session.{AudibilityUpdate}
use task_force_radio_standal.Voice.Transmit.{
  TransmitMode, push_to_talk, voice_activation, always_on,
}

unfoldable pub parse_source_effect : Fx → SourceEffect
parse_source_effect Fx.sw = SourceEffect.sw
parse_source_effect Fx.lr = SourceEffect.lr
parse_source_effect Fx.airborne = SourceEffect.airborne
parse_source_effect Fx.dd = SourceEffect.dd
parse_source_effect Fx.phone = SourceEffect.phone
parse_source_effect Fx.speaker = SourceEffect.speaker
parse_source_effect Fx.intercom = SourceEffect.intercom
parse_source_effect Fx.direct = SourceEffect.direct

-- What is announced: the range is the clamped one.
pub record Announcement : Type 0 where
  pub active : Bool
  pub freq : Text
  pub range : ℕ
  pub subtype : Text

-- The static variables of the relay's block.
pub record TxRelay : Type 0 where
  pub sent : Announcement
  pub last_send : ℕ
  pub inactive_repeats_left : ℕ

abbrev pub new_relay : TxRelay
new_relay = record {
  sent = record { active = false; freq = []; range = 0; subtype = [] };
  last_send = 0;
  inactive_repeats_left = 0;
}

abbrev pub refresh_interval : ℕ
refresh_interval = ms 500

abbrev differs : Bool → Bool → Bool
differs true b = not b
differs false b = b

unfoldable pub is_changed : Announcement → Announcement → Bool
unfolding text_eq
is_changed tx sent =
    differs tx.active sent.active
    || (tx.active
        && (not (text_eq tx.freq sent.freq)
            || not (tx.range == sent.range)
            || not (text_eq tx.subtype sent.subtype)))

-- The repeats that are left, and whether to send, before the refresh.
unfoldable pub repeat_inactive : Bool → Bool → ℕ → Bool × ℕ
repeat_inactive changed active left =
    let left' = if changed && not active then 2 else left in
    if not changed && not active && ltb 0 left' then (true, left' - 1) else (changed, left')

-- Whether an announcement is sent, and the relay.
unfoldable pub relay_tick : ℕ → Announcement → TxRelay → Bool × TxRelay
unfolding is_changed repeat_inactive
relay_tick now tx r =
    let (repeated, left) =
      repeat_inactive (is_changed tx r.sent) tx.active r.inactive_repeats_left in
    let send = repeated || (tx.active && leb refresh_interval (now - r.last_send)) in
    if send
    then (true, record { sent = tx; last_send = now; inactive_repeats_left = left })
    else (false, record r { inactive_repeats_left = left })

-- The edge of our own transmission: the cue to play, if any, and what is remembered.
pub record LocalCue : Type 0 where
  pub last_active : Bool
  pub last_subtype : Text

unfoldable pub local_cue_tick : Bool → Text → LocalCue → Option (Text × Bool) × LocalCue
local_cue_tick active subtype c =
    let c' = record c {
      last_active = active;
      last_subtype = if active then subtype else c.last_subtype;
    } in
    if differs active c.last_active
    then (some (if active then subtype else c.last_subtype, active), c')
    else (none, c')

module _ (fl : Float) where
  open fl use {F, lt, decimal}

  unfoldable pub parse_transmit_mode : F → TransmitMode
  parse_transmit_mode value =
      if lt value (decimal 5 1)
      then push_to_talk
      else if lt value (decimal 15 1)
      then voice_activation
      else always_on

  unfoldable pub update_of : AudibleUnit fl → AudibilityUpdate fl
  unfolding parse_source_effect
  update_of unit = record {
    uid = unit.uid;
    nickname = unit.nickname;
    path = record {
      gain = unit.gain;
      azimuth_radians = unit.az;
      muted = unit.muted;
      effect = parse_source_effect unit.fx;
      error_level = unit.err;
      stereo_mode = unit.stereo_mode;
    };
  }
