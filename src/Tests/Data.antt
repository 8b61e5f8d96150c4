-- ===== src/Tests/Data.antt =====
-- The data of the examples: a session in which a player named Alpha is known, tuned and alive.
use task_force_radio_standal.Base.{
  length, replicate, Text, codes, refl, true, false, some, List, [], ◌∷◌,
}
use task_force_radio_standal.Base.Int.{pos}
use task_force_radio_standal.Float.{Float}
use task_force_radio_standal.Float.Fixed.{whole, fixed_float}
use task_force_radio_standal.Geometry.{null_vec}
use task_force_radio_standal.State.Data.{
  FreqSetting, VehicleDesc, RemoteClient, RemoteTx, State, no_vehicle, default_client, init,
}
use task_force_radio_standal.State.WellFormed.{ConstantLaws}
use task_force_radio_standal.Command.{Processor}
use task_force_radio_standal.Voice.Dsp.{SourceEffect}
use task_force_radio_standal.Voice.Source.{
  RemoteSourceState, PendingFrame, BeepClip, Source, new_source,
}
use task_force_radio_standal.Voice.Source.Mixdown.{Codec}

abbrev pub fl : Float
fl = fixed_float

pub fl-ConstantLaws : ConstantLaws fl
fl-ConstantLaws = record {
  zero_le_zero = refl;
  zero_le_max = refl;
  max_lt_zero = refl;
  max_lt_max = refl;
  one_le_zero = refl;
  zero_lt_twenty = refl;
}

abbrev pub alpha : Text
alpha = codes "Alpha"

-- The state behind the first FREQ of Alpha.
abbrev pub at_alpha : State fl
at_alpha = record (init fl) { my_nickname = alpha; alive = true }

abbrev pub tangent_press : List Text
tangent_press =
    codes "TANGENT"
    ∷ codes "PRESSED"
    ∷ codes "50.1"
    ∷ codes "5000"
    ∷ codes "digital"
    ∷ codes "TFAR_anprc152"
    ∷ []

abbrev pub tangent_release : List Text
tangent_release =
    codes "TANGENT"
    ∷ codes "RELEASED"
    ∷ codes "50.1"
    ∷ codes "5000"
    ∷ codes "digital"
    ∷ codes "TFAR_anprc152"
    ∷ []

abbrev pub processor : Processor fl
processor = record {
  state = init fl;
  voice = record {
    connected = false;
    mic_muted = false;
    speaker_muted = false;
    transmitting = false;
    ptt_held = false;
  };
  disconnected_since = 0;
}

-- Alpha with the tangent pressed.
abbrev pub at_transmission : State fl
at_transmission = record at_alpha {
  tangent_pressed = true;
  tx_frequency = codes "50.1";
  tx_subtype = codes "digital";
  tx_radio_classname = codes "TFAR_anprc152";
  tx_range = whole 5000;
}

abbrev pub freq_message : List Text
freq_message =
    codes "FREQ"
    ∷ []
    ∷ []
    ∷ codes "true"
    ∷ codes "20"
    ∷ codes "Alpha"
    ∷ codes "0"
    ∷ codes "1"
    ∷ codes "7"
    ∷ codes "1"
    ∷ codes "20"
    ∷ []

abbrev pub config_message : List Text
config_message = codes "SETCFG" ∷ codes "full_duplex" ∷ codes "true" ∷ []

-- The 14 tokens of a POS without a speech range.
abbrev pub pos_message : List Text
pos_message =
    codes "POS"
    ∷ codes "Bravo"
    ∷ codes "[10,20,0]"
    ∷ codes "[0,1,0]"
    ∷ codes "true"
    ∷ codes "true"
    ∷ codes "false"
    ∷ codes "false"
    ∷ codes "no"
    ∷ codes "0"
    ∷ codes "1"
    ∷ codes "0"
    ∷ codes "false"
    ∷ codes "false"
    ∷ []

-- One mast stands.
abbrev pub at_mast : State fl
at_mast = record at_alpha {
  antennas = record { net_id = codes "2:1"; pos = null_vec fl; range = whole 500 } ∷ [];
}

-- The connection has been down since the first second.
abbrev pub down : Processor fl
down = record processor { disconnected_since = 1000000000 }

-- A source in a talkspurt, heard by radio.
abbrev pub radio_path : RemoteSourceState fl
radio_path = record {
  gain = whole 1;
  azimuth_radians = whole 0;
  muted = false;
  effect = SourceEffect.sw;
  error_level = whole 0;
  stereo_mode = pos 0;
}

abbrev pub speech_frame : PendingFrame
speech_frame = record { opus = b'a' ∷ []; is_last = false }

abbrev pub end_frame : PendingFrame
end_frame = record { opus = b'z' ∷ []; is_last = true }

abbrev pub heard_source : Source fl
heard_source = record (new_source fl 3 (codes "765")) { states = radio_path ∷ [] }

abbrev pub bravo : Text
bravo = codes "Bravo"

-- The vehicle that Alpha and Bravo sit in, on the same intercom.
abbrev hunter : VehicleDesc fl
hunter = record (no_vehicle fl) { name = codes "Hunter"; intercom_slot = pos 0 }

abbrev pub alpha_client : RemoteClient fl
alpha_client = record (default_client fl) { nickname = alpha; can_use_sw = true; vehicle = hunter }

-- Bravo, who spectates.
abbrev pub bravo_client : RemoteClient fl
bravo_client = record (default_client fl) {
  nickname = bravo;
  is_spectating = true;
  vehicle = hunter;
}

-- Alpha and Bravo stand in the same place.
abbrev pub at_bravo : State fl
at_bravo = record at_alpha { clients = (alpha, alpha_client) ∷ (bravo, bravo_client) ∷ [] }

abbrev pub bravo_tx : RemoteTx fl
bravo_tx = record {
  nickname = bravo;
  frequency = codes "50.1";
  range = whole 5000;
  subtype = codes "digital";
  received = 0;
}

abbrev pub other_radio : FreqSetting
other_radio = record { volume = pos 7; stereo_mode = pos 0; radio_classname = codes "TFAR_rf7800" }

-- Alpha transmits with half duplex, and another radio of Alpha's is tuned to Bravo's frequency.
abbrev pub at_half_duplex : State fl
at_half_duplex = record at_transmission {
  config = (codes "full_duplex", codes "false") ∷ [];
  sw_frequencies = (codes "50.1", other_radio) ∷ [];
}

-- A codec that gives the number of each call, and clips that rise.
abbrev pub codec : Codec fl
codec = record {
  opus_decode = λ calls. some (replicate 960 (pos (length calls)));
  draws = λ session call slot draw. whole 0;
  clip_sample = λ clip at. pos at;
}

abbrev pub start_clip : BeepClip
start_clip = record { family = codes "digital"; is_local = false; is_start = true; count = 12669 }
