-- ===== src/State/Data.antt =====
-- The records of addon/extensions/task_force_radio_pipe/src/State.h. A `time_point` is a number of
-- nanoseconds, where the default-constructed one is 0.
use task_force_radio_standal.Base.{Text, codes, ℕ, Bool, true, false, Option, none, List, []}
use task_force_radio_standal.Base.Int.{ℤ, pos, negsuc}
use task_force_radio_standal.Base.Map.{Map}
use task_force_radio_standal.Float.{Float}
use task_force_radio_standal.Geometry.{Vec3, zero_f, one_f, null_vec}

pub record FreqSetting : Type 0 where
  pub volume : ℤ
  pub stereo_mode : ℤ
  pub radio_classname : Text

pub record VehicleDesc (fl : Float) : Type 0 where
  pub name : Text
  pub isolation : fl.F
  pub intercom_slot : ℤ
  pub velocity : Vec3 fl

pub record RemoteClient (fl : Float) : Type 0 where
  pub nickname : Text
  pub position : Vec3 fl
  pub view_direction : Vec3 fl
  pub can_speak : Bool
  pub can_use_sw : Bool
  pub can_use_lr : Bool
  pub can_use_dd : Bool
  pub vehicle : VehicleDesc fl
  pub terrain_interception : ℤ
  pub voice_volume_multiplier : fl.F
  pub speak_range_meters : fl.F
  pub object_interception : ℤ
  pub is_spectating : Bool
  pub is_enemy_to_player : Bool
  pub dead : Bool
  pub last_update : ℕ

pub record SpeakerData (fl : Float) : Type 0 where
  pub radio_id : Text
  pub frequencies : List Text
  pub owner_nickname : Text
  pub pos : Vec3 fl
  pub volume : ℤ
  pub vehicle : VehicleDesc fl
  pub wave_z : fl.F

pub record AntennaData (fl : Float) : Type 0 where
  pub net_id : Text
  pub pos : Vec3 fl
  pub range : fl.F

pub record RemoteTx (fl : Float) : Type 0 where
  pub nickname : Text
  pub frequency : Text
  pub range : fl.F
  pub subtype : Text
  pub received : ℕ

-- The effect of an `AudibleUnit`, which the source spells as a string.
pub data Fx : Type 0 where
  direct sw lr airborne dd phone speaker intercom : Fx

pub record AudibleUnit (fl : Float) : Type 0 where
  pub uid : Text
  pub nickname : Text
  pub gain : fl.F
  pub az : fl.F
  pub muted : Bool
  pub fx : Fx
  pub err : fl.F
  pub stereo_mode : ℤ

pub record State (fl : Float) : Type 0 where
  pub clients : Map Text (RemoteClient fl)
  pub my_nickname : Text
  pub sw_frequencies : Map Text FreqSetting
  pub lr_frequencies : Map Text FreqSetting
  pub alive : Bool
  pub speak_volume_meters : ℤ
  pub waves_level : fl.F
  pub terrain_interception_coefficient : fl.F
  pub global_volume : fl.F
  pub receiving_distance_multiplicator : fl.F
  pub speaker_distance : fl.F
  pub tangent_pressed : Bool
  pub tangent_is_lr : Bool
  pub tx_frequency : Text
  pub tx_subtype : Text
  pub tx_radio_classname : Text
  pub tx_range : fl.F
  pub speakers : List (SpeakerData fl)
  pub antennas : List (AntennaData fl)
  pub config : Map Text Text
  pub voice_connected : Bool
  pub status_transmitting : Bool
  pub name_to_uid : Map Text Text
  pub talking_names : List Text
  pub remote_tx : Map Text (RemoteTx fl)
  pub have_config : Bool
  pub config_requested_at : ℕ
  pub receiving_from : List Text
  pub receiving_any_radio : Bool
  pub lr_incoming : Bool
  pub lr_incoming_pending : Bool
  -- nothing pending; a pending clear; a pending value
  pub pending_transmit_override : Option (Option Bool)

module _ (fl : Float) where
  abbrev pub no_vehicle : VehicleDesc fl
  no_vehicle = record {
    name = codes "no";
    isolation = zero_f fl;
    intercom_slot = negsuc 0;
    velocity = null_vec fl;
  }

  abbrev pub default_client : RemoteClient fl
  default_client = record {
    nickname = [];
    position = null_vec fl;
    view_direction = null_vec fl;
    can_speak = true;
    can_use_sw = false;
    can_use_lr = false;
    can_use_dd = false;
    vehicle = no_vehicle;
    terrain_interception = pos 0;
    voice_volume_multiplier = one_f fl;
    speak_range_meters = fl.decimal 20 0;
    object_interception = pos 0;
    is_spectating = false;
    is_enemy_to_player = false;
    dead = false;
    last_update = 0;
  }

  abbrev pub init : State fl
  init = record {
    clients = [];
    my_nickname = [];
    sw_frequencies = [];
    lr_frequencies = [];
    alive = false;
    speak_volume_meters = pos 20;
    waves_level = zero_f fl;
    terrain_interception_coefficient = fl.decimal 7 0;
    global_volume = one_f fl;
    receiving_distance_multiplicator = one_f fl;
    speaker_distance = fl.decimal 20 0;
    tangent_pressed = false;
    tangent_is_lr = false;
    tx_frequency = [];
    tx_subtype = [];
    tx_radio_classname = [];
    tx_range = zero_f fl;
    speakers = [];
    antennas = [];
    config = [];
    voice_connected = false;
    status_transmitting = false;
    name_to_uid = [];
    talking_names = [];
    remote_tx = [];
    have_config = false;
    config_requested_at = 0;
    receiving_from = [];
    receiving_any_radio = false;
    lr_incoming = false;
    lr_incoming_pending = false;
    pending_transmit_override = none;
  }
