-- ===== src/State/Parse.antt =====
-- The parsers at the top of addon/extensions/task_force_radio_pipe/src/State.cpp.
use task_force_radio_standal.Base.{
  ltb, ◌==◌, if◌then◌else◌, length, get_or, take, drop, any, Text, codes, is_empty, text_eq,
  text_is_eq, ◌-◌, Bool, not, ◌&&◌, ◌||◌, Option, none, some, List, [], ◌∷◌,
}
use task_force_radio_standal.Base.Map.{Map, insert}
use task_force_radio_standal.Float.{Float}
use task_force_radio_standal.Util.{split, parse_arma_number, parse_arma_number_to_int}
use task_force_radio_standal.Geometry.{zero_f, null_vec, parse_vec3}
use task_force_radio_standal.State.Data.{
  FreqSetting, VehicleDesc, Fx, sw, lr, airborne, dd, phone, no_vehicle,
}

abbrev pub valid_config_keys : List Text
valid_config_keys =
    codes "full_duplex"
    ∷ codes "addon_version"
    ∷ codes "intercomVolume"
    ∷ codes "intercomEnabled"
    ∷ codes "pluginTimeout"
    ∷ codes "headsetLowered"
    ∷ codes "spectatorNotHearEnemies"
    ∷ codes "spectatorCanHearFriendlies"
    ∷ codes "tangentReleaseDelay"
    ∷ codes "moveWhileTabbedOut"
    ∷ codes "intercomDucking"
    ∷ codes "minimumPluginVersion"
    ∷ codes "objectInterceptionStrength"
    ∷ codes "voiceCone"
    ∷ codes "allowDebugging"
    ∷ codes "noAutomoveSpectator"
    ∷ codes "disableAutomaticMute"
    ∷ codes "muteSpectators"
    ∷ codes "voice_serverHost"
    ∷ codes "voice_serverPort"
    ∷ codes "voice_serverPassword"
    ∷ codes "voice_micVolume"
    ∷ codes "voice_speakerVolume"
    ∷ codes "voice_vadThreshold"
    ∷ codes "voice_transmitMode"
    ∷ codes "voice_noiseSuppression"
    ∷ []

unfoldable pub is_valid_config_key : Text → Bool
unfolding text_eq
is_valid_config_key key = any (text_eq key) valid_config_keys

-- "digital" of a sender under water is heard as a diver's radio.
unfoldable pub subtype_to_fx : Text → Bool → Option Fx
unfolding text_eq
subtype_to_fx subtype sender_underwater =
    if text_eq subtype (codes "digital")
    then some (if sender_underwater then dd else sw)
    else if text_eq subtype (codes "digital_lr")
    then some lr
    else if text_eq subtype (codes "airborne")
    then some airborne
    else if text_eq subtype (codes "dd")
    then some dd
    else if text_eq subtype (codes "phone")
    then some phone
    else none

module _ (fl : Float) where
  unfoldable pub parse_vehicle : Text → VehicleDesc fl
  unfolding text_eq split parse_arma_number parse_arma_number_to_int parse_vec3
  parse_vehicle vehicle_id =
      if is_empty vehicle_id || text_eq vehicle_id (codes "no")
      then no_vehicle fl
      else (let parts = split vehicle_id 0x10 in
          if ltb (length parts) 3 then no_vehicle fl else record {
            name = get_or parts 0 [];
            isolation =
                if text_eq (get_or parts 1 []) (codes "turnout")
                then zero_f fl
                else parse_arma_number fl (get_or parts 1 []);
            intercom_slot = parse_arma_number_to_int fl (get_or parts 2 []);
            velocity =
                if ltb 3 (length parts) then parse_vec3 fl (get_or parts 3 []) else null_vec fl;
          })

  -- The first and the last byte are dropped: `substr(1, length - 2)`.
  abbrev pub unwrap : Text → Text
  unwrap s = take (length s - 2) (drop 1 s)

  -- One entry of a frequency list; entries of another shape are skipped.
  unfoldable pub parse_frequency : Text → Map Text FreqSetting → Map Text FreqSetting
  unfolding split parse_arma_number_to_int insert text_eq
  parse_frequency entry result =
      if ltb (length entry) 2
      then result
      else (let parts = split (unwrap entry) b'|' in
          if not (length parts == 3) && not (length parts == 4)
          then result
          else insert (get_or parts 0 [])
              (record {
                volume = parse_arma_number_to_int fl (get_or parts 1 []);
                stereo_mode = parse_arma_number_to_int fl (get_or parts 2 []);
                radio_classname = if length parts == 4 then get_or parts 3 [] else [];
              })
              result)

  unfoldable pub parse_entries : List Text → Map Text FreqSetting → Map Text FreqSetting
  unfolding parse_frequency
  parse_entries [] result = result
  parse_entries (entry ∷ entries) result = parse_entries entries (parse_frequency entry result)

  unfoldable pub parse_frequencies : Text → Map Text FreqSetting
  unfolding split parse_entries
  parse_frequencies raw =
      if ltb (length raw) 2
      then []
      else if is_empty (unwrap raw)
      then []
      else parse_entries (split (unwrap raw) b',') []
