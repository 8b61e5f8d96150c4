-- ===== src/State/Solver/Paths.antt =====
-- The ways in which one client is heard
-- (addon/extensions/task_force_radio_pipe/src/State.cpp: addAudibleForClientLocked). `Scene` holds
-- what the function computes once.
use task_force_radio_standal.Base.{
  if◌then◌else◌, any, Text, codes, is_empty, text_eq, text_is_eq, ℕ, Bool, true, false, not, ◌&&◌,
  ◌||◌, Option, none, some, List, [], ◌∷◌, ◌++◌,
}
use task_force_radio_standal.Base.Int.{ℤ, pos, ltb_ℤ}
use task_force_radio_standal.Base.Map.{lookup}
use task_force_radio_standal.Float.{Float}
use task_force_radio_standal.Geometry.{
  Vec3, zero_f, one_f, speaker_gain, dd_min_distance, dd_max_distance, distance_to, is_null,
  distance_underwater, volume_multiplier, volume_attenuation, azimuth_to, clampf,
}
use task_force_radio_standal.State.Data.{
  FreqSetting, RemoteClient, SpeakerData, RemoteTx, Fx, AudibleUnit, State,
}
use task_force_radio_standal.State.Parse.{subtype_to_fx}
use task_force_radio_standal.State.Queries.{config_bool}
use task_force_radio_standal.State.Solver.{extrapolated_position}

pub record Scene (fl : Float) : Type 0 where
  pub now : ℕ
  pub me : RemoteClient fl
  pub other : RemoteClient fl
  pub my_pos : Vec3 fl
  pub his_pos : Vec3 fl
  pub headset_lowered : Bool

module _ (fl : Float) where
  open fl use {F, decimal, lt, le, add, sub, mul, div, pow, of_int}

  abbrev pub scene : ℕ → RemoteClient fl → RemoteClient fl → State fl → Scene fl
  scene now me other s = record {
    now = now;
    me = me;
    other = other;
    my_pos = extrapolated_position fl now me;
    his_pos = extrapolated_position fl now other;
    headset_lowered = config_bool fl (codes "headsetLowered") false s;
  }

  abbrev pub unit_of : Text → Fx → F → F → F → ℤ → AudibleUnit fl
  unit_of nickname fx gain az err stereo_mode = record {
    uid = [];
    nickname = nickname;
    gain = gain;
    az = az;
    muted = false;
    fx = fx;
    err = err;
    stereo_mode = stereo_mode;
  }

  -- `if (unit.gain > 0.0f) out.push_back(unit);`
  abbrev pub if_audible : AudibleUnit fl → List (AudibleUnit fl)
  if_audible unit = if lt (zero_f fl) unit.gain then unit ∷ [] else []

  abbrev smaller : F → F → F
  smaller a b = if lt a b then a else b

  abbrev error_of : F → F → F
  error_of distance_error loss = clampf fl (smaller distance_error loss) (zero_f fl) (one_f fl)

  abbrev at_least_one : F → F
  at_least_one r = if lt (one_f fl) r then r else one_f fl

  -- The radio that receives, and whether it is a long-range one. Half duplex: not the radio we
  -- transmit with.
  unfoldable pub receiving_radio : Scene fl → RemoteTx fl → State fl → Option (FreqSetting × Bool)
  unfolding lookup text_eq
  receiving_radio v tx s =
      let lr_radio = if v.me.can_use_lr then lookup tx.frequency s.lr_frequencies else none in
      let sw_radio = if v.me.can_use_sw then lookup tx.frequency s.sw_frequencies else none in
      let chosen : Option (FreqSetting × Bool) = elim lr_radio [
        | some f ↦ some (f, true)
        | none ↦ elim sw_radio [ none ↦ none | some f ↦ some (f, false) ]
      ] in
      elim chosen [
        | none ↦ none
        | some (f, via_lr) ↦
            if not (config_bool fl (codes "full_duplex") true s)
              && s.tangent_pressed
              && not (is_empty s.tx_radio_classname)
              && text_eq f.radio_classname s.tx_radio_classname
            then none
            else some (f, via_lr)
      ]

  -- The distortion of a dive radio.
  unfoldable pub underwater_error : Scene fl → RemoteTx fl → State fl → F
  underwater_error v tx s =
      let reach =
        add (dd_min_distance fl)
          (mul (sub (dd_max_distance fl) (dd_min_distance fl)) (sub (one_f fl) s.waves_level)) in
      let under = distance_underwater fl v.my_pos v.his_pos in
      let normal = distance_to fl v.my_pos v.his_pos in
      let range = at_least_one tx.range in
      div
        (add (mul under (div range (if lt (zero_f fl) reach then reach else one_f fl)))
          (sub normal under))
        range

  abbrev is_dd : Fx → Bool
  is_dd Fx.dd = true
  is_dd _ = false

  abbrev is_phone : Fx → Bool
  is_phone Fx.phone = true
  is_phone _ = false

  unfoldable pub earpiece_unit :
      Scene fl → RemoteTx fl → F → F → FreqSetting → Fx → State fl → AudibleUnit fl
  unfolding underwater_error
  earpiece_unit v tx effective loss f fx s =
      let level = volume_multiplier fl (of_int f.volume) in
      let level' = if v.headset_lowered then mul level (decimal 1 1) else level in
      let gain = if is_phone fx then mul level' (decimal 10 0) else mul level' (decimal 35 2) in
      let err =
        if is_dd fx
        then error_of (underwater_error v tx s) loss
        else error_of (div effective (at_least_one tx.range)) loss in
      unit_of v.other.nickname fx gain (zero_f fl) err f.stereo_mode

  -- The headset, and whether a long-range radio is being received.
  unfoldable pub radio_paths :
      Scene fl → RemoteTx fl → F → F → State fl → List (AudibleUnit fl) × Bool
  unfolding receiving_radio earpiece_unit
  radio_paths v tx effective loss s =
      let sender_underwater = lt v.his_pos.z (zero_f fl) && not v.other.can_use_sw in
      elim (receiving_radio v tx s) [
        | none ↦ ([], false)
        | some (f, via_lr) ↦ elim (subtype_to_fx tx.subtype sender_underwater) [
          | none ↦ ([], false)
          | some fx ↦ (
            if_audible (earpiece_unit v tx effective loss f fx s),
            via_lr && ltb_ℤ (pos 2) f.volume,
          )
        ]
      ]

  -- The place of a speaker: its own, or that of its owner.
  unfoldable pub speaker_place : Scene fl → SpeakerData fl → State fl → Option (Vec3 fl)
  unfolding lookup
  speaker_place v box s =
      if is_null fl box.pos
      then elim (lookup box.owner_nickname s.clients) [
        | none ↦ none
        | some owner ↦ some (extrapolated_position fl v.now owner)
      ]
      else some box.pos

  unfoldable pub speaker_unit :
      Scene fl → RemoteTx fl → F → F → SpeakerData fl → Vec3 fl → State fl → AudibleUnit fl
  unfolding text_eq
  speaker_unit v tx effective loss box place s =
      let vehicle_loss =
        if text_eq v.me.vehicle.name box.vehicle.name
        then zero_f fl
        else clampf fl (add v.me.vehicle.isolation box.vehicle.isolation) (zero_f fl)
            (decimal 99 2) in
      let reach =
        if ltb_ℤ box.volume (pos 20)
        then mul (div (of_int box.volume) (decimal 10 0)) s.speaker_distance
        else mul (of_int box.volume) (decimal 19 1) in
      let distance = distance_to fl v.my_pos place in
      let hear = v.other.can_speak && v.me.can_speak in
      let through = sub (one_f fl) vehicle_loss in
      let attenuation =
        if lt vehicle_loss (decimal 1 2)
        then volume_attenuation fl distance hear reach (one_f fl)
        else mul (volume_attenuation fl distance hear reach through) (pow through (decimal 12 1)) in
      unit_of v.other.nickname Fx.speaker (mul attenuation (speaker_gain fl))
        (azimuth_to fl v.my_pos v.me.view_direction place)
        (error_of (div effective (at_least_one tx.range)) loss) (pos 0)

  unfoldable pub speaker_paths :
      Scene fl → RemoteTx fl → F → F → State fl → List (SpeakerData fl) → List (AudibleUnit fl)
  unfolding text_eq speaker_place speaker_unit
  speaker_paths v tx effective loss s [] = []
  speaker_paths v tx effective loss s (box ∷ speakers) =
      let rest = speaker_paths v tx effective loss s speakers in
      if text_eq box.owner_nickname v.other.nickname
        || not (any (λ f. text_eq f tx.frequency) box.frequencies)
      then rest
      else elim (speaker_place v box s) [
        | none ↦ rest
        | some place ↦
            if is_null fl place || lt place.z (zero_f fl)
            then rest
            else if_audible (speaker_unit v tx effective loss box place s) ++ rest
      ]
