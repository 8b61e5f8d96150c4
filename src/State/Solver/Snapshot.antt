-- ===== src/State/Solver/Snapshot.antt =====
-- All ways of hearing one client, and the snapshot of a tick
-- (addon/extensions/task_force_radio_pipe/src/State.cpp: addAudibleForClientLocked from its head
-- on, and computeAudibleUnits).
use task_force_radio_standal.Base.{
  ltb, if◌then◌else◌, Text, codes, is_empty, text_eq, text_is_eq, ℕ, ◌-◌, Bool, true, false, not,
  ◌&&◌, ◌||◌, Option, none, some, List, [], ◌∷◌, ◌++◌,
}
use task_force_radio_standal.Base.Int.{pos, negsuc, eqb_ℤ}
use task_force_radio_standal.Base.Map.{Map, lookup}
use task_force_radio_standal.Float.{Float}
use task_force_radio_standal.Geometry.{
  zero_f, one_f, no_antenna_loss, cant_speak_gain, distance_to, volume_attenuation, azimuth_to,
  clampf,
}
use task_force_radio_standal.State.Data.{RemoteClient, RemoteTx, Fx, AudibleUnit, State}
use task_force_radio_standal.State.Queries.{
  kclient_expiry, ktx_expiry, uid_for, config_bool, config_float,
}
use task_force_radio_standal.State.Solver.{effective_distance, antenna_loss}
use task_force_radio_standal.State.Solver.Paths.{
  Scene, scene, unit_of, if_audible, radio_paths, speaker_paths,
}

module _ (fl : Float) where
  open fl use {F, decimal, lt, le, add, sub, mul, div, pow, of_int}

  -- What is transmitted by a client, if it was refreshed in time.
  unfoldable pub current_tx : Text → ℕ → State fl → Option (RemoteTx fl)
  unfolding lookup
  current_tx name now s = elim (lookup name s.remote_tx) [
    | none ↦ none
    | some tx ↦ if ltb (now - tx.received) ktx_expiry then some tx else none
  ]

  unfoldable pub transmission_paths :
      Scene fl → RemoteTx fl → State fl → List (AudibleUnit fl) × Bool
  unfolding radio_paths speaker_paths
  transmission_paths v tx s =
      let effective = effective_distance fl v.my_pos v.other v.now s in
      let loss = antenna_loss fl v.his_pos tx.range v.my_pos s in
      let in_range =
        (lt (zero_f fl) tx.range && le effective tx.range) || lt loss (no_antenna_loss fl) in
      let (headset, long_range) = radio_paths fl v tx effective loss s in
      if in_range
      then (headset ++ speaker_paths fl v tx effective loss s s.speakers, long_range)
      else ([], false)

  unfoldable pub intercom_paths : Scene fl → Bool → State fl → List (AudibleUnit fl)
  unfolding text_eq
  intercom_paths v transmits s =
      let volume = config_float fl (codes "intercomVolume") (decimal 3 1) s in
      let lowered = if v.headset_lowered then mul volume (decimal 1 1) else volume in
      let ducking = sub (one_f fl) (config_float fl (codes "intercomDucking") (decimal 2 1) s) in
      let gain = if s.lr_incoming then mul lowered ducking else lowered in
      if config_bool fl (codes "intercomEnabled") true s
        && not transmits
        && not (text_eq v.other.vehicle.name (codes "no"))
        && text_eq v.other.vehicle.name v.me.vehicle.name
        && not (eqb_ℤ v.other.vehicle.intercom_slot (negsuc 0))
        && eqb_ℤ v.other.vehicle.intercom_slot v.me.vehicle.intercom_slot
      then if_audible fl
          (unit_of fl v.other.nickname Fx.intercom gain (zero_f fl) (zero_f fl) (pos 0))
      else []

  -- The gain of direct speech over a distance.
  unfoldable pub direct_gain : Scene fl → F → F
  unfolding text_eq
  direct_gain v distance =
      let range = v.other.speak_range_meters in
      let loss =
        clampf fl (add v.me.vehicle.isolation v.other.vehicle.isolation) (zero_f fl)
          (decimal 99 2) in
      let together =
        text_eq v.me.vehicle.name v.other.vehicle.name
        && not (text_eq v.me.vehicle.name (codes "no")) in
      let through = sub (one_f fl) loss in
      let gain =
        if not (v.other.can_speak && v.me.can_speak)
        then mul (volume_attenuation fl distance false range (one_f fl)) (cant_speak_gain fl)
        else if lt loss (decimal 1 2) || together
        then volume_attenuation fl distance true range (one_f fl)
        else mul (volume_attenuation fl distance true range through) (pow through (decimal 12 1)) in
      mul gain v.other.voice_volume_multiplier

  unfoldable pub not_hearable_in_spectator : Scene fl → State fl → Bool
  not_hearable_in_spectator v s =
      v.me.is_spectating
      && ((v.other.is_enemy_to_player && config_bool fl (codes "spectatorNotHearEnemies") true s)
          || (not v.other.is_enemy_to_player
              && not (config_bool fl (codes "spectatorCanHearFriendlies") true s)))

  unfoldable pub direct_paths : Scene fl → State fl → List (AudibleUnit fl)
  unfolding direct_gain not_hearable_in_spectator
  direct_paths v s =
      let distance =
        add (distance_to fl v.my_pos v.his_pos)
          (mul (decimal 2 0) (of_int v.other.object_interception)) in
      if not v.other.is_spectating
        && not (not_hearable_in_spectator v s)
        && le distance (add v.other.speak_range_meters (decimal 15 0))
      then if_audible fl (
          unit_of fl v.other.nickname Fx.direct (direct_gain v distance)
            (azimuth_to fl v.my_pos v.me.view_direction v.his_pos) (zero_f fl) (pos 0))
      else []

  -- The rows of one client, and whether a long-range radio is being received from it.
  unfoldable pub client_paths : Scene fl → State fl → List (AudibleUnit fl) × Bool
  unfolding current_tx transmission_paths intercom_paths direct_paths
  client_paths v s =
      let tx = current_tx v.other.nickname v.now s in
      let told : List (AudibleUnit fl) × Bool = elim tx [
        | none ↦ ([], false)
        | some t ↦ if v.other.is_spectating then ([], false) else transmission_paths v t s
      ] in
      let (radio, long_range) = told in
      let transmits : Bool = elim tx [ none ↦ false | some _ ↦ true ] in
      if v.me.is_spectating && v.other.is_spectating
      then (
        if config_bool fl (codes "muteSpectators") false s
            then []
            else unit_of fl v.other.nickname Fx.direct (one_f fl) (zero_f fl) (zero_f fl) (pos 0)
              ∷ [],
        false,
      )
      else (radio ++ intercom_paths v transmits s ++ direct_paths v s, long_range)

  -- Whether a client is part of the world, and not ourselves.
  unfoldable pub is_listed : ℕ → RemoteClient fl → State fl → Bool
  unfolding text_eq
  is_listed now other s =
      not (text_eq other.nickname s.my_nickname) && ltb (now - other.last_update) kclient_expiry

  unfoldable pub all_paths :
      ℕ → RemoteClient fl → State fl → Map Text (RemoteClient fl) → List (AudibleUnit fl) × Bool
  unfolding client_paths is_listed
  all_paths now me s [] = ([], false)
  all_paths now me s ((name, other) ∷ clients) =
      let (units, long_range) = all_paths now me s clients in
      let (heard, is_long) = client_paths (scene fl now me other s) s in
      if is_listed now other s then (heard ++ units, is_long || long_range) else (units, long_range)

  -- `m_talkingNames`: the senders that were refreshed in time.
  unfoldable pub talkers : ℕ → Map Text (RemoteTx fl) → List Text
  talkers now [] = []
  talkers now ((name, tx) ∷ m) =
      let rest = talkers now m in if ltb (now - tx.received) ktx_expiry then name ∷ rest else rest

  unfoldable pub finish : State fl → AudibleUnit fl → AudibleUnit fl
  finish s unit =
      let gain = mul unit.gain s.global_volume in
      record unit {
        gain = if lt gain (zero_f fl) then zero_f fl else gain;
        uid = uid_for fl unit.nickname s;
      }

  unfoldable pub finish_all : State fl → List (AudibleUnit fl) → List (AudibleUnit fl)
  unfolding finish
  finish_all s [] = []
  finish_all s (unit ∷ units) = finish s unit ∷ finish_all s units

  abbrev pub is_direct : Fx → Bool
  is_direct Fx.direct = true
  is_direct _ = false

  -- `m_receivingFrom`, a set, as a list with repetitions.
  unfoldable pub received_from : List (AudibleUnit fl) → List Text
  received_from [] = []
  received_from (unit ∷ units) =
      let rest = received_from units in if is_direct unit.fx then rest else unit.nickname ∷ rest

  -- What the solver works on: our own entry, if it is fresh.
  unfoldable pub world_paths : ℕ → State fl → List (AudibleUnit fl) × Bool
  unfolding lookup all_paths
  world_paths now s =
      if is_empty s.my_nickname then ([], false) else elim (lookup s.my_nickname s.clients) [
        | none ↦ ([], false)
        | some me ↦
            if ltb (now - me.last_update) kclient_expiry
            then all_paths now me s s.clients
            else ([], false)
      ]

  unfoldable pub compute_audible_units : ℕ → State fl → List (AudibleUnit fl) × State fl
  unfolding world_paths talkers received_from finish_all
  compute_audible_units now s =
      let (units, long_range) = world_paths now s in
      let from = received_from units in
      (
        finish_all s units,
        record s {
          talking_names = talkers now s.remote_tx;
          receiving_from = from;
          receiving_any_radio = not (is_empty from);
          lr_incoming = long_range;
          lr_incoming_pending = long_range;
        },
      )
