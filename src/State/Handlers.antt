-- ===== src/State/Handlers.antt =====
-- The handlers of the legacy SQF protocol in
-- addon/extensions/task_force_radio_pipe/src/State.cpp: POS, FREQ, TANGENT, SETCFG, KILLED, UID,
-- RELEASE_ALL_TANGENTS and MISSIONEND. `tokens[i]` is `get_or tokens i []`, under a test of the size.
use task_force_radio_standal.Base.{
  ltb, leb, if◌then◌else◌, length, get_or, Text, codes, is_empty, text_eq, text_is_eq, ℕ, Bool,
  true, false, not, ◌&&◌, ◌||◌, Option, none, some, List, [],
}
use task_force_radio_standal.Base.Int.{ℤ, pos, leb_ℤ}
use task_force_radio_standal.Base.Map.{Map, lookup, insert}
use task_force_radio_standal.Float.{Float}
use task_force_radio_standal.Util.{
  is_true, convert_nickname, parse_arma_number, parse_arma_number_to_int,
}
use task_force_radio_standal.Geometry.{zero_f, one_f, parse_vec3}
use task_force_radio_standal.State.Data.{RemoteClient, State, default_client}
use task_force_radio_standal.State.Parse.{is_valid_config_key, parse_vehicle, parse_frequencies}

abbrev pub token : List Text → ℕ → Text
token tokens i = get_or tokens i []

module _ (fl : Float) where
  open fl use {F, decimal, lt, le}

  unfoldable pub queue_local_message : Option Bool → State fl → State fl
  queue_local_message value s = record s { pending_transmit_override = some value }

  -- `m_clients[nickname]`, which makes a default entry where there is none.
  unfoldable pub client_at : Text → Map Text (RemoteClient fl) → RemoteClient fl
  unfolding lookup
  client_at name m = elim (lookup name m) [ none ↦ default_client fl | some c ↦ c ]

  -- The optional 15th token; a legacy caller leaves the range as it was.
  unfoldable pub speak_range : List Text → F → F
  unfolding parse_arma_number
  speak_range tokens old =
      if leb 15 (length tokens)
      then (let range = parse_arma_number fl (token tokens 14) in
          if lt (zero_f fl) range then range else decimal 20 0)
      else old

  unfoldable pub update_client : Text → List Text → ℕ → RemoteClient fl → RemoteClient fl
  unfolding parse_vec3 is_true parse_vehicle parse_arma_number parse_arma_number_to_int speak_range
  update_client nickname tokens now c = record {
    nickname = nickname;
    position = parse_vec3 fl (token tokens 2);
    view_direction = parse_vec3 fl (token tokens 3);
    can_speak = is_true (token tokens 4);
    can_use_sw = is_true (token tokens 5);
    can_use_lr = is_true (token tokens 6);
    can_use_dd = is_true (token tokens 7);
    vehicle = parse_vehicle fl (token tokens 8);
    terrain_interception = parse_arma_number_to_int fl (token tokens 9);
    voice_volume_multiplier = parse_arma_number fl (token tokens 10);
    speak_range_meters = speak_range tokens c.speak_range_meters;
    object_interception = parse_arma_number_to_int fl (token tokens 11);
    is_spectating = is_true (token tokens 12);
    is_enemy_to_player = is_true (token tokens 13);
    dead = false;
    last_update = now;
  }

  unfoldable pub handle_pos : List Text → ℕ → State fl → State fl
  handle_pos tokens now s =
      if ltb (length tokens) 14
      then s
      else (let nickname = convert_nickname (token tokens 1) in
          if is_empty nickname then s else record s {
            clients =
                insert nickname (update_client nickname tokens now (client_at nickname s.clients))
                  s.clients;
          })

  abbrev pub or_default : ℤ → ℤ
  or_default n = if leb_ℤ n (pos 0) then pos 20 else n

  abbrev pub positive_or_one : F → F
  positive_or_one r = if le r (zero_f fl) then one_f fl else r

  -- The fields that FREQ assigns.
  unfoldable pub set_frequencies : List Text → State fl → State fl
  unfolding parse_frequencies text_eq parse_arma_number parse_arma_number_to_int convert_nickname
  set_frequencies tokens s = record s {
    sw_frequencies = parse_frequencies fl (token tokens 1);
    lr_frequencies = parse_frequencies fl (token tokens 2);
    alive = text_eq (token tokens 3) (codes "true");
    speak_volume_meters = or_default (parse_arma_number_to_int fl (token tokens 4));
    my_nickname = convert_nickname (token tokens 5);
    waves_level = parse_arma_number fl (token tokens 6);
    terrain_interception_coefficient = parse_arma_number fl (token tokens 7);
    global_volume = parse_arma_number fl (token tokens 8);
    receiving_distance_multiplicator = positive_or_one (parse_arma_number fl (token tokens 9));
    speaker_distance = parse_arma_number fl (token tokens 10);
  }

  -- Respawned: the mute that KILLED installed is lifted.
  unfoldable pub handle_freq : List Text → State fl → State fl
  unfolding queue_local_message
  handle_freq tokens s =
      if ltb (length tokens) 11
      then s
      else (let s' = set_frequencies tokens s in
          if not s.alive && s'.alive then queue_local_message none s' else s')

  -- `if (!(r >= 0)) r = 0; if (r > 200000) r = 200000;`
  unfoldable pub sane_range : F → F
  sane_range r =
      let r' = if not (le (zero_f fl) r) then zero_f fl else r in
      if lt (decimal 200000 0) r' then decimal 200000 0 else r'

  -- The branches of TANGENT that change something.
  unfoldable pub set_tangent : Bool → List Text → State fl → State fl
  unfolding sane_range parse_arma_number queue_local_message text_eq
  set_tangent true tokens s = queue_local_message (some true) (record s {
    tangent_pressed = true;
    tangent_is_lr = text_eq (token tokens 0) (codes "TANGENT_LR");
    tx_frequency = token tokens 2;
    tx_subtype = token tokens 4;
    tx_range = sane_range (parse_arma_number fl (token tokens 3));
    tx_radio_classname = if ltb 5 (length tokens) then token tokens 5 else [];
  })
  set_tangent false tokens s = queue_local_message none (record s {
    tangent_pressed = false;
    tangent_is_lr = text_eq (token tokens 0) (codes "TANGENT_LR");
    tx_frequency = token tokens 2;
    tx_subtype = token tokens 4;
    tx_range = zero_f fl;
    tx_radio_classname = [];
  })

  abbrev pub same_bool : Bool → Bool → Bool
  same_bool true b = b
  same_bool false b = not b

  unfoldable pub handle_tangent : List Text → State fl → State fl
  unfolding set_tangent text_eq
  handle_tangent tokens s =
      if ltb (length tokens) 5
      then s
      else (let pressed = text_eq (token tokens 1) (codes "PRESSED") in
          if same_bool pressed s.tangent_pressed && text_eq s.tx_frequency (token tokens 2)
          then s
          else set_tangent pressed tokens s)

  unfoldable pub handle_set_cfg : List Text → State fl → State fl
  unfolding is_valid_config_key insert text_eq
  handle_set_cfg tokens s =
      if ltb (length tokens) 3
      then s
      else if not (is_valid_config_key (token tokens 1))
      then s
      else (let raw = token tokens 2 in
          let value =
            if leb 4 (length tokens) && text_eq (token tokens 3) (codes "BOOL")
            then (if text_eq raw (codes "true") || text_eq raw (codes "TRUE")
                then codes "true"
                else codes "false")
            else raw in
          record s { config = insert (token tokens 1) value s.config; have_config = true })

  unfoldable pub mark_dead : Text → Map Text (RemoteClient fl) → Map Text (RemoteClient fl)
  unfolding lookup insert
  mark_dead name m = elim (lookup name m) [
    | none ↦ m
    | some c ↦ insert name (record c { dead = true }) m
  ]

  unfoldable pub handle_killed : Text → State fl → State fl
  unfolding mark_dead queue_local_message text_eq
  handle_killed nickname s =
      let name = convert_nickname nickname in
      let s' = record s { clients = mark_dead name s.clients } in
      if not (is_empty name) && text_eq name s.my_nickname
      then queue_local_message (some false) (record s' {
        alive = false;
        tangent_pressed = false;
        tx_range = zero_f fl;
        tx_frequency = [];
        tx_radio_classname = [];
      })
      else s'

  unfoldable pub handle_uid : Text → Text → State fl → State fl
  unfolding insert
  handle_uid nickname uid s =
      let name = convert_nickname nickname in
      if is_empty name || is_empty uid
      then s
      else record s { name_to_uid = insert name uid s.name_to_uid }

  unfoldable pub handle_release_all_tangents : Text → State fl → State fl
  unfolding queue_local_message text_eq
  handle_release_all_tangents nickname s =
      let name = convert_nickname nickname in
      if not (is_empty name) && not (is_empty s.my_nickname) && not (text_eq name s.my_nickname)
      then s
      else queue_local_message none (record s {
        tangent_pressed = false;
        tx_range = zero_f fl;
        tx_frequency = [];
        tx_radio_classname = [];
      })

  unfoldable pub handle_data_frame : State fl → State fl
  handle_data_frame s = s

  unfoldable pub handle_mission_end : State fl → State fl
  unfolding queue_local_message
  handle_mission_end s = queue_local_message none (record s {
    clients = [];
    speakers = [];
    antennas = [];
    sw_frequencies = [];
    lr_frequencies = [];
    remote_tx = [];
    receiving_from = [];
    receiving_any_radio = false;
    tangent_pressed = false;
    tx_frequency = [];
    tx_radio_classname = [];
    tx_range = zero_f fl;
    alive = false;
    have_config = false;
    config_requested_at = 0;
  })
