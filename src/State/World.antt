-- ===== src/State/World.antt =====
-- SPEAKERS, RadioTwrAdd and RadioTwrDel of
-- addon/extensions/task_force_radio_pipe/src/State.cpp: the speaker radios and the antennas.
use task_force_radio_standal.Base.{
  ltb, ◌==◌, if◌then◌else◌, length, Text, is_empty, text_eq, not, ◌||◌, List, [], ◌∷◌,
}
use task_force_radio_standal.Float.{Float}
use task_force_radio_standal.Util.{
  split, convert_nickname, parse_arma_number, parse_arma_number_to_int,
}
use task_force_radio_standal.Geometry.{one_f, is_null, parse_vec3}
use task_force_radio_standal.State.Data.{SpeakerData, AntennaData, State}
use task_force_radio_standal.State.Parse.{parse_vehicle}
use task_force_radio_standal.State.Handlers.{token}

module _ (fl : Float) where
  open fl use {F}

  -- radio_id \n freqs \n nickname \n pos \n volume \n vehicle [\n waveZ]
  unfoldable pub parse_speaker : List Text → SpeakerData fl
  unfolding split convert_nickname parse_vec3 parse_arma_number parse_arma_number_to_int is_null
  parse_speaker parts =
      let position = parse_vec3 fl (token parts 3) in
      record {
        radio_id = token parts 0;
        frequencies = split (token parts 1) b'|';
        owner_nickname = convert_nickname (token parts 2);
        pos = position;
        volume = parse_arma_number_to_int fl (token parts 4);
        vehicle = parse_vehicle fl (token parts 5);
        wave_z =
            if ltb 6 (length parts)
            then parse_arma_number fl (token parts 6)
            else if is_null fl position
            then one_f fl
            else position.z;
      }

  unfoldable pub parse_speakers : List Text → List (SpeakerData fl)
  unfolding parse_speaker split
  parse_speakers [] = []
  parse_speakers (block ∷ blocks) =
      let rest = parse_speakers blocks in
      if is_empty block
      then rest
      else (let parts = split block 0x0a in
          if ltb (length parts) 6 then rest else parse_speaker parts ∷ rest)

  unfoldable pub handle_speakers : List Text → State fl → State fl
  unfolding parse_speakers split
  handle_speakers tokens s =
      if ltb (length tokens) 2 || is_empty (token tokens 1)
      then record s { speakers = [] }
      else record s { speakers = parse_speakers (split (token tokens 1) 0x0b) }

  -- The first antenna of that id is replaced, or the antenna is pushed back.
  unfoldable pub put_antenna : AntennaData fl → List (AntennaData fl) → List (AntennaData fl)
  unfolding text_eq
  put_antenna a [] = a ∷ []
  put_antenna a (b ∷ l) = if text_eq b.net_id a.net_id then a ∷ l else b ∷ put_antenna a l

  unfoldable pub add_tower : Text → List (AntennaData fl) → List (AntennaData fl)
  unfolding split parse_arma_number parse_vec3 put_antenna
  add_tower entry l =
      if is_empty entry
      then l
      else (let fields = split entry b';' in
          if not (length fields == 3)
          then l
          else if is_empty (token fields 0)
          then l
          else put_antenna
              (record {
                net_id = token fields 0;
                pos = parse_vec3 fl (token fields 2);
                range = parse_arma_number fl (token fields 1);
              })
              l)

  unfoldable pub add_towers : List Text → List (AntennaData fl) → List (AntennaData fl)
  unfolding add_tower
  add_towers [] l = l
  add_towers (entry ∷ entries) l = add_towers entries (add_tower entry l)

  unfoldable pub handle_add_radio_towers : Text → State fl → State fl
  unfolding add_towers split
  handle_add_radio_towers payload s =
      if is_empty payload
      then s
      else record s { antennas = add_towers (split payload 0x0a) s.antennas }

  -- The first antenna of that id goes.
  unfoldable pub remove_antenna : Text → List (AntennaData fl) → List (AntennaData fl)
  unfolding text_eq
  remove_antenna id [] = []
  remove_antenna id (b ∷ l) = if text_eq b.net_id id then l else b ∷ remove_antenna id l

  unfoldable pub del_towers : List Text → List (AntennaData fl) → List (AntennaData fl)
  unfolding remove_antenna
  del_towers [] l = l
  del_towers (entry ∷ entries) l =
      del_towers entries (if is_empty entry then l else remove_antenna entry l)

  unfoldable pub handle_del_radio_towers : Text → State fl → State fl
  unfolding del_towers split
  handle_del_radio_towers payload s =
      if is_empty payload
      then s
      else record s { antennas = del_towers (split payload 0x0a) s.antennas }
