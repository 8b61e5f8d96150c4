-- ===== src/Command.antt =====
-- The parser of the callExtension protocol
-- (addon/extensions/task_force_radio_pipe/src/CommandProcessor.h and CommandProcessor.cpp): the
-- trailing `~` that tells asynchronous from synchronous commands, the dispatch, and the answers.
-- One call happens at one time `now`; the version text of the codec is a parameter.
pub mod Invariant
pub mod Answers
pub mod Grace
use task_force_radio_standal.Base.{
  ltb, leb, ◌==◌, if◌then◌else◌, length, take, drop, Text, codes, is_empty, text_eq, ℕ, ◌-◌, Bool,
  true, false, not, ◌||◌, List, [], ◌∷◌, ◌++◌,
}
use task_force_radio_standal.Float.{Float}
use task_force_radio_standal.Util.{find_first_of, split, split_limit, back}
use task_force_radio_standal.State.Data.{State}
use task_force_radio_standal.State.Handlers.{
  token, handle_pos, handle_freq, handle_tangent, handle_set_cfg, handle_killed, handle_uid,
  handle_release_all_tangents, handle_data_frame, handle_mission_end,
}
use task_force_radio_standal.State.World.{
  handle_speakers, handle_add_radio_towers, handle_del_radio_towers,
}
use task_force_radio_standal.State.Queries.{ms, speaking_pair, ts_info, needs_config}

-- What the processor reads and sets of the voice session.
pub record VoiceControl : Type 0 where
  pub connected : Bool
  pub mic_muted : Bool
  pub speaker_muted : Bool
  pub transmitting : Bool
  pub ptt_held : Bool

pub record Processor (fl : Float) : Type 0 where
  pub state : State fl
  pub voice : VoiceControl
  -- 0 while the connection is up
  pub disconnected_since : ℕ

abbrev pub tab : ℕ
tab = 0x09

abbrev pub not_connected : Text
not_connected = codes "Not connected to TeamSpeak"

abbrev pub not_connected_grace : ℕ
not_connected_grace = ms 10000

unfoldable pub first_token : Text → Text
unfolding find_first_of
first_token payload = take (find_first_of payload tab) payload

abbrev pub is_async : Text → Bool
is_async input = back input == b'~'

unfoldable pub payload_of : Text → Text
payload_of input = if is_async input then take (length input - 1) input else input

abbrev pub mark : Bool → ℕ
mark true = b'1'
mark false = b'0'

module _ (fl : Float) where
  -- One pair and a tab for each name.
  unfoldable pub speaking_bulk : List Text → State fl → Text
  unfolding speaking_pair
  speaking_bulk [] s = []
  speaking_bulk (name ∷ names) s = speaking_pair fl name s ++ tab ∷ speaking_bulk names s

  unfoldable pub process_sync : Text → Text → Text → Processor fl → Text
  unfolding text_eq split_limit split ts_info speaking_pair speaking_bulk
  process_sync opus_version command payload p =
      let tokens = split_limit payload tab 2 in
      if text_eq command (codes "TS_INFO")
      then (if ltb (length tokens) 2
          then codes "FAIL"
          else ts_info fl opus_version (token tokens 1) p.state)
      else if text_eq command (codes "IS_SPEAKING")
      then (if ltb (length tokens) 2 then codes "00" else speaking_pair fl (token tokens 1) p.state)
      else if text_eq command (codes "MUTE_STATE")
      then mark p.voice.mic_muted ∷ mark p.voice.speaker_muted ∷ mark p.voice.transmitting ∷ []
      else if text_eq command (codes "IS_SPEAKING_BULK")
      then speaking_bulk (drop 1 (split payload tab)) p.state
      else codes "UNKNOWN COMMAND"

  -- The commands that only change the state, with the tokens that each of them reads.
  unfoldable pub state_command : Text → Text → ℕ → State fl → State fl
  state_command command payload now s =
      let tokens = split payload tab in
      let two = split_limit payload tab 2 in
      let three = split_limit payload tab 3 in
      if text_eq command (codes "POS")
      then handle_pos fl tokens now s
      else if text_eq command (codes "FREQ")
      then handle_freq fl tokens s
      else if text_eq command (codes "TANGENT")
          || text_eq command (codes "TANGENT_LR")
          || text_eq command (codes "TANGENT_DD")
      then handle_tangent fl tokens s
      else if text_eq command (codes "SPEAKERS")
      then handle_speakers fl two s
      else if text_eq command (codes "SETCFG")
      then handle_set_cfg fl (split_limit payload tab 4) s
      else if text_eq command (codes "KILLED")
      then (if leb 2 (length two) then handle_killed fl (token two 1) s else s)
      else if text_eq command (codes "UID")
      then (if leb 3 (length three) then handle_uid fl (token three 1) (token three 2) s else s)
      else if text_eq command (codes "RELEASE_ALL_TANGENTS")
      then handle_release_all_tangents fl (if leb 2 (length two) then token two 1 else []) s
      else if text_eq command (codes "RadioTwrAdd")
      then (if leb 2 (length two) then handle_add_radio_towers fl (token two 1) s else s)
      else if text_eq command (codes "RadioTwrDel")
      then (if leb 2 (length two) then handle_del_radio_towers fl (token two 1) s else s)
      else if text_eq command (codes "DFRAME")
      then handle_data_frame fl s
      else if text_eq command (codes "MISSIONEND")
      then handle_mission_end fl s
      else s

  -- The commands for the voice session, which come last in the dispatch.
  unfoldable pub voice_command : Text → Text → VoiceControl → VoiceControl
  unfolding text_eq split_limit
  voice_command command payload v =
      let two = split_limit payload tab 2 in
      if text_eq command (codes "MICPTT")
      then (if leb 2 (length two)
          then record v { ptt_held = text_eq (token two 1) (codes "PRESSED") }
          else v)
      else if text_eq command (codes "MICMUTE")
      then record v { mic_muted = not v.mic_muted }
      else if text_eq command (codes "SPEAKERMUTE")
      then record v { speaker_muted = not v.speaker_muted }
      else v

  unfoldable pub process_async : Text → Text → ℕ → Processor fl → Processor fl
  process_async command payload now p = record p {
    state = state_command command payload now p.state;
    voice = voice_command command payload p.voice;
  }

  -- The grace period of POS.
  unfoldable pub answer_pos : ℕ → Processor fl → Text × Processor fl
  answer_pos now p =
      if p.voice.connected
      then (codes "OK", record p { disconnected_since = 0 })
      else if p.disconnected_since == 0
      then (codes "OK", record p { disconnected_since = now })
      else if leb not_connected_grace (now - p.disconnected_since)
      then (not_connected, p)
      else (codes "OK", p)

  -- The answer to an asynchronous command that has been carried out.
  unfoldable pub answer_async : Text → ℕ → Processor fl → Text × Processor fl
  unfolding text_eq needs_config answer_pos
  answer_async command now p =
      if text_eq command (codes "DFRAME")
      then (let (needed, s) = needs_config fl now p.state in
          (if needed then codes "NEEDCFG" else codes "OK", record p { state = s }))
      else if text_eq command (codes "MISSIONEND")
      then ([], p)
      else if text_eq command (codes "POS")
      then answer_pos now p
      else (codes "OK", p)

  unfoldable pub process : Text → Text → ℕ → Processor fl → Text × Processor fl
  process opus_version input now p =
      if is_empty input
      then ([], p)
      else (let payload = payload_of input in
          let command = first_token payload in
          if is_async input
          then answer_async command now (process_async command payload now p)
          else (process_sync opus_version command payload p, p))
