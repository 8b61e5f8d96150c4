-- ===== src/Command/Answers.antt =====
-- What the processor answers, command by command.
use task_force_radio_standal.Base.{
  length, drop, length-append, Text, codes, text_eq, ℕ, ◌*◌, ◌≡◌, refl, ◌⊎◌, true, false, List, [],
  ◌∷◌, arith,
}
use task_force_radio_standal.Float.{Float}
use task_force_radio_standal.Util.{split, split_limit}
use task_force_radio_standal.State.Data.{State}
use task_force_radio_standal.State.Handlers.{handle_set_cfg}
use task_force_radio_standal.State.Queries.{speaking_pair}
use task_force_radio_standal.Command.{
  Processor, tab, not_connected, first_token, is_async, payload_of, speaking_bulk, process_sync,
  state_command, voice_command, process_async, answer_pos, answer_async, process,
}

module _ (fl : Float) where
  -- A synchronous call changes nothing.
  pub sync_changes_nothing :
      (opus_version input : Text) (now : ℕ) (p : Processor fl)
      → is_async input ≡ false
      → (process fl opus_version input now p).1 ≡ p
  unfolding process
  sync_changes_nothing opus_version input now p sync = ground arith

  length-speaking_pair : (name : Text) (s : State fl) → length (speaking_pair fl name s) ≡ 2
  unfolding speaking_pair
  length-speaking_pair name s = ground arith

  length-speaking_bulk :
      (names : List Text) (s : State fl) → length (speaking_bulk fl names s) ≡ 3 * length names
  unfolding speaking_bulk
  length-speaking_bulk [] s = refl
  length-speaking_bulk (name ∷ names) s = omega (
    arith,
    length-append (speaking_pair fl name s) (tab ∷ speaking_bulk fl names s),
    length-speaking_pair name s,
    length-speaking_bulk names s,
  )

  -- The answer to any asynchronous call is one of four texts.
  async_answers :
      (command : Text) (now : ℕ) (p : Processor fl)
      → ((answer_async fl command now p).0 ≡ codes "OK")
        ⊎ ((answer_async fl command now p).0 ≡ codes "NEEDCFG")
        ⊎ ((answer_async fl command now p).0 ≡ [])
        ⊎ ((answer_async fl command now p).0 ≡ not_connected)
  unfolding answer_async answer_pos
  async_answers command now p = ground arith

  pub connected-process_async :
      (command payload : Text) (now : ℕ) (p : Processor fl)
      → (process_async fl command payload now p).voice.connected ≡ p.voice.connected
  unfolding process_async voice_command
  connected-process_async command payload now p = ground arith

  set_cfg-answer :
      (now : ℕ) (p : Processor fl) → (answer_async fl (codes "SETCFG") now p) ≡ (codes "OK", p)
  unfolding answer_async
  set_cfg-answer now p = refl

  set_cfg-command :
      (payload : Text) (now : ℕ) (s : State fl)
      → state_command fl (codes "SETCFG") payload now s
        ≡ handle_set_cfg fl (split_limit payload tab 4) s
  unfolding state_command text_eq
  set_cfg-command payload now s = refl

  -- SETCFG is carried out and answered "OK" whether or not the voice server is connected.
  pub set_cfg_not_gated :
      (opus_version input : Text) (now : ℕ) (p : Processor fl)
      → is_async input ≡ true
      → first_token (payload_of input) ≡ codes "SETCFG"
      → ((process fl opus_version input now p).0 ≡ codes "OK")
        × ((process fl opus_version input now p).1.state
            ≡ handle_set_cfg fl (split_limit (payload_of input) tab 4) p.state)
  unfolding process process_async
  set_cfg_not_gated opus_version [] now p async command = cc
  set_cfg_not_gated opus_version (c ∷ input) now p async command =
      let payload = payload_of (c ∷ input) in
      let p' = process_async fl (codes "SETCFG") payload now p in
      rw (async, command) (rw (set_cfg-answer now p') (refl, set_cfg-command payload now p.state))

  -- IS_SPEAKING_BULK answers three bytes for each name that it is asked about.
  pub length-speaking_bulk_answer :
      (opus_version command payload : Text) (p : Processor fl)
      → command ≡ codes "IS_SPEAKING_BULK"
      → length (process_sync fl opus_version command payload p)
        ≡ 3 * length (drop 1 (split payload tab))
  unfolding process_sync
  length-speaking_bulk_answer opus_version command payload p e =
      rw e (length-speaking_bulk (drop 1 (split payload tab)) p.state)
